-- ===== src/Tls/Runs.antt =====
-- The theorems at concrete inputs.
use tongsuo_go.Base.{◌/◌, ◌%◌, ℕ, ◌≡◌, ◌≢◌, refl, List, [], ◌∷◌, none, some, true, false, ok}
use tongsuo_go.Base.Signed.{pos}
use tongsuo_go.Base.{All}
use tongsuo_go.Base.Dict.{String}
use tongsuo_go.Base.Text.{split, join, trim_space}
use tongsuo_go.Tls.Suites.{
  Setters, is_empty, listed, is_tls13, has_prefix, accept, try_name, scan, report, apply,
  configure_ciphers,
}
use tongsuo_go.Tls.Suites.Strict.{of_kind, configure_ciphers-strict}
use tongsuo_go.Tls.Errors.{
  ErrorCodes, Details, GoError, nil_error, end_of_file, operation_error, handshake_error,
  is_context_error, has_handshake_error, returned_error, classify_handshake_err,
}
use tongsuo_go.Tls.Errors.Classified.{Explained, returned_error-Explained}
use tongsuo_go.Tls.State.{
  ConnectionState, RawState, not_performed, snapshot, negotiated, judged, verification_failures,
  is_nonempty, is_positive, capture_state, settled, run_callbacks, first_callback, second_callback,
  then_connection,
}
use tongsuo_go.Tls.State.Chains.{Verified, snapshot-Verified}
use tongsuo_go.Tls.Handshake.{
  Attempt, finished, finish, select_error, prefer_callback, failure_of, is_none, or_capture_error,
  conclude, attempt, once, handshake,
}
use tongsuo_go.Tls.Handshake.Complete.{fresh_conn, handshake-Agrees}
use tongsuo_go.Tls.Handshake.Success.{Succeeded, handshake-Succeeded}

abbrev raw_state : RawState
raw_state = record {
  version = 0x0304;
  cipher_suite = 0x1301;
  cipher_name = [];
  server_name = [];
  protocol = [];
  group = [];
  signature = [];
  peer_certificates = (48 ∷ 1 ∷ []) ∷ [];
  verified_chain = (48 ∷ 1 ∷ []) ∷ (48 ∷ 2 ∷ []) ∷ [];
  verify_enabled = true;
  verification_performed = true;
  verify_code = pos 0;
  failures = [];
}

abbrev blank : ConnectionState
blank = record {
  handshake_complete = false;
  version = 0;
  ntls = false;
  cipher_suite = 0;
  cipher_name = [];
  server_name = [];
  negotiated_protocol = [];
  negotiated_group = [];
  peer_signature_algorithm = [];
  peer_certificates = [];
  verified_chains = [];
  verification = not_performed;
  verification_errors = [];
}

-- A handshake that goes through, with a callback that accepts.
abbrev good : Attempt ℕ
good = record {
  has_context = true;
  selected = finished none;
  context_at_end_of_native = none;
  callback_error = none;
  context_at_callback = none;
  raw_state = ok raw_state;
  config =
      some (record {
        verify_peer_certificate = some (λ certs chains. none);
        verify_connection = none;
      });
  context_at_end = none;
}

-- The same, cancelled at the very end.
abbrev late : Attempt ℕ
late = record good { context_at_end = some 9 }

handshake-Succeeded_example : Succeeded true good (handshake (fresh_conn true blank) good).1.state
unfolding handshake once attempt failure_of select_error finish prefer_callback is_none
    or_capture_error conclude capture_state settled run_callbacks first_callback second_callback
    then_connection snapshot negotiated judged verification_failures is_nonempty is_positive
handshake-Succeeded_example = handshake-Succeeded true blank good refl

-- A second call after a late cancellation returns the same error.
handshake-Agrees_example :
    let (failure, c) = handshake (fresh_conn true blank) late in
    (c.handshake_done ≡ is_none failure)
    × (c.state.handshake_complete ≡ is_none failure)
    × (handshake c good ≡ (failure, c))
handshake-Agrees_example = handshake-Agrees true blank late good refl

snapshot-Verified_example : Verified raw_state true ((48 ∷ 1 ∷ []) ∷ (48 ∷ 2 ∷ []) ∷ [])
unfolding snapshot negotiated judged verification_failures is_nonempty is_positive
snapshot-Verified_example =
    snapshot-Verified raw_state true ((48 ∷ 1 ∷ []) ∷ (48 ∷ 2 ∷ []) ∷ []) refl

-- A context that takes every name, and keeps the last one.
abbrev setters : Setters ℕ String
setters = record {
  set_cipher_suites = λ name ctx. (none, name);
  set_cipher_list = λ name ctx. (none, name);
  restrict_cipher_suites = λ l t ctx. (none, l);
}

-- "A: B" and "TLS_C".
abbrev names : List String
names = (65 ∷ 58 ∷ 32 ∷ 66 ∷ []) ∷ (84 ∷ 76 ∷ 83 ∷ 95 ∷ 67 ∷ []) ∷ []

abbrev suites : String × String
suites = ((65 ∷ 58 ∷ 66 ∷ []), (84 ∷ 76 ∷ 83 ∷ 95 ∷ 67 ∷ []))

configure_ciphers-strict_example :
    All (λ name. is_empty name ≡ false) (listed names)
    × (suites ≡ (join 58 (of_kind false (listed names)), join 58 (of_kind true (listed names))))
unfolding configure_ciphers apply report scan accept try_name is_empty listed is_tls13 has_prefix
    split join trim_space
configure_ciphers-strict_example = configure_ciphers-strict setters names [] suites refl refl

-- The library is the code divided by 1000, and the reason is the remainder.
abbrev error_codes : ErrorCodes
error_codes = record { lib_of = λ code. code / 1000; reason_of = λ code. code % 1000 }

-- An unknown reason, and then the lack of a shared cipher.
abbrev no_cipher : GoError ℕ
no_cipher =
    operation_error
      (record { name = []; ssl_code = pos 1; verify_code = pos 0; codes = 20001 ∷ 20158 ∷ [] })
      end_of_file

no_cipher-some : no_cipher ≢ nil_error
no_cipher-some h = absurd cc

returned_error-Explained_example :
    (d : Details) × (returned_error error_codes [] no_cipher ≡ handshake_error d no_cipher)
    × (d.op ≡ [])
    × Explained error_codes no_cipher d.kind
    × ((op' : String)
        → classify_handshake_err error_codes op' (returned_error error_codes [] no_cipher)
          ≡ returned_error error_codes [] no_cipher)
unfolding is_context_error has_handshake_error
returned_error-Explained_example =
    returned_error-Explained error_codes [] no_cipher no_cipher-some refl refl
