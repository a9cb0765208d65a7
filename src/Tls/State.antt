-- ===== src/Tls/State.antt =====
-- The snapshot of a connection, tls/state.go. The copies that `cloneDER` and `cloneState` make have no
-- trace here, where slices are values. The native snapshot and the callbacks of the configuration are
-- parameters.
pub mod Chains
use tongsuo_go.Base.{
  ℕ, ◌∷◌, List, [], ◌++◌, map, Option, none, some, Bool, true, false, not, ◌&&◌, if◌then◌else◌,
  ◌==◌, Result, ok, err,
}
use tongsuo_go.Base.Dict.{String}
use tongsuo_go.Base.Signed.{ℤ, pos, negsuc}

abbrev pub Der : Type 0
Der = List ℕ

pub data Verification : Type 0 where
  not_performed passed failed : Verification

pub record VerificationError : Type 0 where
  pub code : ℤ
  pub depth : ℤ
  pub certificate : Der

pub record ConnectionState : Type 0 where
  pub handshake_complete : Bool
  pub version : ℕ
  pub ntls : Bool
  pub cipher_suite : ℕ
  pub cipher_name : String
  pub server_name : String
  pub negotiated_protocol : String
  pub negotiated_group : String
  pub peer_signature_algorithm : String
  pub peer_certificates : List Der
  pub verified_chains : List (List Der)
  pub verification : Verification
  pub verification_errors : List VerificationError

-- `core.TLSState`, the result of `c.ssl.State()`.
pub record RawState : Type 0 where
  pub version : ℕ
  pub cipher_suite : ℕ
  pub cipher_name : String
  pub server_name : String
  pub protocol : String
  pub group : String
  pub signature : String
  pub peer_certificates : List Der
  pub verified_chain : List Der
  pub verify_enabled : Bool
  pub verification_performed : Bool
  pub verify_code : ℤ
  pub failures : List VerificationError

-- `VerifyPeerCertificate` and `VerifyConnection` of the configuration that was selected.
pub record Config (E : Type 0) : Type 0 where
  pub verify_peer_certificate : Option (List Der → List (List Der) → Option E)
  pub verify_connection : Option (ConnectionState → Option E)

-- NTLSVersion
abbrev pub ntls_version : ℕ
ntls_version = 0x0101

unfoldable pub is_nonempty : {A : Type 0} → List A → Bool
is_nonempty [] = false
is_nonempty (x ∷ xs) = true

unfoldable pub is_positive : ℤ → Bool
is_positive (pos n) = not (n == 0)
is_positive (negsuc n) = false

-- The state before its verification is looked at.
unfoldable pub negotiated : RawState → Bool → ConnectionState
negotiated raw success = record {
  handshake_complete = success;
  version = raw.version;
  ntls = raw.version == ntls_version;
  cipher_suite = raw.cipher_suite;
  cipher_name = raw.cipher_name;
  server_name = raw.server_name;
  negotiated_protocol = raw.protocol;
  negotiated_group = raw.group;
  peer_signature_algorithm = raw.signature;
  peer_certificates = raw.peer_certificates;
  verified_chains = [];
  verification = not_performed;
  verification_errors = [];
}

-- The recorded failures, or the final code when it is one and none was recorded.
unfoldable pub verification_failures : RawState → List VerificationError
verification_failures raw =
    if is_positive raw.verify_code && not (is_nonempty raw.failures)
    then record { code = raw.verify_code; depth = pos 0; certificate = [] } ∷ []
    else raw.failures

-- The verification of a state with these failures.
unfoldable pub judged : RawState → Bool → ConnectionState → List VerificationError → ConnectionState
judged raw success state (e ∷ es) = record state {
  verification = failed;
  verification_errors = e ∷ es;
}
judged raw success state [] =
    if success && is_nonempty raw.verified_chain
    then record state { verification = passed; verified_chains = raw.verified_chain ∷ [] }
    else record state { verification = passed }

unfoldable pub snapshot : RawState → Bool → ConnectionState
snapshot raw success =
    if raw.verify_enabled && raw.verification_performed && is_nonempty raw.peer_certificates
    then judged raw success (negotiated raw success) (verification_failures raw)
    else negotiated raw success

-- `captureState`: an error of `ssl.State` leaves the stored state as it was. The error of a callback
-- is stored with a state that is not complete.
pub data CaptureError (E : Type 0) : Type 0 where
  state_failed : E → CaptureError E
  verify_callback : E → CaptureError E

module _ {E : Type 0} where
  unfoldable pub first_callback :
      Option (List Der → List (List Der) → Option E) → ConnectionState → Option E
  first_callback none state = none
  first_callback (some verify) state = verify state.peer_certificates state.verified_chains

  unfoldable pub second_callback : Option (ConnectionState → Option E) → ConnectionState → Option E
  second_callback none state = none
  second_callback (some verify) state = verify state

  -- `if err == nil && cfg.VerifyConnection != nil`
  unfoldable pub then_connection : Option E → Config E → ConnectionState → Option E
  then_connection (some e) cfg state = some e
  then_connection none cfg state = second_callback cfg.verify_connection state

  unfoldable pub run_callbacks : Bool → Option (Config E) → ConnectionState → Option E
  run_callbacks false cfg state = none
  run_callbacks true none state = none
  run_callbacks true (some cfg) state =
      then_connection (first_callback cfg.verify_peer_certificate state) cfg state

  unfoldable pub settled : ConnectionState → Option E → Option (CaptureError E) × ConnectionState
  settled state none = (none, state)
  settled state (some e) = (some (verify_callback e), record state { handshake_complete = false })

  unfoldable pub capture_state :
      Result E RawState
      → Option (Config E)
      → Bool
      → ConnectionState
      → Option (CaptureError E) × ConnectionState
  capture_state (err e) cfg success stored = (some (state_failed e), stored)
  capture_state (ok raw) cfg success stored =
      let state = snapshot raw success in settled state (run_callbacks success cfg state)
