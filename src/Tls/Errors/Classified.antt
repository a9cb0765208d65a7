-- ===== src/Tls/Errors/Classified.antt =====
-- The kind of a classified error, explained by the error that it wraps.
use tongsuo_go.Base.{
  ℕ, ◌≡◌, refl, ◌≢◌, sym, ap, subst, ◌⊎◌, inl, inr, List, [], ◌∷◌, ◌++◌, All, Option, none, some,
  true, false, Bool-cases,
}
use tongsuo_go.Base.Dict.{String}
use tongsuo_go.Tls.State.{is_positive}
use tongsuo_go.Tls.Errors.{
  ErrorCodes, HandshakeErrorKind, kind_other, kind_peer_verify, kind_network, Operation, Details,
  GoError, nil_error, canceled, deadline_exceeded, end_of_file, unexpected_end_of_file, other_error,
  operation_error, handshake_error, classify_ssl_error, classify_openssl_error, is_decisive,
  scan_codes, is_syscall, kind_before_codes, has_handshake_error, find_operation, is_end_of_file,
  is_context_error, details, classify_handshake_err, returned_error,
}

-- The kind that one error code stands for.
abbrev pub kind_of : ErrorCodes → ℕ → HandshakeErrorKind
kind_of native code = classify_openssl_error (classify_ssl_error native code)

abbrev pub IsIndecisive : ErrorCodes → ℕ → Type 0
IsIndecisive native code = is_decisive (kind_of native code) ≡ false

-- The causes of a kind, in their order of precedence.
pub data Explained {E : Type 0} (native : ErrorCodes) (e : GoError E)
    : HandshakeErrorKind → Type 0 where
  by_code :
      (o : Operation) (before after : List ℕ) (code : ℕ)
      → find_operation e ≡ some o
      → o.codes ≡ before ++ (code ∷ after)
      → All (IsIndecisive native) before
      → is_decisive (kind_of native code) ≡ true
      → Explained native e (kind_of native code)
  by_verify :
      (o : Operation)
      → find_operation e ≡ some o
      → All (IsIndecisive native) o.codes
      → is_positive o.verify_code ≡ true
      → Explained native e kind_peer_verify
  by_syscall :
      (o : Operation)
      → find_operation e ≡ some o
      → All (IsIndecisive native) o.codes
      → is_positive o.verify_code ≡ false
      → is_syscall o.ssl_code ≡ true
      → Explained native e kind_network
  by_no_sign :
      (o : Operation)
      → find_operation e ≡ some o
      → All (IsIndecisive native) o.codes
      → is_positive o.verify_code ≡ false
      → is_syscall o.ssl_code ≡ false
      → Explained native e kind_other
  by_end : find_operation e ≡ none → is_end_of_file e ≡ true → Explained native e kind_network
  by_nothing : find_operation e ≡ none → is_end_of_file e ≡ false → Explained native e kind_other

-- The first code that is decisive.
record Decided (native : ErrorCodes) (codes : List ℕ) (kind : HandshakeErrorKind) : Type 0 where
  before : List ℕ
  after : List ℕ
  code : ℕ
  placed : codes ≡ before ++ (code ∷ after)
  passed : All (IsIndecisive native) before
  decisive : is_decisive (kind_of native code) ≡ true
  chosen : kind ≡ kind_of native code

scan_codes-cases :
    (native : ErrorCodes) (kind : HandshakeErrorKind) (codes : List ℕ)
    → (All (IsIndecisive native) codes × (scan_codes native kind codes ≡ kind))
      ⊎ Decided native codes (scan_codes native kind codes)
unfolding scan_codes
scan_codes-cases native kind [] = inl (tt, refl)
scan_codes-cases native kind (code ∷ codes) =
    elim (Bool-cases (is_decisive (kind_of native code))) [
      | inl h ↦ inr (record {
        before = [];
        after = codes;
        code = code;
        placed = refl;
        passed = tt;
        decisive = h;
        chosen = rw (scan_codes, h) refl;
      })
      | inr h ↦ elim (scan_codes-cases native kind codes) [
        | inl (all, same) ↦ inl ((h, all), rw (scan_codes, h) same)
        | inr d ↦ inr (record {
          before = code ∷ d.before;
          after = d.after;
          code = d.code;
          placed = ap (λ cs. code ∷ cs) d.placed;
          passed = (h, d.passed);
          decisive = d.decisive;
          chosen = rw (scan_codes, h) d.chosen;
        })
      ]
    ]

module _ {E : Type 0} (native : ErrorCodes) where
  kind_before_codes-Explained :
      (e : GoError E) (o : Operation)
      → find_operation e ≡ some o
      → All (IsIndecisive native) o.codes
      → Explained native e (kind_before_codes o)
  unfolding kind_before_codes
  kind_before_codes-Explained e o found all = elim (Bool-cases (is_positive o.verify_code)) [
    | inl h ↦ rw h (by_verify o found all h)
    | inr h ↦ elim (Bool-cases (is_syscall o.ssl_code)) [
      | inl k ↦ rw (h, k) (by_syscall o found all h k)
      | inr k ↦ rw (h, k) (by_no_sign o found all h k)
    ]
  ]

  scan_codes-Explained :
      (e : GoError E) (o : Operation)
      → find_operation e ≡ some o
      → Explained native e (scan_codes native (kind_before_codes o) o.codes)
  scan_codes-Explained e o found = elim (scan_codes-cases native (kind_before_codes o) o.codes) [
    | inl (all, same) ↦
        subst (Explained native e) (sym same) (kind_before_codes-Explained e o found all)
    | inr d ↦
        subst (Explained native e) (sym d.chosen)
          (by_code o d.before d.after d.code found d.placed d.passed d.decisive)
  ]

  details-Explained :
      (op : String) (e : GoError E) (found : Option Operation)
      → find_operation e ≡ found
      → ((details native op e found).op ≡ op) × Explained native e (details native op e found).kind
  unfolding details
  details-Explained op e (some o) h = (refl, scan_codes-Explained e o h)
  details-Explained op e none h = elim (Bool-cases (is_end_of_file e)) [
    | inl k ↦ (refl, rw k (by_end h k))
    | inr k ↦ (refl, rw k (by_nothing h k))
  ]

  returned_error-wraps :
      (op : String) (e : GoError E)
      → e ≢ nil_error
      → is_context_error e ≡ false
      → has_handshake_error e ≡ false
      → returned_error native op e ≡ handshake_error (details native op e (find_operation e)) e
  unfolding returned_error classify_handshake_err is_context_error has_handshake_error
  returned_error-wraps op nil_error some_error hc hh = absurd (some_error refl)
  returned_error-wraps op canceled some_error hc hh = absurd cc
  returned_error-wraps op deadline_exceeded some_error hc hh = absurd cc
  returned_error-wraps op end_of_file some_error hc hh = refl
  returned_error-wraps op unexpected_end_of_file some_error hc hh = refl
  returned_error-wraps op (other_error a e) some_error hc hh = rw (hc, hh) refl
  returned_error-wraps op (operation_error o e) some_error hc hh = rw (hc, hh) refl
  returned_error-wraps op (handshake_error d e) some_error hc hh = absurd cc

  -- An error of the handshake that is not nil, comes from no Go context and wraps no
  -- HandshakeError is returned inside a HandshakeError of the given operation, whose kind is that
  -- of the first decisive code of the native error, else peer verification when its verify code is
  -- positive, else network when it is a failed system call, and without a native error network at
  -- the end of the stream, and other in the remaining cases; to classify the result again changes
  -- nothing.
  pub returned_error-Explained :
      (op : String) (e : GoError E)
      → e ≢ nil_error
      → is_context_error e ≡ false
      → has_handshake_error e ≡ false
      → (d : Details) × (returned_error native op e ≡ handshake_error d e)
        × (d.op ≡ op)
        × Explained native e d.kind
        × ((op' : String)
            → classify_handshake_err native op' (returned_error native op e)
              ≡ returned_error native op e)
  unfolding classify_handshake_err has_handshake_error
  returned_error-Explained op e some_error hc hh =
      let same = returned_error-wraps op e some_error hc hh in
      let (at_op, explained) = details-Explained op e (find_operation e) refl in
      (details native op e (find_operation e), same, at_op, explained, λ op'. rw same refl)
