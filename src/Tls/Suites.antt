-- ===== src/Tls/Suites.antt =====
-- The cipher configuration of tls/suites.go. The native TLS context is a parameter: a type of states,
-- and the setters, of which each may fail. `:` is 58.
pub mod Strict
use tongsuo_go.Base.{
  ℕ, ◌≡◌, List, [], ◌∷◌, ◌++◌, map, Option, none, some, Bool, true, false, not, ◌&&◌, if◌then◌else◌,
  ◌==◌, Result, ok, err,
}
use tongsuo_go.Base.Dict.{String, string_eq}
use tongsuo_go.Base.Text.{split, join, trim_space}
use tongsuo_go.Meta.Encoding.{codes}

pub data SuiteError (E : Type 0) : Type 0 where
  empty_suite no_shared_cipher : SuiteError E
  unsupported : String → E → SuiteError E
  setter_failed : E → SuiteError E

-- `SetCipherSuites`, `SetCipherList` and `RestrictCipherSuites` of the context.
pub record Setters (E C : Type 0) : Type 0 where
  pub set_cipher_suites : String → C → Option E × C
  pub set_cipher_list : String → C → Option E × C
  pub restrict_cipher_suites : String → String → C → Option E × C

unfoldable pub has_prefix : String → String → Bool
has_prefix s [] = true
has_prefix [] (p ∷ ps) = false
has_prefix (c ∷ s) (p ∷ ps) = c == p && has_prefix s ps

unfoldable pub is_tls13 : String → Bool
is_tls13 name = has_prefix name (codes "TLS_")

-- The names of the two loops, in their order.
unfoldable pub listed : List String → List String
listed [] = []
listed (entry ∷ entries) = map trim_space (split 58 entry) ++ listed entries

unfoldable pub is_empty : {A : Type 0} → List A → Bool
is_empty [] = true
is_empty (x ∷ xs) = false

-- The accepted names: legacy and TLS 1.3.
abbrev pub Accepted : Type 0
Accepted = List String × List String

unfoldable pub accept : String → Accepted → Accepted
accept name (legacy, tls13) =
    if is_tls13 name then (legacy, tls13 ++ name ∷ []) else (legacy ++ name ∷ [], tls13)

module _ {E C : Type 0} (setters : Setters E C) where
  unfoldable pub try_name : String → C → Option E × C
  try_name name ctx =
      if is_tls13 name then setters.set_cipher_suites name ctx else setters.set_cipher_list name ctx

  -- The rounds of the loop.
  unfoldable pub scan : Bool → List String → Accepted → C → Result (SuiteError E) Accepted × C
  scan strict [] accepted ctx = (ok accepted, ctx)
  scan strict (name ∷ names) accepted ctx = elim (is_empty name) [
    | true ↦ if strict then (err empty_suite, ctx) else scan strict names accepted ctx
    | false ↦
        let (failure, ctx') = try_name name ctx in
        elim failure [
          | some e ↦
              if strict then (err (unsupported name e), ctx') else scan strict names accepted ctx'
          | none ↦ scan strict names (accept name accepted) ctx'
        ]
  ]

  unfoldable pub report :
      String → String → Option E × C → Result (SuiteError E) (String × String) × C
  report l t (none, ctx) = (ok (l, t), ctx)
  report l t (some e, ctx) = (err (setter_failed e), ctx)

  -- `if l != "" { … }` and `if t != "" { … }`, for the setters one after the other.
  unfoldable pub set_tls13 :
      String → String → Option E × C → Result (SuiteError E) (String × String) × C
  set_tls13 l t (some e, ctx) = (err (setter_failed e), ctx)
  set_tls13 l t (none, ctx) =
      if is_empty t then (ok (l, t), ctx) else report l t (setters.set_cipher_suites t ctx)

  unfoldable pub set_both : String → String → C → Result (SuiteError E) (String × String) × C
  set_both l t ctx =
      set_tls13 l t (if is_empty l then (none, ctx) else setters.set_cipher_list l ctx)

  unfoldable pub apply :
      Bool → Bool → Result (SuiteError E) Accepted × C → Result (SuiteError E) (String × String) × C
  apply strict given (err e, ctx) = (err e, ctx)
  apply strict given (ok (legacy, tls13), ctx) =
      let l = join 58 legacy in
      let t = join 58 tls13 in
      if given && is_empty l && is_empty t
      then (err no_shared_cipher, ctx)
      else if strict && given
      then report l t (setters.restrict_cipher_suites l t ctx)
      else set_both l t ctx

  unfoldable pub configure_ciphers :
      List String → Bool → C → Result (SuiteError E) (String × String) × C
  configure_ciphers names strict ctx =
      apply strict (not (is_empty names)) (scan strict (listed names) ([], []) ctx)

  -- `applyCipherSuites`
  unfoldable pub apply_cipher_suites : List String → C → Option (SuiteError E) × C
  apply_cipher_suites names ctx =
      let (r, ctx') = configure_ciphers names false ctx in
      (elim r [ ok suites ↦ none | err e ↦ some e ], ctx')
