-- ===== src/Tls/Suites/Strict.antt =====
-- A strict configuration drops no name.
use tongsuo_go.Base.{
  ◌≡◌, refl, sym, ap, ◌∙◌, List, [], ◌∷◌, ◌++◌, append-nil, append_assoc, Option, none, some, Bool,
  true, false, ◌&&◌, if◌then◌else◌, Result, ok, err, ok-injective, All, Bool-cases, Option-cases,
  inl, inr,
}
use tongsuo_go.Base.Dict.{String}
use tongsuo_go.Base.Text.{join}
use tongsuo_go.Tls.Suites.{
  Setters, SuiteError, Accepted, is_tls13, listed, is_empty, accept, try_name, scan, report, apply,
  configure_ciphers,
}

-- The names of each kind, in their order.
unfoldable pub of_kind : Bool → List String → List String
of_kind tls13 [] = []
of_kind tls13 (name ∷ names) =
    let rest = of_kind tls13 names in
    if is_tls13 name
    then (if tls13 then name ∷ rest else rest)
    else (if tls13 then rest else name ∷ rest)

module _ {E C : Type 0} (setters : Setters E C) where
  accept-of_kind :
      (name : String) (names legacy tls13 : List String)
      → ((accept name (legacy, tls13)).0 ++ of_kind false names
          ≡ legacy ++ of_kind false (name ∷ names))
        × ((accept name (legacy, tls13)).1 ++ of_kind true names
            ≡ tls13 ++ of_kind true (name ∷ names))
  unfolding accept of_kind
  accept-of_kind name names legacy tls13 = elim (Bool-cases (is_tls13 name)) [
    | inl new ↦ rw new (refl, append_assoc tls13 (name ∷ []) (of_kind true names))
    | inr old ↦ rw old (append_assoc legacy (name ∷ []) (of_kind false names), refl)
  ]

  scan-strict :
      (names legacy tls13 : List String) (ctx : C) (accepted : Accepted)
      → (scan setters true names (legacy, tls13) ctx).0 ≡ ok accepted
      → All (λ name. is_empty name ≡ false) names
        × (accepted.0 ≡ legacy ++ of_kind false names)
        × (accepted.1 ≡ tls13 ++ of_kind true names)
  unfolding scan of_kind
  scan-strict [] legacy tls13 ctx accepted done =
      let same = ok-injective done in
      (
        tt,
        ap (λ (a : Accepted). a.0) (sym same) ∙ sym (append-nil legacy),
        ap (λ (a : Accepted). a.1) (sym same) ∙ sym (append-nil tls13),
      )
  scan-strict (name ∷ names) legacy tls13 ctx accepted done = elim (Bool-cases (is_empty name)) [
    | inl blank ↦ absurd (cc (rw (scan, blank) at done))
    | inr given ↦ elim (Option-cases (try_name setters name ctx).0) [
      | inl taken ↦
          let next = accept name (legacy, tls13) in
          let (all, l, t) =
            scan-strict names next.0 next.1 (try_name setters name ctx).1 accepted
              (rw (scan, given, taken) at done) in
          let (same_l, same_t) = accept-of_kind name names legacy tls13 in
          ((given, all), l ∙ same_l, t ∙ same_t)
      | inr (e, failed) ↦ absurd (cc (rw (scan, given, failed) at done))
    ]
  ]

  report-ok :
      (l t : String) (outcome : Option E × C) (suites : String × String)
      → (report setters l t outcome).0 ≡ ok suites
      → suites ≡ (l, t)
  unfolding report
  report-ok l t (none, ctx) suites done = sym (ok-injective done)
  report-ok l t (some e, ctx) suites done = absurd cc

  apply-strict :
      (scanned : Result (SuiteError E) Accepted) (ctx : C) (suites : String × String)
      → (apply setters true true (scanned, ctx)).0 ≡ ok suites
      → (accepted : Accepted) × (scanned ≡ ok accepted)
        × (suites ≡ (join 58 accepted.0, join 58 accepted.1))
  unfolding apply
  apply-strict (err e) ctx suites done = absurd cc
  apply-strict (ok (legacy, tls13)) ctx suites done =
      elim (Bool-cases (is_empty (join 58 legacy) && is_empty (join 58 tls13))) [
        | inl nothing ↦ absurd (cc (rw (apply, nothing) at done))
        | inr shared ↦ (
          (legacy, tls13),
          refl,
          report-ok (join 58 legacy) (join 58 tls13) _ suites (rw (apply, shared) at done),
        )
      ]

  -- When a strict configuration of a nonempty list succeeds, no name of the list is empty, and the
  -- two returned texts are all the names in their order, those of TLS 1.3 in the second and the
  -- others in the first.
  pub configure_ciphers-strict :
      (names : List String) (ctx : C) (suites : String × String)
      → is_empty names ≡ false
      → (configure_ciphers setters names true ctx).0 ≡ ok suites
      → All (λ name. is_empty name ≡ false) (listed names)
        × (suites ≡ (join 58 (of_kind false (listed names)), join 58 (of_kind true (listed names))))
  unfolding configure_ciphers
  configure_ciphers-strict names ctx suites given done =
      let scanned = scan setters true (listed names) ([], []) ctx in
      let (accepted, taken, same) =
        apply-strict scanned.0 scanned.1 suites (rw (configure_ciphers, given) at done) in
      let (all, l, t) = scan-strict (listed names) [] [] ctx accepted taken in
      (
        all,
        same
            ∙ ap (λ x. (join 58 x, join 58 accepted.1)) l
            ∙ ap (λ x. (join 58 (of_kind false (listed names)), join 58 x)) t,
      )
