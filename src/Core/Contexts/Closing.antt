-- ===== src/Core/Contexts/Closing.antt =====
-- Closing all contexts of a program.
use tongsuo_go.Base.{
  ℕ, zero, suc, ◌≡◌, ◌<◌, refl, sym, ap, subst, ◌∙◌, List, [], ◌∷◌, length, none, some, arith,
  Bool-cases, ==_iff, ◌==◌, inl, inr, Option-cases,
}
use tongsuo_go.Base.Positions.{
  get_elem?, set, get_elem?-set, get_elem?-set_other, length-set, get_elem?-bound,
}
use tongsuo_go.Core.World.{Library, World, pure}
use tongsuo_go.Core.World.Guards.{held}
use tongsuo_go.Core.Cipher.{close_ctx}
use tongsuo_go.Core.Digest.{close_digest_ctx}
use tongsuo_go.Core.Contexts.{
  Object, cipher_object, digest_object, handle_of, System, replaced, change, Reach, cipher_closed,
  digest_closed,
}
use tongsuo_go.Core.Contexts.Counts.{count, held_all, count-append}
use tongsuo_go.Core.Contexts.Invariant.{Balanced, closed_handle}
use tongsuo_go.Core.Contexts.Invariant.Steps.{object-Closes}
use tongsuo_go.Core.Contexts.Invariant.Reached.{Step-Balanced, Reach-Balanced}

module _ {N : Type 0} (lib : Library N) where
  unfoldable pub close_object : ℕ → Object → System N → System N
  close_object i (cipher_object c) s = change cipher_object i (close_ctx lib c) s
  close_object i (digest_object c) s = change digest_object i (close_digest_ctx lib c) s

  unfoldable pub close_at : ℕ → System N → System N
  close_at i s = elim (get_elem? s.objects i) [ none ↦ s | some o ↦ close_object i o s ]

  -- Close on each of the first `n` contexts.
  unfoldable pub close_first : ℕ → System N → System N
  close_first zero s = s
  close_first (suc n) s = close_at n (close_first n s)

  unfoldable pub close_all : System N → System N
  close_all s = close_first (length s.objects) s

-- Contexts that are all closed hold nothing.
nothing-held :
    (q : ℕ) (os : List Object)
    → ((j : ℕ) (o : Object) → get_elem? os j ≡ some o → handle_of o ≡ closed_handle)
    → count q (held_all os) ≡ 0
nothing-held q [] shut = refl
nothing-held q (o ∷ os) shut =
    let rest = nothing-held q os (λ j x at_j. shut (suc j) x at_j) in
    let first : count q (held (handle_of o)) ≡ 0 = ap (λ h. count q (held h)) (shut zero o refl) in
    let split = count-append q (held (handle_of o)) (held_all os) in omega arith

module _ {N : Type 0} (lib : Library N) (static : List ℕ) where
  record ClosedBelow (n size : ℕ) (s : System N) : Type 0 where
    balanced : Balanced static s
    sized : length s.objects ≡ size
    closed_below :
        (j : ℕ) (o : Object) → j < n → get_elem? s.objects j ≡ some o → handle_of o ≡ closed_handle

  -- The step of one Close.
  closing :
      (n size : ℕ) (s : System N) (w : World N) (o o' : Object)
      → ClosedBelow n size s
      → get_elem? s.objects n ≡ some o
      → handle_of o' ≡ closed_handle
      → Balanced static (record { world = w; objects = set s.objects n o' })
      → ClosedBelow (suc n) size (record { world = w; objects = set s.objects n o' })
  closing n size s w o o' c at_n shut after = record {
    balanced = after;
    sized = length-set s.objects n o' ∙ c.sized;
    closed_below = λ j x below at_j. elim (Bool-cases (j == n)) [
      | inl same ↦
          let equal = (==_iff j n).0 same in
          let found = get_elem?-set s.objects n o o' at_n in
          let there : get_elem? (set s.objects n o') n ≡ some x =
            subst (λ k. get_elem? (set s.objects n o') k ≡ some x) equal at_j in
          let is_new : x ≡ o' = cc in ap handle_of is_new ∙ shut
      | inr other ↦
          let less : j < n = ground arith in
          c.closed_below j x less (sym (get_elem?-set_other s.objects n j o' less) ∙ at_j)
    ];
  }

  close_object-lem :
      (n size : ℕ) (s : System N) (o : Object)
      → ClosedBelow n size s
      → get_elem? s.objects n ≡ some o
      → ClosedBelow (suc n) size (close_object lib n o s)
  unfolding close_object change replaced close_ctx close_digest_ctx pure handle_of
  close_object-lem n size s (cipher_object c) k at_n =
      closing n size s _ (cipher_object c) _ k at_n
        (object-Closes lib s n (cipher_object c) k.balanced at_n).shut
        (Step-Balanced lib static s _ k.balanced (cipher_closed n c at_n))
  close_object-lem n size s (digest_object c) k at_n =
      closing n size s _ (digest_object c) _ k at_n
        (object-Closes lib s n (digest_object c) k.balanced at_n).shut
        (Step-Balanced lib static s _ k.balanced (digest_closed n c at_n))

  close_at-lem :
      (n size : ℕ) (s : System N)
      → ClosedBelow n size s
      → ClosedBelow (suc n) size (close_at lib n s)
  unfolding close_at
  close_at-lem n size s k = elim (Option-cases (get_elem? s.objects n)) [
    | inl missing ↦
        rw (close_at, missing)
          (record {
            balanced = k.balanced;
            sized = k.sized;
            closed_below = λ j x below at_j. elim (Bool-cases (j == n)) [
              | inl same ↦
                  let equal = (==_iff j n).0 same in
                  let there : get_elem? s.objects n ≡ some x =
                    subst (λ i. get_elem? s.objects i ≡ some x) equal at_j in
                  absurd cc
              | inr other ↦ let less : j < n = ground arith in k.closed_below j x less at_j
            ];
          })
    | inr (o, found) ↦ rw (close_at, found) (close_object-lem n size s o k found)
  ]

  close_first-lem :
      (n : ℕ) (s : System N)
      → Balanced static s
      → ClosedBelow n (length s.objects) (close_first lib n s)
  unfolding close_first
  close_first-lem zero s b = record {
    balanced = b;
    sized = refl;
    closed_below = λ j x below at_j. absurd (omega arith);
  }
  close_first-lem (suc n) s b =
      close_at-lem n (length s.objects) (close_first lib n s) (close_first-lem n s b)

  -- After any calls from a balanced system, Close on every context gives all native objects back:
  -- each pointer is then live as often as the static descriptors contain it, and no call followed
  -- or freed a pointer that was not live.
  pub close_all-lem :
      (s t : System N)
      → Balanced static s
      → Reach lib static s t
      → ((close_all lib t).world.faults ≡ 0)
        × ((q : ℕ) → count q (close_all lib t).world.live ≡ count q static)
  unfolding close_all
  close_all-lem s t b reached =
      let c = close_first-lem (length t.objects) t (Reach-Balanced lib static s t b reached) in
      (
        c.balanced.faultless,
        λ q.
            let none_held =
              nothing-held q (close_first lib (length t.objects) t).objects (λ j o at_j.
                let inside =
                  get_elem?-bound (close_first lib (length t.objects) t).objects j o at_j in
                let same_size = c.sized in c.closed_below j o (omega arith) at_j) in
            let sum = c.balanced.accounted q in omega arith,
      )
