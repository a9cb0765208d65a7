-- ===== src/Base/Dict.antt =====
-- Go's maps with string keys, as association lists. A Go string is the list of its bytes.
use Prim.Native.Nat.{ℕ}
use mathlib.Core.Path.{◌≡◌, refl, ap, subst}
use mathlib.Core.Logic.{inl, inr}
use mathlib.Core.Bool.{Bool, true, false}
use mathlib.Core.Option.{Option, none, some}
use mathlib.Core.List.{List, [], ◌∷◌}
use tongsuo_go.Base.Tests.{◌==◌, ==_iff, ==_refl, if◌then◌else◌, Bool-cases}

abbrev pub String : Type 0
String = List ℕ

-- `==` on strings.
unfoldable pub string_eq : String → String → Bool
string_eq [] [] = true
string_eq [] (d ∷ t) = false
string_eq (c ∷ s) [] = false
string_eq (c ∷ s) (d ∷ t) = let rest = string_eq s t in if c == d then rest else false

pub string_eq_refl : (s : String) → string_eq s s ≡ true
unfolding string_eq
string_eq_refl [] = refl
string_eq_refl (c ∷ s) = rw (==_refl c) (string_eq_refl s)

pub string_eq→≡ : (s t : String) → string_eq s t ≡ true → s ≡ t
unfolding string_eq
string_eq→≡ [] [] h = refl
string_eq→≡ [] (d ∷ t) h = cc
string_eq→≡ (c ∷ s) [] h = cc
string_eq→≡ (c ∷ s) (d ∷ t) h = elim (Bool-cases (c == d)) [
  | inr differ ↦ absurd (cc (rw differ at h))
  | inl same ↦ rw ((==_iff c d).0 same) (ap (λ r. d ∷ r) (string_eq→≡ s t (rw same at h)))
]

pub string_eq-moved :
    (s other t : String)
    → string_eq s t ≡ true
    → string_eq other s ≡ false
    → string_eq other t ≡ false
string_eq-moved s other t same h = subst (λ r. string_eq other r ≡ false) (string_eq→≡ s t same) h

-- The entries, each key once.
pub data Dict (V : Type 0) : Type 0 where
  empty : Dict V
  entry : String → V → Dict V → Dict V

module _ {V : Type 0} where
  -- `v, ok := m[key]`
  unfoldable pub lookup : String → Dict V → Option V
  lookup key empty = none
  lookup key (entry k v d) = if string_eq key k then some v else lookup key d

  -- `m[key] = v`
  unfoldable pub insert : String → V → Dict V → Dict V
  insert key v empty = entry key v empty
  insert key v (entry k w d) = if string_eq key k then entry k v d else entry k w (insert key v d)

  -- `delete(m, key)`
  unfoldable pub delete : String → Dict V → Dict V
  delete key empty = empty
  delete key (entry k w d) = if string_eq key k then delete key d else entry k w (delete key d)

  -- The values, as `range` gives them in some order.
  unfoldable pub values : Dict V → List V
  values empty = []
  values (entry k v d) = v ∷ values d

  pub lookup-insert : (key : String) (v : V) (d : Dict V) → lookup key (insert key v d) ≡ some v
  unfolding lookup insert
  lookup-insert key v empty = rw (string_eq_refl key)
  lookup-insert key v (entry k w d) = elim (Bool-cases (string_eq key k)) [
    | inl same ↦ rw (same, same, lookup)
    | inr differ ↦ rw (differ, differ, lookup) (lookup-insert key v d)
  ]

  pub lookup-insert_other :
      (key other : String) (v : V) (d : Dict V)
      → string_eq other key ≡ false
      → lookup other (insert key v d) ≡ lookup other d
  unfolding lookup insert
  lookup-insert_other key other v empty h = rw h
  lookup-insert_other key other v (entry k w d) h = elim (Bool-cases (string_eq key k)) [
    | inl same ↦ rw (same, lookup, string_eq-moved key other k same h)
    | inr differ ↦ rw (differ, lookup, lookup-insert_other key other v d h)
  ]

  pub lookup-delete : (key : String) (d : Dict V) → lookup key (delete key d) ≡ none
  unfolding lookup delete
  lookup-delete key empty = refl
  lookup-delete key (entry k w d) = elim (Bool-cases (string_eq key k)) [
    | inl same ↦ rw (same) (lookup-delete key d)
    | inr differ ↦ rw (differ, lookup, differ) (lookup-delete key d)
  ]

  pub lookup-delete_other :
      (key other : String) (d : Dict V)
      → string_eq other key ≡ false
      → lookup other (delete key d) ≡ lookup other d
  unfolding lookup delete
  lookup-delete_other key other empty h = refl
  lookup-delete_other key other (entry k w d) h = elim (Bool-cases (string_eq key k)) [
    | inl same ↦ rw (same, string_eq-moved key other k same h) (lookup-delete_other key other d h)
    | inr differ ↦ rw (differ, lookup, lookup-delete_other key other d h)
  ]
