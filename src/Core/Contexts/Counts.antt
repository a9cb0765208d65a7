-- ===== src/Core/Contexts/Counts.antt =====
-- How often a pointer occurs among the live ones and among those that contexts hold.
use tongsuo_go.Base.{
  ℕ, zero, suc, ◌+◌, ◌≡◌, ◌<◌, ◌≤◌, List, [], ◌∷◌, ◌++◌, some, true, if◌then◌else◌, ◌==◌, arith,
  Bool-cases, inl, inr, subst, ==_iff,
}
use tongsuo_go.Base.Positions.{get_elem?, set}
use tongsuo_go.Core.World.{contains, remove, bad_pointer}
use tongsuo_go.Core.World.Guards.{held}
use tongsuo_go.Core.Contexts.{Object, handle_of}

abbrev pub count : ℕ → List ℕ → ℕ
count p [] = 0
count p (q ∷ qs) = (if p == q then 1 else 0) + count p qs

-- The pointers that the contexts hold.
abbrev pub held_all : List Object → List ℕ
held_all [] = []
held_all (o ∷ os) = held (handle_of o) ++ held_all os

pub count-append : (p : ℕ) (xs ys : List ℕ) → count p (xs ++ ys) ≡ count p xs + count p ys
count-append p [] ys = omega arith
count-append p (x ∷ xs) ys = omega (arith, count-append p xs ys)

pub held_all-append :
    (q : ℕ) (os ps : List Object)
    → count q (held_all (os ++ ps)) ≡ count q (held_all os) + count q (held_all ps)
held_all-append q [] ps = omega arith
held_all-append q (o ∷ os) ps =
    let front = count-append q (held (handle_of o)) (held_all (os ++ ps)) in
    let back = count-append q (held (handle_of o)) (held_all os) in
    let rest = held_all-append q os ps in omega arith

pub held_all-set :
    (q : ℕ) (os : List Object) (i : ℕ) (o o' : Object)
    → get_elem? os i ≡ some o
    → count q (held_all (set os i o')) + count q (held (handle_of o))
      ≡ count q (held_all os) + count q (held (handle_of o'))
held_all-set q [] i o o' at_i = cc
held_all-set q (x ∷ os) zero o o' at_i =
    let new = count-append q (held (handle_of o')) (held_all os) in
    let old = count-append q (held (handle_of x)) (held_all os) in
    let same : count q (held (handle_of x)) ≡ count q (held (handle_of o)) = cc in omega arith
held_all-set q (x ∷ os) (suc i) o o' at_i =
    let new = count-append q (held (handle_of x)) (held_all (set os i o')) in
    let old = count-append q (held (handle_of x)) (held_all os) in
    let rest = held_all-set q os i o o' at_i in omega arith

pub held_all-get_elem? :
    (q : ℕ) (os : List Object) (i : ℕ) (o : Object)
    → get_elem? os i ≡ some o
    → count q (held (handle_of o)) ≤ count q (held_all os)
held_all-get_elem? q [] i o at_i = cc
held_all-get_elem? q (x ∷ os) zero o at_i =
    let old = count-append q (held (handle_of x)) (held_all os) in
    let same : count q (held (handle_of x)) ≡ count q (held (handle_of o)) = cc in omega arith
held_all-get_elem? q (x ∷ os) (suc i) o at_i =
    let old = count-append q (held (handle_of x)) (held_all os) in
    let rest = held_all-get_elem? q os i o at_i in omega arith

pub contains-count : (p : ℕ) (l : List ℕ) → 0 < count p l → contains p l ≡ true
contains-count p [] h = absurd (omega arith)
contains-count p (q ∷ l) h = elim (Bool-cases (p == q)) [
  | inl same ↦ rw same
  | inr other ↦ let there : 0 < count p l = ground arith in rw (other, contains-count p l there)
]

pub count-contains : (p : ℕ) (l : List ℕ) → contains p l ≡ true → 0 < count p l
count-contains p [] h = absurd cc
count-contains p (q ∷ l) h = elim (Bool-cases (p == q)) [
  | inl same ↦ ground arith
  | inr other ↦ let there = count-contains p l (subst (λ b. b ≡ true) (rw other) h) in ground arith
]

pub bad_pointer-count : (p : ℕ) (l : List ℕ) → 0 < count p l → bad_pointer l (some p) ≡ 0
bad_pointer-count p l h = rw (contains-count p l h)

-- Removing a pointer that is there.
pub count-remove :
    (q p : ℕ) (l : List ℕ)
    → 0 < count p l
    → count q (remove p l) + (if q == p then 1 else 0) ≡ count q l
count-remove q p [] h = absurd (omega arith)
count-remove q p (x ∷ l) h = elim (Bool-cases (p == x)) [
  | inl same ↦ let equal = (==_iff p x).0 same in rw same (ground arith)
  | inr other ↦
      let there : 0 < count p l = ground arith in
      let rest = count-remove q p l there in rw other (omega arith)
]
