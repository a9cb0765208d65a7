-- ===== src/Base/Positions.antt =====
-- Lists by native positions, under the library's names.
use Prim.Native.Nat.{ℕ, zero, suc, ◌<◌}
use mathlib.Core.Path.{◌≡◌, refl, ap}
use mathlib.Core.Option.{Option, none, some}
use mathlib.Core.List.{List, [], ◌∷◌, ◌++◌}
use native.Mathlib.Omega.{arith}
use tongsuo_go.Base.Lists.{length}

abbrev pub get_elem? {ℓ} : {A : Type ℓ} → List A → ℕ → Option A
get_elem? [] n = none
get_elem? (x ∷ xs) zero = some x
get_elem? (x ∷ xs) (suc n) = get_elem? xs n

abbrev pub set {ℓ} : {A : Type ℓ} → List A → ℕ → A → List A
set [] n y = []
set (x ∷ xs) zero y = y ∷ xs
set (x ∷ xs) (suc n) y = x ∷ set xs n y

pub get_elem?-append {ℓ} :
    {A : Type ℓ} (xs ys : List A) (n : ℕ) (x : A)
    → get_elem? xs n ≡ some x
    → get_elem? (xs ++ ys) n ≡ some x
get_elem?-append [] ys n x h = cc
get_elem?-append (y ∷ xs) ys zero x h = h
get_elem?-append (y ∷ xs) ys (suc n) x h = get_elem?-append xs ys n x h

pub get_elem?-length {ℓ} :
    {A : Type ℓ} (xs : List A) (x : A) → get_elem? (xs ++ (x ∷ [])) (length xs) ≡ some x
get_elem?-length [] x = refl
get_elem?-length (y ∷ xs) x = get_elem?-length xs x

pub get_elem?-set {ℓ} :
    {A : Type ℓ} (xs : List A) (n : ℕ) (x y : A)
    → get_elem? xs n ≡ some x
    → get_elem? (set xs n y) n ≡ some y
get_elem?-set [] n x y h = cc
get_elem?-set (z ∷ xs) zero x y h = refl
get_elem?-set (z ∷ xs) (suc n) x y h = get_elem?-set xs n x y h

pub get_elem?-set_other {ℓ} :
    {A : Type ℓ} (xs : List A) (n m : ℕ) (y : A) → m < n → get_elem? (set xs n y) m ≡ get_elem? xs m
get_elem?-set_other [] n m y h = refl
get_elem?-set_other (x ∷ xs) zero m y h = absurd (omega arith)
get_elem?-set_other (x ∷ xs) (suc n) zero y h = refl
get_elem?-set_other (x ∷ xs) (suc n) (suc m) y h = get_elem?-set_other xs n m y (omega arith)

pub length-set {ℓ} : {A : Type ℓ} (xs : List A) (n : ℕ) (y : A) → length (set xs n y) ≡ length xs
length-set [] n y = refl
length-set (x ∷ xs) zero y = refl
length-set (x ∷ xs) (suc n) y = ap suc (length-set xs n y)

pub get_elem?-bound {ℓ} :
    {A : Type ℓ} (xs : List A) (n : ℕ) (x : A) → get_elem? xs n ≡ some x → n < length xs
get_elem?-bound [] n x h = absurd cc
get_elem?-bound (y ∷ xs) zero x h = omega arith
get_elem?-bound (y ∷ xs) (suc n) x h = let rest = get_elem?-bound xs n x h in omega arith
