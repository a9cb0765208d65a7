-- ===== src/Base/Digits.antt =====
-- The loop that Go code writes to split a number into groups, and what the groups stand for.
--   for x := v; x > 0; x >>= k { b = append([]byte{byte(x & (1<<k - 1))}, b...) }
use mathlib.Core.Path.{◌≡◌, refl, ap, ◌∙◌}
use mathlib.Core.List.{List, [], ◌∷◌}
use mathlib.Core.Logic.{inl, inr}
use Prim.Native.Nat.{ℕ, zero, suc, ◌+◌, ◌*◌, ◌/◌, ◌%◌, ◌^◌, ◌≤◌, ◌<◌}
use native.Mathlib.Omega.{arith}
use native.Mathlib.Nat.{div-add-mod', pow-zero, pow-suc}
use tongsuo_go.Base.Tests.{◌==◌, if◌then◌else◌, Bool-cases, ==_iff}
use tongsuo_go.Base.Lists.{length, All}

module _ (base : ℕ) where
  -- `fuel` rounds at most. A round makes `x` smaller, so with `x ≤ fuel` the loop ends by its test.
  unfoldable pub groups : ℕ → ℕ → List ℕ → List ℕ
  groups zero x b = b
  groups (suc fuel) x b =
      let rest = groups fuel (x / base) (x % base ∷ b) in if x == 0 then b else rest

  -- The number that big-endian groups stand for, with `a` in front.
  unfoldable pub from_groups : ℕ → List ℕ → ℕ
  from_groups a [] = a
  from_groups a (c ∷ cs) = from_groups (a * base + c) cs

-- `groups` in one step.
groups_stop : (base fuel : ℕ) (b : List ℕ) → groups base fuel 0 b ≡ b
unfolding groups
groups_stop base zero b = refl
groups_stop base (suc fuel) b = refl

groups_round :
    (base fuel x : ℕ) (b : List ℕ)
    → 0 < x
    → groups base (suc fuel) x b ≡ groups base fuel (x / base) (x % base ∷ b)
unfolding groups
groups_round base fuel x b h = ground arith

module _ (base : ℕ) (big : 2 ≤ base) where
  shrinks : (x fuel : ℕ) → 0 < x → x ≤ suc fuel → x / base ≤ fuel
  shrinks x fuel h hf = grind arith

  -- The groups of `x` stand for `x`.
  pub from_groups-groups :
      (fuel x : ℕ) (b : List ℕ)
      → x ≤ fuel
      → from_groups base 0 (groups base fuel x b) ≡ from_groups base x b
  unfolding from_groups
  from_groups-groups zero zero b h = rw (groups_stop base 0 b)
  from_groups-groups zero (suc x) b h = absurd (omega arith)
  from_groups-groups (suc fuel) zero b h = rw (groups_stop base (suc fuel) b)
  from_groups-groups (suc fuel) (suc x) b h = rw (groups_round base fuel (suc x) b (omega arith)) (
      from_groups-groups fuel (suc x / base) (suc x % base ∷ b)
        (shrinks (suc x) fuel (omega arith) h)
      ∙ ap (λ t. from_groups base t b) (div-add-mod' (suc x) base))

  pub groups-All :
      (fuel x : ℕ) (b : List ℕ) → All (λ c. c < base) b → All (λ c. c < base) (groups base fuel x b)
  groups-All zero x b h = unfold groups in h
  groups-All (suc fuel) zero b h = rw (groups_stop base (suc fuel) b) h
  groups-All (suc fuel) (suc x) b h =
      rw (groups_round base fuel (suc x) b (omega arith))
        (groups-All fuel (suc x / base) (suc x % base ∷ b) (grind arith, h))

  quotient-lt : (k x : ℕ) → x < base ^ suc k → x / base < base ^ k
  quotient-lt k x h = grind (arith, pow-suc base k, div-add-mod' x base)

  -- Below `base ^ k` there are at most `k` groups.
  pub length-groups :
      (k fuel x : ℕ) (b : List ℕ) → x < base ^ k → length (groups base fuel x b) ≤ k + length b
  length-groups k zero x b h = unfold groups in omega arith
  length-groups k (suc fuel) zero b h = rw (groups_stop base (suc fuel) b) (omega arith)
  length-groups zero (suc fuel) (suc x) b h = absurd (omega (arith, pow-zero base))
  length-groups (suc k) (suc fuel) (suc x) b h =
      rw (groups_round base fuel (suc x) b (omega arith)) (
        omega
          (arith, length-groups k fuel (suc x / base) (suc x % base ∷ b) (quotient-lt k (suc x) h)))

  pub le-from_groups : (a : ℕ) (b : List ℕ) → a ≤ from_groups base a b
  unfolding from_groups
  le-from_groups a [] = omega arith
  le-from_groups a (c ∷ cs) = grind (arith, le-from_groups (a * base + c) cs)

  -- A number above zero has a group, and the groups in front of `b` start with one above zero.
  pub groups_pos :
      (fuel x : ℕ) (b : List ℕ)
      → 0 < x
      → x ≤ fuel
      → (g : ℕ) × (gs : List ℕ) × (groups base fuel x b ≡ g ∷ gs) × (0 < g)
  groups_pos zero x b p h = absurd (omega arith)
  groups_pos (suc fuel) zero b p h = absurd (omega arith)
  groups_pos (suc fuel) (suc x) b p h = elim (Bool-cases (suc x / base == 0)) [
    | inl last ↦ (
      suc x % base,
      b,
      groups_round base fuel (suc x) b p
          ∙ ap (λ t. groups base fuel t (suc x % base ∷ b)) ((==_iff _ 0).0 last)
          ∙ groups_stop base fuel _,
      grind (arith, div-add-mod' (suc x) base, (==_iff (suc x / base) 0).0 last),
    )
    | inr more ↦
        let (g, gs, e, q) =
          groups_pos fuel (suc x / base) (suc x % base ∷ b) (ground (arith, more))
            (shrinks (suc x) fuel p h) in
        (g, gs, groups_round base fuel (suc x) b p ∙ e, q)
  ]

split_place : (a c p f : ℕ) → (a * 256 + c) * p + f ≡ a * (p * 256) + ((0 * 256 + c) * p + f)
split_place a c p f = omega arith

-- Big-endian bytes, by position, and their bound.
pub from_groups_split :
    (a : ℕ) (bs : List ℕ) → from_groups 256 a bs ≡ a * 256 ^ length bs + from_groups 256 0 bs
unfolding from_groups
from_groups_split a [] = omega (arith, pow-zero 256)
from_groups_split a (c ∷ cs) =
    rw
      (
        from_groups_split (a * 256 + c) cs,
        from_groups_split (0 * 256 + c) cs,
        pow-suc 256 (length cs),
      )
      (split_place a c (256 ^ length cs) (from_groups 256 0 cs))

pub from_groups-cons :
    (c : ℕ) (cs : List ℕ) → from_groups 256 0 (c ∷ cs) ≡ c * 256 ^ length cs + from_groups 256 0 cs
unfolding from_groups
from_groups-cons c cs = ap (λ a. from_groups 256 a cs) zero_plus ∙ from_groups_split c cs
  where
    zero_plus : 0 * 256 + c ≡ c
    zero_plus = omega arith

byte_bound : (c p f : ℕ) → c < 256 → f < p → c * p + f < p * 256
byte_bound c p f h k = grind arith

pub from_groups-lt : (bs : List ℕ) → All (λ c. c < 256) bs → from_groups 256 0 bs < 256 ^ length bs
from_groups-lt [] h = unfold from_groups in omega (arith, pow-zero 256)
from_groups-lt (c ∷ cs) (hc, hcs) =
    rw (from_groups-cons c cs, pow-suc 256 (length cs))
      (byte_bound c (256 ^ length cs) (from_groups 256 0 cs) hc (from_groups-lt cs hcs))

pub from_groups-nil : (a : ℕ) → from_groups 256 a [] ≡ a
unfolding from_groups
from_groups-nil a = refl

pub groups_value : (n : ℕ) → from_groups 256 0 (groups 256 n n []) ≡ n
groups_value n = from_groups-groups 256 (omega arith) n n [] (omega arith) ∙ from_groups-nil n

pub groups128_value : (n : ℕ) → from_groups 128 0 (groups 128 n n []) ≡ n
unfolding from_groups
groups128_value n = from_groups-groups 128 (omega arith) n n [] (omega arith)

pub groups10_value : (n : ℕ) → from_groups 10 0 (groups 10 n n []) ≡ n
unfolding from_groups
groups10_value n = from_groups-groups 10 (omega arith) n n [] (omega arith)
