-- ===== src/Base/Bits.antt =====
-- The top bit of a byte. There are 128 cases, and each is evaluated.
use Prim.Native.Nat.{ℕ, zero, suc, ◌+◌, ◌<◌, bit_or}
use mathlib.Core.Path.{◌≡◌, refl}
use mathlib.Core.Bool.{Bool, true, false}
use mathlib.Core.Logic.{inl, inr}
use native.Mathlib.Omega.{arith}
use tongsuo_go.Base.Tests.{◌==◌, ==_iff, if◌then◌else◌, Bool-cases, ltb, ltb→lt, ltb→ge}

-- Setting the top bit adds 128 to each of the first `count` numbers.
sets_top : ℕ → Bool
sets_top zero = true
sets_top (suc count) =
    let before = sets_top count in if bit_or count 0x80 == count + 128 then before else false

sets_top-lem : (count low : ℕ) → sets_top count ≡ true → low < count → bit_or low 0x80 ≡ low + 128
unfolding sets_top
sets_top-lem zero low checked below = absurd (omega arith)
sets_top-lem (suc count) low checked below = elim (Bool-cases (bit_or count 0x80 == count + 128)) [
  | inr unset ↦ absurd (cc (rw unset at checked))
  | inl set ↦ elim (Bool-cases (ltb low count)) [
    | inl less ↦ sets_top-lem count low (rw set at checked) (ltb→lt low count less)
    | inr last ↦
        let same : low ≡ count = omega (arith, ltb→ge low count last) in
        rw same ((==_iff (bit_or count 0x80) (count + 128)).0 set)
  ]
]

first_128 : sets_top 128 ≡ true
unfolding sets_top
first_128 = refl

pub set_top_bit : (b : ℕ) → b < 128 → bit_or b 0x80 ≡ b + 128
set_top_bit b below = sets_top-lem 128 b first_128 below
