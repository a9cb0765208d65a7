-- ===== src/Base/Text/Decimal.antt =====
-- `strconv.ParseUint(s, 10, 64)` and `strconv.FormatUint(v, 10)`.
use Prim.Native.Nat.{ℕ, zero, suc, ◌+◌, ◌-◌, ◌*◌, ◌^◌, ◌<◌}
use mathlib.Core.Path.{◌≡◌, refl, ap, ◌∙◌}
use mathlib.Core.Bool.{◌||◌}
use mathlib.Core.Option.{Option, none, some}
use mathlib.Core.List.{List, [], ◌∷◌, map}
use native.Mathlib.Omega.{arith}
use tongsuo_go.Base.Tests.{ltb, leb, ◌==◌, if◌then◌else◌, suc-==-zero}
use tongsuo_go.Base.Lists.{All}
use tongsuo_go.Base.Digits.{
  groups, from_groups, le-from_groups, groups_pos, groups-All, groups10_value,
}

-- Digits only, and a value below 2^64. The empty text is refused by `parse_uint`.
scan_digits : ℕ → List ℕ → Option ℕ
scan_digits n [] = some n
scan_digits n (c ∷ s) =
    let v = n * 10 + (c - b'0') in
    let rest = scan_digits v s in
    if ltb c b'0' || ltb b'9' c then none else if leb (2 ^ 64) v then none else rest

unfoldable pub parse_uint : List ℕ → Option ℕ
unfolding scan_digits
parse_uint [] = none
parse_uint (c ∷ s) = scan_digits 0 (c ∷ s)

unfoldable pub format_uint : ℕ → List ℕ
format_uint n = if n == 0 then b'0' ∷ [] else map (λ d. b'0' + d) (groups 10 n n [])

-- A parsed number is a uint64.
scan_digits-lt : (n : ℕ) (s : List ℕ) (v : ℕ) → n < 2 ^ 64 → scan_digits n s ≡ some v → v < 2 ^ 64
unfolding scan_digits
scan_digits-lt n [] v h e = ground arith
scan_digits-lt n (c ∷ s) v h e = ground (arith, scan_digits-lt (n * 10 + (c - b'0')) s v)

pub parse_uint-lt : (s : List ℕ) (v : ℕ) → parse_uint s ≡ some v → v < 2 ^ 64
unfolding parse_uint
parse_uint-lt [] v e = cc
parse_uint-lt (c ∷ s) v e = scan_digits-lt 0 (c ∷ s) v (omega arith) e

scan_digit :
    (n d : ℕ) (s : List ℕ)
    → d < 10
    → n * 10 + d < 2 ^ 64
    → scan_digits n ((b'0' + d) ∷ s) ≡ scan_digits (n * 10 + d) s
unfolding scan_digits
scan_digit n d s h fits = let same : b'0' + d - b'0' ≡ d = omega arith in rw same (ground arith)

scan_digits-map :
    (n : ℕ) (ds : List ℕ)
    → All (λ d. d < 10) ds
    → from_groups 10 n ds < 2 ^ 64
    → scan_digits n (map (λ d. b'0' + d) ds) ≡ some (from_groups 10 n ds)
unfolding from_groups
scan_digits-map n [] h fits = unfold scan_digits in refl
scan_digits-map n (d ∷ ds) (hd, hs) fits =
    scan_digit n d (map (λ d. b'0' + d) ds) hd
      (omega (arith, le-from_groups 10 (omega arith) (n * 10 + d) ds))
    ∙ scan_digits-map (n * 10 + d) ds hs fits

scan-groups :
    (v : ℕ) → 0 < v → v < 2 ^ 64 → parse_uint (map (λ d. b'0' + d) (groups 10 v v [])) ≡ some v
scan-groups v p h =
    let (d, ds, e, q) = groups_pos 10 (omega arith) v v [] p (omega arith) in
    let digits : All (λ d. d < 10) (d ∷ ds) = rw e at (groups-All 10 (omega arith) v v [] tt) in
    let value : from_groups 10 0 (d ∷ ds) ≡ v = rw e at (groups10_value v) in
    rw e (unfold parse_uint in scan_digits-map 0 (d ∷ ds) digits (omega arith) ∙ ap some value)

pub format_uint-suc :
    (v : ℕ) → format_uint (suc v) ≡ map (λ d. b'0' + d) (groups 10 (suc v) (suc v) [])
unfolding format_uint
format_uint-suc v = rw (suc-==-zero v)

-- A printed uint64 is parsed back.
pub parse_uint-format_uint : (v : ℕ) → v < 2 ^ 64 → parse_uint (format_uint v) ≡ some v
parse_uint-format_uint zero h = unfold format_uint parse_uint in refl
parse_uint-format_uint (suc v) h = rw (format_uint-suc v) (scan-groups (suc v) (omega arith) h)
