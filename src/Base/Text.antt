-- ===== src/Base/Text.antt =====
-- The functions of Go's `strings` and `strconv` that the modelled code calls, on byte lists.
pub mod Decimal
use mathlib.Core.List.{reverse}
use mathlib.Core.Path.{◌≡◌, refl}
use tongsuo_go.Base.Tests.{ltb, leb, ◌==◌, if◌then◌else◌}
use Prim.Native.Nat.{ℕ, zero, suc, ◌+◌, ◌-◌, ◌*◌}
use mathlib.Core.Bool.{Bool, true, false, ◌&&◌, ◌||◌}
use mathlib.Core.List.{List, [], ◌∷◌, ◌++◌}

-- `strings.Split` at a one-byte separator: one part more than there are separators.
prepend : ℕ → List (List ℕ) → List (List ℕ)
prepend c [] = (c ∷ []) ∷ []
prepend c (p ∷ ps) = (c ∷ p) ∷ ps

unfoldable pub split : ℕ → List ℕ → List (List ℕ)
unfolding prepend
split sep [] = [] ∷ []
split sep (c ∷ s) = let parts = split sep s in if c == sep then [] ∷ parts else prepend c parts

-- `strings.Join` with a one-byte separator.
unfoldable pub join : ℕ → List (List ℕ) → List ℕ
join sep [] = []
join sep (p ∷ []) = p
join sep (p ∷ q ∷ ps) = p ++ sep ∷ join sep (q ∷ ps)

-- The ASCII white space of `unicode.IsSpace`.
ascii_space : ℕ → Bool
ascii_space c = c == 0x20 || (leb 0x09 c && leb c 0x0d)

-- The other runes of `unicode.IsSpace`, U+0085, U+00A0, U+1680, U+2000 to U+200A, U+2028, U+2029,
-- U+202F, U+205F and U+3000, as the two or three bytes of their UTF-8 form.
space_pair : ℕ → ℕ → Bool
space_pair a b = a == 0xc2 && (b == 0x85 || b == 0xa0)

space_triple : ℕ → ℕ → ℕ → Bool
space_triple a b c =
    (a == 0xe1 && b == 0x9a && c == 0x80)
    || (a == 0xe2 && b == 0x80 && (leb 0x80 c && leb c 0x8a || c == 0xa8 || c == 0xa9 || c == 0xaf))
    || (a == 0xe2 && b == 0x81 && c == 0x9f)
    || (a == 0xe3 && b == 0x80 && c == 0x80)

-- The length of the white space rune at the front, or 0; and at the end of the reversed text.
leading_space : List ℕ → ℕ
leading_space [] = 0
leading_space (a ∷ []) = if ascii_space a then 1 else 0
leading_space (a ∷ b ∷ []) = if ascii_space a then 1 else if space_pair a b then 2 else 0
leading_space (a ∷ b ∷ c ∷ s) =
    if ascii_space a then 1 else if space_pair a b then 2 else if space_triple a b c then 3 else 0

trailing_space : List ℕ → ℕ
trailing_space [] = 0
trailing_space (a ∷ []) = if ascii_space a then 1 else 0
trailing_space (a ∷ b ∷ []) = if ascii_space a then 1 else if space_pair b a then 2 else 0
trailing_space (a ∷ b ∷ c ∷ s) =
    if ascii_space a then 1 else if space_pair b a then 2 else if space_triple c b a then 3 else 0

-- Drops runes as long as `space` finds one at the front; `skip` bytes of the present one are left.
drop_spaces : (List ℕ → ℕ) → ℕ → List ℕ → List ℕ
drop_spaces space skip [] = []
drop_spaces space (suc skip) (c ∷ s) = drop_spaces space skip s
drop_spaces space zero (c ∷ s) = elim (space (c ∷ s)) [
  | zero ↦ c ∷ s
  | suc more ↦ drop_spaces space more s
]

unfoldable pub trim_left : List ℕ → List ℕ
unfolding ascii_space space_pair space_triple leading_space drop_spaces
trim_left s = drop_spaces leading_space 0 s

unfoldable pub trim_right : List ℕ → List ℕ
unfolding ascii_space space_pair space_triple trailing_space drop_spaces
trim_right s = reverse (drop_spaces trailing_space 0 (reverse s))

-- `strings.TrimSpace`
unfoldable pub trim_space : List ℕ → List ℕ
unfolding trim_left trim_right
trim_space s = trim_right (trim_left s)

-- A leading blank is trimmed away.
pub trim_space-blank : (s : List ℕ) → trim_space (0x20 ∷ s) ≡ trim_space s
unfolding trim_space
trim_space-blank [] = refl
trim_space-blank (a ∷ []) = refl
trim_space-blank (a ∷ b ∷ s) = refl
