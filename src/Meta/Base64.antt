-- ===== src/Meta/Base64.antt =====
-- Go's `base64.StdEncoding` as meta/encoding.go and meta/sink.go call it. The streaming encoder of
-- `base64.NewEncoder` is in Meta.Sink.
pub mod Groups
use tongsuo_go.Base.{
  ℕ, ◌+◌, ◌-◌, ◌*◌, ◌/◌, ◌%◌, ◌<◌, ◌≡◌, refl, ap, List, [], ◌∷◌, ◌++◌, Option, none, some, Bool,
  true, false, ◌&&◌, if◌then◌else◌, ltb, leb, ◌==◌, Result, ok, err, All, arith,
}

unfoldable pub letter : ℕ → ℕ
letter v =
    if ltb v 26
    then 65 + v
    else if ltb v 52
    then 71 + v
    else if ltb v 62
    then v - 4
    else if v == 62
    then 43
    else 47

-- The value of a letter, 0xff in Go's `decodeMap` being `none`.
unfoldable pub sextet : ℕ → Option ℕ
sextet c =
    if leb 65 c && leb c 90
    then some (c - 65)
    else if leb 97 c && leb c 122
    then some (c - 71)
    else if leb 48 c && leb c 57
    then some (c + 4)
    else if c == 43
    then some 62
    else if c == 47
    then some 63
    else none

unfoldable pub encode_base64 : List ℕ → List ℕ
encode_base64 [] = []
encode_base64 (a ∷ []) = letter (a / 4) ∷ letter (a % 4 * 16) ∷ 61 ∷ 61 ∷ []
encode_base64 (a ∷ b ∷ []) =
    letter (a / 4) ∷ letter (a % 4 * 16 + b / 16) ∷ letter (b % 16 * 4) ∷ 61 ∷ []
encode_base64 (a ∷ b ∷ c ∷ bs) =
    letter (a / 4)
    ∷ letter (a % 4 * 16 + b / 16)
    ∷ letter (b % 16 * 4 + c / 64)
    ∷ letter (c % 64)
    ∷ encode_base64 bs

-- `CorruptInputError`, the position of the input at fault.
abbrev pub Decoded : Type 0
Decoded = Result ℕ (List ℕ)

-- The input ends after a letter, two or three of them.
unfoldable pub end_one : ℕ → Decoded
end_one at = err at

unfoldable pub end_two : ℕ → Option ℕ → Option ℕ → Decoded
end_two at none b = err at
end_two at (some va) none = err (at + 1)
end_two at (some va) (some vb) = err at

unfoldable pub end_three : ℕ → ℕ → Option ℕ → Option ℕ → Option ℕ → Decoded
end_three at c none vb vc = err at
end_three at c (some va) none vc = err (at + 1)
end_three at c (some va) (some vb) none = if c == 61 then err (at + 3) else err (at + 2)
end_three at c (some va) (some vb) (some vc) = err at

-- Nothing may follow the padding.
unfoldable pub padded : ℕ → List ℕ → List ℕ → Decoded
padded at [] bytes = ok bytes
padded at (c ∷ s) bytes = err at

unfoldable pub in_front : List ℕ → Decoded → Decoded
in_front bytes (err at) = err at
in_front bytes (ok bs) = ok (bytes ++ bs)

-- A group of four, by the values of its characters; `rest` is what follows, decoded.
unfoldable pub quantum :
    ℕ → ℕ → ℕ → List ℕ → Option ℕ → Option ℕ → Option ℕ → Option ℕ → Decoded → Decoded
quantum at c d s none vb vc vd rest = err at
quantum at c d s (some va) none vc vd rest = err (at + 1)
quantum at c d s (some va) (some vb) none vd rest =
    if c == 61
    then if d == 61 then padded (at + 4) s ((va * 4 + vb / 16) ∷ []) else err (at + 2)
    else err (at + 2)
quantum at c d s (some va) (some vb) (some vc) none rest =
    if d == 61
    then padded (at + 4) s ((va * 4 + vb / 16) ∷ (vb % 16 * 16 + vc / 4) ∷ [])
    else err (at + 3)
quantum at c d s (some va) (some vb) (some vc) (some vd) rest =
    in_front ((va * 4 + vb / 16) ∷ (vb % 16 * 16 + vc / 4) ∷ (vc % 4 * 64 + vd) ∷ []) rest

unfoldable pub decode_base64 : ℕ → List ℕ → Decoded
decode_base64 at [] = ok []
decode_base64 at (a ∷ []) = end_one at
decode_base64 at (a ∷ b ∷ []) = end_two at (sextet a) (sextet b)
decode_base64 at (a ∷ b ∷ c ∷ []) = end_three at c (sextet a) (sextet b) (sextet c)
decode_base64 at (a ∷ b ∷ c ∷ d ∷ s) =
    quantum at c d s (sextet a) (sextet b) (sextet c) (sextet d) (decode_base64 (at + 4) s)

pub sextet-letter : (v : ℕ) → v < 64 → sextet (letter v) ≡ some v
unfolding sextet letter
sextet-letter v h = ground arith

pub decode_base64-encode_base64 :
    (at : ℕ) (bs : List ℕ) → All (λ b. b < 256) bs → decode_base64 at (encode_base64 bs) ≡ ok bs
unfolding decode_base64 encode_base64 quantum padded in_front sextet
decode_base64-encode_base64 at [] h = refl
decode_base64-encode_base64 at (a ∷ []) (ha, hs) =
    let first : a / 4 * 4 + a % 4 * 16 / 16 ≡ a = omega arith in
    rw (sextet-letter (a / 4) (omega arith), sextet-letter (a % 4 * 16) (omega arith), first)
decode_base64-encode_base64 at (a ∷ b ∷ []) (ha, (hb, hs)) =
    let first : a / 4 * 4 + (a % 4 * 16 + b / 16) / 16 ≡ a = omega arith in
    let second : (a % 4 * 16 + b / 16) % 16 * 16 + b % 16 * 4 / 4 ≡ b = omega arith in
    rw (
      sextet-letter (a / 4) (omega arith),
      sextet-letter (a % 4 * 16 + b / 16) (omega arith),
      sextet-letter (b % 16 * 4) (omega arith),
      first,
      second,
    )
decode_base64-encode_base64 at (a ∷ b ∷ c ∷ bs) (ha, (hb, (hc, hs))) =
    let first : a / 4 * 4 + (a % 4 * 16 + b / 16) / 16 ≡ a = omega arith in
    let second : (a % 4 * 16 + b / 16) % 16 * 16 + (b % 16 * 4 + c / 64) / 4 ≡ b = omega arith in
    let third : (b % 16 * 4 + c / 64) % 4 * 64 + c % 64 ≡ c = omega arith in
    rw (
      sextet-letter (a / 4) (omega arith),
      sextet-letter (a % 4 * 16 + b / 16) (omega arith),
      sextet-letter (b % 16 * 4 + c / 64) (omega arith),
      sextet-letter (c % 64) (omega arith),
      decode_base64-encode_base64 (at + 4) bs hs,
      first,
      second,
      third,
    )

-- The complete groups of three bytes, and what is left.
unfoldable pub groups : List ℕ → List ℕ
groups (a ∷ b ∷ c ∷ bs) = a ∷ b ∷ c ∷ groups bs
groups bs = []

unfoldable pub remainder : List ℕ → List ℕ
remainder (a ∷ b ∷ c ∷ bs) = remainder bs
remainder bs = bs
