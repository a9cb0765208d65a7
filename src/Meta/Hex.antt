-- ===== src/Meta/Hex.antt =====
-- Go's `encoding/hex` as meta/encoding.go calls it.
use tongsuo_go.Base.{
  ℕ, ◌+◌, ◌-◌, ◌*◌, ◌/◌, ◌%◌, ◌<◌, ◌≡◌, refl, List, [], ◌∷◌, ◌++◌, Option, none, some, ◌&&◌,
  if◌then◌else◌, ltb, leb, Result, ok, err, All, arith,
}

pub data HexError : Type 0 where
  invalid_byte odd_length : HexError

unfoldable pub hex_digit : ℕ → ℕ
hex_digit n = if ltb n 10 then 48 + n else 87 + n

unfoldable pub encode_hex : List ℕ → List ℕ
encode_hex [] = []
encode_hex (b ∷ bs) = hex_digit (b / 16) ∷ hex_digit (b % 16) ∷ encode_hex bs

unfoldable pub hex_value : ℕ → Option ℕ
hex_value c =
    if leb 48 c && leb c 57
    then some (c - 48)
    else if leb 97 c && leb c 102
    then some (c - 87)
    else if leb 65 c && leb c 70
    then some (c - 55)
    else none

-- The byte of two digits in front of the bytes of the rest.
unfoldable pub join_digits :
    Option ℕ → Option ℕ → Result HexError (List ℕ) → Result HexError (List ℕ)
join_digits none low rest = err invalid_byte
join_digits (some high) none rest = err invalid_byte
join_digits (some high) (some low) (err e) = err e
join_digits (some high) (some low) (ok bs) = ok ((high * 16 + low) ∷ bs)

unfoldable pub decode_hex : List ℕ → Result HexError (List ℕ)
decode_hex [] = ok []
decode_hex (a ∷ []) = elim (hex_value a) [ none ↦ err invalid_byte | some v ↦ err odd_length ]
decode_hex (a ∷ b ∷ s) = join_digits (hex_value a) (hex_value b) (decode_hex s)

pub hex_value-hex_digit : (n : ℕ) → n < 16 → hex_value (hex_digit n) ≡ some n
unfolding hex_value hex_digit
hex_value-hex_digit n h = ground arith

pub decode_hex-encode_hex :
    (bs : List ℕ) → All (λ b. b < 256) bs → decode_hex (encode_hex bs) ≡ ok bs
unfolding decode_hex encode_hex join_digits
decode_hex-encode_hex [] h = refl
decode_hex-encode_hex (b ∷ bs) (hb, hs) =
    let whole : b / 16 * 16 + b % 16 ≡ b = omega arith in
    rw (
      hex_value-hex_digit (b / 16) (omega arith),
      hex_value-hex_digit (b % 16) (omega arith),
      decode_hex-encode_hex bs hs,
      whole,
    )

pub encode_hex-append : (xs ys : List ℕ) → encode_hex (xs ++ ys) ≡ encode_hex xs ++ encode_hex ys
unfolding encode_hex
encode_hex-append [] ys = refl
encode_hex-append (x ∷ xs) ys = rw (encode_hex-append xs ys)
