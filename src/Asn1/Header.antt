-- ===== src/Asn1/Header.antt =====
-- `parseHeader` and `parseLength` of asn1/asn1.go.
pub mod Bounds
use tongsuo_go.Base.{
  ℕ, zero, suc, ◌+◌, ◌-◌, ◌*◌, ◌/◌, ◌%◌, ◌^◌, ◌<◌, List, [], ◌∷◌, not, ◌==◌, ◌||◌, ltb,
  if◌then◌else◌, length, take, drop, Result, ok, err, ◌>>=◌,
}
use tongsuo_go.Base.Digits.{from_groups}
use tongsuo_go.Asn1.Node.{
  Bytes, Header, ParseError, truncated, truncated_tag, truncated_length, indefinite_length,
  long_form_length, bad_length,
}

-- The length and the number of bytes that hold it. Four length bytes at most, so `length*256 + b`
-- stays far below 2^63. `first&0x80 == 0` is `first < 128` on a byte.
unfoldable pub parse_long_length : ℕ → Bytes → Result ParseError (ℕ × ℕ)
parse_long_length n rest =
    if n == 0
    then err indefinite_length
    else if ltb 4 n || ltb (1 + length rest) (1 + n)
    then err long_form_length
    else ok (from_groups 256 0 (take n rest), 1 + n)

unfoldable pub parse_length : Bytes → Result ParseError (ℕ × ℕ)
parse_length [] = err truncated_length
parse_length (first ∷ rest) =
    if ltb first 0x80 then ok (first, 1) else parse_long_length (first % 128) rest

-- The loop over a high tag number: the number, the next offset and the bytes behind the number. The
-- sum wraps in Go's 64-bit int, and is kept as that bit pattern.
unfoldable pub high_number : ℕ → ℕ → Bytes → Result ParseError (ℕ × ℕ × Bytes)
high_number number off [] = err truncated_tag
high_number number off (b ∷ bs) =
    let n = (number * 128 + b % 128) % 2 ^ 64 in
    let more = high_number n (off + 1) bs in if ltb b 0x80 then ok (n, off + 1, bs) else more

-- A low tag number ends behind the tag byte.
unfoldable pub tag_number : ℕ → Bytes → Result ParseError (ℕ × ℕ × Bytes)
tag_number tag rest = if tag % 32 == 0x1f then high_number 0 1 rest else ok (tag % 32, 1, rest)

-- The header and the value at `der[off:]`, once the length is known.
unfoldable pub finish_header : ℕ → ℕ → ℕ → ℕ → ℕ → Bytes → Result ParseError (Header × ℕ)
finish_header base tag number off size rest =
    if ltb (length rest) size
    then err (bad_length base)
    else ok (
      record {
        offset = base;
        tag = tag;
        class = tag / 64;
        number = number;
        constructed = not (tag / 32 % 2 == 0);
        size = size;
        value = take size rest;
      },
      off + size,
    )

unfoldable pub parse_header : Bytes → ℕ → Result ParseError (Header × ℕ)
parse_header [] base = err truncated
parse_header (tag ∷ bytes) base = do
  (number, off, rest) ← tag_number tag bytes
  (size, used) ← parse_length rest
  finish_header base tag number (off + used) size (drop used rest)
