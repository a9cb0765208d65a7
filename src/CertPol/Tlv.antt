-- ===== src/CertPol/Tlv.antt =====
-- `derLen`, `derTLV` and the `derCursor` of x509/certpol_der.go. The cursor, a slice with a position
-- that only moves forward, is the list of the bytes that it has not consumed.
pub mod RoundTrip
use tongsuo_go.Base.{
  ℕ, suc, ◌+◌, ◌*◌, ◌/◌, ◌%◌, ◌^◌, ◌≤◌, ◌<◌, bit_or, List, [], ◌∷◌, ◌++◌, ltb, ◌==◌, if◌then◌else◌,
  length, take, drop, Result, ok, err,
}
use tongsuo_go.Base.Digits.{groups, from_groups}
use tongsuo_go.CertPol.Types.{
  Bytes, DerError, truncated_element, truncated_length, indefinite_length, long_form_length,
  truncated_content,
}

-- `for v := n; v > 0; v >>= 8 { tmp = append([]byte{byte(v & 0xff)}, tmp...) }`: `n` rounds are enough.
unfoldable pub der_len : ℕ → Bytes
der_len n =
    if ltb n 0x80
    then n ∷ []
    else let tmp = groups 256 n n [] in (bit_or 0x80 (length tmp) % 256) ∷ tmp

unfoldable pub der_tlv : ℕ → Bytes → Bytes
der_tlv tag content = tag ∷ (der_len (length content) ++ content)

-- The end of `read`, where the length is known.
unfoldable pub read_content : ℕ → ℕ → Bytes → Result DerError (ℕ × Bytes × Bytes)
read_content tag len rest =
    if ltb (length rest) len then err truncated_content else ok (tag, take len rest, drop len rest)

-- The long form: the low seven bits of the first byte count the length bytes. Four bytes at most,
-- so `length<<8 | b` stays far below 2^63 and is `length * 256 + b`.
unfoldable pub read_long : ℕ → ℕ → Bytes → Result DerError (ℕ × Bytes × Bytes)
read_long tag n rest =
    if n == 0
    then err indefinite_length
    else if ltb 4 n
    then err long_form_length
    else if ltb (length rest) n
    then err truncated_length
    else read_content tag (from_groups 256 0 (take n rest)) (drop n rest)

-- The tag, the content and the bytes that follow. `first&0x80 == 0` is `first < 128` on a byte.
unfoldable pub read : Bytes → Result DerError (ℕ × Bytes × Bytes)
read [] = err truncated_element
read (tag ∷ []) = err truncated_length
read (tag ∷ first ∷ rest) =
    if ltb first 0x80 then read_content tag first rest else read_long tag (first % 128) rest
