-- ===== src/CertPol/Integer.antt =====
-- `encodeInteger` and `decodeInteger` of x509/certpol_der.go.
pub mod RoundTrip
use tongsuo_go.Base.{
  ℕ, zero, suc, ◌+◌, ◌-◌, ◌*◌, ◌/◌, ◌%◌, ◌^◌, ◌≤◌, ◌<◌, List, [], ◌∷◌, ◌++◌, ltb, leb, ◌==◌,
  if◌then◌else◌, ◌&&◌, length, Result, ok, err,
}
use tongsuo_go.Base.Digits.{groups}
use tongsuo_go.Base.Signed.{ℤ, pos, negsuc, sub_ℕ, int64}
use tongsuo_go.CertPol.Types.{
  Bytes, DerError, empty_integer, integer_too_long, integer_out_of_range,
}

-- `byte(x & 0xff)` and `x >>= 8` on a negative int64: the arithmetic shift rounds down.
unfoldable pub low_byte : ℤ → ℕ
low_byte (pos n) = n % 256
low_byte (negsuc n) = 255 - n % 256

unfoldable pub shift_right : ℤ → ℤ
shift_right (pos n) = pos (n / 256)
shift_right (negsuc n) = negsuc (n / 256)

-- `for i := 0; i < 8; i++ { b = append([]byte{byte(x & 0xff)}, b...); x >>= 8 }`
unfoldable pub complement_loop : ℕ → ℤ → Bytes → Bytes
complement_loop zero x b = b
complement_loop (suc i) x b = complement_loop i (shift_right x) (low_byte x ∷ b)

-- The loop that takes redundant leading bytes off. `b[1]&0x80` is tested as `b[1] < 128`.
unfoldable pub strip : Bytes → Bytes
strip [] = []
strip (b ∷ []) = b ∷ []
strip (b ∷ c ∷ cs) =
    let rest = strip (c ∷ cs) in
    if b == 0x00 && ltb c 0x80 then rest else if b == 0xff && leb 0x80 c then rest else b ∷ c ∷ cs

-- A leading zero byte where the first byte would read as a sign.
unfoldable pub pad_sign : Bytes → Bytes
pad_sign [] = []
pad_sign (b ∷ bs) = if leb 0x80 b then 0x00 ∷ b ∷ bs else b ∷ bs

unfoldable pub encode_integer : ℤ → Bytes
encode_integer (pos zero) = 0x00 ∷ []
encode_integer (pos (suc n)) = pad_sign (groups 256 (suc n) (suc n) [])
encode_integer (negsuc n) = strip (complement_loop 8 (negsuc n) [])

-- `u = u<<8 | uint64(c)` over the bytes: the low byte of the shifted value is zero.
unfoldable pub accumulate : ℕ → Bytes → ℕ
accumulate u [] = u
accumulate u (c ∷ cs) = accumulate (u * 256 % 2 ^ 64 + c) cs

-- The result for a nonempty list of `len` bytes, eight at most, with the accumulated value `u`.
-- Below eight bytes `int64(u)` is `u` itself, and 2^(8 len) is taken off a value with the sign bit.
unfoldable pub signed_value : ℕ → ℕ → ℕ → Result DerError ℤ
signed_value len first u =
    if leb 0x80 first
    then (if len == 8 then ok (int64 u) else ok (sub_ℕ u (256 ^ len)))
    else if ltb (2 ^ 63 - 1) u
    then err integer_out_of_range
    else ok (pos u)

unfoldable pub decode_integer : Bytes → Result DerError ℤ
decode_integer [] = err empty_integer
decode_integer (b ∷ bs) =
    if ltb 8 (length (b ∷ bs))
    then err integer_too_long
    else signed_value (length (b ∷ bs)) b (accumulate 0 (b ∷ bs))
