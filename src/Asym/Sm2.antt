-- ===== src/Asym/Sm2.antt =====
-- `sm2C1Len`, `parseSM2Raw` and `buildSM2Raw` of asym/sm2.go: a raw SM2 ciphertext is a point, and
-- behind it the hash and the text in one of two orders. `expand` is `core.ExpandSM2Point`, the native
-- decompression of a point, which returns 65 bytes or an error.
pub mod Order
use tongsuo_go.Base.{
  ℕ, ◌+◌, ◌-◌, List, [], ◌∷◌, ◌++◌, Bool, true, false, ◌==◌, ◌||◌, ltb, if◌then◌else◌, length, take,
  drop, Option, none, some, Result, ok, err, ◌>>=◌,
}

abbrev pub Bytes : Type 0
Bytes = List ℕ

pub data Sm2Error : Type 0 where
  empty_ciphertext too_short point_not_expanded : Sm2Error
  unsupported_prefix : ℕ → Sm2Error

pub record Sm2Cipher : Type 0 where
  pub c1 : Bytes
  pub hash : Bytes
  pub c2 : Bytes
  pub x : Bytes
  pub y : Bytes

unfoldable pub prefix_len : ℕ → Result Sm2Error ℕ
prefix_len prefix =
    if prefix == 0x04
    then ok 65
    else if prefix == 0x02 || prefix == 0x03
    then ok 33
    else err (unsupported_prefix prefix)

unfoldable pub sm2_c1_len : Bytes → Result Sm2Error ℕ
sm2_c1_len [] = err empty_ciphertext
sm2_c1_len (prefix ∷ ct) = prefix_len prefix

-- `p[1:33]` and `p[33:65]` of a point of 65 bytes.
unfoldable pub coordinates : Bytes → Bytes × Bytes
coordinates point = (take 32 (drop 1 point), take 32 (drop 33 point))

-- A compressed point is expanded, any other holds its coordinates.
unfoldable pub point_of : (Bytes → Option Bytes) → Bytes → Result Sm2Error (Bytes × Bytes)
point_of expand c1 =
    if length c1 == 33
    then elim (expand c1) [ none ↦ err point_not_expanded | some point ↦ ok (coordinates point) ]
    else ok (coordinates c1)

-- What stands behind the point: the hash and the text.
unfoldable pub split_body : Bool → Bytes → Bytes × Bytes
split_body hash_first body =
    if hash_first
    then (take 32 body, drop 32 body)
    else (drop (length body - 32) body, take (length body - 32) body)

unfoldable pub parse_sm2_raw : (Bytes → Option Bytes) → Bytes → Bool → Result Sm2Error Sm2Cipher
parse_sm2_raw expand ct hash_first = do
  n ← sm2_c1_len ct
  if ltb (length ct) (n + 32) then err too_short else do
    (x, y) ← point_of expand (take n ct)
    let (hash, c2) = split_body hash_first (drop n ct)
    ok (record { c1 = take n ct; hash = hash; c2 = c2; x = x; y = y })

unfoldable pub build_sm2_raw : Sm2Cipher → Bool → Bytes
build_sm2_raw c hash_first = c.c1 ++ (if hash_first then c.hash ++ c.c2 else c.c2 ++ c.hash)
