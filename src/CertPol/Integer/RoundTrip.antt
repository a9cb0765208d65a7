-- ===== src/CertPol/Integer/RoundTrip.antt =====
-- `decodeInteger` reads back every int that `encodeInteger` wrote.
use tongsuo_go.Base.{
  ℕ, zero, suc, ◌+◌, ◌-◌, ◌*◌, ◌/◌, ◌%◌, ◌^◌, ◌≤◌, ◌<◌, [], ◌∷◌, ltb, leb, ◌==◌, if◌then◌else◌,
  ◌&&◌, length, ok, ◌≡◌, refl, ap, sym, ◌∙◌, arith, All, Bool-cases, ltb→lt, ltb→ge, ge→ltb, le→leb,
  inl, inr,
}
use native.Mathlib.Nat.{pow-suc, pow-zero, pow-le-pow_right}
use tongsuo_go.Base.Digits.{
  groups, from_groups, from_groups-nil, groups_value, groups_pos, groups-All, length-groups,
  le-from_groups, from_groups-lt, from_groups-cons,
}
use tongsuo_go.Base.Signed.{ℤ, pos, negsuc, sub_ℕ, IsInt64}
use tongsuo_go.CertPol.Types.{Bytes, IsByte}
use tongsuo_go.CertPol.Integer.{
  low_byte, shift_right, complement_loop, strip, pad_sign, encode_integer, accumulate, signed_value,
  decode_integer,
}

-- The two's complement reading of big-endian bytes.
unfoldable pub integer_value : Bytes → ℤ
integer_value [] = pos 0
integer_value (b ∷ bs) =
    let u = from_groups 256 0 (b ∷ bs) in
    if leb 0x80 b then sub_ℕ u (256 ^ length (b ∷ bs)) else pos u

-- Below 2^64 the accumulated value is the number that the bytes stand for.
accumulate-from_groups :
    (u : ℕ) (bs : Bytes) → from_groups 256 u bs < 2 ^ 64 → accumulate u bs ≡ from_groups 256 u bs
unfolding accumulate from_groups
accumulate-from_groups u [] h = refl
accumulate-from_groups u (c ∷ cs) h =
    let small : u * 256 < 2 ^ 64 =
      omega (arith, le-from_groups 256 (omega arith) (u * 256 + c) cs) in
    let same : u * 256 % 2 ^ 64 ≡ u * 256 = omega arith in
    rw same (accumulate-from_groups (u * 256 + c) cs h)

-- The eighth byte's sign bit is that of the whole word.
signed_value-wide :
    (first u : ℕ)
    → u < 2 ^ 64
    → (128 ≤ first → 2 ^ 63 ≤ u)
    → (first < 128 → u < 2 ^ 63)
    → signed_value 8 first u ≡ ok (if leb 0x80 first then sub_ℕ u (2 ^ 64) else pos u)
unfolding signed_value
signed_value-wide first u hu high low = ground arith

signed_value-narrow :
    (len first u : ℕ)
    → len < 8
    → u < 2 ^ 63
    → signed_value len first u ≡ ok (if leb 0x80 first then sub_ℕ u (256 ^ len) else pos u)
unfolding signed_value
signed_value-narrow len first u h hu = ground arith

accumulate-All :
    (bs : Bytes)
    → All IsByte bs
    → length bs ≤ 8
    → (accumulate 0 bs ≡ from_groups 256 0 bs) × (from_groups 256 0 bs < 256 ^ length bs)
accumulate-All bs h room =
    let bound = from_groups-lt bs h in
    let fits : 256 ^ length bs ≤ 2 ^ 64 = pow-le-pow_right {n = 256} (omega arith) room in
    (accumulate-from_groups 0 bs (omega arith), bound)

full_width :
    (b : ℕ) (bs : Bytes)
    → All IsByte (b ∷ bs)
    → length bs ≡ 7
    → signed_value (suc (length bs)) b (from_groups 256 0 (b ∷ bs)) ≡ ok (integer_value (b ∷ bs))
unfolding integer_value
full_width b bs (hb, hs) e =
    let low = from_groups-lt bs hs in
    let top = from_groups-cons b bs in
    let low' : from_groups 256 0 bs < 256 ^ 7 = rw e at low in
    let top' : from_groups 256 0 (b ∷ bs) ≡ b * 256 ^ 7 + from_groups 256 0 bs = rw e at top in
    rw e (signed_value-wide b _ (omega arith) (λ p. omega arith) (λ p. omega arith))

part_width :
    (b : ℕ) (bs : Bytes)
    → All IsByte (b ∷ bs)
    → length bs < 7
    → signed_value (suc (length bs)) b (from_groups 256 0 (b ∷ bs)) ≡ ok (integer_value (b ∷ bs))
unfolding integer_value
part_width b bs h less =
    let bound = from_groups-lt (b ∷ bs) h in
    let fits : 256 ^ suc (length bs) ≤ 256 ^ 7 = pow-le-pow_right {n = 256} (omega arith) less in
    signed_value-narrow (suc (length bs)) b _ (omega arith) (omega arith)

-- On one to eight bytes decode_integer returns the big-endian two's complement value of the bytes,
-- and no error.
pub decode_integer-value :
    (b : ℕ) (bs : Bytes)
    → All IsByte (b ∷ bs)
    → length bs ≤ 7
    → decode_integer (b ∷ bs) ≡ ok (integer_value (b ∷ bs))
unfolding decode_integer
decode_integer-value b bs h room = elim (Bool-cases (ltb (length bs) 7)) [
  | inl less ↦
      rw (ge→ltb 8 (suc (length bs)) (omega arith), (accumulate-All (b ∷ bs) h (omega arith)).0)
        (part_width b bs h (ltb→lt _ _ less))
  | inr seven ↦
      rw (ge→ltb 8 (suc (length bs)) (omega arith), (accumulate-All (b ∷ bs) h (omega arith)).0)
        (full_width b bs h (omega (arith, ltb→ge _ _ seven)))
]

complement_step :
    (n p : ℕ) → n < p * 256 → (p - 1 - n / 256) * 256 + (255 - n % 256) ≡ p * 256 - 1 - n
complement_step n p h = omega arith

complement_value :
    (k n : ℕ) (b : Bytes)
    → n < 256 ^ k
    → from_groups 256 0 (complement_loop k (negsuc n) b) ≡ from_groups 256 (256 ^ k - 1 - n) b
unfolding complement_loop low_byte shift_right from_groups
complement_value zero n b h = ap (λ a. from_groups 256 a b) (omega (arith, pow-zero 256))
complement_value (suc k) n b h =
    let h' : n < 256 ^ k * 256 = rw (pow-suc 256 k) at h in
    complement_value k (n / 256) ((255 - n % 256) ∷ b) (omega arith)
    ∙ ap (λ a. from_groups 256 a b) (complement_step n (256 ^ k) h' ∙ rw (pow-suc 256 k))

strip_zero : (c : ℕ) (cs : Bytes) → c < 128 → integer_value (c ∷ cs) ≡ integer_value (0 ∷ c ∷ cs)
unfolding integer_value from_groups
strip_zero c cs h = ground arith

strip_ones :
    (c : ℕ) (cs : Bytes)
    → All IsByte (c ∷ cs)
    → 128 ≤ c
    → integer_value (c ∷ cs) ≡ integer_value (0xff ∷ c ∷ cs)
unfolding integer_value
strip_ones c cs h hc =
    let lt = from_groups-lt (c ∷ cs) h in
    ground (arith, from_groups-cons 0xff (c ∷ cs), pow-suc 256 (suc (length cs)))

integer_value-strip : (bs : Bytes) → All IsByte bs → integer_value (strip bs) ≡ integer_value bs
unfolding strip
integer_value-strip [] h = refl
integer_value-strip (b ∷ []) h = refl
integer_value-strip (b ∷ c ∷ cs) (hb, hs) =
    ground (arith, strip_zero c cs, strip_ones c cs hs, integer_value-strip (c ∷ cs) hs)

strip-nonempty :
    (b : ℕ) (bs : Bytes)
    → (c : ℕ) × (cs : Bytes) × (strip (b ∷ bs) ≡ c ∷ cs) × (length cs ≤ length bs)
unfolding strip
strip-nonempty b [] = (b, [], refl, omega arith)
strip-nonempty b (c ∷ cs) =
    let (d, ds, e, h) = strip-nonempty c cs in
    elim (Bool-cases (b == 0x00 && ltb c 0x80)) [
      | inl zeros ↦ (d, ds, rw zeros e, omega arith)
      | inr kept ↦ elim (Bool-cases (b == 0xff && leb 0x80 c)) [
        | inl ones ↦ (d, ds, rw (kept, ones) e, omega arith)
        | inr last ↦ (b, c ∷ cs, rw (kept, last), omega arith)
      ]
    ]

strip-All : (bs : Bytes) → All IsByte bs → All IsByte (strip bs)
unfolding strip
strip-All [] h = tt
strip-All (b ∷ []) h = h
strip-All (b ∷ c ∷ cs) (hb, hs) = ground (arith, strip-All (c ∷ cs) hs)

-- The eight bytes that the loop on a negative number makes.
complement_bytes :
    (n : ℕ)
    → n < 2 ^ 63
    → (b : ℕ) × (bs : Bytes) × (complement_loop 8 (negsuc n) [] ≡ b ∷ bs)
      × (length bs ≡ 7)
      × (128 ≤ b)
      × All IsByte (b ∷ bs)
unfolding complement_loop low_byte shift_right
complement_bytes n h = (_, _, refl, refl, omega arith, omega arith)

-- With the sign bit set, a first byte leaves room for the zero byte in front.
room_for_sign : (g : ℕ) (gs : Bytes) → 128 ≤ g → from_groups 256 0 (g ∷ gs) < 2 ^ 63 → length gs < 7
room_for_sign g gs h small = elim (Bool-cases (ltb (length gs) 7)) [
  | inl less ↦ ltb→lt _ _ less
  | inr more ↦
      let wide : 256 ^ 7 ≤ 256 ^ length gs =
        pow-le-pow_right {n = 256} (omega arith) (ltb→ge _ _ more) in
      let big : 128 * 256 ^ length gs ≤ g * 256 ^ length gs = grind arith in
      absurd (omega (arith, from_groups-cons g gs))
]

decode-pad_sign :
    (g : ℕ) (gs : Bytes)
    → All IsByte (g ∷ gs)
    → length gs ≤ 7
    → from_groups 256 0 (g ∷ gs) < 2 ^ 63
    → decode_integer (pad_sign (g ∷ gs)) ≡ ok (pos (from_groups 256 0 (g ∷ gs)))
unfolding pad_sign
decode-pad_sign g gs h room small = elim (Bool-cases (leb 0x80 g)) [
  | inl sign ↦ rw sign (
      decode_integer-value 0 (g ∷ gs) (omega arith, h)
        (omega (arith, room_for_sign g gs (ground (arith, sign)) small))
      ∙ unfold integer_value from_groups in refl)
  | inr plus ↦ rw plus (decode_integer-value g gs h room ∙ unfold integer_value in rw plus)
]

decode-strip :
    (b : ℕ) (bs : Bytes)
    → All IsByte (b ∷ bs)
    → length bs ≤ 7
    → decode_integer (strip (b ∷ bs)) ≡ ok (integer_value (b ∷ bs))
decode-strip b bs h room =
    let (c, cs, e, less) = strip-nonempty b bs in
    let bytes : All IsByte (c ∷ cs) = rw e at (strip-All (b ∷ bs) h) in
    rw e (decode_integer-value c cs bytes (omega arith))
    ∙ ap ok (ap integer_value (sym e) ∙ integer_value-strip (b ∷ bs) h)

below_zero : (u n : ℕ) → n < 2 ^ 63 → u ≡ 2 ^ 64 - 1 - n → sub_ℕ u (2 ^ 64) ≡ negsuc n
below_zero u n h e = ground arith

negative_value :
    (n b : ℕ) (bs : Bytes)
    → n < 2 ^ 63
    → 128 ≤ b
    → length bs ≡ 7
    → from_groups 256 0 (b ∷ bs) ≡ 2 ^ 64 - 1 - n
    → integer_value (b ∷ bs) ≡ negsuc n
unfolding integer_value
negative_value n b bs h sign seven value = rw (le→leb 128 b sign, seven) (below_zero _ n h value)

-- decode_integer reads every 64-bit integer back from the bytes that encode_integer makes of it.
pub decode_integer-encode_integer : (v : ℤ) → IsInt64 v → decode_integer (encode_integer v) ≡ ok v
unfolding encode_integer
decode_integer-encode_integer (pos zero) h = unfold decode_integer signed_value accumulate in refl
decode_integer-encode_integer (pos (suc n)) h =
    let (g, gs, e, q) =
      groups_pos 256 (omega arith) (suc n) (suc n) [] (omega arith) (omega arith) in
    let bytes : All IsByte (g ∷ gs) =
      rw e at (groups-All 256 (omega arith) (suc n) (suc n) [] tt) in
    let few : length (g ∷ gs) ≤ 8 =
      rw e at (length-groups 256 (omega arith) 8 (suc n) (suc n) [] (omega arith)) in
    let value : from_groups 256 0 (g ∷ gs) ≡ suc n = rw e at (groups_value (suc n)) in
    rw (e, decode-pad_sign g gs bytes (omega arith) (omega arith), value)
decode_integer-encode_integer (negsuc n) h =
    let (b, bs, e, seven, sign, bytes) = complement_bytes n h in
    let value : from_groups 256 0 (b ∷ bs) ≡ 2 ^ 64 - 1 - n =
      rw e at (complement_value 8 n [] (omega arith) ∙ from_groups-nil (2 ^ 64 - 1 - n)) in
    rw e (decode-strip b bs bytes (omega arith)) ∙ ap ok (negative_value n b bs h sign seven value)

length-pad_sign : (bs : Bytes) → length (pad_sign bs) ≤ suc (length bs)
unfolding pad_sign
length-pad_sign [] = omega arith
length-pad_sign (b ∷ bs) = ground arith

-- encode_integer makes at most nine bytes of a 64-bit integer.
pub length-encode_integer : (v : ℤ) → IsInt64 v → length (encode_integer v) ≤ 9
unfolding encode_integer
length-encode_integer (pos zero) h = omega arith
length-encode_integer (pos (suc n)) h = omega (
  arith,
  length-pad_sign (groups 256 (suc n) (suc n) []),
  length-groups 256 (omega arith) 8 (suc n) (suc n) [] (omega arith),
)
length-encode_integer (negsuc n) h =
    let (b, bs, e, seven, sign, bytes) = complement_bytes n h in
    let (c, cs, s, less) = strip-nonempty b bs in rw (e, s) (omega arith)
