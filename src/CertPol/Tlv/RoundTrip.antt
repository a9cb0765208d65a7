-- ===== src/CertPol/Tlv/RoundTrip.antt =====
-- What `read` gives back of what `der_tlv` wrote, and what any successful `read` has consumed.
use tongsuo_go.Base.{
  ℕ, zero, suc, ◌+◌, ◌%◌, ◌^◌, ◌≤◌, ◌<◌, bit_or, [], ◌∷◌, ◌++◌, ltb, length, take, drop, ok, ◌≡◌,
  refl, ap, ◌∙◌, arith, take-append, drop-append, length-append, append_assoc, lt→ltb, ge→ltb,
  length-drop, length-take, Bool-cases, inl, inr, ltb→lt, ltb→ge,
}
use tongsuo_go.Base.Digits.{groups, from_groups, from_groups-groups, length-groups, groups_pos}
use tongsuo_go.CertPol.Types.{Bytes}
use tongsuo_go.CertPol.Tlv.{der_len, der_tlv, read_content, read_long, read}

-- `byte(0x80|len(tmp))` for up to four length bytes.
long_mark : (n : ℕ) → n ≤ 4 → bit_or 0x80 n % 256 ≡ 128 + n
long_mark zero h = refl
long_mark (suc zero) h = refl
long_mark (suc (suc zero)) h = refl
long_mark (suc (suc (suc zero))) h = refl
long_mark (suc (suc (suc (suc zero)))) h = refl
long_mark (suc (suc (suc (suc (suc n))))) h = absurd (omega arith)

read_content-append :
    (tag : ℕ) (content rest : Bytes)
    → read_content tag (length content) (content ++ rest) ≡ ok (tag, content, rest)
unfolding read_content
read_content-append tag content rest = rw (
  ge→ltb (length (content ++ rest)) (length content) (omega (arith, length-append content rest)),
  take-append,
  drop-append,
)

read_long-valid :
    (tag n : ℕ) (rest : Bytes)
    → 0 < n
    → n ≤ 4
    → n ≤ length rest
    → read_long tag n rest ≡ read_content tag (from_groups 256 0 (take n rest)) (drop n rest)
unfolding read_long
read_long-valid tag n rest p h room = ground arith

read_long-groups :
    (tag : ℕ) (tmp content rest : Bytes)
    → 0 < length tmp
    → length tmp ≤ 4
    → from_groups 256 0 tmp ≡ length content
    → read_long tag (length tmp) (tmp ++ (content ++ rest)) ≡ ok (tag, content, rest)
read_long-groups tag tmp content rest p h e =
    read_long-valid tag (length tmp) (tmp ++ (content ++ rest)) p h
      (omega (arith, length-append tmp (content ++ rest)))
    ∙ rw (take-append, drop-append, e) (read_content-append tag content rest)

read-short :
    (tag first : ℕ) (rest : Bytes)
    → first < 128
    → read (tag ∷ first ∷ rest) ≡ read_content tag first rest
unfolding read
read-short tag first rest h = rw (lt→ltb first 128 h)

read-long :
    (tag n : ℕ) (rest : Bytes) → n < 128 → read (tag ∷ (128 + n) ∷ rest) ≡ read_long tag n rest
unfolding read
read-long tag n rest h =
    rw (ge→ltb (128 + n) 128 (omega arith)) (ap (λ k. read_long tag k rest) (omega arith))

-- The two forms of a length.
pub der_len-short : (n : ℕ) → n < 128 → der_len n ≡ n ∷ []
unfolding der_len
der_len-short n h = rw (lt→ltb n 128 h)

pub der_len-long :
    (n : ℕ)
    → 128 ≤ n
    → n < 2 ^ 32
    → der_len n ≡ (128 + length (groups 256 n n [])) ∷ groups 256 n n []
unfolding der_len
der_len-long n p h = rw (
  ge→ltb n 128 p,
  long_mark (length (groups 256 n n []))
      (omega (arith, length-groups 256 (omega arith) 4 n n [] h)),
)

-- For a content of less than 2^32 bytes, read takes from der_tlv the tag, the content and the
-- bytes that follow.
pub read-der_tlv :
    (tag : ℕ) (content rest : Bytes)
    → length content < 2 ^ 32
    → read (der_tlv tag content ++ rest) ≡ ok (tag, content, rest)
unfolding der_tlv
read-der_tlv tag content rest h = elim (Bool-cases (ltb (length content) 0x80)) [
  | inl short ↦ rw (der_len-short (length content) (ltb→lt _ _ short)) (
      read-short tag (length content) (content ++ rest) (ltb→lt _ _ short)
      ∙ read_content-append tag content rest)
  | inr long ↦
      let tmp = groups 256 (length content) (length content) [] in
      let few : length tmp ≤ 4 =
        omega (arith, length-groups 256 (omega arith) 4 (length content) (length content) [] h) in
      let (g, gs, e, q) =
        groups_pos 256 (omega arith) (length content) (length content) []
          (omega (arith, ltb→ge _ _ long)) (omega arith) in
      let represents : from_groups 256 0 tmp ≡ length content =
        from_groups-groups 256 (omega arith) (length content) (length content) [] (omega arith)
        ∙ unfold from_groups in refl in
      let some_group : 0 < length tmp = rw e (omega arith) in
      rw (der_len-long (length content) (ltb→ge _ _ long) h, append_assoc)
        (read-long tag (length tmp) (tmp ++ (content ++ rest)) (omega arith)
          ∙ read_long-groups tag tmp content rest some_group few represents)
]

-- A successful `read` has consumed two bytes or more, and what is left is no longer than that.
length-read_content :
    (bytes : Bytes) (t len tag : ℕ) (content rest : Bytes)
    → read_content t len bytes ≡ ok (tag, content, rest)
    → length content + length rest ≤ length bytes
unfolding read_content
length-read_content bytes t len tag content rest h =
    ground (arith, length-take len bytes, length-drop len bytes)

length-read_long :
    (bytes : Bytes) (t n tag : ℕ) (content rest : Bytes)
    → read_long t n bytes ≡ ok (tag, content, rest)
    → length content + length rest ≤ length bytes
unfolding read_long
length-read_long bytes t n tag content rest h = ground (
  arith,
  length-drop n bytes,
  length-read_content (drop n bytes) t (from_groups 256 0 (take n bytes)) tag content rest,
)

-- When read succeeds, the content and the rest together are at least two bytes shorter than the
-- input.
pub length-read :
    (bytes : Bytes) {tag : ℕ} {content rest : Bytes}
    → read bytes ≡ ok (tag, content, rest)
    → 2 + length content + length rest ≤ length bytes
unfolding read
length-read [] h = cc
length-read (t ∷ []) h = cc
length-read (t ∷ first ∷ bytes) {tag} {content} {rest} h = ground (
  arith,
  length-read_content bytes t first tag content rest,
  length-read_long bytes t (first % 128) tag content rest,
)
