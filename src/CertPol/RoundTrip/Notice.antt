-- ===== src/CertPol/RoundTrip/Notice.antt =====
-- The user notice: its numbers, its reference and its text.
use tongsuo_go.Base.{
  ℕ, ◌^◌, List, [], ◌∷◌, ◌++◌, ◌≡◌, refl, ap, ◌∙◌, arith, length-append, append-nil, ok, All, foldl,
  foldl-snoc, if◌then◌else◌,
}
use tongsuo_go.Base.Signed.{ℤ, IsInt64}
use tongsuo_go.CertPol.Types.{
  Bytes, UserNotice, tag_integer, tag_utf8_string, tag_sequence, notice_number, notice_organization,
  notice_numbers_field, user_notice_element,
}
use tongsuo_go.CertPol.Tlv.{der_tlv}
use tongsuo_go.CertPol.Integer.{encode_integer}
use tongsuo_go.CertPol.Integer.RoundTrip.{decode_integer-encode_integer, length-encode_integer}
use tongsuo_go.CertPol.DisplayText.{decode_display_text}
use tongsuo_go.CertPol.Encode.{is_empty, encode_numbers, notice_reference, encode_user_notice}
use tongsuo_go.CertPol.Parse.{
  parse_number, parse_notice_reference, is_text_tag, parse_notice_value, parse_notice_element,
  no_notice, parse_user_notice,
}
use tongsuo_go.CertPol.Parse.Loop.{read_while, encode_all, All-encode_all, read_while-encode_all}
use tongsuo_go.CertPol.RoundTrip.Expect.{
  IsShort, length-le-der_tlv, der_tlv-nonempty, expect-der_tlv, expect-der_tlv_last,
  wrap-read-der_tlv,
}

abbrev number_tlv : ℤ → Bytes
number_tlv v = der_tlv tag_integer (encode_integer v)

encode_numbers-eq : (vs : List ℤ) → encode_numbers vs ≡ encode_all number_tlv vs
unfolding encode_numbers encode_all
encode_numbers-eq [] = refl
encode_numbers-eq (v ∷ vs) = ap (λ t. number_tlv v ++ t) (encode_numbers-eq vs)

parse_number-number_tlv :
    (numbers : List ℤ) (v : ℤ) (rest : Bytes)
    → IsInt64 v
    → parse_number numbers (number_tlv v ++ rest) ≡ ok (numbers ++ v ∷ [], rest)
unfolding parse_number
parse_number-number_tlv numbers v rest h =
    let few = length-encode_integer v h in
    rw (
      expect-der_tlv notice_number tag_integer (encode_integer v) rest (omega arith),
      decode_integer-encode_integer v h,
    )

parse_numbers :
    (vs : List ℤ) → All IsInt64 vs → read_while parse_number [] (encode_numbers vs) ≡ ok vs
parse_numbers vs h = rw (encode_numbers-eq vs) (
    read_while-encode_all IsInt64 parse_number number_tlv (λ numbers v. numbers ++ v ∷ [])
      (λ v. der_tlv-nonempty tag_integer (encode_integer v)) parse_number-number_tlv vs [] h
    ∙ ap ok (foldl-snoc [] vs))

utf8_text : (text : Bytes) → decode_display_text tag_utf8_string text ≡ ok text
unfolding decode_display_text
utf8_text text = refl

-- The reference of a notice, read from its content.
parse_notice_reference-content :
    (organization : Bytes) (numbers : List ℤ)
    → All IsInt64 numbers
    → IsShort organization
    → IsShort (encode_numbers numbers)
    → parse_notice_reference
        (der_tlv tag_utf8_string organization ++ der_tlv tag_sequence (encode_numbers numbers))
      ≡ ok (organization, numbers)
unfolding parse_notice_reference
parse_notice_reference-content organization numbers h short short' = rw (
  wrap-read-der_tlv notice_organization tag_utf8_string organization
      (der_tlv tag_sequence (encode_numbers numbers)) short,
  utf8_text organization,
  expect-der_tlv_last notice_numbers_field tag_sequence (encode_numbers numbers) short',
  parse_numbers numbers h,
)

-- The elements that a notice is written as.
data Part : Type 0 where
  reference : Bytes → List ℤ → Part
  text : Bytes → Part

abbrev encode_part : Part → Bytes
encode_part (reference organization numbers) = notice_reference organization numbers
encode_part (text t) = der_tlv tag_utf8_string t

abbrev set_part : UserNotice → Part → UserNotice
set_part n (reference organization numbers) = record n {
  organization = organization;
  notice_numbers = numbers;
}
set_part n (text t) = record n { explicit_text = t }

abbrev IsInt64Part : Part → Type 0
IsInt64Part (reference organization numbers) = All IsInt64 numbers
IsInt64Part (text t) = Unit {0}

abbrev parts_of : UserNotice → List Part
parts_of n =
    (if is_empty n.organization then [] else reference n.organization n.notice_numbers ∷ [])
    ++ (if is_empty n.explicit_text then [] else text n.explicit_text ∷ [])

encode_part-nonempty : (p : Part) → (b : ℕ) × (bs : Bytes) × (encode_part p ≡ b ∷ bs)
encode_part-nonempty (reference organization numbers) =
    unfold notice_reference in der_tlv-nonempty tag_sequence _
encode_part-nonempty (text t) = der_tlv-nonempty tag_utf8_string t

abbrev IsReadablePart : Part → Type 0
IsReadablePart p = IsInt64Part p × IsShort (encode_part p)

parse_notice_element-encode_part :
    (n : UserNotice) (p : Part) (rest : Bytes)
    → IsReadablePart p
    → parse_notice_element n (encode_part p ++ rest) ≡ ok (set_part n p, rest)
unfolding parse_notice_element parse_notice_value is_text_tag notice_reference
parse_notice_element-encode_part n (reference organization numbers) rest (ints, short) =
    let first = der_tlv tag_utf8_string organization in
    let second = der_tlv tag_sequence (encode_numbers numbers) in
    let whole = length-le-der_tlv tag_sequence (first ++ second) in
    let sum = length-append first second in
    let org_size = length-le-der_tlv tag_utf8_string organization in
    let num_size = length-le-der_tlv tag_sequence (encode_numbers numbers) in
    rw (
      wrap-read-der_tlv user_notice_element tag_sequence (first ++ second) rest (omega arith),
      parse_notice_reference-content organization numbers ints (omega arith) (omega arith),
    )
parse_notice_element-encode_part n (text t) rest (ints, short) = rw (
  wrap-read-der_tlv user_notice_element tag_utf8_string t rest
      (omega (arith, length-le-der_tlv tag_utf8_string t)),
  utf8_text t,
)

-- Every number of a notice is an int.
abbrev pub IsIntNotice : UserNotice → Type 0
IsIntNotice n = All IsInt64 n.notice_numbers

parts_of-IsInt64Part : (n : UserNotice) → IsIntNotice n → All IsInt64Part (parts_of n)
unfolding is_empty
parts_of-IsInt64Part n h = of_fields n.organization n.notice_numbers n.explicit_text h
  where
    of_fields :
        (o : Bytes) (vs : List ℤ) (t : Bytes)
        → All IsInt64 vs
        → All IsInt64Part
            (parts_of (record { organization = o; notice_numbers = vs; explicit_text = t }))
    of_fields [] vs [] ints = tt
    of_fields [] vs (d ∷ ds) ints = (tt, tt)
    of_fields (c ∷ cs) vs [] ints = (ints, tt)
    of_fields (c ∷ cs) vs (d ∷ ds) ints = (ints, (tt, tt))

encode_user_notice-parts :
    (n : UserNotice) (body : Bytes)
    → encode_user_notice n ≡ ok body
    → (body ≡ encode_all encode_part (parts_of n)) × (foldl set_part no_notice (parts_of n) ≡ n)
unfolding encode_user_notice is_empty encode_all
encode_user_notice-parts n body e = of_fields n.organization n.notice_numbers n.explicit_text e
  where
    of_fields :
        (o : Bytes) (vs : List ℤ) (t : Bytes)
        → encode_user_notice (record { organization = o; notice_numbers = vs; explicit_text = t })
          ≡ ok body
        → (body
            ≡ encode_all encode_part
                (parts_of (record { organization = o; notice_numbers = vs; explicit_text = t })))
          × (foldl set_part no_notice
                (parts_of (record { organization = o; notice_numbers = vs; explicit_text = t }))
              ≡ record { organization = o; notice_numbers = vs; explicit_text = t })
    of_fields [] [] [] h = cc
    of_fields [] [] (d ∷ ds) h = (cc (append-nil (der_tlv tag_utf8_string (d ∷ ds))), refl)
    of_fields [] (v ∷ vs) [] h = cc
    of_fields [] (v ∷ vs) (d ∷ ds) h = cc
    of_fields (c ∷ cs) [] [] h = (cc (append-nil (notice_reference (c ∷ cs) [])), refl)
    of_fields (c ∷ cs) (v ∷ vs) [] h = (cc, refl)
    of_fields (c ∷ cs) [] (d ∷ ds) h = (cc (append-nil (der_tlv tag_utf8_string (d ∷ ds))), refl)
    of_fields (c ∷ cs) (v ∷ vs) (d ∷ ds) h =
        (cc (append-nil (der_tlv tag_utf8_string (d ∷ ds))), refl)

-- When the notice numbers are 64-bit integers and encode_user_notice returns a body of less than
-- 2^32 bytes, parse_user_notice reads the same notice from it.
pub parse_user_notice-encode_user_notice :
    (n : UserNotice) (body : Bytes)
    → IsIntNotice n
    → encode_user_notice n ≡ ok body
    → IsShort body
    → parse_user_notice body ≡ ok n
unfolding parse_user_notice
parse_user_notice-encode_user_notice n body ints e short =
    let (shape, back) = encode_user_notice-parts n body e in
    let parts = parts_of n in
    let all : All IsReadablePart parts =
      All-encode_all IsInt64Part encode_part (2 ^ 32) parts (parts_of-IsInt64Part n ints)
        (rw shape at short) in
    rw shape (
      read_while-encode_all IsReadablePart parse_notice_element encode_part set_part
        encode_part-nonempty parse_notice_element-encode_part parts no_notice all
      ∙ ap ok back)
