-- ===== src/CertPol/Runs.antt =====
-- Concrete runs, and the theorems at concrete inputs.
use Prim.Native.Char.{code}
use Prim.Native.String.{String}
use tongsuo_go.Base.{ℕ, List, [], ◌∷◌, ◌++◌, ◌≡◌, ◌≢◌, refl, arith, none, some, map, All, ok, err}
use tongsuo_go.Base.Digits.{groups}
use tongsuo_go.Base.Signed.{pos, negsuc}
use tongsuo_go.Base.Text.{split, join, trim_space}
use tongsuo_go.Base.Text.Decimal.{parse_uint}
use tongsuo_go.CertPol.Types.{Bytes, stuck, CertificatePolicy, UserNotice}
use tongsuo_go.CertPol.Tlv.{der_len, der_tlv, read}
use tongsuo_go.CertPol.Integer.{
  low_byte, shift_right, complement_loop, strip, pad_sign, encode_integer, decode_integer,
}
use tongsuo_go.CertPol.Oid.{
  mark_continued, base128, parse_arcs, base128_all, encode_arcs, encode_parts, encode_trimmed,
  encode_oid, format_arcs, decode_oid,
}
use tongsuo_go.CertPol.Encode
use tongsuo_go.CertPol.RoundTrip.Expect.{IsShort}
use tongsuo_go.CertPol.RoundTrip.Duplicates.{
  bare, twice, twice_der, encode_certificate_policies-twice,
}
use tongsuo_go.CertPol.Parse.{parse_certificate_policies, parse_qualifiers, parse_user_notice}
use tongsuo_go.CertPol.Parse.Termination.{parse_certificate_policies-ne-stuck}
use tongsuo_go.CertPol.RoundTrip.Notice.{parse_user_notice-encode_user_notice}
use tongsuo_go.CertPol.RoundTrip.Qualifiers.{parse_qualifiers-encode_policy_qualifiers}
use tongsuo_go.CertPol.Tlv.RoundTrip.{read-der_tlv}
use tongsuo_go.CertPol.Integer.RoundTrip.{
  integer_value, decode_integer-value, decode_integer-encode_integer,
}
use tongsuo_go.CertPol.Oid.RoundTrip.{decode_oid-encode_oid}
use tongsuo_go.CertPol.RoundTrip.Policies.{
  canonical, canonical_oid, IsIntPolicy, parse-encode_certificate_policies,
}
use tongsuo_go.CertPol.Encode.{
  encode_certificate_policies, encode_policy_qualifiers, encode_user_notice,
}

abbrev codes : String → Bytes
codes String.[] = []
codes (String.◌∷◌ c s) = code c ∷ codes s

abbrev sample_notice : UserNotice
sample_notice = record {
  organization = codes "Org";
  notice_numbers = pos 1 ∷ negsuc 128 ∷ [];
  explicit_text = codes "hi";
}

abbrev first_policy : CertificatePolicy
first_policy = record {
  oid = codes " 1.2.0840";
  cps_uris = codes "http://a" ∷ [];
  user_notice = some sample_notice;
}

abbrev sample : List CertificatePolicy
sample = first_policy ∷ record { oid = codes "2.999"; cps_uris = []; user_notice = none } ∷ []

sample_ints : All IsIntPolicy sample
sample_ints = ((omega arith, (omega arith, tt)), (tt, tt))

abbrev notice_der : Bytes
notice_der =
    48 ∷ 14 ∷ 12 ∷ 3 ∷ 79 ∷ 114 ∷ 103 ∷ 48 ∷ 7 ∷ 2 ∷ 1 ∷ 1 ∷ 2 ∷ 2 ∷ 255 ∷ 127 ∷ 12 ∷ 2 ∷ 104 ∷ 105
    ∷ []

abbrev qualifiers_der : Bytes
qualifiers_der =
    48 ∷ 56 ∷ 48 ∷ 20 ∷ 6 ∷ 8 ∷ 43 ∷ 6 ∷ 1 ∷ 5 ∷ 5 ∷ 7 ∷ 2 ∷ 1 ∷ 22 ∷ 8 ∷ 104 ∷ 116 ∷ 116 ∷ 112 ∷ 58
    ∷ 47 ∷ 47 ∷ 97 ∷ 48 ∷ 32 ∷ 6 ∷ 8 ∷ 43 ∷ 6 ∷ 1 ∷ 5 ∷ 5 ∷ 7 ∷ 2 ∷ 2 ∷ 48 ∷ 20 ∷ notice_der

abbrev sample_der : Bytes
sample_der =
    48 ∷ 71 ∷ 48 ∷ 63 ∷ 6 ∷ 3 ∷ 42 ∷ 134 ∷ 72 ∷ (qualifiers_der ++ (48 ∷ 4 ∷ 6 ∷ 2 ∷ 136 ∷ 55 ∷ []))

-- Opens the encoder for a run.
encoder_open : Unit {0}
unfolding split join trim_space parse_uint groups der_len der_tlv low_byte shift_right
    complement_loop strip pad_sign encode_integer mark_continued base128 parse_arcs base128_all
    encode_arcs encode_parts encode_trimmed encode_oid Encode.bytes_eq Encode.is_empty
    Encode.is_ia5_string Encode.encode_numbers Encode.notice_reference Encode.encode_user_notice
    Encode.cps_qualifier_info Encode.notice_qualifier_info Encode.encode_cps_uris
    Encode.encode_notice_qualifier Encode.qualifiers_field Encode.encode_policy_qualifiers
    Encode.seen_oid Encode.policy_information Encode.encode_policies
    Encode.encode_certificate_policies
encoder_open = tt

sample_encoded : encode_certificate_policies sample ≡ ok sample_der
unfolding encoder_open
sample_encoded = refl

parse-encode_certificate_policies_example :
    parse_certificate_policies sample_der ≡ ok (map canonical sample)
parse-encode_certificate_policies_example =
    parse-encode_certificate_policies sample sample_der sample_ints sample_encoded (omega arith)

qualifiers_encoded : encode_policy_qualifiers first_policy ≡ ok qualifiers_der
unfolding encoder_open
qualifiers_encoded = refl

parse_qualifiers-encode_policy_qualifiers_example :
    parse_qualifiers
      (record { oid = codes "1.2"; cps_uris = []; user_notice = none })
      qualifiers_der
    ≡ ok (record first_policy { oid = codes "1.2" })
parse_qualifiers-encode_policy_qualifiers_example =
    parse_qualifiers-encode_policy_qualifiers first_policy (codes "1.2") qualifiers_der
      (omega arith, (omega arith, tt)) qualifiers_encoded (omega arith)

notice_encoded : encode_user_notice sample_notice ≡ ok notice_der
unfolding encoder_open
notice_encoded = refl

parse_user_notice-encode_user_notice_example : parse_user_notice notice_der ≡ ok sample_notice
parse_user_notice-encode_user_notice_example =
    parse_user_notice-encode_user_notice sample_notice notice_der (omega arith, (omega arith, tt))
      notice_encoded (omega arith)

parse_certificate_policies-ne-stuck_example :
    parse_certificate_policies (48 ∷ 2 ∷ 48 ∷ 0 ∷ []) ≢ err stuck
parse_certificate_policies-ne-stuck_example =
    parse_certificate_policies-ne-stuck (48 ∷ 2 ∷ 48 ∷ 0 ∷ [])

arcs_encoded : encode_arcs (1 ∷ 2 ∷ 840 ∷ []) ≡ ok (42 ∷ 134 ∷ 72 ∷ [])
unfolding encoder_open
arcs_encoded = refl

oid_encoded : encode_oid (codes " 1.2.0840") ≡ ok (42 ∷ 134 ∷ 72 ∷ [])
unfolding encoder_open
oid_encoded = refl

decode_oid-encode_oid_example :
    (arcs : List ℕ) × (parse_arcs (split 46 (trim_space (codes " 1.2.0840"))) ≡ ok arcs)
    × (decode_oid (42 ∷ 134 ∷ 72 ∷ []) ≡ ok (format_arcs arcs))
decode_oid-encode_oid_example =
    decode_oid-encode_oid (codes " 1.2.0840") (42 ∷ 134 ∷ 72 ∷ []) oid_encoded

decode_integer-encode_integer_example :
    decode_integer (encode_integer (negsuc 128)) ≡ ok (negsuc 128)
decode_integer-encode_integer_example = decode_integer-encode_integer (negsuc 128) (omega arith)

decode_integer-value_example : decode_integer (255 ∷ 127 ∷ []) ≡ ok (integer_value (255 ∷ 127 ∷ []))
decode_integer-value_example =
    decode_integer-value 255 (127 ∷ []) (omega arith, (omega arith, tt)) (omega arith)

read-der_tlv_example : read (der_tlv 4 (7 ∷ 8 ∷ []) ++ (9 ∷ [])) ≡ ok (4, 7 ∷ 8 ∷ [], 9 ∷ [])
read-der_tlv_example = read-der_tlv 4 (7 ∷ 8 ∷ []) (9 ∷ []) (omega arith)

plain_encoded : encode_oid (codes "1.2") ≡ ok (42 ∷ [])
unfolding encoder_open
plain_encoded = refl

twice_der-IsShort : IsShort (twice_der (42 ∷ []))
unfolding encoder_open
twice_der-IsShort = omega arith

encode_certificate_policies-twice_example :
    (encode_certificate_policies (twice (codes "1.2")) ≡ ok (twice_der (42 ∷ [])))
    × (parse_certificate_policies (twice_der (42 ∷ []))
        ≡ ok (bare (canonical_oid (codes "1.2")) ∷ bare (canonical_oid (codes "1.2")) ∷ []))
encode_certificate_policies-twice_example =
    encode_certificate_policies-twice (codes "1.2") (42 ∷ []) plain_encoded twice_der-IsShort
