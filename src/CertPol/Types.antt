-- ===== src/CertPol/Types.antt =====
-- x509/certpol.go and the head of x509/certpol_der.go: the values, the tags and the errors of the
-- certificatePolicies codec. A Go string or byte slice is the list of its bytes.
use tongsuo_go.Base.{ℕ, List, [], ◌∷◌, Option, ◌<◌}
use tongsuo_go.Base.Signed.{ℤ}

abbrev pub Bytes : Type 0
Bytes = List ℕ

abbrev pub IsByte : ℕ → Type 0
IsByte b = b < 256

-- The `UserNotice` struct; an `int` is an integer.
pub record UserNotice : Type 0 where
  pub organization : Bytes
  pub notice_numbers : List ℤ
  pub explicit_text : Bytes

-- The `CertificatePolicy` struct; the nil pointer is `none`.
pub record CertificatePolicy : Type 0 where
  pub oid : Bytes
  pub cps_uris : List Bytes
  pub user_notice : Option UserNotice

abbrev pub tag_integer : ℕ
tag_integer = 0x02

abbrev pub tag_oid : ℕ
tag_oid = 0x06

abbrev pub tag_utf8_string : ℕ
tag_utf8_string = 0x0c

abbrev pub tag_ia5_string : ℕ
tag_ia5_string = 0x16

abbrev pub tag_sequence : ℕ
tag_sequence = 0x30

abbrev pub tag_visible_string : ℕ
tag_visible_string = 0x1a

abbrev pub tag_bmp_string : ℕ
tag_bmp_string = 0x1e

abbrev pub oid_cps_content : Bytes
oid_cps_content = 0x2b ∷ 0x06 ∷ 0x01 ∷ 0x05 ∷ 0x05 ∷ 0x07 ∷ 0x02 ∷ 0x01 ∷ []

abbrev pub oid_user_notice_content : Bytes
oid_user_notice_content = 0x2b ∷ 0x06 ∷ 0x01 ∷ 0x05 ∷ 0x05 ∷ 0x07 ∷ 0x02 ∷ 0x02 ∷ []

-- The errors of the cursor and of `decodeInteger`.
pub data DerError : Type 0 where
  truncated_element truncated_length indefinite_length long_form_length truncated_content : DerError
  empty_integer integer_too_long integer_out_of_range : DerError

-- The errors of `encodeOID`.
pub data OidError : Type 0 where
  empty_oid too_few_arcs empty_arc bad_arc first_arc second_arc second_arc_too_large : OidError

-- The errors of the encoder. `policy_at i` is the wrapping `policy %d: %w`.
pub data EncodeError : Type 0 where
  no_policy : EncodeError
  duplicate_policy : Bytes → EncodeError
  bad_oid : OidError → EncodeError
  empty_cps_uri : EncodeError
  non_ia5_cps_uri : Bytes → EncodeError
  empty_user_notice : EncodeError
  numbers_without_organization : EncodeError
  policy_at : ℕ → EncodeError → EncodeError

-- What the parser was reading when it failed.
pub data Place : Type 0 where
  policy_sequence policy_information policy_identifier policy_qualifiers : Place
  policy_qualifier qualifier_id cps_qualifier user_notice_qualifier : Place
  user_notice_element notice_organization notice_numbers_field notice_number : Place

-- The errors of the parser. `stuck` is no Go error: a loop of the model ran out of fuel.
pub data ParseError : Type 0 where
  reading : Place → DerError → ParseError
  unexpected_tag : Place → ℕ → ParseError
  trailing_bytes : Place → ParseError
  empty_policy_sequence : ParseError
  odd_bmp_string : ParseError
  display_text_tag : ℕ → ParseError
  stuck : ParseError
