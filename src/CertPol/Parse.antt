-- ===== src/CertPol/Parse.antt =====
-- `parseCertificatePolicies` and the functions below it in x509/certpol_der.go. A function that moves
-- a cursor takes the cursor's bytes and returns those that are left.
pub mod Loop
mod Ends
mod Arcs
pub mod Termination
use tongsuo_go.Base.{
  ℕ, List, [], ◌∷◌, ◌++◌, Option, none, some, Bool, ◌==◌, ◌||◌, if◌then◌else◌, length, Result, ok,
  err, wrap, ◌>>=◌, ◌>>◌,
}
use tongsuo_go.Base.Signed.{ℤ}
use tongsuo_go.CertPol.Types.{
  Bytes, UserNotice, CertificatePolicy, tag_integer, tag_oid, tag_utf8_string, tag_ia5_string,
  tag_visible_string, tag_bmp_string, tag_sequence, oid_cps_content, oid_user_notice_content, Place,
  policy_sequence, policy_information, policy_identifier, policy_qualifiers, policy_qualifier,
  qualifier_id, cps_qualifier, user_notice_qualifier, user_notice_element, notice_organization,
  notice_numbers_field, notice_number, ParseError, reading, unexpected_tag, trailing_bytes,
  empty_policy_sequence,
}
use tongsuo_go.CertPol.Tlv.{read}
use tongsuo_go.CertPol.Integer.{decode_integer}
use tongsuo_go.CertPol.Oid.{decode_oid}
use tongsuo_go.CertPol.Encode.{bytes_eq}
use tongsuo_go.CertPol.DisplayText.{decode_display_text}
use Loop.{read_while}

-- `tag, body, err := c.read()` with the two checks that follow it.
unfoldable pub expect : Place → ℕ → Bytes → Result ParseError (Bytes × Bytes)
expect place wanted cursor = do
  (tag, body, rest) ← wrap (reading place) (read cursor)
  if tag == wanted then ok (body, rest) else err (unexpected_tag place tag)

-- `if !c.empty() { … trailing bytes … }`
unfoldable pub expect_end : Place → Bytes → Result ParseError (Unit {0})
expect_end place [] = ok tt
expect_end place (b ∷ bs) = err (trailing_bytes place)

unfoldable pub parse_number : List ℤ → Bytes → Result ParseError (List ℤ × Bytes)
parse_number numbers cursor = do
  (bytes, rest) ← expect notice_number tag_integer cursor
  n ← wrap (reading notice_number) (decode_integer bytes)
  ok (numbers ++ n ∷ [], rest)

-- What follows the notice numbers is not looked at.
unfoldable pub parse_notice_reference : Bytes → Result ParseError (Bytes × List ℤ)
parse_notice_reference body = do
  (tag, organization, rest) ← wrap (reading notice_organization) (read body)
  text ← decode_display_text tag organization
  (number_body, after) ← expect notice_numbers_field tag_sequence rest
  numbers ← read_while parse_number [] number_body
  ok (text, numbers)

unfoldable pub is_text_tag : ℕ → Bool
is_text_tag tag =
    tag == tag_utf8_string
    || tag == tag_visible_string
    || tag == tag_ia5_string
    || tag == tag_bmp_string

-- The `switch` on the tag of an element.
unfoldable pub parse_notice_value : UserNotice → ℕ → Bytes → Result ParseError UserNotice
parse_notice_value n tag content =
    if tag == tag_sequence
    then (do
      (organization, numbers) ← parse_notice_reference content
      ok (record n { organization = organization; notice_numbers = numbers }))
    else if is_text_tag tag
    then (do text ← decode_display_text tag content; ok (record n { explicit_text = text }))
    else err (unexpected_tag user_notice_element tag)

unfoldable pub parse_notice_element : UserNotice → Bytes → Result ParseError (UserNotice × Bytes)
parse_notice_element n cursor = do
  (tag, content, rest) ← wrap (reading user_notice_element) (read cursor)
  n' ← parse_notice_value n tag content
  ok (n', rest)

abbrev pub no_notice : UserNotice
no_notice = record { organization = []; notice_numbers = []; explicit_text = [] }

unfoldable pub parse_user_notice : Bytes → Result ParseError UserNotice
parse_user_notice body = read_while parse_notice_element no_notice body

-- The `switch` on the qualifier's id: a CPS, a user notice, or a qualifier that is passed over.
unfoldable pub parse_qualifier_value :
    Bytes → Bytes → CertificatePolicy → Result ParseError CertificatePolicy
parse_qualifier_value id inner p =
    if bytes_eq id oid_cps_content
    then (do
      (cps, after) ← expect cps_qualifier tag_ia5_string inner
      expect_end policy_qualifier after
      ok (record p { cps_uris = p.cps_uris ++ cps ∷ [] }))
    else if bytes_eq id oid_user_notice_content
    then (do
      (notice, after) ← expect user_notice_qualifier tag_sequence inner
      n ← parse_user_notice notice
      expect_end policy_qualifier after
      ok (record p { user_notice = some n }))
    else ok p

unfoldable pub parse_policy_qualifier :
    CertificatePolicy → Bytes → Result ParseError (CertificatePolicy × Bytes)
parse_policy_qualifier p cursor = do
  (body, rest) ← expect policy_qualifier tag_sequence cursor
  (id, inner) ← expect qualifier_id tag_oid body
  p' ← parse_qualifier_value id inner p
  ok (p', rest)

-- After the identifier: no qualifiers, or a sequence of them and nothing else.
unfoldable pub parse_qualifiers : CertificatePolicy → Bytes → Result ParseError CertificatePolicy
parse_qualifiers p [] = ok p
parse_qualifiers p (b ∷ bs) = do
  (body, after) ← expect policy_qualifiers tag_sequence (b ∷ bs)
  expect_end policy_information after
  read_while parse_policy_qualifier p body

unfoldable pub parse_policy_information :
    List CertificatePolicy → Bytes → Result ParseError (List CertificatePolicy × Bytes)
parse_policy_information policies cursor = do
  (body, rest) ← expect policy_information tag_sequence cursor
  (oid_bytes, inner) ← expect policy_identifier tag_oid body
  oid ← decode_oid oid_bytes
  p ← parse_qualifiers (record { oid = oid; cps_uris = []; user_notice = none }) inner
  ok (policies ++ p ∷ [], rest)

unfoldable pub some_policies : List CertificatePolicy → Result ParseError (List CertificatePolicy)
some_policies [] = err empty_policy_sequence
some_policies (p ∷ ps) = ok (p ∷ ps)

unfoldable pub parse_certificate_policies : Bytes → Result ParseError (List CertificatePolicy)
parse_certificate_policies der = do
  (body, after) ← expect policy_sequence tag_sequence der
  expect_end policy_sequence after
  policies ← read_while parse_policy_information [] body
  some_policies policies
