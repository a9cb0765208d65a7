-- ===== src/CertPol/Encode.antt =====
-- `encodeCertificatePolicies`, `encodePolicyQualifiers`, `encodeUserNotice` and `isIA5String` of
-- x509/certpol_der.go. A loop that appends to a slice is a recursion that returns what the rounds
-- append; the checks of a round stand before the later rounds, as in the source.
use tongsuo_go.Base.{
  ℕ, ◌+◌, List, [], ◌∷◌, ◌++◌, Option, none, some, Bool, true, false, not, ◌&&◌, ◌||◌, ltb, ◌==◌,
  if◌then◌else◌, Result, ok, err, wrap, ◌>>=◌,
}
use tongsuo_go.Base.Signed.{ℤ}
use tongsuo_go.CertPol.Types.{
  Bytes, UserNotice, CertificatePolicy, tag_integer, tag_oid, tag_utf8_string, tag_ia5_string,
  tag_sequence, oid_cps_content, oid_user_notice_content, EncodeError, no_policy, duplicate_policy,
  bad_oid, empty_cps_uri, non_ia5_cps_uri, empty_user_notice, numbers_without_organization,
  policy_at,
}
use tongsuo_go.CertPol.Tlv.{der_tlv}
use tongsuo_go.CertPol.Integer.{encode_integer}
use tongsuo_go.CertPol.Oid.{encode_oid}

-- Equality of Go strings.
unfoldable pub bytes_eq : Bytes → Bytes → Bool
bytes_eq [] [] = true
bytes_eq [] (d ∷ t) = false
bytes_eq (c ∷ s) [] = false
bytes_eq (c ∷ s) (d ∷ t) = c == d && bytes_eq s t

unfoldable pub is_empty {ℓ} : {A : Type ℓ} → List A → Bool
is_empty [] = true
is_empty (x ∷ xs) = false

unfoldable pub is_ia5_string : Bytes → Bool
is_ia5_string [] = true
is_ia5_string (c ∷ s) = let rest = is_ia5_string s in if ltb 0x7f c then false else rest

unfoldable pub encode_numbers : List ℤ → Bytes
encode_numbers [] = []
encode_numbers (v ∷ vs) = der_tlv tag_integer (encode_integer v) ++ encode_numbers vs

unfoldable pub notice_reference : Bytes → List ℤ → Bytes
notice_reference organization numbers =
    der_tlv tag_sequence
      (der_tlv tag_utf8_string organization ++ der_tlv tag_sequence (encode_numbers numbers))

unfoldable pub encode_user_notice : UserNotice → Result EncodeError Bytes
encode_user_notice n =
    if is_empty n.organization && is_empty n.notice_numbers && is_empty n.explicit_text
    then err empty_user_notice
    else if not (is_empty n.notice_numbers) && is_empty n.organization
    then err numbers_without_organization
    else ok (
        (if is_empty n.organization then [] else notice_reference n.organization n.notice_numbers)
        ++ (if is_empty n.explicit_text then [] else der_tlv tag_utf8_string n.explicit_text))

unfoldable pub cps_qualifier_info : Bytes → Bytes
cps_qualifier_info uri =
    der_tlv tag_sequence (der_tlv tag_oid oid_cps_content ++ der_tlv tag_ia5_string uri)

unfoldable pub notice_qualifier_info : Bytes → Bytes
notice_qualifier_info notice =
    der_tlv tag_sequence (der_tlv tag_oid oid_user_notice_content ++ der_tlv tag_sequence notice)

-- The loop over `p.CPSURIs`.
unfoldable pub encode_cps_uris : List Bytes → Result EncodeError Bytes
encode_cps_uris [] = ok []
encode_cps_uris (uri ∷ uris) =
    if is_empty uri
    then err empty_cps_uri
    else if not (is_ia5_string uri)
    then err (non_ia5_cps_uri uri)
    else do rest ← encode_cps_uris uris; ok (cps_qualifier_info uri ++ rest)

unfoldable pub encode_notice_qualifier : Option UserNotice → Result EncodeError Bytes
encode_notice_qualifier none = ok []
encode_notice_qualifier (some n) = do
  notice ← encode_user_notice n
  ok (notice_qualifier_info notice)

-- No qualifier, no field.
unfoldable pub qualifiers_field : Bytes → Bytes
qualifiers_field [] = []
qualifiers_field (b ∷ quals) = der_tlv tag_sequence (b ∷ quals)

unfoldable pub encode_policy_qualifiers : CertificatePolicy → Result EncodeError Bytes
encode_policy_qualifiers p = do
  cps ← encode_cps_uris p.cps_uris
  notice ← encode_notice_qualifier p.user_notice
  ok (qualifiers_field (cps ++ notice))

-- `seen[p.OID]`
unfoldable pub seen_oid : Bytes → List Bytes → Bool
seen_oid oid [] = false
seen_oid oid (o ∷ seen) = bytes_eq oid o || seen_oid oid seen

unfoldable pub policy_information : Bytes → Bytes → Bytes
policy_information oid_content qualifiers =
    der_tlv tag_sequence (der_tlv tag_oid oid_content ++ qualifiers)

-- The loop over the policies, from the index `i` on.
unfoldable pub encode_policies : ℕ → List Bytes → List CertificatePolicy → Result EncodeError Bytes
encode_policies i seen [] = ok []
encode_policies i seen (p ∷ ps) = if seen_oid p.oid seen then err (duplicate_policy p.oid) else do
  oid_content ← wrap (λ e. policy_at i (bad_oid e)) (encode_oid p.oid)
  qualifiers ← wrap (policy_at i) (encode_policy_qualifiers p)
  rest ← encode_policies (i + 1) (p.oid ∷ seen) ps
  ok (policy_information oid_content qualifiers ++ rest)

unfoldable pub encode_certificate_policies : List CertificatePolicy → Result EncodeError Bytes
encode_certificate_policies [] = err no_policy
encode_certificate_policies (p ∷ ps) = do
  body ← encode_policies 0 [] (p ∷ ps)
  ok (der_tlv tag_sequence body)
