-- ===== src/CertPol/RoundTrip/Duplicates.antt =====
-- The check of `encodeCertificatePolicies` for repeated policies compares the texts of the OIDs, and a
-- blank in front of a text is trimmed after it.
use tongsuo_go.Base.{
  List, [], ◌∷◌, ◌++◌, ◌≡◌, refl, ap, ◌∙◌, arith, none, ok, length, append-nil, true, false,
  Bool-cases, ◌==◌, ==_iff, inl, inr, suc,
}
use tongsuo_go.Base.Text.{trim_space-blank}
use tongsuo_go.CertPol.Types.{Bytes, CertificatePolicy, tag_sequence}
use tongsuo_go.CertPol.Tlv.{der_tlv}
use tongsuo_go.CertPol.Oid.{encode_trimmed, encode_oid}
use tongsuo_go.CertPol.Encode.{
  bytes_eq, seen_oid, encode_cps_uris, encode_notice_qualifier, qualifiers_field,
  encode_policy_qualifiers, policy_information, encode_policies, encode_certificate_policies,
}
use tongsuo_go.CertPol.Parse.{parse_certificate_policies}
use tongsuo_go.CertPol.RoundTrip.Expect.{IsShort}
use tongsuo_go.CertPol.RoundTrip.Policies.{canonical_oid, parse-encode_certificate_policies}

abbrev pub bare : Bytes → CertificatePolicy
bare oid = record { oid = oid; cps_uris = []; user_notice = none }

abbrev pub twice : Bytes → List CertificatePolicy
twice oid = bare oid ∷ bare (0x20 ∷ oid) ∷ []

encode_oid-blank : (oid : Bytes) → encode_oid (0x20 ∷ oid) ≡ encode_oid oid
unfolding encode_oid
encode_oid-blank oid = ap encode_trimmed (trim_space-blank oid)

canonical_oid-blank : (oid : Bytes) → canonical_oid (0x20 ∷ oid) ≡ canonical_oid oid
canonical_oid-blank oid = rw (trim_space-blank oid)

bytes_eq→≡ : (s t : Bytes) → bytes_eq s t ≡ true → s ≡ t
unfolding bytes_eq
bytes_eq→≡ [] [] h = refl
bytes_eq→≡ [] (d ∷ t) h = cc
bytes_eq→≡ (c ∷ s) [] h = cc
bytes_eq→≡ (c ∷ s) (d ∷ t) h = elim (Bool-cases (c == d)) [
  | inr differ ↦ absurd (cc (rw differ at h))
  | inl same ↦ rw ((==_iff c d).0 same) (ap (λ r. d ∷ r) (bytes_eq→≡ s t (rw same at h)))
]

bytes_eq_blank : (oid : Bytes) → bytes_eq (0x20 ∷ oid) oid ≡ false
bytes_eq_blank oid = elim (Bool-cases (bytes_eq (0x20 ∷ oid) oid)) [
  | inr differ ↦ differ
  | inl same ↦
      let lengths : suc (length oid) ≡ length oid = ap length (bytes_eq→≡ (0x20 ∷ oid) oid same) in
      absurd (omega arith)
]

-- The encoding of two policies without qualifiers, with the same OID.
abbrev pub twice_der : Bytes → Bytes
twice_der c = der_tlv tag_sequence (policy_information c [] ++ policy_information c [])

encode-twice :
    (oid c : Bytes)
    → encode_oid oid ≡ ok c
    → encode_certificate_policies (twice oid) ≡ ok (twice_der c)
unfolding encode_certificate_policies encode_policies seen_oid encode_policy_qualifiers
    encode_cps_uris encode_notice_qualifier qualifiers_field
encode-twice oid c e =
    let again : encode_oid (0x20 ∷ oid) ≡ ok c = encode_oid-blank oid ∙ e in
    rw (e, bytes_eq_blank oid, again, append-nil (policy_information c []))

-- When encode_oid accepts a text, and the encoding of two bare policies with its OID is below 2^32
-- bytes, encode_certificate_policies accepts the list of a bare policy with the text and one with
-- a blank in front of it, and parse_certificate_policies reads from the encoding two policies with
-- the same OID.
pub encode_certificate_policies-twice :
    (oid c : Bytes)
    → encode_oid oid ≡ ok c
    → IsShort (twice_der c)
    → (encode_certificate_policies (twice oid) ≡ ok (twice_der c))
      × (parse_certificate_policies (twice_der c)
          ≡ ok (bare (canonical_oid oid) ∷ bare (canonical_oid oid) ∷ []))
encode_certificate_policies-twice oid c e short =
    let written = encode-twice oid c e in
    (
      written,
      parse-encode_certificate_policies (twice oid) (twice_der c) (tt, (tt, tt)) written short
          ∙ ap (λ o. ok (bare (canonical_oid oid) ∷ bare o ∷ [])) (canonical_oid-blank oid),
    )
