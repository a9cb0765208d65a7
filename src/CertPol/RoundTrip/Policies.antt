-- ===== src/CertPol/RoundTrip/Policies.antt =====
-- The policies, and the whole extension value.
use mathlib.Core.List.{foldl}
use tongsuo_go.Base.{
  wrap-eq-ok, ℕ, ◌+◌, ◌^◌, List, [], ◌∷◌, ◌++◌, ◌≡◌, refl, ap, sym, ◌∙◌, arith, length-append,
  append_assoc, append-nil, false, Bool-cases, inl, inr, Result, ok, err, ok-injective, wrap,
  >>=-eq-ok, All, map,
}
use tongsuo_go.Base.Text.{split, trim_space}
use tongsuo_go.CertPol.Types.{
  Bytes, CertificatePolicy, tag_oid, tag_sequence, OidError, bad_oid, policy_at, policy_information,
  policy_identifier, policy_sequence,
}
use tongsuo_go.CertPol.Tlv.{der_tlv}
use tongsuo_go.CertPol.Oid.{parse_arcs, format_arcs, encode_oid, decode_oid}
use tongsuo_go.CertPol.Oid.RoundTrip.{decode_oid-encode_oid}
use tongsuo_go.CertPol.Encode
use tongsuo_go.CertPol.Encode.{
  encode_policy_qualifiers, seen_oid, encode_policies, encode_certificate_policies,
}
use tongsuo_go.CertPol.Parse.{
  expect_end, parse_policy_information, some_policies, parse_certificate_policies,
}
use tongsuo_go.CertPol.Parse.Loop.{read_while, encode_all, All-encode_all, read_while-encode_all}
use tongsuo_go.CertPol.RoundTrip.Expect.{
  IsShort, length-le-der_tlv, der_tlv-nonempty, expect-der_tlv, expect-der_tlv_last,
}
use tongsuo_go.CertPol.RoundTrip.Qualifiers.{
  HasIntNotice, parse_qualifiers-encode_policy_qualifiers,
}

abbrev texts_of : Result OidError (List ℕ) → Bytes
texts_of (ok arcs) = format_arcs arcs
texts_of (err e) = []

-- The canonical text of the arcs of an OID text: no white space, no leading zeros.
abbrev pub canonical_oid : Bytes → Bytes
canonical_oid oid = texts_of (parse_arcs (split b'.' (trim_space oid)))

abbrev pub canonical : CertificatePolicy → CertificatePolicy
canonical p = record p { oid = canonical_oid p.oid }

abbrev pub IsIntPolicy : CertificatePolicy → Type 0
IsIntPolicy p = HasIntNotice p.user_notice

-- A policy with the bytes that the encoder wrote for its OID and its qualifiers.
record Item : Type 0 where
  policy : CertificatePolicy
  oid_content : Bytes
  field : Bytes

abbrev encode_item : Item → Bytes
encode_item it = Encode.policy_information it.oid_content it.field

abbrev add_item : List CertificatePolicy → Item → List CertificatePolicy
add_item ps it = ps ++ canonical it.policy ∷ []

record IsEncodedItem (it : Item) : Type 0 where
  ints : IsIntPolicy it.policy
  oid_encoded : encode_oid it.policy.oid ≡ ok it.oid_content
  field_encoded : encode_policy_qualifiers it.policy ≡ ok it.field

abbrev IsReadable : Item → Type 0
IsReadable it = IsEncodedItem it × IsShort (encode_item it)

encode_item-nonempty : (it : Item) → (b : ℕ) × (bs : Bytes) × (encode_item it ≡ b ∷ bs)
encode_item-nonempty it = unfold Encode.policy_information in der_tlv-nonempty tag_sequence _

decode_oid-canonical :
    (oid c : Bytes) → encode_oid oid ≡ ok c → decode_oid c ≡ ok (canonical_oid oid)
decode_oid-canonical oid c e =
    let (arcs, parsed, decoded) = decode_oid-encode_oid oid c e in
    decoded ∙ sym (ap (λ r. ok (texts_of r)) parsed)

parse_policy_information-encode_item :
    (ps : List CertificatePolicy) (it : Item) (rest : Bytes)
    → IsReadable it
    → parse_policy_information ps (encode_item it ++ rest) ≡ ok (add_item ps it, rest)
unfolding parse_policy_information Encode.policy_information
parse_policy_information-encode_item ps it rest (enc, short) =
    let first = der_tlv tag_oid it.oid_content in
    let whole = length-le-der_tlv tag_sequence (first ++ it.field) in
    let sum = length-append first it.field in
    let size = length-le-der_tlv tag_oid it.oid_content in
    rw (
      expect-der_tlv policy_information tag_sequence (first ++ it.field) rest (omega arith),
      expect-der_tlv policy_identifier tag_oid it.oid_content it.field (omega arith),
      decode_oid-canonical it.policy.oid it.oid_content enc.oid_encoded,
      parse_qualifiers-encode_policy_qualifiers it.policy (canonical_oid it.policy.oid) it.field
          enc.ints enc.field_encoded (omega arith),
    )

-- What the encoder wrote for a list of policies.
record Written (ps : List CertificatePolicy) (body : Bytes) : Type 0 where
  items : List Item
  bytes : body ≡ encode_all encode_item items
  encoded : All IsEncodedItem items
  policies : map (λ it. it.policy) items ≡ ps

-- The round of one policy that the encoder accepted.
record FirstPolicy (i : ℕ) (seen : List Bytes) (p : CertificatePolicy) (ps : List CertificatePolicy)
    (body : Bytes) : Type 0 where
  fresh : seen_oid p.oid seen ≡ false
  oid_content : Bytes
  field : Bytes
  rest : Bytes
  oid_encoded : encode_oid p.oid ≡ ok oid_content
  field_encoded : encode_policy_qualifiers p ≡ ok field
  rest_encoded : encode_policies (i + 1) (p.oid ∷ seen) ps ≡ ok rest
  joined : body ≡ Encode.policy_information oid_content field ++ rest

encode_policies-first :
    (i : ℕ) (seen : List Bytes) (p : CertificatePolicy) (ps : List CertificatePolicy) (body : Bytes)
    → encode_policies i seen (p ∷ ps) ≡ ok body
    → FirstPolicy i seen p ps body
unfolding encode_policies
encode_policies-first i seen p ps body e = elim (Bool-cases (seen_oid p.oid seen)) [
  | inl again ↦ absurd (cc (rw again at e))
  | inr fresh ↦
      let (c, ec, r) =
        >>=-eq-ok (wrap (λ x. policy_at i (bad_oid x)) (encode_oid p.oid)) _ (rw fresh at e) in
      let (q, eq, r') = >>=-eq-ok (wrap (policy_at i) (encode_policy_qualifiers p)) _ r in
      let (rest, er, t) = >>=-eq-ok (encode_policies (i + 1) (p.oid ∷ seen) ps) _ r' in
      record {
        fresh = fresh;
        oid_content = c;
        field = q;
        rest = rest;
        oid_encoded = wrap-eq-ok (λ x. policy_at i (bad_oid x)) (encode_oid p.oid) ec;
        field_encoded = wrap-eq-ok (policy_at i) (encode_policy_qualifiers p) eq;
        rest_encoded = er;
        joined = sym (ok-injective t);
      }
]

encode_policies-Written :
    (i : ℕ) (seen : List Bytes) (ps : List CertificatePolicy) (body : Bytes)
    → All IsIntPolicy ps
    → encode_policies i seen ps ≡ ok body
    → Written ps body
encode_policies-Written i seen [] body ints e = record {
  items = [];
  bytes = unfold encode_policies encode_all in sym (ok-injective e);
  encoded = tt;
  policies = refl;
}
encode_policies-Written i seen (p ∷ ps) body (int, ints) e =
    let first = encode_policies-first i seen p ps body e in
    let more =
      encode_policies-Written (i + 1) (p.oid ∷ seen) ps first.rest ints first.rest_encoded in
    join_item first more
  where
    join_item :
        (first : FirstPolicy i seen p ps body) → Written ps first.rest → Written (p ∷ ps) body
    join_item first more = record {
      items =
          record { policy = p; oid_content = first.oid_content; field = first.field } ∷ more.items;
      bytes =
          first.joined
          ∙ unfold encode_all in
            ap (λ t. Encode.policy_information first.oid_content first.field ++ t) more.bytes;
      encoded = (
        record { ints = int; oid_encoded = first.oid_encoded; field_encoded = first.field_encoded },
        more.encoded,
      );
      policies = ap (λ t. p ∷ t) more.policies;
    }

foldl-add_item :
    (ps : List CertificatePolicy) (items : List Item)
    → foldl add_item ps items ≡ ps ++ map canonical (map (λ it. it.policy) items)
foldl-add_item ps [] = sym (append-nil ps)
foldl-add_item ps (it ∷ items) =
    foldl-add_item (ps ++ canonical it.policy ∷ []) items
    ∙ append_assoc ps (canonical it.policy ∷ []) _

read_policies :
    (ps : List CertificatePolicy) (body : Bytes)
    → Written ps body
    → IsShort body
    → read_while parse_policy_information [] body ≡ ok (map canonical ps)
read_policies ps body w short =
    let readable : All IsReadable w.items =
      All-encode_all IsEncodedItem encode_item (2 ^ 32) w.items w.encoded (rw w.bytes at short) in
    rw w.bytes (
      read_while-encode_all IsReadable parse_policy_information encode_item add_item
        encode_item-nonempty parse_policy_information-encode_item w.items [] readable
      ∙ ap ok (foldl-add_item [] w.items ∙ ap (map canonical) w.policies))

-- When every notice number of a list of policies is a 64-bit integer, and
-- encode_certificate_policies returns an encoding of less than 2^32 bytes, then
-- parse_certificate_policies reads from it the same policies in the same order, each with its OID
-- in canonical form and all else unchanged.
pub parse-encode_certificate_policies :
    (ps : List CertificatePolicy) (der : Bytes)
    → All IsIntPolicy ps
    → encode_certificate_policies ps ≡ ok der
    → IsShort der
    → parse_certificate_policies der ≡ ok (map canonical ps)
unfolding encode_certificate_policies parse_certificate_policies
parse-encode_certificate_policies [] der ints e short = cc
parse-encode_certificate_policies (p ∷ ps) der ints e short =
    let (body, eb, t) =
      >>=-eq-ok (encode_policies 0 [] (p ∷ ps)) (λ body. ok (der_tlv tag_sequence body)) e in
    let shape : der ≡ der_tlv tag_sequence body = sym (ok-injective t) in
    let whole : IsShort (der_tlv tag_sequence body) = rw shape at short in
    let inner : IsShort body = omega (arith, length-le-der_tlv tag_sequence body) in
    let written = encode_policies-Written 0 [] (p ∷ ps) body ints eb in
    rw
      (
        shape,
        expect-der_tlv_last policy_sequence tag_sequence body inner,
        read_policies (p ∷ ps) body written inner,
      )
      (unfold expect_end some_policies in refl)
