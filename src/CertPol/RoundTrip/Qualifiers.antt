-- ===== src/CertPol/RoundTrip/Qualifiers.antt =====
-- The qualifiers of a policy: CPS addresses and a user notice.
use tongsuo_go.Base.{
  ℕ, ◌^◌, ◌≤◌, List, [], ◌∷◌, ◌++◌, ◌≡◌, refl, ap, sym, ◌∙◌, arith, length, length-append,
  append-nil, append_assoc, Option, none, some, not, Bool-cases, inl, inr, ok, ok-injective, ◌>>=◌,
  >>=-eq-ok, All-append, All, foldl, map,
}
use mathlib.Core.List.{foldl-append}
use tongsuo_go.CertPol.Types.{
  Bytes, UserNotice, CertificatePolicy, tag_oid, tag_ia5_string, tag_sequence, oid_cps_content,
  oid_user_notice_content, policy_qualifier, qualifier_id, cps_qualifier, user_notice_qualifier,
  policy_qualifiers,
}
use tongsuo_go.CertPol.Tlv.{der_tlv}
use tongsuo_go.CertPol.Encode.{
  bytes_eq, is_empty, is_ia5_string, encode_user_notice, cps_qualifier_info, notice_qualifier_info,
  encode_cps_uris, encode_notice_qualifier, qualifiers_field, encode_policy_qualifiers,
}
use tongsuo_go.CertPol.Parse.{
  expect_end, parse_qualifier_value, parse_policy_qualifier, parse_qualifiers,
}
use tongsuo_go.CertPol.Parse.Loop.{
  read_while, read_while_fuel, encode_all, encode_all-append, All-encode_all, read_while-encode_all,
}
use tongsuo_go.CertPol.RoundTrip.Expect.{
  IsShort, length-le-der_tlv, der_tlv-nonempty, expect-der_tlv, expect-der_tlv_last,
}
use tongsuo_go.CertPol.RoundTrip.Notice.{IsIntNotice, parse_user_notice-encode_user_notice}

-- A qualifier, with the bytes that the encoder wrote for a notice.
data Qualifier : Type 0 where
  cps : Bytes → Qualifier
  notice : UserNotice → Bytes → Qualifier

abbrev encode_qualifier : Qualifier → Bytes
encode_qualifier (cps uri) = cps_qualifier_info uri
encode_qualifier (notice n body) = notice_qualifier_info body

abbrev add_qualifier : CertificatePolicy → Qualifier → CertificatePolicy
add_qualifier p (cps uri) = record p { cps_uris = p.cps_uris ++ uri ∷ [] }
add_qualifier p (notice n body) = record p { user_notice = some n }

abbrev IsEncoded : Qualifier → Type 0
IsEncoded (cps uri) = Unit {0}
IsEncoded (notice n body) = IsIntNotice n × (encode_user_notice n ≡ ok body)

abbrev IsReadable : Qualifier → Type 0
IsReadable q = IsEncoded q × IsShort (encode_qualifier q)

encode_qualifier-nonempty : (q : Qualifier) → (b : ℕ) × (bs : Bytes) × (encode_qualifier q ≡ b ∷ bs)
encode_qualifier-nonempty (cps uri) = unfold cps_qualifier_info in der_tlv-nonempty tag_sequence _
encode_qualifier-nonempty (notice n body) =
    unfold notice_qualifier_info in der_tlv-nonempty tag_sequence _

-- The inner lengths of a qualifier.
qualifier_sizes :
    (id value : Bytes) (tag : ℕ)
    → IsShort (der_tlv tag_sequence (der_tlv tag_oid id ++ der_tlv tag value))
    → IsShort (der_tlv tag_oid id ++ der_tlv tag value) × IsShort id × IsShort value
qualifier_sizes id value tag short =
    let whole = length-le-der_tlv tag_sequence (der_tlv tag_oid id ++ der_tlv tag value) in
    let sum = length-append (der_tlv tag_oid id) (der_tlv tag value) in
    let first = length-le-der_tlv tag_oid id in
    let second = length-le-der_tlv tag value in (omega arith, omega arith, omega arith)

parse_policy_qualifier-encode_qualifier :
    (p : CertificatePolicy) (q : Qualifier) (rest : Bytes)
    → IsReadable q
    → parse_policy_qualifier p (encode_qualifier q ++ rest) ≡ ok (add_qualifier p q, rest)
unfolding parse_policy_qualifier parse_qualifier_value cps_qualifier_info notice_qualifier_info
    bytes_eq expect_end
parse_policy_qualifier-encode_qualifier p (cps uri) rest (e, short) =
    let (inner, id_short, value_short) = qualifier_sizes oid_cps_content uri tag_ia5_string short in
    rw (
      expect-der_tlv policy_qualifier tag_sequence
          (der_tlv tag_oid oid_cps_content ++ der_tlv tag_ia5_string uri) rest inner,
      expect-der_tlv qualifier_id tag_oid oid_cps_content (der_tlv tag_ia5_string uri) id_short,
      expect-der_tlv_last cps_qualifier tag_ia5_string uri value_short,
    )
parse_policy_qualifier-encode_qualifier p (notice n body) rest ((ints, e), short) =
    let (inner, id_short, value_short) =
      qualifier_sizes oid_user_notice_content body tag_sequence short in
    rw (
      expect-der_tlv policy_qualifier tag_sequence
          (der_tlv tag_oid oid_user_notice_content ++ der_tlv tag_sequence body) rest inner,
      expect-der_tlv qualifier_id tag_oid oid_user_notice_content (der_tlv tag_sequence body)
          id_short,
      expect-der_tlv_last user_notice_qualifier tag_sequence body value_short,
      parse_user_notice-encode_user_notice n body ints e value_short,
    )

encode_cps_uris-qualifiers :
    (uris : List Bytes) (c : Bytes)
    → encode_cps_uris uris ≡ ok c
    → c ≡ encode_all encode_qualifier (map cps uris)
unfolding encode_cps_uris encode_all
encode_cps_uris-qualifiers [] c e = sym (ok-injective e)
encode_cps_uris-qualifiers (uri ∷ uris) c e = elim (Bool-cases (is_empty uri)) [
  | inl empty ↦ absurd (cc (rw empty at e))
  | inr filled ↦ elim (Bool-cases (not (is_ia5_string uri))) [
    | inl wide ↦ absurd (cc (rw (filled, wide) at e))
    | inr ascii ↦
        let (rest, r, t) =
          >>=-eq-ok (encode_cps_uris uris) (λ rest. ok (cps_qualifier_info uri ++ rest))
            (rw (filled, ascii) at e) in
        sym (ok-injective t)
        ∙ ap (λ x. cps_qualifier_info uri ++ x) (encode_cps_uris-qualifiers uris rest r)
  ]
]

foldl-cps :
    (oid : Bytes) (us uris : List Bytes) (n : Option UserNotice)
    → foldl add_qualifier (record { oid = oid; cps_uris = us; user_notice = n }) (map cps uris)
      ≡ record { oid = oid; cps_uris = us ++ uris; user_notice = n }
foldl-cps oid us [] n =
    ap (λ x. record { oid = oid; cps_uris = x; user_notice = n }) (sym (append-nil us))
foldl-cps oid us (uri ∷ uris) n =
    foldl-cps oid (us ++ uri ∷ []) uris n
    ∙ ap (λ x. record { oid = oid; cps_uris = x; user_notice = n })
        (append_assoc us (uri ∷ []) uris)

cps-IsEncoded : (uris : List Bytes) → All IsEncoded (map cps uris)
cps-IsEncoded [] = tt
cps-IsEncoded (uri ∷ uris) = (tt, cps-IsEncoded uris)

-- Every number of a policy's notice is an int.
abbrev pub HasIntNotice : Option UserNotice → Type 0
HasIntNotice none = Unit {0}
HasIntNotice (some n) = IsIntNotice n

-- The notice's qualifier, if there is one.
record NoticePart (o : Option UserNotice) (c : Bytes) : Type 0 where
  items : List Qualifier
  written : c ≡ encode_all encode_qualifier items
  encoded : All IsEncoded items
  added :
      (oid : Bytes) (us : List Bytes)
      → foldl add_qualifier (record { oid = oid; cps_uris = us; user_notice = none }) items
        ≡ record { oid = oid; cps_uris = us; user_notice = o }

encode_notice_qualifier-part :
    (o : Option UserNotice) (c : Bytes)
    → HasIntNotice o
    → encode_notice_qualifier o ≡ ok c
    → NoticePart o c
unfolding encode_notice_qualifier encode_all
encode_notice_qualifier-part none c ints e = record {
  items = [];
  written = sym (ok-injective e);
  encoded = tt;
  added = λ oid us. refl;
}
encode_notice_qualifier-part (some n) c ints e =
    let (body, b, t) =
      >>=-eq-ok (encode_user_notice n) (λ notice. ok (notice_qualifier_info notice)) e in
    record {
      items = notice n body ∷ [];
      written = sym (ok-injective t) ∙ sym (append-nil (notice_qualifier_info body));
      encoded = ((ints, b), tt);
      added = λ oid us. refl;
    }

parse_qualifiers-sequence :
    (p : CertificatePolicy) (c : Bytes)
    → IsShort c
    → parse_qualifiers p (der_tlv tag_sequence c) ≡ read_while parse_policy_qualifier p c
unfolding parse_qualifiers der_tlv
parse_qualifiers-sequence p c short =
    rw (expect-der_tlv_last policy_qualifiers tag_sequence c short) (unfold expect_end in refl)

parse_qualifiers-field :
    (p : CertificatePolicy) (c : Bytes)
    → IsShort (qualifiers_field c)
    → parse_qualifiers p (qualifiers_field c) ≡ read_while parse_policy_qualifier p c
unfolding qualifiers_field
parse_qualifiers-field p [] short = unfold parse_qualifiers read_while read_while_fuel in refl
parse_qualifiers-field p (b ∷ bs) short =
    parse_qualifiers-sequence p (b ∷ bs) (omega (arith, length-le-der_tlv tag_sequence (b ∷ bs)))

length-qualifiers_field : (c : Bytes) → length c ≤ length (qualifiers_field c)
unfolding qualifiers_field
length-qualifiers_field [] = omega arith
length-qualifiers_field (b ∷ bs) = length-le-der_tlv tag_sequence (b ∷ bs)

-- The loop over the qualifiers of a policy.
read_qualifiers :
    (oid : Bytes) (uris : List Bytes) (o : Option UserNotice) (c : Bytes)
    → NoticePart o c
    → IsShort (encode_all encode_qualifier (map cps uris) ++ c)
    → read_while parse_policy_qualifier
        (record { oid = oid; cps_uris = []; user_notice = none })
        (encode_all encode_qualifier (map cps uris) ++ c)
      ≡ ok (record { oid = oid; cps_uris = uris; user_notice = o })
read_qualifiers oid uris o c part short =
    let items = map cps uris ++ part.items in
    let joined = encode_all-append encode_qualifier (map cps uris) part.items in
    let whole : encode_all encode_qualifier (map cps uris) ++ c
        ≡ encode_all encode_qualifier items =
      cc (joined, part.written) in
    let encoded : All IsEncoded items =
      All-append IsEncoded (map cps uris) part.items (cps-IsEncoded uris) part.encoded in
    let readable : All IsReadable items =
      All-encode_all IsEncoded encode_qualifier (2 ^ 32) items encoded (rw whole at short) in
    rw whole (
      read_while-encode_all IsReadable parse_policy_qualifier encode_qualifier add_qualifier
        encode_qualifier-nonempty parse_policy_qualifier-encode_qualifier items
        (record { oid = oid; cps_uris = []; user_notice = none }) readable
      ∙ ap ok (
          foldl-append add_qualifier _ (map cps uris) part.items
          ∙ ap (λ x. foldl add_qualifier x part.items) (foldl-cps oid [] uris none)
          ∙ part.added oid uris))

-- When the notice numbers of a policy are 64-bit integers and encode_policy_qualifiers returns a
-- field of less than 2^32 bytes, parse_qualifiers reads from it, into a policy that has only an
-- OID, the CPS URIs and the user notice of the policy.
pub parse_qualifiers-encode_policy_qualifiers :
    (p : CertificatePolicy) (oid field : Bytes)
    → HasIntNotice p.user_notice
    → encode_policy_qualifiers p ≡ ok field
    → IsShort field
    → parse_qualifiers (record { oid = oid; cps_uris = []; user_notice = none }) field
      ≡ ok (record p { oid = oid })
unfolding encode_policy_qualifiers
parse_qualifiers-encode_policy_qualifiers p oid field ints e short =
    let (c, ec, r) =
      >>=-eq-ok (encode_cps_uris p.cps_uris)
        (λ c. encode_notice_qualifier p.user_notice >>= λ n. ok (qualifiers_field (c ++ n))) e in
    let (n, en, t) =
      >>=-eq-ok (encode_notice_qualifier p.user_notice) (λ n. ok (qualifiers_field (c ++ n))) r in
    let shape : field ≡ qualifiers_field (c ++ n) = sym (ok-injective t) in
    let cps_shape = encode_cps_uris-qualifiers p.cps_uris c ec in
    let field_short : IsShort (qualifiers_field (c ++ n)) = rw shape at short in
    let inner_short : IsShort (c ++ n) = omega (arith, length-qualifiers_field (c ++ n)) in
    rw shape (
      parse_qualifiers-field (record { oid = oid; cps_uris = []; user_notice = none }) (c ++ n)
        field_short
      ∙ rw cps_shape (
          read_qualifiers oid p.cps_uris p.user_notice n
            (encode_notice_qualifier-part p.user_notice n ints en) (rw cps_shape at inner_short)))
