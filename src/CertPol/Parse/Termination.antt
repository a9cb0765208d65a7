-- ===== src/CertPol/Parse/Termination.antt =====
-- The loops of the parser end: no input makes the model run out of fuel.
use tongsuo_go.Base.{ℕ, List, [], ◌∷◌, ◌≡◌, ◌≢◌, ◌==◌, err, wrap, ok-injective, ap, >>=-eq-ok}
use tongsuo_go.Base.Signed.{ℤ}
use tongsuo_go.CertPol.Types.{
  Bytes, UserNotice, CertificatePolicy, reading, stuck, unexpected_tag, tag_ia5_string,
  tag_sequence, tag_integer, tag_oid, oid_cps_content, oid_user_notice_content, policy_sequence,
  policy_information, policy_identifier, policy_qualifiers, policy_qualifier, qualifier_id,
  cps_qualifier, user_notice_qualifier, user_notice_element, notice_organization,
  notice_numbers_field, notice_number, empty_policy_sequence,
}
use tongsuo_go.CertPol.Tlv.{read}
use tongsuo_go.CertPol.Integer.{decode_integer}
use tongsuo_go.CertPol.Encode.{bytes_eq}
use tongsuo_go.CertPol.DisplayText.{decode_display_text}
use tongsuo_go.CertPol.Parse.{
  expect, expect_end, parse_number, parse_notice_reference, parse_notice_value, is_text_tag,
  parse_notice_element, parse_user_notice, parse_qualifier_value, parse_policy_qualifier,
  parse_qualifiers, parse_policy_information, some_policies, parse_certificate_policies,
}
use tongsuo_go.CertPol.Oid.{decode_oid}
use tongsuo_go.CertPol.Parse.Loop.{read_while}
use tongsuo_go.CertPol.Parse.Arcs.{decode_oid-Ends}
use tongsuo_go.CertPol.Parse.Ends.{
  Ends, Ends-ok, Ends-err, Ends-bind, Ends-wrap, Ends-if, Shrinks, read_while-Ends, expect-Ends,
  expect_end-Ends, wrap-read-ok, length-expect, decode_display_text-Ends,
}

parse_number-Ends : (numbers : List ℤ) (cursor : Bytes) → Ends (parse_number numbers cursor)
unfolding parse_number
parse_number-Ends numbers cursor =
    Ends-bind (expect notice_number tag_integer cursor) _ (expect-Ends _ _ cursor)
      (λ (bytes, rest) e.
        Ends-bind (wrap (reading notice_number) (decode_integer bytes)) _ (Ends-wrap _ _)
          (λ n _. Ends-ok _))

parse_number-Shrinks : Shrinks parse_number
unfolding parse_number
parse_number-Shrinks s s' bytes rest e =
    let ((body, r), er, t) = >>=-eq-ok (expect notice_number tag_integer bytes) _ e in
    let (v, ev, u) = >>=-eq-ok (wrap (reading notice_number) (decode_integer body)) _ t in
    let same : r ≡ rest = ap (λ x. x.1) (ok-injective u) in
    rw (← same) (length-expect notice_number tag_integer bytes body r er)

parse_notice_reference-Ends : (body : Bytes) → Ends (parse_notice_reference body)
unfolding parse_notice_reference
parse_notice_reference-Ends body =
    Ends-bind (wrap (reading notice_organization) (read body)) _ (Ends-wrap _ _)
      (λ (tag, organization, rest) _.
        Ends-bind (decode_display_text tag organization) _
          (decode_display_text-Ends tag organization)
          (λ text _.
            Ends-bind (expect notice_numbers_field tag_sequence rest) _ (expect-Ends _ _ rest)
              (λ (number_body, after) _.
                Ends-bind (read_while parse_number [] number_body) _
                  (read_while-Ends parse_number parse_number-Ends parse_number-Shrinks []
                    number_body)
                  (λ numbers _. Ends-ok _))))

parse_notice_value-Ends :
    (n : UserNotice) (tag : ℕ) (content : Bytes) → Ends (parse_notice_value n tag content)
unfolding parse_notice_value
parse_notice_value-Ends n tag content =
    Ends-if (tag == tag_sequence) _ _
      (Ends-bind (parse_notice_reference content) _ (parse_notice_reference-Ends content)
        (λ _ _. Ends-ok _))
      (Ends-if (is_text_tag tag) _ _
        (Ends-bind (decode_display_text tag content) _ (decode_display_text-Ends tag content)
          (λ _ _. Ends-ok _))
        (Ends-err (unexpected_tag user_notice_element tag) (λ p. cc)))

parse_notice_element-Ends : (n : UserNotice) (cursor : Bytes) → Ends (parse_notice_element n cursor)
unfolding parse_notice_element
parse_notice_element-Ends n cursor =
    Ends-bind (wrap (reading user_notice_element) (read cursor)) _ (Ends-wrap _ _)
      (λ (tag, content, rest) _.
        Ends-bind (parse_notice_value n tag content) _ (parse_notice_value-Ends n tag content)
          (λ _ _. Ends-ok _))

parse_notice_element-Shrinks : Shrinks parse_notice_element
unfolding parse_notice_element
parse_notice_element-Shrinks n n' bytes rest e =
    let ((tag, content, r), er, t) =
      >>=-eq-ok (wrap (reading user_notice_element) (read bytes)) _ e in
    let (v, ev, u) = >>=-eq-ok (parse_notice_value n tag content) _ t in
    let same : r ≡ rest = ap (λ x. x.1) (ok-injective u) in
    rw (← same) (wrap-read-ok user_notice_element bytes er)

parse_user_notice-Ends : (body : Bytes) → Ends (parse_user_notice body)
unfolding parse_user_notice
parse_user_notice-Ends body =
    read_while-Ends parse_notice_element parse_notice_element-Ends parse_notice_element-Shrinks _
      body

parse_qualifier_value-Ends :
    (id inner : Bytes) (p : CertificatePolicy) → Ends (parse_qualifier_value id inner p)
unfolding parse_qualifier_value
parse_qualifier_value-Ends id inner p =
    Ends-if (bytes_eq id oid_cps_content) _ _
      (Ends-bind (expect cps_qualifier tag_ia5_string inner) _ (expect-Ends _ _ inner)
        (λ (cps, after) _.
          Ends-bind (expect_end policy_qualifier after) _ (expect_end-Ends _ after)
            (λ _ _. Ends-ok _)))
      (Ends-if (bytes_eq id oid_user_notice_content) _ _
        (Ends-bind (expect user_notice_qualifier tag_sequence inner) _ (expect-Ends _ _ inner)
          (λ (notice, after) _.
            Ends-bind (parse_user_notice notice) _ (parse_user_notice-Ends notice) (λ n _.
              Ends-bind (expect_end policy_qualifier after) _ (expect_end-Ends _ after)
                (λ _ _. Ends-ok _))))
        (Ends-ok p))

parse_policy_qualifier-Ends :
    (p : CertificatePolicy) (cursor : Bytes) → Ends (parse_policy_qualifier p cursor)
unfolding parse_policy_qualifier
parse_policy_qualifier-Ends p cursor =
    Ends-bind (expect policy_qualifier tag_sequence cursor) _ (expect-Ends _ _ cursor)
      (λ (body, rest) _.
        Ends-bind (expect qualifier_id tag_oid body) _ (expect-Ends _ _ body) (λ (id, inner) _.
          Ends-bind (parse_qualifier_value id inner p) _ (parse_qualifier_value-Ends id inner p)
            (λ _ _. Ends-ok _)))

parse_policy_qualifier-Shrinks : Shrinks parse_policy_qualifier
unfolding parse_policy_qualifier
parse_policy_qualifier-Shrinks p p' bytes rest e =
    let ((body, r), er, t) = >>=-eq-ok (expect policy_qualifier tag_sequence bytes) _ e in
    let ((id, inner), ei, u) = >>=-eq-ok (expect qualifier_id tag_oid body) _ t in
    let (v, ev, w) = >>=-eq-ok (parse_qualifier_value id inner p) _ u in
    let same : r ≡ rest = ap (λ x. x.1) (ok-injective w) in
    rw (← same) (length-expect policy_qualifier tag_sequence bytes body r er)

parse_qualifiers-Ends : (p : CertificatePolicy) (bytes : Bytes) → Ends (parse_qualifiers p bytes)
unfolding parse_qualifiers
parse_qualifiers-Ends p [] = Ends-ok p
parse_qualifiers-Ends p (b ∷ bs) =
    Ends-bind (expect policy_qualifiers tag_sequence (b ∷ bs)) _ (expect-Ends _ _ (b ∷ bs))
      (λ (body, after) _.
        Ends-bind (expect_end policy_information after) _ (expect_end-Ends _ after) (λ _ _.
          read_while-Ends parse_policy_qualifier parse_policy_qualifier-Ends
            parse_policy_qualifier-Shrinks p body))

parse_policy_information-Ends :
    (ps : List CertificatePolicy) (cursor : Bytes) → Ends (parse_policy_information ps cursor)
unfolding parse_policy_information
parse_policy_information-Ends ps cursor =
    Ends-bind (expect policy_information tag_sequence cursor) _ (expect-Ends _ _ cursor)
      (λ (body, rest) _.
        Ends-bind (expect policy_identifier tag_oid body) _ (expect-Ends _ _ body)
          (λ (oid_bytes, inner) _.
            Ends-bind (decode_oid oid_bytes) _ (decode_oid-Ends oid_bytes) (λ oid _.
              Ends-bind (parse_qualifiers _ inner) _ (parse_qualifiers-Ends _ inner)
                (λ _ _. Ends-ok _))))

parse_policy_information-Shrinks : Shrinks parse_policy_information
unfolding parse_policy_information
parse_policy_information-Shrinks ps ps' bytes rest e =
    let ((body, r), er, t) = >>=-eq-ok (expect policy_information tag_sequence bytes) _ e in
    let ((oid_bytes, inner), ei, u) = >>=-eq-ok (expect policy_identifier tag_oid body) _ t in
    let (oid, eo, u') = >>=-eq-ok (decode_oid oid_bytes) _ u in
    let (v, ev, w) = >>=-eq-ok (parse_qualifiers _ inner) _ u' in
    let same : r ≡ rest = ap (λ x. x.1) (ok-injective w) in
    rw (← same) (length-expect policy_information tag_sequence bytes body r er)

some_policies-Ends : (ps : List CertificatePolicy) → Ends (some_policies ps)
unfolding some_policies
some_policies-Ends [] = Ends-err empty_policy_sequence (λ p. cc)
some_policies-Ends (p ∷ ps) = Ends-ok (p ∷ ps)

parse_certificate_policies-Ends : (der : Bytes) → Ends (parse_certificate_policies der)
unfolding parse_certificate_policies
parse_certificate_policies-Ends der =
    Ends-bind (expect policy_sequence tag_sequence der) _ (expect-Ends _ _ der) (λ (body, after) _.
      Ends-bind (expect_end policy_sequence after) _ (expect_end-Ends _ after) (λ _ _.
        Ends-bind (read_while parse_policy_information [] body) _
          (read_while-Ends parse_policy_information parse_policy_information-Ends
            parse_policy_information-Shrinks [] body)
          (λ ps _. some_policies-Ends ps)))

-- On every input the loops of parse_certificate_policies over the bytes, that of decode_oid among
-- them, end within the fuel that they are given.
pub parse_certificate_policies-ne-stuck : (der : Bytes) → parse_certificate_policies der ≢ err stuck
parse_certificate_policies-ne-stuck der = (parse_certificate_policies-Ends der).ends
