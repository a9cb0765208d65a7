-- ===== src/CertPol/DisplayText.antt =====
-- `decodeDisplayText` of x509/certpol_der.go, with the `utf16.Decode` and the conversion of runes to a
-- string that it calls for a BMPString.
use tongsuo_go.Base.{
  ℕ, ◌+◌, ◌-◌, ◌*◌, ◌/◌, ◌%◌, List, [], ◌∷◌, ◌++◌, Bool, ltb, leb, ◌==◌, ◌&&◌, ◌||◌, if◌then◌else◌,
  Result, ok, err,
}
use tongsuo_go.CertPol.Types.{
  Bytes, tag_utf8_string, tag_visible_string, tag_ia5_string, tag_bmp_string, ParseError,
  odd_bmp_string, display_text_tag,
}

unfoldable pub high_surrogate : ℕ → Bool
high_surrogate u = leb 0xd800 u && ltb u 0xdc00

unfoldable pub low_surrogate : ℕ → Bool
low_surrogate u = leb 0xdc00 u && ltb u 0xe000

-- A surrogate on its own becomes U+FFFD.
unfoldable pub lone_unit : ℕ → ℕ
lone_unit u = if high_surrogate u || low_surrogate u then 0xfffd else u

unfoldable pub utf16_decode : List ℕ → List ℕ
utf16_decode [] = []
utf16_decode (u ∷ []) = lone_unit u ∷ []
utf16_decode (u ∷ w ∷ us) =
    let paired = utf16_decode us in
    let single = utf16_decode (w ∷ us) in
    if high_surrogate u && low_surrogate w
    then ((u - 0xd800) * 0x400 + (w - 0xdc00) + 0x10000) ∷ paired
    else lone_unit u ∷ single

unfoldable pub utf8_rune : ℕ → Bytes
utf8_rune r =
    if ltb r 0x80
    then r ∷ []
    else if ltb r 0x800
    then (0xc0 + r / 0x40) ∷ (0x80 + r % 0x40) ∷ []
    else if ltb r 0x10000
    then (0xe0 + r / 0x1000) ∷ (0x80 + r / 0x40 % 0x40) ∷ (0x80 + r % 0x40) ∷ []
    else (0xf0 + r / 0x40000)
      ∷ (0x80 + r / 0x1000 % 0x40)
      ∷ (0x80 + r / 0x40 % 0x40)
      ∷ (0x80 + r % 0x40)
      ∷ []

unfoldable pub utf8_encode : List ℕ → Bytes
utf8_encode [] = []
utf8_encode (r ∷ rs) = utf8_rune r ++ utf8_encode rs

-- Big-endian 16-bit units, and an odd length.
unfoldable pub units : Bytes → Result ParseError (List ℕ)
units [] = ok []
units (a ∷ []) = err odd_bmp_string
units (a ∷ b ∷ bs) = elim (units bs) [ ok us ↦ ok ((a * 256 + b) ∷ us) | err e ↦ err e ]

unfoldable pub bmp_text : Result ParseError (List ℕ) → Result ParseError Bytes
bmp_text (ok us) = ok (utf8_encode (utf16_decode us))
bmp_text (err e) = err e

unfoldable pub decode_display_text : ℕ → Bytes → Result ParseError Bytes
decode_display_text tag content =
    if tag == tag_utf8_string
    then ok content
    else if tag == tag_visible_string || tag == tag_ia5_string
    then ok content
    else if tag == tag_bmp_string
    then bmp_text (units content)
    else err (display_text_tag tag)
