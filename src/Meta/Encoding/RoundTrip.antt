-- ===== src/Meta/Encoding/RoundTrip.antt =====
-- Decoding what was encoded, with white space put in.
use tongsuo_go.Base.{
  ℕ, ◌/◌, ◌%◌, List, [], ◌∷◌, ◌<◌, ◌≡◌, refl, subst, sym, ap, ◌∙◌, Bool, false, ok, ok-injective,
  All, arith,
}
use tongsuo_go.Meta.Hex.{hex_digit, encode_hex, decode_hex-encode_hex}
use tongsuo_go.Meta.Base64.{letter, encode_base64, decode_base64-encode_base64}
use tongsuo_go.Meta.Encoding.{
  Encoding, raw, hex, base64, other, encode, decode, without, is_blank, is_line_end,
}

without-kept :
    (dropped : ℕ → Bool) (s : List ℕ) → All (λ c. dropped c ≡ false) s → without dropped s ≡ s
unfolding without
without-kept dropped [] h = refl
without-kept dropped (c ∷ s) (hc, hs) = rw (hc, without-kept dropped s hs)

hex_digit-kept : (n : ℕ) → is_blank (hex_digit n) ≡ false
unfolding is_blank hex_digit
hex_digit-kept n = ground arith

encode_hex-kept : (bs : List ℕ) → All (λ c. is_blank c ≡ false) (encode_hex bs)
unfolding encode_hex
encode_hex-kept [] = tt
encode_hex-kept (b ∷ bs) = (hex_digit-kept (b / 16), (hex_digit-kept (b % 16), encode_hex-kept bs))

letter-kept : (v : ℕ) → is_line_end (letter v) ≡ false
unfolding is_line_end letter
letter-kept v = ground arith

encode_base64-kept : (bs : List ℕ) → All (λ c. is_line_end c ≡ false) (encode_base64 bs)
unfolding encode_base64 is_line_end
encode_base64-kept [] = tt
encode_base64-kept (a ∷ []) = (letter-kept _, (letter-kept _, (refl, (refl, tt))))
encode_base64-kept (a ∷ b ∷ []) = (letter-kept _, (letter-kept _, (letter-kept _, (refl, tt))))
encode_base64-kept (a ∷ b ∷ c ∷ bs) =
    (letter-kept _, (letter-kept _, (letter-kept _, (letter-kept _, encode_base64-kept bs))))

-- The characters that Decode skips.
unfoldable pub skipped : Encoding → ℕ → Bool
skipped raw c = false
skipped hex c = is_blank c
skipped base64 c = is_line_end c
skipped (other name) c = false

without-nothing : (s : List ℕ) → without (skipped raw) s ≡ s
unfolding skipped without
without-nothing [] = refl
without-nothing (c ∷ s) = ap (λ t. c ∷ t) (without-nothing s)

-- Of a text that is what encode makes of some bytes once the characters are left out that decode
-- skips in that encoding, blanks for hexadecimal and line ends for base64, decode returns the
-- bytes.
pub decode-spaced :
    (enc : Encoding) (bytes text out : List ℕ)
    → All (λ b. b < 256) bytes
    → encode bytes enc ≡ ok out
    → without (skipped enc) text ≡ out
    → decode text enc ≡ ok bytes
unfolding encode decode skipped
decode-spaced raw bytes text out small encoded spaced =
    ap ok (sym (without-nothing text) ∙ spaced ∙ sym (ok-injective encoded))
decode-spaced hex bytes text out small encoded spaced =
    let same : without is_blank text ≡ encode_hex bytes = spaced ∙ sym (ok-injective encoded) in
    rw (same, decode_hex-encode_hex bytes small)
decode-spaced base64 bytes text out small encoded spaced =
    let same : without is_line_end text ≡ encode_base64 bytes =
      spaced ∙ sym (ok-injective encoded) in
    rw (same, decode_base64-encode_base64 0 bytes small)
decode-spaced (other name) bytes text out small encoded spaced = absurd cc

without-encode :
    (enc : Encoding) (bytes out : List ℕ)
    → encode bytes enc ≡ ok out
    → without (skipped enc) out ≡ out
unfolding encode skipped
without-encode raw bytes out encoded = without-nothing out
without-encode hex bytes out encoded =
    without-kept is_blank out
      (subst (All (λ c. is_blank c ≡ false)) (ok-injective encoded) (encode_hex-kept bytes))
without-encode base64 bytes out encoded =
    without-kept is_line_end out
      (subst (All (λ c. is_line_end c ≡ false)) (ok-injective encoded) (encode_base64-kept bytes))
without-encode (other name) bytes out encoded = absurd cc

pub decode-encode :
    (enc : Encoding) (bytes out : List ℕ)
    → All (λ b. b < 256) bytes
    → encode bytes enc ≡ ok out
    → decode out enc ≡ ok bytes
decode-encode enc bytes out small encoded =
    decode-spaced enc bytes out out small encoded (without-encode enc bytes out encoded)
