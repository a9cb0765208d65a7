-- ===== src/Meta/Encoding.antt =====
-- The text encodings of meta/encoding.go.
pub mod RoundTrip
use Prim.Native.Char.{code}
use Prim.Native.String as NativeString
use tongsuo_go.Base.{
  ℕ, ◌+◌, List, [], ◌∷◌, ◌<◌, ◌≡◌, refl, Bool, true, false, ◌&&◌, ◌||◌, if◌then◌else◌, ◌==◌, leb,
  Result, ok, err, wrap, All,
}
use tongsuo_go.Base.Dict.{String, string_eq}
use tongsuo_go.Base.Text.{trim_space}
use tongsuo_go.Meta.Hex.{HexError, encode_hex, decode_hex}
use tongsuo_go.Meta.Base64.{encode_base64, decode_base64}

-- The values of Go's string type `Encoding`: the three constants, and any other text.
pub data Encoding : Type 0 where
  raw hex base64 : Encoding
  other : String → Encoding

pub data EncodingError : Type 0 where
  unknown_encoding : String → EncodingError
  hex_decode : HexError → EncodingError
  base64_decode : ℕ → EncodingError

abbrev pub codes : NativeString.String → String
codes NativeString.[] = []
codes (NativeString.◌∷◌ c s) = code c ∷ codes s

unfoldable pub lower_byte : ℕ → ℕ
lower_byte a = if leb 65 a && leb a 90 then a + 32 else a

-- `strings.ToLower`, of a text that is compared with ASCII names without a k: besides the letters A
-- to Z, U+0130 becomes an i, and the runes that do not become ASCII are left as they are.
unfoldable pub to_lower : String → String
to_lower [] = []
to_lower (a ∷ []) = lower_byte a ∷ []
to_lower (a ∷ b ∷ s) =
    let after_rune = to_lower s in
    let after_byte = to_lower (b ∷ s) in
    if a == 0xc4 && b == 0xb0 then 105 ∷ after_rune else lower_byte a ∷ after_byte

-- The cases of the switch, on the trimmed text in lower case.
unfoldable pub encoding_named : String → String → Result EncodingError Encoding
encoding_named s name =
    if string_eq name (codes "raw")
      || string_eq name (codes "binary")
      || string_eq name (codes "none")
      || string_eq name []
    then ok raw
    else if string_eq name (codes "hex") || string_eq name (codes "hexdump")
    then ok hex
    else if string_eq name (codes "base64") || string_eq name (codes "b64")
    then ok base64
    else err (unknown_encoding s)

unfoldable pub parse_encoding : String → Result EncodingError Encoding
parse_encoding s = encoding_named s (to_lower (trim_space s))

unfoldable pub encode : List ℕ → Encoding → Result EncodingError (List ℕ)
encode bytes raw = ok bytes
encode bytes hex = ok (encode_hex bytes)
encode bytes base64 = ok (encode_base64 bytes)
encode bytes (other name) = err (unknown_encoding name)

-- `strings.Map` with a function that drops some characters. A byte that is not UTF-8 becomes U+FFFD
-- there, which is no digit and no letter either.
unfoldable pub without : (ℕ → Bool) → List ℕ → List ℕ
without dropped [] = []
without dropped (c ∷ s) = let rest = without dropped s in if dropped c then rest else c ∷ rest

unfoldable pub is_blank : ℕ → Bool
is_blank c = c == 32 || c == 9 || c == 13 || c == 10

unfoldable pub is_line_end : ℕ → Bool
is_line_end c = c == 13 || c == 10

unfoldable pub decode : List ℕ → Encoding → Result EncodingError (List ℕ)
decode text raw = ok text
decode text hex = wrap hex_decode (decode_hex (without is_blank text))
decode text base64 = wrap base64_decode (decode_base64 0 (without is_line_end text))
decode text (other name) = err (unknown_encoding name)
