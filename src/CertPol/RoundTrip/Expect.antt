-- ===== src/CertPol/RoundTrip/Expect.antt =====
-- A checked read of an element that the encoder wrote.
use tongsuo_go.Base.{
  ℕ, ◌^◌, ◌≤◌, ◌<◌, [], ◌∷◌, ◌++◌, ◌≡◌, refl, arith, length, length-append, append-nil, ok, wrap,
  ==_refl,
}
use tongsuo_go.CertPol.Types.{Bytes, Place, reading}
use tongsuo_go.CertPol.Tlv.{der_tlv, read}
use tongsuo_go.CertPol.Tlv.RoundTrip.{read-der_tlv}
use tongsuo_go.CertPol.Parse.{expect}

-- Below the 2^32 bytes that a four-byte length can say.
abbrev pub IsShort : Bytes → Type 0
IsShort bytes = length bytes < 2 ^ 32

pub length-le-der_tlv : (tag : ℕ) (content : Bytes) → length content ≤ length (der_tlv tag content)
unfolding der_tlv
length-le-der_tlv tag content = omega (arith, length-append _ content)

pub der_tlv-nonempty :
    (tag : ℕ) (content : Bytes) → (b : ℕ) × (bs : Bytes) × (der_tlv tag content ≡ b ∷ bs)
unfolding der_tlv
der_tlv-nonempty tag content = (tag, _, refl)

pub expect-der_tlv :
    (place : Place) (tag : ℕ) (content rest : Bytes)
    → IsShort content
    → expect place tag (der_tlv tag content ++ rest) ≡ ok (content, rest)
unfolding expect
expect-der_tlv place tag content rest h = rw (read-der_tlv tag content rest h, ==_refl tag)

pub expect-der_tlv_last :
    (place : Place) (tag : ℕ) (content : Bytes)
    → IsShort content
    → expect place tag (der_tlv tag content) ≡ ok (content, [])
expect-der_tlv_last place tag content h = rw (append-nil) at (expect-der_tlv place tag content [] h)

pub wrap-read-der_tlv :
    (place : Place) (tag : ℕ) (content rest : Bytes)
    → IsShort content
    → wrap (reading place) (read (der_tlv tag content ++ rest)) ≡ ok (tag, content, rest)
wrap-read-der_tlv place tag content rest h = rw (read-der_tlv tag content rest h)
