-- ===== src/Sym/Padding.antt =====
-- `normalizePadding`, `zeroPad` and `cryptPadded` of sym/padding.go. The native cipher context is a
-- parameter: `new_ctx enc` is `core.NewCipherCtx` on the cipher, the key and the IV of the call,
-- `set_padding` its `SetPadding(false)`, and the last two encrypt and decrypt all of the data.
pub mod Zeros
use Prim.Native.Char.{code}
use Prim.Native.String as NativeString
use tongsuo_go.Base.{
  ℕ, zero, suc, ◌+◌, ◌-◌, ◌%◌, List, [], ◌∷◌, ◌++◌, Bool, true, false, not, ◌==◌, ◌&&◌, ◌||◌,
  if◌then◌else◌, length, Result, ok, err, wrap, ◌>>=◌,
}
use tongsuo_go.Base.Dict.{String, string_eq}

abbrev pub codes : NativeString.String → String
codes NativeString.[] = []
codes (NativeString.◌∷◌ c s) = code c ∷ codes s

abbrev pub Bytes : Type 0
Bytes = List ℕ

abbrev pub padding_pkcs7 : String
padding_pkcs7 = codes "pkcs7"

abbrev pub padding_zero : String
padding_zero = codes "zero"

abbrev pub padding_none : String
padding_none = codes "none"

-- The errors of this file, and those of the native context.
pub data PaddingError (E : Type 0) : Type 0 where
  unsupported_padding : String → PaddingError E
  not_a_multiple : ℕ → PaddingError E
  cipher_error : E → PaddingError E

unfoldable pub is_known : String → Bool
is_known pad =
    string_eq pad []
    || string_eq pad padding_pkcs7
    || string_eq pad padding_zero
    || string_eq pad padding_none

unfoldable pub normalize_padding : {E : Type 0} → String → Result (PaddingError E) String
normalize_padding pad = if is_known pad then ok pad else err (unsupported_padding pad)

unfoldable pub zeros : ℕ → Bytes
zeros zero = []
zeros (suc n) = 0 ∷ zeros n

unfoldable pub zero_pad : Bytes → ℕ → Bytes
zero_pad data_bytes block_size =
    let rem = length data_bytes % block_size in
    if rem == 0 then data_bytes else data_bytes ++ zeros (block_size - rem)

-- The empty name stands for pkcs7.
unfoldable pub default_padding : String → String
default_padding pad = if string_eq pad [] then padding_pkcs7 else pad

-- The `switch` on the mode: the data that is encrypted or decrypted.
unfoldable pub prepare : {E : Type 0} → String → Bool → Bytes → ℕ → Result (PaddingError E) Bytes
prepare mode enc data_bytes block_size =
    if string_eq mode padding_none
    then (if length data_bytes % block_size == 0
        then ok data_bytes
        else err (not_a_multiple (length data_bytes)))
    else if string_eq mode padding_zero && enc
    then ok (zero_pad data_bytes block_size)
    else ok data_bytes

module _ {E Ctx : Type 0} (new_ctx : Bool → Result E Ctx) (set_padding : Ctx → Result E Ctx)
    (encrypt_all decrypt_all : Ctx → Bytes → Result E Bytes) where
  unfoldable pub context : String → Bool → Result E Ctx
  context mode enc = do
    ctx ← new_ctx enc
    if string_eq mode padding_pkcs7 then ok ctx else set_padding ctx

  unfoldable pub crypt_padded : Bytes → Bool → String → ℕ → Result (PaddingError E) Bytes
  crypt_padded data_bytes enc pad block_size = do
    norm ← normalize_padding pad
    let mode = default_padding norm
    input ← prepare mode enc data_bytes block_size
    ctx ← wrap cipher_error (context mode enc)
    wrap cipher_error (if enc then encrypt_all ctx input else decrypt_all ctx input)
