-- ===== src/Core/Cipher.antt =====
-- The cipher descriptors and contexts of internal/core/cipher.go. A method takes the context that it
-- is called on, and one that changes a field returns the context it leaves. `c.handle` is never nil:
-- the constructors always set it.
pub mod Effects
pub mod Methods
use tongsuo_go.Base.{
  ℕ, ◌+◌, ◌*◌, ◌%◌, List, [], ◌∷◌, ◌++◌, length, Option, none, some, Bool, true, false, not, ◌&&◌,
  ◌||◌, if◌then◌else◌, ◌==◌, ltb,
}
use tongsuo_go.Base.Signed.{ℤ, pos, negsuc}
use tongsuo_go.Core.Handle.{Handle, new_handle}
use tongsuo_go.Core.World.{
  Bytes, Name, set_iv_len, set_tag_len, get_tag_bytes, set_tag_bytes, ctx_set_flags, ctx_ctrl,
  ctx_set_padding, ctx_copy, cipher_update, cipher_final, Library, World, CoreError, error_text_of,
  Action, pure, raise, ◌>>=◌, ◌>>◌, perform, close_handle, attempt, attempt_or_close,
  close_on_error, ignore, new_context, or_raise, raise_if, require_open,
}
use tongsuo_go.Core.Native.{init_cipher, update_aad, set_length}

pub record Cipher : Type 0 where
  pub handle : Handle
  pub block_size : ℕ
  pub key_size : ℕ
  pub iv_size : ℕ

pub record CipherCtx : Type 0 where
  pub handle : Handle
  pub cipher : Cipher
  pub enc : Bool
  pub pad : Bool

-- The sizes that the library reports for a descriptor.
pub record Sizes : Type 0 where
  pub block_size_of : ℕ → ℕ
  pub key_length_of : ℕ → ℕ
  pub iv_length_of : ℕ → ℕ

unfoldable pub describe : Sizes → Handle → ℕ → Cipher
describe sizes h p = record {
  handle = h;
  block_size = sizes.block_size_of p;
  key_size = sizes.key_length_of p;
  iv_size = sizes.iv_length_of p;
}

-- `newCipher`: a descriptor that the library owns.
unfoldable pub new_cipher : Sizes → Option ℕ → Option Cipher
new_cipher sizes none = none
new_cipher sizes (some p) = some (describe sizes (new_handle (some p) false false) p)

-- `newCipherOwned`: a descriptor of EVP_CIPHER_fetch.
unfoldable pub new_cipher_owned : Sizes → Option ℕ → Option Cipher
new_cipher_owned sizes none = none
new_cipher_owned sizes (some p) = some (describe sizes (new_handle (some p) true true) p)

-- `c == nil || c.handle == nil || c.handle.IsClosed()`
unfoldable pub usable : Option Cipher → Option Cipher
usable none = none
usable (some c) = if c.handle.closed then none else some c

abbrev pub invalid_cipher : CoreError
invalid_cipher = error_text_of "cipher: invalid cipher" []

abbrev pub context_closed : Name
context_closed = "cipher: context closed"

-- `c == nil || c.handle == nil || c.handle.IsClosed()` of Clone.
unfoldable pub open_context : Option CipherCtx → Option CipherCtx
open_context none = none
open_context (some c) = if c.handle.closed then none else some c

-- n < 0
unfoldable pub is_negative : ℤ → Bool
is_negative (pos n) = false
is_negative (negsuc n) = true

-- tagLen < 4 || tagLen > 16 || tagLen%2 != 0
unfoldable pub is_bad_tag_length : ℤ → Bool
is_bad_tag_length (pos n) = ltb n 4 || ltb 16 n || not (n % 2 == 0)
is_bad_tag_length (negsuc n) = true

module _ {N : Type 0} (lib : Library N) where
  unfoldable pub close_cipher : Cipher → Action N Cipher
  close_cipher c w = let (h, w') = close_handle lib c.handle w in pure (record c { handle = h }) w'

  unfoldable pub new_cipher_ctx : Option Cipher → Bytes → Bytes → Bool → Action N CipherCtx
  new_cipher_ctx cipher key iv enc = or_raise (usable cipher) invalid_cipher >>= λ c.
      raise_if (not (length key == c.key_size))
        (error_text_of "cipher: key length %d, want %d" (pos (length key) ∷ pos c.key_size ∷ []))
      >> raise_if (ltb 0 c.iv_size && not (length iv == c.iv_size))
          (error_text_of "cipher: iv length %d, want %d" (pos (length iv) ∷ pos c.iv_size ∷ []))
      >> new_context lib "cipher: EVP_CIPHER_CTX_new"
      >>= λ ctx.
          let h = new_handle (some ctx) true true in
          ignore lib (perform lib (ctx_set_flags (some ctx)))
          >> attempt_or_close lib h "cipher: EVP_CipherInit_ex"
              (init_cipher lib (some ctx) c.handle.ptr key iv enc)
          >> pure (record { handle = h; cipher = c; enc = enc; pad = true })

  unfoldable pub new_gcm_ctx : Option Cipher → Bytes → Bytes → Bool → Action N CipherCtx
  new_gcm_ctx cipher key nonce enc = or_raise (usable cipher) invalid_cipher >>= λ c.
      raise_if (not (length key == c.key_size))
        (error_text_of "cipher: key length %d, want %d" (pos (length key) ∷ pos c.key_size ∷ []))
      >> raise_if (length nonce == 0) (error_text_of "cipher: empty nonce" [])
      >> new_context lib "cipher: EVP_CIPHER_CTX_new"
      >>= λ ctx.
          let h = new_handle (some ctx) true true in
          ignore lib (perform lib (ctx_set_flags (some ctx)))
          >> attempt_or_close lib h "cipher: EVP_CipherInit_ex(cipher,key)"
              (init_cipher lib (some ctx) c.handle.ptr key [] enc)
          >> attempt_or_close lib h "cipher: EVP_CIPHER_CTX_ctrl(SET_IVLEN)"
              (perform lib (ctx_ctrl (some ctx) set_iv_len (pos (length nonce)) []))
          >> attempt_or_close lib h "cipher: EVP_CipherInit_ex(iv)"
              (init_cipher lib (some ctx) none [] nonce enc)
          >> pure (record { handle = h; cipher = c; enc = enc; pad = false })

  unfoldable pub set_ccm_length : Option ℕ → ℤ → Bool → Action N Bytes
  set_ccm_length ctx n enc = attempt lib "cipher: CCM set total length" (set_length lib ctx n enc)

  unfoldable pub new_ccm_ctx : Option Cipher → Bytes → Bytes → ℤ → ℤ → Bool → Action N CipherCtx
  new_ccm_ctx cipher key nonce plaintext_len tag_len enc =
      or_raise (usable cipher) invalid_cipher >>= λ c.
      raise_if (not (length key == c.key_size))
        (error_text_of "cipher: key length %d, want %d" (pos (length key) ∷ pos c.key_size ∷ []))
      >> raise_if (ltb (length nonce) 7 || ltb 13 (length nonce)) (
          error_text_of "cipher: invalid CCM nonce length %d, want 7..13" (pos (length nonce) ∷ []))
      >> raise_if (is_negative plaintext_len)
          (error_text_of "cipher: invalid CCM plaintext length %d" (plaintext_len ∷ []))
      >> raise_if (is_bad_tag_length tag_len) (
          error_text_of "cipher: invalid CCM tag length %d, want an even value in 4..16"
            (tag_len ∷ []))
      >> new_context lib "cipher: EVP_CIPHER_CTX_new"
      >>= λ ctx.
          let h = new_handle (some ctx) true true in
          ignore lib (perform lib (ctx_set_flags (some ctx)))
          >> attempt_or_close lib h "cipher: EVP_CipherInit_ex(cipher)"
              (init_cipher lib (some ctx) c.handle.ptr [] [] enc)
          >> attempt_or_close lib h "cipher: EVP_CIPHER_CTX_ctrl(SET_IVLEN)"
              (perform lib (ctx_ctrl (some ctx) set_iv_len (pos (length nonce)) []))
          >> attempt_or_close lib h "cipher: EVP_CIPHER_CTX_ctrl(SET_TAG length)"
              (perform lib (ctx_ctrl (some ctx) set_tag_len tag_len []))
          >> attempt_or_close lib h "cipher: EVP_CipherInit_ex(key,iv)"
              (init_cipher lib (some ctx) none key nonce enc)
          >> close_on_error lib h (set_ccm_length (some ctx) plaintext_len enc)
          >> pure (record { handle = h; cipher = c; enc = enc; pad = false })

  unfoldable pub set_padding : CipherCtx → Bool → Action N CipherCtx
  set_padding c pad =
      require_open c.handle context_closed
      >> attempt lib "cipher: EVP_CIPHER_CTX_set_padding"
          (perform lib (ctx_set_padding c.handle.ptr (if pad then 1 else 0)))
      >> pure (record c { pad = pad })

  unfoldable pub update : CipherCtx → Bytes → Action N Bytes
  update c input =
      require_open c.handle context_closed
      >> attempt lib "cipher: Update" (
          perform lib
            (cipher_update c.enc c.handle.ptr input (length input + 2 * c.cipher.block_size)))

  unfoldable pub final : CipherCtx → Action N Bytes
  final c =
      require_open c.handle context_closed
      >> attempt lib "cipher: Final"
          (perform lib (cipher_final c.enc c.handle.ptr c.cipher.block_size))

  unfoldable pub encrypt_all : CipherCtx → Bytes → Action N Bytes
  encrypt_all c input = update c input >>= λ part1. final c >>= λ part2. pure (part1 ++ part2)

  unfoldable pub decrypt_all : CipherCtx → Bytes → Action N Bytes
  decrypt_all c input = update c input >>= λ part1. final c >>= λ part2. pure (part1 ++ part2)

  unfoldable pub close_ctx : CipherCtx → Action N CipherCtx
  close_ctx c w = let (h, w') = close_handle lib c.handle w in pure (record c { handle = h }) w'

  unfoldable pub clone : Option CipherCtx → Action N CipherCtx
  clone context = or_raise (open_context context) (error_text_of context_closed []) >>= λ c.
      new_context lib "cipher: EVP_CIPHER_CTX_new" >>= λ dst.
      let h = new_handle (some dst) true true in
      attempt_or_close lib h "cipher: EVP_CIPHER_CTX_copy"
        (perform lib (ctx_copy (some dst) c.handle.ptr))
      >> pure (record { handle = h; cipher = c.cipher; enc = c.enc; pad = c.pad })

  unfoldable pub set_iv_length : CipherCtx → ℤ → Action N Bytes
  set_iv_length c n =
      require_open c.handle context_closed
      >> attempt lib "cipher: EVP_CIPHER_CTX_ctrl(SET_IVLEN)"
          (perform lib (ctx_ctrl c.handle.ptr set_iv_len n []))

  unfoldable pub set_aad : CipherCtx → Bytes → Action N Bytes
  set_aad c aad =
      require_open c.handle context_closed
      >> attempt lib "cipher: EVP_UpdateAAD" (update_aad lib c.handle.ptr aad c.enc)

  -- The buffer comes back as the library filled it.
  unfoldable pub get_tag : CipherCtx → Bytes → Action N Bytes
  get_tag c tag =
      require_open c.handle context_closed
      >> raise_if (length tag == 0) (error_text_of "cipher: empty tag buffer" [])
      >> attempt lib "cipher: EVP_CIPHER_CTX_ctrl(GET_TAG)"
          (perform lib (ctx_ctrl c.handle.ptr get_tag_bytes (pos (length tag)) tag))

  unfoldable pub set_tag : CipherCtx → Bytes → Action N Bytes
  set_tag c tag =
      require_open c.handle context_closed
      >> raise_if (length tag == 0) (error_text_of "cipher: empty tag" [])
      >> attempt lib "cipher: EVP_CIPHER_CTX_ctrl(SET_TAG)"
          (perform lib (ctx_ctrl c.handle.ptr set_tag_bytes (pos (length tag)) tag))
