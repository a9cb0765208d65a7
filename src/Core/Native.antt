-- ===== src/Core/Native.antt =====
-- The functions of internal/native/binding_cipher.go and binding_digest.go that do more than call the
-- C function of their name.
use tongsuo_go.Base.{ℕ, zero, suc, [], ◌∷◌, Option, none, some, Bool}
use tongsuo_go.Base.Signed.{ℤ}
use tongsuo_go.Core.World.{
  Bytes, cipher_init, cipher_aad, cipher_length, digest_final_xof, Library, Native, perform,
}

-- A slice as C sees it: NULL when it is empty.
unfoldable pub or_null : Bytes → Option Bytes
or_null [] = none
or_null (b ∷ bs) = some (b ∷ bs)

module _ {N : Type 0} (lib : Library N) where
  -- `EVP_CipherInit_ex`: the four cases of an empty key or IV.
  unfoldable pub init_cipher : Option ℕ → Option ℕ → Bytes → Bytes → Bool → Native N
  init_cipher ctx cipher key iv enc =
      perform lib (cipher_init ctx cipher (or_null key) (or_null iv) enc)

  -- `EVP_UpdateAAD`
  unfoldable pub update_aad : Option ℕ → Bytes → Bool → Native N
  update_aad ctx [] enc w = (some [], w)
  update_aad ctx (b ∷ bs) enc w = perform lib (cipher_aad enc ctx (b ∷ bs)) w

  -- `EVP_CipherSetLength`
  unfoldable pub set_length : Option ℕ → ℤ → Bool → Native N
  set_length none n enc w = (none, w)
  set_length (some ctx) n enc w = perform lib (cipher_length enc (some ctx) n) w

  -- `EVP_DigestFinalXOF`
  unfoldable pub final_xof : Option ℕ → ℕ → Native N
  final_xof ctx zero w = (none, w)
  final_xof ctx (suc n) w = perform lib (digest_final_xof ctx (suc n)) w
