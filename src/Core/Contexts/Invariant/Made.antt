-- ===== src/Core/Contexts/Invariant/Made.antt =====
-- What the constructors return when they succeed.
use tongsuo_go.Base.{
  ℕ, ◌≡◌, refl, List, Option, none, some, Bool, true, Result, ok, err, ok-injective, subst,
}
use tongsuo_go.Base.Signed.{ℤ}
use tongsuo_go.Core.Handle.{Handle, new_handle}
use tongsuo_go.Core.World.{
  Bytes, Library, World, CoreError, Action, continue, or_raise, ◌>>=◌, ◌>>◌, pure, bad_pointer,
}
use tongsuo_go.Core.Cipher.{
  Cipher, CipherCtx, new_cipher_ctx, new_gcm_ctx, new_ccm_ctx, clone, set_padding,
}
use tongsuo_go.Core.Digest.{Digest, usable, new_digest_ctx}
use tongsuo_go.Core.Digest.Effects.{IsReady}

-- Every value that the action returns has the property.
pub record Returns {N A : Type 0} (P : A → Type 0) (step : Action N A) : Type 0 where
  pub returned : (w : World N) (a : A) → (step w).0 ≡ ok a → P a

-- A handle that owns its pointer, not closed yet.
abbrev pub IsNew : Handle → Type 0
IsNew h = (p : ℕ) × (h ≡ new_handle (some p) true true)

module _ {N : Type 0} where
  pure-Returns : {A : Type 0} (P : A → Type 0) (a : A) → P a → Returns {N = N} P (pure a)
  unfolding pure
  pure-Returns P a h = record { returned = λ w b same. subst P (ok-injective same) h }

  continue-returned :
      {A B : Type 0} (P : B → Type 0) (next : A → Action N B) (r : Result CoreError A) (w : World N)
      (b : B)
      → ((a : A) → Returns P (next a))
      → (continue next r w).0 ≡ ok b
      → P b
  continue-returned P next (ok a) w b f h = (f a).returned w b h
  continue-returned P next (err e) w b f h = absurd cc

  >>=-Returns :
      {A B : Type 0} (P : B → Type 0) (step : Action N A) (next : A → Action N B)
      → ((a : A) → Returns P (next a))
      → Returns P (step >>= next)
  unfolding ◌>>=◌
  >>=-Returns P step next f = record {
    returned = λ w b h. continue-returned P next (step w).0 (step w).1 b f h;
  }

  >>-Returns :
      {A B : Type 0} (P : B → Type 0) (step : Action N A) (next : Action N B)
      → Returns P next
      → Returns P (step >> next)
  unfolding ◌>>◌
  >>-Returns P step next f = >>=-Returns P step (λ a. next) (λ a. f)

  or_raise-Returns :
      {A B : Type 0} (P : B → Type 0) (o : Option A) (e : CoreError) (next : A → Action N B)
      → ((a : A) → o ≡ some a → Returns P (next a))
      → Returns P (or_raise o e >>= next)
  unfolding or_raise ◌>>=◌ pure
  or_raise-Returns P none e next f = record { returned = λ w b h. absurd cc }
  or_raise-Returns P (some a) e next f = record { returned = λ w b h. (f a refl).returned w b h }

module _ {N : Type 0} (lib : Library N) where
  pub new_cipher_ctx-Returns :
      (cipher : Option Cipher) (key iv : Bytes) (enc : Bool)
      → Returns (λ c. IsNew c.handle) (new_cipher_ctx lib cipher key iv enc)
  unfolding new_cipher_ctx
  new_cipher_ctx-Returns cipher key iv enc = >>=-Returns _ _ _ (λ c. >>-Returns _ _ _ (
      >>-Returns _ _ _ (
        >>=-Returns _ _ _ (λ p. >>-Returns _ _ _ (>>-Returns _ _ _ (pure-Returns _ _ (p, refl)))))))

  pub new_gcm_ctx-Returns :
      (cipher : Option Cipher) (key nonce : Bytes) (enc : Bool)
      → Returns (λ c. IsNew c.handle) (new_gcm_ctx lib cipher key nonce enc)
  unfolding new_gcm_ctx
  new_gcm_ctx-Returns cipher key nonce enc = >>=-Returns _ _ _ (λ c. >>-Returns _ _ _ (
      >>-Returns _ _ _ (
        >>=-Returns _ _ _ (λ p.
          >>-Returns _ _ _ (
            >>-Returns _ _ _ (>>-Returns _ _ _ (>>-Returns _ _ _ (pure-Returns _ _ (p, refl)))))))))

  pub new_ccm_ctx-Returns :
      (cipher : Option Cipher) (key nonce : Bytes) (plaintext_len tag_len : ℤ) (enc : Bool)
      → Returns (λ c. IsNew c.handle) (new_ccm_ctx lib cipher key nonce plaintext_len tag_len enc)
  unfolding new_ccm_ctx
  new_ccm_ctx-Returns cipher key nonce plaintext_len tag_len enc = >>=-Returns _ _ _ (λ c.
      >>-Returns _ _ _ (
        >>-Returns _ _ _ (
          >>-Returns _ _ _ (
            >>-Returns _ _ _ (
              >>=-Returns _ _ _ (λ p. >>-Returns _ _ _ (
                >>-Returns _ _ _ (
                  >>-Returns _ _ _ (
                    >>-Returns _ _ _
                      (>>-Returns _ _ _ (>>-Returns _ _ _ (pure-Returns _ _ (p, refl)))))))))))))

  pub clone-Returns :
      (context : Option CipherCtx) → Returns (λ c. IsNew c.handle) (clone lib context)
  unfolding clone
  clone-Returns context =
      >>=-Returns _ _ _
        (λ c. >>=-Returns _ _ _ (λ p. >>-Returns _ _ _ (pure-Returns _ _ (p, refl))))

  pub new_digest_ctx-Returns :
      (static : List ℕ) (digest : Option Digest)
      → IsReady static digest
      → Returns
          (λ c. IsNew c.handle × (bad_pointer static c.digest.handle.ptr ≡ 0))
          (new_digest_ctx lib digest)
  unfolding new_digest_ctx
  new_digest_ctx-Returns static digest ready = or_raise-Returns _ (usable digest) _ _ (λ d now_open.
      >>=-Returns _ _ _ (λ p. >>-Returns _ _ _ (pure-Returns _ _ ((p, refl), ready d now_open))))

  -- SetPadding changes the flag and nothing else of the context.
  pub set_padding-Returns :
      (c : CipherCtx) (pad : Bool)
      → Returns (λ c'. c' ≡ record c { pad = pad }) (set_padding lib c pad)
  unfolding set_padding
  set_padding-Returns c pad = >>-Returns _ _ _ (>>-Returns _ _ _ (pure-Returns _ _ refl))
