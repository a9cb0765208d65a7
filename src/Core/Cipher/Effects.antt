-- ===== src/Core/Cipher/Effects.antt =====
-- The operations of cipher contexts and the pointers that are live: none follows a freed pointer, and
-- a constructor that fails leaves nothing behind.
use tongsuo_go.Base.{ℕ, ◌≡◌, refl, List, [], ◌∷◌, ◌++◌, Option, none, some, Bool, arith}
use tongsuo_go.Base.Signed.{ℤ}
use tongsuo_go.Core.Handle.{new_handle}
use tongsuo_go.Core.World.{
  Bytes, Name, Control, ctx_ctrl, ctx_copy, cipher_length, Library, World, Action, ctx_set_flags,
  follows, bad_pointer, bad_pointers, optional, perform, new_context, ignore, ◌>>=◌, ◌>>◌,
}
use tongsuo_go.Core.World.Effects.{
  Settles, Sound, ended, >>=-Settles, pure-Settles, perform-Sound, attempt-Settles, ignore-Settles,
  close_on_error-Settles, new_context-Settles,
}
use tongsuo_go.Core.World.Guards.{held, newest_good, guarded, or_raise-Settles, owned_step}
use tongsuo_go.Core.Native.{init_cipher, set_length}
use tongsuo_go.Core.Cipher.{
  Cipher, CipherCtx, usable, invalid_cipher, new_cipher_ctx, new_gcm_ctx, new_ccm_ctx,
  set_ccm_length, clone, open_context,
}

-- The descriptor that a constructor is called with is not usable, or its pointer is live.
abbrev pub IsReady : List ℕ → Option Cipher → Type 0
IsReady l cipher =
    (c : Cipher) → usable cipher ≡ some c → bad_pointers l (optional c.handle.ptr) ≡ 0

module _ {N : Type 0} (lib : Library N) where
  flags-Settles :
      (p : ℕ) (l bad : List ℕ)
      → Settles (p ∷ l) (λ u. p ∷ l) bad (ignore lib (perform lib (ctx_set_flags (some p))))
  unfolding follows
  flags-Settles p l bad =
      ignore-Settles lib (p ∷ l) bad _ (perform-Sound lib (p ∷ l) _ (newest_good p l [] refl))

  init_cipher-Sound :
      (l : List ℕ) (p : ℕ) (cipher : Option ℕ) (key iv : Bytes) (enc : Bool)
      → bad_pointers l (optional cipher) ≡ 0
      → Sound (p ∷ l) (init_cipher lib (some p) cipher key iv enc)
  unfolding init_cipher follows
  init_cipher-Sound l p cipher key iv enc h =
      perform-Sound lib (p ∷ l) _ (newest_good p l (optional cipher) h)

  ctrl-Sound :
      (l : List ℕ) (p : ℕ) (control : Control) (n : ℤ) (bytes : Bytes)
      → Sound (p ∷ l) (perform lib (ctx_ctrl (some p) control n bytes))
  unfolding follows
  ctrl-Sound l p control n bytes = perform-Sound lib (p ∷ l) _ (newest_good p l [] refl)

  -- The allocation of a cipher context and its flags.
  with_flags :
      {B : Type 0} (l : List ℕ) (good : B → List ℕ) (op : Name) (next : ℕ → Action N B)
      → ((p : ℕ) → Settles (p ∷ l) good l (next p))
      → Settles l good l
          (new_context lib op >>= λ p. ignore lib (perform lib (ctx_set_flags (some p))) >> next p)
  unfolding ◌>>◌
  with_flags l good op next f =
      >>=-Settles l (λ p. p ∷ l) good l _ _ (new_context-Settles lib l op)
        (λ p. >>=-Settles (p ∷ l) (λ u. p ∷ l) good l _ _ (flags-Settles p l l) (λ u. f p))

  pub new_cipher_ctx-Settles :
      (l : List ℕ) (cipher : Option Cipher) (key iv : Bytes) (enc : Bool)
      → IsReady l cipher
      → Settles l (λ c. held c.handle ++ l) l (new_cipher_ctx lib cipher key iv enc)
  unfolding new_cipher_ctx new_handle
  new_cipher_ctx-Settles l cipher key iv enc ready =
      or_raise-Settles l _ (usable cipher) invalid_cipher _ (λ c now_open. guarded l _ _ _ _ (λ g1.
        guarded l _ _ _ _ (λ g2. with_flags l _ _ _ (λ p.
          owned_step lib p l _ _ _ _ (init_cipher-Sound l p _ key iv enc (ready c now_open))
            (pure-Settles (p ∷ l) _ l _ refl)))))

  pub new_gcm_ctx-Settles :
      (l : List ℕ) (cipher : Option Cipher) (key nonce : Bytes) (enc : Bool)
      → IsReady l cipher
      → Settles l (λ c. held c.handle ++ l) l (new_gcm_ctx lib cipher key nonce enc)
  unfolding new_gcm_ctx new_handle
  new_gcm_ctx-Settles l cipher key nonce enc ready =
      or_raise-Settles l _ (usable cipher) invalid_cipher _ (λ c now_open. guarded l _ _ _ _ (λ g1.
        guarded l _ _ _ _ (λ g2. with_flags l _ _ _ (λ p.
          owned_step lib p l _ _ _ _ (init_cipher-Sound l p _ key [] enc (ready c now_open)) (
            owned_step lib p l _ _ _ _ (ctrl-Sound l p _ _ []) (
              owned_step lib p l _ _ _ _ (init_cipher-Sound l p none [] nonce enc refl)
                (pure-Settles (p ∷ l) _ l _ refl)))))))

  set_ccm_length-Settles :
      (l : List ℕ) (p : ℕ) (n : ℤ) (enc : Bool)
      → Settles (p ∷ l) (λ bytes. p ∷ l) (p ∷ l) (set_ccm_length lib (some p) n enc)
  unfolding set_ccm_length set_length follows
  set_ccm_length-Settles l p n enc =
      attempt-Settles lib (p ∷ l) _ _
        (perform-Sound lib (p ∷ l) (cipher_length enc (some p) n) (newest_good p l [] refl))

  pub new_ccm_ctx-Settles :
      (l : List ℕ) (cipher : Option Cipher) (key nonce : Bytes) (plaintext_len tag_len : ℤ)
      (enc : Bool)
      → IsReady l cipher
      → Settles l
          (λ c. held c.handle ++ l)
          l
          (new_ccm_ctx lib cipher key nonce plaintext_len tag_len enc)
  unfolding new_ccm_ctx new_handle ◌>>◌
  new_ccm_ctx-Settles l cipher key nonce plaintext_len tag_len enc ready =
      or_raise-Settles l _ (usable cipher) invalid_cipher _ (λ c now_open. guarded l _ _ _ _ (λ g1.
        guarded l _ _ _ _ (λ g2. guarded l _ _ _ _ (λ g3. guarded l _ _ _ _ (λ g4.
          with_flags l _ _ _ (λ p.
            owned_step lib p l _ _ _ _ (init_cipher-Sound l p _ [] [] enc (ready c now_open)) (
              owned_step lib p l _ _ _ _ (ctrl-Sound l p _ _ []) (
                owned_step lib p l _ _ _ _ (ctrl-Sound l p _ tag_len []) (
                  owned_step lib p l _ _ _ _ (init_cipher-Sound l p none key nonce enc refl) (
                    >>=-Settles (p ∷ l) (λ u. p ∷ l) _ l _ _
                      (close_on_error-Settles lib p l _
                        (set_ccm_length-Settles l p plaintext_len enc))
                      (λ u. pure-Settles (p ∷ l) _ l _ refl)))))))))))

  pub clone-Settles :
      (l : List ℕ) (context : Option CipherCtx)
      → ((c : CipherCtx) → open_context context ≡ some c → bad_pointer l c.handle.ptr ≡ 0)
      → Settles l (λ c. held c.handle ++ l) l (clone lib context)
  unfolding clone new_handle follows
  clone-Settles l context ready = or_raise-Settles l _ (open_context context) _ _ (λ c now_open.
      >>=-Settles l (λ p. p ∷ l) _ l _ _ (new_context-Settles lib l _)
        (λ p.
          owned_step lib p l _ _ _ _
            (perform-Sound lib (p ∷ l) (ctx_copy (some p) c.handle.ptr)
              (newest_good p l (c.handle.ptr ∷ []) (let good = ready c now_open in omega arith)))
            (pure-Settles (p ∷ l) _ l _ refl)))

  -- When the pointer of an open descriptor is live, new_ccm_ctx leaves the live pointers as they
  -- were on every failure, has one more, that of the context it returns, on success, and follows
  -- no pointer that is not live.
  pub new_ccm_ctx-live :
      (cipher : Option Cipher) (key nonce : Bytes) (plaintext_len tag_len : ℤ) (enc : Bool)
      (w : World N)
      → IsReady w.live cipher
      → let (r, w') = new_ccm_ctx lib cipher key nonce plaintext_len tag_len enc w in
        (w'.live ≡ ended (λ c. held c.handle ++ w.live) w.live r) × (w'.faults ≡ w.faults)
  new_ccm_ctx-live cipher key nonce plaintext_len tag_len enc w ready =
      let s = new_ccm_ctx-Settles w.live cipher key nonce plaintext_len tag_len enc ready in
      (s.live_after w refl, s.no_fault w refl)
