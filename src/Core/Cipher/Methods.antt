-- ===== src/Core/Cipher/Methods.antt =====
-- The methods of a cipher context, one that is open and one that is closed.
use tongsuo_go.Base.{ℕ, ◌≡◌, refl, List, [], ◌∷◌, length, Option, some, Bool, true, ◌==◌}
use tongsuo_go.Base.Signed.{ℤ}
use tongsuo_go.Core.World.{
  Bytes, Library, World, follows, bad_pointer, require_open, or_raise, raise_if, ◌>>=◌, ◌>>◌,
}
use tongsuo_go.Core.World.Effects.{Settles, Sound, >>=-Settles, pure-Settles, attempt-Settles}
use tongsuo_go.Core.World.Guards.{
  IsSafe, Refuses, guarded, >>-Settles, single-Sound, method-Settles,
}
use tongsuo_go.Core.Native.{update_aad}
use tongsuo_go.Core.Cipher.{
  CipherCtx, context_closed, open_context, set_padding, update, final, encrypt_all, decrypt_all,
  clone, set_iv_length, set_aad, get_tag, set_tag,
}

module _ {N : Type 0} (lib : Library N) where
  pub update-Settles :
      (l : List ℕ) (c : CipherCtx) (input : Bytes)
      → IsSafe l c.handle
      → Settles l (λ out. l) l (update lib c input)
  unfolding update follows
  update-Settles l c input safe =
      method-Settles lib l c.handle _ _ _
        (λ now_open. single-Sound lib l c.handle.ptr _ refl (safe now_open))

  pub final-Settles :
      (l : List ℕ) (c : CipherCtx) → IsSafe l c.handle → Settles l (λ out. l) l (final lib c)
  unfolding final follows
  final-Settles l c safe =
      method-Settles lib l c.handle _ _ _
        (λ now_open. single-Sound lib l c.handle.ptr _ refl (safe now_open))

  pub encrypt_all-Settles :
      (l : List ℕ) (c : CipherCtx) (input : Bytes)
      → IsSafe l c.handle
      → Settles l (λ out. l) l (encrypt_all lib c input)
  unfolding encrypt_all
  encrypt_all-Settles l c input safe =
      >>=-Settles l (λ out. l) (λ out. l) l _ _ (update-Settles l c input safe)
        (λ part1.
          >>=-Settles l (λ out. l) (λ out. l) l _ _ (final-Settles l c safe)
            (λ part2. pure-Settles l (λ out. l) l _ refl))

  -- The two directions are the same code: the direction was chosen when the context was made.
  pub decrypt_all-encrypt_all :
      (c : CipherCtx) (input : Bytes) → decrypt_all lib c input ≡ encrypt_all lib c input
  unfolding encrypt_all decrypt_all
  decrypt_all-encrypt_all c input = refl

  pub set_padding-Settles :
      (l : List ℕ) (c : CipherCtx) (pad : Bool)
      → IsSafe l c.handle
      → Settles l (λ c'. l) l (set_padding lib c pad)
  unfolding set_padding follows require_open
  set_padding-Settles l c pad safe =
      guarded l (λ c'. l) c.handle.closed _ _
        (λ now_open.
          >>-Settles l (λ out. l) (λ c'. l) l _ _
            (attempt-Settles lib l _ _ (single-Sound lib l c.handle.ptr _ refl (safe now_open)))
            (λ out. pure-Settles l (λ c'. l) l _ refl))

  pub set_iv_length-Settles :
      (l : List ℕ) (c : CipherCtx) (n : ℤ)
      → IsSafe l c.handle
      → Settles l (λ out. l) l (set_iv_length lib c n)
  unfolding set_iv_length follows
  set_iv_length-Settles l c n safe =
      method-Settles lib l c.handle _ _ _
        (λ now_open. single-Sound lib l c.handle.ptr _ refl (safe now_open))

  update_aad-Sound :
      (l : List ℕ) (p : Option ℕ) (aad : Bytes) (enc : Bool)
      → bad_pointer l p ≡ 0
      → Sound l (update_aad lib p aad enc)
  unfolding update_aad follows
  update_aad-Sound l p [] enc good = record { live_kept = λ w h. h; no_fault = λ w h. refl }
  update_aad-Sound l p (b ∷ bs) enc good =
      let call = single-Sound lib l p _ refl good in
      record { live_kept = λ w h. call.live_kept w h; no_fault = λ w h. call.no_fault w h }

  pub set_aad-Settles :
      (l : List ℕ) (c : CipherCtx) (aad : Bytes)
      → IsSafe l c.handle
      → Settles l (λ out. l) l (set_aad lib c aad)
  unfolding set_aad
  set_aad-Settles l c aad safe =
      method-Settles lib l c.handle _ _ _
        (λ now_open. update_aad-Sound l c.handle.ptr aad c.enc (safe now_open))

  pub get_tag-Settles :
      (l : List ℕ) (c : CipherCtx) (tag : Bytes)
      → IsSafe l c.handle
      → Settles l (λ out. l) l (get_tag lib c tag)
  unfolding get_tag require_open follows
  get_tag-Settles l c tag safe =
      guarded l (λ out. l) c.handle.closed _ _
        (λ now_open.
          guarded l (λ out. l) (length tag == 0) _ _
            (λ filled.
              attempt-Settles lib l _ _ (single-Sound lib l c.handle.ptr _ refl (safe now_open))))

  pub set_tag-Settles :
      (l : List ℕ) (c : CipherCtx) (tag : Bytes)
      → IsSafe l c.handle
      → Settles l (λ out. l) l (set_tag lib c tag)
  unfolding set_tag require_open follows
  set_tag-Settles l c tag safe =
      guarded l (λ out. l) c.handle.closed _ _
        (λ now_open.
          guarded l (λ out. l) (length tag == 0) _ _
            (λ filled.
              attempt-Settles lib l _ _ (single-Sound lib l c.handle.ptr _ refl (safe now_open))))

  -- On a context whose handle is closed, set_padding, update, final, encrypt_all, decrypt_all,
  -- clone, set_iv_length, set_aad, get_tag and set_tag fail with the message of a closed context,
  -- and call nothing of the native library.
  pub closed_methods :
      (c : CipherCtx) (w : World N) (pad : Bool) (n : ℤ) (bytes : Bytes)
      → c.handle.closed ≡ true
      → Refuses context_closed w (set_padding lib c pad)
        × Refuses context_closed w (update lib c bytes)
        × Refuses context_closed w (final lib c)
        × Refuses context_closed w (encrypt_all lib c bytes)
        × Refuses context_closed w (decrypt_all lib c bytes)
        × Refuses context_closed w (clone lib (some c))
        × Refuses context_closed w (set_iv_length lib c n)
        × Refuses context_closed w (set_aad lib c bytes)
        × Refuses context_closed w (get_tag lib c bytes)
        × Refuses context_closed w (set_tag lib c bytes)
  unfolding set_padding update final encrypt_all decrypt_all clone set_iv_length set_aad get_tag
      set_tag open_context require_open raise_if or_raise ◌>>◌ ◌>>=◌
  closed_methods c w pad n bytes shut =
      (rw shut, rw shut, rw shut, rw shut, rw shut, rw shut, rw shut, rw shut, rw shut, rw shut)
