-- ===== src/Core/Digest/Effects.antt =====
-- The operations of digests and the pointers that are live.
use tongsuo_go.Base.{ℕ, zero, suc, ◌≡◌, refl, List, [], ◌∷◌, ◌++◌, Option, some, true, arith}
use tongsuo_go.Base.Signed.{ℤ}
use tongsuo_go.Core.Handle.{new_handle}
use tongsuo_go.Core.World.{
  Bytes, Library, World, digest_init, digest_copy, digest_final, follows, bad_pointer, perform,
  require_open, raise_if, ◌>>=◌, ◌>>◌,
}
use tongsuo_go.Core.World.Effects.{
  Settles, Sound, >>=-Settles, pure-Settles, perform-Sound, attempt-Settles, new_context-Settles,
  with_context-Settles,
}
use tongsuo_go.Core.World.Guards.{
  IsSafe, Refuses, held, newest_good, guarded, or_raise-Settles, owned_step, >>-Settles,
  single-Sound, method-Settles,
}
use tongsuo_go.Core.Native.{final_xof}
use tongsuo_go.Core.Digest.{
  Digest, DigestCtx, context_closed, usable, positive, digest_one_shot, update_unless_empty,
  xof_one_shot, new_digest_ctx, digest_write, digest_sum, digest_end, digest_reset,
}

-- The digest that an operation is called on is not usable, or its pointer may be followed.
abbrev pub IsReady : List ℕ → Option Digest → Type 0
IsReady l digest = (d : Digest) → usable digest ≡ some d → bad_pointer l d.handle.ptr ≡ 0

module _ {N : Type 0} (lib : Library N) where
  pub digest_one_shot-Settles :
      (l : List ℕ) (digest : Option Digest) (input : Bytes)
      → IsReady l digest
      → Settles l (λ out. l) l (digest_one_shot lib digest input)
  unfolding digest_one_shot follows
  digest_one_shot-Settles l digest input ready =
      or_raise-Settles l _ (usable digest) _ _ (λ d now_open.
        attempt-Settles lib l _ _ (single-Sound lib l d.handle.ptr _ refl (ready d now_open)))

  init-Sound :
      (l : List ℕ) (p : ℕ) (md : Option ℕ)
      → bad_pointer l md ≡ 0
      → Sound (p ∷ l) (perform lib (digest_init (some p) md))
  unfolding follows
  init-Sound l p md good = perform-Sound lib (p ∷ l) _ (newest_good p l (md ∷ []) (omega arith))

  update_unless_empty-Settles :
      (l : List ℕ) (p : ℕ) (input : Bytes)
      → Settles (p ∷ l) (λ out. p ∷ l) (p ∷ l) (update_unless_empty lib p input)
  unfolding update_unless_empty follows
  update_unless_empty-Settles l p [] = pure-Settles (p ∷ l) _ (p ∷ l) [] refl
  update_unless_empty-Settles l p (b ∷ bs) =
      attempt-Settles lib (p ∷ l) _ _ (perform-Sound lib (p ∷ l) _ (newest_good p l [] refl))

  final_xof-Sound : (l : List ℕ) (p : ℕ) (n : ℕ) → Sound (p ∷ l) (final_xof lib (some p) n)
  unfolding final_xof follows
  final_xof-Sound l p zero = record { live_kept = λ w h. h; no_fault = λ w h. refl }
  final_xof-Sound l p (suc n) =
      let call = perform-Sound lib (p ∷ l) _ (newest_good p l [] refl) in
      record { live_kept = λ w h. call.live_kept w h; no_fault = λ w h. call.no_fault w h }

  -- The context of the call is freed on every path.
  pub xof_one_shot-Settles :
      (l : List ℕ) (digest : Option Digest) (input : Bytes) (out_len : ℤ)
      → IsReady l digest
      → Settles l (λ out. l) l (xof_one_shot lib digest input out_len)
  unfolding xof_one_shot
  xof_one_shot-Settles l digest input out_len ready =
      or_raise-Settles l _ (usable digest) _ _ (λ d now_open.
        or_raise-Settles l _ (positive out_len) _ _ (λ n is_positive.
          with_context-Settles lib l _ _ (λ p.
            >>-Settles (p ∷ l) (λ out. p ∷ l) _ (p ∷ l) _ _
              (attempt-Settles lib (p ∷ l) _ _ (init-Sound l p d.handle.ptr (ready d now_open)))
              (λ u.
                >>-Settles (p ∷ l) (λ out. p ∷ l) _ (p ∷ l) _ _
                  (update_unless_empty-Settles l p input)
                  (λ v. attempt-Settles lib (p ∷ l) _ _ (final_xof-Sound l p n))))))

  pub new_digest_ctx-Settles :
      (l : List ℕ) (digest : Option Digest)
      → IsReady l digest
      → Settles l (λ c. held c.handle ++ l) l (new_digest_ctx lib digest)
  unfolding new_digest_ctx new_handle
  new_digest_ctx-Settles l digest ready = or_raise-Settles l _ (usable digest) _ _ (λ d now_open.
      >>=-Settles l (λ p. p ∷ l) _ l _ _ (new_context-Settles lib l _)
        (λ p.
          owned_step lib p l _ _ _ _ (init-Sound l p d.handle.ptr (ready d now_open))
            (pure-Settles (p ∷ l) _ l _ refl)))

  pub digest_write-Settles :
      (l : List ℕ) (c : DigestCtx) (input : Bytes)
      → IsSafe l c.handle
      → Settles l (λ out. l) l (digest_write lib c input)
  unfolding digest_write follows
  digest_write-Settles l c input safe =
      method-Settles lib l c.handle _ _ _
        (λ now_open. single-Sound lib l c.handle.ptr _ refl (safe now_open))

  pub digest_end-Settles :
      (l : List ℕ) (c : DigestCtx) → IsSafe l c.handle → Settles l (λ out. l) l (digest_end lib c)
  unfolding digest_end follows
  digest_end-Settles l c safe =
      method-Settles lib l c.handle _ _ _
        (λ now_open. single-Sound lib l c.handle.ptr _ refl (safe now_open))

  -- Sum works on a copy, which is freed on every path.
  pub digest_sum-Settles :
      (l : List ℕ) (c : DigestCtx) → IsSafe l c.handle → Settles l (λ out. l) l (digest_sum lib c)
  unfolding digest_sum require_open follows
  digest_sum-Settles l c safe = guarded l _ c.handle.closed _ _ (λ now_open.
      with_context-Settles lib l _ _ (λ p.
        let good = safe now_open in
        >>-Settles (p ∷ l) (λ out. p ∷ l) _ (p ∷ l) _ _
          (attempt-Settles lib (p ∷ l) _ _ (
            perform-Sound lib (p ∷ l) (digest_copy (some p) c.handle.ptr)
              (newest_good p l (c.handle.ptr ∷ []) (omega arith))))
          (λ u. attempt-Settles lib (p ∷ l) _ _ (
            perform-Sound lib (p ∷ l) (digest_final (some p) c.digest.size)
              (newest_good p l [] refl)))))

  pub digest_reset-Settles :
      (l : List ℕ) (c : DigestCtx)
      → IsSafe l c.handle
      → bad_pointer l c.digest.handle.ptr ≡ 0
      → Settles l (λ out. l) l (digest_reset lib c)
  unfolding digest_reset follows
  digest_reset-Settles l c safe descriptor = method-Settles lib l c.handle _ _ _ (λ now_open.
      perform-Sound lib l (digest_init c.handle.ptr c.digest.handle.ptr)
        (let good = safe now_open in omega arith))

  pub closed_methods :
      (c : DigestCtx) (w : World N) (input : Bytes)
      → c.handle.closed ≡ true
      → Refuses context_closed w (digest_write lib c input)
        × Refuses context_closed w (digest_sum lib c)
        × Refuses context_closed w (digest_end lib c)
        × Refuses context_closed w (digest_reset lib c)
  unfolding digest_write digest_sum digest_end digest_reset require_open raise_if ◌>>◌ ◌>>=◌
  closed_methods c w input shut = (rw shut, rw shut, rw shut, rw shut)
