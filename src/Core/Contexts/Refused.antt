-- ===== src/Core/Contexts/Refused.antt =====
-- What a call does that a closed context refuses, and a Close that finds its context closed.
use tongsuo_go.Base.{
  ℕ, zero, suc, ◌≡◌, refl, sym, ap, subst, ◌∙◌, List, [], ◌∷◌, none, some, true, ok,
}
use tongsuo_go.Base.Signed.{pos}
use tongsuo_go.Base.Positions.{get_elem?, set}
use tongsuo_go.Core.Handle.{Handle, close}
use tongsuo_go.Core.World.{
  Name, Library, World, error_text_of, Action, close_handle, free_all, pure,
}
use tongsuo_go.Core.World.Guards.{Refuses}
use tongsuo_go.Core.Cipher.{CipherCtx, context_closed, close_ctx}
use tongsuo_go.Core.Cipher.Methods as CM
use tongsuo_go.Core.Digest as D
use tongsuo_go.Core.Digest.Effects as DE
use tongsuo_go.Core.Contexts.{
  Object, System, added, replaced, make, change, run, CipherCall, update_call, encrypt_all_call,
  decrypt_all_call, set_aad_call, get_tag_call, set_tag_call, final_call, set_iv_length_call,
  DigestCall, write_call, sum_call, end_call, reset_call, cipher_call, digest_call,
}
use tongsuo_go.Core.Contexts.Invariant.{closed_handle}
use tongsuo_go.Core.Contexts.Answers.{error_in}

set-same : {A : Type 0} (xs : List A) (i : ℕ) (x : A) → get_elem? xs i ≡ some x → set xs i x ≡ xs
set-same [] i x h = refl
set-same (y ∷ xs) zero x h = let same : y ≡ x = cc in ap (λ z. z ∷ xs) (sym same)
set-same (y ∷ xs) (suc i) x h = ap (λ zs. y ∷ zs) (set-same xs i x h)

module _ {N : Type 0} (lib : Library N) where
  pub make-Refuses :
      {A : Type 0} (object : A → Object) (step : Action N A) (s : System N) (message : Name)
      → Refuses message s.world step
      → (make object step s ≡ s) × (error_in (step s.world).0 ≡ some (error_text_of message []))
  unfolding make added error_in
  make-Refuses object step s message h =
      (ap (λ r. added object s.objects r.0 r.1) h, ap (λ r. error_in r.0) h)

  pub run-Refuses :
      {A : Type 0} (step : Action N A) (s : System N) (message : Name)
      → Refuses message s.world step
      → (run step s ≡ s) × (error_in (step s.world).0 ≡ some (error_text_of message []))
  unfolding run error_in
  run-Refuses step s message h = (ap (λ r. record s { world = r.1 }) h, ap (λ r. error_in r.0) h)

  pub change-Refuses :
      {A : Type 0} (object : A → Object) (i : ℕ) (step : Action N A) (s : System N) (message : Name)
      → Refuses message s.world step
      → (change object i step s ≡ s) × (error_in (step s.world).0 ≡ some (error_text_of message []))
  unfolding change replaced error_in
  change-Refuses object i step s message h =
      (ap (λ r. replaced object i s.objects r.0 r.1) h, ap (λ r. error_in r.0) h)

  pub cipher_call-Refuses :
      (call : CipherCall) (c : CipherCtx) (w : World N)
      → c.handle.closed ≡ true
      → Refuses context_closed w (cipher_call lib call c)
  unfolding cipher_call
  cipher_call-Refuses (update_call b) c w h = (CM.closed_methods lib c w true (pos 0) b h).1
  cipher_call-Refuses final_call c w h = (CM.closed_methods lib c w true (pos 0) [] h).2
  cipher_call-Refuses (encrypt_all_call b) c w h = (CM.closed_methods lib c w true (pos 0) b h).3
  cipher_call-Refuses (decrypt_all_call b) c w h = (CM.closed_methods lib c w true (pos 0) b h).4
  cipher_call-Refuses (set_iv_length_call n) c w h = (CM.closed_methods lib c w true n [] h).6
  cipher_call-Refuses (set_aad_call b) c w h = (CM.closed_methods lib c w true (pos 0) b h).7
  cipher_call-Refuses (get_tag_call b) c w h = (CM.closed_methods lib c w true (pos 0) b h).8
  cipher_call-Refuses (set_tag_call b) c w h = (CM.closed_methods lib c w true (pos 0) b h).9

  pub digest_call-Refuses :
      (call : DigestCall) (c : D.DigestCtx) (w : World N)
      → c.handle.closed ≡ true
      → Refuses D.context_closed w (digest_call lib call c)
  unfolding digest_call
  digest_call-Refuses (write_call b) c w h = (DE.closed_methods lib c w b h).0
  digest_call-Refuses sum_call c w h = (DE.closed_methods lib c w [] h).1
  digest_call-Refuses end_call c w h = (DE.closed_methods lib c w [] h).2
  digest_call-Refuses reset_call c w h = (DE.closed_methods lib c w [] h).3

  close_handle-again :
      (h : Handle) (w : World N) → h ≡ closed_handle → close_handle lib h w ≡ (h, w)
  unfolding close_handle close free_all
  close_handle-again h w shut = subst (λ x. close_handle lib x w ≡ (x, w)) (sym shut) refl

  -- A Close that finds its object closed.
  pub change-again :
      {A : Type 0} (object : A → Object) (i : ℕ) (a : A) (step : Action N A) (s : System N)
      → get_elem? s.objects i ≡ some (object a)
      → step s.world ≡ (ok a, s.world)
      → (change object i step s ≡ s) × (error_in (step s.world).0 ≡ none)
  unfolding change replaced error_in
  change-again object i a step s at_i h = (
    ap (λ r. replaced object i s.objects r.0 r.1) h
        ∙ ap (λ os. record s { objects = os }) (set-same s.objects i (object a) at_i),
    ap (λ r. error_in r.0) h,
  )

  pub close_ctx-again :
      (c : CipherCtx) (w : World N) → c.handle ≡ closed_handle → close_ctx lib c w ≡ (ok c, w)
  unfolding close_ctx pure
  close_ctx-again c w shut =
      ap (λ p. (ok (record c { handle = p.0 }), p.1)) (close_handle-again c.handle w shut)

  pub close_digest_ctx-again :
      (c : D.DigestCtx) (w : World N)
      → c.handle ≡ closed_handle
      → D.close_digest_ctx lib c w ≡ (ok c, w)
  unfolding D.close_digest_ctx pure
  close_digest_ctx-again c w shut =
      ap (λ p. (ok (record c { handle = p.0 }), p.1)) (close_handle-again c.handle w shut)
