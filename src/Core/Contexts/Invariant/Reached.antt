-- ===== src/Core/Contexts/Invariant/Reached.antt =====
-- The invariant of the contexts in use, at every state that the program can reach.
use tongsuo_go.Base.{
  ℕ, ◌≡◌, refl, sym, ap, subst, List, Option, none, some, Bool, true, false, if◌then◌else◌, inr,
}
use tongsuo_go.Base.Positions.{get_elem?}
use tongsuo_go.Core.World.{Library, bad_pointer, pure}
use tongsuo_go.Core.World.Guards.{IsSafe}
use tongsuo_go.Core.Cipher.{CipherCtx, close_ctx, open_context}
use tongsuo_go.Core.Cipher.Effects as CE
use tongsuo_go.Core.Cipher.Methods as CM
use tongsuo_go.Core.Digest as D
use tongsuo_go.Core.Digest.Effects as DE
use tongsuo_go.Core.Contexts.{
  cipher_object, digest_object, handle_of, System, change, replaced, Step, Reach, cipher_made,
  gcm_made, ccm_made, cipher_cloned, digest_made, cipher_called, digest_called, padding_set,
  cipher_closed, digest_closed, digest_computed, xof_computed, here, next,
}
use tongsuo_go.Core.Contexts.Invariant.{
  Balanced, IsContext, IsOwner, All-get_elem?, object-IsSafe, static-live, make-Balanced,
  run-Balanced, change-Balanced,
}
use tongsuo_go.Core.Contexts.Invariant.Made as Made
use tongsuo_go.Core.Contexts.Invariant.Steps.{
  closed-Balanced, cipher_call-Settles, digest_call-Settles, cipher-IsReady,
}

-- What a test that let its value pass says.
passed :
    {A : Type 0} (test : Bool) (x y : A)
    → ◌≡◌ {A = Option A} (if test then none else some x) (some y)
    → (test ≡ false) × (x ≡ y)
passed true x y h = absurd cc
passed false x y h = (refl, cc)

module _ {N : Type 0} (lib : Library N) (static : List ℕ) where
  cipher-IsSafe :
      (s : System N) (i : ℕ) (c : CipherCtx)
      → Balanced static s
      → get_elem? s.objects i ≡ some (cipher_object c)
      → IsSafe s.world.live c.handle
  unfolding handle_of
  cipher-IsSafe s i c b at_i = object-IsSafe s i (cipher_object c) b at_i

  digest-IsSafe :
      (s : System N) (i : ℕ) (c : D.DigestCtx)
      → Balanced static s
      → get_elem? s.objects i ≡ some (digest_object c)
      → IsSafe s.world.live c.handle × (bad_pointer s.world.live c.digest.handle.ptr ≡ 0)
  unfolding handle_of
  digest-IsSafe s i c b at_i = (
    object-IsSafe s i (digest_object c) b at_i,
    static-live s c.digest.handle.ptr b
        (All-get_elem? (IsContext static) s.objects i (digest_object c) b.contexts at_i).1,
  )

  clone-IsReady :
      (s : System N) (i : ℕ) (c : CipherCtx)
      → Balanced static s
      → get_elem? s.objects i ≡ some (cipher_object c)
      → (c' : CipherCtx) → open_context (some c) ≡ some c'
      → bad_pointer s.world.live c'.handle.ptr ≡ 0
  unfolding open_context
  clone-IsReady s i c b at_i c' now_open =
      let (still_open, same) = passed c.handle.closed c c' now_open in
      subst (λ (x : CipherCtx). bad_pointer s.world.live x.handle.ptr ≡ 0) same
        (cipher-IsSafe s i c b at_i still_open)

  padding-kept :
      (s : System N) (i : ℕ) (c c' : CipherCtx) (pad : Bool)
      → Balanced static s
      → get_elem? s.objects i ≡ some (cipher_object c)
      → c' ≡ record c { pad = pad }
      → (handle_of (cipher_object c') ≡ handle_of (cipher_object c))
        × IsContext static (cipher_object c')
  unfolding handle_of
  padding-kept s i c c' pad b at_i same =
      let handle : c'.handle ≡ c.handle = ap (λ (x : CipherCtx). x.handle) same in
      let context =
        All-get_elem? (IsContext static) s.objects i (cipher_object c) b.contexts at_i in
      (handle, (subst IsOwner (sym handle) context.0, tt))

  pub Step-Balanced : (s t : System N) → Balanced static s → Step lib static s t → Balanced static t
  unfolding change replaced close_ctx D.close_digest_ctx pure handle_of
  Step-Balanced s t b (cipher_made cipher key iv enc ready) =
      make-Balanced s cipher_object _ b
        (CE.new_cipher_ctx-Settles lib s.world.live cipher key iv enc
          (cipher-IsReady lib s cipher b ready))
        (λ c made.
          (inr ((Made.new_cipher_ctx-Returns lib cipher key iv enc).returned s.world c made), tt))
  Step-Balanced s t b (gcm_made cipher key nonce enc ready) =
      make-Balanced s cipher_object _ b
        (CE.new_gcm_ctx-Settles lib s.world.live cipher key nonce enc
          (cipher-IsReady lib s cipher b ready))
        (λ c made.
          (inr ((Made.new_gcm_ctx-Returns lib cipher key nonce enc).returned s.world c made), tt))
  Step-Balanced s t b (ccm_made cipher key nonce size tag_len enc ready) =
      make-Balanced s cipher_object _ b
        (CE.new_ccm_ctx-Settles lib s.world.live cipher key nonce size tag_len enc
          (cipher-IsReady lib s cipher b ready))
        (λ c made. (
          inr (
              (Made.new_ccm_ctx-Returns lib cipher key nonce size tag_len enc).returned s.world c
                made),
          tt,
        ))
  Step-Balanced s t b (cipher_cloned i c at_i) =
      make-Balanced s cipher_object _ b
        (CE.clone-Settles lib s.world.live (some c) (clone-IsReady s i c b at_i))
        (λ c' made. (inr ((Made.clone-Returns lib (some c)).returned s.world c' made), tt))
  Step-Balanced s t b (digest_made digest ready) =
      make-Balanced s digest_object _ b
        (DE.new_digest_ctx-Settles lib s.world.live digest
          (λ d now_open. static-live s d.handle.ptr b (ready d now_open)))
        (λ c made.
          let (new, good) =
            (Made.new_digest_ctx-Returns lib static digest ready).returned s.world c made in
          (inr new, good))
  Step-Balanced s t b (cipher_called i c call at_i) =
      run-Balanced s _ b (cipher_call-Settles lib s.world.live call c (cipher-IsSafe s i c b at_i))
  Step-Balanced s t b (digest_called i c call at_i) =
      let safe = digest-IsSafe s i c b at_i in
      run-Balanced s _ b (digest_call-Settles lib s.world.live call c safe.0 safe.1)
  Step-Balanced s t b (padding_set i c pad at_i) =
      change-Balanced s i (cipher_object c) cipher_object _ b at_i
        (CM.set_padding-Settles lib s.world.live c pad (cipher-IsSafe s i c b at_i))
        (λ c' made.
          padding-kept s i c c' pad b at_i
            ((Made.set_padding-Returns lib c pad).returned s.world c' made))
  Step-Balanced s t b (cipher_closed i c at_i) =
      closed-Balanced lib s i (cipher_object c) _ b at_i refl tt
  Step-Balanced s t b (digest_closed i c at_i) =
      closed-Balanced lib s i (digest_object c) _ b at_i refl
        (All-get_elem? (IsContext static) s.objects i (digest_object c) b.contexts at_i).1
  Step-Balanced s t b (digest_computed digest input ready) = run-Balanced s _ b (
      DE.digest_one_shot-Settles lib s.world.live digest input
        (λ d now_open. static-live s d.handle.ptr b (ready d now_open)))
  Step-Balanced s t b (xof_computed digest input out_len ready) = run-Balanced s _ b (
      DE.xof_one_shot-Settles lib s.world.live digest input out_len
        (λ d now_open. static-live s d.handle.ptr b (ready d now_open)))

  -- From a system of contexts that is balanced, every sequence of constructor calls, method calls,
  -- clones and Close calls, on contexts that are open or closed and with a native library that may
  -- fail at any call, leads to a balanced one: no call followed or freed a pointer that was not
  -- live, every context is closed or owns its pointer, and each pointer is live as often as the
  -- contexts hold it and the static descriptors contain it.
  pub Reach-Balanced :
      (s t : System N) → Balanced static s → Reach lib static s t → Balanced static t
  Reach-Balanced s t b here = b
  Reach-Balanced s t b (next {t = u} reached step) =
      Step-Balanced u t (Reach-Balanced s u b reached) step
