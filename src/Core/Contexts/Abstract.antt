-- ===== src/Core/Contexts/Abstract.antt =====
-- What the contexts of internal/core promise, without handles and pointers: a table that says of each
-- context ever made whether it is open.
use tongsuo_go.Base.{
  ℕ, zero, suc, ◌≡◌, refl, sym, ap, ◌∙◌, List, [], ◌∷◌, ◌++◌, some, Bool, true, false, not, Result,
  ok, err,
}
use tongsuo_go.Base.Positions.{get_elem?, set}
use tongsuo_go.Core.Handle.{Handle, new_handle}
use tongsuo_go.Core.World.{Library, World, CoreError, Action, pure}
use tongsuo_go.Core.Cipher.{CipherCtx, new_cipher_ctx, new_gcm_ctx, new_ccm_ctx, clone, close_ctx}
use tongsuo_go.Core.Digest as D
use tongsuo_go.Core.Contexts.{
  Object, cipher_object, digest_object, handle_of, System, added, replaced, make, change, run, Step,
  cipher_made, gcm_made, ccm_made, cipher_cloned, digest_made, cipher_called, digest_called,
  padding_set, cipher_closed, digest_closed, digest_computed, xof_computed,
}
use tongsuo_go.Core.Contexts.Invariant.{Balanced, closed_handle}
use tongsuo_go.Core.Contexts.Invariant.Made as Made
use tongsuo_go.Core.Contexts.Invariant.Steps.{object-Closes}

-- What a call does to the table: nothing, a new context that is open, or the end of one.
pub data Effect : Type 0 where
  keeps opens : Effect
  closes : ℕ → Effect

unfoldable pub apply_effect : Effect → List Bool → List Bool
apply_effect keeps table = table
apply_effect opens table = table ++ true ∷ []
apply_effect (closes i) table = set table i false

-- A constructor that returns an error makes no context.
unfoldable pub creation : {A : Type 0} → Result CoreError A → Effect
creation (ok a) = opens
creation (err e) = keeps

-- The effect that each call promises.
unfoldable pub effect_of :
    {N : Type 0} (lib : Library N) (static : List ℕ) (s t : System N) → Step lib static s t → Effect
effect_of lib static s t (cipher_made cipher key iv enc ready) =
    creation (new_cipher_ctx lib cipher key iv enc s.world).0
effect_of lib static s t (gcm_made cipher key nonce enc ready) =
    creation (new_gcm_ctx lib cipher key nonce enc s.world).0
effect_of lib static s t (ccm_made cipher key nonce size tag_len enc ready) =
    creation (new_ccm_ctx lib cipher key nonce size tag_len enc s.world).0
effect_of lib static s t (cipher_cloned i c at_i) = creation (clone lib (some c) s.world).0
effect_of lib static s t (digest_made digest ready) =
    creation (D.new_digest_ctx lib digest s.world).0
effect_of lib static s t (cipher_called i c call at_i) = keeps
effect_of lib static s t (digest_called i c call at_i) = keeps
effect_of lib static s t (padding_set i c pad at_i) = keeps
effect_of lib static s t (cipher_closed i c at_i) = closes i
effect_of lib static s t (digest_closed i c at_i) = closes i
effect_of lib static s t (digest_computed digest input ready) = keeps
effect_of lib static s t (xof_computed digest input out_len ready) = keeps

unfoldable pub is_open : Object → Bool
is_open o = not (handle_of o).closed

unfoldable pub table_of : List Object → List Bool
table_of [] = []
table_of (o ∷ os) = is_open o ∷ table_of os

table_of-append :
    (os : List Object) (o : Object) → table_of (os ++ o ∷ []) ≡ table_of os ++ is_open o ∷ []
unfolding table_of
table_of-append [] o = refl
table_of-append (x ∷ os) o = ap (λ t. is_open x ∷ t) (table_of-append os o)

table_of-set :
    (os : List Object) (i : ℕ) (o : Object)
    → table_of (set os i o) ≡ set (table_of os) i (is_open o)
unfolding table_of
table_of-set [] i o = refl
table_of-set (x ∷ os) zero o = refl
table_of-set (x ∷ os) (suc i) o = ap (λ t. is_open x ∷ t) (table_of-set os i o)

table_of-same :
    (os : List Object) (i : ℕ) (o o' : Object)
    → get_elem? os i ≡ some o
    → is_open o' ≡ is_open o
    → table_of (set os i o') ≡ table_of os
unfolding table_of
table_of-same [] i o o' at_i same = refl
table_of-same (x ∷ os) zero o o' at_i same =
    let found : is_open x ≡ is_open o = cc in ap (λ b. b ∷ table_of os) (same ∙ sym found)
table_of-same (x ∷ os) (suc i) o o' at_i same =
    ap (λ t. is_open x ∷ t) (table_of-same os i o o' at_i same)

new-open : (h : Handle) → Made.IsNew h → not h.closed ≡ true
unfolding new_handle
new-open h (p, new) = ap (λ (x : Handle). not x.closed) new

closes-at :
    (os : List Object) (i : ℕ) (o : Object)
    → handle_of o ≡ closed_handle
    → table_of (set os i o) ≡ apply_effect (closes i) (table_of os)
unfolding is_open apply_effect
closes-at os i o shut =
    table_of-set os i o ∙ ap (set (table_of os) i) (ap (λ (h : Handle). not h.closed) shut)

module _ {N : Type 0} where
  added-opens :
      {A : Type 0} (object : A → Object) (os : List Object) (r : Result CoreError A) (w : World N)
      → ((a : A) → r ≡ ok a → is_open (object a) ≡ true)
      → table_of (added object os r w).objects ≡ apply_effect (creation r) (table_of os)
  unfolding added creation apply_effect
  added-opens object os (ok a) w made =
      table_of-append os (object a) ∙ ap (λ b. table_of os ++ b ∷ []) (made a refl)
  added-opens object os (err e) w made = refl

  make-opens :
      {A : Type 0} (object : A → Object) (step : Action N A) (s : System N)
      → ((a : A) → (step s.world).0 ≡ ok a → is_open (object a) ≡ true)
      → table_of (make object step s).objects
        ≡ apply_effect (creation (step s.world).0) (table_of s.objects)
  unfolding make
  make-opens object step s made =
      added-opens object s.objects (step s.world).0 (step s.world).1 made

  replaced-keeps :
      {A : Type 0} (object : A → Object) (i : ℕ) (o : Object) (os : List Object)
      (r : Result CoreError A) (w : World N)
      → get_elem? os i ≡ some o
      → ((a : A) → r ≡ ok a → is_open (object a) ≡ is_open o)
      → table_of (replaced object i os r w).objects ≡ table_of os
  unfolding replaced
  replaced-keeps object i o os (ok a) w at_i kept =
      table_of-same os i o (object a) at_i (kept a refl)
  replaced-keeps object i o os (err e) w at_i kept = refl

module _ {N : Type 0} (lib : Library N) (static : List ℕ) where
  -- Each call in a balanced system does to the table, which says of each context whether it is
  -- open, what effect_of promises for the call: a constructor or a clone that returns a context
  -- adds an open entry, one that fails changes nothing, Close marks the entry of its own context
  -- closed, and all other calls change nothing.
  pub Step-refines :
      (s t : System N) (call : Step lib static s t)
      → Balanced static s
      → table_of t.objects ≡ apply_effect (effect_of lib static s t call) (table_of s.objects)
  unfolding is_open handle_of change run replaced close_ctx D.close_digest_ctx pure effect_of
      apply_effect
  Step-refines s t (cipher_made cipher key iv enc ready) b = make-opens cipher_object _ s (λ c made.
      new-open c.handle
        ((Made.new_cipher_ctx-Returns lib cipher key iv enc).returned s.world c made))
  Step-refines s t (gcm_made cipher key nonce enc ready) b = make-opens cipher_object _ s (λ c made.
      new-open c.handle
        ((Made.new_gcm_ctx-Returns lib cipher key nonce enc).returned s.world c made))
  Step-refines s t (ccm_made cipher key nonce size tag_len enc ready) b =
      make-opens cipher_object _ s (λ c made.
        new-open c.handle (
          (Made.new_ccm_ctx-Returns lib cipher key nonce size tag_len enc).returned s.world c made))
  Step-refines s t (cipher_cloned i c at_i) b =
      make-opens cipher_object _ s
        (λ c' made. new-open c'.handle ((Made.clone-Returns lib (some c)).returned s.world c' made))
  Step-refines s t (digest_made digest ready) b = make-opens digest_object _ s (λ c made.
      new-open c.handle
        ((Made.new_digest_ctx-Returns lib static digest ready).returned s.world c made).0)
  Step-refines s t (cipher_called i c call at_i) b = refl
  Step-refines s t (digest_called i c call at_i) b = refl
  Step-refines s t (padding_set i c pad at_i) b =
      replaced-keeps cipher_object i (cipher_object c) s.objects _ _ at_i (λ c' made.
        ap (λ (x : CipherCtx). not x.handle.closed)
          ((Made.set_padding-Returns lib c pad).returned s.world c' made))
  Step-refines s t (cipher_closed i c at_i) b =
      closes-at s.objects i _ (object-Closes lib s i (cipher_object c) b at_i).shut
  Step-refines s t (digest_closed i c at_i) b =
      closes-at s.objects i _ (object-Closes lib s i (digest_object c) b at_i).shut
  Step-refines s t (digest_computed digest input ready) b = refl
  Step-refines s t (xof_computed digest input out_len ready) b = refl
