-- ===== src/Core/Contexts/Closed.antt =====
-- The calls on a context that was closed.
use tongsuo_go.Base.{
  ℕ, zero, suc, ◌≡◌, refl, sym, ap, subst, List, [], ◌∷◌, Option, some, Bool, true, false, not, inl,
  inr,
}
use tongsuo_go.Base.Signed.{pos}
use tongsuo_go.Base.Positions.{get_elem?, set, get_elem?-append}
use tongsuo_go.Core.Handle.{Handle, new_handle}
use tongsuo_go.Core.World.{Library}
use tongsuo_go.Core.Cipher.{context_closed}
use tongsuo_go.Core.Cipher.Methods as CM
use tongsuo_go.Core.Digest as D
use tongsuo_go.Core.Contexts.{
  Object, cipher_object, digest_object, handle_of, System, Step, cipher_made, gcm_made, ccm_made,
  cipher_cloned, digest_made, cipher_called, digest_called, padding_set, cipher_closed,
  digest_closed, digest_computed, xof_computed, Reach, here, next,
}
use tongsuo_go.Core.Contexts.Invariant.{Balanced, closed_handle, IsOwner, IsContext, All-get_elem?}
use tongsuo_go.Core.Contexts.Invariant.Reached.{Reach-Balanced}
use tongsuo_go.Core.Contexts.Abstract.{
  Effect, keeps, opens, closes, apply_effect, effect_of, is_open, table_of, Step-refines,
}
use tongsuo_go.Core.Contexts.Answers.{subject_of, error_of, answer_of}
use tongsuo_go.Core.Contexts.Refused.{
  make-Refuses, run-Refuses, change-Refuses, cipher_call-Refuses, digest_call-Refuses, change-again,
  close_ctx-again, close_digest_ctx-again,
}

table_of-get_elem? :
    (os : List Object) (i : ℕ) (o : Object)
    → get_elem? os i ≡ some o
    → get_elem? (table_of os) i ≡ some (is_open o)
unfolding table_of
table_of-get_elem? [] i o h = absurd cc
table_of-get_elem? (x ∷ os) zero o h = let same : x ≡ o = cc in rw same refl
table_of-get_elem? (x ∷ os) (suc i) o h = table_of-get_elem? os i o h

not-false : (b : Bool) → not b ≡ false → b ≡ true
not-false true h = refl
not-false false h = absurd cc

marked-closed :
    (os : List Object) (i j : ℕ) (o : Object)
    → get_elem? os i ≡ some o
    → ◌≡◌ {A = Option ℕ} (some i) (some j)
    → get_elem? (table_of os) j ≡ some false
    → (handle_of o).closed ≡ true
unfolding is_open
marked-closed os i j o at_i same marked =
    let equal : i ≡ j = cc in
    let there =
      subst (λ k. get_elem? (table_of os) k ≡ some (is_open o)) equal
        (table_of-get_elem? os i o at_i) in
    not-false (handle_of o).closed cc

-- A handle of a context that is closed is the one that Close leaves.
closed-owner : (h : Handle) → IsOwner h → h.closed ≡ true → h ≡ closed_handle
unfolding new_handle
closed-owner h (inl shut) closed = shut
closed-owner h (inr (p, owned)) closed =
    absurd (let still_open : h.closed ≡ false = ap (λ (x : Handle). x.closed) owned in cc)

set-closed :
    (table : List Bool) (i j : ℕ)
    → get_elem? table i ≡ some false
    → get_elem? (set table j false) i ≡ some false
set-closed [] i j h = h
set-closed (b ∷ bs) zero zero h = refl
set-closed (b ∷ bs) zero (suc j) h = h
set-closed (b ∷ bs) (suc i) zero h = h
set-closed (b ∷ bs) (suc i) (suc j) h = set-closed bs i j h

-- No effect opens an entry again.
apply_effect-closed :
    (e : Effect) (table : List Bool) (i : ℕ)
    → get_elem? table i ≡ some false
    → get_elem? (apply_effect e table) i ≡ some false
unfolding apply_effect
apply_effect-closed keeps table i h = h
apply_effect-closed opens table i h = get_elem?-append table (true ∷ []) i false h
apply_effect-closed (closes j) table i h = set-closed table i j h

module _ {N : Type 0} (lib : Library N) (static : List ℕ) where
  shut_handle :
      (s : System N) (i : ℕ) (o : Object)
      → Balanced static s
      → get_elem? s.objects i ≡ some o
      → (handle_of o).closed ≡ true
      → handle_of o ≡ closed_handle
  shut_handle s i o b at_i closed =
      closed-owner (handle_of o) (All-get_elem? (IsContext static) s.objects i o b.contexts at_i).0
        closed

  closed_call :
      (s t : System N) (i : ℕ) (call : Step lib static s t)
      → Balanced static s
      → subject_of lib static s t call ≡ some i
      → get_elem? (table_of s.objects) i ≡ some false
      → (t ≡ s) × (error_of lib static s t call ≡ answer_of lib static s t call)
  unfolding subject_of error_of answer_of handle_of
  closed_call s t i (cipher_made cipher key iv enc ready) b on marked = absurd cc
  closed_call s t i (gcm_made cipher key nonce enc ready) b on marked = absurd cc
  closed_call s t i (ccm_made cipher key nonce size tag_len enc ready) b on marked = absurd cc
  closed_call s t i (digest_made digest ready) b on marked = absurd cc
  closed_call s t i (digest_computed digest input ready) b on marked = absurd cc
  closed_call s t i (xof_computed digest input out_len ready) b on marked = absurd cc
  closed_call s t i (cipher_cloned j c at_j) b on marked =
      let closed = marked-closed s.objects j i (cipher_object c) at_j on marked in
      make-Refuses lib cipher_object _ s context_closed
        (CM.closed_methods lib c s.world true (pos 0) [] closed).5
  closed_call s t i (cipher_called j c call at_j) b on marked =
      let closed = marked-closed s.objects j i (cipher_object c) at_j on marked in
      run-Refuses lib _ s context_closed (cipher_call-Refuses lib call c s.world closed)
  closed_call s t i (digest_called j c call at_j) b on marked =
      let closed = marked-closed s.objects j i (digest_object c) at_j on marked in
      run-Refuses lib _ s D.context_closed (digest_call-Refuses lib call c s.world closed)
  closed_call s t i (padding_set j c pad at_j) b on marked =
      let closed = marked-closed s.objects j i (cipher_object c) at_j on marked in
      change-Refuses lib cipher_object j _ s context_closed
        (CM.closed_methods lib c s.world pad (pos 0) [] closed).0
  closed_call s t i (cipher_closed j c at_j) b on marked =
      let closed = marked-closed s.objects j i (cipher_object c) at_j on marked in
      change-again lib cipher_object j c _ s at_j
        (close_ctx-again lib c s.world (shut_handle s j (cipher_object c) b at_j closed))
  closed_call s t i (digest_closed j c at_j) b on marked =
      let closed = marked-closed s.objects j i (digest_object c) at_j on marked in
      change-again lib digest_object j c _ s at_j
        (close_digest_ctx-again lib c s.world (shut_handle s j (digest_object c) b at_j closed))

  stays_closed :
      (s t : System N) (i : ℕ)
      → Balanced static s
      → get_elem? (table_of s.objects) i ≡ some false
      → Reach lib static s t
      → get_elem? (table_of t.objects) i ≡ some false
  stays_closed s t i b marked here = marked
  stays_closed s t i b marked (next {t = u} reached call) =
      let before = stays_closed s u i b marked reached in
      let refined = Step-refines lib static u t call (Reach-Balanced lib static s u b reached) in
      subst (λ table. get_elem? table i ≡ some false) (sym refined)
        (apply_effect-closed (effect_of lib static u t call) (table_of u.objects) i before)

  -- Once a context of a balanced system is closed, then after any further calls every call on it
  -- changes nothing: a method or a clone returns the error of a closed context, and Close
  -- succeeds.
  pub closed_for_ever :
      (s t u : System N) (i : ℕ) (call : Step lib static t u)
      → Balanced static s
      → get_elem? (table_of s.objects) i ≡ some false
      → Reach lib static s t
      → subject_of lib static t u call ≡ some i
      → (u ≡ t) × (error_of lib static t u call ≡ answer_of lib static t u call)
  closed_for_ever s t u i call b marked reached on =
      closed_call t u i call (Reach-Balanced lib static s t b reached) on
        (stays_closed s t i b marked reached)
