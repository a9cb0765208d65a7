-- ===== src/Core/Contexts/Invariant/Steps.antt =====
-- Every call keeps the contexts in use and the live pointers together.
use tongsuo_go.Base.{
  ℕ, ◌+◌, ◌≡◌, ◌<◌, ◌≤◌, refl, sym, ap, subst, ◌∙◌, List, Option, none, some, true, arith, inl, inr,
}
use tongsuo_go.Base.Positions.{get_elem?, set}
use tongsuo_go.Core.Handle.{Handle, new_handle, close, close_open}
use tongsuo_go.Core.World.{
  Library, World, bad_pointer, bad_pointers, optional, free_pointer, free_all, close_handle,
}
use tongsuo_go.Core.World.Effects.{Settles}
use tongsuo_go.Core.World.Guards.{held, IsSafe}
use tongsuo_go.Core.Cipher.{Cipher, CipherCtx}
use tongsuo_go.Core.Cipher.Effects as CE
use tongsuo_go.Core.Cipher.Methods as CM
use tongsuo_go.Core.Digest as D
use tongsuo_go.Core.Digest.Effects as DE
use tongsuo_go.Core.Contexts.{
  Object, handle_of, System, cipher_call, digest_call, CipherCall, DigestCall, update_call,
  encrypt_all_call, decrypt_all_call, set_aad_call, get_tag_call, set_tag_call, final_call,
  set_iv_length_call, write_call, sum_call, end_call, reset_call,
}
use tongsuo_go.Core.Contexts.Counts.{
  count, held_all-set, held_all-get_elem?, bad_pointer-count, count-remove,
}
use tongsuo_go.Core.Contexts.Invariant.{
  Balanced, IsContext, IsOwner, closed_handle, held-count, HasDescriptor, All-get_elem?, All-set,
  static-live,
}

module _ {N : Type 0} (lib : Library N) where
  -- What Close of a context's handle does.
  pub record Closes (h : Handle) (w : World N) : Type 0 where
    pub shut : (close_handle lib h w).0 ≡ closed_handle
    pub unfaulty : (close_handle lib h w).1.faults ≡ w.faults
    pub counted :
        (q : ℕ) → count q (close_handle lib h w).1.live + count q (held h) ≡ count q w.live

  owned-Closes :
      (p : ℕ) (w : World N) → 0 < count p w.live → Closes (new_handle (some p) true true) w
  unfolding close_handle close close_open new_handle free_all free_pointer
  owned-Closes p w there =
      let good = bad_pointer-count p w.live there in
      record {
        shut = refl;
        unfaulty = omega arith;
        counted = λ q. let removed = count-remove q p w.live there in omega arith;
      }

  closed-Closes : (w : World N) → Closes closed_handle w
  unfolding close_handle close free_all
  closed-Closes w = record { shut = refl; unfaulty = refl; counted = λ q. omega arith }

  owner-Closes :
      (h : Handle) (w : World N)
      → IsOwner h
      → ((q : ℕ) → count q (held h) ≤ count q w.live)
      → Closes h w
  unfolding new_handle
  owner-Closes h w (inl shut) inside = subst (λ x. Closes x w) (sym shut) (closed-Closes w)
  owner-Closes h w (inr (p, owned)) inside =
      let bound = inside p in
      let same : count p (held h) ≡ count p (held (new_handle (some p) true true)) =
        ap (λ x. count p (held x)) owned in
      subst (λ x. Closes x w) (sym owned)
        (let known = held-count p in owned-Closes p w (omega arith))

  -- Close on a context of the system.
  pub object-Closes :
      {static : List ℕ} (s : System N) (i : ℕ) (o : Object)
      → Balanced static s
      → get_elem? s.objects i ≡ some o
      → Closes (handle_of o) s.world
  object-Closes {static = static} s i o b at_i =
      owner-Closes (handle_of o) s.world
        (All-get_elem? (IsContext static) s.objects i o b.contexts at_i).0
        (λ q.
          let part = held_all-get_elem? q s.objects i o at_i in
          let sum = b.accounted q in omega arith)

  pub closed-Balanced :
      {static : List ℕ} (s : System N) (i : ℕ) (o o' : Object)
      → Balanced static s
      → get_elem? s.objects i ≡ some o
      → handle_of o' ≡ (close_handle lib (handle_of o) s.world).0
      → HasDescriptor static o'
      → Balanced static (record {
        world = (close_handle lib (handle_of o) s.world).1;
        objects = set s.objects i o';
      })
  closed-Balanced {static = static} s i o o' b at_i handle descriptor =
      let effect = object-Closes s i o b at_i in
      record {
        faultless = effect.unfaulty ∙ b.faultless;
        contexts =
            All-set (IsContext static) s.objects i o' b.contexts
              (inl (handle ∙ effect.shut), descriptor);
        accounted = λ q.
            let before = b.accounted q in
            let freed = effect.counted q in
            let moved = held_all-set q s.objects i o o' at_i in
            let nothing : count q (held (handle_of o')) ≡ count q (held closed_handle) =
              ap (λ h. count q (held h)) (handle ∙ effect.shut) in
            omega arith;
      }

  pub cipher_call-Settles :
      (l : List ℕ) (call : CipherCall) (c : CipherCtx)
      → IsSafe l c.handle
      → Settles l (λ out. l) l (cipher_call lib call c)
  unfolding cipher_call
  cipher_call-Settles l (update_call input) c safe = CM.update-Settles lib l c input safe
  cipher_call-Settles l (encrypt_all_call input) c safe = CM.encrypt_all-Settles lib l c input safe
  cipher_call-Settles l (decrypt_all_call input) c safe =
      subst (Settles l (λ out. l) l) (sym (CM.decrypt_all-encrypt_all lib c input))
        (CM.encrypt_all-Settles lib l c input safe)
  cipher_call-Settles l (set_aad_call aad) c safe = CM.set_aad-Settles lib l c aad safe
  cipher_call-Settles l (get_tag_call tag) c safe = CM.get_tag-Settles lib l c tag safe
  cipher_call-Settles l (set_tag_call tag) c safe = CM.set_tag-Settles lib l c tag safe
  cipher_call-Settles l final_call c safe = CM.final-Settles lib l c safe
  cipher_call-Settles l (set_iv_length_call n) c safe = CM.set_iv_length-Settles lib l c n safe

  pub digest_call-Settles :
      (l : List ℕ) (call : DigestCall) (c : D.DigestCtx)
      → IsSafe l c.handle
      → bad_pointer l c.digest.handle.ptr ≡ 0
      → Settles l (λ out. l) l (digest_call lib call c)
  unfolding digest_call
  digest_call-Settles l (write_call input) c safe d = DE.digest_write-Settles lib l c input safe
  digest_call-Settles l sum_call c safe d = DE.digest_sum-Settles lib l c safe
  digest_call-Settles l end_call c safe d = DE.digest_end-Settles lib l c safe
  digest_call-Settles l reset_call c safe d = DE.digest_reset-Settles lib l c safe d

  pub cipher-IsReady :
      {static : List ℕ} (s : System N) (cipher : Option Cipher)
      → Balanced static s
      → CE.IsReady static cipher
      → CE.IsReady s.world.live cipher
  cipher-IsReady {static = static} s cipher b ready c now_open =
      optional-live c.handle.ptr (ready c now_open)
    where
      optional-live :
          (p : Option ℕ)
          → bad_pointers static (optional p) ≡ 0
          → bad_pointers s.world.live (optional p) ≡ 0
      optional-live none good = refl
      optional-live (some p) good = let one = static-live s (some p) b (omega arith) in omega arith
