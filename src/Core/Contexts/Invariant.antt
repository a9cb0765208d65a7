-- ===== src/Core/Contexts/Invariant.antt =====
-- The contexts in use and the pointers that are live, through all calls.
pub mod Made
pub mod Steps
pub mod Reached
use tongsuo_go.Base.{
  ℕ, zero, suc, ◌+◌, ◌≡◌, ◌<◌, ◌≤◌, refl, sym, ap, subst, ◌∙◌, List, [], ◌∷◌, ◌++◌, Option, none,
  some, Bool, true, false, if◌then◌else◌, ◌==◌, arith, Bool-cases, ◌⊎◌, inl, inr, All, All-append,
  Result, ok, err,
}
use tongsuo_go.Base.Positions.{get_elem?, set}
use tongsuo_go.Core.Handle.{Handle, new_handle, close, close_open, is_set}
use tongsuo_go.Core.World.{
  Library, World, CoreError, Action, contains, remove, bad_pointer, bad_pointers, optional,
  free_pointer, free_all, close_handle, pure,
}
use tongsuo_go.Core.World.Effects.{Settles, ended, ended-same}
use tongsuo_go.Core.World.Guards.{held, IsSafe}
use tongsuo_go.Core.Contexts.{
  Object, cipher_object, digest_object, handle_of, System, added, replaced, make, change, run,
}
use tongsuo_go.Core.Contexts.Counts.{
  count, held_all, count-append, held_all-append, held_all-set, held_all-get_elem?, contains-count,
  count-contains, bad_pointer-count, count-remove,
}

-- The handle of a context after Close.
abbrev pub closed_handle : Handle
closed_handle = record {
  ptr = none;
  owned = true;
  closed = true;
  has_close_func = true;
  has_finalizer = false;
}

-- A handle that is closed, or owns its pointer.
abbrev pub IsOwner : Handle → Type 0
IsOwner h = (h ≡ closed_handle) ⊎ ((p : ℕ) × (h ≡ new_handle (some p) true true))

-- Reset follows the descriptor of the digest.
abbrev pub HasDescriptor : List ℕ → Object → Type 0
HasDescriptor static (cipher_object c) = Unit {0}
HasDescriptor static (digest_object c) = bad_pointer static c.digest.handle.ptr ≡ 0

-- A context that may be called.
abbrev pub IsContext : List ℕ → Object → Type 0
IsContext static o = IsOwner (handle_of o) × HasDescriptor static o

-- No call followed a pointer that was not live, and the live pointers are those that the contexts
-- hold and the static descriptors.
pub record Balanced {N : Type 0} (static : List ℕ) (s : System N) : Type 0 where
  pub faultless : s.world.faults ≡ 0
  pub contexts : All (IsContext static) s.objects
  pub accounted : (q : ℕ) → count q s.world.live ≡ count q (held_all s.objects) + count q static

pub All-get_elem? {κ} :
    (P : Object → Type κ) (os : List Object) (i : ℕ) (o : Object)
    → All P os
    → get_elem? os i ≡ some o
    → P o
All-get_elem? P [] i o all at_i = cc
All-get_elem? P (x ∷ os) zero o (h, hs) at_i = subst P (some-injective at_i) h
  where
    some-injective : {x y : Object} → ◌≡◌ {A = Option Object} (some x) (some y) → x ≡ y
    some-injective h = cc
All-get_elem? P (x ∷ os) (suc i) o (h, hs) at_i = All-get_elem? P os i o hs at_i

All-set {κ} :
    (P : Object → Type κ) (os : List Object) (i : ℕ) (o : Object)
    → All P os
    → P o
    → All P (set os i o)
All-set P [] i o all h = all
All-set P (x ∷ os) zero o (hx, hs) h = (h, hs)
All-set P (x ∷ os) (suc i) o (hx, hs) h = (hx, All-set P os i o hs h)

pub held-count : (p : ℕ) → 0 < count p (held (new_handle (some p) true true))
unfolding new_handle
held-count p = ground arith

owner-IsSafe :
    (l : List ℕ) (h : Handle) → IsOwner h → ((q : ℕ) → count q (held h) ≤ count q l) → IsSafe l h
unfolding new_handle
owner-IsSafe l h (inl shut) inside now_open = absurd (cc (rw shut at now_open))
owner-IsSafe l h (inr (p, owned)) inside now_open =
    let known = held-count p in
    let bound = inside p in
    let same : count p (held h) ≡ count p (held (new_handle (some p) true true)) =
      ap (λ x. count p (held x)) owned in
    let pointer : h.ptr ≡ some p = ap (λ x. x.ptr) owned in
    subst (λ x. bad_pointer l x ≡ 0) (sym pointer) (bad_pointer-count p l (omega arith))

module _ {N : Type 0} {static : List ℕ} where
  -- Where a step may look for its pointers.
  pub static-live :
      (s : System N) (p : Option ℕ)
      → Balanced static s
      → bad_pointer static p ≡ 0
      → bad_pointer s.world.live p ≡ 0
  static-live s none b good = good
  static-live s (some p) b good = elim (Bool-cases (contains p static)) [
    | inl there ↦
        let many = count-contains p static there in
        let sum = b.accounted p in bad_pointer-count p s.world.live (omega arith)
    | inr missing ↦ absurd (cc (rw missing at good))
  ]

  -- A context of the system may be called: its pointer is live, unless it is closed.
  pub object-IsSafe :
      (s : System N) (i : ℕ) (o : Object)
      → Balanced static s
      → get_elem? s.objects i ≡ some o
      → IsSafe s.world.live (handle_of o)
  object-IsSafe s i o b at_i =
      owner-IsSafe s.world.live (handle_of o)
        (All-get_elem? (IsContext static) s.objects i o b.contexts at_i).0
        (λ q.
          let part = held_all-get_elem? q s.objects i o at_i in
          let sum = b.accounted q in omega arith)

  added-Balanced :
      {A : Type 0} (s : System N) (object : A → Object) (r : Result CoreError A) (w : World N)
      → Balanced static s
      → w.live ≡ ended (λ a. held (handle_of (object a)) ++ s.world.live) s.world.live r
      → w.faults ≡ s.world.faults
      → ((a : A) → r ≡ ok a → IsContext static (object a))
      → Balanced static (added object s.objects r w)
  unfolding added
  added-Balanced s object (ok a) w b live faults made = record {
    faultless = faults ∙ b.faultless;
    contexts = All-append (IsContext static) s.objects (object a ∷ []) b.contexts (made a refl, tt);
    accounted = λ q.
        let before = b.accounted q in
        let now : count q w.live ≡ count q (held (handle_of (object a)) ++ s.world.live) =
          ap (count q) live in
        let split = count-append q (held (handle_of (object a))) s.world.live in
        let front = held_all-append q s.objects (object a ∷ []) in
        let back = count-append q (held (handle_of (object a))) [] in omega arith;
  }
  added-Balanced s object (err e) w b live faults made = record {
    faultless = faults ∙ b.faultless;
    contexts = b.contexts;
    accounted = λ q. ap (count q) live ∙ b.accounted q;
  }

  replaced-Balanced :
      {A : Type 0} (s : System N) (i : ℕ) (o : Object) (object : A → Object)
      (r : Result CoreError A) (w : World N)
      → Balanced static s
      → get_elem? s.objects i ≡ some o
      → w.live ≡ s.world.live
      → w.faults ≡ s.world.faults
      → ((a : A) → r ≡ ok a → (handle_of (object a) ≡ handle_of o) × IsContext static (object a))
      → Balanced static (replaced object i s.objects r w)
  unfolding replaced
  replaced-Balanced s i o object (ok a) w b at_i live faults kept = record {
    faultless = faults ∙ b.faultless;
    contexts = All-set (IsContext static) s.objects i (object a) b.contexts (kept a refl).1;
    accounted = λ q.
        let before = b.accounted q in
        let now : count q w.live ≡ count q s.world.live = ap (count q) live in
        let moved = held_all-set q s.objects i o (object a) at_i in
        let same : count q (held (handle_of (object a))) ≡ count q (held (handle_of o)) =
          ap (λ h. count q (held h)) (kept a refl).0 in
        omega arith;
  }
  replaced-Balanced s i o object (err e) w b at_i live faults kept = record {
    faultless = faults ∙ b.faultless;
    contexts = b.contexts;
    accounted = λ q. ap (count q) live ∙ b.accounted q;
  }

  pub make-Balanced :
      {A : Type 0} (s : System N) (object : A → Object) (step : Action N A)
      → Balanced static s
      → Settles s.world.live (λ a. held (handle_of (object a)) ++ s.world.live) s.world.live step
      → ((a : A) → (step s.world).0 ≡ ok a → IsContext static (object a))
      → Balanced static (make object step s)
  unfolding make
  make-Balanced s object step b settles made =
      added-Balanced s object (step s.world).0 (step s.world).1 b (settles.live_after s.world refl)
        (settles.no_fault s.world refl) made

  pub run-Balanced :
      {A : Type 0} (s : System N) (step : Action N A)
      → Balanced static s
      → Settles s.world.live (λ a. s.world.live) s.world.live step
      → Balanced static (run step s)
  unfolding run
  run-Balanced s step b settles = record {
    faultless = settles.no_fault s.world refl ∙ b.faultless;
    contexts = b.contexts;
    accounted = λ q.
        ap (count q)
          (settles.live_after s.world refl ∙ sym (ended-same s.world.live (step s.world).0 refl))
        ∙ b.accounted q;
  }

  pub change-Balanced :
      {A : Type 0} (s : System N) (i : ℕ) (o : Object) (object : A → Object) (step : Action N A)
      → Balanced static s
      → get_elem? s.objects i ≡ some o
      → Settles s.world.live (λ a. s.world.live) s.world.live step
      → ((a : A)
          → (step s.world).0 ≡ ok a
          → (handle_of (object a) ≡ handle_of o) × IsContext static (object a))
      → Balanced static (change object i step s)
  unfolding change
  change-Balanced s i o object step b at_i settles kept =
      replaced-Balanced s i o object (step s.world).0 (step s.world).1 b at_i
        (settles.live_after s.world refl ∙ sym (ended-same s.world.live (step s.world).0 refl))
        (settles.no_fault s.world refl) kept
