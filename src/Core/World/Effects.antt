-- ===== src/Core/World/Effects.antt =====
-- What an action does to the pointers that are live, by how it ended.
use tongsuo_go.Base.{
  ℕ, ◌≡◌, refl, sym, subst, ◌∙◌, List, ◌∷◌, Option, none, some, true, Result, ok, err, ==_refl,
  Bool-cases, inl, inr, arith,
}
use tongsuo_go.Core.Handle.{new_handle, close, close_open}
use tongsuo_go.Core.World.{
  Bytes, Name, Call, Library, World, CoreError, remove, bad_pointer, bad_pointers, follows, Action,
  pure, raise, continue, ◌>>=◌, perform, new_pointer, free_pointer, free_all, close_handle,
  op_failure, answered, attempt, Native, answered_or_close, attempt_or_close, close_after,
  close_on_error, ignore, granted, returned, new_context, with_context,
}

-- The live pointers at the end: those of the result, or those of a failure.
abbrev pub ended : {A : Type 0} → (A → List ℕ) → List ℕ → Result CoreError A → List ℕ
ended good bad (ok a) = good a
ended good bad (err e) = bad

-- From a world in which `before` is live the action follows only live pointers, and leaves `good`
-- live after a success, `bad` after a failure.
pub record Settles {N A : Type 0} (before : List ℕ) (good : A → List ℕ) (bad : List ℕ)
    (step : Action N A) : Type 0 where
  pub live_after : (w : World N) → w.live ≡ before → (step w).1.live ≡ ended good bad (step w).0
  pub no_fault : (w : World N) → w.live ≡ before → (step w).1.faults ≡ w.faults

pub ended-same :
    {A : Type 0} {x : List ℕ} (l : List ℕ) (r : Result CoreError A) → x ≡ l → x ≡ ended (λ a. l) l r
ended-same l (ok a) h = h
ended-same l (err e) h = h

-- A call that follows only pointers of `l`, when those are live.
pub record Sound {N : Type 0} (l : List ℕ) (call : Native N) : Type 0 where
  pub live_kept : (w : World N) → w.live ≡ l → (call w).1.live ≡ l
  pub no_fault : (w : World N) → w.live ≡ l → (call w).1.faults ≡ w.faults

module _ {N : Type 0} where
  pub pure-Settles :
      {A : Type 0} (l : List ℕ) (good : A → List ℕ) (bad : List ℕ) (a : A)
      → good a ≡ l
      → Settles {N = N} l good bad (pure a)
  unfolding pure
  pure-Settles l good bad a same = record { live_after = λ w h. cc; no_fault = λ w h. refl }

  pub raise-Settles :
      {A : Type 0} (l : List ℕ) (good : A → List ℕ) (e : CoreError)
      → Settles {N = N} l good l (raise e)
  raise-Settles l good e = record { live_after = λ w h. h; no_fault = λ w h. refl }

  continue-live :
      {A B : Type 0} (good : A → List ℕ) (good' : B → List ℕ) (bad : List ℕ) (next : A → Action N B)
      (r : Result CoreError A) (w : World N)
      → ((a : A) → Settles (good a) good' bad (next a))
      → w.live ≡ ended good bad r
      → (continue next r w).1.live ≡ ended good' bad (continue next r w).0
  continue-live good good' bad next (ok a) w f h = (f a).live_after w h
  continue-live good good' bad next (err e) w f h = h

  continue-faults :
      {A B : Type 0} (good : A → List ℕ) (good' : B → List ℕ) (bad : List ℕ) (next : A → Action N B)
      (r : Result CoreError A) (w : World N)
      → ((a : A) → Settles (good a) good' bad (next a))
      → w.live ≡ ended good bad r
      → (continue next r w).1.faults ≡ w.faults
  continue-faults good good' bad next (ok a) w f h = (f a).no_fault w h
  continue-faults good good' bad next (err e) w f h = refl

  pub >>=-Settles :
      {A B : Type 0} (l : List ℕ) (good : A → List ℕ) (good' : B → List ℕ) (bad : List ℕ)
      (step : Action N A) (next : A → Action N B)
      → Settles l good bad step
      → ((a : A) → Settles (good a) good' bad (next a))
      → Settles l good' bad (step >>= next)
  unfolding ◌>>=◌
  >>=-Settles l good good' bad step next s f = record {
    live_after =
        λ w h. continue-live good good' bad next (step w).0 (step w).1 f (s.live_after w h);
    no_fault = λ w h.
        subst (λ n. ((step >>= next) w).1.faults ≡ n) (s.no_fault w h)
          (continue-faults good good' bad next (step w).0 (step w).1 f (s.live_after w h));
  }

module _ {N : Type 0} (lib : Library N) where
  op_failure-Settles :
      {A : Type 0} (l : List ℕ) (good : A → List ℕ) (op : Name)
      → Settles l good l (op_failure lib op)
  unfolding op_failure
  op_failure-Settles l good op = record { live_after = λ w h. h; no_fault = λ w h. refl }

  attempt-live :
      (good : List ℕ) (op : Name) (result : Option Bytes) (w : World N)
      → w.live ≡ good
      → (answered lib op result w).1.live ≡ ended (λ bytes. good) good (answered lib op result w).0
  unfolding pure answered op_failure
  attempt-live good op none w h = h
  attempt-live good op (some bytes) w h = h

  answered-faults :
      (op : Name) (result : Option Bytes) (w : World N)
      → (answered lib op result w).1.faults ≡ w.faults
  unfolding pure answered op_failure
  answered-faults op none w = refl
  answered-faults op (some bytes) w = refl

  perform-faults :
      (l : List ℕ) (call : Call) (w : World N)
      → bad_pointers l (follows call) ≡ 0
      → w.live ≡ l
      → (perform lib call w).1.faults ≡ w.faults
  unfolding perform
  perform-faults l call w sound h =
      let none_bad : bad_pointers w.live (follows call) ≡ 0 = rw (h, sound) in omega arith

  -- A call that follows live pointers.
  pub perform-Sound :
      (l : List ℕ) (call : Call) → bad_pointers l (follows call) ≡ 0 → Sound l (perform lib call)
  unfolding perform
  perform-Sound l call sound = record {
    live_kept = λ w h. h;
    no_fault = λ w h. perform-faults l call w sound h;
  }

  pub attempt-Settles :
      (l : List ℕ) (op : Name) (call : Native N)
      → Sound l call
      → Settles l (λ bytes. l) l (attempt lib op call)
  unfolding attempt
  attempt-Settles l op call sound = record {
    live_after = λ w h. attempt-live l op (call w).0 (call w).1 (sound.live_kept w h);
    no_fault = λ w h. answered-faults op (call w).0 (call w).1 ∙ sound.no_fault w h;
  }

  pub ignore-Settles :
      (l bad : List ℕ) (call : Native N) → Sound l call → Settles l (λ u. l) bad (ignore lib call)
  unfolding ignore
  ignore-Settles l bad call sound = record {
    live_after = λ w h. sound.live_kept w h;
    no_fault = λ w h. sound.no_fault w h;
  }

  -- Freeing the newest of the live pointers.
  free_pointer-newest :
      (p : ℕ) (l : List ℕ) (w : World N)
      → w.live ≡ p ∷ l
      → ((free_pointer lib p w).live ≡ l) × ((free_pointer lib p w).faults ≡ w.faults)
  unfolding free_pointer
  free_pointer-newest p l w h =
      let known = ==_refl p in
      let left : remove p w.live ≡ l = rw (h, known) in
      let sound : bad_pointer w.live (some p) ≡ 0 = rw (h, known) in (left, omega arith)

  answered_or_close-live :
      (p : ℕ) (l : List ℕ) (op : Name) (result : Option Bytes) (w : World N)
      → w.live ≡ p ∷ l
      → (answered_or_close lib (new_handle (some p) true true) op result w).1.live
        ≡ ended
            (λ bytes. p ∷ l)
            l
            (answered_or_close lib (new_handle (some p) true true) op result w).0
  unfolding answered_or_close op_failure close_handle new_handle close close_open free_all
  answered_or_close-live p l op none w h = (free_pointer-newest p l w h).0
  answered_or_close-live p l op (some bytes) w h = h

  answered_or_close-faults :
      (p : ℕ) (l : List ℕ) (op : Name) (result : Option Bytes) (w : World N)
      → w.live ≡ p ∷ l
      → (answered_or_close lib (new_handle (some p) true true) op result w).1.faults ≡ w.faults
  unfolding answered_or_close op_failure close_handle new_handle close close_open free_all
  answered_or_close-faults p l op none w h = (free_pointer-newest p l w h).1
  answered_or_close-faults p l op (some bytes) w h = refl

  pub attempt_or_close-Settles :
      (p : ℕ) (l : List ℕ) (op : Name) (call : Native N)
      → Sound (p ∷ l) call
      → Settles
          (p ∷ l)
          (λ bytes. p ∷ l)
          l
          (attempt_or_close lib (new_handle (some p) true true) op call)
  unfolding attempt_or_close
  attempt_or_close-Settles p l op call sound = record {
    live_after = λ w h. answered_or_close-live p l op (call w).0 (call w).1 (sound.live_kept w h);
    no_fault = λ w h.
        answered_or_close-faults p l op (call w).0 (call w).1 (sound.live_kept w h)
        ∙ sound.no_fault w h;
  }

  close_after-live :
      {A : Type 0} (p : ℕ) (l : List ℕ) (r : Result CoreError A) (w : World N)
      → w.live ≡ p ∷ l
      → (close_after lib (new_handle (some p) true true) r w).1.live
        ≡ ended (λ a. p ∷ l) l (close_after lib (new_handle (some p) true true) r w).0
  unfolding close_after close_handle new_handle close close_open free_all
  close_after-live p l (ok a) w h = h
  close_after-live p l (err e) w h = (free_pointer-newest p l w h).0

  close_after-faults :
      {A : Type 0} (p : ℕ) (l : List ℕ) (r : Result CoreError A) (w : World N)
      → w.live ≡ p ∷ l
      → (close_after lib (new_handle (some p) true true) r w).1.faults ≡ w.faults
  unfolding close_after close_handle new_handle close close_open free_all
  close_after-faults p l (ok a) w h = refl
  close_after-faults p l (err e) w h = (free_pointer-newest p l w h).1

  -- A step that leaves all pointers live, on whose failure the newest is freed.
  pub close_on_error-Settles :
      {A : Type 0} (p : ℕ) (l : List ℕ) (step : Action N A)
      → Settles (p ∷ l) (λ a. p ∷ l) (p ∷ l) step
      → Settles (p ∷ l) (λ a. p ∷ l) l (close_on_error lib (new_handle (some p) true true) step)
  unfolding close_on_error
  close_on_error-Settles {A = A} p l step s = record {
    live_after =
        λ w h. close_after-live p l (step w).0 (step w).1 (same (step w).0 (s.live_after w h));
    no_fault = λ w h.
        close_after-faults p l (step w).0 (step w).1 (same (step w).0 (s.live_after w h))
        ∙ s.no_fault w h;
  }
    where
      same : {x : List ℕ} (r : Result CoreError A) → x ≡ ended (λ a. p ∷ l) (p ∷ l) r → x ≡ p ∷ l
      same (ok a) h = h
      same (err e) h = h

  pub new_context-Settles : (l : List ℕ) (op : Name) → Settles l (λ p. p ∷ l) l (new_context lib op)
  unfolding pure new_context new_pointer returned granted op_failure
  new_context-Settles l op = record {
    live_after = λ w h. elim (Bool-cases (lib.allocate w.native_state).0) [
      | inl given ↦ rw (given, h)
      | inr refused ↦ rw (refused, h)
    ];
    no_fault = λ w h. elim (Bool-cases (lib.allocate w.native_state).0) [
      | inl given ↦ rw given
      | inr refused ↦ rw refused
    ];
  }

  -- A context for the time of one call is gone at its end.
  pub with_context-Settles :
      {A : Type 0} (l : List ℕ) (op : Name) (body : ℕ → Action N A)
      → ((p : ℕ) → Settles (p ∷ l) (λ a. p ∷ l) (p ∷ l) (body p))
      → Settles l (λ a. l) l (with_context lib op body)
  unfolding ◌>>=◌ with_context
  with_context-Settles l op body inside =
      >>=-Settles l (λ p. p ∷ l) (λ a. l) l (new_context lib op)
        (λ p w. let (r, w') = body p w in (r, free_pointer lib p w')) (new_context-Settles l op)
        (λ p. record {
          live_after = λ w h.
              ended-same l ((body p w).0) (free_pointer-newest p l (body p w).1 (newest p w h)).0;
          no_fault = λ w h.
              (free_pointer-newest p l (body p w).1 (newest p w h)).1 ∙ (inside p).no_fault w h;
        })
    where
      newest : (p : ℕ) (w : World N) → w.live ≡ p ∷ l → (body p w).1.live ≡ p ∷ l
      newest p w h = (inside p).live_after w h ∙ sym (ended-same (p ∷ l) (body p w).0 refl)
