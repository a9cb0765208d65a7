-- ===== src/Core/World/Guards.antt =====
-- The steps that constructors and methods are built of: guards, allocations and calls.
use tongsuo_go.Base.{
  ℕ, ◌≡◌, refl, List, [], ◌∷◌, Option, none, some, Bool, true, false, ◌==◌, arith, ==_refl,
  Bool-cases, err, inl, inr,
}
use tongsuo_go.Core.Handle.{Handle, new_handle}
use tongsuo_go.Core.World.{
  Name, Library, World, CoreError, error_text_of, Action, Native, Call, follows, perform,
  bad_pointer, bad_pointers, or_raise, raise_if, require_open, attempt, attempt_or_close, ◌>>=◌,
  ◌>>◌, pure,
}
use tongsuo_go.Core.World.Effects.{
  Settles, Sound, perform-Sound, >>=-Settles, raise-Settles, attempt-Settles,
  attempt_or_close-Settles,
}

-- The pointer that a handle holds.
abbrev pub held : Handle → List ℕ
held h = elim h.ptr [ none ↦ [] | some p ↦ p ∷ [] ]

weaken_one : (q : ℕ) (l : List ℕ) (p : Option ℕ) → bad_pointer l p ≡ 0 → bad_pointer (q ∷ l) p ≡ 0
weaken_one q l none h = h
weaken_one q l (some p) h = elim (Bool-cases (p == q)) [
  | inl newest ↦ rw newest
  | inr other ↦ rw other h
]

-- What is live stays so next to a new pointer.
pub weaken :
    (q : ℕ) (l : List ℕ) (ps : List (Option ℕ))
    → bad_pointers l ps ≡ 0
    → bad_pointers (q ∷ l) ps ≡ 0
weaken q l [] h = refl
weaken q l (p ∷ ps) h =
    let one = weaken_one q l p (omega arith) in
    let rest = weaken q l ps (omega arith) in omega arith

-- A call that follows a new pointer and others that are live.
pub newest_good :
    (q : ℕ) (l : List ℕ) (ps : List (Option ℕ))
    → bad_pointers l ps ≡ 0
    → bad_pointers (q ∷ l) (some q ∷ ps) ≡ 0
newest_good q l ps h = rw (==_refl q, weaken q l ps h)

-- The pointer of an open handle may be followed.
abbrev pub IsSafe : List ℕ → Handle → Type 0
IsSafe l h = h.closed ≡ false → bad_pointer l h.ptr ≡ 0

-- The step fails with that message and changes nothing.
abbrev pub Refuses : {N A : Type 0} → Name → World N → Action N A → Type 0
Refuses message w step = step w ≡ (err (error_text_of message []), w)

module _ {N : Type 0} where
  pub or_raise-Settles :
      {A B : Type 0} (l : List ℕ) (good : B → List ℕ) (o : Option A) (e : CoreError)
      (next : A → Action N B)
      → ((a : A) → o ≡ some a → Settles l good l (next a))
      → Settles l good l (or_raise o e >>= next)
  unfolding or_raise ◌>>=◌ pure
  or_raise-Settles l good none e next f = raise-Settles l good e
  or_raise-Settles l good (some a) e next f = f a refl

  -- After a guard that let the call pass.
  pub guarded :
      {B : Type 0} (l : List ℕ) (good : B → List ℕ) (test : Bool) (e : CoreError)
      (next : Action N B)
      → (test ≡ false → Settles l good l next)
      → Settles l good l (raise_if test e >> next)
  unfolding ◌>>◌ ◌>>=◌ raise_if
  guarded l good true e next s = raise-Settles l good e
  guarded l good false e next s = record {
    live_after = λ w h. (s refl).live_after w h;
    no_fault = λ w h. (s refl).no_fault w h;
  }

  pub >>-Settles :
      {A B : Type 0} (l : List ℕ) (good : A → List ℕ) (good' : B → List ℕ) (bad : List ℕ)
      (step : Action N A) (next : Action N B)
      → Settles l good bad step
      → ((a : A) → Settles (good a) good' bad next)
      → Settles l good' bad (step >> next)
  unfolding ◌>>◌
  >>-Settles l good good' bad step next s f = >>=-Settles l good good' bad step (λ a. next) s f

module _ {N : Type 0} (lib : Library N) where
  -- A step of a constructor, once its context `p` is there.
  pub owned_step :
      {B : Type 0} (p : ℕ) (l : List ℕ) (good : B → List ℕ) (op : Name) (call : Native N)
      (next : Action N B)
      → Sound (p ∷ l) call
      → Settles (p ∷ l) good l next
      → Settles
          (p ∷ l)
          good
          l
          (attempt_or_close lib (new_handle (some p) true true) op call >> next)
  unfolding ◌>>◌
  owned_step p l good op call next sound s =
      >>=-Settles (p ∷ l) (λ u. p ∷ l) good l _ _ (attempt_or_close-Settles lib p l op call sound)
        (λ u. s)

  -- A call that follows one pointer.
  pub single-Sound :
      (l : List ℕ) (p : Option ℕ) (call : Call)
      → follows call ≡ p ∷ []
      → bad_pointer l p ≡ 0
      → Sound l (perform lib call)
  single-Sound l p call one good = perform-Sound lib l call (rw one (omega arith))

  -- A method that follows the pointer of its handle.
  pub method-Settles :
      (l : List ℕ) (h : Handle) (message op : Name) (call : Native N)
      → (h.closed ≡ false → Sound l call)
      → Settles l (λ bytes. l) l (require_open h message >> attempt lib op call)
  unfolding require_open
  method-Settles l h message op call sound =
      guarded l (λ bytes. l) h.closed _ _
        (λ now_open. attempt-Settles lib l op call (sound now_open))
