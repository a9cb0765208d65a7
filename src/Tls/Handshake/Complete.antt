-- ===== src/Tls/Handshake/Complete.antt =====
-- What a connection says of its handshake, and what was seen when it says that it is complete.
use tongsuo_go.Base.{
  ◌≡◌, refl, sym, subst, ◌∙◌, List, [], ◌∷◌, Option, none, some, Bool, true, false, not, ◌&&◌,
  if◌then◌else◌, Result, ok, err, Bool-cases, inl, inr,
}
use tongsuo_go.Tls.State.{
  ConnectionState, RawState, VerificationError, Config, CaptureError, negotiated,
  verification_failures, judged, snapshot, run_callbacks, settled, capture_state, is_nonempty,
}
use tongsuo_go.Tls.Handshake.{
  Attempt, Failure, Conn, failure_of, is_none, or_capture_error, conclude, attempt, once, handshake,
}

choose : {A : Type 0} (P : A → Type 0) (b : Bool) (x y : A) → P x → P y → P (if b then x else y)
choose P true x y h k = h
choose P false x y h k = k

choose_true :
    {A B : Type 0} (f : A → B) (b : Bool) (x y : A) → b ≡ true → f (if b then x else y) ≡ f x
choose_true f true x y h = refl
choose_true f false x y h = absurd cc

and_true : (b : Bool) → b ≡ (b && true)
and_true true = refl
and_true false = refl

and_false : (b : Bool) → false ≡ (b && false)
and_false true = refl
and_false false = refl

judged_complete :
    (raw : RawState) (success : Bool) (state : ConnectionState) (es : List VerificationError)
    → (judged raw success state es).handshake_complete ≡ state.handshake_complete
unfolding judged
judged_complete raw success state (e ∷ es) = refl
judged_complete raw success state [] =
    elim (Bool-cases (success && is_nonempty raw.verified_chain)) [
      | inl trusted ↦ rw trusted
      | inr other ↦ rw other
    ]

snapshot_complete :
    (raw : RawState) (success : Bool) → (snapshot raw success).handshake_complete ≡ success
unfolding snapshot negotiated
snapshot_complete raw success =
    elim (Bool-cases
      (raw.verify_enabled && raw.verification_performed && is_nonempty raw.peer_certificates)) [
        | inl checked ↦
            rw checked
              (judged_complete raw success (negotiated raw success) (verification_failures raw))
        | inr other ↦ rw other
      ]

module _ {E : Type 0} where
  settled_complete :
      (state : ConnectionState) (callback : Option E)
      → (settled state callback).1.handshake_complete
        ≡ (state.handshake_complete && is_none (settled state callback).0)
  unfolding settled is_none
  settled_complete state none = and_true state.handshake_complete
  settled_complete state (some e) = and_false state.handshake_complete

  -- A stored state that is not complete.
  capture_complete :
      (raw : Result E RawState) (cfg : Option (Config E)) (success : Bool)
      (stored : ConnectionState)
      → stored.handshake_complete ≡ false
      → (capture_state raw cfg success stored).1.handshake_complete
        ≡ (success && is_none (capture_state raw cfg success stored).0)
  unfolding capture_state is_none
  capture_complete (err e) cfg success stored fresh = fresh ∙ and_false success
  capture_complete (ok raw) cfg success stored fresh =
      subst
        (λ b.
          (capture_state (ok raw) cfg success stored).1.handshake_complete
          ≡ (b && is_none (capture_state (ok raw) cfg success stored).0))
        (snapshot_complete raw success)
        (settled_complete (snapshot raw success) (run_callbacks success cfg (snapshot raw success)))

  or_capture_error-none :
      (failure : Option (Failure E)) (capture : Option (CaptureError E))
      → is_none (or_capture_error failure capture) ≡ (is_none failure && is_none capture)
  unfolding or_capture_error is_none
  or_capture_error-none none none = refl
  or_capture_error-none none (some e) = refl
  or_capture_error-none (some f) capture = refl

  -- The error, the mark of success and the snapshot of a connection agree.
  pub record Agrees (c : Conn E) : Type 0 where
    pub done : c.handshake_done ≡ is_none c.handshake_error
    pub complete : c.state.handshake_complete ≡ is_none c.handshake_error
    pub over : c.once_done ≡ true

  conclude-Agrees :
      (c : Conn E) (failure : Option (Failure E)) (context : Option E) (state : ConnectionState)
      → c.handshake_done ≡ false
      → state.handshake_complete ≡ is_none failure
      → Agrees (conclude c failure context state)
  unfolding conclude is_none
  conclude-Agrees c (some f) context state fresh h = record {
    done = fresh;
    complete = h;
    over = refl;
  }
  conclude-Agrees c none (some e) state fresh h = record {
    done = fresh;
    complete = refl;
    over = refl;
  }
  conclude-Agrees c none none state fresh h = record { done = refl; complete = h; over = refl }

  attempt-Agrees :
      (c : Conn E) (a : Attempt E)
      → c.handshake_done ≡ false
      → c.state.handshake_complete ≡ false
      → Agrees (attempt c a)
  unfolding attempt
  attempt-Agrees c a fresh empty =
      let failure = failure_of a in
      let (capture, state) = capture_state a.raw_state a.config (is_none failure) c.state in
      conclude-Agrees c (or_capture_error failure capture) a.context_at_end state fresh (
        capture_complete a.raw_state a.config (is_none failure) c.state empty
        ∙ sym (or_capture_error-none failure capture))

  -- A connection before its handshake.
  abbrev pub fresh_conn : Bool → ConnectionState → Conn E
  fresh_conn has_ssl state = record {
    has_ssl = has_ssl;
    once_done = false;
    handshake_error = none;
    handshake_done = false;
    state = state;
  }

  pub once-Agrees :
      (has_ssl : Bool) (state : ConnectionState) (a : Attempt E)
      → state.handshake_complete ≡ false
      → Agrees (once (fresh_conn has_ssl state) a)
  unfolding once is_none
  once-Agrees has_ssl state a empty =
      choose Agrees (not a.has_context) _ _ (record { done = refl; complete = empty; over = refl })
        (choose Agrees (not has_ssl) _ _ (record { done = refl; complete = empty; over = refl })
          (attempt-Agrees (fresh_conn has_ssl state) a refl empty))

  -- After the first handshake of a connection whose stored state is not complete, the mark of
  -- success is set and the stored state is complete exactly when it returned no error, and every
  -- later handshake returns the same error and changes nothing.
  pub handshake-Agrees :
      (has_ssl : Bool) (state : ConnectionState) (a b : Attempt E)
      → state.handshake_complete ≡ false
      → let (failure, c) = handshake (fresh_conn has_ssl state) a in
        (c.handshake_done ≡ is_none failure)
        × (c.state.handshake_complete ≡ is_none failure)
        × (handshake c b ≡ (failure, c))
  unfolding handshake
  handshake-Agrees has_ssl state a b empty =
      let agreed = once-Agrees has_ssl state a empty in
      (agreed.done, agreed.complete, again (once (fresh_conn has_ssl state) a) agreed.over)
    where
      again : (c : Conn E) → c.once_done ≡ true → handshake c b ≡ (c.handshake_error, c)
      again c over = choose_true (λ c'. (c'.handshake_error, c')) c.once_done c (once c b) over
