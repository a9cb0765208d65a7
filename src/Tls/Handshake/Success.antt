-- ===== src/Tls/Handshake/Success.antt =====
-- What was seen by a handshake that returns no error.
use tongsuo_go.Base.{
  ◌≡◌, refl, sym, ap, subst, ◌∙◌, Option, none, some, Bool, true, false, not, if◌then◌else◌, Result,
  ok, err,
}
use tongsuo_go.Tls.State.{
  ConnectionState, RawState, Config, CaptureError, snapshot, run_callbacks, settled, capture_state,
}
use tongsuo_go.Tls.Handshake.{
  Attempt, Failure, Conn, Selected, finished, cancelled, finish, select_error, prefer_callback,
  failure_of, is_none, or_capture_error, conclude, attempt, once, handshake,
}
use tongsuo_go.Tls.Handshake.Complete.{fresh_conn}

not-false : (b : Bool) → not b ≡ false → b ≡ true
not-false true h = refl
not-false false h = absurd cc

module _ {E : Type 0} where
  -- The native handshake ended without an error before the context did, the context was alive to the
  -- end, and the callbacks accepted the snapshot that the connection keeps.
  pub record Succeeded (has_ssl : Bool) (a : Attempt E) (state : ConnectionState) : Type 0 where
    pub given : a.has_context ≡ true
    pub connected : has_ssl ≡ true
    pub native : a.selected ≡ finished none
    pub alive : a.context_at_end_of_native ≡ none
    pub alive_at_end : a.context_at_end ≡ none
    pub raw : RawState
    pub captured : a.raw_state ≡ ok raw
    pub accepted : run_callbacks true a.config (snapshot raw true) ≡ none
    pub kept : state ≡ snapshot raw true

  select_error-none :
      (context : Option E) (selected : Selected E)
      → select_error context selected ≡ none
      → (context ≡ none) × (selected ≡ finished none)
  unfolding select_error finish
  select_error-none none (finished none) h = (refl, refl)
  select_error-none none (finished (some e)) h = absurd cc
  select_error-none (some c) (finished native) h = absurd cc
  select_error-none context (cancelled e) h = absurd cc

  prefer_callback-none :
      (callback context : Option E) (failure : Option (Failure E))
      → prefer_callback callback context failure ≡ none
      → failure ≡ none
  unfolding prefer_callback
  prefer_callback-none callback context none h = refl
  prefer_callback-none none context (some f) h = absurd cc
  prefer_callback-none (some e) none (some f) h = absurd cc
  prefer_callback-none (some e) (some c) (some f) h = absurd cc

  or_capture_error-none :
      (failure : Option (Failure E)) (capture : Option (CaptureError E))
      → or_capture_error failure capture ≡ none
      → (failure ≡ none) × (capture ≡ none)
  unfolding or_capture_error
  or_capture_error-none none none h = (refl, refl)
  or_capture_error-none none (some e) h = absurd cc
  or_capture_error-none (some f) capture h = absurd cc

  settled-none :
      (state : ConnectionState) (callback : Option E)
      → (settled state callback).0 ≡ none
      → (callback ≡ none) × ((settled state callback).1 ≡ state)
  unfolding settled
  settled-none state none h = (refl, refl)
  settled-none state (some e) h = absurd cc

  capture_state-none :
      (result : Result E RawState) (cfg : Option (Config E)) (success : Bool)
      (stored : ConnectionState)
      → (capture_state result cfg success stored).0 ≡ none
      → (raw : RawState) × (result ≡ ok raw)
        × (run_callbacks success cfg (snapshot raw success) ≡ none)
        × ((capture_state result cfg success stored).1 ≡ snapshot raw success)
  unfolding capture_state
  capture_state-none (err e) cfg success stored h = absurd cc
  capture_state-none (ok raw) cfg success stored h =
      let (accepted, kept) = settled-none (snapshot raw success) _ h in (raw, refl, accepted, kept)

  conclude-none :
      (c : Conn E) (failure : Option (Failure E)) (context : Option E) (state : ConnectionState)
      → (conclude c failure context state).handshake_error ≡ none
      → (failure ≡ none) × (context ≡ none) × ((conclude c failure context state).state ≡ state)
  unfolding conclude
  conclude-none c none none state h = (refl, refl, refl)
  conclude-none c none (some e) state h = absurd cc
  conclude-none c (some f) context state h = absurd cc

  attempt-none :
      (has_ssl : Bool) (state : ConnectionState) (a : Attempt E)
      → a.has_context ≡ true
      → has_ssl ≡ true
      → (attempt (fresh_conn has_ssl state) a).handshake_error ≡ none
      → Succeeded has_ssl a (attempt (fresh_conn has_ssl state) a).state
  unfolding attempt failure_of
  attempt-none has_ssl state a given connected h =
      let (no_error, alive_at_end, stays) = conclude-none (fresh_conn has_ssl state) _ _ _ h in
      let (no_failure, no_capture) = or_capture_error-none (failure_of a) _ no_error in
      let (alive, native) =
        select_error-none a.context_at_end_of_native a.selected
          (prefer_callback-none a.callback_error a.context_at_callback _ no_failure) in
      let success : is_none (failure_of a) ≡ true = unfold is_none in ap is_none no_failure in
      let (raw, captured, accepted, kept) =
        capture_state-none a.raw_state a.config (is_none (failure_of a)) state no_capture in
      record {
        given = given;
        connected = connected;
        native = native;
        alive = alive;
        alive_at_end = alive_at_end;
        raw = raw;
        captured = captured;
        accepted = subst (λ b. run_callbacks b a.config (snapshot raw b) ≡ none) success accepted;
        kept = stays ∙ kept ∙ ap (snapshot raw) success;
      }

  -- A test of which the one branch ends with an error, when the end is none.
  other_branch :
      (test : Bool) (x y : Conn E) (f : Failure E)
      → x.handshake_error ≡ some f
      → (if test then x else y).handshake_error ≡ none
      → (test ≡ false) × (y.handshake_error ≡ none) × ((if test then x else y).state ≡ y.state)
  other_branch true x y f failed h = absurd cc
  other_branch false x y f failed h = (refl, h, refl)

  -- When the first handshake of a connection returns no error, it was given a context and an SSL
  -- object, the native handshake ended without an error before the context did, the context was
  -- alive then and at the end, the native state was read, the configured callbacks accepted its
  -- snapshot, and the connection keeps that snapshot as complete.
  pub handshake-Succeeded :
      (has_ssl : Bool) (state : ConnectionState) (a : Attempt E)
      → (handshake (fresh_conn has_ssl state) a).0 ≡ none
      → Succeeded has_ssl a (handshake (fresh_conn has_ssl state) a).1.state
  unfolding handshake once
  handshake-Succeeded has_ssl state a h =
      let (given, next, same) = other_branch (not a.has_context) _ _ _ refl h in
      let (connected, last, same') = other_branch (not has_ssl) _ _ _ refl next in
      subst (Succeeded has_ssl a) (sym (same ∙ same')) (
        attempt-none has_ssl state a (not-false a.has_context given) (not-false has_ssl connected)
          last)
