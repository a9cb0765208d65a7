-- ===== src/Tls/Handshake.antt =====
-- `Conn.HandshakeContext` of tls/tls.go, up to the classification of its error. What the call sees of the
-- context, the native handshake and the callbacks is an `Attempt`.
pub mod Complete
pub mod Success
use tongsuo_go.Base.{
  ℕ, Option, none, some, Bool, true, false, not, ◌&&◌, if◌then◌else◌, Result, ok, err,
}
use tongsuo_go.Tls.State.{ConnectionState, RawState, Config, CaptureError, capture_state}

-- Which case the select took: the end of the native handshake with its error, or the end of the
-- context with its reason.
pub data Selected (E : Type 0) : Type 0 where
  finished : Option E → Selected E
  cancelled : E → Selected E

-- `context_at_…` is `ctx.Err()` after the select took the native end, at the test of the callback
-- error, and at the end.
pub record Attempt (E : Type 0) : Type 0 where
  pub has_context : Bool
  pub selected : Selected E
  pub context_at_end_of_native : Option E
  pub callback_error : Option E
  pub context_at_callback : Option E
  pub raw_state : Result E RawState
  pub config : Option (Config E)
  pub context_at_end : Option E

pub data Failure (E : Type 0) : Type 0 where
  nil_context ssl_closed : Failure E
  context_error native_error callback_failed : E → Failure E
  capture_failed : CaptureError E → Failure E

pub record Conn (E : Type 0) : Type 0 where
  pub has_ssl : Bool
  pub once_done : Bool
  pub handshake_error : Option (Failure E)
  pub handshake_done : Bool
  pub state : ConnectionState

unfoldable pub is_none : {A : Type 0} → Option A → Bool
is_none none = true
is_none (some a) = false

module _ {E : Type 0} where
  -- The error after the select.
  unfoldable pub finish : Option E → Option E → Option (Failure E)
  finish (some e) native = some (context_error e)
  finish none none = none
  finish none (some e) = some (native_error e)

  unfoldable pub select_error : Option E → Selected E → Option (Failure E)
  select_error context (finished native) = finish context native
  select_error context (cancelled e) = some (context_error e)

  -- `if cbErr := c.ssl.CallbackError(); cbErr != nil && c.handshakeErr != nil && ctx.Err() == nil`
  unfoldable pub prefer_callback : Option E → Option E → Option (Failure E) → Option (Failure E)
  prefer_callback callback context none = none
  prefer_callback none context (some f) = some f
  prefer_callback (some e) none (some f) = some (callback_failed e)
  prefer_callback (some e) (some c) (some f) = some f

  -- The error before the snapshot is taken.
  unfoldable pub failure_of : Attempt E → Option (Failure E)
  failure_of a =
      prefer_callback a.callback_error a.context_at_callback
        (select_error a.context_at_end_of_native a.selected)

  -- `if stateErr := …; c.handshakeErr == nil { c.handshakeErr = stateErr }`
  unfoldable pub or_capture_error :
      Option (Failure E) → Option (CaptureError E) → Option (Failure E)
  or_capture_error (some f) capture = some f
  or_capture_error none none = none
  or_capture_error none (some e) = some (capture_failed e)

  -- The end of the function under `Once`: the last look at the context, and the mark of success.
  unfoldable pub conclude : Conn E → Option (Failure E) → Option E → ConnectionState → Conn E
  conclude c (some f) context state = record c {
    once_done = true;
    handshake_error = some f;
    state = state;
  }
  conclude c none (some e) state = record c {
    once_done = true;
    handshake_error = some (context_error e);
    state = record state { handshake_complete = false };
  }
  conclude c none none state = record c {
    once_done = true;
    handshake_error = none;
    handshake_done = true;
    state = state;
  }

  unfoldable pub attempt : Conn E → Attempt E → Conn E
  attempt c a =
      let failure = failure_of a in
      let (capture, state) = capture_state a.raw_state a.config (is_none failure) c.state in
      conclude c (or_capture_error failure capture) a.context_at_end state

  -- The function that `handshakeOnce.Do` runs.
  unfoldable pub once : Conn E → Attempt E → Conn E
  once c a =
      if not a.has_context
      then record c { once_done = true; handshake_error = some nil_context }
      else if c.handshake_done
      then record c { once_done = true }
      else if not c.has_ssl
      then record c { once_done = true; handshake_error = some ssl_closed }
      else attempt c a

  -- A call: the error it returns, and the connection.
  unfoldable pub handshake : Conn E → Attempt E → Option (Failure E) × Conn E
  handshake c a = let c' = if c.once_done then c else once c a in (c'.handshake_error, c')
