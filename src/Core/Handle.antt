-- ===== src/Core/Handle.antt =====
-- `Handle` of internal/core/handle.go. A method holds the handle's lock, so that calls from several
-- goroutines are a sequence of events. `close` returns the handle and the pointers that `closeFunc` was
-- called with.
pub mod Once
use tongsuo_go.Base.{
  ℕ, List, [], ◌∷◌, ◌++◌, Option, none, some, Bool, true, false, ◌&&◌, if◌then◌else◌,
}

-- `has_close_func` tells whether `closeFunc` is not nil, `has_finalizer` whether `runtime.SetFinalizer`
-- registered the handle.
pub record Handle : Type 0 where
  pub ptr : Option ℕ
  pub owned : Bool
  pub closed : Bool
  pub has_close_func : Bool
  pub has_finalizer : Bool

unfoldable pub is_set : Option ℕ → Bool
is_set none = false
is_set (some p) = true

unfoldable pub new_handle : Option ℕ → Bool → Bool → Handle
new_handle ptr owned has_close_func = record {
  ptr = ptr;
  owned = owned;
  closed = false;
  has_close_func = has_close_func;
  has_finalizer = owned && is_set ptr;
}

unfoldable pub close_open : Handle → Option ℕ → Handle × List ℕ
close_open h none = (h, [])
close_open h (some p) = (
  record h { ptr = none; closed = true; has_finalizer = false },
  if h.owned && h.has_close_func then p ∷ [] else [],
)

unfoldable pub close : Handle → Handle × List ℕ
close h = if h.closed then (h, []) else close_open h h.ptr

-- A call of `Close`, or the garbage collector at a handle that is not reachable any more.
pub data Event : Type 0 where
  close_call collected : Event

unfoldable pub handle_event : Handle → Event → Handle × List ℕ
handle_event h close_call = close h
handle_event h collected = if h.has_finalizer then close h else (h, [])

-- A sequence of events, and all calls of `closeFunc` in their order.
unfoldable pub handle_events : Handle → List Event → Handle × List ℕ
handle_events h [] = (h, [])
handle_events h (e ∷ es) =
    let (h', freed) = handle_event h e in
    let (h'', more) = handle_events h' es in (h'', freed ++ more)
