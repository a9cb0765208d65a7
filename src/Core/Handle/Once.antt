-- ===== src/Core/Handle/Once.antt =====
-- The native object is freed once.
use tongsuo_go.Base.{
  ℕ, List, [], ◌∷◌, ◌≡◌, refl, none, some, Bool, true, false, ◌&&◌, if◌then◌else◌, append-nil,
}
use tongsuo_go.Core.Handle.{
  Handle, is_set, new_handle, close_open, close, Event, close_call, collected, handle_event,
  handle_events,
}

abbrev pub closed_handle : Bool → Bool → Handle
closed_handle owned has_close_func = record {
  ptr = none;
  owned = owned;
  closed = true;
  has_close_func = has_close_func;
  has_finalizer = false;
}

stays_closed :
    (owned f : Bool) (es : List Event)
    → handle_events (closed_handle owned f) es ≡ (closed_handle owned f, [])
unfolding handle_events handle_event close
stays_closed owned f [] = refl
stays_closed owned f (close_call ∷ es) = rw (stays_closed owned f es)
stays_closed owned f (collected ∷ es) = rw (stays_closed owned f es)

-- After Close on a new handle of a pointer, and any events that follow, the handle is closed and
-- has no pointer, and the close function was called once with the pointer when the handle owns it
-- and has such a function, and otherwise never.
handle_events-close_call :
    (p : ℕ) (owned has_close_func : Bool) (es : List Event)
    → handle_events (new_handle (some p) owned has_close_func) (close_call ∷ es)
      ≡ (closed_handle owned has_close_func, if owned && has_close_func then p ∷ [] else [])
unfolding handle_events handle_event close close_open new_handle
handle_events-close_call p owned f es =
    rw (stays_closed owned f es, append-nil (if owned && f then p ∷ [] else []))

-- Of a handle that owns a pointer and has a close function, any nonempty sequence of Close calls
-- and collections frees the pointer exactly once and leaves the handle closed.
pub handle_events-owned :
    (p : ℕ) (e : Event) (es : List Event)
    → handle_events (new_handle (some p) true true) (e ∷ es) ≡ (closed_handle true true, p ∷ [])
unfolding handle_events handle_event close close_open new_handle is_set
handle_events-owned p close_call es = rw (stays_closed true true es)
handle_events-owned p collected es = rw (stays_closed true true es)
