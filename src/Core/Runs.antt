-- ===== src/Core/Runs.antt =====
-- The theorems at concrete inputs.
use tongsuo_go.Base.{[], ◌∷◌, ◌≡◌, some, true}
use tongsuo_go.Core.Handle.{new_handle, close_call, collected, handle_events}
use tongsuo_go.Core.Handle.Once.{closed_handle, handle_events-owned}

handle_events-owned_example :
    handle_events (new_handle (some 7) true true) (collected ∷ close_call ∷ [])
    ≡ (closed_handle true true, 7 ∷ [])
handle_events-owned_example = handle_events-owned 7 collected (close_call ∷ [])
