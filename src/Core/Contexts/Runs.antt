-- ===== src/Core/Contexts/Runs.antt =====
-- Contexts on a concrete library: its state is the number of calls that still succeed.
use tongsuo_go.Base.{
  ℕ, arith, zero, suc, ◌≡◌, refl, subst, [], ◌∷◌, Option, none, some, true, false,
}
use tongsuo_go.Base.Signed.{pos}
use tongsuo_go.Base.Dict.{empty, lookup, insert, delete, string_eq}
use tongsuo_go.Base.Positions as Positions
use tongsuo_go.Core.Handle.{new_handle, close, close_open, is_set}
use tongsuo_go.Core.World as W
use tongsuo_go.Core.World.{
  Bytes, Call, Library, World, error_text_of, op_error, raise_if, or_raise, require_open,
}
use tongsuo_go.Core.Native.{or_null, init_cipher, set_length}
use tongsuo_go.Core.Cipher as C
use tongsuo_go.Core.Cipher.Effects.{new_ccm_ctx-live}
use tongsuo_go.Core.Digest as D
use tongsuo_go.Core.Digest.Cache.{fetched_digest-again}
use tongsuo_go.Core.Contexts.{
  System, cipher_object, handle_of, added, replaced, make, change, run, cipher_call, update_call,
  cipher_made, cipher_called, cipher_cloned, cipher_closed, Reach, here, next,
}
use tongsuo_go.Core.Contexts.Invariant.{Balanced, closed_handle}
use tongsuo_go.Core.Contexts.Invariant.Reached.{Reach-Balanced}
use tongsuo_go.Core.Contexts.Abstract.{
  table_of, is_open, creation, apply_effect, effect_of, Step-refines,
}
use tongsuo_go.Core.Contexts.Answers.{error_in, subject_of, error_of, answer_of}
use tongsuo_go.Core.Contexts.Closed.{closed_for_ever}
use tongsuo_go.Core.Contexts.Counts.{count}
use tongsuo_go.Core.Contexts.Closing.{close_all, close_all-lem}

answer : Call → ℕ → Option Bytes × ℕ
answer call zero = (none, 0)
answer call (suc n) = (some (7 ∷ 8 ∷ []), n)

abbrev library : Library ℕ
library = record {
  allocate = λ n. (true, n);
  fetch = λ name n. (true, n);
  answer = answer;
  release = λ p n. n;
  pop_code = λ n. (42, n);
  error_text = λ code. "failed";
}

-- One static descriptor, and `n` calls that succeed.
abbrev world : ℕ → World ℕ
world n = record { native_state = n; next_pointer = 10; live = 5 ∷ []; faults = 0 }

abbrev sizes : C.Sizes
sizes = record { block_size_of = λ p. 1; key_length_of = λ p. 2; iv_length_of = λ p. 0 }

abbrev digest_sizes : D.DigestSizes
digest_sizes = record { size_of = λ p. 28; block_size_of = λ p. 144 }

abbrev cipher : Option C.Cipher
cipher = C.new_cipher sizes (some 5)

abbrev nonce : Bytes
nonce = 1 ∷ 2 ∷ 3 ∷ 4 ∷ 5 ∷ 6 ∷ 7 ∷ []

abbrev start : ℕ → System ℕ
start n = record { world = world n; objects = [] }

start-Balanced : (n : ℕ) → Balanced (5 ∷ []) (start n)
start-Balanced n = record { faultless = refl; contexts = tt; accounted = λ q. omega arith }

same_some : {A : Type 0} {x y : A} → ◌≡◌ {A = Option A} (some x) (some y) → x ≡ y
same_some h = cc

cipher-IsReady :
    (c : C.Cipher)
    → C.usable cipher ≡ some c
    → W.bad_pointers (5 ∷ []) (W.optional c.handle.ptr) ≡ 0
unfolding C.new_cipher C.usable C.describe new_handle
cipher-IsReady c now_open =
    subst (λ (x : C.Cipher). W.bad_pointers (5 ∷ []) (W.optional x.handle.ptr) ≡ 0)
      (same_some now_open) refl

abbrev made : System ℕ
made = make cipher_object (C.new_cipher_ctx library cipher (1 ∷ 2 ∷ []) [] true) (start 9)

abbrev context : C.CipherCtx
context = record {
  handle = new_handle (some 10) true true;
  cipher = record {
    handle = new_handle (some 5) false false;
    block_size = 1;
    key_size = 2;
    iv_size = 0;
  };
  enc = true;
  pad = true;
}

abbrev open_world : World ℕ
open_world = record { native_state = 9; next_pointer = 11; live = 10 ∷ 5 ∷ []; faults = 0 }

-- The key and the nonce are set, the length is refused: the context is freed.
new_ccm_ctx-live_example :
    let (r, w) = C.new_ccm_ctx library cipher (1 ∷ 2 ∷ []) nonce (pos 3) (pos 16) true (world 5) in
    (w.live ≡ 5 ∷ []) × (w.faults ≡ 0)
unfolding C.new_ccm_ctx C.new_cipher C.usable C.describe C.is_negative C.is_bad_tag_length
    C.set_ccm_length new_handle is_set close close_open or_raise raise_if W.◌>>=◌ W.◌>>◌ W.pure
    W.perform W.follows W.new_pointer W.returned W.granted W.new_context W.ignore W.attempt_or_close
    W.answered_or_close W.attempt W.answered W.op_failure W.close_on_error W.close_after
    W.close_handle W.free_all W.free_pointer or_null init_cipher set_length answer
new_ccm_ctx-live_example =
    new_ccm_ctx-live library cipher (1 ∷ 2 ∷ []) nonce (pos 3) (pos 16) true (world 5)
      cipher-IsReady

abbrev closed_context : C.CipherCtx
closed_context = record context { handle = closed_handle }

abbrev first_fetch : Option D.Digest × D.Cache × World ℕ
first_fetch = D.fetched_digest library digest_sizes (75 ∷ 69 ∷ []) empty (world 1)

fetched_digest-again_example :
    D.fetched_digest library digest_sizes (75 ∷ 69 ∷ []) first_fetch.1 first_fetch.2 ≡ (
      some (record { handle = new_handle (some 10) false false; size = 28; block = 144 }),
      first_fetch.1,
      first_fetch.2,
    )
unfolding D.fetched_digest D.store_fetched D.cached D.usable D.new_digest W.fetch_pointer W.returned
    new_handle lookup insert delete string_eq is_set
fetched_digest-again_example =
    fetched_digest-again library digest_sizes (75 ∷ 69 ∷ []) empty (world 1)
      (record { handle = new_handle (some 10) false false; size = 28; block = 144 }) refl

-- A context is made and used.
abbrev used : System ℕ
used = run (cipher_call library (update_call nonce) context) made

made-context : Positions.get_elem? made.objects 0 ≡ some (cipher_object context)
unfolding make added C.new_cipher_ctx C.new_cipher C.usable C.describe new_handle is_set or_raise
    raise_if W.◌>>=◌ W.◌>>◌ W.pure W.perform W.follows W.new_pointer W.returned W.granted
    W.new_context W.ignore W.attempt_or_close W.answered_or_close or_null init_cipher answer
made-context = refl

reached : Reach library (5 ∷ []) (start 9) used
reached =
    next (next here (cipher_made cipher (1 ∷ 2 ∷ []) [] true cipher-IsReady))
      (cipher_called 0 context (update_call nonce) made-context)

Reach-Balanced_example : Balanced (5 ∷ []) used
Reach-Balanced_example = Reach-Balanced library (5 ∷ []) (start 9) used (start-Balanced 9) reached

close_all-lem_example :
    ((close_all library used).world.faults ≡ 0)
    × ((q : ℕ) → count q (close_all library used).world.live ≡ count q (5 ∷ []))
close_all-lem_example = close_all-lem library (5 ∷ []) (start 9) used (start-Balanced 9) reached

Step-refines_example : table_of made.objects ≡ true ∷ []
unfolding table_of is_open handle_of make added C.new_cipher_ctx C.new_cipher C.usable C.describe
    new_handle is_set or_raise raise_if W.◌>>=◌ W.◌>>◌ W.pure W.perform W.follows W.new_pointer
    W.returned W.granted W.new_context W.ignore W.attempt_or_close W.answered_or_close or_null
    init_cipher answer effect_of creation apply_effect
Step-refines_example =
    Step-refines library (5 ∷ []) (start 9) made
      (cipher_made cipher (1 ∷ 2 ∷ []) [] true cipher-IsReady) (start-Balanced 9)

-- The context is closed.
abbrev shut : System ℕ
shut = change cipher_object 0 (C.close_ctx library context) made

made-Balanced : Balanced (5 ∷ []) made
made-Balanced =
    Reach-Balanced library (5 ∷ []) (start 9) made (start-Balanced 9)
      (next here (cipher_made cipher (1 ∷ 2 ∷ []) [] true cipher-IsReady))

shut-Balanced : Balanced (5 ∷ []) shut
shut-Balanced =
    Reach-Balanced library (5 ∷ []) made shut made-Balanced
      (next here (cipher_closed 0 context made-context))

shut-context : Positions.get_elem? shut.objects 0 ≡ some (cipher_object closed_context)
unfolding change replaced C.close_ctx W.close_handle W.free_all W.free_pointer W.pure close
    close_open make added C.new_cipher_ctx C.new_cipher C.usable C.describe new_handle is_set
    or_raise raise_if W.◌>>=◌ W.◌>>◌ W.perform W.follows W.new_pointer W.returned W.granted
    W.new_context W.ignore W.attempt_or_close W.answered_or_close or_null init_cipher answer
shut-context = refl

shut-marked : Positions.get_elem? (table_of shut.objects) 0 ≡ some false
unfolding table_of is_open handle_of change replaced C.close_ctx W.close_handle W.free_all
    W.free_pointer W.pure close close_open make added C.new_cipher_ctx C.new_cipher C.usable
    C.describe new_handle is_set or_raise raise_if W.◌>>=◌ W.◌>>◌ W.perform W.follows W.new_pointer
    W.returned W.granted W.new_context W.ignore W.attempt_or_close W.answered_or_close or_null
    init_cipher answer
shut-marked = refl

-- An update is refused.
abbrev tried : System ℕ
tried = run (cipher_call library (update_call nonce) closed_context) shut

closed_for_ever_example :
    (make cipher_object (C.clone library (some closed_context)) tried ≡ tried)
    × (error_in (C.clone library (some closed_context) tried.world).0
        ≡ some (error_text_of C.context_closed []))
unfolding run subject_of error_of answer_of
closed_for_ever_example =
    closed_for_ever library (5 ∷ []) shut tried
      (make cipher_object (C.clone library (some closed_context)) tried) 0
      (cipher_cloned 0 closed_context shut-context) shut-Balanced shut-marked
      (next here (cipher_called 0 closed_context (update_call nonce) shut-context)) refl
