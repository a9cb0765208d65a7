-- ===== src/Core/World.antt =====
-- The native library as internal/core calls it, and the actions of the methods: the state of the
-- library, the native objects that are allocated, and Go's error results. The library itself is C code
-- and a parameter. A pointer stands for the allocation that returned it, so that a freed one is never
-- given again.
pub mod Effects
pub mod Guards
use Prim.Native.String as NativeString
use tongsuo_go.Base.{
  ℕ, ◌+◌, List, [], ◌∷◌, ◌++◌, length, Option, none, some, Bool, true, false, if◌then◌else◌, ◌==◌,
  Result, ok, err,
}
use tongsuo_go.Base.Signed.{ℤ}
use tongsuo_go.Core.Handle.{Handle, close}

abbrev pub Bytes : Type 0
Bytes = List ℕ

abbrev pub Name : Type 0
Name = NativeString.String

-- What EVP_CIPHER_CTX_ctrl is asked for.
pub data Control : Type 0 where
  set_iv_len set_tag_len get_tag_bytes set_tag_bytes : Control

-- The calls of C functions, with their pointers (`none` for NULL), inputs and the room for the output.
pub data Call : Type 0 where
  ctx_set_flags : Option ℕ → Call
  cipher_init : Option ℕ → Option ℕ → Option Bytes → Option Bytes → Bool → Call
  ctx_ctrl : Option ℕ → Control → ℤ → Bytes → Call
  ctx_set_padding : Option ℕ → ℕ → Call
  ctx_copy : Option ℕ → Option ℕ → Call
  cipher_update : Bool → Option ℕ → Bytes → ℕ → Call
  cipher_final : Bool → Option ℕ → ℕ → Call
  cipher_aad : Bool → Option ℕ → Bytes → Call
  cipher_length : Bool → Option ℕ → ℤ → Call
  one_shot : Option ℕ → Bytes → ℕ → Call
  digest_init : Option ℕ → Option ℕ → Call
  digest_copy : Option ℕ → Option ℕ → Call
  digest_update : Option ℕ → Bytes → Call
  digest_final : Option ℕ → ℕ → Call
  digest_final_xof : Option ℕ → ℕ → Call

abbrev pub optional : Option ℕ → List (Option ℕ)
optional none = []
optional (some p) = some p ∷ []

-- The pointers that a call follows.
unfoldable pub follows : Call → List (Option ℕ)
follows (ctx_set_flags ctx) = ctx ∷ []
follows (cipher_init ctx cipher key iv enc) = ctx ∷ optional cipher
follows (ctx_ctrl ctx control n bytes) = ctx ∷ []
follows (ctx_set_padding ctx v) = ctx ∷ []
follows (ctx_copy dst src) = dst ∷ src ∷ []
follows (cipher_update enc ctx input room) = ctx ∷ []
follows (cipher_final enc ctx room) = ctx ∷ []
follows (cipher_aad enc ctx input) = ctx ∷ []
follows (cipher_length enc ctx n) = ctx ∷ []
follows (one_shot md input room) = md ∷ []
follows (digest_init ctx md) = ctx ∷ md ∷ []
follows (digest_copy dst src) = dst ∷ src ∷ []
follows (digest_update ctx input) = ctx ∷ []
follows (digest_final ctx room) = ctx ∷ []
follows (digest_final_xof ctx room) = ctx ∷ []

-- The C library on states of the type `N`: whether an allocation or the fetch
-- of an algorithm succeeds, the result of a call (`none`
-- for a failure, else the bytes it wrote), a release, and the queue of error codes with their texts.
pub record Library (N : Type 0) : Type 0 where
  pub allocate : N → Bool × N
  pub fetch : Bytes → N → Bool × N
  pub answer : Call → N → Option Bytes × N
  pub release : ℕ → N → N
  pub pop_code : N → ℕ × N
  pub error_text : ℕ → Name

-- `live` holds the pointers that may be followed, `faults` counts the pointers that a call followed or
-- freed though they were not live.
pub record World (N : Type 0) : Type 0 where
  pub native_state : N
  pub next_pointer : ℕ
  pub live : List ℕ
  pub faults : ℕ

-- The errors: of `fmt.Errorf`, with the numbers it prints, and `OpError`.
pub data CoreError : Type 0 where
  error_text_of : Name → List ℤ → CoreError
  op_error : Name → ℕ → Name → CoreError

abbrev pub contains : ℕ → List ℕ → Bool
contains p [] = false
contains p (q ∷ qs) = if p == q then true else contains p qs

abbrev pub remove : ℕ → List ℕ → List ℕ
remove p [] = []
remove p (q ∷ qs) = let rest = remove p qs in if p == q then qs else q ∷ rest

abbrev pub bad_pointer : List ℕ → Option ℕ → ℕ
bad_pointer live none = 1
bad_pointer live (some p) = if contains p live then 0 else 1

abbrev pub bad_pointers : List ℕ → List (Option ℕ) → ℕ
bad_pointers live [] = 0
bad_pointers live (p ∷ ps) = bad_pointer live p + bad_pointers live ps

-- A call of the library, with what it wrote.
abbrev pub Native : Type 0 → Type 0
Native N = World N → Option Bytes × World N

-- A method: it changes the world, and returns a value or an error.
abbrev pub Action : Type 0 → Type 0 → Type 0
Action N A = World N → Result CoreError A × World N

module _ {N A : Type 0} where
  unfoldable pub pure : A → Action N A
  pure a w = (ok a, w)

  abbrev pub raise : CoreError → Action N A
  raise e w = (err e, w)

-- `if err != nil { return nil, err }` after a step.
abbrev pub continue : {N A B : Type 0} → (A → Action N B) → Result CoreError A → Action N B
continue next (ok a) w = next a w
continue next (err e) w = (err e, w)

infixr 5 ◌>>=◌ ◌>>◌
unfoldable pub ◌>>=◌ : {N A B : Type 0} → Action N A → (A → Action N B) → Action N B
◌>>=◌ step next w = let (r, w') = step w in continue next r w'

unfoldable pub ◌>>◌ : {N A B : Type 0} → Action N A → Action N B → Action N B
step >> next = step >>= λ done. next

module _ {N : Type 0} (lib : Library N) where
  unfoldable pub perform : Call → Native N
  perform call w =
      let (result, state) = lib.answer call w.native_state in
      (
        result,
        record w { native_state = state; faults = w.faults + bad_pointers w.live (follows call) },
      )

  -- The pointer that the library returns, if it does.
  unfoldable pub returned : Bool → N → World N → Option ℕ × World N
  returned given state w =
      if given
      then (
        some w.next_pointer,
        record w {
          native_state = state;
          next_pointer = w.next_pointer + 1;
          live = w.next_pointer ∷ w.live;
        },
      )
      else (none, record w { native_state = state })

  -- EVP_CIPHER_CTX_new and EVP_MD_CTX_new.
  unfoldable pub new_pointer : World N → Option ℕ × World N
  new_pointer w = let (given, state) = lib.allocate w.native_state in returned given state w

  -- EVP_MD_fetch.
  unfoldable pub fetch_pointer : Bytes → World N → Option ℕ × World N
  fetch_pointer name w =
      let (given, state) = lib.fetch name w.native_state in returned given state w

  -- EVP_CIPHER_CTX_free and EVP_MD_CTX_free.
  unfoldable pub free_pointer : ℕ → World N → World N
  free_pointer p w = record w {
    native_state = lib.release p w.native_state;
    live = remove p w.live;
    faults = w.faults + bad_pointer w.live (some p);
  }

  unfoldable pub free_all : List ℕ → World N → World N
  free_all [] w = w
  free_all (p ∷ ps) w = free_all ps (free_pointer p w)

  -- `Handle.Close` with its call of `closeFunc`.
  unfoldable pub close_handle : Handle → World N → Handle × World N
  close_handle h w = let (h', freed) = close h in (h', free_all freed w)

  -- `return nil, NewOpError(op, native.PopError())`
  unfoldable pub op_failure : {A : Type 0} → Name → Action N A
  op_failure op w =
      let (code, state) = lib.pop_code w.native_state in
      (err (op_error op code (lib.error_text code)), record w { native_state = state })

  -- `if !native.F(…) { return nil, NewOpError(op, native.PopError()) }`
  unfoldable pub answered : Name → Option Bytes → Action N Bytes
  answered op none = op_failure op
  answered op (some bytes) = pure bytes

  unfoldable pub attempt : Name → Native N → Action N Bytes
  attempt op call w = let (result, w') = call w in answered op result w'

  -- `if !native.F(…) { _ = h.Close(); return nil, NewOpError(op, native.PopError()) }`
  unfoldable pub answered_or_close : Handle → Name → Option Bytes → Action N Bytes
  answered_or_close h op none w = let (h', w') = close_handle h w in op_failure op w'
  answered_or_close h op (some bytes) w = (ok bytes, w)

  unfoldable pub attempt_or_close : Handle → Name → Native N → Action N Bytes
  attempt_or_close h op call w = let (result, w') = call w in answered_or_close h op result w'

  -- `if err := F(…); err != nil { _ = h.Close(); return nil, err }`
  unfoldable pub close_after : {A : Type 0} → Handle → Result CoreError A → Action N A
  close_after h (ok a) w = (ok a, w)
  close_after h (err e) w = let (h', w') = close_handle h w in (err e, w')

  unfoldable pub close_on_error : {A : Type 0} → Handle → Action N A → Action N A
  close_on_error h step w = let (r, w') = step w in close_after h r w'

  -- A call whose result is not looked at.
  unfoldable pub ignore : Native N → Action N (Unit {0})
  ignore call w = let (result, w') = call w in (ok tt, w')

  -- `ctx := native.X_new(); if ctx == nil { return nil, NewOpError(op, native.PopError()) }`
  unfoldable pub granted : Name → Option ℕ → Action N ℕ
  granted op none = op_failure op
  granted op (some p) = pure p

  unfoldable pub new_context : Name → Action N ℕ
  new_context op w = let (p, w') = new_pointer w in granted op p w'

  -- The same, followed by `defer native.X_free(ctx)`.
  unfoldable pub with_context : {A : Type 0} → Name → (ℕ → Action N A) → Action N A
  with_context op body = new_context op >>= λ p w. let (r, w') = body p w in (r, free_pointer p w')

module _ {N A : Type 0} where
  unfoldable pub or_raise : Option A → CoreError → Action N A
  or_raise none e = raise e
  or_raise (some a) e = pure a

module _ {N : Type 0} where
  unfoldable pub raise_if : Bool → CoreError → Action N (Unit {0})
  raise_if test e w = (if test then err e else ok tt, w)

-- `if c.handle.IsClosed() { return errors.New(closed) }`
unfoldable pub require_open : {N : Type 0} → Handle → Name → Action N (Unit {0})
require_open h message = raise_if h.closed (error_text_of message [])
