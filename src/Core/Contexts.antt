-- ===== src/Core/Contexts.antt =====
-- The cipher and digest contexts of internal/core that are in use at a time, and the calls on them as
-- steps. A context is named by its position among all that were ever made. The garbage collector's
-- call of `finalize` is the step of Close.
pub mod Counts
pub mod Invariant
pub mod Abstract
pub mod Closing
pub mod Answers
pub mod Refused
pub mod Closed
mod Runs
use tongsuo_go.Base.{ℕ, ◌≡◌, List, [], ◌∷◌, ◌++◌, Option, none, some, Bool, Result, ok, err}
use tongsuo_go.Base.Signed.{ℤ}
use tongsuo_go.Base.Positions.{get_elem?, set}
use tongsuo_go.Core.Handle.{Handle}
use tongsuo_go.Core.World.{Bytes, Library, World, CoreError, Action, bad_pointer}
use tongsuo_go.Core.Cipher.{
  Cipher, CipherCtx, new_cipher_ctx, new_gcm_ctx, new_ccm_ctx, clone, set_padding, update, final,
  encrypt_all, decrypt_all, set_iv_length, set_aad, get_tag, set_tag, close_ctx,
}
use tongsuo_go.Core.Cipher.Effects.{IsReady}
use tongsuo_go.Core.Digest as D
use tongsuo_go.Core.Digest.Effects as E

pub data Object : Type 0 where
  cipher_object : CipherCtx → Object
  digest_object : D.DigestCtx → Object

unfoldable pub handle_of : Object → Handle
handle_of (cipher_object c) = c.handle
handle_of (digest_object c) = c.handle

pub record System (N : Type 0) : Type 0 where
  pub world : World N
  pub objects : List Object

-- The methods that return bytes or only an error.
pub data CipherCall : Type 0 where
  update_call encrypt_all_call decrypt_all_call set_aad_call get_tag_call set_tag_call :
      Bytes → CipherCall
  final_call : CipherCall
  set_iv_length_call : ℤ → CipherCall

pub data DigestCall : Type 0 where
  write_call : Bytes → DigestCall
  sum_call end_call reset_call : DigestCall

module _ {N : Type 0} (lib : Library N) where
  unfoldable pub cipher_call : CipherCall → CipherCtx → Action N Bytes
  cipher_call (update_call input) c = update lib c input
  cipher_call (encrypt_all_call input) c = encrypt_all lib c input
  cipher_call (decrypt_all_call input) c = decrypt_all lib c input
  cipher_call (set_aad_call aad) c = set_aad lib c aad
  cipher_call (get_tag_call tag) c = get_tag lib c tag
  cipher_call (set_tag_call tag) c = set_tag lib c tag
  cipher_call final_call c = final lib c
  cipher_call (set_iv_length_call n) c = set_iv_length lib c n

  unfoldable pub digest_call : DigestCall → D.DigestCtx → Action N Bytes
  digest_call (write_call input) c = D.digest_write lib c input
  digest_call sum_call c = D.digest_sum lib c
  digest_call end_call c = D.digest_end lib c
  digest_call reset_call c = D.digest_reset lib c

-- The system after a call: its world, and its contexts with a new one or a changed one.
unfoldable pub added :
    {N A : Type 0} → (A → Object) → List Object → Result CoreError A → World N → System N
added object objects (ok a) w = record { world = w; objects = objects ++ object a ∷ [] }
added object objects (err e) w = record { world = w; objects = objects }

unfoldable pub replaced :
    {N A : Type 0} → (A → Object) → ℕ → List Object → Result CoreError A → World N → System N
replaced object i objects (ok a) w = record { world = w; objects = set objects i (object a) }
replaced object i objects (err e) w = record { world = w; objects = objects }

module _ {N : Type 0} where
  unfoldable pub make : {A : Type 0} → (A → Object) → Action N A → System N → System N
  make object step s = let (r, w) = step s.world in added object s.objects r w

  unfoldable pub change : {A : Type 0} → (A → Object) → ℕ → Action N A → System N → System N
  change object i step s = let (r, w) = step s.world in replaced object i s.objects r w

  unfoldable pub run : {A : Type 0} → Action N A → System N → System N
  run step s = let (r, w) = step s.world in record s { world = w }

module _ {N : Type 0} (lib : Library N) where
  -- One call of the program. The descriptors it passes are among `static`, which the library owns.
  pub data Step (static : List ℕ) (s : System N) : System N → Type 0 where
    cipher_made :
        (cipher : Option Cipher) (key iv : Bytes) (enc : Bool)
        → IsReady static cipher
        → Step static s (make cipher_object (new_cipher_ctx lib cipher key iv enc) s)
    gcm_made :
        (cipher : Option Cipher) (key nonce : Bytes) (enc : Bool)
        → IsReady static cipher
        → Step static s (make cipher_object (new_gcm_ctx lib cipher key nonce enc) s)
    ccm_made :
        (cipher : Option Cipher) (key nonce : Bytes) (plaintext_len tag_len : ℤ) (enc : Bool)
        → IsReady static cipher
        → Step static s
            (make cipher_object (new_ccm_ctx lib cipher key nonce plaintext_len tag_len enc) s)
    cipher_cloned :
        (i : ℕ) (c : CipherCtx)
        → get_elem? s.objects i ≡ some (cipher_object c)
        → Step static s (make cipher_object (clone lib (some c)) s)
    digest_made :
        (digest : Option D.Digest)
        → E.IsReady static digest
        → Step static s (make digest_object (D.new_digest_ctx lib digest) s)
    cipher_called :
        (i : ℕ) (c : CipherCtx) (call : CipherCall)
        → get_elem? s.objects i ≡ some (cipher_object c)
        → Step static s (run (cipher_call lib call c) s)
    digest_called :
        (i : ℕ) (c : D.DigestCtx) (call : DigestCall)
        → get_elem? s.objects i ≡ some (digest_object c)
        → Step static s (run (digest_call lib call c) s)
    padding_set :
        (i : ℕ) (c : CipherCtx) (pad : Bool)
        → get_elem? s.objects i ≡ some (cipher_object c)
        → Step static s (change cipher_object i (set_padding lib c pad) s)
    cipher_closed :
        (i : ℕ) (c : CipherCtx)
        → get_elem? s.objects i ≡ some (cipher_object c)
        → Step static s (change cipher_object i (close_ctx lib c) s)
    digest_closed :
        (i : ℕ) (c : D.DigestCtx)
        → get_elem? s.objects i ≡ some (digest_object c)
        → Step static s (change digest_object i (D.close_digest_ctx lib c) s)
    digest_computed :
        (digest : Option D.Digest) (input : Bytes)
        → E.IsReady static digest
        → Step static s (run (D.digest_one_shot lib digest input) s)
    xof_computed :
        (digest : Option D.Digest) (input : Bytes) (out_len : ℤ)
        → E.IsReady static digest
        → Step static s (run (D.xof_one_shot lib digest input out_len) s)

  pub data Reach (static : List ℕ) (s : System N) : System N → Type 0 where
    here : Reach static s s
    next : {t u : System N} → Reach static s t → Step static t u → Reach static s u
