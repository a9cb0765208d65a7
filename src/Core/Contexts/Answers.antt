-- ===== src/Core/Contexts/Answers.antt =====
-- What a call of the program is on, and the error that it returns.
use tongsuo_go.Base.{ℕ, List, [], Option, none, some, Result, ok, err}
use tongsuo_go.Core.World.{Library, CoreError, error_text_of}
use tongsuo_go.Core.Cipher.{
  context_closed, new_cipher_ctx, new_gcm_ctx, new_ccm_ctx, clone, set_padding, close_ctx,
}
use tongsuo_go.Core.Digest as D
use tongsuo_go.Core.Contexts.{
  System, cipher_call, digest_call, Step, cipher_made, gcm_made, ccm_made, cipher_cloned,
  digest_made, cipher_called, digest_called, padding_set, cipher_closed, digest_closed,
  digest_computed, xof_computed,
}

unfoldable pub error_in : {A : Type 0} → Result CoreError A → Option CoreError
error_in (ok a) = none
error_in (err e) = some e

-- The context that a call is on, if any.
unfoldable pub subject_of :
    {N : Type 0} (lib : Library N) (static : List ℕ) (s t : System N)
    → Step lib static s t
    → Option ℕ
subject_of lib static s t (cipher_made cipher key iv enc ready) = none
subject_of lib static s t (gcm_made cipher key nonce enc ready) = none
subject_of lib static s t (ccm_made cipher key nonce size tag_len enc ready) = none
subject_of lib static s t (cipher_cloned i c at_i) = some i
subject_of lib static s t (digest_made digest ready) = none
subject_of lib static s t (cipher_called i c call at_i) = some i
subject_of lib static s t (digest_called i c call at_i) = some i
subject_of lib static s t (padding_set i c pad at_i) = some i
subject_of lib static s t (cipher_closed i c at_i) = some i
subject_of lib static s t (digest_closed i c at_i) = some i
subject_of lib static s t (digest_computed digest input ready) = none
subject_of lib static s t (xof_computed digest input out_len ready) = none

-- The error that a call returns.
unfoldable pub error_of :
    {N : Type 0} (lib : Library N) (static : List ℕ) (s t : System N)
    → Step lib static s t
    → Option CoreError
error_of lib static s t (cipher_made cipher key iv enc ready) =
    error_in (new_cipher_ctx lib cipher key iv enc s.world).0
error_of lib static s t (gcm_made cipher key nonce enc ready) =
    error_in (new_gcm_ctx lib cipher key nonce enc s.world).0
error_of lib static s t (ccm_made cipher key nonce size tag_len enc ready) =
    error_in (new_ccm_ctx lib cipher key nonce size tag_len enc s.world).0
error_of lib static s t (cipher_cloned i c at_i) = error_in (clone lib (some c) s.world).0
error_of lib static s t (digest_made digest ready) =
    error_in (D.new_digest_ctx lib digest s.world).0
error_of lib static s t (cipher_called i c call at_i) = error_in (cipher_call lib call c s.world).0
error_of lib static s t (digest_called i c call at_i) = error_in (digest_call lib call c s.world).0
error_of lib static s t (padding_set i c pad at_i) = error_in (set_padding lib c pad s.world).0
error_of lib static s t (cipher_closed i c at_i) = error_in (close_ctx lib c s.world).0
error_of lib static s t (digest_closed i c at_i) = error_in (D.close_digest_ctx lib c s.world).0
error_of lib static s t (digest_computed digest input ready) =
    error_in (D.digest_one_shot lib digest input s.world).0
error_of lib static s t (xof_computed digest input out_len ready) =
    error_in (D.xof_one_shot lib digest input out_len s.world).0

-- What a closed context answers: Close succeeds, and all else is refused.
unfoldable pub answer_of :
    {N : Type 0} (lib : Library N) (static : List ℕ) (s t : System N)
    → Step lib static s t
    → Option CoreError
answer_of lib static s t (cipher_closed i c at_i) = none
answer_of lib static s t (digest_closed i c at_i) = none
answer_of lib static s t (digest_called i c call at_i) = some (error_text_of D.context_closed [])
answer_of lib static s t call = some (error_text_of context_closed [])
