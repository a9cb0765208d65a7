-- ===== src/Core/Digest.antt =====
-- The digest descriptors and contexts of internal/core/digest.go, and the cache of the fetched
-- descriptors. `d.handle` is never nil: `newDigest` always sets it.
pub mod Effects
pub mod Cache
use tongsuo_go.Base.{
  ℕ, List, [], ◌∷◌, length, Option, none, some, Bool, true, false, not, ◌&&◌, if◌then◌else◌, ltb,
}
use tongsuo_go.Base.Signed.{ℤ, pos, negsuc}
use tongsuo_go.Base.Dict.{Dict, lookup, insert, delete}
use tongsuo_go.Core.Handle.{Handle, new_handle}
use tongsuo_go.Core.World.{
  Bytes, Name, one_shot, digest_init, digest_copy, digest_update, digest_final, Library, World,
  CoreError, error_text_of, Action, pure, raise, ◌>>=◌, ◌>>◌, perform, fetch_pointer, free_pointer,
  close_handle, attempt, attempt_or_close, new_context, with_context, or_raise, raise_if,
  require_open,
}
use tongsuo_go.Core.Native.{final_xof}

pub record Digest : Type 0 where
  pub handle : Handle
  pub size : ℕ
  pub block : ℕ

pub record DigestCtx : Type 0 where
  pub handle : Handle
  pub digest : Digest

-- The sizes that the library reports for a descriptor.
pub record DigestSizes : Type 0 where
  pub size_of : ℕ → ℕ
  pub block_size_of : ℕ → ℕ

unfoldable pub new_digest : DigestSizes → Option ℕ → Option Digest
new_digest sizes none = none
new_digest sizes (some p) = some (record {
  handle = new_handle (some p) false false;
  size = sizes.size_of p;
  block = sizes.block_size_of p;
})

-- `d == nil || d.handle == nil || d.handle.IsClosed()`
unfoldable pub usable : Option Digest → Option Digest
usable none = none
usable (some d) = if d.handle.closed then none else some d

abbrev pub invalid_digest : CoreError
invalid_digest = error_text_of "digest: invalid digest" []

abbrev pub context_closed : Name
context_closed = "digest: context closed"

-- The length of an output: `none` unless it is positive.
unfoldable pub positive : ℤ → Option ℕ
positive (pos n) = if ltb 0 n then some n else none
positive (negsuc n) = none

-- `fetchedDigests`, a cache that lives as long as the process.
abbrev pub Cache : Type 0
Cache = Dict Digest

-- What the cache answers for a name: an entry that is open.
unfoldable pub cached : Bytes → Cache → Option Digest
cached name cache = usable (lookup name cache)

module _ {N : Type 0} (lib : Library N) where
  -- The part of `fetchedDigest` after EVP_MD_Fetch, by its result.
  unfoldable pub store_fetched :
      DigestSizes → Bytes → Cache → Option ℕ → World N → Option Digest × Cache × World N
  store_fetched sizes name cache none w = (none, cache, w)
  store_fetched sizes name cache (some md) w = elim (new_digest sizes (some md)) [
    | none ↦ (none, cache, free_pointer lib md w)
    | some d ↦ (some d, insert name d cache, w)
  ]

  unfoldable pub fetched_digest :
      DigestSizes → Bytes → Cache → World N → Option Digest × Cache × World N
  fetched_digest sizes name cache w = elim (cached name cache) [
    | some d ↦ (some d, cache, w)
    | none ↦
        let (md, w') = fetch_pointer lib name w in
        store_fetched sizes name (delete name cache) md w'
  ]

  unfoldable pub digest_one_shot : Option Digest → Bytes → Action N Bytes
  digest_one_shot digest input = or_raise (usable digest) invalid_digest >>= λ d.
      attempt lib "digest: EVP_Digest" (perform lib (one_shot d.handle.ptr input d.size))

  -- `len(data) > 0 && !native.EVP_DigestUpdate(ctx, data)`
  unfoldable pub update_unless_empty : ℕ → Bytes → Action N Bytes
  update_unless_empty ctx [] = pure []
  update_unless_empty ctx (b ∷ bs) =
      attempt lib "digest: EVP_DigestUpdate" (perform lib (digest_update (some ctx) (b ∷ bs)))

  unfoldable pub xof_one_shot : Option Digest → Bytes → ℤ → Action N Bytes
  xof_one_shot digest input out_len = or_raise (usable digest) invalid_digest >>= λ d.
      or_raise (positive out_len)
        (error_text_of "digest: invalid XOF output length %d" (out_len ∷ []))
      >>= λ n. with_context lib "digest: EVP_MD_CTX_new" (λ ctx.
        attempt lib "digest: EVP_DigestInit_ex" (perform lib (digest_init (some ctx) d.handle.ptr))
        >> update_unless_empty ctx input
        >> attempt lib "digest: EVP_DigestFinalXOF" (final_xof lib (some ctx) n))

  unfoldable pub new_digest_ctx : Option Digest → Action N DigestCtx
  new_digest_ctx digest = or_raise (usable digest) invalid_digest >>= λ d.
      new_context lib "digest: EVP_MD_CTX_new" >>= λ ctx.
      let h = new_handle (some ctx) true true in
      attempt_or_close lib h "digest: EVP_DigestInit_ex"
        (perform lib (digest_init (some ctx) d.handle.ptr))
      >> pure (record { handle = h; digest = d })

  unfoldable pub digest_write : DigestCtx → Bytes → Action N Bytes
  digest_write c input =
      require_open c.handle context_closed
      >> attempt lib "digest: EVP_DigestUpdate" (perform lib (digest_update c.handle.ptr input))

  unfoldable pub digest_sum : DigestCtx → Action N Bytes
  digest_sum c =
      require_open c.handle context_closed
      >> with_context lib "digest: EVP_MD_CTX_new" (λ ctx.
        attempt lib "digest: EVP_MD_CTX_copy_ex" (perform lib (digest_copy (some ctx) c.handle.ptr))
        >> attempt lib "digest: EVP_DigestFinal_ex"
            (perform lib (digest_final (some ctx) c.digest.size)))

  unfoldable pub digest_end : DigestCtx → Action N Bytes
  digest_end c =
      require_open c.handle context_closed
      >> attempt lib "digest: EVP_DigestFinal_ex"
          (perform lib (digest_final c.handle.ptr c.digest.size))

  unfoldable pub digest_reset : DigestCtx → Action N Bytes
  digest_reset c =
      require_open c.handle context_closed
      >> attempt lib "digest: EVP_DigestInit_ex(reset)"
          (perform lib (digest_init c.handle.ptr c.digest.handle.ptr))

  unfoldable pub close_digest_ctx : DigestCtx → Action N DigestCtx
  close_digest_ctx c w =
      let (h, w') = close_handle lib c.handle w in pure (record c { handle = h }) w'
