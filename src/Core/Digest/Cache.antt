-- ===== src/Core/Digest/Cache.antt =====
-- The cache of fetched digests.
use tongsuo_go.Base.{ℕ, ◌≡◌, ap, ◌∙◌, Option, none, some, Option-cases, inl, inr}
use tongsuo_go.Base.Dict.{delete, lookup-insert}
use tongsuo_go.Core.Handle.{new_handle}
use tongsuo_go.Core.World.{Bytes, Library, World, fetch_pointer}
use tongsuo_go.Core.Digest.{
  Digest, DigestSizes, Cache, new_digest, usable, cached, store_fetched, fetched_digest,
}

module _ {N : Type 0} (lib : Library N) (sizes : DigestSizes) where
  -- A found entry is returned as it is.
  found-again :
      (name : Bytes) (cache : Cache) (d : Digest) (w : World N)
      → cached name cache ≡ some d
      → fetched_digest lib sizes name cache w ≡ (some d, cache, w)
  unfolding fetched_digest
  found-again name cache d w found = rw (fetched_digest, found)

  -- What was stored is found.
  stored :
      (name : Bytes) (cache : Cache) (md : Option ℕ) (w : World N) (d : Digest)
      → (store_fetched lib sizes name cache md w).0 ≡ some d
      → cached name (store_fetched lib sizes name cache md w).1 ≡ some d
  unfolding store_fetched cached usable new_digest new_handle
  stored name cache none w d got = absurd cc
  stored name cache (some md) w d got = ap usable (lookup-insert name _ cache) ∙ got

  fetched-cached :
      (name : Bytes) (cache : Cache) (w : World N) (d : Digest)
      → (fetched_digest lib sizes name cache w).0 ≡ some d
      → cached name (fetched_digest lib sizes name cache w).1 ≡ some d
  unfolding fetched_digest
  fetched-cached name cache w d got = elim (Option-cases (cached name cache)) [
    | inl missing ↦
        let fetched = fetch_pointer lib name w in
        rw (fetched_digest, missing)
          (stored name (delete name cache) fetched.0 fetched.1 d
            (rw (fetched_digest, missing) at got))
    | inr (e, found) ↦ rw (fetched_digest, found) (found ∙ (rw (fetched_digest, found) at got))
  ]

  -- When fetched_digest returns a digest for a name, a second call with that name returns the same
  -- digest from the cache, and changes neither the cache nor the native library.
  pub fetched_digest-again :
      (name : Bytes) (cache : Cache) (w : World N) (d : Digest)
      → (fetched_digest lib sizes name cache w).0 ≡ some d
      → let (r, cache', w') = fetched_digest lib sizes name cache w in
        fetched_digest lib sizes name cache' w' ≡ (some d, cache', w')
  fetched_digest-again name cache w d got =
      let after = fetched_digest lib sizes name cache w in
      found-again name after.1 d after.2 (fetched-cached name cache w d got)
