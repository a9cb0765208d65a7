-- ===== src/Keystore/Runs.antt =====
-- A store with two versions of one key, and the theorems at it. A key is a number here, and every key
-- has the same algorithm.
use tongsuo_go.Base.{ℕ, [], ◌∷◌, ◌++◌, ◌≡◌, refl, none, some, ok}
use tongsuo_go.Base.Dict.{String, string_eq, empty, entry, lookup, insert}
use tongsuo_go.Keystore.Store.{
  Handle, Store, set, is_blank, history_of, archive, new_memory_store, get, algorithm_name,
  fill_algorithm, put_handle, put, next_version, rotate_live, rotate, history,
}
use tongsuo_go.Keystore.Versions.{
  put-archives_live, Supersedes, put-Supersedes, Rotated, rotate-Rotated,
}
use tongsuo_go.Keystore.Steps.{put_step, rotate_step, Reach, here, next, Extends, Reach-Extends}
use tongsuo_go.Keystore.Invariant.{IsValid, Reach-IsValid}

abbrev sm2 : ℕ → String
sm2 k = 83 ∷ 77 ∷ 50 ∷ []

abbrev first : Handle ℕ ℕ ℕ
first = record {
  id = 107 ∷ [];
  alias = [];
  algorithm = [];
  version = 1;
  generation = 0;
  created_at = 5;
  key = some 11;
  decoder = none;
}

abbrev start : Store ℕ ℕ ℕ
start = record { heap = first ∷ []; keys = empty; hist = empty }

abbrev stored : Store ℕ ℕ ℕ
stored = record {
  heap = record first { algorithm = 83 ∷ 77 ∷ 50 ∷ [] } ∷ [];
  keys = entry (107 ∷ []) 0 empty;
  hist = empty;
}

abbrev second : Handle ℕ ℕ ℕ
second = record first { algorithm = 83 ∷ 77 ∷ 50 ∷ []; version = 2; created_at = 9; key = some 12 }

abbrev rotated : Store ℕ ℕ ℕ
rotated = record {
  heap = record first { algorithm = 83 ∷ 77 ∷ 50 ∷ [] } ∷ second ∷ [];
  keys = entry (107 ∷ []) 1 empty;
  hist = entry (107 ∷ []) (0 ∷ []) empty;
}

put_run : put sm2 start (some 0) ≡ ok stored
unfolding put put_handle is_blank fill_algorithm algorithm_name insert lookup archive
put_run = refl

rotate_run : rotate sm2 stored (107 ∷ []) (some 12) 9 ≡ ok (1, rotated)
unfolding rotate rotate_live next_version algorithm_name insert lookup string_eq history_of
rotate_run = refl

abbrev stored_twice : Store ℕ ℕ ℕ
stored_twice = record stored { hist = entry (107 ∷ []) (0 ∷ []) empty }

put_again_run : put sm2 stored (some 0) ≡ ok stored_twice
unfolding put put_handle is_blank fill_algorithm algorithm_name insert lookup archive string_eq
    history_of
put_again_run = refl

get_run : get stored (107 ∷ []) ≡ ok 0
unfolding get lookup string_eq
get_run = refl

steps : Reach sm2 start rotated
steps =
    next (next here (put_step start stored (some 0) put_run))
      (rotate_step stored rotated (107 ∷ []) (some 12) 9 1 rotate_run)

steps_from_new : Reach sm2 (new_memory_store (first ∷ [])) rotated
unfolding new_memory_store
steps_from_new = steps

put-Supersedes_example :
    Supersedes (107 ∷ []) 0 start stored
    × (stored.heap ≡ set start.heap 0 (fill_algorithm sm2 first))
put-Supersedes_example = put-Supersedes sm2 start stored 0 first refl put_run

rotate-Rotated_example : Rotated sm2 stored (107 ∷ []) 12 9 1 rotated
rotate-Rotated_example = rotate-Rotated sm2 stored rotated (107 ∷ []) 12 9 1 rotate_run

Reach-Extends_example : Extends sm2 (107 ∷ []) start rotated
Reach-Extends_example = Reach-Extends sm2 (107 ∷ []) steps

Reach-IsValid_example : IsValid rotated
Reach-IsValid_example = Reach-IsValid sm2 (first ∷ []) steps_from_new

put-archives_live_example :
    (get stored_twice (107 ∷ []) ≡ ok 0)
    × (history stored_twice (107 ∷ []) ≡ ok (history_of (107 ∷ []) stored.hist ++ (0 ∷ [])))
put-archives_live_example =
    put-archives_live sm2 stored stored_twice 0 (record first { algorithm = 83 ∷ 77 ∷ 50 ∷ [] })
      refl get_run put_again_run
