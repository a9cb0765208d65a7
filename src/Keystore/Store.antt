-- ===== src/Keystore/Store.antt =====
-- `Handle`, `NewHandle`, `SetDecoder` and `MemoryStore` with its methods. A `*Handle` is an address on
-- a heap of handles, so that `Put`, which fills in the algorithm of the handle that it is given, is
-- seen through every other pointer to it. A method holds the store's lock from its first access to
-- the maps to its end, and is one step. Keys, times and decoders are abstract; `algorithm_of` is what
-- the `Algorithm` method of a key object returns, found by reflection (the empty text without one).
pub use tongsuo_go.Base.Positions.{
  get_elem?, set, get_elem?-append, get_elem?-length, get_elem?-set,
}
use tongsuo_go.Base.{
  ℕ, ◌+◌, ◌%◌, ◌^◌, List, [], ◌∷◌, ◌++◌, Option, none, some, Bool, true, false, if◌then◌else◌,
  length, Result, ok, err,
}
use tongsuo_go.Base.Dict.{String, Dict, empty, lookup, insert, delete}

abbrev pub Address : Type 0
Address = ℕ

pub record Handle (Key Time Decoder : Type 0) : Type 0 where
  pub id : String
  pub alias : String
  pub algorithm : String
  pub version : ℕ
  pub generation : ℕ
  pub created_at : Time
  pub key : Option Key
  pub decoder : Option Decoder

-- The heap of handles and the two maps of a `MemoryStore`.
pub record Store (Key Time Decoder : Type 0) : Type 0 where
  pub heap : List (Handle Key Time Decoder)
  pub keys : Dict Address
  pub hist : Dict (List Address)

-- `dangling` is no Go error: a pointer outside the heap.
pub data StoreError : Type 0 where
  nil_handle empty_id nil_key nil_rotation_key dangling : StoreError
  not_found : String → StoreError

unfoldable pub is_blank : String → Bool
is_blank [] = true
is_blank (c ∷ s) = false

-- `s.hist[id]`, which is nil for a missing key.
unfoldable pub history_of : String → Dict (List Address) → List Address
history_of id hist = elim (lookup id hist) [ none ↦ [] | some archived ↦ archived ]

-- `if prev, ok := s.keys[h.ID]; ok { s.hist[h.ID] = append(s.hist[h.ID], prev) }`
unfoldable pub archive : String → Option Address → Dict (List Address) → Dict (List Address)
archive id none hist = hist
archive id (some prev) hist = insert id (history_of id hist ++ (prev ∷ [])) hist

unfoldable pub algorithm_name : {Key : Type 0} → (Key → String) → Option Key → String
algorithm_name algorithm_of none = []
algorithm_name algorithm_of (some k) = algorithm_of k

module _ {Key Time Decoder : Type 0} where
  -- `NewMemoryStore`, beside the handles that exist.
  unfoldable pub new_memory_store : List (Handle Key Time Decoder) → Store Key Time Decoder
  new_memory_store heap = record { heap = heap; keys = empty; hist = empty }

  unfoldable pub get : Store Key Time Decoder → String → Result StoreError Address
  get s id = elim (lookup id s.keys) [ none ↦ err (not_found id) | some a ↦ ok a ]

  unfoldable pub remove :
      Store Key Time Decoder → String → Result StoreError (Store Key Time Decoder)
  remove s id = elim (lookup id s.keys) [
    | none ↦ err (not_found id)
    | some a ↦ ok (record s { keys = delete id s.keys })
  ]

  unfoldable pub history : Store Key Time Decoder → String → Result StoreError (List Address)
  history s id = elim (lookup id s.keys) [
    | some a ↦ ok (history_of id s.hist)
    | none ↦ elim (lookup id s.hist) [ none ↦ err (not_found id) | some archived ↦ ok archived ]
  ]

  module _ (algorithm_of : Key → String) where
    unfoldable pub new_handle :
        String → Option Key → Time → Result StoreError (Handle Key Time Decoder)
    new_handle [] key now = err empty_id
    new_handle (c ∷ id) none now = err nil_key
    new_handle (c ∷ id) (some k) now = ok (record {
      id = c ∷ id;
      alias = [];
      algorithm = algorithm_name algorithm_of (some k);
      version = 1;
      generation = 0;
      created_at = now;
      key = some k;
      decoder = none;
    })

    -- `if h.Algorithm == "" && h.Key != nil { h.Algorithm = algorithmName(h.Key) }`
    unfoldable pub fill_algorithm : Handle Key Time Decoder → Handle Key Time Decoder
    fill_algorithm h = elim h.key [
      | none ↦ h
      | some k ↦
          if is_blank h.algorithm
          then record h { algorithm = algorithm_name algorithm_of (some k) }
          else h
    ]

    unfoldable pub put_handle :
        Store Key Time Decoder
        → Address
        → Handle Key Time Decoder
        → Result StoreError (Store Key Time Decoder)
    put_handle s a h =
        if is_blank h.id
        then err empty_id
        else ok (record {
          heap = set s.heap a (fill_algorithm h);
          keys = insert h.id a s.keys;
          hist = archive h.id (lookup h.id s.keys) s.hist;
        })

    unfoldable pub put :
        Store Key Time Decoder → Option Address → Result StoreError (Store Key Time Decoder)
    put s none = err nil_handle
    put s (some a) = elim (get_elem? s.heap a) [ none ↦ err dangling | some h ↦ put_handle s a h ]

    -- The handle of the next version. `Version` is a uint32.
    unfoldable pub next_version :
        String → Handle Key Time Decoder → Key → Time → Handle Key Time Decoder
    next_version id old new_key now = record {
      id = id;
      alias = old.alias;
      algorithm = algorithm_name algorithm_of (some new_key);
      version = (old.version + 1) % 2 ^ 32;
      generation = old.generation;
      created_at = now;
      key = some new_key;
      decoder = none;
    }

    -- The new handle is at the next free address.
    unfoldable pub rotate_live :
        Store Key Time Decoder
        → String
        → Address
        → Handle Key Time Decoder
        → Key
        → Time
        → Address × Store Key Time Decoder
    rotate_live s id a old new_key now = (
      length s.heap,
      record {
        heap = s.heap ++ (next_version id old new_key now ∷ []);
        keys = insert id (length s.heap) s.keys;
        hist = insert id (history_of id s.hist ++ (a ∷ [])) s.hist;
      },
    )

    unfoldable pub rotate :
        Store Key Time Decoder
        → String
        → Option Key
        → Time
        → Result StoreError (Address × Store Key Time Decoder)
    rotate s id none now = err nil_rotation_key
    rotate s id (some new_key) now = elim (lookup id s.keys) [
      | none ↦ err (not_found id)
      | some a ↦ elim (get_elem? s.heap a) [
        | none ↦ err dangling
        | some old ↦ ok (rotate_live s id a old new_key now)
      ]
    ]
