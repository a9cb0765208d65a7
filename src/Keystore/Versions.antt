-- ===== src/Keystore/Versions.antt =====
-- What `Put` and `Rotate` make of the live version and of the history of an id.
use tongsuo_go.Base.{
  ◌+◌, ◌%◌, ◌^◌, List, [], ◌∷◌, ◌++◌, ◌≡◌, refl, ap, sym, subst, ◌∙◌, Option, none, some, false,
  length, ok, ok-injective, Bool-cases, Option-cases, inl, inr, append-nil,
}
use tongsuo_go.Base.Dict.{
  String, string_eq, Dict, lookup, insert, lookup-insert, lookup-insert_other,
}
use tongsuo_go.Keystore.Store.{
  Address, Handle, Store, get_elem?, set, is_blank, history_of, archive, get, history,
  algorithm_name, fill_algorithm, put_handle, put, next_version, rotate_live, rotate,
  get_elem?-append, get_elem?-length,
}

-- The versions of an id, the oldest first: the archived ones and the live one.
abbrev pub live : Option Address → List Address
live none = []
live (some a) = a ∷ []

pub history_of-insert :
    (id : String) (addresses : List Address) (hist : Dict (List Address))
    → history_of id (insert id addresses hist) ≡ addresses
unfolding history_of
history_of-insert id addresses hist = rw (history_of, lookup-insert id addresses hist)

pub history_of-insert_other :
    (id other : String) (addresses : List Address) (hist : Dict (List Address))
    → string_eq other id ≡ false
    → history_of other (insert id addresses hist) ≡ history_of other hist
unfolding history_of
history_of-insert_other id other addresses hist h =
    rw (history_of, lookup-insert_other id other addresses hist h)

pub history_of-archive :
    (id : String) (prev : Option Address) (hist : Dict (List Address))
    → history_of id (archive id prev hist) ≡ history_of id hist ++ live prev
unfolding archive
history_of-archive id none hist = rw (append-nil)
history_of-archive id (some prev) hist =
    history_of-insert id (history_of id hist ++ (prev ∷ [])) hist

pub history_of-archive_other :
    (id other : String) (prev : Option Address) (hist : Dict (List Address))
    → string_eq other id ≡ false
    → history_of other (archive id prev hist) ≡ history_of other hist
unfolding archive
history_of-archive_other id other none hist h = refl
history_of-archive_other id other (some prev) hist h =
    history_of-insert_other id other (history_of id hist ++ (prev ∷ [])) hist h

module _ {Key Time Decoder : Type 0} where
  -- The maps of `s'` are those of `s` with `a` as the new live version of `id`.
  pub record Supersedes (id : String) (a : Address) (s s' : Store Key Time Decoder) : Type 0 where
    pub got : get s' id ≡ ok a
    pub archived : history s' id ≡ ok (history_of id s.hist ++ live (lookup id s.keys))
    pub got_other : (other : String) → string_eq other id ≡ false → get s' other ≡ get s other
    pub archived_other :
        (other : String)
        → string_eq other id ≡ false
        → history_of other s'.hist ≡ history_of other s.hist

  insert-Supersedes :
      (id : String) (a : Address) (s : Store Key Time Decoder)
      (heap : List (Handle Key Time Decoder))
      → Supersedes id a s (record {
        heap = heap;
        keys = insert id a s.keys;
        hist = archive id (lookup id s.keys) s.hist;
      })
  unfolding get history
  insert-Supersedes id a s heap = record {
    got = rw (get, lookup-insert id a s.keys);
    archived =
        rw (history, lookup-insert id a s.keys, history_of-archive id (lookup id s.keys) s.hist);
    got_other = λ other h. rw (get, lookup-insert_other id other a s.keys h);
    archived_other = λ other h. history_of-archive_other id other (lookup id s.keys) s.hist h;
  }

  module _ (algorithm_of : Key → String) where
    -- When put succeeds on the pointer to a handle, get returns that pointer for its id, the
    -- history of the id ends with the pointer that was live before, nothing changes under other
    -- ids, and the heap changes only at the handle, where a missing algorithm is filled in.
    pub put-Supersedes :
        (s s' : Store Key Time Decoder) (a : Address) (h : Handle Key Time Decoder)
        → get_elem? s.heap a ≡ some h
        → put algorithm_of s (some a) ≡ ok s'
        → Supersedes h.id a s s' × (s'.heap ≡ set s.heap a (fill_algorithm algorithm_of h))
    unfolding put put_handle
    put-Supersedes s s' a h at_a done = elim (Bool-cases (is_blank h.id)) [
      | inl blank ↦ absurd (cc (rw (put, at_a, put_handle, blank) at done))
      | inr named ↦
          let same = ok-injective (rw (put, at_a, put_handle, named) at done) in
          (
            subst (Supersedes h.id a s) same
                (insert-Supersedes h.id a s (set s.heap a (fill_algorithm algorithm_of h))),
            ap (λ (t : Store Key Time Decoder). t.heap) (sym same),
          )
    ]

    rotate_live-Supersedes :
        (s : Store Key Time Decoder) (id : String) (new_key : Key) (now : Time) (prev : Address)
        (old : Handle Key Time Decoder)
        → lookup id s.keys ≡ some prev
        → Supersedes id (length s.heap) s (rotate_live algorithm_of s id prev old new_key now).1
    unfolding rotate_live archive
    rotate_live-Supersedes s id new_key now prev old found =
        subst
          (λ o. Supersedes id (length s.heap) s (record {
            heap = s.heap ++ (next_version algorithm_of id old new_key now ∷ []);
            keys = insert id (length s.heap) s.keys;
            hist = archive id o s.hist;
          }))
          found
          (insert-Supersedes id (length s.heap) s
            (s.heap ++ (next_version algorithm_of id old new_key now ∷ [])))

    -- What a rotation that succeeded found and made.
    pub record Rotated (s : Store Key Time Decoder) (id : String) (new_key : Key) (now : Time)
        (a : Address) (s' : Store Key Time Decoder) : Type 0 where
      pub prev : Address
      pub old : Handle Key Time Decoder
      pub found : get s id ≡ ok prev
      pub at_prev : get_elem? s.heap prev ≡ some old
      pub superseded : Supersedes id a s s'
      pub kept : get_elem? s'.heap prev ≡ some old
      pub new : Handle Key Time Decoder
      pub at_new : get_elem? s'.heap a ≡ some new
      pub same_id : new.id ≡ id
      pub same_alias : new.alias ≡ old.alias
      pub algorithm_named : new.algorithm ≡ algorithm_of new_key
      pub raised : new.version ≡ (old.version + 1) % 2 ^ 32
      pub same_generation : new.generation ≡ old.generation
      pub created_now : new.created_at ≡ now
      pub holds_key : new.key ≡ some new_key
      pub no_decoder : new.decoder ≡ none

    -- A rotation that succeeds found a live version, leaves its handle as it was, makes a new live
    -- handle with the id, the new key, its algorithm and the time of the call, no decoder, the
    -- version raised by one modulo 2^32 and the alias and generation of the old handle, adds the
    -- old version to the end of the history, and changes nothing under other ids.
    pub rotate-Rotated :
        (s s' : Store Key Time Decoder) (id : String) (new_key : Key) (now : Time) (a : Address)
        → rotate algorithm_of s id (some new_key) now ≡ ok (a, s')
        → Rotated s id new_key now a s'
    unfolding rotate get rotate_live next_version algorithm_name
    rotate-Rotated s s' id new_key now a done = elim (Option-cases (lookup id s.keys)) [
      | inl missing ↦ absurd (cc (rw (rotate, missing) at done))
      | inr (prev, found) ↦ elim (Option-cases (get_elem? s.heap prev)) [
        | inl missing ↦ absurd (cc (rw (rotate, found, missing) at done))
        | inr (old, at_prev) ↦
            subst (λ (r : Address × Store Key Time Decoder). Rotated s id new_key now r.0 r.1)
              (ok-injective (rw (rotate, found, at_prev) at done))
              record {
                prev = prev;
                old = old;
                found = rw (get, found);
                at_prev = at_prev;
                superseded = rotate_live-Supersedes s id new_key now prev old found;
                kept = get_elem?-append s.heap _ prev old at_prev;
                new = next_version algorithm_of id old new_key now;
                at_new = get_elem?-length s.heap _;
                same_id = refl;
                same_alias = refl;
                algorithm_named = refl;
                raised = refl;
                same_generation = refl;
                created_now = refl;
                holds_key = refl;
                no_decoder = refl;
              }
      ]
    ]

    -- When put succeeds on the pointer that is already live under its id, the same pointer is at
    -- once live and the last entry of the history.
    pub put-archives_live :
        (s s' : Store Key Time Decoder) (a : Address) (h : Handle Key Time Decoder)
        → get_elem? s.heap a ≡ some h
        → get s h.id ≡ ok a
        → put algorithm_of s (some a) ≡ ok s'
        → (get s' h.id ≡ ok a) × (history s' h.id ≡ ok (history_of h.id s.hist ++ (a ∷ [])))
    unfolding get
    put-archives_live s s' a h at_a before done =
        let (superseded, heap) = put-Supersedes s s' a h at_a done in
        elim (Option-cases (lookup h.id s.keys)) [
          | inl missing ↦ absurd (cc (rw (get, missing) at before))
          | inr (b, found) ↦
              let same : b ≡ a = ok-injective (rw (get, found) at before) in
              (
                superseded.got,
                subst (λ o. history s' h.id ≡ ok (history_of h.id s.hist ++ live o))
                    (found ∙ ap some same) superseded.archived,
              )
        ]
