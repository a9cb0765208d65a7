-- ===== src/Keystore/Steps.antt =====
-- Sequences of calls on a store. A history is only added to.
use tongsuo_go.Base.{
  List, [], ◌∷◌, ◌++◌, ◌≡◌, refl, ap, sym, subst, ◌∙◌, Option, none, some, ok, ok-injective,
  Bool-cases, Option-cases, inl, inr, append-nil, append_assoc,
}
use tongsuo_go.Base.Dict.{String, string_eq, string_eq→≡, lookup}
use tongsuo_go.Keystore.Store.{
  Address, Handle, Store, get_elem?, is_blank, history_of, archive, remove, put_handle, put,
  rotate_live, rotate,
}
use tongsuo_go.Keystore.Versions.{live, history_of-archive, history_of-archive_other}

module _ {Key Time Decoder : Type 0} (algorithm_of : Key → String) where
  -- The calls that change a store, `NewHandle` and `new(Handle)` among them: a handle that the program
  -- makes is at the next free address.
  pub data Step : Store Key Time Decoder → Store Key Time Decoder → Type 0 where
    make_handle :
        (s : Store Key Time Decoder) (h : Handle Key Time Decoder)
        → Step s (record s { heap = s.heap ++ (h ∷ []) })
    put_step :
        (s s' : Store Key Time Decoder) (a : Option Address)
        → put algorithm_of s a ≡ ok s'
        → Step s s'
    remove_step : (s s' : Store Key Time Decoder) (id : String) → remove s id ≡ ok s' → Step s s'
    rotate_step :
        (s s' : Store Key Time Decoder) (id : String) (new_key : Option Key) (now : Time)
        (a : Address)
        → rotate algorithm_of s id new_key now ≡ ok (a, s')
        → Step s s'

  pub data Reach (s : Store Key Time Decoder) : Store Key Time Decoder → Type 0 where
    here : Reach s s
    next : {t u : Store Key Time Decoder} → Reach s t → Step t u → Reach s u

  -- The history of an id after `s'` begins with that of `s`.
  pub record Extends (id : String) (s s' : Store Key Time Decoder) : Type 0 where
    pub added : List Address
    pub extended : history_of id s'.hist ≡ history_of id s.hist ++ added

  Extends-same :
      (id : String) (s s' : Store Key Time Decoder)
      → history_of id s'.hist ≡ history_of id s.hist
      → Extends id s s'
  Extends-same id s s' h = record {
    added = [];
    extended = h ∙ sym (append-nil (history_of id s.hist));
  }

  archive-Extends :
      (id key : String) (prev : Option Address) (s s' : Store Key Time Decoder)
      → s'.hist ≡ archive key prev s.hist
      → Extends id s s'
  archive-Extends id key prev s s' h = elim (Bool-cases (string_eq id key)) [
    | inl same ↦ record {
      added = live prev;
      extended =
          ap (history_of id) h
          ∙ subst (λ k. history_of id (archive k prev s.hist) ≡ history_of id s.hist ++ live prev)
              (string_eq→≡ id key same) (history_of-archive id prev s.hist);
    }
    | inr differ ↦
        Extends-same id s s'
          (ap (history_of id) h ∙ history_of-archive_other key id prev s.hist differ)
  ]

  put-Extends :
      (id : String) (s s' : Store Key Time Decoder) (a : Option Address)
      → put algorithm_of s a ≡ ok s'
      → Extends id s s'
  unfolding put put_handle
  put-Extends id s s' none done = cc
  put-Extends id s s' (some a) done = elim (Option-cases (get_elem? s.heap a)) [
    | inl missing ↦ absurd (cc (rw (put, missing) at done))
    | inr (h, at_a) ↦ elim (Bool-cases (is_blank h.id)) [
      | inl blank ↦ absurd (cc (rw (put, at_a, put_handle, blank) at done))
      | inr named ↦ archive-Extends id h.id (lookup h.id s.keys) s s' (
          ap (λ (t : Store Key Time Decoder). t.hist)
            (sym (ok-injective (rw (put, at_a, put_handle, named) at done))))
    ]
  ]

  remove-Extends :
      (id : String) (s s' : Store Key Time Decoder) (key : String)
      → remove s key ≡ ok s'
      → Extends id s s'
  unfolding remove
  remove-Extends id s s' key done = elim (Option-cases (lookup key s.keys)) [
    | inl missing ↦ absurd (cc (rw (remove, missing) at done))
    | inr (a, found) ↦ Extends-same id s s' (
        ap (λ (t : Store Key Time Decoder). history_of id t.hist)
          (sym (ok-injective (rw (remove, found) at done))))
  ]

  rotate-Extends :
      (id : String) (s s' : Store Key Time Decoder) (key : String) (new_key : Option Key)
      (now : Time) (a : Address)
      → rotate algorithm_of s key new_key now ≡ ok (a, s')
      → Extends id s s'
  unfolding rotate rotate_live archive
  rotate-Extends id s s' key none now a done = cc
  rotate-Extends id s s' key (some new_key) now a done = elim (Option-cases (lookup key s.keys)) [
    | inl missing ↦ absurd (cc (rw (rotate, missing) at done))
    | inr (prev, found) ↦ elim (Option-cases (get_elem? s.heap prev)) [
      | inl missing ↦ absurd (cc (rw (rotate, found, missing) at done))
      | inr (old, at_prev) ↦ archive-Extends id key (some prev) s s' (
          ap (λ (r : Address × Store Key Time Decoder). r.1.hist)
            (sym (ok-injective (rw (rotate, found, at_prev) at done))))
    ]
  ]

  Step-Extends : (id : String) {s t : Store Key Time Decoder} → Step s t → Extends id s t
  Step-Extends id (make_handle s h) =
      Extends-same id s (record s { heap = s.heap ++ (h ∷ []) }) refl
  Step-Extends id (put_step s s' a done) = put-Extends id s s' a done
  Step-Extends id (remove_step s s' key done) = remove-Extends id s s' key done
  Step-Extends id (rotate_step s s' key new_key now a done) =
      rotate-Extends id s s' key new_key now a done

  -- Along every sequence of calls the history of an id is only added to at its end.
  pub Reach-Extends : (id : String) {s t : Store Key Time Decoder} → Reach s t → Extends id s t
  Reach-Extends id {s} here = Extends-same id s s refl
  Reach-Extends id {s} (next {t} {u} steps last) =
      let before = Reach-Extends id steps in
      let more = Step-Extends id last in
      record {
        added = before.added ++ more.added;
        extended =
            more.extended
            ∙ ap (λ xs. xs ++ more.added) before.extended
            ∙ append_assoc (history_of id s.hist) before.added more.added;
      }
