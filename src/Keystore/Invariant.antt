-- ===== src/Keystore/Invariant.antt =====
-- Every pointer in the maps of a store is that of a handle with the id of its key.
use tongsuo_go.Base.{
  ℕ, zero, suc, List, [], ◌∷◌, ◌++◌, ◌≡◌, refl, ap, sym, subst, ◌∙◌, Option, none, some, ◌⊎◌,
  length, ok, ok-injective, Bool-cases, Option-cases, inl, inr, All, All-append,
}
use tongsuo_go.Base.Dict.{
  String, string_eq, string_eq→≡, lookup, insert, delete, lookup-insert, lookup-insert_other,
  lookup-delete, lookup-delete_other,
}
use tongsuo_go.Keystore.Store.{
  Address, Handle, Store, get_elem?, set, get_elem?-append, get_elem?-length, is_blank, history_of,
  archive, new_memory_store, remove, fill_algorithm, put_handle, put, next_version, rotate_live,
  rotate,
}
use tongsuo_go.Keystore.Versions.{live, history_of-archive, history_of-archive_other}
use tongsuo_go.Keystore.Steps.{
  Step, make_handle, put_step, remove_step, rotate_step, Reach, here, next,
}

get_elem?-set_cases {ℓ} :
    {A : Type ℓ} (xs : List A) (n m : ℕ) (x y z : A)
    → get_elem? xs n ≡ some x
    → get_elem? xs m ≡ some z
    → (get_elem? (set xs n y) m ≡ some z) ⊎ ((x ≡ z) × (get_elem? (set xs n y) m ≡ some y))
get_elem?-set_cases [] n m x y z h k = cc
get_elem?-set_cases (w ∷ xs) zero zero x y z h k = inr (cc, refl)
get_elem?-set_cases (w ∷ xs) zero (suc m) x y z h k = inl k
get_elem?-set_cases (w ∷ xs) (suc n) zero x y z h k = inl k
get_elem?-set_cases (w ∷ xs) (suc n) (suc m) x y z h k = get_elem?-set_cases xs n m x y z h k

some-injective {ℓ} : {A : Type ℓ} {x y : A} → ◌≡◌ {A = Option A} (some x) (some y) → x ≡ y
some-injective h = cc

All-map {ℓ κ} :
    {A : Type ℓ} (P Q : A → Type κ) (xs : List A) → ((x : A) → P x → Q x) → All P xs → All Q xs
All-map P Q [] f h = h
All-map P Q (x ∷ xs) f (hx, hs) = (f x hx, All-map P Q xs f hs)

module _ {Key Time Decoder : Type 0} where
  pub record HasId (heap : List (Handle Key Time Decoder)) (id : String) (a : Address)
      : Type 0 where
    pub handle : Handle Key Time Decoder
    pub at_address : get_elem? heap a ≡ some handle
    pub named : handle.id ≡ id

  pub record IsValid (s : Store Key Time Decoder) : Type 0 where
    pub live_ids : (id : String) (a : Address) → lookup id s.keys ≡ some a → HasId s.heap id a
    pub old_ids : (id : String) → All (HasId s.heap id) (history_of id s.hist)

  -- Every handle of `heap` is in `heap'`, with the same id.
  record Keeps (heap heap' : List (Handle Key Time Decoder)) : Type 0 where
    kept : (id : String) (a : Address) → HasId heap id a → HasId heap' id a

  append-Keeps : (heap more : List (Handle Key Time Decoder)) → Keeps heap (heap ++ more)
  append-Keeps heap more = record {
    kept = λ id a h. record {
      handle = h.handle;
      at_address = get_elem?-append heap more a h.handle h.at_address;
      named = h.named;
    };
  }

  set-Keeps :
      (heap : List (Handle Key Time Decoder)) (a : Address) (h h' : Handle Key Time Decoder)
      → get_elem? heap a ≡ some h
      → h'.id ≡ h.id
      → Keeps heap (set heap a h')
  set-Keeps heap a h h' at_a same = record {
    kept = λ id b k. elim (get_elem?-set_cases heap a b h h' k.handle at_a k.at_address) [
      | inl far ↦ record { handle = k.handle; at_address = far; named = k.named }
      | inr (equal, near) ↦ record {
        handle = h';
        at_address = near;
        named = same ∙ ap (λ (x : Handle Key Time Decoder). x.id) equal ∙ k.named;
      }
    ];
  }

  Keeps-IsValid :
      (s : Store Key Time Decoder) (heap : List (Handle Key Time Decoder))
      → Keeps s.heap heap
      → IsValid s
      → IsValid (record s { heap = heap })
  Keeps-IsValid s heap k v = record {
    live_ids = λ id a found. k.kept id a (v.live_ids id a found);
    old_ids = λ id.
        All-map (HasId s.heap id) (HasId heap id) (history_of id s.hist) (k.kept id) (v.old_ids id);
  }

  All-live :
      (s : Store Key Time Decoder) (id : String) (o : Option Address)
      → IsValid s
      → lookup id s.keys ≡ o
      → All (HasId s.heap id) (live o)
  All-live s id none v e = tt
  All-live s id (some a) v e = (v.live_ids id a e, tt)

  -- A new live version with the right id.
  supersede-IsValid :
      (s : Store Key Time Decoder) (id : String) (a : Address)
      → HasId s.heap id a
      → IsValid s
      → IsValid
          (record s { keys = insert id a s.keys; hist = archive id (lookup id s.keys) s.hist })
  supersede-IsValid s id a h v = record {
    live_ids = λ other b found. elim (Bool-cases (string_eq other id)) [
      | inl same ↦
          let equal = string_eq→≡ other id same in
          let found' : lookup id (insert id a s.keys) ≡ some b =
            subst (λ i. lookup i (insert id a s.keys) ≡ some b) equal found in
          let a_b : a ≡ b = some-injective (sym (lookup-insert id a s.keys) ∙ found') in
          subst (λ i. HasId s.heap i b) (sym equal) (subst (HasId s.heap id) a_b h)
      | inr differ ↦ v.live_ids other b (sym (lookup-insert_other id other a s.keys differ) ∙ found)
    ];
    old_ids = λ other. elim (Bool-cases (string_eq other id)) [
      | inl same ↦
          subst (λ i. All (HasId s.heap i) (history_of i (archive id (lookup id s.keys) s.hist)))
            (sym (string_eq→≡ other id same))
            (subst (All (HasId s.heap id)) (sym (history_of-archive id (lookup id s.keys) s.hist)) (
              All-append (HasId s.heap id) (history_of id s.hist) (live (lookup id s.keys))
                (v.old_ids id) (All-live s id (lookup id s.keys) v refl)))
      | inr differ ↦
          subst (All (HasId s.heap other))
            (sym (history_of-archive_other id other (lookup id s.keys) s.hist differ))
            (v.old_ids other)
    ];
  }

  fill_algorithm-id :
      (algorithm_of : Key → String) (h : Handle Key Time Decoder)
      → (fill_algorithm algorithm_of h).id ≡ h.id
  unfolding fill_algorithm
  fill_algorithm-id algorithm_of h = elim (Option-cases h.key) [
    | inl missing ↦ rw missing
    | inr (k, found) ↦ elim (Bool-cases (is_blank h.algorithm)) [
      | inl blank ↦ rw (found, blank)
      | inr given ↦ rw (found, given)
    ]
  ]

  remove-IsValid :
      (s s' : Store Key Time Decoder) (id : String) → IsValid s → remove s id ≡ ok s' → IsValid s'
  unfolding remove
  remove-IsValid s s' id v done = elim (Option-cases (lookup id s.keys)) [
    | inl missing ↦ absurd (cc (rw (remove, missing) at done))
    | inr (a, found) ↦ subst IsValid (ok-injective (rw (remove, found) at done)) record {
      live_ids = λ other b got. elim (Bool-cases (string_eq other id)) [
        | inl same ↦
            let gone : lookup other (delete id s.keys) ≡ none =
              subst (λ i. lookup i (delete id s.keys) ≡ none) (sym (string_eq→≡ other id same))
                (lookup-delete id s.keys) in
            absurd (cc)
        | inr differ ↦ v.live_ids other b (sym (lookup-delete_other id other s.keys differ) ∙ got)
      ];
      old_ids = v.old_ids;
    }
  ]

  module _ (algorithm_of : Key → String) where
    put-IsValid :
        (s s' : Store Key Time Decoder) (a : Option Address)
        → IsValid s
        → put algorithm_of s a ≡ ok s'
        → IsValid s'
    unfolding put put_handle
    put-IsValid s s' none v done = cc
    put-IsValid s s' (some a) v done = elim (Option-cases (get_elem? s.heap a)) [
      | inl missing ↦ absurd (cc (rw (put, missing) at done))
      | inr (h, at_a) ↦ elim (Bool-cases (is_blank h.id)) [
        | inl blank ↦ absurd (cc (rw (put, at_a, put_handle, blank) at done))
        | inr named ↦
            let filled = fill_algorithm algorithm_of h in
            let heap = set s.heap a filled in
            let keeps = set-Keeps s.heap a h filled at_a (fill_algorithm-id algorithm_of h) in
            let here_too : HasId s.heap h.id a = record {
              handle = h;
              at_address = at_a;
              named = refl;
            } in
            subst IsValid (ok-injective (rw (put, at_a, put_handle, named) at done)) (
              supersede-IsValid (record s { heap = heap }) h.id a (keeps.kept h.id a here_too)
                (Keeps-IsValid s heap keeps v))
      ]
    ]

    rotate-IsValid :
        (s s' : Store Key Time Decoder) (id : String) (new_key : Option Key) (now : Time)
        (a : Address)
        → IsValid s
        → rotate algorithm_of s id new_key now ≡ ok (a, s')
        → IsValid s'
    unfolding rotate rotate_live archive next_version
    rotate-IsValid s s' id none now a v done = cc
    rotate-IsValid s s' id (some new_key) now a v done = elim (Option-cases (lookup id s.keys)) [
      | inl missing ↦ absurd (cc (rw (rotate, missing) at done))
      | inr (prev, found) ↦ elim (Option-cases (get_elem? s.heap prev)) [
        | inl missing ↦ absurd (cc (rw (rotate, found, missing) at done))
        | inr (old, at_prev) ↦
            let made = next_version algorithm_of id old new_key now in
            let heap = s.heap ++ (made ∷ []) in
            let valid = Keeps-IsValid s heap (append-Keeps s.heap (made ∷ [])) v in
            let fresh : HasId heap id (length s.heap) = record {
              handle = made;
              at_address = get_elem?-length s.heap made;
              named = refl;
            } in
            subst IsValid
              (ap (λ (r : Address × Store Key Time Decoder). r.1)
                (ok-injective (rw (rotate, found, at_prev) at done)))
              (subst
                (λ o. IsValid (record {
                  heap = heap;
                  keys = insert id (length s.heap) s.keys;
                  hist = archive id o s.hist;
                }))
                found (supersede-IsValid (record s { heap = heap }) id (length s.heap) fresh valid))
      ]
    ]

    Step-IsValid : {s t : Store Key Time Decoder} → Step algorithm_of s t → IsValid s → IsValid t
    Step-IsValid (make_handle s h) v =
        Keeps-IsValid s (s.heap ++ (h ∷ [])) (append-Keeps s.heap (h ∷ [])) v
    Step-IsValid (put_step s s' a done) v = put-IsValid s s' a v done
    Step-IsValid (remove_step s s' id done) v = remove-IsValid s s' id v done
    Step-IsValid (rotate_step s s' id new_key now a done) v =
        rotate-IsValid s s' id new_key now a v done

    -- In every store that is reached from an empty one by handles being made and by put, remove
    -- and rotate, every pointer in the two maps is that of a handle whose id is the key it stands
    -- under.
    pub Reach-IsValid :
        (heap : List (Handle Key Time Decoder)) {t : Store Key Time Decoder}
        → Reach algorithm_of (new_memory_store heap) t
        → IsValid t
    unfolding new_memory_store history_of lookup
    Reach-IsValid heap here = record { live_ids = λ id a h. cc; old_ids = λ id. tt }
    Reach-IsValid heap (next steps last) = Step-IsValid last (Reach-IsValid heap steps)
