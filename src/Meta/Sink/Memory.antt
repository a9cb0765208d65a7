-- ===== src/Meta/Sink/Memory.antt =====
-- A sink in memory: its buffer after any sequence of writes and Close is one encoding of all of them.
use tongsuo_go.Base.{
  ℕ, zero, suc, ◌≡◌, refl, sym, ap, subst, ◌∙◌, List, [], ◌∷◌, ◌++◌, append-nil, append_assoc,
  length, Option, none, some, Bool, true, false, Result, ok, err, ok-injective,
}
use tongsuo_go.Meta.Hex.{encode_hex, encode_hex-append}
use tongsuo_go.Meta.Base64.Groups.{
  groups-append, remainder-append, encode_base64-groups, encode_base64-append, groups-remainder,
}
use tongsuo_go.Meta.Base64.{encode_base64, groups, remainder}
use tongsuo_go.Meta.Encoding.{Encoding, raw, hex, base64, other, encode}
use tongsuo_go.Meta.Sink.{
  in_memory, Encoder, Sink, SinkError, Outside, new_sink, set_encoding, is_known, bytes_of,
  ensure_open, raw_write, keep_encoder, one_piece, pieces, first_room, write_pieces, encoder_write,
  write_rest, encoder_close, the_encoder, counted, write_encoded, write_opened, write, write_all,
  close_the_file, close_encoder, close_sink,
}

-- A sink in memory that is not closed.
abbrev memory_sink : {E : Type 0} → Encoding → List ℕ → Option (Encoder E) → Bool → Sink E
memory_sink enc buf encoder wrote = record {
  kind = in_memory;
  buf = buf;
  path = [];
  file_open = false;
  enc = enc;
  encoder = encoder;
  wrote = wrote;
  closed = false;
}

abbrev pub concat : List (List ℕ) → List ℕ
concat [] = []
concat (p ∷ ps) = p ++ concat ps

-- The encoder between two writes.
abbrev waiting : {E : Type 0} → List ℕ → Option (Encoder E)
waiting pending = some (record { pending = pending; failure = none })

encode_pieces : List (List ℕ) → List ℕ
encode_pieces [] = []
encode_pieces (q ∷ qs) = encode_base64 q ++ encode_pieces qs

encode_pieces-one_piece : (q : List ℕ) → encode_pieces (one_piece q) ≡ encode_base64 q
unfolding encode_pieces one_piece
encode_pieces-one_piece [] = unfold encode_base64 in refl
encode_pieces-one_piece (a ∷ bs) = append-nil (encode_base64 (a ∷ bs))

remainder-group : (a b c : ℕ) → remainder (a ∷ b ∷ c ∷ []) ≡ []
unfolding remainder
remainder-group a b c = refl

-- The pieces encode to what the groups encode to in one.
encode_pieces-pieces :
    (room : ℕ) (piece gs : List ℕ)
    → remainder piece ≡ []
    → encode_pieces (pieces room piece gs) ≡ encode_base64 (piece ++ gs)
unfolding pieces encode_pieces
encode_pieces-pieces room piece [] complete =
    encode_pieces-one_piece piece ∙ ap encode_base64 (sym (append-nil piece))
encode_pieces-pieces room piece (a ∷ []) complete = encode_pieces-one_piece (piece ++ a ∷ [])
encode_pieces-pieces room piece (a ∷ b ∷ []) complete =
    encode_pieces-one_piece (piece ++ a ∷ b ∷ [])
encode_pieces-pieces zero piece (a ∷ b ∷ c ∷ gs) complete =
    ap (λ t. encode_base64 piece ++ t)
      (encode_pieces-pieces 255 (a ∷ b ∷ c ∷ []) gs (remainder-group a b c))
    ∙ sym (encode_base64-append piece (a ∷ b ∷ c ∷ gs) complete)
encode_pieces-pieces (suc room) piece (a ∷ b ∷ c ∷ gs) complete =
    encode_pieces-pieces room (piece ++ a ∷ b ∷ c ∷ []) gs
      (remainder-append piece (a ∷ b ∷ c ∷ []) ∙ rw complete (remainder-group a b c))
    ∙ ap encode_base64 (append_assoc piece (a ∷ b ∷ c ∷ []) gs)

module _ {E W : Type 0} (outside : Outside E W) where
  -- All writes succeed, and leave the sink with that buffer and encoder.
  abbrev Writes :
      Encoding
      → List ℕ
      → Option (Encoder E)
      → Bool
      → List (List ℕ)
      → W
      → List ℕ
      → Option (Encoder E)
      → Type 0
  Writes enc buf encoder wrote ps w buf' encoder' =
      (wrote' : Bool) × (write_all outside (memory_sink enc buf encoder wrote) ps w
        ≡ (ok tt, memory_sink enc buf' encoder' wrote', w))

  write_all-raw :
      (buf : List ℕ) (wrote : Bool) (ps : List (List ℕ)) (w : W)
      → Writes raw buf none wrote ps w (buf ++ concat ps) none
  unfolding write_all write write_opened ensure_open write_encoded raw_write counted
  write_all-raw buf wrote [] w = (wrote, rw (append-nil buf))
  write_all-raw buf wrote (p ∷ ps) w =
      let (wrote', rest) = write_all-raw (buf ++ p) true ps w in
      (
        wrote',
        rest ∙ ap (λ b. (ok tt, memory_sink raw b none wrote', w)) (append_assoc buf p (concat ps)),
      )

  write_all-hex :
      (buf : List ℕ) (wrote : Bool) (ps : List (List ℕ)) (w : W)
      → Writes hex buf none wrote ps w (buf ++ encode_hex (concat ps)) none
  unfolding write_all write write_opened ensure_open write_encoded raw_write counted encode_hex
  write_all-hex buf wrote [] w = (wrote, rw (append-nil buf))
  write_all-hex buf wrote (p ∷ ps) w =
      let (wrote', rest) = write_all-hex (buf ++ encode_hex p) true ps w in
      let same : (buf ++ encode_hex p) ++ encode_hex (concat ps)
          ≡ buf ++ encode_hex (p ++ concat ps) =
        append_assoc buf (encode_hex p) (encode_hex (concat ps))
        ∙ ap (λ t. buf ++ t) (sym (encode_hex-append p (concat ps))) in
      (wrote', rest ∙ ap (λ b. (ok tt, memory_sink hex b none wrote', w)) same)

  write_pieces-memory :
      (buf pending : List ℕ) (qs : List (List ℕ)) (encoder : Option (Encoder E)) (w : W)
      → write_pieces outside (memory_sink base64 buf encoder true) qs pending w
        ≡ (none, memory_sink base64 (buf ++ encode_pieces qs) (waiting pending) true, w)
  unfolding write_pieces keep_encoder raw_write encode_pieces
  write_pieces-memory buf pending [] encoder w = rw (append-nil buf)
  write_pieces-memory buf pending (q ∷ qs) encoder w =
      write_pieces-memory (buf ++ encode_base64 q) pending qs encoder w
      ∙ ap (λ b. (none, memory_sink base64 b (waiting pending) true, w))
          (append_assoc buf (encode_base64 q) (encode_pieces qs))

  write_groups-memory :
      (room : ℕ) (buf gs pending : List ℕ) (encoder : Option (Encoder E)) (w : W)
      → write_pieces outside (memory_sink base64 buf encoder true) (pieces room [] gs) pending w
        ≡ (none, memory_sink base64 (buf ++ encode_base64 gs) (waiting pending) true, w)
  unfolding remainder
  write_groups-memory room buf gs pending encoder w =
      write_pieces-memory buf pending (pieces room [] gs) encoder w
      ∙ ap (λ t. (none, memory_sink base64 (buf ++ t) (waiting pending) true, w))
          (encode_pieces-pieces room [] gs refl)

  -- One write after the text `t`.
  write-base64 :
      (t p : List ℕ) (wrote : Bool) (w : W)
      → write outside
          (memory_sink base64 (encode_base64 (groups t)) (waiting (remainder t)) wrote)
          p
          w
        ≡ (
          ok (length p),
          memory_sink base64 (encode_base64 (groups (t ++ p))) (waiting (remainder (t ++ p))) true,
          w,
        )
  unfolding write write_opened ensure_open write_encoded encoder_write the_encoder counted
  write-base64 t p wrote w = rw (
    write_groups-memory (first_room (remainder t)) (encode_base64 (groups t))
        (groups (remainder t ++ p)) (remainder (remainder t ++ p)) (waiting (remainder t)) w,
    groups-append t p,
    remainder-append t p,
    encode_base64-groups t (groups (remainder t ++ p)),
  )

  write-base64_first :
      (p : List ℕ) (wrote : Bool) (w : W)
      → write outside (memory_sink base64 [] none wrote) p w ≡ (
        ok (length p),
        memory_sink base64 (encode_base64 (groups p)) (waiting (remainder p)) true,
        w,
      )
  unfolding write write_opened ensure_open write_encoded encoder_write the_encoder counted
  write-base64_first p wrote w =
      rw (write_groups-memory (first_room []) [] (groups p) (remainder p) none w)

  -- A write that succeeded.
  write_all-next :
      (s s' : Sink E) (p : List ℕ) (ps : List (List ℕ)) (n : ℕ) (w w' : W)
      → write outside s p w ≡ (ok n, s', w')
      → write_all outside s (p ∷ ps) w ≡ write_all outside s' ps w'
  unfolding write_all
  write_all-next s s' p ps n w w' written =
      ap
        (λ (x : Result (SinkError E) ℕ × Sink E × W). elim x.0 [
          | err e ↦ (err e, x.1, x.2)
          | ok m ↦ write_all outside x.1 ps x.2
        ])
        written

  write_all-base64 :
      (t : List ℕ) (wrote : Bool) (ps : List (List ℕ)) (w : W)
      → Writes base64
          (encode_base64 (groups t))
          (waiting (remainder t))
          wrote
          ps
          w
          (encode_base64 (groups (t ++ concat ps)))
          (waiting (remainder (t ++ concat ps)))
  unfolding write_all
  write_all-base64 t wrote [] w = (wrote, rw (append-nil t))
  write_all-base64 t wrote (p ∷ ps) w =
      let (wrote', rest) = write_all-base64 (t ++ p) true ps w in
      let moved =
        ap
          (λ u. (
            ok tt,
            memory_sink base64 (encode_base64 (groups u)) (waiting (remainder u)) wrote',
            w,
          ))
          (append_assoc t p (concat ps)) in
      (wrote', write_all-next _ _ p ps _ w w (write-base64 t p wrote w) ∙ rest ∙ moved)

  write_rest-memory :
      (buf pending : List ℕ) (encoder : Option (Encoder E)) (wrote : Bool) (w : W)
      → write_rest outside
          (record (memory_sink base64 buf encoder wrote) { closed = true })
          pending
          w
        ≡ (
          none,
          record (memory_sink base64 (buf ++ encode_base64 pending) encoder wrote) {
            closed = true;
          },
          w,
        )
  unfolding write_rest raw_write encode_base64
  write_rest-memory buf [] encoder wrote w = rw (append-nil buf)
  write_rest-memory buf (a ∷ bs) encoder wrote w = refl

  -- The buffer after Close of the encoder.
  close-base64 :
      (t : List ℕ) (wrote : Bool) (w : W)
      → close_sink outside
          (memory_sink base64 (encode_base64 (groups t)) (waiting (remainder t)) wrote)
          w
        ≡ (none, record (memory_sink base64 (encode_base64 t) none wrote) { closed = true }, w)
  unfolding close_sink close_encoder close_the_file encoder_close
  close-base64 t wrote w =
      let whole : encode_base64 (groups t) ++ encode_base64 (remainder t) ≡ encode_base64 t =
        sym (encode_base64-groups t (remainder t)) ∙ ap encode_base64 (groups-remainder t) in
      rw (
        write_rest-memory (encode_base64 (groups t)) (remainder t) (waiting (remainder t)) wrote w,
        whole,
      )

  -- Close of a sink of which the buffer holds all.
  close-plain :
      (enc : Encoding) (buf : List ℕ) (wrote : Bool) (w : W)
      → close_sink outside (memory_sink enc buf none wrote) w
        ≡ (none, record (memory_sink enc buf none wrote) { closed = true }, w)
  unfolding close_sink close_encoder close_the_file
  close-plain enc buf wrote w = refl

  -- What a program reads from the sink at the end.
  abbrev pub Stores : List (List ℕ) → Sink E → W → List ℕ → Type 0
  Stores ps s w out =
      let (result, s', w') = write_all outside s ps w in
      let (failure, s'', w'') = close_sink outside s' w' in
      (result ≡ ok tt) × (failure ≡ none) × (bytes_of s'' ≡ some out)

  memory_sink-Stores :
      (enc : Encoding) (ps : List (List ℕ)) (w : W) (out : List ℕ)
      → encode (concat ps) enc ≡ ok out
      → Stores ps (memory_sink enc [] none false) w out
  unfolding encode bytes_of encode_base64 write_all
  memory_sink-Stores raw ps w out encoded =
      let (wrote, all) = write_all-raw [] false ps w in
      rw (all, close-plain raw (concat ps) wrote w) (refl, refl, ap some (ok-injective encoded))
  memory_sink-Stores hex ps w out encoded =
      let (wrote, all) = write_all-hex [] false ps w in
      rw (all, close-plain hex (encode_hex (concat ps)) wrote w)
        (refl, refl, ap some (ok-injective encoded))
  memory_sink-Stores base64 [] w out encoded =
      rw (write_all, close-plain base64 [] false w) (refl, refl, ap some (ok-injective encoded))
  memory_sink-Stores base64 (p ∷ ps) w out encoded =
      let (wrote, rest) = write_all-base64 p true ps w in
      let all = write_all-next _ _ p ps _ w w (write-base64_first p false w) ∙ rest in
      rw (all, close-base64 (p ++ concat ps) wrote w) (refl, refl, ap some (ok-injective encoded))
  memory_sink-Stores (other name) ps w out encoded = absurd cc

  -- For a sink in memory whose encoding was set before the first write, all writes and Close
  -- succeed, and its buffer is then what encode makes of all the written bytes at once, however
  -- they were divided.
  pub set_encoding-Stores :
      (enc : Encoding) (s : Sink E) (ps : List (List ℕ)) (w : W) (out : List ℕ)
      → set_encoding (new_sink in_memory []) enc ≡ ok s
      → encode (concat ps) enc ≡ ok out
      → Stores ps s w out
  unfolding set_encoding is_known new_sink
  set_encoding-Stores raw s ps w out made encoded =
      subst (λ x. Stores ps x w out) (ok-injective made) (memory_sink-Stores raw ps w out encoded)
  set_encoding-Stores hex s ps w out made encoded =
      subst (λ x. Stores ps x w out) (ok-injective made) (memory_sink-Stores hex ps w out encoded)
  set_encoding-Stores base64 s ps w out made encoded =
      subst (λ x. Stores ps x w out) (ok-injective made)
        (memory_sink-Stores base64 ps w out encoded)
  set_encoding-Stores (other name) s ps w out made encoded = absurd cc
