-- ===== src/Meta/Sink.antt =====
-- `Sink` of meta/sink.go. Its methods hold the lock of the sink, so that they are a sequence of calls.
-- A sink of the kind `in_memory` writes into its own buffer. What the other kinds write to (a writer,
-- a file, the standard output) is outside this repository and a parameter.
pub mod Memory
use tongsuo_go.Base.{
  ℕ, zero, suc, ◌+◌, List, [], ◌∷◌, ◌++◌, length, Option, none, some, Bool, true, false, not, ◌&&◌,
  if◌then◌else◌, Result, ok, err,
}
use tongsuo_go.Base.Dict.{String, string_eq}
use tongsuo_go.Meta.Hex.{encode_hex}
use tongsuo_go.Meta.Base64.{encode_base64, groups, remainder}
use tongsuo_go.Meta.Encoding.{Encoding, raw, hex, base64, other}

pub data SinkKind : Type 0 where
  in_memory to_writer to_file to_stdout : SinkKind

-- The streaming encoder of base64: the bytes of an incomplete group, and the error that it keeps.
pub record Encoder (E : Type 0) : Type 0 where
  pub pending : List ℕ
  pub failure : Option E

-- `file_open` tells whether `file` is not nil.
pub record Sink (E : Type 0) : Type 0 where
  pub kind : SinkKind
  pub buf : List ℕ
  pub path : String
  pub file_open : Bool
  pub enc : Encoding
  pub encoder : Option (Encoder E)
  pub wrote : Bool
  pub closed : Bool

pub data SinkError (E : Type 0) : Type 0 where
  nil_sink empty_path sink_closed encoding_after_write : SinkError E
  unknown_encoding : String → SinkError E
  open_failed : String → E → SinkError E
  write_failed : E → SinkError E
  close_failed : E → SinkError E

-- What the writers outside do.
pub record Outside (E W : Type 0) : Type 0 where
  pub write_bytes : SinkKind → List ℕ → W → Option E × W
  pub open_file : String → W → Option E × W
  pub close_file : W → Option E × W

unfoldable pub is_known : Encoding → Bool
is_known raw = true
is_known hex = true
is_known base64 = true
is_known (other name) = false

unfoldable pub name_of : Encoding → String
name_of (other name) = name
name_of enc = []

module _ {E : Type 0} where
  unfoldable pub new_sink : SinkKind → String → Sink E
  new_sink kind path = record {
    kind = kind;
    buf = [];
    path = path;
    file_open = false;
    enc = raw;
    encoder = none;
    wrote = false;
    closed = false;
  }

  -- `NewFileSink`; "-" is 45.
  unfoldable pub new_file_sink : String → Result (SinkError E) (Sink E)
  new_file_sink path =
      if string_eq path []
      then err empty_path
      else if string_eq path (45 ∷ [])
      then ok (new_sink to_stdout [])
      else ok (new_sink to_file path)

  unfoldable pub set_encoding : Sink E → Encoding → Result (SinkError E) (Sink E)
  set_encoding s enc =
      if not (is_known enc)
      then err (unknown_encoding (name_of enc))
      else if s.wrote
      then err encoding_after_write
      else ok (record s { enc = enc })

  unfoldable pub set_encoding_pointer :
      Option (Sink E) → Encoding → Result (SinkError E) (Option (Sink E))
  set_encoding_pointer none enc = err nil_sink
  set_encoding_pointer (some s) enc = elim (set_encoding s enc) [
    | err e ↦ err e
    | ok s' ↦ ok (some s')
  ]

  -- `Bytes`, nil for the other kinds.
  unfoldable pub bytes_of : Sink E → Option (List ℕ)
  bytes_of s = elim s.kind [
    | in_memory ↦ some s.buf
    | to_writer ↦ none
    | to_file ↦ none
    | to_stdout ↦ none
  ]

unfoldable pub one_piece : List ℕ → List (List ℕ)
one_piece [] = []
one_piece (a ∷ bs) = (a ∷ bs) ∷ []

-- The pieces of complete groups that the encoder writes at a time: `room` is the number of groups that
-- the piece so far can still take, and a new piece takes 256, which is 768 bytes.
unfoldable pub pieces : ℕ → List ℕ → List ℕ → List (List ℕ)
pieces room piece [] = one_piece piece
pieces room piece (a ∷ []) = one_piece (piece ++ a ∷ [])
pieces room piece (a ∷ b ∷ []) = one_piece (piece ++ a ∷ b ∷ [])
pieces zero piece (a ∷ b ∷ c ∷ gs) = piece ∷ pieces 255 (a ∷ b ∷ c ∷ []) gs
pieces (suc room) piece (a ∷ b ∷ c ∷ gs) = pieces room (piece ++ a ∷ b ∷ c ∷ []) gs

-- The group that completes pending bytes is a piece of its own.
unfoldable pub first_room : List ℕ → ℕ
first_room [] = 256
first_room (a ∷ bs) = 1

module _ {E W : Type 0} (outside : Outside E W) where
  -- What a call leaves: an error or not, the sink and the world outside.
  abbrev pub Outcome : Type 0
  Outcome = Option E × Sink E × W

  unfoldable pub ensure_open : Sink E → W → Outcome
  ensure_open s w = elim s.kind [
    | in_memory ↦ (none, s, w)
    | to_writer ↦ (none, s, w)
    | to_stdout ↦ (none, s, w)
    | to_file ↦
        if s.file_open
        then (none, s, w)
        else let (failure, w') = outside.open_file s.path w in
          elim failure [
            | some e ↦ (some e, s, w')
            | none ↦ (none, record s { file_open = true }, w')
          ]
  ]

  -- `s.raw().Write(p)`; a file sink without a file discards.
  unfoldable pub raw_write : Sink E → List ℕ → W → Outcome
  raw_write s p w = elim s.kind [
    | in_memory ↦ (none, record s { buf = s.buf ++ p }, w)
    | to_file ↦
        let (failure, w') = outside.write_bytes to_file p w in
        if s.file_open then (failure, s, w') else (none, s, w)
    | to_writer ↦ let (failure, w') = outside.write_bytes to_writer p w in (failure, s, w')
    | to_stdout ↦ let (failure, w') = outside.write_bytes to_stdout p w in (failure, s, w')
  ]

  unfoldable pub keep_encoder : List ℕ → Outcome → Outcome
  keep_encoder pending (failure, s, w) =
      (failure, record s { encoder = some (record { pending = pending; failure = failure }) }, w)

  -- The encoder writes the pieces one after the other, until one fails.
  unfoldable pub write_pieces : Sink E → List (List ℕ) → List ℕ → W → Outcome
  write_pieces s [] pending w = keep_encoder pending (none, s, w)
  write_pieces s (q ∷ qs) pending w =
      let (failure, s', w') = raw_write s (encode_base64 q) w in
      elim failure [
        | some e ↦ keep_encoder pending (some e, s', w')
        | none ↦ write_pieces s' qs pending w'
      ]

  unfoldable pub encoder_write : Encoder E → Sink E → List ℕ → W → Outcome
  encoder_write e s p w = elim e.failure [
    | some failure ↦ (some failure, s, w)
    | none ↦
        write_pieces s (pieces (first_room e.pending) [] (groups (e.pending ++ p)))
          (remainder (e.pending ++ p)) w
  ]

  -- The encoder's Close writes an incomplete group with its padding.
  unfoldable pub write_rest : Sink E → List ℕ → W → Outcome
  write_rest s [] w = (none, s, w)
  write_rest s (a ∷ bs) w = raw_write s (encode_base64 (a ∷ bs)) w

  unfoldable pub encoder_close : Encoder E → Sink E → W → Outcome
  encoder_close e s w = elim e.failure [
    | some failure ↦ (some failure, s, w)
    | none ↦ write_rest s e.pending w
  ]

  -- `NewEncoder` at the first write.
  unfoldable pub the_encoder : Sink E → Encoder E
  the_encoder s = elim s.encoder [ some e ↦ e | none ↦ record { pending = []; failure = none } ]

  unfoldable pub counted : ℕ → Outcome → Result (SinkError E) ℕ × Sink E × W
  counted n (none, s, w) = (ok n, s, w)
  counted n (some e, s, w) = (err (write_failed e), s, w)

  -- The switch on the encoding.
  unfoldable pub write_encoded :
      Encoding → Sink E → List ℕ → W → Result (SinkError E) ℕ × Sink E × W
  write_encoded raw s p w = counted (length p) (raw_write s p w)
  write_encoded hex s p w = counted (length p) (raw_write s (encode_hex p) w)
  write_encoded base64 s p w = counted (length p) (encoder_write (the_encoder s) s p w)
  write_encoded (other name) s p w = (err (unknown_encoding name), s, w)

  unfoldable pub write_opened : List ℕ → Outcome → Result (SinkError E) ℕ × Sink E × W
  write_opened p (some e, s, w) = (err (open_failed s.path e), s, w)
  write_opened p (none, s, w) = write_encoded s.enc (record s { wrote = true }) p w

  unfoldable pub write : Sink E → List ℕ → W → Result (SinkError E) ℕ × Sink E × W
  write s p w = if s.closed then (err sink_closed, s, w) else write_opened p (ensure_open s w)

  -- Close of the file, after that of the encoder; the first error is kept.
  unfoldable pub first_error : Option E → Option E → Option E
  first_error none second = second
  first_error (some e) second = some e

  unfoldable pub close_the_file : Outcome → Outcome
  close_the_file (failure, s, w) =
      let (file_failure, w') = outside.close_file w in
      if s.file_open
      then (first_error failure file_failure, record s { file_open = false }, w')
      else (failure, s, w)

  unfoldable pub close_encoder : Sink E → W → Outcome
  close_encoder s w = elim s.encoder [
    | none ↦ (none, s, w)
    | some e ↦
        let (failure, s', w') = encoder_close e s w in (failure, record s' { encoder = none }, w')
  ]

  unfoldable pub close_sink : Sink E → W → Outcome
  close_sink s w =
      if s.closed
      then (none, s, w)
      else close_the_file (close_encoder (record s { closed = true }) w)

  -- The methods on a pointer, which may be nil: `Write` on nil goes to the standard output as it is.
  unfoldable pub write_pointer :
      Option (Sink E) → List ℕ → W → Result (SinkError E) ℕ × Option (Sink E) × W
  write_pointer none p w =
      let (failure, w') = outside.write_bytes to_stdout p w in
      elim failure [ none ↦ (ok (length p), none, w') | some e ↦ (err (write_failed e), none, w') ]
  write_pointer (some s) p w = let (r, s', w') = write s p w in (r, some s', w')

  unfoldable pub close_pointer : Option (Sink E) → W → Option E × Option (Sink E) × W
  close_pointer none w = (none, none, w)
  close_pointer (some s) w = let (failure, s', w') = close_sink s w in (failure, some s', w')

  -- A caller that stops at the first error.
  unfoldable pub write_all :
      Sink E → List (List ℕ) → W → Result (SinkError E) (Unit {0}) × Sink E × W
  write_all s [] w = (ok tt, s, w)
  write_all s (p ∷ ps) w =
      let (r, s', w') = write s p w in
      elim r [ err e ↦ (err e, s', w') | ok n ↦ write_all s' ps w' ]
