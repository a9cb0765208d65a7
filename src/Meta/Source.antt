-- ===== src/Meta/Source.antt =====
-- `Source` of meta/source.go: where input bytes come from. A reader, a file and the standard input are
-- outside this repository: a parameter says what they deliver.
pub mod Reads
use tongsuo_go.Base.{
  ℕ, List, [], ◌∷◌, Option, none, some, Bool, true, false, if◌then◌else◌, Result, ok, err,
}
use tongsuo_go.Base.Dict.{String, string_eq}
use tongsuo_go.Base.Text.{trim_space}

-- The kinds, with the field that each of them uses.
pub data SourceKind : Type 0 where
  from_bytes : List ℕ → SourceKind
  from_reader from_stdin : SourceKind
  from_file : String → SourceKind

pub record Source : Type 0 where
  pub kind : SourceKind
  pub used : Bool

pub data SourceError (E : Type 0) : Type 0 where
  empty_path consumed : SourceError E
  open_failed : String → E → SourceError E
  read_failed : E → SourceError E

-- Opening a file, and `io.ReadAll` of the reader that a kind of source gives.
pub record Inputs (E W : Type 0) : Type 0 where
  pub open_path : String → W → Option E × W
  pub read_rest : SourceKind → W → Result E (List ℕ) × W

unfoldable pub new_source : SourceKind → Source
new_source kind = record { kind = kind; used = false }

unfoldable pub new_file_source : {E : Type 0} → String → Result (SourceError E) Source
new_file_source path =
    if string_eq (trim_space path) []
    then err empty_path
    else if string_eq path (45 ∷ [])
    then ok (new_source from_stdin)
    else ok (new_source (from_file path))

module _ {E W : Type 0} (inputs : Inputs E W) where
  -- What a call leaves: its result, the source and the world outside. The source is a pointer, which
  -- may be nil.
  abbrev pub Outcome : Type 0 → Type 0
  Outcome A = Result (SourceError E) A × Option Source × W

  -- A source that can be opened once.
  unfoldable pub open_once : Source → W → Outcome SourceKind
  open_once s w =
      if s.used then (err consumed, some s, w) else (ok s.kind, some (record s { used = true }), w)

  unfoldable pub opened : String → Option E → Result (SourceError E) SourceKind
  opened path none = ok (from_file path)
  opened path (some e) = err (open_failed path e)

  -- `Open` by the kind of the source. It returns the kind whose reader is opened.
  unfoldable pub open_kind : SourceKind → Source → W → Outcome SourceKind
  open_kind (from_bytes bytes) s w = (ok (from_bytes bytes), some s, w)
  open_kind from_reader s w = open_once s w
  open_kind from_stdin s w = open_once s w
  open_kind (from_file path) s w =
      let (failure, w') = inputs.open_path path w in (opened path failure, some s, w')

  -- `Open`: nil opens the standard input.
  unfoldable pub open_source : Option Source → W → Outcome SourceKind
  open_source none w = (ok from_stdin, none, w)
  open_source (some s) w = open_kind s.kind s w

  -- `io.ReadAll(r)`, of the bytes in memory or of what is outside.
  unfoldable pub read_kind : SourceKind → W → Result (SourceError E) (List ℕ) × W
  read_kind (from_bytes bytes) w = (ok bytes, w)
  read_kind kind w =
      let (r, w') = inputs.read_rest kind w in
      elim r [ ok bytes ↦ (ok bytes, w') | err e ↦ (err (read_failed e), w') ]

  unfoldable pub read_opened : Outcome SourceKind → Outcome (List ℕ)
  read_opened (err e, s, w) = (err e, s, w)
  read_opened (ok kind, s, w) = let (r, w') = read_kind kind w in (r, s, w')

  unfoldable pub read_all : Option Source → W → Outcome (List ℕ)
  read_all s w = read_opened (open_source s w)
