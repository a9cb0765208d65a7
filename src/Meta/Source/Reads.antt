-- ===== src/Meta/Source/Reads.antt =====
-- How often a source can be read.
use tongsuo_go.Base.{◌≡◌, refl, ap, Option, none, some, Bool, true, false, if◌then◌else◌, err}
use tongsuo_go.Base.Dict.{String}
use tongsuo_go.Meta.Source.{
  SourceKind, from_bytes, from_reader, from_stdin, from_file, Source, consumed, Inputs, opened,
  open_once, open_kind, open_source, read_opened, read_all,
}

-- The sources over a reader and over the standard input, but not nil.
unfoldable pub is_one_shot_kind : SourceKind → Bool
is_one_shot_kind from_reader = true
is_one_shot_kind from_stdin = true
is_one_shot_kind (from_bytes bytes) = false
is_one_shot_kind (from_file path) = false

unfoldable pub is_one_shot : Option Source → Bool
is_one_shot none = false
is_one_shot (some s) = is_one_shot_kind s.kind

module _ {E W : Type 0} (inputs : Inputs E W) where
  read_opened-source :
      (path : String) (s : Option Source) (failure : Option E) (w : W)
      → (read_opened inputs (opened inputs path failure, s, w)).1 ≡ s
  unfolding read_opened opened
  read_opened-source path s none w = refl
  read_opened-source path s (some e) w = refl

  read_all-file :
      (path : String) (used : Bool) (w : W)
      → let s : Option Source = some (record { kind = from_file path; used = used }) in
        (read_all inputs s w).1 ≡ s
  unfolding read_all open_source open_kind
  read_all-file path used w =
      let (failure, w') = inputs.open_path path w in read_opened-source path _ failure w'

  file_again :
      (path : String) (used : Bool) (w : W)
      → let s : Option Source = some (record { kind = from_file path; used = used }) in
        let (r, s', w') = read_all inputs s w in read_all inputs s' w' ≡ read_all inputs s w'
  file_again path used w =
      ap
        (λ s.
          read_all inputs s
            (read_all inputs (some (record { kind = from_file path; used = used })) w).2)
        (read_all-file path used w)

  again :
      (kind : SourceKind) (used : Bool) (w : W)
      → let s : Option Source = some (record { kind = kind; used = used }) in
        let (r, s', w') = read_all inputs s w in
        read_all inputs s' w'
        ≡ (if is_one_shot_kind kind then (err consumed, s', w') else read_all inputs s w')
  unfolding read_all read_opened open_source open_kind open_once is_one_shot_kind
  again from_reader true w = refl
  again from_reader false w = refl
  again from_stdin true w = refl
  again from_stdin false w = refl
  again (from_bytes bytes) used w = refl
  again (from_file path) used w = file_again path used w

  -- After a read_all, whether it succeeded or not, a second read_all of a source over a reader or
  -- the standard input that is not nil fails as consumed and changes nothing. Of a nil source, of
  -- bytes and of a file it does what it does on the source as it was at first, so that nil is
  -- never consumed.
  pub read_all-again :
      (s : Option Source) (w : W)
      → let (r, s', w') = read_all inputs s w in
        read_all inputs s' w'
        ≡ (if is_one_shot s then (err consumed, s', w') else read_all inputs s w')
  unfolding is_one_shot
  read_all-again none w = unfold read_all read_opened open_source in refl
  read_all-again (some s) w = again s.kind s.used w
