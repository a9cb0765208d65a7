-- ===== src/Meta/Passphrase.antt =====
-- The passphrase sources of meta/passphrase.go. The environment, the files, the descriptors and the
-- standard input are outside this repository: a parameter says what a read of each of them gives.
pub mod Sources
use tongsuo_go.Base.{
  ℕ, ◌+◌, ◌-◌, ◌^◌, ◌≤◌, List, [], ◌∷◌, ◌++◌, Option, none, some, Bool, true, false, ◌||◌,
  if◌then◌else◌, ◌==◌, leb, Result, ok, err, wrap, ◌>>=◌,
}
use tongsuo_go.Base.Dict.{String, string_eq}
use tongsuo_go.Base.Signed.{ℤ, pos, negsuc}
use tongsuo_go.Base.Text.{trim_space}
use tongsuo_go.Base.Text.Decimal.{parse_uint}
use tongsuo_go.Meta.Encoding.{codes, to_lower}

pub record Passphrase : Type 0 where
  pub value : List ℕ
  pub desc : String

pub data PassphraseError (E : Type 0) : Type 0 where
  empty_variable empty_path unknown_source : PassphraseError E
  not_set : String → PassphraseError E
  invalid_text : String → PassphraseError E
  invalid_descriptor : ℤ → PassphraseError E
  read_failed : E → PassphraseError E

-- `os.LookupEnv`, `os.ReadFile`, `os.NewFile` (`none` for nil) with `io.ReadAll`, and `os.Stdin`.
pub record Environment (E : Type 0) : Type 0 where
  pub variable : String → Option (List ℕ)
  pub file : String → Result E (List ℕ)
  pub descriptor : ℤ → Option (Result E (List ℕ))
  pub standard_input : Result E (List ℕ)

-- The text up to the first colon (58) and what follows it, if there is one.
unfoldable pub cut_colon : String → Option (String × String)
cut_colon [] = none
cut_colon (c ∷ s) =
    let rest = cut_colon s in
    if c == 58
    then some ([], s)
    else elim rest [ none ↦ none | some (head, tail) ↦ some (c ∷ head, tail) ]

-- `splitPassphraseSpec`: scheme, argument, and whether there was a prefix. The loop over the known
-- schemes returns what the code returns after it.
unfoldable pub split_passphrase_spec : String → String × String × Bool
split_passphrase_spec spec = elim (cut_colon spec) [
  | none ↦ ([], spec, false)
  | some (head, tail) ↦ (to_lower (trim_space head), tail, true)
]

-- The schemes that the switch of `NewPassphrase` knows.
pub data Scheme : Type 0 where
  pass variable file descriptor standard_input unknown : Scheme

unfoldable pub scheme_of : String → Scheme
scheme_of scheme =
    if string_eq scheme (codes "pass")
    then pass
    else if string_eq scheme (codes "env")
    then variable
    else if string_eq scheme (codes "file")
    then file
    else if string_eq scheme (codes "fd")
    then descriptor
    else if string_eq scheme (codes "stdin")
    then standard_input
    else unknown

-- Trailing line ends: 10 and 13.
unfoldable pub keep_line_end : ℕ → List ℕ → List ℕ
keep_line_end c [] = if c == 10 || c == 13 then [] else c ∷ []
keep_line_end c (d ∷ s) = c ∷ d ∷ s

unfoldable pub trim_passphrase_newline : List ℕ → List ℕ
trim_passphrase_newline [] = []
trim_passphrase_newline (c ∷ s) = keep_line_end c (trim_passphrase_newline s)

-- `strconv.Atoi`: an optional sign, 43 or 45, and digits in the range of an `int`.
unfoldable pub signed : Bool → Option ℕ → Option ℤ
signed negative none = none
signed false (some n) = if leb n (2 ^ 63 - 1) then some (pos n) else none
signed true (some n) =
    if n == 0 then some (pos 0) else if leb n (2 ^ 63) then some (negsuc (n - 1)) else none

unfoldable pub atoi : String → Option ℤ
atoi [] = none
atoi (c ∷ s) =
    if c == 43
    then signed false (parse_uint s)
    else if c == 45
    then signed true (parse_uint s)
    else signed false (parse_uint (c ∷ s))

unfoldable pub hidden : String → List ℕ → Passphrase
hidden desc bytes = record { value = trim_passphrase_newline bytes; desc = desc }

module _ {E : Type 0} where
  unfoldable pub read_hidden : String → Result E (List ℕ) → Result (PassphraseError E) Passphrase
  read_hidden desc (err e) = err (read_failed e)
  read_hidden desc (ok bytes) = ok (hidden desc bytes)

  unfoldable pub from_variable : String → Option (List ℕ) → Result (PassphraseError E) Passphrase
  from_variable arg none = err (not_set arg)
  from_variable arg (some v) = ok (record { value = v; desc = codes "env:" ++ arg })

  unfoldable pub from_descriptor :
      ℤ → Option (Result E (List ℕ)) → Result (PassphraseError E) Passphrase
  from_descriptor fd none = err (invalid_descriptor fd)
  from_descriptor fd (some bytes) = read_hidden (codes "fd:***") bytes

  unfoldable pub from_number :
      Environment E → String → Option ℤ → Result (PassphraseError E) Passphrase
  from_number env arg none = err (invalid_text arg)
  from_number env arg (some fd) = from_descriptor fd (env.descriptor fd)

  unfoldable pub unless_empty :
      String
      → PassphraseError E
      → Result (PassphraseError E) Passphrase
      → Result (PassphraseError E) Passphrase
  unless_empty arg e read = if string_eq arg [] then err e else read

  -- The switch on the scheme.
  unfoldable pub from_scheme :
      Environment E → Scheme → String → Result (PassphraseError E) Passphrase
  from_scheme env pass arg = ok (record { value = arg; desc = codes "pass:***" })
  from_scheme env variable arg =
      unless_empty arg empty_variable (from_variable arg (env.variable arg))
  from_scheme env file arg =
      unless_empty arg empty_path (read_hidden (codes "file:***") (env.file arg))
  from_scheme env descriptor arg = from_number env arg (atoi (trim_space arg))
  from_scheme env standard_input arg = read_hidden (codes "stdin:***") env.standard_input
  from_scheme env unknown arg = err unknown_source

  unfoldable pub new_passphrase : Environment E → String → Result (PassphraseError E) Passphrase
  new_passphrase env spec =
      let (scheme, arg, has_prefix) = split_passphrase_spec spec in
      if has_prefix
      then from_scheme env (scheme_of scheme) arg
      else from_scheme env (scheme_of (codes "pass")) spec

unfoldable pub is_empty : Passphrase → Bool
is_empty p = elim p.value [ [] ↦ true | c ∷ s ↦ false ]
