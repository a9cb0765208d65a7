-- ===== src/Meta/Runs.antt =====
-- The theorems at concrete inputs.
use tongsuo_go.Base.{ℕ, arith, ◌≡◌, refl, List, [], ◌∷◌, Option, none, some, ok, err}
use tongsuo_go.Base.Dict.{string_eq}
use tongsuo_go.Base.Text.{trim_space}
use tongsuo_go.Meta.Base64.{letter, encode_base64}
use tongsuo_go.Meta.Encoding.{
  base64, codes, encode, decode, without, is_line_end, parse_encoding, encoding_named, to_lower,
  lower_byte,
}
use tongsuo_go.Meta.Encoding.RoundTrip.{decode-spaced, skipped}
use tongsuo_go.Meta.Sink.{in_memory, Sink, Outside, new_sink, set_encoding, is_known}
use tongsuo_go.Meta.Sink.Memory.{Stores, set_encoding-Stores}
use tongsuo_go.Meta.Source.{from_reader, new_source, Inputs, consumed, read_all, Source}
use tongsuo_go.Meta.Source.Reads.{is_one_shot, is_one_shot_kind, read_all-again}
use tongsuo_go.Meta.Passphrase.{
  Passphrase, Environment, new_passphrase, split_passphrase_spec, cut_colon, scheme_of, from_scheme,
  read_hidden, hidden, trim_passphrase_newline, keep_line_end,
}
use tongsuo_go.Meta.Passphrase.Sources.{new_passphrase-plain, new_passphrase-desc}

parse_encoding_example : parse_encoding (codes " B64") ≡ ok base64
unfolding parse_encoding encoding_named to_lower lower_byte trim_space string_eq
parse_encoding_example = refl

-- "QU", a line end, "I=" is "AB".
decode-spaced_example : decode (81 ∷ 85 ∷ 13 ∷ 10 ∷ 73 ∷ 61 ∷ []) base64 ≡ ok (65 ∷ 66 ∷ [])
unfolding encode encode_base64 letter without skipped is_line_end
decode-spaced_example =
    decode-spaced base64 (65 ∷ 66 ∷ []) (81 ∷ 85 ∷ 13 ∷ 10 ∷ 73 ∷ 61 ∷ []) (81 ∷ 85 ∷ 73 ∷ 61 ∷ [])
      (omega arith, (omega arith, tt)) refl refl

-- A world outside that is never used.
abbrev outside : Outside ℕ ℕ
outside = record {
  write_bytes = λ kind p w. (some 5, w);
  open_file = λ path w. (some 5, w);
  close_file = λ w. (some 5, w);
}

abbrev base64_sink : Sink ℕ
base64_sink = record (new_sink in_memory []) { enc = base64 }

-- Four bytes in three writes.
set_encoding-Stores_example :
    Stores outside
      ((65 ∷ []) ∷ (66 ∷ 67 ∷ []) ∷ (68 ∷ []) ∷ [])
      base64_sink
      0
      (81 ∷ 85 ∷ 74 ∷ 68 ∷ 82 ∷ 65 ∷ 61 ∷ 61 ∷ [])
unfolding set_encoding is_known new_sink encode encode_base64 letter
set_encoding-Stores_example =
    set_encoding-Stores outside base64 base64_sink ((65 ∷ []) ∷ (66 ∷ 67 ∷ []) ∷ (68 ∷ []) ∷ []) 0
      (81 ∷ 85 ∷ 74 ∷ 68 ∷ 82 ∷ 65 ∷ 61 ∷ 61 ∷ []) refl refl

abbrev inputs : Inputs ℕ ℕ
inputs = record { open_path = λ path w. (none, w); read_rest = λ kind w. (ok (w ∷ []), 0) }

abbrev after_read : Option Source × ℕ
after_read = let (r, s, w) = read_all inputs (some (new_source from_reader)) 7 in (s, w)

read_all-again_example :
    read_all inputs after_read.0 after_read.1 ≡ (err consumed, after_read.0, after_read.1)
unfolding is_one_shot is_one_shot_kind new_source
read_all-again_example = read_all-again inputs (some (new_source from_reader)) 7

abbrev environment : List ℕ → Environment ℕ
environment secret = record {
  variable = λ name. some secret;
  file = λ path. ok secret;
  descriptor = λ fd. none;
  standard_input = ok secret;
}

-- "stdin" without a colon is a passphrase.
new_passphrase-plain_example :
    new_passphrase (environment []) (codes "stdin")
    ≡ ok (record { value = codes "stdin"; desc = codes "pass:***" })
new_passphrase-plain_example =
    new_passphrase-plain (environment []) (codes "stdin") (refl, (refl, (refl, (refl, (refl, tt)))))

abbrev passphrase : List ℕ → Passphrase
passphrase secret = record { value = secret; desc = codes "stdin:***" }

new_passphrase-desc_example : (passphrase (65 ∷ [])).desc ≡ (passphrase (66 ∷ 67 ∷ [])).desc
unfolding new_passphrase split_passphrase_spec cut_colon scheme_of from_scheme read_hidden hidden
    trim_passphrase_newline keep_line_end string_eq to_lower lower_byte trim_space
new_passphrase-desc_example =
    new_passphrase-desc (environment (65 ∷ 10 ∷ [])) (environment (66 ∷ 67 ∷ [])) (codes "stdin:")
      (passphrase (65 ∷ [])) (passphrase (66 ∷ 67 ∷ [])) refl refl
