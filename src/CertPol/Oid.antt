-- ===== src/CertPol/Oid.antt =====
-- `encodeOID`, `decodeOID`, `base128` and `readBase128` of x509/certpol_der.go.
pub mod RoundTrip
use tongsuo_go.Base.{
  ℕ, zero, suc, ◌+◌, ◌-◌, ◌*◌, ◌/◌, ◌%◌, ◌^◌, ◌<◌, bit_or, List, [], ◌∷◌, ◌++◌, map, Option, none,
  some, ltb, ◌==◌, if◌then◌else◌, ◌&&◌, length, Result, ok, err, ◌>>=◌, Bool, false,
}
use tongsuo_go.Base.Digits.{groups}
use tongsuo_go.Base.Text.{split, join, trim_space}
use tongsuo_go.Base.Text.Decimal.{parse_uint, format_uint}
use tongsuo_go.CertPol.Types.{
  Bytes, OidError, empty_oid, too_few_arcs, empty_arc, bad_arc, first_arc, second_arc,
  second_arc_too_large, ParseError, stuck,
}

abbrev pub max_u64 : ℕ
max_u64 = 2 ^ 64 - 1

-- `b[i] |= 0x80` on all groups but the last.
unfoldable pub mark_continued : Bytes → Bytes
mark_continued [] = []
mark_continued (b ∷ []) = b ∷ []
mark_continued (b ∷ c ∷ cs) = bit_or b 0x80 ∷ mark_continued (c ∷ cs)

unfoldable pub base128 : ℕ → Bytes
base128 v = if v == 0 then 0x00 ∷ [] else mark_continued (groups 128 v v [])

-- The loop of `encodeOID` over the parts.
unfoldable pub parse_arcs : List Bytes → Result OidError (List ℕ)
parse_arcs [] = ok []
parse_arcs ([] ∷ parts) = err empty_arc
parse_arcs ((c ∷ p) ∷ parts) = elim (parse_uint (c ∷ p)) [
  | none ↦ err bad_arc
  | some v ↦ do arcs ← parse_arcs parts; ok (v ∷ arcs)
]

unfoldable pub base128_all : List ℕ → Bytes
base128_all [] = []
base128_all (a ∷ arcs) = base128 a ++ base128_all arcs

-- The checks on the first two arcs, and the encoding. `parse_arcs` keeps the number of parts, so
-- that there are two arcs.
unfoldable pub encode_arcs : List ℕ → Result OidError Bytes
encode_arcs [] = err too_few_arcs
encode_arcs (a ∷ []) = err too_few_arcs
encode_arcs (a ∷ b ∷ arcs) =
    if ltb 2 a
    then err first_arc
    else if ltb a 2 && ltb 39 b
    then err second_arc
    else if a == 2 && ltb (max_u64 / 40) b
    then err second_arc_too_large
    else ok (base128 ((a * 40 + b) % 2 ^ 64) ++ base128_all arcs)

unfoldable pub encode_parts : List Bytes → Result OidError Bytes
encode_parts parts =
    if ltb (length parts) 2 then err too_few_arcs else do arcs ← parse_arcs parts; encode_arcs arcs

unfoldable pub encode_trimmed : Bytes → Result OidError Bytes
encode_trimmed [] = err empty_oid
encode_trimmed (c ∷ s) = encode_parts (split b'.' (c ∷ s))

unfoldable pub encode_oid : Bytes → Result OidError Bytes
encode_oid oid = encode_trimmed (trim_space oid)

-- The loop of `readBase128` at the value `v`. It returns the bytes behind the number, which the
-- caller gets in the source as `rest[used:]`. The low seven bits of `v<<7` are zero.
unfoldable pub read_base128_loop : ℕ → Bytes → Option (ℕ × Bytes)
read_base128_loop v [] = none
read_base128_loop v (b ∷ bs) =
    let w = v * 128 % 2 ^ 64 + b % 128 in
    let more = read_base128_loop w bs in
    if ltb b 0x80 then some (w, bs) else if ltb (max_u64 / 128) w then none else more

unfoldable pub read_base128 : Bytes → Option (ℕ × Bytes)
read_base128 bytes = read_base128_loop 0 bytes

unfoldable pub with_arc : ℕ → Option (List ℕ) → Option (List ℕ)
with_arc v none = none
with_arc v (some arcs) = some (v ∷ arcs)

-- The loop of `decodeOID` over the rest, with none where it returns "". Every round takes a byte or
-- more, and the fuel is the number of bytes; a loop without fuel is stuck.
unfoldable pub read_arcs : ℕ → Bytes → Result ParseError (Option (List ℕ))
read_arcs fuel [] = ok (some [])
read_arcs zero (b ∷ bs) = err stuck
read_arcs (suc fuel) (b ∷ bs) = elim (read_base128 (b ∷ bs)) [
  | none ↦ ok none
  | some (v, rest) ↦ do arcs ← read_arcs fuel rest; ok (with_arc v arcs)
]

-- The first two arcs of the first number.
unfoldable pub split_first : ℕ → List ℕ → List ℕ
split_first first arcs =
    if ltb first 40
    then 0 ∷ first ∷ arcs
    else if ltb first 80
    then 1 ∷ (first - 40) ∷ arcs
    else 2 ∷ (first - 80) ∷ arcs

unfoldable pub with_first : ℕ → Option (List ℕ) → Option (List ℕ)
with_first first none = none
with_first first (some arcs) = some (split_first first arcs)

unfoldable pub decode_arcs : Bytes → Result ParseError (Option (List ℕ))
decode_arcs content = elim (read_base128 content) [
  | none ↦ ok none
  | some (first, rest) ↦ do arcs ← read_arcs (length rest) rest; ok (with_first first arcs)
]

unfoldable pub format_arcs : List ℕ → Bytes
format_arcs arcs = join b'.' (map format_uint arcs)

unfoldable pub oid_text : Option (List ℕ) → Bytes
oid_text none = []
oid_text (some arcs) = format_arcs arcs

-- `decodeOID` returns the empty text for the empty content and for any content that it cannot read.
unfoldable pub decode_oid : Bytes → Result ParseError Bytes
decode_oid content = do arcs ← decode_arcs content; ok (oid_text arcs)
