-- ===== src/CertPol/Oid/RoundTrip.antt =====
-- `readBase128` and `decodeOID` on what `base128` and `encodeOID` wrote.
use tongsuo_go.Base.{
  ℕ, zero, suc, ◌+◌, ◌-◌, ◌*◌, ◌/◌, ◌%◌, ◌^◌, ◌≤◌, ◌<◌, bit_or, List, [], ◌∷◌, ◌++◌, some, ltb,
  length, ok, ◌≡◌, refl, ap, ◌∙◌, arith, All, Bool-cases, inl, inr, Option-cases, suc-==-zero,
  length-append, >>=-eq-ok, ◌>>=◌,
}
use tongsuo_go.Base.Bits.{set_top_bit}
use tongsuo_go.Base.Digits.{
  groups, from_groups, groups_pos, groups-All, le-from_groups, groups128_value,
}
use tongsuo_go.Base.Text.{split, trim_space}
use tongsuo_go.Base.Text.Decimal.{parse_uint, parse_uint-lt}
use tongsuo_go.CertPol.Types.{Bytes}
use tongsuo_go.CertPol.Oid.{
  mark_continued, base128, parse_arcs, base128_all, encode_arcs, encode_parts, encode_trimmed,
  encode_oid, read_base128_loop, read_base128, with_arc, read_arcs, split_first, with_first,
  decode_arcs, oid_text, format_arcs, decode_oid,
}

abbrev pub IsU64 : ℕ → Type 0
IsU64 v = v < 2 ^ 64

read_last :
    (v b : ℕ) (rest : Bytes)
    → b < 128
    → v * 128 + b < 2 ^ 64
    → read_base128_loop v (b ∷ rest) ≡ some (v * 128 + b, rest)
unfolding read_base128_loop
read_last v b rest hb fits = ground arith

read_continued :
    (v b : ℕ) (rest : Bytes)
    → b < 128
    → v * 128 + b ≤ (2 ^ 64 - 1) / 128
    → read_base128_loop v ((b + 128) ∷ rest) ≡ read_base128_loop (v * 128 + b) rest
unfolding read_base128_loop
read_continued v b rest hb fits = ground arith

-- Groups after a first one, marked as the encoder marks them.
read-mark_continued :
    (v g : ℕ) (gs rest : Bytes)
    → All (λ c. c < 128) (g ∷ gs)
    → from_groups 128 v (g ∷ gs) < 2 ^ 64
    → read_base128_loop v (mark_continued (g ∷ gs) ++ rest)
      ≡ some (from_groups 128 v (g ∷ gs), rest)
unfolding mark_continued from_groups
read-mark_continued v g [] rest (hg, hs) fits = read_last v g rest hg fits
read-mark_continued v g (c ∷ cs) rest (hg, hs) fits =
    let small : (v * 128 + g) * 128 + c ≤ from_groups 128 ((v * 128 + g) * 128 + c) cs =
      le-from_groups 128 (omega arith) ((v * 128 + g) * 128 + c) cs in
    rw (set_top_bit g hg) (
      read_continued v g (mark_continued (c ∷ cs) ++ rest) hg (omega arith)
      ∙ read-mark_continued (v * 128 + g) c cs rest hs fits)

read-groups :
    (v : ℕ) (rest : Bytes)
    → 0 < v
    → IsU64 v
    → read_base128_loop 0 (mark_continued (groups 128 v v []) ++ rest) ≡ some (v, rest)
read-groups v rest p h =
    let (g, gs, e, q) = groups_pos 128 (omega arith) v v [] p (omega arith) in
    let small : All (λ c. c < 128) (g ∷ gs) = rw e at (groups-All 128 (omega arith) v v [] tt) in
    let value : from_groups 128 0 (g ∷ gs) ≡ v = rw e at (groups128_value v) in
    rw e
      (read-mark_continued 0 g gs rest small (omega arith) ∙ ap (λ (n : ℕ). some (n, rest)) value)

base128-suc : (v : ℕ) → base128 (suc v) ≡ mark_continued (groups 128 (suc v) (suc v) [])
unfolding base128
base128-suc v = rw (suc-==-zero v)

-- read_base128 reads every 64-bit number back from its base128 form, and leaves the bytes that
-- follow.
pub read_base128-base128 :
    (v : ℕ) (rest : Bytes) → IsU64 v → read_base128 (base128 v ++ rest) ≡ some (v, rest)
unfolding read_base128
read_base128-base128 zero rest h = unfold base128 read_base128_loop in refl
read_base128-base128 (suc v) rest h = rw (base128-suc v) (read-groups (suc v) rest (omega arith) h)

mark_pos : (g : ℕ) (gs : Bytes) → (b : ℕ) × (bs : Bytes) × (mark_continued (g ∷ gs) ≡ b ∷ bs)
unfolding mark_continued
mark_pos g [] = (g, [], refl)
mark_pos g (c ∷ cs) = (bit_or g 0x80, mark_continued (c ∷ cs), refl)

base128_pos : (v : ℕ) → (b : ℕ) × (bs : Bytes) × (base128 v ≡ b ∷ bs)
base128_pos zero = (0, [], unfold base128 in refl)
base128_pos (suc v) =
    let (g, gs, e, q) =
      groups_pos 128 (omega arith) (suc v) (suc v) [] (omega arith) (omega arith) in
    let (b, bs, m) = mark_pos g gs in (b, bs, rw (base128-suc v, e) m)

read_arcs-step :
    (fuel b : ℕ) (bs : Bytes) {v : ℕ} {rest : Bytes} {arcs : List ℕ}
    → read_base128 (b ∷ bs) ≡ some (v, rest)
    → read_arcs fuel rest ≡ ok (some arcs)
    → read_arcs (suc fuel) (b ∷ bs) ≡ ok (some (v ∷ arcs))
unfolding read_arcs with_arc
read_arcs-step fuel b bs e t = rw (read_arcs, e, t) refl

read_arcs-base128_all :
    (arcs : List ℕ) (fuel : ℕ)
    → All IsU64 arcs
    → length (base128_all arcs) ≤ fuel
    → read_arcs fuel (base128_all arcs) ≡ ok (some arcs)
unfolding base128_all
read_arcs-base128_all [] fuel h room = unfold read_arcs in refl
read_arcs-base128_all (a ∷ arcs) fuel (ha, hs) room =
    let (b, bs, e) = base128_pos a in
    let first : read_base128 (b ∷ bs ++ base128_all arcs) ≡ some (a, base128_all arcs) =
      rw e at (read_base128-base128 a (base128_all arcs) ha) in
    let room' : suc (length (bs ++ base128_all arcs)) ≤ fuel = rw e at room in
    let more : length (base128_all arcs) ≤ fuel - 1 =
      omega (arith, length-append bs (base128_all arcs)) in
    let positive : fuel ≡ suc (fuel - 1) = omega arith in
    rw (e, positive)
      (read_arcs-step (fuel - 1) b (bs ++ base128_all arcs) first
        (read_arcs-base128_all arcs (fuel - 1) hs more))

-- The checks of the encoder, as bounds, and what it then writes.
record AreEncodable (a b : ℕ) : Type 0 where
  first_small : a ≤ 2
  second_small : a < 2 → b < 40
  second_bound : a ≡ 2 → b ≤ (2 ^ 64 - 1) / 40

encode_arcs-bounds :
    (a b : ℕ) (arcs : List ℕ) (c : Bytes) → encode_arcs (a ∷ b ∷ arcs) ≡ ok c → AreEncodable a b
unfolding encode_arcs
encode_arcs-bounds a b arcs c e = ground arith

encode_arcs-shape :
    (a b : ℕ) (arcs : List ℕ) (c : Bytes)
    → encode_arcs (a ∷ b ∷ arcs) ≡ ok c
    → c ≡ base128 ((a * 40 + b) % 2 ^ 64) ++ base128_all arcs
unfolding encode_arcs
encode_arcs-shape a b arcs c e = ground arith

first_fits : (a b : ℕ) → AreEncodable a b → a * 40 + b < 2 ^ 64
first_fits a b h = ground arith

split_first-lem :
    (a b : ℕ) (arcs : List ℕ) → AreEncodable a b → split_first (a * 40 + b) arcs ≡ a ∷ b ∷ arcs
unfolding split_first
split_first-lem a b arcs h = ground arith

decode_arcs-step :
    (content : Bytes) {first : ℕ} {rest : Bytes} {arcs : List ℕ}
    → read_base128 content ≡ some (first, rest)
    → read_arcs (length rest) rest ≡ ok (some arcs)
    → decode_arcs content ≡ ok (some (split_first first arcs))
unfolding decode_arcs with_first
decode_arcs-step content e t = rw (decode_arcs, e, t) refl

decode_arcs-two :
    (first : ℕ) (arcs : List ℕ)
    → IsU64 first
    → All IsU64 arcs
    → decode_arcs (base128 first ++ base128_all arcs) ≡ ok (some (split_first first arcs))
decode_arcs-two first arcs h hs =
    decode_arcs-step (base128 first ++ base128_all arcs)
      (read_base128-base128 first (base128_all arcs) h)
      (read_arcs-base128_all arcs (length (base128_all arcs)) hs (omega arith))

-- When encode_arcs accepts a list of 64-bit arcs, decode_arcs reads the same list from the
-- encoding.
pub decode_arcs-encode_arcs :
    (arcs : List ℕ) (c : Bytes)
    → All IsU64 arcs
    → encode_arcs arcs ≡ ok c
    → decode_arcs c ≡ ok (some arcs)
decode_arcs-encode_arcs [] c h e = unfold encode_arcs in cc
decode_arcs-encode_arcs (a ∷ []) c h e = unfold encode_arcs in cc
decode_arcs-encode_arcs (a ∷ b ∷ arcs) c (ha, (hb, hs)) e =
    let bounds = encode_arcs-bounds a b arcs c e in
    let fits = first_fits a b bounds in
    let whole : (a * 40 + b) % 2 ^ 64 ≡ a * 40 + b = omega arith in
    rw (encode_arcs-shape a b arcs c e, whole)
      (decode_arcs-two (a * 40 + b) arcs fits hs
        ∙ ap (λ arcs. ok (some arcs)) (split_first-lem a b arcs bounds))

-- The steps of a run of `parse_arcs` that succeeds.
parse_arcs-cons :
    (c : ℕ) (p : Bytes) (parts : List Bytes) (arcs : List ℕ)
    → parse_arcs ((c ∷ p) ∷ parts) ≡ ok arcs
    → (v : ℕ) × (rest : List ℕ) × (parse_uint (c ∷ p) ≡ some v)
      × (parse_arcs parts ≡ ok rest)
      × (arcs ≡ v ∷ rest)
unfolding parse_arcs
parse_arcs-cons c p parts arcs e = elim (Option-cases (parse_uint (c ∷ p))) [
  | inl bad ↦ absurd (cc (rw (bad, parse_arcs) at e))
  | inr (v, good) ↦
      let run : (parse_arcs parts >>= λ rest. ok (v ∷ rest)) ≡ ok arcs =
        rw (good, parse_arcs) at e in
      let (rest, r, t) = >>=-eq-ok (parse_arcs parts) (λ rest. ok (v ∷ rest)) run in
      (v, rest, good, r, cc)
]

parse_arcs-All : (parts : List Bytes) (arcs : List ℕ) → parse_arcs parts ≡ ok arcs → All IsU64 arcs
parse_arcs-All [] [] e = tt
parse_arcs-All [] (a ∷ arcs) e = unfold parse_arcs in cc
parse_arcs-All ([] ∷ parts) arcs e = unfold parse_arcs in cc
parse_arcs-All ((c ∷ p) ∷ parts) [] e =
    let (v, rest, good, r, t) = parse_arcs-cons c p parts [] e in cc
parse_arcs-All ((c ∷ p) ∷ parts) (a ∷ arcs) e =
    let (v, rest, good, r, t) = parse_arcs-cons c p parts (a ∷ arcs) e in
    let head : a ≡ v = cc in
    let tail : parse_arcs parts ≡ ok arcs = cc in
    (rw head (parse_uint-lt (c ∷ p) v good), parse_arcs-All parts arcs tail)

encode_parts-ok :
    (parts : List Bytes) (c : Bytes)
    → encode_parts parts ≡ ok c
    → (arcs : List ℕ) × (parse_arcs parts ≡ ok arcs) × (encode_arcs arcs ≡ ok c)
unfolding encode_parts
encode_parts-ok parts c e = elim (Bool-cases (ltb (length parts) 2)) [
  | inl few ↦ absurd (cc (rw few at e))
  | inr many ↦ >>=-eq-ok (parse_arcs parts) encode_arcs (rw many at e)
]

-- The steps of an accepted OID text.
pub encode_oid-ok :
    (oid c : Bytes)
    → encode_oid oid ≡ ok c
    → (arcs : List ℕ) × (parse_arcs (split b'.' (trim_space oid)) ≡ ok arcs)
      × (encode_arcs arcs ≡ ok c)
unfolding encode_oid
encode_oid-ok oid c e = trimmed (trim_space oid) e
  where
    trimmed :
        (t : Bytes)
        → encode_trimmed t ≡ ok c
        → (arcs : List ℕ) × (parse_arcs (split b'.' t) ≡ ok arcs) × (encode_arcs arcs ≡ ok c)
    trimmed [] h = unfold encode_trimmed in cc
    trimmed (b ∷ t) h = encode_parts-ok (split b'.' (b ∷ t)) c (unfold encode_trimmed in h)

-- When encode_oid accepts a text, the trimmed text splits into arcs that parse_arcs reads, and
-- decode_oid prints exactly these arcs from the encoding.
pub decode_oid-encode_oid :
    (oid c : Bytes)
    → encode_oid oid ≡ ok c
    → (arcs : List ℕ) × (parse_arcs (split b'.' (trim_space oid)) ≡ ok arcs)
      × (decode_oid c ≡ ok (format_arcs arcs))
unfolding decode_oid oid_text
decode_oid-encode_oid oid c e =
    let (arcs, parsed, encoded) = encode_oid-ok oid c e in
    let all = parse_arcs-All (split b'.' (trim_space oid)) arcs parsed in
    (arcs, parsed, rw (decode_oid, decode_arcs-encode_arcs arcs c all encoded) refl)
