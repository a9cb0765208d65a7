-- ===== src/CertPol/Parse/Arcs.antt =====
-- The loop of `decodeOID` does not run out of fuel.
use tongsuo_go.Base.{
  ℕ, zero, suc, ◌+◌, ◌*◌, ◌/◌, ◌%◌, ◌^◌, ◌≤◌, ◌<◌, [], ◌∷◌, ◌≡◌, arith, ltb, length, none, some,
  Option-cases, Bool-cases, inl, inr,
}
use tongsuo_go.CertPol.Types.{Bytes}
use tongsuo_go.CertPol.Oid.{
  max_u64, read_base128_loop, read_base128, read_arcs, decode_arcs, decode_oid,
}
use tongsuo_go.CertPol.Parse.Ends.{Ends, Ends-ok, Ends-bind}

length-read_base128_loop :
    (v : ℕ) (bytes : Bytes) (w : ℕ) (rest : Bytes)
    → read_base128_loop v bytes ≡ some (w, rest)
    → length rest < length bytes
unfolding read_base128_loop
length-read_base128_loop v [] w rest e = absurd cc
length-read_base128_loop v (b ∷ bs) w rest e =
    let more = length-read_base128_loop (v * 128 % 2 ^ 64 + b % 128) bs w rest in
    elim (Bool-cases (ltb b 0x80)) [
      | inl last ↦
          let same : bs ≡ rest = cc (rw (read_base128_loop, last) at e) in rw same (omega arith)
      | inr on ↦ elim (Bool-cases (ltb (max_u64 / 128) (v * 128 % 2 ^ 64 + b % 128))) [
        | inl over ↦ absurd (cc (rw (read_base128_loop, on, over) at e))
        | inr fits ↦ omega (arith, more (rw (read_base128_loop, on, fits) at e))
      ]
    ]

read_arcs-Ends : (fuel : ℕ) (bytes : Bytes) → length bytes ≤ fuel → Ends (read_arcs fuel bytes)
unfolding read_arcs read_base128
read_arcs-Ends fuel [] room = Ends-ok (some [])
read_arcs-Ends zero (b ∷ bs) room = absurd (omega arith)
read_arcs-Ends (suc fuel) (b ∷ bs) room = elim (Option-cases (read_base128 (b ∷ bs))) [
  | inl bad ↦ rw (read_arcs, bad) (Ends-ok none)
  | inr ((v, rest), good) ↦
      let shorter = length-read_base128_loop 0 (b ∷ bs) v rest good in
      rw (read_arcs, good)
        (Ends-bind (read_arcs fuel rest) _ (read_arcs-Ends fuel rest (omega arith))
          (λ arcs _. Ends-ok _))
]

decode_arcs-Ends : (content : Bytes) → Ends (decode_arcs content)
unfolding decode_arcs
decode_arcs-Ends content = elim (Option-cases (read_base128 content)) [
  | inl bad ↦ rw (decode_arcs, bad) (Ends-ok none)
  | inr ((first, rest), good) ↦
      rw (decode_arcs, good)
        (Ends-bind (read_arcs (length rest) rest) _
          (read_arcs-Ends (length rest) rest (omega arith)) (λ arcs _. Ends-ok _))
]

pub decode_oid-Ends : (content : Bytes) → Ends (decode_oid content)
unfolding decode_oid
decode_oid-Ends content =
    Ends-bind (decode_arcs content) _ (decode_arcs-Ends content) (λ arcs _. Ends-ok _)
