-- ===== src/Asn1/Simulation/Whole.antt =====
-- `ParseWithLimits` against `Parse` on a whole input.
use tongsuo_go.Base.{
  ℕ, ◌+◌, ◌-◌, ◌*◌, ◌≤◌, ◌<◌, [], ◌∷◌, ◌≡◌, refl, ap, sym, subst, ◌∙◌, arith, length, Result, ok,
  err, true, false, Bool-cases, inl, inr, if◌then◌else◌, ◌>>=◌, ◌==◌, ==_refl, Option, some, none,
}
use tongsuo_go.Asn1.Node.{Bytes, Node, Nodes, node, nil, Header, ParseError, trailing_bytes}
use tongsuo_go.Asn1.Header.{parse_header}
use tongsuo_go.Asn1.Header.Bounds.{parse_header-IsWithin}
use tongsuo_go.Asn1.Recursive.{max_der_depth, parse}
use tongsuo_go.Asn1.Limits.{Frame, new_frame, run, parse_with_limits}
use tongsuo_go.Asn1.Simulation.Steps.{Halts, Halts-last, Runs-Halts}
use tongsuo_go.Asn1.Simulation.Contents.{as_limit, contents, parse_node-contents, parse_node-err}
use tongsuo_go.Asn1.Simulation.Subtree.{frame, Result-cases, Simulates}
use tongsuo_go.Asn1.Simulation.Induction.{node_claim}

-- The result, with the error of the nesting as `ParseWithLimits` reports it.
abbrev pub as_limits : {A : Type 0} → Result ParseError A → Result ParseError A
as_limits (ok a) = ok a
as_limits (err e) = err (as_limit e)

-- The result without its error.
abbrev pub accepted : {A : Type 0} → Result ParseError A → Option A
accepted (ok a) = some a
accepted (err e) = none

accepted-as_limits : {A : Type 0} (r : Result ParseError A) → accepted (as_limits r) ≡ accepted r
accepted-as_limits (ok a) = refl
accepted-as_limits (err e) = refl

run-Halts :
    (max_depth max_nodes total count : ℕ) (top : Frame) (r : Result ParseError Node)
    → Halts max_depth max_nodes total count top [] r
    → run max_depth max_nodes total count top [] ≡ r
run-Halts max_depth max_nodes total count top r s =
    ap (λ n. run max_depth max_nodes n count top []) (omega (arith, s.within))
    ∙ s.agrees (total - s.steps)

-- The loop from a root that is simulated.
run-Simulates :
    (max_depth max_nodes budget total count : ℕ) (h : Header) (at : ℕ) (r : Result ParseError Nodes)
    → budget + 1 ≤ total
    → Simulates max_depth max_nodes budget count (frame h nil at h.value 0) r
    → run max_depth max_nodes total count (frame h nil at h.value 0) []
      ≡ as_limits (r >>= λ cs. ok (node h cs))
run-Simulates max_depth max_nodes budget total count h at (ok cs) enough s =
    run-Halts max_depth max_nodes total count (frame h nil at h.value 0) (ok (node h cs)) (
      subst (λ m. Halts max_depth max_nodes total count (frame h nil at h.value 0) [] (ok m))
        s.whole
        (Runs-Halts max_depth max_nodes (s.runs []) total
          (Halts-last max_depth max_nodes s.count' s.last s.popped) enough))
run-Simulates max_depth max_nodes budget total count h at (err e) enough s =
    run-Halts max_depth max_nodes total count (frame h nil at h.value 0) (err (as_limit e)) (
      let one = s.halts [] in
      record { steps = one.steps; within = omega (arith, one.within); agrees = one.agrees })

module _ (b : ℕ) (bs : Bytes) (h : Header) (used : ℕ)
    (read : parse_header (b ∷ bs) 0 ≡ ok (h, used)) where
  -- What `Parse` makes of the children of the root.
  abbrev close : Result ParseError Nodes → Result ParseError Node
  close (ok cs) =
      if used == length (b ∷ bs)
      then ok (node h cs)
      else err (trailing_bytes (length (b ∷ bs) - used))
  close (err e) = err e

  abbrev check_end : Node × ℕ → Result ParseError Node
  check_end (n, u) =
      if u == length (b ∷ bs) then ok n else err (trailing_bytes (length (b ∷ bs) - u))

  closes :
      (r : Result ParseError Nodes) → ((r >>= λ cs. ok (node h cs, used)) >>= check_end) ≡ close r
  closes (ok cs) = refl
  closes (err e) = refl

  parse-close : parse (b ∷ bs) ≡ close (contents max_der_depth h 0 (used - h.size))
  unfolding parse
  parse-close =
      ap (λ r. r >>= check_end) (parse_node-contents max_der_depth (b ∷ bs) 0 h used read)
      ∙ closes (contents max_der_depth h 0 (0 + (used - h.size)))
      ∙ ap (λ at. close (contents max_der_depth h 0 at)) (omega arith)

  close-whole :
      (r : Result ParseError Nodes)
      → (used == length (b ∷ bs)) ≡ true
      → close r ≡ (r >>= λ cs. ok (node h cs))
  close-whole (ok cs) whole = rw whole
  close-whole (err e) whole = refl

  accepted-close :
      (r : Result ParseError Nodes) → (used == length (b ∷ bs)) ≡ false → accepted (close r) ≡ none
  accepted-close (ok cs) whole = rw whole
  accepted-close (err e) whole = refl

  module _ (max_nodes : ℕ) (room : length (b ∷ bs) ≤ max_nodes) where
    limits-whole :
        (used == length (b ∷ bs)) ≡ true
        → parse_with_limits (b ∷ bs) max_der_depth max_nodes
          ≡ run max_der_depth max_nodes
              (2 * length (b ∷ bs))
              1
              (frame h nil (used - h.size) h.value 0)
              []
    unfolding parse_with_limits new_frame
    limits-whole whole =
        let positive : (max_nodes == 0) ≡ false = ground arith in rw (positive, read, whole)

    limits-trailing :
        (used == length (b ∷ bs)) ≡ false
        → parse_with_limits (b ∷ bs) max_der_depth max_nodes
          ≡ err (trailing_bytes (length (b ∷ bs) - used))
    unfolding parse_with_limits
    limits-trailing whole =
        let positive : (max_nodes == 0) ≡ false = ground arith in rw (positive, read, whole)

    limits-Parse :
        (used == length (b ∷ bs)) ≡ true
        → parse_with_limits (b ∷ bs) max_der_depth max_nodes ≡ as_limits (parse (b ∷ bs))
    limits-Parse whole =
        let within = parse_header-IsWithin (b ∷ bs) 0 h used read in
        limits-whole whole
        ∙ run-Simulates max_der_depth max_nodes (2 * length h.value + 1) (2 * length (b ∷ bs)) 1 h
            (used - h.size) (contents max_der_depth h 0 (used - h.size))
            (omega (arith, within.value, within.shorter, within.inside))
            (node_claim max_der_depth max_nodes max_der_depth h 0 (used - h.size) 1 0 within.offset
              refl (omega (arith, within.value, within.shorter, within.inside)))
        ∙ ap as_limits
            (sym (parse-close ∙ close-whole (contents max_der_depth h 0 (used - h.size)) whole))

    accepted-limits :
        accepted (parse_with_limits (b ∷ bs) max_der_depth max_nodes) ≡ accepted (parse (b ∷ bs))
    accepted-limits = elim (Bool-cases (used == length (b ∷ bs))) [
      | inl whole ↦ ap accepted (limits-Parse whole) ∙ accepted-as_limits (parse (b ∷ bs))
      | inr more ↦
          ap accepted (limits-trailing more)
          ∙ sym (
              ap accepted parse-close
              ∙ accepted-close (contents max_der_depth h 0 (used - h.size)) more)
    ]

refused-limits :
    (b : ℕ) (bs : Bytes) (e : ParseError) (max_nodes : ℕ)
    → 0 < max_nodes
    → parse_header (b ∷ bs) 0 ≡ err e
    → accepted (parse_with_limits (b ∷ bs) max_der_depth max_nodes) ≡ none
unfolding parse_with_limits
refused-limits b bs e max_nodes some_nodes refused =
    let positive : (max_nodes == 0) ≡ false = ground arith in rw (positive, refused)

refused-parse :
    (b : ℕ) (bs : Bytes) (e : ParseError)
    → parse_header (b ∷ bs) 0 ≡ err e
    → accepted (parse (b ∷ bs)) ≡ none
unfolding parse
refused-parse b bs e refused = rw (parse_node-err max_der_depth (b ∷ bs) 0 e refused)

empty-limits : (max_nodes : ℕ) → accepted (parse_with_limits [] max_der_depth max_nodes) ≡ none
unfolding parse_with_limits
empty-limits max_nodes = ground arith

-- With a nesting limit of 128 and a positive node limit of at least the number of input bytes, the
-- loop of parse_with_limits accepts the inputs that the recursion of parse accepts, and returns
-- the same tree.
pub accepted-parse_with_limits :
    (der : Bytes) (max_nodes : ℕ)
    → 0 < max_nodes
    → length der ≤ max_nodes
    → accepted (parse_with_limits der max_der_depth max_nodes) ≡ accepted (parse der)
accepted-parse_with_limits [] max_nodes some_nodes room =
    empty-limits max_nodes ∙ unfold parse in refl
accepted-parse_with_limits (b ∷ bs) max_nodes some_nodes room =
    elim (Result-cases (parse_header (b ∷ bs) 0)) [
      | inl ((h, used), read) ↦ accepted-limits b bs h used read max_nodes room
      | inr (e, refused) ↦
          refused-limits b bs e max_nodes some_nodes refused ∙ sym (refused-parse b bs e refused)
    ]

-- When the first header is that of a value that spans the input, the nesting limit is 128 and the
-- node limit is at least the number of input bytes, parse_with_limits and parse return the same
-- tree or the same error, up to the name of the nesting error.
pub parse_with_limits-parse :
    (der : Bytes) (max_nodes : ℕ) (h : Header)
    → parse_header der 0 ≡ ok (h, length der)
    → length der ≤ max_nodes
    → parse_with_limits der max_der_depth max_nodes ≡ as_limits (parse der)
parse_with_limits-parse [] max_nodes h read room = absurd (unfold parse_header in cc)
parse_with_limits-parse (b ∷ bs) max_nodes h read room =
    limits-Parse b bs h (length (b ∷ bs)) read max_nodes room (==_refl (length (b ∷ bs)))
