-- ===== src/Asn1/Limits/Termination.antt =====
-- The loop of `ParseWithLimits` ends within its fuel, whatever the limits are.
use tongsuo_go.Base.{
  ℕ, zero, suc, ◌+◌, ◌-◌, ◌*◌, ◌≤◌, List, [], ◌∷◌, ◌≡◌, ◌≢◌, refl, sym, ◌∙◌, inl, inr, arith,
  Bool-cases, ◌==◌, ◌||◌, length, length-drop, err, err-injective,
}
use tongsuo_go.Asn1.Node.{Bytes, Header, Node, ParseError, stuck}
use tongsuo_go.Asn1.Header.{parse_header}
use tongsuo_go.Asn1.Header.Bounds.{parse_header-IsWithin, parse_header-IsHeaderError}
use tongsuo_go.Asn1.Simulation.Steps.{run-push, run-pop, run-last, run-fail}
use tongsuo_go.Asn1.Simulation.Subtree.{Result-cases}
use tongsuo_go.Asn1.Limits.{
  Frame, pop, fail, child_move, next_move, new_frame, advance, attach, complete, run,
  parse_with_limits,
}
use tongsuo_go.Asn1.Limits.Bounds.{Move-cases, next_move-Pushed}

-- The rounds that a stack can still take: a frame is popped once, and what is left of it is read.
abbrev weight : Frame → List Frame → ℕ
weight top [] = 1 + 2 * length top.rest
weight top (parent ∷ others) = 1 + 2 * length top.rest + weight parent others

attach-weight :
    (parent : Frame) (others : List Frame) (n : Node)
    → weight (attach parent n) others ≡ weight parent others
unfolding attach
attach-weight parent [] n = refl
attach-weight parent (grand ∷ others) n = refl

advance-weight :
    (top : Frame) (below : List Frame) (size : ℕ)
    → size ≤ length top.rest
    → weight (advance top size) below + 2 * size ≡ weight top below
unfolding advance
advance-weight top [] size h = omega (arith, length-drop size top.rest)
advance-weight top (parent ∷ others) size h = omega (arith, length-drop size top.rest)

weight-pos : (top : Frame) (below : List Frame) → 1 ≤ weight top below
weight-pos top [] = omega arith
weight-pos top (parent ∷ others) = omega arith

module _ (max_depth max_nodes : ℕ) where
  next_move-ne-stuck :
      (count : ℕ) (top : Frame) (e : ParseError)
      → next_move max_depth max_nodes count top ≡ fail e
      → e ≢ stuck
  unfolding next_move child_move
  next_move-ne-stuck count top e failed same =
      let plain : parse_header top.rest top.cursor ≢ err stuck =
        parse_header-IsHeaderError top.rest top.cursor stuck in
      ground arith

  abbrev Ends : ℕ → Type 0
  Ends fuel =
      (count : ℕ) (top : Frame) (below : List Frame)
      → weight top below ≤ fuel
      → run max_depth max_nodes fuel count top below ≢ err stuck

  popped-Ends :
      (fuel : ℕ)
      → Ends fuel
      → (count : ℕ) (top : Frame) (below : List Frame)
      → next_move max_depth max_nodes count top ≡ pop
      → weight top below ≤ suc fuel
      → run max_depth max_nodes (suc fuel) count top below ≢ err stuck
  popped-Ends fuel ih count top [] popped room done =
      absurd (cc (run-last max_depth max_nodes fuel count top popped))
  popped-Ends fuel ih count top (parent ∷ others) popped room done =
      ih count (attach parent (complete top)) others
        (omega (arith, attach-weight parent others (complete top)))
        (sym (run-pop max_depth max_nodes fuel count top parent others popped) ∙ done)

  run-Ends : (fuel : ℕ) → Ends fuel
  unfolding new_frame
  run-Ends zero count top below room done = absurd (omega (arith, weight-pos top below))
  run-Ends (suc fuel) count top below room done =
      elim (Move-cases (next_move max_depth max_nodes count top)) [
        | inr (inr (e, failed)) ↦ next_move-ne-stuck count top e failed (
            err-injective (sym (run-fail max_depth max_nodes fuel count top below e failed) ∙ done))
        | inl popped ↦ popped-Ends fuel (run-Ends fuel) count top below popped room done
        | inr (inl (child, size, pushed)) ↦
            let p = next_move-Pushed max_depth max_nodes count top child size pushed in
            let w = parse_header-IsWithin top.rest top.cursor child size p.read in
            run-Ends fuel (count + 1)
              (new_frame child (top.cursor + size - child.size) (top.depth + 1))
              (advance top size ∷ below)
              (omega (arith, advance-weight top below size w.inside, w.value, w.shorter))
              (sym (run-push max_depth max_nodes fuel count top below child size pushed) ∙ done)
      ]

root-weight : (root : Header) (at : ℕ) → weight (new_frame root at 0) [] ≡ 1 + 2 * length root.value
unfolding new_frame
root-weight root at = refl

-- On every input and for all limits the loop of parse_with_limits ends within its fuel.
pub parse_with_limits-ne-stuck :
    (der : Bytes) (max_depth max_nodes : ℕ) → parse_with_limits der max_depth max_nodes ≢ err stuck
unfolding parse_with_limits
parse_with_limits-ne-stuck [] max_depth max_nodes done =
    elim (Bool-cases (max_depth == 0 || max_nodes == 0)) [
      | inl none_left ↦ absurd (cc (rw (parse_with_limits, none_left) at done))
      | inr both ↦ absurd (cc (rw (parse_with_limits, both) at done))
    ]
parse_with_limits-ne-stuck (b ∷ bs) max_depth max_nodes done =
    elim (Bool-cases (max_depth == 0 || max_nodes == 0)) [
      | inl none_left ↦ absurd (cc (rw (parse_with_limits, none_left) at done))
      | inr both ↦ elim (Result-cases (parse_header (b ∷ bs) 0)) [
        | inr (e, refused) ↦
            let plain : parse_header (b ∷ bs) 0 ≢ err stuck =
              parse_header-IsHeaderError (b ∷ bs) 0 stuck in
            plain (cc (rw (parse_with_limits, both, refused) at done))
        | inl ((root, used), read) ↦ elim (Bool-cases (used == length (b ∷ bs))) [
          | inr trailing ↦ absurd (cc (rw (parse_with_limits, both, read, trailing) at done))
          | inl whole ↦
              let w = parse_header-IsWithin (b ∷ bs) 0 root used read in
              run-Ends max_depth max_nodes (2 * length (b ∷ bs)) 1
                (new_frame root (used - root.size) 0) []
                (omega (arith, root-weight root (used - root.size), w.value, w.shorter, w.inside))
                (rw (parse_with_limits, both, read, whole) at done)
        ]
      ]
    ]
