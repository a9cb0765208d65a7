-- ===== src/Asn1/Simulation/Induction.antt =====
-- The two claims, by induction on the nesting that is left and on the bytes.
use tongsuo_go.Base.{
  ℕ, zero, suc, ◌+◌, ◌-◌, ◌*◌, ◌≤◌, ◌<◌, [], ◌∷◌, ◌≡◌, refl, ap, sym, subst, ◌∙◌, arith, length,
  Result, ok, err, true, false, Bool-cases, inl, inr, ◌>>=◌, drop, length-drop,
}
use tongsuo_go.Asn1.Node.{Bytes, Nodes, node, nil, snoc, Header, ParseError, depth_limit}
use tongsuo_go.Asn1.Header.{parse_header}
use tongsuo_go.Asn1.Header.Bounds.{IsWithin, parse_header-IsWithin, parse_header-IsHeaderError}
use tongsuo_go.Asn1.Recursive.{parse_children, parse_node}
use tongsuo_go.Asn1.Limits.{Frame, pop, push, fail, next_move, child_move, complete}
use tongsuo_go.Asn1.Simulation.Steps.{Runs-refl, Halts-fail, Runs-trans, Runs-Halts}
use tongsuo_go.Asn1.Simulation.Contents.{
  as_limit, inner, as_limit-header, nodes_append-nil, contents, parse_node-contents, parse_node-err,
  parse_children-err, parse_children-ok, next_move-leaf, next_move-deep, next_move-end,
  next_move-child,
}
use tongsuo_go.Asn1.Simulation.Subtree.{
  frame, Result-cases, Builds, Stops, Simulates, NodeClaim, child-Stops, child-Builds, ChildDone,
  rest-Builds, rest-Stops,
}

module _ (max_depth max_nodes : ℕ) where
  -- All children are there.
  builds_end :
      (budget count : ℕ) (h : Header) (ms : Nodes) (at depth : ℕ)
      → next_move max_depth max_nodes count (frame h ms at [] depth) ≡ pop
      → Simulates max_depth max_nodes budget count (frame h ms at [] depth) (ok nil)
  unfolding complete
  builds_end budget count h ms at depth popped = record {
    count' = count;
    last = frame h ms at [] depth;
    runs = λ below. Runs-refl max_depth max_nodes budget count (frame h ms at [] depth) below;
    popped = popped;
    whole = ap (node h) (sym (nodes_append-nil ms));
    counted = omega arith;
  }

  -- A child whose header is refused.
  header-Stops :
      (count : ℕ) (top : Frame) (e : ParseError)
      → 0 < length top.rest
      → next_move max_depth max_nodes count top ≡ fail e
      → Stops max_depth max_nodes (2 * length top.rest) count top e
  header-Stops count top e more failed = record {
    halts = λ below.
        let one = Halts-fail max_depth max_nodes count top below e failed in
        record { steps = one.steps; within = omega (arith, one.within); agrees = one.agrees };
  }

  module _ (left : ℕ) (claim : NodeClaim max_depth max_nodes left) where
    ChildrenClaim : ℕ → Type 0
    ChildrenClaim fuel =
        (h : Header) (ms : Nodes) (at : ℕ) (rest : Bytes) (depth count : ℕ)
        → h.constructed ≡ true
        → depth + suc left ≡ max_depth
        → length rest ≤ fuel
        → count + length rest ≤ max_nodes
        → Simulates max_depth max_nodes (2 * length rest) count (frame h ms at rest depth)
            (parse_children (parse_node left) fuel rest at)

    -- The loop over the children from a child whose header was read.
    module _ (fuel : ℕ) (ih : ChildrenClaim fuel) (h : Header) (ms : Nodes) (at b : ℕ) (bs : Bytes)
        (depth count : ℕ) (built : h.constructed ≡ true) (deep : depth + suc left ≡ max_depth)
        (room : length (b ∷ bs) ≤ suc fuel) (nodes : count + length (b ∷ bs) ≤ max_nodes)
        (child : Header) (used : ℕ) (read : parse_header (b ∷ bs) at ≡ ok (child, used))
        (moved : next_move max_depth max_nodes count (frame h ms at (b ∷ bs) depth)
          ≡ push child used)
        (within : IsWithin at (b ∷ bs) child used) where
      -- The rest of the loop after a child that was built.
      after_child :
          (cs : Nodes)
          → contents left child at (at + (used - child.size)) ≡ ok cs
          → ChildDone max_depth max_nodes h ms at b bs depth count child used moved within
              (node child cs)
          → Simulates max_depth max_nodes
              (2 * length (b ∷ bs))
              count
              (frame h ms at (b ∷ bs) depth)
              (parse_children (parse_node left) (suc fuel) (b ∷ bs) at)
      unfolding ChildrenClaim
      after_child cs ce done =
          let reads = parse_children-ok (parse_node left) fuel b bs at (node child cs) used (
            parse_node-contents left (b ∷ bs) at child used read
            ∙ ap (λ r. r >>= λ ns. ok (node child ns, used)) ce) in
          let dropped = length-drop used (b ∷ bs) in
          let sim =
            ih h (snoc ms (node child cs)) (at + used) (drop used (b ∷ bs)) depth done.count' built
              deep (omega (arith, within.shorter, within.inside))
              (omega (arith, within.inside, done.counted)) in
          elim (Result-cases
            (parse_children (parse_node left) fuel (drop used (b ∷ bs)) (at + used))) [
              | inl (ns, ne) ↦
                  rw (reads, ne)
                    (rest-Builds max_depth max_nodes h ms at b bs depth count child used moved
                      within (node child cs) ns done (rw ne at sim))
              | inr (e, ne) ↦
                  rw (reads, ne)
                    (rest-Stops max_depth max_nodes h ms at b bs depth count child used moved within
                      (node child cs) (as_limit e) done (rw ne at sim))
            ]

      after_header :
          Simulates max_depth max_nodes
            (2 * length (b ∷ bs))
            count
            (frame h ms at (b ∷ bs) depth)
            (parse_children (parse_node left) (suc fuel) (b ∷ bs) at)
      after_header =
          let start = at + (used - child.size) in
          let sim =
            claim child at start (count + 1) (depth + 1) within.offset (omega arith)
              (omega (arith, within.value, within.shorter, within.inside)) in
          let node_eq = parse_node-contents left (b ∷ bs) at child used read in
          elim (Result-cases (contents left child at start)) [
            | inl (cs, ce) ↦ after_child cs ce (
                child-Builds max_depth max_nodes h ms at b bs depth count child used moved within
                  (node child cs)
                  (subst
                    (λ r.
                      Simulates max_depth max_nodes (2 * length child.value + 1) (count + 1)
                        (frame child nil start child.value (depth + 1)) r)
                    ce sim))
            | inr (e, ce) ↦
                let failed = node_eq ∙ ap (λ r. r >>= λ cs. ok (node child cs, used)) ce in
                rw (parse_children-err (parse_node left) fuel b bs at e failed) (
                  child-Stops max_depth max_nodes h ms at b bs depth count child used moved within
                    (as_limit e)
                    (subst
                      (λ r.
                        Simulates max_depth max_nodes (2 * length child.value + 1) (count + 1)
                          (frame child nil start child.value (depth + 1)) r)
                      ce sim))
          ]

    children_claim : (fuel : ℕ) → ChildrenClaim fuel
    unfolding ChildrenClaim
    children_claim fuel h ms at [] depth count built deep room nodes =
        unfold parse_children in
        builds_end 0 count h ms at depth (
          next_move-end max_depth max_nodes count (frame h ms at [] depth) built (omega arith) refl)
    children_claim zero h ms at (b ∷ bs) depth count built deep room nodes = absurd (omega arith)
    children_claim (suc fuel) h ms at (b ∷ bs) depth count built deep room nodes =
        let moved =
          next_move-child max_depth max_nodes count (frame h ms at (b ∷ bs) depth) built
            (omega arith) (omega arith) (omega arith) in
        elim (Result-cases (parse_header (b ∷ bs) at)) [
          | inl ((child, used), read) ↦
              after_header fuel (children_claim fuel) h ms at b bs depth count built deep room nodes
                child used read (moved ∙ ap child_move read ∙ unfold child_move in refl)
                (parse_header-IsWithin (b ∷ bs) at child used read)
          | inr (e, refused) ↦
              rw
                (
                  parse_children-err (parse_node left) fuel b bs at e
                      (parse_node-err left (b ∷ bs) at e refused),
                  as_limit-header e (parse_header-IsHeaderError (b ∷ bs) at e refused),
                )
                (header-Stops count (frame h ms at (b ∷ bs) depth) e (omega arith)
                  (moved ∙ ap child_move refused ∙ unfold child_move in refl))
        ]

-- One more round is allowed.
more_rounds :
    (max_depth max_nodes budget count : ℕ) (top : Frame) (r : Result ParseError Nodes)
    → Simulates max_depth max_nodes budget count top r
    → Simulates max_depth max_nodes (budget + 1) count top r
more_rounds max_depth max_nodes budget count top (ok cs) s = record {
  count' = s.count';
  last = s.last;
  runs = λ below.
      Runs-trans max_depth max_nodes (s.runs below) (budget + 1)
        (Runs-refl max_depth max_nodes 1 s.count' s.last below) (omega arith);
  popped = s.popped;
  whole = s.whole;
  counted = s.counted;
}
more_rounds max_depth max_nodes budget count top (err e) s = record {
  halts = λ below.
      Runs-Halts max_depth max_nodes (Runs-refl max_depth max_nodes 1 count top below) (budget + 1)
        (s.halts below) (omega arith);
}

leaf-Builds :
    (max_depth max_nodes count : ℕ) (h : Header) (at depth : ℕ)
    → h.constructed ≡ false
    → Builds max_depth max_nodes
        (2 * length h.value + 1)
        count
        (frame h nil at h.value depth)
        (node h nil)
unfolding complete
leaf-Builds max_depth max_nodes count h at depth leaf = record {
  count' = count;
  last = frame h nil at h.value depth;
  runs = λ below.
      Runs-refl max_depth max_nodes (2 * length h.value + 1) count (frame h nil at h.value depth)
        below;
  popped = next_move-leaf max_depth max_nodes count (frame h nil at h.value depth) leaf;
  whole = refl;
  counted = omega arith;
}

deep-Stops :
    (max_depth max_nodes count : ℕ) (h : Header) (at depth : ℕ)
    → h.constructed ≡ true
    → max_depth ≤ depth
    → Stops max_depth max_nodes
        (2 * length h.value + 1)
        count
        (frame h nil at h.value depth)
        (depth_limit h.offset)
deep-Stops max_depth max_nodes count h at depth built deep = record {
  halts = λ below.
      let one =
        Halts-fail max_depth max_nodes count (frame h nil at h.value depth) below
          (depth_limit h.offset)
          (next_move-deep max_depth max_nodes count (frame h nil at h.value depth) built deep) in
      record { steps = one.steps; within = omega (arith, one.within); agrees = one.agrees };
}

contents-built :
    (left : ℕ) (h : Header) (base at : ℕ)
    → h.constructed ≡ true
    → contents left h base at ≡ inner left h base at
contents-built left h base at built = rw built

contents-leaf :
    (left : ℕ) (h : Header) (base at : ℕ) → h.constructed ≡ false → contents left h base at ≡ ok nil
contents-leaf left h base at leaf = rw leaf

-- The claim for the children, where there are any.
abbrev InnerClaim : ℕ → ℕ → ℕ → Type 0
InnerClaim max_depth max_nodes left =
    (h : Header) (base at count depth : ℕ)
    → h.offset ≡ base
    → depth + left ≡ max_depth
    → count + length h.value ≤ max_nodes
    → h.constructed ≡ true
    → Simulates max_depth max_nodes (2 * length h.value + 1) count (frame h nil at h.value depth)
        (inner left h base at)

no_nesting : (max_depth max_nodes : ℕ) → InnerClaim max_depth max_nodes 0
no_nesting max_depth max_nodes h base at count depth offset deep nodes built =
    subst
      (λ b.
        Stops max_depth max_nodes (2 * length h.value + 1) count (frame h nil at h.value depth)
          (depth_limit b))
      offset (deep-Stops max_depth max_nodes count h at depth built (omega arith))

nesting :
    (max_depth max_nodes left : ℕ)
    → NodeClaim max_depth max_nodes left
    → InnerClaim max_depth max_nodes (suc left)
nesting max_depth max_nodes left claim h base at count depth offset deep nodes built =
    more_rounds max_depth max_nodes (2 * length h.value) count (frame h nil at h.value depth)
      (parse_children (parse_node left) (length h.value) h.value at)
      (unfold ChildrenClaim in
        children_claim max_depth max_nodes left claim (length h.value) h nil at h.value depth count
          built deep (omega arith) nodes)

with_inner :
    (max_depth max_nodes left : ℕ)
    → InnerClaim max_depth max_nodes left
    → NodeClaim max_depth max_nodes left
with_inner max_depth max_nodes left claim h base at count depth offset deep nodes =
    let carry = λ (r : Result ParseError Nodes) (e : r ≡ contents left h base at).
      subst
        (Simulates max_depth max_nodes (2 * length h.value + 1) count
          (frame h nil at h.value depth))
        e in
    elim (Bool-cases h.constructed) [
      | inr leaf ↦
          carry (ok nil) (sym (contents-leaf left h base at leaf))
            (leaf-Builds max_depth max_nodes count h at depth leaf)
      | inl built ↦
          carry (inner left h base at) (sym (contents-built left h base at built))
            (claim h base at count depth offset deep nodes built)
    ]

-- The claim for a node, for every nesting that is left.
pub node_claim : (max_depth max_nodes left : ℕ) → NodeClaim max_depth max_nodes left
node_claim max_depth max_nodes zero =
    with_inner max_depth max_nodes 0 (no_nesting max_depth max_nodes)
node_claim max_depth max_nodes (suc left) =
    with_inner max_depth max_nodes (suc left)
      (nesting max_depth max_nodes left (node_claim max_depth max_nodes left))
