-- ===== src/Asn1/Simulation/Subtree.antt =====
-- Above the frame of a node the loop builds the children that the recursion returns, or it ends with
-- the recursion's error.
use tongsuo_go.Base.{
  ℕ, ◌+◌, ◌-◌, ◌*◌, ◌≤◌, List, ◌∷◌, ◌≡◌, refl, ap, subst, ◌∙◌, arith, length, Result, ok, err, ◌⊎◌,
  inl, inr, drop, length-drop,
}
use tongsuo_go.Asn1.Node.{Bytes, Node, Nodes, node, nil, cons, snoc, Header, ParseError}
use tongsuo_go.Asn1.Header.Bounds.{IsWithin}
use tongsuo_go.Asn1.Limits.{Frame, pop, push, next_move, new_frame, advance, attach, complete}
use tongsuo_go.Asn1.Simulation.Steps.{Runs, Halts, Runs-trans, Runs-Halts, Runs-push, Runs-pop}
use tongsuo_go.Asn1.Simulation.Contents.{as_limit, nodes_append, nodes_append-snoc, contents}

abbrev pub frame : Header → Nodes → ℕ → Bytes → ℕ → Frame
frame h ms at rest depth = record {
  header = h;
  children = ms;
  cursor = at;
  rest = rest;
  depth = depth;
}

pub Result-cases :
    {A : Type 0} (r : Result ParseError A)
    → ((a : A) × (r ≡ ok a)) ⊎ ((e : ParseError) × (r ≡ err e))
Result-cases (ok a) = inl (a, refl)
Result-cases (err e) = inr (e, refl)

module _ (max_depth max_nodes : ℕ) where
  -- The loop completes the frame on top to the node `n`, whatever stands below it.
  pub record Builds (budget count : ℕ) (top : Frame) (n : Node) : Type 0 where
    pub count' : ℕ
    pub last : Frame
    pub runs :
        (below : List Frame) → Runs max_depth max_nodes budget count top below count' last below
    pub popped : next_move max_depth max_nodes count' last ≡ pop
    pub whole : complete last ≡ n
    pub counted : count' ≤ count + length top.rest

  -- The loop ends with an error.
  pub record Stops (budget count : ℕ) (top : Frame) (e : ParseError) : Type 0 where
    pub halts : (below : List Frame) → Halts max_depth max_nodes budget count top below (err e)

  abbrev pub Simulates : ℕ → ℕ → Frame → Result ParseError Nodes → Type 0
  Simulates budget count top (ok cs) =
      Builds budget count top (node top.header (nodes_append top.children cs))
  Simulates budget count top (err e) = Stops budget count top (as_limit e)

  -- The claim for a node at nesting `depth`, of which `left` are allowed below it.
  abbrev pub NodeClaim : ℕ → Type 0
  NodeClaim left =
      (h : Header) (base at count depth : ℕ)
      → h.offset ≡ base
      → depth + left ≡ max_depth
      → count + length h.value ≤ max_nodes
      → Simulates (2 * length h.value + 1) count (frame h nil at h.value depth)
          (contents left h base at)

  -- A child: its frame is pushed, completed and popped.
  module _ (h : Header) (ms : Nodes) (at b : ℕ) (bs : Bytes) (depth count : ℕ) (child : Header)
      (used : ℕ)
      (moved : next_move max_depth max_nodes count (frame h ms at (b ∷ bs) depth) ≡ push child used)
      (within : IsWithin at (b ∷ bs) child used) where
    abbrev pub top : Frame
    top = frame h ms at (b ∷ bs) depth

    abbrev pub child_frame : Frame
    child_frame = frame child nil (at + (used - child.size)) child.value (depth + 1)

    pushed :
        (below : List Frame)
        → Runs max_depth max_nodes 1 count top below
            (count + 1)
            child_frame
            (advance top used ∷ below)
    unfolding new_frame
    pushed below =
        let same : at + used - child.size ≡ at + (used - child.size) =
          omega (arith, within.shorter) in
        rw same at (Runs-push max_depth max_nodes count top below child used moved)

    pub child-Stops :
        (e : ParseError)
        → Stops (2 * length child.value + 1) (count + 1) child_frame e
        → Stops (2 * length (b ∷ bs)) count top e
    child-Stops e s = record {
      halts = λ below.
          Runs-Halts max_depth max_nodes (pushed below) (2 * length (b ∷ bs))
            (s.halts (advance top used ∷ below))
            (omega (arith, within.value, within.shorter, within.inside));
    }

    -- The frame after the child.
    abbrev pub after : Node → Frame
    after n = frame h (snoc ms n) (at + used) (drop used (b ∷ bs)) depth

    pub record ChildDone (n : Node) : Type 0 where
      pub count' : ℕ
      pub counted : count' ≤ count + used
      pub runs :
          (below : List Frame)
          → Runs max_depth max_nodes (2 * used) count top below count' (after n) below

    pub child-Builds :
        (n : Node) → Builds (2 * length child.value + 1) (count + 1) child_frame n → ChildDone n
    unfolding attach advance
    child-Builds n s = record {
      count' = s.count';
      counted = omega (arith, s.counted, within.value, within.shorter);
      runs = λ below.
          let popping =
            Runs-pop max_depth max_nodes s.count' s.last (advance top used) below s.popped in
          let built = s.runs (advance top used ∷ below) in
          let closed =
            Runs-trans max_depth max_nodes built (2 * length child.value + 2) popping
              (omega arith) in
          let all =
            Runs-trans max_depth max_nodes (pushed below) (2 * used) closed
              (omega (arith, within.value, within.shorter)) in
          subst
            (λ m.
              Runs max_depth max_nodes (2 * used) count top below s.count'
                (attach (advance top used) m) below)
            s.whole all;
    }

    -- The rest of the children after the child.
    pub rest-Builds :
        (n : Node) (cs : Nodes) (done : ChildDone n)
        → Simulates (2 * length (drop used (b ∷ bs))) done.count' (after n) (ok cs)
        → Simulates (2 * length (b ∷ bs)) count top (ok (cons n cs))
    rest-Builds n cs done s = record {
      count' = s.count';
      last = s.last;
      runs = λ below.
          Runs-trans max_depth max_nodes (done.runs below) (2 * length (b ∷ bs)) (s.runs below)
            (omega (arith, length-drop used (b ∷ bs), within.inside));
      popped = s.popped;
      whole = s.whole ∙ ap (node h) (nodes_append-snoc ms n cs);
      counted = omega (arith, s.counted, done.counted, length-drop used (b ∷ bs), within.inside);
    }

    pub rest-Stops :
        (n : Node) (e : ParseError) (done : ChildDone n)
        → Stops (2 * length (drop used (b ∷ bs))) done.count' (after n) e
        → Stops (2 * length (b ∷ bs)) count top e
    rest-Stops n e done s = record {
      halts = λ below.
          Runs-Halts max_depth max_nodes (done.runs below) (2 * length (b ∷ bs)) (s.halts below)
            (omega (arith, length-drop used (b ∷ bs), within.inside));
    }
