-- ===== src/Asn1/Limits/Bounds.antt =====
-- The tree that `ParseWithLimits` returns is within the two limits.
use Prim.Native.Nat.{max}
use tongsuo_go.Base.{
  ℕ, zero, suc, ◌+◌, ◌-◌, ◌*◌, ◌≤◌, ◌<◌, List, [], ◌∷◌, ◌≡◌, refl, sym, subst, ◌∙◌, ◌⊎◌, inl, inr,
  arith, false, Bool-cases, if◌then◌else◌, ◌==◌, ◌||◌, length, ok, err, >>=-eq-ok, ok-injective,
}
use tongsuo_go.Asn1.Node.{Bytes, Header, Node, Nodes, node, nil, cons, snoc, ParseError, stuck}
use tongsuo_go.Asn1.Header.{parse_header}
use tongsuo_go.Asn1.Simulation.Steps.{run-push, run-pop, run-last, run-fail}
use tongsuo_go.Asn1.Limits.{
  Frame, Move, pop, push, fail, child_move, next_move, new_frame, advance, attach, complete, run,
  parse_with_limits,
}

-- The number of nodes, leaves included.
mutual
  pub node_count : Node → ℕ
  node_count (node h ns) = suc (nodes_count ns)

  pub nodes_count : Nodes → ℕ
  nodes_count nil = 0
  nodes_count (cons n ns) = node_count n + nodes_count ns

-- The number of constructed nodes on the longest way down.
mutual
  pub node_depth : Node → ℕ
  node_depth (node h ns) = if h.constructed then suc (nodes_depth ns) else 0

  pub nodes_depth : Nodes → ℕ
  nodes_depth nil = 0
  nodes_depth (cons n ns) = max (node_depth n) (nodes_depth ns)

nodes_count-snoc : (ns : Nodes) (n : Node) → nodes_count (snoc ns n) ≡ nodes_count ns + node_count n
unfolding snoc nodes_count
nodes_count-snoc nil n = omega arith
nodes_count-snoc (cons m ns) n = omega (arith, nodes_count-snoc ns n)

nodes_depth-snoc :
    (ns : Nodes) (n : Node) (d : ℕ)
    → nodes_depth ns ≤ d
    → node_depth n ≤ d
    → nodes_depth (snoc ns n) ≤ d
unfolding snoc nodes_depth
nodes_depth-snoc nil n d h k = omega arith
nodes_depth-snoc (cons m ns) n d h k = omega (arith, nodes_depth-snoc ns n d)

-- How the two moves that go on come about.
module _ (max_depth max_nodes count : ℕ) (f : Frame) where
  next_move-pop :
      next_move max_depth max_nodes count f ≡ pop
      → (f.header.constructed ≡ false) ⊎ (f.depth < max_depth)
  unfolding next_move child_move
  next_move-pop h = ground arith

  pub record Pushed (child : Header) (size : ℕ) : Type 0 where
    pub shallow : f.depth < max_depth
    pub room : count < max_nodes
    pub read : parse_header f.rest f.cursor ≡ ok (child, size)

  pub next_move-Pushed :
      (child : Header) (size : ℕ)
      → next_move max_depth max_nodes count f ≡ push child size
      → Pushed child size
  unfolding next_move child_move
  next_move-Pushed child size h = record {
    shallow = ground arith;
    room = ground arith;
    read = ground arith;
  }

advance-depth : (top : Frame) (size : ℕ) → top.depth + 1 ≡ (advance top size).depth + 1
unfolding advance
advance-depth top size = refl

run-stuck :
    (max_depth max_nodes count : ℕ) (top : Frame) (below : List Frame)
    → run max_depth max_nodes 0 count top below ≡ err stuck
unfolding run
run-stuck max_depth max_nodes count top below = refl

pub Move-cases :
    (m : Move)
    → (m ≡ pop)
      ⊎ ((child : Header) × (size : ℕ) × (m ≡ push child size))
      ⊎ ((e : ParseError) × (m ≡ fail e))
Move-cases pop = inl refl
Move-cases (push child size) = inr (inl (child, size, refl))
Move-cases (fail e) = inr (inr (e, refl))

module _ (max_depth max_nodes : ℕ) where
  -- A frame whose children, as far as they are complete, are within the nesting that is left.
  record IsNested (f : Frame) : Type 0 where
    within : f.depth ≤ max_depth
    inner : nodes_depth f.children ≤ max_depth - (f.depth + 1)

  -- A stack whose depths go up by one.
  abbrev AreNested : Frame → List Frame → Type 0
  AreNested top [] = IsNested top
  AreNested top (parent ∷ others) =
      IsNested top × (top.depth ≡ parent.depth + 1) × AreNested parent others

  -- The nodes on the stack and below them.
  abbrev open_count : Frame → List Frame → ℕ
  open_count top [] = suc (nodes_count top.children)
  open_count top (parent ∷ others) = suc (nodes_count top.children) + open_count parent others

  AreNested-top : (top : Frame) (below : List Frame) → AreNested top below → IsNested top
  AreNested-top top [] h = h
  AreNested-top top (parent ∷ others) h = h.0

  complete-depth :
      (f : Frame)
      → IsNested f
      → (f.header.constructed ≡ false) ⊎ (f.depth < max_depth)
      → node_depth (complete f) + f.depth ≤ max_depth
  unfolding complete node_depth
  complete-depth f h (inl leaf) = rw leaf (omega (arith, h.within))
  complete-depth f h (inr shallow) = elim (Bool-cases f.header.constructed) [
    | inr leaf ↦ rw leaf (omega (arith, h.within))
    | inl built ↦ rw built (omega (arith, h.inner, shallow))
  ]

  attach-AreNested :
      (parent : Frame) (others : List Frame) (n : Node)
      → AreNested parent others
      → node_depth n ≤ max_depth - (parent.depth + 1)
      → AreNested (attach parent n) others
  unfolding attach
  attach-AreNested parent [] n h k = record {
    within = h.within;
    inner = nodes_depth-snoc parent.children n _ h.inner k;
  }
  attach-AreNested parent (grand ∷ others) n (h, linked, rest) k = (
    record { within = h.within; inner = nodes_depth-snoc parent.children n _ h.inner k },
    linked,
    rest,
  )

  attach-open_count :
      (parent : Frame) (others : List Frame) (n : Node)
      → open_count (attach parent n) others ≡ open_count parent others + node_count n
  unfolding attach
  attach-open_count parent [] n = omega (arith, nodes_count-snoc parent.children n)
  attach-open_count parent (grand ∷ others) n = omega (arith, nodes_count-snoc parent.children n)

  advance-AreNested :
      (top : Frame) (below : List Frame) (size : ℕ)
      → AreNested top below
      → AreNested (advance top size) below
  unfolding advance
  advance-AreNested top [] size h = record { within = h.within; inner = h.inner }
  advance-AreNested top (parent ∷ others) size (h, linked, rest) =
      (record { within = h.within; inner = h.inner }, linked, rest)

  advance-open_count :
      (top : Frame) (below : List Frame) (size : ℕ)
      → open_count (advance top size) below ≡ open_count top below
  unfolding advance
  advance-open_count top [] size = refl
  advance-open_count top (parent ∷ others) size = refl

  abbrev IsBounded : ℕ → Type 0
  IsBounded fuel =
      (count : ℕ) (top : Frame) (below : List Frame) (t : Node)
      → AreNested top below
      → count ≡ open_count top below
      → count ≤ max_nodes
      → run max_depth max_nodes fuel count top below ≡ ok t
      → (node_count t ≤ max_nodes) × (node_depth t ≤ max_depth)

  popped-IsBounded :
      (fuel : ℕ)
      → IsBounded fuel
      → (count : ℕ) (top : Frame) (below : List Frame) (t : Node)
      → next_move max_depth max_nodes count top ≡ pop
      → AreNested top below
      → count ≡ open_count top below
      → count ≤ max_nodes
      → run max_depth max_nodes (suc fuel) count top below ≡ ok t
      → (node_count t ≤ max_nodes) × (node_depth t ≤ max_depth)
  unfolding complete node_count
  popped-IsBounded fuel ih count top [] t popped nested counted few done =
      let whole : complete top ≡ t =
        ok-injective (sym (run-last max_depth max_nodes fuel count top popped) ∙ done) in
      let deep = complete-depth top nested (next_move-pop max_depth max_nodes count top popped) in
      subst (λ n. (node_count n ≤ max_nodes) × (node_depth n ≤ max_depth)) whole
        (omega arith, omega (arith, deep))
  popped-IsBounded fuel ih count top (parent ∷ others) t popped (h, linked, rest) counted few done =
      let deep = complete-depth top h (next_move-pop max_depth max_nodes count top popped) in
      ih count (attach parent (complete top)) others t
        (attach-AreNested parent others (complete top) rest (omega (arith, deep)))
        (omega (arith, attach-open_count parent others (complete top))) few
        (sym (run-pop max_depth max_nodes fuel count top parent others popped) ∙ done)

  pushed-IsBounded :
      (fuel : ℕ)
      → IsBounded fuel
      → (count : ℕ) (top : Frame) (below : List Frame) (t : Node) (child : Header) (size : ℕ)
      → next_move max_depth max_nodes count top ≡ push child size
      → AreNested top below
      → count ≡ open_count top below
      → run max_depth max_nodes (suc fuel) count top below ≡ ok t
      → (node_count t ≤ max_nodes) × (node_depth t ≤ max_depth)
  unfolding new_frame nodes_count nodes_depth
  pushed-IsBounded fuel ih count top below t child size pushed nested counted done =
      let p = next_move-Pushed max_depth max_nodes count top child size pushed in
      ih (count + 1) (new_frame child (top.cursor + size - child.size) (top.depth + 1))
        (advance top size ∷ below) t
        (
          record { within = omega (arith, p.shallow); inner = omega arith },
          advance-depth top size,
          advance-AreNested top below size nested,
        )
        (omega (arith, advance-open_count top below size)) (omega (arith, p.room))
        (sym (run-push max_depth max_nodes fuel count top below child size pushed) ∙ done)

  run-IsBounded : (fuel : ℕ) → IsBounded fuel
  run-IsBounded zero count top below t nested counted few done =
      absurd (cc (run-stuck max_depth max_nodes count top below))
  run-IsBounded (suc fuel) count top below t nested counted few done =
      elim (Move-cases (next_move max_depth max_nodes count top)) [
        | inl popped ↦
            popped-IsBounded fuel (run-IsBounded fuel) count top below t popped nested counted few
              done
        | inr (inr (e, failed)) ↦
            absurd (cc (run-fail max_depth max_nodes fuel count top below e failed))
        | inr (inl (child, size, pushed)) ↦
            pushed-IsBounded fuel (run-IsBounded fuel) count top below t child size pushed nested
              counted done
      ]

root_open :
    (max_depth max_nodes fuel : ℕ) (root : Header) (at : ℕ) (t : Node)
    → 0 < max_nodes
    → run max_depth max_nodes fuel 1 (new_frame root at 0) [] ≡ ok t
    → (node_count t ≤ max_nodes) × (node_depth t ≤ max_depth)
unfolding new_frame nodes_count nodes_depth
root_open max_depth max_nodes fuel root at t some_nodes done =
    run-IsBounded max_depth max_nodes fuel 1 (new_frame root at 0) [] t
      (record { within = omega arith; inner = omega arith }) (omega arith) (omega arith) done

-- When parse_with_limits returns a tree, the tree has at most as many nodes as the node limit, and
-- at most as many constructed nodes on a way down as the nesting limit.
pub parse_with_limits-bounds :
    (der : Bytes) (max_depth max_nodes : ℕ) (t : Node)
    → parse_with_limits der max_depth max_nodes ≡ ok t
    → (node_count t ≤ max_nodes) × (node_depth t ≤ max_depth)
unfolding parse_with_limits
parse_with_limits-bounds [] max_depth max_nodes t done =
    elim (Bool-cases (max_depth == 0 || max_nodes == 0)) [
      | inl none_left ↦ absurd (cc (rw (parse_with_limits, none_left) at done))
      | inr both ↦ absurd (cc (rw (parse_with_limits, both) at done))
    ]
parse_with_limits-bounds (b ∷ bs) max_depth max_nodes t done =
    elim (Bool-cases (max_depth == 0 || max_nodes == 0)) [
      | inl none_left ↦ absurd (cc (rw (parse_with_limits, none_left) at done))
      | inr both ↦
          let some_nodes : 0 < max_nodes = ground arith in
          let ((root, used), read, opened) =
            >>=-eq-ok (parse_header (b ∷ bs) 0) _ (rw (parse_with_limits, both) at done) in
          elim (Bool-cases (used == length (b ∷ bs))) [
            | inr trailing ↦ absurd (cc (rw trailing at opened))
            | inl whole ↦
                root_open max_depth max_nodes (2 * length (b ∷ bs)) root (used - root.size) t
                  some_nodes (rw whole at opened)
          ]
    ]
