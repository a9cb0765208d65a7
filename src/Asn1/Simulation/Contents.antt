-- ===== src/Asn1/Simulation/Contents.antt =====
-- The recursion of `parseNode`, with the children split off, and the move that the loop makes at the
-- same place.
use tongsuo_go.Base.{
  ℕ, zero, suc, ◌+◌, ◌-◌, ◌≤◌, ◌<◌, ◌∷◌, ◌≡◌, refl, ap, arith, length, Result, ok, err, Bool, true,
  false, if◌then◌else◌, ◌>>=◌, drop,
}
use tongsuo_go.Asn1.Node.{
  Bytes, Node, Nodes, node, nil, cons, snoc, Header, ParseError, nesting_too_deep, depth_limit,
}
use tongsuo_go.Asn1.Header.{parse_header}
use tongsuo_go.Asn1.Header.Bounds.{IsHeaderError}
use tongsuo_go.Asn1.Recursive.{parse_children, parse_node}
use tongsuo_go.Asn1.Limits.{Frame, pop, fail, next_move, child_move}

-- The same error, as the loop reports it.
abbrev pub as_limit : ParseError → ParseError
as_limit (nesting_too_deep base) = depth_limit base
as_limit e = e

pub as_limit-header : (e : ParseError) → IsHeaderError e → as_limit e ≡ e
as_limit-header (nesting_too_deep base) h = absurd h
as_limit-header _ h = refl

abbrev pub nodes_append : Nodes → Nodes → Nodes
nodes_append nil ns = ns
nodes_append (cons m ms) ns = cons m (nodes_append ms ns)

pub nodes_append-nil : (ms : Nodes) → nodes_append ms nil ≡ ms
nodes_append-nil nil = refl
nodes_append-nil (cons m ms) = ap (cons m) (nodes_append-nil ms)

pub nodes_append-snoc :
    (ms : Nodes) (n : Node) (ns : Nodes) → nodes_append (snoc ms n) ns ≡ nodes_append ms (cons n ns)
unfolding snoc
nodes_append-snoc nil n ns = refl
nodes_append-snoc (cons m ms) n ns = ap (cons m) (nodes_append-snoc ms n ns)

-- The children of a constructed node.
abbrev pub inner : ℕ → Header → ℕ → ℕ → Result ParseError Nodes
inner zero h base at = err (nesting_too_deep base)
inner (suc depth) h base at = parse_children (parse_node depth) (length h.value) h.value at

abbrev pub contents : ℕ → Header → ℕ → ℕ → Result ParseError Nodes
contents depth h base at = if h.constructed then inner depth h base at else ok nil

-- `parseNode` on a header that was read.
pub parse_node-contents :
    (depth : ℕ) (der : Bytes) (base : ℕ) (h : Header) (used : ℕ)
    → parse_header der base ≡ ok (h, used)
    → parse_node depth der base
      ≡ (contents depth h base (base + (used - h.size)) >>= λ cs. ok (node h cs, used))
unfolding parse_node
parse_node-contents zero der base h used e = rw e (leaf h.constructed)
  where
    leaf :
        (b : Bool)
        → ◌≡◌ {A = Result ParseError (Node × ℕ)}
            (if b then err (nesting_too_deep base) else ok (node h nil, used))
            ((if b then err (nesting_too_deep base) else ok nil) >>= λ cs. ok (node h cs, used))
    leaf true = refl
    leaf false = refl
parse_node-contents (suc depth) der base h used e = rw e

pub parse_node-err :
    (depth : ℕ) (der : Bytes) (base : ℕ) (e : ParseError)
    → parse_header der base ≡ err e
    → parse_node depth der base ≡ err e
unfolding parse_node
parse_node-err zero der base e h = rw h
parse_node-err (suc depth) der base e h = rw h

-- One round of the loop over the children.
module _ (parse : Bytes → ℕ → Result ParseError (Node × ℕ)) (fuel b : ℕ) (bs : Bytes) (at : ℕ) where
  pub parse_children-err :
      (e : ParseError)
      → parse (b ∷ bs) at ≡ err e
      → parse_children parse (suc fuel) (b ∷ bs) at ≡ err e
  unfolding parse_children
  parse_children-err e h = rw h

  pub parse_children-ok :
      (n : Node) (used : ℕ)
      → parse (b ∷ bs) at ≡ ok (n, used)
      → parse_children parse (suc fuel) (b ∷ bs) at
        ≡ (parse_children parse fuel (drop used (b ∷ bs)) (at + used) >>= λ ns. ok (cons n ns))
  unfolding parse_children
  parse_children-ok n used h = rw h

-- The moves.
module _ (max_depth max_nodes count : ℕ) (f : Frame) where
  pub next_move-leaf : f.header.constructed ≡ false → next_move max_depth max_nodes count f ≡ pop
  unfolding next_move
  next_move-leaf h = ground arith

  pub next_move-deep :
      f.header.constructed ≡ true
      → max_depth ≤ f.depth
      → next_move max_depth max_nodes count f ≡ fail (depth_limit f.header.offset)
  unfolding next_move
  next_move-deep h deep = ground arith

  pub next_move-end :
      f.header.constructed ≡ true
      → f.depth < max_depth
      → length f.rest ≡ 0
      → next_move max_depth max_nodes count f ≡ pop
  unfolding next_move
  next_move-end h deep done = ground arith

  pub next_move-child :
      f.header.constructed ≡ true
      → f.depth < max_depth
      → 0 < length f.rest
      → count < max_nodes
      → next_move max_depth max_nodes count f ≡ child_move (parse_header f.rest f.cursor)
  unfolding next_move
  next_move-child h deep more room = ground arith
