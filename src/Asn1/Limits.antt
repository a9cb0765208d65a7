-- ===== src/Asn1/Limits.antt =====
-- `ParseWithLimits` of asn1/limits.go, which keeps the open nodes on a stack of its own.
pub mod Bounds
pub mod Termination
use tongsuo_go.Base.{
  ℕ, zero, suc, ◌+◌, ◌-◌, ◌*◌, List, [], ◌∷◌, ◌==◌, leb, ◌||◌, if◌then◌else◌, length, drop, Result,
  ok, err, ◌>>=◌,
}
use tongsuo_go.Asn1.Node.{
  Bytes, Header, Node, Nodes, node, nil, snoc, ParseError, empty_der, trailing_bytes,
  limits_not_positive, depth_limit, node_limit, stuck,
}
use tongsuo_go.Asn1.Header.{parse_header}

-- A `frame`: the node with the children that are complete, the cursor, the bytes from the cursor to
-- the end, and the depth. The child that is being read stands in the frame above. The source appends
-- it to its parent when it is pushed, and fills it through the pointer; here it is appended when it
-- is popped. No tree is returned before the stack is empty.
pub record Frame : Type 0 where
  pub header : Header
  pub children : Nodes
  pub cursor : ℕ
  pub rest : Bytes
  pub depth : ℕ

unfoldable pub new_frame : Header → ℕ → ℕ → Frame
new_frame h at depth = record {
  header = h;
  children = nil;
  cursor = at;
  rest = h.value;
  depth = depth;
}

-- What the loop does with the frame on top.
pub data Move : Type 0 where
  pop : Move
  push : Header → ℕ → Move
  fail : ParseError → Move

unfoldable pub child_move : Result ParseError (Header × ℕ) → Move
child_move (ok (child, size)) = push child size
child_move (err e) = fail e

-- The body of the loop, up to the change of the stack.
unfoldable pub next_move : ℕ → ℕ → ℕ → Frame → Move
next_move max_depth max_nodes count f =
    if f.header.constructed
    then (if leb max_depth f.depth
        then fail (depth_limit f.header.offset)
        else if length f.rest == 0
        then pop
        else if leb max_nodes count
        then fail (node_limit f.cursor)
        else child_move (parse_header f.rest f.cursor))
    else pop

-- The parent's frame after a child of `size` bytes.
unfoldable pub advance : Frame → ℕ → Frame
advance f size = record f { cursor = f.cursor + size; rest = drop size f.rest }

unfoldable pub attach : Frame → Node → Frame
attach f n = record f { children = snoc f.children n }

unfoldable pub complete : Frame → Node
complete f = node f.header f.children

-- The loop. `top` is the last frame of the stack and `below` the others, the nearest first.
unfoldable pub run : ℕ → ℕ → ℕ → ℕ → Frame → List Frame → Result ParseError Node
unfolding new_frame advance attach complete
run max_depth max_nodes zero count top below = err stuck
run max_depth max_nodes (suc fuel) count top below =
    elim (next_move max_depth max_nodes count top) [
      | fail e ↦ err e
      | pop ↦ elim below [
        | [] ↦ ok (complete top)
        | parent ∷ others ↦ run max_depth max_nodes fuel count (attach parent (complete top)) others
      ]
      | push child size ↦
          run max_depth max_nodes fuel (count + 1)
            (new_frame child (top.cursor + size - child.size) (top.depth + 1))
            (advance top size ∷ below)
    ]

-- Every node takes a byte or more, and is pushed once and popped once.
unfoldable pub parse_with_limits : Bytes → ℕ → ℕ → Result ParseError Node
parse_with_limits der max_depth max_nodes =
    if max_depth == 0 || max_nodes == 0 then err limits_not_positive else elim der [
      | [] ↦ err empty_der
      | b ∷ bs ↦ do
        (root, used) ← parse_header (b ∷ bs) 0
        if used == length (b ∷ bs)
            then run max_depth max_nodes (2 * length (b ∷ bs)) 1
                (new_frame root (used - root.size) 0) []
            else err (trailing_bytes (length (b ∷ bs) - used))
    ]
