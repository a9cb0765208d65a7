-- ===== src/Asn1/Recursive.antt =====
-- `Parse` and `parseNode` of asn1/asn1.go.
use tongsuo_go.Base.{
  ℕ, zero, suc, ◌+◌, ◌-◌, [], ◌∷◌, ◌==◌, if◌then◌else◌, length, drop, Result, ok, err, ◌>>=◌,
}
use tongsuo_go.Asn1.Node.{
  Bytes, Node, Nodes, node, nil, cons, ParseError, empty_der, nesting_too_deep, trailing_bytes,
  stuck,
}
use tongsuo_go.Asn1.Header.{parse_header}

abbrev pub max_der_depth : ℕ
max_der_depth = 128

-- The loop over the children at the absolute offset `at`; `rest` is the value from the cursor on.
-- A child takes a byte or more, so the number of bytes bounds the rounds.
unfoldable pub parse_children :
    (Bytes → ℕ → Result ParseError (Node × ℕ)) → ℕ → Bytes → ℕ → Result ParseError Nodes
parse_children parse fuel [] at = ok nil
parse_children parse zero (b ∷ bs) at = err stuck
parse_children parse (suc fuel) (b ∷ bs) at = do
  (child, used) ← parse (b ∷ bs) at
  rest ← parse_children parse fuel (drop used (b ∷ bs)) (at + used)
  ok (cons child rest)

-- `depth` is the nesting that is still allowed.
unfoldable pub parse_node : ℕ → Bytes → ℕ → Result ParseError (Node × ℕ)
parse_node zero der base = do
  (h, used) ← parse_header der base
  if h.constructed then err (nesting_too_deep base) else ok (node h nil, used)
parse_node (suc depth) der base = do
  (h, used) ← parse_header der base
  children ←
      if h.constructed
      then parse_children (parse_node depth) (length h.value) h.value (base + (used - h.size))
      else ok nil
  ok (node h children, used)

unfoldable pub parse : Bytes → Result ParseError Node
parse [] = err empty_der
parse (b ∷ bs) = do
  (n, used) ← parse_node max_der_depth (b ∷ bs) 0
  if used == length (b ∷ bs) then ok n else err (trailing_bytes (length (b ∷ bs) - used))
