-- ===== src/Asn1/Node.antt =====
-- The tree of asn1/asn1.go. `Header` holds the fields of a `Node` other than its children.
use tongsuo_go.Base.{ℕ, List, Bool}

abbrev pub Bytes : Type 0
Bytes = List ℕ

pub record Header : Type 0 where
  pub offset : ℕ
  pub tag : ℕ
  pub class : ℕ
  pub number : ℕ
  pub constructed : Bool
  pub size : ℕ
  pub value : Bytes

mutual
  pub data Node : Type 0 where
    node : Header → Nodes → Node

  pub data Nodes : Type 0 where
    nil : Nodes
    cons : Node → Nodes → Nodes

-- `append(f.node.Children, child)`
unfoldable pub snoc : Nodes → Node → Nodes
snoc nil n = cons n nil
snoc (cons m ms) n = cons m (snoc ms n)

-- The errors. `nesting_too_deep` and `depth_limit` carry the node's offset, `node_limit` the cursor.
-- `stuck` is no Go error: a loop of the model ran out of fuel.
pub data ParseError : Type 0 where
  empty_der truncated truncated_tag truncated_length indefinite_length long_form_length : ParseError
  bad_length : ℕ → ParseError
  nesting_too_deep : ℕ → ParseError
  trailing_bytes : ℕ → ParseError
  limits_not_positive : ParseError
  depth_limit : ℕ → ParseError
  node_limit : ℕ → ParseError
  stuck : ParseError
