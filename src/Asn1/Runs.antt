-- ===== src/Asn1/Runs.antt =====
-- Concrete runs, and the theorems at concrete inputs.
use tongsuo_go.Base.{[], ◌∷◌, ◌≤◌, ◌≡◌, ◌≢◌, refl, arith, ok, err, true, false}
use tongsuo_go.Asn1.Node.{Bytes, Header, Node, node, nil, cons, snoc, stuck}
use tongsuo_go.Asn1.Header.{tag_number, parse_length, finish_header, parse_header}
use tongsuo_go.Asn1.Header.Bounds.{IsWithin, parse_header-IsWithin}
use tongsuo_go.Asn1.Recursive.{max_der_depth, parse}
use tongsuo_go.Asn1.Limits.{
  next_move, child_move, new_frame, advance, attach, complete, run, parse_with_limits,
}
use tongsuo_go.Asn1.Limits.Bounds.{node_count, node_depth, parse_with_limits-bounds}
use tongsuo_go.Asn1.Limits.Termination.{parse_with_limits-ne-stuck}
use tongsuo_go.Asn1.Simulation.Whole.{
  as_limits, accepted, accepted-parse_with_limits, parse_with_limits-parse,
}

-- SEQUENCE { INTEGER 5, OCTET STRING 07 }
abbrev two_values : Bytes
two_values = 0x30 ∷ 6 ∷ 2 ∷ 1 ∷ 5 ∷ 4 ∷ 1 ∷ 7 ∷ []

abbrev root : Header
root = record {
  offset = 0;
  tag = 0x30;
  class = 0;
  number = 0x10;
  constructed = true;
  size = 6;
  value = 2 ∷ 1 ∷ 5 ∷ 4 ∷ 1 ∷ 7 ∷ [];
}

header_run : parse_header two_values 0 ≡ ok (root, 8)
unfolding parse_header tag_number parse_length finish_header
header_run = refl

parse_header-IsWithin_example : IsWithin 0 two_values root 8
parse_header-IsWithin_example = parse_header-IsWithin two_values 0 root 8 header_run

accepted-parse_with_limits_example :
    accepted (parse_with_limits two_values max_der_depth 8) ≡ accepted (parse two_values)
accepted-parse_with_limits_example =
    accepted-parse_with_limits two_values 8 (omega arith) (omega arith)

parse_with_limits-parse_example :
    parse_with_limits two_values max_der_depth 8 ≡ as_limits (parse two_values)
parse_with_limits-parse_example = parse_with_limits-parse two_values 8 root header_run (omega arith)

abbrev two_nodes : Node
two_nodes = node root (
    cons
      (node
        (record {
          offset = 2;
          tag = 2;
          class = 0;
          number = 2;
          constructed = false;
          size = 1;
          value = 5 ∷ [];
        })
        nil)
      (cons
        (node
          (record {
            offset = 5;
            tag = 4;
            class = 0;
            number = 4;
            constructed = false;
            size = 1;
            value = 7 ∷ [];
          })
          nil)
        nil))

limits_run : parse_with_limits two_values 1 3 ≡ ok two_nodes
unfolding parse_with_limits run next_move child_move new_frame advance attach complete parse_header
    tag_number parse_length finish_header snoc
limits_run = refl

parse_with_limits-bounds_example : (node_count two_nodes ≤ 3) × (node_depth two_nodes ≤ 1)
parse_with_limits-bounds_example = parse_with_limits-bounds two_values 1 3 two_nodes limits_run

parse_with_limits-ne-stuck_example : parse_with_limits two_values 1 2 ≢ err stuck
parse_with_limits-ne-stuck_example = parse_with_limits-ne-stuck two_values 1 2
