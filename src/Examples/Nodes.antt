-- ===== src/Examples/Nodes.antt =====
-- flush.go, node.go and the reads of tree.go on an inner node.
use fractaltree.Prelude.{ℕ, ◌≡◌, refl, lt, true, false, none, arith, select, is_some}
use fractaltree.Prelude.Int.{pos}
use fractaltree.Order.{nat_ord, is_eq}
use fractaltree.Message.{key_of}
use fractaltree.Node.Slice.{buffer_slice_lem}
use fractaltree.Node.{buffer_slice, buffer_slice_scan, buffer_messages_for_key}
use fractaltree.Node.Buffer.{IsBufferSorted, buffer_messages_for_key_lem}
use fractaltree.Ordered.{IsOrdered, eval}
use fractaltree.Read.{get_from_node}
use fractaltree.Read.Get.{get_from_node_lem}
use fractaltree.Apply.{Counters}
use fractaltree.Split.{split_node, split_child}
use fractaltree.Split.Child.{IsSame, split_child-IsSame}
use fractaltree.Flush.{flush_node}
use fractaltree.Flush.NoPanic.{split_node-overfull}
use fractaltree.Flush.Eval.{flush_node_lem}
use fractaltree.Examples.Data.{
  puts, nat_zero, small, pivots, children, inner, inner-IsOrdered, children-AreOrdered,
}

abbrev counters : Counters
counters = record { size = pos 6; pending_deletes = pos 1 }

flush_node_lem_example :
    IsOrdered none none (flush_node small inner counters).0
    × ((k : ℕ) → eval (flush_node small inner counters).0 k ≡ eval inner k)
flush_node_lem_example = flush_node_lem small inner none none counters inner-IsOrdered

get_from_node_lem_example : get_from_node inner 3 ≡ eval inner 3
get_from_node_lem_example = get_from_node_lem inner 3 none none inner-IsOrdered

split_child-IsSame_example : IsSame none none pivots children (split_child pivots children 2)
split_child-IsSame_example = split_child-IsSame pivots children none none 2 children-AreOrdered

split_node-overfull_example : is_some (split_node inner) ≡ true
split_node-overfull_example =
    split_node-overfull small inner none none (omega arith) inner-IsOrdered refl

puts-IsBufferSorted : IsBufferSorted puts
unfolding nat_ord
puts-IsBufferSorted = ground arith

buffer_messages_for_key_lem_example :
    buffer_messages_for_key puts true 3 ≡ select (λ m. is_eq (nat_ord.cmp (key_of m) 3)) puts
buffer_messages_for_key_lem_example =
    buffer_messages_for_key_lem puts true 3 (λ e. puts-IsBufferSorted)

bounds_ordered : nat_ord.cmp 0 4 ≡ lt
unfolding nat_ord
bounds_ordered = refl

buffer_slice_lem_example :
    buffer_slice puts true 0 4 false true ≡ buffer_slice_scan puts 0 4 false true
buffer_slice_lem_example =
    buffer_slice_lem puts true 0 4 false true (λ e. puts-IsBufferSorted) bounds_ordered
