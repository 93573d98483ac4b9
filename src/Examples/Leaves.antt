-- ===== src/Examples/Leaves.antt =====
-- flush.go, node.go and the binary search on a leaf.
use fractaltree.Prelude.{ℕ, ◌≡◌, true, false, some, List, [], ◌∷◌, arith, All}
use fractaltree.Prelude.Int.{pos}
use fractaltree.Order.{nat_ord}
use fractaltree.Message.{Message, put, delete}
use fractaltree.Message.Replay.{replay}
use fractaltree.Node.Entries.{lookup, IsSorted}
use fractaltree.Merge.Append.{IsBefore}
use fractaltree.Merge.Puts.{IsPut, IsStrict}
use fractaltree.Merge.Deletes.{IsPutOrDelete}
use fractaltree.Apply.{Counters, resolve_messages, apply_to_leaf}
use fractaltree.Apply.Resolve.{replay-resolve_messages}
use fractaltree.Apply.Batch.{lookup-apply_to_leaf, apply_to_leaf-IsSorted}
use fractaltree.Examples.Data.{nat_zero, entries, entries-IsSorted, puts, batch, batch-IsPoint}

abbrev counters : Counters
counters = record { size = pos 4; pending_deletes = pos 1 }

abbrev later : List (Message ℕ ℕ)
later = put 6 60 true ∷ put 8 80 false ∷ []

abbrev mixed : List (Message ℕ ℕ)
mixed = put 2 20 true ∷ delete 3 ∷ put 5 55 false ∷ []

puts-IsStrict : IsStrict puts
unfolding nat_ord
puts-IsStrict = ground arith

later-IsStrict : IsStrict later
unfolding nat_ord
later-IsStrict = ground arith

mixed-IsStrict : IsStrict mixed
unfolding nat_ord
mixed-IsStrict = ground arith

later-IsBefore : IsBefore entries later
unfolding nat_ord
later-IsBefore = ground arith

puts-IsPut : All IsPut puts
puts-IsPut = ground arith

later-IsPut : All IsPut later
later-IsPut = ground arith

mixed-IsPutOrDelete : All IsPutOrDelete mixed
mixed-IsPutOrDelete = ground arith

lookup-apply_to_leaf_example :
    lookup (apply_to_leaf entries batch counters).0 3 ≡ replay 3 batch (lookup entries 3)
lookup-apply_to_leaf_example =
    lookup-apply_to_leaf entries batch counters 3 entries-IsSorted batch-IsPoint

apply_to_leaf-IsSorted_example : IsSorted (apply_to_leaf entries batch counters).0
apply_to_leaf-IsSorted_example =
    apply_to_leaf-IsSorted entries batch counters entries-IsSorted batch-IsPoint

replay-resolve_messages_example :
    replay 3 (resolve_messages batch) (some 30) ≡ replay 3 batch (some 30)
replay-resolve_messages_example = replay-resolve_messages batch 3 (some 30) batch-IsPoint
