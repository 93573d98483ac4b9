-- ===== src/Examples/Counting.antt =====
-- The counters, the shape and the flushes of concrete trees.
use Prim.Native.Nat.{◌*◌}
use fractaltree.Message.{put, delete, upsert}
use fractaltree.Prelude.{none, ℕ, ◌-◌, ◌<◌, ◌≤◌, ◌≡◌, refl, false, List, [], ◌∷◌, arith, length}
use fractaltree.Prelude.Int.{pos}
use fractaltree.Order.{nat_ord}
use fractaltree.Search.{bisect}
use fractaltree.Read.{scan_messages, apply_upsert_chain}
use fractaltree.Node.{num_children, find_child_index, buffer_messages_for_key}
use fractaltree.Apply.{Counters}
use fractaltree.Iterator.{materialize_all}
use fractaltree.Flush.{flush_node}
use fractaltree.Flush.Progress.{buffer_of, flush_node-progress}
use fractaltree.Tree.{new, len, put_key, delete_key}
use fractaltree.Shape.Buffer.{FitsRoot, run-FitsRoot}
use fractaltree.Client.{run, put_op, delete_op, upsert_op}
use fractaltree.Client.Calls.{Call, point_call, delete_range_call, run_calls}
use fractaltree.Count.{tally}
use fractaltree.Count.Calls.{IsExactTree, empty-IsExact, run_calls-IsExact}
use fractaltree.Count.Quiet.{waiting, len-run_calls}
use fractaltree.Shape.{IsShaped}
use fractaltree.Shape.Calls.{HasShape, run_calls-HasShape}
use fractaltree.Examples.Data.{
  calls, nat_zero, plus_one, small, empty, empty-IsValid, pivots, children, inner, inner-IsOrdered,
}

abbrev writes : List (Call ℕ ℕ)
writes =
    point_call (put_op 5 50)
    ∷ point_call (put_op 2 20)
    ∷ point_call (put_op 8 80)
    ∷ point_call (put_op 6 60)
    ∷ point_call (put_op 7 70)
    ∷ point_call (delete_op 8)
    ∷ point_call (delete_op 7)
    ∷ []

abbrev more_writes : List (Call ℕ ℕ)
more_writes =
    point_call (put_op 5 50)
    ∷ point_call (put_op 2 20)
    ∷ point_call (put_op 8 80)
    ∷ point_call (put_op 6 60)
    ∷ delete_range_call 5 7
    ∷ point_call (upsert_op 9 plus_one)
    ∷ []

run_calls-IsExact_example : IsExactTree (run_calls more_writes empty).0
unfolding new
run_calls-IsExact_example = run_calls-IsExact more_writes empty empty-IsValid empty-IsExact

no_message_left : waiting (run_calls writes (new small)).0.root ≡ 0
unfolding tally run_calls new put_key delete_key nat_ord find_child_index bisect scan_messages
    buffer_messages_for_key apply_upsert_chain
no_message_left = refl

len-run_calls_example :
    len (run_calls writes (new small)).0
    ≡ pos (length (materialize_all (run_calls writes (new small)).0.root))
len-run_calls_example = len-run_calls small writes no_message_left

empty-HasShape : HasShape empty
unfolding new IsShaped
empty-HasShape = (omega arith, (0, tt))

run_calls-HasShape_example : HasShape (run_calls more_writes empty).0
run_calls-HasShape_example = run_calls-HasShape more_writes empty empty-IsValid empty-HasShape

abbrev counters : Counters
counters = record { size = pos 6; pending_deletes = pos 1 }

flush_node-progress_example :
    (length (buffer_of (flush_node small inner counters).0) < 4)
    × (4 ≤ num_children children * (4 - length (buffer_of (flush_node small inner counters).0)))
flush_node-progress_example =
    flush_node-progress small none none pivots children (put 3 31 false)
      (delete 8 ∷ upsert 9 plus_one ∷ upsert 3 plus_one ∷ []) false counters inner-IsOrdered

empty-FitsRoot : FitsRoot empty
unfolding new
empty-FitsRoot = omega arith

run-FitsRoot_example : FitsRoot (run calls empty).0
run-FitsRoot_example = run-FitsRoot calls empty empty-IsValid empty-FitsRoot
