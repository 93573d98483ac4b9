-- ===== src/Examples/Iteration.antt =====
-- iterator.go, DeleteRange and examples/mergejoin/main.go on the trees of the examples.
use fractaltree.Prelude.{
  ℕ, ◌+◌, ◌≡◌, refl, Bool, true, false, not, none, some, List, [], ◌∷◌, arith, length, reverse,
  select, ◌==◌, lt,
}
use fractaltree.Prelude.Int.{◌+ℤ◌}
use fractaltree.Order.{nat_ord}
use fractaltree.Node.{buffer_messages_for_key, find_child_index}
use fractaltree.Iterator.{
  MergeEntry, value, deleted, fn, materialize_all, materialize_range, resolve_entries, collect_all,
  collect_range,
}
use fractaltree.Iterator.Range.{in_range, collect_range-select}
use fractaltree.Tree.{BeTree, get, new, contains, put_key, delete_key, upsert_key, put_if_absent}
use fractaltree.Search.{bisect}
use fractaltree.Read.{scan_messages, apply_upsert_chain}
use fractaltree.Cursor.{next, cursor_of}
use fractaltree.Cursor.Back.{walk_back, walk_back-cursor_of}
use fractaltree.Tree.Laws.{IsValid}
use fractaltree.DeleteRange.{delete_range}
use fractaltree.DeleteRange.Pairs.{without}
use fractaltree.DeleteRange.Laws.{get-delete_range}
use fractaltree.Sequence.{ascend, descend}
use fractaltree.Sequence.Laws.{seen_until, up_to, Lists, seen_until-all}
use fractaltree.Client.{get_op, put_op, run}
use fractaltree.Client.Refines.{run-run_map}
use fractaltree.Client.Calls.{
  Call, point_call, delete_range_call, all_call, cursor_call, ascend_call, descend_call, range_call,
  descend_range_call, run_calls, AllPromised, run_calls-AllPromised,
}
use fractaltree.Programs.MergeJoin.{merge_join, anti_join}
use fractaltree.Programs.MergeJoin.Laws.{is_held, merge_join_lem}
use fractaltree.Examples.Data.{
  nat_zero, plus_one, grown, grown-IsValid, entries, empty, empty-IsValid, inner, inner-IsOrdered,
}

-- a loop that stops at a key
abbrev at_six : ℕ × ℕ → Bool
at_six p = p.0 == 6

abbrev range_calls : List (Call ℕ ℕ)
range_calls =
    range_call 3 9 at_six
    ∷ delete_range_call 5 8
    ∷ point_call (get_op 6)
    ∷ point_call (put_op 7 70)
    ∷ ascend_call at_six
    ∷ descend_call at_six
    ∷ descend_range_call 9 3 at_six
    ∷ all_call at_six
    ∷ cursor_call
    ∷ []

run_calls-AllPromised_example :
    IsValid (run_calls range_calls grown).0
    × AllPromised range_calls
        (get grown)
        (get (run_calls range_calls grown).0)
        (run_calls range_calls grown).1
run_calls-AllPromised_example = run_calls-AllPromised range_calls grown grown-IsValid

get-delete_range_example :
    IsValid (delete_range grown 5 8).0
    × (get (delete_range grown 5 8).0 ≡ without 5 8 (get grown))
    × ((delete_range grown 5 8).1 ≡ length (materialize_range grown.root 5 8))
get-delete_range_example = get-delete_range 5 8 grown grown-IsValid

seen_until-all_example :
    (ps : List (ℕ × ℕ)) × Lists grown (λ k. true) ps
    × (seen_until at_six (ascend grown) ≡ up_to at_six ps)
    × (seen_until at_six (descend grown) ≡ up_to at_six (reverse ps))
seen_until-all_example = seen_until-all grown at_six grown-IsValid

bounds_in_order : nat_ord.cmp 3 8 ≡ lt
unfolding nat_ord
bounds_in_order = refl

collect_range-select_example :
    collect_range 3 8 true false inner 0 ≡ select (in_range 3 8 true false) (collect_all inner 0)
collect_range-select_example =
    collect_range-select inner 3 8 true false 0 none none bounds_in_order inner-IsOrdered

abbrev collected : List (MergeEntry ℕ ℕ)
collected =
    record { key = 3; depth = 0; change = fn plus_one }
    ∷ record { key = 3; depth = 1; change = deleted }
    ∷ record { key = 3; depth = 1; change = fn plus_one }
    ∷ record { key = 2; depth = 2; change = value 20 }
    ∷ record { key = 3; depth = 2; change = value 30 }
    ∷ []

pairs_found : resolve_entries collected ≡ (2, 20) ∷ (3, 2) ∷ []
unfolding resolve_entries nat_ord
pairs_found = refl

-- a second tree with some of the keys
abbrev second : BeTree ℕ ℕ
second = (run (put_op 3 1 ∷ put_op 4 2 ∷ []) empty).0

second-IsValid : IsValid second
second-IsValid = (run-run_map (put_op 3 1 ∷ put_op 4 2 ∷ []) empty empty-IsValid).0

pair_count : length (materialize_all grown.root) + length (materialize_all second.root) ≡ 8
unfolding materialize_all resolve_entries run delete_key put_if_absent get contains put_key new
    nat_ord scan_messages buffer_messages_for_key bisect find_child_index apply_upsert_chain
    upsert_key
pair_count = refl

merge_join_lem_example :
    (merge_join 9 grown second ≡ some (select (is_held second) (materialize_all grown.root)))
    × (anti_join 9 grown second
        ≡ some (select (λ x. not (is_held second x)) (materialize_all grown.root)))
merge_join_lem_example =
    merge_join_lem grown second 9 grown-IsValid second-IsValid (omega (arith, pair_count))

joined : merge_join 9 grown second ≡ some ((3, 30) ∷ [])
unfolding merge_join next materialize_all resolve_entries run delete_key put_if_absent get contains
    put_key new nat_ord scan_messages buffer_messages_for_key bisect find_child_index
    apply_upsert_chain upsert_key ◌+ℤ◌
joined = refl

walk_back-cursor_of_example :
    walk_back 4 (cursor_of entries) ≡ some (5, 50) ∷ some (3, 30) ∷ some (1, 10) ∷ []
walk_back-cursor_of_example = walk_back-cursor_of entries 4 (omega arith)
