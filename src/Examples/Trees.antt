-- ===== src/Examples/Trees.antt =====
-- tree.go, cursor.go and upsert.go on the trees of the examples.
use fractaltree.Prelude.{
  ◌≡◌, refl, true, false, not, none, some, [], ◌∷◌, arith, ltb, get_elem?, if◌then◌else◌, ◌==◌,
}
use fractaltree.Order.{nat_ord, is_lt}
use fractaltree.Search.{prefix_count, bisect}
use fractaltree.Read.{scan_messages, apply_upsert_chain}
use fractaltree.Node.{buffer_messages_for_key, find_child_index}
use fractaltree.Tree.{new, get, contains, put_key, delete_key, upsert_key, put_if_absent}
use fractaltree.Tree.Laws.{
  IsValid, update, get-put_key, get-delete_key, get-upsert_key, get-put_if_absent,
}
use fractaltree.Client.{done, flag, found, run}
use fractaltree.Cursor.{cursor_of, walk, seek, current}
use fractaltree.Cursor.Laws.{somes, walk-cursor_of, seek_lem}
use fractaltree.Upsert.{compare_and_swap}
use fractaltree.Upsert.Laws.{get-compare_and_swap}
use fractaltree.Examples.Data.{
  nat_zero, plus_one, calls, empty, grown, grown-IsValid, entries, entries-IsSorted,
}

-- what the calls return
calls_replies :
    (run calls empty).1
    ≡ done
      ∷ done
      ∷ done
      ∷ done
      ∷ flag true
      ∷ done
      ∷ flag true
      ∷ done
      ∷ done
      ∷ found (some 51)
      ∷ flag false
      ∷ []
unfolding run delete_key put_if_absent get contains put_key new nat_ord scan_messages
    buffer_messages_for_key bisect find_child_index apply_upsert_chain upsert_key
calls_replies = refl

get-put_key_example :
    IsValid (put_key grown 4 40) × (get (put_key grown 4 40) ≡ update (get grown) 4 (some 40))
get-put_key_example = get-put_key grown 4 40 grown-IsValid

get-delete_key_example :
    IsValid (delete_key grown 5).0
    × (get (delete_key grown 5).0 ≡ update (get grown) 5 none)
    × ((delete_key grown 5).1 ≡ contains grown 5)
get-delete_key_example = get-delete_key grown 5 grown-IsValid

get-upsert_key_example :
    IsValid (upsert_key grown 5 plus_one)
    × (get (upsert_key grown 5 plus_one) ≡ update (get grown) 5 (some (plus_one (get grown 5))))
get-upsert_key_example = get-upsert_key grown 5 plus_one grown-IsValid

get-put_if_absent_example :
    IsValid (put_if_absent grown 2 22).0
    × ((put_if_absent grown 2 22).1 ≡ not (contains grown 2))
    × (get (put_if_absent grown 2 22).0
        ≡ (if contains grown 2 then get grown else update (get grown) 2 (some 22)))
get-put_if_absent_example = get-put_if_absent grown 2 22 grown-IsValid

get-compare_and_swap_example :
    get (upsert_key grown 2 (compare_and_swap (λ a b. a == b) 20 21)) 2
    ≡ some (elim (get grown 2) [ none ↦ 0 | some v ↦ if v == 20 then 21 else v ])
get-compare_and_swap_example = get-compare_and_swap grown 2 (λ a b. a == b) 20 21 grown-IsValid

walk-cursor_of_example : walk 4 (cursor_of entries) ≡ somes entries
walk-cursor_of_example = walk-cursor_of entries 4 (omega arith)

seek_lem_example :
    ((seek (cursor_of entries) 2).1 ≡ ltb (prefix_count (λ e. is_lt (nat_ord.cmp e.0 2)) entries) 3)
    × ((seek (cursor_of entries) 2).0.valid
        ≡ ltb (prefix_count (λ e. is_lt (nat_ord.cmp e.0 2)) entries) 3)
    × ((if (seek (cursor_of entries) 2).1 then current (seek (cursor_of entries) 2).0 else none)
        ≡ get_elem? entries (prefix_count (λ e. is_lt (nat_ord.cmp e.0 2)) entries))
seek_lem_example = seek_lem (cursor_of entries) 2 entries-IsSorted
