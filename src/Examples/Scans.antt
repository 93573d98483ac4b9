-- ===== src/Examples/Scans.antt =====
-- examples/prefixscan, leaderboard and timeseries on small trees.
use fractaltree.Prelude.{ℕ, ◌≡◌, List, [], ◌∷◌, length}
use fractaltree.Codec.{Bytes}
use fractaltree.Ordered.{IsOrdered}
use fractaltree.Tree.{BeTree, new}
use fractaltree.Tree.Laws.{IsValid}
use fractaltree.Client.{Op, put_op, run}
use fractaltree.Client.Refines.{run-run_map}
use fractaltree.Sequence.Laws.{Lists}
use fractaltree.Order.{nat_ord}
use fractaltree.Programs.Comparators.Laws.{text_ord}
use fractaltree.Programs.PrefixScan.{colon, count_prefix}
use fractaltree.Programs.PrefixScan.Laws.{has_prefix, count_prefix_lem}
use fractaltree.Examples.Data.{nat_zero, small}

-- `u:1`, `u;1`, `u:22` and `s:1`
abbrev text_calls : List (Op Bytes ℕ)
text_calls =
    put_op (117 ∷ 58 ∷ 49 ∷ []) 1
    ∷ put_op (117 ∷ 59 ∷ 49 ∷ []) 2
    ∷ put_op (117 ∷ 58 ∷ 50 ∷ 50 ∷ []) 3
    ∷ put_op (115 ∷ 58 ∷ 49 ∷ []) 4
    ∷ []

abbrev texts : BeTree Bytes ℕ
texts = (run ⦃o = text_ord⦄ text_calls (new small)).0

no_text-IsValid : IsValid ⦃o = text_ord⦄ (new {V = ℕ} small)
unfolding new IsOrdered
no_text-IsValid = (tt, tt)

texts-IsValid : IsValid ⦃o = text_ord⦄ texts
texts-IsValid = (run-run_map ⦃o = text_ord⦄ text_calls (new small) no_text-IsValid).0

count_prefix_lem_example :
    (ps : List (Bytes × ℕ)) × Lists ⦃o = text_ord⦄ texts (has_prefix (117 ∷ colon ∷ [])) ps
    × (count_prefix texts (117 ∷ colon ∷ []) ≡ length ps)
count_prefix_lem_example = count_prefix_lem texts (117 ∷ []) texts-IsValid
