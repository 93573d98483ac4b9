-- ===== src/Count/Calls.antt =====
-- tree.go, Len: after any calls the counters are exact.
use fractaltree.Prelude.Int.{pos, int_laws}
use fractaltree.Order.{Ord}
use fractaltree.Message.{Zero}
use fractaltree.Node.{Node, leaf}
use fractaltree.Apply.{Counters}
use fractaltree.Flush.{TreeParams}
use fractaltree.Tree.{BeTree}
use fractaltree.Tree.Laws.{IsValid}
use fractaltree.Client.Keep.{ArePointsKept, IsRangeKept, calls_keep}
use fractaltree.Client.Calls.{Call, run_calls}
use fractaltree.Count.{tally, AreHit}
use fractaltree.Count.Writes.{IsExact}
use fractaltree.Count.Point.{put_root-IsExact, delete_root-IsExact, upsert_root-IsExact}
use fractaltree.Count.Range.{delete_range_root-IsExact}
use fractaltree.Prelude.{refl, List, []}

module _ {ℓ κ} {K : Type ℓ} {V : Type κ} ⦃o : Ord K⦄ where
  abbrev pub IsExactTree : BeTree K V → Type (ℓ ⊔ κ)
  IsExactTree t = IsExact t.root t.counters

  pub empty-IsExact :
      IsExact {K = K} {V = V} (leaf []) (record { size = pos 0; pending_deletes = pos 0 })
  unfolding AreHit tally
  empty-IsExact = record { hit = tt; count = record { size = omega int_laws; deletes = refl } }

module _ {ℓ κ} {K : Type ℓ} {V : Type κ} ⦃z : Zero V⦄ ⦃o : Ord K⦄ where
  abbrev Exactly : TreeParams → Node K V → Counters → Type (ℓ ⊔ κ)
  Exactly params n c = IsExact n c

  exact_points : ArePointsKept Exactly
  exact_points = record {
    put_keeps = put_root-IsExact;
    delete_keeps = delete_root-IsExact;
    upsert_keeps = upsert_root-IsExact;
    clear_keeps = λ params n c h. empty-IsExact;
  }

  exact_ranges : IsRangeKept Exactly
  exact_ranges params n c lo hi l a h = delete_range_root-IsExact params lo hi n c l a h

  -- From a valid tree whose counters are exact, any list of calls, of any methods but
  -- `Len` and `Close`, which change neither root nor counters, leaves them exact:
  -- `Len` is the number of leaf entries and of pending counted puts less the pending deletes,
  -- `pendingDeletes` is the number of these, and each of them will find a value when its turn comes.
  pub run_calls-IsExact :
      (calls : List (Call K V)) (t : BeTree K V)
      → IsValid t
      → IsExactTree t
      → IsExactTree (run_calls calls t).0
  run_calls-IsExact calls t v h = calls_keep Exactly exact_points exact_ranges calls t v h
