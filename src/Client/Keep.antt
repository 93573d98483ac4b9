-- ===== src/Client/Keep.antt =====
-- tree.go: what the calls of the interface but Len and Close keep, once putLocked, Delete, Upsert,
-- DeleteRange and Clear do.
use fractaltree.Prelude.{◌≡◌, Bool, true, false, none, List, [], ◌∷◌, is_some, Bool-cases, inl, inr}
use fractaltree.Prelude.Int.{pos}
use fractaltree.Order.{Ord, is_lt}
use fractaltree.Message.{Zero, UpsertFn}
use fractaltree.Node.{Node, leaf}
use fractaltree.Read.{get_from_node}
use fractaltree.Ordered.{IsOrdered}
use fractaltree.Apply.{Counters}
use fractaltree.Flush.{TreeParams}
use fractaltree.Tree.{
  BeTree, put_root, put_locked, put_key, delete_root, delete_key, upsert_root, upsert_key,
  put_if_absent, clear,
}
use fractaltree.Tree.Laws.{IsValid}
use fractaltree.DeleteRange.{delete_range_root, delete_range}
use fractaltree.Client.{
  Op, put_op, delete_op, upsert_op, absent_op, get_op, contains_op, clear_op, run, run_op,
}
use fractaltree.Client.Refines.{run_op-Agrees}
use fractaltree.Client.Calls.{
  Call, point_call, delete_range_call, all_call, cursor_call, ascend_call, descend_call, range_call,
  descend_range_call, run_call, run_calls, run_call-Keeps,
}

module _ {ℓ κ ν} {K : Type ℓ} {V : Type κ} ⦃z : Zero V⦄ ⦃o : Ord K⦄
    (P : TreeParams → Node K V → Counters → Type ν) where
  -- The writes on a root keep what is said of the bounds, the root and the counters.
  pub record ArePointsKept : Type (ℓ ⊔ κ ⊔ ν) where
    pub put_keeps :
        (params : TreeParams) (n : Node K V) (c : Counters) (k : K) (v : V) (known_new : Bool)
        → IsOrdered none none n
        → P params n c
        → P params (put_root params n c k v known_new).0 (put_root params n c k v known_new).1
    pub delete_keeps :
        (params : TreeParams) (n : Node K V) (c : Counters) (k : K)
        → IsOrdered none none n
        → P params n c
        → P params (delete_root params n c k).0.0 (delete_root params n c k).0.1
    pub upsert_keeps :
        (params : TreeParams) (n : Node K V) (c : Counters) (k : K) (f : UpsertFn V)
        → IsOrdered none none n
        → P params n c
        → P params (upsert_root params n c k f).0 (upsert_root params n c k f).1
    pub clear_keeps :
        (params : TreeParams) (n : Node K V) (c : Counters)
        → P params n c
        → P params (leaf []) (record { size = pos 0; pending_deletes = pos 0 })

  abbrev pub IsRangeKept : Type (ℓ ⊔ κ ⊔ ν)
  IsRangeKept =
      (params : TreeParams) (n : Node K V) (c : Counters) (lo hi : K)
      → is_lt (o.cmp lo hi) ≡ true
      → IsOrdered none none n
      → P params n c
      → P params (delete_range_root params n c lo hi).0.0 (delete_range_root params n c lo hi).0.1

  abbrev pub Of : BeTree K V → Type ν
  Of t = P t.params t.root t.counters

  module _ (kept : ArePointsKept) where
    absent_keeps : (t : BeTree K V) (k : K) (v : V) → IsValid t → Of t → Of (put_if_absent t k v).0
    unfolding put_if_absent put_locked
    absent_keeps t k v a h = elim (Bool-cases (is_some (get_from_node t.root k))) [
      | inl e ↦ rw e h
      | inr e ↦ rw e (kept.put_keeps t.params t.root t.counters k v true a h)
    ]

    op_keeps : (a : Op K V) (t : BeTree K V) → IsValid t → Of t → Of (run_op a t).0
    unfolding put_key put_locked delete_key upsert_key clear
    op_keeps (put_op k v) t a h = kept.put_keeps t.params t.root t.counters k v false a h
    op_keeps (delete_op k) t a h = kept.delete_keeps t.params t.root t.counters k a h
    op_keeps (upsert_op k f) t a h = kept.upsert_keeps t.params t.root t.counters k f a h
    op_keeps (absent_op k v) t a h = absent_keeps t k v a h
    op_keeps (get_op k) t a h = h
    op_keeps (contains_op k) t a h = h
    op_keeps clear_op t a h = kept.clear_keeps t.params t.root t.counters h

    pub run_keeps : (ops : List (Op K V)) (t : BeTree K V) → IsValid t → Of t → Of (run ops t).0
    unfolding run
    run_keeps [] t a h = h
    run_keeps (op ∷ ops) t a h =
        run_keeps ops (run_op op t).0 (run_op-Agrees op t a).0 (op_keeps op t a h)

    module _ (range_kept : IsRangeKept) where
      delete_range_keeps :
          (t : BeTree K V) (lo hi : K) → IsValid t → Of t → Of (delete_range t lo hi).0
      unfolding delete_range
      delete_range_keeps t lo hi a h = elim (Bool-cases (is_lt (o.cmp lo hi))) [
        | inl e ↦ rw e (range_kept t.params t.root t.counters lo hi e a h)
        | inr e ↦ rw e h
      ]

      call_keeps : (a : Call K V) (t : BeTree K V) → IsValid t → Of t → Of (run_call a t).0
      call_keeps (point_call a) t v h = op_keeps a t v h
      call_keeps (delete_range_call lo hi) t v h = delete_range_keeps t lo hi v h
      call_keeps (all_call stop) t v h = h
      call_keeps (ascend_call stop) t v h = h
      call_keeps (descend_call stop) t v h = h
      call_keeps (range_call lo hi stop) t v h = h
      call_keeps (descend_range_call hi lo stop) t v h = h
      call_keeps cursor_call t v h = h

      pub calls_keep :
          (calls : List (Call K V)) (t : BeTree K V) → IsValid t → Of t → Of (run_calls calls t).0
      unfolding run_calls
      calls_keep [] t v h = h
      calls_keep (a ∷ calls) t v h =
          calls_keep calls (run_call a t).0 (run_call-Keeps a t v).0 (call_keeps a t v h)
