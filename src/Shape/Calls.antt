-- ===== src/Shape/Calls.antt =====
-- tree.go: every call of the interface keeps the shape of the tree.
use fractaltree.Prelude.{
  ◌≤◌, ◌≡◌, Bool, true, false, not, none, List, [], ◌∷◌, arith, is_some, Bool-cases, inl, inr,
}
use fractaltree.Order.{Ord, is_lt}
use fractaltree.Message.{Message, Zero, UpsertFn, put, delete, upsert}
use fractaltree.Node.{Node, leaf, internal, Children, leaf_search}
use fractaltree.Node.Entries.{lookup, put_entry, IsSorted}
use fractaltree.Node.LeafSearch.{leaf_insert_lem, leaf_delete_lem, set_value-put_entry}
use fractaltree.Read.{get_from_node}
use fractaltree.Ordered.{IsOrdered}
use fractaltree.Apply.{Counters, value_at}
use fractaltree.Flush.{TreeParams}
use fractaltree.Iterator.{resolve_entries, collect_range, materialize_range}
use fractaltree.Iterator.Laws.{materialize_range_lem}
use fractaltree.Tree.{BeTree, put_root, delete_root, upsert_root}
use fractaltree.Tree.Laws.{IsValid, leaf_order, put_entry-Holds}
use fractaltree.DeleteRange.{append_deletes, delete_pairs, delete_range_root}
use fractaltree.DeleteRange.Pairs.{append_deletes-Holds}
use fractaltree.Client.Keep.{ArePointsKept, IsRangeKept, calls_keep}
use fractaltree.Client.Calls.{Call, run_calls}
use fractaltree.Shape.Root.{
  IsBalanced, split_full_leaf-IsBalanced, leaf-IsBalanced, rebuffered, flush_full_root-IsBalanced,
  write_message-IsBalanced,
}

module _ {ℓ κ} {K : Type ℓ} {V : Type κ} ⦃z : Zero V⦄ ⦃o : Ord K⦄ (params : TreeParams)
    (two : 2 ≤ params.fanout) where
  put_root-IsBalanced :
      (n : Node K V) (c : Counters) (k : K) (v : V) (known_new : Bool)
      → IsOrdered none none n
      → IsBalanced params.fanout n
      → IsBalanced params.fanout (put_root params n c k v known_new).0
  put_root-IsBalanced (leaf es) c k v known_new a h =
      rw (leaf_insert_lem es k v (leaf_order es a)) (
        split_full_leaf-IsBalanced params two (put_entry es k v) (put_entry-Holds es k v a).ordered)
  put_root-IsBalanced (internal ps cs buf s) c k v known_new a h =
      write_message-IsBalanced params two ps cs buf s (put k v _) _ a tt h

  delete_root-IsBalanced :
      (n : Node K V) (c : Counters) (k : K)
      → IsOrdered none none n
      → IsBalanced params.fanout n
      → IsBalanced params.fanout (delete_root params n c k).0.0
  delete_root-IsBalanced (leaf es) c k a h =
      rw (leaf_delete_lem es k (leaf_order es a)) (elim (Bool-cases (is_some (lookup es k))) [
        | inl e ↦ rw e (leaf-IsBalanced params two _)
        | inr e ↦ rw e (leaf-IsBalanced params two _)
      ])
  delete_root-IsBalanced (internal ps cs buf s) c k a h =
      elim (Bool-cases (is_some (get_from_node (internal ps cs buf s) k))) [
        | inl e ↦ rw e (write_message-IsBalanced params two ps cs buf s (delete k) _ a tt h)
        | inr e ↦ rw e h
      ]

  upsert_root-IsBalanced :
      (n : Node K V) (c : Counters) (k : K) (f : UpsertFn V)
      → IsOrdered none none n
      → IsBalanced params.fanout n
      → IsBalanced params.fanout (upsert_root params n c k f).0
  upsert_root-IsBalanced (leaf es) c k f a h =
      let s = leaf_order es a in
      let w = f (value_at es (leaf_search es k).0) in
      elim (Bool-cases (leaf_search es k).1) [
        | inl e ↦
            rw (e, set_value-put_entry es k w s e)
              (split_full_leaf-IsBalanced params two (put_entry es k w)
                (put_entry-Holds es k w a).ordered)
        | inr e ↦
            rw (e, leaf_insert_lem es k (f none) s)
              (split_full_leaf-IsBalanced params two (put_entry es k (f none))
                (put_entry-Holds es k (f none) a).ordered)
      ]
  upsert_root-IsBalanced (internal ps cs buf s) c k f a h =
      write_message-IsBalanced params two ps cs buf s (upsert k f) c a tt h

  delete_pairs-IsBalanced :
      (ps : List K) (cs : Children K V) (buf : List (Message K V)) (s : Bool) (c : Counters)
      (es : List (K × V))
      → IsOrdered none none (internal ps cs buf s)
      → IsSorted es
      → IsBalanced params.fanout (internal ps cs buf s)
      → IsBalanced params.fanout (delete_pairs params ps cs (buf, s) c es).0.0
  delete_pairs-IsBalanced ps cs buf s c [] a t h = h
  delete_pairs-IsBalanced ps cs buf s c (e ∷ es) a t h =
      let b = append_deletes (buf, s) (e ∷ es) in
      flush_full_root-IsBalanced params two ps cs b _
        (append_deletes-Holds ps cs buf s e es a t).ordered
        (rebuffered params two ps cs buf b.0 s b.1 h)

  delete_range_root-IsBalanced :
      (n : Node K V) (c : Counters) (lo hi : K)
      → is_lt (o.cmp lo hi) ≡ true
      → IsOrdered none none n
      → IsBalanced params.fanout n
      → IsBalanced params.fanout (delete_range_root params n c lo hi).0.0
  unfolding materialize_range
  delete_range_root-IsBalanced (leaf es) c lo hi l a h = leaf-IsBalanced params two _
  delete_range_root-IsBalanced (internal ps cs buf s) c lo hi l a h =
      let n = internal ps cs buf s in
      let m = materialize_range_lem n lo hi none none a in
      let t : not (is_lt (o.cmp lo hi)) ≡ false = ground arith in
      let r = rw t at m in
      delete_pairs-IsBalanced ps cs buf s c (resolve_entries (collect_range lo hi true false n 0)) a
        r.0 h

module _ {ℓ κ} {K : Type ℓ} {V : Type κ} ⦃z : Zero V⦄ ⦃o : Ord K⦄ where
  -- the shape of a tree whose fanout lets a node be split
  abbrev pub HasShape : BeTree K V → Type 0
  HasShape t = (2 ≤ t.params.fanout) × IsBalanced t.params.fanout t.root

  abbrev Shapely : TreeParams → Node K V → Counters → Type 0
  Shapely params n c = (2 ≤ params.fanout) × IsBalanced params.fanout n

  shape_points : ArePointsKept Shapely
  shape_points = record {
    put_keeps = λ params n c k v known_new a h.
        (h.0, put_root-IsBalanced params h.0 n c k v known_new a h.1);
    delete_keeps = λ params n c k a h. (h.0, delete_root-IsBalanced params h.0 n c k a h.1);
    upsert_keeps = λ params n c k f a h. (h.0, upsert_root-IsBalanced params h.0 n c k f a h.1);
    clear_keeps = λ params n c h. (h.0, leaf-IsBalanced params h.0 []);
  }

  shape_ranges : IsRangeKept Shapely
  shape_ranges params n c lo hi l a h =
      (h.0, delete_range_root-IsBalanced params h.0 n c lo hi l a h.1)

  -- From a valid tree with a fanout of at least 2, whose leaves are all at one depth and whose internal
  -- nodes have no more children than the fanout, any list of calls, of any methods but `Len`
  -- and `Close`, which do not change the nodes, leads to such a tree.
  pub run_calls-HasShape :
      (calls : List (Call K V)) (t : BeTree K V)
      → IsValid t
      → HasShape t
      → HasShape (run_calls calls t).0
  run_calls-HasShape calls t v h = calls_keep Shapely shape_points shape_ranges calls t v h
