-- ===== src/Disk/Laws.antt =====
-- disktree.go: a disk tree behaves as its tree does and leaves the backend alone until Close, which
-- syncs, closes, and marks the tree. Len is not among the calls: Disk has it as the tree's Len.
use fractaltree.Prelude.{
  ◌≡◌, refl, ap, true, Option, none, some, List, [], ◌∷◌, if◌then◌else◌, is_some, Option-cases, inl,
  inr,
}
use fractaltree.Order.{Ord}
use fractaltree.Message.{Zero}
use fractaltree.Tree.{BeTree, get, close}
use fractaltree.Tree.Laws.{IsValid}
use fractaltree.Client.{
  Op, put_op, delete_op, upsert_op, absent_op, get_op, contains_op, clear_op, Reply, done, flag,
  found, run_op,
}
use fractaltree.Client.Calls.{
  Call, point_call, delete_range_call, all_call, cursor_call, opened, ascend_call, descend_call,
  range_call, descend_range_call, Outcome, replied, removed, seen, run_call, run_calls, AllPromised,
  run_calls-AllPromised,
}
use fractaltree.Sequence.Laws.{seen_until}
use fractaltree.Disk.{
  DiskTree, with_tree, CloseError, sync_failed, close_failed, close_disk, close_synced, disk_put,
  disk_get, disk_delete, disk_delete_range, disk_contains, disk_clear, disk_upsert,
  disk_put_if_absent, disk_all, disk_cursor, disk_ascend, disk_descend, disk_range,
  disk_descend_range,
}

module _ {ℓ κ μ ξ} {K : Type ℓ} {V : Type κ} {E : Type μ} {S : Type ξ} ⦃z : Zero V⦄
    ⦃o : Ord K⦄ where
  abbrev pub run_disk_op : Op K V → DiskTree K V E S → DiskTree K V E S × Reply V
  run_disk_op (put_op k v) d = (disk_put d k v, done)
  run_disk_op (delete_op k) d = let (d', b) = disk_delete d k in (d', flag b)
  run_disk_op (upsert_op k f) d = (disk_upsert d k f, done)
  run_disk_op (absent_op k v) d = let (d', b) = disk_put_if_absent d k v in (d', flag b)
  run_disk_op (get_op k) d = (d, found (disk_get d k))
  run_disk_op (contains_op k) d = (d, flag (disk_contains d k))
  run_disk_op clear_op d = (disk_clear d, done)

  abbrev pub run_disk_call : Call K V → DiskTree K V E S → DiskTree K V E S × Outcome K V
  run_disk_call (point_call a) d = let (d', r) = run_disk_op a d in (d', replied r)
  run_disk_call (delete_range_call lo hi) d =
      let (d', n) = disk_delete_range d lo hi in (d', removed n)
  run_disk_call (all_call stop) d = (d, seen (seen_until stop (disk_all d)))
  run_disk_call (ascend_call stop) d = (d, seen (seen_until stop (disk_ascend d)))
  run_disk_call (descend_call stop) d = (d, seen (seen_until stop (disk_descend d)))
  run_disk_call (range_call lo hi stop) d = (d, seen (seen_until stop (disk_range d lo hi)))
  run_disk_call (descend_range_call hi lo stop) d =
      (d, seen (seen_until stop (disk_descend_range d hi lo)))
  run_disk_call cursor_call d = (d, opened (disk_cursor d))

  unfoldable pub run_disk_calls :
      List (Call K V) → DiskTree K V E S → DiskTree K V E S × List (Outcome K V)
  run_disk_calls [] d = (d, [])
  run_disk_calls (a ∷ calls) d =
      let (d1, r) = run_disk_call a d in let (d2, rs) = run_disk_calls calls d1 in (d2, r ∷ rs)

  -- a disk tree with the tree and the results of the tree in memory, and all else as before
  abbrev Lifts {ρ} :
      {R : Type ρ}
      → DiskTree K V E S
      → DiskTree K V E S × R
      → BeTree K V × R
      → Type (ℓ ⊔ κ ⊔ μ ⊔ ξ ⊔ ρ)
  Lifts d r s = r ≡ (with_tree d s.0, s.1)

  run_disk_op-Lifts :
      (a : Op K V) (d : DiskTree K V E S) → Lifts d (run_disk_op a d) (run_op a d.tree)
  run_disk_op-Lifts (put_op k v) d = refl
  run_disk_op-Lifts (delete_op k) d = refl
  run_disk_op-Lifts (upsert_op k f) d = refl
  run_disk_op-Lifts (absent_op k v) d = refl
  run_disk_op-Lifts (get_op k) d = refl
  run_disk_op-Lifts (contains_op k) d = refl
  run_disk_op-Lifts clear_op d = refl

  run_disk_call-Lifts :
      (a : Call K V) (d : DiskTree K V E S) → Lifts d (run_disk_call a d) (run_call a d.tree)
  run_disk_call-Lifts (point_call a) d = ap (λ r. (r.0, replied r.1)) (run_disk_op-Lifts a d)
  run_disk_call-Lifts (delete_range_call lo hi) d = refl
  run_disk_call-Lifts (all_call stop) d = refl
  run_disk_call-Lifts (ascend_call stop) d = refl
  run_disk_call-Lifts (descend_call stop) d = refl
  run_disk_call-Lifts (range_call lo hi stop) d = refl
  run_disk_call-Lifts (descend_range_call hi lo stop) d = refl
  run_disk_call-Lifts cursor_call d = refl

  run_disk_calls-Lifts :
      (calls : List (Call K V)) (d : DiskTree K V E S)
      → Lifts d (run_disk_calls calls d) (run_calls calls d.tree)
  unfolding run_disk_calls run_calls
  run_disk_calls-Lifts [] d = refl
  run_disk_calls-Lifts (a ∷ calls) d =
      let t = (run_call a d.tree).0 in
      let next = run_disk_calls-Lifts calls (with_tree d t) in
      rw (run_disk_call-Lifts a d) (ap (λ r. (r.0, (run_call a d.tree).1 ∷ r.1)) next)

  -- Over a valid tree, a list of calls of a disk tree, of all its methods but `Len` and `Close`, leads
  -- to the tree that the same calls of the tree in memory lead to, which is valid; the calls keep what
  -- the interface promises of them on maps, and they leave the state of the backend as it was.
  pub run_disk_calls-AllPromised :
      (calls : List (Call K V)) (d : DiskTree K V E S)
      → IsValid d.tree
      → (let r : DiskTree K V E S × List (Outcome K V) = run_disk_calls calls d in
          (r.0.tree ≡ (run_calls calls d.tree).0)
          × IsValid r.0.tree
          × AllPromised calls (disk_get d) (disk_get r.0) r.1
          × (r.0.storage ≡ d.storage))
  run_disk_calls-AllPromised calls d h =
      let p = run_calls-AllPromised calls d.tree h in
      rw (run_disk_calls-Lifts calls d) (refl, p.0, p.1, refl)

module _ {μ} {E : Type μ} where
  -- what Close makes of the backend's two results: the error it returns
  abbrev pub close_error : Option E → Option E → Option (CloseError E)
  close_error (some e) _ = some (sync_failed e)
  close_error none (some e) = some (close_failed e)
  close_error none none = none

module _ {ℓ κ μ ξ} {K : Type ℓ} {V : Type κ} {E : Type μ} {S : Type ξ} ⦃o : Ord K⦄ where
  -- `Close` syncs the backend, closes it unless the sync failed, returns the first error of the two,
  -- marks the tree exactly if there was none, and leaves every read as it was.
  pub close_disk_lem :
      (d : DiskTree K V E S)
      → (let synced : S × Option E = d.flusher.sync d.storage in
          let closed : S × Option E = d.flusher.close_flusher synced.0 in
          let r : DiskTree K V E S × Option (CloseError E) = close_disk d in
          (r.1 ≡ close_error synced.1 closed.1)
          × (r.0.storage ≡ (if is_some synced.1 then synced.0 else closed.0))
          × (r.0.tree.closed ≡ (if is_some r.1 then d.tree.closed else true))
          × ((k : K) → get r.0.tree k ≡ get d.tree k))
  unfolding close_disk close get
  close_disk_lem d =
      let synced : S × Option E = d.flusher.sync d.storage in
      let closed : S × Option E = d.flusher.close_flusher synced.0 in
      elim (Option-cases synced.1) [
        | inr (e, h) ↦ rw (h, close_disk) (refl, refl, refl, λ k. refl)
        | inl h ↦ elim (Option-cases closed.1) [
          | inr (e, g) ↦ rw (h, close_disk) (rw (g, close_synced) (refl, refl, refl, λ k. refl))
          | inl g ↦ rw (h, close_disk) (rw (g, close_synced) (refl, refl, refl, λ k. refl))
        ]
      ]
