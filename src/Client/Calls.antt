-- ===== src/Client/Calls.antt =====
-- tree.go, the interface `Tree` but for Len and Close: the calls on ranges, the iterations and the
-- cursor beside the point calls, and what the interface promises of each, as a relation on maps. Len
-- answers from the counters of Count, and Close only marks the tree: Tree has both.
use fractaltree.Prelude.{
  ℕ, ◌≡◌, Bool, true, false, Option, none, List, [], ◌∷◌, if◌then◌else◌, length, reverse,
}
use fractaltree.Order.{Ord}
use fractaltree.Message.{Zero}
use fractaltree.Node.{in_slice}
use fractaltree.Node.Entries.{lookup, IsSorted}
use fractaltree.Cursor.{Cursor, cursor_of}
use fractaltree.Iterator.{materialize_all, materialize_range}
use fractaltree.Iterator.Laws.{materialize_all_lem, materialize_range_lem}
use fractaltree.Tree.{BeTree, get}
use fractaltree.Tree.Laws.{IsValid, get-eval}
use fractaltree.DeleteRange.{delete_range}
use fractaltree.DeleteRange.Pairs.{without}
use fractaltree.DeleteRange.Laws.{get-delete_range}
use fractaltree.Sequence.{all, ascend, descend, range, descend_range, cursor}
use fractaltree.Sequence.Laws.{
  seen_until, up_to, seen_until-all, seen_until-range, seen_until-descend_range,
}
use fractaltree.Client.{Op, Reply, run_op, map_op}
use fractaltree.Client.Refines.{run_op-Agrees}

-- a call of any method but Len and Close; the iterations have the test after which the caller's loop stops
pub data Call {ℓ κ} (K : Type ℓ) (V : Type κ) : Type (ℓ ⊔ κ) where
  point_call : Op K V → Call K V
  delete_range_call : K → K → Call K V
  all_call : (K × V → Bool) → Call K V
  ascend_call : (K × V → Bool) → Call K V
  descend_call : (K × V → Bool) → Call K V
  range_call : K → K → (K × V → Bool) → Call K V
  descend_range_call : K → K → (K × V → Bool) → Call K V
  cursor_call : Call K V

-- what a call returns, or the pairs that the loop sees
pub data Outcome {ℓ κ} (K : Type ℓ) (V : Type κ) : Type (ℓ ⊔ κ) where
  replied : Reply V → Outcome K V
  removed : ℕ → Outcome K V
  seen : List (K × V) → Outcome K V
  opened : Cursor K V → Outcome K V

module _ {ℓ κ} {K : Type ℓ} {V : Type κ} ⦃o : Ord K⦄ where
  -- sorted pairs that hold what a map holds at the keys that pass a test
  abbrev pub IsListing : (K → Bool) → (K → Option V) → List (K × V) → Type (ℓ ⊔ κ)
  IsListing p g ps = IsSorted ps × ((k : K) → lookup ps k ≡ (if p k then g k else none))

module _ {ℓ κ} {K : Type ℓ} {V : Type κ} ⦃z : Zero V⦄ ⦃o : Ord K⦄ where
  -- What the interface promises: from a map, a call may lead to a map and an outcome.
  pub data Promised : Call K V → (K → Option V) → (K → Option V) → Outcome K V → Type (ℓ ⊔ κ) where
    point_step :
        (a : Op K V) (g : K → Option V)
        → Promised (point_call a) g (map_op a g).0 (replied (map_op a g).1)
    delete_range_step :
        (lo hi : K) (g : K → Option V) (ps : List (K × V))
        → IsListing (in_slice lo hi true false) g ps
        → Promised (delete_range_call lo hi) g (without lo hi g) (removed (length ps))
    all_step :
        (stop : K × V → Bool) (g : K → Option V) (ps : List (K × V))
        → IsListing (λ k. true) g ps
        → Promised (all_call stop) g g (seen (up_to stop ps))
    ascend_step :
        (stop : K × V → Bool) (g : K → Option V) (ps : List (K × V))
        → IsListing (λ k. true) g ps
        → Promised (ascend_call stop) g g (seen (up_to stop ps))
    descend_step :
        (stop : K × V → Bool) (g : K → Option V) (ps : List (K × V))
        → IsListing (λ k. true) g ps
        → Promised (descend_call stop) g g (seen (up_to stop (reverse ps)))
    range_step :
        (lo hi : K) (stop : K × V → Bool) (g : K → Option V) (ps : List (K × V))
        → IsListing (in_slice lo hi true false) g ps
        → Promised (range_call lo hi stop) g g (seen (up_to stop ps))
    descend_range_step :
        (lo hi : K) (stop : K × V → Bool) (g : K → Option V) (ps : List (K × V))
        → IsListing (in_slice lo hi false true) g ps
        → Promised (descend_range_call hi lo stop) g g (seen (up_to stop (reverse ps)))
    cursor_step :
        (g : K → Option V) (ps : List (K × V))
        → IsListing (λ k. true) g ps
        → Promised cursor_call g g (opened (cursor_of ps))

  -- the promises along a list of calls
  pub data AllPromised
      : List (Call K V) → (K → Option V) → (K → Option V) → List (Outcome K V) → Type (ℓ ⊔ κ) where
    no_call : (g : K → Option V) → AllPromised [] g g []
    next_call :
        (a : Call K V) (calls : List (Call K V)) (g1 g2 g3 : K → Option V) (r : Outcome K V)
        (rs : List (Outcome K V))
        → Promised a g1 g2 r
        → AllPromised calls g2 g3 rs
        → AllPromised (a ∷ calls) g1 g3 (r ∷ rs)

module _ {ℓ κ} {K : Type ℓ} {V : Type κ} ⦃z : Zero V⦄ ⦃o : Ord K⦄ where
  abbrev pub run_call : Call K V → BeTree K V → BeTree K V × Outcome K V
  run_call (point_call a) t = let (t', r) = run_op a t in (t', replied r)
  run_call (delete_range_call lo hi) t = let (t', n) = delete_range t lo hi in (t', removed n)
  run_call (all_call stop) t = (t, seen (seen_until stop (all t)))
  run_call (ascend_call stop) t = (t, seen (seen_until stop (ascend t)))
  run_call (descend_call stop) t = (t, seen (seen_until stop (descend t)))
  run_call (range_call lo hi stop) t = (t, seen (seen_until stop (range t lo hi)))
  run_call (descend_range_call hi lo stop) t = (t, seen (seen_until stop (descend_range t hi lo)))
  run_call cursor_call t = (t, opened (cursor t))

  unfoldable pub run_calls : List (Call K V) → BeTree K V → BeTree K V × List (Outcome K V)
  run_calls [] t = (t, [])
  run_calls (a ∷ calls) t =
      let (t1, r) = run_call a t in let (t2, rs) = run_calls calls t1 in (t2, r ∷ rs)

  -- a call on a valid tree keeps its promise
  abbrev pub Keeps : Call K V → BeTree K V → BeTree K V × Outcome K V → Type (ℓ ⊔ κ)
  Keeps a t r = IsValid r.0 × Promised a (get t) (get r.0) r.1

  pub run_call-Keeps : (a : Call K V) (t : BeTree K V) → IsValid t → Keeps a t (run_call a t)
  unfolding ascend cursor
  run_call-Keeps (point_call a) t h =
      let p = run_op-Agrees a t h in (p.0, rw (p.1, p.2) (point_step a (get t)))
  run_call-Keeps (delete_range_call lo hi) t h =
      let p = get-delete_range lo hi t h in
      let m = materialize_range_lem t.root lo hi none none h in
      (
        p.0,
        rw (p.1, p.2)
            (delete_range_step lo hi (get t) (materialize_range t.root lo hi)
              (m.0, λ k. rw (get-eval t h) (m.1 k))),
      )
  run_call-Keeps (all_call stop) t h =
      let (ps, l, e, f) = seen_until-all t stop h in
      let seen_all : seen_until stop (all t) ≡ up_to stop ps = e in
      (h, rw seen_all (all_step stop (get t) ps l))
  run_call-Keeps (ascend_call stop) t h =
      let (ps, l, e, f) = seen_until-all t stop h in (h, rw e (ascend_step stop (get t) ps l))
  run_call-Keeps (descend_call stop) t h =
      let (ps, l, e, f) = seen_until-all t stop h in (h, rw f (descend_step stop (get t) ps l))
  run_call-Keeps (range_call lo hi stop) t h =
      let (ps, l, e) = seen_until-range t lo hi stop h in
      (h, rw e (range_step lo hi stop (get t) ps l))
  run_call-Keeps (descend_range_call hi lo stop) t h =
      let (ps, l, e) = seen_until-descend_range t lo hi stop h in
      (h, rw e (descend_range_step lo hi stop (get t) ps l))
  run_call-Keeps cursor_call t h =
      let m = materialize_all_lem t.root none none h in
      (h, cursor_step (get t) (materialize_all t.root) (m.0, λ k. rw (get-eval t h) (m.1 k)))

  -- From any valid tree, a list of calls of the interface, of all its methods but `Len` and `Close`,
  -- leaves a valid tree, and the calls keep what the interface promises on maps: point calls are the
  -- map's, `DeleteRange` removes the keys of [lo, hi) and counts those that held a value, every
  -- iteration sees the pairs of its range in its order up to where the caller stops, and `Cursor`
  -- opens a cursor over all pairs in ascending order, before the first.
  pub run_calls-AllPromised :
      (calls : List (Call K V)) (t : BeTree K V)
      → IsValid t
      → IsValid (run_calls calls t).0
        × AllPromised calls (get t) (get (run_calls calls t).0) (run_calls calls t).1
  unfolding run_calls
  run_calls-AllPromised [] t h = (h, no_call (get t))
  run_calls-AllPromised (a ∷ calls) t h =
      let p = run_call-Keeps a t h in
      let q = run_calls-AllPromised calls (run_call a t).0 p.0 in
      (
        q.0,
        next_call a calls (get t) (get (run_call a t).0) (get (run_calls calls (run_call a t).0).0)
            (run_call a t).1 (run_calls calls (run_call a t).0).1 p.1 q.1,
      )
