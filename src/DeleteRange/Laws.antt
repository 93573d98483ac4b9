-- ===== src/DeleteRange/Laws.antt =====
-- tree.go, DeleteRange against the map and against the pairs that Range lists.
use mathlib.Core.Path.{fun_ext}
use fractaltree.Prelude.{
  ℕ, ◌≡◌, refl, ap, sym, ◌∙◌, Bool, true, false, not, eq, Option, none, List, arith, if◌then◌else◌,
  length, select, Bool-cases, inl, inr,
}
use fractaltree.Order.{Ord, ◌≺◌, is_lt}
use fractaltree.Message.{Zero}
use fractaltree.Node.{Node, leaf, internal, in_slice}
use fractaltree.Node.Entries.{lookup, IsSorted}
use fractaltree.Node.Same.{SameEntries-of_lookup, length-SameEntries}
use fractaltree.Ordered.{IsOrdered, eval}
use fractaltree.Apply.{Counters}
use fractaltree.Flush.{TreeParams}
use fractaltree.Iterator.{resolve_entries, collect_range, materialize_range}
use fractaltree.Iterator.Laws.{in_slice-empty, materialize_range_lem}
use fractaltree.Tree.{BeTree, get}
use fractaltree.Tree.Buffer.{Holds}
use fractaltree.Tree.Laws.{IsValid, get-eval, leaf-Holds, leaf_order}
use fractaltree.DeleteRange.{is_between, delete_range_root, delete_range}
use fractaltree.DeleteRange.LeafPath.{delete_loop_lem}
use fractaltree.DeleteRange.Pairs.{without, select-IsSorted, lookup-select, delete_pairs-Holds}

module _ {ℓ κ} {K : Type ℓ} {V : Type κ} ⦃z : Zero V⦄ ⦃o : Ord K⦄ (lo hi : K) where
  -- what `DeleteRange` makes of a root: the keys of the range are gone, and the count is that of the
  -- pairs that `Range` lists
  abbrev Removes : Node K V → (Node K V × Counters) × ℕ → Type (ℓ ⊔ κ)
  Removes n r = Holds r.0.0 (without lo hi (eval n)) × (r.1 ≡ length (materialize_range n lo hi))

  -- a list of the pairs in the range is as long as the one that `Range` reads
  range_count :
      (n : Node K V) (es : List (K × V))
      → IsOrdered none none n
      → IsSorted es
      → ((k : K) → lookup es k ≡ (if in_slice lo hi true false k then eval n k else none))
      → length es ≡ length (materialize_range n lo hi)
  range_count n es a s h =
      let m = materialize_range_lem n lo hi none none a in
      length-SameEntries es (materialize_range n lo hi)
        (SameEntries-of_lookup es (materialize_range n lo hi) s m.0 (λ k. h k ∙ sym (m.1 k)))

  is_between-congr :
      (k : K) (e : K × V) → o.cmp e.0 k ≡ eq → is_between lo hi e ≡ in_slice lo hi true false k
  is_between-congr k e q = rw (o.eq_left e.0 k lo q, o.eq_left e.0 k hi q) refl

  not_branches : (b : Bool) (w : Option V) → (if not b then w else none) ≡ (if b then none else w)
  not_branches b w = ground arith

  delete_leaf_range :
      (params : TreeParams) (es : List (K × V)) (c : Counters)
      → IsOrdered none none (leaf es)
      → Removes (leaf es) (delete_range_root params (leaf es) c lo hi)
  unfolding eval
  delete_leaf_range params es c a =
      let s = leaf_order es a in
      rw (delete_loop_lem lo hi es) (
        leaf-Holds (select (λ e. not (is_between lo hi e)) es) _
            (select-IsSorted (λ e. not (is_between lo hi e)) es s)
            (λ k.
              lookup-select (λ e. not (is_between lo hi e)) (not (in_slice lo hi true false k)) k es
                s (λ e q. ap not (is_between-congr k e q))
              ∙ not_branches (in_slice lo hi true false k) (lookup es k)),
        range_count (leaf es) (select (is_between lo hi) es) a
            (select-IsSorted (is_between lo hi) es s)
            (λ k.
              lookup-select (is_between lo hi) (in_slice lo hi true false k) k es s
                (λ e q. is_between-congr k e q)),
      )

  delete_range_root_lem :
      (params : TreeParams) (n : Node K V) (c : Counters)
      → lo ≺ hi
      → IsOrdered none none n
      → Removes n (delete_range_root params n c lo hi)
  unfolding materialize_range
  delete_range_root_lem params (leaf es) c h a = delete_leaf_range params es c a
  delete_range_root_lem params (internal ps cs buf s) c h a =
      let n = internal ps cs buf s in
      let m = materialize_range_lem n lo hi none none a in
      let t : not (is_lt (o.cmp lo hi)) ≡ false = ground arith in
      let r = rw t at m in
      let d =
        delete_pairs-Holds params ps cs buf s c lo hi
          (resolve_entries (collect_range lo hi true false n 0)) a r.0 r.1 in
      rw t d

  -- On a valid tree `DeleteRange` keeps the tree valid, removes the keys of [lo, hi) and no other, and
  -- returns how many pairs `Range` lists for the same bounds.
  pub get-delete_range :
      (t : BeTree K V)
      → IsValid t
      → IsValid (delete_range t lo hi).0
        × (get (delete_range t lo hi).0 ≡ without lo hi (get t))
        × ((delete_range t lo hi).1 ≡ length (materialize_range t.root lo hi))
  unfolding delete_range materialize_range
  get-delete_range t a = elim (Bool-cases (is_lt (o.cmp lo hi))) [
    | inl h ↦
        let d = delete_range_root_lem t.params t.root t.counters (ground arith) a in
        let r = (delete_range_root t.params t.root t.counters lo hi).0 in
        let seen = get-eval (record t { root = r.0; counters = r.1 }) d.0.ordered in
        rw h (
          d.0.ordered,
          seen ∙ fun_ext d.0.value ∙ ap (without lo hi) (sym (get-eval t a)),
          rw h at d.1,
        )
    | inr h ↦ rw h (a, fun_ext (λ k. rw (in_slice-empty lo hi true k h) refl), refl)
  ]
