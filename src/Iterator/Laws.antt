-- ===== src/Iterator/Laws.antt =====
-- iterator.go, materializeAll, materializeRange and materializeDescendRange: the pairs are sorted, and
-- are those that reads find.
use fractaltree.Prelude.{
  ℕ, ◌+◌, ◌≤◌, ◌<◌, ◌≡◌, refl, ap, ◌∙◌, Bool, true, false, not, eq, Option, none, List, [], arith,
  if◌then◌else◌, select, select-select, All, All-select, Bool-cases, inl, inr,
}
use fractaltree.Order.{Ord, ◌≺◌, is_lt, le_lt_trans, lt_le_trans}
use fractaltree.Node.{Node, in_slice}
use fractaltree.Node.Entries.{lookup, IsSorted, AllKeys}
use fractaltree.Ordered.{IsOrdered, eval}
use fractaltree.Iterator.{
  MergeEntry, collect_all, collect_range, sort_entries, resolve_entries, materialize_all,
  materialize_range, materialize_descend_range,
}
use fractaltree.Iterator.Levels.{
  resolve_levels, resolve_levels-congr, resolve_levels-nil, resolve_key_entries_lem, IsBetween,
}
use fractaltree.Iterator.Sort.{
  concerns_entry, sort_entries-All, sort_entries-IsEntrySorted, level-sort_entries,
  select-IsDepthSorted,
}
use fractaltree.Iterator.Groups.{
  lookup-resolve_sorted, resolve_sorted-IsSorted, resolve_sorted-AllKeys,
}
use fractaltree.Iterator.Depths.{height, collect_all-IsBetween}
use fractaltree.Iterator.Collect.{resolve_levels-collect_all}
use fractaltree.Iterator.Range.{in_range, collect_range-select}

module _ {ℓ} {K : Type ℓ} ⦃o : Ord K⦄ where
  pub in_slice-congr :
      (lo hi : K) (lo_inc hi_inc : Bool) (j k : K)
      → o.cmp j k ≡ eq
      → in_slice lo hi lo_inc hi_inc j ≡ in_slice lo hi lo_inc hi_inc k
  in_slice-congr lo hi lo_inc hi_inc j k e = rw (o.eq_left j k lo e, o.eq_left j k hi e) refl

  -- no key lies between bounds that are not in order
  pub in_slice-empty :
      (lo hi : K) (lo_inc : Bool) (k : K)
      → is_lt (o.cmp lo hi) ≡ false
      → in_slice lo hi lo_inc (not lo_inc) k ≡ false
  in_slice-empty lo hi true k h =
      ground (arith, le_lt_trans lo k hi, o.lt_of_gt lo k, o.gt_of_lt lo k, o.lt_of_gt k lo)
  in_slice-empty lo hi false k h =
      ground (arith, lt_le_trans lo k hi, o.lt_of_gt k lo, o.lt_of_gt k hi)

module _ {ℓ κ} {K : Type ℓ} {V : Type κ} ⦃o : Ord K⦄ where
  -- the pairs of a range: strictly sorted, and what the tree holds at the keys in it
  abbrev Slices : Node K V → K → K → Bool → Bool → List (K × V) → Type (ℓ ⊔ κ)
  Slices root lo hi lo_inc hi_inc ps =
      IsSorted ps
      × ((k : K) → lookup ps k ≡ (if in_slice lo hi lo_inc hi_inc k then eval root k else none))

  -- `resolveEntries` gives a key what the levels of its entries give, whatever their order was.
  pub lookup-resolve_entries :
      (es : List (MergeEntry K V)) (n : ℕ) (k : K)
      → IsBetween 0 (n + 0) es
      → lookup (resolve_entries es) k ≡ resolve_levels n 0 (select (concerns_entry k) es)
  unfolding resolve_entries
  lookup-resolve_entries es n k b =
      lookup-resolve_sorted k (sort_entries es) (sort_entries-IsEntrySorted es)
      ∙ resolve_key_entries_lem n 0 (select (concerns_entry k) (sort_entries es))
          (select-IsDepthSorted k (sort_entries es) (sort_entries-IsEntrySorted es))
          (All-select (λ e. (0 ≤ e.depth) × (e.depth < n + 0)) (concerns_entry k) (sort_entries es)
            (sort_entries-All (λ e. (0 ≤ e.depth) × (e.depth < n + 0)) es b))
      ∙ resolve_levels-congr n 0 (select (concerns_entry k) (sort_entries es))
          (select (concerns_entry k) es) (λ d. level-sort_entries k d es)

  pub resolve_entries-IsSorted : (es : List (MergeEntry K V)) → IsSorted (resolve_entries es)
  unfolding resolve_entries
  resolve_entries-IsSorted es =
      resolve_sorted-IsSorted (sort_entries es) (sort_entries-IsEntrySorted es)

  pub resolve_entries-AllKeys :
      (P : K → Type 0) (es : List (MergeEntry K V))
      → All (λ e. P e.key) es
      → AllKeys P (resolve_entries es)
  unfolding resolve_entries
  resolve_entries-AllKeys P es a =
      resolve_sorted-AllKeys P (sort_entries es) (sort_entries-All (λ e. P e.key) es a)

  -- The pairs of the whole tree are strictly sorted, and hold at every key what the tree holds.
  pub materialize_all_lem :
      (root : Node K V) (lo hi : Option K)
      → IsOrdered lo hi root
      → IsSorted (materialize_all root) × ((k : K) → lookup (materialize_all root) k ≡ eval root k)
  unfolding materialize_all
  materialize_all_lem root lo hi a = (
    resolve_entries-IsSorted (collect_all root 0),
    λ k.
        lookup-resolve_entries (collect_all root 0) (height root) k (collect_all-IsBetween root 0)
        ∙ resolve_levels-collect_all root (height root) 0 k lo hi a (omega arith),
  )

  range_levels :
      (in_it : Bool) (root : Node K V) (k : K) (b c : Option K)
      → IsOrdered b c root
      → resolve_levels
          (height root)
          0
          (if in_it then select (concerns_entry k) (collect_all root 0) else [])
        ≡ (if in_it then eval root k else none)
  range_levels true root k b c a =
      resolve_levels-collect_all root (height root) 0 k b c a (omega arith)
  range_levels false root k b c a = resolve_levels-nil K V (height root) 0

  -- the pairs of a range, under any of its two kinds of bounds
  collected :
      (root : Node K V) (lo hi : K) (lo_inc hi_inc : Bool) (k : K) (b c : Option K)
      → lo ≺ hi
      → IsOrdered b c root
      → lookup (resolve_entries (collect_range lo hi lo_inc hi_inc root 0)) k
        ≡ (if in_slice lo hi lo_inc hi_inc k then eval root k else none)
  collected root lo hi lo_inc hi_inc k b c h a =
      let es = collect_all root 0 in
      ap (λ x. lookup (resolve_entries x) k)
        (collect_range-select root lo hi lo_inc hi_inc 0 b c h a)
      ∙ lookup-resolve_entries (select (in_range lo hi lo_inc hi_inc) es) (height root) k (
          All-select (λ e. (0 ≤ e.depth) × (e.depth < height root + 0))
            (in_range lo hi lo_inc hi_inc) es (collect_all-IsBetween root 0))
      ∙ ap (resolve_levels (height root) 0) (
          select-select (in_range lo hi lo_inc hi_inc) (concerns_entry k)
            (in_slice lo hi lo_inc hi_inc k) es
            (λ e g. in_slice-congr lo hi lo_inc hi_inc e.key k (ground arith)))
      ∙ range_levels (in_slice lo hi lo_inc hi_inc k) root k b c a

  -- with the test of the bounds
  guarded :
      (root : Node K V) (lo hi : K) (lo_inc : Bool) (b c : Option K)
      → IsOrdered b c root
      → Slices root lo hi lo_inc (not lo_inc) (
          if not (is_lt (o.cmp lo hi))
          then []
          else resolve_entries (collect_range lo hi lo_inc (not lo_inc) root 0))
  unfolding lookup
  guarded root lo hi lo_inc b c a = elim (Bool-cases (is_lt (o.cmp lo hi))) [
    | inl h ↦ rw h (
      resolve_entries-IsSorted (collect_range lo hi lo_inc (not lo_inc) root 0),
      λ k. collected root lo hi lo_inc (not lo_inc) k b c (ground arith) a,
    )
    | inr h ↦ rw h (tt, λ k. rw (in_slice-empty lo hi lo_inc k h) refl)
  ]

  -- `materializeRange` lists the pairs of the tree whose keys are in [lo, hi), strictly sorted; bounds
  -- that are not in order give no pair.
  pub materialize_range_lem :
      (root : Node K V) (lo hi : K) (b c : Option K)
      → IsOrdered b c root
      → IsSorted (materialize_range root lo hi)
        × ((k : K)
            → lookup (materialize_range root lo hi) k
              ≡ (if in_slice lo hi true false k then eval root k else none))
  unfolding materialize_range
  materialize_range_lem root lo hi b c a = guarded root lo hi true b c a

  -- `materializeDescendRange` lists those whose keys are in (lo, hi], in ascending order.
  pub materialize_descend_range_lem :
      (root : Node K V) (lo hi : K) (b c : Option K)
      → IsOrdered b c root
      → IsSorted (materialize_descend_range root hi lo)
        × ((k : K)
            → lookup (materialize_descend_range root hi lo) k
              ≡ (if in_slice lo hi false true k then eval root k else none))
  unfolding materialize_descend_range
  materialize_descend_range_lem root lo hi b c a = guarded root lo hi false b c a
