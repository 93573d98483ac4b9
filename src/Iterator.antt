-- ===== src/Iterator.antt =====
-- iterator.go: what a traversal collects from every level, how it is resolved to pairs, and how the
-- pairs are yielded. A function that appends to `*out` is modelled by what it appends.
pub mod Levels
pub mod Sort
pub mod Groups
pub mod Depths
pub mod Collect
pub mod Bounds
pub mod Range
pub mod Laws
use fractaltree.Prelude.{
  ℕ, zero, suc, ◌+◌, ◌-◌, Bool, true, false, not, ◌&&◌, compare, Ordering, lt, eq, gt, Option, none,
  some, List, [], ◌∷◌, ◌++◌, leb, ltb, ◌==◌, if◌then◌else◌, length, get_elem?, take, drop,
}
use fractaltree.Order.{Ord, is_eq, is_gt, is_lt}
use fractaltree.Message.{UpsertFn, Message, put, delete, delete_range, upsert}
use fractaltree.Node.{
  Node, leaf, internal, Children, nil, cons, leaf_search, find_child_index, buffer_slice,
}

-- The fields `value`, `deleted` and `fn` of `mergeEntry`, of which an entry uses one.
pub data Change {κ} (V : Type κ) : Type κ where
  value : V → Change V
  deleted : Change V
  fn : UpsertFn V → Change V

pub record MergeEntry {ℓ κ} (K : Type ℓ) (V : Type κ) : Type (ℓ ⊔ κ) where
  pub key : K
  pub depth : ℕ
  pub change : Change V

-- one round of the innermost loop of `resolveKeyEntries`
abbrev pub apply_change {κ} : {V : Type κ} → Change V → Option V → Option V
apply_change (value v) base = some v
apply_change deleted base = none
apply_change (fn f) base = some (f base)

module _ {ℓ κ} {K : Type ℓ} {V : Type κ} where
  -- the loop over a leaf's entries
  abbrev pub pair_entries : ℕ → List (K × V) → List (MergeEntry K V)
  pair_entries d [] = []
  pair_entries d ((k, v) ∷ es) = record { key = k; depth = d; change = value v } ∷ pair_entries d es

  -- `collectBufferEntries`; a range deletion has no case
  abbrev pub collect_buffer_entries : ℕ → List (Message K V) → List (MergeEntry K V)
  collect_buffer_entries d [] = []
  collect_buffer_entries d (put k v c ∷ ms) =
      record { key = k; depth = d; change = value v } ∷ collect_buffer_entries d ms
  collect_buffer_entries d (delete k ∷ ms) =
      record { key = k; depth = d; change = deleted } ∷ collect_buffer_entries d ms
  collect_buffer_entries d (delete_range k e ∷ ms) = collect_buffer_entries d ms
  collect_buffer_entries d (upsert k f ∷ ms) =
      record { key = k; depth = d; change = fn f } ∷ collect_buffer_entries d ms

  unfoldable mutual
    pub collect_all : Node K V → ℕ → List (MergeEntry K V)
    collect_all (leaf es) d = pair_entries d es
    collect_all (internal ps cs buf s) d =
        collect_buffer_entries d buf ++ collect_all_children cs (suc d)

    -- the loop over `n.children`
    pub collect_all_children : Children K V → ℕ → List (MergeEntry K V)
    collect_all_children nil d = []
    collect_all_children (cons c cs) d = collect_all c d ++ collect_all_children cs d

  -- that loop: the entries of one depth, in their order
  unfoldable pub apply_run : List (MergeEntry K V) → Option V → Option V
  apply_run [] base = base
  apply_run (e ∷ es) base = apply_run es (apply_change e.change base)

  -- The outer loop takes the runs of equal depth from the last to the first: the base of a run is what
  -- the runs behind it, the deeper ones, give.
  unfoldable pub resolve_runs : ℕ → List (MergeEntry K V) → List (MergeEntry K V) → Option V
  unfolding apply_run
  resolve_runs d run [] = apply_run run none
  resolve_runs d run (e ∷ es) = elim (e.depth == d) [
    | true ↦ resolve_runs d (run ++ e ∷ []) es
    | false ↦ apply_run run (resolve_runs e.depth (e ∷ []) es)
  ]

  unfoldable pub resolve_key_entries : List (MergeEntry K V) → Option V
  unfolding resolve_runs
  resolve_key_entries [] = none
  resolve_key_entries (e ∷ es) = resolve_runs e.depth (e ∷ []) es

  -- `if v, exists := …; exists { result = append(result, …) }`
  abbrev pub emit : K → Option V → List (K × V) → List (K × V)
  emit k none rest = rest
  emit k (some v) rest = (k, v) ∷ rest

module _ {ℓ κ} {K : Type ℓ} {V : Type κ} ⦃o : Ord K⦄ where
  -- the comparison that the sort is given
  abbrev pub entry_order : MergeEntry K V → MergeEntry K V → Ordering
  entry_order a b = elim (o.cmp a.key b.key) [ lt ↦ lt | gt ↦ gt | eq ↦ compare a.depth b.depth ]

  -- `slices.SortStableFunc`
  unfoldable pub insert_entry : MergeEntry K V → List (MergeEntry K V) → List (MergeEntry K V)
  insert_entry e [] = e ∷ []
  insert_entry e (n ∷ ns) = if is_gt (entry_order e n) then n ∷ insert_entry e ns else e ∷ n ∷ ns

  unfoldable pub sort_entries : List (MergeEntry K V) → List (MergeEntry K V)
  unfolding insert_entry
  sort_entries [] = []
  sort_entries (e ∷ es) = insert_entry e (sort_entries es)

  -- the grouping loop: `first` is `entries[i]`, `group` is `entries[i+1:j]`
  unfoldable pub resolve_entry_groups :
      MergeEntry K V → List (MergeEntry K V) → List (MergeEntry K V) → List (K × V)
  unfolding resolve_key_entries
  resolve_entry_groups first group [] = emit first.key (resolve_key_entries (first ∷ group)) []
  resolve_entry_groups first group (e ∷ es) = elim (is_eq (o.cmp e.key first.key)) [
    | true ↦ resolve_entry_groups first (group ++ e ∷ []) es
    | false ↦ emit first.key (resolve_key_entries (first ∷ group)) (resolve_entry_groups e [] es)
  ]

  abbrev pub resolve_sorted : List (MergeEntry K V) → List (K × V)
  resolve_sorted [] = []
  resolve_sorted (e ∷ es) = resolve_entry_groups e [] es

  unfoldable pub resolve_entries : List (MergeEntry K V) → List (K × V)
  unfolding sort_entries resolve_entry_groups
  resolve_entries es = resolve_sorted (sort_entries es)

  -- the first index of a leaf that is in the range, and the first behind it
  abbrev pub leaf_bounds : List (K × V) → K → K → Bool → Bool → ℕ × ℕ
  leaf_bounds es lo hi lo_inc hi_inc =
      let (start, lo_found) = leaf_search es lo in
      let (end, hi_found) = leaf_search es hi in
      (
        if not lo_inc && lo_found then start + 1 else start,
        if hi_inc && hi_found then end + 1 else end,
      )

module _ {ℓ κ} {K : Type ℓ} {V : Type κ} ⦃o : Ord K⦄ (lo hi : K) (lo_inc hi_inc : Bool) where
  unfoldable mutual
    unfolding leaf_search buffer_slice find_child_index

    pub collect_range : Node K V → ℕ → List (MergeEntry K V)
    collect_range (leaf es) d =
        let (start, end) = leaf_bounds es lo hi lo_inc hi_inc in
        pair_entries d (take (end - start) (drop start es))
    collect_range (internal ps cs buf s) d =
        collect_buffer_entries d (buffer_slice buf s lo hi lo_inc hi_inc)
        ++ collect_range_children cs 0 (find_child_index ps lo) (find_child_index ps hi) (suc d)

    -- the loop over the children from `first` to `last`; `i` is the index of the next child
    pub collect_range_children : Children K V → ℕ → ℕ → ℕ → ℕ → List (MergeEntry K V)
    collect_range_children nil i first last d = []
    collect_range_children (cons c cs) i first last d =
        elim (leb first i && leb i last) [ true ↦ collect_range c d | false ↦ [] ]
        ++ collect_range_children cs (suc i) first last d

module _ {ℓ κ} {K : Type ℓ} {V : Type κ} ⦃o : Ord K⦄ where
  -- `materializeAll`
  unfoldable pub materialize_all : Node K V → List (K × V)
  unfolding collect_all resolve_entries
  materialize_all root = resolve_entries (collect_all root 0)

  -- `materializeRange`, the keys of [lo, hi)
  unfoldable pub materialize_range : Node K V → K → K → List (K × V)
  unfolding collect_range resolve_entries
  materialize_range root lo hi =
      if not (is_lt (o.cmp lo hi))
      then []
      else resolve_entries (collect_range lo hi true false root 0)

  -- `materializeDescendRange`, the keys of (lo, hi] in ascending order
  unfoldable pub materialize_descend_range : Node K V → K → K → List (K × V)
  unfolding collect_range resolve_entries
  materialize_descend_range root hi lo =
      if not (is_lt (o.cmp lo hi))
      then []
      else resolve_entries (collect_range lo hi false true root 0)
