-- ===== src/Node/LeafSearch.antt =====
-- node.go, leafSearch, leafInsert and leafDelete against sorted entry lists.
use fractaltree.Prelude.{
  ℕ, zero, suc, ◌+◌, ◌-◌, ◌/◌, ◌≤◌, ◌<◌, ◌≡◌, ◌≢◌, refl, true, not, lt, gt, is_some, none, List, [],
  ◌∷◌, arith, if◌then◌else◌, length, get_elem?, insert_at, delete_at,
}
use mathlib.Core.Option
use fractaltree.Order.{Ord, is_eq}
use fractaltree.Node.{probe, leaf_search_loop, leaf_search, leaf_insert, leaf_delete, set_value}
use fractaltree.Node.Entries.{
  lookup, put_entry, erase_entry, IsAbove, IsSorted, IsAbove-trans, IsAbove-congr,
}

module _ {ℓ κ} {K : Type ℓ} {V : Type κ} ⦃o : Ord K⦄ where
  -- how many keys at the front are below `k`
  abbrev pub rank : List (K × V) → K → ℕ
  rank [] k = 0
  rank (e ∷ es) k = elim (o.cmp e.0 k) [ lt ↦ suc (rank es k) | _ ↦ 0 ]

  rank-le-length : (es : List (K × V)) (k : K) → rank es k ≤ length es
  rank-le-length [] k = omega arith
  rank-le-length (e ∷ es) k = ground (arith, rank-le-length es k)

  probe-length : (es : List (K × V)) (k : K) → probe es k (length es) ≡ gt
  probe-length [] k = refl
  probe-length (e ∷ es) k = probe-length es k

  probe-below : (es : List (K × V)) (k : K) (i : ℕ) → i < rank es k → probe es k i ≡ lt
  probe-below [] k i h = absurd (omega arith)
  probe-below (e ∷ es) k zero h = ground arith
  probe-below (e ∷ es) k (suc i) h = ground (arith, probe-below es k i)

  probe-rank : (es : List (K × V)) (k : K) → probe es k (rank es k) ≢ lt
  probe-rank [] k h = cc
  probe-rank (e ∷ es) k h = ground (arith, probe-rank es k)

  probe-IsAbove : (es : List (K × V)) (k : K) (i : ℕ) → IsAbove k es → probe es k i ≡ gt
  probe-IsAbove [] k i a = refl
  probe-IsAbove ((b, v) ∷ es) k zero a = o.gt_of_lt k b a.0
  probe-IsAbove ((b, v) ∷ es) k (suc i) a = probe-IsAbove es k i a.1

  probe-above :
      (es : List (K × V)) (k : K) (i : ℕ) → IsSorted es → rank es k < i → probe es k i ≡ gt
  probe-above [] k i s h = refl
  probe-above ((a, v) ∷ es) k zero s h = absurd (omega arith)
  probe-above ((a, v) ∷ es) k (suc i) s h = ground (
    arith,
    probe-above es k i s.1,
    probe-IsAbove es k i,
    IsAbove-congr es a k,
    IsAbove-trans k a es,
    o.lt_of_gt a k,
  )

  leaf_search_loop_lem :
      (f : ℕ) (es : List (K × V)) (k : K) (lo hi : ℕ)
      → IsSorted es
      → hi - lo ≤ f
      → lo ≤ rank es k
      → rank es k ≤ hi
      → probe es k hi ≡ gt
      → leaf_search_loop f es k lo hi ≡ (rank es k, is_eq (probe es k (rank es k)))
  unfolding leaf_search_loop
  leaf_search_loop_lem zero es k lo hi s hf h1 h2 hp =
      let e : rank es k ≡ lo = omega arith in let e2 : rank es k ≡ hi = omega arith in ground arith
  leaf_search_loop_lem (suc f) es k lo hi s hf h1 h2 hp =
      let m : ℕ = lo + (hi - lo) / 2 in
      ground (
        arith,
        probe-below es k m,
        probe-above es k m s,
        probe-rank es k,
        leaf_search_loop_lem f es k (m + 1) hi s,
        leaf_search_loop_lem f es k lo m s,
      )

  -- On a sorted leaf the search returns the rank of the key, and whether the key stands there.
  pub leaf_search_lem :
      (es : List (K × V)) (k : K)
      → IsSorted es
      → leaf_search es k ≡ (rank es k, is_eq (probe es k (rank es k)))
  unfolding leaf_search
  leaf_search_lem es k s =
      leaf_search_loop_lem (length es) es k 0 (length es) s (omega arith) (omega arith)
        (rank-le-length es k) (probe-length es k)

  insert-eq-put_entry :
      (es : List (K × V)) (k : K) (v : V)
      → (if is_eq (probe es k (rank es k))
          then set_value es (rank es k) v
          else insert_at es (rank es k) (k, v))
        ≡ put_entry es k v
  unfolding put_entry
  insert-eq-put_entry [] k v = refl
  insert-eq-put_entry ((a, w) ∷ es) k v = ground (arith, insert-eq-put_entry es k v)

  delete-eq-erase_entry :
      (es : List (K × V)) (k : K)
      → (if is_eq (probe es k (rank es k)) then delete_at es (rank es k) else es) ≡ erase_entry es k
  unfolding erase_entry
  delete-eq-erase_entry [] k = refl
  delete-eq-erase_entry ((a, w) ∷ es) k = ground (arith, delete-eq-erase_entry es k)

  get_elem?-rank :
      (es : List (K × V)) (k : K)
      → (if is_eq (probe es k (rank es k))
          then Option.map (λ e. e.1) (get_elem? es (rank es k))
          else none)
        ≡ lookup es k
  unfolding lookup
  get_elem?-rank [] k = refl
  get_elem?-rank ((a, w) ∷ es) k = ground (arith, get_elem?-rank es k)

  is_eq-probe : (es : List (K × V)) (k : K) → is_eq (probe es k (rank es k)) ≡ is_some (lookup es k)
  unfolding lookup
  is_eq-probe [] k = refl
  is_eq-probe ((a, w) ∷ es) k = ground (arith, is_eq-probe es k)

  -- `leafSearch` finds a key exactly if the sorted leaf has an entry for it, and then the entry at
  -- the returned index holds the key's value.
  pub leaf_search-lookup :
      (es : List (K × V)) (k : K)
      → IsSorted es
      → ((leaf_search es k).1 ≡ is_some (lookup es k))
        × ((if (leaf_search es k).1
              then Option.map (λ e. e.1) (get_elem? es (leaf_search es k).0)
              else none)
            ≡ lookup es k)
  leaf_search-lookup es k s = rw (leaf_search_lem es k s) (is_eq-probe es k, get_elem?-rank es k)

  -- On a sorted leaf `leafInsert` is the insertion into a sorted map, and tells whether the key is new.
  pub leaf_insert_lem :
      (es : List (K × V)) (k : K) (v : V)
      → IsSorted es
      → leaf_insert es k v ≡ (put_entry es k v, not (is_some (lookup es k)))
  unfolding leaf_insert
  leaf_insert_lem es k v s =
      rw (leaf_search_lem es k s) (ground (arith, insert-eq-put_entry es k v, is_eq-probe es k))

  -- On a sorted leaf `leafDelete` removes the key's entry, and tells whether there was one.
  pub leaf_delete_lem :
      (es : List (K × V)) (k : K)
      → IsSorted es
      → leaf_delete es k ≡ (erase_entry es k, is_some (lookup es k))
  unfolding leaf_delete
  leaf_delete_lem es k s =
      rw (leaf_search_lem es k s) (ground (arith, delete-eq-erase_entry es k, is_eq-probe es k))

  set-eq-put_entry :
      (es : List (K × V)) (k : K) (v : V)
      → is_eq (probe es k (rank es k)) ≡ true
      → set_value es (rank es k) v ≡ put_entry es k v
  unfolding put_entry
  set-eq-put_entry [] k v h = cc
  set-eq-put_entry ((a, w) ∷ es) k v h = ground (arith, set-eq-put_entry es k v)

  -- a write at the index of a key that was found
  pub set_value-put_entry :
      (es : List (K × V)) (k : K) (v : V)
      → IsSorted es
      → (leaf_search es k).1 ≡ true
      → set_value es (leaf_search es k).0 v ≡ put_entry es k v
  set_value-put_entry es k v s h =
      rw (leaf_search_lem es k s) (set-eq-put_entry es k v (rw (leaf_search_lem es k s) at h))
