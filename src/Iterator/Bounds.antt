-- ===== src/Iterator/Bounds.antt =====
-- iterator.go, collectRange on one node: leafBounds and bufferSlice cut out the entries in the range.
use fractaltree.Prelude.{
  ℕ, ◌+◌, ◌-◌, ◌≡◌, refl, ◌≢◌, ap, ◌∙◌, Bool, true, false, not, ◌&&◌, lt, List, [], ◌∷◌, arith,
  if◌then◌else◌, select, take, drop, All,
}
use fractaltree.Order.{Ord, ◌≺◌, is_lt, is_le, is_eq, lt_le_trans}
use fractaltree.Message.{Message, key_of, put, delete, delete_range, upsert}
use fractaltree.Search.{prefix_count, IsPartitioned}
use fractaltree.Node.{in_slice, probe}
use fractaltree.Node.Entries.{IsSorted, IsAbove, IsSorted-IsPartitioned}
use fractaltree.Node.LeafSearch.{rank, leaf_search_lem}
use fractaltree.Node.Slice.{between_lem}
use fractaltree.Iterator.{pair_entries, collect_buffer_entries, leaf_bounds}

module _ {ℓ κ} {K : Type ℓ} {V : Type κ} ⦃o : Ord K⦄ where
  -- the leaf's bounds count the entries in front of the range and up to its end
  rank-prefix_count :
      (es : List (K × V)) (k : K) → rank es k ≡ prefix_count (λ e. is_lt (o.cmp e.0 k)) es
  rank-prefix_count [] k = refl
  rank-prefix_count (e ∷ es) k = ground (arith, rank-prefix_count es k)

  none_le :
      (a k : K) (es : List (K × V))
      → o.cmp a k ≢ lt
      → IsAbove a es
      → prefix_count (λ e. is_le (o.cmp e.0 k)) es ≡ 0
  none_le a k [] h s = refl
  none_le a k ((b, v) ∷ es) h s = ground (arith, lt_le_trans a b k s.0)

  rank_found :
      (es : List (K × V)) (k : K)
      → IsSorted es
      → (if is_eq (probe es k (rank es k)) then rank es k + 1 else rank es k)
        ≡ prefix_count (λ e. is_le (o.cmp e.0 k)) es
  rank_found [] k s = refl
  rank_found ((a, v) ∷ es) k s = ground (arith, rank_found es k s.1, none_le a k es)

  abbrev starts_after : K → Bool → K × V → Bool
  starts_after lo lo_inc e = if lo_inc then is_lt (o.cmp e.0 lo) else is_le (o.cmp e.0 lo)

  abbrev ends_after : K → Bool → K × V → Bool
  ends_after hi hi_inc e = if hi_inc then is_le (o.cmp e.0 hi) else is_lt (o.cmp e.0 hi)

  above_le :
      (a k : K) (es : List (K × V))
      → is_le (o.cmp a k) ≡ false
      → IsAbove a es
      → All (λ e. is_le (o.cmp e.0 k) ≡ false) es
  above_le a k [] h s = tt
  above_le a k ((b, v) ∷ es) h s = (ground (arith, lt_le_trans a b k s.0), above_le a k es h s.1)

  le-IsPartitioned :
      (es : List (K × V)) (k : K) → IsSorted es → IsPartitioned (λ e. is_le (o.cmp e.0 k)) es
  le-IsPartitioned [] k s = tt
  le-IsPartitioned ((a, v) ∷ es) k s = (λ h. above_le a k es h s.0, le-IsPartitioned es k s.1)

  starts-IsPartitioned :
      (es : List (K × V)) (lo : K) (lo_inc : Bool)
      → IsSorted es
      → IsPartitioned (starts_after lo lo_inc) es
  starts-IsPartitioned es lo true s = IsSorted-IsPartitioned es lo s
  starts-IsPartitioned es lo false s = le-IsPartitioned es lo s

  ends-IsPartitioned :
      (es : List (K × V)) (hi : K) (hi_inc : Bool)
      → IsSorted es
      → IsPartitioned (ends_after hi hi_inc) es
  ends-IsPartitioned es hi true s = le-IsPartitioned es hi s
  ends-IsPartitioned es hi false s = IsSorted-IsPartitioned es hi s

  start_count :
      (es : List (K × V)) (lo hi : K) (lo_inc hi_inc : Bool)
      → IsSorted es
      → (leaf_bounds es lo hi lo_inc hi_inc).0 ≡ prefix_count (starts_after lo lo_inc) es
  start_count es lo hi true hi_inc s = rw (leaf_search_lem es lo s) (rank-prefix_count es lo)
  start_count es lo hi false hi_inc s = rw (leaf_search_lem es lo s) (rank_found es lo s)

  end_count :
      (es : List (K × V)) (lo hi : K) (lo_inc hi_inc : Bool)
      → IsSorted es
      → (leaf_bounds es lo hi lo_inc hi_inc).1 ≡ prefix_count (ends_after hi hi_inc) es
  end_count es lo hi lo_inc true s = rw (leaf_search_lem es hi s) (rank_found es hi s)
  end_count es lo hi lo_inc false s = rw (leaf_search_lem es hi s) (rank-prefix_count es hi)

  bounds_order :
      (lo hi : K) (lo_inc hi_inc : Bool) (e : K × V)
      → lo ≺ hi
      → starts_after lo lo_inc e ≡ true
      → ends_after hi hi_inc e ≡ true
  bounds_order lo hi lo_inc hi_inc e h s = ground (arith, o.lt_trans e.0 lo hi, o.eq_left e.0 lo hi)

  pairs_in_slice :
      (lo hi : K) (lo_inc hi_inc : Bool) (d : ℕ) (es : List (K × V))
      → pair_entries d (select (λ e. not (starts_after lo lo_inc e) && ends_after hi hi_inc e) es)
        ≡ select (λ e. in_slice lo hi lo_inc hi_inc e.key) (pair_entries d es)
  pairs_in_slice lo hi lo_inc hi_inc d [] = refl
  pairs_in_slice lo hi lo_inc hi_inc d ((a, v) ∷ es) =
      ground (arith, pairs_in_slice lo hi lo_inc hi_inc d es)

  pub leaf_range :
      (lo hi : K) (lo_inc hi_inc : Bool) (d : ℕ) (es : List (K × V))
      → lo ≺ hi
      → IsSorted es
      → (let (start, end) = leaf_bounds es lo hi lo_inc hi_inc in
          pair_entries d (take (end - start) (drop start es)))
        ≡ select (λ e. in_slice lo hi lo_inc hi_inc e.key) (pair_entries d es)
  leaf_range lo hi lo_inc hi_inc d es h s =
      rw (start_count es lo hi lo_inc hi_inc s, end_count es lo hi lo_inc hi_inc s)
        (ap (pair_entries d) (
            between_lem (starts_after lo lo_inc) (ends_after hi hi_inc) es
              (starts-IsPartitioned es lo lo_inc s) (ends-IsPartitioned es hi hi_inc s)
              (λ e. bounds_order lo hi lo_inc hi_inc e h))
          ∙ pairs_in_slice lo hi lo_inc hi_inc d es)

  pub buffer_in_slice :
      (lo hi : K) (lo_inc hi_inc : Bool) (d : ℕ) (ms : List (Message K V))
      → collect_buffer_entries d (select (λ m. in_slice lo hi lo_inc hi_inc (key_of m)) ms)
        ≡ select (λ e. in_slice lo hi lo_inc hi_inc e.key) (collect_buffer_entries d ms)
  buffer_in_slice lo hi lo_inc hi_inc d [] = refl
  buffer_in_slice lo hi lo_inc hi_inc d (put k v c ∷ ms) =
      ground (arith, buffer_in_slice lo hi lo_inc hi_inc d ms)
  buffer_in_slice lo hi lo_inc hi_inc d (delete k ∷ ms) =
      ground (arith, buffer_in_slice lo hi lo_inc hi_inc d ms)
  buffer_in_slice lo hi lo_inc hi_inc d (delete_range k e ∷ ms) =
      ground (arith, buffer_in_slice lo hi lo_inc hi_inc d ms)
  buffer_in_slice lo hi lo_inc hi_inc d (upsert k f ∷ ms) =
      ground (arith, buffer_in_slice lo hi lo_inc hi_inc d ms)
