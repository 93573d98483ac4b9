-- ===== src/Count/Range.antt =====
-- tree.go, DeleteRange: it keeps `size` and `pendingDeletes` exact.
use fractaltree.Prelude.{
  ◌≡◌, refl, Bool, true, false, not, Option, none, List, [], ◌∷◌, arith, length, is_some, select,
}
use fractaltree.Prelude.Int.{pos, ◌-ℤ◌, int_laws}
use fractaltree.Order.{Ord, is_lt}
use fractaltree.Message.{Message, Zero}
use fractaltree.Node.{Node, leaf, internal, Children}
use fractaltree.Node.Entries.{lookup, IsSorted}
use fractaltree.Node.Same.{not_in_tail}
use fractaltree.Ordered.{IsOrdered, eval}
use fractaltree.Apply.{Counters}
use fractaltree.Flush.{TreeParams}
use fractaltree.Iterator.{resolve_entries, collect_range, materialize_range}
use fractaltree.Iterator.Laws.{materialize_range_lem}
use fractaltree.DeleteRange.{
  is_between, count_deleted, append_deletes, delete_pairs, delete_range_root,
}
use fractaltree.DeleteRange.LeafPath.{delete_loop_lem}
use fractaltree.DeleteRange.Pairs.{deletes, append_deletes_lem, append_deletes-Holds}
use fractaltree.Count.{total, counted, deleting, one_each, hits}
use fractaltree.Count.Buckets.{total-select}
use fractaltree.Count.Totals.{total-one_each}
use fractaltree.Count.Writes.{IsExact, leaf-IsExact, append-IsExact, flush_full_root-IsExact}

module _ {ℓ κ} {K : Type ℓ} {V : Type κ} ⦃o : Ord K⦄ where
  total-deletes :
      (es : List (K × V))
      → (total {A = Message K V} counted (deletes es) ≡ 0)
        × (total {A = Message K V} deleting (deletes es) ≡ length es)
  total-deletes [] = (refl, refl)
  total-deletes (e ∷ es) = let t = total-deletes es in (omega (arith, t.0), omega (arith, t.1))

  -- the deletes of sorted pairs that a map holds all hit
  hits-deletes :
      (es : List (K × V)) (k : K) (w : Option V)
      → IsSorted es
      → (is_some (lookup es k) ≡ true → is_some w ≡ true)
      → hits k (deletes es) w ≡ true
  unfolding hits lookup
  hits-deletes [] k w s h = refl
  hits-deletes ((a, v) ∷ es) k w s h =
      ground (arith, hits-deletes es k w s.1, hits-deletes es k none s.1, not_in_tail a k es)

module _ {ℓ κ} {K : Type ℓ} {V : Type κ} ⦃z : Zero V⦄ ⦃o : Ord K⦄ (params : TreeParams) where
  delete_pairs-IsExact :
      (ps : List K) (cs : Children K V) (buf : List (Message K V)) (s : Bool) (c : Counters)
      (es : List (K × V))
      → IsOrdered none none (internal ps cs buf s)
      → IsSorted es
      → ((k : K) → is_some (lookup es k) ≡ true → is_some (eval (internal ps cs buf s) k) ≡ true)
      → IsExact (internal ps cs buf s) c
      → IsExact
          (delete_pairs params ps cs (buf, s) c es).0.0
          (delete_pairs params ps cs (buf, s) c es).0.1
  delete_pairs-IsExact ps cs buf s c [] a t q h = h
  delete_pairs-IsExact ps cs buf s c (e ∷ es) a t q h =
      let c' = count_deleted c (length (e ∷ es)) in
      let w = total-deletes (e ∷ es) in
      let ordered = (append_deletes-Holds ps cs buf s e es a t).ordered in
      flush_full_root-IsExact params ps cs (append_deletes (buf, s) (e ∷ es)) c' ordered (
        rw (append_deletes_lem (buf, s) e es) (
          append-IsExact ps cs buf (deletes (e ∷ es)) s _ c c'
            (λ k. hits-deletes (e ∷ es) k (eval (internal ps cs buf s) k) t (q k))
            (record { size = omega (int_laws, w.0, w.1); deletes = omega (int_laws, w.1) }) h))

module _ {ℓ κ} {K : Type ℓ} {V : Type κ} ⦃z : Zero V⦄ ⦃o : Ord K⦄ (params : TreeParams)
    (lo hi : K) where
  delete_leaf_range-IsExact :
      (es : List (K × V)) (c : Counters)
      → IsExact (leaf es) c
      → IsExact
          (delete_range_root params (leaf es) c lo hi).0.0
          (delete_range_root params (leaf es) c lo hi).0.1
  delete_leaf_range-IsExact es c h =
      let gone = select (is_between lo hi) es in
      let kept = select (λ e. not (is_between lo hi e)) es in
      rw (delete_loop_lem lo hi es) (
        leaf-IsExact es kept c (record c { size = c.size -ℤ pos (length gone) })
          (record {
            size = omega (
              int_laws,
              total-select one_each (is_between lo hi) es,
              total-one_each es,
              total-one_each gone,
              total-one_each kept,
            );
            deletes = omega arith;
          })
          h)

  pub delete_range_root-IsExact :
      (n : Node K V) (c : Counters)
      → is_lt (o.cmp lo hi) ≡ true
      → IsOrdered none none n
      → IsExact n c
      → IsExact (delete_range_root params n c lo hi).0.0 (delete_range_root params n c lo hi).0.1
  unfolding materialize_range
  delete_range_root-IsExact (leaf es) c l a h = delete_leaf_range-IsExact es c h
  delete_range_root-IsExact (internal ps cs buf s) c l a h =
      let n = internal ps cs buf s in
      let m = materialize_range_lem n lo hi none none a in
      let t : not (is_lt (o.cmp lo hi)) ≡ false = ground arith in
      let r = rw t at m in
      delete_pairs-IsExact params ps cs buf s c
        (resolve_entries (collect_range lo hi true false n 0)) a r.0 (λ k e. ground (arith, r.1 k))
        h
