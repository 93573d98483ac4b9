-- ===== src/Count/Leaf.antt =====
-- flush.go, applyToLeaf and applyToLeafSmall: what a batch does to the counters, against what it does to
-- the leaf.
use fractaltree.Prelude.{
  ℕ, zero, suc, ◌+◌, ◌≡◌, refl, ap, Bool, true, false, not, ◌&&◌, none, List, [], ◌∷◌, arith,
  if◌then◌else◌, is_some, length, leb, Bool-cases, inl, inr,
}
use fractaltree.Prelude.Int.{pos, pos_part, neg_part, ◌+ℤ◌, ◌-ℤ◌, int_laws, +ℤ_parts}
use fractaltree.Order.{Ord}
use fractaltree.Message.{Message, Zero, put, delete, delete_range, upsert}
use fractaltree.Node.{leaf_search, set_value}
use fractaltree.Node.Entries.{lookup, put_entry, erase_entry, IsSorted}
use fractaltree.Node.LeafSearch.{leaf_insert_lem, leaf_delete_lem, leaf_search-lookup}
use fractaltree.Apply.{
  Counters, value_at, apply_message, apply_to_leaf_small, apply_batch, apply_to_leaf, count_counted,
  count_deletes,
}
use fractaltree.Apply.Small.{apply_message_lem, apply_entry-IsSorted, lookup-apply_entry}
use fractaltree.Count.{total, counted, deleting, hit, hits}

module _ {ℓ κ} {K : Type ℓ} {V : Type κ} where
  total-counted : (ms : List (Message K V)) → count_counted ms ≡ total counted ms
  total-counted [] = refl
  total-counted (put k v true ∷ ms) = omega (arith, total-counted ms)
  total-counted (put k v false ∷ ms) = omega (arith, total-counted ms)
  total-counted (delete k ∷ ms) = omega (arith, total-counted ms)
  total-counted (delete_range k e ∷ ms) = omega (arith, total-counted ms)
  total-counted (upsert k f ∷ ms) = omega (arith, total-counted ms)

  total-deleting : (ms : List (Message K V)) → count_deletes ms ≡ total deleting ms
  total-deleting [] = refl
  total-deleting (put k v c ∷ ms) = omega (arith, total-deleting ms)
  total-deleting (delete k ∷ ms) = omega (arith, total-deleting ms)
  total-deleting (delete_range k e ∷ ms) = omega (arith, total-deleting ms)
  total-deleting (upsert k f ∷ ms) = omega (arith, total-deleting ms)

  length-set_value : (es : List (K × V)) (i : ℕ) (v : V) → length (set_value es i v) ≡ length es
  length-set_value [] i v = refl
  length-set_value ((k, w) ∷ es) zero v = refl
  length-set_value ((k, w) ∷ es) (suc i) v = ap suc (length-set_value es i v)

-- The counters `c` and `c'` around a step that changes the entries and counted puts from `a` to `a'`,
-- and the pending deletes from `d` to `d'`: `pendingDeletes` follows the deletes, and `size` the difference.
pub record Tracks (a d a' d' : ℕ) (c c' : Counters) : Type 0 where
  pub size :
      pos_part c'.size + neg_part c.size + a + d' ≡ neg_part c'.size + pos_part c.size + a' + d
  pub deletes :
      pos_part c'.pending_deletes + neg_part c.pending_deletes + d
      ≡ neg_part c'.pending_deletes + pos_part c.pending_deletes + d'

-- one message, then the others
next_message :
    (n n' n'' w d ws ds : ℕ) (c c' c'' : Counters)
    → Tracks (n + w) d n' 0 c c'
    → Tracks (n' + ws) ds n'' 0 c' c''
    → Tracks (n + (w + ws)) (d + ds) n'' 0 c c''
next_message n n' n'' w d ws ds c c' c'' s t = record {
  size = omega (arith, s.size, t.size);
  deletes = omega (arith, s.deletes, t.deletes);
}

-- the counter of a put whose key was present or not
put_counter :
    (n n' : ℕ) (present counted_put : Bool) (c : Counters)
    → n' ≡ n + (if present then 0 else 1)
    → Tracks (n + (if counted_put then 1 else 0)) 0 n' 0 c (
        if not present && not counted_put
        then record c { size = c.size +ℤ pos 1 }
        else if not (not present) && counted_put
        then record c { size = c.size -ℤ pos 1 }
        else c)
put_counter n n' true true c e = record { size = omega (int_laws, e); deletes = omega arith }
put_counter n n' true false c e = record { size = omega (arith, e); deletes = omega arith }
put_counter n n' false true c e = record { size = omega (arith, e); deletes = omega arith }
put_counter n n' false false c e = record { size = omega (int_laws, e); deletes = omega arith }

module _ {ℓ κ} {K : Type ℓ} {V : Type κ} ⦃o : Ord K⦄ where
  pub length-put_entry :
      (es : List (K × V)) (k : K) (v : V)
      → IsSorted es
      → length (put_entry es k v) ≡ length es + (if is_some (lookup es k) then 0 else 1)
  unfolding put_entry lookup
  length-put_entry [] k v s = refl
  length-put_entry ((a, w) ∷ es) k v s = ground (arith, length-put_entry es k v)

  pub length-erase_entry :
      (es : List (K × V)) (k : K)
      → IsSorted es
      → length (erase_entry es k) + (if is_some (lookup es k) then 1 else 0) ≡ length es
  unfolding erase_entry lookup
  length-erase_entry [] k s = refl
  length-erase_entry ((a, w) ∷ es) k s = ground (arith, length-erase_entry es k)

  -- one message of the small path
  pub apply_message-Tracks :
      (es : List (K × V)) (m : Message K V) (c : Counters)
      → IsSorted es
      → ((k : K) → hit k m (lookup es k) ≡ true)
      → Tracks
          (length es + counted m)
          (deleting m)
          (length (apply_message es m c).0)
          0
          c
          (apply_message es m c).1
  unfolding apply_message
  apply_message-Tracks es (put k v true) c s h = rw (leaf_insert_lem es k v s) (
      put_counter (length es) (length (put_entry es k v)) (is_some (lookup es k)) true c
        (length-put_entry es k v s))
  apply_message-Tracks es (put k v false) c s h = rw (leaf_insert_lem es k v s) (
      put_counter (length es) (length (put_entry es k v)) (is_some (lookup es k)) false c
        (length-put_entry es k v s))
  apply_message-Tracks es (delete k) c s h = rw (leaf_delete_lem es k s) (record {
    size = ground (arith, h k, o.cmp_refl k, length-erase_entry es k s);
    deletes = omega int_laws;
  })
  apply_message-Tracks es (delete_range k e) c s h = record {
    size = omega arith;
    deletes = omega arith;
  }
  apply_message-Tracks es (upsert k f) c s h =
      let found = leaf_search-lookup es k s in
      elim (Bool-cases ((leaf_search es k).1)) [
        | inl e ↦ rw e (record {
          size = omega (
            arith,
            length-set_value es (leaf_search es k).0 (f (value_at es (leaf_search es k).0)),
          );
          deletes = omega arith;
        })
        | inr e ↦
            rw (leaf_insert_lem es k (f none) s, e)
              (record {
                size =
                    ground
                      (arith, found.0, length-put_entry es k (f none) s, +ℤ_parts c.size (pos 1));
                deletes = omega arith;
              })
      ]

  pub apply_to_leaf_small-Tracks :
      (es : List (K × V)) (ms : List (Message K V)) (c : Counters)
      → IsSorted es
      → ((k : K) → hits k ms (lookup es k) ≡ true)
      → Tracks
          (length es + total counted ms)
          (total deleting ms)
          (length (apply_to_leaf_small es ms c).0)
          0
          c
          (apply_to_leaf_small es ms c).1
  unfolding apply_to_leaf_small hits
  apply_to_leaf_small-Tracks es [] c s h = record { size = omega arith; deletes = omega arith }
  apply_to_leaf_small-Tracks es (m ∷ ms) c s h =
      let same = apply_message_lem es m c s in
      let (es', c') = apply_message es m c in
      next_message (length es) (length es') _ (counted m) (deleting m) (total counted ms)
        (total deleting ms) c c' _ (apply_message-Tracks es m c s (λ k. ground (arith, h k)))
        (apply_to_leaf_small-Tracks es' ms c' (rw same (apply_entry-IsSorted es m s))
          (λ k. rw (same, lookup-apply_entry es m k s) (ground (arith, h k))))

module _ {ℓ κ} {K : Type ℓ} {V : Type κ} ⦃z : Zero V⦄ ⦃o : Ord K⦄ where
  apply_batch-Tracks :
      (es : List (K × V)) (ms : List (Message K V)) (c : Counters)
      → Tracks
          (length es + total counted ms)
          (total deleting ms)
          (length (apply_batch es ms c).0)
          0
          c
          (apply_batch es ms c).1
  unfolding apply_batch
  apply_batch-Tracks es ms c = record {
    size = omega (int_laws, total-counted ms, total-deleting ms);
    deletes = omega (int_laws, total-deleting ms);
  }

  -- applyToLeaf keeps the counters true, unless a delete misses.
  pub apply_to_leaf-Tracks :
      (es : List (K × V)) (ms : List (Message K V)) (c : Counters)
      → IsSorted es
      → ((k : K) → hits k ms (lookup es k) ≡ true)
      → Tracks
          (length es + total counted ms)
          (total deleting ms)
          (length (apply_to_leaf es ms c).0)
          0
          c
          (apply_to_leaf es ms c).1
  unfolding apply_to_leaf
  apply_to_leaf-Tracks es [] c s h = record { size = omega arith; deletes = omega arith }
  apply_to_leaf-Tracks es (m ∷ ms) c s h = elim (Bool-cases (leb (length (m ∷ ms)) 3)) [
    | inl e ↦ rw e (apply_to_leaf_small-Tracks es (m ∷ ms) c s h)
    | inr e ↦ rw e (apply_batch-Tracks es (m ∷ ms) c)
  ]
