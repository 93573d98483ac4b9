-- ===== src/Merge/Puts.antt =====
-- flush.go, mergeLeafPuts: the pass from the last put to the first is a sorted insertion of each put.
use fractaltree.Prelude.{
  ℕ, suc, ◌≡◌, refl, ap, sym, subst, ◌∙◌, lt, eq, gt, some, List, [], ◌∷◌, ◌++◌, arith,
  if◌then◌else◌, take, drop, All, All-append, All-take, append-nil, zero,
}
use native.Mathlib.Numerals.{add-one}
use fractaltree.Order.{Ord, ◌≺◌, is_lt, is_eq, eq_right}
use fractaltree.Message.{Message, Zero, put, delete, delete_range, upsert, key_of, value_of}
use fractaltree.Message.Replay.{replay, replay-above, lt-All-trans}
use fractaltree.Search.{binary_search_lem, test_at, prefix_count}
use fractaltree.Node.Entries.{
  lookup, AllKeys, IsAbove, IsSorted, IsAbove-trans, IsAbove-congr, IsSorted-IsPartitioned,
}
use fractaltree.Merge.{entry_of, merge_put, merge_puts_loop, merge_leaf_puts}

abbrev pub IsPut {ℓ κ} : {K : Type ℓ} {V : Type κ} → Message K V → Type 0
IsPut (put k v c) = Unit
IsPut _ = ⊥

module _ {ℓ κ} {K : Type ℓ} {V : Type κ} ⦃o : Ord K⦄ where
  -- one message to a key, in ascending order
  abbrev pub IsStrict : List (Message K V) → Type 0
  IsStrict [] = Unit
  IsStrict (m ∷ ms) = All (λ x. key_of m ≺ key_of x) ms × IsStrict ms

  -- insertion that replaces the key too
  replace_entry : List (K × V) → K → V → List (K × V)
  replace_entry [] k v = (k, v) ∷ []
  replace_entry ((a, w) ∷ es) k v = elim (o.cmp a k) [
    | lt ↦ (a, w) ∷ replace_entry es k v
    | eq ↦ (k, v) ∷ es
    | gt ↦ (k, v) ∷ (a, w) ∷ es
  ]

  replace_entry-AllKeys :
      (P : K → Type 0) (es : List (K × V)) (k : K) (v : V)
      → P k
      → AllKeys P es
      → AllKeys P (replace_entry es k v)
  unfolding replace_entry
  replace_entry-AllKeys P [] k v h a = (h, tt)
  replace_entry-AllKeys P ((b, w) ∷ es) k v h a = ground (arith, replace_entry-AllKeys P es k v h)

  replace_entry-IsSorted :
      (es : List (K × V)) (k : K) (v : V) → IsSorted es → IsSorted (replace_entry es k v)
  unfolding replace_entry
  replace_entry-IsSorted [] k v s = (tt, tt)
  replace_entry-IsSorted ((a, w) ∷ es) k v s = ground (
    arith,
    replace_entry-IsSorted es k v,
    replace_entry-AllKeys (λ b. a ≺ b) es k v,
    o.lt_of_gt a k,
    IsAbove-trans k a es,
    IsAbove-congr es a k,
  )

  lookup-replace_entry :
      (es : List (K × V)) (k j : K) (v : V)
      → lookup (replace_entry es k v) j ≡ (elim (o.cmp k j) [ eq ↦ some v | _ ↦ lookup es j ])
  unfolding lookup replace_entry
  lookup-replace_entry [] k j v = ground arith
  lookup-replace_entry ((a, w) ∷ es) k j v = ground (
    arith,
    lookup-replace_entry es k j v,
    o.eq_left a k j,
    o.lt_of_gt a k,
    o.gt_of_lt j a,
    o.lt_of_gt k j,
    o.lt_trans j k a,
    o.eq_left k j a,
    o.gt_of_lt k a,
    o.lt_trans a k j,
    eq_right k j a,
  )

  abbrev rank_of : List (K × V) → K → ℕ
  rank_of es k = prefix_count (λ e. is_lt (o.cmp e.0 k)) es

  abbrev chunk_of : List (K × V) → K → ℕ
  chunk_of es k =
      if test_at (λ e. is_eq (o.cmp e.0 k)) es (rank_of es k)
      then suc (rank_of es k)
      else rank_of es k

  IsSorted-take : (n : ℕ) (es : List (K × V)) → IsSorted es → IsSorted (take n es)
  IsSorted-take zero es s = tt
  IsSorted-take (suc n) [] s = tt
  IsSorted-take (suc n) ((a, v) ∷ es) s = (All-take (λ e. a ≺ e.0) n es s.0, IsSorted-take n es s.1)

  -- what stands behind the chunk is above the key
  drop-IsAbove : (es : List (K × V)) (k : K) → IsSorted es → IsAbove k (drop (chunk_of es k) es)
  drop-IsAbove [] k s = tt
  drop-IsAbove ((a, v) ∷ es) k s =
      ground
        (arith, drop-IsAbove es k s.1, IsAbove-congr es a k, IsAbove-trans k a es, o.lt_of_gt a k)

  cut-eq-replace_entry :
      (es out : List (K × V)) (k : K) (v : V)
      → IsAbove k out
      → take (rank_of es k) es ++ (k, v) ∷ (drop (chunk_of es k) es ++ out)
        ≡ replace_entry (es ++ out) k v
  unfolding replace_entry
  cut-eq-replace_entry [] [] k v a = refl
  cut-eq-replace_entry [] ((b, w) ∷ out) k v a = ground (arith, o.gt_of_lt k b)
  cut-eq-replace_entry ((b, w) ∷ es) out k v a = ground (arith, cut-eq-replace_entry es out k v a)

module _ {ℓ κ} {K : Type ℓ} {V : Type κ} ⦃z : Zero V⦄ ⦃o : Ord K⦄ where
  -- the puts inserted one by one, the last first
  abbrev inserts : List (K × V) → List (Message K V) → List (K × V)
  inserts es [] = es
  inserts es (m ∷ ms) = replace_entry (inserts es ms) (key_of m) (value_of m)

  inserts-IsSorted :
      (es : List (K × V)) (ms : List (Message K V)) → IsSorted es → IsSorted (inserts es ms)
  inserts-IsSorted es [] s = s
  inserts-IsSorted es (m ∷ ms) s =
      replace_entry-IsSorted (inserts es ms) (key_of m) (value_of m) (inserts-IsSorted es ms s)

  inserts-AllKeys :
      (P : K → Type 0) (es : List (K × V)) (ms : List (Message K V))
      → AllKeys P es
      → All (λ m. P (key_of m)) ms
      → AllKeys P (inserts es ms)
  inserts-AllKeys P es [] a b = a
  inserts-AllKeys P es (m ∷ ms) a b =
      replace_entry-AllKeys P (inserts es ms) (key_of m) (value_of m) b.0
        (inserts-AllKeys P es ms a b.1)

  lookup-inserts :
      (es : List (K × V)) (ms : List (Message K V)) (k : K)
      → IsStrict ms
      → All IsPut ms
      → lookup (inserts es ms) k ≡ replay k ms (lookup es k)
  unfolding replay
  lookup-inserts es [] k s p = refl
  lookup-inserts es (put j v c ∷ ms) k s p = ground (
    arith,
    lookup-replace_entry (inserts es ms) j k v,
    lookup-inserts es ms k s.1 p.1,
    replay-above k ms (some v),
    lt-All-trans k j ms,
    o.eq_sym j k,
  )
  lookup-inserts es (delete j ∷ ms) k s p = absurd p.0
  lookup-inserts es (delete_range j e ∷ ms) k s p = absurd p.0
  lookup-inserts es (upsert j f ∷ ms) k s p = absurd p.0

  merge_put_lem :
      (m : Message K V) (pre out : List (K × V))
      → IsSorted pre
      → merge_put m (pre, out) ≡ (
        take (rank_of pre (key_of m)) pre,
        entry_of m ∷ (drop (chunk_of pre (key_of m)) pre ++ out),
      )
  unfolding merge_put
  merge_put_lem m pre out s = rw (
    binary_search_lem (λ e. is_lt (o.cmp e.0 (key_of m))) pre
        (IsSorted-IsPartitioned pre (key_of m) s),
    add-one,
  )

  loop-IsSorted :
      (es : List (K × V)) (ms : List (Message K V))
      → IsSorted es
      → IsSorted (merge_puts_loop es ms).0
  unfolding merge_puts_loop
  loop-IsSorted es [] s = s
  loop-IsSorted es (m ∷ ms) s =
      let (pre, out) = merge_puts_loop es ms in
      let t = loop-IsSorted es ms s in
      subst (λ r. IsSorted r.0) (sym (merge_put_lem m pre out t)) (IsSorted-take _ pre t)

  loop-IsAbove :
      (es : List (K × V)) (ms : List (Message K V)) (j : K)
      → IsSorted es
      → IsStrict ms
      → All (λ m. j ≺ key_of m) ms
      → IsAbove j (merge_puts_loop es ms).1
  unfolding merge_puts_loop
  loop-IsAbove es [] j s t a = tt
  loop-IsAbove es (m ∷ ms) j s t a =
      let (pre, out) = merge_puts_loop es ms in
      let rest = drop (chunk_of pre (key_of m)) pre in
      subst (λ r. IsAbove j r.1) (sym (merge_put_lem m pre out (loop-IsSorted es ms s)))
        (
          a.0,
          All-append (λ e. j ≺ e.0) rest out
              (IsAbove-trans j (key_of m) rest a.0
                (drop-IsAbove pre (key_of m) (loop-IsSorted es ms s)))
              (loop-IsAbove es ms j s t.1 a.1),
        )

  loop-inserts :
      (es : List (K × V)) (ms : List (Message K V))
      → IsSorted es
      → IsStrict ms
      → (merge_puts_loop es ms).0 ++ (merge_puts_loop es ms).1 ≡ inserts es ms
  unfolding merge_puts_loop
  loop-inserts es [] s t = append-nil es
  loop-inserts es (m ∷ ms) s t =
      let (pre, out) = merge_puts_loop es ms in
      ap (λ r. r.0 ++ r.1) (merge_put_lem m pre out (loop-IsSorted es ms s))
      ∙ cut-eq-replace_entry pre out (key_of m) (value_of m)
          (loop-IsAbove es ms (key_of m) s t.1 t.0)
      ∙ ap (λ x. replace_entry x (key_of m) (value_of m)) (loop-inserts es ms s t.1)

  -- After `mergeLeafPuts` of a strictly ascending batch of puts, a sorted leaf holds the replay of
  -- the batch at every key.
  pub lookup-merge_leaf_puts :
      (es : List (K × V)) (ms : List (Message K V)) (k : K)
      → IsSorted es
      → IsStrict ms
      → All IsPut ms
      → lookup (merge_leaf_puts es ms) k ≡ replay k ms (lookup es k)
  unfolding merge_leaf_puts
  lookup-merge_leaf_puts es ms k s t p =
      ap (λ x. lookup x k) (loop-inserts es ms s t) ∙ lookup-inserts es ms k t p

  pub merge_leaf_puts-IsSorted :
      (es : List (K × V)) (ms : List (Message K V))
      → IsSorted es
      → IsStrict ms
      → IsSorted (merge_leaf_puts es ms)
  unfolding merge_leaf_puts
  merge_leaf_puts-IsSorted es ms s t = rw (loop-inserts es ms s t) (inserts-IsSorted es ms s)

  pub merge_leaf_puts-AllKeys :
      (P : K → Type 0) (es : List (K × V)) (ms : List (Message K V))
      → IsSorted es
      → IsStrict ms
      → AllKeys P es
      → All (λ m. P (key_of m)) ms
      → AllKeys P (merge_leaf_puts es ms)
  unfolding merge_leaf_puts
  merge_leaf_puts-AllKeys P es ms s t a b =
      rw (loop-inserts es ms s t) (inserts-AllKeys P es ms a b)
