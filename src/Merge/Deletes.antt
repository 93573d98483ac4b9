-- ===== src/Merge/Deletes.antt =====
-- flush.go, mergeLeafWithDeletes: compaction, then the merge of the new keys.
use fractaltree.Prelude.{
  ◌≡◌, refl, ap, sym, subst, append-nil, ◌∙◌, none, some, List, [], ◌∷◌, arith, All,
}
use fractaltree.Order.{Ord, ◌≺◌, eq_right}
use fractaltree.Message.{Message, Zero, put, delete, delete_range, upsert, key_of}
use fractaltree.Message.Replay.{replay, replay-above, lt-All-trans}
use fractaltree.Node.Entries.{
  lookup, AllKeys, IsSorted, IsAbove-trans, IsAbove-congr, lookup-IsAbove,
}
use fractaltree.Merge.{
  collect_put, collect_puts, compact, merge_new, merge_leaf_puts, merge_leaf_with_deletes,
}
use fractaltree.Merge.Puts.{
  IsStrict, IsPut, lookup-merge_leaf_puts, merge_leaf_puts-IsSorted, merge_leaf_puts-AllKeys,
}

module _ {ℓ κ} {K : Type ℓ} {V : Type κ} where
  -- what is left of a batch once its upserts are resolved
  abbrev pub IsPutOrDelete : Message K V → Type 0
  IsPutOrDelete (put k v c) = Unit
  IsPutOrDelete (delete k) = Unit
  IsPutOrDelete _ = ⊥

  collect_put-All :
      (P : Message K V → Type 0) (m : Message K V) (new : List (Message K V))
      → P m
      → All P new
      → All P (collect_put m new)
  collect_put-All P (put k v c) new h a = (h, a)
  collect_put-All P (delete k) new h a = a
  collect_put-All P (delete_range k e) new h a = a
  collect_put-All P (upsert k f) new h a = a

  collect_puts-All :
      (P : Message K V → Type 0) (ms : List (Message K V)) → All P ms → All P (collect_puts ms)
  collect_puts-All P [] a = tt
  collect_puts-All P (m ∷ ms) a =
      collect_put-All P m (collect_puts ms) a.0 (collect_puts-All P ms a.1)

  collect_put-IsPut :
      (m : Message K V) (new : List (Message K V)) → All IsPut new → All IsPut (collect_put m new)
  collect_put-IsPut (put k v c) new a = (tt, a)
  collect_put-IsPut (delete k) new a = a
  collect_put-IsPut (delete_range k e) new a = a
  collect_put-IsPut (upsert k f) new a = a

  collect_puts-IsPut : (ms : List (Message K V)) → All IsPut (collect_puts ms)
  collect_puts-IsPut [] = tt
  collect_puts-IsPut (m ∷ ms) = collect_put-IsPut m (collect_puts ms) (collect_puts-IsPut ms)

module _ {ℓ κ} {K : Type ℓ} {V : Type κ} ⦃o : Ord K⦄ where
  collect_put-IsStrict :
      (m : Message K V) (new : List (Message K V))
      → All (λ x. key_of m ≺ key_of x) new
      → IsStrict new
      → IsStrict (collect_put m new)
  collect_put-IsStrict (put k v c) new a s = (a, s)
  collect_put-IsStrict (delete k) new a s = s
  collect_put-IsStrict (delete_range k e) new a s = s
  collect_put-IsStrict (upsert k f) new a s = s

  compact-All :
      (P : Message K V → Type 0) (es : List (K × V)) (ms : List (Message K V))
      → All P ms
      → All P (compact es ms).1
  unfolding compact
  compact-All P [] ms a = collect_puts-All P ms a
  compact-All P (e ∷ es) [] a = tt
  compact-All P (e ∷ es) (m ∷ ms) a = ground (
    arith,
    compact-All P es (m ∷ ms) a,
    compact-All P (e ∷ es) ms a.1,
    compact-All P es ms a.1,
    collect_put-All P m (compact (e ∷ es) ms).1 a.0,
  )

  -- only puts are collected
  compact-IsPut : (es : List (K × V)) (ms : List (Message K V)) → All IsPut (compact es ms).1
  unfolding compact
  compact-IsPut [] ms = collect_puts-IsPut ms
  compact-IsPut (e ∷ es) [] = tt
  compact-IsPut (e ∷ es) (m ∷ ms) = ground (
    arith,
    compact-IsPut es (m ∷ ms),
    compact-IsPut es ms,
    collect_put-IsPut m (compact (e ∷ es) ms).1 (compact-IsPut (e ∷ es) ms),
  )

  compact-AllKeys :
      (P : K → Type 0) (es : List (K × V)) (ms : List (Message K V))
      → AllKeys P es
      → All (λ m. P (key_of m)) ms
      → AllKeys P (compact es ms).0
  unfolding compact
  compact-AllKeys P [] ms a b = tt
  compact-AllKeys P (e ∷ es) [] a b = a
  compact-AllKeys P (e ∷ es) (put k v c ∷ ms) a b = ground (
    arith,
    compact-AllKeys P es (put k v c ∷ ms) a.1 b,
    compact-AllKeys P (e ∷ es) ms a b.1,
    compact-AllKeys P es ms a.1 b.1,
  )
  compact-AllKeys P (e ∷ es) (m ∷ ms) a b = ground (
    arith,
    compact-AllKeys P es (m ∷ ms) a.1 b,
    compact-AllKeys P (e ∷ es) ms a b.1,
    compact-AllKeys P es ms a.1 b.1,
  )

  collect_puts-IsStrict : (ms : List (Message K V)) → IsStrict ms → IsStrict (collect_puts ms)
  collect_puts-IsStrict [] s = tt
  collect_puts-IsStrict (m ∷ ms) s =
      collect_put-IsStrict m (collect_puts ms) (collect_puts-All (λ x. key_of m ≺ key_of x) ms s.0)
        (collect_puts-IsStrict ms s.1)

  compact-IsStrict :
      (es : List (K × V)) (ms : List (Message K V)) → IsStrict ms → IsStrict (compact es ms).1
  unfolding compact
  compact-IsStrict [] ms s = collect_puts-IsStrict ms s
  compact-IsStrict (e ∷ es) [] s = tt
  compact-IsStrict (e ∷ es) (m ∷ ms) s = ground (
    arith,
    compact-IsStrict es (m ∷ ms) s,
    compact-IsStrict es ms s.1,
    collect_put-IsStrict m (compact (e ∷ es) ms).1
        (compact-All (λ x. key_of m ≺ key_of x) (e ∷ es) ms s.0) (compact-IsStrict (e ∷ es) ms s.1),
  )

  compact-IsSorted :
      (es : List (K × V)) (ms : List (Message K V))
      → IsSorted es
      → IsStrict ms
      → IsSorted (compact es ms).0
  unfolding compact
  compact-IsSorted [] ms s t = tt
  compact-IsSorted (e ∷ es) [] s t = s
  compact-IsSorted ((a, w) ∷ es) (put k v c ∷ ms) s t = ground (
    arith,
    compact-IsSorted es (put k v c ∷ ms) s.1 t,
    compact-IsSorted ((a, w) ∷ es) ms s t.1,
    compact-IsSorted es ms s.1 t.1,
    compact-AllKeys (λ b. a ≺ b) es (put k v c ∷ ms) s.0,
    lt-All-trans a k ms,
    compact-AllKeys (λ b. k ≺ b) es ms,
    IsAbove-congr es a k,
  )
  compact-IsSorted ((a, w) ∷ es) (m ∷ ms) s t = ground (
    arith,
    compact-IsSorted es (m ∷ ms) s.1 t,
    compact-IsSorted ((a, w) ∷ es) ms s t.1,
    compact-IsSorted es ms s.1 t.1,
    compact-AllKeys (λ b. a ≺ b) es (m ∷ ms) s.0,
    lt-All-trans a (key_of m) ms,
  )

  replay-collect_puts :
      (ms : List (Message K V)) (k : K)
      → IsStrict ms
      → All IsPutOrDelete ms
      → replay k (collect_puts ms) none ≡ replay k ms none
  unfolding replay
  replay-collect_puts [] k s p = refl
  replay-collect_puts (put j v c ∷ ms) k s p = ground (
    arith,
    replay-collect_puts ms k s.1 p.1,
    replay-above k (collect_puts ms) (some v),
    replay-above k ms (some v),
    collect_puts-All (λ x. k ≺ key_of x) ms,
    lt-All-trans k j ms,
    o.eq_sym j k,
  )
  replay-collect_puts (delete j ∷ ms) k s p = ground (arith, replay-collect_puts ms k s.1 p.1)
  replay-collect_puts (delete_range j e ∷ ms) k s p = absurd p.0
  replay-collect_puts (upsert j f ∷ ms) k s p = absurd p.0

  -- a message that is not below a key's entry: the rest of the batch is above the key
  replay-lookup_cons :
      (a : K) (w : V) (es : List (K × V)) (ms new : List (Message K V)) (k : K)
      (kept : List (K × V))
      → All (λ m. a ≺ key_of m) ms
      → All (λ m. a ≺ key_of m) new
      → replay k new (lookup kept k) ≡ replay k ms (lookup es k)
      → replay k new (lookup ((a, w) ∷ kept) k) ≡ replay k ms (lookup ((a, w) ∷ es) k)
  unfolding lookup
  replay-lookup_cons a w es ms new k kept p q e = ground (
    arith,
    o.eq_sym a k,
    o.lt_of_gt a k,
    lt-All-trans k a ms,
    lt-All-trans k a new,
    replay-above k ms (some w),
    replay-above k new (some w),
    replay-above k ms none,
    replay-above k new none,
  )

  lookup-compact :
      (es : List (K × V)) (ms : List (Message K V)) (k : K)
      → IsSorted es
      → IsStrict ms
      → All IsPutOrDelete ms
      → replay k (compact es ms).1 (lookup (compact es ms).0 k) ≡ replay k ms (lookup es k)
  unfolding compact replay lookup
  lookup-compact [] ms k s t p = replay-collect_puts ms k t p
  lookup-compact (e ∷ es) [] k s t p = refl
  lookup-compact ((a, w) ∷ es) (put j v c ∷ ms) k s t p =
      let m : Message K V = put j v c in
      ground (
        arith,
        replay-lookup_cons a w es (m ∷ ms) (compact es (m ∷ ms)).1 k (compact es (m ∷ ms)).0,
        compact-All (λ x. a ≺ key_of x) es (m ∷ ms),
        lt-All-trans a j ms,
        lookup-compact es (m ∷ ms) k s.1 t p,
        lookup-compact ((a, w) ∷ es) ms k s t.1 p.1,
        lookup-compact es ms k s.1 t.1 p.1,
        lt-All-trans k j ms,
        o.eq_sym j k,
        o.lt_of_gt j k,
        o.eq_left a j k,
        compact-All (λ x. k ≺ key_of x) ((a, w) ∷ es) ms,
        compact-All (λ x. k ≺ key_of x) es ms,
        replay-above k (compact ((a, w) ∷ es) ms).1 (some v),
        replay-above k (compact es ms).1 (some v),
        replay-above k (compact es ms).1 none,
        replay-above k ms (some v),
        replay-above k ms none,
      )
  lookup-compact ((a, w) ∷ es) (delete j ∷ ms) k s t p =
      let m : Message K V = delete j in
      ground (
        arith,
        replay-lookup_cons a w es (m ∷ ms) (compact es (m ∷ ms)).1 k (compact es (m ∷ ms)).0,
        compact-All (λ x. a ≺ key_of x) es (m ∷ ms),
        lt-All-trans a j ms,
        lookup-compact es (m ∷ ms) k s.1 t p,
        lookup-compact ((a, w) ∷ es) ms k s t.1 p.1,
        lookup-compact es ms k s.1 t.1 p.1,
        o.eq_left a j k,
        eq_right j k a,
        o.lt_of_gt a k,
        IsAbove-congr es a k,
        IsAbove-trans k a es,
        lookup-IsAbove es k,
      )
  lookup-compact (e ∷ es) (delete_range j x ∷ ms) k s t p = absurd p.0
  lookup-compact (e ∷ es) (upsert j f ∷ ms) k s t p = absurd p.0

module _ {ℓ κ} {K : Type ℓ} {V : Type κ} ⦃z : Zero V⦄ ⦃o : Ord K⦄ where
  merge_new-lem :
      (kept : List (K × V)) (new : List (Message K V))
      → merge_new kept new ≡ merge_leaf_puts kept new
  unfolding merge_new
  merge_new-lem kept [] = sym (append-nil kept)
  merge_new-lem kept (m ∷ ms) = refl

  -- After `mergeLeafWithDeletes` of a strictly ascending batch of puts and deletes, a sorted leaf
  -- holds the replay of the batch at every key.
  pub lookup-merge_leaf_with_deletes :
      (es : List (K × V)) (ms : List (Message K V)) (k : K)
      → IsSorted es
      → IsStrict ms
      → All IsPutOrDelete ms
      → lookup (merge_leaf_with_deletes es ms) k ≡ replay k ms (lookup es k)
  unfolding merge_leaf_with_deletes
  lookup-merge_leaf_with_deletes es ms k s t p =
      let (kept, new) = compact es ms in
      ap (λ x. lookup x k) (merge_new-lem kept new)
      ∙ lookup-merge_leaf_puts kept new k (compact-IsSorted es ms s t) (compact-IsStrict es ms t)
          (compact-IsPut es ms)
      ∙ lookup-compact es ms k s t p

  pub merge_leaf_with_deletes-IsSorted :
      (es : List (K × V)) (ms : List (Message K V))
      → IsSorted es
      → IsStrict ms
      → IsSorted (merge_leaf_with_deletes es ms)
  unfolding merge_leaf_with_deletes
  merge_leaf_with_deletes-IsSorted es ms s t =
      let (kept, new) = compact es ms in
      subst IsSorted (sym (merge_new-lem kept new))
        (merge_leaf_puts-IsSorted kept new (compact-IsSorted es ms s t) (compact-IsStrict es ms t))

  pub merge_leaf_with_deletes-AllKeys :
      (P : K → Type 0) (es : List (K × V)) (ms : List (Message K V))
      → IsSorted es
      → IsStrict ms
      → AllKeys P es
      → All (λ m. P (key_of m)) ms
      → AllKeys P (merge_leaf_with_deletes es ms)
  unfolding merge_leaf_with_deletes
  merge_leaf_with_deletes-AllKeys P es ms s t a b =
      let (kept, new) = compact es ms in
      subst (AllKeys P) (sym (merge_new-lem kept new)) (
        merge_leaf_puts-AllKeys P kept new (compact-IsSorted es ms s t) (compact-IsStrict es ms t)
          (compact-AllKeys P es ms a b) (compact-All (λ m. P (key_of m)) es ms b))
