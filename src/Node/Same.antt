-- ===== src/Node/Same.antt =====
-- Two sorted entry lists that read alike are the same entries, but for keys that compare equal.
use fractaltree.Prelude.{
  suc, ◌≡◌, ◌≢◌, refl, ap, sym, ◌∙◌, lt, eq, gt, Option, none, some, List, [], ◌∷◌, arith, length,
  Ordering,
}
use fractaltree.Order.{Ord}
use fractaltree.Node.Entries.{
  lookup, IsSorted, IsAbove, lookup-IsAbove, IsAbove-trans, IsAbove-congr,
}

some_inj {κ} : {V : Type κ} (v w : V) → some v ≡ some w → v ≡ w
some_inj v w e = cc

module _ {ℓ κ} {K : Type ℓ} {V : Type κ} ⦃o : Ord K⦄ where
  -- equal values at keys that compare equal, in the same order
  abbrev pub SameEntries : List (K × V) → List (K × V) → Type κ
  SameEntries [] [] = Unit
  SameEntries [] (y ∷ ys) = ◌≡◌ {A = Option V} none (some y.1)
  SameEntries (x ∷ xs) [] = ◌≡◌ {A = Option V} none (some x.1)
  SameEntries (x ∷ xs) (y ∷ ys) = (o.cmp x.0 y.0 ≡ eq) × (x.1 ≡ y.1) × SameEntries xs ys

  -- the head is found
  lookup-head :
      (a k : K) (v : V) (xs : List (K × V)) → o.cmp a k ≡ eq → lookup ((a, v) ∷ xs) k ≡ some v
  unfolding lookup
  lookup-head a k v xs e = ground arith

  lookup-tail :
      (a k : K) (v : V) (xs : List (K × V)) → o.cmp a k ≡ lt → lookup ((a, v) ∷ xs) k ≡ lookup xs k
  unfolding lookup
  lookup-tail a k v xs e = ground arith

  lookup-above :
      (a k : K) (v : V) (xs : List (K × V)) → o.cmp a k ≡ gt → lookup ((a, v) ∷ xs) k ≡ none
  unfolding lookup
  lookup-above a k v xs e = ground arith

  -- a key that is not above the head is not among the rest
  pub not_in_tail :
      (a k : K) (xs : List (K × V)) → o.cmp a k ≢ lt → IsAbove a xs → lookup xs k ≡ none
  not_in_tail a k xs h s =
      ground
        (arith, lookup-IsAbove xs k, IsAbove-congr xs a k, IsAbove-trans k a xs, o.lt_of_gt a k)

  heads_equal :
      (a b : K) (v w : V) (xs ys : List (K × V))
      → ((k : K) → lookup ((a, v) ∷ xs) k ≡ lookup ((b, w) ∷ ys) k)
      → o.cmp a b ≡ eq
  heads_equal a b v w xs ys h = go (o.cmp a b) refl
    where
      go : (c : Ordering) → o.cmp a b ≡ c → o.cmp a b ≡ eq
      go eq e = e
      go lt e = absurd (
          ground
            (arith, h a, lookup-head a a v xs, o.cmp_refl a, lookup-above b a w ys, o.gt_of_lt a b))
      go gt e =
          absurd (ground (arith, h b, lookup-head b b w ys, o.cmp_refl b, lookup-above a b v xs))

  tails_agree :
      (a b k : K) (v w : V) (xs ys : List (K × V))
      → o.cmp a b ≡ eq
      → IsAbove a xs
      → IsAbove b ys
      → ((j : K) → lookup ((a, v) ∷ xs) j ≡ lookup ((b, w) ∷ ys) j)
      → lookup xs k ≡ lookup ys k
  tails_agree a b k v w xs ys e s t h = ground (
    arith,
    h k,
    o.eq_left a b k e,
    lookup-tail a k v xs,
    lookup-tail b k w ys,
    not_in_tail a k xs,
    not_in_tail b k ys,
  )

  -- Sorted lists that hold the same values are the same entries.
  pub SameEntries-of_lookup :
      (xs ys : List (K × V))
      → IsSorted xs
      → IsSorted ys
      → ((k : K) → lookup xs k ≡ lookup ys k)
      → SameEntries xs ys
  unfolding lookup
  SameEntries-of_lookup [] [] s t h = tt
  SameEntries-of_lookup [] ((b, w) ∷ ys) s t h = absurd (ground (arith, h b, o.cmp_refl b))
  SameEntries-of_lookup ((a, v) ∷ xs) [] s t h = absurd (ground (arith, h a, o.cmp_refl a))
  SameEntries-of_lookup ((a, v) ∷ xs) ((b, w) ∷ ys) s t h =
      let e = heads_equal a b v w xs ys h in
      (
        e,
        some_inj v w (sym (lookup-head a b v xs e) ∙ h b ∙ lookup-head b b w ys (o.cmp_refl b)),
        SameEntries-of_lookup xs ys s.1 t.1 (λ k. tails_agree a b k v w xs ys e s.0 t.0 h),
      )

  pub length-SameEntries : (xs ys : List (K × V)) → SameEntries xs ys → length xs ≡ length ys
  length-SameEntries [] [] s = refl
  length-SameEntries [] (y ∷ ys) s = absurd (cc)
  length-SameEntries (x ∷ xs) [] s = absurd (cc)
  length-SameEntries (x ∷ xs) (y ∷ ys) s = ap suc (length-SameEntries xs ys s.2)
