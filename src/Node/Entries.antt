-- ===== src/Node/Entries.antt =====
-- Sorted entry lists as maps: the independent description that the leaf operations of node.go and
-- flush.go are compared with.
use fractaltree.Prelude.{
  ◌≡◌, refl, false, false, lt, eq, gt, Option, none, some, List, [], ◌∷◌, arith, All,
}
use fractaltree.Search.{IsPartitioned}
use fractaltree.Order.{is_lt, Ord, ◌≺◌, eq_right}

module _ {ℓ κ} {K : Type ℓ} {V : Type κ} ⦃o : Ord K⦄ where
  -- the value at a key
  unfoldable pub lookup : List (K × V) → K → Option V
  lookup [] k = none
  lookup ((a, v) ∷ es) k = elim (o.cmp a k) [ lt ↦ lookup es k | eq ↦ some v | gt ↦ none ]

  unfoldable pub put_entry : List (K × V) → K → V → List (K × V)
  put_entry [] k v = (k, v) ∷ []
  put_entry ((a, w) ∷ es) k v = elim (o.cmp a k) [
    | lt ↦ (a, w) ∷ put_entry es k v
    | eq ↦ (a, v) ∷ es
    | gt ↦ (k, v) ∷ (a, w) ∷ es
  ]

  unfoldable pub erase_entry : List (K × V) → K → List (K × V)
  erase_entry [] k = []
  erase_entry ((a, w) ∷ es) k = elim (o.cmp a k) [
    | lt ↦ (a, w) ∷ erase_entry es k
    | eq ↦ es
    | gt ↦ (a, w) ∷ es
  ]

  -- every key satisfies `P`
  abbrev pub AllKeys : (K → Type 0) → List (K × V) → Type 0
  AllKeys P es = All (λ e. P e.0) es

  -- every key is above `k`
  abbrev pub IsAbove : K → List (K × V) → Type 0
  IsAbove k es = AllKeys (λ a. k ≺ a) es

  -- strictly ascending keys
  abbrev pub IsSorted : List (K × V) → Type 0
  IsSorted [] = Unit
  IsSorted ((a, v) ∷ es) = IsAbove a es × IsSorted es

  pub IsAbove-trans : (j k : K) (es : List (K × V)) → j ≺ k → IsAbove k es → IsAbove j es
  IsAbove-trans j k [] h a = tt
  IsAbove-trans j k ((b, v) ∷ es) h a = (o.lt_trans j k b h a.0, IsAbove-trans j k es h a.1)

  pub IsAbove-congr : (es : List (K × V)) (j k : K) → o.cmp j k ≡ eq → IsAbove j es → IsAbove k es
  IsAbove-congr [] j k e a = tt
  IsAbove-congr ((b, v) ∷ es) j k e a =
      (ground (arith, o.eq_left j k b), IsAbove-congr es j k e a.1)

  not_lt-of_IsAbove :
      (es : List (K × V)) (a k : K)
      → is_lt (o.cmp a k) ≡ false
      → IsAbove a es
      → All (λ e. is_lt (o.cmp e.0 k) ≡ false) es
  not_lt-of_IsAbove [] a k h s = tt
  not_lt-of_IsAbove ((b, v) ∷ es) a k h s =
      (ground (arith, o.lt_trans a b k), not_lt-of_IsAbove es a k h s.1)

  -- below a key, then at or above it: what a binary search needs
  pub IsSorted-IsPartitioned :
      (es : List (K × V)) (k : K) → IsSorted es → IsPartitioned (λ e. is_lt (o.cmp e.0 k)) es
  IsSorted-IsPartitioned [] k s = tt
  IsSorted-IsPartitioned ((a, v) ∷ es) k s =
      (λ h. not_lt-of_IsAbove es a k h s.0, IsSorted-IsPartitioned es k s.1)

  pub put_entry-AllKeys :
      (P : K → Type 0) (es : List (K × V)) (k : K) (v : V)
      → P k
      → AllKeys P es
      → AllKeys P (put_entry es k v)
  unfolding put_entry
  put_entry-AllKeys P [] k v h a = (h, tt)
  put_entry-AllKeys P ((b, w) ∷ es) k v h a = ground (arith, put_entry-AllKeys P es k v h)

  pub erase_entry-AllKeys :
      (P : K → Type 0) (es : List (K × V)) (k : K) → AllKeys P es → AllKeys P (erase_entry es k)
  unfolding erase_entry
  erase_entry-AllKeys P [] k a = tt
  erase_entry-AllKeys P ((b, w) ∷ es) k a = ground (arith, erase_entry-AllKeys P es k)

  pub put_entry-IsSorted :
      (es : List (K × V)) (k : K) (v : V) → IsSorted es → IsSorted (put_entry es k v)
  unfolding put_entry
  put_entry-IsSorted [] k v s = (tt, tt)
  put_entry-IsSorted ((a, w) ∷ es) k v s = ground (
    arith,
    put_entry-IsSorted es k v,
    put_entry-AllKeys (λ b. a ≺ b) es k v,
    o.lt_of_gt a k,
    IsAbove-trans k a es,
  )

  pub erase_entry-IsSorted : (es : List (K × V)) (k : K) → IsSorted es → IsSorted (erase_entry es k)
  unfolding erase_entry
  erase_entry-IsSorted [] k s = tt
  erase_entry-IsSorted ((a, w) ∷ es) k s =
      ground (arith, erase_entry-IsSorted es k, erase_entry-AllKeys (λ b. a ≺ b) es k)

  pub lookup-IsAbove : (es : List (K × V)) (k : K) → IsAbove k es → lookup es k ≡ none
  unfolding lookup
  lookup-IsAbove [] k a = refl
  lookup-IsAbove ((b, v) ∷ es) k a = ground (arith, o.gt_of_lt k b a.0)

  -- keys that compare equal read alike
  pub lookup-congr : (es : List (K × V)) (j k : K) → o.cmp j k ≡ eq → lookup es j ≡ lookup es k
  unfolding lookup
  lookup-congr [] j k e = refl
  lookup-congr ((a, v) ∷ es) j k e = ground (arith, lookup-congr es j k e, eq_right j k a)

  pub lookup-put_entry :
      (es : List (K × V)) (k j : K) (v : V)
      → lookup (put_entry es k v) j ≡ (elim (o.cmp k j) [ eq ↦ some v | _ ↦ lookup es j ])
  unfolding lookup put_entry
  lookup-put_entry [] k j v = ground arith
  lookup-put_entry ((a, w) ∷ es) k j v = ground (
    arith,
    lookup-put_entry es k j v,
    o.eq_left a k j,
    o.lt_of_gt a k,
    o.gt_of_lt j a,
    o.lt_of_gt k j,
    o.lt_trans j k a,
    o.eq_left k j a,
    o.gt_of_lt k a,
    o.lt_trans a k j,
    eq_right k j a,
  )

  pub lookup-erase_entry :
      (es : List (K × V)) (k j : K)
      → IsSorted es
      → lookup (erase_entry es k) j ≡ (elim (o.cmp k j) [ eq ↦ none | _ ↦ lookup es j ])
  unfolding lookup erase_entry
  lookup-erase_entry [] k j s = ground arith
  lookup-erase_entry ((a, w) ∷ es) k j s = ground (
    arith,
    lookup-erase_entry es k j,
    o.eq_left a k j,
    o.lt_of_gt a k,
    o.lt_of_gt a j,
    o.lt_of_gt k j,
    o.gt_of_lt j a,
    o.gt_of_lt j k,
    o.eq_sym k j,
    o.eq_left k j a,
    o.gt_of_lt k a,
    o.lt_trans a k j,
    eq_right k j a,
    lookup-IsAbove es j,
    lookup-IsAbove es a s.0,
    IsAbove-trans j a es,
    lookup-congr es a j,
  )
