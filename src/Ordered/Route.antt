-- ===== src/Ordered/Route.antt =====
-- node.go, findChildIndex: on the pivots of an ordered node the binary search counts the pivots up
-- to the key.
use mathlib.Core.Option.{some-injective}
use fractaltree.Prelude.{
  ℕ, zero, suc, subst, ◌≡◌, false, Option, none, some, List, [], ◌∷◌, All, arith,
}
use fractaltree.Order.{Ord, ◌≺◌, ◌≼◌, is_le, le_trans, le_lt_trans, lt_le_trans}
use fractaltree.Search.{binary_search_lem, prefix_count, IsPartitioned}
use fractaltree.Node.{Node, Children, nil, cons, child_at, find_child_index}
use fractaltree.Ordered.{IsAtLeast, IsLess, IsAtMost, InSpan, IsOrdered, AreOrdered}

module _ {ℓ} {K : Type ℓ} ⦃o : Ord K⦄ where
  -- the pivots up to a key
  abbrev pub route : List K → K → ℕ
  route ps k = prefix_count (λ p. is_le (o.cmp p k)) ps

  pub IsAtLeast-trans : (lo : Option K) (p q : K) → IsAtLeast lo p → p ≼ q → IsAtLeast lo q
  IsAtLeast-trans none p q a h = tt
  IsAtLeast-trans (some l) p q a h = le_trans l p q a h

  pub IsLess-trans : (hi : Option K) (p q : K) → p ≼ q → IsLess q hi → IsLess p hi
  IsLess-trans none p q h a = tt
  IsLess-trans (some l) p q h a = le_lt_trans p q l h a

  pub IsAtMost-trans : (hi : Option K) (p q : K) → p ≼ q → IsAtMost q hi → IsAtMost p hi
  IsAtMost-trans none p q h a = tt
  IsAtMost-trans (some l) p q h a = le_trans p q l h a

  pub IsLess-IsAtMost : (hi : Option K) (p : K) → IsLess p hi → IsAtMost p hi
  IsLess-IsAtMost none p a = tt
  IsLess-IsAtMost (some l) p a = λ g. cc

  pub lt-IsLess : (hi : Option K) (p q : K) → p ≺ q → IsAtMost q hi → IsLess p hi
  lt-IsLess none p q h a = tt
  lt-IsLess (some l) p q h a = lt_le_trans p q l h a

  InSpan-lower :
      (lo hi : Option K) (p : K) (ks : List K)
      → IsAtLeast lo p
      → All (InSpan (some p) hi) ks
      → All (InSpan lo hi) ks
  InSpan-lower lo hi p [] a b = tt
  InSpan-lower lo hi p (q ∷ ks) a b =
      ((IsAtLeast-trans lo p q a b.0.0, b.0.1), InSpan-lower lo hi p ks a b.1)

  above_pivot :
      (p k : K) (hi : Option K) (ps : List K)
      → is_le (o.cmp p k) ≡ false
      → All (InSpan (some p) hi) ps
      → All (λ q. is_le (o.cmp q k) ≡ false) ps
  above_pivot p k hi [] h a = tt
  above_pivot p k hi (q ∷ ps) h a =
      (ground (arith, le_trans p q k a.0.0), above_pivot p k hi ps h a.1)

module _ {ℓ κ} {K : Type ℓ} {V : Type κ} ⦃o : Ord K⦄ where
  -- every pivot lies within the bounds of its node
  pub pivots-InSpan :
      (lo hi : Option K) (ps : List K) (cs : Children K V)
      → AreOrdered lo hi ps cs
      → All (InSpan lo hi) ps
  unfolding AreOrdered
  pivots-InSpan lo hi [] cs a = tt
  pivots-InSpan lo hi (p ∷ ps) nil a = absurd a
  pivots-InSpan lo hi (p ∷ ps) (cons c cs) a =
      (a.0, InSpan-lower lo hi p ps a.0.0 (pivots-InSpan (some p) hi ps cs a.2))

  pivots-IsPartitioned :
      (lo hi : Option K) (ps : List K) (cs : Children K V) (k : K)
      → AreOrdered lo hi ps cs
      → IsPartitioned (λ p. is_le (o.cmp p k)) ps
  unfolding AreOrdered
  pivots-IsPartitioned lo hi [] cs k a = tt
  pivots-IsPartitioned lo hi (p ∷ ps) nil k a = absurd a
  pivots-IsPartitioned lo hi (p ∷ ps) (cons c cs) k a = (
    λ h. above_pivot p k hi ps h (pivots-InSpan (some p) hi ps cs a.2),
    pivots-IsPartitioned (some p) hi ps cs k a.2,
  )

  -- On an ordered node the binary search of the pivots returns how many pivots, from the first,
  -- are not above the key.
  pub find_child_index_lem :
      (lo hi : Option K) (ps : List K) (cs : Children K V) (k : K)
      → AreOrdered lo hi ps cs
      → find_child_index ps k ≡ route ps k
  unfolding find_child_index
  find_child_index_lem lo hi ps cs k a =
      binary_search_lem (λ p. is_le (o.cmp p k)) ps (pivots-IsPartitioned lo hi ps cs k a)

  -- a child lies between its own bounds
  pub child_at-IsOrdered :
      (cs : Children K V) (ps : List K) (lo hi : Option K) (i : ℕ) (c : Node K V)
      → AreOrdered lo hi ps cs
      → child_at cs i ≡ some c
      → (lo' : Option K) × (hi' : Option K) × IsOrdered lo' hi' c
  unfolding AreOrdered
  child_at-IsOrdered nil ps lo hi i c a e = absurd a
  child_at-IsOrdered (cons d (cons f cs)) [] lo hi i c a e = absurd a
  child_at-IsOrdered (cons d nil) [] lo hi zero c a e =
      (lo, hi, subst (IsOrdered lo hi) (some-injective d c e) a)
  child_at-IsOrdered (cons d nil) [] lo hi (suc i) c a e = cc
  child_at-IsOrdered (cons d cs) (p ∷ ps) lo hi zero c a e =
      (lo, some p, subst (IsOrdered lo (some p)) (some-injective d c e) a.1)
  child_at-IsOrdered (cons d cs) (p ∷ ps) lo hi (suc i) c a e =
      child_at-IsOrdered cs ps (some p) hi i c a.2 e
