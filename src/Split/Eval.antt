-- ===== src/Split/Eval.antt =====
-- Splitting keeps the value at every key and the order of the tree.
use fractaltree.Prelude.{
  ℕ, zero, suc, ◌≡◌, sym, subst, Option, none, some, List, [], ◌∷◌, arith, All-take, All-drop,
  if◌then◌else◌, get_elem?, take, drop,
}
use mathlib.Core.Option.{some-injective}
use fractaltree.Order.{Ord, ◌≺◌, is_le, le_trans}
use fractaltree.Node.{Node, leaf, Children, nil, cons, take_children, drop_children}
use fractaltree.Node.Entries.{lookup, AllKeys, IsAbove, IsSorted}
use fractaltree.Ordered.{InRange, InSpan, IsOrdered, AreOrdered, eval, eval_at}
use fractaltree.Ordered.Route.{IsAtLeast-trans, IsLess-IsAtMost}

module _ {ℓ κ} {K : Type ℓ} {V : Type κ} ⦃o : Ord K⦄ where
  -- the two halves hold what the whole held, parted by the pivot
  pub record IsSplit (lo hi : Option K) (n left : Node K V) (p : K) (right : Node K V)
      : Type (ℓ ⊔ κ) where
    pub span : InSpan lo hi p
    pub lower : IsOrdered lo (some p) left
    pub upper : IsOrdered (some p) hi right
    pub value : (k : K) → eval n k ≡ (if is_le (o.cmp p k) then eval right k else eval left k)

  below_pivot :
      (lo hi : Option K) (p : K) (es : List (K × V))
      → AllKeys (InRange lo hi) es
      → AllKeys (λ a. a ≺ p) es
      → AllKeys (InRange lo (some p)) es
  below_pivot lo hi p [] a b = tt
  below_pivot lo hi p (e ∷ es) a b = ((a.0.0, b.0), below_pivot lo hi p es a.1 b.1)

  above_pivot :
      (lo hi : Option K) (p : K) (es : List (K × V))
      → AllKeys (InRange lo hi) es
      → IsAbove p es
      → AllKeys (InRange (some p) hi) es
  above_pivot lo hi p [] a b = tt
  above_pivot lo hi p (e ∷ es) a b = ((λ g. cc, a.0.1), above_pivot lo hi p es a.1 b.1)

  take-below :
      (n : ℕ) (es : List (K × V)) (e : K × V) (rest : List (K × V))
      → IsSorted es
      → drop n es ≡ e ∷ rest
      → AllKeys (λ a. a ≺ e.0) (take n es) × IsSorted (take n es) × IsSorted (e ∷ rest)
  take-below zero es e rest s h = (tt, tt, subst IsSorted h s)
  take-below (suc n) [] e rest s h = cc
  take-below (suc n) (a ∷ es) e rest s h =
      let r = take-below n es e rest s.1 h in
      let above : IsAbove a.0 (e ∷ rest) =
        subst (IsAbove a.0) h (All-drop (λ x. a.0 ≺ x.0) n es s.0) in
      ((above.0, r.0), (All-take (λ x. a.0 ≺ x.0) n es s.0, r.1), r.2)

  lookup_cut :
      (n : ℕ) (es : List (K × V)) (e : K × V) (rest : List (K × V)) (k : K)
      → IsSorted es
      → drop n es ≡ e ∷ rest
      → lookup es k ≡ (if is_le (o.cmp e.0 k) then lookup (e ∷ rest) k else lookup (take n es) k)
  unfolding lookup
  lookup_cut zero es e rest k s h =
      subst (λ x. lookup x k ≡ (if is_le (o.cmp e.0 k) then lookup (e ∷ rest) k else none)) (sym h)
        (ground arith)
  lookup_cut (suc n) [] e rest k s h = cc
  lookup_cut (suc n) ((a, v) ∷ es) e rest k s h =
      let above : IsAbove a (e ∷ rest) = subst (IsAbove a) h (All-drop (λ x. a ≺ x.0) n es s.0) in
      ground (
        arith,
        lookup_cut n es e rest k s.1 h,
        above.0,
        o.eq_left a k e.0,
        o.gt_of_lt k e.0,
        o.lt_of_gt a k,
        o.lt_trans k a e.0,
      )

  pub leaf_halves :
      (lo hi : Option K) (es : List (K × V)) (n : ℕ) (e : K × V) (rest : List (K × V))
      → IsOrdered lo hi (leaf es)
      → drop n es ≡ e ∷ rest
      → IsSplit lo hi (leaf es) (leaf (take n es)) e.0 (leaf (e ∷ rest))
  unfolding IsOrdered eval
  leaf_halves lo hi es n e rest a h =
      let parts = take-below n es e rest a.1 h in
      let above : AllKeys (InRange lo hi) (e ∷ rest) =
        subst (AllKeys (InRange lo hi)) h (All-drop (λ x. InRange lo hi x.0) n es a.0) in
      record {
        span = (above.0.0, IsLess-IsAtMost hi e.0 above.0.1);
        lower = (
          below_pivot lo hi e.0 (take n es) (All-take (λ x. InRange lo hi x.0) n es a.0) parts.0,
          parts.1,
        );
        upper = (
          (
            (λ g. ground (arith, o.cmp_refl e.0), above.0.1),
            above_pivot lo hi e.0 rest above.1 parts.2.0,
          ),
          parts.2,
        );
        value = λ k. lookup_cut n es e rest k a.1 h;
      }

  -- what a cut of the pivots and children at a pivot gives
  pub record IsCut (lo hi : Option K) (ps : List K) (cs : Children K V) (n : ℕ) (p : K)
      : Type (ℓ ⊔ κ) where
    pub span : InSpan lo hi p
    pub lower : AreOrdered lo (some p) (take n ps) (take_children (suc n) cs)
    pub upper : AreOrdered (some p) hi (drop (suc n) ps) (drop_children (suc n) cs)
    pub value :
        (k : K)
        → eval_at ps cs k ≡ (
            if is_le (o.cmp p k)
            then eval_at (drop (suc n) ps) (drop_children (suc n) cs) k
            else eval_at (take n ps) (take_children (suc n) cs) k)

  pivot_at_first :
      (lo hi : Option K) (q : K) (ps : List K) (c : Node K V) (cs : Children K V)
      → AreOrdered lo hi (q ∷ ps) (cons c cs)
      → IsCut lo hi (q ∷ ps) (cons c cs) 0 q
  unfolding AreOrdered eval
  pivot_at_first lo hi q ps c cs a = record {
    span = a.0;
    lower = a.1;
    upper = a.2;
    value = λ k. ground arith;
  }

  pivot_at_later :
      (lo hi : Option K) (q : K) (ps : List K) (c : Node K V) (cs : Children K V) (n : ℕ) (p : K)
      → AreOrdered lo hi (q ∷ ps) (cons c cs)
      → IsCut (some q) hi ps cs n p
      → IsCut lo hi (q ∷ ps) (cons c cs) (suc n) p
  unfolding AreOrdered eval
  pivot_at_later lo hi q ps c cs n p a r = record {
    span = (IsAtLeast-trans lo q p a.0.0 r.span.0, r.span.1);
    lower = ((a.0.0, r.span.0), a.1, r.lower);
    upper = r.upper;
    value = λ k. ground (arith, r.value k, le_trans q p k r.span.0);
  }

  pub cut :
      (n : ℕ) (lo hi : Option K) (ps : List K) (cs : Children K V) (p : K)
      → AreOrdered lo hi ps cs
      → get_elem? ps n ≡ some p
      → IsCut lo hi ps cs n p
  unfolding AreOrdered
  cut n lo hi [] cs p a h = cc
  cut n lo hi (q ∷ ps) nil p a h = absurd a
  cut zero lo hi (q ∷ ps) (cons c cs) p a h =
      subst (IsCut lo hi (q ∷ ps) (cons c cs) 0) (some-injective q p h)
        (pivot_at_first lo hi q ps c cs a)
  cut (suc n) lo hi (q ∷ ps) (cons c cs) p a h =
      pivot_at_later lo hi q ps c cs n p a (cut n (some q) hi ps cs p a.2 h)
