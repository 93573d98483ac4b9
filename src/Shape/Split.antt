-- ===== src/Shape/Split.antt =====
-- flush.go, splitChild and splitRoot: the halves of a node with one child too many have the shape.
use fractaltree.Prelude.{
  ℕ, zero, suc, ◌-◌, ◌/◌, ◌≤◌, ◌≡◌, Option, none, some, List, arith, length, get_elem?, take, drop,
  select, not,
}
use fractaltree.Order.{Ord, is_lt}
use fractaltree.Message.{key_of}
use fractaltree.Node.{
  Node, leaf, internal, Children, nil, cons, num_children, take_children, drop_children,
}
use fractaltree.Ordered.{IsOrdered}
use fractaltree.Split.{split_leaf, split_internal, split_node}
use fractaltree.Flush.Eval.{num_children-length}
use fractaltree.Shape.{IsShaped, AreShaped, IsWide}

module _ {ℓ κ} {K : Type ℓ} {V : Type κ} where
  num_children-take : (n : ℕ) (cs : Children K V) → num_children (take_children n cs) ≤ n
  num_children-take zero cs = omega arith
  num_children-take (suc n) nil = omega arith
  num_children-take (suc n) (cons c cs) = omega (arith, num_children-take n cs)

  num_children-drop :
      (n : ℕ) (cs : Children K V) → num_children (drop_children n cs) ≡ num_children cs - n
  num_children-drop zero cs = omega arith
  num_children-drop (suc n) nil = omega arith
  num_children-drop (suc n) (cons c cs) = omega (arith, num_children-drop n cs)

module _ {ℓ κ} {K : Type ℓ} {V : Type κ} (fanout : ℕ) where
  cut_shape :
      (d n : ℕ) (cs : Children K V)
      → AreShaped fanout d cs
      → AreShaped fanout d (take_children n cs) × AreShaped fanout d (drop_children n cs)
  unfolding IsShaped
  cut_shape d zero cs h = (tt, h)
  cut_shape d (suc n) nil h = (tt, tt)
  cut_shape d (suc n) (cons c cs) h = let r = cut_shape d n cs h.1 in ((h.0, r.0), r.1)

  -- what a split that does not panic gives
  abbrev pub Halves : ℕ → Option (Node K V × K × Node K V) → Type 0
  Halves d none = Unit
  Halves d (some (left, p, right)) = IsShaped fanout d left × IsShaped fanout d right

  split_leaf-Halves : (es : List (K × V)) → Halves 0 (split_leaf es)
  unfolding split_leaf IsShaped
  split_leaf-Halves es = ground arith

module _ {ℓ κ} {K : Type ℓ} {V : Type κ} ⦃o : Ord K⦄ (fanout : ℕ) where
  pub split_node-Halves :
      (d : ℕ) (n : Node K V) (lo hi : Option K)
      → 2 ≤ fanout
      → IsOrdered lo hi n
      → IsWide fanout d n
      → Halves fanout d (split_node n)
  unfolding split_node split_internal IsOrdered IsShaped IsWide
  split_node-Halves zero (leaf es) lo hi f a h = split_leaf-Halves fanout es
  split_node-Halves (suc d) (leaf es) lo hi f a h = absurd h
  split_node-Halves zero (internal ps cs buf s) lo hi f a h = absurd h
  split_node-Halves (suc d) (internal ps cs buf s) lo hi f a h = go (get_elem? ps (length ps / 2))
    where
      mid : ℕ
      mid = length ps / 2

      go :
          (p : Option K)
          → Halves fanout (suc d) (elim p [
            | none ↦ none
            | some pivot ↦ some (
              internal
                  (take mid ps)
                  (take_children (suc mid) cs)
                  (select (λ m. is_lt (o.cmp (key_of m) pivot)) buf)
                  s,
              pivot,
              internal
                  (drop (suc mid) ps)
                  (drop_children (suc mid) cs)
                  (select (λ m. not (is_lt (o.cmp (key_of m) pivot))) buf)
                  s,
            )
          ])
      go none = tt
      go (some p) =
          let r = cut_shape fanout d (suc mid) cs h.1 in
          let count = num_children-length lo hi ps cs a.2 in
          (
            (omega (arith, num_children-take (suc mid) cs, count), r.0),
            (omega (arith, num_children-drop (suc mid) cs, count), r.1),
          )
