-- ===== src/Shape/Flush.antt =====
-- flush.go, flushNode: a flush splits the one child that may have come to have a child too many.
use mathlib.Core.Option.{some-injective}
use fractaltree.Prelude.{
  ℕ, zero, suc, ◌≤◌, ◌≡◌, refl, ap, sym, subst, ◌∙◌, true, false, Option, none, some, List, arith,
  is_some, Bool-cases, inl, inr,
}
use fractaltree.Order.{Ord}
use fractaltree.Message.{Message}
use fractaltree.Node.{
  Node, leaf, internal, Children, nil, cons, num_children, child_at, set_child, insert_child,
}
use fractaltree.Ordered.{AreOrdered}
use fractaltree.Ordered.Route.{child_at-IsOrdered}
use fractaltree.Split.{split_node, split_option, insert_split, split_child}
use fractaltree.Flush.{TreeParams, is_overfull, finish_flush}
use fractaltree.Flush.NoPanic.{split_node-overfull}
use fractaltree.Shape.{IsShaped, AreShaped, IsWide, AreWideAt}
use fractaltree.Shape.Split.{Halves, split_node-Halves}

module _ {ℓ κ} {K : Type ℓ} {V : Type κ} (fanout d : ℕ) where
  insert_shaped :
      (cs : Children K V) (i : ℕ) (left right : Node K V)
      → is_some (child_at cs i) ≡ true
      → AreWideAt fanout d i cs
      → IsShaped fanout d left
      → IsShaped fanout d right
      → AreShaped fanout d (insert_child (set_child cs i left) (suc i) right)
        × (num_children (insert_child (set_child cs i left) (suc i) right) ≡ suc (num_children cs))
  unfolding IsShaped AreWideAt
  insert_shaped nil i left right e w l r = cc
  insert_shaped (cons c cs) zero left right e w l r = ((l, (r, w.1)), refl)
  insert_shaped (cons c cs) (suc i) left right e w l r =
      let t = insert_shaped cs i left right e w.1 l r in ((w.0, t.0), ap suc t.1)

  overfull_child :
      (cs : Children K V) (i : ℕ) (c : Node K V)
      → AreWideAt fanout d i cs
      → child_at cs i ≡ some c
      → IsWide fanout d c
  unfolding AreWideAt
  overfull_child nil i c w e = cc
  overfull_child (cons b cs) zero c w e = subst (IsWide fanout d) (some-injective b c e) w.0
  overfull_child (cons b cs) (suc i) c w e = overfull_child cs i c w.1 e

module _ {ℓ κ} {K : Type ℓ} {V : Type κ} where
  pub within_fanout : (fanout d : ℕ) (n : Node K V) → IsShaped fanout d n → IsWide fanout d n
  unfolding IsShaped IsWide
  within_fanout fanout zero (leaf es) h = tt
  within_fanout fanout (suc d) (leaf es) h = absurd h
  within_fanout fanout zero (internal ps cs buf s) h = absurd h
  within_fanout fanout (suc d) (internal ps cs buf s) h = (omega (arith, h.0), h.1)

module _ {ℓ κ} {K : Type ℓ} {V : Type κ} ⦃o : Ord K⦄ where
  -- a node that is not overfull has no child too many
  pub not_overfull :
      (params : TreeParams) (d : ℕ) (n : Node K V)
      → is_overfull params (some n) ≡ false
      → IsWide params.fanout d n
      → IsShaped params.fanout d n
  unfolding IsShaped IsWide
  not_overfull params zero (leaf es) e h = tt
  not_overfull params (suc d) (leaf es) e h = absurd h
  not_overfull params zero (internal ps cs buf s) e h = absurd h
  not_overfull params (suc d) (internal ps cs buf s) e h = (ground arith, h.1)

  none_overfull :
      (params : TreeParams) (d i : ℕ) (cs : Children K V)
      → is_overfull params (child_at cs i) ≡ false
      → AreWideAt params.fanout d i cs
      → AreShaped params.fanout d cs
  unfolding IsShaped AreWideAt
  none_overfull params d i nil e h = tt
  none_overfull params d zero (cons c cs) e h = (not_overfull params d c e h.0, h.1)
  none_overfull params d (suc i) (cons c cs) e h = (h.0, none_overfull params d i cs e h.1)

module _ {ℓ κ} {K : Type ℓ} {V : Type κ} ⦃o : Ord K⦄ (params : TreeParams)
    (two : 2 ≤ params.fanout) where
  -- the split of an overfull child
  pub split_child-AreShaped :
      (ps : List K) (cs : Children K V) (lo hi : Option K) (d i : ℕ)
      → AreOrdered lo hi ps cs
      → AreWideAt params.fanout d i cs
      → is_overfull params (child_at cs i) ≡ true
      → AreShaped params.fanout d (split_child ps cs i).1
        × (num_children (split_child ps cs i).1 ≡ suc (num_children cs))
  unfolding split_child
  split_child-AreShaped ps cs lo hi d i a w full = at_child (child_at cs i) refl
    where
      halves :
          (r : Option (Node K V × K × Node K V))
          → is_some (child_at cs i) ≡ true
          → is_some r ≡ true
          → Halves params.fanout d r
          → AreShaped params.fanout d (insert_split ps cs i r).1
            × (num_children (insert_split ps cs i r).1 ≡ suc (num_children cs))
      halves none e g h = cc
      halves (some (left, p, right)) e g h =
          insert_shaped params.fanout d cs i left right e w h.0 h.1

      at_child :
          (c : Option (Node K V))
          → child_at cs i ≡ c
          → AreShaped params.fanout d (insert_split ps cs i (split_option c)).1
            × (num_children (insert_split ps cs i (split_option c)).1 ≡ suc (num_children cs))
      at_child none e = absurd (ground arith)
      at_child (some c) e =
          let (lo', hi', b) = child_at-IsOrdered cs ps lo hi i c a e in
          let full_child : is_overfull params (some c) ≡ true =
            ap (is_overfull params) (sym e) ∙ full in
          halves (split_node c) (ap is_some e)
            (split_node-overfull params c lo' hi' (omega (arith, two)) b full_child)
            (split_node-Halves params.fanout d c lo' hi' two b
              (overfull_child params.fanout d cs i c w e))

  pub finish_flush-IsWide :
      (lo hi : Option K) (ps : List K) (cs : Children K V) (buf : List (Message K V)) (d h : ℕ)
      → AreOrdered lo hi ps cs
      → AreWideAt params.fanout d h cs
      → num_children cs ≤ params.fanout
      → IsWide params.fanout (suc d) (finish_flush params ps cs buf h)
  unfolding finish_flush IsWide
  finish_flush-IsWide lo hi ps cs buf d h a w l =
      elim (Bool-cases (is_overfull params (child_at cs h))) [
        | inl e ↦
            let s = split_child-AreShaped ps cs lo hi d h a w e in rw e (omega (arith, s.1), s.0)
        | inr e ↦ rw e (omega arith, none_overfull params d h cs e w)
      ]
