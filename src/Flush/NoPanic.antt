-- ===== src/Flush/NoPanic.antt =====
-- flush.go, flushNode with splitChild: a child that is split has what the split reads.
use fractaltree.Prelude.{
  ℕ, zero, suc, ◌/◌, ◌<◌, ◌≡◌, refl, true, Option, some, List, [], ◌∷◌, arith, is_some, length,
  get_elem?, drop,
}
use fractaltree.Order.{Ord}
use fractaltree.Node.{Node, leaf, internal}
use fractaltree.Ordered.{IsOrdered}
use fractaltree.Split.{split_node}
use fractaltree.Flush.{TreeParams, is_overfull}
use fractaltree.Flush.Eval.{num_children-length}

module _ {ℓ} {A : Type ℓ} where
  length-drop_pos : (n : ℕ) (xs : List A) → n < length xs → 0 < length (drop n xs)
  length-drop_pos n [] h = absurd (omega arith)
  length-drop_pos zero (x ∷ xs) h = omega arith
  length-drop_pos (suc n) (x ∷ xs) h = length-drop_pos n xs (omega arith)

  is_some-get_elem? : (n : ℕ) (xs : List A) → n < length xs → is_some (get_elem? xs n) ≡ true
  is_some-get_elem? n [] h = absurd (omega arith)
  is_some-get_elem? zero (x ∷ xs) h = refl
  is_some-get_elem? (suc n) (x ∷ xs) h = is_some-get_elem? n xs (omega arith)

module _ {ℓ κ} {K : Type ℓ} {V : Type κ} ⦃o : Ord K⦄ where
  -- A child of an ordered tree that exceeds its bound, the leaf capacity or a positive fanout, can be
  -- split: the split reads no pivot or key out of range.
  pub split_node-overfull :
      (params : TreeParams) (n : Node K V) (lo hi : Option K)
      → 0 < params.fanout
      → IsOrdered lo hi n
      → is_overfull params (some n) ≡ true
      → is_some (split_node n) ≡ true
  unfolding split_node IsOrdered
  split_node-overfull params (leaf es) lo hi f a h =
      ground (arith, length-drop_pos (length es / 2) es)
  split_node-overfull params (internal ps cs buf s) lo hi f a h =
      ground (arith, num_children-length lo hi ps cs a.2, is_some-get_elem? (length ps / 2) ps)
