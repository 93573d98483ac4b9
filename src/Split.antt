-- ===== src/Split.antt =====
-- flush.go, splitLeafChild, splitInternalChild, splitChild and splitRoot.
pub mod Eval
pub mod Child
use fractaltree.Prelude.{
  ℕ, zero, suc, ◌+◌, ◌/◌, Bool, true, false, not, Option, none, some, List, [], ◌∷◌, length,
  get_elem?, take, drop, insert_at, select,
}
use fractaltree.Order.{Ord, is_lt}
use fractaltree.Message.{Message, key_of}
use fractaltree.Node.{
  Node, leaf, internal, Children, nil, cons, child_at, set_child, insert_child, take_children,
  drop_children,
}

module _ {ℓ κ} {K : Type ℓ} {V : Type κ} where
  -- `splitLeafChild` on the child: the left half, the pivot and the right half. `none` is the panic
  -- of `right.keys[0]` on an empty right half.
  unfoldable pub split_leaf : List (K × V) → Option (Node K V × K × Node K V)
  split_leaf es =
      let mid = length es / 2 in
      elim (drop mid es) [
        | [] ↦ none
        | e ∷ right ↦ some (leaf (take mid es), e.0, leaf (e ∷ right))
      ]

module _ {ℓ κ} {K : Type ℓ} {V : Type κ} ⦃o : Ord K⦄ where
  -- `splitInternalChild` on the child. `none` is the panic of `child.pivots[mid]` without pivots.
  unfoldable pub split_internal :
      List K → Children K V → List (Message K V) → Bool → Option (Node K V × K × Node K V)
  split_internal ps cs buf is_sorted =
      let mid = length ps / 2 in
      elim (get_elem? ps mid) [
        | none ↦ none
        | some pivot ↦ some (
          internal (take mid ps) (take_children (suc mid) cs)
              (select (λ m. is_lt (o.cmp (key_of m) pivot)) buf) is_sorted,
          pivot,
          internal (drop (suc mid) ps) (drop_children (suc mid) cs)
              (select (λ m. not (is_lt (o.cmp (key_of m) pivot))) buf) is_sorted,
        )
      ]

  unfoldable pub split_node : Node K V → Option (Node K V × K × Node K V)
  unfolding split_leaf split_internal
  split_node (leaf es) = split_leaf es
  split_node (internal ps cs buf is_sorted) = split_internal ps cs buf is_sorted

  -- the parent's pivots and children after `splitChild(parent, i)`; a panic leaves them
  abbrev pub insert_split :
      List K → Children K V → ℕ → Option (Node K V × K × Node K V) → List K × Children K V
  insert_split ps cs i none = (ps, cs)
  insert_split ps cs i (some (left, pivot, right)) =
      (insert_at ps i pivot, insert_child (set_child cs i left) (suc i) right)

  abbrev pub split_option : Option (Node K V) → Option (Node K V × K × Node K V)
  split_option none = none
  split_option (some child) = split_node child

  unfoldable pub split_child : List K → Children K V → ℕ → List K × Children K V
  unfolding split_node
  split_child ps cs i = insert_split ps cs i (split_option (child_at cs i))

  -- the new root, with an empty buffer
  unfoldable pub split_root : Node K V → Node K V
  unfolding split_child
  split_root root = let (ps, cs) = split_child [] (cons root nil) 0 in internal ps cs [] false
