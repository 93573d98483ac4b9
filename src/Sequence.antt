-- ===== src/Sequence.antt =====
-- iterator.go, the sequences of All, Ascend, Descend, Range and DescendRange, and the cursor's snapshot
-- in tree.go. `yield` is the body of the caller's loop: it changes the caller's state, and says whether
-- the loop goes on. A sequence runs over the pairs of the tree it was made from.
pub mod Laws
use fractaltree.Prelude.{
  ℕ, zero, suc, Bool, false, Option, none, some, List, [], ◌∷◌, if◌then◌else◌, length, get_elem?,
}
use fractaltree.Order.{Ord}
use fractaltree.Message.{Zero}
use fractaltree.Iterator.{materialize_all, materialize_range, materialize_descend_range}
use fractaltree.Tree.{BeTree}
use fractaltree.Cursor.{Cursor, cursor_of}

-- the function that a sequence is given, and `iter.Seq2` over a caller's state
abbrev pub Yield {ℓ κ μ} : Type ℓ → Type κ → Type μ → Type (ℓ ⊔ κ ⊔ μ)
Yield K V S = K → V → S → S × Bool

abbrev pub Seq2 {ℓ κ μ} : Type ℓ → Type κ → Type μ → Type (ℓ ⊔ κ ⊔ μ)
Seq2 K V S = Yield K V S → S → S

module _ {ℓ κ μ} {K : Type ℓ} {V : Type κ} {S : Type μ} where
  -- the loop over the pairs, which ends when `yield` returns false
  unfoldable pub visit : List (K × V) → Seq2 K V S
  visit [] yield s = s
  visit (p ∷ ps) yield s =
      let (s', more) = yield p.0 p.1 s in let rest = visit ps yield s' in if more then rest else s'

  -- the loop on `i` from the last pair to the first; it reads no index past the end
  unfoldable pub visit_down : List (K × V) → ℕ → Seq2 K V S
  visit_down ps zero yield s = s
  visit_down ps (suc i) yield s = elim (get_elem? ps i) [
    | none ↦ s
    | some p ↦
        let (s', more) = yield p.0 p.1 s in
        let rest = visit_down ps i yield s' in if more then rest else s'
  ]

module _ {ℓ κ μ} {K : Type ℓ} {V : Type κ} {S : Type μ} ⦃o : Ord K⦄ where
  unfoldable pub all : BeTree K V → Seq2 K V S
  unfolding visit materialize_all
  all t = visit (materialize_all t.root)

  unfoldable pub ascend : BeTree K V → Seq2 K V S
  unfolding all
  ascend t = all t

  unfoldable pub descend : BeTree K V → Seq2 K V S
  unfolding visit_down materialize_all
  descend t = let pairs = materialize_all t.root in visit_down pairs (length pairs)

  unfoldable pub range : BeTree K V → K → K → Seq2 K V S
  unfolding visit materialize_range
  range t lo hi = visit (materialize_range t.root lo hi)

  unfoldable pub descend_range : BeTree K V → K → K → Seq2 K V S
  unfolding visit_down materialize_descend_range
  descend_range t hi lo =
      let pairs = materialize_descend_range t.root hi lo in visit_down pairs (length pairs)

module _ {ℓ κ} {K : Type ℓ} {V : Type κ} ⦃o : Ord K⦄ where
  -- the method `Cursor` of the tree
  unfoldable pub cursor : BeTree K V → Cursor K V
  unfolding materialize_all
  cursor t = cursor_of (materialize_all t.root)
