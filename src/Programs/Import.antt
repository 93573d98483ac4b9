-- ===== src/Programs/Import.antt =====
-- examples/bulkimport/main.go: the loops that insert keys and read them back. The timing, the memory
-- statistics and the shuffle of math/rand have no part here: the keys are a list in any order.
pub mod Laws
use fractaltree.Prelude.{ℕ, zero, suc, ◌+◌, Option, none, some, List, [], ◌∷◌}
use fractaltree.Order.{Ord}
use fractaltree.Message.{Zero}
use fractaltree.Tree.{BeTree, get, put_key}

-- `keys[i] = i` for each index from `i` on
abbrev pub first_keys : ℕ → ℕ → List ℕ
first_keys i zero = []
first_keys i (suc n) = i ∷ first_keys (suc i) n

module _ {ℓ} {K : Type ℓ} ⦃z : Zero K⦄ ⦃o : Ord K⦄ where
  -- `for _, k := range keys { t2.Put(k, k) }`
  unfoldable pub import_keys : BeTree K K → List K → BeTree K K
  unfolding put_key
  import_keys t [] = t
  import_keys t (k ∷ ks) = import_keys (put_key t k k) ks

  -- the loop of the point reads, with `hits`
  unfoldable pub count_hits : BeTree K K → List K → ℕ → ℕ
  unfolding get
  count_hits t [] hits = hits
  count_hits t (k ∷ ks) hits = elim (get t k) [
    | none ↦ count_hits t ks hits
    | some v ↦ count_hits t ks (hits + 1)
  ]

module _ ⦃z : Zero ℕ⦄ ⦃o : Ord ℕ⦄ where
  -- `for i := range n { t1.Put(i, i) }` from `i` on
  unfoldable pub import_range : BeTree ℕ ℕ → ℕ → ℕ → BeTree ℕ ℕ
  unfolding put_key
  import_range t i zero = t
  import_range t i (suc n) = import_range (put_key t i i) (suc i) n
