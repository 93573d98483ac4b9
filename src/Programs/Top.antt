-- ===== src/Programs/Top.antt =====
-- examples/leaderboard/main.go and examples/timeseries/main.go: the loops that count the pairs of an
-- iteration and break off at a number. The pairs printed are kept in a list.
pub mod Laws
use fractaltree.Prelude.{ℕ, ◌+◌, not, ◌==◌, List, [], ◌∷◌, ◌++◌}
use fractaltree.Order.{Ord}
use fractaltree.Tree.{BeTree}
use fractaltree.Sequence.{Yield, ascend, descend}

module _ {ℓ κ} {K : Type ℓ} {V : Type κ} where
  -- the loop's body: the pairs printed so far, and `rank`
  abbrev pub print_ranked : ℕ → Yield K V (List (K × V) × ℕ)
  print_ranked n k v (printed, rank) =
      let rank' = rank + 1 in ((printed ++ (k, v) ∷ [], rank'), not (rank' == n))

module _ {ℓ κ} {K : Type ℓ} {V : Type κ} ⦃o : Ord K⦄ where
  -- the leaderboard's loops, for 5 and 3
  unfoldable pub print_top : ℕ → BeTree K V → List (K × V)
  unfolding ascend
  print_top n t = (ascend t (print_ranked n) ([], 0)).0

  -- the last events of the time series, for 3
  unfoldable pub print_last : ℕ → BeTree K V → List (K × V)
  unfolding descend
  print_last n t = (descend t (print_ranked n) ([], 0)).0
