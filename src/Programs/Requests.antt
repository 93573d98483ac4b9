-- ===== src/Programs/Requests.antt =====
-- examples/ratelimiter/main.go: the loop that counts requests, and the one that prints each count with its
-- status. The counts are natural numbers, and the pairs printed are kept in a list.
pub mod Laws
use fractaltree.Prelude.{ℕ, ◌+◌, Bool, true, List, [], ◌∷◌, ◌++◌, ltb}
use fractaltree.Order.{Ord}
use fractaltree.Message.{Zero}
use fractaltree.Tree.{BeTree, upsert_key}
use fractaltree.Upsert.{increment}
use fractaltree.Sequence.{Yield, all}

module _ {ℓ} {K : Type ℓ} where
  -- `v > limit` of the loop's body
  abbrev pub print_rate : ℕ → Yield K ℕ (List ((K × ℕ) × Bool))
  print_rate limit k v printed = (printed ++ ((k, v), ltb limit v) ∷ [], true)

module _ {ℓ} {K : Type ℓ} ⦃z : Zero ℕ⦄ ⦃o : Ord K⦄ where
  unfoldable pub count_requests : BeTree K ℕ → List K → BeTree K ℕ
  unfolding upsert_key increment
  count_requests t [] = t
  count_requests t (r ∷ rs) = count_requests (upsert_key t r (increment (λ a b. a + b) 1)) rs

  unfoldable pub check_rates : ℕ → BeTree K ℕ → List ((K × ℕ) × Bool)
  unfolding all
  check_rates limit t = all t (print_rate limit) []
