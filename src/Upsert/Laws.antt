-- ===== src/Upsert/Laws.antt =====
-- upsert.go through `Upsert` of tree.go: what a tree reads after an increment or a swap.
use fractaltree.Prelude.{◌≡◌, refl, ap, ◌∙◌, Bool, Option, none, some, if◌then◌else◌}
use fractaltree.Order.{Ord}
use fractaltree.Message.{Zero, UpsertFn}
use fractaltree.Tree.{BeTree, get, upsert_key}
use fractaltree.Tree.Laws.{IsValid, update, get-upsert_key}
use fractaltree.Upsert.{increment, compare_and_swap}

module _ {κ} {V : Type κ} where
  increment_cases :
      (plus : V → V → V) (delta : V) (w : Option V)
      → increment plus delta w ≡ elim w [ none ↦ delta | some v ↦ plus v delta ]
  unfolding increment
  increment_cases plus delta none = refl
  increment_cases plus delta (some v) = refl

  swap_cases :
      ⦃z : Zero V⦄ (same : V → V → Bool) (expected new_val : V) (w : Option V)
      → compare_and_swap same expected new_val w
        ≡ elim w [ none ↦ z.zero_value | some v ↦ if same v expected then new_val else v ]
  unfolding compare_and_swap
  swap_cases same expected new_val none = refl
  swap_cases same expected new_val (some v) = refl

module _ {ℓ κ} {K : Type ℓ} {V : Type κ} ⦃z : Zero V⦄ ⦃o : Ord K⦄ where
  update_self : (g : K → Option V) (k : K) (w : Option V) → update g k w k ≡ w
  update_self g k w = rw (update, o.cmp_refl k) refl

  get-upsert_self :
      (t : BeTree K V) (k : K) (f : UpsertFn V)
      → IsValid t
      → get (upsert_key t k f) k ≡ some (f (get t k))
  get-upsert_self t k f a =
      ap (λ g. g k) (get-upsert_key t k f a).1 ∙ update_self (get t) k (some (f (get t k)))

  -- On a valid tree, after `Upsert` with `Increment`, a key that held a value holds it plus the
  -- delta, and a key that held none holds the delta.
  pub get-increment :
      (t : BeTree K V) (k : K) (plus : V → V → V) (delta : V)
      → IsValid t
      → get (upsert_key t k (increment plus delta)) k
        ≡ some (elim (get t k) [ none ↦ delta | some v ↦ plus v delta ])
  get-increment t k plus delta a =
      get-upsert_self t k (increment plus delta) a ∙ ap some (increment_cases plus delta (get t k))

  -- On a valid tree, after `Upsert` with `CompareAndSwap`, a key that held the expected value
  -- holds the new one, a key that held another value still holds that, and a key that held none
  -- holds the zero value.
  pub get-compare_and_swap :
      (t : BeTree K V) (k : K) (same : V → V → Bool) (expected new_val : V)
      → IsValid t
      → get (upsert_key t k (compare_and_swap same expected new_val)) k
        ≡ some (elim (get t k) [
          | none ↦ z.zero_value
          | some v ↦ if same v expected then new_val else v
        ])
  get-compare_and_swap t k same expected new_val a =
      get-upsert_self t k (compare_and_swap same expected new_val) a
      ∙ ap some (swap_cases same expected new_val (get t k))
