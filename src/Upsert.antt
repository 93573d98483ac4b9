-- ===== src/Upsert.antt =====
-- upsert.go: the two ready-made functions for `Upsert`. The `+` and `==` of the value type are
-- arguments.
pub mod Laws
use fractaltree.Prelude.{Bool, ◌&&◌, Option, none, some, if◌then◌else◌}
use fractaltree.Message.{UpsertFn, Zero}

module _ {κ} {V : Type κ} where
  unfoldable pub increment : (V → V → V) → V → UpsertFn V
  increment plus delta none = delta
  increment plus delta (some existing) = plus existing delta

  unfoldable pub compare_and_swap : ⦃z : Zero V⦄ → (V → V → Bool) → V → V → UpsertFn V
  compare_and_swap ⦃z⦄ same expected new_val none = z.zero_value
  compare_and_swap same expected new_val (some existing) =
      if same existing expected then new_val else existing
