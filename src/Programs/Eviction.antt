-- ===== src/Programs/Eviction.antt =====
-- examples/eviction/main.go: the cache drops its oldest entry for a new one, and moves an entry that is
-- read again. The order of the entries is a comparator.
pub mod Laws
use fractaltree.Prelude.{Option, none, some}
use fractaltree.Order.{Ord}
use fractaltree.Message.{Zero}
use fractaltree.Tree.{BeTree, put_key, delete_key}
use fractaltree.Cursor.{next, current}
use fractaltree.Sequence.{cursor}

module _ {ℓ κ} {K : Type ℓ} {V : Type κ} ⦃o : Ord K⦄ where
  -- `c.Next()` on a new cursor, and then `c.Key()`; `none` is its panic on an empty cache. `c.Close()`
  -- lets go of the cursor alone.
  unfoldable pub oldest : BeTree K V → Option (K × V)
  unfolding cursor next current
  oldest cache = current (next (cursor cache)).0

module _ {ℓ κ} {K : Type ℓ} {V : Type κ} ⦃z : Zero V⦄ ⦃o : Ord K⦄ where
  unfoldable pub evict : BeTree K V → K → V → Option (BeTree K V)
  unfolding oldest delete_key put_key
  evict cache key value = elim (oldest cache) [
    | none ↦ none
    | some e ↦ some (put_key (delete_key cache e.0).0 key value)
  ]

  -- the re-access: the old entry is deleted and the new one inserted
  unfoldable pub touch : BeTree K V → K → K → V → BeTree K V
  unfolding delete_key put_key
  touch cache old key value = put_key (delete_key cache old).0 key value
