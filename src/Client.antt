-- ===== src/Client.antt =====
-- tree.go, the interface `Tree`: a client's calls on one tree, and the map that the interface
-- promises. The writers exclude each other by the tree's mutex, so that what the callers of several
-- goroutines do is one such list, in the order in which they held the mutex.
pub mod Refines
pub mod Keep
pub mod Calls
pub mod Made
use fractaltree.Prelude.{Bool, not, Option, none, some, List, [], ◌∷◌, if◌then◌else◌, is_some}
use fractaltree.Order.{Ord}
use fractaltree.Message.{Zero, UpsertFn}
use fractaltree.Tree.{BeTree, get, contains, put_key, delete_key, upsert_key, put_if_absent, clear}
use fractaltree.Tree.Laws.{update}

pub data Op {ℓ κ} (K : Type ℓ) (V : Type κ) : Type (ℓ ⊔ κ) where
  put_op : K → V → Op K V
  delete_op : K → Op K V
  upsert_op : K → UpsertFn V → Op K V
  absent_op : K → V → Op K V
  get_op : K → Op K V
  contains_op : K → Op K V
  clear_op : Op K V

-- what a call returns
pub data Reply {κ} (V : Type κ) : Type κ where
  done : Reply V
  flag : Bool → Reply V
  found : Option V → Reply V

module _ {ℓ κ} {K : Type ℓ} {V : Type κ} ⦃z : Zero V⦄ ⦃o : Ord K⦄ where
  abbrev pub run_op : Op K V → BeTree K V → BeTree K V × Reply V
  run_op (put_op k v) t = (put_key t k v, done)
  run_op (delete_op k) t = let (t', b) = delete_key t k in (t', flag b)
  run_op (upsert_op k f) t = (upsert_key t k f, done)
  run_op (absent_op k v) t = let (t', b) = put_if_absent t k v in (t', flag b)
  run_op (get_op k) t = (t, found (get t k))
  run_op (contains_op k) t = (t, flag (contains t k))
  run_op clear_op t = (clear t, done)

  unfoldable pub run : List (Op K V) → BeTree K V → BeTree K V × List (Reply V)
  run [] t = (t, [])
  run (a ∷ ops) t = let (t1, r) = run_op a t in let (t2, rs) = run ops t1 in (t2, r ∷ rs)

  -- the same call on a map
  abbrev pub map_op : Op K V → (K → Option V) → (K → Option V) × Reply V
  map_op (put_op k v) g = (update g k (some v), done)
  map_op (delete_op k) g = (update g k none, flag (is_some (g k)))
  map_op (upsert_op k f) g = (update g k (some (f (g k))), done)
  map_op (absent_op k v) g =
      (if is_some (g k) then g else update g k (some v), flag (not (is_some (g k))))
  map_op (get_op k) g = (g, found (g k))
  map_op (contains_op k) g = (g, flag (is_some (g k)))
  map_op clear_op g = ((λ k. none), done)

  abbrev pub run_map : List (Op K V) → (K → Option V) → (K → Option V) × List (Reply V)
  run_map [] g = (g, [])
  run_map (a ∷ ops) g = let (g1, r) = map_op a g in let (g2, rs) = run_map ops g1 in (g2, r ∷ rs)
