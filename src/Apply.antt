-- ===== src/Apply.antt =====
-- flush.go, applyToLeaf, applyToLeafSmall, resolveMessages and resolveKeyGroup: a batch of messages reaches a leaf.
pub mod Small
pub mod Resolve
pub mod Batch
use mathlib.Core.Option
use fractaltree.Prelude.{
  ℕ, zero, suc, ◌+◌, ◌-◌, Bool, true, false, ◌&&◌, not, lt, eq, gt, Option, none, some, List, [],
  ◌∷◌, ◌++◌, if◌then◌else◌, leb, ◌==◌, length, get_elem?, take, drop,
}
use fractaltree.Prelude.Int.{ℤ, pos, ◌+ℤ◌, ◌-ℤ◌}
use fractaltree.Order.{Ord, is_lt, is_eq, is_gt}
use fractaltree.Merge.{append_to_leaf, merge_leaf_puts, merge_leaf_with_deletes}
use fractaltree.Message.{Message, Zero, put, delete, delete_range, upsert, key_of}
use fractaltree.Search.{binary_search, test_at}
use fractaltree.Node.{leaf_search, leaf_insert, leaf_delete, set_value}

-- The fields `size` and `pendingDeletes` of `BETree`. Both are `int`, and the code lets the
-- optimistic `size` drop below 0 between flushes; the 64-bit range is not modelled.
pub record Counters : Type 0 where
  pub size : ℤ
  pub pending_deletes : ℤ

module _ {ℓ κ} {K : Type ℓ} {V : Type κ} where
  -- one round of `resolveKeyGroup`: a newer message on the result so far
  abbrev pub fold_message : Message K V → Message K V → Message K V
  fold_message result (put k v c) = put k v c
  fold_message result (delete k) = delete k
  fold_message result (delete_range k e) = result
  fold_message (put k' v c) (upsert k f) = put k' (f (some v)) c
  fold_message (delete k') (upsert k f) = put k' (f none) false
  fold_message (delete_range k' e) (upsert k f) = delete_range k' e
  fold_message (upsert k' prev) (upsert k curr) =
      upsert k' (λ existing. curr (some (prev existing)))

  -- the group is its first message and the later ones
  unfoldable pub resolve_key_group : Message K V → List (Message K V) → Message K V
  resolve_key_group result [] = result
  resolve_key_group result (m ∷ ms) = resolve_key_group (fold_message result m) ms

module _ {ℓ κ} {K : Type ℓ} {V : Type κ} ⦃o : Ord K⦄ where
  -- `leaf.values[idx]` at the index that a search returned
  abbrev pub value_at : List (K × V) → ℕ → Option V
  value_at es i = Option.map (λ e. e.1) (get_elem? es i)

  -- one round of the loop of `applyToLeafSmall`
  unfoldable pub apply_message : List (K × V) → Message K V → Counters → List (K × V) × Counters
  unfolding leaf_search leaf_insert leaf_delete
  apply_message es (put k v counted) c =
      let (es', new_key) = leaf_insert es k v in
      (
        es',
        if new_key && not counted
            then record c { size = c.size +ℤ pos 1 }
            else if not new_key && counted
            then record c { size = c.size -ℤ pos 1 }
            else c,
      )
  apply_message es (delete k) c =
      ((leaf_delete es k).0, record c { pending_deletes = c.pending_deletes -ℤ pos 1 })
  apply_message es (delete_range k e) c = (es, c)
  apply_message es (upsert k f) c =
      let (i, found) = leaf_search es k in
      if found
      then (set_value es i (f (value_at es i)), c)
      else ((leaf_insert es k (f none)).0, record c { size = c.size +ℤ pos 1 })

  unfoldable pub apply_to_leaf_small :
      List (K × V) → List (Message K V) → Counters → List (K × V) × Counters
  unfolding apply_message
  apply_to_leaf_small es [] c = (es, c)
  apply_to_leaf_small es (m ∷ ms) c =
      let (es', c') = apply_message es m c in apply_to_leaf_small es' ms c'

  -- the loop that leaves `sorted` true: keys strictly ascending
  unfoldable pub is_ascending : List (Message K V) → Bool
  is_ascending [] = true
  is_ascending (m ∷ []) = true
  is_ascending (m ∷ n ∷ ms) = is_lt (o.cmp (key_of m) (key_of n)) && is_ascending (n ∷ ms)

  -- `slices.SortStableFunc` by key
  unfoldable pub insert_stable : Message K V → List (Message K V) → List (Message K V)
  insert_stable m [] = m ∷ []
  insert_stable m (n ∷ ms) =
      if is_gt (o.cmp (key_of m) (key_of n)) then n ∷ insert_stable m ms else m ∷ n ∷ ms

  unfoldable pub sort_stable : List (Message K V) → List (Message K V)
  unfolding insert_stable
  sort_stable [] = []
  sort_stable (m ∷ ms) = insert_stable m (sort_stable ms)

  -- the grouping loop of `resolveMessages`: `first` is `msgs[i]`, `group` is `msgs[i+1:j]`
  unfoldable pub resolve_groups :
      Message K V → List (Message K V) → List (Message K V) → List (Message K V)
  unfolding resolve_key_group
  resolve_groups first group [] = resolve_key_group first group ∷ []
  resolve_groups first group (m ∷ ms) = elim (is_eq (o.cmp (key_of first) (key_of m))) [
    | true ↦ resolve_groups first (group ++ m ∷ []) ms
    | false ↦ resolve_key_group first group ∷ resolve_groups m [] ms
  ]

  unfoldable pub group_messages : List (Message K V) → List (Message K V)
  unfolding resolve_groups
  group_messages [] = []
  group_messages (m ∷ ms) = resolve_groups m [] ms

  unfoldable pub resolve_messages : List (Message K V) → List (Message K V)
  unfolding is_ascending sort_stable group_messages
  resolve_messages msgs = group_messages (if is_ascending msgs then msgs else sort_stable msgs)

  -- phase 2b: an upsert becomes a put of its result
  unfoldable pub resolve_upsert : List (K × V) → Message K V → Message K V
  unfolding leaf_search
  resolve_upsert es (upsert k f) =
      let (i, found) = leaf_search es k in
      if found then put k (f (value_at es i)) false else put k (f none) false
  resolve_upsert es (put k v c) = put k v c
  resolve_upsert es (delete k) = delete k
  resolve_upsert es (delete_range k e) = delete_range k e

  unfoldable pub resolve_upserts : List (K × V) → List (Message K V) → List (Message K V)
  unfolding resolve_upsert
  resolve_upserts es [] = []
  resolve_upserts es (m ∷ ms) = resolve_upsert es m ∷ resolve_upserts es ms

module _ {ℓ κ} {K : Type ℓ} {V : Type κ} where
  -- phase 1: the puts that `putLocked` counted, and the deletes
  abbrev pub count_counted : List (Message K V) → ℕ
  count_counted [] = 0
  count_counted (put k v true ∷ ms) = suc (count_counted ms)
  count_counted (m ∷ ms) = count_counted ms

  abbrev pub count_deletes : List (Message K V) → ℕ
  count_deletes [] = 0
  count_deletes (delete k ∷ ms) = suc (count_deletes ms)
  count_deletes (m ∷ ms) = count_deletes ms

  -- `leaf.keys[oldLen-1]`
  abbrev pub last_entry : List (K × V) → Option (K × V)
  last_entry [] = none
  last_entry (e ∷ []) = some e
  last_entry (e ∷ f ∷ es) = last_entry (f ∷ es)

module _ {ℓ κ} {K : Type ℓ} {V : Type κ} ⦃o : Ord K⦄ where
  -- `oldLen > 0 && t.cmp(msgs[0].Key, leaf.keys[oldLen-1]) > 0`; the batch is not empty
  abbrev pub goes_after : List (K × V) → List (Message K V) → Bool
  goes_after es [] = false
  goes_after es (m ∷ ms) = elim (last_entry es) [
    | none ↦ false
    | some e ↦ is_gt (o.cmp (key_of m) e.0)
  ]

module _ {ℓ κ} {K : Type ℓ} {V : Type κ} ⦃z : Zero V⦄ ⦃o : Ord K⦄ where
  -- phase 3
  unfoldable pub merge_batch : List (K × V) → List (Message K V) → ℕ → List (K × V)
  unfolding append_to_leaf merge_leaf_puts merge_leaf_with_deletes
  merge_batch es ms num_deletes =
      if num_deletes == 0 && goes_after es ms
      then append_to_leaf es ms
      else if num_deletes == 0
      then merge_leaf_puts es ms
      else merge_leaf_with_deletes es ms

  -- the batch merge path of `applyToLeaf`
  unfoldable pub apply_batch :
      List (K × V) → List (Message K V) → Counters → List (K × V) × Counters
  unfolding resolve_messages resolve_upserts merge_batch
  apply_batch es ms c =
      let es' = merge_batch es (resolve_upserts es (resolve_messages ms)) (count_deletes ms) in
      (
        es',
        record {
          size =
              c.size
              +ℤ (pos (length es')
                  -ℤ pos (length es)
                  -ℤ pos (count_counted ms)
                  +ℤ pos (count_deletes ms));
          pending_deletes = c.pending_deletes -ℤ pos (count_deletes ms);
        },
      )

  unfoldable pub apply_to_leaf :
      List (K × V) → List (Message K V) → Counters → List (K × V) × Counters
  unfolding apply_to_leaf_small apply_batch
  apply_to_leaf es [] c = (es, c)
  apply_to_leaf es (m ∷ ms) c =
      if leb (length (m ∷ ms)) 3
      then apply_to_leaf_small es (m ∷ ms) c
      else apply_batch es (m ∷ ms) c
