-- ===== src/Merge.antt =====
-- flush.go, appendToLeaf, mergeLeafPuts and mergeLeafWithDeletes: a resolved batch, one message to a
-- key in ascending order, is merged into a leaf.
pub mod Append
pub mod Puts
pub mod Deletes
use fractaltree.Prelude.{
  ℕ, suc, ◌+◌, Bool, true, false, lt, eq, gt, none, some, List, [], ◌∷◌, ◌++◌, if◌then◌else◌, take,
  drop,
}
use fractaltree.Order.{Ord, is_lt, is_eq}
use fractaltree.Message.{Message, Zero, put, delete, delete_range, upsert, key_of, value_of}
use fractaltree.Search.{binary_search, test_at}

module _ {ℓ κ} {K : Type ℓ} {V : Type κ} where
  -- `if msgs[mi].Kind == MsgPut { msgs[numNew] = msgs[mi]; numNew++ }`
  abbrev pub collect_put : Message K V → List (Message K V) → List (Message K V)
  collect_put (put k v c) new = put k v c ∷ new
  collect_put _ new = new

  -- `if msgs[mi].Kind == MsgPut { leaf.keys[w] = …; w++ }`
  abbrev pub keep_put : Message K V → List (K × V) → List (K × V)
  keep_put (put k v c) kept = (k, v) ∷ kept
  keep_put _ kept = kept

  abbrev pub collect_puts : List (Message K V) → List (Message K V)
  collect_puts [] = []
  collect_puts (m ∷ ms) = collect_put m (collect_puts ms)

module _ {ℓ κ} {K : Type ℓ} {V : Type κ} ⦃o : Ord K⦄ where
  -- phase 1 of `mergeLeafWithDeletes`: the entries kept, and the puts of new keys
  unfoldable pub compact : List (K × V) → List (Message K V) → List (K × V) × List (Message K V)
  compact [] ms = ([], collect_puts ms)
  compact (e ∷ es) [] = (e ∷ es, [])
  compact (e ∷ es) (m ∷ ms) = elim (o.cmp e.0 (key_of m)) [
    | lt ↦ let (kept, new) = compact es (m ∷ ms) in (e ∷ kept, new)
    | gt ↦ let (kept, new) = compact (e ∷ es) ms in (kept, collect_put m new)
    | eq ↦ let (kept, new) = compact es ms in (keep_put m kept, new)
  ]

module _ {ℓ κ} {K : Type ℓ} {V : Type κ} ⦃z : Zero V⦄ where
  -- `msg.Key` and `msg.Value` as an entry
  abbrev pub entry_of : Message K V → K × V
  entry_of m = (key_of m, value_of m)

  unfoldable pub append_to_leaf : List (K × V) → List (Message K V) → List (K × V)
  append_to_leaf es [] = es
  append_to_leaf es (m ∷ ms) = append_to_leaf (es ++ entry_of m ∷ []) ms

module _ {ℓ κ} {K : Type ℓ} {V : Type κ} ⦃z : Zero V⦄ ⦃o : Ord K⦄ where
  -- `slices.BinarySearchFunc` on the leaf's keys
  abbrev pub key_position : List (K × V) → K → ℕ
  key_position es key = binary_search (λ e. is_lt (o.cmp e.0 key)) es

  abbrev pub key_found : List (K × V) → K → Bool
  key_found es key = test_at (λ e. is_eq (o.cmp e.0 key)) es (key_position es key)

  -- One round of the loop of `mergeLeafPuts`. The slice is the old keys not yet passed, `[:r+1]`, a
  -- gap, and what is written at its end, `[w+1:]`; a round cuts the first and extends the last.
  unfoldable pub merge_put : Message K V → List (K × V) × List (K × V) → List (K × V) × List (K × V)
  unfolding binary_search
  merge_put m (pre, out) =
      let position = key_position pre (key_of m) in
      let chunk_start = if key_found pre (key_of m) then position + 1 else position in
      (take position pre, entry_of m ∷ (drop chunk_start pre ++ out))

  -- The loop runs from the last message to the first.
  unfoldable pub merge_puts_loop : List (K × V) → List (Message K V) → List (K × V) × List (K × V)
  unfolding merge_put
  merge_puts_loop es [] = (es, [])
  merge_puts_loop es (m ∷ ms) = merge_put m (merge_puts_loop es ms)

  -- Closing the gap joins the two parts.
  unfoldable pub merge_leaf_puts : List (K × V) → List (Message K V) → List (K × V)
  unfolding merge_puts_loop
  merge_leaf_puts es ms = let (pre, out) = merge_puts_loop es ms in pre ++ out

  -- `if numNew > 0 { t.mergeLeafPuts(leaf, msgs[:numNew]) }`
  unfoldable pub merge_new : List (K × V) → List (Message K V) → List (K × V)
  unfolding merge_leaf_puts
  merge_new kept [] = kept
  merge_new kept (m ∷ ms) = merge_leaf_puts kept (m ∷ ms)

  unfoldable pub merge_leaf_with_deletes : List (K × V) → List (Message K V) → List (K × V)
  unfolding compact merge_new
  merge_leaf_with_deletes es ms = let (kept, new) = compact es ms in merge_new kept new
