-- ===== src/Read.antt =====
-- tree.go, the reads: existsInLeaf, getFromNode, getWithUpserts and applyUpsertChain.
pub mod Get
use mathlib.Core.Option
use fractaltree.Prelude.{
  ℕ, zero, suc, Bool, true, false, Option, none, some, List, [], ◌∷◌, ◌++◌, if◌then◌else◌,
  get_elem?,
}
use fractaltree.Order.{Ord}
use fractaltree.Message.{UpsertFn, Message, put, delete, delete_range, upsert}
use fractaltree.Node.{
  Node, leaf, internal, Children, nil, cons, find_child_index, leaf_search, buffer_messages_for_key,
}

-- A result `(value, true)` is `some value`, and `(zero, false)` is `none`.

-- what the loop over a buffer's messages ends with: a result to return, or the functions collected
pub data Scan {κ} (V : Type κ) : Type κ where
  resolved : Option V → Scan V
  collected : List (UpsertFn V) → Scan V

module _ {κ} {V : Type κ} where
  -- The functions stand newest first; the loop from the last to the first applies the oldest first.
  unfoldable pub apply_upsert_chain : Option V → List (UpsertFn V) → Option V
  apply_upsert_chain base [] = base
  apply_upsert_chain base (f ∷ fns) = some (f (apply_upsert_chain base fns))

  -- the branches for an absent base
  abbrev pub resolve_absent : List (UpsertFn V) → Option V
  resolve_absent [] = none
  resolve_absent (f ∷ fns) = apply_upsert_chain none (f ∷ fns)

module _ {ℓ κ} {K : Type ℓ} {V : Type κ} where
  -- one round of the `switch`
  unfoldable pub scan_message : Message K V → List (UpsertFn V) → Scan V
  scan_message (put k v c) fns = resolved (apply_upsert_chain (some v) fns)
  scan_message (delete k) fns = resolved (resolve_absent fns)
  scan_message (delete_range k e) fns = collected fns
  scan_message (upsert k f) fns = collected (fns ++ f ∷ [])

  -- The loop runs from the last message, the newest, to the first.
  unfoldable pub scan_messages : List (Message K V) → List (UpsertFn V) → Scan V
  unfolding scan_message
  scan_messages [] fns = collected fns
  scan_messages (m ∷ ms) fns = elim (scan_messages ms fns) [
    | resolved r ↦ resolved r
    | collected fns' ↦ scan_message m fns'
  ]

module _ {ℓ κ} {K : Type ℓ} {V : Type κ} ⦃o : Ord K⦄ where
  unfoldable mutual
    pub get_with_upserts : Node K V → K → List (UpsertFn V) → Option V
    get_with_upserts (leaf es) key fns =
        let (i, found) = leaf_search es key in
        if found
        then apply_upsert_chain (Option.map (λ e. e.1) (get_elem? es i)) fns
        else resolve_absent fns
    get_with_upserts (internal ps cs buf is_sorted) key fns =
        elim (scan_messages (buffer_messages_for_key buf is_sorted key) fns) [
          | resolved r ↦ r
          | collected fns' ↦ get_at cs (find_child_index ps key) key fns'
        ]

    -- the call on `n.children[i]`
    pub get_at : Children K V → ℕ → K → List (UpsertFn V) → Option V
    get_at nil i key fns = none
    get_at (cons c cs) zero key fns = get_with_upserts c key fns
    get_at (cons c cs) (suc i) key fns = get_at cs i key fns

  unfoldable pub get_from_node : Node K V → K → Option V
  unfolding get_with_upserts
  get_from_node n key = get_with_upserts n key []

  unfoldable mutual
    pub exists_in_leaf : Node K V → K → Bool
    exists_in_leaf (leaf es) key = (leaf_search es key).1
    exists_in_leaf (internal ps cs buf is_sorted) key = exists_at cs (find_child_index ps key) key

    pub exists_at : Children K V → ℕ → K → Bool
    exists_at nil i key = false
    exists_at (cons c cs) zero key = exists_in_leaf c key
    exists_at (cons c cs) (suc i) key = exists_at cs i key
