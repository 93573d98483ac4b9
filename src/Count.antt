-- ===== src/Count.antt =====
-- tree.go, the fields `size` and `pendingDeletes` of BETree: what they count. putLocked and deleteLocked
-- change them when a message is buffered, applyToLeaf when it reaches a leaf.
pub mod Buckets
pub mod Hits
pub mod Leaf
pub mod Split
pub mod Parted
pub mod Totals
pub mod Flush
pub mod Writes
pub mod Point
pub mod Range
pub mod Calls
pub mod Quiet
use fractaltree.Prelude.{
  ℕ, zero, suc, ◌+◌, ◌≡◌, Bool, true, false, ◌&&◌, eq, Option, List, [], ◌∷◌, is_some, length,
}
use fractaltree.Prelude.Int.{ℤ, pos, ◌+ℤ◌}
use fractaltree.Order.{Ord}
use fractaltree.Message.{Message, put, delete, delete_range, upsert}
use fractaltree.Message.Replay.{step}
use fractaltree.Node.{Node, leaf, internal, Children, nil, cons}
use fractaltree.Ordered.{eval_at}
use fractaltree.Apply.{Counters}

-- the sum of the weights of a list's elements
abbrev pub total {ℓ} : {A : Type ℓ} → (A → ℕ) → List A → ℕ
total w [] = 0
total w (x ∷ xs) = w x + total w xs

module _ {ℓ κ} {K : Type ℓ} {V : Type κ} (u : K × V → ℕ) (w : Message K V → ℕ) where
  unfoldable mutual
    -- the weights of all entries and all buffered messages below a node
    pub tally : Node K V → ℕ
    tally (leaf es) = total u es
    tally (internal ps cs buf s) = total w buf + tally_children cs

    pub tally_children : Children K V → ℕ
    tally_children nil = 0
    tally_children (cons c cs) = tally c + tally_children cs

module _ {ℓ κ} {K : Type ℓ} {V : Type κ} where
  -- a put that putLocked counted, and a delete
  abbrev pub counted : Message K V → ℕ
  counted (put k v true) = 1
  counted (put k v false) = 0
  counted (delete k) = 0
  counted (delete_range k e) = 0
  counted (upsert k f) = 0

  abbrev pub deleting : Message K V → ℕ
  deleting (put k v c) = 0
  deleting (delete k) = 1
  deleting (delete_range k e) = 0
  deleting (upsert k f) = 0

  abbrev pub one_each : K × V → ℕ
  one_each e = 1

  abbrev pub none_each : K × V → ℕ
  none_each e = 0

  -- the entries of the leaves and the counted puts that are pending
  abbrev pub added : Node K V → ℕ
  added n = tally one_each counted n

  -- the deletes that are pending
  abbrev pub pending : Node K V → ℕ
  pending n = tally none_each deleting n

  -- The counters say what the tree holds: `size` is the number of leaf entries and pending counted puts
  -- less the pending deletes, and `pendingDeletes` is the number of these.
  pub record IsCounted (n : Node K V) (c : Counters) : Type 0 where
    pub size : c.size +ℤ pos (pending n) ≡ pos (added n)
    pub deletes : c.pending_deletes ≡ pos (pending n)

module _ {ℓ κ} {K : Type ℓ} {V : Type κ} ⦃o : Ord K⦄ where
  -- Does a message of the key, if it deletes, find a value?
  abbrev pub hit : K → Message K V → Option V → Bool
  hit k (put j v c) b = true
  hit k (delete j) b = elim (o.cmp j k) [ eq ↦ is_some b | _ ↦ true ]
  hit k (delete_range j e) b = true
  hit k (upsert j f) b = true

  -- Do all, replayed from a value, the oldest first?
  unfoldable pub hits : K → List (Message K V) → Option V → Bool
  hits k [] b = true
  hits k (m ∷ ms) b = hit k m b && hits k ms (step k m b)

  unfoldable mutual
    unfolding hits

    -- No pending delete will miss: deletes are buffered only for keys that hold a value.
    pub AreHit : Node K V → Type (ℓ ⊔ κ)
    AreHit (leaf es) = Unit
    AreHit (internal ps cs buf s) = ((k : K) → hits k buf (eval_at ps cs k) ≡ true) × ChildrenHit cs

    pub ChildrenHit : Children K V → Type (ℓ ⊔ κ)
    ChildrenHit nil = Unit
    ChildrenHit (cons c cs) = AreHit c × ChildrenHit cs
