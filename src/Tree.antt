-- ===== src/Tree.antt =====
-- tree.go, `BETree` and its point operations. Every method runs as a whole under the tree's mutex,
-- so it is a function from a state to a state and a result; the mutex has no field here.
pub mod Buffer
pub mod Laws
use fractaltree.Prelude.{
  ℕ, zero, suc, ◌+◌, Bool, true, false, not, Option, none, some, List, [], ◌∷◌, ◌++◌, if◌then◌else◌,
  ltb, length, is_some,
}
use fractaltree.Prelude.Int.{ℤ, pos, ◌+ℤ◌, ◌-ℤ◌, ltb_ℤ}
use fractaltree.Order.{Ord}
use fractaltree.Message.{Message, Zero, UpsertFn, put, delete, upsert}
use fractaltree.Node.{
  Node, leaf, internal, Children, num_children, append_to_buffer, leaf_search, leaf_insert,
  leaf_delete, set_value,
}
use fractaltree.Read.{get_from_node, exists_in_leaf}
use fractaltree.Apply.{Counters, value_at}
use fractaltree.Split.{split_root}
use fractaltree.Flush.{TreeParams, flush_node}

-- `cmp` is the instance argument `Ord K` of the operations.
pub record BeTree {ℓ κ} (K : Type ℓ) (V : Type κ) : Type (ℓ ⊔ κ) where
  pub root : Node K V
  pub params : TreeParams
  pub counters : Counters
  pub closed : Bool

abbrev pub add_size : Counters → ℤ → Counters
add_size c d = record c { size = c.size +ℤ d }

-- `t.size--; t.pendingDeletes++`
abbrev pub count_delete : Counters → Counters
count_delete c = record { size = c.size -ℤ pos 1; pending_deletes = c.pending_deletes +ℤ pos 1 }

module _ {ℓ κ} {K : Type ℓ} {V : Type κ} where
  -- the tree that `NewWithCompare` builds once its options are valid
  unfoldable pub new : TreeParams → BeTree K V
  new params = record {
    root = leaf [];
    params = params;
    counters = record { size = pos 0; pending_deletes = pos 0 };
    closed = false;
  }

  unfoldable pub len : BeTree K V → ℤ
  len t = t.counters.size

  unfoldable pub clear : BeTree K V → BeTree K V
  clear t = record t { root = leaf []; counters = record { size = pos 0; pending_deletes = pos 0 } }

  unfoldable pub close : BeTree K V → BeTree K V
  close t = record t { closed = true }

module _ {ℓ κ} {K : Type ℓ} {V : Type κ} ⦃o : Ord K⦄ where
  unfoldable pub get : BeTree K V → K → Option V
  unfolding get_from_node
  get t key = get_from_node t.root key

  unfoldable pub contains : BeTree K V → K → Bool
  unfolding get
  contains t key = is_some (get t key)

  -- `if len(t.root.keys) > t.params.leafCap { t.splitRoot() }`, for a leaf
  abbrev pub split_full_leaf : TreeParams → List (K × V) → Node K V
  split_full_leaf params es =
      if ltb params.leaf_cap (length es) then split_root (leaf es) else leaf es

  -- `if len(t.root.children) > t.params.fanout { t.splitRoot() }`
  abbrev pub split_full_root : TreeParams → Node K V → Node K V
  split_full_root params (leaf es) = leaf es
  split_full_root params (internal ps cs buf s) =
      if ltb params.fanout (num_children cs)
      then split_root (internal ps cs buf s)
      else internal ps cs buf s

module _ {ℓ κ} {K : Type ℓ} {V : Type κ} ⦃z : Zero V⦄ ⦃o : Ord K⦄ where
  -- the end of every write below an internal root: one message goes into the root's buffer, which is
  -- flushed when it is over capacity
  unfoldable pub write_message :
      TreeParams
      → List K
      → Children K V
      → List (Message K V)
      → Message K V
      → Counters
      → Node K V × Counters
  unfolding append_to_buffer flush_node split_root
  write_message params ps cs buf m c =
      let (buf', s') = append_to_buffer buf m in
      if ltb params.buffer_cap (length buf')
      then (let (root', c') = flush_node params (internal ps cs buf' s') c in
          (split_full_root params root', c'))
      else (internal ps cs buf' s', c)

  abbrev pub with_root : BeTree K V → Node K V × Counters → BeTree K V
  with_root t (root', c') = record t { root = root'; counters = c' }

  -- Is the key new? The fast path looks at the leaves alone.
  abbrev pub is_new_key : Node K V → Counters → K → Bool → Bool
  is_new_key root c key known_new =
      if known_new
      then true
      else if ltb_ℤ (pos 0) c.pending_deletes
      then not (is_some (get_from_node root key))
      else not (exists_in_leaf root key)

  abbrev pub put_root : TreeParams → Node K V → Counters → K → V → Bool → Node K V × Counters
  put_root params (leaf es) c key value known_new =
      let (es', new_key) = leaf_insert es key value in
      (split_full_leaf params es', if new_key then add_size c (pos 1) else c)
  put_root params (internal ps cs buf s) c key value known_new =
      let is_new = is_new_key (internal ps cs buf s) c key known_new in
      write_message params ps cs buf (put key value is_new)
        (if is_new then add_size c (pos 1) else c)

  unfoldable pub put_locked : BeTree K V → K → V → Bool → BeTree K V
  unfolding leaf_insert write_message get_from_node exists_in_leaf
  put_locked t key value known_new =
      with_root t (put_root t.params t.root t.counters key value known_new)

  -- `Put`
  unfoldable pub put_key : BeTree K V → K → V → BeTree K V
  unfolding put_locked
  put_key t key value = put_locked t key value false

  abbrev pub delete_root : TreeParams → Node K V → Counters → K → (Node K V × Counters) × Bool
  delete_root params (leaf es) c key =
      let (es', found) = leaf_delete es key in
      if found
      then ((leaf es', record c { size = c.size -ℤ pos 1 }), true)
      else ((leaf es', c), false)
  delete_root params (internal ps cs buf s) c key =
      if is_some (get_from_node (internal ps cs buf s) key)
      then (write_message params ps cs buf (delete key) (count_delete c), true)
      else ((internal ps cs buf s, c), false)

  -- `Delete`
  unfoldable pub delete_key : BeTree K V → K → BeTree K V × Bool
  unfolding leaf_delete write_message get_from_node
  delete_key t key =
      let (r, existed) = delete_root t.params t.root t.counters key in (with_root t r, existed)

  abbrev pub upsert_root : TreeParams → Node K V → Counters → K → UpsertFn V → Node K V × Counters
  upsert_root params (leaf es) c key f =
      let (i, found) = leaf_search es key in
      if found
      then (split_full_leaf params (set_value es i (f (value_at es i))), c)
      else (split_full_leaf params (leaf_insert es key (f none)).0, add_size c (pos 1))
  upsert_root params (internal ps cs buf s) c key f =
      write_message params ps cs buf (upsert key f) c

  -- `Upsert`
  unfoldable pub upsert_key : BeTree K V → K → UpsertFn V → BeTree K V
  unfolding leaf_search leaf_insert write_message
  upsert_key t key f = with_root t (upsert_root t.params t.root t.counters key f)

  unfoldable pub put_if_absent : BeTree K V → K → V → BeTree K V × Bool
  unfolding get_from_node put_locked
  put_if_absent t key value =
      if is_some (get_from_node t.root key) then (t, false) else (put_locked t key value true, true)
