-- ===== src/DeleteRange.antt =====
-- tree.go, DeleteRange: the leaf path deletes in place, the other one buffers a delete for each live
-- key of the range.
pub mod LeafPath
pub mod Pairs
pub mod Laws
use fractaltree.Prelude.{
  ℕ, zero, suc, ◌+◌, Bool, true, false, not, ◌&&◌, Option, none, some, List, [], ◌∷◌, if◌then◌else◌,
  ltb, length, get_elem?, delete_at,
}
use fractaltree.Prelude.Int.{ℤ, pos, ◌+ℤ◌, ◌-ℤ◌}
use fractaltree.Order.{Ord, is_lt}
use fractaltree.Message.{Message, Zero, delete}
use fractaltree.Node.{Node, leaf, internal, Children, append_to_buffer}
use fractaltree.Apply.{Counters}
use fractaltree.Flush.{TreeParams, flush_node}
use fractaltree.Iterator.{resolve_entries, collect_range}
use fractaltree.Tree.{BeTree, split_full_root, with_root}

-- `t.size -= count; t.pendingDeletes += count`
abbrev pub count_deleted : Counters → ℕ → Counters
count_deleted c n = record { size = c.size -ℤ pos n; pending_deletes = c.pending_deletes +ℤ pos n }

module _ {ℓ κ} {K : Type ℓ} {V : Type κ} ⦃o : Ord K⦄ where
  -- `t.cmp(keys[i], lo) >= 0 && t.cmp(keys[i], hi) < 0`; the loop reads no index past the end
  abbrev pub is_between : K → K → K × V → Bool
  is_between lo hi e = not (is_lt (o.cmp e.0 lo)) && is_lt (o.cmp e.0 hi)

  abbrev pub is_between_at : K → K → List (K × V) → ℕ → Bool
  is_between_at lo hi es i = elim (get_elem? es i) [ none ↦ false | some e ↦ is_between lo hi e ]

  -- the loop from the last entry to the first, with the count
  unfoldable pub delete_loop : K → K → ℕ → List (K × V) → ℕ → List (K × V) × ℕ
  delete_loop lo hi zero es count = (es, count)
  delete_loop lo hi (suc i) es count = elim (is_between_at lo hi es i) [
    | true ↦ delete_loop lo hi i (delete_at es i) (count + 1)
    | false ↦ delete_loop lo hi i es count
  ]

module _ {ℓ κ} {K : Type ℓ} {V : Type κ} where
  -- the loop that buffers a delete for each pair
  unfoldable pub append_deletes :
      List (Message K V) × Bool → List (K × V) → List (Message K V) × Bool
  unfolding append_to_buffer
  append_deletes b [] = b
  append_deletes b (p ∷ ps) = append_deletes (append_to_buffer b.0 (delete p.0)) ps

module _ {ℓ κ} {K : Type ℓ} {V : Type κ} ⦃z : Zero V⦄ ⦃o : Ord K⦄ where
  -- the end of the method, where the root's buffer may be over capacity
  abbrev pub flush_full_root :
      TreeParams
      → List K
      → Children K V
      → List (Message K V) × Bool
      → Counters
      → Node K V × Counters
  flush_full_root params ps cs b c =
      if ltb params.buffer_cap (length b.0)
      then (let (root', c') = flush_node params (internal ps cs b.0 b.1) c in
          (split_full_root params root', c'))
      else (internal ps cs b.0 b.1, c)

  -- the method below an internal root, for the pairs found
  abbrev pub delete_pairs :
      TreeParams
      → List K
      → Children K V
      → List (Message K V) × Bool
      → Counters
      → List (K × V)
      → (Node K V × Counters) × ℕ
  delete_pairs params ps cs b c [] = ((internal ps cs b.0 b.1, c), 0)
  delete_pairs params ps cs b c (e ∷ es) =
      let count = length (e ∷ es) in
      (flush_full_root params ps cs (append_deletes b (e ∷ es)) (count_deleted c count), count)

  abbrev pub delete_range_root :
      TreeParams → Node K V → Counters → K → K → (Node K V × Counters) × ℕ
  delete_range_root params (leaf es) c lo hi =
      let (es', count) = delete_loop lo hi (length es) es 0 in
      ((leaf es', record c { size = c.size -ℤ pos count }), count)
  delete_range_root params (internal ps cs buf s) c lo hi =
      delete_pairs params ps cs (buf, s) c
        (resolve_entries (collect_range lo hi true false (internal ps cs buf s) 0))

  -- `DeleteRange`
  unfoldable pub delete_range : BeTree K V → K → K → BeTree K V × ℕ
  unfolding delete_loop append_deletes flush_node resolve_entries collect_range
  delete_range t lo hi =
      if not (is_lt (o.cmp lo hi))
      then (t, 0)
      else (let (r, count) = delete_range_root t.params t.root t.counters lo hi in
          (with_root t r, count))
