-- ===== src/Node.antt =====
-- node.go: the nodes of the tree and the searches in one node.
pub mod Entries
pub mod LeafSearch
pub mod Buffer
pub mod Slice
pub mod Same
use fractaltree.Prelude.{
  ℕ, zero, suc, ◌+◌, ◌-◌, ◌/◌, Bool, true, false, ◌&&◌, ◌||◌, Ordering, lt, eq, gt, Option, none,
  some, List, [], ◌∷◌, ◌++◌, ltb, leb, if◌then◌else◌, length, get_elem?, insert_at, delete_at,
  select, take, drop, not,
}
use fractaltree.Order.{Ord, is_lt, is_le, is_eq, is_gt}
use fractaltree.Message.{Message, key_of}
use fractaltree.Search.{binary_search, prefix_count, test_at}

mutual
  -- A leaf's parallel slices `keys` and `values` are one list of pairs: the code always changes
  -- both at the same index. `flushBuckets`, which every flush empties first, is a local of the
  -- flush. The last field of `internal` is `bufferSorted`.
  pub data Node {ℓ κ} (K : Type ℓ) (V : Type κ) : Type (ℓ ⊔ κ) where
    leaf : List (K × V) → Node K V
    internal : List K → Children K V → List (Message K V) → Bool → Node K V

  pub data Children {ℓ κ} (K : Type ℓ) (V : Type κ) : Type (ℓ ⊔ κ) where
    nil : Children K V
    cons : Node K V → Children K V → Children K V

module _ {ℓ κ} {K : Type ℓ} {V : Type κ} where
  -- `len(n.children)`
  abbrev pub num_children : Children K V → ℕ
  num_children nil = 0
  num_children (cons c cs) = suc (num_children cs)

  -- `n.children[i]`
  abbrev pub child_at : Children K V → ℕ → Option (Node K V)
  child_at nil i = none
  child_at (cons c cs) zero = some c
  child_at (cons c cs) (suc i) = child_at cs i

  -- `n.children[i]` changed in place
  abbrev pub set_child : Children K V → ℕ → Node K V → Children K V
  set_child nil i n = nil
  set_child (cons c cs) zero n = cons n cs
  set_child (cons c cs) (suc i) n = cons c (set_child cs i n)

  -- `slices.Insert(n.children, i, child)`
  abbrev pub insert_child : Children K V → ℕ → Node K V → Children K V
  insert_child cs zero n = cons n cs
  insert_child nil (suc i) n = cons n nil
  insert_child (cons c cs) (suc i) n = cons c (insert_child cs i n)

  -- `n.children[:i]`
  abbrev pub take_children : ℕ → Children K V → Children K V
  take_children zero cs = nil
  take_children (suc i) nil = nil
  take_children (suc i) (cons c cs) = cons c (take_children i cs)

  -- `n.children[i:]`
  abbrev pub drop_children : ℕ → Children K V → Children K V
  drop_children zero cs = cs
  drop_children (suc i) nil = nil
  drop_children (suc i) (cons c cs) = drop_children i cs

  -- `n.values[i] = value`
  abbrev pub set_value : List (K × V) → ℕ → V → List (K × V)
  set_value [] i v = []
  set_value ((k, w) ∷ es) zero v = (k, v) ∷ es
  set_value ((k, w) ∷ es) (suc i) v = (k, w) ∷ set_value es i v

  -- the buffer and `bufferSorted` after `appendToBuffer`
  unfoldable pub append_to_buffer : List (Message K V) → Message K V → List (Message K V) × Bool
  append_to_buffer buffer msg =
      let buffer' = buffer ++ msg ∷ [] in (buffer', leb (length buffer') 1)

unfoldable pub find_child_index {ℓ} : {K : Type ℓ} ⦃o : Ord K⦄ → List K → K → ℕ
unfolding binary_search
find_child_index ⦃o⦄ pivots key = binary_search (λ p. is_le (o.cmp p key)) pivots

module _ {ℓ} {K : Type ℓ} ⦃o : Ord K⦄ where
  -- `inLo && inHi` of `bufferSliceScan`
  abbrev pub in_slice : K → K → Bool → Bool → K → Bool
  in_slice lo hi lo_inc hi_inc k =
      (if lo_inc then not (is_lt (o.cmp k lo)) else is_gt (o.cmp k lo))
      && (if hi_inc then not (is_gt (o.cmp k hi)) else is_lt (o.cmp k hi))

module _ {ℓ κ} {K : Type ℓ} {V : Type κ} ⦃o : Ord K⦄ where
  -- `compare(n.keys[i], key)`; the loop reads no index past the end
  abbrev pub probe : List (K × V) → K → ℕ → Ordering
  probe es key i = elim (get_elem? es i) [ none ↦ gt | some e ↦ o.cmp e.0 key ]

  -- The fuel bounds the rounds; the length of the range is enough.
  unfoldable pub leaf_search_loop : ℕ → List (K × V) → K → ℕ → ℕ → ℕ × Bool
  leaf_search_loop zero es key lo hi = (lo, false)
  leaf_search_loop (suc f) es key lo hi = elim (ltb lo hi) [
    | false ↦ (lo, false)
    | true ↦ elim (probe es key (lo + (hi - lo) / 2)) [
      | eq ↦ (lo + (hi - lo) / 2, true)
      | lt ↦ leaf_search_loop f es key (lo + (hi - lo) / 2 + 1) hi
      | gt ↦ leaf_search_loop f es key lo (lo + (hi - lo) / 2)
    ]
  ]

  -- the index where the key is or would be inserted, and whether it was found
  unfoldable pub leaf_search : List (K × V) → K → ℕ × Bool
  unfolding leaf_search_loop
  leaf_search es key = leaf_search_loop (length es) es key 0 (length es)

  -- the new entries, and whether the key is new
  unfoldable pub leaf_insert : List (K × V) → K → V → List (K × V) × Bool
  unfolding leaf_search
  leaf_insert es key value =
      let (i, found) = leaf_search es key in
      if found then (set_value es i value, false) else (insert_at es i (key, value), true)

  -- the new entries, and whether the key was there
  unfoldable pub leaf_delete : List (K × V) → K → List (K × V) × Bool
  unfolding leaf_search
  leaf_delete es key =
      let (i, found) = leaf_search es key in if found then (delete_at es i, true) else (es, false)

  -- the end of the loop `for end < len(n.buffer) && test(n.buffer[end]) { end++ }`
  abbrev pub scan_while : (Message K V → Bool) → List (Message K V) → ℕ → ℕ
  scan_while p buffer start = start + prefix_count p (drop start buffer)

  -- `slices.BinarySearchFunc` on the message keys: the first position that is not below the key
  abbrev pub buffer_position : List (Message K V) → K → ℕ
  buffer_position buffer key = binary_search (λ m. is_lt (o.cmp (key_of m) key)) buffer

  -- the flag of `slices.BinarySearchFunc`
  abbrev pub buffer_found : List (Message K V) → K → Bool
  buffer_found buffer key =
      test_at (λ m. is_eq (o.cmp (key_of m) key)) buffer (buffer_position buffer key)

  unfoldable pub buffer_messages_for_key : List (Message K V) → Bool → K → List (Message K V)
  unfolding binary_search
  buffer_messages_for_key buffer true key =
      let i = buffer_position buffer key in
      let end = scan_while (λ m. is_eq (o.cmp (key_of m) key)) buffer (i + 1) in
      if buffer_found buffer key then take (end - i) (drop i buffer) else []
  buffer_messages_for_key buffer false key = select (λ m. is_eq (o.cmp (key_of m) key)) buffer

  unfoldable pub buffer_slice_scan : List (Message K V) → K → K → Bool → Bool → List (Message K V)
  buffer_slice_scan buffer lo hi lo_inc hi_inc =
      select (λ m. in_slice lo hi lo_inc hi_inc (key_of m)) buffer

  unfoldable pub buffer_slice : List (Message K V) → Bool → K → K → Bool → Bool → List (Message K V)
  unfolding binary_search buffer_slice_scan
  buffer_slice [] is_sorted lo hi lo_inc hi_inc = []
  buffer_slice (m ∷ ms) false lo hi lo_inc hi_inc = buffer_slice_scan (m ∷ ms) lo hi lo_inc hi_inc
  buffer_slice (m ∷ ms) true lo hi lo_inc hi_inc =
      let buffer = m ∷ ms in
      let first = buffer_position buffer lo in
      let start =
        if lo_inc then first else scan_while (λ x. is_eq (o.cmp (key_of x) lo)) buffer first in
      let last = buffer_position buffer hi in
      let end =
        if hi_inc then scan_while (λ x. is_eq (o.cmp (key_of x) hi)) buffer last else last in
      if leb end start then [] else take (end - start) (drop start buffer)
