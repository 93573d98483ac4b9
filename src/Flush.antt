-- ===== src/Flush.antt =====
-- flush.go, flushNode: the messages of a full buffer are parted by child, and the child with the
-- most messages gets its own.
pub mod Buckets
pub mod Eval
pub mod NoPanic
pub mod Progress
use fractaltree.Prelude.{
  ℕ, zero, suc, ◌+◌, Bool, true, false, List, [], ◌∷◌, ◌++◌, if◌then◌else◌, ltb, length, Option,
  none, some,
}
use fractaltree.Order.{Ord}
use fractaltree.Message.{Message, Zero, key_of}
use fractaltree.Node.{
  Node, leaf, internal, Children, nil, cons, num_children, child_at, find_child_index,
}
use fractaltree.Apply.{Counters, apply_to_leaf}
use fractaltree.Split.{split_child}

-- options.go, `treeParams`: what `deriveParams` computes with floating-point powers. `epsilon` and
-- `blockSize` are not read after that.
pub record TreeParams : Type 0 where
  pub fanout : ℕ
  pub buffer_cap : ℕ
  pub leaf_cap : ℕ

module _ {ℓ} {A : Type ℓ} where
  -- `make` of that many empty buckets
  abbrev pub empty_buckets : ℕ → List (List A)
  empty_buckets zero = []
  empty_buckets (suc n) = [] ∷ empty_buckets n

  -- `buckets[i] = append(buckets[i], msg)`
  abbrev pub add_to_bucket : List (List A) → ℕ → A → List (List A)
  add_to_bucket [] i m = []
  add_to_bucket (b ∷ bs) zero m = (b ++ m ∷ []) ∷ bs
  add_to_bucket (b ∷ bs) (suc i) m = b ∷ add_to_bucket bs i m

  -- `buckets[i]`
  abbrev pub bucket_at : List (List A) → ℕ → List A
  bucket_at [] i = []
  bucket_at (b ∷ bs) zero = b
  bucket_at (b ∷ bs) (suc i) = bucket_at bs i

  -- the greedy loop from index `i` on, with the heaviest bucket so far and its length
  unfoldable pub heaviest_from : List (List A) → ℕ → ℕ → ℕ → ℕ
  heaviest_from [] i best len = best
  heaviest_from (b ∷ bs) i best len =
      let better = ltb len (length b) in
      heaviest_from bs (suc i) (if better then i else best) (if better then length b else len)

  unfoldable pub heaviest : List (List A) → ℕ
  unfolding heaviest_from
  heaviest [] = 0
  heaviest (b ∷ bs) = heaviest_from bs 1 0 (length b)

  abbrev pub join_buckets : List (List A) → List A
  join_buckets [] = []
  join_buckets (b ∷ bs) = b ++ join_buckets bs

  -- the compacted buffer: every bucket but one, in the order of the children
  abbrev pub unflushed : List (List A) → ℕ → List A
  unflushed [] h = []
  unflushed (b ∷ bs) zero = join_buckets bs
  unflushed (b ∷ bs) (suc h) = b ++ unflushed bs h

module _ {ℓ κ} {K : Type ℓ} {V : Type κ} ⦃o : Ord K⦄ where
  -- the loop that parts the buffer
  unfoldable pub fill_buckets :
      List K → List (List (Message K V)) → List (Message K V) → List (List (Message K V))
  fill_buckets ps bs [] = bs
  fill_buckets ps bs (m ∷ ms) =
      fill_buckets ps (add_to_bucket bs (find_child_index ps (key_of m)) m) ms

  unfoldable pub partition : List K → ℕ → List (Message K V) → List (List (Message K V))
  unfolding fill_buckets
  partition ps n buf = fill_buckets ps (empty_buckets n) buf

  -- does the child exceed its bound, `leafCap` keys or `fanout` children?
  abbrev pub is_overfull : TreeParams → Option (Node K V) → Bool
  is_overfull params none = false
  is_overfull params (some (leaf es)) = ltb params.leaf_cap (length es)
  is_overfull params (some (internal ps cs buf s)) = ltb params.fanout (num_children cs)

  -- the end of `flushNode`: the node with its compacted buffer, after the split if one is due
  unfoldable pub finish_flush :
      TreeParams → List K → Children K V → List (Message K V) → ℕ → Node K V
  unfolding split_child
  finish_flush params ps cs buf h =
      if is_overfull params (child_at cs h)
      then (let (ps', cs') = split_child ps cs h in internal ps' cs' buf false)
      else internal ps cs buf false

module _ {ℓ κ} {K : Type ℓ} {V : Type κ} ⦃z : Zero V⦄ ⦃o : Ord K⦄ (params : TreeParams) where
  unfoldable mutual
    unfolding apply_to_leaf partition heaviest finish_flush

    -- A child receives its bucket: a leaf applies it, an internal node buffers it, and flushes in
    -- turn when its buffer is over capacity.
    pub receive : Node K V → List (Message K V) → Counters → Node K V × Counters
    receive (leaf es) msgs c = let (es', c') = apply_to_leaf es msgs c in (leaf es', c')
    receive (internal ps cs buf s) msgs c = elim (ltb params.buffer_cap (length (buf ++ msgs))) [
      | false ↦ (internal ps cs (buf ++ msgs) false, c)
      | true ↦
          let bs = partition ps (num_children cs) (buf ++ msgs) in
          let (cs', c') = receive_at cs (heaviest bs) (bucket_at bs (heaviest bs)) c in
          (finish_flush params ps cs' (unflushed bs (heaviest bs)) (heaviest bs), c')
    ]

    -- the child at an index receives the bucket
    pub receive_at : Children K V → ℕ → List (Message K V) → Counters → Children K V × Counters
    receive_at nil i msgs c = (nil, c)
    receive_at (cons n cs) zero msgs c = let (n', c') = receive n msgs c in (cons n' cs, c')
    receive_at (cons n cs) (suc i) msgs c =
        let (cs', c') = receive_at cs i msgs c in (cons n cs', c')

  -- `flushNode`
  unfoldable pub flush_node : Node K V → Counters → Node K V × Counters
  unfolding receive
  flush_node (leaf es) c = (leaf es, c)
  flush_node (internal ps cs [] s) c = (internal ps cs [] s, c)
  flush_node (internal ps cs (m ∷ ms) s) c =
      let bs = partition ps (num_children cs) (m ∷ ms) in
      let (cs', c') = receive_at cs (heaviest bs) (bucket_at bs (heaviest bs)) c in
      (finish_flush params ps cs' (unflushed bs (heaviest bs)) (heaviest bs), c')
