-- ===== src/Shape/Root.antt =====
-- flush.go, splitRoot, and the end of every write of tree.go: an overfull root is split.
use fractaltree.Prelude.{
  ℕ, zero, suc, ◌≤◌, Bool, none, some, List, [], arith, length, ltb, if◌then◌else◌, Bool-cases, inl,
  inr,
}
use fractaltree.Order.{Ord}
use fractaltree.Message.{Message, Zero}
use fractaltree.Message.Replay.{IsPoint}
use fractaltree.Node.{Node, leaf, internal, Children, nil, cons, append_to_buffer}
use fractaltree.Ordered.{IsOrdered}
use fractaltree.Apply.{Counters}
use fractaltree.Split.{split_root}
use fractaltree.Split.Child.{single}
use fractaltree.Flush.{TreeParams, is_overfull, flush_node}
use fractaltree.Flush.Eval.{flush_node_lem}
use fractaltree.Tree.{split_full_leaf, split_full_root, write_message}
use fractaltree.Tree.Buffer.{append-Holds}
use fractaltree.DeleteRange.{flush_full_root}
use fractaltree.Shape.{IsShaped, IsWide, AreWideAt}
use fractaltree.Shape.Flush.{not_overfull, split_child-AreShaped}
use fractaltree.Shape.Receive.{flush_node-IsWide}

-- a node whose leaves are all at one depth, and whose internal nodes have no more children than the fanout
abbrev pub IsBalanced {ℓ κ} : {K : Type ℓ} {V : Type κ} → ℕ → Node K V → Type 0
IsBalanced fanout n = (d : ℕ) × IsShaped fanout d n

module _ {ℓ κ} {K : Type ℓ} {V : Type κ} ⦃o : Ord K⦄ (params : TreeParams)
    (two : 2 ≤ params.fanout) where
  -- the split of an overfull root
  grown_root :
      (n : Node K V) (d : ℕ)
      → IsOrdered none none n
      → IsWide params.fanout d n
      → IsBalanced params.fanout (if is_overfull params (some n) then split_root n else n)
  unfolding split_root IsShaped AreWideAt
  grown_root n d a w = elim (Bool-cases (is_overfull params (some n))) [
    | inl e ↦
        let s =
          split_child-AreShaped params two [] (cons n nil) none none d 0 (single n none none a)
            (w, tt) e in
        rw e (suc d, (omega (arith, s.1, two), s.0))
    | inr e ↦ rw e (d, not_overfull params d n e w)
  ]

  pub split_full_leaf-IsBalanced :
      (es : List (K × V))
      → IsOrdered none none (leaf es)
      → IsBalanced params.fanout (split_full_leaf params es)
  unfolding IsWide
  split_full_leaf-IsBalanced es a = grown_root (leaf es) 0 a tt

  split_full_root-IsBalanced :
      (n : Node K V) (d : ℕ)
      → IsOrdered none none n
      → IsWide params.fanout d n
      → IsBalanced params.fanout (split_full_root params n)
  unfolding IsWide IsShaped
  split_full_root-IsBalanced (leaf es) d a w = (0, tt)
  split_full_root-IsBalanced (internal ps cs buf s) d a w = grown_root (internal ps cs buf s) d a w

  pub leaf-IsBalanced : (es : List (K × V)) → IsBalanced params.fanout (leaf es)
  unfolding IsShaped
  leaf-IsBalanced es = (0, tt)

  -- another buffer does not change the shape
  pub rebuffered :
      (ps : List K) (cs : Children K V) (buf buf' : List (Message K V)) (s s' : Bool)
      → IsBalanced params.fanout (internal ps cs buf s)
      → IsBalanced params.fanout (internal ps cs buf' s')
  unfolding IsShaped
  rebuffered ps cs buf buf' s s' (zero, h) = absurd h
  rebuffered ps cs buf buf' s s' (suc d, h) = (suc d, h)

module _ {ℓ κ} {K : Type ℓ} {V : Type κ} ⦃z : Zero V⦄ ⦃o : Ord K⦄ (params : TreeParams)
    (two : 2 ≤ params.fanout) where
  pub flush_full_root-IsBalanced :
      (ps : List K) (cs : Children K V) (b : List (Message K V) × Bool) (c : Counters)
      → IsOrdered none none (internal ps cs b.0 b.1)
      → IsBalanced params.fanout (internal ps cs b.0 b.1)
      → IsBalanced params.fanout (flush_full_root params ps cs b c).0
  flush_full_root-IsBalanced ps cs b c a h =
      let n = internal ps cs b.0 b.1 in
      let g = flush_node_lem params n none none c a in
      elim (Bool-cases (ltb params.buffer_cap (length b.0))) [
        | inl e ↦ rw e (
            split_full_root-IsBalanced params two (flush_node params n c).0 h.0 g.0
              (flush_node-IsWide params two n none none h.0 c a h.1))
        | inr e ↦ rw e h
      ]

  pub write_message-IsBalanced :
      (ps : List K) (cs : Children K V) (buf : List (Message K V)) (s : Bool) (m : Message K V)
      (c : Counters)
      → IsOrdered none none (internal ps cs buf s)
      → IsPoint m
      → IsBalanced params.fanout (internal ps cs buf s)
      → IsBalanced params.fanout (write_message params ps cs buf m c).0
  unfolding write_message append_to_buffer
  write_message-IsBalanced ps cs buf s m c a p h =
      let b = append_to_buffer buf m in
      flush_full_root-IsBalanced ps cs b c (append-Holds ps cs buf s m a p).ordered
        (rebuffered params two ps cs buf b.0 s b.1 h)
