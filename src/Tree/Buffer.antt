-- ===== src/Tree/Buffer.antt =====
-- tree.go, the common end of a write: a buffered message acts on the tree at once.
use fractaltree.Prelude.{
  ◌≡◌, ◌∙◌, Bool, true, Option, none, List, [], ◌∷◌, ◌++◌, arith, All-append, length, ltb, leb,
  Bool-cases, inl, inr,
}
use fractaltree.Order.{Ord}
use fractaltree.Message.{Message, Zero}
use fractaltree.Message.Replay.{step, replay, replay-append, replay-one, IsPoint}
use fractaltree.Node.{Node, leaf, internal, Children, num_children, append_to_buffer}
use fractaltree.Node.Buffer.{IsBufferSorted}
use fractaltree.Ordered.{Fits, IsOrdered, eval, eval_at}
use fractaltree.Apply.{Counters}
use fractaltree.Split.Child.{split_root_lem}
use fractaltree.Flush.{TreeParams, flush_node}
use fractaltree.Flush.Eval.{flush_node_lem}
use fractaltree.Tree.{split_full_leaf, split_full_root, write_message}

module _ {ℓ κ} {K : Type ℓ} {V : Type κ} ⦃o : Ord K⦄ where
  -- an ordered node with the given values
  pub record Holds (n : Node K V) (f : K → Option V) : Type (ℓ ⊔ κ) where
    pub ordered : IsOrdered none none n
    pub value : (k : K) → eval n k ≡ f k

  -- `appendToBuffer` marks a buffer sorted only where it holds one message at most.
  pub short-IsBufferSorted :
      (ms : List (Message K V)) → leb (length ms) 1 ≡ true → IsBufferSorted ms
  short-IsBufferSorted [] h = tt
  short-IsBufferSorted (m ∷ []) h = (tt, tt)
  short-IsBufferSorted (m ∷ n ∷ ms) h = absurd (ground arith)

  pub split_full_leaf-Holds :
      (params : TreeParams) (es : List (K × V)) (f : K → Option V)
      → Holds (leaf es) f
      → Holds (split_full_leaf params es) f
  split_full_leaf-Holds params es f h =
      let s = split_root_lem (leaf es) none none h.ordered in
      elim (Bool-cases (ltb params.leaf_cap (length es))) [
        | inl e ↦ rw e (record { ordered = s.0; value = λ k. s.1 k ∙ h.value k })
        | inr e ↦ rw e h
      ]

  pub split_full_root-Holds :
      (params : TreeParams) (n : Node K V) (f : K → Option V)
      → Holds n f
      → Holds (split_full_root params n) f
  split_full_root-Holds params (leaf es) f h = h
  split_full_root-Holds params (internal ps cs buf b) f h =
      let s = split_root_lem (internal ps cs buf b) none none h.ordered in
      elim (Bool-cases (ltb params.fanout (num_children cs))) [
        | inl e ↦ rw e (record { ordered = s.0; value = λ k. s.1 k ∙ h.value k })
        | inr e ↦ rw e h
      ]

  pub append-Holds :
      (ps : List K) (cs : Children K V) (buf : List (Message K V)) (s : Bool) (m : Message K V)
      → IsOrdered none none (internal ps cs buf s)
      → IsPoint m
      → Holds
          (internal ps cs (append_to_buffer buf m).0 (append_to_buffer buf m).1)
          (λ k. step k m (eval (internal ps cs buf s) k))
  unfolding append_to_buffer IsOrdered eval
  append-Holds ps cs buf s m a p = record {
    ordered = (
      All-append (Fits none none) buf (m ∷ []) a.0 (((tt, tt), p), tt),
      λ e. short-IsBufferSorted (buf ++ m ∷ []) e,
      a.2,
    );
    value = λ k.
        replay-append k buf (m ∷ []) (eval_at ps cs k)
        ∙ replay-one k m (replay k buf (eval_at ps cs k));
  }

module _ {ℓ κ} {K : Type ℓ} {V : Type κ} ⦃z : Zero V⦄ ⦃o : Ord K⦄ where
  -- A put, delete or upsert written to an ordered internal root takes effect at every key and
  -- leaves an ordered tree, also when the write flushes the buffer and splits the root.
  pub write_message-Holds :
      (params : TreeParams) (ps : List K) (cs : Children K V) (buf : List (Message K V)) (s : Bool)
      (m : Message K V) (c : Counters)
      → IsOrdered none none (internal ps cs buf s)
      → IsPoint m
      → Holds (write_message params ps cs buf m c).0 (λ k. step k m (eval (internal ps cs buf s) k))
  unfolding write_message
  write_message-Holds params ps cs buf s m c a p =
      let f = λ (k : K). step k m (eval (internal ps cs buf s) k) in
      let h = append-Holds ps cs buf s m a p in
      let (buf', s') = append_to_buffer buf m in
      let g = flush_node_lem params (internal ps cs buf' s') none none c h.ordered in
      elim (Bool-cases (ltb params.buffer_cap (length buf'))) [
        | inl e ↦ rw e (
            split_full_root-Holds params (flush_node params (internal ps cs buf' s') c).0 f
              (record { ordered = g.0; value = λ k. g.1 k ∙ h.value k }))
        | inr e ↦ rw e h
      ]
