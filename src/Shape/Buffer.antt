-- ===== src/Shape/Buffer.antt =====
-- tree.go: the root's buffer over the point operations.
use fractaltree.Prelude.{
  suc, ◌≤◌, ◌<◌, ◌≡◌, Bool, none, List, [], ◌∷◌, arith, length, length-append, ltb, is_some,
  Bool-cases, inl, inr,
}
use fractaltree.Order.{Ord}
use fractaltree.Message.{Message, Zero, UpsertFn, put, delete, upsert}
use fractaltree.Message.Replay.{IsPoint}
use fractaltree.Node.{Node, leaf, internal, Children, num_children, append_to_buffer, leaf_search}
use fractaltree.Read.{get_from_node}
use fractaltree.Ordered.{IsOrdered}
use fractaltree.Apply.{Counters}
use fractaltree.Split.{split_root}
use fractaltree.Flush.{TreeParams, flush_node}
use fractaltree.Flush.Progress.{buffer_of, flush_node-progress}
use fractaltree.Tree.{
  BeTree, split_full_leaf, split_full_root, write_message, put_root, delete_root, upsert_root,
}
use fractaltree.Tree.Buffer.{append-Holds}
use fractaltree.Tree.Laws.{IsValid}
use fractaltree.Client.Keep.{ArePointsKept, run_keeps}
use fractaltree.Client.{Op, run}

module _ {ℓ κ} {K : Type ℓ} {V : Type κ} ⦃o : Ord K⦄ (params : TreeParams) where
  abbrev pub FitsBuffer : Node K V → Type 0
  FitsBuffer n = length (buffer_of n) ≤ params.buffer_cap

  split_full_leaf-FitsBuffer : (es : List (K × V)) → FitsBuffer (split_full_leaf params es)
  unfolding split_root
  split_full_leaf-FitsBuffer es = elim (Bool-cases (ltb params.leaf_cap (length es))) [
    | inl e ↦ rw e (omega arith)
    | inr e ↦ rw e (omega arith)
  ]

  split_full_root-FitsBuffer : (n : Node K V) → FitsBuffer n → FitsBuffer (split_full_root params n)
  unfolding split_root
  split_full_root-FitsBuffer (leaf es) h = h
  split_full_root-FitsBuffer (internal ps cs buf s) h =
      elim (Bool-cases (ltb params.fanout (num_children cs))) [
        | inl e ↦ rw e (omega arith)
        | inr e ↦ rw e h
      ]

module _ {ℓ κ} {K : Type ℓ} {V : Type κ} ⦃z : Zero V⦄ ⦃o : Ord K⦄ (params : TreeParams) where
  flush_shrinks :
      (ps : List K) (cs : Children K V) (buf : List (Message K V)) (s : Bool) (c : Counters)
      → IsOrdered none none (internal ps cs buf s)
      → 0 < length buf
      → length (buffer_of (flush_node params (internal ps cs buf s) c).0) < length buf
  flush_shrinks ps cs [] s c a h = absurd (omega arith)
  flush_shrinks ps cs (m ∷ ms) s c a h = (flush_node-progress params none none ps cs m ms s c a).0

  write_message-FitsBuffer :
      (ps : List K) (cs : Children K V) (buf : List (Message K V)) (s : Bool) (m : Message K V)
      (c : Counters)
      → IsOrdered none none (internal ps cs buf s)
      → IsPoint m
      → FitsBuffer params (internal ps cs buf s)
      → FitsBuffer params (write_message params ps cs buf m c).0
  unfolding write_message append_to_buffer
  write_message-FitsBuffer ps cs buf s m c a p h =
      let (buf', s') = append_to_buffer buf m in
      let grew : length buf' ≡ suc (length buf) = omega (arith, length-append buf (m ∷ [])) in
      let less =
        flush_shrinks ps cs buf' s' c (append-Holds ps cs buf s m a p).ordered
          (omega (arith, grew)) in
      elim (Bool-cases (ltb params.buffer_cap (length buf'))) [
        | inl e ↦ rw e (
            split_full_root-FitsBuffer params (flush_node params (internal ps cs buf' s') c).0
              (omega (arith, less, grew, h)))
        | inr e ↦ rw e (ground arith)
      ]

  put_root-FitsBuffer :
      (n : Node K V) (c : Counters) (k : K) (v : V) (known_new : Bool)
      → IsOrdered none none n
      → FitsBuffer params n
      → FitsBuffer params (put_root params n c k v known_new).0
  put_root-FitsBuffer (leaf es) c k v known_new a h = split_full_leaf-FitsBuffer params _
  put_root-FitsBuffer (internal ps cs buf s) c k v known_new a h =
      write_message-FitsBuffer ps cs buf s (put k v _) _ a tt h

  delete_root-FitsBuffer :
      (n : Node K V) (c : Counters) (k : K)
      → IsOrdered none none n
      → FitsBuffer params n
      → FitsBuffer params (delete_root params n c k).0.0
  delete_root-FitsBuffer (leaf es) c k a h = ground arith
  delete_root-FitsBuffer (internal ps cs buf s) c k a h =
      elim (Bool-cases (is_some (get_from_node (internal ps cs buf s) k))) [
        | inl e ↦ rw e (write_message-FitsBuffer ps cs buf s (delete k) _ a tt h)
        | inr e ↦ rw e h
      ]

  upsert_root-FitsBuffer :
      (n : Node K V) (c : Counters) (k : K) (f : UpsertFn V)
      → IsOrdered none none n
      → FitsBuffer params n
      → FitsBuffer params (upsert_root params n c k f).0
  upsert_root-FitsBuffer (leaf es) c k f a h = elim (Bool-cases (leaf_search es k).1) [
    | inl e ↦ rw e (split_full_leaf-FitsBuffer params _)
    | inr e ↦ rw e (split_full_leaf-FitsBuffer params _)
  ]
  upsert_root-FitsBuffer (internal ps cs buf s) c k f a h =
      write_message-FitsBuffer ps cs buf s (upsert k f) c a tt h

module _ {ℓ κ} {K : Type ℓ} {V : Type κ} ⦃z : Zero V⦄ ⦃o : Ord K⦄ where
  abbrev pub FitsRoot : BeTree K V → Type 0
  FitsRoot t = FitsBuffer t.params t.root

  abbrev Fitting : TreeParams → Node K V → Counters → Type 0
  Fitting params n c = FitsBuffer params n

  buffer_points : ArePointsKept Fitting
  buffer_points = record {
    put_keeps = put_root-FitsBuffer;
    delete_keeps = delete_root-FitsBuffer;
    upsert_keeps = upsert_root-FitsBuffer;
    clear_keeps = λ params n c h. omega arith;
  }

  -- Point calls on a valid tree never leave more messages in the root's buffer than its capacity, if
  -- there were no more at first.
  pub run-FitsRoot :
      (ops : List (Op K V)) (t : BeTree K V) → IsValid t → FitsRoot t → FitsRoot (run ops t).0
  run-FitsRoot ops t a h = run_keeps Fitting buffer_points ops t a h
