-- ===== src/Count/Flush.antt =====
-- flush.go, flushNode: a flush keeps the counters true, and no pending delete comes to miss.
use fractaltree.Prelude.{
  ℕ, zero, suc, ◌+◌, ◌≡◌, refl, ap, sym, subst, ◌∙◌, Bool, true, Option, some, List, [], ◌∷◌, ◌++◌,
  arith, All, All-append, length, ltb, Bool-cases, inl, inr,
}
use fractaltree.Order.{Ord}
use fractaltree.Message.{Message, Zero}
use fractaltree.Node.{Node, leaf, internal, Children, nil, cons, num_children, child_at}
use fractaltree.Ordered.{Fits, IsOrdered, AreOrdered, eval, eval_at}
use fractaltree.Apply.{Counters, apply_to_leaf}
use fractaltree.Split.Child.{split_child-IsSame}
use fractaltree.Flush.{
  TreeParams, bucket_at, heaviest, unflushed, partition, is_overfull, finish_flush, receive,
  receive_at, flush_node,
}
use fractaltree.Flush.Buckets.{parted, child_index, partition-parted, bucket_at-All}
use fractaltree.Flush.Eval.{
  RoutesTo, first_bounds, later_bounds, bucket-RoutesTo, receive_at-HaveReceived, branch,
}
use fractaltree.Count.{
  total, tally, tally_children, counted, deleting, one_each, none_each, added, pending, hits,
  AreHit, ChildrenHit,
}
use fractaltree.Count.Buckets.{total-append}
use fractaltree.Count.Hits.{hits-append}
use fractaltree.Count.Parted.{hits_first, hits_later, total_kept, bucket_hits, rest_hits}
use fractaltree.Count.Leaf.{Tracks, apply_to_leaf-Tracks}
use fractaltree.Count.Split.{split_child-Keep}
use fractaltree.Count.Totals.{
  NodeTracks, ChildrenTrack, total-one_each, total-none_each, track_first, track_later,
}

module _ {ℓ κ} {K : Type ℓ} {V : Type κ} ⦃z : Zero V⦄ ⦃o : Ord K⦄ (params : TreeParams) where
  -- the end of a flush keeps what the children hold
  finish_flush-Keep :
      (lo hi : Option K) (ps : List K) (cs : Children K V) (buf : List (Message K V)) (h : ℕ)
      → AreOrdered lo hi ps cs
      → ChildrenHit cs
      → ((k : K) → hits k buf (eval_at ps cs k) ≡ true)
      → ((u : K × V → ℕ) (w : Message K V → ℕ)
          → tally u w (finish_flush params ps cs buf h) ≡ total w buf + tally_children u w cs)
        × AreHit (finish_flush params ps cs buf h)
  unfolding finish_flush tally AreHit
  finish_flush-Keep lo hi ps cs buf h a g q =
      let s = split_child-IsSame ps cs lo hi h a in
      let t = split_child-Keep ps cs lo hi h a g in
      elim (Bool-cases (is_overfull params (child_at cs h))) [
        | inl e ↦ rw e (
          λ u w. ap (λ n. total w buf + n) (t.0 u w),
          ((λ k. ap (hits k buf) (s.value k) ∙ q k), t.1),
        )
        | inr e ↦ rw e (λ u w. refl, (q, g))
      ]

  -- what the recursive calls on the children give
  TracksAt : Option K → Option K → List K → Children K V → Type (ℓ ⊔ κ)
  TracksAt lo hi ps cs =
      (h : ℕ) (msgs : List (Message K V)) (c : Counters)
      → All (Fits lo hi) msgs
      → RoutesTo ps h msgs
      → ((k : K) → hits k msgs (eval_at ps cs k) ≡ true)
      → ChildrenHit (receive_at params cs h msgs c).0
        × ChildrenTrack cs msgs (receive_at params cs h msgs c).0 c
            (receive_at params cs h msgs c).1

  -- flushing a buffer, any child chosen
  flush_parts-Tracks :
      (lo hi : Option K) (ps : List K) (cs : Children K V) (buf : List (Message K V)) (h : ℕ)
      (c : Counters)
      → All (Fits lo hi) buf
      → AreOrdered lo hi ps cs
      → TracksAt lo hi ps cs
      → ((k : K) → hits k buf (eval_at ps cs k) ≡ true)
      → (let r = receive_at params cs h (bucket_at (partition ps (num_children cs) buf) h) c in
          let n = finish_flush params ps r.0 (unflushed (partition ps (num_children cs) buf) h) h in
          AreHit n
          × Tracks
              (total counted buf + tally_children one_each counted cs)
              (total deleting buf + tally_children none_each deleting cs)
              (added n)
              (pending n)
              c
              r.1)
  unfolding TracksAt
  flush_parts-Tracks lo hi ps cs buf h c f a rec q =
      let bs = parted (child_index ps) 0 (num_children cs) buf in
      let bucket = bucket_at bs h in
      let fits = bucket_at-All (child_index ps) (Fits lo hi) 0 (num_children cs) h buf f in
      let routes = bucket-RoutesTo lo hi ps cs buf h a in
      let got = receive_at-HaveReceived params cs lo hi ps a h bucket c fits routes in
      let r = rec h bucket c fits routes (λ k. bucket_hits lo hi ps cs buf h k a (q k)) in
      let n =
        finish_flush-Keep lo hi ps (receive_at params cs h bucket c).0 (unflushed bs h) h
          got.ordered r.0
          (λ k.
            rest_hits lo hi ps cs (receive_at params cs h bucket c).0 buf bucket h k a got (q k)) in
      let t = r.1 in
      rw (partition-parted ps (num_children cs) buf) (
        n.1,
        record {
          size = omega (
            arith,
            t.size,
            n.0 one_each counted,
            n.0 none_each deleting,
            total_kept lo hi ps cs buf h counted a,
            total_kept lo hi ps cs buf h deleting a,
          );
          deletes =
              omega
                (arith, t.deletes, n.0 none_each deleting, total_kept lo hi ps cs buf h deleting a);
        },
      )

  leaf_tracks :
      (es : List (K × V)) (lo hi : Option K) (msgs : List (Message K V)) (c : Counters)
      → IsOrdered lo hi (leaf es)
      → ((k : K) → hits k msgs (eval (leaf es) k) ≡ true)
      → NodeTracks (leaf es) msgs (leaf (apply_to_leaf es msgs c).0) c (apply_to_leaf es msgs c).1
  unfolding IsOrdered eval tally
  leaf_tracks es lo hi msgs c a q =
      let t = apply_to_leaf-Tracks es msgs c a.1 q in
      let after = (apply_to_leaf es msgs c).0 in
      record {
        size = omega (
          arith,
          t.size,
          total-one_each es,
          total-one_each after,
          total-none_each es,
          total-none_each after,
        );
        deletes = omega (arith, t.deletes, total-none_each es, total-none_each after);
      }

  internal_tracks :
      (ps : List K) (cs : Children K V) (buf : List (Message K V)) (s : Bool) (lo hi : Option K)
      (msgs : List (Message K V)) (c : Counters)
      → IsOrdered lo hi (internal ps cs buf s)
      → AreHit (internal ps cs buf s)
      → All (Fits lo hi) msgs
      → ((k : K) → hits k msgs (eval (internal ps cs buf s) k) ≡ true)
      → TracksAt lo hi ps cs
      → (let r = receive params (internal ps cs buf s) msgs c in
          AreHit r.0 × NodeTracks (internal ps cs buf s) msgs r.0 c r.1)
  unfolding receive IsOrdered eval tally AreHit
  internal_tracks ps cs buf s lo hi msgs c a g f q rec =
      let fits = All-append (Fits lo hi) buf msgs a.0 f in
      let hit_all : (k : K) → hits k (buf ++ msgs) (eval_at ps cs k) ≡ true =
        λ k. hits-append k buf msgs (eval_at ps cs k) ∙ ground (arith, g.0 k, q k) in
      let goal = λ (full : Bool).
        AreHit (branch params ps cs (buf ++ msgs) c full).0
        × NodeTracks (internal ps cs buf s) msgs (branch params ps cs (buf ++ msgs) c full).0 c
            (branch params ps cs (buf ++ msgs) c full).1 in
      let more = λ (w : Message K V → ℕ). total-append w buf msgs in
      elim (Bool-cases (ltb params.buffer_cap (length (buf ++ msgs)))) [
        | inl e ↦ subst goal (sym e) (
            let r =
              flush_parts-Tracks lo hi ps cs (buf ++ msgs)
                (heaviest (partition ps (num_children cs) (buf ++ msgs))) c fits a.2 rec hit_all in
            (
              r.0,
              record {
                size = omega (arith, r.1.size, more counted, more deleting);
                deletes = omega (arith, r.1.deletes, more deleting);
              },
            ))
        | inr e ↦ subst goal (sym e) (
          (hit_all, g.1),
          record {
            size = omega (arith, more counted, more deleting);
            deletes = omega (arith, more deleting);
          },
        )
      ]

  mutual
    unfolding TracksAt receive IsOrdered eval AreHit

    receive-Tracks :
        (n : Node K V) (lo hi : Option K) (msgs : List (Message K V)) (c : Counters)
        → IsOrdered lo hi n
        → AreHit n
        → All (Fits lo hi) msgs
        → ((k : K) → hits k msgs (eval n k) ≡ true)
        → AreHit (receive params n msgs c).0
          × NodeTracks n msgs (receive params n msgs c).0 c (receive params n msgs c).1
    receive-Tracks (leaf es) lo hi msgs c a g f q = (tt, leaf_tracks es lo hi msgs c a q)
    receive-Tracks (internal ps cs buf s) lo hi msgs c a g f q =
        internal_tracks ps cs buf s lo hi msgs c a g f q (receive_at-Tracks cs lo hi ps a.2 g.1)

    receive_at-Tracks :
        (cs : Children K V) (lo hi : Option K) (ps : List K)
        → AreOrdered lo hi ps cs
        → ChildrenHit cs
        → (h : ℕ) (msgs : List (Message K V)) (c : Counters) → All (Fits lo hi) msgs
        → RoutesTo ps h msgs
        → ((k : K) → hits k msgs (eval_at ps cs k) ≡ true)
        → ChildrenHit (receive_at params cs h msgs c).0
          × ChildrenTrack cs msgs
              (receive_at params cs h msgs c).0
              c
              (receive_at params cs h msgs c).1
    receive_at-Tracks nil lo hi ps a g h msgs c f r q = absurd a
    receive_at-Tracks (cons n (cons d cs)) lo hi [] a g h msgs c f r q = absurd a
    receive_at-Tracks (cons n nil) lo hi [] a g (suc h) [] c f r q =
        (g, record { size = omega arith; deletes = omega arith })
    receive_at-Tracks (cons n nil) lo hi [] a g (suc h) (m ∷ ms) c f r q =
        absurd (omega (arith, r.0))
    receive_at-Tracks (cons n nil) lo hi [] a g zero msgs c f r q =
        let t = receive-Tracks n lo hi msgs c a g.0 f q in
        ((t.0, g.1), track_first n (receive params n msgs c).0 nil msgs c _ t.1)
    receive_at-Tracks (cons n cs) lo hi (p ∷ ps) a g zero msgs c f r q =
        let t =
          receive-Tracks n lo (some p) msgs c a.1 g.0 (first_bounds lo hi p ps msgs f r)
            (λ k. hits_first p ps n cs msgs k r (q k)) in
        ((t.0, g.1), track_first n (receive params n msgs c).0 cs msgs c _ t.1)
    receive_at-Tracks (cons n cs) lo hi (p ∷ ps) a g (suc h) msgs c f r q =
        let fits = later_bounds lo hi p ps h msgs f r in
        let t =
          receive_at-Tracks cs (some p) hi ps a.2 g.1 h msgs c fits.0 fits.1
            (λ k. hits_later p ps n cs h msgs k r (q k)) in
        ((g.0, t.0), track_later n cs (receive_at params cs h msgs c).0 msgs c _ t.1)

  -- A flush, however far it cascades and whatever it splits, changes the counters as it changes the
  -- entries and the pending messages.
  pub flush_node-Tracks :
      (n : Node K V) (lo hi : Option K) (c : Counters)
      → IsOrdered lo hi n
      → AreHit n
      → AreHit (flush_node params n c).0
        × Tracks
            (added n)
            (pending n)
            (added (flush_node params n c).0)
            (pending (flush_node params n c).0)
            c
            (flush_node params n c).1
  unfolding TracksAt flush_node IsOrdered AreHit tally
  flush_node-Tracks (leaf es) lo hi c a g =
      (g, record { size = omega arith; deletes = omega arith })
  flush_node-Tracks (internal ps cs [] s) lo hi c a g =
      (g, record { size = omega arith; deletes = omega arith })
  flush_node-Tracks (internal ps cs (m ∷ ms) s) lo hi c a g =
      flush_parts-Tracks lo hi ps cs (m ∷ ms) (heaviest (partition ps (num_children cs) (m ∷ ms))) c
        a.0 a.2 (receive_at-Tracks cs lo hi ps a.2 g.1) g.0
