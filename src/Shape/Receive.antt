-- ===== src/Shape/Receive.antt =====
-- flush.go, flushNode: however far a flush cascades, at most the node it starts from has a child too many.
use fractaltree.Prelude.{
  ℕ, zero, suc, ◌≤◌, ◌≡◌, refl, ap, sym, subst, Bool, Option, some, List, [], ◌∷◌, ◌++◌, arith, All,
  All-append, length, ltb, Bool-cases, inl, inr,
}
use fractaltree.Order.{Ord}
use fractaltree.Message.{Message, Zero}
use fractaltree.Node.{Node, leaf, internal, Children, nil, cons, num_children}
use fractaltree.Ordered.{Fits, IsOrdered, AreOrdered}
use fractaltree.Apply.{Counters}
use fractaltree.Flush.{
  TreeParams, bucket_at, heaviest, unflushed, partition, finish_flush, receive, receive_at,
  flush_node,
}
use fractaltree.Flush.Buckets.{parted, child_index, partition-parted, bucket_at-All}
use fractaltree.Flush.Eval.{
  RoutesTo, bucket-RoutesTo, first_bounds, later_bounds, receive_at-HaveReceived, branch,
}
use fractaltree.Shape.{IsShaped, AreShaped, IsWide, AreWideAt}
use fractaltree.Shape.Flush.{within_fanout, finish_flush-IsWide}

module _ {ℓ κ} {K : Type ℓ} {V : Type κ} (fanout : ℕ) where
  each_within : (d h : ℕ) (cs : Children K V) → AreShaped fanout d cs → AreWideAt fanout d h cs
  unfolding IsShaped AreWideAt
  each_within d h nil a = tt
  each_within d zero (cons c cs) a = (within_fanout fanout d c a.0, a.1)
  each_within d (suc h) (cons c cs) a = (a.0, each_within d h cs a.1)

module _ {ℓ κ} {K : Type ℓ} {V : Type κ} ⦃z : Zero V⦄ ⦃o : Ord K⦄ (params : TreeParams)
    (two : 2 ≤ params.fanout) where
  num_children-receive_at :
      (cs : Children K V) (h : ℕ) (msgs : List (Message K V)) (c : Counters)
      → num_children (receive_at params cs h msgs c).0 ≡ num_children cs
  unfolding receive_at
  num_children-receive_at nil h msgs c = refl
  num_children-receive_at (cons n cs) zero msgs c = refl
  num_children-receive_at (cons n cs) (suc h) msgs c = ap suc (num_children-receive_at cs h msgs c)

  -- what the recursive calls on the children give
  WideAt : Option K → Option K → List K → ℕ → Children K V → Type (ℓ ⊔ κ)
  WideAt lo hi ps d cs =
      (h : ℕ) (msgs : List (Message K V)) (c : Counters)
      → All (Fits lo hi) msgs
      → RoutesTo ps h msgs
      → AreWideAt params.fanout d h (receive_at params cs h msgs c).0

  flush_parts-IsWide :
      (lo hi : Option K) (ps : List K) (cs : Children K V) (buf : List (Message K V)) (h d : ℕ)
      (c : Counters)
      → All (Fits lo hi) buf
      → AreOrdered lo hi ps cs
      → num_children cs ≤ params.fanout
      → WideAt lo hi ps d cs
      → IsWide params.fanout (suc d) (
          finish_flush params ps
            (receive_at params cs h (bucket_at (partition ps (num_children cs) buf) h) c).0
            (unflushed (partition ps (num_children cs) buf) h)
            h)
  unfolding WideAt
  flush_parts-IsWide lo hi ps cs buf h d c f a l rec =
      let bs = parted (child_index ps) 0 (num_children cs) buf in
      let bucket = bucket_at bs h in
      let fits = bucket_at-All (child_index ps) (Fits lo hi) 0 (num_children cs) h buf f in
      let routes = bucket-RoutesTo lo hi ps cs buf h a in
      let got = receive_at-HaveReceived params cs lo hi ps a h bucket c fits routes in
      rw (partition-parted ps (num_children cs) buf) (
        finish_flush-IsWide params two lo hi ps (receive_at params cs h bucket c).0 (unflushed bs h)
          d h got.ordered (rec h bucket c fits routes)
          (omega (arith, l, num_children-receive_at cs h bucket c)))

  internal_keeps :
      (ps : List K) (cs : Children K V) (buf : List (Message K V)) (s : Bool) (lo hi : Option K)
      (d : ℕ) (msgs : List (Message K V)) (c : Counters)
      → IsOrdered lo hi (internal ps cs buf s)
      → IsShaped params.fanout (suc d) (internal ps cs buf s)
      → All (Fits lo hi) msgs
      → WideAt lo hi ps d cs
      → IsWide params.fanout (suc d) (receive params (internal ps cs buf s) msgs c).0
  unfolding receive IsOrdered IsShaped IsWide
  internal_keeps ps cs buf s lo hi d msgs c a w f rec =
      let fits = All-append (Fits lo hi) buf msgs a.0 f in
      let goal = λ (full : Bool).
        IsWide params.fanout (suc d) (branch params ps cs (buf ++ msgs) c full).0 in
      elim (Bool-cases (ltb params.buffer_cap (length (buf ++ msgs)))) [
        | inl e ↦ subst goal (sym e) (
            flush_parts-IsWide lo hi ps cs (buf ++ msgs)
              (heaviest (partition ps (num_children cs) (buf ++ msgs))) d c fits a.2 w.0 rec)
        | inr e ↦ subst goal (sym e) (omega (arith, w.0), w.1)
      ]

  mutual
    unfolding WideAt receive IsOrdered IsShaped IsWide AreWideAt

    receive-IsWide :
        (n : Node K V) (lo hi : Option K) (d : ℕ) (msgs : List (Message K V)) (c : Counters)
        → IsOrdered lo hi n
        → IsShaped params.fanout d n
        → All (Fits lo hi) msgs
        → IsWide params.fanout d (receive params n msgs c).0
    receive-IsWide (leaf es) lo hi zero msgs c a w f = tt
    receive-IsWide (leaf es) lo hi (suc d) msgs c a w f = absurd w
    receive-IsWide (internal ps cs buf s) lo hi zero msgs c a w f = absurd w
    receive-IsWide (internal ps cs buf s) lo hi (suc d) msgs c a w f =
        internal_keeps ps cs buf s lo hi d msgs c a w f (receive_at-AreWideAt cs lo hi ps d a.2 w.1)

    receive_at-AreWideAt :
        (cs : Children K V) (lo hi : Option K) (ps : List K) (d : ℕ)
        → AreOrdered lo hi ps cs
        → AreShaped params.fanout d cs
        → (h : ℕ) (msgs : List (Message K V)) (c : Counters) → All (Fits lo hi) msgs
        → RoutesTo ps h msgs
        → AreWideAt params.fanout d h (receive_at params cs h msgs c).0
    receive_at-AreWideAt nil lo hi ps d a w h msgs c f r = absurd a
    receive_at-AreWideAt (cons n (cons b cs)) lo hi [] d a w h msgs c f r = absurd a
    receive_at-AreWideAt (cons n nil) lo hi [] d a w zero msgs c f r =
        (receive-IsWide n lo hi d msgs c a w.0 f, tt)
    receive_at-AreWideAt (cons n nil) lo hi [] d a w (suc h) msgs c f r = (w.0, tt)
    receive_at-AreWideAt (cons n cs) lo hi (p ∷ ps) d a w zero msgs c f r =
        (receive-IsWide n lo (some p) d msgs c a.1 w.0 (first_bounds lo hi p ps msgs f r), w.1)
    receive_at-AreWideAt (cons n cs) lo hi (p ∷ ps) d a w (suc h) msgs c f r =
        let fits = later_bounds lo hi p ps h msgs f r in
        (w.0, receive_at-AreWideAt cs (some p) hi ps d a.2 w.1 h msgs c fits.0 fits.1)

  pub flush_node-IsWide :
      (n : Node K V) (lo hi : Option K) (d : ℕ) (c : Counters)
      → IsOrdered lo hi n
      → IsShaped params.fanout d n
      → IsWide params.fanout d (flush_node params n c).0
  unfolding flush_node IsOrdered IsShaped IsWide WideAt
  flush_node-IsWide (leaf es) lo hi d c a w = within_fanout params.fanout d (leaf es) w
  flush_node-IsWide (internal ps cs [] s) lo hi d c a w =
      within_fanout params.fanout d (internal ps cs [] s) w
  flush_node-IsWide (internal ps cs (m ∷ ms) s) lo hi zero c a w = absurd w
  flush_node-IsWide (internal ps cs (m ∷ ms) s) lo hi (suc d) c a w =
      flush_parts-IsWide lo hi ps cs (m ∷ ms) (heaviest (partition ps (num_children cs) (m ∷ ms))) d
        c a.0 a.2 w.0 (receive_at-AreWideAt cs lo hi ps d a.2 w.1)
