-- ===== src/Flush/Eval.antt =====
-- flush.go, flushNode: a flush keeps the tree ordered, and the value at every key.
use native.Mathlib.Nat.{zero-add}
use native.Mathlib.Decide.{ℕ_discrete}
use fractaltree.Prelude.{
  ℕ, zero, suc, ◌≤◌, ◌≡◌, ◌≢◌, refl, ap, sym, subst, ◌∙◌, Bool, true, false, Option, some, List, [],
  ◌∷◌, ◌++◌, arith, All, All-append, length, ltb, Bool-cases, inl, inr,
}
use fractaltree.Order.{Ord, is_le}
use fractaltree.Message.{Message, Zero, key_of}
use fractaltree.Message.Replay.{replay, replay-append, replay-nil, IsPoint}
use fractaltree.Node.{
  Node, leaf, internal, Children, nil, cons, num_children, child_at, find_child_index,
}
use fractaltree.Ordered.{InRange, Fits, IsOrdered, AreOrdered, eval, eval_at}
use fractaltree.Ordered.Route.{route, find_child_index_lem}
use fractaltree.Apply.{Counters, apply_to_leaf}
use fractaltree.Apply.Batch.{lookup-apply_to_leaf, apply_to_leaf-IsSorted, apply_to_leaf-AllKeys}
use fractaltree.Split.Child.{split_child-IsSame}
use fractaltree.Flush.{
  TreeParams, bucket_at, heaviest, unflushed, partition, is_overfull, finish_flush, receive,
  receive_at, flush_node,
}
use fractaltree.Flush.Buckets.{
  parted, child_index, partition-parted, bucket_at-All, bucket_at-index, unflushed-All,
  replay-bucket_at, replay-unflushed_self, replay-unflushed_other,
}

module _ {ℓ} {K : Type ℓ} ⦃o : Ord K⦄ where
  pub route-le-length : (ps : List K) (k : K) → route ps k ≤ length ps
  route-le-length [] k = omega arith
  route-le-length (p ∷ ps) k = ground (arith, route-le-length ps k)

  pub route-first : (p : K) (ps : List K) (k : K) → route (p ∷ ps) k ≡ 0 → is_le (o.cmp p k) ≡ false
  route-first p ps k e = ground arith

  pub route-later : (p : K) (ps : List K) (k : K) → route (p ∷ ps) k ≢ 0 → is_le (o.cmp p k) ≡ true
  route-later p ps k ne = ground arith

module _ {ℓ κ} {K : Type ℓ} {V : Type κ} ⦃o : Ord K⦄ where
  -- a node that has taken in messages: still ordered, with the messages replayed at every key
  pub record HasReceived (lo hi : Option K) (n : Node K V) (msgs : List (Message K V))
      (r : Node K V) : Type (ℓ ⊔ κ) where
    pub ordered : IsOrdered lo hi r
    pub value : (k : K) → eval r k ≡ replay k msgs (eval n k)

  -- children of which the one at an index has taken in messages
  pub record HaveReceived (lo hi : Option K) (ps : List K) (cs : Children K V) (h : ℕ)
      (msgs : List (Message K V)) (r : Children K V) : Type (ℓ ⊔ κ) where
    pub ordered : AreOrdered lo hi ps r
    pub self : (k : K) → route ps k ≡ h → eval_at ps r k ≡ replay k msgs (eval_at ps cs k)
    pub other : (k : K) → route ps k ≢ h → eval_at ps r k ≡ eval_at ps cs k

  abbrev pub RoutesTo : List K → ℕ → List (Message K V) → Type 0
  RoutesTo ps h msgs = All (λ m. route ps (key_of m) ≡ h) msgs

  pub num_children-length :
      (lo hi : Option K) (ps : List K) (cs : Children K V)
      → AreOrdered lo hi ps cs
      → num_children cs ≡ suc (length ps)
  unfolding AreOrdered
  num_children-length lo hi ps nil a = absurd a
  num_children-length lo hi [] (cons c nil) a = refl
  num_children-length lo hi [] (cons c (cons d cs)) a = absurd a
  num_children-length lo hi (p ∷ ps) (cons c cs) a =
      ap suc (num_children-length (some p) hi ps cs a.2)

  pub first_bounds :
      (lo hi : Option K) (p : K) (ps : List K) (msgs : List (Message K V))
      → All (Fits lo hi) msgs
      → RoutesTo (p ∷ ps) 0 msgs
      → All (Fits lo (some p)) msgs
  first_bounds lo hi p ps [] a b = tt
  first_bounds lo hi p ps (m ∷ ms) a b =
      (ground (arith, o.lt_of_gt p (key_of m)), first_bounds lo hi p ps ms a.1 b.1)

  pub later_bounds :
      (lo hi : Option K) (p : K) (ps : List K) (h : ℕ) (msgs : List (Message K V))
      → All (Fits lo hi) msgs
      → RoutesTo (p ∷ ps) (suc h) msgs
      → All (Fits (some p) hi) msgs × RoutesTo ps h msgs
  later_bounds lo hi p ps h [] a b = (tt, tt)
  later_bounds lo hi p ps h (m ∷ ms) a b =
      let rest = later_bounds lo hi p ps h ms a.1 b.1 in
      ((ground arith, rest.0), (ground arith, rest.1))

  pub eval_at-first :
      (p : K) (ps : List K) (c : Node K V) (cs : Children K V) (k : K)
      → is_le (o.cmp p k) ≡ false
      → eval_at (p ∷ ps) (cons c cs) k ≡ eval c k
  unfolding eval
  eval_at-first p ps c cs k e = ground arith

  pub eval_at-later :
      (p : K) (ps : List K) (c : Node K V) (cs : Children K V) (k : K)
      → is_le (o.cmp p k) ≡ true
      → eval_at (p ∷ ps) (cons c cs) k ≡ eval_at ps cs k
  unfolding eval
  eval_at-later p ps c cs k e = ground arith

  same_last :
      (lo hi : Option K) (c r : Node K V) (msgs : List (Message K V))
      → HasReceived lo hi c msgs r
      → HaveReceived lo hi [] (cons c nil) 0 msgs (cons r nil)
  unfolding AreOrdered eval
  same_last lo hi c r msgs s = record {
    ordered = s.ordered;
    self = λ k e. s.value k;
    other = λ k ne. absurd (ne refl);
  }

  same_first :
      (lo hi : Option K) (p : K) (ps : List K) (c r : Node K V) (cs : Children K V)
      (msgs : List (Message K V))
      → AreOrdered lo hi (p ∷ ps) (cons c cs)
      → HasReceived lo (some p) c msgs r
      → HaveReceived lo hi (p ∷ ps) (cons c cs) 0 msgs (cons r cs)
  unfolding AreOrdered eval
  same_first lo hi p ps c r cs msgs a s = record {
    ordered = (a.0, s.ordered, a.2);
    self = λ k e.
        let low = route-first p ps k e in
        eval_at-first p ps r cs k low
        ∙ s.value k
        ∙ ap (replay k msgs) (sym (eval_at-first p ps c cs k low));
    other = λ k ne.
        let high = route-later p ps k ne in
        eval_at-later p ps r cs k high ∙ sym (eval_at-later p ps c cs k high);
  }

  same_later :
      (lo hi : Option K) (p : K) (ps : List K) (c : Node K V) (cs r : Children K V) (h : ℕ)
      (msgs : List (Message K V))
      → AreOrdered lo hi (p ∷ ps) (cons c cs)
      → HaveReceived (some p) hi ps cs h msgs r
      → HaveReceived lo hi (p ∷ ps) (cons c cs) (suc h) msgs (cons c r)
  unfolding AreOrdered eval
  same_later lo hi p ps c cs r h msgs a s = record {
    ordered = (a.0, a.1, s.ordered);
    self = λ k e.
        let high : is_le (o.cmp p k) ≡ true = ground arith in
        eval_at-later p ps c r k high
        ∙ s.self k (ground arith)
        ∙ ap (replay k msgs) (sym (eval_at-later p ps c cs k high));
    other = λ k ne. elim (Bool-cases (is_le (o.cmp p k))) [
      | inl high ↦
          eval_at-later p ps c r k high
          ∙ s.other k (λ e. ne (ground arith))
          ∙ sym (eval_at-later p ps c cs k high)
      | inr low ↦ eval_at-first p ps c r k low ∙ sym (eval_at-first p ps c cs k low)
    ];
  }

  bucket_routes :
      (lo hi : Option K) (ps : List K) (cs : Children K V) (msgs : List (Message K V)) (h : ℕ)
      → AreOrdered lo hi ps cs
      → All (λ m. find_child_index ps (key_of m) ≡ h) msgs
      → RoutesTo ps h msgs
  bucket_routes lo hi ps cs [] h a b = tt
  bucket_routes lo hi ps cs (m ∷ ms) h a b = (
    sym (find_child_index_lem lo hi ps cs (key_of m) a) ∙ b.0,
    bucket_routes lo hi ps cs ms h a b.1,
  )

  -- the bucket of a child holds messages for it
  pub bucket-RoutesTo :
      (lo hi : Option K) (ps : List K) (cs : Children K V) (buf : List (Message K V)) (h : ℕ)
      → AreOrdered lo hi ps cs
      → RoutesTo ps h (bucket_at (parted (child_index ps) 0 (num_children cs) buf) h)
  bucket-RoutesTo lo hi ps cs buf h a =
      let bucket = bucket_at (parted (child_index ps) 0 (num_children cs) buf) h in
      bucket_routes lo hi ps cs bucket h a (
        subst (λ i. All (λ m. child_index ps m ≡ i) bucket) (zero-add h)
          (bucket_at-index (child_index ps) 0 (num_children cs) h buf))

module _ {ℓ κ} {K : Type ℓ} {V : Type κ} ⦃z : Zero V⦄ ⦃o : Ord K⦄ (params : TreeParams) where
  -- the split that may end a flush
  pub finish_flush-HasReceived :
      (lo hi : Option K) (n : Node K V) (ps : List K) (cs : Children K V)
      (buf msgs : List (Message K V)) (h : ℕ)
      → All (Fits lo hi) buf
      → AreOrdered lo hi ps cs
      → ((k : K) → replay k buf (eval_at ps cs k) ≡ replay k msgs (eval n k))
      → HasReceived lo hi n msgs (finish_flush params ps cs buf h)
  unfolding finish_flush IsOrdered eval
  finish_flush-HasReceived lo hi n ps cs buf msgs h f a v =
      let s = split_child-IsSame ps cs lo hi h a in
      elim (Bool-cases (is_overfull params (child_at cs h))) [
        | inl e ↦ rw e (record {
          ordered = (f, λ q. cc, s.ordered);
          value = λ k. ap (replay k buf) (s.value k) ∙ v k;
        })
        | inr e ↦ rw e (record { ordered = (f, λ q. cc, a); value = v })
      ]

  -- what the recursive calls on the children give
  ReceivesAt : Option K → Option K → List K → Children K V → Type (ℓ ⊔ κ)
  ReceivesAt lo hi ps cs =
      (h : ℕ) (msgs : List (Message K V)) (c : Counters)
      → All (Fits lo hi) msgs
      → RoutesTo ps h msgs
      → HaveReceived lo hi ps cs h msgs (receive_at params cs h msgs c).0

  -- flushing a buffer, any child chosen
  flush_parts-HasReceived :
      (lo hi : Option K) (n : Node K V) (ps : List K) (cs : Children K V)
      (buf msgs : List (Message K V)) (h : ℕ) (c : Counters)
      → All (Fits lo hi) buf
      → AreOrdered lo hi ps cs
      → ReceivesAt lo hi ps cs
      → ((k : K) → replay k buf (eval_at ps cs k) ≡ replay k msgs (eval n k))
      → HasReceived lo hi n msgs (
          finish_flush params ps
            (receive_at params cs h (bucket_at (partition ps (num_children cs) buf) h) c).0
            (unflushed (partition ps (num_children cs) buf) h)
            h)
  unfolding ReceivesAt
  flush_parts-HasReceived lo hi n ps cs buf msgs h c f a rec v =
      let size = num_children-length lo hi ps cs a in
      let bs = parted (child_index ps) 0 (num_children cs) buf in
      let got =
        rec h (bucket_at bs h) c
          (bucket_at-All (child_index ps) (Fits lo hi) 0 (num_children cs) h buf f)
          (bucket-RoutesTo lo hi ps cs buf h a) in
      let same = λ (k : K). find_child_index_lem lo hi ps cs k a in
      rw (partition-parted ps (num_children cs) buf) (
        finish_flush-HasReceived lo hi n ps (receive_at params cs h (bucket_at bs h) c).0
          (unflushed bs h) msgs h
          (unflushed-All (child_index ps) (Fits lo hi) 0 (num_children cs) h buf f) got.ordered
          (λ k. elim (ℕ_discrete (route ps k) h) [
            | yes e ↦
                replay-unflushed_self ps k 0 (num_children cs) h buf _ (omega (arith, same k))
                ∙ got.self k e
                ∙ replay-bucket_at ps k 0 (num_children cs) h buf _ (omega (arith, same k))
                    (omega (arith, route-le-length ps k))
                ∙ v k
            | no ne ↦
                replay-unflushed_other ps k 0 (num_children cs) h buf _ (omega (arith, same k))
                  (omega arith) (omega (arith, same k, route-le-length ps k))
                ∙ ap (replay k buf) (got.other k ne)
                ∙ v k
          ]))

  pub bounded_keys :
      (lo hi : Option K) (msgs : List (Message K V))
      → All (Fits lo hi) msgs
      → All (λ m. InRange lo hi (key_of m)) msgs × All IsPoint msgs
  bounded_keys lo hi [] a = (tt, tt)
  bounded_keys lo hi (m ∷ ms) a =
      let rest = bounded_keys lo hi ms a.1 in ((a.0.0, rest.0), (a.0.1, rest.1))

  leaf_receives :
      (es : List (K × V)) (lo hi : Option K) (msgs : List (Message K V)) (c : Counters)
      → IsOrdered lo hi (leaf es)
      → All (Fits lo hi) msgs
      → HasReceived lo hi (leaf es) msgs (leaf (apply_to_leaf es msgs c).0)
  unfolding IsOrdered eval
  leaf_receives es lo hi msgs c a f =
      let fits = bounded_keys lo hi msgs f in
      record {
        ordered = (
          apply_to_leaf-AllKeys (InRange lo hi) es msgs c a.1 fits.1 a.0 fits.0,
          apply_to_leaf-IsSorted es msgs c a.1 fits.1,
        );
        value = λ k. lookup-apply_to_leaf es msgs c k a.1 fits.1;
      }

  -- the two ways on from a buffer that took in its messages
  abbrev pub branch :
      List K → Children K V → List (Message K V) → Counters → Bool → Node K V × Counters
  branch ps cs buf c full = elim full [
    | false ↦ (internal ps cs buf false, c)
    | true ↦
        let bs = partition ps (num_children cs) buf in
        let (cs', c') = receive_at params cs (heaviest bs) (bucket_at bs (heaviest bs)) c in
        (finish_flush params ps cs' (unflushed bs (heaviest bs)) (heaviest bs), c')
  ]

  internal_receives :
      (ps : List K) (cs : Children K V) (buf : List (Message K V)) (s : Bool) (lo hi : Option K)
      (msgs : List (Message K V)) (c : Counters)
      → IsOrdered lo hi (internal ps cs buf s)
      → All (Fits lo hi) msgs
      → ReceivesAt lo hi ps cs
      → HasReceived lo hi
          (internal ps cs buf s)
          msgs
          (receive params (internal ps cs buf s) msgs c).0
  unfolding receive IsOrdered eval
  internal_receives ps cs buf s lo hi msgs c a f rec =
      let fits = All-append (Fits lo hi) buf msgs a.0 f in
      let value = λ (k : K). replay-append k buf msgs (eval_at ps cs k) in
      let goal = λ (full : Bool).
        HasReceived lo hi (internal ps cs buf s) msgs (branch ps cs (buf ++ msgs) c full).0 in
      elim (Bool-cases (ltb params.buffer_cap (length (buf ++ msgs)))) [
        | inl e ↦ subst goal (sym e) (
            flush_parts-HasReceived lo hi (internal ps cs buf s) ps cs (buf ++ msgs) msgs
              (heaviest (partition ps (num_children cs) (buf ++ msgs))) c fits a.2 rec value)
        | inr e ↦ subst goal (sym e) (record { ordered = (fits, λ q. cc, a.2); value = value })
      ]

  mutual
    unfolding ReceivesAt receive IsOrdered

    pub receive-HasReceived :
        (n : Node K V) (lo hi : Option K) (msgs : List (Message K V)) (c : Counters)
        → IsOrdered lo hi n
        → All (Fits lo hi) msgs
        → HasReceived lo hi n msgs (receive params n msgs c).0
    receive-HasReceived (leaf es) lo hi msgs c a f = leaf_receives es lo hi msgs c a f
    receive-HasReceived (internal ps cs buf s) lo hi msgs c a f =
        internal_receives ps cs buf s lo hi msgs c a f (receive_at-HaveReceived cs lo hi ps a.2)

    pub receive_at-HaveReceived :
        (cs : Children K V) (lo hi : Option K) (ps : List K)
        → AreOrdered lo hi ps cs
        → (h : ℕ) (msgs : List (Message K V)) (c : Counters) → All (Fits lo hi) msgs
        → RoutesTo ps h msgs
        → HaveReceived lo hi ps cs h msgs (receive_at params cs h msgs c).0
    receive_at-HaveReceived nil lo hi ps a h msgs c f r = absurd a
    receive_at-HaveReceived (cons n (cons d cs)) lo hi [] a h msgs c f r = absurd a
    receive_at-HaveReceived (cons n nil) lo hi [] a zero msgs c f r =
        same_last lo hi n (receive params n msgs c).0 msgs (receive-HasReceived n lo hi msgs c a f)
    receive_at-HaveReceived (cons n nil) lo hi [] a (suc h) msgs c f r = record {
      ordered = a;
      self = λ k e. absurd (omega arith);
      other = λ k ne. refl;
    }
    receive_at-HaveReceived (cons n cs) lo hi (p ∷ ps) a zero msgs c f r =
        same_first lo hi p ps n (receive params n msgs c).0 cs msgs a
          (receive-HasReceived n lo (some p) msgs c a.1 (first_bounds lo hi p ps msgs f r))
    receive_at-HaveReceived (cons n cs) lo hi (p ∷ ps) a (suc h) msgs c f r =
        let fits = later_bounds lo hi p ps h msgs f r in
        same_later lo hi p ps n cs (receive_at params cs h msgs c).0 h msgs a
          (receive_at-HaveReceived cs (some p) hi ps a.2 h msgs c fits.0 fits.1)

  -- A flush of an ordered node, however far it cascades and whatever it splits, leaves an ordered
  -- node that holds the same value at every key.
  pub flush_node_lem :
      (n : Node K V) (lo hi : Option K) (c : Counters)
      → IsOrdered lo hi n
      → IsOrdered lo hi (flush_node params n c).0
        × ((k : K) → eval (flush_node params n c).0 k ≡ eval n k)
  unfolding flush_node IsOrdered eval ReceivesAt
  flush_node_lem (leaf es) lo hi c a = (a, λ k. refl)
  flush_node_lem (internal ps cs [] s) lo hi c a = (a, λ k. refl)
  flush_node_lem (internal ps cs (m ∷ ms) s) lo hi c a =
      let got =
        flush_parts-HasReceived lo hi (internal ps cs (m ∷ ms) s) ps cs (m ∷ ms) []
          (heaviest (partition ps (num_children cs) (m ∷ ms))) c a.0 a.2
          (receive_at-HaveReceived cs lo hi ps a.2)
          (λ k. sym (replay-nil k (eval (internal ps cs (m ∷ ms) s) k))) in
      (got.ordered, λ k. got.value k ∙ replay-nil k (eval (internal ps cs (m ∷ ms) s) k))
