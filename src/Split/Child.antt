-- ===== src/Split/Child.antt =====
-- flush.go, splitChild and splitRoot: the split of a child keeps the tree ordered, and the value at
-- every key.
use fractaltree.Prelude.{
  ℕ, zero, suc, ◌/◌, ◌≡◌, refl, ap, ◌∙◌, Bool, false, not, Option, none, some, List, [], ◌∷◌, arith,
  All, if◌then◌else◌, length, get_elem?, take, drop, select,
}
use fractaltree.Order.{Ord, is_lt, is_le, le_trans}
use fractaltree.Message.{Message, key_of}
use fractaltree.Message.Replay.{replay, replay-select_key, replay-nil}
use fractaltree.Node.{
  Node, leaf, internal, Children, nil, cons, child_at, take_children, drop_children,
}
use fractaltree.Node.Buffer.{select-IsBufferSorted}
use fractaltree.Ordered.{Fits, IsOrdered, AreOrdered, eval, eval_at}
use fractaltree.Ordered.Route.{IsAtMost-trans}
use fractaltree.Split.{
  split_leaf, split_internal, split_node, split_option, insert_split, split_child, split_root,
}
use fractaltree.Split.Eval.{IsSplit, IsCut, leaf_halves, cut}

module _ {ℓ κ} {K : Type ℓ} {V : Type κ} ⦃o : Ord K⦄ where
  -- what a split that does not panic gives
  abbrev pub SplitsNode :
      Option K → Option K → Node K V → Option (Node K V × K × Node K V) → Type (ℓ ⊔ κ)
  SplitsNode lo hi n none = Unit
  SplitsNode lo hi n (some (left, p, right)) = IsSplit lo hi n left p right

  split_leaf-SplitsNode :
      (lo hi : Option K) (es : List (K × V))
      → IsOrdered lo hi (leaf es)
      → SplitsNode lo hi (leaf es) (split_leaf es)
  unfolding split_leaf
  split_leaf-SplitsNode lo hi es a = go (drop (length es / 2) es) refl
    where
      go :
          (right : List (K × V))
          → drop (length es / 2) es ≡ right
          → SplitsNode lo hi (leaf es) (elim right [
            | [] ↦ none
            | e ∷ rest ↦ some (leaf (take (length es / 2) es), e.0, leaf (e ∷ rest))
          ])
      go [] h = tt
      go (e ∷ rest) h = leaf_halves lo hi es (length es / 2) e rest a h

  left_buffer :
      (lo hi : Option K) (p : K) (buf : List (Message K V))
      → All (Fits lo hi) buf
      → All (Fits lo (some p)) (select (λ m. is_lt (o.cmp (key_of m) p)) buf)
  left_buffer lo hi p [] a = tt
  left_buffer lo hi p (m ∷ ms) a = ground (arith, left_buffer lo hi p ms a.1)

  right_buffer :
      (lo hi : Option K) (p : K) (buf : List (Message K V))
      → All (Fits lo hi) buf
      → All (Fits (some p) hi) (select (λ m. not (is_lt (o.cmp (key_of m) p))) buf)
  right_buffer lo hi p [] a = tt
  right_buffer lo hi p (m ∷ ms) a =
      ground (arith, right_buffer lo hi p ms a.1, o.gt_of_lt p (key_of m), o.lt_of_gt p (key_of m))

  split_buffer :
      (p k : K) (buf : List (Message K V)) (b : Option V)
      → (replay k (select (λ m. not (is_lt (o.cmp (key_of m) p))) buf) b
          ≡ (if is_le (o.cmp p k) then replay k buf b else b))
        × (replay k (select (λ m. is_lt (o.cmp (key_of m) p)) buf) b
            ≡ (if is_le (o.cmp p k) then b else replay k buf b))
  split_buffer p k buf b = ground (
    arith,
    replay-select_key (λ j. not (is_lt (o.cmp j p))) k buf b
        (λ j e. ap (λ x. not (is_lt x)) (o.eq_left j k p e)),
    replay-select_key (λ j. is_lt (o.cmp j p)) k buf b (λ j e. ap is_lt (o.eq_left j k p e)),
    o.gt_of_lt k p,
    o.lt_of_gt p k,
  )

  internal_halves :
      (lo hi : Option K) (ps : List K) (cs : Children K V) (buf : List (Message K V)) (s : Bool)
      (n : ℕ) (p : K)
      → IsOrdered lo hi (internal ps cs buf s)
      → IsCut lo hi ps cs n p
      → IsSplit lo hi
          (internal ps cs buf s)
          (internal
            (take n ps)
            (take_children (suc n) cs)
            (select (λ m. is_lt (o.cmp (key_of m) p)) buf)
            s)
          p
          (internal
            (drop (suc n) ps)
            (drop_children (suc n) cs)
            (select (λ m. not (is_lt (o.cmp (key_of m) p))) buf)
            s)
  unfolding IsOrdered eval
  internal_halves lo hi ps cs buf s n p a c = record {
    span = c.span;
    lower = (
      left_buffer lo hi p buf a.0,
      λ e. select-IsBufferSorted (λ m. is_lt (o.cmp (key_of m) p)) buf (a.1 e),
      c.lower,
    );
    upper = (
      right_buffer lo hi p buf a.0,
      λ e. select-IsBufferSorted (λ m. not (is_lt (o.cmp (key_of m) p))) buf (a.1 e),
      c.upper,
    );
    value = λ k. ground (
      arith,
      c.value k,
      split_buffer p k buf (eval_at (take n ps) (take_children (suc n) cs) k),
      split_buffer p k buf (eval_at (drop (suc n) ps) (drop_children (suc n) cs) k),
    );
  }

  split_internal-SplitsNode :
      (lo hi : Option K) (ps : List K) (cs : Children K V) (buf : List (Message K V)) (s : Bool)
      → IsOrdered lo hi (internal ps cs buf s)
      → SplitsNode lo hi (internal ps cs buf s) (split_internal ps cs buf s)
  unfolding split_internal IsOrdered
  split_internal-SplitsNode lo hi ps cs buf s a = go (get_elem? ps (length ps / 2)) refl
    where
      go :
          (p : Option K)
          → get_elem? ps (length ps / 2) ≡ p
          → SplitsNode lo hi (internal ps cs buf s) (elim p [
            | none ↦ none
            | some pivot ↦ some (
              internal
                  (take (length ps / 2) ps)
                  (take_children (suc (length ps / 2)) cs)
                  (select (λ m. is_lt (o.cmp (key_of m) pivot)) buf)
                  s,
              pivot,
              internal
                  (drop (suc (length ps / 2)) ps)
                  (drop_children (suc (length ps / 2)) cs)
                  (select (λ m. not (is_lt (o.cmp (key_of m) pivot))) buf)
                  s,
            )
          ])
      go none h = tt
      go (some p) h =
          internal_halves lo hi ps cs buf s (length ps / 2) p a
            (cut (length ps / 2) lo hi ps cs p a.2 h)

  -- A split of an ordered node that does not panic parts it at a pivot within its bounds: the
  -- halves are ordered on their sides of the pivot, and hold together what the node held.
  pub split_node-SplitsNode :
      (lo hi : Option K) (n : Node K V) → IsOrdered lo hi n → SplitsNode lo hi n (split_node n)
  unfolding split_node
  split_node-SplitsNode lo hi (leaf es) a = split_leaf-SplitsNode lo hi es a
  split_node-SplitsNode lo hi (internal ps cs buf s) a =
      split_internal-SplitsNode lo hi ps cs buf s a

  -- pivots and children that hold the same values, in order
  pub record IsSame (lo hi : Option K) (ps : List K) (cs : Children K V) (r : List K × Children K V)
      : Type (ℓ ⊔ κ) where
    pub ordered : AreOrdered lo hi r.0 r.1
    pub value : (k : K) → eval_at r.0 r.1 k ≡ eval_at ps cs k

  kept_refl :
      (lo hi : Option K) (ps : List K) (cs : Children K V)
      → AreOrdered lo hi ps cs
      → IsSame lo hi ps cs (ps, cs)
  kept_refl lo hi ps cs a = record { ordered = a; value = λ k. refl }

  kept_last :
      (lo hi : Option K) (c left : Node K V) (p : K) (right : Node K V)
      → IsSplit lo hi c left p right
      → IsSame lo hi [] (cons c nil) (p ∷ [], cons left (cons right nil))
  unfolding AreOrdered eval
  kept_last lo hi c left p right s = record {
    ordered = (s.span, s.lower, s.upper);
    value = λ k. ground (arith, s.value k);
  }

  kept_first :
      (lo hi : Option K) (c left : Node K V) (p : K) (right : Node K V) (q : K) (ps : List K)
      (cs : Children K V)
      → AreOrdered lo hi (q ∷ ps) (cons c cs)
      → IsSplit lo (some q) c left p right
      → IsSame lo hi (q ∷ ps) (cons c cs) (p ∷ q ∷ ps, cons left (cons right cs))
  unfolding AreOrdered eval
  kept_first lo hi c left p right q ps cs a s = record {
    ordered = (
      (s.span.0, IsAtMost-trans hi p q s.span.1 a.0.1),
      s.lower,
      ((s.span.1, a.0.1), s.upper, a.2),
    );
    value = λ k. ground (arith, s.value k, le_trans p q k s.span.1);
  }

  kept_later :
      (lo hi : Option K) (c : Node K V) (q : K) (ps : List K) (cs : Children K V)
      (r : List K × Children K V)
      → AreOrdered lo hi (q ∷ ps) (cons c cs)
      → IsSame (some q) hi ps cs r
      → IsSame lo hi (q ∷ ps) (cons c cs) (q ∷ r.0, cons c r.1)
  unfolding AreOrdered eval
  kept_later lo hi c q ps cs r a s = record {
    ordered = (a.0, a.1, s.ordered);
    value = λ k. ground (arith, s.value k);
  }

  insert_split-IsSame :
      (cs : Children K V) (ps : List K) (lo hi : Option K) (i : ℕ)
      → AreOrdered lo hi ps cs
      → IsSame lo hi ps cs (insert_split ps cs i (split_option (child_at cs i)))
  unfolding AreOrdered
  insert_split-IsSame nil ps lo hi i a = absurd a
  insert_split-IsSame (cons c (cons d cs)) [] lo hi i a = absurd a
  insert_split-IsSame (cons c nil) [] lo hi (suc i) a = kept_refl lo hi [] (cons c nil) a
  insert_split-IsSame (cons c nil) [] lo hi zero a =
      go (split_node c) (split_node-SplitsNode lo hi c a)
    where
      go :
          (r : Option (Node K V × K × Node K V))
          → SplitsNode lo hi c r
          → IsSame lo hi [] (cons c nil) (insert_split [] (cons c nil) 0 r)
      go none s = kept_refl lo hi [] (cons c nil) a
      go (some (left, p, right)) s = kept_last lo hi c left p right s
  insert_split-IsSame (cons c cs) (q ∷ ps) lo hi zero a =
      go (split_node c) (split_node-SplitsNode lo (some q) c a.1)
    where
      go :
          (r : Option (Node K V × K × Node K V))
          → SplitsNode lo (some q) c r
          → IsSame lo hi (q ∷ ps) (cons c cs) (insert_split (q ∷ ps) (cons c cs) 0 r)
      go none s = kept_refl lo hi (q ∷ ps) (cons c cs) a
      go (some (left, p, right)) s = kept_first lo hi c left p right q ps cs a s
  insert_split-IsSame (cons c cs) (q ∷ ps) lo hi (suc i) a =
      go (split_option (child_at cs i)) (insert_split-IsSame cs ps (some q) hi i a.2)
    where
      go :
          (r : Option (Node K V × K × Node K V))
          → IsSame (some q) hi ps cs (insert_split ps cs i r)
          → IsSame lo hi (q ∷ ps) (cons c cs) (insert_split (q ∷ ps) (cons c cs) (suc i) r)
      go none s = kept_refl lo hi (q ∷ ps) (cons c cs) a
      go (some (left, p, right)) s = kept_later lo hi c q ps cs _ a s

  -- Splitting a child of an ordered node, at any index, leaves ordered pivots and children that
  -- hold the same value at every key.
  pub split_child-IsSame :
      (ps : List K) (cs : Children K V) (lo hi : Option K) (i : ℕ)
      → AreOrdered lo hi ps cs
      → IsSame lo hi ps cs (split_child ps cs i)
  unfolding split_child
  split_child-IsSame ps cs lo hi i a = insert_split-IsSame cs ps lo hi i a

  pub single :
      (root : Node K V) (lo hi : Option K)
      → IsOrdered lo hi root
      → AreOrdered lo hi [] (cons root nil)
  unfolding AreOrdered
  single root lo hi a = a

  root_same :
      (root : Node K V) (r : List K × Children K V) (lo hi : Option K)
      → IsSame lo hi [] (cons root nil) r
      → IsOrdered lo hi (internal r.0 r.1 [] false)
        × ((k : K) → eval (internal r.0 r.1 [] false) k ≡ eval root k)
  unfolding IsOrdered eval
  root_same root r lo hi s =
      ((tt, λ e. cc, s.ordered), λ k. replay-nil k (eval_at r.0 r.1 k) ∙ s.value k)

  -- `splitRoot` of an ordered tree leaves an ordered tree with the same value at every key.
  pub split_root_lem :
      (root : Node K V) (lo hi : Option K)
      → IsOrdered lo hi root
      → IsOrdered lo hi (split_root root) × ((k : K) → eval (split_root root) k ≡ eval root k)
  unfolding split_root
  split_root_lem root lo hi a =
      root_same root (split_child [] (cons root nil) 0) lo hi
        (split_child-IsSame [] (cons root nil) lo hi 0 (single root lo hi a))
