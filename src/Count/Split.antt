-- ===== src/Count/Split.antt =====
-- flush.go, splitChild and splitRoot: a split keeps every entry and message, and splits no key's messages.
use mathlib.Core.Option.{some-injective}
use fractaltree.Prelude.{
  ℕ, zero, suc, ◌+◌, ◌/◌, ◌≡◌, eq, refl, ap, sym, subst, ◌∙◌, Bool, true, not, Option, none, some,
  List, [], ◌∷◌, arith, length, get_elem?, take, drop, take-append-drop, select,
}
use fractaltree.Order.{Ord, is_lt}
use fractaltree.Message.{Message, key_of}
use fractaltree.Node.{
  Node, leaf, internal, Children, nil, cons, child_at, set_child, insert_child, take_children,
  drop_children,
}
use fractaltree.Ordered.Route.{child_at-IsOrdered}
use fractaltree.Ordered.{IsOrdered, AreOrdered, eval_at}
use fractaltree.Split.{
  split_leaf, split_internal, split_node, split_option, insert_split, split_child,
}
use fractaltree.Split.Eval.{IsCut, cut}
use fractaltree.Count.{total, tally, tally_children, hits, AreHit, ChildrenHit}
use fractaltree.Count.Buckets.{total-append, total-select}
use fractaltree.Count.Hits.{hits-select_key}

module _ {ℓ κ} {K : Type ℓ} {V : Type κ} (u : K × V → ℕ) (w : Message K V → ℕ) where
  tally-cut :
      (n : ℕ) (cs : Children K V)
      → tally_children u w (take_children n cs) + tally_children u w (drop_children n cs)
        ≡ tally_children u w cs
  unfolding tally
  tally-cut zero cs = omega arith
  tally-cut (suc n) nil = omega arith
  tally-cut (suc n) (cons c cs) = omega (arith, tally-cut n cs)

  tally-halves :
      (n : ℕ) (es : List (K × V)) → total u (take n es) + total u (drop n es) ≡ total u es
  tally-halves n es =
      sym (total-append u (take n es) (drop n es)) ∙ ap (total u) (take-append-drop n es)

module _ {ℓ κ} {K : Type ℓ} {V : Type κ} ⦃o : Ord K⦄ where
  -- Halves of a node hold its entries and messages between them, and no pending delete of theirs misses.
  abbrev Parts : Node K V → Option (Node K V × K × Node K V) → Type (ℓ ⊔ κ)
  Parts n none = Unit
  Parts n (some (left, p, right)) =
      ((u : K × V → ℕ) (w : Message K V → ℕ) → tally u w left + tally u w right ≡ tally u w n)
      × AreHit left
      × AreHit right

  cut_hit :
      (n : ℕ) (cs : Children K V)
      → ChildrenHit cs
      → ChildrenHit (take_children n cs) × ChildrenHit (drop_children n cs)
  unfolding AreHit
  cut_hit zero cs h = (tt, h)
  cut_hit (suc n) nil h = (tt, tt)
  cut_hit (suc n) (cons c cs) h = let r = cut_hit n cs h.1 in ((h.0, r.0), r.1)

  split_leaf-Parts : (es : List (K × V)) → Parts (leaf es) (split_leaf es)
  unfolding split_leaf tally AreHit
  split_leaf-Parts es = go (drop (length es / 2) es) refl
    where
      go :
          (right : List (K × V))
          → drop (length es / 2) es ≡ right
          → Parts (leaf es) (elim right [
            | [] ↦ none
            | e ∷ rest ↦ some (leaf (take (length es / 2) es), e.0, leaf (e ∷ rest))
          ])
      go [] h = tt
      go (e ∷ rest) h = (
        λ u w.
            subst (λ r. total u (take (length es / 2) es) + total u r ≡ total u es) h
              (tally-halves u w (length es / 2) es),
        tt,
        tt,
      )

  half_hits :
      (t : K → Bool) (k : K) (buf : List (Message K V)) (b b' : Option V)
      → ((j : K) → o.cmp j k ≡ eq → t j ≡ t k)
      → (t k ≡ true → b' ≡ b)
      → hits k buf b ≡ true
      → hits k (select (λ m. t (key_of m)) buf) b' ≡ true
  half_hits t k buf b b' e v h = ground (arith, hits-select_key t k buf b' e)

  both_halves :
      (lo hi : Option K) (ps : List K) (cs : Children K V) (buf : List (Message K V)) (s : Bool)
      (n : ℕ) (p : K)
      → AreHit (internal ps cs buf s)
      → IsCut lo hi ps cs n p
      → Parts (internal ps cs buf s) (
          some (
            internal
                (take n ps)
                (take_children (suc n) cs)
                (select (λ m. is_lt (o.cmp (key_of m) p)) buf)
                s,
            p,
            internal
                (drop (suc n) ps)
                (drop_children (suc n) cs)
                (select (λ m. not (is_lt (o.cmp (key_of m) p))) buf)
                s,
          ))
  unfolding tally AreHit
  both_halves lo hi ps cs buf s n p h c =
      let below = λ (m : Message K V). is_lt (o.cmp (key_of m) p) in
      let rest = cut_hit (suc n) cs h.1 in
      (
        λ u w. omega (arith, total-select w below buf, tally-cut u w (suc n) cs),
        (
          λ k.
              half_hits (λ j. is_lt (o.cmp j p)) k buf (eval_at ps cs k)
                (eval_at (take n ps) (take_children (suc n) cs) k)
                (λ j e. ap is_lt (o.eq_left j k p e))
                (λ e. ground (arith, c.value k, o.gt_of_lt k p)) (h.0 k),
          rest.0,
        ),
        (
          λ k.
              half_hits (λ j. not (is_lt (o.cmp j p))) k buf (eval_at ps cs k)
                (eval_at (drop (suc n) ps) (drop_children (suc n) cs) k)
                (λ j e. ap (λ x. not (is_lt x)) (o.eq_left j k p e))
                (λ e. ground (arith, c.value k, o.gt_of_lt k p, o.lt_of_gt p k)) (h.0 k),
          rest.1,
        ),
      )

  split_internal-Parts :
      (lo hi : Option K) (ps : List K) (cs : Children K V) (buf : List (Message K V)) (s : Bool)
      → AreOrdered lo hi ps cs
      → AreHit (internal ps cs buf s)
      → Parts (internal ps cs buf s) (split_internal ps cs buf s)
  unfolding split_internal
  split_internal-Parts lo hi ps cs buf s a h = go (get_elem? ps (length ps / 2)) refl
    where
      go :
          (p : Option K)
          → get_elem? ps (length ps / 2) ≡ p
          → Parts (internal ps cs buf s) (elim p [
            | none ↦ none
            | some pivot ↦ some (
              internal
                  (take (length ps / 2) ps)
                  (take_children (suc (length ps / 2)) cs)
                  (select (λ m. is_lt (o.cmp (key_of m) pivot)) buf)
                  s,
              pivot,
              internal
                  (drop (suc (length ps / 2)) ps)
                  (drop_children (suc (length ps / 2)) cs)
                  (select (λ m. not (is_lt (o.cmp (key_of m) pivot))) buf)
                  s,
            )
          ])
      go none e = tt
      go (some p) e =
          both_halves lo hi ps cs buf s (length ps / 2) p h (cut (length ps / 2) lo hi ps cs p a e)

  split_node-Parts :
      (lo hi : Option K) (n : Node K V) → IsOrdered lo hi n → AreHit n → Parts n (split_node n)
  unfolding split_node IsOrdered
  split_node-Parts lo hi (leaf es) a h = split_leaf-Parts es
  split_node-Parts lo hi (internal ps cs buf s) a h = split_internal-Parts lo hi ps cs buf s a.2 h

  -- Children that hold together what others held, and no pending delete of theirs misses.
  abbrev pub Keep : Children K V → Children K V → Type (ℓ ⊔ κ)
  Keep cs cs' =
      ((u : K × V → ℕ) (w : Message K V → ℕ) → tally_children u w cs' ≡ tally_children u w cs)
      × ChildrenHit cs'

  insert-Keep :
      (cs : Children K V) (i : ℕ) (c left : Node K V) (p : K) (right : Node K V)
      → child_at cs i ≡ some c
      → Parts c (some (left, p, right))
      → ChildrenHit cs
      → Keep cs (insert_child (set_child cs i left) (suc i) right)
  unfolding tally AreHit
  insert-Keep nil i c left p right e t h = cc
  insert-Keep (cons d cs) zero c left p right e t h =
      let same = some-injective d c e in
      (λ u w. omega (arith, t.0 u w, ap (tally u w) same), (t.1, (t.2, h.1)))
  insert-Keep (cons d cs) (suc i) c left p right e t h =
      let r = insert-Keep cs i c left p right e t h.1 in
      (λ u w. ap (λ n. tally u w d + n) (r.0 u w), (h.0, r.1))

  child_at-AreHit :
      (cs : Children K V) (i : ℕ) (c : Node K V)
      → ChildrenHit cs
      → child_at cs i ≡ some c
      → AreHit c
  unfolding AreHit
  child_at-AreHit nil i c h e = cc
  child_at-AreHit (cons d cs) zero c h e = subst AreHit (some-injective d c e) h.0
  child_at-AreHit (cons d cs) (suc i) c h e = child_at-AreHit cs i c h.1 e

  pub split_child-Keep :
      (ps : List K) (cs : Children K V) (lo hi : Option K) (i : ℕ)
      → AreOrdered lo hi ps cs
      → ChildrenHit cs
      → Keep cs (split_child ps cs i).1
  unfolding split_child
  split_child-Keep ps cs lo hi i a h = at_child (child_at cs i) refl
    where
      inserted :
          (c : Node K V) (r : Option (Node K V × K × Node K V))
          → child_at cs i ≡ some c
          → Parts c r
          → Keep cs (insert_split ps cs i r).1
      inserted c none e t = (λ u w. refl, h)
      inserted c (some (left, p, right)) e t = insert-Keep cs i c left p right e t h

      at_child :
          (c : Option (Node K V))
          → child_at cs i ≡ c
          → Keep cs (insert_split ps cs i (split_option c)).1
      at_child none e = (λ u w. refl, h)
      at_child (some c) e =
          let (lo', hi', b) = child_at-IsOrdered cs ps lo hi i c a e in
          inserted c (split_node c) e (split_node-Parts lo' hi' c b (child_at-AreHit cs i c h e))
