-- ===== src/Count/Writes.antt =====
-- tree.go, `size` and `pendingDeletes` over the writes: both say what the tree holds, after every write.
use fractaltree.Prelude.{
  ℕ, ◌≡◌, refl, ap, sym, ◌∙◌, Bool, true, none, List, [], ◌++◌, arith, length, ltb, Bool-cases, inl,
  inr,
}
use fractaltree.Prelude.Int.{pos, pos_part, neg_part, ◌+ℤ◌, int_laws}
use fractaltree.Order.{Ord}
use fractaltree.Message.{Message, Zero}
use fractaltree.Node.{Node, leaf, internal, Children, nil, cons, num_children}
use fractaltree.Ordered.{IsOrdered, eval, eval_at}
use fractaltree.Apply.{Counters}
use fractaltree.Split.{split_root}
use fractaltree.Split.Child.{single}
use fractaltree.Flush.{TreeParams, flush_node}
use fractaltree.Flush.Eval.{flush_node_lem}
use fractaltree.Tree.{split_full_leaf, split_full_root}
use fractaltree.DeleteRange.{flush_full_root}
use fractaltree.Count.{
  total, tally, counted, deleting, one_each, none_each, added, pending, IsCounted, hits, AreHit,
}
use fractaltree.Count.Buckets.{total-append}
use fractaltree.Count.Hits.{hits-append}
use fractaltree.Count.Leaf.{Tracks}
use fractaltree.Count.Split.{split_child-Keep}
use fractaltree.Count.Flush.{flush_node-Tracks}
use fractaltree.Count.Totals.{total-one_each, total-none_each}

module _ {ℓ κ} {K : Type ℓ} {V : Type κ} where
  pub IsCounted-Tracks :
      (n r : Node K V) (c c' : Counters)
      → IsCounted n c
      → Tracks (added n) (pending n) (added r) (pending r) c c'
      → IsCounted r c'
  IsCounted-Tracks n r c c' h t = record {
    size = omega (int_laws, ap pos_part h.size, ap neg_part h.size, t.size);
    deletes = omega (int_laws, ap pos_part h.deletes, ap neg_part h.deletes, t.deletes);
  }

  same_counts :
      (n r : Node K V) (c : Counters)
      → ((u : K × V → ℕ) (w : Message K V → ℕ) → tally u w r ≡ tally u w n)
      → IsCounted n c
      → IsCounted r c
  same_counts n r c e h = record {
    size =
        ap (λ m. c.size +ℤ pos m) (e none_each deleting)
        ∙ h.size
        ∙ ap pos (sym (e one_each counted));
    deletes = h.deletes ∙ ap pos (sym (e none_each deleting));
  }

module _ {ℓ κ} {K : Type ℓ} {V : Type κ} ⦃o : Ord K⦄ where
  -- The counters are exact, and stay so: they count what the tree holds, and no pending delete will miss.
  pub record IsExact (n : Node K V) (c : Counters) : Type (ℓ ⊔ κ) where
    pub hit : AreHit n
    pub count : IsCounted n c

  -- a leaf that has changed
  pub leaf-IsExact :
      (es es' : List (K × V)) (c c' : Counters)
      → Tracks (length es) 0 (length es') 0 c c'
      → IsExact (leaf es) c
      → IsExact (leaf es') c'
  unfolding AreHit tally
  leaf-IsExact es es' c c' t h = record {
    hit = tt;
    count = IsCounted-Tracks (leaf es) (leaf es') c c' h.count (record {
      size = omega (
        arith,
        t.size,
        total-one_each es,
        total-one_each es',
        total-none_each es,
        total-none_each es',
      );
      deletes = omega (arith, t.deletes, total-none_each es, total-none_each es');
    });
  }

  split_root-IsExact :
      (n : Node K V) (c : Counters) → IsOrdered none none n → IsExact n c → IsExact (split_root n) c
  unfolding split_root tally AreHit hits
  split_root-IsExact n c a h =
      let k = split_child-Keep [] (cons n nil) none none 0 (single n none none a) (h.hit, tt) in
      record {
        hit = (λ j. refl, k.1);
        count = same_counts n (split_root n) c (λ u w. omega (arith, k.0 u w)) h.count;
      }

  pub split_full_leaf-IsExact :
      (params : TreeParams) (es : List (K × V)) (c : Counters)
      → IsOrdered none none (leaf es)
      → IsExact (leaf es) c
      → IsExact (split_full_leaf params es) c
  split_full_leaf-IsExact params es c a h = elim (Bool-cases (ltb params.leaf_cap (length es))) [
    | inl e ↦ rw e (split_root-IsExact (leaf es) c a h)
    | inr e ↦ rw e h
  ]

  split_full_root-IsExact :
      (params : TreeParams) (n : Node K V) (c : Counters)
      → IsOrdered none none n
      → IsExact n c
      → IsExact (split_full_root params n) c
  split_full_root-IsExact params (leaf es) c a h = h
  split_full_root-IsExact params (internal ps cs buf s) c a h =
      elim (Bool-cases (ltb params.fanout (num_children cs))) [
        | inl e ↦ rw e (split_root-IsExact (internal ps cs buf s) c a h)
        | inr e ↦ rw e h
      ]

  -- messages appended to the root's buffer, and counted
  pub append-IsExact :
      (ps : List K) (cs : Children K V) (buf ms : List (Message K V)) (s s' : Bool)
      (c c' : Counters)
      → ((k : K) → hits k ms (eval (internal ps cs buf s) k) ≡ true)
      → Tracks 0 0 (total counted ms) (total deleting ms) c c'
      → IsExact (internal ps cs buf s) c
      → IsExact (internal ps cs (buf ++ ms) s') c'
  unfolding AreHit tally eval
  append-IsExact ps cs buf ms s s' c c' q t h = record {
    hit = (λ k. hits-append k buf ms (eval_at ps cs k) ∙ ground (arith, h.hit.0 k, q k), h.hit.1);
    count =
        IsCounted-Tracks (internal ps cs buf s) (internal ps cs (buf ++ ms) s') c c' h.count
          (record {
            size = omega (arith, t.size, total-append counted buf ms, total-append deleting buf ms);
            deletes = omega (arith, t.deletes, total-append deleting buf ms);
          });
  }

module _ {ℓ κ} {K : Type ℓ} {V : Type κ} ⦃z : Zero V⦄ ⦃o : Ord K⦄ where
  -- The flush of an overfull root, and the split after it, keep the counters exact.
  pub flush_full_root-IsExact :
      (params : TreeParams) (ps : List K) (cs : Children K V) (b : List (Message K V) × Bool)
      (c : Counters)
      → IsOrdered none none (internal ps cs b.0 b.1)
      → IsExact (internal ps cs b.0 b.1) c
      → IsExact (flush_full_root params ps cs b c).0 (flush_full_root params ps cs b c).1
  flush_full_root-IsExact params ps cs b c a h =
      let n = internal ps cs b.0 b.1 in
      let g = flush_node_lem params n none none c a in
      let t = flush_node-Tracks params n none none c a h.hit in
      let (root', c') = flush_node params n c in
      elim (Bool-cases (ltb params.buffer_cap (length b.0))) [
        | inl e ↦ rw e (
            split_full_root-IsExact params root' c' g.0
              (record { hit = t.0; count = IsCounted-Tracks n root' c c' h.count t.1 }))
        | inr e ↦ rw e h
      ]
