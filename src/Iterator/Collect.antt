-- ===== src/Iterator/Collect.antt =====
-- iterator.go, collectAll: the entries collected from an ordered tree, level by level, are what a read
-- replays.
use fractaltree.Prelude.{
  select-append, ℕ, zero, suc, ◌+◌, ◌≤◌, ◌<◌, ◌≡◌, ◌≢◌, refl, ap, ap₂, ◌∙◌, true, false, lt, Option,
  none, some, List, [], ◌∷◌, ◌++◌, append-nil, arith, select, All, All-append, All-imp, All-select,
  Bool-cases, inl, inr,
}
use fractaltree.Order.{Ord, ◌≺◌, ◌≼◌, is_le, eq_right}
use fractaltree.Message.{Message, put, delete, delete_range, upsert}
use fractaltree.Message.Replay.{replay}
use fractaltree.Node.{Node, leaf, internal, Children, nil, cons}
use fractaltree.Node.Entries.{lookup, IsSorted, IsAbove}
use fractaltree.Ordered.{InRange, Fits, IsOrdered, AreOrdered, eval, eval_at}
use fractaltree.Ordered.Route.{IsAtLeast-trans, lt-IsLess}
use fractaltree.Iterator.{
  MergeEntry, pair_entries, collect_buffer_entries, collect_all, collect_all_children, apply_run,
}
use fractaltree.Iterator.Levels.{level, resolve_levels}
use fractaltree.Iterator.Sort.{concerns_entry}
use fractaltree.Iterator.Groups.{select-none}
use fractaltree.Iterator.Depths.{
  le_larger, height, heights, pair_entries-depth, buffer_entries-depth, collect_children_depths,
  resolve_levels-shallow, resolve_levels-below, level-deep,
}

module _ {ℓ κ} {K : Type ℓ} {V : Type κ} ⦃o : Ord K⦄ where
  abbrev KeysIn : Option K → Option K → List (MergeEntry K V) → Type 0
  KeysIn lo hi es = All (λ e. InRange lo hi e.key) es

  pair_entries-KeysIn :
      (lo hi : Option K) (d : ℕ) (es : List (K × V))
      → All (λ e. InRange lo hi e.0) es
      → KeysIn lo hi (pair_entries d es)
  pair_entries-KeysIn lo hi d [] a = tt
  pair_entries-KeysIn lo hi d ((k, v) ∷ es) a = (a.0, pair_entries-KeysIn lo hi d es a.1)

  buffer_entries-KeysIn :
      (lo hi : Option K) (d : ℕ) (ms : List (Message K V))
      → All (Fits lo hi) ms
      → KeysIn lo hi (collect_buffer_entries d ms)
  buffer_entries-KeysIn lo hi d [] a = tt
  buffer_entries-KeysIn lo hi d (put k v c ∷ ms) a = (a.0.0, buffer_entries-KeysIn lo hi d ms a.1)
  buffer_entries-KeysIn lo hi d (delete k ∷ ms) a = (a.0.0, buffer_entries-KeysIn lo hi d ms a.1)
  buffer_entries-KeysIn lo hi d (delete_range k e ∷ ms) a = buffer_entries-KeysIn lo hi d ms a.1
  buffer_entries-KeysIn lo hi d (upsert k f ∷ ms) a = (a.0.0, buffer_entries-KeysIn lo hi d ms a.1)

  mutual
    unfolding collect_all IsOrdered

    collect_keys :
        (n : Node K V) (d : ℕ) (lo hi : Option K)
        → IsOrdered lo hi n
        → KeysIn lo hi (collect_all n d)
    collect_keys (leaf es) d lo hi a = pair_entries-KeysIn lo hi d es a.0
    collect_keys (internal ps cs buf s) d lo hi a =
        All-append (λ e. InRange lo hi e.key) (collect_buffer_entries d buf)
          (collect_all_children cs (suc d)) (buffer_entries-KeysIn lo hi d buf a.0)
          (collect_children_keys cs ps (suc d) lo hi a.2)

    collect_children_keys :
        (cs : Children K V) (ps : List K) (d : ℕ) (lo hi : Option K)
        → AreOrdered lo hi ps cs
        → KeysIn lo hi (collect_all_children cs d)
    collect_children_keys nil ps d lo hi a = absurd a
    collect_children_keys (cons c nil) [] d lo hi a =
        All-append (λ e. InRange lo hi e.key) (collect_all c d) [] (collect_keys c d lo hi a) tt
    collect_children_keys (cons c (cons e cs)) [] d lo hi a = absurd a
    collect_children_keys (cons c cs) (p ∷ ps) d lo hi a =
        All-append (λ e. InRange lo hi e.key) (collect_all c d) (collect_all_children cs d)
          (All-imp (λ e. InRange lo (some p) e.key) (λ e. InRange lo hi e.key)
            (λ e r. (r.0, lt-IsLess hi e.key p r.1 a.0.1)) (collect_all c d)
            (collect_keys c d lo (some p) a.1))
          (All-imp (λ e. InRange (some p) hi e.key) (λ e. InRange lo hi e.key)
            (λ e r. (IsAtLeast-trans lo p e.key a.0.0 r.0, r.1)) (collect_all_children cs d)
            (collect_children_keys cs ps d (some p) hi a.2))

  pub collect_all-InRange :
      (n : Node K V) (d : ℕ) (lo hi : Option K)
      → IsOrdered lo hi n
      → All (λ e. InRange lo hi e.key) (collect_all n d)
  collect_all-InRange n d lo hi a = collect_keys n d lo hi a

  pub collect_children-InRange :
      (cs : Children K V) (ps : List K) (d : ℕ) (lo hi : Option K)
      → AreOrdered lo hi ps cs
      → All (λ e. InRange lo hi e.key) (collect_all_children cs d)
  collect_children-InRange cs ps d lo hi a = collect_children_keys cs ps d lo hi a

  pairs_none :
      (d : ℕ) (a k : K) (es : List (K × V))
      → o.cmp a k ≢ lt
      → IsAbove a es
      → select (concerns_entry k) (pair_entries d es) ≡ []
  pairs_none d a k [] h s = refl
  pairs_none d a k ((b, v) ∷ es) h s =
      ground (arith, pairs_none d a k es h s.1, eq_right b k a, o.gt_of_lt a b)

  -- what the entries of a leaf hold at a key
  leaf_entries :
      (d : ℕ) (es : List (K × V)) (k : K)
      → IsSorted es
      → apply_run (level d (select (concerns_entry k) (pair_entries d es))) none ≡ lookup es k
  unfolding apply_run lookup
  leaf_entries d [] k s = refl
  leaf_entries d ((a, v) ∷ es) k s = ground (arith, leaf_entries d es k s.1, pairs_none d a k es)

  buffer_entries :
      (d : ℕ) (ms : List (Message K V)) (k : K) (b : Option V)
      → apply_run (select (concerns_entry k) (collect_buffer_entries d ms)) b ≡ replay k ms b
  unfolding apply_run replay
  buffer_entries d [] k b = refl
  buffer_entries d (put j v c ∷ ms) k b =
      ground (arith, buffer_entries d ms k (some v), buffer_entries d ms k b)
  buffer_entries d (delete j ∷ ms) k b =
      ground (arith, buffer_entries d ms k none, buffer_entries d ms k b)
  buffer_entries d (delete_range j e ∷ ms) k b = ground (arith, buffer_entries d ms k b)
  buffer_entries d (upsert j f ∷ ms) k b =
      ground (arith, buffer_entries d ms k (some (f b)), buffer_entries d ms k b)

  -- entries with keys below a pivot, and from a pivot on
  none_at_or_above :
      (p k : K) (es : List (MergeEntry K V))
      → p ≼ k
      → All (λ e. e.key ≺ p) es
      → All (λ e. concerns_entry k e ≡ false) es
  none_at_or_above p k [] h a = tt
  none_at_or_above p k (e ∷ es) h a = (
    ground (
      arith,
      o.eq_left e.key k p,
      o.eq_sym k p,
      o.gt_of_lt e.key p,
      eq_right e.key k p,
      o.gt_of_lt k p,
      o.lt_of_gt p k,
    ),
    none_at_or_above p k es h a.1,
  )

  none_below :
      (p k : K) (es : List (MergeEntry K V))
      → is_le (o.cmp p k) ≡ false
      → All (λ e. p ≼ e.key) es
      → All (λ e. concerns_entry k e ≡ false) es
  none_below p k [] h a = tt
  none_below p k (e ∷ es) h a = (ground (arith, eq_right e.key k p), none_below p k es h a.1)

  select-shallow :
      (n c d : ℕ) (k : K) (xs ys : List (MergeEntry K V))
      → c < d
      → All (λ e. e.depth ≡ c) xs
      → resolve_levels n d (select (concerns_entry k) (xs ++ ys))
        ≡ resolve_levels n d (select (concerns_entry k) ys)
  select-shallow n c d k xs ys h a =
      ap (resolve_levels n d) (select-append (concerns_entry k) xs ys)
      ∙ resolve_levels-shallow n c d (select (concerns_entry k) xs) (select (concerns_entry k) ys) h
          (All-select (λ e. e.depth ≡ c) (concerns_entry k) xs a)

  eval_at_right :
      (p k : K) (ps : List K) (c : Node K V) (cs : Children K V)
      → is_le (o.cmp p k) ≡ true
      → eval_at (p ∷ ps) (cons c cs) k ≡ eval_at ps cs k
  unfolding eval_at
  eval_at_right p k ps c cs g = ground arith

  eval_at_left :
      (p k : K) (ps : List K) (c : Node K V) (cs : Children K V)
      → is_le (o.cmp p k) ≡ false
      → eval_at (p ∷ ps) (cons c cs) k ≡ eval c k
  unfolding eval_at
  eval_at_left p k ps c cs g = ground arith

  mutual
    unfolding collect_all height eval IsOrdered resolve_levels

    node_levels :
        (node : Node K V) (n d : ℕ) (k : K) (lo hi : Option K)
        → IsOrdered lo hi node
        → height node ≤ n
        → resolve_levels n d (select (concerns_entry k) (collect_all node d)) ≡ eval node k
    node_levels (leaf es) zero d k lo hi a h = absurd (omega arith)
    node_levels (leaf es) (suc n) d k lo hi a h =
        ap (apply_run (level d (select (concerns_entry k) (pair_entries d es)))) (
          resolve_levels-below n d (suc d) (select (concerns_entry k) (pair_entries d es))
            (omega arith)
            (All-select (λ e. e.depth ≡ d) (concerns_entry k) (pair_entries d es)
              (pair_entries-depth d es)))
        ∙ leaf_entries d es k a.1
    node_levels (internal ps cs buf s) zero d k lo hi a h = absurd (omega arith)
    node_levels (internal ps cs buf s) (suc n) d k lo hi a h =
        let xs = collect_buffer_entries d buf in
        let ys = collect_all_children cs (suc d) in
        ap₂ apply_run
          (ap (level d) (select-append (concerns_entry k) xs ys)
            ∙ level-deep d (suc d) (select (concerns_entry k) xs) (select (concerns_entry k) ys)
                (omega arith)
                (All-select (λ e. e.depth ≡ d) (concerns_entry k) xs (buffer_entries-depth d buf))
                (All-select (λ e. suc d ≤ e.depth) (concerns_entry k) ys
                  (All-imp (λ e. (suc d ≤ e.depth) × (e.depth < heights cs + suc d))
                    (λ e. suc d ≤ e.depth) (λ e r. r.0) ys (collect_children_depths cs (suc d)))))
          (select-shallow n d (suc d) k xs ys (omega arith) (buffer_entries-depth d buf)
            ∙ children_levels cs ps n (suc d) k lo hi a.2 (omega arith))
        ∙ buffer_entries d buf k (eval_at ps cs k)

    children_levels :
        (cs : Children K V) (ps : List K) (n d : ℕ) (k : K) (lo hi : Option K)
        → AreOrdered lo hi ps cs
        → heights cs ≤ n
        → resolve_levels n d (select (concerns_entry k) (collect_all_children cs d))
          ≡ eval_at ps cs k
    children_levels nil ps n d k lo hi a h = absurd a
    children_levels (cons c nil) [] n d k lo hi a h =
        ap (λ x. resolve_levels n d (select (concerns_entry k) x)) (append-nil (collect_all c d))
        ∙ node_levels c n d k lo hi a (omega (arith, le_larger (height c) 0))
    children_levels (cons c (cons e cs)) [] n d k lo hi a h = absurd a
    children_levels (cons c cs) (p ∷ ps) n d k lo hi a h =
        let xs = collect_all c d in
        let ys = collect_all_children cs d in
        elim (Bool-cases (is_le (o.cmp p k))) [
          | inl g ↦
              rw
                (
                  eval_at_right p k ps c cs g,
                  select-append (concerns_entry k) xs ys,
                  select-none k xs (
                      none_at_or_above p k xs (λ x. ground arith)
                        (All-imp (λ e. InRange lo (some p) e.key) (λ e. e.key ≺ p) (λ e r. r.1) xs
                          (collect_keys c d lo (some p) a.1))),
                )
                (children_levels cs ps n d k (some p) hi a.2
                  (omega (arith, le_larger (height c) (heights cs))))
          | inr g ↦
              rw
                (
                  eval_at_left p k ps c cs g,
                  select-append (concerns_entry k) xs ys,
                  select-none k ys (
                      none_below p k ys g (
                        All-imp (λ e. InRange (some p) hi e.key) (λ e. p ≼ e.key) (λ e r. r.0) ys
                          (collect_children_keys cs ps d (some p) hi a.2))),
                  append-nil (select (concerns_entry k) xs),
                )
                (node_levels c n d k lo (some p) a.1
                  (omega (arith, le_larger (height c) (heights cs))))
        ]

  -- On an ordered tree the levels of the collected entries, the deepest first, give what a read gives.
  pub resolve_levels-collect_all :
      (node : Node K V) (n d : ℕ) (k : K) (lo hi : Option K)
      → IsOrdered lo hi node
      → height node ≤ n
      → resolve_levels n d (select (concerns_entry k) (collect_all node d)) ≡ eval node k
  resolve_levels-collect_all node n d k lo hi a h = node_levels node n d k lo hi a h
