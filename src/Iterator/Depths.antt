-- ===== src/Iterator/Depths.antt =====
-- iterator.go, collectAll: the depths of the entries collected, and what a level does not see.
use fractaltree.Prelude.{
  ℕ, zero, suc, ◌+◌, ◌≤◌, ◌<◌, ◌≡◌, refl, ap, ap₂, sym, ◌∙◌, none, List, [], ◌∷◌, ◌++◌, append-nil,
  arith, leb, if◌then◌else◌, All, All-append,
}
use fractaltree.Message.{Message, put, delete, delete_range, upsert}
use fractaltree.Node.{Node, leaf, internal, Children, nil, cons}
use fractaltree.Iterator.{
  MergeEntry, pair_entries, collect_buffer_entries, collect_all, collect_all_children, apply_run,
}
use fractaltree.Iterator.Levels.{level, resolve_levels, IsBetween}

abbrev pub larger : ℕ → ℕ → ℕ
larger a b = if leb a b then b else a

pub le_larger : (a b : ℕ) → (a ≤ larger a b) × (b ≤ larger a b)
le_larger a b = ground arith

module _ {ℓ κ} {K : Type ℓ} {V : Type κ} where
  unfoldable mutual
    pub height : Node K V → ℕ
    height (leaf es) = 1
    height (internal ps cs buf s) = suc (heights cs)

    pub heights : Children K V → ℕ
    heights nil = 0
    heights (cons c cs) = larger (height c) (heights cs)

  pub pair_entries-depth : (d : ℕ) (es : List (K × V)) → All (λ e. e.depth ≡ d) (pair_entries d es)
  pair_entries-depth d [] = tt
  pair_entries-depth d ((k, v) ∷ es) = (refl, pair_entries-depth d es)

  pub buffer_entries-depth :
      (d : ℕ) (ms : List (Message K V)) → All (λ e. e.depth ≡ d) (collect_buffer_entries d ms)
  buffer_entries-depth d [] = tt
  buffer_entries-depth d (put k v c ∷ ms) = (refl, buffer_entries-depth d ms)
  buffer_entries-depth d (delete k ∷ ms) = (refl, buffer_entries-depth d ms)
  buffer_entries-depth d (delete_range k e ∷ ms) = buffer_entries-depth d ms
  buffer_entries-depth d (upsert k f ∷ ms) = (refl, buffer_entries-depth d ms)

  at-IsBetween :
      (d h : ℕ) (es : List (MergeEntry K V)) → d < h → All (λ e. e.depth ≡ d) es → IsBetween d h es
  at-IsBetween d h [] l a = tt
  at-IsBetween d h (e ∷ es) l a =
      ((omega (arith, a.0), omega (arith, a.0)), at-IsBetween d h es l a.1)

  IsBetween-widen :
      (c d g h : ℕ) (es : List (MergeEntry K V))
      → c ≤ d
      → g ≤ h
      → IsBetween d g es
      → IsBetween c h es
  IsBetween-widen c d g h [] p q a = tt
  IsBetween-widen c d g h (e ∷ es) p q a =
      ((omega (arith, a.0.0), omega (arith, a.0.1)), IsBetween-widen c d g h es p q a.1)

  mutual
    unfolding collect_all height

    collect_depths : (n : Node K V) (d : ℕ) → IsBetween d (height n + d) (collect_all n d)
    collect_depths (leaf es) d =
        at-IsBetween d (1 + d) (pair_entries d es) (omega arith) (pair_entries-depth d es)
    collect_depths (internal ps cs buf s) d =
        All-append (λ e. (d ≤ e.depth) × (e.depth < suc (heights cs) + d))
          (collect_buffer_entries d buf) (collect_all_children cs (suc d))
          (at-IsBetween d (suc (heights cs) + d) (collect_buffer_entries d buf) (omega arith)
            (buffer_entries-depth d buf))
          (IsBetween-widen d (suc d) (heights cs + suc d) (suc (heights cs) + d)
            (collect_all_children cs (suc d)) (omega arith) (omega arith)
            (collect_children_depths cs (suc d)))

    pub collect_children_depths :
        (cs : Children K V) (d : ℕ) → IsBetween d (heights cs + d) (collect_all_children cs d)
    collect_children_depths nil d = tt
    collect_children_depths (cons c cs) d =
        All-append (λ e. (d ≤ e.depth) × (e.depth < heights (cons c cs) + d)) (collect_all c d)
          (collect_all_children cs d)
          (IsBetween-widen d d (height c + d) (heights (cons c cs) + d) (collect_all c d)
            (omega arith) (omega (arith, le_larger (height c) (heights cs))) (collect_depths c d))
          (IsBetween-widen d d (heights cs + d) (heights (cons c cs) + d)
            (collect_all_children cs d) (omega arith)
            (omega (arith, le_larger (height c) (heights cs))) (collect_children_depths cs d))

  pub collect_all-IsBetween : (n : Node K V) (d : ℕ) → IsBetween d (height n + d) (collect_all n d)
  collect_all-IsBetween n d = collect_depths n d

  -- entries above the levels are not seen
  level-shallow :
      (c d : ℕ) (xs ys : List (MergeEntry K V))
      → c < d
      → All (λ e. e.depth ≡ c) xs
      → level d (xs ++ ys) ≡ level d ys
  level-shallow c d [] ys h a = refl
  level-shallow c d (x ∷ xs) ys h a = ground (arith, level-shallow c d xs ys h a.1)

  pub resolve_levels-shallow :
      (n c d : ℕ) (xs ys : List (MergeEntry K V))
      → c < d
      → All (λ e. e.depth ≡ c) xs
      → resolve_levels n d (xs ++ ys) ≡ resolve_levels n d ys
  unfolding resolve_levels
  resolve_levels-shallow zero c d xs ys h a = refl
  resolve_levels-shallow (suc n) c d xs ys h a =
      ap₂ apply_run (level-shallow c d xs ys h a)
        (resolve_levels-shallow n c (suc d) xs ys (omega arith) a)

  pub resolve_levels-below :
      (n c d : ℕ) (es : List (MergeEntry K V))
      → c < d
      → All (λ e. e.depth ≡ c) es
      → resolve_levels n d es ≡ none
  unfolding resolve_levels apply_run
  resolve_levels-below zero c d es h a = refl
  resolve_levels-below (suc n) c d es h a =
      ap₂ apply_run (ap (level d) (sym (append-nil es)) ∙ level-shallow c d es [] h a)
        (resolve_levels-below n c (suc d) es (omega arith) a)

  pub level-deep :
      (d h : ℕ) (xs ys : List (MergeEntry K V))
      → d < h
      → All (λ e. e.depth ≡ d) xs
      → All (λ e. h ≤ e.depth) ys
      → level d (xs ++ ys) ≡ xs
  level-deep d h [] [] l a b = refl
  level-deep d h [] (y ∷ ys) l a b = ground (arith, level-deep d h [] ys l tt b.1)
  level-deep d h (x ∷ xs) ys l a b = ground (arith, level-deep d h xs ys l a.1 b)
