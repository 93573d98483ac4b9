-- ===== src/Iterator/Range.antt =====
-- iterator.go, collectRange: it collects the entries of collectAll whose keys are in the range.
use fractaltree.Prelude.{
  select-append, ℕ, suc, ◌+◌, ◌≤◌, ◌≡◌, refl, ap, ap₂, sym, ◌∙◌, Bool, true, false, ◌&&◌, Option,
  none, some, List, [], ◌∷◌, ◌++◌, arith, leb, select, All, Bool-cases, inl, inr, ◌⊎◌,
}
use fractaltree.Order.{Ord, ◌≺◌, ◌≼◌, is_le, lt_le_trans}
use fractaltree.Node.{Node, leaf, internal, Children, nil, cons, in_slice, buffer_slice_scan}
use fractaltree.Node.Slice.{buffer_slice_lem}
use fractaltree.Ordered.{IsAtLeast, InRange, IsOrdered, AreOrdered}
use fractaltree.Ordered.Route.{route, find_child_index_lem}
use fractaltree.Iterator.{
  MergeEntry, collect_buffer_entries, collect_all, collect_all_children, collect_range,
  collect_range_children,
}
use fractaltree.Iterator.Collect.{collect_all-InRange}
use fractaltree.Iterator.Bounds.{leaf_range, buffer_in_slice}

module _ {ℓ} {K : Type ℓ} ⦃o : Ord K⦄ where
  -- the range ends below the keys that are left
  abbrev EndsBelow : K → Option K → Type 0
  EndsBelow hi none = ⊥
  EndsBelow hi (some b) = hi ≺ b

  -- the loop starts at this child, or the child's upper pivot is not above the range
  first_child {μ} :
      {P : Type μ} (i first : ℕ) (lo p : K) (ps : List K)
      → first ≤ i + route (p ∷ ps) lo
      → (p ≼ lo → P)
      → (first ≤ i) ⊎ P
  first_child i first lo p ps f g = elim (Bool-cases (is_le (o.cmp p lo))) [
    | inl h ↦ inr (g (λ e. ground arith))
    | inr h ↦ inl (ground arith)
  ]

  next_first :
      (i first : ℕ) (lo p : K) (ps : List K)
      → first ≤ i + route (p ∷ ps) lo
      → first ≤ suc i + route ps lo
  next_first i first lo p ps f = ground arith

  last_child {μ} :
      {P : Type μ} (i last r : ℕ) (hi : K) (b : Option K)
      → (i + r ≤ last) ⊎ EndsBelow hi b
      → (EndsBelow hi b → P)
      → (i ≤ last) ⊎ P
  last_child i last r hi b (inl l) g = inl (omega arith)
  last_child i last r hi b (inr e) g = inr (g e)

  ends_below : (hi p : K) (b : Option K) → IsAtLeast b p → EndsBelow hi b → hi ≺ p
  ends_below hi p none s e = absurd e
  ends_below hi p (some b) s e = lt_le_trans hi b p e s

  next_last :
      (i last : ℕ) (hi : K) (b : Option K) (p : K) (ps : List K)
      → IsAtLeast b p
      → (i + route (p ∷ ps) hi ≤ last) ⊎ EndsBelow hi b
      → (suc i + route ps hi ≤ last) ⊎ EndsBelow hi (some p)
  next_last i last hi b p ps s (inr e) = inr (ends_below hi p b s e)
  next_last i last hi b p ps s (inl l) = elim (Bool-cases (is_le (o.cmp p hi))) [
    | inl h ↦ inl (ground arith)
    | inr h ↦ inr (o.lt_of_gt p hi (ground arith))
  ]

module _ {ℓ κ} {K : Type ℓ} {V : Type κ} ⦃o : Ord K⦄ where
  abbrev pub in_range : K → K → Bool → Bool → MergeEntry K V → Bool
  in_range lo hi lo_inc hi_inc e = in_slice lo hi lo_inc hi_inc e.key

  -- keys that are all below the range, and all above it
  none_before :
      (lo hi : K) (lo_inc hi_inc : Bool) (b : Option K) (p : K) (es : List (MergeEntry K V))
      → p ≼ lo
      → All (λ e. InRange b (some p) e.key) es
      → select (in_range lo hi lo_inc hi_inc) es ≡ []
  none_before lo hi lo_inc hi_inc b p [] h a = refl
  none_before lo hi lo_inc hi_inc b p (e ∷ es) h a =
      ground (arith, none_before lo hi lo_inc hi_inc b p es h a.1, lt_le_trans e.key p lo a.0.1)

  none_after :
      (lo hi : K) (lo_inc hi_inc : Bool) (b : K) (c : Option K) (es : List (MergeEntry K V))
      → hi ≺ b
      → All (λ e. InRange (some b) c e.key) es
      → select (in_range lo hi lo_inc hi_inc) es ≡ []
  none_after lo hi lo_inc hi_inc b c [] h a = refl
  none_after lo hi lo_inc hi_inc b c (e ∷ es) h a = ground (
    arith,
    none_after lo hi lo_inc hi_inc b c es h a.1,
    lt_le_trans hi b e.key h a.0.0,
    o.gt_of_lt hi e.key,
  )

  none_ends :
      (lo hi : K) (lo_inc hi_inc : Bool) (b c : Option K) (es : List (MergeEntry K V))
      → EndsBelow hi b
      → All (λ e. InRange b c e.key) es
      → select (in_range lo hi lo_inc hi_inc) es ≡ []
  none_ends lo hi lo_inc hi_inc none c es h a = absurd h
  none_ends lo hi lo_inc hi_inc (some b) c es h a = none_after lo hi lo_inc hi_inc b c es h a

  -- one round of the loop: a child is visited, or holds nothing of the range
  visit_lem :
      (i first last : ℕ) (xs ys : List (MergeEntry K V))
      → xs ≡ ys
      → (first ≤ i) ⊎ (ys ≡ [])
      → (i ≤ last) ⊎ (ys ≡ [])
      → (elim (leb first i && leb i last) [ true ↦ xs | false ↦ [] ]) ≡ ys
  visit_lem i first last xs ys e f l = elim (Bool-cases (leb first i && leb i last)) [
    | inl h ↦ rw h e
    | inr h ↦ rw h (sym (none_left f l h))
  ]
    where
      none_left :
          (first ≤ i) ⊎ (ys ≡ [])
          → (i ≤ last) ⊎ (ys ≡ [])
          → (leb first i && leb i last) ≡ false
          → ys ≡ []
      none_left (inl a) (inl b) h = absurd (ground arith)
      none_left (inr a) m h = a
      none_left (inl a) (inr b) h = b

  mutual
    unfolding collect_range collect_all IsOrdered buffer_slice_scan

    node_range :
        (n : Node K V) (lo hi : K) (lo_inc hi_inc : Bool) (d : ℕ) (b c : Option K)
        → lo ≺ hi
        → IsOrdered b c n
        → collect_range lo hi lo_inc hi_inc n d
          ≡ select (in_range lo hi lo_inc hi_inc) (collect_all n d)
    node_range (leaf es) lo hi lo_inc hi_inc d b c h a = leaf_range lo hi lo_inc hi_inc d es h a.1
    node_range (internal ps cs buf s) lo hi lo_inc hi_inc d b c h a =
        ap₂ (λ x y. x ++ y)
          (ap (collect_buffer_entries d) (buffer_slice_lem buf s lo hi lo_inc hi_inc a.1 h)
            ∙ buffer_in_slice lo hi lo_inc hi_inc d buf)
          (rw (find_child_index_lem b c ps cs lo a.2, find_child_index_lem b c ps cs hi a.2)
            (children_range cs ps lo hi lo_inc hi_inc 0 (route ps lo) (route ps hi) (suc d) b c h
              a.2 (omega arith) (inl (omega arith))))
        ∙ sym (
            select-append (in_range lo hi lo_inc hi_inc) (collect_buffer_entries d buf)
              (collect_all_children cs (suc d)))

    children_range :
        (cs : Children K V) (ps : List K) (lo hi : K) (lo_inc hi_inc : Bool) (i first last d : ℕ)
        (b c : Option K)
        → lo ≺ hi
        → AreOrdered b c ps cs
        → first ≤ i + route ps lo
        → (i + route ps hi ≤ last) ⊎ EndsBelow hi b
        → collect_range_children lo hi lo_inc hi_inc cs i first last d
          ≡ select (in_range lo hi lo_inc hi_inc) (collect_all_children cs d)
    children_range nil ps lo hi lo_inc hi_inc i first last d b c h a f l = absurd a
    children_range (cons n nil) [] lo hi lo_inc hi_inc i first last d b c h a f l =
        let es = collect_all n d in
        let keys = collect_all-InRange n d b c a in
        ap (λ x. x ++ [])
          (visit_lem i first last (collect_range lo hi lo_inc hi_inc n d)
            (select (in_range lo hi lo_inc hi_inc) es) (node_range n lo hi lo_inc hi_inc d b c h a)
            (inl (omega arith))
            (last_child i last (route [] hi) hi b l
              (λ e. none_ends lo hi lo_inc hi_inc b c es e keys)))
        ∙ sym (select-append (in_range lo hi lo_inc hi_inc) es [])
    children_range (cons n (cons m cs)) [] lo hi lo_inc hi_inc i first last d b c h a f l = absurd a
    children_range (cons n cs) (p ∷ ps) lo hi lo_inc hi_inc i first last d b c h a f l =
        let es = collect_all n d in
        let keys = collect_all-InRange n d b (some p) a.1 in
        ap₂ (λ x y. x ++ y)
          (visit_lem i first last (collect_range lo hi lo_inc hi_inc n d)
            (select (in_range lo hi lo_inc hi_inc) es)
            (node_range n lo hi lo_inc hi_inc d b (some p) h a.1)
            (first_child i first lo p ps f (λ e. none_before lo hi lo_inc hi_inc b p es e keys))
            (last_child i last (route (p ∷ ps) hi) hi b l
              (λ e. none_ends lo hi lo_inc hi_inc b (some p) es e keys)))
          (children_range cs ps lo hi lo_inc hi_inc (suc i) first last d (some p) c h a.2
            (next_first i first lo p ps f) (next_last i last hi b p ps a.0.0 l))
        ∙ sym (select-append (in_range lo hi lo_inc hi_inc) es (collect_all_children cs d))

  -- On an ordered tree, and for bounds in order, `collectRange` collects what `collectAll` collects, in
  -- the same order, less the entries whose keys are out of the range.
  pub collect_range-select :
      (n : Node K V) (lo hi : K) (lo_inc hi_inc : Bool) (d : ℕ) (b c : Option K)
      → lo ≺ hi
      → IsOrdered b c n
      → collect_range lo hi lo_inc hi_inc n d
        ≡ select (in_range lo hi lo_inc hi_inc) (collect_all n d)
  collect_range-select n lo hi lo_inc hi_inc d b c h a = node_range n lo hi lo_inc hi_inc d b c h a
