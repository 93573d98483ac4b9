-- ===== src/Iterator/Sort.antt =====
-- iterator.go, the sort of resolveEntries: stable, by key and then by depth.
use fractaltree.Prelude.{
  ℕ, ◌≤◌, ◌≡◌, ◌≢◌, refl, ap, sym, ◌∙◌, Bool, true, ◌&&◌, eq, gt, List, [], ◌∷◌, arith, ◌==◌,
  if◌then◌else◌, select, All, Bool-cases, inl, inr,
}
use fractaltree.Order.{Ord, is_eq, is_gt, eq_right, le_trans}
use fractaltree.Iterator.{MergeEntry, entry_order, insert_entry, sort_entries}
use fractaltree.Iterator.Levels.{level, IsDepthSorted}

module _ {ℓ κ} {K : Type ℓ} {V : Type κ} ⦃o : Ord K⦄ where
  -- does the entry concern the key?
  abbrev pub concerns_entry : K → MergeEntry K V → Bool
  concerns_entry k e = is_eq (o.cmp e.key k)

  abbrev pub ComesBefore : MergeEntry K V → MergeEntry K V → Type 0
  ComesBefore a b = entry_order a b ≢ gt

  -- ascending by key, then by depth
  abbrev pub IsEntrySorted : List (MergeEntry K V) → Type 0
  IsEntrySorted [] = Unit
  IsEntrySorted (e ∷ es) = All (ComesBefore e) es × IsEntrySorted es

  ComesBefore-trans : (a b c : MergeEntry K V) → ComesBefore a b → ComesBefore b c → ComesBefore a c
  ComesBefore-trans a b c p q = ground (
    arith,
    le_trans a.key b.key c.key,
    o.eq_left a.key b.key c.key,
    eq_right b.key c.key a.key,
    o.eq_sym a.key b.key,
    o.lt_trans a.key b.key c.key,
  )

  ComesBefore-total : (a b : MergeEntry K V) → entry_order a b ≡ gt → ComesBefore b a
  ComesBefore-total a b h = ground (arith, o.lt_of_gt a.key b.key, o.eq_sym a.key b.key)

  insert_entry-All {μ} :
      (P : MergeEntry K V → Type μ) (e : MergeEntry K V) (es : List (MergeEntry K V))
      → P e
      → All P es
      → All P (insert_entry e es)
  unfolding insert_entry
  insert_entry-All P e [] h a = (h, tt)
  insert_entry-All P e (n ∷ ns) h a = elim (Bool-cases (is_gt (entry_order e n))) [
    | inl g ↦ rw g (a.0, insert_entry-All P e ns h a.1)
    | inr g ↦ rw g (h, a)
  ]

  pub sort_entries-All {μ} :
      (P : MergeEntry K V → Type μ) (es : List (MergeEntry K V))
      → All P es
      → All P (sort_entries es)
  unfolding sort_entries
  sort_entries-All P [] a = tt
  sort_entries-All P (e ∷ es) a =
      insert_entry-All P e (sort_entries es) a.0 (sort_entries-All P es a.1)

  before_all :
      (a b : MergeEntry K V) (es : List (MergeEntry K V))
      → ComesBefore a b
      → All (ComesBefore b) es
      → All (ComesBefore a) es
  before_all a b [] h r = tt
  before_all a b (e ∷ es) h r = (ComesBefore-trans a b e h r.0, before_all a b es h r.1)

  insert_entry-IsEntrySorted :
      (e : MergeEntry K V) (es : List (MergeEntry K V))
      → IsEntrySorted es
      → IsEntrySorted (insert_entry e es)
  unfolding insert_entry
  insert_entry-IsEntrySorted e [] s = (tt, tt)
  insert_entry-IsEntrySorted e (n ∷ ns) s = elim (Bool-cases (is_gt (entry_order e n))) [
    | inl g ↦ rw g (
      insert_entry-All (ComesBefore n) e ns (ComesBefore-total e n (ground arith)) s.0,
      insert_entry-IsEntrySorted e ns s.1,
    )
    | inr g ↦ let h : ComesBefore e n = λ x. ground arith in rw g ((h, before_all e n ns h s.0), s)
  ]

  pub sort_entries-IsEntrySorted : (es : List (MergeEntry K V)) → IsEntrySorted (sort_entries es)
  unfolding sort_entries
  sort_entries-IsEntrySorted [] = tt
  sort_entries-IsEntrySorted (e ∷ es) =
      insert_entry-IsEntrySorted e (sort_entries es) (sort_entries-IsEntrySorted es)

  -- Entries that a test picks keep their order, where those it picks compare equal.
  select-insert_entry :
      (p : MergeEntry K V → Bool) (e : MergeEntry K V) (es : List (MergeEntry K V))
      → ((a b : MergeEntry K V) → p a ≡ true → p b ≡ true → ComesBefore a b)
      → select p (insert_entry e es) ≡ select p (e ∷ es)
  unfolding insert_entry
  select-insert_entry p e [] h = refl
  select-insert_entry p e (n ∷ ns) h = ground (arith, h e n, select-insert_entry p e ns h)

  pub select-sort_entries :
      (p : MergeEntry K V → Bool) (es : List (MergeEntry K V))
      → ((a b : MergeEntry K V) → p a ≡ true → p b ≡ true → ComesBefore a b)
      → select p (sort_entries es) ≡ select p es
  unfolding sort_entries
  select-sort_entries p [] h = refl
  select-sort_entries p (e ∷ es) h =
      select-insert_entry p e (sort_entries es) h
      ∙ ap (λ r. if p e then e ∷ r else r) (select-sort_entries p es h)

  level-select :
      (k : K) (d : ℕ) (es : List (MergeEntry K V))
      → level d (select (concerns_entry k) es) ≡ select (λ e. concerns_entry k e && e.depth == d) es
  level-select k d [] = refl
  level-select k d (e ∷ es) = ground (arith, level-select k d es)

  same_level :
      (k : K) (d : ℕ) (a b : MergeEntry K V)
      → (concerns_entry k a && a.depth == d) ≡ true
      → (concerns_entry k b && b.depth == d) ≡ true
      → ComesBefore a b
  same_level k d a b p q =
      ground (arith, o.eq_left a.key k b.key, o.eq_sym b.key k, o.eq_sym a.key k)

  -- Sorting leaves every level of a key as it was.
  pub level-sort_entries :
      (k : K) (d : ℕ) (es : List (MergeEntry K V))
      → level d (select (concerns_entry k) (sort_entries es))
        ≡ level d (select (concerns_entry k) es)
  level-sort_entries k d es =
      level-select k d (sort_entries es)
      ∙ select-sort_entries (λ e. concerns_entry k e && e.depth == d) es (same_level k d)
      ∙ sym (level-select k d es)

  depths-above :
      (k : K) (e : MergeEntry K V) (es : List (MergeEntry K V))
      → o.cmp e.key k ≡ eq
      → All (ComesBefore e) es
      → All (λ x. e.depth ≤ x.depth) (select (concerns_entry k) es)
  depths-above k e [] h a = tt
  depths-above k e (n ∷ ns) h a =
      ground (arith, depths-above k e ns h a.1, o.eq_left e.key k n.key, o.eq_sym n.key k)

  -- the entries of one key in a sorted list are sorted by depth
  pub select-IsDepthSorted :
      (k : K) (es : List (MergeEntry K V))
      → IsEntrySorted es
      → IsDepthSorted (select (concerns_entry k) es)
  select-IsDepthSorted k [] s = tt
  select-IsDepthSorted k (e ∷ es) s =
      ground (arith, select-IsDepthSorted k es s.1, depths-above k e es)
