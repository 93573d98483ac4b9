-- ===== src/Cursor/Laws.antt =====
-- cursor.go: what the loops and the search of a cursor see of its snapshot.
use fractaltree.Prelude.{
  ℕ, zero, suc, ◌+◌, ◌≤◌, ◌<◌, ◌≡◌, refl, ap, ◌∙◌, sym, true, false, Bool-cases, inl, inr, Option,
  none, some, List, [], ◌∷◌, arith, ltb, length, get_elem?, drop, if◌then◌else◌,
}
use fractaltree.Prelude.Int.{pos, ◌+ℤ◌}
use fractaltree.Order.{Ord, is_lt}
use fractaltree.Search.{binary_search_lem, prefix_count}
use fractaltree.Node.Entries.{IsSorted, IsSorted-IsPartitioned}
use fractaltree.Cursor.{Cursor, cursor_of, next, seek, current, walk}

pos_suc : (i : ℕ) → pos i +ℤ pos 1 ≡ pos (suc i)
unfolding ◌+ℤ◌
pos_suc i = ground arith

module _ {ℓ} {A : Type ℓ} where
  -- the elements, each as the result of a read in range
  abbrev pub somes : List A → List (Option A)
  somes [] = []
  somes (x ∷ xs) = some x ∷ somes xs

  get_elem?-drop :
      (n : ℕ) (xs : List A)
      → n < length xs
      → get_elem? xs n ∷ somes (drop (suc n) xs) ≡ somes (drop n xs)
  get_elem?-drop n [] h = absurd (omega arith)
  get_elem?-drop zero (x ∷ xs) h = refl
  get_elem?-drop (suc n) (x ∷ xs) h = get_elem?-drop n xs (omega arith)

  get_elem?-end : (n : ℕ) (xs : List A) → length xs ≤ n → get_elem? xs n ≡ none
  get_elem?-end n [] h = refl
  get_elem?-end zero (x ∷ xs) h = absurd (omega arith)
  get_elem?-end (suc n) (x ∷ xs) h = get_elem?-end n xs (omega arith)

  pub drop-end : (n : ℕ) (xs : List A) → length xs ≤ n → drop n xs ≡ []
  drop-end zero [] h = refl
  drop-end zero (x ∷ xs) h = absurd (omega arith)
  drop-end (suc n) [] h = refl
  drop-end (suc n) (x ∷ xs) h = drop-end n xs (omega arith)

module _ {ℓ κ} {K : Type ℓ} {V : Type κ} where
  abbrev pub cursor_at : List (K × V) → ℕ → Cursor K V
  cursor_at es i = record { pairs = es; index = pos i; valid = true }

  pub next-cursor_at :
      (es : List (K × V)) (i : ℕ)
      → suc i < length es
      → next (cursor_at es i) ≡ (cursor_at es (suc i), true)
  unfolding next
  next-cursor_at es i h = rw (pos_suc i) (ground arith)

  pub next-end : (es : List (K × V)) (i : ℕ) → length es ≤ suc i → (next (cursor_at es i)).1 ≡ false
  unfolding next
  next-end es i h = rw (pos_suc i) (ground arith)

  walk-end : (f : ℕ) (c : Cursor K V) → (next c).1 ≡ false → walk f c ≡ []
  unfolding walk
  walk-end zero c h = refl
  walk-end (suc f) c h = rw h refl

  walk-cursor_at :
      (f i : ℕ) (es : List (K × V))
      → length es ≤ i + f
      → i < length es
      → get_elem? es i ∷ walk f (cursor_at es i) ≡ somes (drop i es)
  unfolding walk current
  walk-cursor_at zero i es h l = absurd (omega arith)
  walk-cursor_at (suc f) i es h l = elim (Bool-cases (ltb (suc i) (length es))) [
    | inl e ↦ rw (next-cursor_at es i (ground arith)) (
        ap (λ r. get_elem? es i ∷ r) (walk-cursor_at f (suc i) es (omega arith) (ground arith))
        ∙ get_elem?-drop i es l)
    | inr e ↦ rw (walk-end (suc f) (cursor_at es i) (next-end es i (ground arith))) (
        ap (λ r. get_elem? es i ∷ somes r) (sym (drop-end (suc i) es (ground arith)))
        ∙ get_elem?-drop i es l)
  ]

  -- A loop of `Next` over a new cursor reads the pairs of its snapshot in order, each once, and ends;
  -- one round more than there are pairs is enough.
  pub walk-cursor_of :
      (es : List (K × V)) (f : ℕ) → length es < f → walk f (cursor_of es) ≡ somes es
  unfolding walk next current
  walk-cursor_of es zero h = absurd (omega arith)
  walk-cursor_of [] (suc f) h = refl
  walk-cursor_of (e ∷ es) (suc f) h = walk-cursor_at f 0 (e ∷ es) (omega arith) (omega arith)

module _ {ℓ κ} {K : Type ℓ} {V : Type κ} ⦃o : Ord K⦄ where
  -- On sorted pairs `Seek` returns whether some pair's key is not below the key
  -- sought; the cursor is valid exactly then, and stands on the first such pair.
  pub seek_lem :
      (c : Cursor K V) (key : K)
      → IsSorted c.pairs
      → (let n : ℕ = prefix_count (λ e. is_lt (o.cmp e.0 key)) c.pairs in
          ((seek c key).1 ≡ ltb n (length c.pairs))
          × ((seek c key).0.valid ≡ ltb n (length c.pairs))
          × ((if (seek c key).1 then current (seek c key).0 else none) ≡ get_elem? c.pairs n))
  unfolding seek current
  seek_lem c key a =
      let n : ℕ = prefix_count (λ e. is_lt (o.cmp e.0 key)) c.pairs in
      rw
        (binary_search_lem (λ e. is_lt (o.cmp e.0 key)) c.pairs
          (IsSorted-IsPartitioned c.pairs key a))
        (elim (Bool-cases (ltb n (length c.pairs))) [
          | inl e ↦ rw e (refl, refl, refl)
          | inr e ↦ rw e (refl, refl, sym (get_elem?-end n c.pairs (ground arith)))
        ])
