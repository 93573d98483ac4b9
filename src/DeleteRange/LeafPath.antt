-- ===== src/DeleteRange/LeafPath.antt =====
-- tree.go, DeleteRange on a leaf: the loop from the last entry to the first filters the leaf.
use fractaltree.Prelude.{
  ℕ, zero, suc, ◌+◌, ◌≤◌, ◌<◌, ◌≡◌, refl, ap, ap₂, sym, ◌∙◌, true, false, not, some, List, [], ◌∷◌,
  ◌++◌, append_assoc, append-nil, arith, length, length-append, get_elem?, delete_at, take, drop,
  select, select-snoc, Bool-cases, inl, inr,
}
use fractaltree.Order.{Ord}
use fractaltree.DeleteRange.{is_between, is_between_at, delete_loop}

module _ {ℓ} {A : Type ℓ} where
  pub take-suc :
      (i : ℕ) (xs : List A) (x : A)
      → get_elem? xs i ≡ some x
      → take (suc i) xs ≡ take i xs ++ x ∷ []
  take-suc i [] x h = absurd (ground arith)
  take-suc zero (y ∷ xs) x h = ground arith
  take-suc (suc i) (y ∷ xs) x h = ap (λ r. y ∷ r) (take-suc i xs x h)

  pub drop-at :
      (i : ℕ) (xs : List A) (x : A) → get_elem? xs i ≡ some x → drop i xs ≡ x ∷ drop (suc i) xs
  drop-at i [] x h = absurd (ground arith)
  drop-at zero (y ∷ xs) x h = ground arith
  drop-at (suc i) (y ∷ xs) x h = drop-at i xs x h

  take-delete_at : (i : ℕ) (xs : List A) → take i (delete_at xs i) ≡ take i xs
  take-delete_at zero xs = refl
  take-delete_at (suc i) [] = refl
  take-delete_at (suc i) (x ∷ xs) = ap (λ r. x ∷ r) (take-delete_at i xs)

  drop-delete_at : (i : ℕ) (xs : List A) → drop i (delete_at xs i) ≡ drop (suc i) xs
  drop-delete_at zero [] = refl
  drop-delete_at zero (x ∷ xs) = refl
  drop-delete_at (suc i) [] = refl
  drop-delete_at (suc i) (x ∷ xs) = drop-delete_at i xs

  length-delete_at :
      (i : ℕ) (xs : List A) → i < length xs → suc (length (delete_at xs i)) ≡ length xs
  length-delete_at i [] h = absurd (omega arith)
  length-delete_at zero (x ∷ xs) h = refl
  length-delete_at (suc i) (x ∷ xs) h = omega (arith, length-delete_at i xs)

  pub element_at : (i : ℕ) (xs : List A) → i < length xs → (x : A) × (get_elem? xs i ≡ some x)
  element_at i [] h = absurd (omega arith)
  element_at zero (x ∷ xs) h = (x, refl)
  element_at (suc i) (x ∷ xs) h = element_at i xs (omega arith)

  pub take_all : (xs : List A) → take (length xs) xs ≡ xs
  take_all [] = refl
  take_all (x ∷ xs) = ap (λ r. x ∷ r) (take_all xs)

  drop_all : (xs : List A) → drop (length xs) xs ≡ []
  drop_all [] = refl
  drop_all (x ∷ xs) = drop_all xs

module _ {ℓ κ} {K : Type ℓ} {V : Type κ} ⦃o : Ord K⦄ (lo hi : K) where
  abbrev kept : List (K × V) → List (K × V)
  kept es = select (λ e. not (is_between lo hi e)) es

  abbrev gone : List (K × V) → List (K × V)
  gone es = select (is_between lo hi) es

  loop_deletes :
      (i : ℕ) (es : List (K × V)) (n : ℕ) (x : K × V)
      → get_elem? es i ≡ some x
      → is_between lo hi x ≡ true
      → delete_loop lo hi (suc i) es n ≡ delete_loop lo hi i (delete_at es i) (n + 1)
  unfolding delete_loop
  loop_deletes i es n x e b =
      let t : is_between_at lo hi es i ≡ true = rw (e, is_between_at) b in rw (t, delete_loop) refl

  loop_skips :
      (i : ℕ) (es : List (K × V)) (n : ℕ) (x : K × V)
      → get_elem? es i ≡ some x
      → is_between lo hi x ≡ false
      → delete_loop lo hi (suc i) es n ≡ delete_loop lo hi i es n
  unfolding delete_loop
  loop_skips i es n x e b =
      let t : is_between_at lo hi es i ≡ false = rw (e, is_between_at) b in rw (t, delete_loop) refl

  deletes_one :
      (i : ℕ) (es : List (K × V)) (x : K × V)
      → get_elem? es i ≡ some x
      → is_between lo hi x ≡ true
      → (kept (take (suc i) es) ≡ kept (take i es))
        × (length (gone (take (suc i) es)) ≡ length (gone (take i es)) + 1)
  deletes_one i es x e b =
      rw
        (
          take-suc i es x e,
          select-snoc (λ y. not (is_between lo hi y)) (take i es) x,
          select-snoc (is_between lo hi) (take i es) x,
          b,
        )
        (refl, length-append (gone (take i es)) (x ∷ []))

  kept_stays :
      (i : ℕ) (es : List (K × V)) (x : K × V)
      → get_elem? es i ≡ some x
      → is_between lo hi x ≡ false
      → (kept (take (suc i) es) ++ drop (suc i) es ≡ kept (take i es) ++ drop i es)
        × (gone (take (suc i) es) ≡ gone (take i es))
  kept_stays i es x e b =
      rw
        (
          take-suc i es x e,
          select-snoc (λ y. not (is_between lo hi y)) (take i es) x,
          select-snoc (is_between lo hi) (take i es) x,
          b,
        )
        (
          append_assoc (kept (take i es)) (x ∷ []) (drop (suc i) es)
              ∙ ap (λ r. kept (take i es) ++ r) (sym (drop-at i es x e)),
          refl,
        )

  loop_filters :
      (i : ℕ) (es : List (K × V)) (n : ℕ)
      → i ≤ length es
      → delete_loop lo hi i es n ≡ (kept (take i es) ++ drop i es, n + length (gone (take i es)))
  unfolding delete_loop
  loop_filters zero es n h = ap (λ m. (es, m)) (omega arith)
  loop_filters (suc i) es n h =
      let (x, e) = element_at i es (omega arith) in
      elim (Bool-cases (is_between lo hi x)) [
        | inl b ↦
            let k = deletes_one i es x e b in
            loop_deletes i es n x e b
            ∙ loop_filters i (delete_at es i) (n + 1) (omega (arith, length-delete_at i es))
            ∙ ap₂ (λ a c. (a, c))
                (ap₂ (λ a c. kept a ++ c) (take-delete_at i es) (drop-delete_at i es)
                  ∙ ap (λ a. a ++ drop (suc i) es) (sym k.0))
                (ap (λ a. n + 1 + length (gone a)) (take-delete_at i es) ∙ omega (arith, k.1))
        | inr b ↦
            let k = kept_stays i es x e b in
            loop_skips i es n x e b
            ∙ loop_filters i es n (omega arith)
            ∙ ap₂ (λ a c. (a, n + length c)) (sym k.0) (sym k.1)
      ]

  -- The loop keeps the entries out of the range, in their order, and counts the others.
  pub delete_loop_lem :
      (es : List (K × V))
      → delete_loop lo hi (length es) es 0
        ≡ (select (λ e. not (is_between lo hi e)) es, length (select (is_between lo hi) es))
  delete_loop_lem es =
      loop_filters (length es) es 0 (omega arith)
      ∙ rw (take_all es, drop_all es, append-nil (kept es)) (ap (λ n. (kept es, n)) (omega arith))
