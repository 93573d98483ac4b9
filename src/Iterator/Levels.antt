-- ===== src/Iterator/Levels.antt =====
-- iterator.go, resolveKeyEntries: the runs of a list sorted by depth are the levels of any list that
-- holds the same entries at each depth in the same order.
use fractaltree.Prelude.{
  ℕ, zero, suc, ◌+◌, ◌≤◌, ◌<◌, ◌≡◌, refl, ap, ap₂, sym, subst, ◌∙◌, not, All-select, All-imp,
  Bool-cases, inl, inr, true, false, Option, none, List, [], ◌∷◌, ◌++◌, append_assoc, append-nil,
  arith, ◌==◌, ==_iff, select, All,
}
use fractaltree.Iterator.{MergeEntry, apply_run, apply_change, resolve_runs, resolve_key_entries}

later : (d h : ℕ) → d ≤ h → (h == d) ≡ false → d < h
later d h l e = ground arith

module _ {ℓ κ} {K : Type ℓ} {V : Type κ} where
  -- the entries of one depth
  abbrev pub level : ℕ → List (MergeEntry K V) → List (MergeEntry K V)
  level d es = select (λ e. e.depth == d) es

  -- `n` levels from depth `d` on, the deepest first
  unfoldable pub resolve_levels : ℕ → ℕ → List (MergeEntry K V) → Option V
  resolve_levels zero d es = none
  resolve_levels (suc n) d es = apply_run (level d es) (resolve_levels n (suc d) es)

  -- ascending depths
  abbrev pub IsDepthSorted : List (MergeEntry K V) → Type 0
  IsDepthSorted [] = Unit
  IsDepthSorted (e ∷ es) = All (λ x. e.depth ≤ x.depth) es × IsDepthSorted es

  abbrev pub IsBetween : ℕ → ℕ → List (MergeEntry K V) → Type 0
  IsBetween d h es = All (λ e. (d ≤ e.depth) × (e.depth < h)) es

  pub apply_run-append :
      (xs ys : List (MergeEntry K V)) (b : Option V)
      → apply_run (xs ++ ys) b ≡ apply_run ys (apply_run xs b)
  unfolding apply_run
  apply_run-append [] ys b = refl
  apply_run-append (x ∷ xs) ys b = apply_run-append xs ys (apply_change x.change b)

  -- equal levels resolve alike
  pub resolve_levels-congr :
      (n d : ℕ) (xs ys : List (MergeEntry K V))
      → ((i : ℕ) → level i xs ≡ level i ys)
      → resolve_levels n d xs ≡ resolve_levels n d ys
  unfolding resolve_levels
  resolve_levels-congr zero d xs ys h = refl
  resolve_levels-congr (suc n) d xs ys h =
      ap₂ apply_run (h d) (resolve_levels-congr n (suc d) xs ys h)

  level-above : (d : ℕ) (es : List (MergeEntry K V)) → All (λ e. d < e.depth) es → level d es ≡ []
  level-above d [] a = refl
  level-above d (e ∷ es) a = ground (arith, level-above d es a.1)

  -- an entry above the levels is not seen
  resolve_levels-skip :
      (n d : ℕ) (e : MergeEntry K V) (es : List (MergeEntry K V))
      → e.depth < d
      → resolve_levels n d (e ∷ es) ≡ resolve_levels n d es
  unfolding resolve_levels
  resolve_levels-skip zero d e es h = refl
  resolve_levels-skip (suc n) d e es h = ground (arith, resolve_levels-skip n (suc d) e es)

  -- the entries of other depths
  abbrev others : ℕ → List (MergeEntry K V) → List (MergeEntry K V)
  others d es = select (λ e. not (e.depth == d)) es

  others-above : (d : ℕ) (es : List (MergeEntry K V)) → All (λ e. d < e.depth) es → others d es ≡ es
  others-above d [] a = refl
  others-above d (e ∷ es) a = ground (arith, others-above d es a.1)

  others-IsBetween :
      (d h : ℕ) (es : List (MergeEntry K V)) → IsBetween d h es → IsBetween (suc d) h (others d es)
  others-IsBetween d h [] a = tt
  others-IsBetween d h (e ∷ es) a = ground (arith, others-IsBetween d h es a.1)

  others-All {μ} :
      (P : MergeEntry K V → Type μ) (d : ℕ) (es : List (MergeEntry K V))
      → All P es
      → All P (others d es)
  others-All P d es a = All-select P (λ e. not (e.depth == d)) es a

  others-IsDepthSorted :
      (d : ℕ) (es : List (MergeEntry K V)) → IsDepthSorted es → IsDepthSorted (others d es)
  others-IsDepthSorted d [] s = tt
  others-IsDepthSorted d (e ∷ es) s =
      ground (arith, others-IsDepthSorted d es s.1, others-All (λ x. e.depth ≤ x.depth) d es s.0)

  level-others : (c d : ℕ) (es : List (MergeEntry K V)) → c < d → level d (others c es) ≡ level d es
  level-others c d [] h = refl
  level-others c d (e ∷ es) h = ground (arith, level-others c d es h)

  resolve_levels-others :
      (n c d : ℕ) (es : List (MergeEntry K V))
      → c < d
      → resolve_levels n d (others c es) ≡ resolve_levels n d es
  unfolding resolve_levels
  resolve_levels-others zero c d es h = refl
  resolve_levels-others (suc n) c d es h =
      ap₂ apply_run (level-others c d es h) (resolve_levels-others n c (suc d) es (omega arith))

  deeper :
      (d h : ℕ) (es : List (MergeEntry K V))
      → d < h
      → All (λ e. h ≤ e.depth) es
      → All (λ e. d < e.depth) es
  deeper d h [] l a = tt
  deeper d h (e ∷ es) l a = (omega (arith, a.0), deeper d h es l a.1)

  resolve_runs_same :
      (d : ℕ) (run : List (MergeEntry K V)) (e : MergeEntry K V) (es : List (MergeEntry K V))
      → (e.depth == d) ≡ true
      → resolve_runs d run (e ∷ es) ≡ resolve_runs d (run ++ e ∷ []) es
  unfolding resolve_runs
  resolve_runs_same d run e es h = ground arith

  resolve_runs_next :
      (d : ℕ) (run : List (MergeEntry K V)) (e : MergeEntry K V) (es : List (MergeEntry K V))
      → (e.depth == d) ≡ false
      → resolve_runs d run (e ∷ es) ≡ apply_run run (resolve_key_entries (e ∷ es))
  unfolding resolve_key_entries resolve_runs
  resolve_runs_next d run e es h = ground arith

  -- the run of a depth, then the deeper ones
  resolve_runs-level :
      (d : ℕ) (run es : List (MergeEntry K V))
      → IsDepthSorted es
      → All (λ e. d ≤ e.depth) es
      → resolve_runs d run es ≡ apply_run (run ++ level d es) (resolve_key_entries (others d es))
  unfolding resolve_key_entries
  resolve_runs-level d run [] s a = ap (λ r. apply_run r none) (sym (append-nil run))
  resolve_runs-level d run (e ∷ es) s a = elim (Bool-cases (e.depth == d)) [
    | inl h ↦
        rw (resolve_runs_same d run e es h, h)
          (resolve_runs-level d (run ++ e ∷ []) es s.1 a.1
            ∙ ap (λ r. apply_run r (resolve_key_entries (others d es)))
                (append_assoc run (e ∷ []) (level d es)))
    | inr h ↦
        let l : d < e.depth = later d e.depth a.0 h in
        rw
          (
            resolve_runs_next d run e es h,
            h,
            level-above d es (deeper d e.depth es l s.0),
            others-above d es (deeper d e.depth es l s.0),
            append-nil run,
          )
          refl
  ]

  resolve_key_entries-level :
      (d : ℕ) (es : List (MergeEntry K V))
      → IsDepthSorted es
      → All (λ e. d ≤ e.depth) es
      → resolve_key_entries es ≡ apply_run (level d es) (resolve_key_entries (others d es))
  unfolding resolve_key_entries
  resolve_key_entries-level d [] s a = refl
  resolve_key_entries-level d (e ∷ es) s a = elim (Bool-cases (e.depth == d)) [
    | inl h ↦ rw h (
        ap (λ x. resolve_runs x (e ∷ []) es) ((==_iff e.depth d).0 h)
        ∙ resolve_runs-level d (e ∷ []) es s.1 a.1)
    | inr h ↦
        let l : d < e.depth = later d e.depth a.0 h in
        rw
          (
            h,
            level-above d es (deeper d e.depth es l s.0),
            others-above d es (deeper d e.depth es l s.0),
          )
          refl
  ]

  none_between : (d : ℕ) (es : List (MergeEntry K V)) → IsBetween d d es → es ≡ []
  none_between d [] a = refl
  none_between d (e ∷ es) a = absurd (omega arith)

  -- Entries of one key that are sorted by depth resolve to their levels, the deepest first; `n` is
  -- any number of levels that is enough.
  pub resolve_key_entries_lem :
      (n d : ℕ) (es : List (MergeEntry K V))
      → IsDepthSorted es
      → IsBetween d (n + d) es
      → resolve_key_entries es ≡ resolve_levels n d es
  unfolding resolve_key_entries resolve_levels
  resolve_key_entries_lem zero d es s a =
      ap resolve_key_entries (none_between d es (subst (λ h. IsBetween d h es) (omega arith) a))
  resolve_key_entries_lem (suc n) d es s a =
      resolve_key_entries-level d es s (All-imp _ _ (λ e b. b.0) es a)
      ∙ ap (apply_run (level d es)) (
          resolve_key_entries_lem n (suc d) (others d es) (others-IsDepthSorted d es s)
            (others-IsBetween d (n + suc d) es (subst (λ h. IsBetween d h es) (omega arith) a))
          ∙ resolve_levels-others n d (suc d) es (omega arith))

module _ {ℓ κ} (K : Type ℓ) (V : Type κ) where
  pub resolve_levels-nil : (n d : ℕ) → resolve_levels {K = K} {V = V} n d [] ≡ none
  unfolding resolve_levels apply_run
  resolve_levels-nil zero d = refl
  resolve_levels-nil (suc n) d = resolve_levels-nil n (suc d)
