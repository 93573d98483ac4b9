-- ===== src/Cursor/Rest.antt =====
-- cursor.go: the pairs that a loop of Next has still to read.
use fractaltree.Prelude.{
  ℕ, zero, suc, ◌+◌, ◌≤◌, ◌<◌, ◌≡◌, refl, Bool, true, false, Bool-cases, inl, inr, some, List, [],
  ◌∷◌, arith, ltb, length, drop,
}
use fractaltree.Cursor.{Cursor, cursor_of, next, current}
use fractaltree.Cursor.Laws.{cursor_at, next-cursor_at, next-end, drop-end}
use fractaltree.DeleteRange.LeafPath.{drop-at, element_at}

module _ {ℓ κ} {K : Type ℓ} {V : Type κ} where
  -- a cursor and the result of the last Next: it stands on the first of the pairs that are left
  abbrev pub StandsOn : List (K × V) → Cursor K V → Bool → Type (ℓ ⊔ κ)
  StandsOn [] c more = (more ≡ false) × Unit
  StandsOn (p ∷ ps) c more =
      (more ≡ true) × (current c ≡ some p) × StandsOn ps (next c).0 (next c).1

  cursor_at-StandsOn :
      (f i : ℕ) (es : List (K × V))
      → length es ≤ i + f
      → i < length es
      → StandsOn (drop i es) (cursor_at es i) true
  unfolding current
  cursor_at-StandsOn zero i es h l = absurd (omega arith)
  cursor_at-StandsOn (suc f) i es h l =
      let (x, e) = element_at i es l in
      rw (drop-at i es x e) (
        refl,
        e,
        elim (Bool-cases (ltb (suc i) (length es))) [
          | inl g ↦
              rw (next-cursor_at es i (ground arith))
                (cursor_at-StandsOn f (suc i) es (omega arith) (ground arith))
          | inr g ↦ rw (drop-end (suc i) es (ground arith)) (next-end es i (ground arith), tt)
        ],
      )

  -- the first Next of a new cursor
  pub next-StandsOn :
      (es : List (K × V)) → StandsOn es (next (cursor_of es)).0 (next (cursor_of es)).1
  unfolding next
  next-StandsOn [] = (refl, tt)
  next-StandsOn (e ∷ es) =
      cursor_at-StandsOn (length (e ∷ es)) 0 (e ∷ es) (omega arith) (omega arith)
