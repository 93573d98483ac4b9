-- ===== src/Cursor/Back.antt =====
-- cursor.go: the loop of Prev.
use fractaltree.Prelude.{
  ℕ, zero, suc, ◌<◌, ◌≡◌, refl, ap, sym, ◌∙◌, true, false, Option, List, [], ◌∷◌, arith, length,
  get_elem?, take, reverse, if◌then◌else◌,
}
use fractaltree.Prelude.Int.{pos, ◌-ℤ◌}
use fractaltree.Cursor.{Cursor, cursor_of, prev, current}
use fractaltree.Cursor.Laws.{somes, cursor_at}
use fractaltree.DeleteRange.LeafPath.{take-suc, element_at, take_all}
use fractaltree.Sequence.Laws.{reverse-snoc}

pos_less : (i : ℕ) → pos (suc i) -ℤ pos 1 ≡ pos i
unfolding ◌-ℤ◌
pos_less i = ground arith

module _ {ℓ κ} {K : Type ℓ} {V : Type κ} where
  -- a client's loop `for c.Prev() { ... c.Key(), c.Value() ... }`, at most `fuel` rounds of it
  unfoldable pub walk_back : ℕ → Cursor K V → List (Option (K × V))
  unfolding prev current
  walk_back zero c = []
  walk_back (suc fuel) c =
      let (c', more) = prev c in
      let rest = walk_back fuel c' in if more then current c' ∷ rest else []

  prev-cursor_at :
      (es : List (K × V)) (i : ℕ) → prev (cursor_at es (suc i)) ≡ (cursor_at es i, true)
  unfolding prev
  prev-cursor_at es i = rw (pos_less i) (ground arith)

  prev-start : (es : List (K × V)) → (prev (cursor_at es 0)).1 ≡ false
  unfolding prev ◌-ℤ◌
  prev-start es = refl

  reversed_take :
      (es : List (K × V)) (i : ℕ)
      → i < length es
      → somes (reverse (take (suc i) es)) ≡ get_elem? es i ∷ somes (reverse (take i es))
  reversed_take es i h =
      let (x, e) = element_at i es h in
      ap (λ r. somes (reverse r)) (take-suc i es x e)
      ∙ ap somes (reverse-snoc (take i es) x)
      ∙ ap (λ r. r ∷ somes (reverse (take i es))) (sym e)

  walk_back-cursor_at :
      (f i : ℕ) (es : List (K × V))
      → i < f
      → i < length es
      → get_elem? es i ∷ walk_back f (cursor_at es i) ≡ somes (reverse (take (suc i) es))
  unfolding walk_back current
  walk_back-cursor_at zero i es h l = absurd (omega arith)
  walk_back-cursor_at (suc f) zero es h l = rw (prev-start es) (sym (reversed_take es 0 l))
  walk_back-cursor_at (suc f) (suc i) es h l = rw (prev-cursor_at es i) (
      ap (λ r. get_elem? es (suc i) ∷ r) (walk_back-cursor_at f i es (omega arith) (omega arith))
      ∙ sym (reversed_take es (suc i) l))

  -- A loop of `Prev` over a new cursor reads the pairs of its snapshot from the last to the first, each
  -- once, and ends; one round more than there are pairs is enough.
  pub walk_back-cursor_of :
      (es : List (K × V)) (f : ℕ) → length es < f → walk_back f (cursor_of es) ≡ somes (reverse es)
  unfolding walk_back prev current
  walk_back-cursor_of es zero h = absurd (omega arith)
  walk_back-cursor_of [] (suc f) h = refl
  walk_back-cursor_of (e ∷ es) (suc f) h = rw (pos_less (length es)) (
      walk_back-cursor_at f (length es) (e ∷ es) (omega arith) (omega arith)
      ∙ ap (λ r. somes (reverse r)) (take_all (e ∷ es)))
