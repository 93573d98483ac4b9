-- ===== src/Cursor.antt =====
-- cursor.go: the cursor over a snapshot of pairs. `pos` is a machine integer that `Prev` moves to -1.
pub mod Laws
pub mod Rest
pub mod Back
use fractaltree.Prelude.{
  ℕ, zero, suc, ◌-◌, Bool, true, false, not, Option, none, some, List, [], ◌∷◌, if◌then◌else◌, ltb,
  length, get_elem?, is_some,
}
use fractaltree.Prelude.Int.{ℤ, pos, negsuc, ◌+ℤ◌, ◌-ℤ◌, ltb_ℤ}
use fractaltree.Order.{Ord, is_lt}
use fractaltree.Search.{binary_search}

-- `cmp` is the instance argument `Ord K` of `seek`.
pub record Cursor {ℓ κ} (K : Type ℓ) (V : Type κ) : Type (ℓ ⊔ κ) where
  pub pairs : List (K × V)
  pub index : ℤ
  pub valid : Bool

module _ {ℓ κ} {K : Type ℓ} {V : Type κ} where
  -- the cursor that `BETree.Cursor` returns on a snapshot
  abbrev pub cursor_of : List (K × V) → Cursor K V
  cursor_of es = record { pairs = es; index = pos 0; valid = false }

  abbrev pub is_empty : List (K × V) → Bool
  is_empty [] = true
  is_empty (e ∷ es) = false

  unfoldable pub next : Cursor K V → Cursor K V × Bool
  next c =
      if not c.valid
      then (if is_empty c.pairs
          then (c, false)
          else (record c { index = pos 0; valid = true }, true))
      else (let i = c.index +ℤ pos 1 in
          if ltb_ℤ i (pos (length c.pairs))
          then (record c { index = i }, true)
          else (record c { index = i; valid = false }, false))

  unfoldable pub prev : Cursor K V → Cursor K V × Bool
  prev c =
      if not c.valid
      then (if is_empty c.pairs
          then (c, false)
          else (record c { index = pos (length c.pairs) -ℤ pos 1; valid = true }, true))
      else (let i = c.index -ℤ pos 1 in
          if ltb_ℤ i (pos 0)
          then (record c { index = i; valid = false }, false)
          else (record c { index = i }, true))

  -- `c.pairs[c.pos]`, whose parts `Key` and `Value` return; `none` is the panic out of range
  abbrev pub pair_at : List (K × V) → ℤ → Option (K × V)
  pair_at es (pos i) = get_elem? es i
  pair_at es (negsuc i) = none

  unfoldable pub current : Cursor K V → Option (K × V)
  current c = pair_at c.pairs c.index

  unfoldable pub close_cursor : Cursor K V → Cursor K V
  close_cursor c = record c { pairs = []; valid = false }

  unfoldable pub seek : ⦃o : Ord K⦄ → Cursor K V → K → Cursor K V × Bool
  unfolding binary_search
  seek ⦃o = o⦄ c key =
      let i = binary_search (λ e. is_lt (o.cmp e.0 key)) c.pairs in
      if ltb i (length c.pairs)
      then (record c { index = pos i; valid = true }, true)
      else (record c { valid = false }, false)

  -- a client's loop `for c.Next() { ... c.Key(), c.Value() ... }`, at most `fuel` rounds of it
  unfoldable pub walk : ℕ → Cursor K V → List (Option (K × V))
  unfolding next current
  walk zero c = []
  walk (suc fuel) c =
      let (c', more) = next c in let rest = walk fuel c' in if more then current c' ∷ rest else []
