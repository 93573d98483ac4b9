-- ===== src/Programs/MergeJoin.antt =====
-- examples/mergejoin/main.go: the join and the anti-join of two trees by two cursors. `==` and `<` of
-- the int keys are the comparator's results. The lines printed are the result, and `matches` is their
-- number; `none` is a loop out of fuel, or the panic of Key on a cursor out of range.
pub mod Laws
use fractaltree.Prelude.{
  ℕ, zero, suc, ◌+◌, lt, eq, gt, Bool, true, false, Option, none, some, List, [], ◌∷◌, length,
}
use fractaltree.Order.{Ord}
use fractaltree.Tree.{BeTree}
use fractaltree.Cursor.{Cursor, next, current}
use fractaltree.Sequence.{cursor}

module _ {ℓ} {A : Type ℓ} where
  abbrev pub print : A → Option (List A) → Option (List A)
  print a none = none
  print a (some rest) = some (a ∷ rest)

module _ {ℓ κ} {A : Type ℓ} {B : Type κ} where
  abbrev pub both : Option A → Option B → Option (A × B)
  both none b = none
  both (some a) none = none
  both (some a) (some b) = some (a, b)

module _ {ℓ κ μ} {K : Type ℓ} {V : Type κ} {W : Type μ} ⦃o : Ord K⦄ where
  unfoldable pub join_loop : ℕ → Cursor K V × Bool → Cursor K W × Bool → Option (List (K × V))
  unfolding next current
  join_loop zero ca cb = none
  join_loop (suc fuel) (ca, false) (cb, b_ok) = some []
  join_loop (suc fuel) (ca, true) (cb, false) = some []
  join_loop (suc fuel) (ca, true) (cb, true) = elim (both (current ca) (current cb)) [
    | none ↦ none
    | some (a, b) ↦ elim (o.cmp a.0 b.0) [
      | eq ↦ print a (join_loop fuel (next ca) (next cb))
      | lt ↦ join_loop fuel (next ca) (cb, true)
      | gt ↦ join_loop fuel (ca, true) (next cb)
    ]
  ]

  unfoldable pub anti_loop : ℕ → Cursor K V × Bool → Cursor K W × Bool → Option (List (K × V))
  unfolding next current
  anti_loop zero ca cb = none
  anti_loop (suc fuel) (ca, false) (cb, b_ok) = some []
  anti_loop (suc fuel) (ca, true) (cb, false) = elim (current ca) [
    | none ↦ none
    | some a ↦ print a (anti_loop fuel (next ca) (cb, false))
  ]
  anti_loop (suc fuel) (ca, true) (cb, true) = elim (both (current ca) (current cb)) [
    | none ↦ none
    | some (a, b) ↦ elim (o.cmp a.0 b.0) [
      | lt ↦ print a (anti_loop fuel (next ca) (cb, true))
      | eq ↦ anti_loop fuel (next ca) (next cb)
      | gt ↦ anti_loop fuel (ca, true) (next cb)
    ]
  ]

  unfoldable pub merge_join : ℕ → BeTree K V → BeTree K W → Option (List (K × V))
  unfolding join_loop next cursor
  merge_join fuel signups purchases =
      join_loop fuel (next (cursor signups)) (next (cursor purchases))

  unfoldable pub anti_join : ℕ → BeTree K V → BeTree K W → Option (List (K × V))
  unfolding anti_loop next cursor
  anti_join fuel signups purchases =
      anti_loop fuel (next (cursor signups)) (next (cursor purchases))
