-- ===== src/Options/Laws.antt =====
-- tree.go, NewWithCompare: what the constructor accepts, and the tree that it makes.
use fractaltree.Prelude.{
  ℕ, ◌≤◌, ◌≡◌, refl, Bool, true, false, ◌&&◌, not, is_some, Option, none, some, List, arith,
}
use fractaltree.Prelude.Int.{ℤ, pos, ltb_ℤ}
use fractaltree.Order.{Ord}
use fractaltree.Flush.{TreeParams}
use fractaltree.Ordered.{IsOrdered, eval}
use fractaltree.Node.Entries.{lookup}
use fractaltree.Tree.{BeTree, new, len}
use fractaltree.Options.{
  Floats, Options, OptionsError, Setting, resolve_options, validate_options, derive_params, Made,
  failed, made, max_of, new_with_compare,
}

-- bounds that a flush and a split rely on
abbrev pub AreUsable : TreeParams → Type 0
AreUsable params = (2 ≤ params.fanout) × (1 ≤ params.buffer_cap) × (2 ≤ params.leaf_cap)

le_max_of : (n : ℤ) (least : ℕ) → least ≤ max_of n least
le_max_of n least = ground arith

module _ {ℓ} {F : Type ℓ} (fl : Floats F) where
  pub derive_params-AreUsable :
      (options : Options F)
      → validate_options fl options ≡ none
      → AreUsable (derive_params fl options)
  unfolding validate_options derive_params
  derive_params-AreUsable options h =
      let b = fl.of_int options.block_size in
      (
        le_max_of (fl.to_int (fl.pow b options.epsilon)) 2,
        le_max_of (fl.to_int (fl.pow b (fl.minus fl.one_float options.epsilon))) 1,
        ground arith,
      )

module _ {ℓ κ} {K : Type ℓ} {V : Type κ} where
  abbrev pub is_made : Made (BeTree K V × Ord K) → Bool
  is_made (failed e) = false
  is_made (made r) = true

  -- a tree that is ready for use with its comparator: usable bounds, no keys, and the invariant
  abbrev pub IsReady : Made (BeTree K V × Ord K) → Type (ℓ ⊔ κ)
  IsReady (failed e) = Unit
  IsReady (made (t, o)) =
      AreUsable t.params
      × IsOrdered ⦃o = o⦄ none none t.root
      × ((k : K) → eval ⦃o = o⦄ t.root k ≡ none)
      × (len t ≡ pos 0)

module _ {ℓ κ μ} {K : Type ℓ} (V : Type κ) {F : Type μ} (fl : Floats F) where
  -- `NewWithCompare` makes a tree exactly if it is given a comparator, the epsilon that the
  -- settings resolve to is neither at most 0 nor above 1, and the block size is at least 2.
  pub is_made-new_with_compare :
      (compare : Option (Ord K)) (fs : List (Setting F))
      → (let options : Options F = resolve_options fl fs in
          is_made {V = V} (new_with_compare fl compare fs)
          ≡ is_some compare
            && not (fl.is_at_most options.epsilon fl.zero_float)
            && not (fl.is_greater options.epsilon fl.one_float)
            && not (ltb_ℤ options.block_size (pos 2)))
  unfolding new_with_compare validate_options
  is_made-new_with_compare none fs = refl
  is_made-new_with_compare (some o) fs = ground arith

  new-IsReady :
      (o : Ord K) (options : Options F)
      → validate_options fl options ≡ none
      → IsReady {V = V} (made (new (derive_params fl options), o))
  unfolding new IsOrdered eval lookup len
  new-IsReady o options h = (derive_params-AreUsable fl options h, (tt, tt), (λ k. refl), refl)

  -- A tree that `NewWithCompare` makes has a fanout and a leaf capacity of at least 2 and a buffer
  -- capacity of at least 1, whatever the floating-point power returns; it satisfies the invariant,
  -- holds no key and counts none.
  pub new_with_compare-IsReady :
      (compare : Option (Ord K)) (fs : List (Setting F))
      → IsReady {V = V} (new_with_compare fl compare fs)
  unfolding new_with_compare
  new_with_compare-IsReady none fs = tt
  new_with_compare-IsReady (some o) fs = go (validate_options fl (resolve_options fl fs)) refl
    where
      go :
          (r : Option OptionsError)
          → validate_options fl (resolve_options fl fs) ≡ r
          → IsReady {V = V} (elim r [
            | some e ↦ failed e
            | none ↦ made (new (derive_params fl (resolve_options fl fs)), o)
          ])
      go (some e) h = tt
      go none h = new-IsReady o (resolve_options fl fs) h
