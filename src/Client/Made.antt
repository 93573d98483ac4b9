-- ===== src/Client/Made.antt =====
-- tree.go, NewWithCompare and the interface `Tree` but for Len and Close: what a client relies on, from
-- the construction of the tree on.
use fractaltree.Prelude.{◌≤◌, ◌≡◌, refl, subst, Option, none, some, List}
use fractaltree.Order.{Ord}
use fractaltree.Message.{Zero}
use fractaltree.Node.Entries.{lookup}
use fractaltree.Ordered.{IsOrdered, eval}
use fractaltree.Options.{
  Floats, Setting, OptionsError, Made, failed, made, resolve_options, validate_options,
  derive_params, new_with_compare,
}
use fractaltree.Options.Laws.{derive_params-AreUsable}
use fractaltree.Flush.{TreeParams}
use fractaltree.Tree.{BeTree, new, get}
use fractaltree.Tree.Laws.{IsValid, get-eval}
use fractaltree.Client.Calls.{Call, AllPromised, run_calls, run_calls-AllPromised}
use fractaltree.Count.Calls.{IsExactTree, empty-IsExact, run_calls-IsExact}
use fractaltree.Shape.{IsShaped}
use fractaltree.Shape.Calls.{HasShape, run_calls-HasShape}

module _ {ℓ κ} {K : Type ℓ} {V : Type κ} ⦃z : Zero V⦄ where
  -- what holds of a new tree, if there is one, after calls with the comparator that it keeps
  abbrev pub KeepsFaith : List (Call K V) → Made (BeTree K V × Ord K) → Type (ℓ ⊔ κ)
  KeepsFaith calls (failed e) = Unit
  KeepsFaith calls (made (t, o)) =
      (let r = run_calls ⦃o = o⦄ calls t in
        IsValid ⦃o = o⦄ r.0
        × IsExactTree ⦃o = o⦄ r.0
        × HasShape ⦃o = o⦄ r.0
        × AllPromised ⦃o = o⦄ calls (λ k. none) (get ⦃o = o⦄ r.0) r.1)

  new-KeepsFaith :
      (o : Ord K) (params : TreeParams) (calls : List (Call K V))
      → 2 ≤ params.fanout
      → KeepsFaith calls (made (new params, o))
  unfolding new IsOrdered eval lookup IsShaped
  new-KeepsFaith o params calls two =
      let valid : IsValid {K = K} {V = V} ⦃o = o⦄ (new params) = (tt, tt) in
      let shaped : HasShape {K = K} {V = V} ⦃o = o⦄ (new params) = (two, (0, tt)) in
      let start : get {V = V} ⦃o = o⦄ (new params) ≡ (λ k. none) =
        get-eval ⦃o = o⦄ (new params) valid in
      let r = run_calls-AllPromised ⦃o = o⦄ calls (new params) valid in
      (
        r.0,
        run_calls-IsExact ⦃o = o⦄ calls (new params) valid (empty-IsExact ⦃o = o⦄),
        run_calls-HasShape ⦃o = o⦄ calls (new params) valid shaped,
        subst
            (λ g.
              AllPromised ⦃o = o⦄ calls g (get ⦃o = o⦄ (run_calls ⦃o = o⦄ calls (new params)).0)
                (run_calls ⦃o = o⦄ calls (new params)).1)
            start r.1,
      )

module _ {ℓ κ μ} {K : Type ℓ} {V : Type κ} {F : Type μ} ⦃z : Zero V⦄ (fl : Floats F) where
  -- If `NewWithCompare` makes a tree from any settings and a comparator that keeps the laws of `Ord`,
  -- those of a total preorder, then the calls of a list, of any methods but `Len` and `Close`, are
  -- answered as a map that is empty at first answers them, and lead to a tree that is ordered and
  -- balanced, with no more children of a node than the fanout, and whose counters are exact:
  -- `pendingDeletes` is the number of pending deletes, each of which finds a value, and `size` is the
  -- number of leaf entries and pending puts marked as new less that of the pending deletes, which need
  -- not be the number of keys of the map.
  pub new_with_compare-KeepsFaith :
      (compare : Option (Ord K)) (fs : List (Setting F)) (calls : List (Call K V))
      → KeepsFaith calls (new_with_compare fl compare fs)
  unfolding new_with_compare
  new_with_compare-KeepsFaith none fs calls = tt
  new_with_compare-KeepsFaith (some o) fs calls =
      go (validate_options fl (resolve_options fl fs)) refl
    where
      go :
          (r : Option OptionsError)
          → validate_options fl (resolve_options fl fs) ≡ r
          → KeepsFaith calls (elim r [
            | some e ↦ failed e
            | none ↦ made (new (derive_params fl (resolve_options fl fs)), o)
          ])
      go (some e) h = tt
      go none h =
          let usable = derive_params-AreUsable fl (resolve_options fl fs) h in
          new-KeepsFaith o (derive_params fl (resolve_options fl fs)) calls usable.0
