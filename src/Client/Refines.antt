-- ===== src/Client/Refines.antt =====
-- tree.go against the interface `Tree`: every list of calls is answered as the map answers it.
use fractaltree.Prelude.{◌≡◌, refl, ap, ap₂, ◌∙◌, Option, List, [], ◌∷◌}
use fractaltree.Order.{Ord}
use fractaltree.Message.{Zero}
use fractaltree.Tree.{BeTree, get, contains}
use fractaltree.Tree.Laws.{
  IsValid, get-put_key, get-delete_key, get-upsert_key, get-put_if_absent, get-clear,
}
use fractaltree.Client.{
  Op, put_op, delete_op, upsert_op, absent_op, get_op, contains_op, clear_op, Reply, flag, run,
  run_op, run_map, map_op,
}

module _ {ℓ κ} {K : Type ℓ} {V : Type κ} ⦃z : Zero V⦄ ⦃o : Ord K⦄ where
  -- one call, and the map's answer to it
  abbrev pub Agrees : BeTree K V × Reply V → (K → Option V) × Reply V → Type (ℓ ⊔ κ)
  Agrees r s = IsValid r.0 × (get r.0 ≡ s.0) × (r.1 ≡ s.1)

  pub run_op-Agrees :
      (a : Op K V) (t : BeTree K V) → IsValid t → Agrees (run_op a t) (map_op a (get t))
  unfolding contains
  run_op-Agrees (put_op k v) t h = let p = get-put_key t k v h in (p.0, p.1, refl)
  run_op-Agrees (delete_op k) t h = let p = get-delete_key t k h in (p.0, p.1, ap flag p.2)
  run_op-Agrees (upsert_op k f) t h = let p = get-upsert_key t k f h in (p.0, p.1, refl)
  run_op-Agrees (absent_op k v) t h = let p = get-put_if_absent t k v h in (p.0, p.2, ap flag p.1)
  run_op-Agrees (get_op k) t h = (h, refl, refl)
  run_op-Agrees (contains_op k) t h = (h, refl, refl)
  run_op-Agrees clear_op t h = let p = get-clear t in (p.0, p.1, refl)

  -- From any valid tree, a list of calls leaves a valid tree whose reads are those of the map after the
  -- same calls, and every call returns what it returns on the map.
  pub run-run_map :
      (ops : List (Op K V)) (t : BeTree K V)
      → IsValid t
      → IsValid (run ops t).0
        × (get (run ops t).0 ≡ (run_map ops (get t)).0)
        × ((run ops t).1 ≡ (run_map ops (get t)).1)
  unfolding run
  run-run_map [] t h = (h, refl, refl)
  run-run_map (a ∷ ops) t h =
      let p = run_op-Agrees a t h in
      let q = run-run_map ops (run_op a t).0 p.0 in
      (
        q.0,
        q.1 ∙ ap (λ g. (run_map ops g).0) p.1,
        ap₂ (λ r rs. r ∷ rs) p.2 (q.2 ∙ ap (λ g. (run_map ops g).1) p.1),
      )
