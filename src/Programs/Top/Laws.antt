-- ===== src/Programs/Top/Laws.antt =====
-- examples/leaderboard/main.go and examples/timeseries/main.go: the loops print the first pairs of the
-- order, or the last.
use fractaltree.Prelude.{
  ℕ, zero, suc, ◌+◌, ◌<◌, ◌≡◌, refl, ap, sym, ◌∙◌, true, false, none, List, [], ◌∷◌, ◌++◌,
  append_assoc, append-nil, arith, take, reverse, ◌==◌,
}
use fractaltree.Order.{Ord}
use fractaltree.Iterator.{materialize_all}
use fractaltree.Iterator.Laws.{materialize_all_lem}
use fractaltree.Tree.{BeTree}
use fractaltree.Tree.Laws.{IsValid, get-eval}
use fractaltree.Sequence.{visit, all, ascend, descend}
use fractaltree.Sequence.Laws.{Lists, visit_down-visit}
use fractaltree.Programs.Top.{print_ranked, print_top, print_last}

module _ {ℓ κ} {K : Type ℓ} {V : Type κ} where
  visit-print_ranked :
      (m rank n : ℕ) (ps printed : List (K × V))
      → n ≡ rank + suc m
      → (visit ps (print_ranked n) (printed, rank)).0 ≡ printed ++ take (suc m) ps
  unfolding visit
  visit-print_ranked m rank n [] printed h = sym (append-nil printed)
  visit-print_ranked zero rank n (p ∷ ps) printed h =
      let last : (rank + 1 == n) ≡ true = ground arith in rw last refl
  visit-print_ranked (suc m) rank n (p ∷ ps) printed h =
      let more : (rank + 1 == n) ≡ false = ground arith in
      rw more (
        visit-print_ranked m (rank + 1) n ps (printed ++ p ∷ []) (omega arith)
        ∙ append_assoc printed (p ∷ []) (take (suc m) ps))

module _ {ℓ κ} {K : Type ℓ} {V : Type κ} ⦃o : Ord K⦄ where
  -- On a valid tree, for a positive number, the one loop prints that many pairs from the first on, in
  -- ascending order, and the other from the last on, in descending order, or all if there are fewer.
  pub print_top_lem :
      (t : BeTree K V) (n : ℕ)
      → IsValid t
      → 0 < n
      → (ps : List (K × V)) × Lists t (λ k. true) ps
        × (print_top n t ≡ take n ps)
        × (print_last n t ≡ take n (reverse ps))
  unfolding print_top print_last all ascend descend
  print_top_lem t zero a h = absurd (omega arith)
  print_top_lem t (suc m) a h =
      let ps = materialize_all t.root in
      let l = materialize_all_lem t.root none none a in
      (
        ps,
        (l.0, λ k. l.1 k ∙ ap (λ f. f k) (sym (get-eval t a))),
        visit-print_ranked m 0 (suc m) ps [] (omega arith),
        ap (λ r. r.0) (visit_down-visit ps (print_ranked (suc m)) ([], 0))
            ∙ visit-print_ranked m 0 (suc m) (reverse ps) [] (omega arith),
      )
