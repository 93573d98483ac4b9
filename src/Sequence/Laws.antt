-- ===== src/Sequence/Laws.antt =====
-- iterator.go, the sequences: which pairs a caller's loop sees, in which order, and where it stops.
use fractaltree.Prelude.{
  ℕ, zero, suc, ◌≤◌, ◌≡◌, refl, ap, sym, ◌∙◌, Bool, true, false, not, none, List, [], ◌∷◌, ◌++◌,
  append_assoc, append-nil, arith, if◌then◌else◌, length, take, reverse, Bool-cases, inl, inr,
}
use fractaltree.Order.{Ord}
use fractaltree.Node.{in_slice}
use fractaltree.Node.Entries.{lookup, IsSorted}
use fractaltree.Iterator.{materialize_all, materialize_range, materialize_descend_range}
use fractaltree.Iterator.Laws.{
  materialize_all_lem, materialize_range_lem, materialize_descend_range_lem,
}
use fractaltree.Tree.{BeTree, get}
use fractaltree.Tree.Laws.{IsValid, get-eval}
use fractaltree.DeleteRange.LeafPath.{take-suc, element_at, take_all}
use fractaltree.Sequence.{
  Yield, Seq2, visit, visit_down, all, ascend, descend, range, descend_range,
}

module _ {ℓ} {A : Type ℓ} where
  pub reverse-snoc : (xs : List A) (x : A) → reverse (xs ++ x ∷ []) ≡ x ∷ reverse xs
  reverse-snoc [] x = refl
  reverse-snoc (y ∷ xs) x = ap (λ r. r ++ y ∷ []) (reverse-snoc xs x)

module _ {ℓ κ μ} {K : Type ℓ} {V : Type κ} {S : Type μ} where
  -- the loop from the last index is the loop over the reversed pairs, whatever the caller does
  visit_down-prefix :
      (ps : List (K × V)) (i : ℕ) (yield : Yield K V S) (s : S)
      → i ≤ length ps
      → visit_down ps i yield s ≡ visit (reverse (take i ps)) yield s
  unfolding visit_down visit
  visit_down-prefix ps zero yield s h = refl
  visit_down-prefix ps (suc i) yield s h =
      let (p, e) = element_at i ps (omega arith) in
      let rest = visit_down-prefix ps i yield (yield p.0 p.1 s).0 (omega arith) in
      rw (take-suc i ps p e, reverse-snoc (take i ps) p, e, visit_down) (rw rest refl)

  pub visit_down-visit :
      (ps : List (K × V)) (yield : Yield K V S) (s : S)
      → visit_down ps (length ps) yield s ≡ visit (reverse ps) yield s
  visit_down-visit ps yield s =
      visit_down-prefix ps (length ps) yield s (omega arith) ∙ rw (take_all ps) refl

module _ {ℓ κ} {K : Type ℓ} {V : Type κ} where
  -- a caller that keeps the pairs it is given, and stops after the first that passes a test
  abbrev pub keep_until : (K × V → Bool) → Yield K V (List (K × V))
  keep_until stop k v seen = (seen ++ (k, v) ∷ [], not (stop (k, v)))

  abbrev pub seen_until : (K × V → Bool) → Seq2 K V (List (K × V)) → List (K × V)
  seen_until stop seq = seq (keep_until stop) []

  -- the pairs up to the first that passes the test, with it
  abbrev pub up_to : (K × V → Bool) → List (K × V) → List (K × V)
  up_to stop [] = []
  up_to stop (p ∷ ps) = if stop p then p ∷ [] else p ∷ up_to stop ps

  visit-keep_until :
      (stop : K × V → Bool) (ps seen : List (K × V))
      → visit ps (keep_until stop) seen ≡ seen ++ up_to stop ps
  unfolding visit
  visit-keep_until stop [] seen = sym (append-nil seen)
  visit-keep_until stop (p ∷ ps) seen = elim (Bool-cases (stop p)) [
    | inl e ↦ rw e refl
    | inr e ↦
        rw e
          (visit-keep_until stop ps (seen ++ p ∷ []) ∙ append_assoc seen (p ∷ []) (up_to stop ps))
  ]

module _ {ℓ κ} {K : Type ℓ} {V : Type κ} ⦃o : Ord K⦄ where
  -- the pairs of the tree whose keys pass a test, strictly sorted
  abbrev pub Lists : BeTree K V → (K → Bool) → List (K × V) → Type (ℓ ⊔ κ)
  Lists t p ps = IsSorted ps × ((k : K) → lookup ps k ≡ (if p k then get t k else none))

  -- On a valid tree a loop over `Ascend`, which is `All`, that stops after the first pair to pass a
  -- test sees the pairs that reads find, in strictly ascending order, up to that pair; a loop over
  -- `Descend` sees them from the last one.
  pub seen_until-all :
      (t : BeTree K V) (stop : K × V → Bool)
      → IsValid t
      → (ps : List (K × V)) × Lists t (λ k. true) ps
        × (seen_until stop (ascend t) ≡ up_to stop ps)
        × (seen_until stop (descend t) ≡ up_to stop (reverse ps))
  unfolding all ascend descend
  seen_until-all t stop a =
      let ps = materialize_all t.root in
      let m = materialize_all_lem t.root none none a in
      (
        ps,
        (m.0, λ k. m.1 k ∙ ap (λ f. f k) (sym (get-eval t a))),
        visit-keep_until stop ps [],
        visit_down-visit ps (keep_until stop) [] ∙ visit-keep_until stop (reverse ps) [],
      )

  -- On a valid tree a loop over `Range(lo, hi)` that stops after the first pair to pass a test sees
  -- the pairs that reads find with keys in [lo, hi), in strictly ascending order, up to that pair.
  pub seen_until-range :
      (t : BeTree K V) (lo hi : K) (stop : K × V → Bool)
      → IsValid t
      → (ps : List (K × V)) × Lists t (in_slice lo hi true false) ps
        × (seen_until stop (range t lo hi) ≡ up_to stop ps)
  unfolding range
  seen_until-range t lo hi stop a =
      let ps = materialize_range t.root lo hi in
      let m = materialize_range_lem t.root lo hi none none a in
      (ps, (m.0, λ k. rw (get-eval t a) (m.1 k)), visit-keep_until stop ps [])

  -- On a valid tree a loop over `DescendRange(hi, lo)` that stops after the first pair to pass a test
  -- sees the pairs that reads find with keys in (lo, hi], in strictly descending order, up to that
  -- pair.
  pub seen_until-descend_range :
      (t : BeTree K V) (lo hi : K) (stop : K × V → Bool)
      → IsValid t
      → (ps : List (K × V)) × Lists t (in_slice lo hi false true) ps
        × (seen_until stop (descend_range t hi lo) ≡ up_to stop (reverse ps))
  unfolding descend_range
  seen_until-descend_range t lo hi stop a =
      let ps = materialize_descend_range t.root hi lo in
      let m = materialize_descend_range_lem t.root lo hi none none a in
      (
        ps,
        (m.0, λ k. rw (get-eval t a) (m.1 k)),
        visit_down-visit ps (keep_until stop) [] ∙ visit-keep_until stop (reverse ps) [],
      )
