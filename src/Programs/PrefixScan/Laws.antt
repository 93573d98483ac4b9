-- ===== src/Programs/PrefixScan/Laws.antt =====
-- examples/prefixscan/main.go: the loop counts the keys with the prefix.
use fractaltree.Prelude.{
  ℕ, ◌+◌, ◌-◌, ◌≡◌, ◌≢◌, refl, ap, sym, ◌∙◌, Bool, true, false, ◌&&◌, lt, List, [], ◌∷◌, ◌++◌,
  arith, none, ◌==◌, length, length-append, take-append, take,
}
use fractaltree.Codec.{Bytes}
use fractaltree.Node.{in_slice}
use fractaltree.Iterator.{materialize_range}
use fractaltree.Iterator.Laws.{materialize_range_lem}
use fractaltree.Tree.{BeTree}
use fractaltree.Tree.Laws.{IsValid, get-eval}
use fractaltree.Sequence.{visit, range}
use fractaltree.Sequence.Laws.{Lists}
use fractaltree.Programs.Comparators.{compare_text}
use fractaltree.Programs.Comparators.Laws.{text_ord}
use fractaltree.Programs.PrefixScan.{colon, semicolon, count_pair, count_prefix}

-- does a text start with another?
abbrev pub has_prefix : Bytes → Bytes → Bool
has_prefix [] k = true
has_prefix (x ∷ p) [] = false
has_prefix (x ∷ p) (c ∷ k) = (x == c) && has_prefix p k

not_below_empty : (k : Bytes) → compare_text k [] ≢ lt
not_below_empty [] h = ground arith
not_below_empty (c ∷ k) h = ground arith

in_slice-has_prefix :
    (q k : Bytes)
    → in_slice ⦃o = text_ord⦄ (q ++ colon ∷ []) (q ++ semicolon ∷ []) true false k
      ≡ has_prefix (q ++ colon ∷ []) k
unfolding text_ord
in_slice-has_prefix [] [] = refl
in_slice-has_prefix [] (c ∷ k) = ground (arith, not_below_empty k)
in_slice-has_prefix (x ∷ q) [] = refl
in_slice-has_prefix (x ∷ q) (c ∷ k) = ground (arith, in_slice-has_prefix q k)

all_but_one : (q : Bytes) (c : ℕ) → length (q ++ c ∷ []) - 1 ≡ length q
all_but_one q c = omega (arith, length-append q (c ∷ []))

take-snoc : (q : Bytes) (c : ℕ) → take (length (q ++ c ∷ []) - 1) (q ++ c ∷ []) ≡ q
take-snoc q c = ap (λ n. take n (q ++ c ∷ [])) (all_but_one q c) ∙ take-append q (c ∷ [])

from_zero : (n : ℕ) → 0 + n ≡ n
from_zero n = omega arith

module _ {κ} {V : Type κ} where
  visit-count_pair : (ps : List (Bytes × V)) (n : ℕ) → visit ps count_pair n ≡ n + length ps
  unfolding visit
  visit-count_pair [] n = omega arith
  visit-count_pair (p ∷ ps) n = visit-count_pair ps (n + 1) ∙ omega arith

  -- On a valid tree whose keys are strings, for a prefix that ends in a colon, the loop returns the
  -- number of the keys that start with the prefix and hold a value.
  pub count_prefix_lem :
      (t : BeTree Bytes V) (q : Bytes)
      → IsValid ⦃o = text_ord⦄ t
      → (ps : List (Bytes × V)) × Lists ⦃o = text_ord⦄ t (has_prefix (q ++ colon ∷ [])) ps
        × (count_prefix t (q ++ colon ∷ []) ≡ length ps)
  unfolding count_prefix range
  count_prefix_lem t q a =
      let p = q ++ colon ∷ [] in
      let hi = q ++ semicolon ∷ [] in
      let ps = materialize_range ⦃o = text_ord⦄ t.root p hi in
      let m = materialize_range_lem ⦃o = text_ord⦄ t.root p hi none none a in
      (
        ps,
        (m.0, λ k. rw (get-eval ⦃o = text_ord⦄ t a, sym (in_slice-has_prefix q k)) (m.1 k)),
        ap
              (λ r.
                visit (materialize_range ⦃o = text_ord⦄ t.root p (r ++ semicolon ∷ [])) count_pair
                  0)
              (take-snoc q colon)
            ∙ visit-count_pair ps 0
            ∙ from_zero (length ps),
      )
