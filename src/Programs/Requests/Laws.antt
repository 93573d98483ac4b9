-- ===== src/Programs/Requests/Laws.antt =====
-- examples/ratelimiter/main.go: the counts are those of the requests, and the statuses follow from them.
use fractaltree.Prelude.{
  ℕ, ◌+◌, ◌≡◌, ap, sym, ◌∙◌, Bool, eq, Option, none, some, List, [], ◌∷◌, ◌++◌, append_assoc,
  append-nil, arith, if◌then◌else◌, ltb, ◌==◌,
}
use fractaltree.Order.{Ord, is_eq}
use fractaltree.Message.{Zero}
use fractaltree.Node.Entries.{lookup, IsSorted}
use fractaltree.Ordered.{IsOrdered, eval}
use fractaltree.Ordered.Congr.{eval-congr}
use fractaltree.Flush.{TreeParams}
use fractaltree.Iterator.{materialize_all}
use fractaltree.Iterator.Laws.{materialize_all_lem}
use fractaltree.Tree.{BeTree, new, get, upsert_key}
use fractaltree.Tree.Laws.{IsValid, get-eval, get-upsert_key}
use fractaltree.Upsert.{increment}
use fractaltree.Sequence.{visit, all}
use fractaltree.Programs.Requests.{print_rate, count_requests, check_rates}

-- a count after more requests
abbrev pub with_more : Option ℕ → ℕ → Option ℕ
with_more none n = if n == 0 then none else some n
with_more (some m) n = some (m + n)

module _ {ℓ} {K : Type ℓ} ⦃o : Ord K⦄ where
  -- how many of the requests have a key
  abbrev pub requests_of : K → List K → ℕ
  requests_of k [] = 0
  requests_of k (r ∷ rs) = (if is_eq (o.cmp r k) then 1 else 0) + requests_of k rs

  abbrev pub rated : ℕ → List (K × ℕ) → List ((K × ℕ) × Bool)
  rated limit [] = []
  rated limit (e ∷ es) = (e, ltb limit e.1) ∷ rated limit es

  visit-print_rate :
      (limit : ℕ) (ps : List (K × ℕ)) (printed : List ((K × ℕ) × Bool))
      → visit ps (print_rate limit) printed ≡ printed ++ rated limit ps
  unfolding visit
  visit-print_rate limit [] printed = sym (append-nil printed)
  visit-print_rate limit (e ∷ ps) printed =
      visit-print_rate limit ps (printed ++ (e, ltb limit e.1) ∷ [])
      ∙ append_assoc printed ((e, ltb limit e.1) ∷ []) (rated limit ps)

  get-congr : (t : BeTree K ℕ) (j k : K) → IsValid t → o.cmp j k ≡ eq → get t j ≡ get t k
  get-congr t j k a e = rw (get-eval t a) (eval-congr t.root j k e)

module _ {ℓ} {K : Type ℓ} ⦃z : Zero ℕ⦄ ⦃o : Ord K⦄ where
  get-count_requests :
      (t : BeTree K ℕ) (rs : List K)
      → IsValid t
      → IsValid (count_requests t rs)
        × ((k : K) → get (count_requests t rs) k ≡ with_more (get t k) (requests_of k rs))
  unfolding count_requests increment
  get-count_requests t [] a = (a, λ k. ground arith)
  get-count_requests t (r ∷ rs) a =
      let p = get-upsert_key t r (increment (λ m n. m + n) 1) a in
      let q = get-count_requests (upsert_key t r (increment (λ m n. m + n) 1)) rs p.0 in
      (q.0, λ k. q.1 k ∙ ground (arith, ap (λ g. g k) p.1, get-congr t r k a))

  -- On a new tree, after any requests, the loop prints the sorted list of the keys that some request had,
  -- each with the number of its requests and whether that is above the limit.
  pub check_rates-count_requests :
      (params : TreeParams) (limit : ℕ) (rs : List K)
      → (ps : List (K × ℕ)) × IsSorted ps
        × ((k : K)
            → lookup ps k ≡ (if requests_of k rs == 0 then none else some (requests_of k rs)))
        × (check_rates limit (count_requests (new params) rs) ≡ rated limit ps)
  unfolding check_rates all new IsOrdered eval lookup
  check_rates-count_requests params limit rs =
      let valid : IsValid {K = K} {V = ℕ} (new params) = (tt, tt) in
      let start : (k : K) → get {V = ℕ} (new params) k ≡ none =
        λ k. ap (λ g. g k) (get-eval (new params) valid) in
      let u = count_requests (new params) rs in
      let q = get-count_requests (new params) rs valid in
      let m = materialize_all_lem u.root none none q.0 in
      (
        materialize_all u.root,
        m.0,
        λ k.
            m.1 k
            ∙ ap (λ g. g k) (sym (get-eval u q.0))
            ∙ q.1 k
            ∙ ap (λ w. with_more w (requests_of k rs)) (start k),
        visit-print_rate limit (materialize_all u.root) [],
      )
