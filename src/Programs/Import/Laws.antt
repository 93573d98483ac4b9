-- ===== src/Programs/Import/Laws.antt =====
-- examples/bulkimport/main.go: what the loops of reads find after the loops of writes.
use fractaltree.Prelude.{
  ℕ, zero, suc, ◌+◌, ◌≡◌, refl, ap, ◌∙◌, Bool, true, false, ◌||◌, List, [], ◌∷◌, arith, All,
  All-imp, length, is_some, Option-cases, inl, inr,
}
use fractaltree.Order.{Ord, is_eq}
use fractaltree.Message.{Zero}
use fractaltree.Tree.{BeTree, get, put_key}
use fractaltree.Tree.Laws.{IsValid, get-put_key}
use fractaltree.Programs.Import.{import_keys, count_hits, import_range, first_keys}

module _ {ℓ} {K : Type ℓ} ⦃z : Zero K⦄ ⦃o : Ord K⦄ where
  abbrev is_among : K → List K → Bool
  is_among j [] = false
  is_among j (k ∷ ks) = is_eq (o.cmp k j) || is_among j ks

  among_all : (ks : List K) → All (λ j. is_among j ks ≡ true) ks
  among_all [] = tt
  among_all (k ∷ ks) = (
    ground (arith, o.cmp_refl k),
    All-imp (λ j. is_among j ks ≡ true) (λ j. is_among j (k ∷ ks) ≡ true) (λ j h. ground arith) ks
        (among_all ks),
  )

  import_keys_lem :
      (t : BeTree K K) (ks : List K)
      → IsValid t
      → IsValid (import_keys t ks)
        × ((j : K) → is_some (get (import_keys t ks) j) ≡ (is_some (get t j) || is_among j ks))
  unfolding import_keys
  import_keys_lem t [] a = (a, λ j. ground arith)
  import_keys_lem t (k ∷ ks) a =
      let p = get-put_key t k k a in
      let r = import_keys_lem (put_key t k k) ks p.0 in
      (r.0, λ j. r.1 j ∙ ground (arith, ap (λ g. g j) p.1))

  count_hits_all :
      (t : BeTree K K) (ks : List K) (hits : ℕ)
      → All (λ j. is_some (get t j) ≡ true) ks
      → count_hits t ks hits ≡ hits + length ks
  unfolding count_hits
  count_hits_all t [] hits a = omega arith
  count_hits_all t (k ∷ ks) hits a = elim (Option-cases (get t k)) [
    | inl e ↦ absurd (ground (arith, e, a.0))
    | inr (v, e) ↦ rw (e, count_hits) (count_hits_all t ks (hits + 1) a.1 ∙ omega arith)
  ]

  -- After the import into any valid tree of keys in any order, repeated or not, the tree is valid and the
  -- loop of reads over these keys hits with each of them.
  pub count_hits-import_keys :
      (t : BeTree K K) (ks : List K)
      → IsValid t
      → IsValid (import_keys t ks) × (count_hits (import_keys t ks) ks 0 ≡ length ks)
  count_hits-import_keys t ks a =
      let r = import_keys_lem t ks a in
      let found : All (λ j. is_some (get (import_keys t ks) j) ≡ true) ks =
        All-imp (λ j. is_among j ks ≡ true) (λ j. is_some (get (import_keys t ks) j) ≡ true)
          (λ j h. ground (arith, r.1 j, h)) ks (among_all ks) in
      (r.0, count_hits_all (import_keys t ks) ks 0 found ∙ omega arith)

module _ ⦃z : Zero ℕ⦄ ⦃o : Ord ℕ⦄ where
  -- the sequential loop imports the first numbers in their order
  import_range-first_keys :
      (t : BeTree ℕ ℕ) (i n : ℕ) → import_range t i n ≡ import_keys t (first_keys i n)
  unfolding import_range import_keys
  import_range-first_keys t i zero = refl
  import_range-first_keys t i (suc n) = import_range-first_keys (put_key t i i) (suc i) n

  -- After the sequential import the tree is valid, and the loop of reads over the same keys
  -- hits with each of them.
  pub count_hits-import_range :
      (t : BeTree ℕ ℕ) (n : ℕ)
      → IsValid t
      → IsValid (import_range t 0 n)
        × (count_hits (import_range t 0 n) (first_keys 0 n) 0 ≡ length (first_keys 0 n))
  count_hits-import_range t n a =
      rw (import_range-first_keys t 0 n) (count_hits-import_keys t (first_keys 0 n) a)
