-- ===== src/Search.antt =====
-- The binary search loop that node.go (findChildIndex), cursor.go (Seek) and the standard library's
-- slices.BinarySearchFunc share: `lo` and `hi` close in on the first index whose test fails.
use fractaltree.Prelude.{
  ℕ, zero, suc, ◌+◌, ◌-◌, ◌/◌, ◌≤◌, ◌<◌, ◌≡◌, refl, Bool, true, false, none, some, List, [], ◌∷◌,
  arith, ltb, length, get_elem?, All,
}

-- `mid := lo + (hi-lo)/2; if below(mid) { lo = mid + 1 } else { hi = mid }`. The fuel bounds the
-- rounds: each makes the range shorter, so the length of the range is enough.
unfoldable pub bisect : ℕ → (ℕ → Bool) → ℕ → ℕ → ℕ
bisect zero below lo hi = lo
bisect (suc f) below lo hi = elim (ltb lo hi) [
  | false ↦ lo
  | true ↦ elim (below (lo + (hi - lo) / 2)) [
    | true ↦ bisect f below (lo + (hi - lo) / 2 + 1) hi
    | false ↦ bisect f below lo (lo + (hi - lo) / 2)
  ]
]

-- Where the tests pass below `n` and fail from `n` on, the loop ends at `n`.
pub bisect_lem :
    (f : ℕ) (below : ℕ → Bool) (lo hi n : ℕ)
    → hi - lo ≤ f
    → lo ≤ n
    → n ≤ hi
    → ((i : ℕ) → i < n → below i ≡ true)
    → ((i : ℕ) → n ≤ i → below i ≡ false)
    → bisect f below lo hi ≡ n
unfolding bisect
bisect_lem zero below lo hi n hf h1 h2 a b = omega arith
bisect_lem (suc f) below lo hi n hf h1 h2 a b =
    let m : ℕ = lo + (hi - lo) / 2 in
    ground (arith, a m, b m, bisect_lem f below (m + 1) hi n, bisect_lem f below lo m n)

module _ {ℓ} {A : Type ℓ} where
  -- the test of the element at an index; the loop reads no other index than those of the slice
  abbrev pub test_at : (A → Bool) → List A → ℕ → Bool
  test_at p xs i = elim (get_elem? xs i) [ none ↦ false | some x ↦ p x ]

  unfoldable pub binary_search : (A → Bool) → List A → ℕ
  binary_search p xs = bisect (length xs) (test_at p xs) 0 (length xs)

  -- how many elements at the front pass the test
  abbrev pub prefix_count : (A → Bool) → List A → ℕ
  prefix_count p [] = 0
  prefix_count p (x ∷ xs) = elim (p x) [ true ↦ suc (prefix_count p xs) | false ↦ 0 ]

  -- after the first element that fails the test, all fail it
  abbrev pub IsPartitioned : (A → Bool) → List A → Type ℓ
  IsPartitioned p [] = Unit
  IsPartitioned p (x ∷ xs) = (p x ≡ false → All (λ y. p y ≡ false) xs) × IsPartitioned p xs

  prefix_count-le-length : (p : A → Bool) (xs : List A) → prefix_count p xs ≤ length xs
  prefix_count-le-length p [] = omega arith
  prefix_count-le-length p (x ∷ xs) = ground (arith, prefix_count-le-length p xs)

  test_at-below :
      (p : A → Bool) (xs : List A) (i : ℕ) → i < prefix_count p xs → test_at p xs i ≡ true
  test_at-below p [] i h = absurd (omega arith)
  test_at-below p (x ∷ xs) zero h = ground arith
  test_at-below p (x ∷ xs) (suc i) h = ground (arith, test_at-below p xs i)

  test_at-All :
      (p : A → Bool) (xs : List A) (i : ℕ) → All (λ y. p y ≡ false) xs → test_at p xs i ≡ false
  test_at-All p [] i h = refl
  test_at-All p (x ∷ xs) zero h = h.0
  test_at-All p (x ∷ xs) (suc i) h = test_at-All p xs i h.1

  test_at-above :
      (p : A → Bool) (xs : List A) (i : ℕ)
      → IsPartitioned p xs
      → prefix_count p xs ≤ i
      → test_at p xs i ≡ false
  test_at-above p [] i s h = refl
  test_at-above p (x ∷ xs) zero s h = ground arith
  test_at-above p (x ∷ xs) (suc i) s h =
      ground (arith, test_at-above p xs i s.1, test_at-All p xs i)

  -- On a slice in which all elements after the first that fails the test fail it, the binary
  -- search returns the number of elements that pass from the front.
  pub binary_search_lem :
      (p : A → Bool) (xs : List A) → IsPartitioned p xs → binary_search p xs ≡ prefix_count p xs
  unfolding binary_search
  binary_search_lem p xs s =
      bisect_lem (length xs) (test_at p xs) 0 (length xs) (prefix_count p xs) (omega arith)
        (omega arith) (prefix_count-le-length p xs) (test_at-below p xs)
        (λ i h. test_at-above p xs i s h)
