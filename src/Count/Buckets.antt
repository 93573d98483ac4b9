-- ===== src/Count/Buckets.antt =====
-- flush.go, flushNode: the buckets as lists. What has one index is in one bucket, and no message is lost.
use fractaltree.Prelude.{
  select-select, select-append, ℕ, zero, suc, ◌+◌, ◌≤◌, ◌<◌, ◌≡◌, ◌≢◌, refl, ap, ap₂, sym, ◌∙◌,
  Bool, true, not, List, [], ◌∷◌, ◌++◌, append-nil, arith, All, if◌then◌else◌, select, ◌==◌,
}
use native.Mathlib.Decide.{ℕ_discrete}
use fractaltree.Flush.{bucket_at, join_buckets, unflushed}
use fractaltree.Flush.Buckets.{parted}
use fractaltree.Count.{total}

module _ {ℓ} {A : Type ℓ} (w : A → ℕ) where
  pub total-append : (xs ys : List A) → total w (xs ++ ys) ≡ total w xs + total w ys
  total-append [] ys = omega arith
  total-append (x ∷ xs) ys = omega (arith, total-append xs ys)

  pub total-select :
      (p : A → Bool) (xs : List A)
      → total w (select p xs) + total w (select (λ x. not (p x)) xs) ≡ total w xs
  total-select p [] = omega arith
  total-select p (x ∷ xs) = ground (arith, total-select p xs)

-- elements that pass a test and have one index
module _ {ℓ} {A : Type ℓ} (index : A → ℕ) (q : A → Bool) (r : ℕ)
    (one_index : (x : A) → q x ≡ true → index x ≡ r) where
  select-part :
      (i : ℕ) (xs : List A)
      → select q (select (λ x. index x == i) xs) ≡ (if r == i then select q xs else [])
  select-part i xs =
      select-select (λ x. index x == i) q (r == i) xs (λ x e. ap (λ j. j == i) (one_index x e))

  part_self : (i : ℕ) (xs : List A) → r ≡ i → select q (select (λ x. index x == i) xs) ≡ select q xs
  part_self i xs e = ground (arith, select-part i xs)

  part_other : (i : ℕ) (xs : List A) → r ≢ i → select q (select (λ x. index x == i) xs) ≡ []
  part_other i xs ne = ground (arith, select-part i xs)

  pub select-bucket_at :
      (i n h : ℕ) (xs : List A)
      → r ≡ i + h
      → h < n
      → select q (bucket_at (parted index i n xs) h) ≡ select q xs
  select-bucket_at i zero h xs e l = absurd (omega arith)
  select-bucket_at i (suc n) zero xs e l = part_self i xs (omega arith)
  select-bucket_at i (suc n) (suc h) xs e l =
      select-bucket_at (suc i) n h xs (omega arith) (omega arith)

  join_low : (i n : ℕ) (xs : List A) → r < i → select q (join_buckets (parted index i n xs)) ≡ []
  join_low i zero xs l = refl
  join_low i (suc n) xs l =
      select-append q (select (λ x. index x == i) xs) (join_buckets (parted index (suc i) n xs))
      ∙ ap₂ (λ a b. a ++ b) (part_other i xs (λ e. omega arith))
          (join_low (suc i) n xs (omega arith))

  join_in :
      (i n : ℕ) (xs : List A)
      → i ≤ r
      → r < i + n
      → select q (join_buckets (parted index i n xs)) ≡ select q xs
  join_in i zero xs l h = absurd (omega arith)
  join_in i (suc n) xs l h =
      select-append q (select (λ x. index x == i) xs) (join_buckets (parted index (suc i) n xs))
      ∙ elim (ℕ_discrete r i) [
        | yes e ↦
            ap₂ (λ a b. a ++ b) (part_self i xs e) (join_low (suc i) n xs (omega arith))
            ∙ append-nil (select q xs)
        | no ne ↦
            ap₂ (λ a b. a ++ b) (part_other i xs ne)
              (join_in (suc i) n xs (omega arith) (omega arith))
      ]

  unflushed_low :
      (i n h : ℕ) (xs : List A) → r < i → select q (unflushed (parted index i n xs) h) ≡ []
  unflushed_low i zero h xs l = refl
  unflushed_low i (suc n) zero xs l = join_low (suc i) n xs (omega arith)
  unflushed_low i (suc n) (suc h) xs l =
      select-append q (select (λ x. index x == i) xs) (unflushed (parted index (suc i) n xs) h)
      ∙ ap₂ (λ a b. a ++ b) (part_other i xs (λ e. omega arith))
          (unflushed_low (suc i) n h xs (omega arith))

  pub unflushed_self :
      (i n h : ℕ) (xs : List A) → r ≡ i + h → select q (unflushed (parted index i n xs) h) ≡ []
  unflushed_self i zero h xs e = refl
  unflushed_self i (suc n) zero xs e = join_low (suc i) n xs (omega arith)
  unflushed_self i (suc n) (suc h) xs e =
      select-append q (select (λ x. index x == i) xs) (unflushed (parted index (suc i) n xs) h)
      ∙ ap₂ (λ a b. a ++ b) (part_other i xs (λ g. omega arith))
          (unflushed_self (suc i) n h xs (omega arith))

  pub unflushed_other :
      (i n h : ℕ) (xs : List A)
      → r ≢ i + h
      → i ≤ r
      → r < i + n
      → select q (unflushed (parted index i n xs) h) ≡ select q xs
  unflushed_other i zero h xs ne l g = absurd (omega arith)
  unflushed_other i (suc n) zero xs ne l g = join_in (suc i) n xs (omega arith) (omega arith)
  unflushed_other i (suc n) (suc h) xs ne l g =
      select-append q (select (λ x. index x == i) xs) (unflushed (parted index (suc i) n xs) h)
      ∙ elim (ℕ_discrete r i) [
        | yes e ↦
            ap₂ (λ a b. a ++ b) (part_self i xs e) (unflushed_low (suc i) n h xs (omega arith))
            ∙ append-nil (select q xs)
        | no nq ↦
            ap₂ (λ a b. a ++ b) (part_other i xs nq)
              (unflushed_other (suc i) n h xs (omega arith) (omega arith) (omega arith))
      ]

-- the weights of the buckets
module _ {ℓ} {A : Type ℓ} (index : A → ℕ) (w : A → ℕ) where
  pub total-unflushed :
      (i n h : ℕ) (xs : List A)
      → total w (bucket_at (parted index i n xs) h) + total w (unflushed (parted index i n xs) h)
        ≡ total w (join_buckets (parted index i n xs))
  total-unflushed i zero h xs = refl
  total-unflushed i (suc n) zero xs =
      sym
        (total-append w (select (λ x. index x == i) xs) (join_buckets (parted index (suc i) n xs)))
  total-unflushed i (suc n) (suc h) xs = omega (
    arith,
    total-unflushed (suc i) n h xs,
    total-append w (select (λ x. index x == i) xs) (join_buckets (parted index (suc i) n xs)),
    total-append w (select (λ x. index x == i) xs) (unflushed (parted index (suc i) n xs) h),
  )

  bucket_one :
      (i : ℕ) (x : A) (xs : List A)
      → total w (select (λ y. index y == i) (x ∷ xs))
        ≡ (if index x == i then w x else 0) + total w (select (λ y. index y == i) xs)
  bucket_one i x xs = ground arith

  join_drop :
      (i n : ℕ) (x : A) (xs : List A)
      → index x < i
      → total w (join_buckets (parted index i n (x ∷ xs)))
        ≡ total w (join_buckets (parted index i n xs))
  join_drop i zero x xs l = refl
  join_drop i (suc n) x xs l = ground (
    arith,
    bucket_one i x xs,
    join_drop (suc i) n x xs,
    total-append w (select (λ y. index y == i) xs) (join_buckets (parted index (suc i) n xs)),
    total-append w (select (λ y. index y == i) (x ∷ xs))
        (join_buckets (parted index (suc i) n (x ∷ xs))),
  )

  join_add :
      (i n : ℕ) (x : A) (xs : List A)
      → i ≤ index x
      → index x < i + n
      → total w (join_buckets (parted index i n (x ∷ xs)))
        ≡ w x + total w (join_buckets (parted index i n xs))
  join_add i zero x xs l h = absurd (omega arith)
  join_add i (suc n) x xs l h = ground (
    arith,
    bucket_one i x xs,
    join_drop (suc i) n x xs,
    join_add (suc i) n x xs,
    total-append w (select (λ y. index y == i) xs) (join_buckets (parted index (suc i) n xs)),
    total-append w (select (λ y. index y == i) (x ∷ xs))
        (join_buckets (parted index (suc i) n (x ∷ xs))),
  )

  join_none : (i n : ℕ) → total w (join_buckets (parted index i n [])) ≡ 0
  join_none i zero = refl
  join_none i (suc n) = join_none (suc i) n

  pub total-join_buckets :
      (n : ℕ) (xs : List A)
      → All (λ x. index x < n) xs
      → total w (join_buckets (parted index 0 n xs)) ≡ total w xs
  total-join_buckets n [] a = join_none 0 n
  total-join_buckets n (x ∷ xs) a =
      join_add 0 n x xs (omega arith) (omega (arith, a.0))
      ∙ ap (λ t. w x + t) (total-join_buckets n xs a.1)
