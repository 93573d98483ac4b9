-- ===== src/Flush/Buckets.antt =====
-- flush.go, flushNode: what the buckets hold, and what the flushed one and the others replay to.
use fractaltree.Prelude.{
  ℕ, zero, suc, ◌+◌, ◌≤◌, ◌<◌, ◌≡◌, ◌≢◌, refl, ap, sym, subst, ◌∙◌, false, eq, Option, List, [],
  ◌∷◌, ◌++◌, append-nil, append_assoc, arith, All, All-append, All-select, select-snoc,
  if◌then◌else◌, select, ◌==◌, ==_iff,
}
use mathlib.Core.Path.{fun_ext}
use native.Mathlib.Decide.{ℕ_discrete}
use fractaltree.Search.{binary_search}
use fractaltree.Order.{Ord, is_le, eq_right}
use fractaltree.Message.{Message, key_of}
use fractaltree.Message.Replay.{replay, replay-append, replay-nil, replay-select_key}
use fractaltree.Node.{find_child_index}
use fractaltree.Flush.{
  empty_buckets, add_to_bucket, bucket_at, join_buckets, unflushed, fill_buckets, partition,
}

module _ {ℓ} {A : Type ℓ} (index : A → ℕ) where
  -- the elements of each index from `i` on, `n` indices long
  abbrev pub parted : ℕ → ℕ → List A → List (List A)
  parted i zero xs = []
  parted i (suc n) xs = select (λ x. index x == i) xs ∷ parted (suc i) n xs

  parted-skip :
      (i n : ℕ) (xs : List A) (x : A) → index x < i → parted i n (xs ++ x ∷ []) ≡ parted i n xs
  parted-skip i zero xs x h = refl
  parted-skip i (suc n) xs x h =
      ground (arith, select-snoc (λ y. index y == i) xs x, parted-skip (suc i) n xs x)

  parted-add :
      (i n d : ℕ) (xs : List A) (x : A)
      → index x ≡ i + d
      → add_to_bucket (parted i n xs) d x ≡ parted i n (xs ++ x ∷ [])
  parted-add i zero d xs x h = refl
  parted-add i (suc n) zero xs x h =
      ground (arith, select-snoc (λ y. index y == i) xs x, parted-skip (suc i) n xs x)
  parted-add i (suc n) (suc d) xs x h =
      ground (arith, select-snoc (λ y. index y == i) xs x, parted-add (suc i) n d xs x)

  empty-parted : (i n : ℕ) → empty_buckets n ≡ parted i n []
  empty-parted i zero = refl
  empty-parted i (suc n) = ap (λ b. [] ∷ b) (empty-parted (suc i) n)

  -- a bucket holds what satisfies `Q` and has its index
  pub bucket_at-All {μ} :
      (Q : A → Type μ) (i n h : ℕ) (xs : List A) → All Q xs → All Q (bucket_at (parted i n xs) h)
  bucket_at-All Q i zero h xs a = tt
  bucket_at-All Q i (suc n) zero xs a = All-select Q (λ x. index x == i) xs a
  bucket_at-All Q i (suc n) (suc h) xs a = bucket_at-All Q (suc i) n h xs a

  select-index : (i : ℕ) (xs : List A) → All (λ x. index x ≡ i) (select (λ x. index x == i) xs)
  select-index i [] = tt
  select-index i (x ∷ xs) = ground (arith, select-index i xs)

  pub bucket_at-index :
      (i n h : ℕ) (xs : List A) → All (λ x. index x ≡ i + h) (bucket_at (parted i n xs) h)
  bucket_at-index i zero h xs = tt
  bucket_at-index i (suc n) zero xs =
      subst (λ j. All (λ x. index x ≡ j) (select (λ x. index x == i) xs)) (omega arith)
        (select-index i xs)
  bucket_at-index i (suc n) (suc h) xs =
      subst (λ j. All (λ x. index x ≡ j) (bucket_at (parted (suc i) n xs) h)) (omega arith)
        (bucket_at-index (suc i) n h xs)

  join_buckets-All {μ} :
      (Q : A → Type μ) (i n : ℕ) (xs : List A) → All Q xs → All Q (join_buckets (parted i n xs))
  join_buckets-All Q i zero xs a = tt
  join_buckets-All Q i (suc n) xs a =
      All-append Q (select (λ x. index x == i) xs) (join_buckets (parted (suc i) n xs))
        (All-select Q (λ x. index x == i) xs a) (join_buckets-All Q (suc i) n xs a)

  pub unflushed-All {μ} :
      (Q : A → Type μ) (i n h : ℕ) (xs : List A) → All Q xs → All Q (unflushed (parted i n xs) h)
  unflushed-All Q i zero h xs a = tt
  unflushed-All Q i (suc n) zero xs a = join_buckets-All Q (suc i) n xs a
  unflushed-All Q i (suc n) (suc h) xs a =
      All-append Q (select (λ x. index x == i) xs) (unflushed (parted (suc i) n xs) h)
        (All-select Q (λ x. index x == i) xs a) (unflushed-All Q (suc i) n h xs a)

module _ {ℓ κ} {K : Type ℓ} {V : Type κ} ⦃o : Ord K⦄ (ps : List K) where
  abbrev pub child_index : Message K V → ℕ
  child_index m = find_child_index ps (key_of m)

  fill_buckets-parted :
      (n : ℕ) (xs ms : List (Message K V))
      → fill_buckets ps (parted child_index 0 n xs) ms ≡ parted child_index 0 n (xs ++ ms)
  unfolding fill_buckets
  fill_buckets-parted n xs [] = ap (parted child_index 0 n) (sym (append-nil xs))
  fill_buckets-parted n xs (m ∷ ms) =
      ap (λ bs. fill_buckets ps bs ms)
        (parted-add child_index 0 n (child_index m) xs m (omega arith))
      ∙ fill_buckets-parted n (xs ++ m ∷ []) ms
      ∙ ap (parted child_index 0 n) (append_assoc xs (m ∷ []) ms)

  -- The loop over the buffer leaves each child's messages in its bucket, in their order.
  pub partition-parted :
      (n : ℕ) (buf : List (Message K V)) → partition ps n buf ≡ parted child_index 0 n buf
  unfolding partition
  partition-parted n buf =
      ap (λ bs. fill_buckets ps bs buf) (empty-parted child_index 0 n)
      ∙ fill_buckets-parted n [] buf

module _ {ℓ} {K : Type ℓ} ⦃o : Ord K⦄ (ps : List K) (k : K) where
  pub find_child_index-congr :
      (j : K) → o.cmp j k ≡ eq → find_child_index ps j ≡ find_child_index ps k
  unfolding find_child_index
  find_child_index-congr j e =
      ap (λ p. binary_search p ps) (fun_ext (λ q. ap is_le (eq_right j k q e)))

module _ {ℓ κ} {K : Type ℓ} {V : Type κ} ⦃o : Ord K⦄ (ps : List K) (k : K) where
  replay-bucket :
      (i : ℕ) (ms : List (Message K V)) (b : Option V)
      → replay k (select (λ m. find_child_index ps (key_of m) == i) ms) b
        ≡ (if find_child_index ps k == i then replay k ms b else b)
  replay-bucket i ms b =
      replay-select_key (λ j. find_child_index ps j == i) k ms b
        (λ j e. ap (λ r. r == i) (find_child_index-congr ps k j e))

  bucket_self :
      (i : ℕ) (ms : List (Message K V)) (b : Option V)
      → find_child_index ps k ≡ i
      → replay k (select (λ m. find_child_index ps (key_of m) == i) ms) b ≡ replay k ms b
  bucket_self i ms b e = rw ((==_iff (find_child_index ps k) i).1 e) at (replay-bucket i ms b)

  bucket_other :
      (i : ℕ) (ms : List (Message K V)) (b : Option V)
      → find_child_index ps k ≢ i
      → replay k (select (λ m. find_child_index ps (key_of m) == i) ms) b ≡ b
  bucket_other i ms b ne =
      let off : (find_child_index ps k == i) ≡ false = ground arith in
      rw off at (replay-bucket i ms b)

  -- the bucket of the key's child has all the messages of the key
  pub replay-bucket_at :
      (i n h : ℕ) (ms : List (Message K V)) (b : Option V)
      → find_child_index ps k ≡ i + h
      → h < n
      → replay k (bucket_at (parted (child_index ps) i n ms) h) b ≡ replay k ms b
  replay-bucket_at i zero h ms b e l = absurd (omega arith)
  replay-bucket_at i (suc n) zero ms b e l = ground (arith, replay-bucket i ms b)
  replay-bucket_at i (suc n) (suc h) ms b e l =
      replay-bucket_at (suc i) n h ms b (omega arith) (omega arith)

  replay-join_low :
      (i n : ℕ) (ms : List (Message K V)) (b : Option V)
      → find_child_index ps k < i
      → replay k (join_buckets (parted (child_index ps) i n ms)) b ≡ b
  replay-join_low i zero ms b l = replay-nil k b
  replay-join_low i (suc n) ms b l = ground (
    arith,
    replay-bucket i ms b,
    replay-join_low (suc i) n ms b,
    replay-append k (select (λ m. find_child_index ps (key_of m) == i) ms)
        (join_buckets (parted (child_index ps) (suc i) n ms)) b,
  )

  replay-join_in :
      (i n : ℕ) (ms : List (Message K V)) (b : Option V)
      → i ≤ find_child_index ps k
      → find_child_index ps k < i + n
      → replay k (join_buckets (parted (child_index ps) i n ms)) b ≡ replay k ms b
  replay-join_in i zero ms b l h = absurd (omega arith)
  replay-join_in i (suc n) ms b l h =
      replay-append k (select (λ m. find_child_index ps (key_of m) == i) ms)
        (join_buckets (parted (child_index ps) (suc i) n ms)) b
      ∙ elim (ℕ_discrete (find_child_index ps k) i) [
        | yes e ↦ replay-join_low (suc i) n ms _ (omega arith) ∙ bucket_self i ms b e
        | no ne ↦
            replay-join_in (suc i) n ms _ (omega arith) (omega arith)
            ∙ ap (replay k ms) (bucket_other i ms b ne)
      ]

  replay-unflushed_low :
      (i n h : ℕ) (ms : List (Message K V)) (b : Option V)
      → find_child_index ps k < i
      → replay k (unflushed (parted (child_index ps) i n ms) h) b ≡ b
  replay-unflushed_low i zero h ms b l = replay-nil k b
  replay-unflushed_low i (suc n) zero ms b l = replay-join_low (suc i) n ms b (omega arith)
  replay-unflushed_low i (suc n) (suc h) ms b l = ground (
    arith,
    replay-bucket i ms b,
    replay-unflushed_low (suc i) n h ms b,
    replay-append k (select (λ m. find_child_index ps (key_of m) == i) ms)
        (unflushed (parted (child_index ps) (suc i) n ms) h) b,
  )

  -- the buffer kept back has all the messages of the key, or none, if its child is the one flushed
  pub replay-unflushed_self :
      (i n h : ℕ) (ms : List (Message K V)) (b : Option V)
      → find_child_index ps k ≡ i + h
      → replay k (unflushed (parted (child_index ps) i n ms) h) b ≡ b
  replay-unflushed_self i zero h ms b e = replay-nil k b
  replay-unflushed_self i (suc n) zero ms b e = replay-join_low (suc i) n ms b (omega arith)
  replay-unflushed_self i (suc n) (suc h) ms b e = ground (
    arith,
    replay-bucket i ms b,
    replay-unflushed_self (suc i) n h ms b,
    replay-append k (select (λ m. find_child_index ps (key_of m) == i) ms)
        (unflushed (parted (child_index ps) (suc i) n ms) h) b,
  )

  pub replay-unflushed_other :
      (i n h : ℕ) (ms : List (Message K V)) (b : Option V)
      → find_child_index ps k ≢ i + h
      → i ≤ find_child_index ps k
      → find_child_index ps k < i + n
      → replay k (unflushed (parted (child_index ps) i n ms) h) b ≡ replay k ms b
  replay-unflushed_other i zero h ms b e l g = absurd (omega arith)
  replay-unflushed_other i (suc n) zero ms b e l g =
      replay-join_in (suc i) n ms b (omega arith) (omega arith)
  replay-unflushed_other i (suc n) (suc h) ms b e l g =
      replay-append k (select (λ m. find_child_index ps (key_of m) == i) ms)
        (unflushed (parted (child_index ps) (suc i) n ms) h) b
      ∙ elim (ℕ_discrete (find_child_index ps k) i) [
        | yes q ↦ replay-unflushed_low (suc i) n h ms _ (omega arith) ∙ bucket_self i ms b q
        | no ne ↦
            replay-unflushed_other (suc i) n h ms _ (omega arith) (omega arith) (omega arith)
            ∙ ap (replay k ms) (bucket_other i ms b ne)
      ]
