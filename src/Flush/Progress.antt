-- ===== src/Flush/Progress.antt =====
-- flush.go, flushNode: the child that is chosen has the most messages, so that a flush gets on.
use Prim.Native.Nat.{◌*◌}
use native.Mathlib.Nat.{mul-zero, zero-mul, suc-mul}
use fractaltree.Prelude.{
  ℕ, zero, suc, ◌+◌, ◌-◌, ◌≤◌, ◌<◌, ◌≡◌, refl, ap, sym, subst, Bool, Option, List, [], ◌∷◌, arith,
  All, All-imp, length, length-append, ltb, Bool-cases, inl, inr, ◌⊎◌,
}
use fractaltree.Order.{Ord}
use fractaltree.Message.{Message, Zero}
use fractaltree.Node.{Node, leaf, internal, Children, num_children, child_at}
use fractaltree.Ordered.{IsOrdered, AreOrdered}
use fractaltree.Apply.{Counters}
use fractaltree.Flush.{
  TreeParams, bucket_at, heaviest, heaviest_from, join_buckets, unflushed, partition, is_overfull,
  finish_flush, receive_at, flush_node,
}
use fractaltree.Flush.Buckets.{parted, child_index, partition-parted}
use fractaltree.Count.{total}
use fractaltree.Count.Buckets.{total-join_buckets}
use fractaltree.Count.Parted.{total_kept, all_routed}

share_left :
    (whole bucket kept n : ℕ)
    → 0 < whole
    → bucket + kept ≡ whole
    → whole ≤ n * bucket
    → (kept < whole) × (whole ≤ n * (whole - kept))
share_left whole zero kept n p e h = absurd (omega (arith, mul-zero n))
share_left whole (suc b) kept n p e h =
    let same : whole - kept ≡ suc b = omega arith in
    (omega arith, omega (arith, ap (λ m. n * m) same))

module _ {ℓ} {A : Type ℓ} where
  abbrev NoneLonger : List (List A) → ℕ → Type 0
  NoneLonger bs m = All (λ b. length b ≤ m) bs

  -- What the greedy loop returns: the best so far if no bucket is longer, or else the index of a longest.
  abbrev IsBest : List (List A) → ℕ → ℕ → ℕ → ℕ → Type 0
  IsBest bs i best len r =
      ((r ≡ best) × NoneLonger bs len)
      ⊎ ((j : ℕ) × (r ≡ i + j)
          × (len < length (bucket_at bs j))
          × NoneLonger bs (length (bucket_at bs j)))

  bound_grows : (bs : List (List A)) (m n : ℕ) → m ≤ n → NoneLonger bs m → NoneLonger bs n
  bound_grows bs m n h a = All-imp (λ b. length b ≤ m) (λ b. length b ≤ n) (λ b l. omega arith) bs a

  heaviest_from-IsBest :
      (bs : List (List A)) (i best len : ℕ) → IsBest bs i best len (heaviest_from bs i best len)
  unfolding heaviest_from
  heaviest_from-IsBest [] i best len = inl (refl, tt)
  heaviest_from-IsBest (b ∷ bs) i best len = elim (Bool-cases (ltb len (length b))) [
    | inl e ↦ rw e (elim (heaviest_from-IsBest bs (suc i) i (length b)) [
      | inl (r, a) ↦ inr (0, omega (arith, r), ground arith, (omega arith, a))
      | inr (j, r, l, a) ↦ inr (suc j, omega (arith, r), ground arith, (omega arith, a))
    ])
    | inr e ↦ rw e (elim (heaviest_from-IsBest bs (suc i) best len) [
      | inl (r, a) ↦ inl (r, (ground arith, a))
      | inr (j, r, l, a) ↦ inr (suc j, omega (arith, r), l, (ground arith, a))
    ])
  ]

  -- No bucket is longer than the one chosen.
  heaviest-NoneLonger : (bs : List (List A)) → NoneLonger bs (length (bucket_at bs (heaviest bs)))
  unfolding heaviest
  heaviest-NoneLonger [] = tt
  heaviest-NoneLonger (b ∷ bs) =
      let chosen = λ (i : ℕ). λ (r : heaviest_from bs 1 0 (length b) ≡ i).
        subst (λ j. NoneLonger (b ∷ bs) (length (bucket_at (b ∷ bs) j))) (sym r) in
      elim (heaviest_from-IsBest bs 1 0 (length b)) [
        | inl (r, a) ↦ chosen 0 r (omega arith, a)
        | inr (j, r, l, a) ↦ chosen (suc j) (omega (arith, r)) (omega arith, a)
      ]

  length-join_buckets :
      (bs : List (List A)) (m : ℕ) → NoneLonger bs m → length (join_buckets bs) ≤ length bs * m
  length-join_buckets [] m a = omega (arith, zero-mul m)
  length-join_buckets (b ∷ bs) m a = omega (
    arith,
    suc-mul (length bs) m,
    length-join_buckets bs m a.1,
    length-append b (join_buckets bs),
    a.0,
  )

  total-length : (xs : List A) → total (λ x. 1) xs ≡ length xs
  total-length [] = refl
  total-length (x ∷ xs) = omega (arith, total-length xs)

  length-parted : (index : A → ℕ) (i n : ℕ) (xs : List A) → length (parted index i n xs) ≡ n
  length-parted index i zero xs = refl
  length-parted index i (suc n) xs = omega (arith, length-parted index (suc i) n xs)

module _ {ℓ κ} {K : Type ℓ} {V : Type κ} where
  abbrev pub buffer_of : Node K V → List (Message K V)
  buffer_of (leaf es) = []
  buffer_of (internal ps cs buf s) = buf

module _ {ℓ κ} {K : Type ℓ} {V : Type κ} ⦃z : Zero V⦄ ⦃o : Ord K⦄ (params : TreeParams) where
  finish_flush-buffer_of :
      (ps : List K) (cs : Children K V) (buf : List (Message K V)) (h : ℕ)
      → buffer_of (finish_flush params ps cs buf h) ≡ buf
  unfolding finish_flush
  finish_flush-buffer_of ps cs buf h = elim (Bool-cases (is_overfull params (child_at cs h))) [
    | inl e ↦ rw e refl
    | inr e ↦ rw e refl
  ]

  -- what the chosen bucket takes out of the buffer
  heaviest_share :
      (lo hi : Option K) (ps : List K) (cs : Children K V) (buf : List (Message K V))
      → AreOrdered lo hi ps cs
      → (let bs = partition ps (num_children cs) buf in
          (length (bucket_at bs (heaviest bs)) + length (unflushed bs (heaviest bs)) ≡ length buf)
          × (length buf ≤ num_children cs * length (bucket_at bs (heaviest bs))))
  heaviest_share lo hi ps cs buf a =
      let n = num_children cs in
      let bs = parted (child_index ps) 0 n buf in
      let h = heaviest bs in
      rw (partition-parted ps n buf) (
        omega (
          arith,
          total_kept lo hi ps cs buf h (λ m. 1) a,
          total-length (bucket_at bs h),
          total-length (unflushed bs h),
          total-length buf,
        ),
        omega (
          arith,
          length-join_buckets bs (length (bucket_at bs h)) (heaviest-NoneLonger bs),
          ap (λ i. i * length (bucket_at bs h)) (length-parted (child_index ps) 0 n buf),
          total-join_buckets (child_index ps) (λ m. 1) n buf (all_routed lo hi ps cs buf a),
          total-length (join_buckets bs),
          total-length buf,
        ),
      )

  -- A flush of an ordered internal node whose buffer is not empty takes messages out of the buffer: at
  -- least the part that falls to each child if the buffer is shared out evenly.
  pub flush_node-progress :
      (lo hi : Option K) (ps : List K) (cs : Children K V) (m : Message K V)
      (ms : List (Message K V)) (s : Bool) (c : Counters)
      → IsOrdered lo hi (internal ps cs (m ∷ ms) s)
      → (let kept = length (buffer_of (flush_node params (internal ps cs (m ∷ ms) s) c).0) in
          (kept < length (m ∷ ms)) × (length (m ∷ ms) ≤ num_children cs * (length (m ∷ ms) - kept)))
  unfolding flush_node IsOrdered
  flush_node-progress lo hi ps cs m ms s c a =
      let bs = partition ps (num_children cs) (m ∷ ms) in
      let h = heaviest bs in
      let share = heaviest_share lo hi ps cs (m ∷ ms) a.2 in
      let bucket = length (bucket_at bs h) in
      rw
        (finish_flush-buffer_of ps (receive_at params cs h (bucket_at bs h) c).0 (unflushed bs h) h)
        (share_left (length (m ∷ ms)) bucket (length (unflushed bs h)) (num_children cs)
          (omega arith) share.0 share.1)
