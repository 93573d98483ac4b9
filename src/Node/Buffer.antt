-- ===== src/Node/Buffer.antt =====
-- node.go, bufferMessagesForKey: the binary search on a sorted buffer finds what the linear scan finds.
use fractaltree.Prelude.{
  ℕ, suc, ◌+◌, ◌-◌, ◌≡◌, refl, Bool, true, false, eq, gt, List, [], ◌∷◌, arith, if◌then◌else◌, All,
  All-select, take, drop, select,
}
use native.Mathlib.Numerals.{add-one}
use fractaltree.Order.{Ord, ◌≺◌, ◌≼◌, is_eq, is_lt, le_lt_trans, lt_le_trans}
use fractaltree.Message.{Message, key_of}
use fractaltree.Search.{binary_search_lem, prefix_count, test_at, IsPartitioned}
use fractaltree.Node.{buffer_messages_for_key}

span-suc : (r : ℕ) (g : ℕ → ℕ) → r + 1 + g (r + 1) - r ≡ suc (g (suc r))
span-suc r g = rw (add-one r) (omega arith)

module _ {ℓ κ} {K : Type ℓ} {V : Type κ} ⦃o : Ord K⦄ where
  -- ascending keys, repeats allowed
  abbrev pub IsBufferSorted : List (Message K V) → Type 0
  IsBufferSorted [] = Unit
  IsBufferSorted (m ∷ ms) = All (λ x. key_of m ≼ key_of x) ms × IsBufferSorted ms

  above_all :
      (j k : K) (ms : List (Message K V))
      → ¬ (j ≺ k)
      → All (λ x. j ≼ key_of x) ms
      → All (λ x. is_lt (o.cmp (key_of x) k) ≡ false) ms
  above_all j k [] h a = tt
  above_all j k (m ∷ ms) h a =
      (ground (arith, le_lt_trans j (key_of m) k a.0), above_all j k ms h a.1)

  pub IsBufferSorted-IsPartitioned :
      (ms : List (Message K V)) (k : K)
      → IsBufferSorted ms
      → IsPartitioned (λ m. is_lt (o.cmp (key_of m) k)) ms
  IsBufferSorted-IsPartitioned [] k s = tt
  IsBufferSorted-IsPartitioned (m ∷ ms) k s = (
    λ e. above_all (key_of m) k ms (λ h. ground arith) s.0,
    IsBufferSorted-IsPartitioned ms k s.1,
  )

  select_above :
      (j k : K) (ms : List (Message K V))
      → o.cmp j k ≡ gt
      → All (λ x. j ≼ key_of x) ms
      → select (λ m. is_eq (o.cmp (key_of m) k)) ms ≡ []
  select_above j k [] h a = refl
  select_above j k (m ∷ ms) h a = ground (
    arith,
    select_above j k ms h a.1,
    o.lt_of_gt j k h,
    lt_le_trans k j (key_of m),
    o.gt_of_lt k (key_of m),
  )

  -- the run of equal keys at the front of messages that are not below the key
  take-prefix_count :
      (k : K) (ms : List (Message K V))
      → All (λ x. k ≼ key_of x) ms
      → IsBufferSorted ms
      → take (prefix_count (λ m. is_eq (o.cmp (key_of m) k)) ms) ms
        ≡ select (λ m. is_eq (o.cmp (key_of m) k)) ms
  take-prefix_count k [] a s = refl
  take-prefix_count k (m ∷ ms) a s =
      ground (
        arith,
        take-prefix_count k ms a.1 s.1,
        o.gt_of_lt (key_of m) k,
        select_above (key_of m) k ms,
      )

  abbrev at_rank : List (Message K V) → K → ℕ
  at_rank ms k = prefix_count (λ m. is_lt (o.cmp (key_of m) k)) ms

  le-all :
      (j k : K) (ms : List (Message K V))
      → o.cmp j k ≡ eq
      → All (λ x. j ≼ key_of x) ms
      → All (λ x. k ≼ key_of x) ms
  le-all j k [] e a = tt
  le-all j k (m ∷ ms) e a = (ground (arith, o.eq_left j k (key_of m)), le-all j k ms e a.1)

  run-eq-select :
      (ms : List (Message K V)) (k : K)
      → IsBufferSorted ms
      → (if test_at (λ m. is_eq (o.cmp (key_of m) k)) ms (at_rank ms k)
          then take
              (suc (prefix_count (λ m. is_eq (o.cmp (key_of m) k)) (drop (suc (at_rank ms k)) ms)))
              (drop (at_rank ms k) ms)
          else [])
        ≡ select (λ m. is_eq (o.cmp (key_of m) k)) ms
  run-eq-select [] k s = refl
  run-eq-select (m ∷ ms) k s = ground (
    arith,
    run-eq-select ms k s.1,
    take-prefix_count k ms,
    le-all (key_of m) k ms,
    select_above (key_of m) k ms,
  )

  -- On a buffer that is marked sorted only if it is, the lookup of a key returns the messages that
  -- a linear scan finds, in their order.
  pub buffer_messages_for_key_lem :
      (ms : List (Message K V)) (is_sorted : Bool) (k : K)
      → (is_sorted ≡ true → IsBufferSorted ms)
      → buffer_messages_for_key ms is_sorted k ≡ select (λ m. is_eq (o.cmp (key_of m) k)) ms
  unfolding buffer_messages_for_key
  buffer_messages_for_key_lem ms false k s = refl
  buffer_messages_for_key_lem ms true k s =
      rw
        (binary_search_lem (λ m. is_lt (o.cmp (key_of m) k)) ms
          (IsBufferSorted-IsPartitioned ms k (s refl)))
        (rw
          (span-suc (at_rank ms k)
            (λ i. prefix_count (λ m. is_eq (o.cmp (key_of m) k)) (drop i ms)))
          (run-eq-select ms k (s refl)))

  -- a selection of a sorted buffer is sorted
  pub select-IsBufferSorted :
      (p : Message K V → Bool) (ms : List (Message K V))
      → IsBufferSorted ms
      → IsBufferSorted (select p ms)
  select-IsBufferSorted p [] s = tt
  select-IsBufferSorted p (m ∷ ms) s =
      ground (arith, select-IsBufferSorted p ms s.1, All-select (λ x. key_of m ≼ key_of x) p ms s.0)
