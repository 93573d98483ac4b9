-- ===== src/Node/Slice.antt =====
-- node.go, bufferSlice: the binary searches on a sorted buffer cut out what the linear scan selects.
use fractaltree.Prelude.{
  ℕ, ◌+◌, ◌-◌, ◌≡◌, refl, ap, ◌∙◌, Bool, true, false, not, ◌&&◌, List, [], ◌∷◌, arith,
  if◌then◌else◌, All, take, drop, select, leb, Bool-cases, inl, inr,
}
use fractaltree.Order.{Ord, ◌≺◌, ◌≼◌, is_eq, is_lt, is_le, le_lt_trans, le_trans}
use fractaltree.Message.{Message, key_of}
use fractaltree.Search.{binary_search_lem, prefix_count, IsPartitioned}
use fractaltree.Node.{buffer_slice, buffer_slice_scan, in_slice, scan_while, buffer_position}
use fractaltree.Node.Buffer.{IsBufferSorted, IsBufferSorted-IsPartitioned}

module _ {ℓ} {A : Type ℓ} (p q : A → Bool) where
  select_none : (xs : List A) → All (λ x. q x ≡ false) xs → select (λ x. not (p x) && q x) xs ≡ []
  select_none [] b = refl
  select_none (x ∷ xs) b = ground (arith, select_none xs b.1)

  front_lem :
      (xs : List A)
      → All (λ x. p x ≡ false) xs
      → IsPartitioned q xs
      → take (prefix_count q xs) xs ≡ select (λ x. not (p x) && q x) xs
  front_lem [] a b = refl
  front_lem (x ∷ xs) a b = ground (arith, front_lem xs a.1 b.1, select_none xs)

  -- what lies between two divisions of a list, the first of them before the second
  pub between_lem :
      (xs : List A)
      → IsPartitioned p xs
      → IsPartitioned q xs
      → ((x : A) → p x ≡ true → q x ≡ true)
      → take (prefix_count q xs - prefix_count p xs) (drop (prefix_count p xs) xs)
        ≡ select (λ x. not (p x) && q x) xs
  between_lem [] a b h = refl
  between_lem (x ∷ xs) a b h =
      ground (arith, h x, between_lem xs a.1 b.1 h, front_lem xs, select_none xs)

module _ {ℓ} {A : Type ℓ} where
  take_none : (s e : ℕ) (xs : List A) → leb e s ≡ true → [] ≡ take (e - s) xs
  take_none s e xs h = let z : 0 ≡ e - s = ground arith in ap (λ n. take n xs) z

  empty_cut : (s e : ℕ) (xs : List A) → (if leb e s then [] else take (e - s) xs) ≡ take (e - s) xs
  empty_cut s e xs = elim (Bool-cases (leb e s)) [
    | inl h ↦ rw h (take_none s e xs h)
    | inr h ↦ rw h refl
  ]

module _ {ℓ κ} {K : Type ℓ} {V : Type κ} ⦃o : Ord K⦄ where
  above_le :
      (j k : K) (ms : List (Message K V))
      → is_le (o.cmp j k) ≡ false
      → All (λ x. j ≼ key_of x) ms
      → All (λ x. is_le (o.cmp (key_of x) k) ≡ false) ms
  above_le j k [] h a = tt
  above_le j k (m ∷ ms) h a = (ground (arith, le_trans j (key_of m) k a.0), above_le j k ms h a.1)

  le-IsPartitioned :
      (ms : List (Message K V)) (k : K)
      → IsBufferSorted ms
      → IsPartitioned (λ m. is_le (o.cmp (key_of m) k)) ms
  le-IsPartitioned [] k s = tt
  le-IsPartitioned (m ∷ ms) k s = (λ e. above_le (key_of m) k ms e s.0, le-IsPartitioned ms k s.1)

  none_below :
      (j k : K) (ms : List (Message K V))
      → is_lt (o.cmp j k) ≡ false
      → All (λ x. j ≼ key_of x) ms
      → prefix_count (λ m. is_lt (o.cmp (key_of m) k)) ms ≡ 0
  none_below j k [] h a = refl
  none_below j k (m ∷ ms) h a = ground (arith, le_lt_trans j (key_of m) k a.0)

  -- scanning on over the equal keys ends at the first key above
  scan_while-le :
      (ms : List (Message K V)) (k : K)
      → IsBufferSorted ms
      → prefix_count (λ m. is_lt (o.cmp (key_of m) k)) ms
          + prefix_count
              (λ m. is_eq (o.cmp (key_of m) k))
              (drop (prefix_count (λ m. is_lt (o.cmp (key_of m) k)) ms) ms)
        ≡ prefix_count (λ m. is_le (o.cmp (key_of m) k)) ms
  scan_while-le [] k s = refl
  scan_while-le (m ∷ ms) k s = ground (arith, scan_while-le ms k s.1, none_below (key_of m) k ms)

  -- where the slice starts and ends
  abbrev starts_after : K → Bool → Message K V → Bool
  starts_after lo lo_inc m =
      if lo_inc then is_lt (o.cmp (key_of m) lo) else is_le (o.cmp (key_of m) lo)

  abbrev ends_after : K → Bool → Message K V → Bool
  ends_after hi hi_inc m =
      if hi_inc then is_le (o.cmp (key_of m) hi) else is_lt (o.cmp (key_of m) hi)

  slice_order :
      (lo hi : K) (lo_inc hi_inc : Bool) (m : Message K V)
      → lo ≺ hi
      → starts_after lo lo_inc m ≡ true
      → ends_after hi hi_inc m ≡ true
  slice_order lo hi lo_inc hi_inc m h e =
      ground (arith, o.lt_trans (key_of m) lo hi, o.eq_left (key_of m) lo hi)

  slice_test :
      (lo hi : K) (lo_inc hi_inc : Bool) (ms : List (Message K V))
      → select (λ m. not (starts_after lo lo_inc m) && ends_after hi hi_inc m) ms
        ≡ select (λ m. in_slice lo hi lo_inc hi_inc (key_of m)) ms
  slice_test lo hi lo_inc hi_inc [] = refl
  slice_test lo hi lo_inc hi_inc (m ∷ ms) = ground (arith, slice_test lo hi lo_inc hi_inc ms)

  starts-IsPartitioned :
      (ms : List (Message K V)) (lo : K) (lo_inc : Bool)
      → IsBufferSorted ms
      → IsPartitioned (starts_after lo lo_inc) ms
  starts-IsPartitioned ms lo true s = IsBufferSorted-IsPartitioned ms lo s
  starts-IsPartitioned ms lo false s = le-IsPartitioned ms lo s

  ends-IsPartitioned :
      (ms : List (Message K V)) (hi : K) (hi_inc : Bool)
      → IsBufferSorted ms
      → IsPartitioned (ends_after hi hi_inc) ms
  ends-IsPartitioned ms hi true s = le-IsPartitioned ms hi s
  ends-IsPartitioned ms hi false s = IsBufferSorted-IsPartitioned ms hi s

  start_count :
      (ms : List (Message K V)) (lo : K) (lo_inc : Bool)
      → IsBufferSorted ms
      → (let first = buffer_position ms lo in
          if lo_inc then first else scan_while (λ x. is_eq (o.cmp (key_of x) lo)) ms first)
        ≡ prefix_count (starts_after lo lo_inc) ms
  start_count ms lo true s =
      rw
        (binary_search_lem (λ m. is_lt (o.cmp (key_of m) lo)) ms
          (IsBufferSorted-IsPartitioned ms lo s))
        refl
  start_count ms lo false s =
      rw
        (binary_search_lem (λ m. is_lt (o.cmp (key_of m) lo)) ms
          (IsBufferSorted-IsPartitioned ms lo s))
        (scan_while-le ms lo s)

  end_count :
      (ms : List (Message K V)) (hi : K) (hi_inc : Bool)
      → IsBufferSorted ms
      → (let last = buffer_position ms hi in
          if hi_inc then scan_while (λ x. is_eq (o.cmp (key_of x) hi)) ms last else last)
        ≡ prefix_count (ends_after hi hi_inc) ms
  end_count ms hi true s =
      rw
        (binary_search_lem (λ m. is_lt (o.cmp (key_of m) hi)) ms
          (IsBufferSorted-IsPartitioned ms hi s))
        (scan_while-le ms hi s)
  end_count ms hi false s =
      rw
        (binary_search_lem (λ m. is_lt (o.cmp (key_of m) hi)) ms
          (IsBufferSorted-IsPartitioned ms hi s))
        refl

  -- For bounds in order, and with a buffer marked sorted only if it is, `bufferSlice` returns the
  -- messages of the linear scan, in the same order, whichever bounds are included.
  pub buffer_slice_lem :
      (ms : List (Message K V)) (is_sorted : Bool) (lo hi : K) (lo_inc hi_inc : Bool)
      → (is_sorted ≡ true → IsBufferSorted ms)
      → lo ≺ hi
      → buffer_slice ms is_sorted lo hi lo_inc hi_inc ≡ buffer_slice_scan ms lo hi lo_inc hi_inc
  unfolding buffer_slice buffer_slice_scan
  buffer_slice_lem [] is_sorted lo hi lo_inc hi_inc s h = refl
  buffer_slice_lem (m ∷ ms) false lo hi lo_inc hi_inc s h = refl
  buffer_slice_lem (m ∷ ms) true lo hi lo_inc hi_inc s h =
      let b = s refl in
      rw (start_count (m ∷ ms) lo lo_inc b, end_count (m ∷ ms) hi hi_inc b)
        (empty_cut (prefix_count (starts_after lo lo_inc) (m ∷ ms))
            (prefix_count (ends_after hi hi_inc) (m ∷ ms))
            (drop (prefix_count (starts_after lo lo_inc) (m ∷ ms)) (m ∷ ms))
          ∙ between_lem (starts_after lo lo_inc) (ends_after hi hi_inc) (m ∷ ms)
              (starts-IsPartitioned (m ∷ ms) lo lo_inc b) (ends-IsPartitioned (m ∷ ms) hi hi_inc b)
              (λ x. slice_order lo hi lo_inc hi_inc x h)
          ∙ slice_test lo hi lo_inc hi_inc (m ∷ ms))
