-- ===== src/Order.antt =====
-- tree.go, the comparator that NewWithCompare takes: negative, zero and positive are `lt`, `eq`
-- and `gt`, since the code only ever reads the sign. Two keys may compare equal and yet differ.
use fractaltree.Prelude.{◌≡◌, ◌≢◌, Bool, true, false, Ordering, lt, eq, gt, arith}
use fractaltree.Prelude.{ℕ, compare}

-- The comparator with its documented contract, a total preorder. Keys that compare equal need not be
-- equal; they compare alike with every other key.
pub record Ord {ℓ} (K : Type ℓ) : Type ℓ where
  pub cmp : K → K → Ordering
  pub eq_left : (a b c : K) → cmp a b ≡ eq → cmp a c ≡ cmp b c
  pub eq_sym : (a b : K) → cmp a b ≡ eq → cmp b a ≡ eq
  pub cmp_refl : (a : K) → cmp a a ≡ eq
  pub lt_trans : (a b c : K) → cmp a b ≡ lt → cmp b c ≡ lt → cmp a c ≡ lt
  pub gt_of_lt : (a b : K) → cmp a b ≡ lt → cmp b a ≡ gt
  pub lt_of_gt : (a b : K) → cmp a b ≡ gt → cmp b a ≡ lt

pub compare_alike : (a b c : ℕ) → compare a b ≡ eq → compare a c ≡ compare b c
compare_alike a b c = ground arith

pub compare_chain : (a b c : ℕ) → compare a b ≡ lt → compare b c ≡ lt → compare a c ≡ lt
compare_chain a b c = ground arith

pub compare_swap :
    (a b : ℕ)
    → (compare a b ≡ eq → compare b a ≡ eq)
      × (compare a b ≡ lt → compare b a ≡ gt)
      × (compare a b ≡ gt → compare b a ≡ lt)
compare_swap a b = ground arith

pub compare_self : (a : ℕ) → compare a a ≡ eq
compare_self a = ground arith

-- `cmp.Compare` on unsigned keys, the comparator of `New`.
instance unfoldable pub nat_ord : Ord ℕ
nat_ord = record {
  cmp = compare;
  eq_left = compare_alike;
  eq_sym = λ a b. (compare_swap a b).0;
  cmp_refl = compare_self;
  lt_trans = compare_chain;
  gt_of_lt = λ a b. (compare_swap a b).1;
  lt_of_gt = λ a b. (compare_swap a b).2;
}

-- tests on the sign of a comparison
abbrev pub is_lt : Ordering → Bool
is_lt lt = true
is_lt _ = false

abbrev pub is_le : Ordering → Bool
is_le gt = false
is_le _ = true

abbrev pub is_eq : Ordering → Bool
is_eq eq = true
is_eq _ = false

abbrev pub is_gt : Ordering → Bool
is_gt gt = true
is_gt _ = false

module _ {ℓ} {K : Type ℓ} ⦃o : Ord K⦄ where
  infix 50 ◌≺◌ ◌≼◌
  abbrev pub ◌≺◌ : K → K → Type 0
  a ≺ b = o.cmp a b ≡ lt

  -- `a ≤ b`, as "not b < a"
  abbrev pub ◌≼◌ : K → K → Type 0
  a ≼ b = o.cmp a b ≢ gt

  pub eq_right : (a b c : K) → o.cmp a b ≡ eq → o.cmp c a ≡ o.cmp c b
  eq_right a b c e = ground (
    arith,
    o.eq_left a b c,
    o.lt_of_gt c a,
    o.lt_of_gt c b,
    o.gt_of_lt c a,
    o.gt_of_lt c b,
    o.eq_sym c a,
    o.eq_sym c b,
    o.lt_of_gt a c,
    o.lt_of_gt b c,
    o.gt_of_lt a c,
    o.gt_of_lt b c,
    o.eq_sym a c,
    o.eq_sym b c,
  )

  pub le_lt_trans : (a b c : K) → a ≼ b → b ≺ c → a ≺ c
  le_lt_trans a b c p q = ground (arith, o.eq_left a b c, o.lt_trans a b c)

  pub lt_le_trans : (a b c : K) → a ≺ b → b ≼ c → a ≺ c
  lt_le_trans a b c p q = ground (arith, eq_right b c a, o.lt_trans a b c)

  pub le_trans : (a b c : K) → a ≼ b → b ≼ c → a ≼ c
  le_trans a b c p q = ground (arith, o.eq_left a b c, eq_right b c a, o.lt_trans a b c)

  pub le_of_not_lt : (a b : K) → ¬ (a ≺ b) → b ≼ a
  le_of_not_lt a b h e = h (o.lt_of_gt b a e)

  pub not_lt_of_le : (a b : K) → a ≼ b → ¬ (b ≺ a)
  not_lt_of_le a b h e = h (o.gt_of_lt b a e)
