-- ===== src/Programs/Comparators/Laws.antt =====
-- The comparators of the examples meet the contract of NewWithCompare.
use mathlib.Core.Path.{fun_ext}
use fractaltree.Prelude.{◌≡◌, refl, ap, ap₂, subst, Ordering, lt, eq, gt, [], ◌∷◌, arith}
use fractaltree.Prelude.Int.{ℤ, eq_of_parts}
use fractaltree.Order.{Ord, eq_right, compare_self}
use fractaltree.Codec.{Bytes}
use fractaltree.Programs.Comparators.{
  then_compare, compare_text, compare_int, compare_tenant_keys, compare_cache_entries,
  compare_entries, compare_bucket_keys,
}

-- the comparison of an order that meets the contract
abbrev pub IsComparator {ℓ} : {K : Type ℓ} → (K → K → Ordering) → Type ℓ
IsComparator {K = K} cmp = (o : Ord K) × (o.cmp ≡ cmp)

pub text_self : (a : Bytes) → compare_text a a ≡ eq
text_self [] = refl
text_self (x ∷ a) = ground (arith, compare_self x, text_self a)

pub text_equal : (a b : Bytes) → compare_text a b ≡ eq → a ≡ b
text_equal [] [] h = refl
text_equal [] (y ∷ b) h = absurd (ground arith)
text_equal (x ∷ a) [] h = absurd (ground arith)
text_equal (x ∷ a) (y ∷ b) h = ap₂ (λ u v. u ∷ v) (ground arith) (text_equal a b (ground arith))

pub text_swap :
    (a b : Bytes)
    → (compare_text a b ≡ lt → compare_text b a ≡ gt)
      × (compare_text a b ≡ gt → compare_text b a ≡ lt)
text_swap [] [] = ground arith
text_swap [] (y ∷ b) = ground arith
text_swap (x ∷ a) [] = ground arith
text_swap (x ∷ a) (y ∷ b) = ground (arith, text_swap a b)

pub text_chain :
    (a b c : Bytes) → compare_text a b ≡ lt → compare_text b c ≡ lt → compare_text a c ≡ lt
text_chain [] b [] g h = absurd (ground (arith, text_swap [] b))
text_chain [] b (z ∷ c) g h = refl
text_chain (x ∷ a) [] c g h = absurd (ground arith)
text_chain (x ∷ a) (y ∷ b) [] g h = absurd (ground arith)
text_chain (x ∷ a) (y ∷ b) (z ∷ c) g h = ground (arith, text_chain a b c)

unfoldable pub text_ord : Ord Bytes
text_ord = record {
  cmp = compare_text;
  eq_left = λ a b c e. ap (λ t. compare_text t c) (text_equal a b e);
  eq_sym = λ a b e. subst (λ t. compare_text t a ≡ eq) (text_equal a b e) (text_self a);
  cmp_refl = text_self;
  lt_trans = text_chain;
  gt_of_lt = λ a b. (text_swap a b).0;
  lt_of_gt = λ a b. (text_swap a b).1;
}

int_swap :
    (a b : ℤ)
    → (compare_int a b ≡ lt → compare_int b a ≡ gt) × (compare_int a b ≡ gt → compare_int b a ≡ lt)
int_swap a b = ground arith

int_chain : (a b c : ℤ) → compare_int a b ≡ lt → compare_int b c ≡ lt → compare_int a c ≡ lt
int_chain a b c g h = ground arith

int_equal : (a b : ℤ) → compare_int a b ≡ eq → a ≡ b
int_equal a b h = eq_of_parts a b (ground arith)

int_self : (a : ℤ) → compare_int a a ≡ eq
int_self a = ground arith

abbrev int_ord : Ord ℤ
int_ord = record {
  cmp = compare_int;
  eq_left = λ a b c e. ap (λ t. compare_int t c) (int_equal a b e);
  eq_sym = λ a b e. subst (λ t. compare_int t a ≡ eq) (int_equal a b e) (int_self a);
  cmp_refl = int_self;
  lt_trans = int_chain;
  gt_of_lt = λ a b. (int_swap a b).0;
  lt_of_gt = λ a b. (int_swap a b).1;
}

module _ {ℓ} {K : Type ℓ} where
  -- the descending order
  abbrev reverse_ord : Ord K → Ord K
  reverse_ord o = record {
    cmp = λ a b. o.cmp b a;
    eq_left = λ a b c e. eq_right ⦃o = o⦄ a b c (o.eq_sym b a e);
    eq_sym = λ a b e. o.eq_sym b a e;
    cmp_refl = o.cmp_refl;
    lt_trans = λ a b c g h. o.lt_trans c b a h g;
    gt_of_lt = λ a b. o.gt_of_lt b a;
    lt_of_gt = λ a b. o.lt_of_gt b a;
  }

module _ {ℓ κ} {K : Type ℓ} {A : Type κ} where
  -- the order by a part of the key
  abbrev ord_by : (K → A) → Ord A → Ord K
  ord_by f o = record {
    cmp = λ a b. o.cmp (f a) (f b);
    eq_left = λ a b c. o.eq_left (f a) (f b) (f c);
    eq_sym = λ a b. o.eq_sym (f a) (f b);
    cmp_refl = λ a. o.cmp_refl (f a);
    lt_trans = λ a b c. o.lt_trans (f a) (f b) (f c);
    gt_of_lt = λ a b. o.gt_of_lt (f a) (f b);
    lt_of_gt = λ a b. o.lt_of_gt (f a) (f b);
  }

module _ {ℓ} {K : Type ℓ} (o p : Ord K) where
  abbrev two_compare : K → K → Ordering
  two_compare a b = then_compare (o.cmp a b) (p.cmp a b)

  two_left : (a b c : K) → two_compare a b ≡ eq → two_compare a c ≡ two_compare b c
  two_left a b c e = ground (arith, o.eq_left a b c, p.eq_left a b c)

  two_chain : (a b c : K) → two_compare a b ≡ lt → two_compare b c ≡ lt → two_compare a c ≡ lt
  two_chain a b c g h =
      ground (arith, o.lt_trans a b c, p.lt_trans a b c, o.eq_left a b c, eq_right ⦃o = o⦄ b c a)

  two_self : (a : K) → two_compare a a ≡ eq
  two_self a = ground (arith, o.cmp_refl a, p.cmp_refl a)

  two_swap :
      (a b : K)
      → (two_compare a b ≡ eq → two_compare b a ≡ eq)
        × (two_compare a b ≡ lt → two_compare b a ≡ gt)
        × (two_compare a b ≡ gt → two_compare b a ≡ lt)
  two_swap a b = ground (
    arith,
    o.eq_sym a b,
    p.eq_sym a b,
    o.gt_of_lt a b,
    p.gt_of_lt a b,
    o.lt_of_gt a b,
    p.lt_of_gt a b,
  )

  -- one order, then the other where the first finds no difference
  abbrev two_ord : Ord K
  two_ord = record {
    cmp = two_compare;
    eq_left = two_left;
    eq_sym = λ a b. (two_swap a b).0;
    cmp_refl = two_self;
    lt_trans = two_chain;
    gt_of_lt = λ a b. (two_swap a b).1;
    lt_of_gt = λ a b. (two_swap a b).2;
  }

-- The comparators of the four examples meet the contract that NewWithCompare documents: each is a
-- total preorder.
pub examples-IsComparator :
    IsComparator compare_tenant_keys
    × IsComparator compare_cache_entries
    × IsComparator compare_entries
    × IsComparator compare_bucket_keys
unfolding text_ord compare_tenant_keys compare_cache_entries compare_entries compare_bucket_keys
examples-IsComparator = (
  (two_ord (ord_by (λ k. k.tenant) text_ord) (ord_by (λ k. k.id) int_ord), refl),
  (two_ord (ord_by (λ k. k.last_access) int_ord) (ord_by (λ k. k.key) text_ord), refl),
  (two_ord (ord_by (λ k. k.score) (reverse_ord int_ord)) (ord_by (λ k. k.name) text_ord), refl),
  (
    two_ord (ord_by (λ k. k.client) text_ord) (ord_by (λ k. k.second) int_ord),
    fun_ext (λ a. fun_ext (λ b. ground arith)),
  ),
)
