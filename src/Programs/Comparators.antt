-- ===== src/Programs/Comparators.antt =====
-- The comparators of examples/comparator, eviction, leaderboard and ratelimiter, and the order of Go's
-- strings, on their bytes, and of its integers.
pub mod Laws
use fractaltree.Prelude.{
  ℕ, ◌+◌, Bool, true, false, compare, Ordering, lt, eq, gt, List, [], ◌∷◌, if◌then◌else◌,
}
use fractaltree.Prelude.Int.{ℤ, pos_part, neg_part}
use fractaltree.Order.{is_lt, is_gt}
use fractaltree.Codec.{Bytes}

-- `if c := first; c != 0 { return c }`, and then the second
abbrev pub then_compare : Ordering → Ordering → Ordering
then_compare lt c = lt
then_compare eq c = c
then_compare gt c = gt

-- the order of strings, byte by byte
abbrev pub compare_text : Bytes → Bytes → Ordering
compare_text [] [] = eq
compare_text [] (y ∷ ys) = lt
compare_text (x ∷ xs) [] = gt
compare_text (x ∷ xs) (y ∷ ys) = then_compare (compare x y) (compare_text xs ys)

abbrev pub compare_int : ℤ → ℤ → Ordering
compare_int a b = compare (pos_part a + neg_part b) (pos_part b + neg_part a)

pub record TenantKey : Type 0 where
  pub tenant : Bytes
  pub id : ℤ

unfoldable pub compare_tenant_keys : TenantKey → TenantKey → Ordering
compare_tenant_keys a b = then_compare (compare_text a.tenant b.tenant) (compare_int a.id b.id)

pub record CacheEntry : Type 0 where
  pub last_access : ℤ
  pub key : Bytes

unfoldable pub compare_cache_entries : CacheEntry → CacheEntry → Ordering
compare_cache_entries a b =
    then_compare (compare_int a.last_access b.last_access) (compare_text a.key b.key)

-- `Entry` of the leaderboard
pub record Entry : Type 0 where
  pub score : ℤ
  pub name : Bytes

unfoldable pub compare_entries : Entry → Entry → Ordering
compare_entries a b = then_compare (compare_int b.score a.score) (compare_text a.name b.name)

pub record BucketKey : Type 0 where
  pub client : Bytes
  pub second : ℤ

unfoldable pub compare_bucket_keys : BucketKey → BucketKey → Ordering
compare_bucket_keys a b =
    if is_lt (compare_text a.client b.client)
    then lt
    else if is_gt (compare_text a.client b.client)
    then gt
    else if is_lt (compare_int a.second b.second)
    then lt
    else if is_gt (compare_int a.second b.second)
    then gt
    else eq
