-- ===== src/Programs/PrefixScan.antt =====
-- examples/prefixscan/main.go: the keys that start with a prefix are the keys of a range, since `;` is the
-- byte after `:`.
pub mod Laws
use fractaltree.Prelude.{ℕ, ◌+◌, ◌-◌, true, List, [], ◌∷◌, ◌++◌, length, take}
use fractaltree.Codec.{Bytes}
use fractaltree.Tree.{BeTree}
use fractaltree.Sequence.{Yield, range}
use fractaltree.Programs.Comparators.Laws.{text_ord}

abbrev pub colon : ℕ
colon = 58

abbrev pub semicolon : ℕ
semicolon = 59

-- `p[:len(p)-1]+";"`
abbrev pub end_of : Bytes → Bytes
end_of p = take (length p - 1) p ++ semicolon ∷ []

module _ {κ} {V : Type κ} where
  -- `count++`
  abbrev pub count_pair : Yield Bytes V ℕ
  count_pair k v count = (count + 1, true)

  -- the loop over the range of a prefix
  unfoldable pub count_prefix : BeTree Bytes V → Bytes → ℕ
  unfolding range
  count_prefix t p = range ⦃o = text_ord⦄ t p (end_of p) count_pair 0
