-- ===== src/Options.antt =====
-- options.go, errors.go and NewWithCompare of tree.go: how a tree is configured and made. The
-- floating-point arithmetic of Go and math.Pow are an argument.
pub mod Laws
use fractaltree.Prelude.{ℕ, Bool, ◌||◌, Option, none, some, List, [], ◌∷◌, if◌then◌else◌, ltb}
use fractaltree.Prelude.Int.{ℤ, pos, pos_part, ltb_ℤ}
use fractaltree.Order.{Ord}
use fractaltree.Flush.{TreeParams}
use fractaltree.Tree.{BeTree, new}

-- the operations of float64 that the code uses
pub record Floats {ℓ} (F : Type ℓ) : Type ℓ where
  pub zero_float : F
  pub one_float : F
  pub default_epsilon : F
  pub is_at_most : F → F → Bool
  pub is_greater : F → F → Bool
  pub minus : F → F → F
  pub pow : F → F → F
  pub of_int : ℤ → F
  pub to_int : F → ℤ

-- the sentinel errors of the constructor
pub data OptionsError : Type 0 where
  invalid_epsilon : OptionsError
  nil_compare : OptionsError
  invalid_block_size : OptionsError

pub record Options {ℓ} (F : Type ℓ) : Type ℓ where
  pub epsilon : F
  pub block_size : ℤ

-- the type `Option`, a function on the options
abbrev pub Setting {ℓ} : Type ℓ → Type ℓ
Setting F = Options F → Options F

module _ {ℓ} {F : Type ℓ} where
  abbrev pub with_epsilon : F → Setting F
  with_epsilon eps options = record options { epsilon = eps }

  abbrev pub with_block_size : ℤ → Setting F
  with_block_size size options = record options { block_size = size }

  abbrev pub apply_settings : List (Setting F) → Options F → Options F
  apply_settings [] options = options
  apply_settings (f ∷ fs) options = apply_settings fs (f options)

-- `max(n, least)`; a negative `n` gives `least`
abbrev pub max_of : ℤ → ℕ → ℕ
max_of n least = if ltb least (pos_part n) then pos_part n else least

module _ {ℓ} {F : Type ℓ} (fl : Floats F) where
  abbrev pub default_options : Options F
  default_options = record { epsilon = fl.default_epsilon; block_size = pos 4096 }

  unfoldable pub resolve_options : List (Setting F) → Options F
  resolve_options fs = apply_settings fs default_options

  unfoldable pub validate_options : Options F → Option OptionsError
  validate_options options =
      if fl.is_at_most options.epsilon fl.zero_float || fl.is_greater options.epsilon fl.one_float
      then some invalid_epsilon
      else if ltb_ℤ options.block_size (pos 2)
      then some invalid_block_size
      else none

  -- The leaf capacity is the block size, which is at least 2 once it is validated.
  unfoldable pub derive_params : Options F → TreeParams
  derive_params options =
      let b = fl.of_int options.block_size in
      record {
        fanout = max_of (fl.to_int (fl.pow b options.epsilon)) 2;
        buffer_cap = max_of (fl.to_int (fl.pow b (fl.minus fl.one_float options.epsilon))) 1;
        leaf_cap = pos_part options.block_size;
      }

-- what the constructor returns
pub data Made {ℓ} (A : Type ℓ) : Type ℓ where
  failed : OptionsError → Made A
  made : A → Made A

module _ {ℓ κ μ} {K : Type ℓ} {V : Type κ} {F : Type μ} (fl : Floats F) where
  -- the tree and the comparator that it keeps, which is the instance of its operations
  unfoldable pub new_with_compare : Option (Ord K) → List (Setting F) → Made (BeTree K V × Ord K)
  unfolding resolve_options validate_options derive_params new
  new_with_compare none fs = failed nil_compare
  new_with_compare (some compare) fs =
      let options = resolve_options fl fs in
      elim (validate_options fl options) [
        | some e ↦ failed e
        | none ↦ made (new (derive_params fl options), compare)
      ]
