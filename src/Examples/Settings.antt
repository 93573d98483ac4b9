-- ===== src/Examples/Settings.antt =====
-- options.go with percentages in place of floating-point numbers.
use fractaltree.Prelude.{
  ℕ, true, refl, false, ◌-◌, ◌/◌, ◌≡◌, not, ◌&&◌, some, is_some, List, [], ◌∷◌, leb, ltb, ◌==◌,
}
use fractaltree.Prelude.Int.{pos, pos_part, ltb_ℤ}
use fractaltree.Order.{Ord, nat_ord}
use fractaltree.Client.{put_op, absent_op}
use fractaltree.Client.Calls.{
  Call, point_call, delete_range_call, ascend_call, all_call, cursor_call,
}
use fractaltree.Client.Made.{KeepsFaith, new_with_compare-KeepsFaith}
use fractaltree.Examples.Data.{nat_zero}
use fractaltree.Options.{
  Floats, Setting, with_epsilon, with_block_size, resolve_options, validate_options,
  new_with_compare,
}
use fractaltree.Options.Laws.{is_made, IsReady, is_made-new_with_compare, new_with_compare-IsReady}

abbrev pub percent : Floats ℕ
percent = record {
  zero_float = 0;
  one_float = 100;
  default_epsilon = 50;
  is_at_most = leb;
  is_greater = λ a b. ltb b a;
  minus = λ a b. a - b;
  pow = λ b e. b / (101 - e);
  of_int = pos_part;
  to_int = pos;
}

abbrev settings : List (Setting ℕ)
settings = with_epsilon 80 ∷ with_block_size (pos 16) ∷ []

is_made-new_with_compare_example :
    is_made {V = ℕ} (new_with_compare percent (some nat_ord) settings)
    ≡ is_some {A = Ord ℕ} (some nat_ord)
      && not (leb (resolve_options percent settings).epsilon 0)
      && not (ltb 100 (resolve_options percent settings).epsilon)
      && not (ltb_ℤ (resolve_options percent settings).block_size (pos 2))
is_made-new_with_compare_example = is_made-new_with_compare ℕ percent (some nat_ord) settings

new_with_compare-IsReady_example :
    IsReady {V = ℕ} (new_with_compare percent (some nat_ord) settings)
new_with_compare-IsReady_example = new_with_compare-IsReady ℕ percent (some nat_ord) settings

-- these settings are accepted
settings_made : is_made {V = ℕ} (new_with_compare percent (some nat_ord) settings) ≡ true
unfolding new_with_compare resolve_options validate_options
settings_made = refl

abbrev requests : List (Call ℕ ℕ)
requests =
    point_call (put_op 5 50)
    ∷ point_call (put_op 2 20)
    ∷ point_call (absent_op 2 21)
    ∷ delete_range_call 3 7
    ∷ ascend_call (λ e. false)
    ∷ all_call (λ e. e.0 == 2)
    ∷ cursor_call
    ∷ []

new_with_compare-KeepsFaith_example :
    KeepsFaith requests (new_with_compare percent (some nat_ord) settings)
new_with_compare-KeepsFaith_example =
    new_with_compare-KeepsFaith percent (some nat_ord) settings requests
