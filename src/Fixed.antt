-- ===== src/Fixed.antt =====
-- threads/fixed_point.h: 17.14 fixed-point numbers in an `int`, and the formulas of the advanced
-- scheduler at the end of threads/thread.c. Every `int` result is wrapped to 32 bits; the products
-- and the shifted dividend are taken in `int64_t`, where they fit.
pub mod Priority
pub mod Laws
pub mod Load
use project_pintos.Base.{
  ℕ, zero, ◌+◌, ◌*◌, ◌^◌, Bool, true, false, if◌then◌else◌, Option, none, some,
}
use project_pintos.Base.Int.{ℤ, pos, negsuc, ◌+ℤ◌, ◌-ℤ◌, ◌*ℤ◌, ltb_ℤ, sub_ℕ}
use project_pintos.Base.Word.{wrap32, quot_ℤ}

-- `F`, one.
abbrev pub f_one : ℕ
f_one = 2 ^ 14

unfoldable pub int_to_fp : ℤ → ℤ
int_to_fp n = wrap32 (n *ℤ pos f_one)

unfoldable pub round_toward_zero : ℤ → ℤ
round_toward_zero x = wrap32 (quot_ℤ x (pos f_one))

unfoldable pub round_to_nearest : ℤ → ℤ
round_to_nearest x =
    if ltb_ℤ x (pos 0)
    then wrap32 (quot_ℤ (wrap32 (x -ℤ pos 8192)) (pos f_one))
    else wrap32 (quot_ℤ (wrap32 (x +ℤ pos 8192)) (pos f_one))

unfoldable pub fp_add_fp : ℤ → ℤ → ℤ
fp_add_fp x y = wrap32 (x +ℤ y)

unfoldable pub fp_sub_fp : ℤ → ℤ → ℤ
fp_sub_fp x y = wrap32 (x -ℤ y)

unfoldable pub fp_add_int : ℤ → ℤ → ℤ
fp_add_int x n = wrap32 (x +ℤ wrap32 (n *ℤ pos f_one))

unfoldable pub fp_sub_int : ℤ → ℤ → ℤ
fp_sub_int x n = wrap32 (x -ℤ wrap32 (n *ℤ pos f_one))

unfoldable pub fp_mul_fp : ℤ → ℤ → ℤ
fp_mul_fp x y = wrap32 (quot_ℤ (x *ℤ y) (pos f_one))

unfoldable pub fp_mul_int : ℤ → ℤ → ℤ
fp_mul_int x n = wrap32 (x *ℤ n)

-- `none` is the fault of a division by zero.
unfoldable pub fp_div_fp : ℤ → ℤ → Option ℤ
fp_div_fp x (pos zero) = none
fp_div_fp x y = some (wrap32 (quot_ℤ (x *ℤ pos f_one) y))

unfoldable pub fp_div_int : ℤ → ℤ → Option ℤ
fp_div_int x (pos zero) = none
fp_div_int x n = some (wrap32 (quot_ℤ x n))
