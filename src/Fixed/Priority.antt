-- ===== src/Fixed/Priority.antt =====
-- `new_priority`, `new_load_avg` and `new_recent_cpu` of threads/thread.c.
use project_pintos.Base.{◌≡◌, refl, if◌then◌else◌, Option, none, some}
use project_pintos.Base.Int.{ℤ, pos, ◌+ℤ◌, ◌-ℤ◌, ◌*ℤ◌, ltb_ℤ}
use project_pintos.Base.Word.{wrap32, quot_ℤ}
use project_pintos.Fixed.{
  int_to_fp, round_toward_zero, fp_add_fp, fp_sub_fp, fp_add_int, fp_mul_fp, fp_mul_int, fp_div_fp,
  fp_div_int,
}

infixl 5 ◌>>=◌
abbrev ◌>>=◌ {ℓ κ} : {A : Type ℓ} {B : Type κ} → Option A → (A → Option B) → Option B
none >>= f = none
some a >>= f = f a

abbrev pub pri_min : ℤ
pri_min = pos 0

abbrev pub pri_default : ℤ
pri_default = pos 31

abbrev pub pri_max : ℤ
pri_max = pos 63

-- The clamp that ends `new_priority`.
unfoldable pub clamp_priority : ℤ → ℤ
clamp_priority p = if ltb_ℤ pri_max p then pri_max else if ltb_ℤ p pri_min then pri_min else p

unfoldable pub new_priority : ℤ → ℤ → Option ℤ
new_priority recent_cpu nice = do
  quarter ← fp_div_int recent_cpu (pos 4)
  let level =
      fp_sub_fp (fp_sub_fp (int_to_fp pri_max) quarter) (fp_mul_int (int_to_fp nice) (pos 2))
  some (clamp_priority (round_toward_zero level))

unfoldable pub new_load_avg : ℤ → ℤ → Option ℤ
new_load_avg old_load_avg ready_threads = do
  keep ← fp_div_fp (int_to_fp (pos 59)) (int_to_fp (pos 60))
  take ← fp_div_fp (int_to_fp (pos 1)) (int_to_fp (pos 60))
  some (fp_add_fp (fp_mul_fp keep old_load_avg) (fp_mul_int take ready_threads))

-- `load_avg` is a variable of the file.
unfoldable pub new_recent_cpu : ℤ → ℤ → ℤ → Option ℤ
new_recent_cpu load_avg recent_cpu nice = do
  decay ← fp_div_fp (fp_mul_int load_avg (pos 2)) (fp_add_int (fp_mul_int load_avg (pos 2)) (pos 1))
  some (fp_add_int (fp_mul_fp decay recent_cpu) nice)

-- At the defaults of a new thread the priority is the highest.
new_priority_default : new_priority (pos 0) (pos 0) ≡ some (pos 63)
unfolding new_priority clamp_priority fp_div_int fp_sub_fp int_to_fp fp_mul_int round_toward_zero
    wrap32 quot_ℤ ◌-ℤ◌ ◌*ℤ◌
new_priority_default = refl

load_test : new_load_avg (pos 0) (pos 1) ≡ some (pos 273)
unfolding new_load_avg fp_div_fp fp_add_fp fp_mul_fp int_to_fp fp_mul_int wrap32 quot_ℤ ◌+ℤ◌ ◌*ℤ◌
load_test = refl
