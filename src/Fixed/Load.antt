-- ===== src/Fixed/Load.antt =====
-- The system load average and the recent CPU use of a thread stay in range.
use project_pintos.Base.{ℕ, zero, suc, ◌+◌, ◌*◌, ◌^◌, ◌≤◌, ◌<◌, ◌/◌, ◌≡◌, refl, ap, some, arith}
use project_pintos.Base.Int.{pos, ◌+ℤ◌, ◌*ℤ◌}
use project_pintos.Base.Word.{wrap32, quot_ℤ, wrap32-id}
use project_pintos.Fixed.{int_to_fp, fp_add_fp, fp_add_int, fp_mul_fp, fp_mul_int, fp_div_fp}
use project_pintos.Fixed.Priority.{new_load_avg, new_recent_cpu}

mul_pos : (a b : ℕ) → pos a *ℤ pos b ≡ pos (a * b)
unfolding ◌*ℤ◌
mul_pos a b = ground arith

add_pos : (a b : ℕ) → pos a +ℤ pos b ≡ pos (a + b)
unfolding ◌+ℤ◌
add_pos a b = ground arith

wrap_pos : (a : ℕ) → a < 2 ^ 31 → wrap32 (pos a) ≡ pos a
wrap_pos a h = wrap32-id (pos a) (omega arith)

keep_exact : fp_div_fp (int_to_fp (pos 59)) (int_to_fp (pos 60)) ≡ some (pos 16110)
unfolding fp_div_fp int_to_fp wrap32 quot_ℤ ◌*ℤ◌
keep_exact = refl

share_exact : fp_div_fp (int_to_fp (pos 1)) (int_to_fp (pos 60)) ≡ some (pos 273)
unfolding fp_div_fp int_to_fp wrap32 quot_ℤ ◌*ℤ◌
share_exact = refl

mul_fp_pos : (a b : ℕ) → a * b / 2 ^ 14 < 2 ^ 31 → fp_mul_fp (pos a) (pos b) ≡ pos (a * b / 2 ^ 14)
unfolding fp_mul_fp quot_ℤ
mul_fp_pos a b h = rw mul_pos (wrap_pos (a * b / 2 ^ 14) h)

mul_int_pos : (a b : ℕ) → a * b < 2 ^ 31 → fp_mul_int (pos a) (pos b) ≡ pos (a * b)
unfolding fp_mul_int
mul_int_pos a b h = rw mul_pos (wrap_pos (a * b) h)

add_fp_pos : (a b : ℕ) → a + b < 2 ^ 31 → fp_add_fp (pos a) (pos b) ≡ pos (a + b)
unfolding fp_add_fp
add_fp_pos a b h = rw add_pos (wrap_pos (a + b) h)

add_int_pos :
    (a b : ℕ) → a + b * 2 ^ 14 < 2 ^ 31 → fp_add_int (pos a) (pos b) ≡ pos (a + b * 2 ^ 14)
unfolding fp_add_int
add_int_pos a b h =
    rw (mul_pos, wrap_pos (b * 2 ^ 14) (omega arith), add_pos) (wrap_pos (a + b * 2 ^ 14) h)

-- With at most `peak` threads ready, fewer than 2 ^ 17 so that no product overflows an int, a load average
-- from 0 to `peak` stays at most `peak`, and the new value is 16110 / 16384 of the old one, rounded down, plus 273 / 16384 for each ready thread.
pub new_load_avg_bounded :
    (peak load ready : ℕ)
    → peak < 2 ^ 17
    → load ≤ peak * 2 ^ 14
    → ready ≤ peak
    → (v : ℕ) × (new_load_avg (pos load) (pos ready) ≡ some (pos v))
      × (v ≡ 16110 * load / 2 ^ 14 + 273 * ready)
      × (v ≤ peak * 2 ^ 14)
unfolding new_load_avg
new_load_avg_bounded peak load ready h hl hr = (
  16110 * load / 2 ^ 14 + 273 * ready,
  rw (keep_exact, share_exact)
      (ap some (
        rw (mul_fp_pos 16110 load (omega arith), mul_int_pos 273 ready (omega arith))
          (add_fp_pos _ _ (omega arith)))),
  refl,
  omega arith,
)

decay-le : (l : ℕ) → l * 2 ^ 14 / (l + 2 ^ 14) ≤ 2 ^ 14
decay-le l = grind arith

div_fp_pos :
    (a b : ℕ)
    → 0 < b
    → a * 2 ^ 14 / b < 2 ^ 31
    → fp_div_fp (pos a) (pos b) ≡ some (pos (a * 2 ^ 14 / b))
unfolding fp_div_fp quot_ℤ
div_fp_pos a zero p h = absurd (omega arith)
div_fp_pos a (suc b) p h = ap some (rw mul_pos (wrap_pos (a * 2 ^ 14 / suc b) h))

scaled-le : (d c : ℕ) → d ≤ 2 ^ 14 → d * c / 2 ^ 14 ≤ c
scaled-le d c h = grind arith

-- For a nonnegative load and use and a nice value from 0 to 20, small enough not to overflow: each
-- second the recent CPU use of a thread decays: it never grows beyond what the nice value adds.
pub new_recent_cpu_decays :
    (load cpu nice : ℕ)
    → load < 2 ^ 29
    → nice ≤ 20
    → cpu + nice * 2 ^ 14 < 2 ^ 31
    → (v : ℕ) × (new_recent_cpu (pos load) (pos cpu) (pos nice) ≡ some (pos v))
      × (nice * 2 ^ 14 ≤ v)
      × (v ≤ cpu + nice * 2 ^ 14)
unfolding new_recent_cpu
new_recent_cpu_decays load cpu nice hl hn h = (
  scaled + nice * 2 ^ 14,
  rw (mul_int_pos load 2 (omega arith), add_int_pos (load * 2) 1 (omega arith))
      (rw (div_fp_pos (load * 2) (load * 2 + 1 * 2 ^ 14) (omega arith) (omega (arith, decay_le))) (
        ap some (
          rw (mul_fp_pos decay cpu (omega (arith, scaled_le)))
            (add_int_pos scaled nice (omega (arith, scaled_le)))))),
  omega arith,
  omega (arith, scaled_le),
)
  where
    decay : ℕ
    decay = load * 2 * 2 ^ 14 / (load * 2 + 1 * 2 ^ 14)

    scaled : ℕ
    scaled = decay * cpu / 2 ^ 14

    decay_le : load * 2 * 2 ^ 14 / (load * 2 + 1 * 2 ^ 14) ≤ 2 ^ 14
    decay_le = decay-le (load * 2)

    scaled_le : decay * cpu / 2 ^ 14 ≤ cpu
    scaled_le = scaled-le decay cpu decay_le
