-- ===== src/Tests/Pages.antt =====
-- The theorems on the page allocator (threads/palloc.c), at two pools of 40 pages.
use project_pintos.Base.{ℕ, ◌≡◌, refl, [], ◌∷◌, some, arith}
use project_pintos.Bitmap.{Bitmap, bitmap_scan_and_flip, elem_cnt}
use project_pintos.Bitmap.View.{bit_at, IsBitmap}
use project_pintos.Palloc.{Pools, palloc_get_multiple, palloc_free_multiple}
use project_pintos.Palloc.Laws.{IsPools}
use project_pintos.Palloc.Free.{palloc_free_multiple-palloc_get_multiple}

-- The first two pages are in use.
abbrev used : Bitmap
used = record { bit_cnt = 40; bits = 3 ∷ 0 ∷ [] }

used-IsBitmap : IsBitmap used
unfolding elem_cnt
used-IsBitmap = record { storage = refl; small = omega arith }

abbrev pools : Pools
pools = record {
  kernel_pool = record { used_map = used; base = 8192 };
  user_pool = record { used_map = used; base = 172032 };
  memory = λ a. 7;
}

pools-IsPools : IsPools pools
pools-IsPools = record {
  kernel = record {
    map = used-IsBitmap;
    aligned = refl;
    not_null = omega arith;
    in_memory = omega arith;
  };
  user = record {
    map = used-IsBitmap;
    aligned = refl;
    not_null = omega arith;
    in_memory = omega arith;
  };
  apart = omega arith;
}

abbrev after : Pools
after = record pools {
  kernel_pool = record { used_map = record { bit_cnt = 40; bits = 63 ∷ 0 ∷ [] }; base = 8192 };
}

palloc_free_multiple-palloc_get_multiple_example :
    (s'' : Pools) × (palloc_free_multiple 16384 4 after ≡ some s'')
    × IsPools s''
    × ((j : ℕ) → bit_at s''.kernel_pool.used_map j ≡ bit_at used j)
    × (s''.user_pool ≡ pools.user_pool)
unfolding palloc_get_multiple bitmap_scan_and_flip
palloc_free_multiple-palloc_get_multiple_example =
    palloc_free_multiple-palloc_get_multiple 0 4 16384 pools after pools-IsPools (omega arith) refl
      (ground arith)
