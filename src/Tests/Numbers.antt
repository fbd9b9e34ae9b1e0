-- ===== src/Tests/Numbers.antt =====
-- The theorems on the numbers of the advanced scheduler, on the queue of devices/intq.c, and on files
-- on disk (filesys/inode.c), at small values.
use project_pintos.Base.{
  ℕ, ◌+◌, ◌*◌, ◌/◌, ◌^◌, ◌≤◌, ◌≡◌, refl, [], ◌∷◌, ◌++◌, some, arith, replicate,
}
use project_pintos.Base.Int.{pos}
use project_pintos.Fixed.Priority.{new_load_avg}
use project_pintos.Fixed.Load.{new_load_avg_bounded}
use project_pintos.Synch.{lock_init}
use project_pintos.Intq.{Intq}
use project_pintos.Intq.Queue.{IsQueue}

new_load_avg_bounded_example :
    (v : ℕ) × (new_load_avg (pos 16384) (pos 2) ≡ some (pos v))
    × (v ≡ 16110 * 16384 / 2 ^ 14 + 273 * 2)
    × (v ≤ 3 * 2 ^ 14)
new_load_avg_bounded_example =
    new_load_avg_bounded 3 16384 2 (omega arith) (omega arith) (omega arith)

-- A queue that holds the bytes 7 and 8 across the end of its buffer.
abbrev wrapped : Intq
wrapped = record {
  lock = lock_init;
  not_full = 0;
  not_empty = 0;
  buf = 8 ∷ (replicate 62 0 ++ (7 ∷ []));
  head = 1;
  tail = 63;
}

wrapped-IsQueue : IsQueue wrapped
wrapped-IsQueue = record { storage = refl; head_in = omega arith; tail_in = omega arith }
