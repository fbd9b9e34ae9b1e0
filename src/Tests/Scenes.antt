-- ===== src/Tests/Scenes.antt =====
-- A small kernel: thread 2 runs, thread 3 is ready, thread 4 sleeps until tick 10, thread 5 waits for
-- a semaphore, and thread 1 is the idle thread.
use mathlib.Core.List.{Mem, Nodup, mem-cons, Nodup-cons, not-mem-nil, Nodup-nil}
use mathlib.Core.Logic.Or
use project_pintos.Base.{ℕ, ◌≢◌, refl, ◌==◌, true, false, if◌then◌else◌, [], ◌∷◌, arith}
use project_pintos.Base.Int.{pos}
use project_pintos.ListAlgo.{is_sorted}
use project_pintos.Sched.{Kernel, Thread, Status, running, ready, blocked, thread_magic}
use project_pintos.Sched.Valid.{IsValid, HasStatus, HasStatus-prop}

abbrev pub thread : ℕ → Status → ℕ → ℕ → Thread
thread tid status priority alarm = record {
  tid = tid;
  status = status;
  priority = pos priority;
  alarm_ticks = pos alarm;
  recent_cpu = pos 0;
  nice = pos 0;
  magic = thread_magic;
}

abbrev pub table : ℕ → Thread
table t =
    if t == 1
    then thread 2 blocked 0 0
    else if t == 2
    then thread 1 running 31 0
    else if t == 3
    then thread 3 ready 20 0
    else if t == 4
    then thread 4 blocked 40 10
    else thread 5 blocked 50 0

abbrev pub scene : Kernel
scene = record {
  threads = table;
  current = 2;
  ready_list = 3 ∷ [];
  sleep_list = 4 ∷ [];
  all_list = 2 ∷ 1 ∷ 3 ∷ 4 ∷ 5 ∷ [];
  idle_thread = 1;
  initial_thread = 2;
  free_pages = [];
  next_tid = 6;
  load_avg = pos 0;
  idle_ticks = 0;
  kernel_ticks = 0;
  thread_ticks = 0;
  ticks = 9;
  intr_on = false;
  in_external_intr = false;
  yield_on_return = false;
  thread_mlfqs = false;
  thread_prior_aging = true;
}

one_member : (s : Status) (x t : ℕ) → HasStatus table s x → Mem t (x ∷ []) → HasStatus table s t
one_member s x t h e =
    Or.elim (HasStatus-prop table s t) (mem-cons.0 e) (λ q. rw q h) (λ r. absurd (not-mem-nil r))

pub other_member : (x t : ℕ) → x ≢ t → ¬ Mem t (x ∷ [])
other_member x t h e = Or.elim (λ a b. absurd a) (mem-cons.0 e) (λ q. h (ground arith)) not-mem-nil

one_distinct : (x : ℕ) → Nodup (x ∷ [])
one_distinct x = Nodup-cons.1 (not-mem-nil, Nodup-nil)

pub scene-IsValid : IsValid scene
unfolding is_sorted
scene-IsValid = record {
  current_runs = ground arith;
  idle_alive = ground arith;
  queue = record {
    members = λ t e. one_member ready 3 t (ground arith) e;
    distinct = one_distinct 3;
    sorted = refl;
    no_idle = other_member 3 1 (omega arith);
  };
  sleepers = record {
    members = λ t e. one_member blocked 4 t (ground arith) e;
    distinct = one_distinct 4;
    sorted = refl;
  };
  idle_awake = other_member 4 1 (omega arith);
}
