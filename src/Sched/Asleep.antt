-- ===== src/Sched/Asleep.antt =====
-- Going to sleep: thread_sleep of threads/thread.c and timer_sleep of devices/timer.c.
use mathlib.Core.List.{Perm}
use mathlib.Core.List.Perm
use mathlib.Core.Logic.Or
use project_pintos.Base.{ℕ, List}
use project_pintos.Base.Int.{ℤ}
use project_pintos.ListAlgo.{insert_ordered}
use project_pintos.Sched.{Kernel, Thread, blocked, update, set_status, alarm_ticks_comp}
use project_pintos.Sched.Valid.{IsValid}

module _ (k : Kernel) (v : IsValid k) (w : ℤ) where
  -- The threads with the alarm of the running one set, and the state in which it has left.
  abbrev alarmed : ℕ → Thread
  alarmed = update k.threads k.current (record (k.threads k.current) { alarm_ticks = w })

  abbrev sleeping : Kernel
  sleeping = record k {
    threads = set_status alarmed k.current blocked;
    sleep_list =
        insert_ordered (alarm_ticks_comp (λ u. (alarmed u).alarm_ticks)) k.current k.sleep_list;
  }
