-- ===== src/Sched/Switch.antt =====
-- threads/thread.c: blocking, unblocking, yielding and the switch to the next thread. A function
-- that switches is modelled up to the point where the next thread goes on with its own code.
use project_pintos.Base.{
  ℕ, ◌==◌, Bool, false, not, ◌&&◌, if◌then◌else◌, List, [], ◌∷◌, Option, none, some,
}
use project_pintos.Base.Int.{ℤ, ltb_ℤ}
use project_pintos.ListAlgo.{insert_ordered}
use project_pintos.Sched.{
  Kernel, running, ready, blocked, dying, ◌>>=◌, ◌>>◌, assert, update, set_status, is_running,
  is_blocked, is_dying, is_thread, priority_comp, priority_of, thread_current,
}

-- `next_thread_to_run`: the thread, and the ready list without it.
unfoldable pub next_thread_to_run : Kernel → ℕ × Kernel
next_thread_to_run k = elim k.ready_list [
  | [] ↦ (k.idle_thread, k)
  | t ∷ rest ↦ (t, record k { ready_list = rest })
]

-- `thread_schedule_tail`, with `prev` 0 for NULL.
unfoldable pub thread_schedule_tail : ℕ → Kernel → Option Kernel
thread_schedule_tail prev k = do
  assert (not k.intr_on)
  let k' = record k { threads = set_status k.threads k.current running; thread_ticks = 0 }
  if not (prev == 0) && (is_dying (k'.threads prev).status && not (prev == k'.initial_thread))
      then (assert (not (prev == k'.current))
          >> some (record k' { free_pages = prev ∷ k'.free_pages }))
      else some k'

-- `schedule`: `switch_threads` makes `next` the running thread and returns the old one.
unfoldable pub schedule : Kernel → Option Kernel
unfolding next_thread_to_run thread_schedule_tail is_thread
schedule k = do
  let cur = k.current
  let picked = next_thread_to_run k
  assert (not picked.1.intr_on)
  assert (not (is_running (picked.1.threads cur).status))
  assert (is_thread picked.1 picked.0)
  if cur == picked.0
      then thread_schedule_tail 0 picked.1
      else thread_schedule_tail cur (record (picked.1) { current = picked.0 })

-- `thread_block`.
unfoldable pub thread_block : Kernel → Option Kernel
unfolding thread_current schedule
thread_block k = do
  assert (not k.in_external_intr)
  assert (not k.intr_on)
  cur ← thread_current k
  schedule (record k { threads = set_status k.threads cur blocked })

-- `thread_unblock`. It runs with interrupts off and restores the level that it found.
unfoldable pub thread_unblock : ℕ → Kernel → Option Kernel
unfolding is_thread
thread_unblock t k = do
  assert (is_thread k t)
  assert (is_blocked (k.threads t).status)
  some (record k {
    ready_list = insert_ordered (priority_comp (priority_of k)) t k.ready_list;
    threads = set_status k.threads t ready;
  })

-- `thread_yield`, which turns interrupts off first.
unfoldable pub thread_yield : Kernel → Option Kernel
unfolding thread_current schedule
thread_yield k = do
  cur ← thread_current k
  assert (not k.in_external_intr)
  schedule (record k {
    intr_on = false;
    ready_list =
        if cur == k.idle_thread
        then k.ready_list
        else insert_ordered (priority_comp (priority_of k)) cur k.ready_list;
    threads = set_status k.threads cur ready;
  })

-- `list_remove` of a thread from a list.
abbrev pub list_remove : ℕ → List ℕ → List ℕ
list_remove t [] = []
list_remove t (x ∷ xs) = let rest = list_remove t xs in if x == t then xs else x ∷ rest

-- `thread_exit`.
unfoldable pub thread_exit : Kernel → Option Kernel
unfolding thread_current schedule
thread_exit k = do
  assert (not k.in_external_intr)
  cur ← thread_current k
  schedule (record k {
    intr_on = false;
    all_list = list_remove cur k.all_list;
    threads = set_status k.threads cur dying;
  })

-- `max_priority_in_ready`, which is called only where the list is not empty.
unfoldable pub max_priority_in_ready : Kernel → Option ℤ
max_priority_in_ready k = elim k.ready_list [ [] ↦ none | t ∷ rest ↦ some (priority_of k t) ]

-- The test that precedes a yield: some ready thread has a higher priority than `p`.
unfoldable pub outranked : Kernel → ℤ → Bool
unfolding max_priority_in_ready
outranked k p = elim (max_priority_in_ready k) [ none ↦ false | some m ↦ ltb_ℤ p m ]

-- `thread_set_priority`.
unfoldable pub thread_set_priority : ℤ → Kernel → Option Kernel
unfolding thread_current outranked thread_yield
thread_set_priority p k = do
  cur ← thread_current k
  let k' = record k { threads = update k.threads cur (record (k.threads cur) { priority = p }) }
  if outranked k' p then thread_yield k' else some k'
