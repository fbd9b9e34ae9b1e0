-- ===== src/Sched/Mlfqs.antt =====
-- threads/thread.c: priority aging, and the accounts of the advanced scheduler.
use project_pintos.Base.{
  ℕ, ◌+◌, ◌==◌, not, ◌&&◌, if◌then◌else◌, List, [], ◌∷◌, Option, some, length,
}
use project_pintos.Base.Int.{ℤ, pos, ltb_ℤ, ◌+ℤ◌}
use project_pintos.Base.Word.{wrap32}
use project_pintos.Fixed.{fp_add_int, fp_mul_int, round_to_nearest}
use project_pintos.Fixed.Priority.{pri_max, new_priority, new_load_avg, new_recent_cpu}
use project_pintos.ListAlgo.{list_sort}
use project_pintos.Sched.{
  Kernel, Thread, ◌>>=◌, update, is_dying, priority_comp, priority_of, thread_current,
  intr_yield_on_return,
}
use project_pintos.Sched.Switch.{outranked, thread_yield}

-- The test that ends `thread_priority_aging` and `update_priority`.
unfoldable pub yield_if_outranked : Kernel → Option Kernel
unfolding outranked thread_current intr_yield_on_return
yield_if_outranked k = elim k.ready_list [
  | [] ↦ some k
  | t ∷ rest ↦ do
    cur ← thread_current k
    if outranked k (priority_of k cur) then intr_yield_on_return k else some k
]

-- One round of the loop of `thread_priority_aging`.
abbrev pub age : Thread → Thread
age t =
    let up = wrap32 (t.priority +ℤ pos 1) in
    record t { priority = if ltb_ℤ pri_max up then pri_max else up }

unfoldable pub age_all : List ℕ → (ℕ → Thread) → ℕ → Thread
age_all [] m = m
age_all (t ∷ rest) m = age_all rest (update m t (age (m t)))

-- `thread_priority_aging`.
unfoldable pub thread_priority_aging : Kernel → Option Kernel
unfolding age_all yield_if_outranked
thread_priority_aging k = yield_if_outranked (record k { threads = age_all k.ready_list k.threads })

-- The loop of `update_priority`.
unfoldable pub reprioritize : List ℕ → (ℕ → Thread) → Option (ℕ → Thread)
reprioritize [] m = some m
reprioritize (t ∷ rest) m = do
  p ← new_priority (m t).recent_cpu (m t).nice
  reprioritize rest (update m t (record (m t) { priority = p }))

-- `update_priority`.
unfoldable pub update_priority : Kernel → Option Kernel
unfolding reprioritize yield_if_outranked
update_priority k = do
  threads ← reprioritize k.all_list k.threads
  let changed = record k { threads = threads }
  yield_if_outranked
      (record changed { ready_list = list_sort (priority_comp (priority_of changed)) k.ready_list })

-- `update_load_avg`.
unfoldable pub update_load_avg : Kernel → Option Kernel
unfolding thread_current
update_load_avg k = do
  cur ← thread_current k
  let ready_threads = length k.ready_list + (if cur == k.idle_thread then 0 else 1)
  load_avg ← new_load_avg k.load_avg (pos ready_threads)
  some (record k { load_avg = load_avg })

-- `update_periodic_recent_cpu`.
unfoldable pub update_periodic_recent_cpu : Kernel → Option Kernel
unfolding thread_current
update_periodic_recent_cpu k = do
  cur ← thread_current k
  let t = k.threads cur
  some (
      if cur == k.idle_thread then k else record k {
        threads = update k.threads cur (record t { recent_cpu = fp_add_int t.recent_cpu (pos 1) });
      })

-- The loop of `update_recent_cpu`.
unfoldable pub decay_all : ℤ → ℕ → List ℕ → (ℕ → Thread) → Option (ℕ → Thread)
decay_all load_avg idle_thread [] m = some m
decay_all load_avg idle_thread (t ∷ rest) m =
    let decayed = new_recent_cpu load_avg (m t).recent_cpu (m t).nice >>= λ c.
    decay_all load_avg idle_thread rest (update m t (record (m t) { recent_cpu = c })) in
    let same = decay_all load_avg idle_thread rest m in
    if not (is_dying (m t).status) && not (t == idle_thread) then decayed else same

-- `update_recent_cpu`.
unfoldable pub update_recent_cpu : Kernel → Option Kernel
unfolding decay_all
update_recent_cpu k = do
  threads ← decay_all k.load_avg k.idle_thread k.all_list k.threads
  some (record k { threads = threads })

-- `thread_set_nice`.
unfoldable pub thread_set_nice : ℤ → Kernel → Option Kernel
unfolding thread_current outranked thread_yield
thread_set_nice nice k = do
  cur ← thread_current k
  let t = k.threads cur
  p ← new_priority t.recent_cpu nice
  let changed = record k { threads = update k.threads cur (record t { nice = nice; priority = p }) }
  if outranked changed p then thread_yield changed else some changed

-- `thread_get_load_avg` and `thread_get_recent_cpu`: 100 times the value, rounded to nearest.
unfoldable pub thread_get_load_avg : Kernel → ℤ
thread_get_load_avg k = round_to_nearest (fp_mul_int k.load_avg (pos 100))

unfoldable pub thread_get_recent_cpu : Kernel → Option ℤ
unfolding thread_current
thread_get_recent_cpu k = do
  cur ← thread_current k
  some (round_to_nearest (fp_mul_int (k.threads cur).recent_cpu (pos 100)))
