-- ===== src/Sched/Timer.antt =====
-- The timer interrupt: devices/timer.c, `thread_tick` of threads/thread.c, and the entry and the
-- return of an external interrupt in threads/interrupt.c.
use project_pintos.Base.{
  ℕ, ◌+◌, ◌%◌, ◌==◌, leb, Bool, true, false, not, if◌then◌else◌, Option, some,
}
use project_pintos.Base.Int.{pos}
use project_pintos.Sched.{Kernel, ◌>>=◌, ◌>>◌, assert, thread_current, intr_yield_on_return}
use project_pintos.Sched.Switch.{thread_yield}
use project_pintos.Sched.Sleep.{thread_alarm}
use project_pintos.Sched.Mlfqs.{
  thread_priority_aging, update_priority, update_load_avg, update_recent_cpu,
  update_periodic_recent_cpu,
}

abbrev pub timer_freq : ℕ
timer_freq = 100

abbrev pub time_slice : ℕ
time_slice = 4

-- `thread_tick`.
unfoldable pub thread_tick : Kernel → Option Kernel
unfolding thread_current intr_yield_on_return
thread_tick k = do
  cur ← thread_current k
  let counted =
      if cur == k.idle_thread
      then record k { idle_ticks = k.idle_ticks + 1 }
      else record k { kernel_ticks = k.kernel_ticks + 1 }
  let later = record counted { thread_ticks = counted.thread_ticks + 1 }
  if leb time_slice later.thread_ticks then intr_yield_on_return later else some later

-- A step that is taken only if its condition holds.
abbrev pub guarded : Bool → (Kernel → Option Kernel) → Kernel → Option Kernel
guarded true step k = step k
guarded false step k = some k

-- The accounts of the advanced scheduler at tick `k.ticks`.
unfoldable pub mlfqs_tick : Kernel → Option Kernel
mlfqs_tick k = do
  a ← update_periodic_recent_cpu k
  b ← guarded (a.ticks % timer_freq == 0) (λ s. update_load_avg s >>= update_recent_cpu) a
  guarded (b.ticks % 4 == 0) update_priority b

-- `timer_interrupt`.
unfoldable pub timer_interrupt : Kernel → Option Kernel
timer_interrupt k = do
  a ← thread_tick (record k { ticks = k.ticks + 1 })
  b ← thread_alarm (pos a.ticks) a
  c ← guarded b.thread_prior_aging thread_priority_aging b
  guarded c.thread_mlfqs mlfqs_tick c

-- `intr_handler` for an external interrupt with a handler: interrupts are off, and the yield that
-- the handler asked for follows its return.
unfoldable pub external_interrupt : (Kernel → Option Kernel) → Kernel → Option Kernel
external_interrupt handler k = do
  assert (not k.intr_on)
  assert (not k.in_external_intr)
  done ← handler (record k { in_external_intr = true; yield_on_return = false })
  assert (not done.intr_on)
  assert done.in_external_intr
  let left = record done { in_external_intr = false }
  if left.yield_on_return then thread_yield left else some left
