-- ===== src/Sched/Sleep.antt =====
-- threads/thread.c and devices/timer.c: sleeping until a tick, and the alarm.
use project_pintos.Base.{ℕ, false, if◌then◌else◌, List, [], ◌∷◌, Option, some}
use project_pintos.Base.Int.{ℤ, pos, ltb_ℤ, ◌+ℤ◌}
use project_pintos.Base.Word.{wrap32}
use project_pintos.ListAlgo.{insert_ordered}
use project_pintos.Sched.{
  Kernel, ◌>>=◌, ◌>>◌, assert, update, alarm_ticks_comp, alarm_of, thread_current,
  intr_yield_on_return,
}
use project_pintos.Sched.Switch.{thread_block, thread_unblock}

-- `thread_sleep`. The tick is an `int64_t`, and the field that it is stored in an `int`.
unfoldable pub thread_sleep : ℤ → Kernel → Option Kernel
unfolding thread_current thread_block
thread_sleep alarm_ticks k = do
  cur ← thread_current k
  let threads = update k.threads cur (record (k.threads cur) { alarm_ticks = wrap32 alarm_ticks })
  let asleep = record k { threads = threads }
  thread_block (record asleep {
    sleep_list = insert_ordered (alarm_ticks_comp (alarm_of asleep)) cur k.sleep_list;
  })

-- `timer_sleep`.
unfoldable pub timer_sleep : ℤ → Kernel → Option Kernel
unfolding thread_sleep
timer_sleep ticks k = do
  assert k.intr_on
  thread_sleep (pos k.ticks +ℤ ticks) (record k { intr_on = false })

-- The loop of `thread_alarm` over what is left of the sleep list; the list that it leaves.
unfoldable pub wake_due : ℤ → List ℕ → Kernel → Option Kernel
wake_due ticks [] k = some (record k { sleep_list = [] })
wake_due ticks (t ∷ rest) k =
    let woken = thread_unblock t k >>= wake_due ticks rest in
    if ltb_ℤ ticks (alarm_of k t) then some (record k { sleep_list = t ∷ rest }) else woken

-- `thread_alarm`.
unfoldable pub thread_alarm : ℤ → Kernel → Option Kernel
unfolding wake_due thread_unblock intr_yield_on_return
thread_alarm ticks k = do woken ← wake_due ticks k.sleep_list k; intr_yield_on_return woken
