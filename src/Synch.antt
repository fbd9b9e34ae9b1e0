-- ===== src/Synch.antt =====
-- threads/synch.c: semaphores, locks and condition variables over the scheduler of `Sched`.
-- `none` is a failed ASSERT. A thread that waits is switched out inside the operation; the model
-- returns the state in which the next thread runs, and says that the operation is to be resumed.
pub mod Laws
pub mod Parked
pub mod Mutex
use project_pintos.Base.{
  ℕ, ◌+◌, ◌-◌, ◌%◌, ◌^◌, ◌==◌, ltb, Bool, true, false, not, ◌&&◌, if◌then◌else◌, List, [], ◌∷◌,
  ◌++◌, Option, none, some,
}
use project_pintos.ListAlgo.{insert_ordered}
use project_pintos.Sched.{Kernel, ◌>>=◌, ◌>>◌, assert, priority_comp, priority_of, thread_current}
use project_pintos.Sched.Switch.{thread_block, thread_unblock, thread_yield}

-- `struct semaphore`; the value is an `unsigned`.
pub record Sema : Type 0 where
  pub value : ℕ
  pub waiters : List ℕ

-- `sema_init`.
unfoldable pub sema_init : ℕ → Sema
sema_init value = record { value = value; waiters = [] }

-- Whether a call has returned, or waits for its thread to run again.
pub data Progress : Type 0 where
  returned waiting : Progress

-- One test of the loop of `sema_down`, and what follows it up to the next test. The caller runs it
-- again when its thread does: interrupts are off then, and `level` is what the call found.
unfoldable pub sema_down_pass : Bool → Sema → Kernel → Option (Progress × Sema × Kernel)
sema_down_pass level s k =
    if s.value == 0
    then (do
      cur ← thread_current k
      k' ← thread_block k
      some (
        Progress.waiting,
        record s { waiters = insert_ordered (priority_comp (priority_of k)) cur s.waiters },
        k',
      ))
    else some (Progress.returned, record s { value = s.value - 1 }, record k { intr_on = level })

-- `sema_down` up to its return or to its first wait.
unfoldable pub sema_down : Sema → Kernel → Option (Progress × Sema × Kernel)
sema_down s k = do
  assert (not k.in_external_intr)
  sema_down_pass k.intr_on s (record k { intr_on = false })

-- `sema_try_down`.
unfoldable pub sema_try_down : Sema → Bool × Sema
sema_try_down s = if ltb 0 s.value then (true, record s { value = s.value - 1 }) else (false, s)

-- The part of `sema_up` before its yield.
unfoldable pub sema_wake : Sema → Kernel → Option (Sema × Kernel)
sema_wake s k = elim s.waiters [
  | [] ↦ some (record s { value = (s.value + 1) % 2 ^ 32 }, k)
  | t ∷ rest ↦ do
    k' ← thread_unblock t k
    some (record { value = (s.value + 1) % 2 ^ 32; waiters = rest }, k')
]

-- `sema_up`.
unfoldable pub sema_up : Sema → Kernel → Option (Sema × Kernel)
sema_up s k = do
  woken ← sema_wake s (record k { intr_on = false })
  k' ← thread_yield woken.1
  some (woken.0, k')

-- `struct lock`; `holder` is 0 for NULL.
pub record Lock : Type 0 where
  pub holder : ℕ
  pub semaphore : Sema

-- `lock_init`.
unfoldable pub lock_init : Lock
lock_init = record { holder = 0; semaphore = sema_init 1 }

-- `lock_held_by_current_thread`.
unfoldable pub lock_held_by_current_thread : Lock → Kernel → Option Bool
lock_held_by_current_thread l k = do cur ← thread_current k; some (l.holder == cur)

-- What `lock_acquire` does when its `sema_down` has come to a return or to a wait.
unfoldable pub lock_downed : Progress × Sema × Kernel → Lock → Option (Progress × Lock × Kernel)
lock_downed (Progress.waiting, s, k) l = some (Progress.waiting, record l { semaphore = s }, k)
lock_downed (Progress.returned, s, k) l = do
  cur ← thread_current k
  some (Progress.returned, record { holder = cur; semaphore = s }, k)

-- `lock_acquire` up to its return, or to its first wait.
unfoldable pub lock_acquire : Lock → Kernel → Option (Progress × Lock × Kernel)
lock_acquire l k = do
  assert (not k.in_external_intr)
  held ← lock_held_by_current_thread l k
  assert (not held)
  downed ← sema_down l.semaphore k
  lock_downed downed l

-- `lock_acquire` from where its thread runs again, to its return or to its next wait.
unfoldable pub lock_acquire_resume : Bool → Lock → Kernel → Option (Progress × Lock × Kernel)
lock_acquire_resume level l k = do downed ← sema_down_pass level l.semaphore k; lock_downed downed l

-- `lock_try_acquire`.
unfoldable pub lock_try_acquire : Lock → Kernel → Option (Bool × Lock)
lock_try_acquire l k = do
  held ← lock_held_by_current_thread l k
  assert (not held)
  let (success, s) = sema_try_down l.semaphore
  cur ← thread_current k
  some (success, record { holder = if success then cur else l.holder; semaphore = s })

-- `lock_release`.
unfoldable pub lock_release : Lock → Kernel → Option (Lock × Kernel)
lock_release l k = do
  held ← lock_held_by_current_thread l k
  assert held
  (s, k') ← sema_up l.semaphore k
  some (record { holder = 0; semaphore = s }, k')

-- `struct condition`: a semaphore for each waiting thread, in the order of arrival.
abbrev pub Condition : Type 0
Condition = List Sema

-- `cond_wait` up to the `sema_down` of its own semaphore, which waits on value 0.
unfoldable pub cond_wait_begin : Condition → Lock → Kernel → Option (Condition × Lock × Kernel)
cond_wait_begin c l k = do
  assert (not k.in_external_intr)
  held ← lock_held_by_current_thread l k
  assert held
  (l', k') ← lock_release l k
  some (c ++ (sema_init 0 ∷ []), l', k')

-- `cond_signal`: the semaphore of the first waiter after its `sema_up`, if there is a waiter.
unfoldable pub cond_signal : Condition → Lock → Kernel → Option (Option Sema × Condition × Kernel)
cond_signal c l k = do
  assert (not k.in_external_intr)
  held ← lock_held_by_current_thread l k
  assert held
  elim c [
    | [] ↦ some (none, [], k)
    | w ∷ rest ↦ do (w', k') ← sema_up w k; some (some w', rest, k')
  ]
