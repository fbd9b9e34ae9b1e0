-- ===== src/Intq.antt =====
-- devices/intq.c: the queue of bytes between an interrupt handler and kernel threads. Interrupts
-- are off in every operation; a caller that has to wait is switched out.
pub mod Queue
use project_pintos.Base.{
  ℕ, ◌+◌, ◌%◌, ◌==◌, Bool, true, false, not, if◌then◌else◌, List, Option, none, some, get_or, set,
  replicate,
}
use project_pintos.Sched.{Kernel, ◌>>=◌, ◌>>◌, assert, thread_current}
use project_pintos.Sched.Switch.{thread_block, thread_unblock}
use project_pintos.Synch.{Lock, Progress, lock_init, lock_acquire}

abbrev pub bufsize : ℕ
bufsize = 64

-- `struct intq`; the waiters are 0 for NULL.
pub record Intq : Type 0 where
  pub lock : Lock
  pub not_full : ℕ
  pub not_empty : ℕ
  pub buf : List ℕ
  pub head : ℕ
  pub tail : ℕ

-- `intq_init`, over the bytes that the buffer held.
unfoldable pub intq_init : List ℕ → Intq
intq_init storage = record {
  lock = lock_init;
  not_full = 0;
  not_empty = 0;
  buf = storage;
  head = 0;
  tail = 0;
}

-- `next`.
abbrev pub next : ℕ → ℕ
next pos = (pos + 1) % bufsize

-- `intq_empty` and `intq_full`, less their ASSERT.
abbrev pub intq_empty : Intq → Bool
intq_empty q = q.head == q.tail

abbrev pub intq_full : Intq → Bool
intq_full q = next q.head == q.tail

-- `signal` after its ASSERTs, which stand in the callers: wakes the thread that waits, if one does.
unfoldable pub wake_waiter : ℕ → Kernel → Option Kernel
wake_waiter waiter k = if waiter == 0 then some k else thread_unblock waiter k

-- The body of the loop in `intq_getc` and `intq_putc`: takes the lock and waits. A byte is not
-- moved yet; the caller tests again when its thread runs. `note` stores the waiting thread.
unfoldable pub wait_turn : (ℕ → Intq → Intq) → Intq → Kernel → Option (Intq × Kernel)
wait_turn note q k = do
  assert (not k.in_external_intr)
  (p, l, k') ← lock_acquire q.lock k
  elim p [
    | Progress.waiting ↦ some (record q { lock = l }, k')
    | Progress.returned ↦ do
      assert (not k'.intr_on)
      cur ← thread_current k'
      blocked ← thread_block k'
      some (note cur (record q { lock = l }), blocked)
  ]

-- `intq_getc` up to its return with a byte, or to a wait (`none`).
unfoldable pub intq_getc : Intq → Kernel → Option (Option ℕ × Intq × Kernel)
intq_getc q k = do
  assert (not k.intr_on)
  if intq_empty q
      then (do (q', k') ← wait_turn (λ t r. record r { not_empty = t }) q k; some (none, q', k'))
      else (do
        assert (not (intq_full (record q { tail = next q.tail })))
        k' ← wake_waiter q.not_full k
        some (some (get_or q.buf q.tail 0), record q { tail = next q.tail; not_full = 0 }, k'))

-- `intq_putc` up to its return (`true`), or to a wait.
unfoldable pub intq_putc : ℕ → Intq → Kernel → Option (Bool × Intq × Kernel)
intq_putc byte q k = do
  assert (not k.intr_on)
  if intq_full q
      then (do (q', k') ← wait_turn (λ t r. record r { not_full = t }) q k; some (false, q', k'))
      else (do
        assert (not (intq_empty (record q { head = next q.head })))
        k' ← wake_waiter q.not_empty k
        some
            (true, record q { buf = set q.buf q.head byte; head = next q.head; not_empty = 0 }, k'))
