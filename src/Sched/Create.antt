-- ===== src/Sched/Create.antt =====
-- threads/thread.c: the first thread, and new threads.
use project_pintos.Base.{
  ℕ, ◌+◌, ◌%◌, ◌^◌, ◌==◌, not, ◌&&◌, if◌then◌else◌, [], ◌∷◌, ◌++◌, Option, none, some,
}
use project_pintos.Base.Int.{ℤ, pos, ltb_ℤ}
use project_pintos.Fixed.Priority.{pri_min, pri_max}
use project_pintos.Sched.{Kernel, blocked, ◌>>=◌, ◌>>◌, assert, update, thread_magic}
use project_pintos.Sched.Switch.{thread_unblock, thread_yield}

-- `init_thread` on the page `t`: zeroed, blocked, and at the end of the list of all threads. The
-- thread identifier follows in the callers.
unfoldable pub init_thread : ℕ → ℤ → Kernel → Option Kernel
init_thread t priority k = do
  assert (not (t == 0))
  assert (not (ltb_ℤ priority pri_min) && not (ltb_ℤ pri_max priority))
  some (record k {
    threads = update k.threads t (record {
      tid = 0;
      status = blocked;
      priority = priority;
      alarm_ticks = pos 0;
      recent_cpu = pos 0;
      nice = pos 0;
      magic = thread_magic;
    });
    all_list = k.all_list ++ (t ∷ []);
  })

-- `allocate_tid`, under a lock that only this function takes. A `tid_t` is an `int`, here its 32 bits.
unfoldable pub allocate_tid : Kernel → ℕ × Kernel
allocate_tid k = (k.next_tid, record k { next_tid = (k.next_tid + 1) % 2 ^ 32 })

-- What `thread_create` does to the new thread after `init_thread`: its identifier, and under the
-- advanced scheduler the nice value and the recent CPU use of the running thread.
unfoldable pub inherit : ℕ → Kernel → Kernel
unfolding allocate_tid
inherit t k =
    let (tid, k') = allocate_tid k in
    let me = k'.threads k'.current in
    let new = record (k'.threads t) { tid = tid } in
    record k' {
      threads = update k'.threads t (
          if k'.thread_mlfqs
          then record new { nice = me.nice; recent_cpu = me.recent_cpu }
          else new);
    }

-- `thread_create`, where `palloc_get_page` returned `page` (`none` for NULL). The result is the
-- thread identifier, `none` for TID_ERROR, and the state after the yield that ends the function.
unfoldable pub thread_create : Option ℕ → ℤ → Kernel → Option (Option ℕ × Kernel)
unfolding init_thread inherit thread_unblock thread_yield
thread_create none priority k = some (none, k)
thread_create (some t) priority k = do
  made ← init_thread t priority k
  let named = inherit t made
  queued ← thread_unblock t named
  switched ← thread_yield queued
  some (some (named.threads t).tid, switched)
