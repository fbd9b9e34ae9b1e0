-- ===== src/Synch/Mutex/Exclusion.antt =====
-- What holds in every state that the threads which share a lock (threads/synch.c) reach.
use mathlib.Core.List.{Mem, not-mem-nil}
use project_pintos.Base.{
  ℕ, ◌≡◌, ◌⊎◌, inl, inr, refl, ap, sym, true, false, ◌∙◌, ◌==◌, Bool, some, arith,
}
use project_pintos.Sched.{Kernel}
use project_pintos.Sched.Valid.{IsValid, current_lem}
use project_pintos.Sched.Schedule.{Runnable}
use project_pintos.Synch.{
  Lock, Progress, lock_acquire_resume, lock_held_by_current_thread, lock_downed, sema_down_pass,
}
use project_pintos.Synch.Mutex.{System, Pc, Reach}
use project_pintos.Synch.Mutex.Inversion.{lock_taken, with_level, with_level-Parks}
use project_pintos.Synch.Mutex.Invariant.{IsSound, Owned}
use project_pintos.Synch.Mutex.Preserved.{Reach-IsSound}

-- In every state that is reached from `lock_init`, where the rest of the kernel keeps the scheduler valid and
-- wakes no waiter of the lock, two threads are never both between `lock_acquire` and `lock_release`.
pub mutual_exclusion :
    (b : Bool) (s : System)
    → Reach b s
    → (t u : ℕ) → s.pc t ≡ Pc.critical
    → s.pc u ≡ Pc.critical
    → t ≡ u
mutual_exclusion b s r t u in_t in_u = elim ((Reach-IsSound b s r).owned) [
  | inl o ↦ absurd (o.1 t in_t)
  | inr o ↦ o.2 t in_t ∙ sym (o.2 u in_u)
]

-- A thread that is between `lock_acquire` and `lock_release` passes the check of `lock_release`.
pub critical_holds :
    (b : Bool) (s : System)
    → Reach b s
    → s.pc s.kernel.current ≡ Pc.critical
    → lock_held_by_current_thread s.lock s.kernel ≡ some true
unfolding lock_held_by_current_thread
critical_holds b s r here = rw (current_lem s.kernel sound.valid) (ap some (holds sound.owned))
  where
    sound : IsSound b s
    sound = Reach-IsSound b s r

    holds : Owned s → (s.lock.holder == s.kernel.current) ≡ true
    holds (inl o) = absurd (o.1 s.kernel.current here)
    holds (inr o) = ground (arith, o.2 s.kernel.current)

-- A thread that tests a free lock takes it.
free_lock_taken :
    (level : Bool) (l : Lock) (k : Kernel)
    → l.semaphore.value ≡ 1
    → IsValid k
    → lock_acquire_resume level l k ≡ some (Progress.returned, lock_taken l k, with_level level k)
unfolding lock_acquire_resume sema_down_pass lock_downed
free_lock_taken level l k e v =
    let positive : (l.semaphore.value == 0) ≡ false = ground arith in
    rw (positive, current_lem (with_level level k) (with_level-Parks level k v).0) refl

-- No wakeup is lost, where the rest of the kernel keeps the scheduler valid, wakes no waiter of the lock, and
-- takes no thread inside `lock_acquire` from the ready list. Every thread inside `lock_acquire` is on
-- the list of waiters, runs or is ready; and as long as there is one, some thread has the lock, or
-- one that is inside `lock_acquire` and off the list of waiters runs or is ready, and a thread that runs next
-- and goes on with `lock_acquire`, whatever the scheduler's valid state is then, comes back with the lock.
pub no_lost_wakeup :
    (s : System)
    → Reach true s
    → (t : ℕ) → s.pc t ≡ Pc.acquiring
    → (level : Bool) (k : Kernel) → IsValid k
    → (Mem t s.lock.semaphore.waiters ⊎ Runnable s.kernel t)
      × ((s.pc s.lock.holder ≡ Pc.critical)
          ⊎ (((u : ℕ) × (s.pc u ≡ Pc.acquiring)
                × (¬ Mem u s.lock.semaphore.waiters)
                × Runnable s.kernel u)
              × (lock_acquire_resume level s.lock k
                  ≡ some (Progress.returned, lock_taken s.lock k, with_level level k))))
no_lost_wakeup s r t waits level k v = (
  sound.placed refl t waits,
  elim (sound.owned) [
    | inr o ↦ inl o.1
    | inl o ↦ inr (
      elim (sound.woken o.0) [
        | inl e ↦ awake t waits (rw e not-mem-nil) (sound.placed refl t waits)
        | inr w ↦ awake w.0 w.1 w.2 (sound.placed refl w.0 w.1)
      ],
      free_lock_taken level s.lock k o.0 v,
    )
  ],
)
  where
    sound : IsSound true s
    sound = Reach-IsSound true s r

    awake :
        (u : ℕ)
        → s.pc u ≡ Pc.acquiring
        → ¬ Mem u s.lock.semaphore.waiters
        → Mem u s.lock.semaphore.waiters ⊎ Runnable s.kernel u
        → (u : ℕ) × (s.pc u ≡ Pc.acquiring)
          × (¬ Mem u s.lock.semaphore.waiters)
          × Runnable s.kernel u
    awake u inside off (inl m) = absurd (off m)
    awake u inside off (inr h) = (u, inside, off, h)
