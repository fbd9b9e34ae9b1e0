-- ===== src/Synch/Mutex.antt =====
-- Threads that share a lock of threads/synch.c, one step at a time: a step is one operation on the lock,
-- up to its return or to the switch to another thread, or whatever the rest of the kernel does.
pub mod Inversion
pub mod Invariant
pub mod Preserved
pub mod Exclusion
use project_pintos.Base.{ℕ, ◌≡◌, ◌≢◌, ◌==◌, Bool, true, false, if◌then◌else◌, some, List}
use mathlib.Core.List.{Mem}
use project_pintos.Sched.{Kernel, update}
use project_pintos.Sched.Valid.{IsValid}
use project_pintos.Sched.Schedule.{Runnable}
use project_pintos.Synch.{
  Lock, Progress, lock_init, lock_acquire, lock_acquire_resume, lock_try_acquire, lock_release,
}
use project_pintos.Synch.Parked.{IsParked}

-- Where a thread is: not using the lock, inside `lock_acquire`, or between `lock_acquire` and
-- `lock_release`.
pub data Pc : Type 0 where
  outside acquiring critical : Pc

pub record System : Type 0 where
  pub lock : Lock
  pub kernel : Kernel
  pub pc : ℕ → Pc

abbrev pub acquired : Progress → Pc
acquired Progress.returned = Pc.critical
acquired Progress.waiting = Pc.acquiring

abbrev pub tried : Bool → Pc
tried true = Pc.critical
tried false = Pc.outside

-- The system after its running thread did something on the lock.
abbrev pub stepped : System → Lock → Kernel → Pc → System
stepped s l k at = record { lock = l; kernel = k; pc = update s.pc s.kernel.current at }

-- One step of the system. The thread that steps is the one that runs; the idle thread uses no lock. A
-- step of the rest of the kernel keeps its state valid, and wakes no thread that waits for the lock;
-- with `keeps_ready`, it also leaves a thread inside `lock_acquire` that runs or is ready in one of these
-- places.
pub data Step (keeps_ready : Bool) : System → System → Type 0 where
  acquires :
      {s : System} (r : Progress × Lock × Kernel)
      → s.pc s.kernel.current ≡ Pc.outside
      → s.kernel.idle_thread ≢ s.kernel.current
      → lock_acquire s.lock s.kernel ≡ some r
      → Step keeps_ready s (stepped s r.1 r.2 (acquired r.0))
  resumes :
      {s : System} (level : Bool) (r : Progress × Lock × Kernel)
      → s.pc s.kernel.current ≡ Pc.acquiring
      → s.kernel.idle_thread ≢ s.kernel.current
      → lock_acquire_resume level s.lock s.kernel ≡ some r
      → Step keeps_ready s (stepped s r.1 r.2 (acquired r.0))
  tries :
      {s : System} (r : Bool × Lock)
      → s.pc s.kernel.current ≡ Pc.outside
      → lock_try_acquire s.lock s.kernel ≡ some r
      → Step keeps_ready s (stepped s r.1 s.kernel (tried r.0))
  releases :
      {s : System} (r : Lock × Kernel)
      → s.pc s.kernel.current ≡ Pc.critical
      → lock_release s.lock s.kernel ≡ some r
      → Step keeps_ready s (stepped s r.0 r.1 Pc.outside)
  elsewhere :
      {s : System} (k : Kernel)
      → IsValid k
      → ((u : ℕ) → Mem u s.lock.semaphore.waiters → IsParked k u)
      → (keeps_ready ≡ true → (u : ℕ) → s.pc u ≡ Pc.acquiring → Runnable s.kernel u → Runnable k u)
      → Step keeps_ready s (record s { kernel = k })

-- What can happen after `lock_init` in a valid state of the scheduler.
pub data Reach (keeps_ready : Bool) : System → Type 0 where
  initial :
      (k : Kernel)
      → IsValid k
      → Reach keeps_ready (record { lock = lock_init; kernel = k; pc = λ t. Pc.outside })
  more : {s s' : System} → Reach keeps_ready s → Step keeps_ready s s' → Reach keeps_ready s'
