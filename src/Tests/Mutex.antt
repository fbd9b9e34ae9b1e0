-- ===== src/Tests/Mutex.antt =====
-- Two threads at a lock (threads/synch.c): thread 2 takes it and blocks, thread 3 waits for it.
use mathlib.Core.List.{Mem, not-mem-nil}
use project_pintos.Base.{ℕ, true, ◌≡◌, ◌⊎◌, refl, false, [], some, arith}
use project_pintos.ListAlgo.{insert_ordered}
use project_pintos.Sched.{Kernel, thread_current, blocked, set_status}
use project_pintos.Sched.Switch.{thread_block}
use project_pintos.Sched.Schedule.{switched, Runnable}
use project_pintos.Sched.Valid.{IsValid}
use project_pintos.Synch.{
  Progress, lock_init, sema_init, lock_acquire, lock_acquire_resume, lock_held_by_current_thread,
  sema_down, sema_down_pass, lock_downed,
}
use project_pintos.Synch.Parked.{thread_block-Parks}
use project_pintos.Synch.Mutex.{System, Pc, Reach, stepped, acquires, elsewhere, initial, more}
use project_pintos.Synch.Mutex.Inversion.{lock_taken, lock_queued, with_level}
use project_pintos.Synch.Mutex.Exclusion.{mutual_exclusion, no_lost_wakeup}
use project_pintos.Tests.Scenes.{scene, scene-IsValid}

-- Thread 3 runs, and after it the idle thread.
abbrev second : Kernel
second = switched (record scene { threads = set_status scene.threads 2 blocked }) 3 []

abbrev third : Kernel
third = switched (record second { threads = set_status second.threads 3 blocked }) 1 []

second_runs : thread_block scene ≡ some second
unfolding thread_block
second_runs = refl

second-IsValid : IsValid second
second-IsValid = (thread_block-Parks scene second scene-IsValid refl refl second_runs).0.0

abbrev start : System
start = record { lock = lock_init; kernel = scene; pc = λ t. Pc.outside }

abbrev owned : System
owned = stepped start (lock_taken lock_init scene) scene Pc.critical

abbrev contended : System
contended =
    stepped (record owned { kernel = second }) (lock_queued owned.lock second) third Pc.acquiring

owned_step :
    lock_acquire lock_init scene ≡ some (Progress.returned, lock_taken lock_init scene, scene)
unfolding lock_acquire lock_held_by_current_thread sema_down sema_down_pass lock_downed lock_init
    sema_init thread_current
owned_step = refl

owned_reached : Reach true owned
owned_reached = more (initial scene scene-IsValid) (
    acquires (Progress.returned, lock_taken lock_init scene, scene) refl (λ q. ground arith)
      owned_step)

contended_step :
    lock_acquire owned.lock second ≡ some (Progress.waiting, lock_queued owned.lock second, third)
unfolding lock_acquire lock_held_by_current_thread sema_down sema_down_pass lock_downed lock_init
    sema_init thread_current thread_block insert_ordered
contended_step = refl

contended_reached : Reach true contended
unfolding lock_init sema_init
contended_reached =
    more
      (more owned_reached (
        elsewhere {s = owned} second second-IsValid (λ u m. absurd (not-mem-nil m))
          (λ h u e r. absurd (ground arith))))
      (acquires {s = record owned { kernel = second }}
        (Progress.waiting, lock_queued owned.lock second, third) refl (λ q. ground arith)
        contended_step)

mutual_exclusion_example : ◌≡◌ {A = ℕ} 2 2
mutual_exclusion_example = mutual_exclusion true contended contended_reached 2 2 refl refl

no_lost_wakeup_example :
    (Mem 3 contended.lock.semaphore.waiters ⊎ Runnable third 3)
    × ((contended.pc contended.lock.holder ≡ Pc.critical)
        ⊎ (((u : ℕ) × (contended.pc u ≡ Pc.acquiring)
              × (¬ Mem u contended.lock.semaphore.waiters)
              × Runnable third u)
            × (lock_acquire_resume false contended.lock scene
                ≡ some
                    (Progress.returned, lock_taken contended.lock scene, with_level false scene))))
no_lost_wakeup_example = no_lost_wakeup contended contended_reached 3 refl false scene scene-IsValid
