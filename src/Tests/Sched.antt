-- ===== src/Tests/Sched.antt =====
-- The theorems on the scheduler (threads/thread.c, devices/timer.c) and on semaphores
-- (threads/synch.c) at the small kernel of Tests/Scenes.
use mathlib.Core.List.{Mem, Perm, mem-cons, not-mem-nil}
use mathlib.Core.Logic.Or
use native.Mathlib.Nat.{ℕ_set}
use project_pintos.Base.{ℕ, ◌≡◌, ◌≢◌, ◌⊎◌, refl, sym, true, [], ◌∷◌, none, some, arith}
use project_pintos.Base.Int.{pos}
use project_pintos.ListAlgo.{is_sorted}
use project_pintos.Sched.{Kernel, blocked}
use project_pintos.Sched.Switch.{thread_yield}
use project_pintos.Sched.Sleep.{thread_alarm}
use project_pintos.Sched.Timer.{timer_interrupt, external_interrupt}
use project_pintos.Sched.Mlfqs.{update_priority}
use project_pintos.Sched.Valid.{IsValid, HasStatus}
use project_pintos.Sched.Schedule.{RunsHighest, Runnable}
use project_pintos.Sched.Preempt.{thread_yield_highest}
use project_pintos.Sched.Alarm.{thread_alarm-Woke, Woke}
use project_pintos.Sched.Aging.{InRange}
use project_pintos.Sched.Reprice.{Repriced, update_priority-IsValid}
use project_pintos.Sched.Create.{thread_create}
use project_pintos.Sched.Newcomer.{Created}
use project_pintos.Sched.Newborn.{IsFresh, thread_create_highest}
use project_pintos.Sched.Interrupt.{Interrupted, timer_interrupt_highest}
use project_pintos.Synch.{Sema, sema_up}
use project_pintos.Synch.Laws.{sema_up-in_interrupt, IsWaiting, Served, sema_up_highest}
use project_pintos.Tests.Scenes.{table, scene, scene-IsValid, other_member}

-- The same kernel inside an external interrupt.
abbrev in_interrupt : Kernel
in_interrupt = record scene { in_external_intr = true }

in_interrupt-IsValid : IsValid in_interrupt
in_interrupt-IsValid = record {
  current_runs = scene-IsValid.current_runs;
  idle_alive = scene-IsValid.idle_alive;
  queue = scene-IsValid.queue;
  sleepers = scene-IsValid.sleepers;
  idle_awake = scene-IsValid.idle_awake;
}

all-InRange : (u : ℕ) → InRange (table u)
all-InRange u = ground arith

-- A semaphore that thread 5 waits for, and one that is free.
abbrev busy : Sema
busy = record { value = 0; waiters = 5 ∷ [] }

abbrev open_sema : Sema
open_sema = record { value = 1; waiters = [] }

five_waits : HasStatus table blocked 5
five_waits = ground arith

busy-IsWaiting : IsWaiting scene busy.waiters
unfolding is_sorted
busy-IsWaiting = record { members = λ t e. at_five t (only t e); sorted = refl }
  where
    only : (t : ℕ) → Mem t (5 ∷ []) → 5 ≡ t
    only t e = Or.elim (ℕ_set 5 t) (mem-cons.0 e) (λ q. sym q) (λ r. absurd (not-mem-nil r))

    at_five : (t : ℕ) → 5 ≡ t → HasStatus table blocked t × (¬ Mem t (4 ∷ [])) × (1 ≢ t)
    at_five t q = rw (sym q) (five_waits, other_member 4 5 (omega arith), omega arith)

timer_interrupt_highest_example :
    (k' : Kernel) × (external_interrupt timer_interrupt scene ≡ some k')
    × IsValid k'
    × RunsHighest k'
    × Interrupted scene k'
timer_interrupt_highest_example =
    timer_interrupt_highest scene scene-IsValid refl refl refl all-InRange

thread_yield_highest_example :
    (k' : Kernel) × (thread_yield scene ≡ some k')
    × IsValid k'
    × RunsHighest k'
    × ((scene.current ≡ scene.idle_thread) ⊎ Perm (k'.current ∷ k'.ready_list) (2 ∷ 3 ∷ []))
thread_yield_highest_example = thread_yield_highest scene scene-IsValid refl

thread_alarm-Woke_example :
    (k' : Kernel) × (thread_alarm (pos 10) in_interrupt ≡ some k')
    × Woke (pos 10) (4 ∷ []) in_interrupt k'
    × (k'.yield_on_return ≡ true)
thread_alarm-Woke_example = thread_alarm-Woke (pos 10) in_interrupt in_interrupt-IsValid refl

sema_up_highest_example :
    (s' : Sema) × (k' : Kernel) × (sema_up busy scene ≡ some (s', k'))
    × IsValid k'
    × RunsHighest k'
    × (s'.value ≡ 1)
    × Served scene (5 ∷ []) s'.waiters k'
    × ((u : ℕ) → Mem u (3 ∷ []) → Runnable k' u)
sema_up_highest_example = sema_up_highest busy scene scene-IsValid refl busy-IsWaiting (omega arith)

sema_up-in_interrupt_example : sema_up busy in_interrupt ≡ none
sema_up-in_interrupt_example = sema_up-in_interrupt busy in_interrupt refl

update_priority-IsValid_example :
    (k' : Kernel) × (update_priority in_interrupt ≡ some k')
    × IsValid k'
    × Perm k'.ready_list (3 ∷ [])
    × Repriced in_interrupt.all_list table k'.threads
update_priority-IsValid_example = update_priority-IsValid in_interrupt in_interrupt-IsValid refl

page_six-IsFresh : IsFresh 6 scene
page_six-IsFresh = record {
  not_null = omega arith;
  not_current = omega arith;
  not_idle = omega arith;
  not_ready = other_member 3 6 (omega arith);
  not_asleep = other_member 4 6 (omega arith);
}

thread_create_highest_example :
    (k' : Kernel) × (thread_create (some 6) (pos 40) scene ≡ some (some 6, k'))
    × IsValid k'
    × RunsHighest k'
    × ((scene.current ≡ scene.idle_thread) ⊎ Perm (k'.current ∷ k'.ready_list) (2 ∷ 6 ∷ 3 ∷ []))
    × Created 6 (pos 40) scene k'
thread_create_highest_example =
    thread_create_highest 6 (pos 40) scene scene-IsValid page_six-IsFresh refl (omega arith)
      (omega arith)

-- The same kernel with interrupts on.
abbrev open_scene : Kernel
open_scene = record scene { intr_on = true }
