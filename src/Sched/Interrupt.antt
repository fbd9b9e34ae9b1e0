-- ===== src/Sched/Interrupt.antt =====
-- A timer interrupt as a whole: devices/timer.c with the entry and return of interrupts.
use mathlib.Core.List.{Mem, Perm, mem-cons_self}
use mathlib.Core.List.Perm
use project_pintos.Base.{
  List, ◌∷◌, ◌++◌, ◌⊎◌, sym, ℕ, ◌+◌, ◌≡◌, refl, ◌∙◌, ◌==◌, leb, Bool, true, false, if◌then◌else◌,
  Option, some, arith, Bool-cases, inl, inr,
}
use project_pintos.Base.Int.{pos, ltb_ℤ}
use project_pintos.Sched.{Kernel, ◌>>=◌, alarm_of}
use project_pintos.Sched.Switch.{thread_yield}
use project_pintos.Sched.Mlfqs.{thread_priority_aging}
use project_pintos.Sched.Timer.{
  thread_tick, timer_interrupt, external_interrupt, time_slice, guarded,
}
use project_pintos.Sched.Valid.{IsValid}
use project_pintos.Sched.Schedule.{RunsHighest, Runnable}
use project_pintos.Sched.Preempt.{thread_yield_highest, yield-Dispatched, yield-Runnable}
use project_pintos.Sched.Alarm.{thread_alarm-Woke}
use project_pintos.Sched.Aging.{InRange, thread_priority_aging_lem}

-- A state with the same threads and lists is as valid.
IsValid-counters :
    (k : Kernel) (ticks idle_ticks kernel_ticks thread_ticks : ℕ) (on ext yield : Bool)
    → IsValid k
    → IsValid (record k {
      ticks = ticks;
      idle_ticks = idle_ticks;
      kernel_ticks = kernel_ticks;
      thread_ticks = thread_ticks;
      intr_on = on;
      in_external_intr = ext;
      yield_on_return = yield;
    })
IsValid-counters k a b c d e f g v = record {
  current_runs = v.current_runs;
  idle_alive = v.idle_alive;
  queue = v.queue;
  sleepers = v.sleepers;
  idle_awake = v.idle_awake;
}

-- `thread_tick` in an interrupt: one tick is counted for the running thread, and a yield is requested
-- when the time slice is used up.
abbrev after_tick : Kernel → Kernel
after_tick k = record k {
  idle_ticks = if k.current == k.idle_thread then k.idle_ticks + 1 else k.idle_ticks;
  kernel_ticks = if k.current == k.idle_thread then k.kernel_ticks else k.kernel_ticks + 1;
  thread_ticks = k.thread_ticks + 1;
  yield_on_return = if leb time_slice (k.thread_ticks + 1) then true else k.yield_on_return;
}

thread_tick_lem :
    (k : Kernel) → IsValid k → k.in_external_intr ≡ true → thread_tick k ≡ some (after_tick k)
unfolding thread_tick
thread_tick_lem k v e = ground (arith, v.current_runs)

guarded-on : (b : Bool) (f : Kernel → Option Kernel) (k : Kernel) → b ≡ true → guarded b f k ≡ f k
guarded-on b f k h = rw h

guarded-off :
    (b : Bool) (f : Kernel → Option Kernel) (k : Kernel) → b ≡ false → guarded b f k ≡ some k
guarded-off b f k h = rw h

-- `thread_priority_aging` where it is switched on.
aging_part :
    (k : Kernel)
    → IsValid k
    → k.in_external_intr ≡ true
    → k.intr_on ≡ false
    → k.yield_on_return ≡ true
    → ((u : ℕ) → InRange (k.threads u))
    → (k' : Kernel) × (guarded k.thread_prior_aging thread_priority_aging k ≡ some k')
      × IsValid k'
      × (k'.in_external_intr ≡ true)
      × (k'.intr_on ≡ false)
      × (k'.yield_on_return ≡ true)
      × (k'.thread_mlfqs ≡ k.thread_mlfqs)
      × (k'.ready_list ≡ k.ready_list)
      × (k'.sleep_list ≡ k.sleep_list)
      × (k'.current ≡ k.current)
      × (k'.idle_thread ≡ k.idle_thread)
      × (k'.ticks ≡ k.ticks)
aging_part k v e i y r = elim (Bool-cases k.thread_prior_aging) [
  | inr off ↦ (k, guarded-off _ _ k off, v, e, i, y, refl, refl, refl, refl, refl, refl)
  | inl on ↦
      let (k', runs, v', same, aged, others, modes) =
        thread_priority_aging_lem k v e (λ u h. r u) in
      (
        k',
        guarded-on _ _ k on ∙ runs,
        v',
        modes.context.0 ∙ e,
        modes.context.1 ∙ i,
        modes.request y,
        modes.options.1,
        same,
        modes.asleep,
        modes.scene.0,
        modes.scene.1,
        modes.scene.2,
      )
]

-- What the handler does to the threads: the tick is counted, and the sleepers that are due are ready.
record Handled (k k' : Kernel) : Type 0 where
  counted : k'.ticks ≡ k.ticks + 1
  same_current : k'.current ≡ k.current
  same_idle : k'.idle_thread ≡ k.idle_thread
  woken : List ℕ
  split : woken ++ k'.sleep_list ≡ k.sleep_list
  due : (u : ℕ) → Mem u woken → ltb_ℤ (pos (k.ticks + 1)) (alarm_of k u) ≡ false
  early : (u : ℕ) → Mem u k'.sleep_list → ltb_ℤ (pos (k.ticks + 1)) (alarm_of k u) ≡ true
  queued : Perm k'.ready_list (woken ++ k.ready_list)

-- `timer_interrupt`, with the advanced scheduler off.
handler_lem :
    (k : Kernel)
    → IsValid k
    → k.in_external_intr ≡ true
    → k.intr_on ≡ false
    → k.thread_mlfqs ≡ false
    → ((u : ℕ) → InRange (k.threads u))
    → (k' : Kernel) × (timer_interrupt k ≡ some k')
      × IsValid k'
      × (k'.in_external_intr ≡ true)
      × (k'.intr_on ≡ false)
      × (k'.yield_on_return ≡ true)
      × Handled k k'
unfolding timer_interrupt
handler_lem k v e i off r =
    let a : Kernel = after_tick (record k { ticks = k.ticks + 1 }) in
    let va : IsValid a = IsValid-counters k _ _ _ _ k.intr_on k.in_external_intr _ v in
    let (b, alarms, w, asked) = thread_alarm-Woke (pos a.ticks) a va e in
    let (c, ages, vc, ec, ic, yc, mc, ready_c, sleep_c, current_c, idle_c, ticks_c) =
      aging_part b w.valid (w.same_context.0 ∙ e) (w.same_context.1 ∙ i) asked
        (λ u. rw (w.same_priority u) (r u)) in
    (
      c,
      rw
          (
            thread_tick_lem (record k { ticks = k.ticks + 1 }) (IsValid-counters k _ _ _ _ _ _ _ v)
                e,
            ◌>>=◌,
          )
          (rw (alarms, ◌>>=◌) (rw (ages, ◌>>=◌) (guarded-off _ _ c (mc ∙ w.same_options.1 ∙ off)))),
      vc,
      ec,
      ic,
      yc,
      record {
        counted = ticks_c ∙ w.same_scene.2;
        same_current = current_c ∙ w.same_scene.0;
        same_idle = idle_c ∙ w.same_scene.1;
        woken = w.woken;
        split = rw sleep_c w.split;
        due = w.due;
        early = rw sleep_c w.early;
        queued = rw ready_c w.queued;
      },
    )

-- The entry and the return of an external interrupt around a handler that asks for a yield.
entry_lem :
    (handler : Kernel → Option Kernel) (k done k' : Kernel)
    → k.in_external_intr ≡ false
    → k.intr_on ≡ false
    → handler (record k { in_external_intr = true; yield_on_return = false }) ≡ some done
    → done.intr_on ≡ false
    → done.in_external_intr ≡ true
    → done.yield_on_return ≡ true
    → thread_yield (record done { in_external_intr = false }) ≡ some k'
    → external_interrupt handler k ≡ some k'
unfolding external_interrupt
entry_lem handler k done k' e i h di de dy y = ground arith

-- What a timer interrupt does to the threads. The sleepers at the front of the list whose tick has come run
-- or are ready afterwards, the others sleep on, in order; no ready thread is lost, nor the one
-- that ran, unless it is the idle thread.
pub record Interrupted (k k' : Kernel) : Type 0 where
  pub counted : k'.ticks ≡ k.ticks + 1
  pub woken : List ℕ
  pub split : woken ++ k'.sleep_list ≡ k.sleep_list
  pub due : (u : ℕ) → Mem u woken → ltb_ℤ (pos (k.ticks + 1)) (alarm_of k u) ≡ false
  pub early : (u : ℕ) → Mem u k'.sleep_list → ltb_ℤ (pos (k.ticks + 1)) (alarm_of k u) ≡ true
  pub runnable : (u : ℕ) → Mem u (woken ++ k.ready_list) → Runnable k' u
  pub kept : (k.current ≡ k.idle_thread) ⊎ Runnable k' k.current

left-Interrupted :
    (k done k' : Kernel) (v : IsValid done)
    → done.in_external_intr ≡ false
    → Handled k done
    → thread_yield done ≡ some k'
    → ((done.current ≡ done.idle_thread)
        ⊎ Perm (k'.current ∷ k'.ready_list) (done.current ∷ done.ready_list))
    → Interrupted k k'
left-Interrupted k done k' v e h yields kept =
    let d = yield-Dispatched done v k' e yields in
    record {
      counted = d.same_counts.1 ∙ h.counted;
      woken = h.woken;
      split = rw d.same.0 h.split;
      due = h.due;
      early = rw d.same.0 h.early;
      runnable = λ u m. yield-Runnable done v k' u e yields ((Perm.mem_iff h.queued).1 m);
      kept = elim kept [
        | inl idle ↦ inl (sym h.same_current ∙ idle ∙ h.same_idle)
        | inr perm ↦ inr ((Perm.mem_iff perm).1 (rw h.same_current mem-cons_self))
      ];
    }

-- With the advanced scheduler off and all priorities legal, a timer interrupt that strikes a valid
-- state ends without a failed ASSERT, in a valid state. The tick is counted; the sleepers whose tick has
-- come run or are ready afterwards, and no others leave the sleep list; every ready thread, and the one
-- that ran unless it is the idle thread, runs or is ready; and no ready thread outranks the one that runs, so
-- due sleepers preempt a running thread of lower priority.
pub timer_interrupt_highest :
    (k : Kernel)
    → IsValid k
    → k.in_external_intr ≡ false
    → k.intr_on ≡ false
    → k.thread_mlfqs ≡ false
    → ((u : ℕ) → InRange (k.threads u))
    → (k' : Kernel) × (external_interrupt timer_interrupt k ≡ some k')
      × IsValid k'
      × RunsHighest k'
      × Interrupted k k'
timer_interrupt_highest k v e i off r =
    let inside : Kernel = record k { in_external_intr = true; yield_on_return = false } in
    let (done, handled, vd, ed, id, yd, h) =
      handler_lem inside (IsValid-counters k _ _ _ _ k.intr_on true false v) refl i off r in
    let left : Kernel = record done { in_external_intr = false } in
    let vl : IsValid left =
      IsValid-counters done _ _ _ _ done.intr_on false done.yield_on_return vd in
    let (k', yields, v', highest, kept) = thread_yield_highest left vl refl in
    (
      k',
      entry_lem timer_interrupt k done k' e i handled id ed yd yields,
      v',
      highest,
      left-Interrupted k left k' vl refl
          (record {
            counted = h.counted;
            same_current = h.same_current;
            same_idle = h.same_idle;
            woken = h.woken;
            split = h.split;
            due = h.due;
            early = h.early;
            queued = h.queued;
          })
          yields kept,
    )
