-- ===== src/Sched/Preempt.antt =====
-- The operations of threads/thread.c that queue and switch threads keep the scheduler's invariant,
-- never panic from a valid state, and run a thread that no ready thread outranks.
use mathlib.Core.List.{Mem, Perm, nil≢cons, mem-cons_self, mem-cons_of_mem}
use mathlib.Core.List.Perm
use mathlib.Core.Option.{some-injective}
use mathlib.Core.Path.{subst}
use native.Mathlib.Decide.{ℕ_discrete}
use project_pintos.Base.{
  ℕ, ◌≡◌, ◌≢◌, refl, sym, ◌∙◌, ◌⊎◌, inl, inr, ◌==◌, false, if◌then◌else◌, [], ◌∷◌, some, arith,
  Bool-cases,
}
use project_pintos.ListAlgo.{insert_ordered}
use project_pintos.ListAlgo.Perm.{insert_ordered-perm}
use project_pintos.Sched.{
  Kernel, running, ready, blocked, dying, set_status, priority_comp, priority_of,
}
use project_pintos.Sched.Switch.{schedule, thread_block, thread_yield, thread_exit, list_remove}
use project_pintos.Sched.Valid.{
  IsReadyQueue, IsValid, IsAlive-set, IsReadyQueue-set, IsSleepQueue-set, IsReadyQueue-insert,
  ready-not_asleep,
}
use project_pintos.Sched.Schedule.{
  IsLeaving, RunsHighest, Dispatched, Runnable, Dispatched-Runnable, schedule-Dispatched,
}

module _ (k : Kernel) (v : IsValid k) where
  open v use {current_runs, idle_alive, queue, sleepers, idle_awake}

  current-not_queued : ¬ Mem k.current k.ready_list
  current-not_queued e = running≢ready (sym current_runs.2 ∙ (queue.members k.current e).2)
    where
      running≢ready : running ≢ ready
      running≢ready h = cc

  pub current-not_asleep : ¬ Mem k.current k.sleep_list
  current-not_asleep =
      ready-not_asleep k.threads k.current k.sleep_list sleepers
        (λ b. running≢blocked (sym current_runs.2 ∙ b))
    where
      running≢blocked : running ≢ blocked
      running≢blocked h = cc

  -- The state that `thread_yield` hands to `schedule`.
  abbrev pub yielding : Kernel
  yielding = record k {
    intr_on = false;
    ready_list =
        if k.current == k.idle_thread
        then k.ready_list
        else insert_ordered (priority_comp (priority_of k)) k.current k.ready_list;
    threads = set_status k.threads k.current ready;
  }

  pub yield-step : k.in_external_intr ≡ false → thread_yield k ≡ schedule yielding
  unfolding thread_yield
  yield-step e = ground arith

  yielding-queue : IsReadyQueue yielding.threads k.idle_thread yielding.ready_list
  yielding-queue = elim (Bool-cases (k.current == k.idle_thread)) [
    | inl e ↦ rw e (
        IsReadyQueue-set k.threads k.idle_thread k.current ready k.ready_list current-not_queued
          queue)
    | inr e ↦ rw e (
        IsReadyQueue-insert k.threads k.idle_thread k.current k.ready_list
          (current_runs.0, current_runs.1) current-not_queued (λ q. ground arith) queue)
  ]

  pub yielding-IsLeaving : IsLeaving yielding
  yielding-IsLeaving = record {
    masked = refl;
    current_alive =
        IsAlive-set k.threads k.current k.current ready (current_runs.0, current_runs.1);
    not_running = λ h. ground arith;
    idle_alive = IsAlive-set k.threads k.current k.idle_thread ready idle_alive;
    queue = yielding-queue;
    sleepers = IsSleepQueue-set k.threads k.current ready k.sleep_list current-not_asleep sleepers;
    idle_awake = idle_awake;
  }

  requeued : k.current ≢ k.idle_thread → Perm yielding.ready_list (k.current ∷ k.ready_list)
  requeued ne = elim (Bool-cases (k.current == k.idle_thread)) [
    | inl e ↦ absurd (ne (ground arith))
    | inr e ↦ rw e (insert_ordered-perm (priority_comp (priority_of k)) k.current k.ready_list)
  ]

  -- Every way through `thread_yield` is a switch.
  pub yield-Dispatched :
      (k' : Kernel) → k.in_external_intr ≡ false → thread_yield k ≡ some k' → Dispatched yielding k'
  yield-Dispatched k' e h =
      let (next, runs, d) = schedule-Dispatched yielding yielding-IsLeaving in
      subst (Dispatched yielding) (some-injective _ _ (sym runs ∙ sym (yield-step e) ∙ h)) d

  pub queued-yielding : (u : ℕ) → Mem u k.ready_list → Mem u yielding.ready_list
  queued-yielding u m = elim (Bool-cases (k.current == k.idle_thread)) [
    | inl e ↦ rw e m
    | inr e ↦ rw e (
        (Perm.mem_iff
            (insert_ordered-perm (priority_comp (priority_of k)) k.current k.ready_list)).1
          (mem-cons_of_mem k.current m))
  ]

  pub yielding-Runnable : (u : ℕ) → Mem u yielding.ready_list → Runnable k u
  yielding-Runnable u m = elim (Bool-cases (k.current == k.idle_thread)) [
    | inl e ↦ mem-cons_of_mem k.current (rw e at m)
    | inr e ↦
        (Perm.mem_iff
            (insert_ordered-perm (priority_comp (priority_of k)) k.current k.ready_list)).0
          (rw e at m)
  ]

  -- A ready thread stays ready, or runs.
  pub yield-Runnable :
      (k' : Kernel) (u : ℕ)
      → k.in_external_intr ≡ false
      → thread_yield k ≡ some k'
      → Mem u k.ready_list
      → Runnable k' u
  yield-Runnable k' u e h m =
      Dispatched-Runnable yielding k' u (yield-Dispatched k' e h) (queued-yielding u m)

  -- Outside an interrupt `thread_yield` succeeds from every valid state. It leaves a valid state, the
  -- thread that runs then is outranked by no ready one, and, unless the idle thread yielded, the
  -- running and the ready threads together are the same as before.
  pub thread_yield_highest :
      k.in_external_intr ≡ false
      → (k' : Kernel) × (thread_yield k ≡ some k')
        × IsValid k'
        × RunsHighest k'
        × ((k.current ≡ k.idle_thread)
            ⊎ Perm (k'.current ∷ k'.ready_list) (k.current ∷ k.ready_list))
  thread_yield_highest e =
      let (k', runs, d) = schedule-Dispatched yielding yielding-IsLeaving in
      (
        k',
        yield-step e ∙ runs,
        d.valid,
        d.highest,
        elim (ℕ_discrete k.current k.idle_thread) [
          | yes same ↦ inl same
          | no ne ↦ inr (kept k' ne d.who)
        ],
      )
    where
      kept :
          (k' : Kernel)
          → k.current ≢ k.idle_thread
          → ((yielding.ready_list ≡ []) × (k'.current ≡ k.idle_thread) × (k'.ready_list ≡ []))
            ⊎ (yielding.ready_list ≡ k'.current ∷ k'.ready_list)
          → Perm (k'.current ∷ k'.ready_list) (k.current ∷ k.ready_list)
      kept k' ne (inl w) = absurd (nil≢cons (Perm.nil-eq (rw w.0 at (requeued ne))))
      kept k' ne (inr w) = rw (← w) (requeued ne)

  -- `thread_block`, with interrupts off, leaves the running thread blocked and runs another one.
  pub blocking-IsLeaving :
      k.intr_on ≡ false → IsLeaving (record k { threads = set_status k.threads k.current blocked })
  blocking-IsLeaving e = record {
    masked = e;
    current_alive =
        IsAlive-set k.threads k.current k.current blocked (current_runs.0, current_runs.1);
    not_running = λ h. ground arith;
    idle_alive = IsAlive-set k.threads k.current k.idle_thread blocked idle_alive;
    queue =
        IsReadyQueue-set k.threads k.idle_thread k.current blocked k.ready_list current-not_queued
          queue;
    sleepers =
        IsSleepQueue-set k.threads k.current blocked k.sleep_list current-not_asleep sleepers;
    idle_awake = idle_awake;
  }

  pub block-step :
      k.in_external_intr ≡ false
      → k.intr_on ≡ false
      → thread_block k ≡ schedule (record k { threads = set_status k.threads k.current blocked })
  unfolding thread_block
  block-step e i = ground arith

  -- With interrupts off and outside an interrupt, `thread_block` succeeds from every valid state and
  -- leaves a valid one, in which the thread that runs is outranked by no ready one.
  pub thread_block_highest :
      k.in_external_intr ≡ false
      → k.intr_on ≡ false
      → (k' : Kernel) × (thread_block k ≡ some k') × IsValid k' × RunsHighest k'
  thread_block_highest e i =
      let (k', runs, d) = schedule-Dispatched _ (blocking-IsLeaving i) in
      (k', block-step e i ∙ runs, d.valid, d.highest)

  exiting-IsLeaving : IsLeaving (record k {
    intr_on = false;
    all_list = list_remove k.current k.all_list;
    threads = set_status k.threads k.current dying;
  })
  exiting-IsLeaving = record {
    masked = refl;
    current_alive =
        IsAlive-set k.threads k.current k.current dying (current_runs.0, current_runs.1);
    not_running = λ h. ground arith;
    idle_alive = IsAlive-set k.threads k.current k.idle_thread dying idle_alive;
    queue =
        IsReadyQueue-set k.threads k.idle_thread k.current dying k.ready_list current-not_queued
          queue;
    sleepers = IsSleepQueue-set k.threads k.current dying k.sleep_list current-not_asleep sleepers;
    idle_awake = idle_awake;
  }

  exit-step :
      k.in_external_intr ≡ false
      → thread_exit k
        ≡ schedule (record k {
          intr_on = false;
          all_list = list_remove k.current k.all_list;
          threads = set_status k.threads k.current dying;
        })
  unfolding thread_exit
  exit-step e = ground arith

  -- Outside an interrupt `thread_exit` of a thread that is not the idle thread succeeds from every valid
  -- state, keeps it valid, takes the thread off the list of all threads, and hands the processor to another thread.
  pub thread_exit_highest :
      k.in_external_intr ≡ false
      → k.current ≢ k.idle_thread
      → (k' : Kernel) × (thread_exit k ≡ some k')
        × IsValid k'
        × RunsHighest k'
        × (k'.current ≢ k.current)
        × (k'.all_list ≡ list_remove k.current k.all_list)
  thread_exit_highest e ne =
      let (k', runs, d) = schedule-Dispatched _ exiting-IsLeaving in
      (k', exit-step e ∙ runs, d.valid, d.highest, other k' d.who, d.same.1)
    where
      other :
          (k' : Kernel)
          → ((k.ready_list ≡ []) × (k'.current ≡ k.idle_thread) × (k'.ready_list ≡ []))
            ⊎ (k.ready_list ≡ k'.current ∷ k'.ready_list)
          → k'.current ≢ k.current
      other k' (inl w) h = ne (sym h ∙ w.1)
      other k' (inr w) h = current-not_queued (rw (w, ← h) mem-cons_self)
