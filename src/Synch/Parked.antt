-- ===== src/Synch/Parked.antt =====
-- Which threads stay off the processor: what blocking, yielding and unblocking (threads/thread.c) leave
-- of the other blocked threads.
use mathlib.Core.Option.{some-injective}
use mathlib.Core.List.{Mem, mem-cons, mem-cons_self}
use mathlib.Core.List.Perm
use mathlib.Core.Logic.Or
use project_pintos.Base.{ℕ, ◌≡◌, ◌≢◌, sym, ◌∙◌, ◌⊎◌, inl, inr, false, [], ◌∷◌, some, arith}
use project_pintos.ListAlgo.Perm.{insert_ordered-perm}
use project_pintos.Sched.{Kernel, running, ready, blocked, priority_comp, priority_of}
use project_pintos.Sched.Switch.{schedule, thread_block, thread_unblock, thread_yield}
use project_pintos.Sched.Valid.{IsValid, HasStatus, HasStatus-set_ne}
use project_pintos.Sched.Schedule.{
  IsLeaving, schedule-Dispatched, Dispatched, Runnable, Dispatched-Runnable,
}
use project_pintos.Sched.Preempt.{
  yield-step, yielding-IsLeaving, block-step, blocking-IsLeaving, current-not_asleep,
  yield-Runnable,
}
use project_pintos.Sched.Unblock.{unblocked, unblock-step, unblocked-IsValid}

-- A thread that only `thread_unblock` brings back: blocked, not asleep, and not the idle thread.
abbrev pub IsParked : Kernel → ℕ → Type 0
IsParked k u = HasStatus k.threads blocked u × (¬ Mem u k.sleep_list) × (k.idle_thread ≢ u)

-- A valid state in which the parked threads of another one still are, and in which the threads that ran or
-- were ready there do or are, but perhaps the one that ran.
abbrev pub Parks : Kernel → Kernel → Type 0
Parks k k' =
    IsValid k'
    × ((u : ℕ) → IsParked k u → IsParked k' u)
    × ((u : ℕ) → k.current ≢ u → Runnable k u → Runnable k' u)

-- A thread that is ready, where it does not run.
pub Runnable-ready : (k : Kernel) (u : ℕ) → k.current ≢ u → Runnable k u → Mem u k.ready_list
Runnable-ready k u ne m = Or.elim (hlevel) (mem-cons.0 m) (λ e. absurd (ne (sym e))) (λ r. r)

-- The running thread is not parked.
pub current-IsParked : (k : Kernel) → IsValid k → ¬ IsParked k k.current
current-IsParked k v h = running≢blocked (sym v.current_runs.2 ∙ h.0.2)
  where
    running≢blocked : running ≢ blocked
    running≢blocked h = cc

next_not_parked :
    (k k' : Kernel) (u : ℕ) → IsLeaving k → Dispatched k k' → IsParked k u → k'.current ≢ u
next_not_parked k k' u v d h q = by_who d.who
  where
    ready≢blocked : ready ≢ blocked
    ready≢blocked h = cc

    by_who :
        ((k.ready_list ≡ []) × (k'.current ≡ k.idle_thread) × (k'.ready_list ≡ []))
          ⊎ (k.ready_list ≡ k'.current ∷ k'.ready_list)
        → ⊥
    by_who (inl w) = h.2 (sym w.1 ∙ q)
    by_who (inr w) = ready≢blocked (sym (v.queue.members u (rw (w, q) mem-cons_self)).2 ∙ h.0.2)

-- A switch parks no thread and brings none back, and loses no ready thread.
schedule-Parks :
    (k k' : Kernel)
    → IsLeaving k
    → schedule k ≡ some k'
    → IsValid k'
      × ((u : ℕ) → IsParked k u → IsParked k' u)
      × ((u : ℕ) → Mem u k.ready_list → Runnable k' u)
schedule-Parks k k' v e =
    let (next, runs, d) = schedule-Dispatched k v in
    let same : next ≡ k' = some-injective _ _ (sym runs ∙ e) in
    rw (← same) (d.valid, λ u h. moved next d u h, λ u m. Dispatched-Runnable k next u d m)
  where
    moved : (next : Kernel) → Dispatched k next → (u : ℕ) → IsParked k u → IsParked next u
    moved next d u h =
        let off = d.others u (next_not_parked k next u v d h) in
        (rw off h.0, rw d.same.0 h.1, rw d.same.3 h.2)

module _ (k k' : Kernel) (v : IsValid k) (e : k.in_external_intr ≡ false) where
  -- `thread_block` leaves the parked threads alone and parks the running one.
  pub thread_block-Parks :
      k.intr_on ≡ false
      → thread_block k ≡ some k'
      → Parks k k' × (k.idle_thread ≢ k.current → IsParked k' k.current)
  thread_block-Parks i h =
      let leaving = blocking-IsLeaving k v i in
      let (valid, stays, runs) = schedule-Parks _ k' leaving (sym (block-step k v e i) ∙ h) in
      (
        (
          valid,
          λ u p. stays u (
            HasStatus-set_ne k.threads k.current u blocked blocked
                (λ q. current-IsParked k v (rw q p)) p.0,
            p.1,
            p.2,
          ),
          λ u ne m. runs u (Runnable-ready k u ne m),
        ),
        λ ne. stays k.current (
          (v.current_runs.0, ground (arith, v.current_runs), ground arith),
          current-not_asleep k v,
          ne,
        ),
      )

  -- `thread_yield` leaves the parked threads alone.
  pub thread_yield-Parks : thread_yield k ≡ some k' → Parks k k'
  thread_yield-Parks h =
      let (valid, stays, others) =
        schedule-Parks _ k' (yielding-IsLeaving k v) (sym (yield-step k v e) ∙ h) in
      (
        valid,
        λ u p. stays u (
          HasStatus-set_ne k.threads k.current u ready blocked (λ q. current-IsParked k v (rw q p))
              p.0,
          p.1,
          p.2,
        ),
        λ u ne m. yield-Runnable k v k' u e h (Runnable-ready k u ne m),
      )

-- `thread_unblock` of a parked thread brings back that one only, and makes it ready.
pub thread_unblock-Parks :
    (t : ℕ) (k k' : Kernel)
    → IsValid k
    → IsParked k t
    → thread_unblock t k ≡ some k'
    → IsValid k'
      × ((u : ℕ) → t ≢ u → IsParked k u → IsParked k' u)
      × ((u : ℕ) → Mem u (t ∷ k.ready_list) → Mem u k'.ready_list)
thread_unblock-Parks t k k' v p h =
    let same : unblocked t k ≡ k' = some-injective _ _ (sym (unblock-step t k p.0) ∙ h) in
    rw (← same) (
      unblocked-IsValid t k v p.0 p.1 p.2,
      λ u ne q. (HasStatus-set_ne k.threads t u ready blocked ne q.0, q.1, q.2),
      λ u m.
          (Perm.mem_iff (insert_ordered-perm (priority_comp (priority_of k)) t k.ready_list)).1 m,
    )
