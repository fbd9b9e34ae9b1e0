-- ===== src/Synch/Laws.antt =====
-- What semaphores and locks of threads/synch.c guarantee.
use mathlib.Core.List.{Mem, Perm, mem-cons_self, mem-cons_of_mem}
use mathlib.Core.List.Perm
use project_pintos.Base.{
  ℕ, ◌+◌, ◌-◌, ◌^◌, ◌<◌, ◌≡◌, ◌≢◌, ◌⊎◌, inl, inr, refl, ◌∙◌, ◌==◌, true, false, List, [], ◌∷◌,
  Option, none, some, arith, Bool-cases,
}
use project_pintos.Base.Int.{◌≤ℤ◌}
use project_pintos.ListAlgo.{is_sorted, insert_ordered}
use project_pintos.ListAlgo.Sorted.{insert_ordered-sorted}
use project_pintos.ListAlgo.Perm.{insert_ordered-perm}
use project_pintos.Sched.{Kernel, blocked, ◌>>=◌, priority_comp, priority_of, thread_current}
use project_pintos.Sched.Switch.{thread_block, thread_unblock, thread_yield}
use project_pintos.Sched.Valid.{current_lem, IsValid, HasStatus, priority_comp_asym, head_highest}
use project_pintos.Sched.Schedule.{RunsHighest, Runnable}
use project_pintos.Sched.Preempt.{thread_yield_highest, thread_block_highest, yield-Runnable}
use project_pintos.Sched.Unblock.{thread_unblock-IsValid}
use project_pintos.Synch.{Sema, Progress, sema_down_pass, sema_down, sema_wake, sema_up}

yield-in_interrupt : (k : Kernel) → k.in_external_intr ≡ true → thread_yield k ≡ none
unfolding thread_yield
yield-in_interrupt k e = ground arith

unblock_context :
    (t : ℕ) (k k' : Kernel)
    → thread_unblock t k ≡ some k'
    → k'.in_external_intr ≡ k.in_external_intr
unfolding thread_unblock
unblock_context t k k' h = ground arith

wake_context :
    (s : Sema) (k : Kernel) (w : Sema × Kernel)
    → sema_wake s k ≡ some w
    → w.1.in_external_intr ≡ k.in_external_intr
unfolding sema_wake
wake_context s k w h = by_list s.waiters refl
  where
    by_list : (l : List ℕ) → s.waiters ≡ l → w.1.in_external_intr ≡ k.in_external_intr
    by_list [] q = ground arith
    by_list (t ∷ rest) q = ground (arith, unblock_context t k w.1)

-- `sema_up` yields, which an interrupt handler must not do: called in an external interrupt it
-- panics, whatever the semaphore and the state of the scheduler.
pub sema_up-in_interrupt : (s : Sema) (k : Kernel) → k.in_external_intr ≡ true → sema_up s k ≡ none
unfolding sema_up
sema_up-in_interrupt s k e = go (sema_wake s masked) refl
  where
    masked : Kernel
    masked = record k { intr_on = false }

    go :
        (o : Option (Sema × Kernel))
        → sema_wake s (record k { intr_on = false }) ≡ o
        → sema_up s k ≡ none
    go none q = rw (q, ◌>>=◌) refl
    go (some w) q =
        rw (q, ◌>>=◌)
          (rw (yield-in_interrupt w.1 (wake_context s (record k { intr_on = false }) w q ∙ e)) refl)

-- What a semaphore's waiters are: blocked threads on no sleep list, each once, in the order of their
-- priorities, the idle thread not among them.
pub record IsWaiting (k : Kernel) (l : List ℕ) : Type 0 where
  pub members :
      (t : ℕ)
      → Mem t l
      → HasStatus k.threads blocked t × (¬ Mem t k.sleep_list) × (k.idle_thread ≢ t)
  pub sorted : is_sorted (priority_comp (priority_of k)) l ≡ true

masked-IsValid : (k : Kernel) → IsValid k → IsValid (record k { intr_on = false })
masked-IsValid k v = record {
  current_runs = v.current_runs;
  idle_alive = v.idle_alive;
  queue = v.queue;
  sleepers = v.sleepers;
  idle_awake = v.idle_awake;
}

-- What became of the waiters: none was there, or the one with the highest priority left, and runs now or
-- is ready to.
abbrev pub Served : Kernel → List ℕ → List ℕ → Kernel → Type 0
Served k l l' k' =
    ((l ≡ []) × (l' ≡ []))
    ⊎ ((t : ℕ) × (l ≡ t ∷ l')
        × ((u : ℕ) → Mem u l' → priority_of k u ≤ℤ priority_of k t)
        × Runnable k' t)

-- The part of `sema_up` before its yield; the waiter that left is queued then.
abbrev Woken : Kernel → List ℕ → List ℕ → Kernel → Type 0
Woken k l l' k' =
    ((l ≡ []) × (l' ≡ []) × (k'.ready_list ≡ k.ready_list))
    ⊎ ((t : ℕ) × (l ≡ t ∷ l')
        × ((u : ℕ) → Mem u l' → priority_of k u ≤ℤ priority_of k t)
        × Perm k'.ready_list (t ∷ k.ready_list))

wake-Woken :
    (s : Sema) (k : Kernel) (l : List ℕ)
    → s.waiters ≡ l
    → IsValid k
    → IsWaiting k l
    → s.value + 1 < 2 ^ 32
    → (s' : Sema) × (k' : Kernel) × (sema_wake s k ≡ some (s', k'))
      × IsValid k'
      × (s'.value ≡ s.value + 1)
      × Woken k l s'.waiters k'
unfolding sema_wake
wake-Woken s k [] q v w small =
    (record { value = s.value + 1; waiters = [] }, k, ground arith, v, refl, inl (refl, refl, refl))
wake-Woken s k (t ∷ rest) q v w small =
    let (blocked_t, awake, other) = w.members t mem-cons_self in
    let (k', runs, valid, queued, same) = thread_unblock-IsValid t k v blocked_t awake other in
    (
      record { value = s.value + 1; waiters = rest },
      k',
      ground arith,
      valid,
      refl,
      inr (t, refl, λ u h. head_highest (priority_of k) t rest w.sorted u h, queued),
    )

-- What the yield makes of it.
yielded-Served :
    (k woken k' : Kernel) (l l' : List ℕ)
    → ((u : ℕ) → Mem u woken.ready_list → Runnable k' u)
    → Woken k l l' woken
    → Served k l l' k' × ((u : ℕ) → Mem u k.ready_list → Runnable k' u)
yielded-Served k woken k' l l' stays (inl w) = (inl (w.0, w.1), λ u m. stays u (rw w.2 m))
yielded-Served k woken k' l l' stays (inr (t, split, highest, queued)) = (
  inr (t, split, highest, stays t ((Perm.mem_iff queued).1 mem-cons_self)),
  λ u m. stays u ((Perm.mem_iff queued).1 (mem-cons_of_mem t m)),
)

-- Outside an interrupt, where the waiters are blocked threads in the order of priorities and the value
-- has room to grow, `sema_up` succeeds from every valid state: the waiter, if any, with the highest
-- priority leaves the semaphore and runs or is ready to afterwards, as is every thread that was ready, the
-- value grows by one, the state stays valid, and the thread that runs afterwards is outranked by no ready
-- one.
pub sema_up_highest :
    (s : Sema) (k : Kernel)
    → IsValid k
    → k.in_external_intr ≡ false
    → IsWaiting k s.waiters
    → s.value + 1 < 2 ^ 32
    → (s' : Sema) × (k' : Kernel) × (sema_up s k ≡ some (s', k'))
      × IsValid k'
      × RunsHighest k'
      × (s'.value ≡ s.value + 1)
      × Served k s.waiters s'.waiters k'
      × ((u : ℕ) → Mem u k.ready_list → Runnable k' u)
unfolding sema_up
sema_up_highest s k v e w small =
    let masked : Kernel = record k { intr_on = false } in
    let (s', woken, wakes, valid, value, left) =
      wake-Woken s masked s.waiters refl (masked-IsValid k v)
        (record { members = w.members; sorted = w.sorted }) small in
    let clear = wake_context s masked (s', woken) wakes ∙ e in
    let (k', yields, valid', highest, kept) = thread_yield_highest woken valid clear in
    let (served, others) =
      yielded-Served masked woken k' s.waiters s'.waiters
        (λ u m. yield-Runnable woken valid k' u clear yields m) left in
    (s', k', rw (wakes, ◌>>=◌) (rw (yields, ◌>>=◌) refl), valid', highest, value, served, others)

-- The way through `sema_down` that waits.
down_waits :
    (s : Sema) (k k' : Kernel)
    → k.in_external_intr ≡ false
    → s.value ≡ 0
    → thread_current (record k { intr_on = false }) ≡ some k.current
    → thread_block (record k { intr_on = false }) ≡ some k'
    → sema_down s k
      ≡ some (
        Progress.waiting,
        record s { waiters = insert_ordered (priority_comp (priority_of k)) k.current s.waiters },
        k',
      )
unfolding sema_down sema_down_pass
down_waits s k k' e z c b = ground arith

-- `sema_down` outside an interrupt, from a valid state. A positive value falls by one and the call
-- returns, with the scheduler as it was; at zero the running thread joins the waiters, in the order of
-- priorities, and another thread runs, outranked by no ready one.
pub sema_down_lem :
    (s : Sema) (k : Kernel)
    → IsValid k
    → k.in_external_intr ≡ false
    → is_sorted (priority_comp (priority_of k)) s.waiters ≡ true
    → ((s.value ≢ 0)
        × (sema_down s k ≡ some (Progress.returned, record s { value = s.value - 1 }, k)))
      ⊎ ((s.value ≡ 0)
          × ((s' : Sema) × (k' : Kernel) × (sema_down s k ≡ some (Progress.waiting, s', k'))
              × IsValid k'
              × RunsHighest k'
              × Perm s'.waiters (k.current ∷ s.waiters)
              × (is_sorted (priority_comp (priority_of k)) s'.waiters ≡ true)))
unfolding sema_down sema_down_pass
sema_down_lem s k v e h = elim (Bool-cases (s.value == 0)) [
  | inr more ↦ inl (ground arith, ground arith)
  | inl none_left ↦
      let masked : Kernel = record k { intr_on = false } in
      let valid : IsValid masked = masked-IsValid k v in
      let zero_value : s.value ≡ 0 = ground arith in
      let (k', blocks, valid', highest) = thread_block_highest masked valid e refl in
      inr (
        zero_value,
        (
          _,
          k',
          down_waits s k k' e zero_value (current_lem masked valid) blocks,
          valid',
          highest,
          insert_ordered-perm _ k.current s.waiters,
          insert_ordered-sorted _ (priority_comp_asym (priority_of k)) k.current s.waiters h,
        ),
      )
]
