-- ===== src/Sched/Reweigh.antt =====
-- The running thread changes its own priority: thread_set_priority and thread_set_nice of
-- threads/thread.c.
use mathlib.Core.List.{Mem, mem-cons, not-mem-nil, mem-cons_self, mem-cons_of_mem}
use mathlib.Core.List.Perm
use mathlib.Core.Logic.Or
use native.Mathlib.Bridge.{le_prop}
use project_pintos.Base.{
  ℕ, ◌≡◌, ◌≢◌, refl, sym, ◌∙◌, ap, true, false, if◌then◌else◌, List, [], ◌∷◌, some, arith,
  Bool-cases, inl, inr,
}
use project_pintos.Base.Int.{ℤ, ◌≤ℤ◌}
use project_pintos.ListAlgo.{is_sorted}
use project_pintos.Sched.{Kernel, Thread, running, ready, update, priority_comp, priority_of, ◌>>=◌}
use project_pintos.Sched.Switch.{
  thread_yield, outranked, max_priority_in_ready, thread_set_priority,
}
use project_pintos.Sched.Mlfqs.{thread_set_nice}
use project_pintos.Sched.Valid.{IsValid, current_lem, head_highest}
use project_pintos.Sched.Schedule.{RunsHighest}
use project_pintos.Sched.Preempt.{thread_yield_highest}
use project_pintos.Sched.Places.{IsValid-same, SamePlaces-update}
use project_pintos.Sched.Reprice.{new_priority_total}

-- The order of a list depends on the priorities of its members.
pub is_sorted-same :
    (p q : ℕ → ℤ) (l : List ℕ)
    → ((u : ℕ) → Mem u l → p u ≡ q u)
    → is_sorted (priority_comp p) l ≡ true
    → is_sorted (priority_comp q) l ≡ true
unfolding is_sorted
is_sorted-same p q [] e h = refl
is_sorted-same p q (a ∷ []) e h = refl
is_sorted-same p q (a ∷ (b ∷ r)) e h =
    let rest = is_sorted-same p q (b ∷ r) (λ u m. e u (mem-cons_of_mem a m)) (ground arith) in
    ground (arith, e a mem-cons_self, e b (mem-cons_of_mem a mem-cons_self))

-- Where no ready thread has a priority above that of the running one, the head has not.
not_outranked :
    (k : Kernel) → IsValid k → outranked k (priority_of k k.current) ≡ false → RunsHighest k
unfolding outranked max_priority_in_ready
not_outranked k v h = by_list k.ready_list refl
  where
    by_list : (l : List ℕ) → k.ready_list ≡ l → RunsHighest k
    by_list [] q u e = absurd (not-mem-nil (rw q at e))
    by_list (t ∷ rest) q u e =
        let order : is_sorted (priority_comp (priority_of k)) (t ∷ rest) ≡ true =
          rw q at v.queue.sorted in
        let le : priority_of k t ≤ℤ priority_of k k.current = ground arith in
        Or.elim le_prop (mem-cons.0 (rw q at e)) (λ r. rw r le)
          (λ r. ground (arith, head_highest (priority_of k) t rest order u r))

module _ (k : Kernel) (v : IsValid k) (off : k.in_external_intr ≡ false) (x : Thread)
    (status : x.status ≡ (k.threads k.current).status)
    (magic : x.magic ≡ (k.threads k.current).magic)
    (alarm : x.alarm_ticks ≡ (k.threads k.current).alarm_ticks) where
  abbrev changed : Kernel
  changed = record k { threads = update k.threads k.current x }

  not_current : (u : ℕ) → Mem u k.ready_list → k.current ≢ u
  not_current u m q =
      apart (sym v.current_runs.2 ∙ ap (λ a. (k.threads a).status) q ∙ (v.queue.members u m).2)
    where
      apart : running ≢ ready
      apart h = cc

  unchanged : (u : ℕ) → k.current ≢ u → (k.threads u).priority ≡ (changed.threads u).priority
  unchanged u ne = ground arith

  changed-IsValid : IsValid changed
  changed-IsValid =
      IsValid-same k changed.threads k.ready_list v
        (SamePlaces-update k.threads changed.threads k.current x status magic alarm
          (record { status_eq = λ u. refl; magic_eq = λ u. refl; alarm_eq = λ u. refl }))
        (Perm.refl _)
        (is_sorted-same _ _ k.ready_list (λ u m. unchanged u (not_current u m)) v.queue.sorted)

  self : (changed.threads k.current).priority ≡ x.priority
  self = ground arith

  yields_if_outranked :
      (k' : Kernel) × ((if outranked changed x.priority then thread_yield changed else some changed)
        ≡ some k')
      × IsValid k'
      × RunsHighest k'
  yields_if_outranked = elim (Bool-cases (outranked changed x.priority)) [
    | inl e ↦
        let (k', yields, valid, highest, kept) = thread_yield_highest changed changed-IsValid off in
        (k', rw e yields, valid, highest)
    | inr e ↦
        (changed, rw e refl, changed-IsValid, not_outranked changed changed-IsValid (rw self e))
  ]

-- Outside an interrupt `thread_set_priority` succeeds from every valid state and leaves a valid one, in
-- which no ready thread outranks the running one: it yields if it lowered itself below another.
pub thread_set_priority_highest :
    (p : ℤ) (k : Kernel)
    → IsValid k
    → k.in_external_intr ≡ false
    → (k' : Kernel) × (thread_set_priority p k ≡ some k') × IsValid k' × RunsHighest k'
unfolding thread_set_priority
thread_set_priority_highest p k v off =
    let (k', yields, valid, highest) =
      yields_if_outranked k v off (record (k.threads k.current) { priority = p }) refl refl refl in
    (k', rw (current_lem k v, ◌>>=◌) yields, valid, highest)

-- Outside an interrupt `thread_set_nice` succeeds from every valid state and leaves a valid one, in which
-- no ready thread outranks the running one.
pub thread_set_nice_highest :
    (nice : ℤ) (k : Kernel)
    → IsValid k
    → k.in_external_intr ≡ false
    → (k' : Kernel) × (thread_set_nice nice k ≡ some k') × IsValid k' × RunsHighest k'
unfolding thread_set_nice
thread_set_nice_highest nice k v off =
    let (p, e, lo, hi) = new_priority_total (k.threads k.current).recent_cpu nice in
    let (k', yields, valid, highest) =
      yields_if_outranked k v off (record (k.threads k.current) { nice = nice; priority = p }) refl
        refl refl in
    (k', rw (current_lem k v, ◌>>=◌, e) yields, valid, highest)
