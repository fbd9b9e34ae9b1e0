-- ===== src/Sched/Newborn.antt =====
-- thread_create of threads/thread.c.
use mathlib.Core.List.{Mem, Perm, mem-cons_self, mem-cons_of_mem}
use mathlib.Core.List.Perm
use project_pintos.Base.{
  ℕ, ◌+◌, ◌%◌, ◌^◌, ◌≡◌, ◌≢◌, ◌⊎◌, refl, sym, ◌∙◌, ap, true, false, List, [], ◌∷◌, ◌++◌, some,
  arith, inl, inr,
}
use project_pintos.Base.Int.{ℤ, pos, ◌≤ℤ◌}
use project_pintos.Fixed.Priority.{pri_min, pri_max}
use project_pintos.ListAlgo.{is_sorted}
use project_pintos.ListAlgo.Perm.{insert_ordered-perm}
use project_pintos.Sched.{
  Kernel, blocked, update, priority_comp, priority_of, alarm_ticks_comp, thread_magic, ◌>>=◌,
}
use project_pintos.Sched.Create.{init_thread, allocate_tid, inherit, thread_create}
use project_pintos.Sched.Valid.{IsValid, HasStatus}
use project_pintos.Sched.Schedule.{RunsHighest}
use project_pintos.Sched.Preempt.{thread_yield_highest, yield-Dispatched}
use project_pintos.Sched.Newcomer.{Created, yielded-Created}
use project_pintos.Sched.Unblock.{unblocked, unblock-step, unblocked-IsValid}
use project_pintos.Sched.Reweigh.{is_sorted-same}

-- A page that no thread of the kernel lives in.
pub record IsFresh (t : ℕ) (k : Kernel) : Type 0 where
  pub not_null : t ≢ 0
  pub not_current : k.current ≢ t
  pub not_idle : k.idle_thread ≢ t
  pub not_ready : ¬ Mem t k.ready_list
  pub not_asleep : ¬ Mem t k.sleep_list

pub alarms-same :
    (p q : ℕ → ℤ) (l : List ℕ)
    → ((u : ℕ) → Mem u l → p u ≡ q u)
    → is_sorted (alarm_ticks_comp p) l ≡ true
    → is_sorted (alarm_ticks_comp q) l ≡ true
unfolding is_sorted
alarms-same p q [] e h = refl
alarms-same p q (a ∷ []) e h = refl
alarms-same p q (a ∷ (b ∷ r)) e h =
    let rest = alarms-same p q (b ∷ r) (λ u m. e u (mem-cons_of_mem a m)) (ground arith) in
    ground (arith, e a mem-cons_self, e b (mem-cons_of_mem a mem-cons_self))

-- Thread tables that agree but at a fresh page.
fresh-IsValid :
    (k k' : Kernel) (t : ℕ)
    → IsValid k
    → IsFresh t k
    → ((u : ℕ) → t ≢ u → k'.threads u ≡ k.threads u)
    → k'.current ≡ k.current
    → k'.idle_thread ≡ k.idle_thread
    → k'.ready_list ≡ k.ready_list
    → k'.sleep_list ≡ k.sleep_list
    → IsValid k'
fresh-IsValid k k' t v f same c i r s = record {
  current_runs = rw (c, same k.current (λ q. f.not_current (sym q))) v.current_runs;
  idle_alive = rw (i, same k.idle_thread (λ q. f.not_idle (sym q))) v.idle_alive;
  queue = record {
    members = λ u e. rw (same u (off_ready u (rw r at e))) (v.queue.members u (rw r at e));
    distinct = rw r v.queue.distinct;
    sorted = rw r (
        is_sorted-same _ _ k.ready_list (λ u m. ap (λ x. x.priority) (sym (same u (off_ready u m))))
          v.queue.sorted);
    no_idle = rw (i, r) v.queue.no_idle;
  };
  sleepers = record {
    members = λ u e. rw (same u (off_asleep u (rw s at e))) (v.sleepers.members u (rw s at e));
    distinct = rw s v.sleepers.distinct;
    sorted = rw s (
        alarms-same _ _ k.sleep_list
          (λ u m. ap (λ x. x.alarm_ticks) (sym (same u (off_asleep u m)))) v.sleepers.sorted);
  };
  idle_awake = rw (i, s) v.idle_awake;
}
  where
    off_ready : (u : ℕ) → Mem u k.ready_list → t ≢ u
    off_ready u m q = f.not_ready (rw q m)

    off_asleep : (u : ℕ) → Mem u k.sleep_list → t ≢ u
    off_asleep u m q = f.not_asleep (rw q m)

-- What creating a thread leaves alone.
record SameLists (k k' : Kernel) : Type 0 where
  current_eq : k'.current ≡ k.current
  idle_eq : k'.idle_thread ≡ k.idle_thread
  ready_eq : k'.ready_list ≡ k.ready_list
  sleep_eq : k'.sleep_list ≡ k.sleep_list
  context_eq : k'.in_external_intr ≡ k.in_external_intr
  next_eq : k'.next_tid ≡ (k.next_tid + 1) % 2 ^ 32

-- The kernel when `thread_create` is about to queue the new thread.
made_lem :
    (t : ℕ) (priority : ℤ) (k : Kernel)
    → IsFresh t k
    → pri_min ≤ℤ priority
    → priority ≤ℤ pri_max
    → (made : Kernel) × (init_thread t priority k ≡ some made)
      × ((u : ℕ) → t ≢ u → (inherit t made).threads u ≡ k.threads u)
      × HasStatus (inherit t made).threads blocked t
      × (((inherit t made).threads t).tid ≡ k.next_tid)
      × (((inherit t made).threads t).priority ≡ priority)
      × SameLists k (inherit t made)
unfolding init_thread inherit allocate_tid
made_lem t priority k f lo hi = (
  record k {
    threads = update k.threads t (record {
      tid = 0;
      status = blocked;
      priority = priority;
      alarm_ticks = pos 0;
      recent_cpu = pos 0;
      nice = pos 0;
      magic = thread_magic;
    });
    all_list = k.all_list ++ (t ∷ []);
  },
  ground (arith, f.not_null),
  λ u ne. ground arith,
  ground (arith, f.not_null),
  ground arith,
  ground arith,
  record {
    current_eq = refl;
    idle_eq = refl;
    ready_eq = refl;
    sleep_eq = refl;
    context_eq = refl;
    next_eq = refl;
  },
)

perm_to :
    {c d : ℕ} {l r : List ℕ} (t : ℕ) (xs : List ℕ)
    → c ≡ d
    → l ≡ r
    → Perm xs (c ∷ t ∷ l)
    → Perm xs (d ∷ t ∷ r)
perm_to t xs p q h = rw (sym p, sym q) h

-- Outside an interrupt `thread_create` with a fresh page and a legal priority succeeds from every valid
-- state. It returns the next identifier, which the new thread has and which is counted up, in 32 bits; the
-- new thread has the priority given and runs or is ready to. The state is valid and no ready thread outranks
-- the running one: the new thread runs at once, or one runs that ran or was ready before and has at least
-- its priority. Unless the idle thread created it, the new thread joins those that run or are ready.
pub thread_create_highest :
    (t : ℕ) (priority : ℤ) (k : Kernel)
    → IsValid k
    → IsFresh t k
    → k.in_external_intr ≡ false
    → pri_min ≤ℤ priority
    → priority ≤ℤ pri_max
    → (k' : Kernel) × (thread_create (some t) priority k ≡ some (some k.next_tid, k'))
      × IsValid k'
      × RunsHighest k'
      × ((k.current ≡ k.idle_thread)
          ⊎ Perm (k'.current ∷ k'.ready_list) (k.current ∷ t ∷ k.ready_list))
      × Created t priority k k'
unfolding thread_create
thread_create_highest t priority k v f off lo hi =
    let (made, makes, same, newborn, number, rank, rest) = made_lem t priority k f lo hi in
    let named : Kernel = inherit t made in
    let valid : IsValid named =
      fresh-IsValid k named t v f same rest.current_eq rest.idle_eq rest.ready_eq rest.sleep_eq in
    let queued-IsValid : IsValid (unblocked t named) =
      unblocked-IsValid t named valid newborn (rw rest.sleep_eq f.not_asleep)
        (rw rest.idle_eq f.not_idle) in
    let clear = rest.context_eq ∙ off in
    let (k', yields, valid', highest, kept) =
      thread_yield_highest (unblocked t named) queued-IsValid clear in
    (
      k',
      rw (makes, ◌>>=◌)
          (rw (unblock-step t named newborn, ◌>>=◌) (rw (yields, ◌>>=◌, number) refl)),
      valid',
      highest,
      elim kept [
        | inl idle ↦ inl (sym rest.current_eq ∙ idle ∙ rest.idle_eq)
        | inr perm ↦ inr (
            perm_to t _ rest.current_eq rest.ready_eq (
              Perm.trans perm (
                Perm.cons named.current
                  (insert_ordered-perm (priority_comp (priority_of named)) t named.ready_list))))
      ],
      yielded-Created t priority k named k' f.not_current f.not_ready same number rank
          rest.current_eq rest.ready_eq rest.next_eq queued-IsValid
          (yield-Dispatched (unblocked t named) queued-IsValid k' clear yields),
    )
