-- ===== src/Sched/Alarm.antt =====
-- Waking the sleepers whose tick has come: `thread_alarm` of threads/thread.c.
use mathlib.Core.List.{
  Mem, Perm, mem-cons, Nodup-cons, not-mem-nil, mem-cons_self, mem-cons_of_mem, perm_middle,
}
use mathlib.Core.List.Perm
use mathlib.Core.Logic.Or
use mathlib.Core.Bool.{Bool-set}
use project_pintos.Base.{
  ℕ, ◌≡◌, refl, ◌∙◌, ap, inl, inr, true, false, List, [], ◌∷◌, ◌++◌, some, arith, Bool-cases,
}
use project_pintos.Base.Int.{ℤ, ltb_ℤ}
use project_pintos.ListAlgo.{is_sorted}
use project_pintos.ListAlgo.Perm.{insert_ordered-perm}
use project_pintos.Sched.{
  Kernel, Thread, ready, ◌>>=◌, priority_comp, priority_of, alarm_of, alarm_ticks_comp,
  intr_yield_on_return,
}
use project_pintos.Sched.Sleep.{wake_due, thread_alarm}
use project_pintos.Sched.Valid.{
  IsSleepQueue, IsValid, alarm-set_status, priority-set_status, is_sorted-tail,
}
use project_pintos.Sched.Unblock.{unblocked, unblock-step, unblocked-IsValid}

-- The head of a sleep list has the first alarm.
head_first :
    (w : ℕ → ℤ) (n : ℤ) (t : ℕ) (rest : List ℕ)
    → is_sorted (alarm_ticks_comp w) (t ∷ rest) ≡ true
    → ltb_ℤ n (w t) ≡ true
    → (u : ℕ) → Mem u (t ∷ rest)
    → ltb_ℤ n (w u) ≡ true
unfolding is_sorted
head_first w n t [] h b u e =
    Or.elim (Bool-set _ _) (mem-cons.0 e) (λ q. rw q b) (λ r. absurd (not-mem-nil r))
head_first w n t (x ∷ rest) h b u e =
    Or.elim (Bool-set _ _) (mem-cons.0 e) (λ q. rw q b)
      (λ r. head_first w n x rest (ground arith) (ground arith) u r)

-- What the alarm at tick `n` does to the sleepers `l` of a state.
pub record Woke (n : ℤ) (l : List ℕ) (k k' : Kernel) : Type 0 where
  pub valid : IsValid k'
  pub woken : List ℕ
  pub split : woken ++ k'.sleep_list ≡ l
  pub due : (u : ℕ) → Mem u woken → ltb_ℤ n (alarm_of k u) ≡ false
  pub early : (u : ℕ) → Mem u k'.sleep_list → ltb_ℤ n (alarm_of k u) ≡ true
  pub queued : Perm k'.ready_list (woken ++ k.ready_list)
  pub same_scene :
      (k'.current ≡ k.current) × (k'.idle_thread ≡ k.idle_thread) × (k'.ticks ≡ k.ticks)
  pub same_context : (k'.in_external_intr ≡ k.in_external_intr) × (k'.intr_on ≡ k.intr_on)
  pub same_options :
      (k'.thread_prior_aging ≡ k.thread_prior_aging) × (k'.thread_mlfqs ≡ k.thread_mlfqs)
  pub same_priority : (u : ℕ) → priority_of k' u ≡ priority_of k u

Woke-cons :
    (n : ℤ) (t : ℕ) (rest : List ℕ) (k k' : Kernel)
    → ltb_ℤ n (alarm_of k t) ≡ false
    → Woke n rest (unblocked t k) k'
    → Woke n (t ∷ rest) k k'
Woke-cons n t rest k k' e w = record {
  valid = w.valid;
  woken = t ∷ w.woken;
  split = ap (λ l. t ∷ l) w.split;
  due =
      λ u h. Or.elim (Bool-set _ _) (mem-cons.0 h) (λ q. rw q e) (λ r. rw (same u) at (w.due u r));
  early = λ u h. rw (same u) at (w.early u h);
  queued = Perm.trans w.queued (
      Perm.trans
        (Perm.append_left w.woken
          (insert_ordered-perm (priority_comp (priority_of k)) t k.ready_list))
        (perm_middle w.woken k.ready_list));
  same_scene = w.same_scene;
  same_context = w.same_context;
  same_options = w.same_options;
  same_priority = λ u. w.same_priority u ∙ ap (λ f. f u) (priority-set_status k.threads t ready);
}
  where
    same : (u : ℕ) → alarm_of (unblocked t k) u ≡ alarm_of k u
    same u = ap (λ f. f u) (alarm-set_status k.threads t ready)

IsSleepQueue-tail :
    (m : ℕ → Thread) (t : ℕ) (rest : List ℕ) → IsSleepQueue m (t ∷ rest) → IsSleepQueue m rest
IsSleepQueue-tail m t rest v = record {
  members = λ u e. v.members u (mem-cons_of_mem t e);
  distinct = (Nodup-cons.0 v.distinct).1;
  sorted = is_sorted-tail _ t rest v.sorted;
}

-- The state with the head of the sleep list woken.
head-woken :
    (t : ℕ) (rest : List ℕ) (k : Kernel)
    → IsValid (record k { sleep_list = t ∷ rest })
    → IsValid (record (unblocked t k) { sleep_list = rest })
head-woken t rest k v =
    unblocked-IsValid t (record k { sleep_list = rest })
      (record {
        current_runs = v.current_runs;
        idle_alive = v.idle_alive;
        queue = v.queue;
        sleepers = IsSleepQueue-tail k.threads t rest v.sleepers;
        idle_awake = λ e. v.idle_awake (mem-cons_of_mem t e);
      })
      (v.sleepers.members t mem-cons_self) (Nodup-cons.0 v.sleepers.distinct).0
      (λ q. v.idle_awake (rw q mem-cons_self))

-- The loop of `thread_alarm` never panics on a valid state; it wakes the sleepers at the front of
-- the list whose tick has come, and leaves those whose tick is still to come.
pub wake_due-Woke :
    (n : ℤ) (l : List ℕ) (k : Kernel)
    → IsValid (record k { sleep_list = l })
    → (k' : Kernel) × (wake_due n l k ≡ some k') × Woke n l k k'
unfolding wake_due
wake_due-Woke n [] k v = (
  record k { sleep_list = [] },
  refl,
  record {
    valid = v;
    woken = [];
    split = refl;
    due = λ u e. absurd (not-mem-nil e);
    early = λ u e. absurd (not-mem-nil e);
    queued = Perm.refl _;
    same_scene = (refl, refl, refl);
    same_context = (refl, refl);
    same_options = (refl, refl);
    same_priority = λ u. refl;
  },
)
wake_due-Woke n (t ∷ rest) k v = elim (Bool-cases (ltb_ℤ n (alarm_of k t))) [
  | inl e ↦ (
    record k { sleep_list = t ∷ rest },
    rw e refl,
    record {
      valid = v;
      woken = [];
      split = refl;
      due = λ u h. absurd (not-mem-nil h);
      early = head_first (alarm_of k) n t rest v.sleepers.sorted e;
      queued = Perm.refl _;
      same_scene = (refl, refl, refl);
      same_context = (refl, refl);
      same_options = (refl, refl);
      same_priority = λ u. refl;
    },
  )
  | inr e ↦
      let (k', runs, w) = wake_due-Woke n rest (unblocked t k) (head-woken t rest k v) in
      (
        k',
        rw (e, unblock-step t k (v.sleepers.members t mem-cons_self), ◌>>=◌) runs,
        Woke-cons n t rest k k' e w,
      )
]

request :
    (k : Kernel)
    → k.in_external_intr ≡ true
    → intr_yield_on_return k ≡ some (record k { yield_on_return = true })
unfolding intr_yield_on_return
request k e = ground arith

-- In an external interrupt `thread_alarm` succeeds from every valid state. Every sleeper whose tick
-- has come moves to the ready list, every other sleeper stays, in order, and a yield is requested.
pub thread_alarm-Woke :
    (n : ℤ) (k : Kernel)
    → IsValid k
    → k.in_external_intr ≡ true
    → (k' : Kernel) × (thread_alarm n k ≡ some k')
      × Woke n k.sleep_list k k'
      × (k'.yield_on_return ≡ true)
unfolding thread_alarm
thread_alarm-Woke n k v e =
    let (k', runs, w) = wake_due-Woke n k.sleep_list k v in
    (
      record k' { yield_on_return = true },
      rw (runs, ◌>>=◌) (request k' (w.same_context.0 ∙ e)),
      record {
        valid = record {
          current_runs = w.valid.current_runs;
          idle_alive = w.valid.idle_alive;
          queue = w.valid.queue;
          sleepers = w.valid.sleepers;
          idle_awake = w.valid.idle_awake;
        };
        woken = w.woken;
        split = w.split;
        due = w.due;
        early = w.early;
        queued = w.queued;
        same_scene = w.same_scene;
        same_context = w.same_context;
        same_options = w.same_options;
        same_priority = w.same_priority;
      },
      refl,
    )
