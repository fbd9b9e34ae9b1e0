-- ===== src/Sched/Reprice.antt =====
-- `update_priority` of threads/thread.c keeps the scheduler's invariant.
use mathlib.Core.List.{Mem, Perm, mem-cons, not-mem-nil, mem-cons_self, mem-cons_of_mem, dec_mem}
use mathlib.Core.Logic.Or
use mathlib.Core.Logic.{◌∨₁◌}
use project_pintos.Base.{
  ℕ, ◌≡◌, ◌≢◌, refl, sym, ◌∙◌, ap, ap₂, true, ◌||◌, List, [], ◌∷◌, Option, some, arith,
}
use project_pintos.Base.Int.{ℤ, pos, negsuc, ◌≤ℤ◌}
use project_pintos.Fixed.Priority.{pri_max, pri_min, new_priority, clamp_priority}
use project_pintos.ListAlgo.{list_sort}
use project_pintos.ListAlgo.Passes.{list_sort-sorted}
use project_pintos.ListAlgo.Perm.{list_sort-perm}
use project_pintos.Sched.{Kernel, Thread, ◌>>=◌, update, priority_comp, priority_of}
use project_pintos.Sched.Switch.{outranked}
use project_pintos.Sched.Mlfqs.{reprioritize, update_priority}
use project_pintos.Sched.Valid.{IsValid, priority_comp_asym}
use project_pintos.Sched.Places.{
  SamePlaces, IsValid-same, yield_if_outranked_lem, SamePlaces-update,
}
use project_pintos.Fixed.Laws.{clamp_priority_bounds}
use project_pintos.Fixed.{fp_div_int}
use native.Mathlib.Decide.{ℕ_discrete}

Option_ℤ_set : IsSet (Option ℤ)
Option_ℤ_set = hlevel

clamped : (x : ℤ) → (p : ℤ) × (some (clamp_priority x) ≡ some p) × (pri_min ≤ℤ p) × (p ≤ℤ pri_max)
clamped x = (clamp_priority x, refl, (clamp_priority_bounds x).0, (clamp_priority_bounds x).1)

-- `new_priority` divides by 4 only, so it always has a result, which is a legal priority.
pub new_priority_total :
    (r n : ℤ) → (p : ℤ) × (new_priority r n ≡ some p) × (pri_min ≤ℤ p) × (p ≤ℤ pri_max)
unfolding new_priority fp_div_int
new_priority_total (pos r) n = clamped _
new_priority_total (negsuc r) n = clamped _

-- What the loop of `update_priority` over a list of threads leaves.
pub record Repriced (l : List ℕ) (m m' : ℕ → Thread) : Type 0 where
  pub places : SamePlaces m m'
  pub accounts : (u : ℕ) → ((m' u).recent_cpu ≡ (m u).recent_cpu) × ((m' u).nice ≡ (m u).nice)
  pub priced : (u : ℕ) → Mem u l → new_priority (m u).recent_cpu (m u).nice ≡ some (m' u).priority
  pub others : (u : ℕ) → ¬ Mem u l → (m' u).priority ≡ (m u).priority

-- One round of the loop, before the rest of it.
Repriced-cons :
    (t : ℕ) (rest : List ℕ) (m m' : ℕ → Thread) (p : ℤ)
    → new_priority (m t).recent_cpu (m t).nice ≡ some p
    → Repriced rest (update m t (record (m t) { priority = p })) m'
    → Repriced (t ∷ rest) m m'
Repriced-cons t rest m m' p e w = record {
  places = SamePlaces-update m m' t (record (m t) { priority = p }) refl refl refl w.places;
  accounts = λ u. ((w.accounts u).0 ∙ cpu u, (w.accounts u).1 ∙ nices u);
  priced = λ u h. elim (dec_mem ℕ_discrete u rest) [
    | yes r ↦ ap₂ new_priority (sym (cpu u)) (sym (nices u)) ∙ w.priced u r
    | no out ↦ first u (mem-cons.0 h) out
  ];
  others = λ u h. w.others u (λ r. h (mem-cons_of_mem t r)) ∙ same u (λ q. h (rw q mem-cons_self));
}
  where
    after : ℕ → Thread
    after = update m t (record (m t) { priority = p })

    cpu : (u : ℕ) → (update m t (record (m t) { priority = p }) u).recent_cpu ≡ (m u).recent_cpu
    cpu u = ground arith

    nices : (u : ℕ) → (update m t (record (m t) { priority = p }) u).nice ≡ (m u).nice
    nices u = ground arith

    same :
        (u : ℕ) → t ≢ u → (update m t (record (m t) { priority = p }) u).priority ≡ (m u).priority
    same u ne = ground arith

    self : (update m t (record (m t) { priority = p }) t).priority ≡ p
    self = ground arith

    at_head : ¬ Mem t rest → new_priority (m t).recent_cpu (m t).nice ≡ some (m' t).priority
    at_head out = e ∙ ap some (sym (w.others t out ∙ self))

    first :
        (u : ℕ)
        → (u ≡ t) ∨₁ Mem u rest
        → ¬ Mem u rest
        → new_priority (m u).recent_cpu (m u).nice ≡ some (m' u).priority
    first u d out =
        Or.elim (Option_ℤ_set _ _) d (λ q. rw q (at_head (λ r. out (rw q r)))) (λ r. absurd (out r))

reprioritize-Repriced :
    (l : List ℕ) (m : ℕ → Thread)
    → (m' : ℕ → Thread) × (reprioritize l m ≡ some m') × Repriced l m m'
unfolding reprioritize
reprioritize-Repriced [] m = (
  m,
  refl,
  record {
    places = record { status_eq = λ u. refl; magic_eq = λ u. refl; alarm_eq = λ u. refl };
    accounts = λ u. (refl, refl);
    priced = λ u h. absurd (not-mem-nil h);
    others = λ u h. refl;
  },
)
reprioritize-Repriced (t ∷ rest) m =
    let (p, e, lo, hi) = new_priority_total (m t).recent_cpu (m t).nice in
    let (m', runs, w) = reprioritize-Repriced rest (update m t (record (m t) { priority = p })) in
    (m', rw (e, ◌>>=◌) runs, Repriced-cons t rest m m' p e w)

-- In an interrupt `update_priority` succeeds from every valid state and leaves a valid one: every
-- thread has the priority that its recent CPU use and its nice value give, and the ready list holds
-- the same threads, in the order of the new priorities.
pub update_priority-IsValid :
    (k : Kernel)
    → IsValid k
    → k.in_external_intr ≡ true
    → (k' : Kernel) × (update_priority k ≡ some k')
      × IsValid k'
      × Perm k'.ready_list k.ready_list
      × Repriced k.all_list k.threads k'.threads
unfolding update_priority
update_priority-IsValid k v e =
    let (m', runs, w) = reprioritize-Repriced k.all_list k.threads in
    let l : List ℕ = list_sort (priority_comp (λ u. (m' u).priority)) k.ready_list in
    let valid : IsValid (record k { threads = m'; ready_list = l }) =
      IsValid-same k m' l v w.places (list_sort-perm _ k.ready_list)
        (list_sort-sorted _ (priority_comp_asym (λ u. (m' u).priority)) k.ready_list) in
    let changed : Kernel = record k { threads = m'; ready_list = l } in
    let rule = yield_if_outranked_lem changed valid e in
    (
      record changed {
        yield_on_return = k.yield_on_return || outranked changed (priority_of changed k.current);
      },
      rw (runs, ◌>>=◌) rule,
      record {
        current_runs = valid.current_runs;
        idle_alive = valid.idle_alive;
        queue = valid.queue;
        sleepers = valid.sleepers;
        idle_awake = valid.idle_awake;
      },
      list_sort-perm _ k.ready_list,
      w,
    )
