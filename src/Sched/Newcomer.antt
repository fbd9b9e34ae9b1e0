-- ===== src/Sched/Newcomer.antt =====
-- Which thread runs after thread_create of threads/thread.c, and what the new thread is.
use mathlib.Core.List.{Mem, mem-cons, mem-cons_self, mem-cons_of_mem, not-mem-nil}
use mathlib.Core.List.Perm
use mathlib.Core.Logic.Or
use mathlib.Core.HLevel.{⊥_prop}
use native.Mathlib.Decide.{ℕ_discrete}
use project_pintos.Base.{
  ℕ, ◌+◌, ◌%◌, ◌^◌, ◌≡◌, ◌≢◌, ◌⊎◌, refl, sym, ◌∙◌, ap, [], ◌∷◌, arith, inl, inr,
}
use project_pintos.Base.Int.{ℤ, ◌≤ℤ◌}
use project_pintos.ListAlgo.Perm.{insert_ordered-perm}
use project_pintos.Sched.{Kernel, ready, priority_comp, priority_of}
use project_pintos.Sched.Valid.{IsValid, mem-insert, priority-set_status}
use project_pintos.Sched.Schedule.{Runnable, Dispatched, Dispatched-Runnable}
use project_pintos.Sched.Preempt.{yielding, queued-yielding, yielding-Runnable}
use project_pintos.Sched.Unblock.{unblocked}

-- Which thread runs when a newly queued one was there: that one, or one of at least its priority.
who_runs :
    (t : ℕ) (named k' : Kernel) (v : IsValid (unblocked t named))
    → Dispatched (yielding (unblocked t named) v) k'
    → Runnable k' t
    → (k'.current ≡ t)
      ⊎ ((u : ℕ) × (k'.current ≡ u)
          × Runnable named u
          × (priority_of named t ≤ℤ priority_of named u))
who_runs t named k' v d here = elim (ℕ_discrete k'.current t) [
  | yes same ↦ inl same
  | no ne ↦
      inr
        (k'.current, refl, old ne (came d.who), rw (priorities t, priorities k'.current) (least ne))
]
  where
    queue : Kernel
    queue = unblocked t named

    priorities : (u : ℕ) → priority_of named u ≡ priority_of k' u
    priorities u = sym (
        (d.same_thread u).0
        ∙ ap (λ f. f u) (priority-set_status queue.threads queue.current ready)
        ∙ ap (λ f. f u) (priority-set_status named.threads t ready))

    came :
        (((yielding queue v).ready_list ≡ [])
            × (k'.current ≡ queue.idle_thread)
            × (k'.ready_list ≡ []))
          ⊎ ((yielding queue v).ready_list ≡ k'.current ∷ k'.ready_list)
        → Mem k'.current (queue.current ∷ queue.ready_list)
    came (inl w) = absurd (
        not-mem-nil (
          rw w.0 at (
            queued-yielding queue v t (
              (Perm.mem_iff
                  (insert_ordered-perm (priority_comp (priority_of named)) t named.ready_list)).1
                mem-cons_self))))
    came (inr w) = yielding-Runnable queue v k'.current (rw w mem-cons_self)

    old :
        k'.current ≢ t
        → Mem k'.current (queue.current ∷ queue.ready_list)
        → Runnable named k'.current
    old ne m =
        Or.elim (hlevel) (mem-cons.0 m) (λ q. rw q mem-cons_self)
          (λ r.
            Or.elim (hlevel) (mem-insert _ t k'.current named.ready_list r) (λ q. absurd (ne q))
              (λ q. mem-cons_of_mem named.current q))

    listed : k'.current ≢ t → Mem t k'.ready_list
    listed ne = Or.elim (hlevel) (mem-cons.0 here) (λ q. absurd (ne (sym q))) (λ r. r)

    least : k'.current ≢ t → priority_of k' t ≤ℤ priority_of k' k'.current
    least ne = d.highest t (listed ne)

-- What became of a new thread: its identifier and priority, the next identifier, and who runs.
pub record Created (t : ℕ) (priority : ℤ) (k k' : Kernel) : Type 0 where
  pub numbered : (k'.threads t).tid ≡ k.next_tid
  pub counted : k'.next_tid ≡ (k.next_tid + 1) % 2 ^ 32
  pub ranked : priority_of k' t ≡ priority
  pub runnable : Runnable k' t
  pub first :
      (k'.current ≡ t) ⊎ ((u : ℕ) × (k'.current ≡ u) × Runnable k u × (priority ≤ℤ priority_of k u))

pub yielded-Created :
    (t : ℕ) (priority : ℤ) (k named k' : Kernel)
    → k.current ≢ t
    → ¬ Mem t k.ready_list
    → ((u : ℕ) → t ≢ u → named.threads u ≡ k.threads u)
    → ((named.threads t).tid ≡ k.next_tid)
    → ((named.threads t).priority ≡ priority)
    → named.current ≡ k.current
    → named.ready_list ≡ k.ready_list
    → named.next_tid ≡ (k.next_tid + 1) % 2 ^ 32
    → (v : IsValid (unblocked t named)) → Dispatched (yielding (unblocked t named) v) k'
    → Created t priority k k'
yielded-Created t priority k named k' other_page unlisted same number rank current_eq ready_eq
      next_eq v d =
    record {
      numbered = (d.same_thread t).2 ∙ tid_kept ∙ number;
      counted = d.same_counts.0 ∙ next_eq;
      ranked =
          (d.same_thread t).0
          ∙ ap (λ g. g t) (priority-set_status queue.threads queue.current ready)
          ∙ ap (λ g. g t) (priority-set_status named.threads t ready)
          ∙ rank;
      runnable = here;
      first = elim (who_runs t named k' v d here) [
        | inl q ↦ inl q
        | inr (u, q, m, lower) ↦
            let before : Runnable k u = rw (current_eq, ready_eq) at m in
            inr (u, q, before, rw (rank, ap (λ x. x.priority) (same u (old u before))) at lower)
      ];
    }
  where
    queue : Kernel
    queue = unblocked t named

    tid_kept : ((yielding queue v).threads t).tid ≡ (named.threads t).tid
    tid_kept = ground arith

    here : Runnable k' t
    here = Dispatched-Runnable (yielding queue v) k' t d (
        queued-yielding queue v t (
          (Perm.mem_iff
              (insert_ordered-perm (priority_comp (priority_of named)) t named.ready_list)).1
            mem-cons_self))

    old : (u : ℕ) → Runnable k u → t ≢ u
    old u m q =
        Or.elim ⊥_prop (mem-cons.0 m) (λ e. other_page (sym (q ∙ e))) (λ r. unlisted (rw q r))
