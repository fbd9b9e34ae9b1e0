-- ===== src/Sched/Places.antt =====
-- What a change of priorities leaves of the scheduler's invariant, and the yield that may follow it.
use mathlib.Core.List.{Perm}
use mathlib.Core.List.Perm
use mathlib.Core.Path.{fun_ext}
use project_pintos.Base.{ℕ, ◌≡◌, refl, ◌∙◌, true, ◌||◌, List, [], ◌∷◌, some, arith}
use project_pintos.ListAlgo.{is_sorted}
use project_pintos.Sched.{
  Kernel, Thread, Status, running, ready, blocked, update, priority_comp, priority_of,
}
use project_pintos.Sched.Switch.{outranked}
use project_pintos.Sched.Mlfqs.{yield_if_outranked}
use project_pintos.Sched.Valid.{HasStatus, IsSleepQueue, IsValid}

-- Two thread tables that differ in priorities at most.
pub record SamePlaces (m m' : ℕ → Thread) : Type 0 where
  pub status_eq : (u : ℕ) → (m' u).status ≡ (m u).status
  pub magic_eq : (u : ℕ) → (m' u).magic ≡ (m u).magic
  pub alarm_eq : (u : ℕ) → (m' u).alarm_ticks ≡ (m u).alarm_ticks

pub HasStatus-same :
    (m m' : ℕ → Thread) (s : Status) (u : ℕ) → SamePlaces m m' → HasStatus m s u → HasStatus m' s u
HasStatus-same m m' s u e h = (h.0, e.magic_eq u ∙ h.1, e.status_eq u ∙ h.2)

pub IsSleepQueue-same :
    (m m' : ℕ → Thread) (l : List ℕ) → SamePlaces m m' → IsSleepQueue m l → IsSleepQueue m' l
IsSleepQueue-same m m' l e v = record {
  members = λ u h. HasStatus-same m m' blocked u e (v.members u h);
  distinct = v.distinct;
  sorted = rw (fun_ext e.alarm_eq) v.sorted;
}

-- A change of priorities that leaves the ready list sorted leaves the state valid.
pub IsValid-same :
    (k : Kernel) (m' : ℕ → Thread) (l : List ℕ)
    → IsValid k
    → SamePlaces k.threads m'
    → Perm l k.ready_list
    → is_sorted (priority_comp (λ u. (m' u).priority)) l ≡ true
    → IsValid (record k { threads = m'; ready_list = l })
IsValid-same k m' l v e p s = record {
  current_runs = HasStatus-same k.threads m' running k.current e v.current_runs;
  idle_alive = (v.idle_alive.0, e.magic_eq k.idle_thread ∙ v.idle_alive.1);
  queue = record {
    members =
        λ u h. HasStatus-same k.threads m' ready u e (v.queue.members u ((Perm.mem_iff p).0 h));
    distinct = Perm.nodup (Perm.symm p) v.queue.distinct;
    sorted = s;
    no_idle = λ h. v.queue.no_idle ((Perm.mem_iff p).0 h);
  };
  sleepers = IsSleepQueue-same k.threads m' k.sleep_list e v.sleepers;
  idle_awake = v.idle_awake;
}

-- `yield_if_outranked` succeeds in an interrupt, and only asks for a yield, where one is due.
pub yield_if_outranked_lem :
    (k : Kernel)
    → IsValid k
    → k.in_external_intr ≡ true
    → yield_if_outranked k
      ≡ some (record k {
        yield_on_return = k.yield_on_return || outranked k (priority_of k k.current);
      })
unfolding yield_if_outranked
yield_if_outranked_lem k v e = by_list k.ready_list refl
  where
    by_list :
        (l : List ℕ)
        → k.ready_list ≡ l
        → yield_if_outranked k
          ≡ some (record k {
            yield_on_return = k.yield_on_return || outranked k (priority_of k k.current);
          })
    by_list [] q = ground (arith, v.current_runs)
    by_list (t ∷ rest) q = ground (arith, v.current_runs)

-- `m'` is reached through `update m t x`, where `x` is on the same lists as `m t`.
pub SamePlaces-update :
    (m m' : ℕ → Thread) (t : ℕ) (x : Thread)
    → x.status ≡ (m t).status
    → x.magic ≡ (m t).magic
    → x.alarm_ticks ≡ (m t).alarm_ticks
    → SamePlaces (update m t x) m'
    → SamePlaces m m'
SamePlaces-update m m' t x a b c ih = record {
  status_eq = λ u. ih.status_eq u ∙ here_status u;
  magic_eq = λ u. ih.magic_eq u ∙ here_magic u;
  alarm_eq = λ u. ih.alarm_eq u ∙ here_alarm u;
}
  where
    here_status : (u : ℕ) → (update m t x u).status ≡ (m u).status
    here_status u = ground arith

    here_magic : (u : ℕ) → (update m t x u).magic ≡ (m u).magic
    here_magic u = ground arith

    here_alarm : (u : ℕ) → (update m t x u).alarm_ticks ≡ (m u).alarm_ticks
    here_alarm u = ground arith

-- The modes of the kernel that an operation in an interrupt leaves alone, and the request of a yield,
-- which it may only add.
pub record KeepsModes (k k' : Kernel) : Type 0 where
  pub context : (k'.in_external_intr ≡ k.in_external_intr) × (k'.intr_on ≡ k.intr_on)
  pub options : (k'.thread_prior_aging ≡ k.thread_prior_aging) × (k'.thread_mlfqs ≡ k.thread_mlfqs)
  pub request : k.yield_on_return ≡ true → k'.yield_on_return ≡ true
  pub scene : (k'.current ≡ k.current) × (k'.idle_thread ≡ k.idle_thread) × (k'.ticks ≡ k.ticks)
  pub asleep : k'.sleep_list ≡ k.sleep_list
