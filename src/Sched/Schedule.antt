-- ===== src/Sched/Schedule.antt =====
-- `schedule`: from a state where the running thread has left the processor, it switches to the
-- head of the ready list, or to the idle thread, and leaves a valid state.
use mathlib.Core.List.{Mem, Nodup-cons, not-mem-nil}
use mathlib.Core.List.{mem-cons_self}
use project_pintos.Base.{
  ℕ, ◌≡◌, ◌≢◌, refl, sym, ◌∙◌, ◌⊎◌, inl, inr, ◌==◌, false, not, ◌&&◌, if◌then◌else◌, List, [], ◌∷◌,
  some, arith,
}
use project_pintos.Base.Int.{◌≤ℤ◌}
use project_pintos.Sched.{
  Kernel, running, ready, blocked, is_dying, set_status, priority_of, alarm_of,
}
use project_pintos.Sched.Switch.{schedule}
use project_pintos.Sched.Valid.{
  IsAlive, HasStatus, IsReadyQueue, IsSleepQueue, IsValid, IsAlive-set, IsReadyQueue-set,
  IsSleepQueue-set, IsReadyQueue-tail, ready-not_asleep, head_highest,
}

-- The running thread has another status by now, and interrupts are off.
pub record IsLeaving (k : Kernel) : Type 0 where
  pub masked : k.intr_on ≡ false
  pub current_alive : IsAlive k.threads k.current
  pub not_running : (k.threads k.current).status ≢ running
  pub idle_alive : IsAlive k.threads k.idle_thread
  pub queue : IsReadyQueue k.threads k.idle_thread k.ready_list
  pub sleepers : IsSleepQueue k.threads k.sleep_list
  pub idle_awake : ¬ Mem k.idle_thread k.sleep_list

-- The state in which `next` runs.
abbrev pub switched : Kernel → ℕ → List ℕ → Kernel
switched k next rest = record k {
  threads = set_status k.threads next running;
  current = next;
  ready_list = rest;
  thread_ticks = 0;
  free_pages =
      if not (k.current == next)
        && (is_dying (k.threads k.current).status && not (k.current == k.initial_thread))
      then k.current ∷ k.free_pages
      else k.free_pages;
}

schedule-idle :
    (k : Kernel) → IsLeaving k → k.ready_list ≡ [] → schedule k ≡ some (switched k k.idle_thread [])
unfolding schedule
schedule-idle k v e = ground arith

schedule-head :
    (k : Kernel) (t : ℕ) (rest : List ℕ)
    → IsLeaving k
    → HasStatus k.threads ready t
    → k.ready_list ≡ t ∷ rest
    → schedule k ≡ some (switched k t rest)
unfolding schedule
schedule-head k t rest v h e = ground arith

switched-IsValid :
    (k : Kernel) (next : ℕ) (rest : List ℕ)
    → IsLeaving k
    → IsAlive k.threads next
    → ¬ Mem next rest
    → ¬ Mem next k.sleep_list
    → IsReadyQueue k.threads k.idle_thread rest
    → IsValid (switched k next rest)
switched-IsValid k next rest v alive out awake queue = record {
  current_runs = ground arith;
  idle_alive = IsAlive-set k.threads next k.idle_thread running v.idle_alive;
  queue = IsReadyQueue-set k.threads k.idle_thread next running rest out queue;
  sleepers = IsSleepQueue-set k.threads next running k.sleep_list awake v.sleepers;
  idle_awake = v.idle_awake;
}

-- No thread on the ready list has a higher priority than the running one.
abbrev pub RunsHighest : Kernel → Type 0
RunsHighest k = (u : ℕ) → Mem u k.ready_list → priority_of k u ≤ℤ priority_of k k.current

-- What a switch achieves: the thread that runs is the head of the ready list, or the idle thread
-- where the list is empty; the state is valid and nothing that is ready outranks it.
pub record Dispatched (k k' : Kernel) : Type 0 where
  pub valid : IsValid k'
  pub highest : RunsHighest k'
  pub who :
      ((k.ready_list ≡ []) × (k'.current ≡ k.idle_thread) × (k'.ready_list ≡ []))
      ⊎ (k.ready_list ≡ k'.current ∷ k'.ready_list)
  pub same :
      (k'.sleep_list ≡ k.sleep_list)
      × (k'.all_list ≡ k.all_list)
      × (k'.in_external_intr ≡ k.in_external_intr)
      × (k'.idle_thread ≡ k.idle_thread)
  pub others : (u : ℕ) → k'.current ≢ u → k'.threads u ≡ k.threads u
  pub same_thread :
      (u : ℕ)
      → (priority_of k' u ≡ priority_of k u)
        × (alarm_of k' u ≡ alarm_of k u)
        × ((k'.threads u).tid ≡ (k.threads u).tid)
  pub same_counts : (k'.next_tid ≡ k.next_tid) × (k'.ticks ≡ k.ticks)

from_list :
    (k : Kernel) (l : List ℕ)
    → IsLeaving k
    → k.ready_list ≡ l
    → (k' : Kernel) × (schedule k ≡ some k') × Dispatched k k'
from_list k [] v e = (
  switched k k.idle_thread [],
  schedule-idle k v e,
  record {
    valid =
        switched-IsValid k k.idle_thread [] v v.idle_alive not-mem-nil v.idle_awake
          (rw e at v.queue);
    highest = λ u h. absurd (not-mem-nil h);
    who = inl (e, refl, refl);
    same = (refl, refl, refl, refl);
    others = λ u ne. ground arith;
    same_thread = λ u. (ground arith, ground arith, ground arith);
    same_counts = (refl, refl);
  },
)
from_list k (t ∷ rest) v e = (
  switched k t rest,
  schedule-head k t rest v here e,
  record {
    valid =
        switched-IsValid k t rest v (here.0, here.1) (Nodup-cons.0 q.distinct).0
          (ready-not_asleep k.threads t k.sleep_list v.sleepers
            (λ b. ready≢blocked (sym here.2 ∙ b)))
          (IsReadyQueue-tail k.threads k.idle_thread t rest q);
    highest = λ u h. lower u (head_highest (λ x. (k.threads x).priority) t rest q.sorted u h);
    who = inr e;
    same = (refl, refl, refl, refl);
    others = λ u ne. ground arith;
    same_thread = λ u. (ground arith, ground arith, ground arith);
    same_counts = (refl, refl);
  },
)
  where
    q : IsReadyQueue k.threads k.idle_thread (t ∷ rest)
    q = rw e at v.queue

    here : HasStatus k.threads ready t
    here = q.members t mem-cons_self

    ready≢blocked : ready ≢ blocked
    ready≢blocked h = cc

    lower :
        (u : ℕ)
        → (k.threads u).priority ≤ℤ (k.threads t).priority
        → (set_status k.threads t running u).priority ≤ℤ (set_status k.threads t running t).priority
    lower u h = ground arith

-- `schedule` never panics from such a state, and dispatches the highest priority.
pub schedule-Dispatched :
    (k : Kernel) → IsLeaving k → (k' : Kernel) × (schedule k ≡ some k') × Dispatched k k'
schedule-Dispatched k v = from_list k k.ready_list v refl

-- A thread that runs or is ready to.
abbrev pub Runnable : Kernel → ℕ → Type 0
Runnable k u = Mem u (k.current ∷ k.ready_list)

-- A switch loses no ready thread.
pub Dispatched-Runnable :
    (k k' : Kernel) (u : ℕ) → Dispatched k k' → Mem u k.ready_list → Runnable k' u
Dispatched-Runnable k k' u d m = by_who d.who
  where
    by_who :
        ((k.ready_list ≡ []) × (k'.current ≡ k.idle_thread) × (k'.ready_list ≡ []))
          ⊎ (k.ready_list ≡ k'.current ∷ k'.ready_list)
        → Runnable k' u
    by_who (inl w) = absurd (not-mem-nil (rw w.0 at m))
    by_who (inr w) = rw w at m
