-- ===== src/Sched/Aging.antt =====
-- Priority aging keeps the scheduler's invariant.
use mathlib.Core.List.Perm
use mathlib.Core.List.{
  Mem, Nodup, mem-cons, Nodup-cons, not-mem-nil, mem-cons_self, mem-cons_of_mem, Mem-prop,
}
use mathlib.Core.Logic.Or
use mathlib.Core.Logic.{◌∨₁◌}
use project_pintos.Base.{
  ℕ, ◌≡◌, ◌≢◌, refl, ◌∙◌, ap, inl, inr, ◌==◌, true, false, if◌then◌else◌, List, [], ◌∷◌, some,
  arith, Bool-cases,
}
use project_pintos.Base.Int.{ℤ, pos, ltb_ℤ, ◌+ℤ◌, ◌≤ℤ◌, +ℤ_parts}
use project_pintos.Base.Word.{wrap32-id}
use project_pintos.Fixed.Priority.{pri_max, pri_min}
use project_pintos.ListAlgo.{is_sorted}
use project_pintos.Sched.{Kernel, Thread, update, priority_comp, priority_of}
use project_pintos.Sched.Mlfqs.{age, age_all, thread_priority_aging}
use project_pintos.Sched.Valid.{IsValid}
use project_pintos.Sched.Places.{
  SamePlaces, IsValid-same, yield_if_outranked_lem, SamePlaces-update, KeepsModes,
}

-- The threads of a list age once each, and no other does.
age_all-out : (l : List ℕ) (m : ℕ → Thread) (u : ℕ) → ¬ Mem u l → age_all l m u ≡ m u
unfolding age_all
age_all-out [] m u h = refl
age_all-out (t ∷ rest) m u h =
    age_all-out rest (update m t (age (m t))) u (λ e. h (mem-cons_of_mem t e))
    ∙ other (λ q. h (rw q mem-cons_self))
  where
    other : t ≢ u → update m t (age (m t)) u ≡ m u
    other ne = ground arith

age_all-in : (l : List ℕ) (m : ℕ → Thread) (u : ℕ) → Nodup l → Mem u l → age_all l m u ≡ age (m u)
unfolding age_all
age_all-in [] m u n h = absurd (not-mem-nil h)
age_all-in (t ∷ rest) m u n h = elim (Bool-cases (t == u)) [
  | inl e ↦
      let q : t ≡ u = ground arith in
      age_all-out rest (update m t (age (m t))) u (λ r. (Nodup-cons.0 n).0 (rw q r)) ∙ hit e
  | inr e ↦
      age_all-in rest (update m t (age (m t))) u (Nodup-cons.0 n).1 (later e (mem-cons.0 h))
      ∙ ap age (miss e)
]
  where
    hit : (t == u) ≡ true → update m t (age (m t)) u ≡ age (m u)
    hit e = let q : t ≡ u = ground arith in rw (e, q)

    miss : (t == u) ≡ false → update m t (age (m t)) u ≡ m u
    miss e = rw e

    later : (t == u) ≡ false → (u ≡ t) ∨₁ Mem u rest → Mem u rest
    later e d = Or.elim Mem-prop d (λ q. absurd (ground arith)) (λ r. r)

-- Threads whose order in pairs is kept stay sorted.
is_sorted-map :
    (p p' : ℕ → ℤ) (l : List ℕ)
    → ((a b : ℕ) → Mem a l → Mem b l → priority_comp p b a ≡ false → priority_comp p' b a ≡ false)
    → is_sorted (priority_comp p) l ≡ true
    → is_sorted (priority_comp p') l ≡ true
unfolding is_sorted
is_sorted-map p p' [] h s = refl
is_sorted-map p p' (a ∷ []) h s = refl
is_sorted-map p p' (a ∷ (b ∷ r)) h s = ground (
  arith,
  h a b mem-cons_self (mem-cons_of_mem a mem-cons_self),
  is_sorted-map p p' (b ∷ r) (λ x y i j. h x y (mem-cons_of_mem a i) (mem-cons_of_mem a j)),
)

-- The priorities that thread.h allows.
abbrev pub InRange : Thread → Type 0
InRange t = (pri_min ≤ℤ t.priority) × (t.priority ≤ℤ pri_max)

age-exact :
    (t : Thread)
    → InRange t
    → (age t).priority ≡ (if ltb_ℤ t.priority pri_max then t.priority +ℤ pos 1 else pri_max)
age-exact t h = rw (wrap32-id (t.priority +ℤ pos 1) (omega (arith, +ℤ_parts))) (clamp t.priority h)
  where
    clamp :
        (p : ℤ)
        → (pri_min ≤ℤ p) × (p ≤ℤ pri_max)
        → (if ltb_ℤ pri_max (p +ℤ pos 1) then pri_max else p +ℤ pos 1)
          ≡ (if ltb_ℤ p pri_max then p +ℤ pos 1 else pri_max)
    clamp p h = ground (arith, +ℤ_parts p (pos 1))

age_all-SamePlaces : (l : List ℕ) (m : ℕ → Thread) → SamePlaces m (age_all l m)
unfolding age_all
age_all-SamePlaces [] m = record {
  status_eq = λ u. refl;
  magic_eq = λ u. refl;
  alarm_eq = λ u. refl;
}
age_all-SamePlaces (t ∷ rest) m =
    SamePlaces-update m _ t (age (m t)) refl refl refl
      (age_all-SamePlaces rest (update m t (age (m t))))

age_mono :
    (s t : Thread)
    → InRange s
    → InRange t
    → ltb_ℤ s.priority t.priority ≡ false
    → ltb_ℤ (age s).priority (age t).priority ≡ false
age_mono s t h k e = rw (age-exact s h, age-exact t k) (on s.priority t.priority h k e)
  where
    on :
        (p q : ℤ)
        → (pri_min ≤ℤ p) × (p ≤ℤ pri_max)
        → (pri_min ≤ℤ q) × (q ≤ℤ pri_max)
        → ltb_ℤ p q ≡ false
        → ltb_ℤ
            (if ltb_ℤ p pri_max then p +ℤ pos 1 else pri_max)
            (if ltb_ℤ q pri_max then q +ℤ pos 1 else pri_max)
          ≡ false
    on p q h k e = ground (arith, +ℤ_parts p (pos 1), +ℤ_parts q (pos 1))

-- In an interrupt, where the ready threads have legal priorities, `thread_priority_aging` succeeds and
-- leaves a valid state: each ready thread gains one level, up to PRI_MAX, the list keeps its order,
-- and no other thread changes.
pub thread_priority_aging_lem :
    (k : Kernel)
    → IsValid k
    → k.in_external_intr ≡ true
    → ((u : ℕ) → Mem u k.ready_list → InRange (k.threads u))
    → (k' : Kernel) × (thread_priority_aging k ≡ some k')
      × IsValid k'
      × (k'.ready_list ≡ k.ready_list)
      × ((u : ℕ)
          → Mem u k.ready_list
          → priority_of k' u
            ≡ (if ltb_ℤ (priority_of k u) pri_max then priority_of k u +ℤ pos 1 else pri_max))
      × ((u : ℕ) → ¬ Mem u k.ready_list → k'.threads u ≡ k.threads u)
      × KeepsModes k k'
unfolding thread_priority_aging
thread_priority_aging_lem k v e r = (
  _,
  yield_if_outranked_lem aged valid e,
  record {
    current_runs = valid.current_runs;
    idle_alive = valid.idle_alive;
    queue = valid.queue;
    sleepers = valid.sleepers;
    idle_awake = valid.idle_awake;
  },
  refl,
  λ u h.
      ap (λ t. t.priority) (age_all-in k.ready_list k.threads u v.queue.distinct h)
      ∙ age-exact (k.threads u) (r u h),
  λ u h. age_all-out k.ready_list k.threads u h,
  record {
    context = (refl, refl);
    options = (refl, refl);
    request = λ q. rw q;
    scene = (refl, refl, refl);
    asleep = refl;
  },
)
  where
    aged : Kernel
    aged = record k { threads = age_all k.ready_list k.threads }

    step :
        (a b : ℕ)
        → Mem a k.ready_list
        → Mem b k.ready_list
        → priority_comp (λ u. (k.threads u).priority) b a ≡ false
        → priority_comp (λ u. (age_all k.ready_list k.threads u).priority) b a ≡ false
    step a b i j q =
        rw
          (
            age_all-in k.ready_list k.threads a v.queue.distinct i,
            age_all-in k.ready_list k.threads b v.queue.distinct j,
          )
          (age_mono (k.threads a) (k.threads b) (r a i) (r b j) q)

    valid :
        IsValid (record k { threads = age_all k.ready_list k.threads; ready_list = k.ready_list })
    valid =
        IsValid-same k (age_all k.ready_list k.threads) k.ready_list v
          (age_all-SamePlaces k.ready_list k.threads) (Perm.refl _)
          (is_sorted-map (λ u. (k.threads u).priority)
            (λ u. (age_all k.ready_list k.threads u).priority) k.ready_list step v.queue.sorted)
