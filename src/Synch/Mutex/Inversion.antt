-- ===== src/Synch/Mutex/Inversion.antt =====
-- What a call of an operation on a lock (threads/synch.c) did, when it came to its end.
use mathlib.Core.Option.{some-injective}
use mathlib.Core.List.{Mem, mem-cons, mem-cons_self, mem-cons_of_mem, Nodup, Nodup-cons}
use mathlib.Core.Logic.Or
use native.Mathlib.Decide.{ℕ_discrete}
use project_pintos.Base.{
  ℕ, ◌+◌, ◌-◌, ◌^◌, ◌%◌, ◌≡◌, ◌≢◌, ◌⊎◌, inl, inr, refl, ap, sym, ◌==◌, true, false, Bool, not, ltb,
  List, [], ◌∷◌, Option, none, some, arith, Bool-cases,
}
use project_pintos.ListAlgo.{insert_ordered}
use project_pintos.Sched.{Kernel, bind_end, ◌>>=◌, assert, priority_comp, priority_of}
use project_pintos.Sched.Switch.{thread_block, thread_unblock, thread_yield}
use project_pintos.Sched.Valid.{current_lem, IsValid}
use project_pintos.Sched.Schedule.{Runnable}
use project_pintos.Sched.Preempt.{yield-Runnable}
use project_pintos.Synch.{
  Lock, Sema, Progress, sema_down_pass, sema_down, sema_wake, sema_up, lock_downed, lock_acquire,
  lock_acquire_resume, lock_try_acquire, lock_release, sema_try_down, lock_held_by_current_thread,
}
use project_pintos.Synch.Parked.{
  IsParked, Parks, thread_block-Parks, thread_yield-Parks, thread_unblock-Parks,
}

-- The state of the scheduler with another interrupt level.
abbrev pub with_level : Bool → Kernel → Kernel
with_level b k = record k { intr_on = b }

pub with_level-Parks : (b : Bool) (k : Kernel) → IsValid k → Parks k (with_level b k)
with_level-Parks b k v = (
  record {
    current_runs = v.current_runs;
    idle_alive = v.idle_alive;
    queue = v.queue;
    sleepers = v.sleepers;
    idle_awake = v.idle_awake;
  },
  λ u h. h,
  λ u ne h. h,
)

block-clear :
    (k k' : Kernel) → thread_block k ≡ some k' → (k.in_external_intr ≡ false) × (k.intr_on ≡ false)
unfolding thread_block
block-clear k k' h = ground arith

yield-clear : (k k' : Kernel) → thread_yield k ≡ some k' → k.in_external_intr ≡ false
unfolding thread_yield
yield-clear k k' h = ground arith

-- The waiters without the one that is woken.
abbrev pub after_wake : List ℕ → List ℕ
after_wake [] = []
after_wake (t ∷ rest) = rest

-- The lock when the running thread has taken it or has joined its waiters, and when it was released.
abbrev pub lock_taken : Lock → Kernel → Lock
lock_taken l k = record {
  holder = k.current;
  semaphore = record (l.semaphore) { value = l.semaphore.value - 1 };
}

abbrev pub lock_queued : Lock → Kernel → Lock
lock_queued l k = record l {
  semaphore = record (l.semaphore) {
    waiters = insert_ordered (priority_comp (priority_of k)) k.current l.semaphore.waiters;
  };
}

abbrev pub lock_freed : Lock → Lock
lock_freed l = record {
  holder = 0;
  semaphore = record {
    value = (l.semaphore.value + 1) % 2 ^ 32;
    waiters = after_wake l.semaphore.waiters;
  };
}

-- What acquiring a lock comes to: a positive value falls by one and the caller holds the lock; at zero the
-- caller joins the waiters, parked, and another thread runs.
abbrev pub Acquired : Lock → Kernel → Progress × Lock × Kernel → Type 0
Acquired l k r =
    (k' : Kernel) × Parks k k'
    × (((l.semaphore.value ≢ 0) × (r ≡ (Progress.returned, lock_taken l k, k')))
        ⊎ ((l.semaphore.value ≡ 0)
            × (r ≡ (Progress.waiting, lock_queued l k, k'))
            × (k.idle_thread ≢ k.current → IsParked k' k.current)))

module _ (l : Lock) (k : Kernel) (v : IsValid k) where
  -- The pass of `sema_down` and the end of `lock_acquire`.
  pub pass-Acquired :
      (level : Bool) (r : Progress × Lock × Kernel)
      → lock_acquire_resume level l k ≡ some r
      → Acquired l k r
  unfolding lock_acquire_resume sema_down_pass lock_downed
  pass-Acquired level r h = elim (Bool-cases (l.semaphore.value == 0)) [
    | inr e ↦ (
      with_level level k,
      with_level-Parks level k v,
      inl (
        ground arith,
        some-injective _ _
            (sym (rw (e, current_lem (with_level level k) (with_level-Parks level k v).0) at h)),
      ),
    )
    | inl e ↦ waits e (thread_block k) refl
  ]
    where
      waits :
          l.semaphore.value == 0 ≡ true → (o : Option Kernel) → thread_block k ≡ o → Acquired l k r
      waits e none q = absurd (ground (arith, rw (e, current_lem k v, q) at h))
      waits e (some k') q =
          let (off, masked) = block-clear k k' q in
          let (parks, parked) = thread_block-Parks k k' v off masked q in
          (
            k',
            parks,
            inr (ground arith, some-injective _ _ (sym (rw (e, current_lem k v, q) at h)), parked),
          )

  -- `lock_acquire` is a pass with interrupts off.
  acquire-pass :
      (r : Progress × Lock × Kernel)
      → lock_acquire l k ≡ some r
      → lock_acquire_resume k.intr_on l (with_level false k) ≡ some r
  unfolding lock_acquire lock_acquire_resume lock_held_by_current_thread sema_down
  acquire-pass r h =
      let (off, is_off, h') = bind_end (assert (not k.in_external_intr)) _ r h in
      let (held, is_held, h2) = bind_end (lock_held_by_current_thread l k) _ r h' in
      let (free, is_free, h3) = bind_end (assert (not held)) _ r h2 in
      let (downed, downs, e) = bind_end (sema_down l.semaphore k) _ r h3 in
      let (clear, is_clear, passes) = bind_end (assert (not k.in_external_intr)) _ downed downs in
      rw (passes, ◌>>=◌) e

module _ (l : Lock) (k : Kernel) (v : IsValid k) where
  pub lock_acquire-Acquired :
      (r : Progress × Lock × Kernel) → lock_acquire l k ≡ some r → Acquired l k r
  lock_acquire-Acquired r h =
      pass-Acquired l (with_level false k) (with_level-Parks false k v).0 k.intr_on r
        (acquire-pass l k v r h)

  -- `lock_try_acquire` takes the lock where the value is positive, and else changes nothing.
  pub lock_try_acquire-result :
      (r : Bool × Lock)
      → lock_try_acquire l k ≡ some r
      → ((l.semaphore.value ≢ 0) × (r ≡ (true, lock_taken l k)))
        ⊎ ((l.semaphore.value ≡ 0) × (r ≡ (false, l)))
  unfolding lock_try_acquire lock_held_by_current_thread sema_try_down
  lock_try_acquire-result r h = elim (Bool-cases (l.holder == k.current)) [
    | inl held ↦ absurd (ground (arith, rw (current_lem k v, held) at h))
    | inr free ↦ elim (Bool-cases (ltb 0 l.semaphore.value)) [
      | inl e ↦ inl (ground arith, some-injective _ _ (sym (rw (current_lem k v, free, e) at h)))
      | inr e ↦ inr (ground arith, some-injective _ _ (sym (rw (current_lem k v, free, e) at h)))
    ]
  ]

-- The threads that waited or were ready still do or are.
abbrev pub Awakes : List ℕ → List ℕ → List ℕ → Type 0
Awakes l m m' = (u : ℕ) → Mem u l ⊎ Mem u m → Mem u (after_wake l) ⊎ Mem u m'

head_or_rest : (t u : ℕ) (l : List ℕ) → Mem u (t ∷ l) → (u ≡ t) ⊎ Mem u l
head_or_rest t u l m = elim (ℕ_discrete u t) [
  | yes e ↦ inl e
  | no ne ↦ inr (Or.elim (hlevel) (mem-cons.0 m) (λ e. absurd (ne e)) (λ h. h))
]

head-Awakes : (t : ℕ) (l m m' : List ℕ) → ((u : ℕ) → Mem u (t ∷ m) → Mem u m') → Awakes (t ∷ l) m m'
head-Awakes t l m m' h u (inr b) = inr (h u (mem-cons_of_mem t b))
head-Awakes t l m m' h u (inl a) = elim (head_or_rest t u l a) [
  | inl e ↦ inr (h u (rw e mem-cons_self))
  | inr b ↦ inl b
]

wake-result :
    (s : Sema) (k : Kernel) (r : Sema × Kernel)
    → IsValid k
    → ((u : ℕ) → Mem u s.waiters → IsParked k u)
    → Nodup s.waiters
    → sema_wake s k ≡ some r
    → (r.0 ≡ record { value = (s.value + 1) % 2 ^ 32; waiters = after_wake s.waiters })
      × IsValid r.1
      × ((u : ℕ) → Mem u (after_wake s.waiters) → IsParked r.1 u)
      × Awakes s.waiters k.ready_list r.1.ready_list
unfolding sema_wake
wake-result s k r v w d h = by_list s.waiters refl w d
  where
    by_list :
        (l : List ℕ)
        → s.waiters ≡ l
        → ((u : ℕ) → Mem u l → IsParked k u)
        → Nodup l
        → (r.0 ≡ record { value = (s.value + 1) % 2 ^ 32; waiters = after_wake l })
          × IsValid r.1
          × ((u : ℕ) → Mem u (after_wake l) → IsParked r.1 u)
          × Awakes l k.ready_list r.1.ready_list
    by_list [] q w d = rw (← some-injective _ _ (rw q at h)) (rw (← q) refl, v, w, λ u m. m)
    by_list (t ∷ rest) q w d =
        let (k', woken, e) = bind_end (thread_unblock t k) _ r (rw q at h) in
        let (valid, stays, readied) = thread_unblock-Parks t k k' v (w t mem-cons_self) woken in
        rw (← some-injective _ _ e) (
          refl,
          valid,
          λ u m. stays u (λ same. (Nodup-cons.0 d).0 (rw same m)) (w u (mem-cons_of_mem t m)),
          head-Awakes t rest k.ready_list k'.ready_list readied,
        )

-- The threads that waited or were ready wait, are ready or run.
abbrev pub StaysAwake : List ℕ → Kernel → Kernel → Type 0
StaysAwake l k k' = (u : ℕ) → Mem u l ⊎ Mem u k.ready_list → Mem u (after_wake l) ⊎ Runnable k' u

yielded-Awake :
    (l : List ℕ) (k k' : Kernel) (v : IsValid k)
    → k.in_external_intr ≡ false
    → thread_yield k ≡ some k'
    → (u : ℕ) → Mem u (after_wake l) ⊎ Mem u k.ready_list
    → Mem u (after_wake l) ⊎ Runnable k' u
yielded-Awake l k k' v e yields u (inl m) = inl m
yielded-Awake l k k' v e yields u (inr m) = inr (yield-Runnable k v k' u e yields m)

-- What `sema_up` comes to: the value grows by one and the first waiter, if any, leaves; the others stay
-- parked.
sema_up-result :
    (s : Sema) (k : Kernel) (r : Sema × Kernel)
    → IsValid k
    → ((u : ℕ) → Mem u s.waiters → IsParked k u)
    → Nodup s.waiters
    → sema_up s k ≡ some r
    → (r.0 ≡ record { value = (s.value + 1) % 2 ^ 32; waiters = after_wake s.waiters })
      × IsValid r.1
      × ((u : ℕ) → Mem u (after_wake s.waiters) → IsParked r.1 u)
      × StaysAwake s.waiters k r.1
unfolding sema_up
sema_up-result s k r v w d h =
    let (woken, wakes, h') = bind_end (sema_wake s (with_level false k)) _ r h in
    let (k', yields, e) = bind_end (thread_yield woken.1) _ r h' in
    let (same, valid, parked, awakes) =
      wake-result s (with_level false k) woken (with_level-Parks false k v).0 w d wakes in
    let (valid', stays, others) =
      thread_yield-Parks woken.1 k' valid (yield-clear woken.1 k' yields) yields in
    rw (← some-injective _ _ e) (
      same,
      valid',
      λ u m. stays u (parked u m),
      λ u m.
          yielded-Awake s.waiters woken.1 k' valid (yield-clear woken.1 k' yields) yields u
            (awakes u m),
    )

-- What `lock_release` comes to.
pub lock_release-result :
    (l : Lock) (k : Kernel) (r : Lock × Kernel)
    → IsValid k
    → ((u : ℕ) → Mem u l.semaphore.waiters → IsParked k u)
    → Nodup l.semaphore.waiters
    → lock_release l k ≡ some r
    → (r.0 ≡ lock_freed l)
      × IsValid r.1
      × ((u : ℕ) → Mem u (after_wake l.semaphore.waiters) → IsParked r.1 u)
      × StaysAwake l.semaphore.waiters k r.1
unfolding lock_release
lock_release-result l k r v w d h =
    let (held, is_held, h') = bind_end (lock_held_by_current_thread l k) _ r h in
    let (done, asserted, h'') = bind_end (assert held) _ r h' in
    let (up, ups, e) = bind_end (sema_up l.semaphore k) _ r h'' in
    let (same, valid, parked, awake) = sema_up-result l.semaphore k up v w d ups in
    rw (← some-injective _ _ e)
      (ap (λ s. record { holder = 0; semaphore = s }) same, valid, parked, awake)
