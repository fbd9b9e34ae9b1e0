-- ===== src/Synch/Mutex/Preserved.antt =====
-- Every step of the threads that share a lock (threads/synch.c) keeps the invariant.
use mathlib.Core.List.{
  Mem, Nodup, Nodup-cons, mem-cons_of_mem, mem-cons_self, not-mem-nil, Nodup-nil,
}
use mathlib.Core.Path.{fun_ext}
use project_pintos.Base.{ℕ, Bool, true, ◌≡◌, ◌≢◌, ◌⊎◌, inl, inr, refl, List, [], ◌∷◌, arith}
use project_pintos.Sched.{Kernel, update}
use project_pintos.Sched.Valid.{IsValid}
use project_pintos.Sched.Schedule.{Runnable}
use project_pintos.Synch.{Lock, Progress, lock_init, sema_init}
use project_pintos.Synch.Parked.{IsParked, Runnable-ready}
use project_pintos.Synch.Mutex.{
  System, Pc, Step, Reach, stepped, acquired, acquires, resumes, tries, releases, elsewhere,
  initial, more,
}
use project_pintos.Synch.Mutex.Inversion.{
  Acquired, lock_freed, after_wake, StaysAwake, pass-Acquired, lock_acquire-Acquired,
  lock_try_acquire-result, lock_release-result,
}
use project_pintos.Synch.Mutex.Invariant.{
  Owned, IsSound, lined-update, placed-update, taken-IsSound, waits-IsSound,
}

-- What is left of a list of waiters, when one was woken.
after_wake-mem : (l : List ℕ) (u : ℕ) → Mem u (after_wake l) → Mem u l
after_wake-mem [] u m = m
after_wake-mem (t ∷ rest) u m = mem-cons_of_mem t m

after_wake-Nodup : (l : List ℕ) → Nodup l → Nodup (after_wake l)
after_wake-Nodup [] d = d
after_wake-Nodup (t ∷ rest) d = (Nodup-cons.0 d).1

after_wake-woken :
    (pc : ℕ → Pc) (l : List ℕ)
    → Nodup l
    → ((u : ℕ) → Mem u l → pc u ≡ Pc.acquiring)
    → (after_wake l ≡ []) ⊎ ((t : ℕ) × (pc t ≡ Pc.acquiring) × (¬ Mem t (after_wake l)))
after_wake-woken pc [] d h = inl refl
after_wake-woken pc (t ∷ rest) d h = inr (t, h t mem-cons_self, (Nodup-cons.0 d).0)

module _ (b : Bool) (s : System) (v : IsSound b s) where
  open v use {valid, parked, distinct, lined, owned, placed, woken}

  -- The running thread releases the lock.
  freed-IsSound :
      (k : Kernel)
      → IsValid k
      → ((u : ℕ) → Mem u (after_wake s.lock.semaphore.waiters) → IsParked k u)
      → StaysAwake s.lock.semaphore.waiters s.kernel k
      → s.pc s.kernel.current ≡ Pc.critical
      → IsSound b (stepped s (lock_freed s.lock) k Pc.outside)
  freed-IsSound k valid' p awake here = record {
    valid = valid';
    parked = p;
    distinct = after_wake-Nodup s.lock.semaphore.waiters distinct;
    lined = λ u m. lined-update b s v Pc.outside u (after_wake-mem s.lock.semaphore.waiters u m);
    owned = now_free owned;
    placed = λ h u e. now_placed u (placed-update b s v h Pc.outside u (λ q. ground arith) e);
    woken =
        λ e. after_wake-woken _ s.lock.semaphore.waiters distinct (lined-update b s v Pc.outside);
  }
    where
      now_placed :
          (u : ℕ)
          → (s.kernel.current ≢ u) × (Mem u s.lock.semaphore.waiters ⊎ Runnable s.kernel u)
          → Mem u (after_wake s.lock.semaphore.waiters) ⊎ Runnable k u
      now_placed u (ne, inl m) = awake u (inl m)
      now_placed u (ne, inr r) = awake u (inr (Runnable-ready s.kernel u ne r))

      now_free : Owned s → Owned (stepped s (lock_freed s.lock) k Pc.outside)
      now_free (inl o) = absurd (o.1 s.kernel.current here)
      now_free (inr o) = inl (ground arith, λ t e. ground (arith, o.2 t, o.2 s.kernel.current))

  -- A thread that tries the lock in vain changes nothing.
  tried-IsSound :
      s.pc s.kernel.current ≡ Pc.outside → IsSound b (stepped s s.lock s.kernel Pc.outside)
  tried-IsSound here = rw same v
    where
      same : update s.pc s.kernel.current Pc.outside ≡ s.pc
      same = fun_ext (λ u. ground arith)

  acquired-IsSound :
      (r : Progress × Lock × Kernel)
      → s.pc s.kernel.current ≢ Pc.critical
      → s.kernel.idle_thread ≢ s.kernel.current
      → Acquired s.lock s.kernel r
      → IsSound b (stepped s r.1 r.2 (acquired r.0))
  acquired-IsSound r out ne (k, parks, inl (more_than, e)) =
      rw e (taken-IsSound b s v k parks more_than)
  acquired-IsSound r out ne (k, parks, inr (z, e, p)) =
      rw e (waits-IsSound b s v k parks (p ne) z out)

-- Every step keeps the invariant.
Step-IsSound : (b : Bool) (s s' : System) → IsSound b s → Step b s s' → IsSound b s'
Step-IsSound b s s' v (acquires r here ne h) =
    acquired-IsSound b s v r (λ q. ground arith) ne
      (lock_acquire-Acquired s.lock s.kernel v.valid r h)
Step-IsSound b s s' v (resumes level r here ne h) =
    acquired-IsSound b s v r (λ q. ground arith) ne
      (pass-Acquired s.lock s.kernel v.valid level r h)
Step-IsSound b s s' v (tries r here h) =
    elim (lock_try_acquire-result s.lock s.kernel v.valid r h) [
      | inl (more_than, e) ↦
          rw e (taken-IsSound b s v s.kernel (v.valid, λ u p. p, λ u ne r. r) more_than)
      | inr (z, e) ↦ rw e (tried-IsSound b s v here)
    ]
Step-IsSound b s s' v (releases r here h) =
    let (e, valid, parked, awake) =
      lock_release-result s.lock s.kernel r v.valid v.parked v.distinct h in
    rw e (freed-IsSound b s v r.1 valid parked awake here)
Step-IsSound b s s' v (elsewhere k valid parked stays) = record {
  valid = valid;
  parked = parked;
  distinct = v.distinct;
  lined = v.lined;
  owned = v.owned;
  placed = λ h u e. moved h u e (v.placed h u e);
  woken = v.woken;
}
  where
    moved :
        b ≡ true
        → (u : ℕ) → s.pc u ≡ Pc.acquiring
        → Mem u s.lock.semaphore.waiters ⊎ Runnable s.kernel u
        → Mem u s.lock.semaphore.waiters ⊎ Runnable k u
    moved h u e (inl m) = inl m
    moved h u e (inr r) = inr (stays h u e r)

-- The invariant holds in every state that the threads reach.
pub Reach-IsSound : (b : Bool) (s : System) → Reach b s → IsSound b s
unfolding lock_init sema_init
Reach-IsSound b s (initial k valid) = record {
  valid = valid;
  parked = λ u m. absurd (not-mem-nil m);
  distinct = Nodup-nil;
  lined = λ u m. absurd (not-mem-nil m);
  owned = inl (refl, λ t e. ground arith);
  placed = λ h u e. absurd (ground arith);
  woken = λ e. inl refl;
}
Reach-IsSound b s (more {s = before} r step) =
    Step-IsSound b before s (Reach-IsSound b before r) step
