-- ===== src/Palloc/Laws.antt =====
-- Pages are handed out and taken back in threads/palloc.c.
use project_pintos.Base.{
  ℕ, ◌+◌, ◌*◌, ◌%◌, ◌^◌, ◌≤◌, ◌<◌, ◌≡◌, inl, inr, refl, ap, ◌∙◌, ◌==◌, ltb, leb, Bool, true, false,
  not, ◌&&◌, if◌then◌else◌, Option, none, some, arith, Bool-cases,
}
use project_pintos.Sched.{◌>>=◌}
use project_pintos.Bitmap.{Bitmap, bitmap_scan_and_flip}
use project_pintos.Bitmap.View.{bit_at, IsBitmap}
use project_pintos.Bitmap.Ranges.{IsRun}
use project_pintos.Bitmap.Scan.{Found, first, nowhere, Flipped, bitmap_scan_and_flip_lem}
use project_pintos.Palloc.{
  Pool, Pools, pool_of, with_pool, has_flag, pal_assert, pal_zero, pal_user, memset,
  palloc_get_multiple,
}

-- A pool's pages are aligned, lie in memory and do not start at NULL.
pub record IsPool (p : Pool) : Type 0 where
  pub map : IsBitmap p.used_map
  pub aligned : p.base % 4096 ≡ 0
  pub not_null : 0 < p.base
  pub in_memory : p.base + 4096 * p.used_map.bit_cnt < 2 ^ 32

-- The user pool lies above the kernel pool.
pub record IsPools (s : Pools) : Type 0 where
  pub kernel : IsPool s.kernel_pool
  pub user : IsPool s.user_pool
  pub apart : s.kernel_pool.base + 4096 * s.kernel_pool.used_map.bit_cnt ≤ s.user_pool.base

pub IsPool-of : (user : Bool) (s : Pools) → IsPools s → IsPool (pool_of user s)
IsPool-of true s v = v.user
IsPool-of false s v = v.kernel

-- A pool with another map of the same size.
with_map-IsPool :
    (p : Pool) (b : Bitmap)
    → IsPool p
    → IsBitmap b
    → b.bit_cnt ≡ p.used_map.bit_cnt
    → IsPool (record p { used_map = b })
with_map-IsPool p b v w size = record {
  map = w;
  aligned = v.aligned;
  not_null = v.not_null;
  in_memory = omega (arith, v.in_memory, size);
}

pub with_map-IsPools :
    (user : Bool) (s : Pools) (b : Bitmap)
    → IsPools s
    → IsBitmap b
    → b.bit_cnt ≡ (pool_of user s).used_map.bit_cnt
    → IsPools (with_pool user (record (pool_of user s) { used_map = b }) s)
with_map-IsPools true s b v w size = record {
  kernel = v.kernel;
  user = with_map-IsPool s.user_pool b v.user w size;
  apart = v.apart;
}
with_map-IsPools false s b v w size = record {
  kernel = with_map-IsPool s.kernel_pool b v.kernel w size;
  user = v.user;
  apart = omega (arith, v.apart, size);
}

pub pool_of-with_pool : (user : Bool) (p : Pool) (s : Pools) → pool_of user (with_pool user p s) ≡ p
pool_of-with_pool true p s = refl
pool_of-with_pool false p s = refl

pub other-with_pool :
    (user : Bool) (p : Pool) (s : Pools)
    → pool_of (not user) (with_pool user p s) ≡ pool_of (not user) s
other-with_pool true p s = refl
other-with_pool false p s = refl

memory-with_pool : (user : Bool) (p : Pool) (s : Pools) → (with_pool user p s).memory ≡ s.memory
memory-with_pool true p s = refl
memory-with_pool false p s = refl

same-with_pool : (user : Bool) (s : Pools) → with_pool user (pool_of user s) s ≡ s
same-with_pool true s = refl
same-with_pool false s = refl

-- What a caller gets: `cnt` pages of the pool at `index`, which were free and are in use now. The other
-- pages of the pool and the other pool are as before.
pub record Granted (user : Bool) (cnt : ℕ) (s s' : Pools) (pages : ℕ) : Type 0 where
  pub index : ℕ
  pub address : pages ≡ (pool_of user s).base + 4096 * index
  pub inside : index + cnt ≤ (pool_of user s).used_map.bit_cnt
  pub were_free : IsRun (pool_of user s).used_map index cnt false
  pub size : (pool_of user s').used_map.bit_cnt ≡ (pool_of user s).used_map.bit_cnt
  pub base : (pool_of user s').base ≡ (pool_of user s).base
  pub taken :
      (j : ℕ)
      → bit_at (pool_of user s').used_map j
        ≡ (if leb index j && ltb j (index + cnt) then true else bit_at (pool_of user s).used_map j)
  pub other : pool_of (not user) s' ≡ pool_of (not user) s

-- The bytes of the pages: zeros where the flags ask for it, as before otherwise.
abbrev pub contents : ℕ → ℕ → ℕ → Pools → ℕ → ℕ
contents flags pages cnt s =
    if has_flag flags pal_zero then memset pages 0 (4096 * cnt) s.memory else s.memory

-- How `palloc_get_multiple` can end: with pages; with NULL and nothing changed, or in a PANIC, where the
-- pool has no group of free pages of that size.
pub data Getting (flags cnt : ℕ) (s : Pools) : Option (ℕ × Pools) → Type 0 where
  granted :
      {pages : ℕ} {s' : Pools}
      → Granted (has_flag flags pal_user) cnt s s' pages
      → s'.memory ≡ contents flags pages cnt s
      → IsPools s'
      → Getting flags cnt s (some (pages, s'))
  out_of_pages :
      has_flag flags pal_assert ≡ false
      → Found (pool_of (has_flag flags pal_user) s).used_map 0 cnt false none
      → Getting flags cnt s (some (0, s))
  panics :
      has_flag flags pal_assert ≡ true
      → Found (pool_of (has_flag flags pal_user) s).used_map 0 cnt false none
      → Getting flags cnt s none

page_address :
    (base i : ℕ) → 0 < base → base + 4096 * i < 2 ^ 32 → ((base + 4096 * i) % 2 ^ 32 == 0) ≡ false
page_address base i h l =
    let same : (base + 4096 * i) % 2 ^ 32 ≡ base + 4096 * i = omega arith in ground arith

-- What the map says of a group that was found and turned, for any state with that map.
Flipped-Granted :
    (user : Bool) (cnt i pages : ℕ) (s : Pools) (b : Bitmap) (memory : ℕ → ℕ)
    → i + cnt ≤ (pool_of user s).used_map.bit_cnt
    → IsRun (pool_of user s).used_map i cnt false
    → Flipped (pool_of user s).used_map cnt false (some i) b
    → pages ≡ (pool_of user s).base + 4096 * i
    → Granted user cnt s
        (record (with_pool user (record (pool_of user s) { used_map = b }) s) { memory = memory })
        pages
Flipped-Granted true cnt i pages s b memory inside run (size, bits) address = record {
  index = i;
  address = address;
  inside = inside;
  were_free = run;
  size = size;
  base = refl;
  taken = bits;
  other = refl;
}
Flipped-Granted false cnt i pages s b memory inside run (size, bits) address = record {
  index = i;
  address = address;
  inside = inside;
  were_free = run;
  size = size;
  base = refl;
  taken = bits;
  other = refl;
}

-- `palloc_get_multiple` of at least one page, on every branch.
pub palloc_get_multiple_lem :
    (flags cnt : ℕ) (s : Pools)
    → IsPools s
    → 0 < cnt
    → Getting flags cnt s (palloc_get_multiple flags cnt s)
unfolding palloc_get_multiple
palloc_get_multiple_lem flags cnt s v some_pages =
    let user = has_flag flags pal_user in
    let (o, b, flips, w, found, turned) =
      bitmap_scan_and_flip_lem 0 cnt false (pool_of user s).used_map (IsPool-of user s v).map
        (omega arith) in
    by_result o b flips w found turned (ground arith)
  where
    unchanged :
        (b : Bitmap)
        → b ≡ (pool_of (has_flag flags pal_user) s).used_map
        → with_pool
            (has_flag flags pal_user)
            (record (pool_of (has_flag flags pal_user) s) { used_map = b })
            s
          ≡ s
    unchanged b same =
        ap
          (λ m.
            with_pool (has_flag flags pal_user)
              (record (pool_of (has_flag flags pal_user) s) { used_map = m }) s)
          same
        ∙ same-with_pool (has_flag flags pal_user) s

    by_result :
        (o : Option ℕ) (b : Bitmap)
        → bitmap_scan_and_flip 0 cnt false (pool_of (has_flag flags pal_user) s).used_map
          ≡ some (o, b)
        → IsBitmap b
        → Found (pool_of (has_flag flags pal_user) s).used_map 0 cnt false o
        → Flipped (pool_of (has_flag flags pal_user) s).used_map cnt false o b
        → (cnt == 0) ≡ false
        → Getting flags cnt s (palloc_get_multiple flags cnt s)
    by_result o b flips w (nowhere all) same asked = elim (Bool-cases (has_flag flags pal_assert)) [
      | inl e ↦ rw (asked, flips, ◌>>=◌, e) (panics e (nowhere all))
      | inr e ↦ rw (asked, flips, ◌>>=◌, e) (rw (unchanged b same) (out_of_pages e (nowhere all)))
    ]
    by_result o b flips w (first i lo hi run before) turned asked =
        let user = has_flag flags pal_user in
        let pool = pool_of user s in
        let v' = IsPool-of user s v in
        let after = with_map-IsPools user s b v w turned.0 in
        let address : (pool.base + 4096 * i) % 2 ^ 32 ≡ pool.base + 4096 * i =
          omega (arith, hi, v'.in_memory) in
        let real = page_address pool.base i v'.not_null (omega (arith, hi, v'.in_memory)) in
        elim (Bool-cases (has_flag flags pal_zero)) [
          | inl e ↦
              rw (asked, flips, ◌>>=◌, real, e)
                (granted (Flipped-Granted user cnt i _ s b _ hi run turned address)
                  (rw e (
                    ap (memset ((pool.base + 4096 * i) % 2 ^ 32) 0 (4096 * cnt))
                      (memory-with_pool user _ s)))
                  (record { kernel = after.kernel; user = after.user; apart = after.apart }))
          | inr e ↦
              rw (asked, flips, ◌>>=◌, real, e)
                (granted (Flipped-Granted user cnt i _ s b _ hi run turned address)
                  (rw e (memory-with_pool user _ s)) after)
        ]
