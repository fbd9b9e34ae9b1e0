-- ===== src/Palloc/Free.antt =====
-- Pages are given back in threads/palloc.c.
use project_pintos.Base.{
  ℕ, ◌+◌, ◌-◌, ◌*◌, ◌/◌, ◌%◌, ◌^◌, ◌≤◌, ◌<◌, ◌≡◌, ◌≢◌, inl, inr, refl, sym, ap, ◌∙◌, ◌==◌, ltb, leb,
  Bool, true, false, not, ◌&&◌, if◌then◌else◌, some, arith, Bool-cases,
}
use project_pintos.Sched.{◌>>=◌, ◌>>◌}
use project_pintos.Bitmap.View.{bit_at}
use project_pintos.Bitmap.Ranges.{IsRun, bitmap_all-IsRun, bitmap_set_multiple_lem}
use project_pintos.Palloc.{
  Pool, Pools, pool_of, with_pool, has_flag, pal_user, memset, pg_ofs, page_from_pool,
  palloc_get_multiple, free_in, palloc_free_multiple,
}
use project_pintos.Palloc.Laws.{
  IsPool, IsPools, IsPool-of, with_map-IsPools, pool_of-with_pool, other-with_pool, Granted,
  Getting, granted, out_of_pages, palloc_get_multiple_lem,
}

-- A page of a pool is recognised as one of it, and one of the user pool as none of the kernel pool.
own_page :
    (p : Pool) (i : ℕ)
    → IsPool p
    → i < p.used_map.bit_cnt
    → page_from_pool p (p.base + 4096 * i) ≡ true
unfolding page_from_pool
own_page p i v h = in_range p.base p.used_map.bit_cnt i v.aligned v.in_memory h
  where
    in_range :
        (base cnt i : ℕ)
        → base % 4096 ≡ 0
        → base + 4096 * cnt < 2 ^ 32
        → i < cnt
        → (leb (base / 4096) ((base + 4096 * i) / 4096)
            && ltb ((base + 4096 * i) / 4096) ((base / 4096 + cnt) % 2 ^ 32))
          ≡ true
    in_range base cnt i a m h =
        let page : (base + 4096 * i) / 4096 ≡ base / 4096 + i = omega arith in
        let end : (base / 4096 + cnt) % 2 ^ 32 ≡ base / 4096 + cnt = omega arith in
        rw (page, end) (ground arith)

other_page :
    (p : Pool) (pages : ℕ)
    → IsPool p
    → p.base + 4096 * p.used_map.bit_cnt ≤ pages
    → page_from_pool p pages ≡ false
unfolding page_from_pool
other_page p pages v h = above p.base p.used_map.bit_cnt v.aligned v.in_memory h
  where
    above :
        (base cnt : ℕ)
        → base % 4096 ≡ 0
        → base + 4096 * cnt < 2 ^ 32
        → base + 4096 * cnt ≤ pages
        → (leb (base / 4096) (pages / 4096) && ltb (pages / 4096) ((base / 4096 + cnt) % 2 ^ 32))
          ≡ false
    above base cnt a m h =
        let end : (base / 4096 + cnt) % 2 ^ 32 ≡ base / 4096 + cnt = omega arith in
        let past : ltb (pages / 4096) (base / 4096 + cnt) ≡ false = ground arith in
        rw (end, past) (ground arith)

page_index : (base i : ℕ) → base % 4096 ≡ 0 → (base + 4096 * i) / 4096 - base / 4096 ≡ i
page_index base i h = omega arith

free_in_lem :
    (user : Bool) (i cnt : ℕ) (s : Pools)
    → IsPools s
    → i + cnt ≤ (pool_of user s).used_map.bit_cnt
    → IsRun (pool_of user s).used_map i cnt true
    → (s' : Pools) × (free_in user ((pool_of user s).base + 4096 * i) cnt s ≡ some s')
      × IsPools s'
      × ((j : ℕ)
          → bit_at (pool_of user s').used_map j
            ≡ (if leb i j && ltb j (i + cnt) then false else bit_at (pool_of user s).used_map j))
      × (pool_of (not user) s' ≡ pool_of (not user) s)
unfolding free_in
free_in_lem user i cnt s v fits run =
    let pool = pool_of user s in
    let p = IsPool-of user s v in
    let idx : (pool.base + 4096 * i) / 4096 - pool.base / 4096 ≡ i =
      page_index pool.base i p.aligned in
    let (b, sets, w, size, bits) = bitmap_set_multiple_lem i cnt false pool.used_map p.map fits in
    let after = with_map-IsPools user s b v w size in
    (
      record (with_pool user (record pool { used_map = b }) s) {
        memory = memset (pool.base + 4096 * i) 204 (4096 * cnt) s.memory;
      },
      rw (idx, bitmap_all-IsRun i cnt pool.used_map p.map fits run, ◌>>=◌, ◌>>◌)
          (rw (sets, ◌>>=◌) refl),
      record { kernel = after.kernel; user = after.user; apart = after.apart },
      λ j.
          ap (λ q. bit_at q.used_map j) (pool_of-with_pool user (record pool { used_map = b }) s)
          ∙ bits j,
      other-with_pool user (record pool { used_map = b }) s,
    )

offset : (base i : ℕ) → base % 4096 ≡ 0 → ((base + 4096 * i) % 4096 == 0) ≡ true
offset base i h = let z : (base + 4096 * i) % 4096 ≡ 0 = omega arith in ground arith

not_null : (base i : ℕ) → 0 < base → (base + 4096 * i == 0) ≡ false
not_null base i h = ground arith

some_pages : (cnt : ℕ) → 0 < cnt → (cnt == 0) ≡ false
some_pages cnt h = ground arith

-- The pool of a page is found.
free_multiple_lem :
    (user : Bool) (i cnt : ℕ) (s : Pools)
    → IsPools s
    → 0 < cnt
    → i + cnt ≤ (pool_of user s).used_map.bit_cnt
    → palloc_free_multiple ((pool_of user s).base + 4096 * i) cnt s
      ≡ free_in user ((pool_of user s).base + 4096 * i) cnt s
unfolding palloc_free_multiple pg_ofs
free_multiple_lem false i cnt s v pos fits =
    let p = s.kernel_pool in
    rw
      (
        offset p.base i v.kernel.aligned,
        ◌>>◌,
        not_null p.base i v.kernel.not_null,
        some_pages cnt pos,
      )
      (rw (own_page p i v.kernel (omega arith)) refl)
free_multiple_lem true i cnt s v pos fits =
    let p = s.user_pool in
    rw (offset p.base i v.user.aligned, ◌>>◌, not_null p.base i v.user.not_null, some_pages cnt pos)
      (rw
        (
          other_page s.kernel_pool (p.base + 4096 * i) v.kernel (omega (arith, v.apart)),
          own_page p i v.user (omega arith),
        )
        refl)

-- Freeing pages that `palloc_get_multiple` handed out fails no ASSERT and brings every bit of their
-- pool's map back; the other pool is as it was before the pages were handed out.
pub palloc_free_multiple-palloc_get_multiple :
    (flags cnt pages : ℕ) (s s' : Pools)
    → IsPools s
    → 0 < cnt
    → palloc_get_multiple flags cnt s ≡ some (pages, s')
    → pages ≢ 0
    → (s'' : Pools) × (palloc_free_multiple pages cnt s' ≡ some s'')
      × IsPools s''
      × ((j : ℕ)
          → bit_at (pool_of (has_flag flags pal_user) s'').used_map j
            ≡ bit_at (pool_of (has_flag flags pal_user) s).used_map j)
      × (pool_of (not (has_flag flags pal_user)) s'' ≡ pool_of (not (has_flag flags pal_user)) s)
palloc_free_multiple-palloc_get_multiple flags cnt pages s s' v pos gets real =
    by_outcome pages s' real (rw gets at (palloc_get_multiple_lem flags cnt s v pos))
  where
    back :
        (pages : ℕ) (s' : Pools) (j : ℕ) {b : Bool}
        → (g : Granted (has_flag flags pal_user) cnt s s' pages)
        → b ≡ (
            if leb g.index j && ltb j (g.index + cnt)
            then false
            else bit_at (pool_of (has_flag flags pal_user) s').used_map j)
        → b ≡ bit_at (pool_of (has_flag flags pal_user) s).used_map j
    back pages s' j g q = elim (Bool-cases (leb g.index j && ltb j (g.index + cnt))) [
      | inl e ↦ q ∙ rw e (sym (g.were_free j (ground arith) (ground arith)))
      | inr e ↦ q ∙ rw e (g.taken j ∙ rw e refl)
    ]

    by_outcome :
        (pages : ℕ) (s' : Pools)
        → pages ≢ 0
        → Getting flags cnt s (some (pages, s'))
        → (s'' : Pools) × (palloc_free_multiple pages cnt s' ≡ some s'')
          × IsPools s''
          × ((j : ℕ)
              → bit_at (pool_of (has_flag flags pal_user) s'').used_map j
                ≡ bit_at (pool_of (has_flag flags pal_user) s).used_map j)
          × (pool_of (not (has_flag flags pal_user)) s''
              ≡ pool_of (not (has_flag flags pal_user)) s)
    by_outcome _ _ real (out_of_pages e f) = absurd (real refl)
    by_outcome pages s' real (granted g m v') =
        let user = has_flag flags pal_user in
        let fits : g.index + cnt ≤ (pool_of user s').used_map.bit_cnt =
          omega (arith, g.inside, g.size) in
        let (s'', frees, v'', bits, other) =
          free_in_lem user g.index cnt s' v' fits (λ j lo hi. g.taken j ∙ ground arith) in
        (
          s'',
          ap (λ x. palloc_free_multiple x cnt s')
                (g.address ∙ ap (λ x. x + 4096 * g.index) (sym g.base))
              ∙ free_multiple_lem user g.index cnt s' v' pos fits
              ∙ frees,
          v'',
          λ j. back pages s' j g (bits j),
          other ∙ g.other,
        )
