-- ===== src/FreeMap/Laws.antt =====
-- Allocation and release of sectors in filesys/free-map.c.
use project_pintos.Base.{
  ℕ, ◌+◌, ◌≤◌, ◌≡◌, inl, inr, refl, sym, ap, ◌∙◌, ltb, leb, true, false, ◌&&◌, if◌then◌else◌,
  Option, none, some, arith, Bool-cases,
}
use project_pintos.Sched.{◌>>=◌, ◌>>◌}
use project_pintos.Inode.{Inode}
use project_pintos.File.{File}
use project_pintos.Bitmap.{Bitmap, bitmap_scan_and_flip, bitmap_write}
use project_pintos.Bitmap.View.{bit_at, IsBitmap}
use project_pintos.Bitmap.Ranges.{IsRun, bitmap_all-IsRun, bitmap_set_multiple_lem}
use project_pintos.Bitmap.Scan.{Found, first, nowhere, Flipped, bitmap_scan_and_flip_lem}
use project_pintos.FreeMap.{FreeMap, write_map, free_map_allocate, free_map_release}

-- What an allocation of `cnt` sectors achieves: they were free, are in use now, and no other sector
-- changes; or none is found, and no bit changes.
pub record Allocated (cnt : ℕ) (m m' : FreeMap) (sector : ℕ) : Type 0 where
  pub inside : sector + cnt ≤ m.map.bit_cnt
  pub were_free : IsRun m.map sector cnt false
  pub taken :
      (j : ℕ)
      → bit_at m'.map j ≡ (if leb sector j && ltb j (sector + cnt) then true else bit_at m.map j)

abbrev pub Outcome : ℕ → FreeMap → Option ℕ → FreeMap → Type 0
Outcome cnt m none m' = (j : ℕ) → bit_at m'.map j ≡ bit_at m.map j
Outcome cnt m (some sector) m' = Allocated cnt m m' sector

write_map-map :
    (inodes : ℕ → Inode) (m : FreeMap)
    → ((write_map inodes m).1.map ≡ m.map) × ((write_map inodes m).1.file ≡ m.file)
unfolding write_map
write_map-map inodes m = by_file m.file refl
  where
    by_file :
        (o : Option File)
        → m.file ≡ o
        → ((write_map inodes m).1.map ≡ m.map) × ((write_map inodes m).1.file ≡ m.file)
    by_file none q = ground arith
    by_file (some f) q = ground arith

-- `free_map_allocate` on a well-formed map fails no ASSERT. It returns sectors that were free, which
-- are then in use, no other bit changing, or it returns false, also where the file cannot be written,
-- with every bit as before.
pub free_map_allocate_lem :
    (inodes : ℕ → Inode) (cnt : ℕ) (m : FreeMap)
    → IsBitmap m.map
    → (o : Option ℕ) × (m' : FreeMap) × (free_map_allocate inodes cnt m ≡ some (o, m'))
      × IsBitmap m'.map
      × (m'.map.bit_cnt ≡ m.map.bit_cnt)
      × (m'.file ≡ m.file)
      × Outcome cnt m o m'
unfolding free_map_allocate
free_map_allocate_lem inodes cnt m v =
    let (o, b', flips, v', found, turned) =
      bitmap_scan_and_flip_lem 0 cnt false m.map v (omega arith) in
    by_result o b' found turned v' flips
  where
    undone_bit :
        (sector : ℕ) (b b'' : Bitmap) (j : ℕ)
        → IsRun m.map sector cnt false
        → bit_at b j ≡ (if leb sector j && ltb j (sector + cnt) then true else bit_at m.map j)
        → bit_at b'' j ≡ (if leb sector j && ltb j (sector + cnt) then false else bit_at b j)
        → bit_at b'' j ≡ bit_at m.map j
    undone_bit sector b b'' j run p q = elim (Bool-cases (leb sector j && ltb j (sector + cnt))) [
      | inl e ↦ rw (q, e) (sym (run j (ground arith) (ground arith)))
      | inr e ↦ rw (q, e, p, e) refl
    ]

    by_result :
        (o : Option ℕ) (b : Bitmap)
        → Found m.map 0 cnt false o
        → Flipped m.map cnt false o b
        → IsBitmap b
        → bitmap_scan_and_flip 0 cnt false m.map ≡ some (o, b)
        → (o : Option ℕ) × (m' : FreeMap) × (free_map_allocate inodes cnt m ≡ some (o, m'))
          × IsBitmap m'.map
          × (m'.map.bit_cnt ≡ m.map.bit_cnt)
          × (m'.file ≡ m.file)
          × Outcome cnt m o m'
    by_result o b (nowhere all) turned w q = (
      none,
      record m { map = b },
      rw (q, ◌>>=◌) refl,
      w,
      ap (λ x. x.bit_cnt) turned,
      refl,
      λ j. ap (λ x. bit_at x j) turned,
    )
    by_result o b (first sector lo hi run before) (size, bits) w q =
        let m' : FreeMap = record m { map = b } in
        let (map_eq, file_eq) = write_map-map inodes m' in
        elim (Bool-cases (write_map inodes m').0) [
          | inl ok ↦ (
            some sector,
            (write_map inodes m').1,
            rw (q, ◌>>=◌) (rw ok refl),
            rw map_eq w,
            rw map_eq size,
            file_eq,
            record { inside = hi; were_free = run; taken = λ j. rw map_eq (bits j) },
          )
          | inr failed ↦
              let (b'', sets, w'', size'', bits'') =
                bitmap_set_multiple_lem sector cnt false b w (omega (arith, size)) in
              (
                none,
                record (write_map inodes m').1 { map = b'' },
                rw (q, ◌>>=◌) (rw (failed, sets, ◌>>=◌) refl),
                w'',
                size'' ∙ size,
                file_eq,
                λ j. undone_bit sector b b'' j run (bits j) (bits'' j),
              )
        ]

-- `free_map_release` of sectors that are all in use, with the file open, fails no ASSERT: they are free
-- afterwards and no other bit changes.
pub free_map_release_lem :
    (inodes : ℕ → Inode) (sector cnt : ℕ) (m : FreeMap) (file : File)
    → IsBitmap m.map
    → m.file ≡ some file
    → sector + cnt ≤ m.map.bit_cnt
    → IsRun m.map sector cnt true
    → (m' : FreeMap) × (free_map_release inodes sector cnt m ≡ some m')
      × IsBitmap m'.map
      × (m'.map.bit_cnt ≡ m.map.bit_cnt)
      × ((j : ℕ)
          → bit_at m'.map j
            ≡ (if leb sector j && ltb j (sector + cnt) then false else bit_at m.map j))
unfolding free_map_release
free_map_release_lem inodes sector cnt m file v open_file fits run =
    let (b, sets, w, size, bits) = bitmap_set_multiple_lem sector cnt false m.map v fits in
    (
      record m { map = b; disk = (bitmap_write m.disk inodes file b).1 },
      rw (bitmap_all-IsRun sector cnt m.map v fits run, ◌>>=◌, ◌>>◌)
          (rw (sets, ◌>>=◌, open_file) refl),
      w,
      size,
      bits,
    )

-- Releasing what was just allocated, with the file open, brings every bit of the map back.
pub free_map_release-free_map_allocate :
    (inodes : ℕ → Inode) (cnt sector : ℕ) (m m' : FreeMap) (file : File)
    → IsBitmap m.map
    → m.file ≡ some file
    → free_map_allocate inodes cnt m ≡ some (some sector, m')
    → (m'' : FreeMap) × (free_map_release inodes sector cnt m' ≡ some m'')
      × IsBitmap m''.map
      × ((j : ℕ) → bit_at m''.map j ≡ bit_at m.map j)
free_map_release-free_map_allocate inodes cnt sector m m' file v open_file runs =
    let (o, n, allocates, w, size, same_file, outcome) = free_map_allocate_lem inodes cnt m v in
    restores o n allocates w size same_file outcome
  where
    back :
        (j : ℕ) (n n' : FreeMap)
        → Allocated cnt m n sector
        → bit_at n'.map j ≡ (if leb sector j && ltb j (sector + cnt) then false else bit_at n.map j)
        → bit_at n'.map j ≡ bit_at m.map j
    back j n n' a q = elim (Bool-cases (leb sector j && ltb j (sector + cnt))) [
      | inl e ↦ rw (q, e) (sym (a.were_free j (ground arith) (ground arith)))
      | inr e ↦ rw (q, e, a.taken j, e) refl
    ]

    restores :
        (o : Option ℕ) (n : FreeMap)
        → free_map_allocate inodes cnt m ≡ some (o, n)
        → IsBitmap n.map
        → n.map.bit_cnt ≡ m.map.bit_cnt
        → n.file ≡ m.file
        → Outcome cnt m o n
        → (m'' : FreeMap) × (free_map_release inodes sector cnt m' ≡ some m'')
          × IsBitmap m''.map
          × ((j : ℕ) → bit_at m''.map j ≡ bit_at m.map j)
    restores none n q w size same_file a = absurd (cc)
    restores (some s) n q w size same_file a =
        let at_sector : s ≡ sector = cc in
        let state : n ≡ m' = cc in
        let a' : Allocated cnt m n sector = rw at_sector at a in
        let (m'', releases, w', size', bits) =
          free_map_release_lem inodes sector cnt n file w (same_file ∙ open_file)
            (omega (arith, a'.inside, size)) (λ j lo hi. a'.taken j ∙ ground arith) in
        (m'', rw state at releases, w', λ j. back j n m'' a' (bits j))
