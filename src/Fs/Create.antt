-- ===== src/Fs/Create.antt =====
-- What `inode_create` leaves on the device (filesys/inode.c).
use project_pintos.Base.{
  ℕ, zero, suc, ◌+◌, ◌^◌, ◌≤◌, ◌<◌, ◌≡◌, inl, inr, refl, ap₂, ◌∙◌, ◌==◌, ltb, leb, ◌&&◌, Bool, true,
  false, List, Option, none, some, arith, Bool-cases, if◌then◌else◌, replicate,
}
use project_pintos.Sched.{◌>>=◌}
use project_pintos.Inode.{Disk, block_write, bytes_to_sectors}
use project_pintos.Bitmap.View.{bit_at, IsBitmap}
use project_pintos.Directory.Bytes.{word}
use project_pintos.FreeMap.{FreeMap, free_map_allocate}
use project_pintos.FreeMap.Laws.{Allocated, Outcome, free_map_allocate_lem}
use project_pintos.Fs.{
  Fs, with_map, with_disk, inode_disk_bytes, load_inode, zero_sectors, inode_create,
}

-- The sectors of a run are zero after the loop, and the others as before.
zero_sectors_lem :
    (n start : ℕ) (d : Disk) (s : ℕ)
    → zero_sectors n start d s ≡ (if leb start s && ltb s (start + n) then replicate 512 0 else d s)
zero_sectors_lem zero start d s = ground arith
zero_sectors_lem (suc n) start d s =
    zero_sectors_lem n (start + 1) (block_write d start (replicate 512 0)) s ∙ ground arith

load_inode-bytes :
    (d : Disk) (sector start len : ℕ)
    → start < 2 ^ 32
    → len < 2 ^ 32
    → d sector ≡ inode_disk_bytes start len
    → load_inode d sector ≡ (start, len)
unfolding load_inode inode_disk_bytes
load_inode-bytes d sector start len hs hl h =
    rw h (ap₂ (λ x y. (x, y)) (word start hs) (word len hl))

-- A sector that is in use is not among those that were free.
outside :
    (m : FreeMap) (n start sector : ℕ)
    → ((j : ℕ) → start ≤ j → j < start + n → bit_at m.map j ≡ false)
    → bit_at m.map sector ≡ true
    → (leb start sector && ltb sector (start + n)) ≡ false
outside m n start sector free used =
    elim (Bool-cases (leb start sector && ltb sector (start + n))) [
      | inl e ↦ absurd (clash used (free sector (ground arith) (ground arith)))
      | inr e ↦ e
    ]
  where
    clash : {b : Bool} → b ≡ true → b ≡ false → ⊥
    clash p q = cc

-- A sector written before the zeros keeps what was written.
kept :
    (n start sector : ℕ) (d : Disk) (bytes : List ℕ)
    → (leb start sector && ltb sector (start + n)) ≡ false
    → zero_sectors n start (block_write d sector bytes) sector ≡ bytes
kept n start sector d bytes out =
    let self : (sector == sector) ≡ true = ground arith in
    zero_sectors_lem n start (block_write d sector bytes) sector ∙ rw out (rw self refl)

-- A new file of `len` bytes at a sector: its data sectors were free, are in use now and hold zeros, and
-- what the sector holds says where they are and how long the file is.
pub record Created (t t' : Fs) (sector len : ℕ) : Type 0 where
  pub start : ℕ
  pub allocated : Allocated (bytes_to_sectors len) t.free_map t'.free_map start
  pub loaded : load_inode t'.free_map.disk sector ≡ (start, len)
  pub zeros : (k : ℕ) → k < bytes_to_sectors len → t'.free_map.disk (start + k) ≡ replicate 512 0

-- What `inode_create` achieves, by what it returns: the new file, or no bit of the free map changes.
abbrev pub Creation : Fs → ℕ → ℕ → Bool → Fs → Type 0
Creation t sector len true t' = Created t t' sector len
Creation t sector len false t' = (j : ℕ) → bit_at t'.free_map.map j ≡ bit_at t.free_map.map j

short_test : (len : ℕ) → len < 2 ^ 31 → ltb len (2 ^ 31) ≡ true
short_test len h = ground arith

-- `inode_create` with a well-formed free map, for a sector that is in use and a length below 2^31, fails
-- no ASSERT. Where it returns true, the sector holds the start and the length, and the sectors of the
-- file were free, are in use and hold zeros; where it returns false, also for want of memory, the free
-- map is as before.
pub inode_create_lem :
    (memory : Bool) (sector len : ℕ) (t : Fs)
    → IsBitmap t.free_map.map
    → bit_at t.free_map.map sector ≡ true
    → len < 2 ^ 31
    → (r : Bool) × (t' : Fs) × (inode_create memory sector len t ≡ some (r, t'))
      × IsBitmap t'.free_map.map
      × (t'.inodes ≡ t.inodes)
      × Creation t sector len r t'
unfolding inode_create
inode_create_lem false sector len t v used short =
    let legal = short_test len short in (false, t, rw legal refl, v, refl, λ j. refl)
inode_create_lem true sector len t v used short =
    let (o, m, allocates, w, size, file, outcome) =
      free_map_allocate_lem t.inodes (bytes_to_sectors len) t.free_map v in
    by_result o m w outcome allocates
  where
    by_result :
        (o : Option ℕ) (m : FreeMap)
        → IsBitmap m.map
        → Outcome (bytes_to_sectors len) t.free_map o m
        → free_map_allocate t.inodes (bytes_to_sectors len) t.free_map ≡ some (o, m)
        → (r : Bool) × (t' : Fs) × (inode_create true sector len t ≡ some (r, t'))
          × IsBitmap t'.free_map.map
          × (t'.inodes ≡ t.inodes)
          × Creation t sector len r t'
    by_result none m w same q =
        (false, with_map m t, rw (short_test len short, q, ◌>>=◌) refl, w, refl, same)
    by_result (some start) m w a q =
        let written = block_write m.disk sector (inode_disk_bytes start len) in
        (
          true,
          with_disk (zero_sectors (bytes_to_sectors len) start written) (with_map m t),
          rw (short_test len short, q, ◌>>=◌) refl,
          w,
          refl,
          record {
            start = start;
            allocated = record { inside = a.inside; were_free = a.were_free; taken = a.taken };
            loaded =
                load_inode-bytes (zero_sectors (bytes_to_sectors len) start written) sector start
                  len (omega (arith, a.inside, v.small)) (omega arith)
                  (kept (bytes_to_sectors len) start sector m.disk (inode_disk_bytes start len) (
                    outside t.free_map (bytes_to_sectors len) start sector
                      (λ j lo hi. a.were_free j lo hi) used));
            zeros = λ k h.
                zero_sectors_lem (bytes_to_sectors len) start written (start + k) ∙ ground arith;
          },
        )
