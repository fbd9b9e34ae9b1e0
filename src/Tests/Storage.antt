-- ===== src/Tests/Storage.antt =====
-- The theorems on bitmaps, the free map, directories and the file system, at a small device.
use project_pintos.Base.{
  ℕ, zero, suc, ap, ◌+◌, ◌*◌, ◌<◌, ◌≤◌, ◌≡◌, ◌≢◌, ◌⊎◌, inl, inr, ◌==◌, Bool-cases, refl, Bool, true,
  false, if◌then◌else◌, List, [], ◌∷◌, ◌++◌, some, arith, length, replicate,
}
use project_pintos.Inode.{
  Disk, Inode, inode_read_at, inode_write_at, read_loop, chunk_size, write_loop, new_sector,
}
use project_pintos.Inode.Read.{IsDisk}
use project_pintos.Inode.RoundTrip.{inode_read_at-inode_write_at}
use project_pintos.File.{File, find_open, file_write_at}
use project_pintos.Bitmap.{
  Bitmap, bitmap_scan_and_flip, bitmap_write, bitmap_read, elem_cnt, byte_cnt,
}
use project_pintos.Bitmap.View.{bit_at, IsBitmap}
use project_pintos.Bitmap.Storage.{bitmap_read-bitmap_write}
use project_pintos.FreeMap.{FreeMap, free_map_allocate, free_map_release}
use project_pintos.FreeMap.Laws.{free_map_release-free_map_allocate}
use project_pintos.Directory.{Entry, Dir, lookup, dir_add}
use project_pintos.Directory.Bytes.{IsName}
use project_pintos.Directory.Slots.{slot, slots, holds}
use project_pintos.Directory.Add.{new_entry, dir_add_lem}
use project_pintos.Directory.Names.{Distinct, dir_add-Distinct}
use project_pintos.Fs.{Fs, inode_create}
use project_pintos.Filesys.{dir_remove}
use project_pintos.Fs.Create.{Creation, inode_create_lem}
use project_pintos.Filesys.Remove.{Erased, dir_remove_lem}

-- A device of zeros, with the directory's 40 bytes in sector 5.
abbrev empty_disk : Disk
empty_disk s = replicate 512 0

length-replicate : (n a : ℕ) → length (replicate n a) ≡ n
length-replicate zero a = refl
length-replicate (suc n) a = ap suc (length-replicate n a)

empty_disk-IsDisk : IsDisk empty_disk
empty_disk-IsDisk s = length-replicate 512 0

abbrev root : Inode
root = record {
  sector = 1;
  open_cnt = 1;
  removed = false;
  deny_write_cnt = 0;
  start = 5;
  length = 40;
}

abbrev file_name : List ℕ
file_name = 97 ∷ 98 ∷ []

file_name-IsName : IsName file_name
file_name-IsName = record {
  not_empty = omega arith;
  short = omega arith;
  no_zero = (ground arith, (ground arith, _));
}

abbrev garbage : Entry
garbage = record { inode_sector = 0; name = replicate 15 7; in_use = false }

inode_read_at-inode_write_at_example :
    (d' : Disk) × (inode_write_at empty_disk root file_name 30 ≡ (d', 2))
    × IsDisk d'
    × (inode_read_at d' root 2 30 ≡ file_name)
    × ((ofs n : ℕ)
        → (ofs + n ≤ 30) ⊎ (30 + 2 ≤ ofs)
        → inode_read_at d' root n ofs ≡ inode_read_at empty_disk root n ofs)
inode_read_at-inode_write_at_example =
    inode_read_at-inode_write_at empty_disk root file_name 30 empty_disk-IsDisk refl (omega arith)

dir_add_lem_example :
    (d' : Disk) × (dir_add garbage file_name 77 root empty_disk ≡ (true, d'))
    × IsDisk d'
    × (lookup d' root file_name ≡ some (new_entry (slot empty_disk root 0) file_name 77, 0 * 20))
    × ((other : List ℕ) → other ≢ file_name → lookup d' root other ≡ lookup empty_disk root other)
unfolding lookup inode_read_at read_loop chunk_size
dir_add_lem_example =
    dir_add_lem empty_disk root garbage file_name 77 0 empty_disk-IsDisk refl file_name-IsName
      (omega arith) refl refl

-- No two of the two free entries have the same name.
empty-Distinct : Distinct empty_disk root
unfolding lookup inode_read_at read_loop chunk_size
empty-Distinct = record { once = once }
  where
    free : (name : List ℕ) (j : ℕ) → j < 2 → holds name (slot empty_disk root j) ≡ false
    free name zero h = refl
    free name (suc zero) h = refl
    free name (suc (suc j)) h = absurd (omega (arith, h))

    once :
        (name : List ℕ) (j k : ℕ)
        → j < slots root
        → k < slots root
        → holds name (slot empty_disk root j) ≡ true
        → holds name (slot empty_disk root k) ≡ true
        → j ≡ k
    once name j k hj hk p q = absurd (ground (arith, free name j hj, p))

dir_add-Distinct_example :
    IsDisk (dir_add garbage file_name 77 root empty_disk).1
    × Distinct (dir_add garbage file_name 77 root empty_disk).1 root
dir_add-Distinct_example =
    dir_add-Distinct empty_disk root garbage file_name 77 empty_disk-IsDisk file_name-IsName.no_zero
      (omega arith) empty-Distinct

-- The directory with one entry, whose file is open.
abbrev full_disk : Disk
full_disk s =
    if s == 5
    then (77 ∷ 0 ∷ 0 ∷ 0 ∷ 97 ∷ 98 ∷ replicate 13 0) ++ (1 ∷ replicate 492 0)
    else replicate 512 0

full_disk-IsDisk : IsDisk full_disk
full_disk-IsDisk s = elim (Bool-cases (s == 5)) [
  | inl e ↦ rw e refl
  | inr e ↦ rw e (length-replicate 512 0)
]

full-Distinct : Distinct full_disk root
unfolding lookup inode_read_at read_loop chunk_size
full-Distinct = record { once = once }
  where
    once :
        (name : List ℕ) (j k : ℕ)
        → j < slots root
        → k < slots root
        → holds name (slot full_disk root j) ≡ true
        → holds name (slot full_disk root k) ≡ true
        → j ≡ k
    once name zero zero hj hk p q = refl
    once name zero (suc zero) hj hk p q = absurd (ground (arith, q))
    once name (suc zero) k hj hk p q = absurd (ground (arith, p))
    once name j (suc (suc k)) hj hk p q = absurd (omega (arith, hk))
    once name (suc (suc j)) k hj hk p q = absurd (omega (arith, hj))

abbrev fs_inodes : ℕ → Inode
fs_inodes a = if a == 20 then root else record {
  sector = 77;
  open_cnt = 1;
  removed = false;
  deny_write_cnt = 0;
  start = 78;
  length = 10;
}

abbrev map_file : File
map_file = record { inode = 40; pos = 0; deny_write = false }

abbrev free_map : FreeMap
free_map = record {
  map = record { bit_cnt = 40; bits = 3 ∷ 0 ∷ [] };
  file = some map_file;
  disk = full_disk;
}

abbrev fs : Fs
fs = record { inodes = fs_inodes; open_inodes = 20 ∷ 30 ∷ []; free_map = free_map }

abbrev root_dir : Dir
root_dir = record { inode = 20; pos = 0 }

dir_remove_lem_example :
    (t' : Fs) × (dir_remove 50 root_dir file_name fs ≡ some (true, t'))
    × Erased full_disk t'.free_map.disk root file_name
    × (t'.inodes 30 ≡ record (fs_inodes 30) { removed = true })
    × (t'.open_inodes ≡ fs.open_inodes)
    × (t'.free_map.map ≡ free_map.map)
unfolding lookup inode_read_at read_loop chunk_size find_open
dir_remove_lem_example =
    dir_remove_lem 50 30 0 root_dir (slot full_disk root 0) file_name fs full_disk-IsDisk refl
      full-Distinct refl (omega arith) refl (ground arith) (ground arith) (omega arith)

free_map-IsBitmap : IsBitmap free_map.map
unfolding elem_cnt
free_map-IsBitmap = record { storage = refl; small = omega arith }

bitmap_read-bitmap_write_example :
    (d' : Disk) × (c' : Bitmap) × (bitmap_write empty_disk fs_inodes map_file free_map.map
      ≡ (true, d'))
    × (bitmap_read d' fs_inodes map_file free_map.map ≡ (true, c'))
    × IsBitmap c'
    × (c'.bit_cnt ≡ 40)
    × ((j : ℕ) → j < 40 → bit_at c' j ≡ bit_at free_map.map j)
unfolding byte_cnt
bitmap_read-bitmap_write_example =
    bitmap_read-bitmap_write empty_disk fs_inodes map_file free_map.map free_map.map
      empty_disk-IsDisk refl (omega arith) free_map-IsBitmap free_map-IsBitmap refl

inode_create_lem_example :
    (r : Bool) × (t' : Fs) × (inode_create true 1 1000 fs ≡ some (r, t'))
    × IsBitmap t'.free_map.map
    × (t'.inodes ≡ fs_inodes)
    × Creation fs 1 1000 r t'
inode_create_lem_example = inode_create_lem true 1 1000 fs free_map-IsBitmap refl (omega arith)

-- The four sectors from 2 on are taken.
abbrev taken : Bitmap
taken = record { bit_cnt = 40; bits = 63 ∷ 0 ∷ [] }

abbrev allocated : FreeMap
allocated = record {
  map = taken;
  file = some map_file;
  disk = (bitmap_write full_disk fs_inodes map_file taken).1;
}

free_map_release-free_map_allocate_example :
    (m'' : FreeMap) × (free_map_release fs_inodes 2 4 allocated ≡ some m'')
    × IsBitmap m''.map
    × ((j : ℕ) → bit_at m''.map j ≡ bit_at free_map.map j)
unfolding free_map_allocate bitmap_scan_and_flip bitmap_write inode_write_at write_loop chunk_size
    new_sector file_write_at
free_map_release-free_map_allocate_example =
    free_map_release-free_map_allocate fs_inodes 4 2 free_map allocated map_file free_map-IsBitmap
      refl refl
