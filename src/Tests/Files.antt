-- ===== src/Tests/Files.antt =====
-- The theorems on inodes and open files (filesys/inode.c, filesys/file.c), at a file of two sectors.
use project_pintos.Base.{
  ℕ, zero, suc, ap, ◌-◌, ◌≡◌, ◌≢◌, ◌==◌, refl, true, false, if◌then◌else◌, List, [], ◌∷◌, some,
  arith, length, replicate, min,
}
use project_pintos.Inode.{Disk, Inode, inode_read_at, inode_write_at}
use project_pintos.Inode.Read.{IsDisk, file_bytes, inode_read_at_lem}
use project_pintos.Inode.Write.{Written, inode_write_at-Written}
use project_pintos.File.{InodeTable, File, file_close}
use project_pintos.File.Balance.{IsBalanced, holders, file_close-IsBalanced}

-- A file of 600 bytes in the sectors 3 and 4.
abbrev file : Inode
file = record {
  sector = 2;
  open_cnt = 1;
  removed = false;
  deny_write_cnt = 0;
  start = 3;
  length = 600;
}

abbrev disk : Disk
disk s = replicate 512 s

length-replicate : (n a : ℕ) → length (replicate n a) ≡ n
length-replicate zero a = refl
length-replicate (suc n) a = ap suc (length-replicate n a)

disk-IsDisk : IsDisk disk
disk-IsDisk s = length-replicate 512 s

inode_read_at_lem_example :
    inode_read_at disk file 100 510 ≡ file_bytes disk file 510 (min 100 (file.length - 510))
inode_read_at_lem_example = inode_read_at_lem disk file 100 510 disk-IsDisk

abbrev buffer : List ℕ
buffer = 1 ∷ 2 ∷ 3 ∷ []

inode_write_at-Written_example :
    (d' : Disk) × (n : ℕ) × (inode_write_at disk file buffer 510 ≡ (d', n))
    × (n ≡ min (length buffer) (file.length - 510))
    × Written disk d' file buffer 510 n
inode_write_at-Written_example = inode_write_at-Written disk file buffer 510 disk-IsDisk refl

-- Two open files share the inode at address 7; the first one denies writes.
abbrev inodes : ℕ → Inode
inodes a =
    if a == 7
    then record file { open_cnt = 2; deny_write_cnt = 1 }
    else record file { open_cnt = 0 }

abbrev table : InodeTable (List ℕ)
table = record { inodes = inodes; open_inodes = 7 ∷ []; free_map = [] }

abbrev denier : File
denier = record { inode = 7; pos = 510; deny_write = true }

abbrev other : File
other = record { inode = 7; pos = 0; deny_write = false }

shared-IsBalanced : IsBalanced (denier ∷ other ∷ []) table
shared-IsBalanced = record {
  not_null = refl;
  opened = λ a. ground arith;
  denied = λ a. ground arith;
}

-- A free map that only notes what is released.
abbrev note_release : ℕ → ℕ → List ℕ → List ℕ
note_release start n released = start ∷ n ∷ released

file_close-IsBalanced_example :
    (t' : InodeTable (List ℕ)) × (file_close note_release denier table ≡ some t')
    × IsBalanced (other ∷ []) t'
    × (holders 7 (other ∷ []) ≢ 0 → (t'.free_map ≡ []) × (t'.open_inodes ≡ 7 ∷ []))
file_close-IsBalanced_example =
    file_close-IsBalanced note_release denier (other ∷ []) table shared-IsBalanced
