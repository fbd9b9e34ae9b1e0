-- ===== src/File/Reading.antt =====
-- Reading a file piece by piece (filesys/file.c).
use project_pintos.Base.{ap₂, sym, ℕ, ◌+◌, ◌-◌, ◌≡◌, refl, ◌++◌, arith, min}
use project_pintos.Inode.{Disk, Inode}
use project_pintos.Inode.Read.{
  IsDisk, file_bytes, length-file_bytes, file_bytes_split, inode_read_at_lem,
}
use project_pintos.File.{File, file_read}

-- `file_read` returns the bytes from the position on and moves the position past them.
pub file_read_lem :
    (d : Disk) (inodes : ℕ → Inode) (size : ℕ) (f : File)
    → IsDisk d
    → let n = min size ((inodes f.inode).length - f.pos) in
      file_read d inodes size f
      ≡ (file_bytes d (inodes f.inode) f.pos n, record f { pos = f.pos + n })
unfolding file_read
file_read_lem d inodes size f v =
    let n = min size ((inodes f.inode).length - f.pos) in
    rw
      (
        inode_read_at_lem d (inodes f.inode) size f.pos v,
        length-file_bytes d (inodes f.inode) f.pos n,
      )
      refl

-- On a disk of whole sectors reading a file in two pieces gives the bytes and the position that reading it at once gives, also
-- where the file ends within the first piece.
pub file_read-file_read :
    (d : Disk) (inodes : ℕ → Inode) (n m : ℕ) (f : File)
    → IsDisk d
    → (
      (file_read d inodes n f).0 ++ (file_read d inodes m (file_read d inodes n f).1).0,
      (file_read d inodes m (file_read d inodes n f).1).1,
    )
      ≡ file_read d inodes (n + m) f
file_read-file_read d inodes n m f v =
    let i = inodes f.inode in
    let a = min n (i.length - f.pos) in
    let b = min m (i.length - (f.pos + a)) in
    let both : min (n + m) (i.length - f.pos) ≡ a + b = omega arith in
    let far : f.pos + a + b ≡ f.pos + (a + b) = omega arith in
    rw
      (
        file_read_lem d inodes n f v,
        file_read_lem d inodes m (record f { pos = f.pos + a }) v,
        file_read_lem d inodes (n + m) f v,
        both,
      )
      (ap₂ (λ x y. (x, record f { pos = y })) (sym (file_bytes_split d i f.pos a b)) far)
