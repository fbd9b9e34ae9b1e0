-- ===== src/Filesys/Remove.antt =====
-- What `dir_remove` makes of a directory and of a file that stays open (filesys/directory.c).
use project_pintos.Base.{
  ℕ, ◌+◌, ◌-◌, ◌*◌, ◌^◌, ◌<◌, ◌≡◌, ◌≢◌, inl, inr, refl, sym, ap, ◌∙◌, ◌==◌, ◌&&◌, Bool, true, false,
  List, Option, none, some, arith, Bool-cases, length,
}
use project_pintos.Sched.{◌>>=◌}
use project_pintos.Inode.{Disk, Inode, inode_reopen, inode_remove}
use project_pintos.Inode.Read.{IsDisk}
use project_pintos.File.{store_inode, find_open, inode_open, reopen_inode, inode_close}
use project_pintos.Directory.{Entry, Dir, c_string, lookup}
use project_pintos.Directory.Bytes.{IsEntry, eq_of_str_eq}
use project_pintos.Directory.Slots.{slots, slot, holds}
use project_pintos.Directory.Store.{
  Stored, store_entry, length-slot, lookup-other, lookup-slot, lookup-absent,
}
use project_pintos.Directory.Names.{Distinct, Stored-Distinct}
use project_pintos.Fs.{Fs, with_disk, open_sector, close_inode}
use project_pintos.Filesys.{erase_entry, dir_remove}

-- Opening an inode that is open counts one opener more.
open_sector-open :
    (page sector a : ℕ) (t : Fs)
    → find_open sector t.open_inodes t.inodes ≡ some a
    → (a == 0) ≡ false
    → open_sector page sector t ≡ (a, store_inode a (inode_reopen (t.inodes a)) t)
unfolding open_sector inode_open reopen_inode
open_sector-open page sector a t found real =
    rw (found, open_sector, inode_open) (rw (real, reopen_inode) refl)

-- Closing an inode that has other openers counts one less.
close_inode-shared :
    (a : ℕ) (t : Fs)
    → (a == 0) ≡ false
    → ((t.inodes a).open_cnt == 1) ≡ false
    → close_inode a t
      ≡ some (store_inode a (record (t.inodes a) { open_cnt = (t.inodes a).open_cnt - 1 }) t)
unfolding close_inode inode_close
close_inode-shared a t real shared = rw (real, shared) refl

erase_entry-Stored :
    (dir : Dir) (i : Inode) (e : Entry) (s a : ℕ) (t : Fs)
    → t.inodes dir.inode ≡ i
    → IsDisk t.free_map.disk
    → i.deny_write_cnt ≡ 0
    → s < slots i
    → IsEntry e
    → (d' : Disk) × (erase_entry dir e (s * 20) a t
        ≡ (true, store_inode a (inode_remove (t.inodes a)) (with_disk d' t)))
      × Stored t.free_map.disk d' i s (record e { in_use = false })
unfolding erase_entry
erase_entry-Stored dir i e s a t same v allowed inside valid =
    let erased : Entry = record e { in_use = false } in
    let (d', writes, st) =
      store_entry t.free_map.disk i s erased v allowed inside
        (record { sector = valid.sector; array = valid.array }) in
    (d', rw (same, writes) refl, st)

holds-other :
    (name other : List ℕ) (e : Entry) → holds name e ≡ true → other ≢ name → holds other e ≡ false
holds-other name other e p ne = elim (Bool-cases (holds other e)) [
  | inl q ↦ absurd (
      ne (
        eq_of_str_eq other (c_string e.name) (both e.in_use _ q)
        ∙ sym (eq_of_str_eq name (c_string e.name) (both e.in_use _ p))))
  | inr q ↦ q
]
  where
    both : (b c : Bool) → (b && c) ≡ true → c ≡ true
    both true c h = h
    both false c h = absurd (ground (arith, h))

-- What erasing the entry that `lookup` found does to the names of a directory.
pub record Erased (d d' : Disk) (i : Inode) (name : List ℕ) : Type 0 where
  pub whole : IsDisk d'
  pub gone : lookup d' i name ≡ none
  pub distinct : Distinct d' i
  pub others : (other : List ℕ) → other ≢ name → lookup d' i other ≡ lookup d i other

Stored-Erased :
    (d d' : Disk) (i : Inode) (s : ℕ) (e : Entry) (name : List ℕ)
    → IsDisk d
    → Distinct d i
    → s < slots i
    → holds name (slot d i s) ≡ true
    → Stored d d' i s (record e { in_use = false })
    → Erased d d' i name
Stored-Erased d d' i s e name v dist inside held st = record {
  whole = st.whole;
  gone = lookup-absent d' i name st.whole no_one;
  distinct =
      Stored-Distinct d d' i s (record e { in_use = false }) dist st (λ n p k h. absurd (clash p));
  others = λ other ne.
      lookup-other d d' i s (record e { in_use = false }) other v st
        (holds-other name other (slot d i s) held ne) refl;
}
  where
    clash : false ≡ true → ⊥
    clash p = cc

    no_one : (k : ℕ) → k < slots i → holds name (slot d' i k) ≡ false
    no_one k h = elim (Bool-cases (k == s)) [
      | inl here ↦ let same : k ≡ s = ground arith in rw same (ap (holds name) st.there)
      | inr far ↦ ap (holds name) (st.others k far) ∙ (elim (Bool-cases (holds name (slot d i k))) [
        | inl p ↦ let same = dist.once name k s h inside p held in absurd (ground (arith, same))
        | inr p ↦ p
      ])
    ]

twice : (n : ℕ) → 0 < n → (n + 1 == 1) ≡ false
twice n h = ground arith

back : (n : ℕ) → n + 1 - 1 ≡ n
back n = omega arith

-- Opening an inode, marking it removed and closing it marks it removed.
marked :
    (t : Fs) (a : ℕ) (d' : Disk)
    → (a == 0) ≡ false
    → 0 < (t.inodes a).open_cnt
    → let t1 : Fs = store_inode a (inode_reopen (t.inodes a)) t in
      let t2 : Fs = store_inode a (inode_remove (t1.inodes a)) (with_disk d' t1) in
      (t' : Fs) × (close_inode a t2 ≡ some t')
      × (t'.inodes a ≡ record (t.inodes a) { removed = true })
      × (t'.open_inodes ≡ t.open_inodes)
      × (t'.free_map ≡ record t.free_map { disk = d' })
unfolding inode_reopen inode_remove
marked t a d' there opened =
    let t1 : Fs = store_inode a (inode_reopen (t.inodes a)) t in
    let t2 : Fs = store_inode a (inode_remove (t1.inodes a)) (with_disk d' t1) in
    let self : (a == a) ≡ true = ground arith in
    (
      store_inode a (record (t2.inodes a) { open_cnt = (t2.inodes a).open_cnt - 1 }) t2,
      close_inode-shared a t2 there (rw self (twice (t.inodes a).open_cnt opened)),
      rw self (
          ap (λ n. record (t.inodes a) { removed = true; open_cnt = n })
            (back (t.inodes a).open_cnt)),
      refl,
      refl,
    )

-- `dir_remove` where every call in it succeeds.
dir_remove-calls :
    (page a ofs : ℕ) (dir : Dir) (e : Entry) (name : List ℕ) (t t1 t2 t3 : Fs)
    → lookup t.free_map.disk (t.inodes dir.inode) name ≡ some (e, ofs)
    → open_sector page e.inode_sector t ≡ (a, t1)
    → (a == 0) ≡ false
    → erase_entry dir e ofs a t1 ≡ (true, t2)
    → close_inode a t2 ≡ some t3
    → dir_remove page dir name t ≡ some (true, t3)
unfolding dir_remove
dir_remove-calls page a ofs dir e name t t1 t2 t3 found opens there erases closes =
    let finish : Option Fs → Option (Bool × Fs) = λ o. o >>= (λ closed. some (true, closed)) in
    rw (found, dir_remove) (rw opens (rw there (rw erases (ap finish closes))))

-- `dir_remove` of a name in a directory with distinct names, on a disk of whole sectors, where writes to
-- the directory are allowed, the entry has a 32-bit sector number and the file is open and not the
-- directory itself, succeeds. The name is gone, any other name is found where it was, and the names are
-- still distinct. The file is marked as removed, it has the openers that it had, and its sectors stay
-- in use.
pub dir_remove_lem :
    (page a ofs : ℕ) (dir : Dir) (e : Entry) (name : List ℕ) (t : Fs)
    → IsDisk t.free_map.disk
    → (t.inodes dir.inode).deny_write_cnt ≡ 0
    → Distinct t.free_map.disk (t.inodes dir.inode)
    → lookup t.free_map.disk (t.inodes dir.inode) name ≡ some (e, ofs)
    → e.inode_sector < 2 ^ 32
    → find_open e.inode_sector t.open_inodes t.inodes ≡ some a
    → a ≢ 0
    → a ≢ dir.inode
    → 0 < (t.inodes a).open_cnt
    → (t' : Fs) × (dir_remove page dir name t ≡ some (true, t'))
      × Erased t.free_map.disk t'.free_map.disk (t.inodes dir.inode) name
      × (t'.inodes a ≡ record (t.inodes a) { removed = true })
      × (t'.open_inodes ≡ t.open_inodes)
      × (t'.free_map.map ≡ t.free_map.map)
dir_remove_lem page a ofs dir e name t v allowed dist found small file real apart opened =
    let (s, inside, at_s, is_e, held) =
      lookup-slot t.free_map.disk (t.inodes dir.inode) name e ofs v found in
    at_slot s inside at_s is_e held (ground arith) (ground arith)
  where
    at_slot :
        (s : ℕ)
        → s < slots (t.inodes dir.inode)
        → ofs ≡ s * 20
        → slot t.free_map.disk (t.inodes dir.inode) s ≡ e
        → holds name (slot t.free_map.disk (t.inodes dir.inode) s) ≡ true
        → (a == dir.inode) ≡ false
        → (a == 0) ≡ false
        → (t' : Fs) × (dir_remove page dir name t ≡ some (true, t'))
          × Erased t.free_map.disk t'.free_map.disk (t.inodes dir.inode) name
          × (t'.inodes a ≡ record (t.inodes a) { removed = true })
          × (t'.open_inodes ≡ t.open_inodes)
          × (t'.free_map.map ≡ t.free_map.map)
    at_slot s inside at_s is_e held other there =
        let d = t.free_map.disk in
        let i = t.inodes dir.inode in
        let t1 : Fs = store_inode a (inode_reopen (t.inodes a)) t in
        let valid : IsEntry e = record {
          sector = small;
          array = ap (λ x. length x.name) (sym is_e) ∙ length-slot d i s v inside;
        } in
        let (d', erases, st) =
          erase_entry-Stored dir i e s a t1 (rw other refl) v allowed inside valid in
        let (t', closes, ino, opens, same) = marked t a d' there opened in
        (
          t',
          dir_remove-calls page a ofs dir e name t t1
              (store_inode a (inode_remove (t1.inodes a)) (with_disk d' t1)) t' found
              (open_sector-open page e.inode_sector a t file there) there
              (ap (λ x. erase_entry dir e x a t1) at_s ∙ erases) closes,
          rw same (Stored-Erased d d' i s e name v dist inside held st),
          ino,
          opens,
          ap (λ m. m.map) same,
        )
