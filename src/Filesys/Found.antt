-- ===== src/Filesys/Found.antt =====
-- Which file `filesys_open` returns (filesys/filesys.c, filesys/directory.c).
use mathlib.Core.Option.{some-injective}
use mathlib.Core.Path.{subst}
use project_pintos.Base.{
  ℕ, ◌≢◌, ◌≡◌, sym, ◌∙◌, ap, ◌==◌, not, ◌&&◌, Bool, true, false, if◌then◌else◌, List, Option, none,
  some, refl, arith, Bool-cases, Option-cases, inl, inr, ◌⊎◌,
}
use project_pintos.Sched.{◌>>=◌, bind_end}
use project_pintos.File.{File}
use project_pintos.File.Balance.{IsBalanced, with_file}
use project_pintos.Fs.Close.{Kept}
use project_pintos.FreeMap.{root_dir_sector}
use project_pintos.Directory.{Dir, lookup}
use project_pintos.Fs.{Fs, open_sector, close_inode, open_file}
use project_pintos.Filesys.{Memory, dir_open, dir_open_root, dir_lookup, dir_close, filesys_open}
use project_pintos.Filesys.Openers.{file_of, Fresh, IsSteady}
use project_pintos.Filesys.Open.{filesys_open-IsBalanced}

-- The file for a name: the root directory is opened where there is memory for it, the inode of the
-- entry of the name is opened from its sector, and a file is made of it where there is memory.
abbrev pub file_at : Bool → ℕ → Option File
file_at ok a = if not (a == 0) && ok then some (file_of a) else none

abbrev pub inode_named : ℕ → ℕ → List ℕ → Fs → ℕ
inode_named page root name t = elim (lookup t.free_map.disk (t.inodes root) name) [
  | none ↦ 0
  | some found ↦ (open_sector page found.0.inode_sector t).0
]

abbrev pub file_named : Memory → ℕ → List ℕ → Fs → Option File
file_named mem page name t =
    let (root, opened) = open_sector mem.inode_page root_dir_sector t in
    if not (root == 0) && mem.dir_ok
    then file_at mem.file_ok (inode_named page root name opened)
    else none

open_file-result :
    (ok : Bool) (a : ℕ) (t t' : Fs) (o : Option File)
    → open_file ok a t ≡ some (o, t')
    → o ≡ file_at ok a
unfolding open_file
open_file-result ok a t t' o h = elim (Bool-cases (not (a == 0) && ok)) [
  | inl e ↦ rw e (ap (λ r. r.0) (sym (some-injective _ _ (rw e at h))))
  | inr e ↦
      let (closed, closes, h') = bind_end (close_inode a t) _ (o, t') (rw e at h) in
      rw e (ap (λ r. r.0) (sym (some-injective _ _ h')))
]

dir_lookup-result :
    (page root : ℕ) (name : List ℕ) (t : Fs)
    → (dir_lookup page (record { inode = root; pos = 0 }) name t).0 ≡ inode_named page root name t
unfolding dir_lookup
dir_lookup-result page root name t =
    elim (Option-cases (lookup t.free_map.disk (t.inodes root) name)) [
      | inl q ↦ rw (q, dir_lookup, inode_named) refl
      | inr q ↦ rw (q.1, dir_lookup, inode_named) refl
    ]

-- A directory that was opened, and one that was not.
dir_open-result :
    (ok : Bool) (a : ℕ) (t t' : Fs) (o : Option Dir)
    → dir_open ok a t ≡ some (o, t')
    → ((not (a == 0) && ok ≡ true) × ((o ≡ some (record { inode = a; pos = 0 })) × (t' ≡ t)))
      ⊎ ((not (a == 0) && ok ≡ false) × (o ≡ none))
unfolding dir_open
dir_open-result ok a t t' o h = elim (Bool-cases (not (a == 0) && ok)) [
  | inl e ↦
      let same = some-injective _ _ (rw e at h) in
      inl (e, (sym (ap (λ r. r.0) same), sym (ap (λ r. r.1) same)))
  | inr e ↦
      let (closed, closes, h') = bind_end (close_inode a t) _ (o, t') (rw e at h) in
      inr (e, ap (λ r. r.0) (sym (some-injective _ _ h')))
]

-- The part of `filesys_open` behind the opening of the directory.
abbrev found_in : ℕ → List ℕ → Option Dir → Fs → ℕ × Fs
found_in page name dir t = elim dir [ none ↦ (0, t) | some root ↦ dir_lookup page root name t ]

open_found-result :
    (ok : Bool) (dir : Option Dir) (r : ℕ × Fs) (t' : Fs) (o : Option File)
    → (dir_close dir r.1 >>= open_file ok r.0) ≡ some (o, t')
    → o ≡ file_at ok r.0
open_found-result ok dir r t' o h =
    let (closed, closes, h') = bind_end (dir_close dir r.1) (open_file ok r.0) (o, t') h in
    open_file-result ok r.0 closed t' o h'

no_file : (ok : Bool) → file_at ok 0 ≡ none
no_file ok = ground arith

-- Where `filesys_open` comes to its end, it returns the file for the name.
pub filesys_open-result :
    (mem : Memory) (page : ℕ) (name : List ℕ) (t t' : Fs) (o : Option File)
    → filesys_open mem page name t ≡ some (o, t')
    → o ≡ file_named mem page name t
unfolding filesys_open dir_open_root
filesys_open-result mem page name t t' o h =
    let root = open_sector mem.inode_page root_dir_sector t in
    let (dir, opens, h') = bind_end (dir_open mem.dir_ok root.0 root.1) _ (o, t') h in
    by_dir (dir.0) (dir.1) (dir_open-result mem.dir_ok root.0 root.1 dir.1 dir.0 opens) h'
  where
    by_dir :
        (dir : Option Dir) (u : Fs)
        → ((not ((open_sector mem.inode_page root_dir_sector t).0 == 0) && mem.dir_ok ≡ true)
            × ((dir
                  ≡ some (record {
                    inode = (open_sector mem.inode_page root_dir_sector t).0;
                    pos = 0;
                  }))
                × (u ≡ (open_sector mem.inode_page root_dir_sector t).1)))
          ⊎ ((not ((open_sector mem.inode_page root_dir_sector t).0 == 0) && mem.dir_ok ≡ false)
              × (dir ≡ none))
        → (dir_close dir (found_in page name dir u).1
            >>= open_file mem.file_ok (found_in page name dir u).0)
          ≡ some (o, t')
        → o ≡ file_named mem page name t
    by_dir none u (inl (e, q)) g = absurd (ground (arith, q.0))
    by_dir none u (inr (e, q)) g =
        open_found-result mem.file_ok none (0, u) t' o g ∙ no_file mem.file_ok ∙ rw e refl
    by_dir (some d) u (inr (e, q)) g = absurd (ground (arith, q))
    by_dir (some d) u (inl (e, q)) g =
        let root = open_sector mem.inode_page root_dir_sector t in
        let same_dir : d ≡ record { inode = root.0; pos = 0 } = some-injective _ _ q.0 in
        let same_fs : u ≡ root.1 = q.1 in
        open_found-result mem.file_ok (some d) (dir_lookup page d name u) t' o g
        ∙ rw (same_dir, same_fs, e)
            (ap (file_at mem.file_ok) (dir_lookup-result page root.0 name root.1))

-- With right counts, no deleted inode open, and new memory at two addresses, `filesys_open` succeeds,
-- whatever the directory holds and whichever allocations fail. It returns the file for the name, at position
-- 0 and denying no writes, or NULL: where the root directory cannot be opened, where it has no entry of
-- the name, and where an inode or the file gets no memory. The inodes count exactly the openers that there
-- were, and the file, if any.
pub filesys_open_lem :
    (mem : Memory) (page : ℕ) (name : List ℕ) (fs : List File) (t : Fs)
    → IsSteady fs t
    → Fresh mem.inode_page fs t
    → Fresh page fs t
    → page ≢ mem.inode_page
    → (t' : Fs) × (filesys_open mem page name t ≡ some (file_named mem page name t, t'))
      × IsBalanced (with_file (file_named mem page name t) fs) t'
      × Kept t'
filesys_open_lem mem page name fs t v fresh_root fresh other =
    let (o, t', opens, balanced, kept, made) =
      filesys_open-IsBalanced mem page name fs t v fresh_root fresh other in
    let same = filesys_open-result mem page name t t' o opens in
    (
      t',
      opens ∙ ap (λ f. some (f, t')) same,
      subst (λ f. IsBalanced (with_file f fs) t') same balanced,
      kept,
    )
