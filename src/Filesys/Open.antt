-- ===== src/Filesys/Open.antt =====
-- What `filesys_open` does to the counts of the inodes (filesys/filesys.c, filesys/directory.c).
use mathlib.Core.Path.{subst}
use project_pintos.Base.{
  ℕ, ◌≡◌, ◌≢◌, ◌⊎◌, refl, sym, ◌∙◌, ap, ◌==◌, not, ◌&&◌, Bool, true, false, if◌then◌else◌, List,
  ◌∷◌, Option, none, some, arith, Bool-cases, Option-cases, inl, inr,
}
use project_pintos.Sched.{◌>>=◌}
use project_pintos.File.{File, inode_close}
use project_pintos.File.Balance.{holders, denials, IsBalanced, with_file}
use project_pintos.Fs.{Fs, open_sector, close_inode, open_file}
use project_pintos.Fs.Close.{Kept, close_inode-Kept}
use project_pintos.Directory.{Dir, lookup}
use project_pintos.FreeMap.{root_dir_sector}
use project_pintos.Filesys.{Memory, dir_open, dir_open_root, dir_lookup, dir_close, filesys_open}
use project_pintos.Filesys.Openers.{
  file_of, with_opener, Fresh, Opened, with_opener-cons, open_sector-Opened, IsSteady,
}

null_closed : (a : ℕ) (t : Fs) → (a == 0) ≡ true → close_inode a t ≡ some t
unfolding close_inode inode_close
null_closed a t e = rw e refl

-- Closing an opener, which may be NULL.
close-one :
    (a : ℕ) (fs gs : List File) (t : Fs)
    → IsBalanced gs t
    → Kept t
    → ((b : ℕ) → holders b gs ≡ holders b (with_opener a fs))
    → ((b : ℕ) → denials b gs ≡ denials b fs)
    → (t' : Fs) × (close_inode a t ≡ some t') × IsBalanced fs t' × Kept t'
close-one a fs gs t v k h d = elim (Bool-cases (a == 0)) [
  | inl e ↦ (
    t,
    null_closed a t e,
    record {
      not_null = ground (arith, h 0, v.not_null);
      opened = λ b. ground (arith, h b, v.opened b);
      denied = λ b. v.denied b ∙ d b;
    },
    k,
  )
  | inr e ↦
      close_inode-Kept a fs t k (λ z. ground arith) (ground (arith, h 0, v.not_null))
        (λ b. ground (arith, h b, v.opened b)) (λ b. v.denied b ∙ d b)
]

-- What `file_open` leaves of the opener of its inode: a file, or nothing.
abbrev pub Handed : List File → Option (Option File × Fs) → Type 0
Handed fs r =
    (o : Option File) × (t : Fs) × (r ≡ some (o, t))
    × IsBalanced (with_file o fs) t
    × Kept t
    × (o ≢ none → (a : ℕ) × (o ≡ some (file_of a)))

closed-Handed :
    (a : ℕ) (fs : List File) (t : Fs)
    → IsBalanced (with_opener a fs) t
    → Kept t
    → Handed fs (close_inode a t >>= λ t'. some (none, t'))
closed-Handed a fs t v k =
    let (t', closes, balanced, kept) =
      close-one a fs (with_opener a fs) t v k (λ b. refl) (λ b. quiet b) in
    (none, t', rw (closes, ◌>>=◌) refl, balanced, kept, λ ne. absurd (ne refl))
  where
    quiet : (b : ℕ) → denials b (with_opener a fs) ≡ denials b fs
    quiet b = ground arith

open_file-made :
    (a : ℕ) (t : Fs) → (a == 0) ≡ false → open_file true a t ≡ some (some (file_of a), t)
unfolding open_file
open_file-made a t e = rw e refl

open_file-null :
    (ok : Bool) (a : ℕ) (t : Fs)
    → (a == 0) ≡ true
    → open_file ok a t ≡ (close_inode a t >>= λ t'. some (none, t'))
unfolding open_file
open_file-null ok a t e = rw (open_file, e) refl

open_file-refused :
    (a : ℕ) (t : Fs) → open_file false a t ≡ (close_inode a t >>= λ t'. some (none, t'))
unfolding open_file
open_file-refused a t = by_test (not (a == 0))
  where
    by_test :
        (b : Bool)
        → if◌then◌else◌ {A = Option (Option File × Fs)}
            (b && false)
            (some (some (file_of a), t))
            (close_inode a t >>= λ t'. some (none, t'))
          ≡ (close_inode a t >>= λ t'. some (none, t'))
    by_test true = refl
    by_test false = refl

open_file-Handed :
    (ok : Bool) (a : ℕ) (fs : List File) (t : Fs)
    → IsBalanced (with_opener a fs) t
    → Kept t
    → Handed fs (open_file ok a t)
open_file-Handed false a fs t v k =
    subst (Handed fs) (sym (open_file-refused a t)) (closed-Handed a fs t v k)
open_file-Handed true a fs t v k = elim (Bool-cases (a == 0)) [
  | inl e ↦ subst (Handed fs) (sym (open_file-null true a t e)) (closed-Handed a fs t v k)
  | inr e ↦ (
    some (file_of a),
    t,
    open_file-made a t e,
    subst (λ l. IsBalanced l t) (with_opener-cons a fs (λ z. ground arith)) v,
    k,
    λ ne. (a, refl),
  )
]

-- Looking a name up, with the root directory open.
dir_lookup-Opened :
    (page a : ℕ) (name : List ℕ) (fs : List File) (t : Fs)
    → IsSteady (file_of a ∷ fs) t
    → Fresh page (file_of a ∷ fs) t
    → Opened page (file_of a ∷ fs) t (dir_lookup page (record { inode = a; pos = 0 }) name t)
unfolding dir_lookup
dir_lookup-Opened page a name fs t v fresh =
    elim (Option-cases (lookup t.free_map.disk (t.inodes a) name)) [
      | inl q ↦ rw (q, dir_lookup) (v, λ b other f. f)
      | inr q ↦ rw (q.1, dir_lookup) (open_sector-Opened page _ (file_of a ∷ fs) t v fresh)
    ]

swap_holders :
    (a c b : ℕ) (fs : List File)
    → a ≢ 0
    → holders b (with_opener c (file_of a ∷ fs)) ≡ holders b (with_opener a (with_opener c fs))
swap_holders a c b fs ne = ground arith

drop_denials :
    (a c b : ℕ) (fs : List File)
    → denials b (with_opener c (file_of a ∷ fs)) ≡ denials b (with_opener c fs)
drop_denials a c b fs = ground arith

not_null : (a : ℕ) (fs : List File) → holders 0 (file_of a ∷ fs) ≡ 0 → a ≢ 0
not_null a fs h = λ e. ground arith

-- The part of `filesys_open` behind the opening of the directory.
module _ (mem : Memory) (page : ℕ) (name : List ℕ) (fs : List File) where
  abbrev rest_of_open : Option Dir × Fs → Option (Option File × Fs)
  rest_of_open (dir, opened) = do
    let found : ℕ × Fs = elim dir [
      | none ↦ (0, opened)
      | some root ↦ dir_lookup page root name opened
    ]
    closed ← dir_close dir found.1
    open_file mem.file_ok found.0 closed

  -- With no directory there is no file.
  without_directory : (t : Fs) → IsBalanced fs t → Kept t → Handed fs (rest_of_open (none, t))
  unfolding dir_close
  without_directory t v k = open_file-Handed mem.file_ok 0 fs t v k

  with_directory :
      (a : ℕ) (t : Fs)
      → IsSteady (file_of a ∷ fs) t
      → Fresh page (file_of a ∷ fs) t
      → Handed fs (rest_of_open (some (record { inode = a; pos = 0 }), t))
  unfolding dir_close
  with_directory a t v fresh =
      let ne : a ≢ 0 = not_null a fs v.balanced.not_null in
      let r = dir_lookup page (record { inode = a; pos = 0 }) name t in
      let (steady, others) = dir_lookup-Opened page a name fs t v fresh in
      let (t', closes, balanced, kept) =
        close-one a (with_opener r.0 fs) (with_opener r.0 (file_of a ∷ fs)) r.1 steady.balanced
          steady.kept (λ b. swap_holders a r.0 b fs ne) (λ b. drop_denials a r.0 b fs) in
      subst (Handed fs) (sym (rw (closes, ◌>>=◌) refl))
        (open_file-Handed mem.file_ok r.0 fs t' balanced kept)

-- Opening the root directory: it is open, and other new memory still new, or there is none.
abbrev Root : ℕ → List File → Fs → Option (Option Dir × Fs) → Type 0
Root page fs t r =
    ((t' : Fs) × (r ≡ some (none, t')) × IsBalanced fs t' × Kept t')
    ⊎ ((a : ℕ) × (t' : Fs) × (r ≡ some (some (record { inode = a; pos = 0 }), t'))
        × IsSteady (file_of a ∷ fs) t'
        × ((b : ℕ) → b ≢ page → Fresh b fs t → Fresh b (file_of a ∷ fs) t'))

dir_open-Root :
    (ok : Bool) (page : ℕ) (fs : List File) (t : Fs) (r : ℕ × Fs)
    → Opened page fs t r
    → Root page fs t (dir_open ok r.0 r.1)
unfolding dir_open
dir_open-Root ok page fs t r (steady, fresh) = elim (Bool-cases (not (r.0 == 0) && ok)) [
  | inr e ↦
      let (t', closes, balanced, kept) =
        close-one r.0 fs (with_opener r.0 fs) r.1 steady.balanced steady.kept (λ b. refl)
          (λ b. quiet r.0 b) in
      inl (t', rw (e, closes, ◌>>=◌) refl, balanced, kept)
  | inl e ↦
      let more = with_opener-cons r.0 fs (λ z. ground arith) in
      inr (
        r.0,
        r.1,
        rw e refl,
        subst (λ l. IsSteady l r.1) more steady,
        λ b other f. subst (λ l. Fresh b l r.1) more (fresh b other f),
      )
]
  where
    quiet : (a b : ℕ) → denials b (with_opener a fs) ≡ denials b fs
    quiet a b = ground arith

-- With right counts, no deleted inode open, and new memory at two addresses, `filesys_open` succeeds,
-- whatever the directory holds and whichever allocations fail: it keeps the counts right, with the file
-- that it returns, if any, as one more open file, which starts at position 0 and denies no writes.
pub filesys_open-IsBalanced :
    (mem : Memory) (page : ℕ) (name : List ℕ) (fs : List File) (t : Fs)
    → IsSteady fs t
    → Fresh mem.inode_page fs t
    → Fresh page fs t
    → page ≢ mem.inode_page
    → Handed fs (filesys_open mem page name t)
unfolding filesys_open dir_open_root
filesys_open-IsBalanced mem page name fs t v fresh_root fresh other = by_root (
    dir_open-Root mem.dir_ok mem.inode_page fs t (open_sector mem.inode_page root_dir_sector t)
      (open_sector-Opened mem.inode_page root_dir_sector fs t v fresh_root))
  where
    by_root :
        Root mem.inode_page fs t (dir_open_root mem.dir_ok mem.inode_page t)
        → Handed fs (filesys_open mem page name t)
    by_root (inl (t', e, balanced, kept)) =
        subst (Handed fs) (sym (ap (λ r. r >>= rest_of_open mem page name fs) e))
          (without_directory mem page name fs t' balanced kept)
    by_root (inr (a, t', e, steady, new)) =
        subst (Handed fs) (sym (ap (λ r. r >>= rest_of_open mem page name fs) e))
          (with_directory mem page name fs a t' steady (new page other fresh))
