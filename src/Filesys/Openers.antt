-- ===== src/Filesys/Openers.antt =====
-- The openers of an inode: what `inode_open` does to the counts (filesys/inode.c).
use mathlib.Core.Path.{subst}
use mathlib.Core.Option.{some-injective}
use mathlib.Core.List.{Mem, mem-cons, mem-cons_self, mem-cons_of_mem}
use mathlib.Core.Logic.Or
use mathlib.Core.HLevel.{⊥_prop}
use project_pintos.Base.{
  ℕ, ◌≡◌, ◌≢◌, refl, sym, ◌==◌, true, false, if◌then◌else◌, List, [], ◌∷◌, Option, none, some,
  arith, Bool-cases, inl, inr,
}
use project_pintos.Inode.{Inode, inode_reopen}
use project_pintos.File.{File, find_open, store_inode, reopen_inode, inode_open}
use project_pintos.File.Balance.{holders, denials_le, IsBalanced}
use project_pintos.Fs.{Fs, load_inode, open_sector}
use project_pintos.Fs.Close.{Kept}

-- An open inode as the file that is opened on it.
abbrev pub file_of : ℕ → File
file_of a = record { inode = a; pos = 0; deny_write = false }

-- The openers with one more, where the address is not NULL.
abbrev pub with_opener : ℕ → List File → List File
with_opener a fs = if a == 0 then fs else file_of a ∷ fs

-- New memory: no open inode and no opener has the address.
abbrev pub Fresh : ℕ → List File → Fs → Type 0
Fresh b fs t = (holders b fs ≡ 0) × (¬ Mem b t.open_inodes)

-- The counts are right, no open inode is to be deleted, and none is at NULL.
pub record IsSteady (fs : List File) (t : Fs) : Type 0 where
  pub balanced : IsBalanced fs t
  pub kept : Kept t
  pub no_null : ¬ Mem 0 t.open_inodes

find_open-Mem :
    (sector a : ℕ) (l : List ℕ) (inodes : ℕ → Inode) → find_open sector l inodes ≡ some a → Mem a l
unfolding find_open
find_open-Mem sector a [] inodes h = absurd (ground (arith, h))
find_open-Mem sector a (b ∷ l) inodes h = elim (Bool-cases ((inodes b).sector == sector)) [
  | inl e ↦ rw (some-injective _ _ (rw e at h)) mem-cons_self
  | inr e ↦ mem-cons_of_mem b (find_open-Mem sector a l inodes (rw e at h))
]

reopen-open_inodes : (a : ℕ) (t : Fs) → (reopen_inode a t).open_inodes ≡ t.open_inodes
unfolding reopen_inode
reopen-open_inodes a t = ground arith

-- Another opener of an open inode.
reopened :
    (a : ℕ) (fs : List File) (t : Fs)
    → a ≢ 0
    → IsSteady fs t
    → IsSteady (file_of a ∷ fs) (reopen_inode a t)
unfolding reopen_inode inode_reopen
reopened a fs t ne v = record {
  balanced = record {
    not_null = ground (arith, v.balanced.not_null);
    opened = λ b. ground (arith, v.balanced.opened b);
    denied = λ b. ground (arith, v.balanced.denied b);
  };
  kept = λ b. ground (arith, v.kept b);
  no_null = rw (reopen-open_inodes a t) v.no_null;
}

-- The first opener of an inode, at new memory.
loaded :
    (page sector start length : ℕ) (fs : List File) (t : Fs)
    → page ≢ 0
    → Fresh page fs t
    → IsSteady fs t
    → IsSteady (file_of page ∷ fs) (
        store_inode page
          (record {
            sector = sector;
            open_cnt = 1;
            removed = false;
            deny_write_cnt = 0;
            start = start;
            length = length;
          })
          (record t { open_inodes = page ∷ t.open_inodes }))
loaded page sector start length fs t ne fresh v = record {
  balanced = record {
    not_null = ground (arith, v.balanced.not_null);
    opened = λ b. ground (arith, v.balanced.opened b, fresh.0);
    denied = λ b. ground (arith, v.balanced.denied b, denials_le page fs, fresh.0);
  };
  kept = λ b. ground (arith, v.kept b);
  no_null = λ m. Or.elim ⊥_prop (mem-cons.0 m) (λ e. ne (sym e)) v.no_null;
}

-- `open_inode` and what it leaves for the next one: the counts have one opener more, and other new memory
-- is still new.
abbrev pub Opened : ℕ → List File → Fs → ℕ × Fs → Type 0
Opened page fs t r =
    IsSteady (with_opener r.0 fs) r.1
    × ((b : ℕ) → b ≢ page → Fresh b fs t → Fresh b (with_opener r.0 fs) r.1)

pub with_opener-cons : (a : ℕ) (fs : List File) → a ≢ 0 → with_opener a fs ≡ file_of a ∷ fs
with_opener-cons a fs ne = ground arith

fresh-opener :
    (a b : ℕ) (fs : List File) → b ≢ a → holders b fs ≡ 0 → holders b (file_of a ∷ fs) ≡ 0
fresh-opener a b fs ne h = ground arith

-- The three ways through `inode_open`.
abbrev first_opener : ℕ → ℕ → Fs → Fs
first_opener page sector t =
    store_inode page
      (record {
        sector = sector;
        open_cnt = 1;
        removed = false;
        deny_write_cnt = 0;
        start = (load_inode t.free_map.disk sector).0;
        length = (load_inode t.free_map.disk sector).1;
      })
      (record t { open_inodes = page ∷ t.open_inodes })

module _ (page sector : ℕ) (t : Fs) where
  open_sector-found :
      (a : ℕ)
      → find_open sector t.open_inodes t.inodes ≡ some a
      → open_sector page sector t ≡ (a, reopen_inode a t)
  unfolding open_sector inode_open
  open_sector-found a q = rw (q, open_sector, inode_open) refl

  open_sector-null :
      find_open sector t.open_inodes t.inodes ≡ none
      → (page == 0) ≡ true
      → open_sector page sector t ≡ (0, t)
  unfolding open_sector inode_open
  open_sector-null q e = rw (q, open_sector, inode_open) (rw e refl)

  open_sector-first :
      find_open sector t.open_inodes t.inodes ≡ none
      → (page == 0) ≡ false
      → open_sector page sector t ≡ (page, first_opener page sector t)
  unfolding open_sector inode_open
  open_sector-first q e = rw (q, open_sector, inode_open) (rw e refl)

found-Opened :
    (page a : ℕ) (fs : List File) (t : Fs)
    → IsSteady fs t
    → Mem a t.open_inodes
    → Opened page fs t (a, reopen_inode a t)
found-Opened page a fs t v m =
    let ne : a ≢ 0 = λ e. v.no_null (subst (λ x. Mem x t.open_inodes) e m) in
    let more = sym (with_opener-cons a fs ne) in
    (
      subst (λ l. IsSteady l (reopen_inode a t)) more (reopened a fs t ne v),
      λ b other f. (
        subst (λ l. holders b l ≡ 0) more
            (fresh-opener a b fs (λ e. f.1 (subst (λ x. Mem x t.open_inodes) (sym e) m)) f.0),
        subst (λ l. ¬ Mem b l) (sym (reopen-open_inodes a t)) f.1,
      ),
    )

first-Opened :
    (page sector : ℕ) (fs : List File) (t : Fs)
    → IsSteady fs t
    → Fresh page fs t
    → page ≢ 0
    → Opened page fs t (page, first_opener page sector t)
first-Opened page sector fs t v fresh ne =
    let more = sym (with_opener-cons page fs ne) in
    (
      subst (λ l. IsSteady l (first_opener page sector t)) more
          (loaded page sector _ _ fs t ne fresh v),
      λ b other f. (
        subst (λ l. holders b l ≡ 0) more (fresh-opener page b fs other f.0),
        λ m. Or.elim ⊥_prop (mem-cons.0 m) other f.1,
      ),
    )

pub open_sector-Opened :
    (page sector : ℕ) (fs : List File) (t : Fs)
    → IsSteady fs t
    → Fresh page fs t
    → Opened page fs t (open_sector page sector t)
open_sector-Opened page sector fs t v fresh =
    by_search (find_open sector t.open_inodes t.inodes) refl
  where
    by_search :
        (o : Option ℕ)
        → find_open sector t.open_inodes t.inodes ≡ o
        → Opened page fs t (open_sector page sector t)
    by_search (some a) q =
        subst (Opened page fs t) (sym (open_sector-found page sector t a q))
          (found-Opened page a fs t v (find_open-Mem sector a t.open_inodes t.inodes q))
    by_search none q = elim (Bool-cases (page == 0)) [
      | inl e ↦
          subst (Opened page fs t) (sym (open_sector-null page sector t q e)) (v, λ b other f. f)
      | inr e ↦
          subst (Opened page fs t) (sym (open_sector-first page sector t q e))
            (first-Opened page sector fs t v fresh (λ z. ground arith))
    ]
