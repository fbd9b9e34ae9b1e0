-- ===== src/Inode/Sector.antt =====
-- The sector that a round of inode_write_at in filesys/inode.c writes, byte by byte.
use project_pintos.Base.{
  ap, ◌||◌, ◌∙◌, ℕ, zero, suc, ◌+◌, ◌-◌, ◌≤◌, ◌≡◌, ◌==◌, ltb, leb, true, ◌&&◌, if◌then◌else◌, refl,
  List, [], ◌∷◌, ◌++◌, arith, length, take, drop, get_or, ◌<◌, ◌⊎◌, length-drop, length-take,
  length-append, Bool-cases, inl, inr,
}
use project_pintos.Inode.{overlay, new_sector}

get_or-append_left :
    (xs ys : List ℕ) (o : ℕ) → o < length xs → get_or (xs ++ ys) o 0 ≡ get_or xs o 0
get_or-append_left [] ys o h = absurd (omega (arith, h))
get_or-append_left (x ∷ xs) ys zero h = refl
get_or-append_left (x ∷ xs) ys (suc o) h = get_or-append_left xs ys o (omega arith)

get_or-append_right :
    (xs ys : List ℕ) (o k : ℕ) → o ≡ length xs + k → get_or (xs ++ ys) o 0 ≡ get_or ys k 0
get_or-append_right [] ys o k h = ap (λ j. get_or ys j 0) (plus o k h)
  where
    plus : (o k : ℕ) → o ≡ 0 + k → o ≡ k
    plus o k h = omega arith
get_or-append_right (x ∷ xs) ys zero k h = absurd (omega (arith, h))
get_or-append_right (x ∷ xs) ys (suc o) k h = get_or-append_right xs ys o k (omega arith)

get_or-take : (n : ℕ) (xs : List ℕ) (o : ℕ) → o < n → get_or (take n xs) o 0 ≡ get_or xs o 0
get_or-take zero xs o h = absurd (omega (arith, h))
get_or-take (suc n) [] o h = refl
get_or-take (suc n) (x ∷ xs) zero h = refl
get_or-take (suc n) (x ∷ xs) (suc o) h = get_or-take n xs o (omega arith)

pub get_or-drop :
    (n : ℕ) (xs : List ℕ) (o k : ℕ) → k ≡ n + o → get_or (drop n xs) o 0 ≡ get_or xs k 0
get_or-drop zero xs o k h = ap (λ k. get_or xs k 0) (plus o k h)
  where
    plus : (o k : ℕ) → k ≡ 0 + o → o ≡ k
    plus o k h = omega arith
get_or-drop (suc n) [] o k h = refl
get_or-drop (suc n) (x ∷ xs) o zero h = absurd (omega (arith, h))
get_or-drop (suc n) (x ∷ xs) o (suc k) h = get_or-drop n xs o k (omega arith)

-- A sector with bytes put at an offset: in front of them, at them, and after them.
overlay_front :
    (ofs o : ℕ) (bytes s : List ℕ)
    → ofs ≤ length s
    → o < ofs
    → get_or (overlay ofs bytes s) o 0 ≡ get_or s o 0
overlay_front ofs o bytes s h lo =
    get_or-append_left (take ofs s) _ o (omega (arith, length-take ofs s)) ∙ get_or-take ofs s o lo

overlay_at :
    (ofs o : ℕ) (bytes s : List ℕ)
    → ofs ≤ length s
    → ofs ≤ o
    → o < ofs + length bytes
    → get_or (overlay ofs bytes s) o 0 ≡ get_or bytes (o - ofs) 0
overlay_at ofs o bytes s h lo hi =
    get_or-append_right (take ofs s) _ o (o - ofs) (omega (arith, length-take ofs s))
    ∙ get_or-append_left bytes _ (o - ofs) (omega arith)

overlay_after :
    (ofs o : ℕ) (bytes s : List ℕ)
    → ofs ≤ length s
    → ofs + length bytes ≤ o
    → get_or (overlay ofs bytes s) o 0 ≡ get_or s o 0
overlay_after ofs o bytes s h lo =
    get_or-append_right (take ofs s) _ o (o - ofs) (omega (arith, length-take ofs s))
    ∙ get_or-append_right bytes _ (o - ofs) (o - ofs - length bytes) (omega arith)
    ∙ get_or-drop (ofs + length bytes) s (o - ofs - length bytes) o (omega arith)

length-overlay :
    (ofs : ℕ) (bytes s : List ℕ)
    → ofs + length bytes ≤ length s
    → length (overlay ofs bytes s) ≡ length s
length-overlay ofs bytes s h = omega (
  arith,
  length-append (take ofs s) (bytes ++ drop (ofs + length bytes) s),
  length-append bytes (drop (ofs + length bytes) s),
  length-take ofs s,
  length-drop (ofs + length bytes) s,
)

module _ (ofs n : ℕ) (buffer s : List ℕ) (ls : length s ≡ 512) (h : ofs + n ≤ 512)
    (b : n ≤ length buffer) where
  -- The zeros that the bounce buffer could hold never reach the disk.
  new_sector-overlay :
      (new_sector ofs n buffer s ≡ overlay ofs (take n buffer) s)
      ⊎ ((ofs ≡ 0) × (n ≡ 512) × (new_sector ofs n buffer s ≡ take n buffer))
  unfolding new_sector
  new_sector-overlay = elim (Bool-cases (ofs == 0 && n == 512)) [
    | inl e ↦ inr (ground arith, ground arith, rw e refl)
    | inr e ↦
        let read : (ltb 0 ofs || ltb n (512 - ofs)) ≡ true = ground arith in inl (rw (e, read) refl)
  ]

  taken : length (take n buffer) ≡ n
  taken = omega (arith, length-take n buffer)

  pub new_sector-length : length (new_sector ofs n buffer s) ≡ 512
  new_sector-length = elim new_sector-overlay [
    | inl e ↦ rw e (length-overlay ofs (take n buffer) s (omega (arith, taken)) ∙ ls)
    | inr (p, q, e) ↦ rw e (taken ∙ q)
  ]

  pub new_sector-get :
      (o : ℕ)
      → o < 512
      → get_or (new_sector ofs n buffer s) o 0
        ≡ (if leb ofs o && ltb o (ofs + n) then get_or buffer (o - ofs) 0 else get_or s o 0)
  new_sector-get o lo = elim new_sector-overlay [
    | inl e ↦ rw e (elim (Bool-cases (leb ofs o && ltb o (ofs + n))) [
      | inl t ↦ rw t (
          overlay_at ofs o (take n buffer) s (omega arith) (ground arith) (ground (arith, taken))
          ∙ get_or-take n buffer (o - ofs) (ground arith))
      | inr t ↦ rw t (elim (Bool-cases (ltb o ofs)) [
        | inl u ↦ overlay_front ofs o (take n buffer) s (omega arith) (ground arith)
        | inr u ↦ overlay_after ofs o (take n buffer) s (omega arith) (ground (arith, taken))
      ])
    ])
    | inr (p, q, e) ↦
        let inside : (leb ofs o && ltb o (ofs + n)) ≡ true = ground arith in
        let same : o - ofs ≡ o = omega arith in
        rw (e, inside, same) (get_or-take n buffer o (omega arith))
  ]
