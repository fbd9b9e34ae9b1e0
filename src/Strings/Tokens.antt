-- ===== src/Strings/Tokens.antt =====
-- What `strtok_r` splits off a string (lib/string.c).
use project_pintos.Base.{
  ℕ, ◌<◌, ◌≡◌, refl, sym, ap, ◌∙◌, Bool, true, false, inl, inr, List, [], ◌∷◌, ◌++◌, Option, none,
  some, length, arith, Bool-cases,
}
use project_pintos.Strings.{strchr, is_some, skip_delimiters, split_token, strtok_r}

-- All bytes are delimiters, or none is.
abbrev pub AllAre : Bool → List ℕ → List ℕ → Type 0
AllAre b delimiters [] = Unit
AllAre b delimiters (c ∷ s) = (is_some (strchr delimiters c) ≡ b) × AllAre b delimiters s

-- What stands behind a token: the end of the string, or a delimiter and what is left.
pub data Behind (delimiters : List ℕ) : List ℕ → List ℕ → Type 0 where
  at_end : Behind delimiters [] []
  at_delimiter :
      (c : ℕ) (rest : List ℕ)
      → is_some (strchr delimiters c) ≡ true
      → Behind delimiters (c ∷ rest) rest

-- How `strtok_r` splits a string: delimiters, a token that is not empty and has none of them, and what
-- stands behind it; or delimiters only, where it returns NULL and saves the end of the string.
pub data Tokenized (delimiters s : List ℕ) : Option (List ℕ) → List ℕ → Type 0 where
  no_token : AllAre true delimiters s → Tokenized delimiters s none []
  token_of :
      (before token behind rest : List ℕ)
      → s ≡ before ++ (token ++ behind)
      → AllAre true delimiters before
      → AllAre false delimiters token
      → 0 < length token
      → Behind delimiters behind rest
      → Tokenized delimiters s (some token) rest

skip_delimiters_lem :
    (delimiters s : List ℕ)
    → (before : List ℕ) × (s ≡ before ++ skip_delimiters delimiters s)
      × AllAre true delimiters before
skip_delimiters_lem delimiters [] = ([], refl, _)
skip_delimiters_lem delimiters (c ∷ s) = elim (Bool-cases (is_some (strchr delimiters c))) [
  | inl e ↦
      let (before, same, all) = skip_delimiters_lem delimiters s in
      (c ∷ before, rw e (ap (λ r. c ∷ r) same), (e, all))
  | inr e ↦ ([], rw e refl, _)
]

split_token_lem :
    (delimiters s : List ℕ)
    → (behind : List ℕ) × (s ≡ (split_token delimiters s).0 ++ behind)
      × AllAre false delimiters (split_token delimiters s).0
      × Behind delimiters behind (split_token delimiters s).1
split_token_lem delimiters [] = ([], refl, _, at_end)
split_token_lem delimiters (c ∷ s) = elim (Bool-cases (is_some (strchr delimiters c))) [
  | inl e ↦ (c ∷ s, rw e refl, rw e _, rw e (at_delimiter c s e))
  | inr e ↦
      let (behind, same, none_of, b) = split_token_lem delimiters s in
      (behind, rw e (ap (λ r. c ∷ r) same), rw e (e, none_of), rw e b)
]

-- The first byte after the delimiters is none.
skip_delimiters-first :
    (delimiters s t : List ℕ) (c : ℕ)
    → skip_delimiters delimiters s ≡ c ∷ t
    → is_some (strchr delimiters c) ≡ false
skip_delimiters-first delimiters [] t c h = absurd (ground (arith, h))
skip_delimiters-first delimiters (x ∷ s) t c h = elim (Bool-cases (is_some (strchr delimiters x))) [
  | inl e ↦ skip_delimiters-first delimiters s t c (rw e at h)
  | inr e ↦
      let same : x ≡ c = ground (arith, rw e at h) in
      ap (λ y. is_some (strchr delimiters y)) (sym same) ∙ e
]

AllAre-append :
    (delimiters s : List ℕ) → AllAre true delimiters s → AllAre true delimiters (s ++ [])
AllAre-append delimiters [] h = h
AllAre-append delimiters (c ∷ s) h = (h.0, AllAre-append delimiters s h.1)

not_empty :
    (delimiters t : List ℕ) (c : ℕ)
    → is_some (strchr delimiters c) ≡ false
    → 0 < length (split_token delimiters (c ∷ t)).0
not_empty delimiters t c h = rw h (omega arith)

-- `strtok_r` skips delimiters and returns the longest token that follows; it saves the position behind
-- the delimiter that ends the token, or the end of the string. It returns NULL only where delimiters are
-- all that is left.
pub strtok_r_lem :
    (delimiters s : List ℕ)
    → Tokenized delimiters s (strtok_r delimiters s).0 (strtok_r delimiters s).1
unfolding strtok_r
strtok_r_lem delimiters s =
    let (before, same, all) = skip_delimiters_lem delimiters s in
    by_rest (skip_delimiters delimiters s) refl before same all
  where
    by_rest :
        (r : List ℕ)
        → skip_delimiters delimiters s ≡ r
        → (before : List ℕ) → s ≡ before ++ r
        → AllAre true delimiters before
        → let o : Option (List ℕ) × List ℕ = elim r as (λ _. Option (List ℕ) × List ℕ) [
          | [] ↦ (none, [])
          | c ∷ t ↦ (some (split_token delimiters (c ∷ t)).0, (split_token delimiters (c ∷ t)).1)
        ] in
          Tokenized delimiters s o.0 o.1
    by_rest [] q before same all = no_token (rw same (AllAre-append delimiters before all))
    by_rest (c ∷ t) q before same all =
        let (behind, split, none_of, b) = split_token_lem delimiters (c ∷ t) in
        token_of before (split_token delimiters (c ∷ t)).0 behind (split_token delimiters (c ∷ t)).1
          (same ∙ ap (λ r. before ++ r) split) all none_of
          (not_empty delimiters t c (skip_delimiters-first delimiters s t c q)) b
