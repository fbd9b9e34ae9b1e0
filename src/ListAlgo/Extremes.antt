-- ===== src/ListAlgo/Extremes.antt =====
-- `list_max`, `list_min` and `list_unique` of lib/kernel/list.c.
use mathlib.Core.List.{Perm, perm_middle}
use mathlib.Core.List.Perm
use project_pintos.Base.{
  ◌++◌, ◌≡◌, refl, inl, inr, Bool, true, false, not, ◌&&◌, List, [], ◌∷◌, some, Bool-cases,
}
use project_pintos.ListAlgo.{list_max, list_min, max_from, min_from, list_unique, unique_from}

module _ {ℓ} {A : Type ℓ} where
  abbrev pub All : (A → Type 0) → List A → Type 0
  All P [] = Unit
  All P (x ∷ xs) = P x × All P xs

module _ {ℓ} {A : Type ℓ} (less : A → A → Bool) where
  -- A strict weak order, as list.h asks of a `list_less_func`.
  pub record IsStrictWeak : Type ℓ where
    pub asym : (a b : A) → less a b ≡ true → less b a ≡ false
    pub neg_trans : (a b c : A) → less a b ≡ false → less b c ≡ false → less a c ≡ false

  module _ (w : IsStrictWeak) where
    open w use {asym, neg_trans}

    irrefl : (a : A) → less a a ≡ false
    irrefl a = elim (Bool-cases (less a a)) [ inl h ↦ asym a a h | inr h ↦ h ]

    max_from-ge :
        (v m : A) (r : List A)
        → max_from less m r ≡ v
        → (less v m ≡ false) × All (λ e. less v e ≡ false) r
    unfolding max_from
    max_from-ge v m [] q = (rw (← q) (irrefl m), tt)
    max_from-ge v m (e ∷ r) q = elim (Bool-cases (less m e)) [
      | inl h ↦
          let (top, rest) = max_from-ge v e r (rw h at q) in
          (neg_trans v e m top (asym m e h), (top, rest))
      | inr h ↦
          let (top, rest) = max_from-ge v m r (rw h at q) in (top, (neg_trans v m e top h, rest))
    ]

    min_from-le :
        (v m : A) (r : List A)
        → min_from less m r ≡ v
        → (less m v ≡ false) × All (λ e. less e v ≡ false) r
    unfolding min_from
    min_from-le v m [] q = (rw (← q) (irrefl m), tt)
    min_from-le v m (e ∷ r) q = elim (Bool-cases (less e m)) [
      | inl h ↦
          let (low, rest) = min_from-le v e r (rw h at q) in
          (neg_trans m e v (asym e m h) low, (low, rest))
      | inr h ↦
          let (low, rest) = min_from-le v m r (rw h at q) in (low, (neg_trans e m v h low, rest))
    ]

    -- `list_max` of a list that is not empty returns an element that is less than none of the list,
    -- and `list_min` one that none of the list is less than.
    pub list_max_min_bounds :
        (a : A) (r : List A)
        → ((m : A) × (list_max less (a ∷ r) ≡ some m) × All (λ e. less m e ≡ false) (a ∷ r))
          × ((m : A) × (list_min less (a ∷ r) ≡ some m) × All (λ e. less e m ≡ false) (a ∷ r))
    unfolding list_max list_min
    list_max_min_bounds a r = (
      (max_from less a r, refl, max_from-ge _ a r refl),
      (min_from less a r, refl, min_from-le _ a r refl),
    )

  -- Two elements that the comparison does not tell apart.
  abbrev pub equivalent : A → A → Bool
  equivalent a b = not (less a b) && not (less b a)

  -- No element is equivalent to the one before it.
  abbrev pub NoRepeat : List A → Type 0
  NoRepeat [] = Unit
  NoRepeat (a ∷ []) = Unit
  NoRepeat (a ∷ (b ∷ r)) = (equivalent a b ≡ false) × NoRepeat (b ∷ r)

  unique_from-NoRepeat :
      (p a : A) (r : List A) → equivalent p a ≡ false → NoRepeat (p ∷ (unique_from less a r).0)
  unfolding unique_from
  unique_from-NoRepeat p a [] h = (h, tt)
  unique_from-NoRepeat p a (b ∷ r) h = elim (Bool-cases (equivalent a b)) [
    | inl e ↦ rw e (unique_from-NoRepeat p a r h)
    | inr e ↦ rw e (h, unique_from-NoRepeat a b r e)
  ]

  unique_any : (a : A) (r : List A) → NoRepeat (unique_from less a r).0
  unfolding unique_from
  unique_any a [] = tt
  unique_any a (b ∷ r) = elim (Bool-cases (equivalent a b)) [
    | inl e ↦ rw e (unique_any a r)
    | inr e ↦ rw e (unique_from-NoRepeat a b r e)
  ]

  unique_from-perm :
      (a : A) (r : List A) → Perm ((unique_from less a r).0 ++ (unique_from less a r).1) (a ∷ r)
  unfolding unique_from
  unique_from-perm a [] = Perm.refl _
  unique_from-perm a (b ∷ r) = elim (Bool-cases (equivalent a b)) [
    | inl e ↦ rw e (
        Perm.trans (perm_middle _ _)
          (Perm.trans (Perm.cons b (unique_from-perm a r)) (Perm.swap _ _ _)))
    | inr e ↦ rw e (Perm.cons a (unique_from-perm b r))
  ]

  -- `list_unique` leaves no two equivalent neighbours, and what it removes goes to `duplicates`.
  pub list_unique-splits :
      (xs : List A)
      → NoRepeat (list_unique less xs).0
        × Perm ((list_unique less xs).0 ++ (list_unique less xs).1) xs
  unfolding list_unique
  list_unique-splits [] = (tt, Perm.refl _)
  list_unique-splits (a ∷ r) = (unique_any a r, unique_from-perm a r)
