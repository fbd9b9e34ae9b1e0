-- ===== src/Links/Chain.antt =====
-- The elements of a list in order: each link of neighbours points to the other.
use mathlib.Core.List.{Mem, mem-cons_self, mem-cons_of_mem}
use project_pintos.Base.{ℕ, ◌≡◌, ◌∙◌, List, [], ◌∷◌, ◌++◌}
use project_pintos.Links.{Links}

-- Neighbours are linked both ways.
abbrev pub Linked : Links → List ℕ → Type 0
Linked h [] = Unit
Linked h (a ∷ []) = Unit
Linked h (a ∷ (b ∷ r)) = (h.next a ≡ b) × (h.prev b ≡ a) × Linked h (b ∷ r)

-- Links that agree on a chain link it alike: `next` from its first element on, `prev` after it.
pub Linked-frame :
    (h h' : Links) (a : ℕ) (r : List ℕ)
    → ((u : ℕ) → Mem u (a ∷ r) → h'.next u ≡ h.next u)
    → ((u : ℕ) → Mem u r → h'.prev u ≡ h.prev u)
    → Linked h (a ∷ r)
    → Linked h' (a ∷ r)
Linked-frame h h' a [] n p c = tt
Linked-frame h h' a (b ∷ r) n p c = (
  n a mem-cons_self ∙ c.0,
  p b mem-cons_self ∙ c.1,
  Linked-frame h h' b r (λ u e. n u (mem-cons_of_mem a e)) (λ u e. p u (mem-cons_of_mem b e)) c.2,
)

-- A change between `p` and `b`: the elements `mid` come to stand between them.
module _ (h h' : Links) (p b : ℕ) (bs mid mid' : List ℕ)
    (changed : Linked h (p ∷ (mid ++ (b ∷ bs))) → Linked h' (p ∷ (mid' ++ (b ∷ bs)))) where
  -- In front of `p` nothing changes.
  pub Linked-prefix :
      (front : List ℕ)
      → ((u : ℕ) → Mem u front → h'.next u ≡ h.next u)
      → ((u : ℕ) → Mem u (front ++ (p ∷ [])) → h'.prev u ≡ h.prev u)
      → Linked h (front ++ (p ∷ (mid ++ (b ∷ bs))))
      → Linked h' (front ++ (p ∷ (mid' ++ (b ∷ bs))))
  Linked-prefix [] n q c = changed c
  Linked-prefix (a ∷ []) n q c =
      (n a mem-cons_self ∙ c.0, q p (mem-cons_of_mem a mem-cons_self) ∙ c.1, changed c.2)
  Linked-prefix (a ∷ (x ∷ front)) n q c = (
    n a mem-cons_self ∙ c.0,
    q x (mem-cons_of_mem a mem-cons_self) ∙ c.1,
    Linked-prefix (x ∷ front) (λ u e. n u (mem-cons_of_mem a e)) (λ u e. q u (mem-cons_of_mem a e))
        c.2,
  )
