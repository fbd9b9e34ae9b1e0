-- ===== src/Links/Edit.antt =====
-- Insertion and removal in the linked lists of lib/kernel/list.c.
use mathlib.Core.List.{
  Mem, Nodup, mem-cons, mem-cons_self, mem-cons_of_mem, Nodup-cons, Nodup-append, Disjoint,
  mem-append, mem-append_left, mem-append_right, not-mem-nil, Mem-prop,
}
use mathlib.Core.Logic.Or
use mathlib.Core.HLevel.{⊥_prop}
use project_pintos.Base.{ℕ, ◌≡◌, ◌≢◌, sym, ◌∙◌, List, [], ◌∷◌, ◌++◌, some, arith}
use project_pintos.Links.{Links, store, list_insert, list_remove}
use project_pintos.Links.Chain.{Linked, Linked-frame, Linked-prefix}

Linked-suffix :
    (h : Links) (front : List ℕ) (p : ℕ) (r : List ℕ)
    → Linked h (front ++ (p ∷ r))
    → Linked h (p ∷ r)
Linked-suffix h [] p r c = c
Linked-suffix h (a ∷ []) p r c = c.2
Linked-suffix h (a ∷ (x ∷ front)) p r c = Linked-suffix h (x ∷ front) p r c.2

-- The links after `elem` was put between `p` and `b`.
abbrev pub inserted : ℕ → ℕ → ℕ → Links → Links
inserted p elem b h = record {
  prev = store (store h.prev elem p) b elem;
  next = store (store h.next elem b) p elem;
}

abbrev pub removed : ℕ → ℕ → Links → Links
removed p b h = record { prev = store h.prev b p; next = store h.next p b }

insert-step :
    (h : Links) (p b elem : ℕ)
    → p ≢ 0
    → b ≢ 0
    → elem ≢ 0
    → elem ≢ b
    → h.prev b ≡ p
    → list_insert b elem h ≡ some (inserted p elem b h)
unfolding list_insert
insert-step h p b elem hp hb he ne q = ground arith

-- A list in which `p` comes just before `b`, each address once.
record Around (front : List ℕ) (p b : ℕ) (bs : List ℕ) : Type 0 where
  apart : p ≢ b
  p_once : ¬ Mem p bs
  b_once : ¬ Mem b bs
  front_p : (u : ℕ) → Mem u front → u ≢ p
  front_b : (u : ℕ) → Mem u front → u ≢ b

Around-of_Nodup :
    (front : List ℕ) (p b : ℕ) (bs : List ℕ) → Nodup (front ++ (p ∷ (b ∷ bs))) → Around front p b bs
Around-of_Nodup front p b bs n = record {
  apart = λ q. tail_p (rw q mem-cons_self);
  p_once = λ e. tail_p (mem-cons_of_mem b e);
  b_once = (Nodup-cons.0 (Nodup-cons.0 parts.1).1).0;
  front_p = λ u e q. parts.2 u e (rw q mem-cons_self);
  front_b = λ u e q. parts.2 u e (rw q (mem-cons_of_mem p mem-cons_self));
}
  where
    parts : Nodup front × Nodup (p ∷ (b ∷ bs)) × Disjoint front (p ∷ (b ∷ bs))
    parts = Nodup-append.0 n

    tail_p : ¬ Mem p (b ∷ bs)
    tail_p = (Nodup-cons.0 parts.1).0

module _ {front : List ℕ} {p b : ℕ} {bs : List ℕ} (a : Around front p b bs) where
  -- Where the addresses of the list other than `p` and `b` stand.
  before_b : (u : ℕ) → Mem u (front ++ (p ∷ [])) → u ≢ b
  before_b u e q =
      Or.elim ⊥_prop (mem-append.0 e) (λ f. a.front_b u f q)
        (λ g. Or.elim ⊥_prop (mem-cons.0 g) (λ r. a.apart (sym r ∙ q)) not-mem-nil)

  after_p : (u : ℕ) → Mem u (b ∷ bs) → u ≢ p
  after_p u e q =
      Or.elim ⊥_prop (mem-cons.0 e) (λ r. a.apart (sym q ∙ r)) (λ r. a.p_once (rw q at r))

  after_b : (u : ℕ) → Mem u bs → u ≢ b
  after_b u e q = a.b_once (rw q at e)

module _ (h : Links) (front : List ℕ) (p elem b : ℕ) (bs : List ℕ) where
  -- `list_insert` before `b`, where `p` is the element before `b` in a list with distinct addresses
  -- other than NULL, and `elem` is neither NULL nor in the list: no ASSERT fails, `elem` stands between
  -- `p` and `b`, and all the rest of the list is linked as before.
  pub list_insert-Linked :
      Linked h (front ++ (p ∷ (b ∷ bs)))
      → Nodup (front ++ (p ∷ (b ∷ bs)))
      → ¬ Mem 0 (front ++ (p ∷ (b ∷ bs)))
      → elem ≢ 0
      → ¬ Mem elem (front ++ (p ∷ (b ∷ bs)))
      → (h' : Links) × (list_insert b elem h ≡ some h')
        × Linked h' (front ++ (p ∷ (elem ∷ (b ∷ bs))))
  list_insert-Linked c n nonnull he fresh = (
    inserted p elem b h,
    insert-step h p b elem (λ q. nonnull (in_list p mem-cons_self q))
        (λ q. nonnull (in_list b (mem-cons_of_mem p mem-cons_self) q)) he
        (λ q. fresh (in_list b (mem-cons_of_mem p mem-cons_self) (sym q))) here.1,
    Linked-prefix h (inserted p elem b h) p b bs [] (elem ∷ []) middle front
        (λ u e. next_same u (a.front_p u e) (out u (mem-append_left _ e)))
        (λ u e. prev_same u (before_b a u e) (out u (prefix u e))) c,
  )
    where
      a : Around front p b bs
      a = Around-of_Nodup front p b bs n

      here : Linked h (p ∷ (b ∷ bs))
      here = Linked-suffix h front p (b ∷ bs) c

      in_list : {v : ℕ} (u : ℕ) → Mem u (p ∷ (b ∷ bs)) → u ≡ v → Mem v (front ++ (p ∷ (b ∷ bs)))
      in_list u e q = rw (← q) (mem-append_right front e)

      out : (u : ℕ) → Mem u (front ++ (p ∷ (b ∷ bs))) → u ≢ elem
      out u e q = fresh (rw q at e)

      prefix : (u : ℕ) → Mem u (front ++ (p ∷ [])) → Mem u (front ++ (p ∷ (b ∷ bs)))
      prefix u e =
          Or.elim Mem-prop ((mem-append {a = u} {s = front} {t = p ∷ []}).0 e)
            (λ f. mem-append_left (p ∷ (b ∷ bs)) f)
            (λ g. mem-append_right front (
              Or.elim Mem-prop (mem-cons.0 g) (λ r. rw r mem-cons_self)
                (λ r. absurd (not-mem-nil r))))

      at_elem : (inserted p elem b h).prev elem ≡ p
      at_elem =
          let x = out b (mem-append_right front (mem-cons_of_mem p mem-cons_self)) in ground arith

      at_next : (inserted p elem b h).next elem ≡ b
      at_next = let x = out p (mem-append_right front mem-cons_self) in ground arith

      next_same : (u : ℕ) → u ≢ p → u ≢ elem → (inserted p elem b h).next u ≡ h.next u
      next_same u x y = ground arith

      prev_same : (u : ℕ) → u ≢ b → u ≢ elem → (inserted p elem b h).prev u ≡ h.prev u
      prev_same u x y = ground arith

      middle : Linked h (p ∷ (b ∷ bs)) → Linked (inserted p elem b h) (p ∷ (elem ∷ (b ∷ bs)))
      middle l = (
        ground arith,
        at_elem,
        (
          at_next,
          ground arith,
          Linked-frame h (inserted p elem b h) b bs
              (λ u e.
                next_same u (after_p a u e) (out u (mem-append_right front (mem-cons_of_mem p e))))
              (λ u e.
                prev_same u (after_b a u e)
                  (out u (mem-append_right front (mem-cons_of_mem p (mem-cons_of_mem b e)))))
              l.2,
        ),
      )

remove-step :
    (h : Links) (p b elem : ℕ)
    → p ≢ 0
    → b ≢ 0
    → elem ≢ 0
    → elem ≢ p
    → h.prev elem ≡ p
    → h.next elem ≡ b
    → list_remove elem h ≡ some (b, removed p b h)
unfolding list_remove
remove-step h p b elem hp hb he ne q r = ground arith

-- `elem` may be left out of the list.
Around-skip :
    (front : List ℕ) (p elem b : ℕ) (bs : List ℕ)
    → Nodup (front ++ (p ∷ (elem ∷ (b ∷ bs))))
    → Around front p b bs
Around-skip front p elem b bs n = record {
  apart = λ q. (Nodup-cons.0 n').0 (rw q mem-cons_self);
  p_once = λ e. (Nodup-cons.0 n').0 (mem-cons_of_mem b e);
  b_once = (Nodup-cons.0 (Nodup-cons.0 n').1).0;
  front_p = λ u e q. parts.2 u e (rw q mem-cons_self);
  front_b = λ u e q. parts.2 u e (rw q (mem-cons_of_mem p (mem-cons_of_mem elem mem-cons_self)));
}
  where
    parts : Nodup front × Nodup (p ∷ (elem ∷ (b ∷ bs))) × Disjoint front (p ∷ (elem ∷ (b ∷ bs)))
    parts = Nodup-append.0 n

    n' : Nodup (p ∷ (b ∷ bs))
    n' = Nodup-cons.1 (
      (λ e. (Nodup-cons.0 parts.1).0 (mem-cons_of_mem elem e)),
      (Nodup-cons.0 (Nodup-cons.0 parts.1).1).1,
    )

module _ (h : Links) (front : List ℕ) (p elem b : ℕ) (bs : List ℕ) where
  -- `list_remove` of `elem`, which stands between `p` and `b` in a list with distinct addresses other
  -- than NULL: no ASSERT fails, the result is the element after it, and the list without `elem` is
  -- linked.
  pub list_remove-Linked :
      Linked h (front ++ (p ∷ (elem ∷ (b ∷ bs))))
      → Nodup (front ++ (p ∷ (elem ∷ (b ∷ bs))))
      → ¬ Mem 0 (front ++ (p ∷ (elem ∷ (b ∷ bs))))
      → (h' : Links) × (list_remove elem h ≡ some (b, h')) × Linked h' (front ++ (p ∷ (b ∷ bs)))
  list_remove-Linked c n nonnull = (
    removed p b h,
    remove-step h p b elem (λ q. nonnull (in_list p mem-cons_self q))
        (λ q. nonnull (in_list b (mem-cons_of_mem p (mem-cons_of_mem elem mem-cons_self)) q))
        (λ q. nonnull (in_list elem (mem-cons_of_mem p mem-cons_self) q))
        (λ q. (Around-of_Nodup front p elem (b ∷ bs) n).apart (sym q)) here.1 here.2.0,
    Linked-prefix h (removed p b h) p b bs (elem ∷ []) [] middle front
        (λ u e. next_same u (a.front_p u e)) (λ u e. prev_same u (before_b a u e)) c,
  )
    where
      a : Around front p b bs
      a = Around-skip front p elem b bs n

      here : Linked h (p ∷ (elem ∷ (b ∷ bs)))
      here = Linked-suffix h front p (elem ∷ (b ∷ bs)) c

      in_list :
          {v : ℕ} (u : ℕ)
          → Mem u (p ∷ (elem ∷ (b ∷ bs)))
          → u ≡ v
          → Mem v (front ++ (p ∷ (elem ∷ (b ∷ bs))))
      in_list u e q = rw (← q) (mem-append_right front e)

      next_same : (u : ℕ) → u ≢ p → (removed p b h).next u ≡ h.next u
      next_same u x = ground arith

      prev_same : (u : ℕ) → u ≢ b → (removed p b h).prev u ≡ h.prev u
      prev_same u x = ground arith

      middle : Linked h (p ∷ (elem ∷ (b ∷ bs))) → Linked (removed p b h) (p ∷ (b ∷ bs))
      middle l = (
        ground arith,
        ground arith,
        Linked-frame h (removed p b h) b bs (λ u e. next_same u (after_p a u e))
            (λ u e. prev_same u (after_b a u e)) l.2.2,
      )
