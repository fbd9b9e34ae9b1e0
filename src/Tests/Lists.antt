-- ===== src/Tests/Lists.antt =====
-- The theorems on the algorithms and the links of lib/kernel/list.c, at small lists.
use mathlib.Core.List.{Mem, Perm, Nodup, mem-cons, Nodup-cons, not-mem-nil, Nodup-nil}
use mathlib.Core.Logic.Or
use mathlib.Core.HLevel.{⊥_prop}
use project_pintos.Base.{ℕ, ◌≡◌, ◌≢◌, refl, ltb, true, false, List, [], ◌∷◌, some, arith}
use project_pintos.ListAlgo.{is_sorted, list_sort}
use project_pintos.ListAlgo.Sorted.{IsAsym}
use project_pintos.ListAlgo.Sort.{list_sort_sorts}
use project_pintos.ListAlgo.Extremes.{All}
use project_pintos.Links.{Links, list_remove}
use project_pintos.Links.Chain.{Linked}
use project_pintos.Links.Edit.{list_remove-Linked}

ltb_asym : IsAsym ltb
ltb_asym a b h = ground arith

abbrev unsorted : List ℕ
unsorted = 3 ∷ 1 ∷ 2 ∷ 2 ∷ []

list_sort_sorts_example :
    (is_sorted ltb (list_sort ltb unsorted) ≡ true) × Perm (list_sort ltb unsorted) unsorted
list_sort_sorts_example = list_sort_sorts ltb ltb_asym unsorted

-- A list whose head is at 10 and whose tail is at 20, with the elements 30 and 40.
abbrev chain : Links
chain = record {
  next = λ a. elim (ltb a 20) [ true ↦ 30 | false ↦ elim (ltb a 40) [ true ↦ 40 | false ↦ 20 ] ];
  prev = λ a. elim (ltb a 30) [ true ↦ 40 | false ↦ elim (ltb a 40) [ true ↦ 10 | false ↦ 30 ] ];
}

apart_from : (x : ℕ) (l : List ℕ) → All (λ e. x ≢ e) l → ¬ Mem x l
apart_from x [] a e = not-mem-nil e
apart_from x (y ∷ l) a e = Or.elim ⊥_prop (mem-cons.0 e) a.0 (apart_from x l a.1)

abbrev cells : List ℕ
cells = 10 ∷ 30 ∷ 40 ∷ 20 ∷ []

cells-Linked : Linked chain cells
cells-Linked = (refl, refl, (refl, refl, (refl, refl, tt)))

cells-Nodup : Nodup cells
cells-Nodup = Nodup-cons.1 (
  apart_from 10 _ (omega arith, (omega arith, (omega arith, tt))),
  Nodup-cons.1 (
    apart_from 30 _ (omega arith, (omega arith, tt)),
    Nodup-cons.1 (apart_from 40 _ (omega arith, tt), Nodup-cons.1 (not-mem-nil, Nodup-nil)),
  ),
)

without : (x : ℕ) → x ≢ 10 → x ≢ 30 → x ≢ 40 → x ≢ 20 → ¬ Mem x cells
without x a b c d = apart_from x cells (a, (b, (c, (d, tt))))

without_null : ¬ Mem 0 cells
without_null = without 0 (omega arith) (omega arith) (omega arith) (omega arith)

list_remove-Linked_example :
    (h' : Links) × (list_remove 30 chain ≡ some (40, h')) × Linked h' (10 ∷ 40 ∷ 20 ∷ [])
list_remove-Linked_example =
    list_remove-Linked chain [] 10 30 40 (20 ∷ []) cells-Linked cells-Nodup without_null
