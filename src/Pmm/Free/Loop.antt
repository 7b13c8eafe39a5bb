-- ===== src/Pmm/Free/Loop.antt =====
-- The loop of `pmm_free_page`, section by section.
use fenestella.Prelude.{
  ℕ, zero, suc, ◌<◌, ◌≤◌, ◌≡◌, ◌≢◌, refl, ◌∙◌, true, false, some, List, length, arith, ◌∷◌, [],
}
use fenestella.Pmm.{Pmm, null, section_free}
use fenestella.Pmm.Pages.{free_start, free_inside, free_from}
use fenestella.Pmm.Chain.{Region, Cells, node, link, Chain, regions}

-- The regions all begin behind the page.
abbrev pub Later : ℕ → List Region → Type 0
Later page [] = Unit {0}
Later page (r ∷ rs) = (page < r.start) × Later page rs

module _ (fuel page p : ℕ) (m : Pmm) (prev next : ℕ) (r : Region)
    (e : m.section (suc p) ≡ node prev next r) where
  pub at_start :
      (m1 : Pmm)
      → r.start ≡ page
      → free_start (suc p) m ≡ some (tt, m1)
      → free_from (suc fuel) page (suc p) m ≡ some (true, m1)
  unfolding free_from
  at_start m1 here run = ground arith

  pub past : page < r.start → free_from (suc fuel) page (suc p) m ≡ free_from fuel page next m
  unfolding free_from
  past h = ground arith

module _ (fuel page p d : ℕ) (m : Pmm) (prev before next : ℕ) (r s : Region)
    (e : m.section (suc p) ≡ node prev (suc d) r) (e' : m.section (suc d) ≡ node before next s)
    (later : r.start < page) where
  pub skip : s.start ≤ page → free_from (suc fuel) page (suc p) m ≡ free_from fuel page (suc d) m
  unfolding free_from
  skip h = ground arith

  pub inside_free :
      page < s.start → r.free ≡ section_free → free_from (suc fuel) page (suc p) m ≡ some (true, m)
  unfolding free_from
  inside_free h free = ground arith

  pub inside_used :
      (x nx : ℕ) (m1 : Pmm)
      → page < s.start
      → r.free ≢ section_free
      → free_inside (suc p) page m ≡ some (suc x, m1)
      → (m1.section (suc x)).next ≡ nx
      → free_from (suc fuel) page (suc p) m ≡ free_from fuel page nx m1
  unfolding free_from
  inside_used x nx m1 h used run e2 = ground arith

free_from-null : (fuel page : ℕ) (m : Pmm) → free_from (suc fuel) page null m ≡ some (false, m)
unfolding free_from
free_from-null fuel page m = refl

-- Behind the page the loop only goes to the end.
pub free_from-Later :
    (fuel page prev : ℕ) (m : Pmm) (xs : Cells)
    → Chain m.section prev xs
    → Later page (regions xs)
    → length xs < fuel
    → free_from fuel page (link xs) m ≡ some (false, m)
free_from-Later zero page prev m xs c later enough = absurd (omega arith)
free_from-Later (suc fuel) page prev m [] c later enough = free_from-null fuel page m
free_from-Later (suc fuel) page prev m ((p, r) ∷ xs) c later enough =
    past fuel page p m prev (link xs) r c.0 later.0
    ∙ free_from-Later fuel page (suc p) m xs c.2 later.1 (omega arith)

-- Where the section that begins with the page is free already.
pub at_start_free :
    (fuel page p : ℕ) (m : Pmm) (prev next : ℕ) (r : Region)
    → m.section (suc p) ≡ node prev next r
    → r.start ≡ page
    → r.free ≡ section_free
    → 0 < fuel
    → free_from fuel page (suc p) m ≡ some (true, m)
unfolding free_from free_start
at_start_free zero page p m prev next r e here free pos = absurd (omega arith)
at_start_free (suc fuel) page p m prev next r e here free pos = ground arith
