-- ===== src/Pmm/Free/Search.antt =====
-- The loop of `pmm_free_page` from the section before the page on.
use fenestella.Prelude.{
  ℕ, zero, suc, ◌+◌, ◌-◌, ◌*◌, ◌/◌, ◌%◌, ◌⊎◌, ◌<◌, ◌≤◌, ◌≡◌, ◌≢◌, sym, subst, inl, inr, Bool, true,
  List, length, arith, ◌==◌, Bool-cases, ==_iff, ◌∷◌, [], Option,
}
use fenestella.Pmm.{Pmm, page_size}
use fenestella.Pmm.Pages.{free_from}
use fenestella.Pmm.Chain.{Region, Cells, link, Chain, regions}
use fenestella.Pmm.Kinds.{ne_of_test}
use fenestella.Pmm.Chain.Room.{HasRoom}
use fenestella.Pmm.Chain.Outcome.{Outcome, next-Outcome, pages_bound}
use fenestella.Pmm.Chain.{Fits}
use fenestella.Pmm.Kinds.{Laid}
use fenestella.Pmm.Free.{free_first, free_within, push, free_region, free_in}
use fenestella.Pmm.Free.Loop.{Later, at_start, skip}
use fenestella.Pmm.Free.Start.{free_start-Outcome}
use fenestella.Pmm.Free.Within.{free_within-Outcome}

-- No region is empty.
abbrev pub Full : List Region → Type 0
Full [] = Unit {0}
Full (r ∷ rs) = (0 < r.pages) × Full rs

-- The page lies in one of the regions but not in the last.
abbrev pub Inner : ℕ → List Region → Type 0
Inner page [] = ⊥
Inner page (r ∷ []) = ⊥
Inner page (r ∷ s ∷ rs) =
    (r.start ≤ page) × ((page < s.start) ⊎ ((s.start ≤ page) × Inner page (s ∷ rs)))

pub Laid-Later : (page at : ℕ) (rs : List Region) → page < at → Laid at rs → Later page rs
Laid-Later page at [] h l = tt
Laid-Later page at (r ∷ rs) h l =
    (omega (arith, l.0), Laid-Later page (at + r.pages * page_size) rs (omega arith) l.1)

pub free_region-first :
    (b r s : Region) (rs : List Region) (k : ℕ)
    → k ≡ 0
    → (free_first b r s rs, true) ≡ free_region k b r s rs
unfolding free_region
free_region-first b r s rs k e = ground arith

pub free_region-within :
    (b r s : Region) (rs : List Region) (k : ℕ)
    → k ≢ 0
    → push b (free_within k r s rs) ≡ free_region k b r s rs
unfolding free_region
free_region-within b r s rs k ne = ground arith

module _ (m : Pmm) (prev q p d page at fuel : ℕ) (b r s : Region) (xs : Cells)
    (c : Chain m.section prev ((q, b) ∷ (p, r) ∷ (d, s) ∷ xs))
    (laid : Laid at (b ∷ r ∷ s ∷ regions xs)) (fits : Fits (b ∷ r ∷ s ∷ regions xs))
    (full : 0 < r.pages) (low : r.start ≤ page) (high : page < s.start)
    (aligned : page % page_size ≡ 0) (aligned' : at % page_size ≡ 0) (room : HasRoom m)
    (enough : length xs + 2 < fuel) where
  abbrev Ends : List Region × Bool → Type 0
  Ends w =
      Outcome m prev q ((q, b) ∷ (p, r) ∷ (d, s) ∷ xs) w.0 w.1 (free_from (suc fuel) page (suc p) m)

  abbrev k : ℕ
  k = (page - r.start) / page_size

  page_eq : page ≡ r.start + k * page_size
  page_eq = omega (arith, laid.0, laid.1.0)

  k-lt : k < r.pages
  k-lt = omega (arith, page_eq, laid.1.0, laid.1.1.0)

  region-first : k ≡ 0 → Ends (free_first b r s (regions xs), true)
  region-first e =
      let o =
        free_start-Outcome m prev q p d b r s xs c (pages_bound b fits.0) fits.1.0 full room in
      record {
        cells = o.cells;
        after = o.after;
        runs =
            at_start fuel page p m (suc q) (suc d) r c.2.0 o.after (omega (arith, page_eq)) o.runs;
        chain = o.chain;
        content = o.content;
        first = o.first;
        kept = o.kept;
        vars = o.vars;
      }

  region-within : k ≢ 0 → Ends (push b (free_within k r s (regions xs)))
  region-within ne = next-Outcome m prev q p b r ((d, s) ∷ xs) c (
      free_within-Outcome m (suc q) p d k page fuel r s xs c.2 page_eq (omega arith) k-lt
        (omega (arith, laid.1.0, laid.1.1.0)) fits.1.0 fits.1.1.0
        (Laid-Later page (s.start + s.pages * page_size) (regions xs) (omega arith)
          (subst (λ t. Laid (t + s.pages * page_size) (regions xs)) (sym laid.1.1.0) laid.1.1.1))
        enough room)

  region-Outcome : Ends (free_region k b r s (regions xs))
  region-Outcome = elim (Bool-cases (k == 0)) [
    | inl h ↦
        let e = (==_iff k 0).0 h in
        subst Ends (free_region-first b r s (regions xs) k e) (region-first e)
    | inr h ↦
        let ne = ne_of_test k 0 h in
        subst Ends (free_region-within b r s (regions xs) k ne) (region-within ne)
  ]

module _ (page : ℕ) (b r s : Region) (rs : List Region) where
  pub free_in-here :
      page < s.start
      → free_region ((page - r.start) / page_size) b r s rs ≡ free_in page b (r ∷ s ∷ rs)
  unfolding free_in
  free_in-here h = ground arith

  pub free_in-next : s.start ≤ page → push b (free_in page r (s ∷ rs)) ≡ free_in page b (r ∷ s ∷ rs)
  unfolding free_in
  free_in-next h = ground arith

abbrev pub FreeFrom : Pmm → ℕ → ℕ → Cells → List Region × Bool → Option (Bool × Pmm) → Type 0
FreeFrom m prev q cells w run = Outcome m prev q cells w.0 w.1 run

-- From any cell before the page on.
pub free_from-Outcome :
    (page at fuel : ℕ) (m : Pmm) (prev q : ℕ) (b : Region) (xs : Cells)
    → Chain m.section prev ((q, b) ∷ xs)
    → Laid at (b ∷ regions xs)
    → Fits (b ∷ regions xs)
    → Full (b ∷ regions xs)
    → Inner page (regions xs)
    → page % page_size ≡ 0
    → at % page_size ≡ 0
    → HasRoom m
    → length xs + 1 < fuel
    → FreeFrom m prev q
        ((q, b) ∷ xs)
        (free_in page b (regions xs))
        (free_from fuel page (link xs) m)
free_from-Outcome page at fuel m prev q b [] c l f u i al al' room n = absurd i
free_from-Outcome page at fuel m prev q b ((p, r) ∷ []) c l f u i al al' room n = absurd i
free_from-Outcome page at zero m prev q b ((p, r) ∷ (d, s) ∷ xs) c l f u i al al' room n =
    absurd (omega arith)
free_from-Outcome page at (suc fuel) m prev q b ((p, r) ∷ (d, s) ∷ xs) c l f u (low, inl high) al
      al' room n =
    subst
      (λ w.
        FreeFrom m prev q ((q, b) ∷ (p, r) ∷ (d, s) ∷ xs) w (free_from (suc fuel) page (suc p) m))
      (free_in-here page b r s (regions xs) high)
      (region-Outcome m prev q p d page at fuel b r s xs c l f u.1.0 low high al al' room
        (omega arith))
free_from-Outcome page at (suc fuel) m prev q b ((p, r) ∷ (d, s) ∷ xs) c l f u (low, inr (past, i))
      al al' room n =
    let rest =
      free_from-Outcome page (at + b.pages * page_size) fuel m (suc q) p r ((d, s) ∷ xs) c.2 l.1 f.1
        u.1 i al (omega arith) room (omega arith) in
    let below : r.start < page = omega (arith, l.1.0, l.1.1.0, u.1.0) in
    let run = skip fuel page p d m (suc q) (suc p) (link xs) r s c.2.0 c.2.2.0 below past in
    subst
      (λ w.
        FreeFrom m prev q ((q, b) ∷ (p, r) ∷ (d, s) ∷ xs) w (free_from (suc fuel) page (suc p) m))
      (free_in-next page b r s (regions xs) past)
      (subst
        (FreeFrom m prev q ((q, b) ∷ (p, r) ∷ (d, s) ∷ xs)
          (push b (free_in page r (s ∷ regions xs))))
        (sym run) (next-Outcome m prev q p b r ((d, s) ∷ xs) c rest))
