-- ===== src/Pmm/Chain/Take.antt =====
-- The free section gives its first page: to the section before it, or as a section of its own.
use fenestella.Prelude.{
  ℕ, suc, ◌+◌, ◌-◌, ◌*◌, ◌^◌, ◌<◌, ◌≡◌, ◌≢◌, refl, subst, inl, inr, false, some, arith, ◌==◌,
  Bool-cases, update, ◌∷◌,
}
use fenestella.Pmm.{Pmm, Section, section_used, section_split, page_size, u64}
use fenestella.Pmm.Pages.{give_page_to_prev, take_page}
use fenestella.Pmm.Chain.{
  Region, Cells, node, link, Chain, Chain-frame, SameOn, has-ne, regions, with_pages, behind,
  take_in,
}
use fenestella.Pmm.Chain.Room.{HasRoom}
use fenestella.Pmm.Chain.Outcome.{Outcome, section_only}
use fenestella.Pmm.Chain.{take_in-one, take_in-more}
use fenestella.Pmm.Chain.Mark.{set_kind, mark-Outcome, cut-Outcome}
use fenestella.Pmm.Chain.Split.{section_split-SplitAt}

-- The page goes from `p` to `q`.
abbrev moved : (ℕ → Section) → ℕ → ℕ → Region → Region → ℕ → Section
moved f q p b r =
    let g1 = update f q (record (f q) { pages = b.pages + 1 }) in
    let g2 = update g1 p (record (g1 p) { pages = r.pages - 1 }) in
    update g2 p (record (g2 p) { start = r.start + 1 * page_size })

module _ (m : Pmm) (prev q p next : ℕ) (b r : Region) (qp : (q == p) ≡ false)
    (eb : m.section (suc q) ≡ node prev (suc p) b)
    (er : m.section (suc p) ≡ node (suc q) next r) where
  take_page-moved :
      b.free ≡ section_used
      → b.pages < 2 ^ 63
      → 0 < r.pages
      → r.start + r.pages * page_size < 2 ^ 63
      → take_page (suc p) m
        ≡ some (r.start, record m { section = moved m.section (suc q) (suc p) b r })
  unfolding take_page give_page_to_prev
  take_page-moved used few some_pages fits = ground arith

  take_page-whole :
      b.free ≢ section_used
      → r.pages ≡ 1
      → r.start + r.pages * page_size < 2 ^ 63
      → take_page (suc p) m
        ≡ some (r.start, record m { section = set_kind m.section (suc p) section_used })
  unfolding take_page section_split
  take_page-whole other one fits = ground arith

  take_page-cut :
      (head : ℕ) (array : ℕ → Section)
      → b.free ≢ section_used
      → r.start + r.pages * page_size < 2 ^ 63
      → 1 < r.pages
      → section_split (suc p) (r.start + 1 * page_size) m
        ≡ some (tt, record m { section = array; section_head = head })
      → take_page (suc p) m
        ≡ some (
          r.start,
          record m { section = set_kind array (suc p) section_used; section_head = head },
        )
  unfolding take_page
  take_page-cut head array other fits more split =
      let at : u64 (r.start + page_size) ≡ r.start + 1 * page_size = omega arith in ground arith

module _ (f : ℕ → Section) (q p prev : ℕ) (b r : Region) where
  abbrev given : ℕ → Section
  given = moved f (suc q) (suc p) b r

  moved-other : (a : ℕ) → (a == q) ≡ false → (a == p) ≡ false → given (suc a) ≡ f (suc a)
  moved-other a x y = ground arith

  moved-first :
      (q == p) ≡ false
      → f (suc q) ≡ node prev (suc p) b
      → given (suc q) ≡ node prev (suc p) (with_pages b (b.pages + 1))
  moved-first x e = ground arith

  moved-second :
      (next : ℕ)
      → (p == q) ≡ false
      → f (suc p) ≡ node (suc q) next r
      → given (suc p) ≡ node (suc q) next (behind r 1)
  moved-second next x e = ground arith

module _ (m : Pmm) (prev q p : ℕ) (b r : Region) (xs : Cells)
    (c : Chain m.section prev ((q, b) ∷ (p, r) ∷ xs))
    (fits : r.start + r.pages * page_size < 2 ^ 63) (some_pages : 0 < r.pages) where
  abbrev Took : Type 0
  Took =
      Outcome m prev q ((q, b) ∷ (p, r) ∷ xs) (take_in b r (regions xs)) r.start
        (take_page (suc p) m)

  take_page-used : b.free ≡ section_used → b.pages < 2 ^ 63 → Took
  unfolding take_in
  take_page-used used few =
      let qp : (q == p) ≡ false = ground arith in
      let pq : (p == q) ≡ false = ground arith in
      let g = moved m.section (suc q) (suc p) b r in
      let same : SameOn xs m.section g = λ a h.
        moved-other m.section q p prev b r a (has-ne a q xs h (ground arith))
          (has-ne a p xs h c.2.1) in
      record {
        cells = (q, with_pages b (b.pages + 1)) ∷ (p, behind r 1) ∷ xs;
        after = record m { section = g };
        runs = take_page-moved m prev q p (link xs) b r qp c.0 c.2.0 used few some_pages fits;
        chain = (
          moved-first m.section q p prev b r qp c.0,
          c.1,
          (
            moved-second m.section q p prev b r (link xs) pq c.2.0,
            c.2.1,
            Chain-frame m.section g xs (suc p) same c.2.2,
          ),
        );
        content = rw used refl;
        first = refl;
        kept = λ a h busy. (moved-other m.section q p prev b r a (ground arith) (ground arith), h);
        vars = section_only m g m.section_head;
      }

  take_page-one : b.free ≢ section_used → r.pages ≡ 1 → Took
  take_page-one other one =
      subst (λ t. Outcome m prev q ((q, b) ∷ (p, r) ∷ xs) t r.start (take_page (suc p) m))
        (take_in-one b r (regions xs) other one)
        (mark-Outcome m prev q p section_used b r r.start (take_page (suc p) m) xs c
          (take_page-whole m prev q p (link xs) b r (ground arith) c.0 c.2.0 other one fits))

module _ (m : Pmm) (prev q p d : ℕ) (b r s : Region) (xs : Cells)
    (c : Chain m.section prev ((q, b) ∷ (p, r) ∷ (d, s) ∷ xs))
    (fits : r.start + r.pages * page_size < 2 ^ 63) (room : HasRoom m) where
  take_page-more :
      b.free ≢ section_used
      → 1 < r.pages
      → Outcome m prev q
          ((q, b) ∷ (p, r) ∷ (d, s) ∷ xs)
          (take_in b r (regions ((d, s) ∷ xs)))
          r.start
          (take_page (suc p) m)
  take_page-more other more =
      let cut = section_split-SplitAt m (suc q) p d 1 r s xs room c.2 fits more in
      subst (λ t. Outcome m prev q ((q, b) ∷ (p, r) ∷ (d, s) ∷ xs) t r.start (take_page (suc p) m))
        (take_in-more b r (regions ((d, s) ∷ xs)) other (λ e. absurd (omega (arith, e))))
        (cut-Outcome m prev q p section_used b r r.start (take_page (suc p) m) d 1 s xs c cut (
          take_page-cut m prev q p (suc d) b r (ground arith) c.0 c.2.0 cut.head cut.array other
            fits more cut.runs))

-- Every case of the allocation from a free section that is not the last.
pub take_page-Outcome :
    (m : Pmm) (prev q p d : ℕ) (b r s : Region) (xs : Cells)
    → Chain m.section prev ((q, b) ∷ (p, r) ∷ (d, s) ∷ xs)
    → HasRoom m
    → b.pages < 2 ^ 63
    → r.start + r.pages * page_size < 2 ^ 63
    → 0 < r.pages
    → Outcome m prev q
        ((q, b) ∷ (p, r) ∷ (d, s) ∷ xs)
        (take_in b r (regions ((d, s) ∷ xs)))
        r.start
        (take_page (suc p) m)
take_page-Outcome m prev q p d b r s xs c room few fits some_pages =
    elim (Bool-cases (b.free == section_used)) [
      | inl used ↦ take_page-used m prev q p b r ((d, s) ∷ xs) c fits some_pages (ground arith) few
      | inr other ↦ elim (Bool-cases (r.pages == 1)) [
        | inl one ↦
            take_page-one m prev q p b r ((d, s) ∷ xs) c fits some_pages (ground arith)
              (ground arith)
        | inr more ↦ take_page-more m prev q p d b r s xs c fits room (ground arith) (ground arith)
      ]
    ]
