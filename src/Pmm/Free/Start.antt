-- ===== src/Pmm/Free/Start.antt =====
-- Freeing the first page of a section.
use fenestella.Prelude.{
  ℕ, suc, ◌+◌, ◌*◌, ◌^◌, ◌<◌, ◌≡◌, refl, subst, inl, inr, false, some, List, arith, ◌==◌,
  Bool-cases, ==_iff, ◌∷◌,
}
use fenestella.Pmm.{Pmm, Section, section_free, page_size}
use fenestella.Pmm.Pages.{free_start}
use fenestella.Pmm.Chain.{
  Region, Cells, node, link, Chain, Chain-frame, regions, with_pages, behind, SameOn, has-ne,
}
use fenestella.Pmm.Kinds.{ne_of_test}
use fenestella.Pmm.Chain.Room.{HasRoom}
use fenestella.Pmm.Chain.Mark.{same-Outcome, mark-Outcome, cut-Outcome}
use fenestella.Pmm.Chain.Outcome.{Outcome, section_only}
use fenestella.Pmm.Chain.Split.{section_split-SplitAt}
use fenestella.Pmm.Free.{
  free_first, free_first-free, free_first-behind, free_first-before, free_first-one,
  free_first-returned, free_first-cut,
}
use fenestella.Pmm.Free.Runs.{
  returned, free_start-free, free_start-left, free_start-before, free_start-one,
  free_start-returned, free_start-cut,
}

module _ (f : ℕ → Section) (q p prev : ℕ) (b r : Region) where
  abbrev given : ℕ → Section
  given = returned f (suc q) (suc p) b r

  returned-other : (a : ℕ) → (a == q) ≡ false → (a == p) ≡ false → given (suc a) ≡ f (suc a)
  returned-other a x y = ground arith

  returned-first :
      (q == p) ≡ false
      → f (suc q) ≡ node prev (suc p) b
      → given (suc q) ≡ node prev (suc p) (with_pages b (b.pages + 1))
  returned-first x e = ground arith

  returned-second :
      (next : ℕ)
      → (p == q) ≡ false
      → f (suc p) ≡ node (suc q) next r
      → given (suc p) ≡ node (suc q) next (behind r 1)
  returned-second next x e = ground arith

more_of_test : (n : ℕ) → 0 < n → (n == 1) ≡ false → 1 < n
more_of_test n h e = ground arith

module _ (m : Pmm) (prev q p d : ℕ) (b r s : Region) (xs : Cells)
    (c : Chain m.section prev ((q, b) ∷ (p, r) ∷ (d, s) ∷ xs)) (few : b.pages < 2 ^ 63)
    (fits : r.start + r.pages * page_size < 2 ^ 63) (some_pages : 0 < r.pages) where
  abbrev Ends : List Region → Type 0
  Ends rs = Outcome m prev q ((q, b) ∷ (p, r) ∷ (d, s) ∷ xs) rs tt (free_start (suc p) m)

  qp : (q == p) ≡ false
  qp = ground arith

  stays : free_start (suc p) m ≡ some (tt, m) → Ends (b ∷ r ∷ s ∷ regions xs)
  stays e = same-Outcome m prev q b ((p, r) ∷ (d, s) ∷ xs) tt (free_start (suc p) m) c e

  returns :
      free_start (suc p) m
        ≡ some (tt, record m { section = returned m.section (suc q) (suc p) b r })
      → Ends (with_pages b (b.pages + 1) ∷ behind r 1 ∷ s ∷ regions xs)
  returns e =
      let g = returned m.section (suc q) (suc p) b r in
      let rest = (d, s) ∷ xs in
      let same : SameOn rest m.section g = λ a h.
        returned-other m.section q p prev b r a (has-ne a q rest h (ground arith))
          (has-ne a p rest h c.2.1) in
      record {
        cells = (q, with_pages b (b.pages + 1)) ∷ (p, behind r 1) ∷ rest;
        after = record m { section = g };
        runs = e;
        chain = (
          returned-first m.section q p prev b r qp c.0,
          c.1,
          (
            returned-second m.section q p prev b r (suc d) (ground arith) c.2.0,
            c.2.1,
            Chain-frame m.section g rest (suc p) same c.2.2,
          ),
        );
        content = refl;
        first = refl;
        kept =
            λ a h busy. (returned-other m.section q p prev b r a (ground arith) (ground arith), h);
        vars = section_only m g m.section_head;
      }

  -- Freeing the first page of a region that is neither the first nor the last.
  pub free_start-Outcome : HasRoom m → Ends (free_first b r s (regions xs))
  free_start-Outcome room =
      let rs = regions xs in
      let last = link xs in
      elim (Bool-cases (r.free == section_free)) [
        | inl f ↦
            let free = (==_iff r.free section_free).0 f in
            subst Ends (free_first-free b r s rs free)
              (stays (free_start-free m prev q p d last b r s qp c.0 c.2.0 c.2.2.0 free))
        | inr f ↦
            let used = ne_of_test r.free section_free f in
            elim (Bool-cases (r.pages == 1)) [
              | inl g ↦
                  let one = (==_iff r.pages 1).0 g in
                  elim (Bool-cases (b.free == section_free)) [
                    | inl h ↦
                        let before = (==_iff b.free section_free).0 h in
                        subst Ends (free_first-behind b r s rs used one before) (
                          stays (
                            free_start-left m prev q p d last b r s qp c.0 c.2.0 c.2.2.0 used one
                              before))
                    | inr h ↦
                        let before = ne_of_test b.free section_free h in
                        elim (Bool-cases (s.free == section_free)) [
                          | inl k ↦
                              let after = (==_iff s.free section_free).0 k in
                              subst Ends (free_first-before b r s rs used one after) (
                                stays (
                                  free_start-before m prev q p d last b r s qp c.0 c.2.0 c.2.2.0
                                    used one before after))
                          | inr k ↦
                              let after = ne_of_test s.free section_free k in
                              subst Ends (free_first-one b r s rs used one before after) (
                                mark-Outcome m prev q p section_free b r tt (free_start (suc p) m)
                                  ((d, s) ∷ xs) c
                                  (free_start-one m prev q p d last b r s qp c.0 c.2.0 c.2.2.0 used
                                    one before after))
                        ]
                  ]
              | inr g ↦
                  let more : 1 < r.pages = more_of_test r.pages some_pages g in
                  elim (Bool-cases (b.free == section_free)) [
                    | inl h ↦
                        let before = (==_iff b.free section_free).0 h in
                        subst Ends (free_first-returned b r s rs used more before) (
                          returns (
                            free_start-returned m prev q p d last b r s qp c.0 c.2.0 c.2.2.0 used
                              more before few fits))
                    | inr h ↦
                        let before = ne_of_test b.free section_free h in
                        let cut = section_split-SplitAt m (suc q) p d 1 r s xs room c.2 fits more in
                        subst Ends (free_first-cut b r s rs used more before) (
                          cut-Outcome m prev q p section_free b r tt (free_start (suc p) m) d 1 s xs
                            c cut
                            (free_start-cut m prev q p d last b r s qp c.0 c.2.0 c.2.2.0 cut.head
                              cut.array used more before fits cut.runs))
                  ]
            ]
      ]
