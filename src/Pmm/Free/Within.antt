-- ===== src/Pmm/Free/Within.antt =====
-- Freeing a page inside a section: the whole run of the loop from there on.
use fenestella.Prelude.{
  ℕ, suc, ◌+◌, ◌-◌, ◌*◌, ◌^◌, ◌<◌, ◌≡◌, ◌≢◌, refl, sym, ap, subst, ◌∙◌, inl, inr, Bool, true, false,
  some, List, length, arith, ◌==◌, Bool-cases, ==_iff, ◌∷◌, Option,
}
use fenestella.Pmm.{Pmm, Section, section_free, page_size, section_split}
use fenestella.Pmm.Pages.{free_from}
use fenestella.Pmm.Chain.{
  Region, Cells, node, link, Chain, Chain-frame, regions, with_pages, with_free, behind, SameOn,
  has-ne, update-ne,
}
use fenestella.Pmm.Kinds.{ne_of_test}
use fenestella.Pmm.Chain.Room.{HasRoom}
use fenestella.Pmm.Chain.Mark.{set_kind, same-Outcome, mark-Outcome}
use fenestella.Pmm.Chain.Outcome.{Outcome, section_only, busy-ne, mark}
use fenestella.Pmm.Chain.Split.{SplitAt, section_split-SplitAt}
use fenestella.Pmm.Free.{
  free_within, free_within-free, free_within-lent, free_within-cut, free_within-middle,
}
use fenestella.Pmm.Free.Loop.{Later, at_start_free, inside_free, inside_used, free_from-Later}
use fenestella.Pmm.Free.Inside.{lent, free_inside-lent, free_inside-cut, free_inside-middle}

module _ (f : ℕ → Section) (p d k : ℕ) (s : Region) where
  abbrev given : ℕ → Section
  given = lent f (suc p) (suc d) k s

  lent-other : (a : ℕ) → (a == p) ≡ false → (a == d) ≡ false → given (suc a) ≡ f (suc a)
  lent-other a x y = ground arith

  lent-first :
      (prev : ℕ) (r : Region)
      → (p == d) ≡ false
      → f (suc p) ≡ node prev (suc d) r
      → given (suc p) ≡ node prev (suc d) (with_pages r k)
  lent-first prev r x e = ground arith

  lent-second :
      (next : ℕ)
      → (d == p) ≡ false
      → f (suc d) ≡ node (suc p) next s
      → given (suc d)
        ≡ node (suc p) next (record s { start = s.start - page_size; pages = s.pages + 1 })
  lent-second next x e = ground arith

module _ (m : Pmm) (prev p d k : ℕ) (r s : Region) (xs : Cells)
    (c : Chain m.section prev ((p, r) ∷ (d, s) ∷ xs)) where
  lent-Outcome :
      (run : Option (Bool × Pmm))
      → run ≡ some (true, record m { section = lent m.section (suc p) (suc d) k s })
      → Outcome m prev p
          ((p, r) ∷ (d, s) ∷ xs)
          (with_pages r k
            ∷ record s { start = s.start - page_size; pages = s.pages + 1 }
            ∷ regions xs)
          true
          run
  lent-Outcome run e =
      let g = lent m.section (suc p) (suc d) k s in
      let pd : (p == d) ≡ false = ground arith in
      let same : SameOn xs m.section g = λ a h.
        lent-other m.section p d k s a (has-ne a p xs h (ground arith)) (has-ne a d xs h c.2.1) in
      record {
        cells =
            (p, with_pages r k)
            ∷ (d, record s { start = s.start - page_size; pages = s.pages + 1 })
            ∷ xs;
        after = record m { section = g };
        runs = e;
        chain = (
          lent-first m.section p d k s prev r pd c.0,
          c.1,
          (
            lent-second m.section p d k s (link xs) (ground arith) c.2.0,
            c.2.1,
            Chain-frame m.section g xs (suc d) same c.2.2,
          ),
        );
        content = refl;
        first = refl;
        kept = λ a h busy. (lent-other m.section p d k s a (ground arith) (ground arith), h);
        vars = section_only m g m.section_head;
      }

  module _ (cut : SplitAt m prev p d k r s xs) where
    abbrev after_split : Pmm
    after_split = record m { section = cut.array; section_head = cut.head }

    split-Outcome :
        {rs : List Region} {base : Bool} {run : Option (Bool × Pmm)}
        → Outcome after_split prev p
            ((p, with_pages r k) ∷ (cut.index, behind r k) ∷ (d, s) ∷ xs)
            rs
            base
            run
        → Outcome m prev p ((p, r) ∷ (d, s) ∷ xs) rs base run
    split-Outcome o = record {
      cells = o.cells;
      after = o.after;
      runs = o.runs;
      chain = o.chain;
      content = o.content;
      first = o.first;
      kept = λ a h busy.
          let an = busy-ne m.section a cut.index busy cut.unused in
          let same = cut.others a (ground arith) an (ground arith) in
          let rest = o.kept a (ground arith) (rw same busy) in (rest.0 ∙ same, rest.1);
      vars = record {
        data_size = o.vars.data_size;
        free_memory = o.vars.free_memory;
        allowing_allocations = o.vars.allowing_allocations;
        pools = o.vars.pools;
      };
    }

-- A page inside the region: behind its first `k` pages, of which there is at least one.
module _ (m : Pmm) (prev p d k page fuel : ℕ) (r s : Region) (xs : Cells)
    (c : Chain m.section prev ((p, r) ∷ (d, s) ∷ xs)) (here : page ≡ r.start + k * page_size)
    (inner : 0 < k) (within : k < r.pages) (meets : s.start ≡ r.start + r.pages * page_size)
    (fits : r.start + r.pages * page_size < 2 ^ 63) (fits' : s.start + s.pages * page_size < 2 ^ 63)
    (later : Later page (regions xs)) (enough : length xs + 2 < fuel) where
  abbrev run : Option (Bool × Pmm)
  run = free_from (suc fuel) page (suc p) m

  abbrev Ends : List Region × Bool → Type 0
  Ends w = Outcome m prev p ((p, r) ∷ (d, s) ∷ xs) w.0 w.1 run

  behind_start : r.start < page
  behind_start = omega arith

  before_next : page < s.start
  before_next = omega arith

  stays : (result : Bool) → run ≡ some (result, m) → Ends (r ∷ s ∷ regions xs, result)
  stays result e = same-Outcome m prev p r ((d, s) ∷ xs) result run c e

  within-lent :
      r.free ≢ section_free
      → k + 1 ≡ r.pages
      → s.free ≡ section_free
      → run ≡ some (true, record m { section = lent m.section (suc p) (suc d) k s })
  within-lent used last free =
      let pd : (p == d) ≡ false = ground arith in
      let s' = record s { start = s.start - page_size; pages = s.pages + 1 } in
      let m1 = record m { section = lent m.section (suc p) (suc d) k s } in
      let ed = lent-second m.section p d k s (link xs) (ground arith) c.2.0 in
      let ep = lent-first m.section p d k s prev r pd c.0 in
      let lend =
        free_inside-lent m prev p d (link xs) page k r s pd c.0 c.2.0 (omega arith) last
          (omega arith) (omega arith) (omega arith) free in
      inside_used fuel page p d m prev (suc p) (link xs) r s c.0 c.2.0 behind_start p (suc d) m1
        before_next used lend (ap (λ t. t.next) ep)
      ∙ at_start_free fuel page d m1 (suc p) (link xs) s' ed (omega arith) free (omega arith)

  within-cut :
      r.free ≢ section_free
      → k + 1 ≡ r.pages
      → s.free ≢ section_free
      → HasRoom m
      → Ends (with_pages r k ∷ with_free (behind r k) section_free ∷ s ∷ regions xs, false)
  within-cut used last other room =
      let cut = section_split-SplitAt m prev p d k r s xs room c fits within in
      let n = cut.index in
      let m1 = after_split m prev p d k r s xs c cut in
      let v = record (cut.array (suc n)) { free = section_free } in
      let m2 = record m1 { section = set_kind cut.array (suc n) section_free } in
      let en = mark cut.array n (suc p) (suc d) section_free (behind r k) cut.chain.2.0 in
      let same : SameOn ((d, s) ∷ xs) cut.array m2.section =
        λ a h. update-ne cut.array n a v (has-ne a n ((d, s) ∷ xs) h cut.chain.2.1) in
      let rest = Chain-frame cut.array m2.section ((d, s) ∷ xs) (suc n) same cut.chain.2.2 in
      let split = subst (λ t. section_split (suc p) t m ≡ some (tt, m1)) (sym here) cut.runs in
      let freed =
        free_inside-cut m prev p d (link xs) page k r s (ground arith) c.0 c.2.0 (omega arith) last
          (omega arith) (omega arith) n cut.head cut.array (behind r k) (omega arith) other split
          cut.chain.0 cut.chain.2.0 (sym here) (omega arith) in
      split-Outcome m prev p d k r s xs c cut (
        mark-Outcome m1 prev p n section_free (with_pages r k) (behind r k) false run ((d, s) ∷ xs)
          cut.chain
          (inside_used fuel page p d m prev (suc p) (link xs) r s c.0 c.2.0 behind_start n (suc d)
              m2 before_next used freed (ap (λ t. t.next) en)
            ∙ free_from-Later fuel page (suc n) m2 ((d, s) ∷ xs) rest (before_next, later)
                (omega arith)))

  within-middle : r.free ≢ section_free → k + 1 ≢ r.pages → run ≡ some (false, m)
  within-middle used more =
      let left =
        free_inside-middle m prev p d (suc p) (link xs) page r s c.0 c.2.0 (omega arith)
          (omega arith) in
      inside_used fuel page p d m prev (suc p) (link xs) r s c.0 c.2.0 behind_start p (suc d) m
        before_next used left (ap (λ t. t.next) c.0)
      ∙ free_from-Later fuel page (suc p) m ((d, s) ∷ xs) c.2 (before_next, later) (omega arith)

  -- Freeing a page that is not the first of its region.
  pub free_within-Outcome : HasRoom m → Ends (free_within k r s (regions xs))
  free_within-Outcome room =
      let rs = regions xs in
      elim (Bool-cases (r.free == section_free)) [
        | inl f ↦
            let free = (==_iff r.free section_free).0 f in
            subst Ends (free_within-free k r s rs free) (
              stays true (
                inside_free fuel page p d m prev (suc p) (link xs) r s c.0 c.2.0 behind_start
                  before_next free))
        | inr f ↦
            let used = ne_of_test r.free section_free f in
            elim (Bool-cases (k + 1 == r.pages)) [
              | inl g ↦
                  let last = (==_iff (k + 1) r.pages).0 g in
                  elim (Bool-cases (s.free == section_free)) [
                    | inl h ↦
                        let free = (==_iff s.free section_free).0 h in
                        subst Ends (free_within-lent k r s rs used last free)
                          (lent-Outcome m prev p d k r s xs c run (within-lent used last free))
                    | inr h ↦
                        let other = ne_of_test s.free section_free h in
                        subst Ends (free_within-cut k r s rs used last other)
                          (within-cut used last other room)
                  ]
              | inr g ↦
                  let more = ne_of_test (k + 1) r.pages g in
                  subst Ends (free_within-middle k r s rs used more)
                    (stays false (within-middle used more))
            ]
      ]
