-- ===== src/Pmm/Chain/Mark.antt =====
-- Changing the kind of a section, or of its first pages.
use fenestella.Prelude.{ℕ, suc, ◌≡◌, refl, ◌∙◌, false, some, arith, ◌==◌, update, ◌∷◌, Option}
use fenestella.Pmm.{Pmm, Section}
use fenestella.Pmm.Chain.{
  Region, Cells, link, Chain, Chain-frame, regions, with_pages, with_free, behind, SameOn, has-ne,
  update-ne,
}
use fenestella.Pmm.Chain.Outcome.{Outcome, section_only, busy-ne, node_busy, mark}
use fenestella.Pmm.Chain.Split.{SplitAt}

-- Nothing changes.
pub same-Outcome :
    {B : Type 0} (m : Pmm) (prev q : ℕ) (b : Region) (xs : Cells) (base : B)
    (run : Option (B × Pmm))
    → Chain m.section prev ((q, b) ∷ xs)
    → run ≡ some (base, m)
    → Outcome m prev q ((q, b) ∷ xs) (b ∷ regions xs) base run
same-Outcome m prev q b xs base run c e = record {
  cells = (q, b) ∷ xs;
  after = m;
  runs = e;
  chain = c;
  content = refl;
  first = refl;
  kept = λ a h used. (refl, h);
  vars = section_only m m.section m.section_head;
}

abbrev pub set_kind : (ℕ → Section) → ℕ → ℕ → ℕ → Section
set_kind f p kind = update f p (record (f p) { free = kind })

module _ {B : Type 0} (m : Pmm) (prev q p kind : ℕ) (b r : Region) (base : B)
    (run : Option (B × Pmm)) where
  pub mark-Outcome :
      (xs : Cells)
      → Chain m.section prev ((q, b) ∷ (p, r) ∷ xs)
      → run ≡ some (base, record m { section = set_kind m.section (suc p) kind })
      → Outcome m prev q ((q, b) ∷ (p, r) ∷ xs) (b ∷ with_free r kind ∷ regions xs) base run
  mark-Outcome xs c e =
      let v = record (m.section (suc p)) { free = kind } in
      let g = set_kind m.section (suc p) kind in
      let same : SameOn xs m.section g = λ a h. update-ne m.section p a v (has-ne a p xs h c.2.1) in
      record {
        cells = (q, b) ∷ (p, with_free r kind) ∷ xs;
        after = record m { section = g };
        runs = e;
        chain = (
          update-ne m.section p q v (ground arith) ∙ c.0,
          c.1,
          (
            mark m.section p (suc q) (link xs) kind r c.2.0,
            c.2.1,
            Chain-frame m.section g xs (suc p) same c.2.2,
          ),
        );
        content = refl;
        first = refl;
        kept = λ a h busy. (update-ne m.section p a v (ground arith), h);
        vars = section_only m g m.section_head;
      }

  pub cut-Outcome :
      (d k : ℕ) (s : Region) (xs : Cells)
      → Chain m.section prev ((q, b) ∷ (p, r) ∷ (d, s) ∷ xs)
      → (cut : SplitAt m (suc q) p d k r s xs)
      → run
        ≡ some
            (base, record m { section = set_kind cut.array (suc p) kind; section_head = cut.head })
      → Outcome m prev q
          ((q, b) ∷ (p, r) ∷ (d, s) ∷ xs)
          (b ∷ with_free (with_pages r k) kind ∷ behind r k ∷ s ∷ regions xs)
          base
          run
  cut-Outcome d k s xs c cut e =
      let n = cut.index in
      let v = record (cut.array (suc p)) { free = kind } in
      let g = set_kind cut.array (suc p) kind in
      let qp : (q == p) ≡ false = ground arith in
      let qd : (q == d) ≡ false = ground arith in
      let qn = busy-ne m.section q n (node_busy m.section q prev p b c.0) cut.unused in
      let rest = (n, behind r k) ∷ (d, s) ∷ xs in
      let same : SameOn rest cut.array g =
        λ a h. update-ne cut.array p a v (has-ne a p rest h cut.chain.1) in
      record {
        cells = (q, b) ∷ (p, with_free (with_pages r k) kind) ∷ rest;
        after = record m { section = g; section_head = cut.head };
        runs = e;
        chain = (
          update-ne cut.array p q v qp ∙ cut.others q qp qn qd ∙ c.0,
          ground arith,
          (
            mark cut.array p (suc q) (suc n) kind (with_pages r k) cut.chain.0,
            cut.chain.1,
            Chain-frame cut.array g rest (suc p) same cut.chain.2,
          ),
        );
        content = refl;
        first = refl;
        kept = λ a h busy.
            let an = busy-ne m.section a n busy cut.unused in
            (
              update-ne cut.array p a v (ground arith)
                  ∙ cut.others a (ground arith) an (ground arith),
              ground arith,
            );
        vars = section_only m g cut.head;
      }
