-- ===== src/Pmm/Chain/Outcome.antt =====
-- What a run of an operation on a part of the list ends with.
use fenestella.Prelude.{
  ℕ, suc, ◌+◌, ◌*◌, ◌^◌, ◌<◌, ◌≡◌, refl, sym, ap, ◌∙◌, true, false, some, List, arith, ◌==◌, update,
  ◌∷◌, Option,
}
use fenestella.Pmm.{Pmm, Section, is_unused, page_size}
use fenestella.Pmm.Chain.{Region, Cells, node, link, has, Chain, regions, with_free}

-- What an operation on a section leaves alone.
pub record SameVars (m g : Pmm) : Type 0 where
  pub data_size : g.data_size ≡ m.data_size
  pub free_memory : g.free_memory ≡ m.free_memory
  pub allowing_allocations : g.allowing_allocations ≡ m.allowing_allocations
  pub pools : g.pools ≡ m.pools

-- A run from the cells `xs`, the first of which is `q`, ends with the regions `rs` and a result;
-- the nodes in use elsewhere stay as they are and outside of the list.
pub record Outcome {B : Type 0} (m : Pmm) (prev q : ℕ) (xs : Cells) (rs : List Region) (base : B)
    (run : Option (B × Pmm)) : Type 0 where
  pub cells : Cells
  pub after : Pmm
  pub runs : run ≡ some (base, after)
  pub chain : Chain after.section prev cells
  pub content : regions cells ≡ rs
  pub first : link cells ≡ suc q
  pub kept :
      (a : ℕ)
      → has a xs ≡ false
      → is_unused (m.section (suc a)) ≡ false
      → (after.section (suc a) ≡ m.section (suc a)) × (has a cells ≡ false)
  pub vars : SameVars m after

pub section_only :
    (m : Pmm) (f : ℕ → Section) (head : ℕ)
    → SameVars m (record m { section = f; section_head = head })
section_only m f head = record {
  data_size = refl;
  free_memory = refl;
  allowing_allocations = refl;
  pools = refl;
}

-- A node that has a link is not the one that was not in use.
pub busy-ne :
    (f : ℕ → Section) (a n : ℕ)
    → is_unused (f (suc a)) ≡ false
    → is_unused (f (suc n)) ≡ true
    → (a == n) ≡ false
busy-ne f a n busy free = ground arith

pub node_busy :
    (f : ℕ → Section) (q prev p : ℕ) (b : Region)
    → f (suc q) ≡ node prev (suc p) b
    → is_unused (f (suc q)) ≡ false
node_busy f q prev p b e = ground arith

pub mark :
    (f : ℕ → Section) (p prev next kind : ℕ) (r : Region)
    → f (suc p) ≡ node prev next r
    → update f (suc p) (record (f (suc p)) { free = kind }) (suc p)
      ≡ node prev next (with_free r kind)
mark f p prev next kind r e = ground arith

pub Outcome-cast :
    {B : Type 0} {m : Pmm} {prev q : ℕ} {xs : Cells} {rs rs' : List Region} {base base' : B}
    {run run' : Option (B × Pmm)}
    → rs ≡ rs'
    → base ≡ base'
    → run' ≡ run
    → Outcome m prev q xs rs base run
    → Outcome m prev q xs rs' base' run'
Outcome-cast e b h o = record {
  cells = o.cells;
  after = o.after;
  runs = h ∙ o.runs ∙ ap (λ t. some (t, o.after)) b;
  chain = o.chain;
  content = o.content ∙ e;
  first = o.first;
  kept = o.kept;
  vars = o.vars;
}

module _ (m : Pmm) (prev q p : ℕ) (b r : Region) (xs : Cells)
    (c : Chain m.section prev ((q, b) ∷ (p, r) ∷ xs)) where
  pub next-Outcome :
      {B : Type 0} {rs : List Region} {base : B} {run : Option (B × Pmm)}
      → Outcome m (suc q) p ((p, r) ∷ xs) rs base run
      → Outcome m prev q ((q, b) ∷ (p, r) ∷ xs) (b ∷ rs) base run
  next-Outcome o =
      let kept = o.kept q c.1 (node_busy m.section q prev p b c.0) in
      record {
        cells = (q, b) ∷ o.cells;
        after = o.after;
        runs = o.runs;
        chain = (kept.0 ∙ c.0 ∙ ap (λ t. node prev t b) (sym o.first), kept.1, o.chain);
        content = ap (λ (t : List Region). b ∷ t) o.content;
        first = refl;
        kept =
            λ a h used. let rest = o.kept a (ground arith) used in (rest.0, ground (arith, rest.1));
        vars = o.vars;
      }

pub pages_bound : (b : Region) → b.start + b.pages * page_size < 2 ^ 63 → b.pages < 2 ^ 63
pages_bound b h = omega arith
