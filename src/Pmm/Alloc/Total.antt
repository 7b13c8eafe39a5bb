-- ===== src/Pmm/Alloc/Total.antt =====
-- kernel/src/mem/pmm/pfa.c: what `pmm_alloc_page` promises, on any list of sections that is well
-- laid out.
use fenestella.Prelude.{
  ℕ, zero, suc, ◌+◌, ◌-◌, ◌*◌, ◌^◌, ◌<◌, ◌≡◌, refl, sym, ap, subst, ◌∙◌, inl, inr, true, false,
  some, List, length, arith, ◌==◌, if◌then◌else◌, Bool-cases, ◌∷◌, [], Option,
}
use fenestella.Pmm.{Pmm, null, section_free, page_size, u64}
use fenestella.Pmm.Pages.{alloc_from, alloc_page}
use fenestella.Pmm.Chain.{Region, Cells, link, Chain, regions, alloc_in, base_in}
use fenestella.Pmm.Chain.Room.{HasRoom}
use fenestella.Pmm.Chain.Outcome.{Outcome}
use fenestella.Pmm.Kinds.{
  kind_at, marked, has_free, base_in-ge, base_in-free, base_in-none, alloc_in-none, alloc_in-kind,
  has_free-busy, kind_at-behind,
}
use fenestella.Pmm.Kinds.Shape.{Shape, StartsBusy, alloc_in-Shape, alloc_in-StartsBusy}
use fenestella.Pmm.Alloc.{alloc_from-next, alloc_from-Outcome}

-- The nodes from the first of the array on hold the regions, which cover the addresses from 0 on
-- without a gap; the first and the last region are neither empty nor free.
pub record IsPmm (m : Pmm) (rs : List Region) : Type 0 where
  pub cells : Cells
  pub content : regions cells ≡ rs
  pub chain : Chain m.section null cells
  pub first : link cells ≡ 1
  pub shape : Shape 0 rs
  pub starts : StartsBusy rs
  pub allowing : m.allowing_allocations ≡ true

-- With a free region a page of it is handed out and becomes used, and every other address keeps
-- its kind; with none the result is 0, and all keep their kind.
pub record Allocated (m : Pmm) (rs : List Region) (run : Option (ℕ × Pmm)) : Type 0 where
  pub base : ℕ
  pub after : Pmm
  pub left : List Region
  pub runs : run ≡ some (base, after)
  pub valid : IsPmm after left
  pub some_page :
      has_free rs ≡ true
      → (0 < base)
        × (kind_at base rs ≡ some section_free)
        × ((a : ℕ) → kind_at a left ≡ marked base a (kind_at a rs))
        × (after.free_memory ≡ u64 (m.free_memory + 2 ^ 64 - page_size))
  pub no_page :
      has_free rs ≡ false
      → (base ≡ 0) × ((a : ℕ) → kind_at a left ≡ kind_at a rs) × (after.free_memory ≡ m.free_memory)

abbrev debited : ℕ → Pmm → Pmm
debited base m =
    if base == 0 then m else record m { free_memory = u64 (m.free_memory + 2 ^ 64 - page_size) }

alloc_page-debited :
    (fuel base : ℕ) (m m1 : Pmm)
    → m.allowing_allocations ≡ true
    → alloc_from fuel 1 m ≡ some (base, m1)
    → alloc_page fuel m ≡ some (base, debited base m1)
unfolding alloc_page
alloc_page-debited fuel base m m1 allowing run = ground arith

-- The account is not part of the list.
debited-IsPmm : (base : ℕ) (m : Pmm) (rs : List Region) → IsPmm m rs → IsPmm (debited base m) rs
debited-IsPmm base m rs v = elim (Bool-cases (base == 0)) [
  | inl zero_base ↦ rw zero_base v
  | inr other ↦ rw other (record {
    cells = v.cells;
    content = v.content;
    chain = v.chain;
    first = v.first;
    shape = v.shape;
    starts = v.starts;
    allowing = v.allowing;
  })
]

debited-free_memory :
    (base : ℕ) (m : Pmm)
    → 0 < base
    → (debited base m).free_memory ≡ u64 (m.free_memory + 2 ^ 64 - page_size)
debited-free_memory base m h = ground arith

module _ (fuel : ℕ) (m : Pmm) (b : Region) (xs : Cells) (c : Chain m.section null ((0, b) ∷ xs))
    (shape : Shape 0 (b ∷ regions xs)) (starts : StartsBusy (b ∷ regions xs))
    (allowing : m.allowing_allocations ≡ true) (room : HasRoom m) (enough : length xs < fuel) where
  loop-Outcome :
      Outcome m null 0
        ((0, b) ∷ xs)
        (alloc_in b (regions xs))
        (base_in (regions xs))
        (alloc_from fuel (link xs) m)
  loop-Outcome = alloc_from-Outcome fuel m null 0 b xs c room shape.1 shape.2 enough

  alloc_page-Allocated : Allocated m (b ∷ regions xs) (alloc_page (suc fuel) m)
  alloc_page-Allocated =
      let o = loop-Outcome in
      let base = base_in (regions xs) in
      let l = shape.0.1 in
      let same : has_free (b ∷ regions xs) ≡ has_free (regions xs) =
        has_free-busy b (regions xs) starts.0 starts.1 in
      record {
        base = base;
        after = debited base o.after;
        left = alloc_in b (regions xs);
        runs =
            alloc_page-debited (suc fuel) base m o.after allowing
              (alloc_from-next fuel 0 m null (link xs) b c.0 starts.0 starts.1 ∙ o.runs);
        valid = debited-IsPmm base o.after (alloc_in b (regions xs)) (record {
          cells = o.cells;
          content = o.content;
          chain = o.chain;
          first = o.first;
          shape = alloc_in-Shape 0 b (regions xs) shape;
          starts = alloc_in-StartsBusy b (regions xs) starts;
          allowing = o.vars.allowing_allocations ∙ allowing;
        });
        some_page = λ h.
            let found : has_free (regions xs) ≡ true = sym same ∙ h in
            let past = base_in-ge (0 + b.pages * page_size) (regions xs) l found in
            let pos : 0 < base = omega (arith, past, starts.0) in
            (
              pos,
              kind_at-behind base b (regions xs) (omega (arith, past, shape.0.0))
                  ∙ base_in-free (0 + b.pages * page_size) (regions xs) l found,
              λ a. alloc_in-kind a 0 b (regions xs) shape.0 found,
              debited-free_memory base o.after pos
                  ∙ ap (λ t. u64 (t + 2 ^ 64 - page_size)) o.vars.free_memory,
            );
        no_page = λ h.
            let none_left : has_free (regions xs) ≡ false = sym same ∙ h in
            let zero_base = base_in-none (regions xs) none_left in
            (
              zero_base,
              λ a. alloc_in-none a b (regions xs) none_left,
              ap (λ t. (debited t o.after).free_memory) zero_base ∙ o.vars.free_memory,
            );
      }

alloc_page-cells :
    (m : Pmm) (cells : Cells) (fuel : ℕ)
    → Chain m.section null cells
    → link cells ≡ 1
    → Shape 0 (regions cells)
    → StartsBusy (regions cells)
    → m.allowing_allocations ≡ true
    → HasRoom m
    → length cells < fuel
    → Allocated m (regions cells) (alloc_page fuel m)
alloc_page-cells m [] fuel c first shape starts allowing room enough = absurd starts
alloc_page-cells m ((suc i, b) ∷ xs) fuel c first shape starts allowing room enough =
    absurd (omega arith)
alloc_page-cells m ((zero, b) ∷ xs) zero c first shape starts allowing room enough =
    absurd (omega arith)
alloc_page-cells m ((zero, b) ∷ xs) (suc fuel) c first shape starts allowing room enough =
    alloc_page-Allocated fuel m b xs c shape starts allowing room (omega arith)

length-regions : (xs : Cells) → length (regions xs) ≡ length xs
length-regions [] = refl
length-regions ((i, r) ∷ xs) = ap suc (length-regions xs)

-- On well laid out sections with room for one more, `pmm_alloc_page` ends without a fault and keeps
-- the sections well laid out. Where a section is free and not empty it returns the address of a free
-- page other than 0, that page becomes used, no other address changes its kind, and the account of
-- the free memory falls by a page; where none is it returns 0 and changes neither.
pub alloc_page-IsPmm :
    (m : Pmm) (rs : List Region) (fuel : ℕ)
    → IsPmm m rs
    → HasRoom m
    → length rs < fuel
    → Allocated m rs (alloc_page fuel m)
alloc_page-IsPmm m rs fuel v room enough =
    let few : length v.cells < fuel =
      omega (arith, length-regions v.cells, ap (length {A = Region}) v.content) in
    subst (λ t. Allocated m t (alloc_page fuel m)) v.content
      (alloc_page-cells m v.cells fuel v.chain v.first (subst (Shape 0) (sym v.content) v.shape)
        (subst StartsBusy (sym v.content) v.starts) v.allowing room few)
