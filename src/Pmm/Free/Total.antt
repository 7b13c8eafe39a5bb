-- ===== src/Pmm/Free/Total.antt =====
-- kernel/src/mem/pmm/pfa.c: what `pmm_free_page` promises, and what it does not do.
use fenestella.Prelude.{
  ℕ, zero, suc, ◌+◌, ◌%◌, ◌<◌, ◌≡◌, refl, sym, ap, subst, ◌∙◌, Bool, true, false, some, List,
  length, arith, if◌then◌else◌, ◌∷◌, [], Option,
}
use fenestella.Pmm.{Pmm, null, page_size, u64}
use fenestella.Pmm.Pages.{free_from, free_page}
use fenestella.Pmm.Chain.{Region, Cells, link, Chain, regions}
use fenestella.Pmm.Chain.Room.{HasRoom}
use fenestella.Pmm.Kinds.{kind_at}
use fenestella.Pmm.Kinds.Shape.{Shape, StartsBusy}
use fenestella.Pmm.Alloc.Total.{IsPmm}
use fenestella.Pmm.Free.{free_in}
use fenestella.Pmm.Free.Loop.{skip}
use fenestella.Pmm.Free.Search.{Full, Inner, free_from-Outcome}
use fenestella.Pmm.Free.Freed.{frees, released, free_in-kind}
use fenestella.Pmm.Free.Layout.{free_in-Shape, free_in-StartsBusy}

-- The page lies neither in the first region nor in the last.
abbrev pub Between : ℕ → List Region → Type 0
Between page [] = ⊥
Between page (b ∷ rs) = Inner page rs

-- The page is freed.
abbrev pub frees_page : ℕ → List Region → Bool
frees_page page [] = false
frees_page page (b ∷ rs) = frees page b rs

-- The function returns from within its loop.
abbrev pub returns : ℕ → List Region → Bool
returns page [] = false
returns page (b ∷ rs) = (free_in page b rs).1

pub record Freed (m : Pmm) (rs : List Region) (page : ℕ) (run : Option (Unit {0} × Pmm))
    : Type 0 where
  pub after : Pmm
  pub left : List Region
  pub runs : run ≡ some (tt, after)
  pub valid : IsPmm after left
  pub kinds : (a : ℕ) → kind_at a left ≡ released (frees_page page rs) page a (kind_at a rs)
  pub account :
      after.free_memory
      ≡ (if returns page rs then m.free_memory else u64 (m.free_memory + page_size))

abbrev credited : Bool → Pmm → Pmm
credited done m = if done then m else record m { free_memory = u64 (m.free_memory + page_size) }

free_page-credited :
    (fuel page : ℕ) (done : Bool) (m m1 : Pmm)
    → m.allowing_allocations ≡ true
    → free_from fuel page 1 m ≡ some (done, m1)
    → free_page fuel page m ≡ some (tt, credited done m1)
unfolding free_page
free_page-credited fuel page done m m1 allowing run = ground arith

credited-IsPmm :
    (done : Bool) (m : Pmm) (rs : List Region) → IsPmm m rs → IsPmm (credited done m) rs
credited-IsPmm true m rs v = v
credited-IsPmm false m rs v = record {
  cells = v.cells;
  content = v.content;
  chain = v.chain;
  first = v.first;
  shape = v.shape;
  starts = v.starts;
  allowing = v.allowing;
}

credited-free_memory :
    (done : Bool) (m m1 : Pmm)
    → m1.free_memory ≡ m.free_memory
    → (credited done m1).free_memory
      ≡ (if done then m.free_memory else u64 (m.free_memory + page_size))
credited-free_memory true m m1 e = e
credited-free_memory false m m1 e = ap (λ t. u64 (t + page_size)) e

free_page-cells :
    (m : Pmm) (cells : Cells) (page fuel : ℕ)
    → Chain m.section null cells
    → link cells ≡ 1
    → Shape 0 (regions cells)
    → StartsBusy (regions cells)
    → m.allowing_allocations ≡ true
    → HasRoom m
    → Full (regions cells)
    → Between page (regions cells)
    → page % page_size ≡ 0
    → length cells + 1 < fuel
    → Freed m (regions cells) page (free_page fuel page m)
free_page-cells m [] page fuel c first shape starts allowing room full i al enough = absurd i
free_page-cells m ((suc j, b) ∷ xs) page fuel c first shape starts allowing room full i al enough =
    absurd (omega arith)
free_page-cells m ((zero, b) ∷ xs) page zero c first shape starts allowing room full i al enough =
    absurd (omega arith)
free_page-cells m ((zero, b) ∷ []) page fuel c first shape starts allowing room full i al enough =
    absurd i
free_page-cells m ((zero, b) ∷ (p, r) ∷ []) page fuel c first shape starts allowing room full i al
      enough =
    absurd i
free_page-cells m ((zero, b) ∷ (p, r) ∷ (d, s) ∷ xs) page (suc fuel) c first shape starts allowing
      room full i al enough =
    let ys = (p, r) ∷ (d, s) ∷ xs in
    let w = free_in page b (regions ys) in
    let o =
      free_from-Outcome page 0 fuel m null 0 b ys c shape.0 shape.1 full i al (omega arith) room
        (omega arith) in
    let run =
      skip fuel page 0 p m null 1 (suc d) b r c.0 c.2.0
        (omega (arith, shape.0.0, shape.0.1.0, starts.0, i.0)) i.0 in
    record {
      after = credited w.1 o.after;
      left = w.0;
      runs = free_page-credited (suc fuel) page w.1 m o.after allowing (run ∙ o.runs);
      valid = credited-IsPmm w.1 o.after w.0 (record {
        cells = o.cells;
        content = o.content;
        chain = o.chain;
        first = o.first;
        shape = free_in-Shape page 0 b (regions ys) shape full.1 i;
        starts = free_in-StartsBusy page b (regions ys) starts;
        allowing = o.vars.allowing_allocations ∙ allowing;
      });
      kinds = λ a. free_in-kind a page 0 b (regions ys) shape.0 full.1 i al (omega arith);
      account = credited-free_memory w.1 m o.after o.vars.free_memory;
    }

length-regions : (xs : Cells) → length (regions xs) ≡ length xs
length-regions [] = refl
length-regions ((i, r) ∷ xs) = ap suc (length-regions xs)

-- On well laid out sections, none of them empty, and with room for one more, `pmm_free_page` of a
-- page between the first section and the last ends without a fault and keeps the sections well
-- laid out. The page becomes free and no other address changes its kind where the page is the first
-- or the last of several in a section that is not free, or a section of its own between two that
-- are not free; in every other case no address changes its kind. The account of the free memory
-- grows by a page just where the function does not return from within its loop.
pub free_page-IsPmm :
    (m : Pmm) (rs : List Region) (page fuel : ℕ)
    → IsPmm m rs
    → HasRoom m
    → Full rs
    → Between page rs
    → page % page_size ≡ 0
    → length rs + 1 < fuel
    → Freed m rs page (free_page fuel page m)
free_page-IsPmm m rs page fuel v room full i al enough =
    let few : length v.cells + 1 < fuel =
      omega (arith, length-regions v.cells, ap (length {A = Region}) v.content) in
    subst (λ t. Freed m t page (free_page fuel page m)) v.content
      (free_page-cells m v.cells page fuel v.chain v.first (subst (Shape 0) (sym v.content) v.shape)
        (subst StartsBusy (sym v.content) v.starts) v.allowing room
        (subst Full (sym v.content) full) (subst (Between page) (sym v.content) i) al few)
