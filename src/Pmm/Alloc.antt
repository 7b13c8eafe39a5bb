-- ===== src/Pmm/Alloc.antt =====
-- kernel/src/mem/pmm/pfa.c: `pmm_alloc_page` does to the nodes what `alloc_in` does to the regions.
pub mod Total
use fenestella.Prelude.{
  ℕ, zero, suc, ◌+◌, ◌-◌, ◌*◌, ◌^◌, ◌<◌, ◌≤◌, ◌≡◌, ◌≢◌, refl, sym, ap, subst, ◌∙◌, inl, inr, Bool,
  true, false, none, some, List, length, arith, ◌==◌, if◌then◌else◌, Bool-cases, ◌∷◌, [], Option,
  ==_iff,
}
use fenestella.Pmm.{
  Pmm, Section, null, section_size, section_used, section_free, is_unused, page_size, u64,
}
use fenestella.Pmm.Pages.{take_page, drop_empty, alloc_from, alloc_page}
use fenestella.Pmm.Chain.{
  Region, Cells, node, link, has, Chain, Fits, EndsBusy, regions, take_in, alloc_in, base_in,
}
use fenestella.Pmm.Kinds.{alloc_in-empty, alloc_in-take, alloc_in-next, pos_of_test, ne_of_test}
use fenestella.Pmm.Chain.Room.{IsUnused, HasRoom}
use fenestella.Pmm.Chain.Drop.{without, drop_empty-without, without-other, without-Chain}
use fenestella.Pmm.Chain.Outcome.{Outcome, Outcome-cast, next-Outcome, pages_bound}
use fenestella.Pmm.Chain.Take.{take_page-Outcome}

module _ (fuel p : ℕ) (m : Pmm) (prev next : ℕ) (r : Region)
    (e : m.section (suc p) ≡ node prev next r) where
  alloc_from-empty :
      (q nx : ℕ) (m1 : Pmm)
      → r.pages ≡ 0
      → drop_empty (suc p) m ≡ some (suc q, m1)
      → (m1.section (suc q)).next ≡ nx
      → alloc_from (suc fuel) (suc p) m ≡ alloc_from fuel nx m1
  unfolding alloc_from
  alloc_from-empty q nx m1 none_left dropped after = ground arith

  alloc_from-take :
      0 < r.pages → r.free ≡ section_free → alloc_from (suc fuel) (suc p) m ≡ take_page (suc p) m
  unfolding alloc_from
  alloc_from-take some_left free = ground arith

  pub alloc_from-next :
      0 < r.pages → r.free ≢ section_free → alloc_from (suc fuel) (suc p) m ≡ alloc_from fuel next m
  unfolding alloc_from
  alloc_from-next some_left busy = ground arith

module _ (m : Pmm) (prev q p d : ℕ) (b r s : Region) (xs : Cells)
    (c : Chain m.section prev ((q, b) ∷ (p, r) ∷ (d, s) ∷ xs)) where
  abbrev dropped : Pmm
  dropped = record m { section = without m.section (suc q) (suc p) (suc d) }

  dropped-HasRoom : HasRoom m → HasRoom dropped
  dropped-HasRoom room =
      let i = room.entry in
      let apart : (a x y : ℕ) (t : Region)
          → m.section (suc a) ≡ node (suc x) y t
          → (i == a) ≡ false =
        λ a x y t e. ground (arith, room.entry_unused) in
      let iq : (i == q) ≡ false = ground (arith, room.entry_unused) in
      record {
        head_fits = room.head_fits;
        entry = i;
        entry_fits = room.entry_fits;
        entry_unused =
            rw
              (without-other m.section p q d i iq (apart p q (suc d) r c.2.0)
                (apart d p (link xs) s c.2.2.0))
              room.entry_unused;
      }

  dropped-runs : drop_empty (suc p) m ≡ some (suc q, dropped)
  dropped-runs = drop_empty-without m p q d r (ground arith) (ground arith) (ground arith) c.2.0

  -- What a run from the shorter list leaves alone, a run from the whole list does.
  dropped-Outcome :
      {rs : List Region} {base : ℕ} {run : Option (ℕ × Pmm)}
      → Outcome dropped prev q ((q, b) ∷ (d, s) ∷ xs) rs base run
      → Outcome m prev q ((q, b) ∷ (p, r) ∷ (d, s) ∷ xs) rs base run
  dropped-Outcome o = record {
    cells = o.cells;
    after = o.after;
    runs = o.runs;
    chain = o.chain;
    content = o.content;
    first = o.first;
    kept = λ a h busy.
        let same = without-other m.section p q d a (ground arith) (ground arith) (ground arith) in
        let rest = o.kept a (ground arith) (rw same busy) in (rest.0 ∙ same, rest.1);
    vars = record {
      data_size = o.vars.data_size;
      free_memory = o.vars.free_memory;
      allowing_allocations = o.vars.allowing_allocations;
      pools = o.vars.pools;
    };
  }

-- Behind a cell that the run leaves alone.
abbrev pub RunFrom : Pmm → ℕ → ℕ → Region → Cells → Option (ℕ × Pmm) → Type 0
RunFrom m prev q b xs run =
    Outcome m prev q ((q, b) ∷ xs) (alloc_in b (regions xs)) (base_in (regions xs)) run

alloc_from-end :
    (fuel : ℕ) (m : Pmm) (prev q : ℕ) (b : Region)
    → Chain m.section prev ((q, b) ∷ [])
    → RunFrom m prev q b [] (alloc_from (suc fuel) null m)
unfolding alloc_from alloc_in base_in
alloc_from-end fuel m prev q b c = record {
  cells = (q, b) ∷ [];
  after = m;
  runs = refl;
  chain = c;
  content = refl;
  first = refl;
  kept = λ a h used. (refl, h);
  vars = record { data_size = refl; free_memory = refl; allowing_allocations = refl; pools = refl };
}

-- The loop, from behind any cell of the list.
pub alloc_from-Outcome :
    (fuel : ℕ) (m : Pmm) (prev q : ℕ) (b : Region) (xs : Cells)
    → Chain m.section prev ((q, b) ∷ xs)
    → HasRoom m
    → Fits (b ∷ regions xs)
    → EndsBusy (b ∷ regions xs)
    → length xs < fuel
    → RunFrom m prev q b xs (alloc_from fuel (link xs) m)
alloc_from-Outcome zero m prev q b xs c room fits end enough = absurd (omega arith)
alloc_from-Outcome (suc fuel) m prev q b [] c room fits end enough =
    alloc_from-end fuel m prev q b c
alloc_from-Outcome (suc fuel) m prev q b ((p, r) ∷ []) c room fits end enough =
    let rest = alloc_from-Outcome fuel m (suc q) p r [] c.2 room fits.1 end (omega arith) in
    let e = alloc_in-next b r [] end.0 end.1 in
    Outcome-cast e.0 e.1 (alloc_from-next fuel p m (suc q) null r c.2.0 end.0 end.1)
      (next-Outcome m prev q p b r [] c rest)
alloc_from-Outcome (suc fuel) m prev q b ((p, r) ∷ (d, s) ∷ xs) c room fits end enough =
    let behind = regions ((d, s) ∷ xs) in
    elim (Bool-cases (r.pages == 0)) [
      | inl empty ↦
          let m1 = dropped m prev q p d b r s xs c in
          let c1 = without-Chain m.section prev q p d b r s xs c in
          let rest =
            alloc_from-Outcome fuel m1 prev q b ((d, s) ∷ xs) c1
              (dropped-HasRoom m prev q p d b r s xs c room) (fits.0, fits.1.1) end (omega arith) in
          let e = alloc_in-empty b r behind ((==_iff r.pages 0).0 empty) in
          Outcome-cast e.0 e.1
            (alloc_from-empty fuel p m (suc q) (suc d) r c.2.0 q (suc d) m1
              ((==_iff r.pages 0).0 empty) (dropped-runs m prev q p d b r s xs c)
              (ap (λ t. t.next) c1.0))
            (dropped-Outcome m prev q p d b r s xs c rest)
      | inr full ↦ elim (Bool-cases (r.free == section_free)) [
        | inl free ↦
            let e =
              alloc_in-take b r behind (pos_of_test r.pages full)
                ((==_iff r.free section_free).0 free) in
            Outcome-cast e.0 e.1
              (alloc_from-take fuel p m (suc q) (suc d) r c.2.0 (pos_of_test r.pages full)
                ((==_iff r.free section_free).0 free))
              (take_page-Outcome m prev q p d b r s xs c room (pages_bound b fits.0) fits.1.0
                (pos_of_test r.pages full))
        | inr busy ↦
            let rest =
              alloc_from-Outcome fuel m (suc q) p r ((d, s) ∷ xs) c.2 room fits.1 end
                (omega arith) in
            let e =
              alloc_in-next b r behind (pos_of_test r.pages full)
                (ne_of_test r.free section_free busy) in
            Outcome-cast e.0 e.1
              (alloc_from-next fuel p m (suc q) (suc d) r c.2.0 (pos_of_test r.pages full)
                (ne_of_test r.free section_free busy))
              (next-Outcome m prev q p b r ((d, s) ∷ xs) c rest)
      ]
    ]
