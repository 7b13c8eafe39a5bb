-- ===== src/Pmm/Free/Runs.antt =====
-- The branches of `pmm_free_page` at a section that begins with the page.
use fenestella.Prelude.{
  ℕ, suc, ◌+◌, ◌-◌, ◌*◌, ◌^◌, ◌<◌, ◌≡◌, ◌≢◌, sym, ◌∙◌, inl, inr, false, some, arith, ◌==◌,
  Bool-cases, ==_iff, update,
}
use fenestella.Pmm.{
  Pmm, Section, section_free, page_size, u64, section_split, section_combine_next,
  section_combine_prev,
}
use fenestella.Pmm.Pages.{free_start}
use fenestella.Pmm.Chain.{Region, node}
use fenestella.Pmm.Kinds.{ne_of_test}
use fenestella.Pmm.Chain.Mark.{set_kind}

-- The page goes from `p` to `q`, the start first.
abbrev pub returned : (ℕ → Section) → ℕ → ℕ → Region → Region → ℕ → Section
returned f q p b r =
    let g1 = update f q (record (f q) { pages = b.pages + 1 }) in
    let g2 = update g1 p (record (g1 p) { start = r.start + 1 * page_size }) in
    update g2 p (record (g2 p) { pages = r.pages - 1 })

-- Sections of different kinds are not combined.
combine_next-differ :
    (m : Pmm) (p d prev next before : ℕ) (r s : Region)
    → m.section (suc p) ≡ node prev (suc d) r
    → m.section (suc d) ≡ node before next s
    → r.free ≢ s.free
    → section_combine_next (suc p) m ≡ some (tt, m)
unfolding section_combine_next
combine_next-differ m p d prev next before r s e e' ne = ground arith

combine_prev-differ :
    (m : Pmm) (p q prev next after : ℕ) (r b : Region)
    → m.section (suc p) ≡ node (suc q) next r
    → m.section (suc q) ≡ node prev after b
    → r.free ≢ b.free
    → section_combine_prev (suc p) m ≡ some (tt, m)
unfolding section_combine_prev
combine_prev-differ m p q prev next after r b e e' ne = ground arith

module _ (m : Pmm) (prev q p d next : ℕ) (b r s : Region) (qp : (q == p) ≡ false)
    (eb : m.section (suc q) ≡ node prev (suc p) b) (er : m.section (suc p) ≡ node (suc q) (suc d) r)
    (es : m.section (suc d) ≡ node (suc p) next s) where
  pub free_start-free : r.free ≡ section_free → free_start (suc p) m ≡ some (tt, m)
  unfolding free_start
  free_start-free free = ground arith

  -- A page of its own beside a free region stays as it is.
  free_start-between :
      r.free ≢ section_free
      → r.pages ≡ 1
      → b.free ≡ section_free
      → s.free ≡ section_free
      → free_start (suc p) m ≡ some (tt, m)
  unfolding free_start
  free_start-between used one before after =
      let ne : r.free ≢ s.free = λ e. used (e ∙ after) in
      let ne' : b.free ≢ r.free = λ e. used (sym e ∙ before) in
      let first = combine_next-differ m p d (suc q) next (suc p) r s er es ne in
      let second = combine_next-differ m q p prev (suc d) (suc q) b r eb er ne' in ground arith

  free_start-behind :
      r.free ≢ section_free
      → r.pages ≡ 1
      → b.free ≡ section_free
      → s.free ≢ section_free
      → free_start (suc p) m ≡ some (tt, m)
  unfolding free_start
  free_start-behind used one before after =
      let ne : r.free ≢ b.free = λ e. used (e ∙ before) in
      let shut = combine_prev-differ m p q prev (suc d) (suc p) r b er eb ne in ground arith

  pub free_start-before :
      r.free ≢ section_free
      → r.pages ≡ 1
      → b.free ≢ section_free
      → s.free ≡ section_free
      → free_start (suc p) m ≡ some (tt, m)
  unfolding free_start
  free_start-before used one before after =
      let ne : r.free ≢ s.free = λ e. used (e ∙ after) in
      let shut = combine_next-differ m p d (suc q) next (suc p) r s er es ne in ground arith

  pub free_start-left :
      r.free ≢ section_free
      → r.pages ≡ 1
      → b.free ≡ section_free
      → free_start (suc p) m ≡ some (tt, m)
  free_start-left used one before = elim (Bool-cases (s.free == section_free)) [
    | inl h ↦ free_start-between used one before ((==_iff s.free section_free).0 h)
    | inr h ↦ free_start-behind used one before (ne_of_test s.free section_free h)
  ]

  pub free_start-one :
      r.free ≢ section_free
      → r.pages ≡ 1
      → b.free ≢ section_free
      → s.free ≢ section_free
      → free_start (suc p) m
        ≡ some (tt, record m { section = set_kind m.section (suc p) section_free })
  unfolding free_start
  free_start-one used one before after = ground arith

  pub free_start-returned :
      r.free ≢ section_free
      → 1 < r.pages
      → b.free ≡ section_free
      → b.pages < 2 ^ 63
      → r.start + r.pages * page_size < 2 ^ 63
      → free_start (suc p) m
        ≡ some (tt, record m { section = returned m.section (suc q) (suc p) b r })
  unfolding free_start
  free_start-returned used more before few fits = ground arith

  pub free_start-cut :
      (head : ℕ) (array : ℕ → Section)
      → r.free ≢ section_free
      → 1 < r.pages
      → b.free ≢ section_free
      → r.start + r.pages * page_size < 2 ^ 63
      → section_split (suc p) (r.start + 1 * page_size) m
        ≡ some (tt, record m { section = array; section_head = head })
      → free_start (suc p) m
        ≡ some (tt, record m { section = set_kind array (suc p) section_free; section_head = head })
  unfolding free_start
  free_start-cut head array used more before fits split =
      let at : u64 (r.start + page_size) ≡ r.start + 1 * page_size = omega arith in ground arith
