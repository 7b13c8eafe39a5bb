-- ===== src/Pmm/Free/Inside.antt =====
-- Freeing a page inside a section.
use fenestella.Prelude.{ℕ, suc, ◌+◌, ◌-◌, ◌^◌, ◌<◌, ◌≤◌, ◌≡◌, ◌≢◌, false, some, arith, ◌==◌, update}
use fenestella.Pmm.{Pmm, Section, section_free, page_size, u64, section_split}
use fenestella.Pmm.Pages.{free_inside, give_page_to_next}
use fenestella.Pmm.Chain.{Region, node, with_pages}
use fenestella.Pmm.Chain.Mark.{set_kind}

-- The last page of `p` goes to `d`.
abbrev pub lent : (ℕ → Section) → ℕ → ℕ → ℕ → Region → ℕ → Section
lent f p d k s =
    let g1 = update f d (record (f d) { start = s.start - page_size }) in
    let g2 = update g1 d (record (g1 d) { pages = s.pages + 1 }) in
    update g2 p (record (g2 p) { pages = k })

-- A single page is not cut.
split_one :
    (m : Pmm) (n prev next : ℕ) (t : Region)
    → m.section (suc n) ≡ node prev next t
    → t.pages ≡ 1
    → t.start < 2 ^ 63
    → section_split (suc n) (u64 (t.start + page_size)) m ≡ some (tt, m)
unfolding section_split
split_one m n prev next t e one low = ground arith

module _ (m : Pmm) (prev p d next page : ℕ) (k : ℕ) (r s : Region) (pd : (p == d) ≡ false)
    (er : m.section (suc p) ≡ node prev (suc d) r) (es : m.section (suc d) ≡ node (suc p) next s)
    (low : s.start < 2 ^ 63) (some_pages : k + 1 ≡ r.pages) (few : r.pages < 2 ^ 63)
    (few' : s.pages < 2 ^ 63) where
  give_page_to_next-lent :
      page_size ≤ s.start
      → give_page_to_next (suc p) m
        ≡ some (tt, record m { section = lent m.section (suc p) (suc d) k s })
  unfolding give_page_to_next
  give_page_to_next-lent big = ground arith

  pub free_inside-lent :
      page + page_size ≡ s.start
      → s.free ≡ section_free
      → free_inside (suc p) page m
        ≡ some (suc p, record m { section = lent m.section (suc p) (suc d) k s })
  unfolding free_inside
  free_inside-lent last free =
      let at : u64 (s.start + 2 ^ 64 - page_size) ≡ page = omega arith in
      ground (arith, give_page_to_next-lent)

  pub free_inside-cut :
      (n head : ℕ) (array : ℕ → Section) (t : Region)
      → page + page_size ≡ s.start
      → s.free ≢ section_free
      → section_split (suc p) page m ≡ some (tt, record m { section = array; section_head = head })
      → array (suc p) ≡ node prev (suc n) (with_pages r k)
      → array (suc n) ≡ node (suc p) (suc d) t
      → t.start ≡ page
      → t.pages ≡ 1
      → free_inside (suc p) page m
        ≡ some
            (suc n, record m { section = set_kind array (suc n) section_free; section_head = head })
  unfolding free_inside
  free_inside-cut n head array t last used split ep en start one =
      let at : u64 (s.start + 2 ^ 64 - page_size) ≡ page = omega arith in
      let small =
        split_one (record m { section = array; section_head = head }) n (suc p) (suc d) t en one
          (omega arith) in
      ground arith

module _ (m : Pmm) (prev p d before next page : ℕ) (r s : Region)
    (er : m.section (suc p) ≡ node prev (suc d) r) (es : m.section (suc d) ≡ node before next s)
    (low : s.start < 2 ^ 63) where
  pub free_inside-middle : page + page_size < s.start → free_inside (suc p) page m ≡ some (suc p, m)
  unfolding free_inside
  free_inside-middle more = ground arith
