-- ===== src/Pmm/Free.antt =====
-- kernel/src/mem/pmm/pfa.c: what `pmm_free_page` does to the regions.
pub mod Runs
pub mod Start
pub mod Loop
pub mod Inside
pub mod Within
pub mod Search
pub mod Freed
pub mod Layout
pub mod Total
use fenestella.Prelude.{
  ℕ, zero, suc, ◌+◌, ◌-◌, ◌*◌, ◌/◌, ◌^◌, ◌<◌, ◌≤◌, ◌≡◌, ◌≢◌, refl, sym, ap, subst, ◌∙◌, inl, inr,
  Bool, true, false, ◌||◌, none, some, List, length, arith, ◌==◌, ltb, if◌then◌else◌, Bool-cases,
  ==_iff, update, ◌∷◌, [], Option,
}
use fenestella.Pmm.{
  Pmm, Section, null, section_used, section_free, page_size, u64, section_split,
  section_combine_next, section_combine_prev,
}
use fenestella.Pmm.Pages.{free_start, free_inside, free_from, give_page_to_next}
use fenestella.Pmm.Chain.{
  Region, Cells, node, link, has, Chain, Chain-frame, regions, with_pages, with_free, behind,
  SameOn, has-ne, update-ne,
}
use fenestella.Pmm.Kinds.{ne_of_test}
use fenestella.Pmm.Chain.Room.{HasRoom}
use fenestella.Pmm.Chain.Mark.{set_kind, same-Outcome, mark-Outcome, cut-Outcome}
use fenestella.Pmm.Chain.Outcome.{Outcome, Outcome-cast, next-Outcome, section_only}
use fenestella.Pmm.Chain.Split.{SplitAt, section_split-SplitAt}

-- What freeing does where the page is the first of the region `r`. A page of its own beside a free
-- region is not freed.
unfoldable pub free_first : Region → Region → Region → List Region → List Region
free_first b r s rs =
    if r.free == section_free
    then b ∷ r ∷ s ∷ rs
    else if r.pages == 1
    then if b.free == section_free || s.free == section_free
      then b ∷ r ∷ s ∷ rs
      else b ∷ with_free r section_free ∷ s ∷ rs
    else if b.free == section_free
    then with_pages b (b.pages + 1) ∷ behind r 1 ∷ s ∷ rs
    else b ∷ with_free (with_pages r 1) section_free ∷ behind r 1 ∷ s ∷ rs

module _ (b r s : Region) (rs : List Region) where
  pub free_first-free : r.free ≡ section_free → b ∷ r ∷ s ∷ rs ≡ free_first b r s rs
  unfolding free_first
  free_first-free f = ground arith

  module _ (used : r.free ≢ section_free) where
    pub free_first-behind :
        r.pages ≡ 1 → b.free ≡ section_free → b ∷ r ∷ s ∷ rs ≡ free_first b r s rs
    unfolding free_first
    free_first-behind one before = ground arith

    pub free_first-before :
        r.pages ≡ 1 → s.free ≡ section_free → b ∷ r ∷ s ∷ rs ≡ free_first b r s rs
    unfolding free_first
    free_first-before one after = ground arith

    pub free_first-one :
        r.pages ≡ 1
        → b.free ≢ section_free
        → s.free ≢ section_free
        → b ∷ with_free r section_free ∷ s ∷ rs ≡ free_first b r s rs
    unfolding free_first
    free_first-one one before after = ground arith

    pub free_first-returned :
        1 < r.pages
        → b.free ≡ section_free
        → with_pages b (b.pages + 1) ∷ behind r 1 ∷ s ∷ rs ≡ free_first b r s rs
    unfolding free_first
    free_first-returned more before = ground arith

    pub free_first-cut :
        1 < r.pages
        → b.free ≢ section_free
        → b ∷ with_free (with_pages r 1) section_free ∷ behind r 1 ∷ s ∷ rs ≡ free_first b r s rs
    unfolding free_first
    free_first-cut more before = ground arith

-- What freeing does where the page is the one behind the first `k` of the region `r`, and whether
-- it returns then: only the last page of a region is freed.
unfoldable pub free_within : ℕ → Region → Region → List Region → List Region × Bool
free_within k r s rs =
    if r.free == section_free
    then (r ∷ s ∷ rs, true)
    else if k + 1 == r.pages
    then if s.free == section_free
      then (
        with_pages r k ∷ record s { start = s.start - page_size; pages = s.pages + 1 } ∷ rs,
        true,
      )
      else (with_pages r k ∷ with_free (behind r k) section_free ∷ s ∷ rs, false)
    else (r ∷ s ∷ rs, false)

module _ (k : ℕ) (r s : Region) (rs : List Region) where
  pub free_within-free : r.free ≡ section_free → (r ∷ s ∷ rs, true) ≡ free_within k r s rs
  unfolding free_within
  free_within-free f = ground arith

  module _ (used : r.free ≢ section_free) where
    pub free_within-lent :
        k + 1 ≡ r.pages
        → s.free ≡ section_free
        → (
          with_pages r k ∷ record s { start = s.start - page_size; pages = s.pages + 1 } ∷ rs,
          true,
        )
          ≡ free_within k r s rs
    unfolding free_within
    free_within-lent last free = ground arith

    pub free_within-cut :
        k + 1 ≡ r.pages
        → s.free ≢ section_free
        → (with_pages r k ∷ with_free (behind r k) section_free ∷ s ∷ rs, false)
          ≡ free_within k r s rs
    unfolding free_within
    free_within-cut last other = ground arith

    pub free_within-middle : k + 1 ≢ r.pages → (r ∷ s ∷ rs, false) ≡ free_within k r s rs
    unfolding free_within
    free_within-middle more = ground arith

abbrev pub push : Region → List Region × Bool → List Region × Bool
push b w = (b ∷ w.0, w.1)

-- What freeing does at the region `r`, which stands between `b` and `s`, and whether it returns.
unfoldable pub free_region : ℕ → Region → Region → Region → List Region → List Region × Bool
unfolding free_first free_within
free_region k b r s rs =
    if k == 0 then (free_first b r s rs, true) else push b (free_within k r s rs)

-- What freeing a page does to the regions from `b` on, where the page lies behind `b`.
unfoldable pub free_in : ℕ → Region → List Region → List Region × Bool
free_in page b [] = (b ∷ [], false)
free_in page b (r ∷ []) = (b ∷ r ∷ [], false)
free_in page b (r ∷ s ∷ rs) =
    if ltb page s.start
    then free_region ((page - r.start) / page_size) b r s rs
    else push b (free_in page r (s ∷ rs))
