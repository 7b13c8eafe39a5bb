-- ===== src/Pmm/Chain/Split.antt =====
-- Cutting a section in two: the second part stands in a node that was not in use.
use fenestella.Prelude.{
  ℕ, suc, ◌+◌, ◌-◌, ◌*◌, ◌^◌, ◌/◌, ◌<◌, ◌≡◌, ◌∙◌, true, false, some, arith, ◌==◌, leb, update, ◌∷◌,
}
use fenestella.Pmm.{
  Pmm, Section, is_unused, new_section, insert_after, section_split, page_size, u64,
}
use fenestella.Pmm.Chain.{
  Region, Cells, node, link, has, Chain, Chain-relink, SameOn, has-ne, with_pages, behind,
}
use fenestella.Pmm.Chain.Room.{IsUnused, HasRoom, new_section-Fresh, Chain-busy}

-- The array with node `n` linked in between `p` and `d`.
abbrev pub inserted : (ℕ → Section) → ℕ → ℕ → ℕ → ℕ → Section
inserted f p n d =
    let f1 = update f d (record (f d) { prev = n }) in
    let f2 = update f1 n (record (f1 n) { prev = p }) in
    let f3 = update f2 n (record (f2 n) { next = d }) in update f3 p (record (f3 p) { next = n })

module _ (m : Pmm) (p n d head : ℕ) (prev : ℕ) (r : Region) where
  insert_after-inserted :
      (p == d) ≡ false
      → (n == d) ≡ false
      → (p == n) ≡ false
      → m.section (suc p) ≡ node prev (suc d) r
      → new_section m ≡ some (suc n, record m { section_head = head })
      → insert_after (suc p) m
        ≡ some (
          tt,
          record m { section = inserted m.section (suc p) (suc n) (suc d); section_head = head },
        )
  unfolding insert_after
  insert_after-inserted a b c h new = ground arith

module _ (f : ℕ → Section) (p n d : ℕ) where
  abbrev linked : ℕ → Section
  linked = inserted f (suc p) (suc n) (suc d)

  linked-other :
      (a : ℕ) → (a == p) ≡ false → (a == n) ≡ false → (a == d) ≡ false → linked (suc a) ≡ f (suc a)
  linked-other a x y z = ground arith

  linked-target :
      (prev : ℕ) (r : Region)
      → (p == n) ≡ false
      → (p == d) ≡ false
      → f (suc p) ≡ node prev (suc d) r
      → linked (suc p) ≡ node prev (suc n) r
  linked-target prev r x y e = ground arith

  linked-next :
      (next : ℕ) (r : Region)
      → (d == n) ≡ false
      → (d == p) ≡ false
      → f (suc d) ≡ node (suc p) next r
      → linked (suc d) ≡ node (suc n) next r
  linked-next next r x y e = ground arith

  linked-new :
      (n == p) ≡ false
      → (n == d) ≡ false
      → ((linked (suc n)).prev ≡ suc p) × ((linked (suc n)).next ≡ suc d)
  linked-new x y = ground arith

-- The pages are divided: `k` stay in `p`, and the others go to `n`.
abbrev pub divided : (ℕ → Section) → ℕ → ℕ → ℕ → Region → ℕ → Section
divided g p n k r =
    let g1 = update g n (record (g n) { free = r.free }) in
    let g2 = update g1 n (record (g1 n) { pages = r.pages - k }) in
    let g3 = update g2 n (record (g2 n) { start = r.start + k * page_size }) in
    update g3 p (record (g3 p) { pages = k })

module _ (r : Region) (k : ℕ) (fits : r.start + r.pages * page_size < 2 ^ 63)
    (few : k < r.pages) where
  pages_behind :
      u64 (r.pages + 2 ^ 64 - u64 (r.start + k * page_size + 2 ^ 64 - r.start) / page_size)
      ≡ r.pages - k
  pages_behind = omega arith

  pages_before :
      u64 (
        r.pages
        + 2 ^ 64
        - u64 (u64 (r.start + r.pages * page_size) + 2 ^ 64 - (r.start + k * page_size))
          / page_size)
      ≡ k
  pages_before = omega arith

  before_end : leb (u64 (r.start + r.pages * page_size)) (r.start + k * page_size) ≡ false
  before_end = ground arith

  module _ (m m1 : Pmm) (p n prev next : ℕ) where
    section_split-divided :
        (p == n) ≡ false
        → m.section (suc p) ≡ node prev next r
        → insert_after (suc p) m ≡ some (tt, m1)
        → m1.section (suc p) ≡ node prev (suc n) r
        → section_split (suc p) (r.start + k * page_size) m
          ≡ some (tt, record m1 { section = divided m1.section (suc p) (suc n) k r })
    unfolding section_split
    section_split-divided a e ins e1 = ground (arith, pages_behind, pages_before, before_end)

module _ (g : ℕ → Section) (p n k : ℕ) (r : Region) where
  abbrev cut : ℕ → Section
  cut = divided g (suc p) (suc n) k r

  divided-other : (a : ℕ) → (a == p) ≡ false → (a == n) ≡ false → cut (suc a) ≡ g (suc a)
  divided-other a x y = ground arith

  divided-target :
      (prev next : ℕ)
      → (p == n) ≡ false
      → g (suc p) ≡ node prev next r
      → cut (suc p) ≡ node prev next (with_pages r k)
  divided-target prev next x e = ground arith

  divided-new :
      (prev next : ℕ)
      → (n == p) ≡ false
      → (g (suc n)).prev ≡ prev
      → (g (suc n)).next ≡ next
      → cut (suc n) ≡ node prev next (behind r k)
  divided-new prev next x e e' = ground arith

==_sym : (a b : ℕ) → (a == b) ≡ false → (b == a) ≡ false
==_sym a b h = ground arith

-- The array after a section is cut.
abbrev pub split_array : (ℕ → Section) → ℕ → ℕ → ℕ → ℕ → Region → ℕ → Section
split_array f p n d k r = divided (inserted f (suc p) (suc n) (suc d)) (suc p) (suc n) k r

module _ (f : ℕ → Section) (prev p n d k : ℕ) (r s : Region) (xs : Cells)
    (c : Chain f prev ((p, r) ∷ (d, s) ∷ xs)) (out : has n ((p, r) ∷ (d, s) ∷ xs) ≡ false) where
  split_array-other :
      (a : ℕ)
      → (a == p) ≡ false
      → (a == n) ≡ false
      → (a == d) ≡ false
      → split_array f p n d k r (suc a) ≡ f (suc a)
  split_array-other a x y z =
      divided-other (linked f p n d) p n k r a x y ∙ linked-other f p n d a x y z

  split_array-SameOn : SameOn xs f (split_array f p n d k r)
  split_array-SameOn a h =
      split_array-other a (has-ne a p xs h (ground arith)) (has-ne a n xs h (ground arith))
        (has-ne a d xs h c.2.1)

  split_array-Chain :
      Chain (split_array f p n d k r) prev ((p, with_pages r k) ∷ (n, behind r k) ∷ (d, s) ∷ xs)
  split_array-Chain =
      let np : (n == p) ≡ false = ground arith in
      let nd : (n == d) ≡ false = ground arith in
      let pd : (p == d) ≡ false = ground arith in
      let new = linked-new f p n d np nd in
      (
        divided-target (linked f p n d) p n k r prev (suc n) (==_sym n p np)
            (linked-target f p n d prev r (==_sym n p np) pd c.0),
        ground arith,
        (
          divided-new (linked f p n d) p n k r (suc p) (suc d) np new.0 new.1,
          ground arith,
          Chain-relink f (split_array f p n d k r) d s xs (suc p) (suc n)
              (divided-other (linked f p n d) p n k r d (==_sym p d pd) (==_sym n d nd)
                ∙ linked-next f p n d (link xs) s (==_sym n d nd) (==_sym p d pd) c.2.0)
              split_array-SameOn c.2,
        ),
      )

apart-unused :
    (f : ℕ → Section) (p n prev d : ℕ) (r : Region)
    → f (suc p) ≡ node prev (suc d) r
    → is_unused (f (suc n)) ≡ true
    → (n == p) ≡ false
apart-unused f p n prev d r e free = ground arith

abbrev pub Others : (ℕ → Section) → (ℕ → Section) → ℕ → ℕ → ℕ → Type 0
Others f g p n d =
    (a : ℕ) → (a == p) ≡ false → (a == n) ≡ false → (a == d) ≡ false → g (suc a) ≡ f (suc a)

-- A section is cut behind its first `k` pages.
pub record SplitAt (m : Pmm) (prev p d k : ℕ) (r s : Region) (xs : Cells) : Type 0 where
  pub index : ℕ
  pub head : ℕ
  pub array : ℕ → Section
  pub unused : IsUnused m (suc index)
  pub runs :
      section_split (suc p) (r.start + k * page_size) m
      ≡ some (tt, record m { section = array; section_head = head })
  pub chain : Chain array prev ((p, with_pages r k) ∷ (index, behind r k) ∷ (d, s) ∷ xs)
  pub others : Others m.section array p index d

pub section_split-SplitAt :
    (m : Pmm) (prev p d k : ℕ) (r s : Region) (xs : Cells)
    → HasRoom m
    → Chain m.section prev ((p, r) ∷ (d, s) ∷ xs)
    → r.start + r.pages * page_size < 2 ^ 63
    → k < r.pages
    → SplitAt m prev p d k r s xs
section_split-SplitAt m prev p d k r s xs room c fits few =
    let new = new_section-Fresh m room in
    let n = new.index in
    let busy = Chain-busy m.section p n ((d, s) ∷ xs) c.2 new.unused in
    let np : (n == p) ≡ false = apart-unused m.section p n prev d r c.0 new.unused in
    let out : has n ((p, r) ∷ (d, s) ∷ xs) ≡ false = rw np busy in
    let pd : (p == d) ≡ false = ground arith in
    let nd : (n == d) ≡ false = ground arith in
    let m1 = record m {
      section = inserted m.section (suc p) (suc n) (suc d);
      section_head = new.head;
    } in
    record {
      index = n;
      head = new.head;
      array = split_array m.section p n d k r;
      unused = new.unused;
      runs =
          section_split-divided r k fits few m m1 p n prev (suc d) (==_sym n p np) c.0
            (insert_after-inserted m p n d new.head prev r pd nd (==_sym n p np) c.0 new.gives)
            (linked-target m.section p n d prev r (==_sym n p np) pd c.0);
      chain = split_array-Chain m.section prev p n d k r s xs c out;
      others = split_array-other m.section prev p n d k r s xs c out;
    }
