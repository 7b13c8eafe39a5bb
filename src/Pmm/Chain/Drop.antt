-- ===== src/Pmm/Chain/Drop.antt =====
-- Taking a section without pages out of the list.
use fenestella.Prelude.{ℕ, suc, ◌≡◌, false, some, arith, ◌==◌, update, ◌∷◌}
use fenestella.Pmm.{Pmm, Section, null}
use fenestella.Pmm.Pages.{drop_empty}
use fenestella.Pmm.Chain.{Region, Cells, node, link, has, Chain, Chain-relink, SameOn, has-ne}

abbrev cleared : Section
cleared = record { prev = null; next = null; start = 0; pages = 0; free = 0 }

-- The array without the section `p`, which stands between `q` and `d`.
abbrev pub without : (ℕ → Section) → ℕ → ℕ → ℕ → ℕ → Section
without f q p d =
    update (update (update f d (record (f d) { prev = q })) q (record (f q) { next = d })) p cleared

module _ (m : Pmm) (p q d : ℕ) (r : Region) where
  pub drop_empty-without :
      (p == d) ≡ false
      → (q == d) ≡ false
      → (p == q) ≡ false
      → m.section (suc p) ≡ node (suc q) (suc d) r
      → drop_empty (suc p) m
        ≡ some (suc q, record m { section = without m.section (suc q) (suc p) (suc d) })
  unfolding drop_empty
  drop_empty-without a b c h = ground arith

module _ (f : ℕ → Section) (p q d : ℕ) where
  pub without-other :
      (a : ℕ)
      → (a == q) ≡ false
      → (a == p) ≡ false
      → (a == d) ≡ false
      → without f (suc q) (suc p) (suc d) (suc a) ≡ f (suc a)
  without-other a x y z = ground arith

  without-next :
      (x : ℕ) (s : Region)
      → (d == q) ≡ false
      → (d == p) ≡ false
      → f (suc d) ≡ node (suc p) x s
      → without f (suc q) (suc p) (suc d) (suc d) ≡ node (suc q) x s
  without-next x s y z e = ground arith

  without-SameOn :
      (xs : Cells)
      → has q xs ≡ false
      → has p xs ≡ false
      → has d xs ≡ false
      → SameOn xs f (without f (suc q) (suc p) (suc d))
  without-SameOn xs x y z a h =
      without-other a (has-ne a q xs h x) (has-ne a p xs h y) (has-ne a d xs h z)

module _ (f : ℕ → Section) (prev q p d : ℕ) (b r s : Region) (xs : Cells)
    (c : Chain f prev ((q, b) ∷ (p, r) ∷ (d, s) ∷ xs)) where
  pub without-Chain : Chain (without f (suc q) (suc p) (suc d)) prev ((q, b) ∷ (d, s) ∷ xs)
  without-Chain = (
    ground arith,
    ground arith,
    Chain-relink f (without f (suc q) (suc p) (suc d)) d s xs (suc p) (suc q)
        (without-next f p q d (link xs) s (ground arith) (ground arith) c.2.2.0)
        (without-SameOn f p q d xs (ground arith) (ground arith) c.2.2.1) c.2.2,
  )
