-- ===== src/Calls/Map.antt =====
-- What a process finds after it asked for a page.
use fenestella.Prelude.{
  ℕ, suc, bit_and, bit_or, false, some, ◌≡◌, refl, sym, ◌∙◌, ap, ◌==◌, if◌then◌else◌,
}
use fenestella.Paging.Desc.{address_mask, flags_user_page, indexer_assign}
use fenestella.Paging.Table.{Space, map_page, walk_page, load_pml4}
use fenestella.Paging.Table.Keep.{IsRoute, Avoids, same_cell}
use fenestella.Paging.Table.Translate.{walk_page-map_page, map_page-pml4}
use fenestella.Calls.{pmap, pmap_virt_default}

module _ {A : Type 0} where
  pub load_pml4_self : (s : Space A) (p : ℕ) → s.pml4 ≡ p → load_pml4 p s ≡ s
  unfolding load_pml4
  load_pml4_self s p e = ap (λ t. record s { pml4 = t }) (sym e)

  pub load_pml4_twice : (s : Space A) (p q : ℕ) → load_pml4 p (load_pml4 q s) ≡ load_pml4 p s
  unfolding load_pml4
  load_pml4_twice s p q = refl

  pub load_pml4-pml4 : (s : Space A) (p : ℕ) → (load_pml4 p s).pml4 ≡ p
  unfolding load_pml4
  load_pml4-pml4 s p = refl

module _ {A : Type 0} (alloc_page : A → ℕ × A) (cr3 virt : ℕ) (s : Space A) where
  -- The frame that is handed out, where it appears, and the tables of the process at that moment.
  abbrev pub frame : ℕ
  frame = (alloc_page s.pmm).0

  abbrev pub place : ℕ
  place = if virt == pmap_virt_default then frame else virt

  abbrev pub inside : Space A
  inside = load_pml4 cr3 (record s { pmm = (alloc_page s.pmm).1 })

  pmap-map_page :
      (fuel : ℕ) (s' : Space A)
      → map_page alloc_page fuel place frame flags_user_page inside ≡ some (place, s')
      → pmap alloc_page fuel cr3 virt s ≡ some (place, load_pml4 s.pml4 s')
  unfolding pmap
  pmap-map_page fuel s' e = rw (pmap, e) refl

  inside-pml4 : inside.pml4 ≡ cr3
  inside-pml4 = load_pml4-pml4 (record s { pmm = (alloc_page s.pmm).1 }) cr3

  -- Where the tables of the process lead to the place, which is the address that it asks for, or
  -- that of the new frame for 0, without reading its last entry on the way, `pmap` ends and
  -- returns the place, the register and the allocator are as before but for the one frame that was
  -- taken, and the process finds there the new frame, joined digit by digit with what it found
  -- before; it finds at every other place with a way what it found before.
  pub pmap-walk_page :
      {pdp pd pt : ℕ}
      → IsRoute inside place pdp pd pt
      → Avoids inside place pdp pd pt (indexer_assign place).pml1
      → (fuel : ℕ)
      → (g : Space A) × (pmap alloc_page (suc fuel) cr3 virt s ≡ some (place, g))
        × (g.pml4 ≡ s.pml4)
        × (g.pmm ≡ (alloc_page s.pmm).1)
        × (walk_page (load_pml4 cr3 g) place
            ≡ bit_or (walk_page inside place) (bit_and frame address_mask))
        × ((v pdp' pd' pt' : ℕ)
            → IsRoute inside v pdp' pd' pt'
            → Avoids inside v pdp' pd' pt (indexer_assign place).pml1
            → same_cell pt (indexer_assign place).pml1 pt' (indexer_assign v).pml1 ≡ false
            → walk_page (load_pml4 cr3 g) v ≡ walk_page inside v)
  unfolding load_pml4
  pmap-walk_page r away fuel =
      let (s', e, kept, found, others) =
        walk_page-map_page alloc_page inside r frame flags_user_page away fuel in
      let top = map_page-pml4 alloc_page inside r frame flags_user_page fuel s' e in
      let back : load_pml4 cr3 (load_pml4 s.pml4 s') ≡ s' =
        load_pml4_twice s' cr3 s.pml4 ∙ load_pml4_self s' cr3 (top ∙ inside-pml4) in
      (
        load_pml4 s.pml4 s',
        pmap-map_page (suc fuel) s' e,
        refl,
        kept,
        ap (λ t. walk_page t place) back ∙ found,
        λ v pdp' pd' pt' r' away' apart.
            ap (λ t. walk_page t v) back ∙ others v pdp' pd' pt' r' away' apart,
      )
