-- ===== src/Paging/Table/Translate.antt =====
-- What mapping and unmapping a page do to the translation of addresses, where the tables on the
-- way exist.
use fenestella.Prelude.{
  ℕ, suc, ◌<◌, bit_and, bit_or, true, false, none, some, ◌∷◌, ◌≡◌, refl, sym, subst, ◌∙◌, ap, arith,
  M, ◌>>=◌, bind_some,
}
use fenestella.Bits.{bit_and_ones}
use fenestella.Paging.Desc.{address_mask, desc_get_address, desc_set_address, indexer_assign}
use fenestella.Paging.Desc.Laws.{
  get_address-set_address, get_address-set_present, get_address-set_flags,
}
use fenestella.Paging.Table.{
  Space, present, next_table, walk_page, write_entry, leaf_entry, enter_table, descend, map_page,
  unmap_page,
}
use fenestella.Paging.Table.Keep.{
  same_cell, IsRoute, Avoids, SameWays, SameWaysBut, SameWays-or_flags, IsRoute-same, IsRoute-ways,
  leaf_table-route, walk_page-route,
}

pub get_address-leaf_entry :
    (pde phys flags : ℕ)
    → flags < 4096
    → desc_get_address (leaf_entry pde phys flags)
      ≡ bit_or (desc_get_address pde) (bit_and phys address_mask)
unfolding leaf_entry
get_address-leaf_entry pde phys flags small =
    get_address-set_flags _ flags small
    ∙ get_address-set_present (desc_set_address pde phys)
    ∙ get_address-set_address pde phys

pub write_entry_self : (f : ℕ → ℕ → ℕ) (t i d : ℕ) → write_entry f t i d t i ≡ d
unfolding write_entry
write_entry_self f t i d = ground arith

module _ {A : Type 0} where
  -- The state after the flags were added to entry `i` of table `t`.
  abbrev pub add_flags : Space A → ℕ → ℕ → ℕ → Space A
  add_flags s t i f = record s { table = write_entry s.table t i (bit_or (s.table t i) f) }

  pub next_table-present :
      (s : Space A) (t i : ℕ) {q : ℕ}
      → next_table s t i ≡ some q
      → (present (s.table t i) ≡ true) × (desc_get_address (s.table t i) ≡ q)
  unfolding next_table
  next_table-present s t i e = ground arith

  enter_table-route :
      (alloc_page : A → ℕ × A) (self : ℕ → M (Space A) (Unit {0})) (f t i : ℕ) (s : Space A) {q : ℕ}
      → next_table s t i ≡ some q
      → enter_table alloc_page self f t i s ≡ some (q, add_flags s t i f)
  unfolding enter_table
  enter_table-route alloc_page self f t i s e =
      let (here, to) = next_table-present s t i e in rw (here, enter_table) (rw to)

  pub add_flags-IsRoute :
      (s : Space A) (t i f : ℕ) {q virt pdp pd pt : ℕ}
      → f < 4096
      → next_table s t i ≡ some q
      → IsRoute s virt pdp pd pt
      → IsRoute (add_flags s t i f) virt pdp pd pt
  add_flags-IsRoute s t i f small e r =
      IsRoute-ways refl (SameWays-or_flags s.table t i f small (next_table-present s t i e).0) r

module _ {A : Type 0} (alloc_page : A → ℕ × A) (s : Space A) {virt pdp pd pt : ℕ}
    (r : IsRoute s virt pdp pd pt) (phys flags : ℕ) where
  -- The three entries on the way with the flags added, from the top down.
  abbrev f : ℕ
  f = bit_and flags 0x0fff

  f-lt : f < 4096
  f-lt = omega (arith, bit_and_ones 12 flags)

  abbrev s4 : Space A
  s4 = add_flags s s.pml4 (indexer_assign virt).pml4 f

  abbrev s3 : Space A
  s3 = add_flags s4 pdp (indexer_assign virt).pml3 f

  abbrev s2 : Space A
  s2 = add_flags s3 pd (indexer_assign virt).pml2 f

  abbrev s1 : Space A
  s1 = record s2 {
    table =
        write_entry s2.table pt (indexer_assign virt).pml1
          (leaf_entry (s2.table pt (indexer_assign virt).pml1) phys f);
  }

  r4 : IsRoute s4 virt pdp pd pt
  r4 = add_flags-IsRoute s _ _ f f-lt r.enter4 r

  r3 : IsRoute s3 virt pdp pd pt
  r3 = add_flags-IsRoute s4 _ _ f f-lt r4.enter3 r4

  r2 : IsRoute s2 virt pdp pd pt
  r2 = add_flags-IsRoute s3 _ _ f f-lt r3.enter2 r3

  descend-steps :
      (self : ℕ → M (Space A) (Unit {0})) → descend alloc_page self f virt s ≡ some (pt, s2)
  unfolding descend
  descend-steps self =
      bind_some (enter_table alloc_page self f s.pml4 (indexer_assign virt).pml4)
        (λ t. enter_table alloc_page self f t (indexer_assign virt).pml3 >>= λ u.
          enter_table alloc_page self f u (indexer_assign virt).pml2)
        s (enter_table-route alloc_page self f _ _ s r.enter4)
      ∙ bind_some (enter_table alloc_page self f pdp (indexer_assign virt).pml3)
          (λ u. enter_table alloc_page self f u (indexer_assign virt).pml2) s4
          (enter_table-route alloc_page self f _ _ s4 r4.enter3)
      ∙ enter_table-route alloc_page self f _ _ s3 r3.enter2

  map_page-steps : (fuel : ℕ) → map_page alloc_page (suc fuel) virt phys flags s ≡ some (virt, s1)
  unfolding map_page
  map_page-steps fuel = rw (descend-steps, map_page)

  pub map_page-pml4 :
      (fuel : ℕ) (s' : Space A)
      → map_page alloc_page (suc fuel) virt phys flags s ≡ some (virt, s')
      → s'.pml4 ≡ s.pml4
  map_page-pml4 fuel s' e =
      ap (λ o. elim o as (λ x. ℕ) [ none ↦ s.pml4 | some (_, t) ↦ t.pml4 ])
        (sym e ∙ map_page-steps fuel)

  -- Every entry keeps its address and present flag, but for the leaf.
  ways : SameWays s.table s2.table
  ways t i =
      let a = SameWays-or_flags s.table _ _ f f-lt (next_table-present s _ _ r.enter4).0 t i in
      let b = SameWays-or_flags s4.table _ _ f f-lt (next_table-present s4 _ _ r4.enter3).0 t i in
      let c = SameWays-or_flags s3.table _ _ f f-lt (next_table-present s3 _ _ r3.enter2).0 t i in
      (c.0 ∙ b.0 ∙ a.0, c.1 ∙ b.1 ∙ a.1)

  ways_but : SameWaysBut pt (indexer_assign virt).pml1 s.table s1.table
  unfolding write_entry
  ways_but t i apart = rw apart (ways t i)

  pub map_page-IsRoute :
      (fuel : ℕ) (s' : Space A)
      → map_page alloc_page (suc fuel) virt phys flags s ≡ some (virt, s')
      → {v pdp' pd' pt' : ℕ} → IsRoute s v pdp' pd' pt'
      → Avoids s v pdp' pd' pt (indexer_assign virt).pml1
      → IsRoute s' v pdp' pd' pt'
  map_page-IsRoute fuel s' e {v} {pdp'} {pd'} {pt'} r' away' =
      subst
        (λ o. elim o as (λ x. Type 0) [
          | none ↦ IsRoute s v pdp' pd' pt'
          | some (_, t) ↦ IsRoute t v pdp' pd' pt'
        ])
        (sym (map_page-steps fuel) ∙ e) (IsRoute-same _ _ refl ways_but r' away')

  new_leaf :
      desc_get_address (s1.table pt (indexer_assign virt).pml1)
      ≡ bit_or
          (desc_get_address (s.table pt (indexer_assign virt).pml1))
          (bit_and phys address_mask)
  new_leaf =
      ap desc_get_address (write_entry_self s2.table pt (indexer_assign virt).pml1 _)
      ∙ get_address-leaf_entry (s2.table pt (indexer_assign virt).pml1) phys f f-lt
      ∙ ap (λ (t : ℕ). bit_or t (bit_and phys address_mask)) (ways pt (indexer_assign virt).pml1).0

  -- Where the three tables on the way exist and the entry of the last level is none of those
  -- read on the way, mapping succeeds without a call of the allocator, the walk then gives the
  -- address of `phys` joined digit by digit with what the entry held before, and the walk to any
  -- other entry gives what it gave before.
  pub walk_page-map_page :
      Avoids s virt pdp pd pt (indexer_assign virt).pml1
      → (fuel : ℕ)
      → (s' : Space A) × (map_page alloc_page (suc fuel) virt phys flags s ≡ some (virt, s'))
        × (s'.pmm ≡ s.pmm)
        × (walk_page s' virt ≡ bit_or (walk_page s virt) (bit_and phys address_mask))
        × ((v pdp' pd' pt' : ℕ)
            → IsRoute s v pdp' pd' pt'
            → Avoids s v pdp' pd' pt (indexer_assign virt).pml1
            → same_cell pt (indexer_assign virt).pml1 pt' (indexer_assign v).pml1 ≡ false
            → walk_page s' v ≡ walk_page s v)
  walk_page-map_page away fuel = (
    s1,
    map_page-steps fuel,
    refl,
    walk_page-route (IsRoute-same _ _ refl ways_but r away)
        ∙ new_leaf
        ∙ ap (λ (t : ℕ). bit_or t (bit_and phys address_mask)) (sym (walk_page-route r)),
    λ v pdp' pd' pt' r' away' apart.
        walk_page-route (IsRoute-same _ _ refl ways_but r' away')
        ∙ (ways_but _ _ apart).0
        ∙ sym (walk_page-route r'),
  )

module _ {A : Type 0} (s : Space A) {virt pdp pd pt : ℕ} (r : IsRoute s virt pdp pd pt)
    (away : Avoids s virt pdp pd pt (indexer_assign virt).pml1) where
  abbrev i1 : ℕ
  i1 = (indexer_assign virt).pml1

  abbrev cleared : Space A
  cleared = record s { table = write_entry s.table pt i1 0; flushed = virt ∷ s.flushed }

  unmap_page-route : unmap_page virt s ≡ cleared
  unfolding unmap_page
  unmap_page-route = rw (leaf_table-route r, unmap_page)

  cleared_but : SameWaysBut pt i1 s.table cleared.table
  unfolding write_entry
  cleared_but t i apart = rw apart (refl, refl)

  cleared_leaf : desc_get_address (cleared.table pt i1) ≡ 0
  unfolding desc_get_address
  cleared_leaf = ap (λ (t : ℕ). bit_and t address_mask) (write_entry_self s.table pt i1 0)

  pub unmap_page-IsRoute : IsRoute (unmap_page virt s) virt pdp pd pt
  unmap_page-IsRoute =
      subst (λ t. IsRoute t virt pdp pd pt) (sym unmap_page-route)
        (IsRoute-same pt i1 refl cleared_but r away)

  -- Where the way to `virt` exists and does not read its own last entry, the walk finds nothing
  -- after `virt` was unmapped, its translation was invalidated, and the walk to any other entry
  -- gives what it gave before.
  pub walk_page-unmap_page :
      (walk_page (unmap_page virt s) virt ≡ 0)
      × ((unmap_page virt s).flushed ≡ virt ∷ s.flushed)
      × ((v pdp' pd' pt' : ℕ)
          → IsRoute s v pdp' pd' pt'
          → Avoids s v pdp' pd' pt i1
          → same_cell pt i1 pt' (indexer_assign v).pml1 ≡ false
          → walk_page (unmap_page virt s) v ≡ walk_page s v)
  walk_page-unmap_page = (
    ap (λ t. walk_page t virt) unmap_page-route
        ∙ walk_page-route (IsRoute-same pt i1 refl cleared_but r away)
        ∙ cleared_leaf,
    ap (λ t. t.flushed) unmap_page-route,
    λ v pdp' pd' pt' r' away' apart.
        ap (λ t. walk_page t v) unmap_page-route
        ∙ walk_page-route (IsRoute-same pt i1 refl cleared_but r' away')
        ∙ (cleared_but _ _ apart).0
        ∙ sym (walk_page-route r'),
  )
