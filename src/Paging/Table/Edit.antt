-- ===== src/Paging/Table/Edit.antt =====
-- Editing the flags of a page, where the tables on the way exist.
use fenestella.Bits.{bit_and-bit_or}
use fenestella.Prelude.{ℕ, ◌<◌, ◌%◌, arith, bit_and, bit_or, false, ◌∷◌, ◌≡◌, refl, sym, ◌∙◌, ap}
use fenestella.Paging.Desc.{desc_get_address, desc_set_flags, indexer_assign}
use fenestella.Paging.Desc.Laws.{get_address-set_flags, get_address-or_flags, set_flags-flags}
use fenestella.Paging.Table.{Space, walk_page, write_entry, edit_page}
use fenestella.Paging.Table.Keep.{
  same_cell, IsRoute, Avoids, SameWays, SameWaysBut, SameWays-or_flags, IsRoute-same,
  walk_page-route,
}
use fenestella.Paging.Table.Translate.{
  write_entry_self, add_flags, next_table-present, add_flags-IsRoute,
}

module _ {A : Type 0} (s : Space A) {virt pdp pd pt : ℕ} (r : IsRoute s virt pdp pd pt)
    (away : Avoids s virt pdp pd pt (indexer_assign virt).pml1) (flags : ℕ)
    (small : flags < 4096) where
  abbrev i4 : ℕ
  i4 = (indexer_assign virt).pml4

  abbrev i3 : ℕ
  i3 = (indexer_assign virt).pml3

  abbrev i2 : ℕ
  i2 = (indexer_assign virt).pml2

  abbrev i1 : ℕ
  i1 = (indexer_assign virt).pml1

  abbrev s4 : Space A
  s4 = add_flags s s.pml4 i4 flags

  abbrev s3 : Space A
  s3 = add_flags s4 pdp i3 flags

  abbrev s2 : Space A
  s2 = add_flags s3 pd i2 flags

  abbrev edited : Space A
  edited = record s2 {
    table = write_entry s2.table pt i1 (desc_set_flags (s2.table pt i1) flags);
    flushed = virt ∷ s.flushed;
  }

  r4 : IsRoute s4 virt pdp pd pt
  r4 = add_flags-IsRoute s _ _ flags small r.enter4 r

  r3 : IsRoute s3 virt pdp pd pt
  r3 = add_flags-IsRoute s4 _ _ flags small r4.enter3 r4

  edit_page-steps : edit_page virt flags s ≡ (virt, edited)
  unfolding edit_page
  edit_page-steps =
      let a4 = (next_table-present s s.pml4 i4 r.enter4).1 in
      let a3 : desc_get_address (bit_or (s4.table pdp i3) flags) ≡ pd =
        get_address-or_flags (s4.table pdp i3) flags small
        ∙ (next_table-present s4 pdp i3 r4.enter3).1 in
      let a2 : desc_get_address (bit_or (s3.table pd i2) flags) ≡ pt =
        get_address-or_flags (s3.table pd i2) flags small
        ∙ (next_table-present s3 pd i2 r3.enter2).1 in
      rw a4 (rw a3 (rw a2 refl))

  ways : SameWays s.table s2.table
  ways t i =
      let a = SameWays-or_flags s.table _ _ flags small (next_table-present s _ _ r.enter4).0 t i in
      let b =
        SameWays-or_flags s4.table _ _ flags small (next_table-present s4 _ _ r4.enter3).0 t i in
      let c =
        SameWays-or_flags s3.table _ _ flags small (next_table-present s3 _ _ r3.enter2).0 t i in
      (c.0 ∙ b.0 ∙ a.0, c.1 ∙ b.1 ∙ a.1)

  edited_but : SameWaysBut pt i1 s.table edited.table
  unfolding write_entry
  edited_but t i apart = rw apart (ways t i)

  edited_leaf : desc_get_address (edited.table pt i1) ≡ desc_get_address (s.table pt i1)
  edited_leaf =
      ap desc_get_address (write_entry_self s2.table pt i1 _)
      ∙ get_address-set_flags (s2.table pt i1) flags small
      ∙ (ways pt i1).0

  abbrev HasFlags : ℕ → Type 0
  HasFlags d = bit_and d flags ≡ flags

  add_flags-HasFlags :
      (g : Space A) (t i t' i' : ℕ)
      → HasFlags (g.table t' i')
      → HasFlags ((add_flags g t i flags).table t' i')
  unfolding write_entry
  add_flags-HasFlags g t i t' i' has = ground (arith, bit_and-bit_or (g.table t i) flags)

  added-HasFlags : (g : Space A) (t i : ℕ) → HasFlags ((add_flags g t i flags).table t i)
  added-HasFlags g t i =
      ap (λ (d : ℕ). bit_and d flags) (write_entry_self g.table t i _)
      ∙ bit_and-bit_or (g.table t i) flags

  edited-HasFlags :
      (t i : ℕ)
      → same_cell pt i1 t i ≡ false
      → HasFlags (s2.table t i)
      → HasFlags (edited.table t i)
  unfolding write_entry
  edited-HasFlags t i apart has = rw apart has

  way-HasFlags :
      HasFlags (edited.table s.pml4 i4)
      × HasFlags (edited.table pdp i3)
      × HasFlags (edited.table pd i2)
  way-HasFlags = (
    edited-HasFlags s.pml4 i4 away.at4 (
        add_flags-HasFlags s3 pd i2 s.pml4 i4
          (add_flags-HasFlags s4 pdp i3 s.pml4 i4 (added-HasFlags s s.pml4 i4))),
    edited-HasFlags pdp i3 away.at3 (add_flags-HasFlags s3 pd i2 pdp i3 (added-HasFlags s4 pdp i3)),
    edited-HasFlags pd i2 away.at2 (added-HasFlags s3 pd i2),
  )

  leaf_flags : edited.table pt i1 % 4096 ≡ flags
  leaf_flags =
      ap (λ (d : ℕ). d % 4096) (write_entry_self s2.table pt i1 _)
      ∙ set_flags-flags (s2.table pt i1) flags small

  -- Where the way to `virt` exists and does not read its own last entry, editing its flags to any
  -- value of twelve bits makes these the flags of its last entry, adds them to those of the three
  -- entries on the way, invalidates the translation of `virt`, and changes neither the address that
  -- the walk to `virt` gives nor what the walk to any other entry gives.
  pub walk_page-edit_page :
      let t = (edit_page virt flags s).1 in
      (walk_page t virt ≡ walk_page s virt)
      × (t.table pt i1 % 4096 ≡ flags)
      × (bit_and (t.table s.pml4 i4) flags ≡ flags)
      × (bit_and (t.table pdp i3) flags ≡ flags)
      × (bit_and (t.table pd i2) flags ≡ flags)
      × (t.flushed ≡ virt ∷ s.flushed)
      × ((v pdp' pd' pt' : ℕ)
          → IsRoute s v pdp' pd' pt'
          → Avoids s v pdp' pd' pt i1
          → same_cell pt i1 pt' (indexer_assign v).pml1 ≡ false
          → walk_page t v ≡ walk_page s v)
  walk_page-edit_page = (
    ap (λ t. walk_page t.1 virt) edit_page-steps
        ∙ walk_page-route (IsRoute-same pt i1 refl edited_but r away)
        ∙ edited_leaf
        ∙ sym (walk_page-route r),
    ap (λ t. t.1.table pt i1 % 4096) edit_page-steps ∙ leaf_flags,
    ap (λ t. bit_and (t.1.table s.pml4 i4) flags) edit_page-steps ∙ way-HasFlags.0,
    ap (λ t. bit_and (t.1.table pdp i3) flags) edit_page-steps ∙ way-HasFlags.1,
    ap (λ t. bit_and (t.1.table pd i2) flags) edit_page-steps ∙ way-HasFlags.2,
    ap (λ t. t.1.flushed) edit_page-steps,
    λ v pdp' pd' pt' r' away' apart.
        ap (λ t. walk_page t.1 v) edit_page-steps
        ∙ walk_page-route (IsRoute-same pt i1 refl edited_but r' away')
        ∙ (edited_but _ _ apart).0
        ∙ sym (walk_page-route r'),
  )
