-- ===== src/Hid/KbMan/Tables.antt =====
-- `kb_man` with the page tables of Paging/Table and any page allocator.
use fenestella.Prelude.{
  ℕ, suc, ◌+◌, ◌<◌, ◌≤◌, ◌⊎◌, ◌≡◌, ◌≢◌, refl, ap, ◌∙◌, Bool, true, false, none, some, [], arith,
  ◌==◌, bit_and, bit_or,
}
use fenestella.Paging.Desc.{address_mask, flags_user_page, indexer_assign}
use fenestella.Paging.Table.{Space, map_page, unmap_page, walk_page, load_pml4}
use fenestella.Paging.Table.Keep.{IsRoute, Avoids, same_cell}
use fenestella.Paging.Table.Translate.{walk_page-map_page, map_page-pml4}
use fenestella.Calls.Map.{load_pml4_self, load_pml4_twice}
use fenestella.Hid.KbMan.{KbMan, Pages, no_pid, null, kb_man, store_16}
use fenestella.Hid.KbMan.Held.{Holds, kb_man-Holds}

module _ {A : Type 0} (alloc_page : A → ℕ × A) (free_page : ℕ → A → A) (fuel : ℕ) where
  -- The mapping of a page for a process; where it does not end, nothing is claimed of it.
  unfoldable pub map_user_page : ℕ → ℕ → Space A → Space A
  map_user_page virt phys s = elim (map_page alloc_page fuel virt phys flags_user_page s) [
    | none ↦ s
    | some (_, s') ↦ s'
  ]

  abbrev pub table_pages : Pages (Space A)
  table_pages = record {
    alloc_page = λ s. ((alloc_page s.pmm).0, record s { pmm = (alloc_page s.pmm).1 });
    free_page = λ page s. record s { pmm = free_page page s.pmm };
    map_user_page = map_user_page;
    unmap_page = unmap_page;
    get_pml4 = λ s. s.pml4;
    load_pml4 = load_pml4;
  }

module _ {A : Type 0} (alloc_page : A → ℕ × A) (free_page : ℕ → A → A) (fuel : ℕ) (pid cr3 : ℕ)
    (s : KbMan (Space A)) where
  abbrev pub pages : Pages (Space A)
  pages = table_pages alloc_page free_page (suc fuel)

  restored : load_pml4 s.world.pml4 (load_pml4 cr3 s.world) ≡ s.world
  restored = load_pml4_twice s.world s.world.pml4 cr3 ∙ load_pml4_self s.world s.world.pml4 refl

  -- While a process owns the keyboard, another process that asks for it or gives it up gets NULL, and
  -- nothing changes: neither the owner, its page and the keys in it, nor the allocator, the page
  -- tables and the register that points to them.
  pub kb_man-other :
      (taking : Bool)
      → s.current_pid ≢ no_pid
      → s.current_pid ≢ pid
      → kb_man pages pid cr3 taking s ≡ (null, s)
  unfolding kb_man
  kb_man-other true has other =
      let owned : (s.current_pid == no_pid) ≡ false = ground arith in
      rw owned (ap (λ w. (null, record s { world = w })) restored)
  kb_man-other false has other =
      let another : (s.current_pid == pid) ≡ false = ground arith in
      rw another (ap (λ w. (null, record s { world = w })) restored)

  -- The page that is given out, and the tables of the process at that moment.
  abbrev pub page : ℕ
  page = (alloc_page s.world.pmm).0

  abbrev pub with_page : Space A
  with_page = record (load_pml4 cr3 s.world) { pmm = (alloc_page s.world.pmm).1 }

  -- Everything but the keys that the page holds then.
  given :
      s.current_pid ≡ no_pid
      → let r = kb_man pages pid cr3 true s in
        (r.0 ≡ page)
        × (r.1.world
            ≡ load_pml4 s.world.pml4
                (map_user_page alloc_page free_page (suc fuel) page page with_page))
        × ((a : ℕ) → (a < page + 0xffe) ⊎ (page + 0x1000 ≤ a) → r.1.byte a ≡ s.byte a)
  unfolding kb_man store_16 load_pml4
  given none_has =
      let free : (s.current_pid == no_pid) ≡ true = ground arith in
      rw free (refl, refl, λ a out. ground arith)

  mapped :
      (s' : Space A)
      → map_page alloc_page (suc fuel) page page flags_user_page with_page ≡ some (page, s')
      → map_user_page alloc_page free_page (suc fuel) page page with_page ≡ s'
  unfolding map_user_page
  mapped s' e = rw (map_user_page, e) refl

  -- Where no process has the keyboard, and the tables of a process with a valid id lead to the page
  -- that the allocator gives without reading its last entry on the way, the process that takes the
  -- keyboard owns it and gets that page, which holds no keys; it finds the page at its own address,
  -- joined digit by digit with what it found there before, and at every other place with a way what
  -- it found before; the register is as before, one page was taken from the allocator, and no byte
  -- but the last two of the page has changed.
  pub kb_man-take :
      {pdp pd pt : ℕ}
      → s.current_pid ≡ no_pid
      → pid ≢ no_pid
      → 0 < page
      → IsRoute with_page page pdp pd pt
      → Avoids with_page page pdp pd pt (indexer_assign page).pml1
      → let r = kb_man pages pid cr3 true s in
        Holds r.1 []
        × (r.1.current_pid ≡ pid)
        × (r.0 ≡ r.1.current_buffer)
        × (r.0 ≡ page)
        × (r.1.world.pml4 ≡ s.world.pml4)
        × (r.1.world.pmm ≡ (alloc_page s.world.pmm).1)
        × (walk_page (load_pml4 cr3 r.1.world) page
            ≡ bit_or (walk_page with_page page) (bit_and page address_mask))
        × ((v pdp' pd' pt' : ℕ)
            → IsRoute with_page v pdp' pd' pt'
            → Avoids with_page v pdp' pd' pt (indexer_assign page).pml1
            → same_cell pt (indexer_assign page).pml1 pt' (indexer_assign v).pml1 ≡ false
            → walk_page (load_pml4 cr3 r.1.world) v ≡ walk_page with_page v)
        × ((a : ℕ) → (a < page + 0xffe) ⊎ (page + 0x1000 ≤ a) → r.1.byte a ≡ s.byte a)
  unfolding load_pml4
  kb_man-take none_has valid some_page r away =
      let (s', e, kept, found, others) =
        walk_page-map_page alloc_page with_page r page flags_user_page away fuel in
      let top = map_page-pml4 alloc_page with_page r page flags_user_page fuel s' e in
      let back : load_pml4 cr3 (load_pml4 s.world.pml4 s') ≡ s' =
        load_pml4_twice s' cr3 s.world.pml4 ∙ load_pml4_self s' cr3 top in
      let (holds, owner, buffer) = kb_man-Holds pages pid cr3 s none_has valid some_page in
      let (at_page, world, bytes) = given none_has in
      let after = world ∙ ap (load_pml4 s.world.pml4) (mapped s' e) in
      (
        holds,
        owner,
        buffer,
        at_page,
        ap (λ w. w.pml4) after,
        ap (λ w. w.pmm) after ∙ kept,
        ap (λ w. walk_page (load_pml4 cr3 w) page) after ∙ ap (λ t. walk_page t page) back ∙ found,
        λ v pdp' pd' pt' r' away' apart.
            ap (λ w. walk_page (load_pml4 cr3 w) v) after
            ∙ ap (λ t. walk_page t v) back
            ∙ others v pdp' pd' pt' r' away' apart,
        bytes,
      )
