-- ===== src/Examples/Handlers.antt =====
-- System calls of a process whose tables lead to a page of its own and to a frame buffer of two pages.
use fenestella.Prelude.{
  ℕ, zero, suc, ◌+◌, ◌*◌, ◌<◌, ◌≡◌, ◌≢◌, refl, false, some, [], ◌&&◌, ◌==◌, if◌then◌else◌, arith,
  bit_and, bit_or,
}
use fenestella.Paging.Desc.{address_mask, desc_get_address, desc_get_flag, indexer_assign}
use fenestella.Paging.Table.{Space, next_table, walk_page, load_pml4}
use fenestella.Paging.Table.Keep.{IsRoute, Avoids, same_cell}
use fenestella.Prelude.{◌≤◌, ◌⊎◌, ◌-◌, true}
use fenestella.Hid.KbMan.{KbMan, no_pid, null, kb_man}
use fenestella.Hid.KbMan.Held.{Holds}
use fenestella.Hid.KbMan.Tables.{table_pages, with_page, kb_man-take, kb_man-other}
use fenestella.Calls.{FrameBuffer, Display, framebuffer_size, no_holder, pmap, fb_req}
use fenestella.Calls.Map.{inside, pmap-walk_page}
use fenestella.Calls.Frame.{page, frame, last_index, IsLaidOut, fb_req-holder}

abbrev table : ℕ → ℕ → ℕ
table t i =
    if t == 0x1000 && i == 256
    then 0x2003
    else if t == 0x2000 && i == 0
    then 0x3003
    else if t == 0x3000 && i == 0
    then 0x4003
    else 0

abbrev space : Space ℕ
space = record { table = table; pml4 = 0x8000; flushed = []; pmm = 0 }

abbrev next_page : ℕ → ℕ × ℕ
next_page n = (0x100000 + n * 0x1000, n + 1)

abbrev virt : ℕ
virt = 0xffff800000005000

abbrev frame_buffer : FrameBuffer
frame_buffer = record {
  frame_width = 64;
  frame_height = 32;
  frame_addr = 0xffff800000006000;
  frame_pitch = 64;
  frame_bpp = 32;
}

abbrev display : Display ℕ
display = record { holder = no_holder; space = space }

route : IsRoute (inside next_page 0x1000 virt space) virt 0x2000 0x3000 0x4000
unfolding next_table desc_get_address desc_get_flag indexer_assign load_pml4
route = record { enter4 = refl; enter3 = refl; enter2 = refl }

avoids :
    Avoids (inside next_page 0x1000 virt space) virt 0x2000 0x3000 0x4000 (indexer_assign virt).pml1
unfolding indexer_assign load_pml4
avoids = record { at4 = refl; at3 = refl; at2 = refl }

pmap-walk_page_example :
    (g : Space ℕ) × (pmap next_page 1 0x1000 virt space ≡ some (virt, g))
    × (g.pml4 ≡ space.pml4)
    × (g.pmm ≡ 1)
    × (walk_page (load_pml4 0x1000 g) virt
        ≡ bit_or
            (walk_page (inside next_page 0x1000 virt space) virt)
            (bit_and 0x100000 address_mask))
    × ((v pdp' pd' pt' : ℕ)
        → IsRoute (inside next_page 0x1000 virt space) v pdp' pd' pt'
        → Avoids (inside next_page 0x1000 virt space) v pdp' pd' 0x4000 (indexer_assign virt).pml1
        → same_cell 0x4000 (indexer_assign virt).pml1 pt' (indexer_assign v).pml1 ≡ false
        → walk_page (load_pml4 0x1000 g) v ≡ walk_page (inside next_page 0x1000 virt space) v)
pmap-walk_page_example = pmap-walk_page next_page 0x1000 virt space route avoids 0

two_pages : framebuffer_size frame_buffer ≡ 0x2000
unfolding framebuffer_size
two_pages = refl

abbrev always : ℕ → ℕ → ℕ
always t k = t

laid-IsRoute :
    (k : ℕ) → k < 2 → IsRoute (load_pml4 0x1000 space) (page frame_buffer k) 0x2000 0x3000 0x4000
unfolding next_table desc_get_address desc_get_flag indexer_assign load_pml4
laid-IsRoute zero h = record { enter4 = refl; enter3 = refl; enter2 = refl }
laid-IsRoute (suc zero) h = record { enter4 = refl; enter3 = refl; enter2 = refl }
laid-IsRoute (suc (suc k)) h = absurd (omega arith)

laid-Avoids :
    (j k : ℕ)
    → j < 2
    → k < 2
    → Avoids
        (load_pml4 0x1000 space)
        (page frame_buffer k)
        0x2000
        0x3000
        0x4000
        (last_index frame_buffer j)
unfolding indexer_assign load_pml4
laid-Avoids j zero h h' = record { at4 = refl; at3 = refl; at2 = refl }
laid-Avoids j (suc zero) h h' = record { at4 = refl; at3 = refl; at2 = refl }
laid-Avoids j (suc (suc k)) h h' = absurd (omega arith)

laid_apart :
    (j k : ℕ)
    → j < 2
    → k < 2
    → j ≢ k
    → same_cell 0x4000 (last_index frame_buffer j) 0x4000 (last_index frame_buffer k) ≡ false
unfolding indexer_assign
laid_apart zero zero h h' differ = absurd (differ refl)
laid_apart zero (suc zero) h h' differ = refl
laid_apart (suc zero) zero h h' differ = refl
laid_apart (suc zero) (suc zero) h h' differ = absurd (differ refl)
laid_apart (suc (suc j)) k h h' differ = absurd (omega arith)
laid_apart zero (suc (suc k)) h h' differ = absurd (omega arith)
laid_apart (suc zero) (suc (suc k)) h h' differ = absurd (omega arith)

laid_out :
    IsLaidOut
      (load_pml4 0x1000 space)
      frame_buffer
      2
      (always 0x2000)
      (always 0x3000)
      (always 0x4000)
laid_out = record { route = laid-IsRoute; avoids = laid-Avoids; apart = laid_apart }

fb_req-holder_example :
    (g : Display ℕ) × (fb_req next_page 1 3 frame_buffer 7 0x1000 display
      ≡ some (0xffff800000006000, g))
    × (g.holder ≡ 7)
    × (g.space.pml4 ≡ 0x8000)
    × (g.space.pmm ≡ 0)
    × ((k : ℕ)
        → k < 2
        → walk_page (load_pml4 0x1000 g.space) (page frame_buffer k)
          ≡ bit_or
              (walk_page (load_pml4 0x1000 space) (page frame_buffer k))
              (bit_and (frame frame_buffer k) address_mask))
    × ((pid' cr3' steps' : ℕ) → fb_req next_page 1 steps' frame_buffer pid' cr3' g ≡ some (0, g))
fb_req-holder_example =
    fb_req-holder next_page 0 frame_buffer 2 (always 0x2000) (always 0x3000) (always 0x4000) 7
      0x1000 3 display refl (omega arith) (omega (arith, two_pages)) (omega (arith, two_pages))
      (omega arith) laid_out

-- The keyboard, which no process has, and the allocator that gives the page at `virt`.
abbrev keyboard : KbMan (Space ℕ)
keyboard = record {
  current_buffer = 0;
  current_pid = no_pid;
  current_size = 0;
  byte = λ a. 0xff;
  world = space;
}

abbrev give_page : ℕ → ℕ × ℕ
give_page n = (virt, n + 1)

abbrev take_back : ℕ → ℕ → ℕ
take_back page n = n - 1

keyboard-IsRoute :
    IsRoute (with_page give_page take_back 0 3 0x1000 keyboard) virt 0x2000 0x3000 0x4000
unfolding next_table desc_get_address desc_get_flag indexer_assign load_pml4
keyboard-IsRoute = record { enter4 = refl; enter3 = refl; enter2 = refl }

keyboard-Avoids :
    Avoids
      (with_page give_page take_back 0 3 0x1000 keyboard)
      virt
      0x2000
      0x3000
      0x4000
      (indexer_assign virt).pml1
unfolding indexer_assign load_pml4
keyboard-Avoids = record { at4 = refl; at3 = refl; at2 = refl }

kb_man-take_example :
    let r = kb_man (table_pages give_page take_back 1) 3 0x1000 true keyboard in
    let s = with_page give_page take_back 0 3 0x1000 keyboard in
    Holds r.1 []
    × (r.1.current_pid ≡ 3)
    × (r.0 ≡ r.1.current_buffer)
    × (r.0 ≡ virt)
    × (r.1.world.pml4 ≡ 0x8000)
    × (r.1.world.pmm ≡ 1)
    × (walk_page (load_pml4 0x1000 r.1.world) virt
        ≡ bit_or (walk_page s virt) (bit_and virt address_mask))
    × ((v pdp' pd' pt' : ℕ)
        → IsRoute s v pdp' pd' pt'
        → Avoids s v pdp' pd' 0x4000 (indexer_assign virt).pml1
        → same_cell 0x4000 (indexer_assign virt).pml1 pt' (indexer_assign v).pml1 ≡ false
        → walk_page (load_pml4 0x1000 r.1.world) v ≡ walk_page s v)
    × ((a : ℕ) → (a < virt + 0xffe) ⊎ (virt + 0x1000 ≤ a) → r.1.byte a ≡ 0xff)
kb_man-take_example =
    kb_man-take give_page take_back 0 3 0x1000 keyboard refl (λ e. absurd (omega arith))
      (omega arith) keyboard-IsRoute keyboard-Avoids

-- The keyboard of process 3.
abbrev taken : KbMan (Space ℕ)
taken = record keyboard { current_pid = 3; current_buffer = 0x9000; current_size = 0x9ffe }

kb_man-other_example :
    kb_man (table_pages give_page take_back 1) 4 0x1000 false taken ≡ (null, taken)
kb_man-other_example =
    kb_man-other give_page take_back 0 4 0x1000 taken false (λ e. absurd (omega arith))
      (λ e. absurd (omega arith))
