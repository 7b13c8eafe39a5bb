-- ===== src/Calls.antt =====
-- kernel/src/proc/calls/handlers: pmap.c, punmap.c, fb_req.c, pid.c and rdinfo.c, on the tables of
-- Paging/Table. What a handler reads of its task is `pid` and `cr3`.
pub mod Map
pub mod Frame
use fenestella.Prelude.{
  ℕ, zero, suc, ◌+◌, ◌-◌, ◌*◌, ◌/◌, ◌%◌, ◌^◌, Bool, true, false, Option, none, some, List, [], ◌∷◌,
  ◌==◌, leb, if◌then◌else◌, M,
}
use fenestella.Paging.Desc.{flags_kernel_page, flags_user_page}
use fenestella.Paging.Table.{Space, map_page, unmap_page, walk_page, load_pml4}

abbrev pub pmap_virt_default : ℕ
pmap_virt_default = 0

-- `current_fb_holder_pid == -1`.
abbrev pub no_holder : ℕ
no_holder = 2 ^ 64 - 1

abbrev pub virtual_offset : ℕ
virtual_offset = 0xffff800000000000

-- `framebuffer_info_t`.
pub record FrameBuffer : Type 0 where
  pub frame_width : ℕ
  pub frame_height : ℕ
  pub frame_addr : ℕ
  pub frame_pitch : ℕ
  pub frame_bpp : ℕ

-- The number of bytes, a product of numbers of 32 bits.
unfoldable pub framebuffer_size : FrameBuffer → ℕ
framebuffer_size fb = fb.frame_pitch * fb.frame_height * (fb.frame_bpp / 8) % 2 ^ 32

-- `current_fb_holder_pid`, and the tables.
pub record Display (A : Type 0) : Type 0 where
  pub holder : ℕ
  pub space : Space A

-- The loop of `fb_kill` from `i` on; `none` is a loop that goes on.
unfoldable pub unmap_frame : {A : Type 0} → ℕ → FrameBuffer → ℕ → Space A → Option (Space A)
unmap_frame zero fb i s = none
unmap_frame (suc steps) fb i s =
    let rest =
      unmap_frame steps fb ((i + 0x1000) % 2 ^ 64) (unmap_page ((fb.frame_addr + i) % 2 ^ 64) s) in
    if leb (framebuffer_size fb) i then some s else rest

-- `fb_kill`.
unfoldable pub fb_kill : {A : Type 0} → ℕ → FrameBuffer → ℕ → Display A → Option (Display A)
fb_kill steps fb cr3 d =
    if d.holder == no_holder
    then some d
    else elim (unmap_frame steps fb 0 (load_pml4 cr3 d.space)) [
      | none ↦ none
      | some s ↦ some (record { holder = no_holder; space = load_pml4 d.space.pml4 s })
    ]

module _ {A : Type 0} (alloc_page : A → ℕ × A) (fuel : ℕ) where
  unfoldable pub pmap : ℕ → ℕ → M (Space A) ℕ
  pmap cr3 virt s =
      let page = alloc_page s.pmm in
      let at = if virt == pmap_virt_default then page.0 else virt in
      elim (map_page alloc_page fuel at page.0 flags_user_page
        (load_pml4 cr3 (record s { pmm = page.1 }))) [
          | none ↦ none
          | some (address, s') ↦ some (address, load_pml4 s.pml4 s')
        ]

  unfoldable pub punmap : ℕ → Space A → Option (Space A)
  punmap virt s =
      let phys = walk_page s virt in
      if virt == 0
      then some s
      else elim (map_page alloc_page fuel phys phys flags_kernel_page (unmap_page virt s)) [
        | none ↦ none
        | some (_, s') ↦ some s'
      ]

  -- The loop of `fb_req` from `i` on.
  unfoldable pub map_frame : ℕ → FrameBuffer → ℕ → Space A → Option (Space A)
  map_frame zero fb i s = none
  map_frame (suc steps) fb i s =
      let virt = (fb.frame_addr + i) % 2 ^ 64 in
      let phys = (fb.frame_addr + 2 ^ 64 - virtual_offset + i) % 2 ^ 64 in
      if leb (framebuffer_size fb) i
      then some s
      else elim (map_page alloc_page fuel virt phys flags_user_page s) [
        | none ↦ none
        | some (_, s') ↦ map_frame steps fb ((i + 0x1000) % 2 ^ 64) s'
      ]

  unfoldable pub fb_req : ℕ → FrameBuffer → ℕ → ℕ → M (Display A) ℕ
  fb_req steps fb pid cr3 d =
      if d.holder == no_holder
      then elim (map_frame steps fb 0 (load_pml4 cr3 d.space)) [
        | none ↦ none
        | some s ↦ some (fb.frame_addr, record { holder = pid; space = load_pml4 d.space.pml4 s })
      ]
      else some (0, d)

-- `retriever`: the fields that `rdinfo` reads. There is no test of the number.
unfoldable pub rdinfo : ℕ → FrameBuffer → ℕ → Option ℕ
rdinfo free_memory fb zero = some free_memory
rdinfo free_memory fb (suc zero) = some fb.frame_width
rdinfo free_memory fb (suc (suc zero)) = some fb.frame_height
rdinfo free_memory fb (suc (suc (suc zero))) = some fb.frame_bpp
rdinfo free_memory fb (suc (suc (suc (suc field)))) = none
