-- ===== src/Hid/KbMan.antt =====
-- kernel/src/proc/calls/handlers/kb_man.c: one process at a time owns the keyboard, and reads the
-- keys from a page that ends with a 16-bit count.
pub mod Held
pub mod Tables
use fenestella.Prelude.{
  ℕ, ◌+◌, ◌-◌, ◌*◌, ◌/◌, ◌%◌, ◌^◌, Bool, true, false, not, ◌&&◌, ◌||◌, List, [], ◌∷◌, ◌==◌, leb,
  if◌then◌else◌, update,
}

-- `current_pid == -1` on a `uint64_t`.
abbrev pub no_pid : ℕ
no_pid = 2 ^ 64 - 1

abbrev pub null : ℕ
null = 0

-- The variables of kb_man.c, the memory by its address, and the state of the page allocator and of
-- the page tables.
pub record KbMan (W : Type 0) : Type 0 where
  pub current_buffer : ℕ
  pub current_pid : ℕ
  pub current_size : ℕ
  pub byte : ℕ → ℕ
  pub world : W

-- The functions of pmm.c and paging.c that `kb_man` calls.
pub record Pages (W : Type 0) : Type 0 where
  pub alloc_page : W → ℕ × W
  pub free_page : ℕ → W → W
  pub map_user_page : ℕ → ℕ → W → W
  pub unmap_page : ℕ → W → W
  pub get_pml4 : W → ℕ
  pub load_pml4 : ℕ → W → W

module _ {W : Type 0} where
  -- `*(uint16_t*)address`
  abbrev pub load_16 : ℕ → KbMan W → ℕ
  load_16 address s = s.byte address + 0x100 * s.byte (address + 1)

  unfoldable pub store_16 : ℕ → ℕ → KbMan W → KbMan W
  store_16 address value s = record s {
    byte = update (update s.byte address (value % 0x100)) (address + 1) (value / 0x100 % 0x100);
  }

  -- `__kb_man_save_key`
  unfoldable pub save_key : ℕ → KbMan W → KbMan W
  unfolding store_16
  save_key keycode s =
      let size = load_16 s.current_size s in
      if s.current_pid == no_pid || (s.current_buffer == null || s.current_size == null)
      then s
      else if leb (0x1000 - 2) size
      then s
      else (let counted = store_16 s.current_size (size + 1) s in
          record counted { byte = update counted.byte (s.current_buffer + size) keycode })

  -- `kb_man` of the process `pid` whose page tables are at `cr3`.
  module _ (pages : Pages W) (pid cr3 : ℕ) where
    unfoldable pub kb_man : Bool → KbMan W → ℕ × KbMan W
    unfolding store_16
    kb_man taking s =
        let kpml4 = pages.get_pml4 s.world in
        let w = pages.load_pml4 cr3 s.world in
        let refused = record s { world = pages.load_pml4 kpml4 w } in
        if not taking
        then if not (s.current_pid == pid) || s.current_pid == no_pid then (null, refused) else (
          null,
          record s {
            current_pid = no_pid;
            current_buffer = null;
            current_size = null;
            world =
                pages.load_pml4 kpml4
                  (pages.unmap_page s.current_buffer (pages.free_page s.current_buffer w));
          },
        )
        else if not (s.current_pid == no_pid)
        then (null, refused)
        else (let page = pages.alloc_page w in
            let size = page.0 + 0x1000 - 2 in
            let cleared = store_16 size 0 (record s {
              current_pid = pid;
              current_buffer = page.0;
              current_size = size;
              world = page.1;
            }) in
            (
              page.0,
              record cleared {
                world = pages.load_pml4 kpml4 (pages.map_user_page page.0 page.0 cleared.world);
              },
            ))
