-- ===== src/Paging/Desc.antt =====
-- The descriptor helpers of kernel/src/mem/paging/paging.h. A descriptor is a 64-bit number.
pub mod Laws
use fenestella.Prelude.{ℕ, ◌+◌, ◌-◌, ◌/◌, ◌^◌, bit_and, bit_or, Bool, not, ◌==◌, if◌then◌else◌}

abbrev pub page_size : ℕ
page_size = 0x1000

abbrev pub flag_present : ℕ
flag_present = 0x001

-- PAGING_FLAGS_KERNEL_PAGE: present and writable.
abbrev pub flags_kernel_page : ℕ
flags_kernel_page = 0x003

-- PAGING_FLAGS_USER_PAGE: present, writable, and open to ring 3.
abbrev pub flags_user_page : ℕ
flags_user_page = 0x007

abbrev pub address_mask : ℕ
address_mask = 0xffffffffff000

-- `~x` on a `uint64_t`.
abbrev pub complement : ℕ → ℕ
complement x = 2 ^ 64 - 1 - x

unfoldable pub desc_set_address : ℕ → ℕ → ℕ
desc_set_address descriptor address = bit_or descriptor (bit_and address address_mask)

unfoldable pub desc_get_address : ℕ → ℕ
desc_get_address descriptor = bit_and descriptor address_mask

unfoldable pub desc_get_flag : ℕ → ℕ → Bool
desc_get_flag descriptor flag = not (bit_and descriptor flag == 0)

unfoldable pub desc_set_flag : ℕ → ℕ → Bool → ℕ
desc_set_flag descriptor flag value =
    let cleared = bit_and descriptor (complement flag) in
    if value then bit_or cleared flag else cleared

unfoldable pub desc_set_flags : ℕ → ℕ → ℕ
desc_set_flags descriptor flags = bit_or (bit_and descriptor (complement 0x0fff)) flags

-- `paging_indexer_t`: one index of nine bits for each level.
pub record Indexer : Type 0 where
  pub pml4 : ℕ
  pub pml3 : ℕ
  pub pml2 : ℕ
  pub pml1 : ℕ

unfoldable pub indexer_assign : ℕ → Indexer
indexer_assign address =
    let u1 = address / 2 ^ 12 in
    let u2 = u1 / 2 ^ 9 in
    let u3 = u2 / 2 ^ 9 in
    let u4 = u3 / 2 ^ 9 in
    record {
      pml4 = bit_and u4 0x1ff;
      pml3 = bit_and u3 0x1ff;
      pml2 = bit_and u2 0x1ff;
      pml1 = bit_and u1 0x1ff;
    }
