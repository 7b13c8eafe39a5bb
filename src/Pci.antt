-- ===== src/Pci.antt =====
-- kernel/src/iodev/pci/confrw.c and find.c: the configuration space of the PCI functions, behind a
-- cache of the functions that were found.
pub mod Access
use fenestella.Prelude.{
  ℕ, zero, suc, ◌+◌, ◌*◌, ◌/◌, ◌%◌, ◌^◌, Bool, true, false, ◌&&◌, Option, none, some, List, [], ◌∷◌,
  ◌==◌, if◌then◌else◌, update,
}

-- `pci_function_data_t`
pub record Function : Type 0 where
  pub base : ℕ
  pub function : ℕ
  pub device : ℕ
  pub bus : ℕ
  pub segment : ℕ

-- The parameters by which the accesses name a function.
pub record Address : Type 0 where
  pub segment : ℕ
  pub bus : ℕ
  pub device : ℕ
  pub function : ℕ

-- The variables of confrw.c, and the memory by its address.
pub record Pci : Type 0 where
  pub cached : Bool
  pub function_cache : List Function
  pub byte : ℕ → ℕ

-- The comparisons in the loops of the accesses, each of which goes on with the next entry.
abbrev pub is_at : Address → Function → Bool
is_at a f =
    f.segment == a.segment && (f.bus == a.bus && (f.device == a.device && f.function == a.function))

-- A volatile write of `width` bytes, and a read.
abbrev pub store : ℕ → ℕ → ℕ → (ℕ → ℕ) → ℕ → ℕ
store zero address value m = m
store (suc width) address value m =
    store width (address + 1) (value / 0x100) (update m address (value % 0x100))

abbrev pub load : ℕ → ℕ → (ℕ → ℕ) → ℕ
load zero address m = 0
load (suc width) address m = m address + 0x100 * load width (address + 1) m

-- The loop of the writes: each entry that matches is written.
abbrev pub write_all : ℕ → Address → ℕ → ℕ → List Function → (ℕ → ℕ) → ℕ → ℕ
write_all width a offset value [] m = m
write_all width a offset value (f ∷ fs) m =
    write_all width a offset value fs
      (if is_at a f then store width (f.base + offset) value m else m)

-- The loop of the reads: the first entry that matches is read.
abbrev pub read_first : ℕ → Address → ℕ → List Function → (ℕ → ℕ) → ℕ
read_first width a offset [] m = 0
read_first width a offset (f ∷ fs) m =
    if is_at a f then load width (f.base + offset) m else read_first width a offset fs m

-- `load_cache` is `pci_conf_load_cache`.
module _ (load_cache : Pci → Pci) where
  abbrev pub with_cache : Pci → Pci
  with_cache s = if s.cached then s else load_cache s

  -- `pci_conf_write_byte`, `_word` and `_long`: `width` is 1, 2 and 4.
  unfoldable pub pci_conf_write : ℕ → Address → ℕ → ℕ → Pci → Pci
  pci_conf_write width a offset value s =
      let s1 = with_cache s in
      record s1 { byte = write_all width a offset value s1.function_cache s1.byte }

  -- `pci_conf_read_byte`, `_word` and `_long`.
  unfoldable pub pci_conf_read : ℕ → Address → ℕ → Pci → ℕ × Pci
  pci_conf_read width a offset s =
      let s1 = with_cache s in (read_first width a offset s1.function_cache s1.byte, s1)

-- `find_device`, with the bytes of the class in the header of a function.
module _ (class_at subclass_at interface_at : ℕ) where
  abbrev pub find_device : ℕ → ℕ → ℕ → List Function → (ℕ → ℕ) → Option Function
  find_device class subclass interface [] m = none
  find_device class subclass interface (f ∷ fs) m =
      let rest = find_device class subclass interface fs m in
      if m (f.base + class_at) == class
        && (m (f.base + subclass_at) == subclass && m (f.base + interface_at) == interface)
      then some f
      else rest
