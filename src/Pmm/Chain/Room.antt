-- ===== src/Pmm/Chain/Room.antt =====
-- `pmm_new_section` finds a node that is not in use, where there is one.
use fenestella.Prelude.{
  ℕ, zero, suc, ◌+◌, ◌*◌, ◌/◌, ◌<◌, ◌≤◌, ◌≡◌, refl, inl, inr, true, false, some, arith, Bool-cases,
  [], ◌∷◌,
}
use fenestella.Pmm.Chain.{Cells, has, Chain}
use fenestella.Pmm.{Pmm, Section, section_size, is_unused, first_unused, new_section}

abbrev pub IsUnused : Pmm → ℕ → Type 0
IsUnused m p = is_unused (m.section p) ≡ true

-- The place where the code looks first lies in the array, and some entry is not in use.
pub record HasRoom (m : Pmm) : Type 0 where
  pub head_fits : m.section_head * section_size < m.data_size
  pub entry : ℕ
  pub entry_fits : entry * section_size < m.data_size
  pub entry_unused : IsUnused m (suc entry)

module _ (m : Pmm) where
  first_unused-IsUnused :
      (n i j : ℕ)
      → i ≤ j
      → j < i + n
      → j * section_size < m.data_size
      → IsUnused m (suc j)
      → IsUnused m (suc (first_unused n i m))
  unfolding first_unused
  first_unused-IsUnused zero i j low high fits free = absurd (omega arith)
  first_unused-IsUnused (suc n) i j low high fits free =
      elim (Bool-cases (is_unused (m.section (suc i)))) [
        | inl here ↦ ground arith
        | inr busy ↦ ground (arith, first_unused-IsUnused n (i + 1) j)
      ]

-- What `new_section` gives, and that it changes nothing but the place where it looks first.
pub record Fresh (m : Pmm) : Type 0 where
  pub index : ℕ
  pub head : ℕ
  pub gives : new_section m ≡ some (suc index, record m { section_head = head })
  pub unused : IsUnused m (suc index)

pub new_section-Fresh : (m : Pmm) → HasRoom m → Fresh m
unfolding new_section
new_section-Fresh m room = elim (Bool-cases (is_unused (m.section (suc m.section_head)))) [
  | inl here ↦ record {
    index = m.section_head;
    head = m.section_head + 1;
    gives = ground arith;
    unused = here;
  }
  | inr busy ↦
      let found =
        first_unused-IsUnused m (m.data_size / section_size + 1) 0 room.entry (omega arith)
          (omega arith) room.entry_fits room.entry_unused in
      record {
        index = first_unused (m.data_size / section_size + 1) 0 m;
        head = first_unused (m.data_size / section_size + 1) 0 m + 1;
        gives = ground arith;
        unused = found;
      }
]

-- A node of the list behind another node is in use.
pub Chain-busy :
    (f : ℕ → Section) (q n : ℕ) (xs : Cells)
    → Chain f (suc q) xs
    → is_unused (f (suc n)) ≡ true
    → has n xs ≡ false
Chain-busy f q n [] c free = refl
Chain-busy f q n ((i, r) ∷ xs) c free = ground (arith, Chain-busy f i n xs c.2 free)
