-- ===== src/Paging/Table/Keep.antt =====
-- What a change of the tables leaves of the way to a page: an entry counts by its address and by
-- its present flag.
use fenestella.Prelude.{ℕ, ◌<◌, bit_or, Bool, true, false, ◌&&◌, some, ◌==◌, ◌≡◌, arith}
use fenestella.Paging.Desc.{desc_get_address, indexer_assign}
use fenestella.Paging.Desc.Laws.{get_address-or_flags, present-or}
use fenestella.Paging.Table.{Space, present, next_table, leaf_table, walk_page, write_entry}

abbrev pub same_cell : ℕ → ℕ → ℕ → ℕ → Bool
same_cell t i t' i' = t' == t && i' == i

-- The three tables below `pml4` on the way to `virt`.
pub record IsRoute {A : Type 0} (s : Space A) (virt pdp pd pt : ℕ) : Type 0 where
  pub enter4 : next_table s s.pml4 (indexer_assign virt).pml4 ≡ some pdp
  pub enter3 : next_table s pdp (indexer_assign virt).pml3 ≡ some pd
  pub enter2 : next_table s pd (indexer_assign virt).pml2 ≡ some pt

-- None of the three entries that are read on the way is entry `i` of table `t`.
pub record Avoids {A : Type 0} (s : Space A) (virt pdp pd t i : ℕ) : Type 0 where
  pub at4 : same_cell t i s.pml4 (indexer_assign virt).pml4 ≡ false
  pub at3 : same_cell t i pdp (indexer_assign virt).pml3 ≡ false
  pub at2 : same_cell t i pd (indexer_assign virt).pml2 ≡ false

pub Avoids-top :
    {A : Type 0} {s s' : Space A} {virt pdp pd t i : ℕ}
    → s'.pml4 ≡ s.pml4
    → Avoids s virt pdp pd t i
    → Avoids s' virt pdp pd t i
Avoids-top {t = t} {i = i} top away = record {
  at4 = simp top away.at4;
  at3 = away.at3;
  at2 = away.at2;
}

-- Entry by entry, the same address and the same present flag.
abbrev pub SameEntry : ℕ → ℕ → Type 0
SameEntry d e = (desc_get_address e ≡ desc_get_address d) × (present e ≡ present d)

abbrev pub SameWays : (ℕ → ℕ → ℕ) → (ℕ → ℕ → ℕ) → Type 0
SameWays f g = (t i : ℕ) → SameEntry (f t i) (g t i)

abbrev pub SameWaysBut : ℕ → ℕ → (ℕ → ℕ → ℕ) → (ℕ → ℕ → ℕ) → Type 0
SameWaysBut t i f g = (t' i' : ℕ) → same_cell t i t' i' ≡ false → SameEntry (f t' i') (g t' i')

pub SameWays-or_flags :
    (f : ℕ → ℕ → ℕ) (t i flags : ℕ)
    → flags < 4096
    → present (f t i) ≡ true
    → SameWays f (write_entry f t i (bit_or (f t i) flags))
unfolding write_entry
SameWays-or_flags f t i flags small here t' i' =
    ground (arith, get_address-or_flags (f t i) flags small, present-or (f t i) flags here)

module _ {A : Type 0} where
  next_table-same :
      (s s' : Space A) (t i : ℕ) {q : ℕ}
      → SameEntry (s.table t i) (s'.table t i)
      → next_table s t i ≡ some q
      → next_table s' t i ≡ some q
  unfolding next_table
  next_table-same s s' t i (same_address, same_present) e = rw (same_present, same_address) e

  pub IsRoute-ways :
      {s s' : Space A} {virt pdp pd pt : ℕ}
      → s'.pml4 ≡ s.pml4
      → SameWays s.table s'.table
      → IsRoute s virt pdp pd pt
      → IsRoute s' virt pdp pd pt
  IsRoute-ways {s} {s'} top same r = record {
    enter4 = simp top (next_table-same s s' _ _ (same _ _) r.enter4);
    enter3 = next_table-same s s' _ _ (same _ _) r.enter3;
    enter2 = next_table-same s s' _ _ (same _ _) r.enter2;
  }

  pub IsRoute-same :
      {s s' : Space A} {virt pdp pd pt : ℕ} (t i : ℕ)
      → s'.pml4 ≡ s.pml4
      → SameWaysBut t i s.table s'.table
      → IsRoute s virt pdp pd pt
      → Avoids s virt pdp pd t i
      → IsRoute s' virt pdp pd pt
  IsRoute-same {s} {s'} t i top same r away = record {
    enter4 = simp top (next_table-same s s' _ _ (same _ _ away.at4) r.enter4);
    enter3 = next_table-same s s' _ _ (same _ _ away.at3) r.enter3;
    enter2 = next_table-same s s' _ _ (same _ _ away.at2) r.enter2;
  }

pub leaf_table-route :
    {A : Type 0} {s : Space A} {virt pdp pd pt : ℕ}
    → IsRoute s virt pdp pd pt
    → leaf_table s virt ≡ some pt
unfolding leaf_table
leaf_table-route r =
    rw (r.enter4, leaf_table) (rw (r.enter3, leaf_table) (rw (r.enter2, leaf_table)))

pub walk_page-route :
    {A : Type 0} {s : Space A} {virt pdp pd pt : ℕ}
    → IsRoute s virt pdp pd pt
    → walk_page s virt ≡ desc_get_address (s.table pt (indexer_assign virt).pml1)
unfolding walk_page
walk_page-route r = rw (leaf_table-route r, walk_page)
