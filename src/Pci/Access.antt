-- ===== src/Pci/Access.antt =====
-- Writing and reading back the configuration space.
use fenestella.Prelude.{
  ℕ, zero, suc, ◌+◌, ◌*◌, ◌/◌, ◌%◌, ◌<◌, ◌≡◌, refl, ap, ◌∙◌, inl, inr, true, false, ◌≢◌, ◌++◌, List,
  [], ◌∷◌, arith, if◌then◌else◌, update, Bool-cases,
}
use fenestella.Pci.{
  Pci, Function, Address, is_at, store, load, write_all, read_first, with_cache, pci_conf_write,
  pci_conf_read,
}

-- The address by which the accesses name a function.
abbrev pub address_of : Function → Address
address_of f = record { segment = f.segment; bus = f.bus; device = f.device; function = f.function }

-- None of the functions has the address.
abbrev pub Elsewhere : Address → List Function → Type 0
Elsewhere a [] = Unit {0}
Elsewhere a (f ∷ fs) = (address_of f ≢ a) × Elsewhere a fs

is_at-hit : (a : Address) (f : Function) → address_of f ≡ a → is_at a f ≡ true
is_at-hit a f e =
    let segment : f.segment ≡ a.segment = ap (λ x. x.segment) e in
    let bus : f.bus ≡ a.bus = ap (λ x. x.bus) e in
    let device : f.device ≡ a.device = ap (λ x. x.device) e in
    let function : f.function ≡ a.function = ap (λ x. x.function) e in ground arith

address_of-is_at : (a : Address) (f : Function) → is_at a f ≡ true → address_of f ≡ a
address_of-is_at a f hit =
    let segment : f.segment ≡ a.segment = ground arith in
    let bus : f.bus ≡ a.bus = ground arith in
    let device : f.device ≡ a.device = ground arith in
    let function : f.function ≡ a.function = ground arith in
    λ i. record { segment = segment i; bus = bus i; device = device i; function = function i }

is_at-miss : (a : Address) (f : Function) → address_of f ≢ a → is_at a f ≡ false
is_at-miss a f other = elim (Bool-cases (is_at a f)) [
  | inl hit ↦ absurd (other (address_of-is_at a f hit))
  | inr miss ↦ miss
]

store-below : (w at v : ℕ) (m : ℕ → ℕ) (x : ℕ) → x < at → store w at v m x ≡ m x
store-below zero at v m x lt = refl
store-below (suc w) at v m x lt =
    let rest = store-below w (at + 1) (v / 0x100) (update m at (v % 0x100)) x (omega arith) in
    ground arith

-- The numbers that fit in `w` bytes are those below this.
abbrev pub limit : ℕ → ℕ
limit zero = 1
limit (suc w) = 0x100 * limit w

load-store : (w at v : ℕ) (m : ℕ → ℕ) → v < limit w → load w at (store w at v m) ≡ v
load-store zero at v m lt = omega arith
load-store (suc w) at v m lt =
    let m1 = update m at (v % 0x100) in
    let rest = load-store w (at + 1) (v / 0x100) m1 (omega arith) in
    let first : store w (at + 1) (v / 0x100) m1 at ≡ v % 0x100 =
      store-below w (at + 1) (v / 0x100) m1 at (omega arith) ∙ ground arith in
    omega (arith, rest, first)

module _ (w : ℕ) (a : Address) (o : ℕ) where
  write_all-Elsewhere :
      (v : ℕ) (fs : List Function) (m : ℕ → ℕ) → Elsewhere a fs → write_all w a o v fs m ≡ m
  write_all-Elsewhere v [] m none_at = refl
  write_all-Elsewhere v (f ∷ fs) m (other, none_at) =
      rw (is_at-miss a f other) (write_all-Elsewhere v fs m none_at)

  read_first-Elsewhere :
      (fs : List Function) (m : ℕ → ℕ) → Elsewhere a fs → read_first w a o fs m ≡ 0
  read_first-Elsewhere [] m none_at = refl
  read_first-Elsewhere (f ∷ fs) m (other, none_at) =
      rw (is_at-miss a f other) (read_first-Elsewhere fs m none_at)

  module _ (f : Function) (here : address_of f ≡ a) (behind : List Function) where
    write_all-at :
        (v : ℕ) (before : List Function) (m : ℕ → ℕ)
        → Elsewhere a before
        → Elsewhere a behind
        → write_all w a o v (before ++ f ∷ behind) m ≡ store w (f.base + o) v m
    write_all-at v [] m none_before none_behind =
        ap (λ hit. write_all w a o v behind (if hit then store w (f.base + o) v m else m))
          (is_at-hit a f here)
        ∙ write_all-Elsewhere v behind (store w (f.base + o) v m) none_behind
    write_all-at v (g ∷ gs) m (other, none_before) none_behind =
        ap
          (λ hit.
            write_all w a o v (gs ++ f ∷ behind) (if hit then store w (g.base + o) v m else m))
          (is_at-miss a g other)
        ∙ write_all-at v gs m none_before none_behind

    read_first-at :
        (before : List Function) (m : ℕ → ℕ)
        → Elsewhere a before
        → read_first w a o (before ++ f ∷ behind) m ≡ load w (f.base + o) m
    read_first-at [] m none_before = rw (is_at-hit a f here) refl
    read_first-at (g ∷ gs) m (other, none_before) =
        rw (is_at-miss a g other) (read_first-at gs m none_before)

module _ (load_cache : Pci → Pci) (w : ℕ) (a : Address) (o : ℕ) where
  with_cache-loaded : (s : Pci) → s.cached ≡ true → with_cache load_cache s ≡ s
  with_cache-loaded s loaded = rw loaded refl

  pci_conf_write-loaded :
      (v : ℕ) (s : Pci)
      → s.cached ≡ true
      → pci_conf_write load_cache w a o v s
        ≡ record s { byte = write_all w a o v s.function_cache s.byte }
  unfolding pci_conf_write
  pci_conf_write-loaded v s loaded =
      ap {A = Pci} {B = Pci} (λ t. record t { byte = write_all w a o v t.function_cache t.byte })
        (with_cache-loaded s loaded)

  pci_conf_read-loaded :
      (s : Pci)
      → s.cached ≡ true
      → pci_conf_read load_cache w a o s ≡ (read_first w a o s.function_cache s.byte, s)
  unfolding pci_conf_read
  pci_conf_read-loaded s loaded =
      ap (λ t. (read_first w a o t.function_cache t.byte, t)) (with_cache-loaded s loaded)

module _ (load_cache : Pci → Pci) (w : ℕ) (a : Address) (o : ℕ) (s : Pci)
    (loaded : s.cached ≡ true) where
  -- Where the loaded cache has one function with the segment, the bus, the device and the number that
  -- an access names, a read gives the bytes in memory at the offset from the base of that function,
  -- a write changes those bytes and nothing else, and the value written, of any width that it fits,
  -- is read back.
  pub pci_conf_read-pci_conf_write :
      (before behind : List Function) (f : Function) (v : ℕ)
      → s.function_cache ≡ before ++ f ∷ behind
      → address_of f ≡ a
      → Elsewhere a before
      → Elsewhere a behind
      → v < limit w
      → let written = pci_conf_write load_cache w a o v s in
        (pci_conf_read load_cache w a o s ≡ (load w (f.base + o) s.byte, s))
        × (written ≡ record s { byte = store w (f.base + o) v s.byte })
        × ((pci_conf_read load_cache w a o written).0 ≡ v)
  pci_conf_read-pci_conf_write before behind f v cache here none_before none_behind fits =
      let read : (m : ℕ → ℕ) → read_first w a o s.function_cache m ≡ load w (f.base + o) m = λ m.
        ap (λ c. read_first w a o c m) cache
        ∙ read_first-at w a o f here behind before m none_before in
      let write : write_all w a o v s.function_cache s.byte ≡ store w (f.base + o) v s.byte =
        ap (λ c. write_all w a o v c s.byte) cache
        ∙ write_all-at w a o f here behind v before s.byte none_before none_behind in
      let after = record s { byte = store w (f.base + o) v s.byte } in
      let wrote : pci_conf_write load_cache w a o v s ≡ after =
        pci_conf_write-loaded load_cache w a o v s loaded ∙ ap (λ m. record s { byte = m }) write in
      (
        pci_conf_read-loaded load_cache w a o s loaded ∙ ap (λ t. (t, s)) (read s.byte),
        wrote,
        ap (λ t. (pci_conf_read load_cache w a o t).0) wrote
            ∙ ap (λ r. r.0) (pci_conf_read-loaded load_cache w a o after loaded)
            ∙ read after.byte
            ∙ load-store w (f.base + o) v s.byte fits,
      )
