-- ===== src/Heap/Chain/Grow.antt =====
-- `heap_expand` as an operation on the list of the blocks: a free block behind the last, joined to
-- that one if it is free.
use fenestella.Prelude.{
  ℕ, ◌+◌, ◌-◌, ◌*◌, ◌/◌, ◌^◌, ◌≤◌, ◌<◌, ◌≡◌, refl, ap, sym, subst, ◌∙◌, ◌≢◌, Bool, true, [], ◌∷◌,
  ◌++◌, arith, ==_refl,
}
use fenestella.Heap.{Heap, Header, add_segment, whole_pages, null}
use fenestella.Heap.Chain.{Blocks, Chain, Chain-le, at-le-last, join_in, is_block}

abbrev pub new_block : ℕ → Blocks
new_block len = (len, true) ∷ []

-- What `heap_expand` does to the list of the blocks that end at `stop`.
abbrev pub grow_in : ℕ → ℕ → ℕ → Blocks → Blocks
grow_in stop len at bs = join_in stop at (bs ++ new_block len)

-- The memory `g` is `f` with a free block of `len` bytes written at `stop` behind the last.
pub record Appended (f g : ℕ → Header) (stop last len : ℕ) : Type 0 where
  pub at_last : g last ≡ record (f last) { next = stop }
  pub at_stop : g stop ≡ record { length = len; next = null; last = last; free = true }
  pub others : (a : ℕ) → a ≢ last → a ≢ stop → g a ≡ f a

module _ (f g : ℕ → Header) (stop last len : ℕ) (app : Appended f g stop last len) where
  pub Chain-append :
      (n : ℕ) (v : Bool) (bs : Blocks) (prev at : ℕ)
      → Chain f prev at stop last ((n, v) ∷ bs)
      → Chain g prev at (stop + 32 + len) stop (((n, v) ∷ bs) ++ new_block len)
  Chain-append n v [] prev at c =
      let e : at ≡ last = c.4.1 in
      let s : stop ≡ at + 32 + n = sym c.4.0 in
      let here : g at ≡ record (f at) { next = stop } =
        subst (λ a. g a ≡ record (f a) { next = stop }) (sym e) app.at_last in
      let new = app.at_stop in
      (
        ap (λ t. t.length) here ∙ c.0,
        ap (λ t. t.free) here ∙ c.1,
        ap (λ t. t.last) here ∙ c.2,
        ap (λ t. t.next) here ∙ s,
        subst (λ (a : ℕ). Chain g at a (stop + 32 + len) stop (new_block len)) s
            (
              ap (λ t. t.length) new,
              ap (λ t. t.free) new,
              ap (λ t. t.last) new ∙ sym e,
              ap (λ t. t.next) new,
              (refl, refl),
            ),
      )
  Chain-append n v ((m, w) ∷ bs) prev at c =
      let past = at-le-last f stop last m w bs at (at + 32 + n) c.4 in
      let below = Chain-le f stop last ((m, w) ∷ bs) at (at + 32 + n) c.4 in
      let here = app.others at (omega arith) (omega arith) in
      (
        ap (λ t. t.length) here ∙ c.0,
        ap (λ t. t.free) here ∙ c.1,
        ap (λ t. t.last) here ∙ c.2,
        ap (λ t. t.next) here ∙ c.3,
        Chain-append m w bs at (at + 32 + n) c.4,
      )

pub is_block-end :
    (f : ℕ → Header) (stop last len : ℕ) (bs : Blocks) (prev at : ℕ)
    → Chain f prev at stop last bs
    → is_block stop at (bs ++ new_block len) ≡ true
is_block-end f stop last len [] prev at c = ground (arith, ==_refl stop)
is_block-end f stop last len ((n, v) ∷ bs) prev at c =
    ground (arith, is_block-end f stop last len bs at (at + 32 + n) c.4)

pub whole_pages_bounds :
    (size : ℕ)
    → 0 < size
    → size < 2 ^ 63
    → (size ≤ whole_pages size)
      × (whole_pages size < size + 0x1000)
      × (0x1000 ≤ whole_pages size)
      × (whole_pages size / 0x1000 * 0x1000 ≡ whole_pages size)
whole_pages_bounds size pos low = (ground arith, ground arith, ground arith, ground arith)

module _ {W : Type 0} (map_page : ℕ → W → W) (length : ℕ) (h : Heap W) (pos : 0x1000 ≤ length)
    (whole : length / 0x1000 * 0x1000 ≡ length) (bound : h.heap_end + length < 2 ^ 63) where
  abbrev added : Heap W
  added = add_segment map_page length h

  pub added-Appended :
      h.last_header ≢ h.heap_end → Appended h.cell added.cell h.heap_end h.last_header (length - 32)
  unfolding add_segment
  added-Appended apart = record {
    at_last = ground arith;
    at_stop = ground arith;
    others = λ a out1 out2. ground arith;
  }

  pub added-rest :
      (added.heap_start ≡ h.heap_start)
      × (added.heap_end ≡ h.heap_end + length)
      × (added.heap_initialized ≡ h.heap_initialized)
      × (added.last_header ≡ h.heap_end)
  unfolding add_segment
  added-rest = (refl, omega arith, refl, refl)
