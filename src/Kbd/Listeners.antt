-- ===== src/Kbd/Listeners.antt =====
-- Adding and removing listeners.
use fenestella.Prelude.{
  ℕ, zero, suc, ◌+◌, ◌-◌, ◌≤◌, ◌<◌, ◌≡◌, ◌≢◌, refl, sym, ap, ◌∙◌, inl, inr, Bool, true, false, some,
  arith, ◌==◌, ==_iff, Bool-cases, leb, if◌then◌else◌, update,
}
use fenestella.Kbd.{Kbd, kbd_remove_listener, target_index, shift_down, max_listeners}

-- The listener is none of the first `n`.
abbrev pub Absent : ℕ → (ℕ → ℕ) → ℕ → Type 0
Absent l f n = (j : ℕ) → j < n → f j ≢ l

target_index-at :
    (f : ℕ → ℕ) (l n k i : ℕ)
    → k < n
    → ((j : ℕ) → i ≤ j → j < i + k → f j ≢ l)
    → f (i + k) ≡ l
    → target_index f l n i ≡ i + k
target_index-at f l zero k i lt absent here = absurd (omega arith)
target_index-at f l (suc n) zero i lt absent here = ground arith
target_index-at f l (suc n) (suc k) i lt absent here =
    let miss = absent i (omega arith) (omega arith) in
    let at_end : f (i + 1 + k) ≡ l = ap f (omega arith) ∙ here in
    let further =
      target_index-at f l n k (i + 1) (omega arith)
        (λ j le below. absent j (omega arith) (omega arith)) at_end in
    ground arith

target_index-first : (f : ℕ → ℕ) (l n : ℕ) → f 0 ≡ l → target_index f l n 0 ≡ 0
target_index-first f l zero first = refl
target_index-first f l (suc n) first = ground arith

shift_down-below : (steps i : ℕ) (f : ℕ → ℕ) (j : ℕ) → j < i → shift_down steps i f j ≡ f j
shift_down-below zero i f j lt = refl
shift_down-below (suc steps) i f j lt =
    let rest = shift_down-below steps (i + 1) (update f i (f (i + 1))) j (omega arith) in
    ground arith

shift_down-above : (steps i : ℕ) (f : ℕ → ℕ) (j : ℕ) → i + steps ≤ j → shift_down steps i f j ≡ f j
shift_down-above zero i f j le = refl
shift_down-above (suc steps) i f j le =
    let rest = shift_down-above steps (i + 1) (update f i (f (i + 1))) j (omega arith) in
    ground arith

shift_down-at :
    (steps i : ℕ) (f : ℕ → ℕ) (j : ℕ) → i ≤ j → j < i + steps → shift_down steps i f j ≡ f (j + 1)
shift_down-at zero i f j le lt = absurd (omega arith)
shift_down-at (suc steps) i f j le lt =
    let g = update f i (f (i + 1)) in
    elim (Bool-cases (j == i)) [
      | inl same ↦
          let at : j ≡ i = (==_iff j i).0 same in
          let here : g i ≡ f (i + 1) = ground arith in
          shift_down-below steps (i + 1) g j (omega (arith, at))
          ∙ ap g at
          ∙ here
          ∙ ap (λ t. f (t + 1)) (sym at)
      | inr other ↦
          let kept : g (j + 1) ≡ f (j + 1) = ground arith in
          shift_down-at steps (i + 1) g j (ground arith) (omega arith) ∙ kept
    ]

if-same : {A : Type 0} (b : Bool) (x : A) → (if b then x else x) ≡ x
if-same true x = refl
if-same false x = refl

-- The keyboard behind the removal of the listener at `t`.
abbrev without : ℕ → Kbd → Kbd
without t s = record s {
  listeners =
      update (shift_down (s.listeners_count - t) t (update s.listeners t 0)) s.listeners_count 0;
  listeners_count = s.listeners_count - 1;
}

kbd_remove_listener-at :
    (l t : ℕ) (s : Kbd)
    → s.started ≡ true
    → target_index s.listeners l s.listeners_count 0 ≡ t
    → 0 < t
    → s.listeners_count < max_listeners
    → kbd_remove_listener l s ≡ some (without t s)
unfolding kbd_remove_listener
kbd_remove_listener-at l t s started e pos room =
    let found : (t == 0) ≡ false = ground arith in
    let inside : leb max_listeners s.listeners_count ≡ false = ground arith in
    rw (started, e, found, inside) refl

-- Removing a listener that stands in the list, for the first time at an index that is not 0, where the
-- page is not full: the listeners before it stay, each one behind it moves down by one place, there is
-- one fewer, and nothing behind the place of the last one is written but the 0 there.
pub kbd_remove_listener-removed :
    (l t : ℕ) (s : Kbd)
    → s.started ≡ true
    → 0 < t
    → t < s.listeners_count
    → s.listeners_count < max_listeners
    → Absent l s.listeners t
    → s.listeners t ≡ l
    → (back : Kbd) × (kbd_remove_listener l s ≡ some back)
      × (back.listeners_count ≡ s.listeners_count - 1)
      × ((j : ℕ) → j < t → back.listeners j ≡ s.listeners j)
      × ((j : ℕ) → t ≤ j → j < s.listeners_count → back.listeners j ≡ s.listeners (j + 1))
      × (back.listeners s.listeners_count ≡ 0)
      × ((j : ℕ) → s.listeners_count < j → back.listeners j ≡ s.listeners j)
kbd_remove_listener-removed l t s started pos lt room absent here =
    let n = s.listeners_count in
    let cleared = update s.listeners t 0 in
    let found : target_index s.listeners l n 0 ≡ t =
      target_index-at s.listeners l n t 0 lt (λ j le below. absent j (omega arith))
        (ap s.listeners (omega arith) ∙ here)
      ∙ omega arith in
    (
      without t s,
      kbd_remove_listener-at l t s started found pos room,
      refl,
      λ j below. let low = shift_down-below (n - t) t cleared j below in ground arith,
      λ j le below. let moved = shift_down-at (n - t) t cleared j le (omega arith) in ground arith,
      ground arith,
      λ j above. let high = shift_down-above (n - t) t cleared j (omega arith) in ground arith,
    )

-- The first listener is never removed.
pub kbd_remove_listener-first :
    (l : ℕ) (s : Kbd) → s.listeners 0 ≡ l → kbd_remove_listener l s ≡ some s
unfolding kbd_remove_listener
kbd_remove_listener-first l s first =
    let at_0 = target_index-first s.listeners l s.listeners_count first in
    rw at_0 (if-same _ (some s))
