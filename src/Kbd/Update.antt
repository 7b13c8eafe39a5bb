-- ===== src/Kbd/Update.antt =====
-- `kbd_update` against the list of the keys in the buffer page.
use fenestella.Prelude.{
  ℕ, zero, suc, ◌+◌, ◌≤◌, ◌<◌, ◌≡◌, refl, ap, sym, ◌∙◌, Bool, true, false, not, List, [], ◌∷◌, ◌++◌,
  map, arith, ◌==◌, ==_iff, if◌then◌else◌, inl, inr, Bool-cases,
}
use fenestella.Kbd.{Kbd, Buffer, switch_keys, call_listeners, update_keys, kbd_update}
use fenestella.Hid.Keys.{hid_keycode_capslock, hid_keycode_numlock}

-- The keys of the buffer.
abbrev pub keys_from : (ℕ → ℕ) → ℕ → ℕ → List ℕ
keys_from key zero i = []
keys_from key (suc n) i = key i ∷ keys_from key n (i + 1)

-- The listeners that are not `NULL`.
abbrev pub audience : (ℕ → ℕ) → ℕ → ℕ → List ℕ
audience listeners zero j = []
audience listeners (suc n) j =
    let rest = audience listeners n (j + 1) in if listeners j == 0 then rest else listeners j ∷ rest

-- Each key to each of the listeners, in their order.
abbrev pub calls : List ℕ → List ℕ → List (ℕ × ℕ)
calls ls [] = []
calls ls (k ∷ ks) = map (λ l. (l, k)) ls ++ calls ls ks

-- A lock after the keys: each press of its key changes it.
abbrev pub toggled : ℕ → List ℕ → Bool → Bool
toggled lock [] b = b
toggled lock (k ∷ ks) b = toggled lock ks (if k == lock then not b else b)

call_listeners-audience :
    (f : ℕ → ℕ) (k n j : ℕ) → call_listeners f k n j ≡ map (λ l. (l, k)) (audience f n j)
call_listeners-audience f k zero j = refl
call_listeners-audience f k (suc n) j = elim (Bool-cases (f j == 0)) [
  | inl null ↦ rw null (call_listeners-audience f k n (j + 1))
  | inr there ↦
      rw there (ap (λ (cs : List (ℕ × ℕ)). (f j, k) ∷ cs) (call_listeners-audience f k n (j + 1)))
]

module _ (k : ℕ) (s : Kbd) where
  switch_keys-lem :
      ((switch_keys k s).listeners ≡ s.listeners)
      × ((switch_keys k s).listeners_count ≡ s.listeners_count)
      × ((switch_keys k s).kb_caps
          ≡ (if k == hid_keycode_capslock then not s.kb_caps else s.kb_caps))
      × ((switch_keys k s).kb_nums
          ≡ (if k == hid_keycode_numlock then not s.kb_nums else s.kb_nums))
  unfolding switch_keys
  switch_keys-lem = (ground arith, ground arith, ground arith, ground arith)

abbrev pub UpdatedIs : Kbd → List ℕ → List (ℕ × ℕ) × Kbd → Type 0
UpdatedIs s keys r =
    (r.0 ≡ calls (audience s.listeners s.listeners_count 0) keys)
    × (r.1.listeners ≡ s.listeners)
    × (r.1.listeners_count ≡ s.listeners_count)
    × (r.1.kb_caps ≡ toggled hid_keycode_capslock keys s.kb_caps)
    × (r.1.kb_nums ≡ toggled hid_keycode_numlock keys s.kb_nums)

update_keys-lem :
    (key : ℕ → ℕ) (n i : ℕ) (s : Kbd) → UpdatedIs s (keys_from key n i) (update_keys key n i s)
update_keys-lem key zero i s = (refl, refl, refl, refl, refl)
update_keys-lem key (suc n) i s =
    let t = switch_keys (key i) s in
    let one = switch_keys-lem (key i) s in
    let more = update_keys-lem key n (i + 1) t in
    let here = call_listeners-audience t.listeners (key i) t.listeners_count 0 in
    let same : audience t.listeners t.listeners_count 0 ≡ audience s.listeners s.listeners_count 0 =
      ap (λ f. audience f t.listeners_count 0) one.0 ∙ ap (λ c. audience s.listeners c 0) one.1 in
    (
      ap (λ (cs : List (ℕ × ℕ)). cs ++ (update_keys key n (i + 1) t).0) here
          ∙ ap
              (λ (cs : List (ℕ × ℕ)).
                map (λ l. (l, key i)) (audience t.listeners t.listeners_count 0) ++ cs)
              more.0
          ∙ ap (λ ls. calls ls (key i ∷ keys_from key n (i + 1))) same,
      more.1 ∙ one.0,
      more.2 ∙ one.1,
      more.3 ∙ ap (toggled hid_keycode_capslock (keys_from key n (i + 1))) one.2,
      more.4 ∙ ap (toggled hid_keycode_numlock (keys_from key n (i + 1))) one.3,
    )

abbrev UpdateIs : Buffer → Kbd → List (ℕ × ℕ) × (Buffer × Kbd) → Type 0
UpdateIs buffer s r =
    UpdatedIs s (keys_from buffer.key buffer.size 0) (r.0, r.1.1)
    × (r.1.0.size ≡ 0)
    × ((i : ℕ) → i < buffer.size → r.1.0.key i ≡ 0)

UpdateIs-if :
    (buffer : Buffer) (s : Kbd) (b : Bool) (x y : List (ℕ × ℕ) × (Buffer × Kbd))
    → (b ≡ true → UpdateIs buffer s x)
    → (b ≡ false → UpdateIs buffer s y)
    → UpdateIs buffer s (if b then x else y)
UpdateIs-if buffer s true x y f g = f refl
UpdateIs-if buffer s false x y f g = g refl

no_keys : (key : ℕ → ℕ) (n : ℕ) → n ≡ 0 → keys_from key n 0 ≡ []
no_keys key n e = ap (λ m. keys_from key m 0) e

clash : true ≡ false → ⊥
clash e = cc

-- `kbd_update` of a keyboard that is started, with a page of at most 4094 keys: each key goes to
-- each listener that is not `NULL`, in the order of the keys and for each key in the order of the
-- listeners; caps lock and num lock change once for each press of their key; and the page is empty
-- afterwards, its keys overwritten with 0.
pub kbd_update-calls :
    (buffer : Buffer) (s : Kbd)
    → s.started ≡ true
    → buffer.size ≤ 0xffe
    → let keys = keys_from buffer.key buffer.size 0 in
      let r = kbd_update buffer s in
      UpdatedIs s keys (r.0, r.1.1)
      × (r.1.0.size ≡ 0)
      × ((i : ℕ) → i < buffer.size → r.1.0.key i ≡ 0)
unfolding kbd_update
kbd_update-calls buffer s started room =
    UpdateIs-if buffer s (not s.started) _ _ (λ off. absurd (clash (sym off ∙ ap not started)))
      (λ on.
        UpdateIs-if buffer s (buffer.size == 0) _ _
          (λ empty.
            let none_in : buffer.size ≡ 0 = (==_iff buffer.size 0).0 empty in
            let nk = no_keys buffer.key buffer.size none_in in
            (
              (
                sym (ap (calls (audience s.listeners s.listeners_count 0)) nk),
                refl,
                refl,
                sym (ap (λ ks. toggled hid_keycode_capslock ks s.kb_caps) nk),
                sym (ap (λ ks. toggled hid_keycode_numlock ks s.kb_nums) nk),
              ),
              none_in,
              λ i lt. absurd (omega arith),
            ))
          (λ some_keys. (update_keys-lem buffer.key buffer.size 0 s, refl, λ i lt. ground arith)))
