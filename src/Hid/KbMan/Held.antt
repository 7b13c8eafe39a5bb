-- ===== src/Hid/KbMan/Held.antt =====
-- The buffer page as the list of the keys that it holds.
use fenestella.Prelude.{
  ℕ, zero, suc, ◌+◌, ◌-◌, ◌*◌, ◌≤◌, ◌<◌, ◌≡◌, ◌≢◌, refl, ap, sym, ◌∙◌, Bool, true, false, List, [],
  ◌∷◌, ◌++◌, arith, ltb, leb, if◌then◌else◌, length, length-append, inl, inr, Bool-cases, subst,
}
use fenestella.Hid.KbMan.{KbMan, Pages, no_pid, load_16, store_16, save_key, kb_man}

-- Bytes `n` in number from `at` on.
abbrev pub bytes_from : (ℕ → ℕ) → ℕ → ℕ → List ℕ
bytes_from byte at zero = []
bytes_from byte at (suc n) = byte at ∷ bytes_from byte (at + 1) n

-- The keyboard is owned, and the buffer page holds these keys and their number.
pub record Holds {W : Type 0} (s : KbMan W) (keys : List ℕ) : Type 0 where
  pub owned : s.current_pid ≢ no_pid
  pub buffer : 0 < s.current_buffer
  pub count_at : s.current_size ≡ s.current_buffer + 0xffe
  pub counted : load_16 s.current_size s ≡ length keys
  pub room : length keys ≤ 0xffe
  pub bytes : bytes_from s.byte s.current_buffer (length keys) ≡ keys

-- One more key where there is room, at most 4094 in all.
abbrev pub keep : List ℕ → ℕ → List ℕ
keep keys k = if ltb (length keys) 0xffe then keys ++ (k ∷ []) else keys

abbrev pub keep_all : List ℕ → List ℕ → List ℕ
keep_all keys [] = keys
keep_all keys (k ∷ ks) = keep_all (keep keys k) ks

abbrev pub save_keys : {W : Type 0} → List ℕ → KbMan W → KbMan W
save_keys [] s = s
save_keys (k ∷ ks) s = save_keys ks (save_key k s)

bytes_from-frame :
    (f g : ℕ → ℕ) (at n : ℕ)
    → ((a : ℕ) → at ≤ a → a < at + n → g a ≡ f a)
    → bytes_from g at n ≡ bytes_from f at n
bytes_from-frame f g at zero same = refl
bytes_from-frame f g at (suc n) same =
    let head = same at (omega arith) (omega arith) in
    let tail = bytes_from-frame f g (at + 1) n (λ a le lt. same a (omega arith) (omega arith)) in cc

bytes_from-snoc :
    (f : ℕ → ℕ) (at n : ℕ) → bytes_from f at (suc n) ≡ bytes_from f at n ++ (f (at + n) ∷ [])
bytes_from-snoc f at zero = ap (λ a. f a ∷ []) (omega arith)
bytes_from-snoc f at (suc n) =
    let tail = bytes_from-snoc f (at + 1) n in
    let same : f (at + 1 + n) ≡ f (at + suc n) = ap f (omega arith) in cc

if-same : {A : Type 0} (b : Bool) (x : A) → (if b then x else x) ≡ x
if-same true x = refl
if-same false x = refl

module _ {W : Type 0} (k : ℕ) (s : KbMan W) (keys : List ℕ) (h : Holds s keys) where
  abbrev n : ℕ
  n = length keys

  saved-full : 0xffe ≤ n → save_key k s ≡ s
  unfolding save_key
  saved-full full =
      let size = h.counted in
      let no_room : leb (0x1000 - 2) (load_16 s.current_size s) ≡ true = ground arith in
      simp no_room (if-same _ s)

  abbrev SavedIs : (ℕ → ℕ) → Type 0
  SavedIs byte =
      (byte (s.current_buffer + n) ≡ k)
      × (byte s.current_size + 0x100 * byte (s.current_size + 1) ≡ n + 1)
      × ((a : ℕ) → s.current_buffer ≤ a → a < s.current_buffer + n → byte a ≡ s.byte a)

  saved-room :
      n < 0xffe
      → ((save_key k s).current_pid ≡ s.current_pid)
        × ((save_key k s).current_buffer ≡ s.current_buffer)
        × ((save_key k s).current_size ≡ s.current_size)
        × SavedIs (save_key k s).byte
  unfolding save_key store_16
  saved-room room = (
    ground arith,
    ground arith,
    ground arith,
    (
      ground (arith, h.owned, h.buffer, h.count_at, h.counted),
      ground (arith, h.owned, h.buffer, h.count_at, h.counted),
      λ a le lt. ground (arith, h.owned, h.buffer, h.count_at, h.counted),
    ),
  )

  held-Holds : n < 0xffe → Holds (save_key k s) (keys ++ (k ∷ []))
  held-Holds room =
      let r = saved-room room in
      let g = save_key k s in
      let longer : length (keys ++ (k ∷ [])) ≡ suc n = length-append keys (k ∷ []) ∙ omega arith in
      let before = bytes_from-frame s.byte g.byte s.current_buffer n r.3.2 ∙ h.bytes in
      let after = bytes_from-snoc g.byte s.current_buffer n in
      let bytes : bytes_from g.byte s.current_buffer (suc n) ≡ keys ++ (k ∷ []) =
        after
        ∙ ap (λ (xs : List ℕ). xs ++ (g.byte (s.current_buffer + n) ∷ [])) before
        ∙ ap (λ (b : ℕ). keys ++ (b ∷ [])) r.3.0 in
      record {
        owned = λ e. h.owned (sym r.0 ∙ e);
        buffer = omega (arith, h.buffer, r.1);
        count_at = omega (arith, h.count_at, r.1, r.2);
        counted = ap (λ a. load_16 a g) r.2 ∙ r.3.1 ∙ omega arith;
        room = omega arith;
        bytes =
            ap (λ a. bytes_from g.byte a (length (keys ++ (k ∷ [])))) r.1
            ∙ ap (bytes_from g.byte s.current_buffer) longer
            ∙ bytes;
      }

  saved-Holds : Holds (save_key k s) (keep keys k)
  saved-Holds = elim (Bool-cases (ltb n 0xffe)) [
    | inl room ↦ rw room (held-Holds (ground arith))
    | inr full ↦ rw full (subst (λ t. Holds t keys) (sym (saved-full (ground arith))) h)
  ]

-- Saving keys one after another in the page of the owner: the page then holds the keys it held
-- and behind them the new ones in their order, as far as there is room for 4094 in all, and its
-- last two bytes hold their number.
pub save_keys-Holds :
    {W : Type 0} (ks : List ℕ) (s : KbMan W) (keys : List ℕ)
    → Holds s keys
    → Holds (save_keys ks s) (keep_all keys ks)
save_keys-Holds [] s keys h = h
save_keys-Holds (k ∷ ks) s keys h =
    save_keys-Holds ks (save_key k s) (keep keys k) (saved-Holds k s keys h)

module _ {W : Type 0} (pages : Pages W) (pid cr3 : ℕ) (s : KbMan W) where
  -- A process takes the keyboard that none has: it gets a page that holds no keys.
  pub kb_man-Holds :
      s.current_pid ≡ no_pid
      → pid ≢ no_pid
      → 0 < (pages.alloc_page (pages.load_pml4 cr3 s.world)).0
      → let r = kb_man pages pid cr3 true s in
        Holds r.1 [] × (r.1.current_pid ≡ pid) × (r.0 ≡ r.1.current_buffer)
  unfolding kb_man store_16
  kb_man-Holds none_has valid page = (
    record {
      owned = ground arith;
      buffer = ground arith;
      count_at = ground arith;
      counted = ground arith;
      room = omega arith;
      bytes = refl;
    },
    ground arith,
    ground arith,
  )
