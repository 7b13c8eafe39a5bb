-- ===== src/Prelude/Machine.antt =====
-- Computations on a state that may stop without a result: for want of fuel, or at a fault.
use mathlib.Core.Path.{◌≡◌}
use mathlib.Core.Option.{Option, none, some}

abbrev pub M : Type 0 → Type 0 → Type 0
M S B = S → Option (B × S)

module _ {S B C : Type 0} where
  infixl 5 ◌>>=◌ ◌>>◌
  abbrev pub ◌>>=◌ : (S → Option (B × S)) → (B → S → Option (C × S)) → S → Option (C × S)
  ◌>>=◌ m f s = elim (m s) [ none ↦ none | some (b, s') ↦ f b s' ]

  abbrev pub ◌>>◌ : (S → Option (B × S)) → (S → Option (C × S)) → S → Option (C × S)
  m >> n = m >>= λ _. n

  -- A step that succeeds hands its result and state on.
  pub bind_some :
      (m : S → Option (B × S)) (k : B → S → Option (C × S)) (s : S) {b : B} {s' : S}
      → m s ≡ some (b, s')
      → (m >>= k) s ≡ k b s'
  bind_some m k s e = rw (e, ◌>>=◌)

abbrev pub pure : {S B : Type 0} → B → S → Option (B × S)
pure b s = some (b, s)
