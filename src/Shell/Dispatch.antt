-- ===== src/Shell/Dispatch.antt =====
-- Lines that are typed at the shell of kernel/src/iodev/uart/shell.c, and the commands.
use fenestella.Prelude.{
  ℕ, suc, ◌+◌, ◌≤◌, ◌<◌, ◌≡◌, refl, ap, sym, subst, ◌∙◌, inl, inr, Bool, true, false, not, ◌&&◌,
  ◌||◌, Option, none, some, List, [], ◌∷◌, ◌++◌, map, arith, ◌==◌, ==_iff, ltb, leb, if◌then◌else◌,
  update, replicate, length, length-append, Bool-cases, both,
}
use fenestella.Shell.{
  Shell, Effect, put, run, commands, command_match, find_command, internal_write, cancel_prompt,
  replace_prompt, shell_write, clear_buffer, buffer_append, dispatch, command_finalize,
  shell_prompt, handle_character, handle_characters, unknown_command,
}

abbrev pub same_text : List ℕ → List ℕ → Bool
same_text [] [] = true
same_text [] (y ∷ ys) = false
same_text (x ∷ xs) [] = false
same_text (x ∷ xs) (y ∷ ys) = if x == y then same_text xs ys else false

-- The number of the first command with this name.
abbrev pub command_of : List ℕ → ℕ → List (List ℕ) → Option ℕ
command_of text i [] = none
command_of text i (c ∷ cs) = if same_text text c then some i else command_of text (i + 1) cs

-- The commands that are run.
abbrev pub runs : List Effect → List ℕ
runs [] = []
runs (put c ∷ es) = runs es
runs (run i ∷ es) = i ∷ runs es

abbrev pub run_of : Option ℕ → List ℕ
run_of none = []
run_of (some i) = i ∷ []

-- The characters that the shell takes.
abbrev pub Printable : List ℕ → Type 0
Printable [] = Unit
Printable (c ∷ cs) = (0x20 ≤ c) × (c ≤ 0x7e) × Printable cs

-- The text stands in the buffer from `i` on.
abbrev Begins : (ℕ → ℕ) → ℕ → List ℕ → Type 0
Begins b i [] = Unit
Begins b i (c ∷ cs) = (b i ≡ c) × Begins b (i + 1) cs

Begins-update :
    (b : ℕ → ℕ) (i : ℕ) (t : List ℕ) (at v : ℕ)
    → i + length t ≤ at
    → Begins b i t
    → Begins (update b at v) i t
Begins-update b i [] at v le h = tt
Begins-update b i (c ∷ cs) at v le h =
    (ground arith, Begins-update b (i + 1) cs at v (omega arith) h.1)

Begins-snoc :
    (b : ℕ → ℕ) (i : ℕ) (t : List ℕ) (c : ℕ)
    → Begins b i t
    → b (i + length t) ≡ c
    → Begins b i (t ++ (c ∷ []))
Begins-snoc b i [] c h e = (ap b (omega arith) ∙ e, tt)
Begins-snoc b i (x ∷ xs) c h e = (h.0, Begins-snoc b (i + 1) xs c h.1 (ap b (omega arith) ∙ e))

match-text :
    (b : ℕ → ℕ) (i : ℕ) (t cmd : List ℕ)
    → Printable t
    → Printable cmd
    → Begins b i t
    → b (i + length t) ≡ 0
    → command_match b i cmd ≡ same_text t cmd
match-text b i [] [] pt pc h e = ground arith
match-text b i [] (c ∷ cs) pt pc h e = ground arith
match-text b i (x ∷ xs) [] pt pc h e = ground arith
match-text b i (x ∷ xs) (c ∷ cs) pt pc h e =
    let at_end : b (i + 1 + length xs) ≡ 0 = ap b (omega arith) ∙ e in
    let rest = match-text b (i + 1) xs cs pt.2 pc.2 h.1 at_end in ground arith

abbrev AllPrintable : List (List ℕ) → Type 0
AllPrintable [] = Unit
AllPrintable (c ∷ cs) = Printable c × AllPrintable cs

find-command_of :
    (b : ℕ → ℕ) (t : List ℕ) (i : ℕ) (cs : List (List ℕ))
    → Printable t
    → AllPrintable cs
    → Begins b 0 t
    → b (length t) ≡ 0
    → find_command b i cs ≡ command_of t i cs
find-command_of b t i [] pt pc h e = refl
find-command_of b t i (c ∷ cs) pt pc h e =
    let this = match-text b 0 t c pt pc.0 h (ap b (omega arith) ∙ e) in
    let rest = find-command_of b t (i + 1) cs pt pc.1 h e in ground arith

runs-append : (xs ys : List Effect) → runs (xs ++ ys) ≡ runs xs ++ runs ys
runs-append [] ys = refl
runs-append (put c ∷ xs) ys = runs-append xs ys
runs-append (run i ∷ xs) ys = ap (λ (is : List ℕ). i ∷ is) (runs-append xs ys)

runs-map : (text : List ℕ) → runs (map put text) ≡ []
runs-map [] = refl
runs-map (c ∷ cs) = runs-map cs

runs-write : (text : List ℕ) (s : Shell) → runs (internal_write text s) ≡ []
unfolding internal_write
runs-write text s = elim (Bool-cases (s.output_port == 0)) [
  | inl none_there ↦ rw none_there refl
  | inr there ↦ rw there (runs-map text)
]

clash : true ≡ false → ⊥
clash e = cc

not_empty : {n : ℕ} → suc n ≡ 0 → ⊥
not_empty e = omega arith

abbrev Quiet : Shell → List Effect × Shell → Type 0
Quiet s r =
    (runs r.0 ≡ [])
    × (r.1.command_buffer ≡ s.command_buffer)
    × (r.1.command_buffer_index ≡ s.command_buffer_index)

Quiet-if :
    (s : Shell) (b : Bool) (x y : List Effect × Shell)
    → Quiet s x
    → Quiet s y
    → Quiet s (if b then x else y)
Quiet-if s true x y f g = f
Quiet-if s false x y f g = g

quiet-append : (xs ys : List Effect) → runs xs ≡ [] → runs ys ≡ [] → runs (xs ++ ys) ≡ []
quiet-append xs ys f g = runs-append xs ys ∙ ap (λ (is : List ℕ). is ++ runs ys) f ∙ g

cancel_prompt-Quiet : (s : Shell) → Quiet s (cancel_prompt s)
unfolding cancel_prompt
cancel_prompt-Quiet s =
    Quiet-if s (not s.prompt_placed) _ _ (refl, refl, refl)
      (runs-write (replicate 9 8) s, refl, refl)

replace_prompt-Quiet : (s : Shell) → Quiet s (replace_prompt s)
unfolding replace_prompt
replace_prompt-Quiet s =
    let q = Quiet-if s s.prompt_placed _ _ (cancel_prompt-Quiet s) (refl, refl, refl) in
    let cancelled = if s.prompt_placed then cancel_prompt s else ([], s) in
    (
      quiet-append cancelled.0 (internal_write shell_prompt s) q.0 (runs-write shell_prompt s),
      q.1,
      q.2,
    )

shell_write-Quiet : (text : List ℕ) (s : Shell) → Quiet s (shell_write text s)
unfolding shell_write
shell_write-Quiet text s =
    let c = cancel_prompt-Quiet s in
    let r = replace_prompt-Quiet (cancel_prompt s).1 in
    Quiet-if s (s.output_port == 0) _ _ c (
      quiet-append ((cancel_prompt s).0 ++ internal_write text s)
          (replace_prompt (cancel_prompt s).1).0
          (quiet-append (cancel_prompt s).0 (internal_write text s) c.0 (runs-write text s)) r.0,
      r.1 ∙ c.1,
      r.2 ∙ c.2,
    )

abbrev Ran : Option ℕ → List Effect × Shell → Type 0
Ran command r = (runs r.0 ≡ run_of command) × (r.1.command_buffer_index ≡ 0)

dispatch-Ran : (command : Option ℕ) (s : Shell) → Ran command (dispatch command s)
unfolding clear_buffer
dispatch-Ran none s = ((shell_write-Quiet unknown_command s).0, refl)
dispatch-Ran (some i) s = (
  ap (λ (is : List ℕ). i ∷ is) (replace_prompt-Quiet (record s { prompt_placed = false })).0,
  refl,
)

abbrev printable : List ℕ → Bool
printable [] = true
printable (c ∷ cs) = (leb 0x20 c && leb c 0x7e) && printable cs

abbrev all_printable : List (List ℕ) → Bool
all_printable [] = true
all_printable (c ∷ cs) = printable c && all_printable cs

printable-Printable : (t : List ℕ) → printable t ≡ true → Printable t
printable-Printable [] h = tt
printable-Printable (c ∷ cs) h =
    let parts = both (leb 0x20 c && leb c 0x7e) (printable cs) h in
    let bounds = both (leb 0x20 c) (leb c 0x7e) parts.0 in
    (ground arith, ground arith, printable-Printable cs parts.1)

all_printable-AllPrintable : (cs : List (List ℕ)) → all_printable cs ≡ true → AllPrintable cs
all_printable-AllPrintable [] h = tt
all_printable-AllPrintable (c ∷ cs) h =
    let parts = both (printable c) (all_printable cs) h in
    (printable-Printable c parts.0, all_printable-AllPrintable cs parts.1)

commands-AllPrintable : AllPrintable commands
commands-AllPrintable = all_printable-AllPrintable commands refl

-- The text is what the buffer holds.
abbrev Typed : Shell → List ℕ → Type 0
Typed s t = Begins s.command_buffer 0 t × (s.command_buffer_index ≡ length t)

Ran-if :
    (command : Option ℕ) (b : Bool) (x y : List Effect × Shell)
    → (b ≡ true → Ran command x)
    → (b ≡ false → Ran command y)
    → Ran command (if b then x else y)
Ran-if command true x y f g = f refl
Ran-if command false x y f g = g refl

finalize-Ran :
    (s : Shell) (t : List ℕ)
    → Printable t
    → Typed s t
    → Ran (command_of t 0 commands) (command_finalize s)
unfolding command_finalize
finalize-Ran s [] pt h =
    let empty : (s.command_buffer_index == 0) ≡ true = ground arith in
    let q = replace_prompt-Quiet (record s { prompt_placed = false }) in
    Ran-if (command_of [] 0 commands) (s.command_buffer_index == 0) _ _ (λ e. (q.0, q.2 ∙ h.1))
      (λ e. absurd (clash (sym empty ∙ e)))
finalize-Ran s (c ∷ cs) pt h =
    let t = c ∷ cs in
    let b = update s.command_buffer s.command_buffer_index 0 in
    let begins = Begins-update s.command_buffer 0 t s.command_buffer_index 0 (omega arith) h.0 in
    let found : find_command b 0 commands ≡ command_of t 0 commands =
      find-command_of b t 0 commands pt commands-AllPrintable begins (ground arith) in
    Ran-if (command_of t 0 commands) (s.command_buffer_index == 0) _ _
      (λ e. absurd (not_empty (sym h.1 ∙ (==_iff _ _).0 e)))
      (λ e.
        subst (λ o. Ran o (dispatch (find_command b 0 commands) (record s { command_buffer = b })))
          found (dispatch-Ran (find_command b 0 commands) (record s { command_buffer = b })))

abbrev Took : List ℕ → List Effect × Shell → Type 0
Took t r = (runs r.0 ≡ []) × Typed r.1 t

character-Took :
    (c : ℕ) (s : Shell) (t : List ℕ)
    → 0x20 ≤ c
    → c ≤ 0x7e
    → length t < 4095
    → Typed s t
    → Took (t ++ (c ∷ [])) (handle_character c s)
unfolding handle_character buffer_append
character-Took c s t low high room h =
    let no_end : (c == 0xa || c == 0xd) ≡ false = ground arith in
    let taken : (ltb c 0x20 || ltb 0x7e c) ≡ false = ground arith in
    let fits : leb s.command_buffer_index 4094 ≡ true = ground arith in
    let b = update s.command_buffer s.command_buffer_index c in
    let begins = Begins-update s.command_buffer 0 t s.command_buffer_index c (omega arith) h.0 in
    simp (no_end, taken, fits)
      (
        runs-write (c ∷ []) s,
        (Begins-snoc b 0 t c begins (ground arith), omega (arith, length-append t (c ∷ []))),
      )

append_nil : (t : List ℕ) → t ++ [] ≡ t
append_nil [] = refl
append_nil (x ∷ xs) = ap (λ (r : List ℕ). x ∷ r) (append_nil xs)

append_assoc : (t u v : List ℕ) → (t ++ u) ++ v ≡ t ++ (u ++ v)
append_assoc [] u v = refl
append_assoc (x ∷ xs) u v = ap (λ (r : List ℕ). x ∷ r) (append_assoc xs u v)

ending-Ran :
    (ending : ℕ) (s : Shell) (t : List ℕ)
    → (ending == 0xa || ending == 0xd) ≡ true
    → Printable t
    → Typed s t
    → Ran (command_of t 0 commands) (handle_character ending s)
unfolding handle_character
ending-Ran ending s t eol pt h =
    let f = finalize-Ran s t pt h in
    let newline = internal_write (0xd ∷ 0xa ∷ []) s in
    let runs_same =
      runs-append newline (command_finalize s).0
      ∙ ap (λ (is : List ℕ). is ++ runs (command_finalize s).0) (runs-write (0xd ∷ 0xa ∷ []) s) in
    simp eol (runs_same ∙ f.0, f.1)

characters-Took :
    (cs t : List ℕ) (s : Shell)
    → Printable cs
    → length t + length cs ≤ 4095
    → Typed s t
    → Took (t ++ cs) (handle_characters cs s)
characters-Took [] t s pc room h = (refl, subst (Typed s) (sym (append_nil t)) h)
characters-Took (c ∷ cs) t s pc room h =
    let one = character-Took c s t pc.0 pc.1 (omega arith) h in
    let step = handle_character c s in
    let longer = length-append t (c ∷ []) in
    let rest = characters-Took cs (t ++ (c ∷ [])) step.1 pc.2 (omega arith) one.1 in
    (
      quiet-append step.0 (handle_characters cs step.1).0 one.0 rest.0,
      subst (Typed (handle_characters cs step.1).1) (append_assoc t (c ∷ []) cs) rest.1,
    )

-- A line of at most 4095 printable characters that is typed while the buffer is empty, ended by a
-- carriage return or a line feed, runs the command whose name it is and no other, and none where
-- no command has that name; and the buffer is empty again.
pub handle_characters-Ran :
    (text : List ℕ) (ending : ℕ) (s : Shell)
    → Printable text
    → length text ≤ 4095
    → s.command_buffer_index ≡ 0
    → (ending == 0xa || ending == 0xd) ≡ true
    → let typed = handle_characters text s in
      let done = handle_character ending typed.1 in
      (runs (typed.0 ++ done.0) ≡ run_of (command_of text 0 commands))
      × (done.1.command_buffer_index ≡ 0)
handle_characters-Ran text ending s pt room empty eol =
    let typed = characters-Took text [] s pt (omega arith) (tt, empty) in
    let t = (handle_characters text s).1 in
    let done = ending-Ran ending t text eol pt typed.1 in
    (
      runs-append (handle_characters text s).0 (handle_character ending t).0
          ∙ ap (λ (is : List ℕ). is ++ runs (handle_character ending t).0) typed.0
          ∙ done.0,
      done.1,
    )
