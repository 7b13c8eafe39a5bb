-- ===== src/Tasks/Numbered.antt =====
-- The list of the tasks is numbered by their ids.
use fenestella.Prelude.{
  ℕ, zero, suc, ◌+◌, ◌≤◌, ◌<◌, ◌≡◌, refl, ap, sym, subst, ◌∙◌, Bool, true, false, none, some, List,
  [], ◌∷◌, ◌++◌, arith, ◌==◌, if◌then◌else◌, get_or, length, length-append, ltb, inl, inr,
  Bool-cases,
}
use fenestella.Tasks.{
  Task, Tasks, find_task, modify, set_state, task_create_new, task_state_sleeping,
}

-- From number `i` on, each task has its number as its id.
abbrev pub Numbered : ℕ → List Task → Type 0
Numbered i [] = Unit
Numbered i (t ∷ ts) = (t.id ≡ i) × Numbered (i + 1) ts

abbrev pub IsNumbered : Tasks → Type 0
IsNumbered s = Numbered 0 s.tasks × (length s.tasks ≡ s.task_count)

find_task-Numbered :
    (id i : ℕ) (ts : List Task)
    → Numbered i ts
    → i ≤ id
    → find_task id i ts ≡ (if ltb id (i + length ts) then some id else none)
find_task-Numbered id i [] h le = ground arith
find_task-Numbered id i (t ∷ ts) h le = elim (Bool-cases (t.id == id)) [
  | inl here ↦
      let same : i ≡ id = ground arith in
      let inside : ltb id (i + suc (length ts)) ≡ true = ground arith in
      rw (here, inside) (ap some same)
  | inr other ↦
      let rest = find_task-Numbered id (i + 1) ts h.1 (ground arith) in
      rw other (rest ∙ ap (λ b. if ltb id b then some id else none) (omega arith))
]

module _ (f : Task → Task) (same_id : (t : Task) → (f t).id ≡ t.id) where
  pub Numbered-modify : (n i : ℕ) (ts : List Task) → Numbered i ts → Numbered i (modify n f ts)
  Numbered-modify n i [] h = h
  Numbered-modify zero i (t ∷ ts) h = (same_id t ∙ h.0, h.1)
  Numbered-modify (suc n) i (t ∷ ts) h = (h.0, Numbered-modify n (i + 1) ts h.1)

pub length-modify : (f : Task → Task) (n : ℕ) (ts : List Task) → length (modify n f ts) ≡ length ts
length-modify f n [] = refl
length-modify f zero (t ∷ ts) = refl
length-modify f (suc n) (t ∷ ts) = ap suc (length-modify f n ts)

pub get_or-modify :
    (f : Task → Task) (n j : ℕ) (ts : List Task) (d : Task)
    → n < length ts
    → get_or (modify n f ts) j d ≡ (if j == n then f (get_or ts j d) else get_or ts j d)
get_or-modify f n j [] d lt = absurd (omega arith)
get_or-modify f zero zero (t ∷ ts) d lt = refl
get_or-modify f zero (suc j) (t ∷ ts) d lt = ground arith
get_or-modify f (suc n) zero (t ∷ ts) d lt = ground arith
get_or-modify f (suc n) (suc j) (t ∷ ts) d lt =
    let rest = get_or-modify f n j ts d (omega arith) in
    let same : (suc j == suc n) ≡ (j == n) = ground arith in rw same rest

pub id_of :
    (i j : ℕ) (ts : List Task) (d : Task)
    → Numbered i ts
    → j < length ts
    → (get_or ts j d).id ≡ i + j
id_of i j [] d h lt = absurd (omega arith)
id_of i zero (t ∷ ts) d h lt = h.0 ∙ omega arith
id_of i (suc j) (t ∷ ts) d h lt = id_of (i + 1) j ts d h.1 (omega arith) ∙ omega arith

Numbered-snoc :
    (i : ℕ) (ts : List Task) (t : Task)
    → Numbered i ts
    → t.id ≡ i + length ts
    → Numbered i (ts ++ (t ∷ []))
Numbered-snoc i [] t h e = (e ∙ omega arith, tt)
Numbered-snoc i (x ∷ xs) t h e = (h.0, Numbered-snoc (i + 1) xs t h.1 (e ∙ omega arith))

get_or-snoc : (ts : List Task) (t d : Task) → get_or (ts ++ (t ∷ [])) (length ts) d ≡ t
get_or-snoc [] t d = refl
get_or-snoc (x ∷ xs) t d = get_or-snoc xs t d

module _ (rsp0 : ℕ) (s : Tasks) (numbered : IsNumbered s) where
  -- A new task gets the next id, sleeps, starts at its entry, and is the last of the list, which is
  -- numbered again.
  pub task_create_new-IsNumbered :
      (entry ctx stack gs_base page_table : ℕ) (blank : Task)
      → let r = task_create_new rsp0 entry ctx stack gs_base page_table s in
        let new = get_or r.1.tasks r.0 blank in
        IsNumbered r.1
        × (r.0 ≡ s.task_count)
        × (new.id ≡ r.0)
        × (new.state ≡ task_state_sleeping)
        × ((r.1.context new.ctx).rip ≡ entry)
  unfolding task_create_new
  task_create_new-IsNumbered entry ctx stack gs_base page_table blank =
      let r = task_create_new rsp0 entry ctx stack gs_base page_table s in
      let new : Task = record {
        id = s.task_count;
        state = task_state_sleeping;
        priority = 0;
        ctx = ctx;
        gs_base = gs_base;
      } in
      let there : get_or r.1.tasks s.task_count blank ≡ new =
        ap (λ n. get_or (s.tasks ++ (new ∷ [])) n blank) (sym numbered.1)
        ∙ get_or-snoc s.tasks new blank in
      (
        (
          Numbered-snoc 0 s.tasks new numbered.0 (sym numbered.1 ∙ omega arith),
          length-append s.tasks (new ∷ []) ∙ omega arith,
        ),
        refl,
        ap (λ t. t.id) there,
        ap (λ t. t.state) there,
        ap (λ t. (r.1.context t.ctx).rip) there ∙ ground arith,
      )

pub state-if :
    (b : Bool) (t u : Task) → (if b then t else u).state ≡ (if b then t.state else u.state)
state-if true t u = refl
state-if false t u = refl

module _ (s : Tasks) (numbered : IsNumbered s) where
  pub find_task-at : (id : ℕ) → id < s.task_count → find_task id 0 s.tasks ≡ some id
  find_task-at id lt =
      let inside : ltb id (0 + length s.tasks) ≡ true = ground arith in
      find_task-Numbered id 0 s.tasks numbered.0 (omega arith) ∙ rw inside refl

  find_task-not : (id : ℕ) → s.task_count ≤ id → find_task id 0 s.tasks ≡ none
  find_task-not id le =
      let outside : ltb id (0 + length s.tasks) ≡ false = ground arith in
      find_task-Numbered id 0 s.tasks numbered.0 (omega arith) ∙ rw outside refl

  set_state-at :
      (state id : ℕ)
      → id < s.task_count
      → set_state state id s
        ≡ record s { tasks = modify id (λ t. record t { state = state }) s.tasks }
  unfolding set_state
  set_state-at state id lt = rw (find_task-at id lt, set_state)

  set_state-not : (state id : ℕ) → s.task_count ≤ id → set_state state id s ≡ s
  unfolding set_state
  set_state-not state id le = rw (find_task-not id le, set_state)

  -- Setting the state of a task changes the state of that task and of no other, and the list stays
  -- numbered; with an id that no task has, nothing changes.
  pub set_state-only :
      (state id : ℕ) (blank : Task)
      → (id < s.task_count
          → IsNumbered (set_state state id s)
            × ((j : ℕ)
                → (get_or (set_state state id s).tasks j blank).state
                  ≡ (if j == id then state else (get_or s.tasks j blank).state)))
        × (s.task_count ≤ id → set_state state id s ≡ s)
  set_state-only state id blank =
      let f : Task → Task = λ t. record t { state = state } in
      (
        λ lt.
            let at = set_state-at state id lt in
            (
              subst IsNumbered (sym at) (
                Numbered-modify f (λ t. refl) id 0 s.tasks numbered.0,
                length-modify f id s.tasks ∙ numbered.1,
              ),
              λ j.
                  ap (λ t. (get_or t.tasks j blank).state) at
                  ∙ ap (λ t. t.state) (get_or-modify f id j s.tasks blank (omega arith))
                  ∙ state-if (j == id) (f (get_or s.tasks j blank)) (get_or s.tasks j blank),
            ),
        λ le. set_state-not state id le,
      )
