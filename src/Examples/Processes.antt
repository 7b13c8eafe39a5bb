-- ===== src/Examples/Processes.antt =====
-- A concrete list of tasks, and a concrete number.
use fenestella.Prelude.{ℕ, ◌≤◌, ◌<◌, ◌≡◌, refl, [], ◌∷◌, arith, ◌==◌, if◌then◌else◌, get_or}
use fenestella.Prelude.{some}
use fenestella.Conv.{utoa}
use fenestella.Conv.Number.{number, utoa-number, IsDigit}
use fenestella.Tasks.{
  Context, Task, Tasks, set_state, task_create_new, task_select_next, task_state_sleeping,
}
use fenestella.Tasks.Numbered.{IsNumbered, task_create_new-IsNumbered, set_state-only}
use fenestella.Tasks.Select.{IsEntered, switched, task_select_next-first}

abbrev blank : Task
blank = record { id = 9; state = 3; priority = 0; ctx = 0; gs_base = 0 }

abbrev context : Context
context = record { registers = []; rsp = 0; rbp = 0; rip = 0x400000; cr3 = 0 }

abbrev tasks : Tasks
tasks = record {
  tasks =
      record { id = 0; state = 0; priority = 0; ctx = 0x10; gs_base = 0x1000 }
      ∷ record { id = 1; state = 1; priority = 0; ctx = 0x20; gs_base = 0x2000 }
      ∷ [];
  task_count = 2;
  current_task_id = 0;
  ia32_gs_base = 0x1000;
  ia32_kernel_gs_base = 0;
  gs_page = λ a. record { tss = 0; pid = 0; rsp = 0; pc = 0; ctx = 0 };
  context = λ a. context;
}

tasks-IsNumbered : IsNumbered tasks
tasks-IsNumbered = ((refl, (refl, tt)), refl)

task_create_new-IsNumbered_example :
    let r = task_create_new 0x7000 0x401000 0x30 0x90000 0x3000 0x4000 tasks in
    let new = get_or r.1.tasks r.0 blank in
    IsNumbered r.1
    × (r.0 ≡ 2)
    × (new.id ≡ r.0)
    × (new.state ≡ task_state_sleeping)
    × ((r.1.context new.ctx).rip ≡ 0x401000)
task_create_new-IsNumbered_example =
    task_create_new-IsNumbered 0x7000 tasks tasks-IsNumbered 0x401000 0x30 0x90000 0x3000 0x4000
      blank

set_state-only_example :
    (1 < 2
      → IsNumbered (set_state 3 1 tasks)
        × ((j : ℕ)
            → (get_or (set_state 3 1 tasks).tasks j blank).state
              ≡ (if j == 1 then 3 else (get_or tasks.tasks j blank).state)))
    × (2 ≤ 1 → set_state 3 1 tasks ≡ tasks)
set_state-only_example = set_state-only tasks tasks-IsNumbered 3 1 blank

-- The same list with its last task as the current one.
abbrev last_runs : Tasks
last_runs = record tasks { current_task_id = 1; ia32_gs_base = 0x2500 }

task_select_next-first_example :
    let r = task_select_next 0x7000 blank last_runs in
    IsEntered 0x7000 blank 0 last_runs.context r
    × ((j : ℕ) → get_or r.1.tasks j blank ≡ switched 0x2500 1 0 j (get_or last_runs.tasks j blank))
task_select_next-first_example =
    task_select_next-first 0x7000 blank last_runs tasks-IsNumbered (omega arith)

utoa-number_example :
    (written : ℕ → ℕ) × (n : ℕ) × (utoa 64 255 (λ i. 7) 16 ≡ some (some written))
    × (number 16 written n ≡ 255)
    × ((j : ℕ) → j < n → IsDigit 16 (written j))
    × (written n ≡ 0)
    × (0 < n)
    × (n ≤ 16)
utoa-number_example =
    utoa-number 64 255 (λ i. 7) 16 (omega arith) (omega arith) (omega arith) (omega arith)
