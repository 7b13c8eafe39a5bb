-- ===== src/Tasks.antt =====
-- kernel/src/proc/task/task.c: the list of the tasks, their states, and the choice of the next.
pub mod Numbered
pub mod Select
use fenestella.Prelude.{
  ℕ, zero, suc, ◌+◌, ◌-◌, ◌^◌, Bool, true, false, Option, none, some, List, [], ◌∷◌, ◌++◌, ◌==◌,
  if◌then◌else◌, get_or, length, replicate, update,
}

abbrev pub task_state_execution : ℕ
task_state_execution = 0

abbrev pub task_state_waiting : ℕ
task_state_waiting = 1

abbrev pub task_state_sleeping : ℕ
task_state_sleeping = 2

abbrev pub task_state_dead : ℕ
task_state_dead = 3

-- `task_context_t`
pub record Context : Type 0 where
  pub registers : List ℕ
  pub rsp : ℕ
  pub rbp : ℕ
  pub rip : ℕ
  pub cr3 : ℕ

-- `task_t`; `ctx` and `gs_base` are addresses.
pub record Task : Type 0 where
  pub id : ℕ
  pub state : ℕ
  pub priority : ℕ
  pub ctx : ℕ
  pub gs_base : ℕ

-- `gs_kernel_base_t`
pub record GsBase : Type 0 where
  pub tss : ℕ
  pub pid : ℕ
  pub rsp : ℕ
  pub pc : ℕ
  pub ctx : ℕ

-- The list, the variables of task.c, the two base registers, and the pages and contexts by their
-- addresses.
pub record Tasks : Type 0 where
  pub tasks : List Task
  pub task_count : ℕ
  pub current_task_id : ℕ
  pub ia32_gs_base : ℕ
  pub ia32_kernel_gs_base : ℕ
  pub gs_page : ℕ → GsBase
  pub context : ℕ → Context

-- The loops that look for a task by its id, from number `i` of the list on.
abbrev pub find_task : ℕ → ℕ → List Task → Option ℕ
find_task task_id i [] = none
find_task task_id i (t ∷ ts) = if t.id == task_id then some i else find_task task_id (i + 1) ts

-- A write through the pointer to task number `i`.
abbrev pub modify : ℕ → (Task → Task) → List Task → List Task
modify i f [] = []
modify zero f (t ∷ ts) = f t ∷ ts
modify (suc i) f (t ∷ ts) = t ∷ modify i f ts

-- `task_schedule`, `task_sleep` and `task_kill`, which differ in the state.
unfoldable pub set_state : ℕ → ℕ → Tasks → Tasks
set_state state task_id s = elim (find_task task_id 0 s.tasks) [
  | none ↦ s
  | some i ↦ record s { tasks = modify i (λ t. record t { state = state }) s.tasks }
]

-- `rsp0` is `tss_get(0)->rsp[0]`; `ctx`, `stack`, `gs_base` and `page_table` are what
-- `malloc`, `task_new_stack`, `task_new_gs_base` and `task_new_page_table` return.
module _ (rsp0 : ℕ) where
  unfoldable pub task_create_new : ℕ → ℕ → ℕ → ℕ → ℕ → Tasks → ℕ × Tasks
  task_create_new entry ctx stack gs_base page_table s =
      let context : Context = record {
        registers = replicate 14 0;
        rsp = stack;
        rbp = stack;
        rip = entry;
        cr3 = page_table;
      } in
      let new : Task = record {
        id = s.task_count;
        state = task_state_sleeping;
        priority = 0;
        ctx = ctx;
        gs_base = gs_base;
      } in
      let base : GsBase = record {
        tss = 0;
        pid = s.task_count;
        rsp = rsp0;
        pc = entry;
        ctx = ctx;
      } in
      (
        s.task_count,
        record s {
          tasks = s.tasks ++ (new ∷ []);
          task_count = s.task_count + 1;
          gs_page = update s.gs_page gs_base base;
          context = update s.context ctx context;
        },
      )

  -- The part of `task_select_next` from the test of `thread->next` on, with the current task at
  -- number `i`; `blank` is read where the list has no task.
  unfoldable pub enter_task : Task → ℕ → Tasks → ℕ × Tasks
  enter_task blank i s =
      let chosen = if i + 1 == length s.tasks then 0 else i in
      let tasks = modify chosen (λ t. record t { state = task_state_execution }) s.tasks in
      let thread = get_or tasks chosen blank in
      (
        thread.id,
        record s {
          tasks = tasks;
          current_task_id = thread.id;
          ia32_gs_base = thread.gs_base;
          ia32_kernel_gs_base = 0;
          gs_page = update s.gs_page thread.gs_base (record {
            tss = 0;
            pid = thread.id;
            rsp = rsp0;
            pc = (s.context thread.ctx).rip;
            ctx = thread.ctx;
          });
        },
      )

  -- `-1` where the current task is not in the list.
  unfoldable pub task_select_next : Task → Tasks → ℕ × Tasks
  task_select_next blank s = elim (find_task s.current_task_id 0 s.tasks) [
    | none ↦ (2 ^ 64 - 1, s)
    | some i ↦ enter_task blank i (record s {
      tasks =
          modify i (λ t. record t { state = task_state_waiting; gs_base = s.ia32_gs_base }) s.tasks;
    })
  ]
