-- ===== src/Tasks/Select.antt =====
-- The choice of the next task.
use fenestella.Prelude.{
  ℕ, ◌+◌, ◌<◌, ◌≡◌, refl, ap, ◌∙◌, true, arith, ◌==◌, if◌then◌else◌, get_or, length, update, subst,
}
use fenestella.Tasks.{
  Context, GsBase, Task, Tasks, modify, enter_task, task_select_next, task_state_execution,
  task_state_waiting,
}
use fenestella.Tasks.Numbered.{
  IsNumbered, find_task-at, Numbered-modify, length-modify, get_or-modify, id_of,
}

update_self : {B : Type 0} (f : ℕ → B) (a : ℕ) (b : B) → update f a b a ≡ b
update_self f a b = let here : (a == a) ≡ true = ground arith in rw here refl

abbrev pub executing : Task → Task
executing t = record t { state = task_state_execution }

abbrev pub waiting : ℕ → Task → Task
waiting gs t = record t { state = task_state_waiting; gs_base = gs }

-- The number of the task that is chosen.
abbrev pub chosen : Tasks → ℕ
chosen s = if s.current_task_id + 1 == s.task_count then 0 else s.current_task_id

-- What becomes of the task `t` at number `j` where the task at `i` was current and the one at `n`
-- is next: the current one waits, and its base register is saved; the next one executes.
abbrev pub switched : ℕ → ℕ → ℕ → ℕ → Task → Task
switched gs i n j t =
    let saved = if j == i then waiting gs t else t in if j == n then executing saved else saved

-- The list and the registers behind the choice of the task at `n`.
pub record IsEntered (rsp0 : ℕ) (blank : Task) (n : ℕ) (context : ℕ → Context) (r : ℕ × Tasks)
    : Type 0 where
  pub numbered : IsNumbered r.1
  pub result : r.0 ≡ n
  pub current : r.1.current_task_id ≡ n
  pub base : r.1.ia32_gs_base ≡ (get_or r.1.tasks n blank).gs_base
  pub kernel_base : r.1.ia32_kernel_gs_base ≡ 0
  pub page : r.1.gs_page r.1.ia32_gs_base ≡ record {
    tss = 0;
    pid = n;
    rsp = rsp0;
    pc = (context (get_or r.1.tasks n blank).ctx).rip;
    ctx = (get_or r.1.tasks n blank).ctx;
  }
  pub contexts : r.1.context ≡ context

chosen-lt : (s : Tasks) → s.current_task_id < s.task_count → chosen s < s.task_count
chosen-lt s lt = ground arith

module _ (rsp0 : ℕ) (blank : Task) where
  enter_task-IsEntered :
      (s : Tasks)
      → IsNumbered s
      → s.current_task_id < s.task_count
      → let r = enter_task rsp0 blank s.current_task_id s in
        IsEntered rsp0 blank (chosen s) s.context r
        × ((j : ℕ)
            → get_or r.1.tasks j blank ≡ (
                if j == chosen s
                then executing (get_or s.tasks j blank)
                else get_or s.tasks j blank))
  unfolding enter_task
  enter_task-IsEntered s numbered lt =
      let n = chosen s in
      let same : (if s.current_task_id + 1 == length s.tasks then 0 else s.current_task_id) ≡ n =
        ap (λ c. if s.current_task_id + 1 == c then 0 else s.current_task_id) numbered.1 in
      let less : n < length s.tasks = omega (arith, chosen-lt s lt, numbered.1) in
      let tasks = modify n executing s.tasks in
      let is : (j : ℕ)
          → get_or tasks j blank
            ≡ (if j == n then executing (get_or s.tasks j blank) else get_or s.tasks j blank) =
        λ j. get_or-modify executing n j s.tasks blank less in
      let numbered' = Numbered-modify executing (λ t. refl) n 0 s.tasks numbered.0 in
      let thread = get_or tasks n blank in
      let id : thread.id ≡ n =
        id_of 0 n tasks blank numbered' (omega (arith, length-modify executing n s.tasks))
        ∙ omega arith in
      let page : ℕ → GsBase = λ pid. record {
        tss = 0;
        pid = pid;
        rsp = rsp0;
        pc = (s.context thread.ctx).rip;
        ctx = thread.ctx;
      } in
      rw same (
        record {
          numbered = (numbered', length-modify executing n s.tasks ∙ numbered.1);
          result = id;
          current = id;
          base = refl;
          kernel_base = refl;
          page = update_self s.gs_page thread.gs_base (page thread.id) ∙ ap page id;
          contexts = refl;
        },
        is,
      )

  select-steps :
      (s : Tasks)
      → IsNumbered s
      → s.current_task_id < s.task_count
      → task_select_next rsp0 blank s
        ≡ enter_task rsp0 blank s.current_task_id
            (record s { tasks = modify s.current_task_id (waiting s.ia32_gs_base) s.tasks })
  unfolding task_select_next
  select-steps s numbered lt = rw (find_task-at s numbered s.current_task_id lt, task_select_next)

  task_select_next-IsEntered :
      (s : Tasks)
      → IsNumbered s
      → s.current_task_id < s.task_count
      → let r = task_select_next rsp0 blank s in
        IsEntered rsp0 blank (chosen s) s.context r
        × ((j : ℕ)
            → get_or r.1.tasks j blank
              ≡ switched s.ia32_gs_base s.current_task_id (chosen s) j (get_or s.tasks j blank))
  task_select_next-IsEntered s numbered lt =
      let i = s.current_task_id in
      let gs = s.ia32_gs_base in
      let waits = record s { tasks = modify i (waiting gs) s.tasks } in
      let numbered' : IsNumbered waits = (
        Numbered-modify (waiting gs) (λ t. refl) i 0 s.tasks numbered.0,
        length-modify (waiting gs) i s.tasks ∙ numbered.1,
      ) in
      let e = enter_task-IsEntered waits numbered' lt in
      let saved : (j : ℕ)
          → get_or waits.tasks j blank
            ≡ (if j == i then waiting gs (get_or s.tasks j blank) else get_or s.tasks j blank) =
        λ j. get_or-modify (waiting gs) i j s.tasks blank (omega arith) in
      rw (select-steps s numbered lt)
        (e.0, λ j. e.1 j ∙ ap (λ t. if j == chosen s then executing t else t) (saved j))

  -- `task_select_next` where the current task is the last of the numbered list: the first task is
  -- chosen, becomes the current task and executes, and its base register is loaded, with its page
  -- filled in from its id and its context; the last task waits, unless it is the first, and the base
  -- register is saved in it; no other task changes, and the list stays numbered.
  pub task_select_next-first :
      (s : Tasks)
      → IsNumbered s
      → s.current_task_id + 1 ≡ s.task_count
      → let r = task_select_next rsp0 blank s in
        IsEntered rsp0 blank 0 s.context r
        × ((j : ℕ)
            → get_or r.1.tasks j blank
              ≡ switched s.ia32_gs_base s.current_task_id 0 j (get_or s.tasks j blank))
  task_select_next-first s numbered last =
      let first : chosen s ≡ 0 = ground (arith, last) in
      subst
        (λ n.
          let r = task_select_next rsp0 blank s in
          IsEntered rsp0 blank n s.context r
          × ((j : ℕ)
              → get_or r.1.tasks j blank
                ≡ switched s.ia32_gs_base s.current_task_id n j (get_or s.tasks j blank)))
        first (task_select_next-IsEntered s numbered (omega (arith, last)))
