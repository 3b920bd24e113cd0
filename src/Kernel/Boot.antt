-- ===== src/Kernel/Boot.antt =====
-- 3_Kernel/kernel.c: `main`, which sets up the parts of the kernel one after the other. `init_main` is
-- the address of the C function of that name.
pub mod Valid
use g21_tp2_so_1c.Base.{
  ◌%◌, ◌^◌, ◌≢◌, subst, sym, zero, suc, if◌then◌else◌, ap, ℕ, ◌+◌, ◌*◌, ◌^◌, ◌<◌, ◌≡◌, refl, ap,
  ◌∙◌, List, [], ◌∷◌, Option, none, some, Bool, true, false, length, replicate, length-replicate,
  arith, by_bool,
}
use g21_tp2_so_1c.Base.Slots.{slot, occupied, EachSlot}
use g21_tp2_so_1c.Heap.{Heap, my_mem_init}
use g21_tp2_so_1c.Heap.Valid.{my_mem_init-IsValid}
use g21_tp2_so_1c.Heap.Arena.{IsTiled}
use g21_tp2_so_1c.WaitQueue.{max_processes}
use g21_tp2_so_1c.Kernel.State.{
  Kernel, Scheduler, Process, Sleeping, Timer, SemaphoreManager, Semaphore, Pipe, Keyboard,
}
use g21_tp2_so_1c.Kernel.Scheduler.{max_priority, init_scheduler, add_process, stdin, stdout}
use g21_tp2_so_1c.Kernel.Scheduler.Valid.{TableIsValid, OwnPid}
use g21_tp2_so_1c.Kernel.Table.{set_priority}
use g21_tp2_so_1c.Kernel.Timer.{init_sleeping_processes, with_timer, forget_all}
use g21_tp2_so_1c.Kernel.Semaphores.{init_sem_manager, max_semaphores}
use g21_tp2_so_1c.Kernel.Semaphores.Valid.{SemsAreValid, Rests}
use g21_tp2_so_1c.Kernel.Pipes.{init_pipes, max_pipes}
use g21_tp2_so_1c.Kernel.Keyboard.{init_keyboard_driver, kb_sem_name}
use g21_tp2_so_1c.Kernel.Invariant.{KernelIsValid, PipesAreValid, PipeIsValid, KeyboardIsValid}
use g21_tp2_so_1c.Kernel.Invariant.Changes.{sems-KernelIsValid, pipes-KernelIsValid}
use g21_tp2_so_1c.Kernel.Invariant.Add.{add_process-KernelIsValid}
use g21_tp2_so_1c.Kernel.Invariant.Tables.{sem_open-KernelIsValid}

abbrev pub start_free_mem : ℕ
start_free_mem = 0xf00000

abbrev pub mem_size : ℕ
mem_size = 0x100000

-- "init"
abbrev pub init_name : List ℕ
init_name = b'i' ∷ b'n' ∷ b'i' ∷ b't' ∷ []

-- `initScheduler`, with the process that it adds.
unfoldable pub start_scheduler : ℕ → Kernel → Kernel
start_scheduler init_main k =
    if k.sched.up
    then k
    else (add_process init_main [] init_name true (some (stdin, stdout))
        (record k { sched = init_scheduler k.sched })).1

-- "shell"
abbrev pub shell_name : List ℕ
shell_name = b's' ∷ b'h' ∷ b'e' ∷ b'l' ∷ b'l' ∷ []

-- A pid of 16 bits, from a result that may be -1.
abbrev pub pid16 : Option ℕ → ℕ
pid16 none = 65535
pid16 (some p) = p % 2 ^ 16

-- What `initMain` does before its loop; each round of the loop is a `cleanup_terminated_orphans`.
unfoldable pub init_main_start : ℕ → Kernel → Kernel
init_main_start shell_address k =
    let (pid, k1) = add_process shell_address [] shell_name true (some (stdin, stdout)) k in
    record k1 { sched = (set_priority (pid16 pid) max_priority k1.sched).1 }

unfoldable pub boot : ℕ → Kernel → Kernel
unfolding start_scheduler
boot init_main k =
    let k1 = record k { heap = my_mem_init k.heap start_free_mem mem_size } in
    let k2 = with_timer init_sleeping_processes k1 in
    let k3 = start_scheduler init_main k2 in
    let k4 = record k3 { sems = init_sem_manager k3.sems } in
    let k5 = (init_keyboard_driver k4).1 in record k5 { pipe_table = init_pipes k5.pipe_table }

-- The variables as the loader leaves them: the pointers are NULL, and the arrays of the timer, the
-- keyboard and the pipes have their places.
pub record IsCold (k : Kernel) : Type 0 where
  pub no_scheduler : k.sched.up ≡ false
  pub no_semaphores : k.sems.up ≡ false
  pub sleepers : length k.timer.sleeping ≡ max_processes
  pub no_keys : KeyboardIsValid k.keyboard
  pub no_pipes : PipesAreValid k.pipe_table
