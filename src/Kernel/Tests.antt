-- ===== src/Kernel/Tests.antt =====
-- 3_Kernel: the theorems of the kernel at concrete states.
use g21_tp2_so_1c.Base.{
  ℕ, ◌+◌, ◌≡◌, refl, List, [], ◌∷◌, Option, none, some, true, false, replicate, set, arith,
}
use g21_tp2_so_1c.Base.Slots.{EachSlot-set}
use g21_tp2_so_1c.WaitQueue.{max_processes}
use g21_tp2_so_1c.Kernel.State.{Status, ready, running, Process, Scheduler, Keyboard, Kernel}
use g21_tp2_so_1c.Kernel.Scheduler.{find_ready, schedule, add_process, is_running}
use g21_tp2_so_1c.Kernel.Scheduler.Valid.{TableIsValid, OwnPid}
use g21_tp2_so_1c.Kernel.Scheduler.Choice.{
  find_ready-FirstReady, OneRuns, FirstReady, schedule-OneRuns,
}
use g21_tp2_so_1c.Kernel.Scheduler.Progress.{Resumes, schedule-Resumes}
use g21_tp2_so_1c.Text.{strcmp}
use g21_tp2_so_1c.Base.Slots.{find_slot}
use g21_tp2_so_1c.Kernel.State.{Semaphore}
use g21_tp2_so_1c.Kernel.Semaphores.{get_idx_by_name, sem_open, sem_close}
use g21_tp2_so_1c.Kernel.Semaphores.References.{sem_open-sem_close}
use g21_tp2_so_1c.Kernel.Table.Add.{Added, add_process-Added}
use g21_tp2_so_1c.Kernel.Timer.{nobody, never}
use g21_tp2_so_1c.Kernel.Pipes.{max_pipes}
use g21_tp2_so_1c.Kernel.Syscalls.{irq_dispatcher}
use g21_tp2_so_1c.Kernel.Dispatch.{sys_call, malloc}
use g21_tp2_so_1c.Kernel.System.{System, after_call, after_interrupt}
use g21_tp2_so_1c.Kernel.Invariant.{KernelIsValid, KeyboardIsValid, PipeIsValid}
use g21_tp2_so_1c.Kernel.Boot.{boot, IsCold}
use g21_tp2_so_1c.Kernel.Boot.Valid.{boot-KernelIsValid, null-EachSlot}

abbrev no_processes : List (Option Process)
no_processes = replicate max_processes none

abbrev idle : Scheduler
idle = record {
  up = false;
  processes = no_processes;
  current = none;
  size = 0;
  force_reschedule = false;
  total_cpu_ticks = 0;
  null_writes = 0;
}

abbrev keys : ℕ → ℕ → ℕ → Keyboard
keys r w n = record {
  v = 104 ∷ 105 ∷ replicate 254 120;
  read_index = r;
  write_index = w;
  size = n;
  active_shift = false;
  active_caps_lock = false;
  active_ctrl = false;
  end_of_file = false;
  registers_filled = false;
}

-- The kernel's variables before `main`.
abbrev cold : Kernel
cold = record {
  heap = record {
    heap_start = 0;
    heap_size = 0;
    free_list = [];
    mem_info = record { total_mem = 0; used_mem = 0; free_mem = 0 };
    wild_frees = 0;
  };
  sched = idle;
  timer = record { sleeping = replicate max_processes nobody; next_tick_check = never; ticks = 0 };
  sems = record { up = false; semaphores = []; semaphores_count = 0 };
  pipe_table = record { next_fd = 20; pipes = replicate max_pipes none };
  keyboard = keys 0 0 0;
  rsp = 0;
}

keys-KeyboardIsValid : KeyboardIsValid (keys 0 0 0)
keys-KeyboardIsValid = record {
  room = refl;
  read_in = omega arith;
  fits = omega arith;
  write_at = refl;
}

cold-IsCold : IsCold cold
cold-IsCold = record {
  no_scheduler = refl;
  no_semaphores = refl;
  sleepers = refl;
  no_keys = keys-KeyboardIsValid;
  no_pipes = record { length_ok = refl; each = null-EachSlot PipeIsValid max_pipes };
}

boot-KernelIsValid_example : KernelIsValid (boot 4096 cold)
boot-KernelIsValid_example = boot-KernelIsValid 4096 cold cold-IsCold

-- The kernel after it started, a key, and a request for memory.
key_pressed : System
key_pressed = after_interrupt (irq_dispatcher 0 30 1 (boot 4096 cold)) []

asked : System
asked = after_call (sys_call (malloc 100) key_pressed.kernel) key_pressed.pending

abbrev process : ℕ → Status → Process
process pid status = record {
  self = 0;
  pid = pid;
  parent_pid = none;
  status = status;
  priority = 1;
  remaining_quantum = 0;
  unkillable = false;
  stack_base = 0;
  stack_pointer = 4000 + pid;
  entry_point = 0;
  argv = 0;
  args = [];
  name = [];
  return_value = 0;
  waiting_for_pid = none;
  fd_in = 0;
  fd_out = 1;
  waiting_for_stdin = false;
  cpu_ticks = 0;
}

-- Process 0 is ready, and process 1 is running.
abbrev two : Scheduler
two = record idle {
  up = true;
  processes = set (set no_processes 0 (some (process 0 ready))) 1 (some (process 1 running));
  current = some 1;
  size = 2;
}

two-TableIsValid : TableIsValid two
two-TableIsValid = record {
  length_ok = refl;
  counted = refl;
  pids =
      EachSlot-set OwnPid (set no_processes 0 (some (process 0 ready))) 1 (process 1 running)
        (EachSlot-set OwnPid no_processes 0 (process 0 ready) (null-EachSlot OwnPid max_processes)
          refl)
        refl;
  current_in = λ c e. let z : 1 ≡ c = cc in omega (arith, z);
}

Runs1 : ℕ → Process → Type 0
Runs1 i p = is_running p.status ≡ true → two.current ≡ some i

two-OneRuns : OneRuns two
unfolding Runs1
two-OneRuns =
    EachSlot-set Runs1 (set no_processes 0 (some (process 0 ready))) 1 (process 1 running)
      (EachSlot-set Runs1 no_processes 0 (process 0 ready) (null-EachSlot Runs1 max_processes)
        (λ e. cc))
      (λ e. refl)

schedule-OneRuns_example : OneRuns (schedule 4096 two).1
schedule-OneRuns_example = schedule-OneRuns 4096 two two-TableIsValid two-OneRuns

schedule-Resumes_example : Resumes 4096 two (schedule 4096 two).0 (schedule 4096 two).1
schedule-Resumes_example = schedule-Resumes 4096 two 0 two-TableIsValid refl refl

add_process-Added_example :
    Added
      (boot 4096 cold).sched
      false
      0
      1
      (add_process 8192 [] [] false (some (0, 1)) (boot 4096 cold))
add_process-Added_example =
    add_process-Added 8192 [] [] false 0 1 (boot 4096 cold)
      (boot-KernelIsValid 4096 cold cold-IsCold).table_ok

find_ready-FirstReady_example : FirstReady two.processes 2 64 (find_ready two.processes 2 64)
find_ready-FirstReady_example = find_ready-FirstReady two.processes 2 64

-- From place 2 on the search goes round the table and finds process 0.
find_ready_runs : find_ready two.processes 2 64 ≡ some 0
unfolding find_ready
find_ready_runs = refl

-- One semaphore, "mutex", with two users.
abbrev mutex : Semaphore
mutex = record {
  self = 5000;
  value = 1;
  using = 2;
  name = b'm' ∷ b'u' ∷ b't' ∷ b'e' ∷ b'x' ∷ [];
  queue = record { v = replicate max_processes 0; read_index = 0; write_index = 0; size = 0 };
  lock = 1;
}

abbrev with_mutex : Kernel
with_mutex = record cold {
  sems = record {
    up = true;
    semaphores = set (replicate 256 none) 3 (some mutex);
    semaphores_count = 1;
  };
}

mutex_found : get_idx_by_name mutex.name with_mutex.sems ≡ some 3
unfolding get_idx_by_name find_slot strcmp
mutex_found = refl

sem_open-sem_close_example :
    (sem_close mutex.name (sem_open mutex.name 1 with_mutex).1).1 ≡ with_mutex
sem_open-sem_close_example =
    sem_open-sem_close mutex.name 1 3 mutex with_mutex refl (omega arith) mutex_found refl refl
      (omega arith) (omega arith)
