-- ===== src/Kernel/State.antt =====
-- The kernel's variables: process_t (process.h), scheduler_t (scheduler.c), the sleeping table
-- (time.c), semaphore_t and its manager (synchro.c), pipe_t (pipes.c) and the keyboard's buffer and
-- flags (keyboard.c). A pid of type int16_t or uint32_t that may be -1 is an `Option`, `none` for -1.
-- The pointers of the tables are `Option`s, `none` for NULL.
use g21_tp2_so_1c.Base.{ℕ, Bool, List, Option}
use g21_tp2_so_1c.Heap.{Heap}
use g21_tp2_so_1c.WaitQueue.{CircularBuffer}

pub data Status : Type 0 where
  ready blocked running terminated : Status

-- `self` is the address of the structure, `args` those of the strings in `argv`.
pub record Process : Type 0 where
  pub self : ℕ
  pub pid : ℕ
  pub parent_pid : Option ℕ
  pub status : Status
  pub priority : ℕ
  pub remaining_quantum : ℕ
  pub unkillable : Bool
  pub stack_base : ℕ
  pub stack_pointer : ℕ
  pub entry_point : ℕ
  pub argv : ℕ
  pub args : List ℕ
  pub name : List ℕ
  pub return_value : ℕ
  pub waiting_for_pid : Option ℕ
  pub fd_in : ℕ
  pub fd_out : ℕ
  pub waiting_for_stdin : Bool
  pub cpu_ticks : ℕ

-- `up` is `scheduler != NULL`. `null_writes` is no variable of the code: it counts the times that
-- `schedule` writes through a NULL process pointer.
pub record Scheduler : Type 0 where
  pub up : Bool
  pub processes : List (Option Process)
  pub current : Option ℕ
  pub size : ℕ
  pub force_reschedule : Bool
  pub total_cpu_ticks : ℕ
  pub null_writes : ℕ

pub record Sleeping : Type 0 where
  pub end_tick : ℕ
  pub pid : Option ℕ

pub record Timer : Type 0 where
  pub sleeping : List Sleeping
  pub next_tick_check : ℕ
  pub ticks : ℕ

-- `value` and `using` are 32-bit patterns; `lock` is 1 where it is free.
pub record Semaphore : Type 0 where
  pub self : ℕ
  pub value : ℕ
  pub using : ℕ
  pub name : List ℕ
  pub queue : CircularBuffer
  pub lock : ℕ

pub record SemaphoreManager : Type 0 where
  pub up : Bool
  pub semaphores : List (Option Semaphore)
  pub semaphores_count : ℕ

-- `size` is an `int`, a 32-bit pattern.
pub record Pipe : Type 0 where
  pub self : ℕ
  pub buffer : List ℕ
  pub fd_read : ℕ
  pub fd_write : ℕ
  pub read_pos : ℕ
  pub write_pos : ℕ
  pub size : ℕ
  pub write_sem : List ℕ
  pub read_sem : List ℕ

pub record PipeTable : Type 0 where
  pub next_fd : ℕ
  pub pipes : List (Option Pipe)

pub record Keyboard : Type 0 where
  pub v : List ℕ
  pub read_index : ℕ
  pub write_index : ℕ
  pub size : ℕ
  pub active_shift : Bool
  pub active_caps_lock : Bool
  pub active_ctrl : Bool
  pub end_of_file : Bool
  pub registers_filled : Bool

-- `rsp` is the stack pointer that the timer interrupt saves, and then restores.
pub record Kernel : Type 0 where
  pub heap : Heap
  pub sched : Scheduler
  pub timer : Timer
  pub sems : SemaphoreManager
  pub pipe_table : PipeTable
  pub keyboard : Keyboard
  pub rsp : ℕ
