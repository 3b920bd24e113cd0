-- ===== src/Kernel/Invariant.antt =====
-- 3_Kernel: what holds of the whole kernel state whenever a process stands still.
pub mod Changes
pub mod Steps
pub mod Calls
pub mod Ends
pub mod Syscalls
pub mod Interrupts
pub mod Tables
pub mod Add
use g21_tp2_so_1c.Base.{ℕ, ◌≤◌, ◌<◌, ◌≡◌, List, Option, length}
use g21_tp2_so_1c.Base.Slots.{EachSlot}
use g21_tp2_so_1c.Base.Ring.{spot}
use g21_tp2_so_1c.WaitQueue.{max_processes}
use g21_tp2_so_1c.Heap.Arena.{IsTiled}
use g21_tp2_so_1c.Kernel.State.{Kernel, Pipe, PipeTable, Keyboard, Timer}
use g21_tp2_so_1c.Kernel.Pipes.{max_pipes, pipe_size}
use g21_tp2_so_1c.Kernel.Keyboard.{buffer_size}
use g21_tp2_so_1c.Kernel.Scheduler.Valid.{TableIsValid}
use g21_tp2_so_1c.Kernel.Semaphores.Valid.{SemsAreValid}

-- Both positions are inside the buffer of a pipe.
pub record PipeIsValid (i : ℕ) (p : Pipe) : Type 0 where
  pub room : length p.buffer ≡ pipe_size
  pub read_in : p.read_pos < pipe_size
  pub write_in : p.write_pos < pipe_size

pub record PipesAreValid (t : PipeTable) : Type 0 where
  pub length_ok : length t.pipes ≡ max_pipes
  pub each : EachSlot PipeIsValid t.pipes

-- The write index stands `size` places behind the read index.
pub record KeyboardIsValid (kb : Keyboard) : Type 0 where
  pub room : length kb.v ≡ buffer_size
  pub read_in : kb.read_index < buffer_size
  pub fits : kb.size ≤ buffer_size
  pub write_at : kb.write_index ≡ spot buffer_size kb.read_index kb.size

pub record KernelIsValid (k : Kernel) : Type 0 where
  pub heap_ok : IsTiled k.heap
  pub table_ok : TableIsValid k.sched
  pub sleeping_ok : length k.timer.sleeping ≡ max_processes
  pub sems_ok : SemsAreValid k.sems
  pub pipes_ok : PipesAreValid k.pipe_table
  pub keyboard_ok : KeyboardIsValid k.keyboard
