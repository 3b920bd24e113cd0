-- ===== src/Kernel.antt =====
-- 3_Kernel: the process table, the scheduler, the timer, semaphores, pipes and the keyboard, over
-- one state. An operation of a process that may be switched out is an action of `Run`.
pub mod State
pub mod Run
pub mod Process
pub mod Scheduler
pub mod Table
pub mod Timer
pub mod Block
pub mod Semaphores
pub mod Pipes
pub mod Keyboard
pub mod Exit
pub mod Syscalls
pub mod Dispatch
pub mod System
pub mod Invariant
pub mod Boot
mod Tests
mod QueueTests
