-- ===== src/Shell.antt =====
-- 4_Userland/shellCodeModule: the shell's programs.
pub mod Random
pub mod Philosophers
pub mod Snake
pub mod Synchro
pub mod Numbers
pub mod Commands
pub mod Pipeline
pub mod Clock
pub mod Streams
pub mod Lines
pub mod Printf
mod Tests
mod SnakeTests
mod LineTests
mod SynchroTests
