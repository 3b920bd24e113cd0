-- ===== src/Lib.antt =====
-- A small operating system: a kernel (3_Kernel) with a heap, processes, a round-robin scheduler,
-- semaphores, pipes, a keyboard driver and a timer, and a shell in user space (4_Userland).
--
-- Parts and files. A C function keeps its name, in snake case.
--   Heap       3_Kernel/2_libraries/memoryManager.c: the first-fit heap. The linked list of headers is
--              a list of blocks in address order.
--   Buddy      3_Kernel/2_libraries/buddyMemoryManager.c: the buddy heap, which the build can choose in
--              its place. The intrusive lists live in a memory of 64-bit words.
--   WaitQueue  3_Kernel/2_libraries/synchro.c: the ring of the processes that wait for a semaphore.
--   Text       3_Kernel/2_libraries/lib.c; Text/Words is strLib.c of the shell.
--   Kernel     the rest of the kernel over one state (Kernel/State): Process (process.c), Scheduler,
--              Table, Block and Exit (scheduler.c), Timer (3_drivers/time.c), Semaphores (synchro.c),
--              Pipes (pipes.c), Keyboard (3_drivers/keyboard.c), Syscalls and Dispatch
--              (4_interruptions/syscalls.c, irqDispatcher.c), Boot (kernel.c).
--   Screen     3_Kernel/3_drivers/videoDriver.c with drawChar of 2_libraries/font.c: the cursor, and the
--              calls that draw with their pixels (Screen/Pixels).
--   Shell      4_Userland/shellCodeModule: Philosophers (2_libraries/phylo.c), Snake (4_snake/snake.c)
--              with Random (random.c), Commands and Pipeline (the lines of shellFunctions.c), Streams
--              and Clock (its cat, wc and filter, and the time, with 3_Kernel/3_drivers/rtc.c), Numbers,
--              Lines and Printf (2_libraries/stdLib.c and strLib.c), Synchro (5_tests/testSynchro.c).
--   Base       C arrays as lists, rings in arrays, tables of pointers, Boolean tests.
--
-- How they interact. A system call or an interrupt acts on the whole state. An operation that may
-- switch its caller out is a run (Kernel/Run): it ends, or it stops in a state and goes on from the
-- state in which it is resumed. Kernel/System puts runs together: calls, interrupts, resumptions and
-- the steps of the init process, in any order. Kernel/Invariant is what should hold of the state
-- whenever a process stands still; its modules take the operations one by one. Interrupts are off
-- inside the kernel, so a run is interrupted only where it gives up the processor.
--
-- The philosophers are processes of their own: Shell/Philosophers takes one statement for a step,
-- and a semaphore for its value, which a wait lowers and a post raises. Their number changes by the
-- commands `a` and `r`, each one step up to its check, which is a step of its own and may read the
-- states at different times; no command comes in the midst of a philosopher's statement. In
-- Shell/Pipeline the kernel's answers to a command line are arguments, and the calls that the line
-- makes are listed.
--
-- Numbers are natural numbers, with the wrap-around of their C type written out; -1 and NULL are
-- `none`. A write through a NULL pointer reaches no process; the field `null_writes` counts those of
-- `schedule`. A call of `my_free` with a pointer that heads no block is counted in `wild_frees`:
-- what the blocks are after it is not modelled, and the invariant of the kernel is stated of the
-- states before. A pointer into the table at index -1 is taken for NULL. An index past an array
-- changes nothing.
--
-- The processes of 5_tests/testSynchro.c are steps of the same kind in Shell/Synchro; the read and
-- the write of the shared variable are two, and the semaphore, made anew by the first that opens it,
-- is its value and the number of processes that have it open.
--
-- Fuel. The second loop of `remove_process_from_queue` runs at most once for each of the 64 places.
-- `log2_ceil` doubles at most 32 times up to 2^31. `itoa` prints at most ten digits, `itoaHex` 16.
-- `from_decimal` and `convert_to_base_string` print at most 31 digits. The loop of `placeFood` runs
-- over the ticks at which it draws. A text that overruns the buffer of `printf` or of `scanf` is
-- `none`. The loop of `argsToBuffer` runs over the length of its format. The walk along a free list
-- of the buddy heap passes at most as many blocks as the heap can hold; its merges and splits are
-- counted by the orders.
--
-- Not modelled: the bytes of the frame buffer, the bits of the glyphs, the text-mode console, the
-- clock chip and the speaker (what their calls return is an argument), the assembly, the module
-- loader, the boot loader and the image tools, the register snapshot of the keyboard, `sys_sleep`,
-- which spins on the tick counter, the shell's drawing, its music, and its commands that print fixed
-- text or only make a system call. A run reaches its pipe by its place in the table, where the code
-- keeps the pointer: on a pipe destroyed meanwhile it takes no more steps.
pub mod Base
pub mod Heap
pub mod Text
pub mod WaitQueue
pub mod Kernel
pub mod Buddy
pub mod Screen
pub mod Shell
