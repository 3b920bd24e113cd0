-- ===== src/Kernel/Dispatch.antt =====
-- 3_Kernel/4_interruptions/syscalls.c: `sysCallHandler` and its table. A call is its number with its
-- arguments, as the C function of the table takes them; the result is the register's 64 bits. The
-- calls on the screen, the clock chip and the speaker (1, 2, 5, 6, 8, 9, 10 and 11) touch no state
-- of the model: what they return is an argument. Call 0, `sys_sleep`, spins on the tick counter and is
-- not modelled.
use g21_tp2_so_1c.Base.{
  if◌then◌else◌, ltb, ℕ, ◌+◌, ◌-◌, ◌%◌, ◌^◌, List, Option, none, some, Bool, length,
}
use g21_tp2_so_1c.Heap.{MemInfo, my_malloc, mem_dump}
use g21_tp2_so_1c.Kernel.State.{Kernel}
use g21_tp2_so_1c.Kernel.Run.{M, pure, read, step, ◌>>=◌}
use g21_tp2_so_1c.Kernel.Process.{free}
use g21_tp2_so_1c.Kernel.Scheduler.{add_process}
use g21_tp2_so_1c.Kernel.Table.{unblock_process, set_priority, get_pid, process_status, ProcessInfo}
use g21_tp2_so_1c.Kernel.Timer.{ticks_elapsed}
use g21_tp2_so_1c.Kernel.Block.{yield_cpu, block_process}
use g21_tp2_so_1c.Kernel.Semaphores.{sem_open, sem_close, sem_wait, sem_post, pid_bits}
use g21_tp2_so_1c.Kernel.Pipes.{create_pipe, destroy_pipe, read_pipe, write_pipe}
use g21_tp2_so_1c.Kernel.Exit.{kill_process, my_exit, wait_pid}
use g21_tp2_so_1c.Kernel.Syscalls.{Answer, minus_one, chars, sys_read, sys_write}

abbrev pub word : ℕ
word = 2 ^ 64

-- -1 as an int64_t in the register.
abbrev pub or_minus_one : Option ℕ → ℕ
or_minus_one none = word - 1
or_minus_one (some n) = n % word

-- An int32_t as an int64_t in the register.
abbrev pub sign_extend : ℕ → ℕ
sign_extend n = if ltb n (2 ^ 31) then n else n + word - 2 ^ 32

abbrev pub exit_status : Option ℕ → ℕ
exit_status none = word - 1
exit_status (some n) = sign_extend n

-- What a call leaves behind: the register, and what the register points at or the caller's buffer
-- got.
pub data Reply : Type 0 where
  number : ℕ → Reply
  memory : MemInfo → Reply
  processes : List ProcessInfo → Reply
  bytes : ℕ → List ℕ → Reply
  opened_fds : ℕ → ℕ × ℕ → Reply

abbrev pub answer : Answer → Reply
answer minus_one = number (word - 1)
answer (chars cs) = bytes (length cs) cs

abbrev pub with_heap : ℕ → Kernel → Kernel
with_heap ptr k = record k { heap = free k.heap ptr }

unfoldable pub sys_my_malloc : ℕ → Kernel → Reply × Kernel
sys_my_malloc size k =
    let (p, h) = my_malloc k.heap (size % 2 ^ 32) in
    (number (elim p [ none ↦ 0 | some a ↦ a ]), record k { heap = h })

unfoldable pub sys_my_free : ℕ → Kernel → Reply × Kernel
sys_my_free ptr k = (number 0, with_heap ptr k)

unfoldable pub sys_mem_dump : Kernel → Reply × Kernel
sys_mem_dump k = let (i, h) = mem_dump k.heap in (memory i, record k { heap = h })

unfoldable pub sys_new_process :
    ℕ → List (List ℕ) → List ℕ → Bool → Option (ℕ × ℕ) → Kernel → Reply × Kernel
sys_new_process main argv name unkillable fds k =
    let (r, k') = add_process main argv name unkillable fds k in (number (or_minus_one r), k')

unfoldable pub sys_set_priority : ℕ → ℕ → Kernel → Reply × Kernel
sys_set_priority pid priority k =
    let (r, s) = set_priority (pid % 2 ^ 16) (priority % 2 ^ 8) k.sched in
    (number (or_minus_one r), record k { sched = s })

unfoldable pub sys_unblock_process : ℕ → Kernel → Reply × Kernel
sys_unblock_process pid k =
    let (r, k') = unblock_process (pid % 2 ^ 16) k in (number (or_minus_one r), k')

unfoldable pub sys_sem_open : List ℕ → ℕ → Kernel → Reply × Kernel
sys_sem_open name initial k =
    let (r, k') = sem_open name (initial % 2 ^ 32) k in (number (or_minus_one r), k')

unfoldable pub sys_sem_close : List ℕ → Kernel → Reply × Kernel
sys_sem_close name k = let (r, k') = sem_close name k in (number (or_minus_one r), k')

unfoldable pub sys_sem_post : List ℕ → Kernel → Reply × Kernel
sys_sem_post name k = let (r, k') = sem_post name k in (number (or_minus_one r), k')

abbrev pub opened : Option (ℕ × ℕ × ℕ) → Reply
opened none = number (word - 1)
opened (some (i, fd_read, fd_write)) = opened_fds i (fd_read, fd_write)

unfoldable pub sys_create_pipe : Kernel → Reply × Kernel
sys_create_pipe k = let (r, k') = create_pipe k in (opened r, k')

unfoldable pub sys_destroy_pipe : ℕ → Kernel → Reply × Kernel
sys_destroy_pipe fd k = (number 1, destroy_pipe fd k)

abbrev pub received : Option (List ℕ) → Reply
received none = number (word - 1)
received (some cs) = bytes (length cs) cs

abbrev pub numbered : M (Option ℕ) → M Reply
numbered m = m >>= λ r. pure (number (or_minus_one r))

abbrev pub silent : M (Unit {0}) → M Reply
silent m = m >>= λ _. pure (number 0)

-- A call with its arguments.
pub data Syscall : Type 0 where
  device : ℕ → Syscall
  read_fd : ℕ → ℕ → Syscall
  write_fd : ℕ → ℕ → List ℕ → Syscall
  tick : Syscall
  malloc : ℕ → Syscall
  free_ptr : ℕ → Syscall
  dump : Syscall
  new_process : ℕ → List (List ℕ) → List ℕ → Bool → Option (ℕ × ℕ) → Syscall
  exit : ℕ → Syscall
  kill : ℕ → Syscall
  ask_pid : Syscall
  ask_status : Syscall
  change_priority : ℕ → ℕ → Syscall
  block : ℕ → Syscall
  unblock : ℕ → Syscall
  yield_now : Syscall
  wait : ℕ → Syscall
  open_sem : List ℕ → ℕ → Syscall
  close_sem : List ℕ → Syscall
  wait_sem : List ℕ → Syscall
  post_sem : List ℕ → Syscall
  make_pipe : Syscall
  destroy : ℕ → Syscall
  read_from_pipe : ℕ → ℕ → Syscall
  write_to_pipe : ℕ → List ℕ → Syscall
  cpu_ticks : Syscall

-- The bytes written by call 4 are those of the caller's buffer, and its first argument is what the
-- screen would return.
unfoldable pub sys_call : Syscall → M Reply
sys_call (device n) = pure (number n)
sys_call (read_fd fd n) = sys_read fd n >>= λ a. pure (answer a)
sys_call (write_fd printed fd cs) = numbered (sys_write printed fd cs)
sys_call tick = read (λ k. number (ticks_elapsed k.timer))
sys_call (malloc size) = step (sys_my_malloc size)
sys_call (free_ptr ptr) = step (sys_my_free ptr)
sys_call dump = step sys_mem_dump
sys_call (new_process main argv name unkillable fds) =
    step (sys_new_process main argv name unkillable fds)
sys_call (exit value) = silent (my_exit value)
sys_call (kill pid) = numbered (kill_process (pid % 2 ^ 16))
sys_call ask_pid = read (λ k. number (pid_bits (get_pid k.sched)))
sys_call ask_status = read (λ k. processes (process_status k.sched))
sys_call (change_priority pid n) = step (sys_set_priority pid n)
sys_call (block pid) = numbered (block_process (pid % 2 ^ 16))
sys_call (unblock pid) = step (sys_unblock_process pid)
sys_call yield_now = silent yield_cpu
sys_call (wait pid) = wait_pid (pid % 2 ^ 32) >>= λ r. pure (number (exit_status r))
sys_call (open_sem name initial) = step (sys_sem_open name initial)
sys_call (close_sem name) = step (sys_sem_close name)
sys_call (wait_sem name) = numbered (sem_wait name)
sys_call (post_sem name) = step (sys_sem_post name)
sys_call make_pipe = step sys_create_pipe
sys_call (destroy fd) = step (sys_destroy_pipe fd)
sys_call (read_from_pipe fd n) = read_pipe fd n >>= λ r. pure (received r)
sys_call (write_to_pipe fd cs) = numbered (write_pipe fd cs)
sys_call cpu_ticks = read (λ k. number k.sched.total_cpu_ticks)
