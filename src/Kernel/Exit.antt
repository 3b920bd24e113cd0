-- ===== src/Kernel/Exit.antt =====
-- 3_Kernel/2_libraries/scheduler.c: how processes end and are waited for.
use g21_tp2_so_1c.Base.{
  ℕ, ◌%◌, ◌^◌, Option, none, some, Bool, true, false, ◌&&◌, ◌==◌, if◌then◌else◌,
}
use g21_tp2_so_1c.Base.Slots.{slot}
use g21_tp2_so_1c.Kernel.State.{terminated, Process, Scheduler, Kernel}
use g21_tp2_so_1c.Kernel.Run.{M, pure, read, write, ◌>>=◌, ◌>>◌}
use g21_tp2_so_1c.Kernel.Scheduler.{
  is_blocked, is_running, is_terminated, same_pid, update_process, with_sched, stdout,
}
use g21_tp2_so_1c.Kernel.Table.{
  process_at, adopt_children, unblock_process, remove_process, remove_sleeping_process, foreground,
}
use g21_tp2_so_1c.Kernel.Timer.{with_timer}
use g21_tp2_so_1c.Kernel.Block.{yield_cpu, yield_if, block_process}
use g21_tp2_so_1c.Kernel.Semaphores.{remove_process_from_all_semaphore_queues, with_sems}
use g21_tp2_so_1c.Kernel.Pipes.{send_pipe_eof}
use g21_tp2_so_1c.Kernel.Keyboard.{release_stdin}

-- The process behind a pid that may be -1; an entry in front of the table is taken for NULL.
abbrev pub parent_of : Scheduler → Option ℕ → Option Process
parent_of s none = none
parent_of s (some i) = slot s.processes i

-- The parent of process `pid` is blocked in a wait for it.
abbrev pub awaits : ℕ → Option Process → Bool
awaits pid none = false
awaits pid (some q) = is_blocked q.status && same_pid q.waiting_for_pid (some pid)

abbrev pub wake_parent : ℕ → Option ℕ → Kernel → Kernel
wake_parent pid none k = k
wake_parent pid (some parent) k =
    if awaits pid (slot k.sched.processes parent) then (unblock_process parent k).1 else k

abbrev pub eof_unless_stdout : ℕ → M (Unit {0})
eof_unless_stdout fd = elim (fd == stdout) [ true ↦ pure tt | false ↦ send_pipe_eof fd ]

abbrev pub release_if : Bool → Kernel → Kernel
release_if true k = release_stdin k
release_if false k = k

-- `waiting_for_stdin` is read through the pointer to the process after the end of the file was sent,
-- when other processes may have run; a structure freed by then is read as it was.
abbrev pub stdin_field : Process → Option Process → Bool
stdin_field p none = p.waiting_for_stdin
stdin_field p (some q) = q.waiting_for_stdin

unfoldable pub cleanup_process_resources : Process → M (Unit {0})
cleanup_process_resources p = do
  write (with_timer (remove_sleeping_process p.pid))
  write (with_sems (remove_process_from_all_semaphore_queues p.pid))
  eof_unless_stdout p.fd_out
  waiting ← read (λ k. stdin_field p (slot k.sched.processes p.pid))
  write (release_if waiting)

abbrev pub parent_field : Option Process → Option ℕ
parent_field none = none
parent_field (some p) = p.parent_pid

-- `killProcess` past its guard. The parent is read after the children were adopted.
unfoldable pub kill_found : ℕ → Process → M (Option ℕ)
kill_found pid p = do
  write (with_sched (adopt_children pid))
  parent ← read (λ k. parent_field (slot k.sched.processes pid))
  write (wake_parent pid parent)
  cleanup_process_resources p
  write (remove_process pid)
  yield_if (is_running p.status)
  pure (some 0)

abbrev pub kill_guarded : ℕ → Option Process → M (Option ℕ)
kill_guarded pid none = pure none
kill_guarded pid (some p) = elim p.unkillable [ true ↦ pure none | false ↦ kill_found pid p ]

unfoldable pub kill_process : ℕ → M (Option ℕ)
kill_process pid = do p ← read (λ k. process_at k.sched pid); kill_guarded pid p

abbrev pub kill_if : Option ℕ → M (Option ℕ)
kill_if none = pure none
kill_if (some pid) = kill_process pid

-- With `current` -1 the pid is 65535, which the guard refuses.
unfoldable pub kill_current_process : M (Option ℕ)
kill_current_process = do current ← read (λ k. k.sched.current); kill_if current

-- The first pid whose entry is used and that the shell waits for.
abbrev pub foreground_pid : Scheduler → Option ℕ
foreground_pid s =
    if s.up
    then elim (foreground s) [
      | none ↦ none
      | some i ↦ elim (slot s.processes i) [ none ↦ none | some p ↦ some i ]
    ]
    else none

unfoldable pub kill_foreground_process : M (Unit {0})
kill_foreground_process = do pid ← read (λ k. foreground_pid k.sched); _ ← kill_if pid; pure tt

abbrev pub ended : ℕ → Process → Process
ended value p = record p { status = terminated; return_value = value % 2 ^ 32 }

-- `myExit` past its guard, for the process `p` of `current`; it does not return.
unfoldable pub exit_found : ℕ → Process → M (Unit {0})
exit_found value p = do
  eof_unless_stdout p.fd_out
  write (with_sched (update_process p.pid (ended value)))
  write (with_timer (remove_sleeping_process p.pid))
  parent ← read (λ k. parent_field (slot k.sched.processes p.pid))
  write (wake_parent p.pid parent)
  write (remove_process p.pid)
  yield_cpu

abbrev pub exit_if : ℕ → Option Process → M (Unit {0})
exit_if value none = pure tt
exit_if value (some p) = exit_found value p

unfoldable pub my_exit : ℕ → M (Unit {0})
my_exit value = do
  p ← read (λ k. elim k.sched.current [ none ↦ none | some c ↦ process_at k.sched c ])
  exit_if value p

-- The guard of `waitPid`: the child, and the process that waits.
abbrev pub child_of : Scheduler → ℕ → Option Process
child_of s pid = elim (process_at s pid) [
  | none ↦ none
  | some p ↦ if same_pid p.parent_pid s.current then some p else none
]

abbrev pub set_waiting : ℕ → Option ℕ → Kernel → Kernel
set_waiting self target =
    with_sched (update_process self (λ p. record p { waiting_for_pid = target }))

abbrev pub wait_until : ℕ → ℕ → Bool → M (Unit {0})
wait_until self pid true = pure tt
wait_until self pid false = do write (set_waiting self (some pid)); _ ← block_process self; pure tt

-- What `waitPid` returns of the entry `pid`: the field of the process that stands there by then, or
-- a word read through NULL, `none`.
abbrev pub returned : ℕ → Kernel → Option ℕ
returned pid k = elim (slot k.sched.processes pid) [ none ↦ none | some p ↦ some p.return_value ]

-- `waitPid` past its guard, for the process `self` of `current`.
unfoldable pub wait_found : ℕ → ℕ → Process → M (Option ℕ)
wait_found self pid p = do
  wait_until self pid (is_terminated p.status)
  write (set_waiting self none)
  value ← read (returned pid)
  write (remove_process pid)
  pure value

abbrev pub wait_guarded : Option ℕ → ℕ → Option Process → M (Option ℕ)
wait_guarded none pid child = pure none
wait_guarded (some self) pid none = pure none
wait_guarded (some self) pid (some p) = wait_found self pid p

unfoldable pub wait_pid : ℕ → M (Option ℕ)
wait_pid pid = do
  self ← read (λ k. k.sched.current)
  child ← read (λ k. child_of k.sched pid)
  wait_guarded self pid child
