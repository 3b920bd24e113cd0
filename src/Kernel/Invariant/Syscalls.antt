-- ===== src/Kernel/Invariant/Syscalls.antt =====
-- scheduler.c and syscalls.c: the invariant of the kernel, `myExit`, `waitPid`, reads and writes.
use g21_tp2_so_1c.Base.{
  ℕ, zero, suc, ◌≡◌, refl, List, [], ◌∷◌, Option, none, some, Bool, true, false, ◌||◌, length, ltb,
  ◌==◌,
}
use g21_tp2_so_1c.Base.Slots.{slot}
use g21_tp2_so_1c.Kernel.State.{Kernel, Process}
use g21_tp2_so_1c.Kernel.Run.{Keeps, RunKeeps-bind, Keeps-cases, pure, read, ◌>>=◌}
use g21_tp2_so_1c.Kernel.Scheduler.{with_sched, stdin, is_terminated, update_process}
use g21_tp2_so_1c.Kernel.Scheduler.Valid.{update_process-TableIsValid}
use g21_tp2_so_1c.Kernel.Table.{remove_sleeping_process, process_at, get_fds}
use g21_tp2_so_1c.Kernel.Timer.{with_timer}
use g21_tp2_so_1c.Kernel.Block.{block_process}
use g21_tp2_so_1c.Kernel.Pipes.{read_pipe, write_pipe, builtin_fds}
use g21_tp2_so_1c.Kernel.Keyboard.{kb_getchar}
use g21_tp2_so_1c.Kernel.Exit.{
  wake_parent, eof_unless_stdout, ended, exit_found, exit_if, my_exit, set_waiting, wait_until,
  wait_found, wait_guarded, wait_pid, child_of, parent_field,
}
use g21_tp2_so_1c.Kernel.Syscalls.{
  read_keys, read_stdin, sys_read, write_stdout, sys_write, eof_if_empty, minus_one, chars,
}
use g21_tp2_so_1c.Kernel.Invariant.{KernelIsValid}
use g21_tp2_so_1c.Kernel.Invariant.Changes.{sched-KernelIsValid}
use g21_tp2_so_1c.Kernel.Invariant.Steps.{
  remove_process-KernelIsValid, remove_sleeping_process-KernelIsValid,
}
use g21_tp2_so_1c.Kernel.Invariant.Calls.{
  yield_cpu-Keeps, block_process-Keeps, read_pipe-Keeps, write_pipe-Keeps,
}
use g21_tp2_so_1c.Kernel.Invariant.Ends.{
  eof_unless_stdout-Keeps, wake_parent-KernelIsValid, kb_getchar-Keeps,
}

update-KernelIsValid :
    (i : ℕ) (f : Process → Process) (k : Kernel)
    → ((p : Process) → (f p).pid ≡ p.pid)
    → KernelIsValid k
    → KernelIsValid (with_sched (update_process i f) k)
update-KernelIsValid i f k h v =
    sched-KernelIsValid k v _ (update_process-TableIsValid i f k.sched h v.table_ok)

exit_found-Keeps : (value : ℕ) (p : Process) → Keeps KernelIsValid (exit_found value p)
unfolding exit_found
exit_found-Keeps value p k v =
    RunKeeps-bind KernelIsValid (eof_unless_stdout p.fd_out k) _
      (eof_unless_stdout-Keeps p.fd_out k v)
      (λ _ k1 v1.
        let k2 = with_sched (update_process p.pid (ended value)) k1 in
        let v2 = update-KernelIsValid p.pid (ended value) k1 (λ _. refl) v1 in
        let k3 = with_timer (remove_sleeping_process p.pid) k2 in
        let v3 = remove_sleeping_process-KernelIsValid p.pid k2 v2 in
        let parent = parent_field (slot k3.sched.processes p.pid) in
        let v4 = wake_parent-KernelIsValid p.pid parent k3 v3 in
        yield_cpu-Keeps _ (remove_process-KernelIsValid p.pid (wake_parent p.pid parent k3) v4))

exit_if-Keeps : (value : ℕ) (o : Option Process) → Keeps KernelIsValid (exit_if value o)
exit_if-Keeps value none = λ k v. v
exit_if-Keeps value (some p) = exit_found-Keeps value p

pub my_exit-Keeps : (value : ℕ) → Keeps KernelIsValid (my_exit value)
unfolding my_exit
my_exit-Keeps value k v =
    exit_if-Keeps value (elim k.sched.current [ none ↦ none | some c ↦ process_at k.sched c ]) k v

wait_until-Keeps : (self pid : ℕ) (b : Bool) → Keeps KernelIsValid (wait_until self pid b)
wait_until-Keeps self pid true = λ k v. v
wait_until-Keeps self pid false = λ k v.
    let k1 = set_waiting self (some pid) k in
    RunKeeps-bind KernelIsValid (block_process self k1) _
      (block_process-Keeps self k1 (update-KernelIsValid self _ k (λ _. refl) v)) (λ _ k' v'. v')

wait_found-Keeps : (self pid : ℕ) (p : Process) → Keeps KernelIsValid (wait_found self pid p)
unfolding wait_found
wait_found-Keeps self pid p k v =
    RunKeeps-bind KernelIsValid (wait_until self pid (is_terminated p.status) k) _
      (wait_until-Keeps self pid (is_terminated p.status) k v)
      (λ _ k1 v1.
        remove_process-KernelIsValid pid (set_waiting self none k1)
          (update-KernelIsValid self _ k1 (λ _. refl) v1))

wait_guarded-Keeps :
    (self : Option ℕ) (pid : ℕ) (o : Option Process) → Keeps KernelIsValid (wait_guarded self pid o)
wait_guarded-Keeps none pid o = λ k v. v
wait_guarded-Keeps (some self) pid none = λ k v. v
wait_guarded-Keeps (some self) pid (some p) = wait_found-Keeps self pid p

pub wait_pid-Keeps : (pid : ℕ) → Keeps KernelIsValid (wait_pid pid)
unfolding wait_pid
wait_pid-Keeps pid k v = wait_guarded-Keeps k.sched.current pid (child_of k.sched pid) k v

read_keys-Keeps : (n : ℕ) → Keeps KernelIsValid (read_keys n)
unfolding read_keys
read_keys-Keeps zero = λ k v. v
read_keys-Keeps (suc n) = λ k v.
    RunKeeps-bind KernelIsValid (kb_getchar k) _ (kb_getchar-Keeps k v) (λ c.
      Keeps-cases KernelIsValid (c == 0) (pure []) (read_keys n >>= λ cs. pure (c ∷ cs))
        (λ _ k' v'. v')
        (λ _ k' v'.
          RunKeeps-bind KernelIsValid (read_keys n k') (λ cs. pure (c ∷ cs))
            (read_keys-Keeps n k' v') (λ _ k'' v''. v'')))

pipe_answer-Keeps : (fd n : ℕ) → Keeps KernelIsValid (read_pipe fd n >>= λ r. pure (eof_if_empty r))
pipe_answer-Keeps fd n k v =
    RunKeeps-bind KernelIsValid (read_pipe fd n k) (λ r. pure (eof_if_empty r))
      (read_pipe-Keeps fd n k v) (λ _ k' v'. v')

read_stdin-Keeps : (fds : Option (ℕ × ℕ)) (n : ℕ) → Keeps KernelIsValid (read_stdin fds n)
read_stdin-Keeps none n = λ k v. v
read_stdin-Keeps (some (fd_in, fd_out)) n =
    Keeps-cases KernelIsValid (fd_in == stdin) (read_keys n >>= λ cs. pure (chars cs))
      (read_pipe fd_in n >>= λ r. pure (eof_if_empty r))
      (λ _ k v.
        RunKeeps-bind KernelIsValid (read_keys n k) (λ cs. pure (chars cs)) (read_keys-Keeps n k v)
          (λ _ k' v'. v'))
      (λ _. pipe_answer-Keeps fd_in n)

-- The system call `read` keeps the invariant, from the keyboard and from a pipe.
pub sys_read-Keeps : (fd n : ℕ) → Keeps KernelIsValid (sys_read fd n)
unfolding sys_read
sys_read-Keeps fd n =
    Keeps-cases KernelIsValid (n == 0) (pure minus_one) _ (λ _ k v. v)
      (λ _.
        Keeps-cases KernelIsValid (fd == stdin)
          (read (λ k. get_fds k.sched) >>= λ fds. read_stdin fds n)
          (read_pipe fd n >>= λ r. pure (eof_if_empty r))
          (λ _ k v. read_stdin-Keeps (get_fds k.sched) n k v) (λ _. pipe_answer-Keeps fd n))

write_stdout-Keeps :
    (printed : ℕ) (fds : Option (ℕ × ℕ)) (bytes : List ℕ)
    → Keeps KernelIsValid (write_stdout printed fds bytes)
write_stdout-Keeps printed none bytes = λ k v. v
write_stdout-Keeps printed (some (fd_in, fd_out)) bytes =
    Keeps-cases KernelIsValid (ltb builtin_fds fd_out) (write_pipe fd_out bytes)
      (pure (some printed)) (λ _. write_pipe-Keeps fd_out bytes) (λ _ k v. v)

pub sys_write-Keeps :
    (printed fd : ℕ) (bytes : List ℕ) → Keeps KernelIsValid (sys_write printed fd bytes)
unfolding sys_write
sys_write-Keeps printed fd bytes =
    Keeps-cases KernelIsValid (fd == 0 || length bytes == 0) (pure none) _ (λ _ k v. v)
      (λ _.
        Keeps-cases KernelIsValid (ltb fd builtin_fds)
          (read (λ k. get_fds k.sched) >>= λ fds. write_stdout printed fds bytes)
          (write_pipe fd bytes) (λ _ k v. write_stdout-Keeps printed (get_fds k.sched) bytes k v)
          (λ _. write_pipe-Keeps fd bytes))
