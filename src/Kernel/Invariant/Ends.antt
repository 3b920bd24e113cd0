-- ===== src/Kernel/Invariant/Ends.antt =====
-- keyboard.c and scheduler.c: the invariant of the kernel, the keyboard and the end of a process.
use g21_tp2_so_1c.Base.{
  ℕ, ◌∙◌, Option, none, some, Bool, true, false, not, ◌&&◌, length-set, ◌==◌, arith, by_bool,
}
use g21_tp2_so_1c.Base.Slots.{slot}
use g21_tp2_so_1c.Base.Ring.{mod_next}
use g21_tp2_so_1c.Kernel.State.{Kernel, Keyboard, Process}
use g21_tp2_so_1c.Kernel.Run.{Keeps-cases, pure, Keeps, RunKeeps-bind}
use g21_tp2_so_1c.Kernel.Scheduler.{with_sched, stdout, is_running}
use g21_tp2_so_1c.Kernel.Table.{
  update_stdin_wait, adopt_children, remove_process, remove_sleeping_process, process_at,
}
use g21_tp2_so_1c.Kernel.Table.Valid.{update_stdin_wait-TableIsValid, adopt_children-TableIsValid}
use g21_tp2_so_1c.Kernel.Timer.{with_timer}
use g21_tp2_so_1c.Kernel.Block.{yield_if}
use g21_tp2_so_1c.Kernel.Semaphores.{sem_wait, with_sems, remove_process_from_all_semaphore_queues}
use g21_tp2_so_1c.Kernel.Semaphores.Valid.{leave_all-SemsAreValid}
use g21_tp2_so_1c.Kernel.Pipes.{send_pipe_eof}
use g21_tp2_so_1c.Kernel.Keyboard.{
  buffer_size, cb_push, cb_pop, cb_is_full, cb_is_empty, kb_getchar, kb_sem_name, release_stdin,
  update_flags,
}
use g21_tp2_so_1c.Kernel.Exit.{
  awaits, wake_parent, eof_unless_stdout, release_if, stdin_field, cleanup_process_resources,
  kill_found, kill_guarded, kill_process, kill_if, kill_foreground_process, foreground_pid,
  parent_field,
}
use g21_tp2_so_1c.Kernel.Invariant.{KernelIsValid, KeyboardIsValid}
use g21_tp2_so_1c.Kernel.Invariant.Changes.{
  sched-KernelIsValid, sems-KernelIsValid, keyboard-KernelIsValid,
}
use g21_tp2_so_1c.Kernel.Invariant.Steps.{
  unblock_process-KernelIsValid, remove_process-KernelIsValid,
  remove_sleeping_process-KernelIsValid, sem_post-KernelIsValid,
}
use g21_tp2_so_1c.Kernel.Invariant.Calls.{yield_if-Keeps, sem_wait-Keeps, send_pipe_eof-Keeps}

pub cb_push-KeyboardIsValid :
    (c : ℕ) (kb : Keyboard) → KeyboardIsValid kb → KeyboardIsValid (cb_push c kb).1
unfolding cb_push cb_is_full
cb_push-KeyboardIsValid c kb v =
    by_bool (λ (x : Bool × Keyboard). KeyboardIsValid x.1) (kb.size == buffer_size) _ _ (λ _. v)
      (λ n. record {
        room = length-set kb.v kb.write_index c ∙ v.room;
        read_in = v.read_in;
        fits = let f = v.fits in ground arith;
        write_at =
            let r = v.read_in in
            let f = v.fits in
            let w = v.write_at in ground (arith, mod_next buffer_size kb.write_index);
      })

pub cb_pop-KeyboardIsValid : (kb : Keyboard) → KeyboardIsValid kb → KeyboardIsValid (cb_pop kb).1
unfolding cb_pop cb_is_empty
cb_pop-KeyboardIsValid kb v =
    by_bool (λ (x : ℕ × Keyboard). KeyboardIsValid x.1)
      (kb.read_index == kb.write_index && not kb.end_of_file) _ _ (λ _. v)
      (λ e.
        by_bool (λ (x : ℕ × Keyboard). KeyboardIsValid x.1) kb.end_of_file _ _
          (λ _. record { room = v.room; read_in = v.read_in; fits = v.fits; write_at = v.write_at })
          (λ n. record {
            room = v.room;
            read_in = omega arith;
            fits = omega (arith, v.fits);
            write_at =
                let r = v.read_in in
                let f = v.fits in
                let w = v.write_at in ground (arith, mod_next buffer_size kb.read_index);
          }))

pub update_flags-KeyboardIsValid :
    (c : ℕ) (kb : Keyboard) → KeyboardIsValid kb → KeyboardIsValid (update_flags c kb)
unfolding update_flags
update_flags-KeyboardIsValid c kb v =
    let a = v.room in let b = v.read_in in let f = v.fits in let w = v.write_at in ground arith

pub kb_getchar-Keeps : Keeps KernelIsValid kb_getchar
unfolding kb_getchar
kb_getchar-Keeps k v =
    let waits = with_sched (update_stdin_wait true) k in
    RunKeeps-bind KernelIsValid (sem_wait kb_sem_name waits) _
      (sem_wait-Keeps kb_sem_name waits
        (sched-KernelIsValid k v _ (update_stdin_wait-TableIsValid true k.sched v.table_ok)))
      (λ _ k' v'.
        let k1 = with_sched (update_stdin_wait false) k' in
        let v1 =
          sched-KernelIsValid k' v' _ (update_stdin_wait-TableIsValid false k'.sched v'.table_ok) in
        keyboard-KernelIsValid k1 v1 _ (cb_pop-KeyboardIsValid k1.keyboard v1.keyboard_ok))

release_if-KernelIsValid :
    (b : Bool) (k : Kernel) → KernelIsValid k → KernelIsValid (release_if b k)
unfolding release_stdin
release_if-KernelIsValid true k v = sem_post-KernelIsValid kb_sem_name k v
release_if-KernelIsValid false k v = v

pub wake_parent-KernelIsValid :
    (pid : ℕ) (parent : Option ℕ) (k : Kernel)
    → KernelIsValid k
    → KernelIsValid (wake_parent pid parent k)
wake_parent-KernelIsValid pid none k v = v
wake_parent-KernelIsValid pid (some parent) k v =
    by_bool KernelIsValid (awaits pid (slot k.sched.processes parent)) _ _
      (λ _. unblock_process-KernelIsValid parent k v) (λ _. v)

pub eof_unless_stdout-Keeps : (fd : ℕ) → Keeps KernelIsValid (eof_unless_stdout fd)
eof_unless_stdout-Keeps fd =
    Keeps-cases KernelIsValid (fd == stdout) (pure tt) (send_pipe_eof fd) (λ _ k v. v)
      (λ _. send_pipe_eof-Keeps fd)

cleanup_process_resources-Keeps : (p : Process) → Keeps KernelIsValid (cleanup_process_resources p)
unfolding cleanup_process_resources
cleanup_process_resources-Keeps p k v =
    let k1 = with_timer (remove_sleeping_process p.pid) k in
    let v1 = remove_sleeping_process-KernelIsValid p.pid k v in
    let k2 = with_sems (remove_process_from_all_semaphore_queues p.pid) k1 in
    let v2 = sems-KernelIsValid k1 v1 _ (leave_all-SemsAreValid p.pid k1.sems v1.sems_ok) in
    RunKeeps-bind KernelIsValid (eof_unless_stdout p.fd_out k2) _
      (eof_unless_stdout-Keeps p.fd_out k2 v2)
      (λ _ k' v'. release_if-KernelIsValid (stdin_field p (slot k'.sched.processes p.pid)) k' v')

kill_found-Keeps : (pid : ℕ) (p : Process) → Keeps KernelIsValid (kill_found pid p)
unfolding kill_found
kill_found-Keeps pid p k v =
    let k1 = with_sched (adopt_children pid) k in
    let v1 = sched-KernelIsValid k v _ (adopt_children-TableIsValid pid k.sched v.table_ok) in
    let parent = parent_field (slot k1.sched.processes pid) in
    let k2 = wake_parent pid parent k1 in
    RunKeeps-bind KernelIsValid (cleanup_process_resources p k2) _
      (cleanup_process_resources-Keeps p k2 (wake_parent-KernelIsValid pid parent k1 v1))
      (λ _ k3 v3.
        let k4 = remove_process pid k3 in
        RunKeeps-bind KernelIsValid (yield_if (is_running p.status) k4) _
          (yield_if-Keeps (is_running p.status) k4 (remove_process-KernelIsValid pid k3 v3))
          (λ _ k5 v5. v5))

kill_guarded-Keeps : (pid : ℕ) (o : Option Process) → Keeps KernelIsValid (kill_guarded pid o)
kill_guarded-Keeps pid none = λ k v. v
kill_guarded-Keeps pid (some p) =
    Keeps-cases KernelIsValid p.unkillable (pure none) (kill_found pid p) (λ _ k v. v)
      (λ _. kill_found-Keeps pid p)

-- Killing a process keeps the invariant, also where the end of its output pipe makes the killer wait.
pub kill_process-Keeps : (pid : ℕ) → Keeps KernelIsValid (kill_process pid)
unfolding kill_process
kill_process-Keeps pid k v = kill_guarded-Keeps pid (process_at k.sched pid) k v

kill_if-Keeps : (o : Option ℕ) → Keeps KernelIsValid (kill_if o)
kill_if-Keeps none = λ k v. v
kill_if-Keeps (some pid) = kill_process-Keeps pid

pub kill_foreground_process-Keeps : Keeps KernelIsValid kill_foreground_process
unfolding kill_foreground_process
kill_foreground_process-Keeps k v =
    RunKeeps-bind KernelIsValid (kill_if (foreground_pid k.sched) k) _
      (kill_if-Keeps (foreground_pid k.sched) k v) (λ _ k' v'. v')
