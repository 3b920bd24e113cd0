-- ===== src/Kernel/Invariant/Calls.antt =====
-- 3_Kernel: the invariant of the kernel and the operations that may switch the caller out.
use g21_tp2_so_1c.Base.{
  ℕ, zero, suc, ◌∙◌, List, [], ◌∷◌, Option, none, some, Bool, true, false, not, length-set, arith,
  by_option, by_bool,
}
use g21_tp2_so_1c.Base.Slots.{slot, EachSlot-set}
use g21_tp2_so_1c.Kernel.State.{Kernel, Pipe}
use g21_tp2_so_1c.Kernel.Run.{RunKeeps, Keeps, RunKeeps-bind}
use g21_tp2_so_1c.Kernel.Block.{
  yield_cpu, yield_if, sleep_block, block_process, put_to_sleep, sleep, may_block, mark_blocked,
  force,
}
use g21_tp2_so_1c.Kernel.Scheduler.{same_pid}
use g21_tp2_so_1c.Kernel.Timer.{with_timer}
use g21_tp2_so_1c.Kernel.Pipes.{
  put_byte, get_byte, with_pipes, put_pipe, store_byte, fetch_byte, write_sem_of, read_sem_of,
  pipe_at, send_byte, receive_byte, send_bytes, receive_bytes, write_to, write_pipe, read_from,
  read_pipe, find_pipe, end_stream, send_pipe_eof, write_end, read_end, eof_char,
}
use g21_tp2_so_1c.Kernel.Semaphores.{
  get_idx_by_name, begin_wait, finish_wait, Wait, passed, refused, must_block, sem_wait,
}
use g21_tp2_so_1c.Kernel.Semaphores.Valid.{wait_on-Rests, put-SemsAreValid}
use g21_tp2_so_1c.Kernel.Invariant.{PipeIsValid, KernelIsValid}
use g21_tp2_so_1c.Kernel.Invariant.Changes.{
  pipes-KernelIsValid, timer-KernelIsValid, sems-KernelIsValid,
}
use g21_tp2_so_1c.Kernel.Invariant.Steps.{
  timer_handler-KernelIsValid, force-KernelIsValid, mark_blocked-KernelIsValid,
  sem_post-KernelIsValid,
}

pub yield_cpu-Keeps : Keeps KernelIsValid yield_cpu
unfolding yield_cpu
yield_cpu-Keeps k v = (timer_handler-KernelIsValid (force k) (force-KernelIsValid k v), λ k' v'. v')

pub yield_if-Keeps : (b : Bool) → Keeps KernelIsValid (yield_if b)
yield_if-Keeps true = yield_cpu-Keeps
yield_if-Keeps false = λ k v. v

pub sleep_block-Keeps : (pid : ℕ) (sleep : Bool) → Keeps KernelIsValid (sleep_block pid sleep)
unfolding sleep_block
sleep_block-Keeps pid sleep k v =
    by_bool (RunKeeps KernelIsValid) (may_block k.sched pid) _ _
      (λ _.
        RunKeeps-bind KernelIsValid
          (yield_if (same_pid (some pid) (mark_blocked pid sleep k).sched.current)
            (mark_blocked pid sleep k))
          _ (yield_if-Keeps _ (mark_blocked pid sleep k) (mark_blocked-KernelIsValid pid sleep k v))
          (λ _ k' v'. v'))
      (λ _. v)

pub block_process-Keeps : (pid : ℕ) → Keeps KernelIsValid (block_process pid)
unfolding block_process
block_process-Keeps pid = sleep_block-Keeps pid false

pub sleep-Keeps : (pid n : ℕ) → Keeps KernelIsValid (sleep pid n)
unfolding sleep
sleep-Keeps pid n k v =
    sleep_block-Keeps pid true (with_timer (put_to_sleep pid n) k)
      (timer-KernelIsValid k v _ (length-set k.timer.sleeping pid _ ∙ v.sleeping_ok))

begin_wait-KernelIsValid :
    (name : List ℕ) (k : Kernel) → KernelIsValid k → KernelIsValid (begin_wait name k).1
unfolding begin_wait
begin_wait-KernelIsValid name k v =
    by_bool (λ (x : Wait × Kernel). KernelIsValid x.1) (not k.sems.up) _ _ (λ _. v)
      (λ _.
        by_option (λ (x : Wait × Kernel). KernelIsValid x.1) (get_idx_by_name name k.sems) _ _
          (λ _. v)
          (λ i _.
            by_option (λ (x : Wait × Kernel). KernelIsValid x.1) (slot k.sems.semaphores i) _ _
              (λ _. v)
              (λ s e. sems-KernelIsValid k v _ (
                put-SemsAreValid k.sems i s _ e (wait_on-Rests _ i s (v.sems_ok.rests i s e))
                  v.sems_ok))))

finish_wait-Keeps : (w : Wait) → Keeps KernelIsValid (finish_wait w)
finish_wait-Keeps passed k v = v
finish_wait-Keeps refused k v = v
finish_wait-Keeps (must_block pid) k v =
    RunKeeps-bind KernelIsValid (block_process pid k) _ (block_process-Keeps pid k v)
      (λ _ k' v'. v')

-- Waiting for a semaphore keeps the invariant, also where the caller is switched out.
pub sem_wait-Keeps : (name : List ℕ) → Keeps KernelIsValid (sem_wait name)
unfolding sem_wait
sem_wait-Keeps name k v =
    finish_wait-Keeps (begin_wait name k).0 (begin_wait name k).1
      (begin_wait-KernelIsValid name k v)

put_byte-PipeIsValid : (c i : ℕ) (p : Pipe) → PipeIsValid i p → PipeIsValid i (put_byte c p)
unfolding put_byte
put_byte-PipeIsValid c i p v = record {
  room = length-set p.buffer p.write_pos c ∙ v.room;
  read_in = v.read_in;
  write_in = omega arith;
}

get_byte-PipeIsValid : (i : ℕ) (p : Pipe) → PipeIsValid i p → PipeIsValid i (get_byte p).1
unfolding get_byte
get_byte-PipeIsValid i p v = record { room = v.room; read_in = omega arith; write_in = v.write_in }

put_pipe-KernelIsValid :
    (i : ℕ) (p : Pipe) (k : Kernel)
    → PipeIsValid i p
    → KernelIsValid k
    → KernelIsValid (with_pipes (put_pipe i (some p)) k)
put_pipe-KernelIsValid i p k ok v = pipes-KernelIsValid k v _ (record {
  length_ok = length-set k.pipe_table.pipes i (some p) ∙ v.pipes_ok.length_ok;
  each = EachSlot-set PipeIsValid k.pipe_table.pipes i p v.pipes_ok.each ok;
})

store_byte-KernelIsValid :
    (i c : ℕ) (k : Kernel) → KernelIsValid k → KernelIsValid (store_byte i c k)
store_byte-KernelIsValid i c k v =
    by_option KernelIsValid (slot k.pipe_table.pipes i) _ _ (λ _. v)
      (λ p e.
        put_pipe-KernelIsValid i (put_byte c p) k
          (put_byte-PipeIsValid c i p (v.pipes_ok.each i p e)) v)

fetch_byte-KernelIsValid : (i : ℕ) (k : Kernel) → KernelIsValid k → KernelIsValid (fetch_byte i k).1
fetch_byte-KernelIsValid i k v =
    by_option (λ (x : ℕ × Kernel). KernelIsValid x.1) (slot k.pipe_table.pipes i) _ _ (λ _. v)
      (λ p e.
        put_pipe-KernelIsValid i (get_byte p).1 k (get_byte-PipeIsValid i p (v.pipes_ok.each i p e))
          v)

pub send_byte-Keeps : (i c : ℕ) → Keeps KernelIsValid (send_byte i c)
unfolding send_byte
send_byte-Keeps i c k v =
    RunKeeps-bind KernelIsValid (sem_wait (write_sem_of (pipe_at i k)) k) _
      (sem_wait-Keeps (write_sem_of (pipe_at i k)) k v)
      (λ _ k' v'. sem_post-KernelIsValid _ _ (store_byte-KernelIsValid i c k' v'))

receive_byte-Keeps : (i : ℕ) → Keeps KernelIsValid (receive_byte i)
unfolding receive_byte
receive_byte-Keeps i k v =
    RunKeeps-bind KernelIsValid (sem_wait (read_sem_of (pipe_at i k)) k) _
      (sem_wait-Keeps (read_sem_of (pipe_at i k)) k v)
      (λ _ k' v'. sem_post-KernelIsValid _ _ (fetch_byte-KernelIsValid i k' v'))

send_bytes-Keeps : (i : ℕ) (bytes : List ℕ) → Keeps KernelIsValid (send_bytes i bytes)
unfolding send_bytes
send_bytes-Keeps i [] k v = v
send_bytes-Keeps i (c ∷ cs) k v =
    RunKeeps-bind KernelIsValid (send_byte i c k) _ (send_byte-Keeps i c k v)
      (λ _. send_bytes-Keeps i cs)

receive_bytes-Keeps : (i n : ℕ) → Keeps KernelIsValid (receive_bytes i n)
unfolding receive_bytes
receive_bytes-Keeps i zero k v = v
receive_bytes-Keeps i (suc n) k v =
    RunKeeps-bind KernelIsValid (receive_byte i k) _ (receive_byte-Keeps i k v) (λ _ k' v'.
      RunKeeps-bind KernelIsValid (receive_bytes i n k') _ (receive_bytes-Keeps i n k' v')
        (λ _ k'' v''. v''))

write_to-Keeps : (i : Option ℕ) (bytes : List ℕ) → Keeps KernelIsValid (write_to i bytes)
write_to-Keeps none bytes k v = v
write_to-Keeps (some i) bytes k v =
    RunKeeps-bind KernelIsValid (send_bytes i bytes k) _ (send_bytes-Keeps i bytes k v)
      (λ _ k' v'. v')

pub write_pipe-Keeps : (fd : ℕ) (bytes : List ℕ) → Keeps KernelIsValid (write_pipe fd bytes)
unfolding write_pipe
write_pipe-Keeps fd bytes k v = write_to-Keeps (find_pipe fd write_end k) bytes k v

read_from-Keeps : (i : Option ℕ) (n : ℕ) → Keeps KernelIsValid (read_from i n)
read_from-Keeps none n k v = v
read_from-Keeps (some i) n k v =
    RunKeeps-bind KernelIsValid (receive_bytes i n k) _ (receive_bytes-Keeps i n k v)
      (λ _ k' v'. v')

pub read_pipe-Keeps : (fd n : ℕ) → Keeps KernelIsValid (read_pipe fd n)
unfolding read_pipe
read_pipe-Keeps fd n k v = read_from-Keeps (find_pipe fd read_end k) n k v

end_stream-Keeps : (i : Option ℕ) → Keeps KernelIsValid (end_stream i)
end_stream-Keeps none k v = v
end_stream-Keeps (some i) k v = send_byte-Keeps i eof_char k v

pub send_pipe_eof-Keeps : (fd : ℕ) → Keeps KernelIsValid (send_pipe_eof fd)
unfolding send_pipe_eof
send_pipe_eof-Keeps fd k v = end_stream-Keeps (find_pipe fd write_end k) k v
