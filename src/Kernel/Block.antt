-- ===== src/Kernel/Block.antt =====
-- 3_Kernel/2_libraries/scheduler.c and 3_drivers/time.c: the operations that give up the processor.
-- `timer_tick` raises the timer interrupt, so a yield is a tick that must choose anew.
use g21_tp2_so_1c.Base.{
  ℕ, ◌+◌, ◌%◌, ◌^◌, Option, none, some, Bool, true, false, not, set, ltb, ◌==◌, if◌then◌else◌, ◌||◌,
}
use g21_tp2_so_1c.Kernel.State.{Scheduler, Timer, Kernel, blocked}
use g21_tp2_so_1c.Kernel.Run.{M, done, pure, read, write, park, ◌>>=◌, ◌>>◌}
use g21_tp2_so_1c.Kernel.Scheduler.{is_terminated, same_pid, update_process, with_sched}
use g21_tp2_so_1c.Kernel.Table.{process_at, remove_sleeping_process}
use g21_tp2_so_1c.Kernel.Timer.{timer_handler, with_timer}

unfoldable pub force : Kernel → Kernel
force = with_sched (λ s. record s { force_reschedule = true })

unfoldable pub yield_cpu : M (Unit {0})
yield_cpu = park (λ k. timer_handler (force k))

-- What `sleepBlock` changes before it yields.
unfoldable pub mark_blocked : ℕ → Bool → Kernel → Kernel
mark_blocked pid sleep k =
    with_sched (update_process pid (λ p. record p { status = blocked }))
      (if sleep then k else with_timer (remove_sleeping_process pid) k)

abbrev pub may_block : Scheduler → ℕ → Bool
may_block s pid = elim (process_at s pid) [
  | none ↦ false
  | some p ↦ not (pid == 0 || is_terminated p.status)
]

abbrev pub yield_if : Bool → M (Unit {0})
yield_if true = yield_cpu
yield_if false = pure tt

unfoldable pub sleep_block : ℕ → Bool → M (Option ℕ)
sleep_block pid sleep k =
    if may_block k.sched pid
    then (do
      write (mark_blocked pid sleep)
      is_self ← read (λ k. same_pid (some pid) k.sched.current)
      yield_if is_self
      pure (some 0))
        k
    else done none k

unfoldable pub block_process : ℕ → M (Option ℕ)
block_process pid = sleep_block pid false

abbrev pub put_to_sleep : ℕ → ℕ → Timer → Timer
put_to_sleep pid n t =
    let end_tick = (t.ticks + n) % 2 ^ 64 in
    record t {
      sleeping = set t.sleeping pid (record { end_tick = end_tick; pid = some pid });
      next_tick_check = if ltb end_tick t.next_tick_check then end_tick else t.next_tick_check;
    }

-- Called by a running process: `getPid()` is the pid of `current`.
unfoldable pub sleep : ℕ → ℕ → M (Option ℕ)
sleep pid n = do write (with_timer (put_to_sleep pid n)); sleep_block pid true
