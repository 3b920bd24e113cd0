-- ===== src/Kernel/Timer.antt =====
-- 3_Kernel/3_drivers/time.c: the tick counter and the processes that sleep until a tick. A pid of -1
-- in the sleeping table is `none`; `sleep` itself is in `Block`.
use g21_tp2_so_1c.Base.{
  ℕ, zero, suc, ◌+◌, ◌-◌, ◌*◌, ◌/◌, ◌%◌, ◌^◌, List, [], ◌∷◌, none, some, get_or, leb, ltb,
  if◌then◌else◌,
}
use g21_tp2_so_1c.WaitQueue.{max_processes}
use g21_tp2_so_1c.Kernel.State.{Sleeping, Timer, Kernel}
use g21_tp2_so_1c.Kernel.Scheduler.{schedule}
use g21_tp2_so_1c.Kernel.Table.{unblock_process, forget_sleep}

-- UINT64_MAX
abbrev pub never : ℕ
never = 2 ^ 64 - 1

abbrev pub nobody : Sleeping
nobody = record { end_tick = 0; pid = none }

abbrev pub with_timer : (Timer → Timer) → Kernel → Kernel
with_timer f k = record k { timer = f k.timer }

abbrev pub forget_all : List Sleeping → List Sleeping
forget_all [] = []
forget_all (e ∷ es) = record e { pid = none } ∷ forget_all es

unfoldable pub init_sleeping_processes : Timer → Timer
init_sleeping_processes t = record t { sleeping = forget_all t.sleeping }

-- The body of the loop of `unblock_sleeping_processes` at index `i`.
unfoldable pub wake : ℕ → Kernel → Kernel
wake i k =
    let e = get_or k.timer.sleeping i nobody in
    elim e.pid [
      | none ↦ k
      | some pid ↦
          if leb e.end_tick k.timer.ticks
          then with_timer (λ t. record t { sleeping = forget_sleep i t.sleeping })
              (unblock_process pid k).1
          else with_timer
              (λ t. record t {
                next_tick_check =
                    if ltb e.end_tick t.next_tick_check then e.end_tick else t.next_tick_check;
              })
              k
    ]

unfoldable pub wake_from : ℕ → ℕ → Kernel → Kernel
unfolding wake
wake_from zero i k = k
wake_from (suc n) i k = wake_from n (i + 1) (wake i k)

unfoldable pub unblock_sleeping_processes : Kernel → Kernel
unfolding wake_from
unblock_sleeping_processes k =
    if ltb k.timer.ticks k.timer.next_tick_check
    then k
    else wake_from max_processes 0 (with_timer (λ t. record t { next_tick_check = never }) k)

-- One timer interrupt.
unfoldable pub timer_handler : Kernel → Kernel
unfolding unblock_sleeping_processes
timer_handler k =
    let k1 =
      unblock_sleeping_processes
        (with_timer (λ t. record t { ticks = (t.ticks + 1) % 2 ^ 64 }) k) in
    let (rsp, s) = schedule k1.rsp k1.sched in record k1 { rsp = rsp; sched = s }

-- The result is an `int`, as a 32-bit pattern.
unfoldable pub ticks_elapsed : Timer → ℕ
ticks_elapsed t = t.ticks % 2 ^ 32

unfoldable pub seconds_elapsed : Timer → ℕ
seconds_elapsed t = t.ticks / 18 % 2 ^ 32

unfoldable pub ms_elapsed : Timer → ℕ
ms_elapsed t = t.ticks * 55 % 2 ^ 64
