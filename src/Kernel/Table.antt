-- ===== src/Kernel/Table.antt =====
-- 3_Kernel/2_libraries/scheduler.c: the operations on the process table that do not switch the
-- caller out, and `remove_sleeping_process` of 3_drivers/time.c. -1 is `none`, 0 is `some 0`.
pub mod Valid
pub mod Add
use g21_tp2_so_1c.Base.{
  ℕ, zero, suc, ◌+◌, ◌-◌, ◌%◌, ◌^◌, List, [], ◌∷◌, Option, none, some, Bool, true, false, not, ◌&&◌,
  ◌||◌, map, set, leb, ltb, ◌==◌, if◌then◌else◌,
}
use g21_tp2_so_1c.Base.Slots.{slot, is_null}
use g21_tp2_so_1c.Heap.{Heap}
use g21_tp2_so_1c.WaitQueue.{max_processes}
use g21_tp2_so_1c.Kernel.State.{Status, ready, blocked, Process, Scheduler, Sleeping, Timer, Kernel}
use g21_tp2_so_1c.Kernel.Process.{destroy_process}
use g21_tp2_so_1c.Kernel.Scheduler.{
  min_priority, max_priority, shell_pid, is_blocked, is_terminated, same_pid, update_process,
  with_sched,
}

-- An index past the end of the sleeping table is outside the model: nothing changes.
abbrev pub forget_sleep : ℕ → List Sleeping → List Sleeping
forget_sleep i [] = []
forget_sleep zero (e ∷ es) = record e { pid = none } ∷ es
forget_sleep (suc i) (e ∷ es) = e ∷ forget_sleep i es

unfoldable pub remove_sleeping_process : ℕ → Timer → Timer
remove_sleeping_process pid t = record t { sleeping = forget_sleep pid t.sleeping }

-- The guard `scheduler == NULL || pid >= MAX_PROCESSES || processes[pid] == NULL`, turned round.
abbrev pub process_at : Scheduler → ℕ → Option Process
process_at s pid = if s.up && ltb pid max_processes then slot s.processes pid else none

abbrev pub adopted : ℕ → Option Process → Option Process
adopted pid none = none
adopted pid (some p) =
    if same_pid p.parent_pid (some pid) then some (record p { parent_pid = some 0 }) else some p

unfoldable pub adopt_children : ℕ → Scheduler → Scheduler
adopt_children pid s = record s { processes = map (adopted pid) s.processes }

unfoldable pub unblock_process : ℕ → Kernel → Option ℕ × Kernel
unfolding remove_sleeping_process
unblock_process pid k = elim (process_at k.sched pid) [
  | none ↦ (none, k)
  | some p ↦
      if is_blocked p.status
      then (
        some 0,
        record k {
          timer = remove_sleeping_process pid k.timer;
          sched = update_process pid (λ q. record q { status = ready }) k.sched;
        },
      )
      else (none, k)
]

unfoldable pub set_priority : ℕ → ℕ → Scheduler → Option ℕ × Scheduler
set_priority pid new_priority s = elim (process_at s pid) [
  | none ↦ (none, s)
  | some p ↦ if ltb new_priority min_priority || ltb max_priority new_priority then (none, s) else (
    some 0,
    update_process pid (λ q. record q { priority = new_priority; remaining_quantum = new_priority })
        s,
  )
]

-- `processes[SHELL_PID]->waiting_for_pid`; before there is a shell, a word read through NULL, which
-- the model takes for -1.
abbrev pub foreground : Scheduler → Option ℕ
foreground s = elim (slot s.processes shell_pid) [ none ↦ none | some p ↦ p.waiting_for_pid ]

unfoldable pub is_foreground_process : Scheduler → ℕ → Bool
is_foreground_process s pid = elim (process_at s pid) [
  | none ↦ false
  | some p ↦ same_pid (foreground s) (some pid)
]

pub record ProcessInfo : Type 0 where
  pub name : List ℕ
  pub pid : ℕ
  pub ppid : Option ℕ
  pub priority : ℕ
  pub stack_base : ℕ
  pub stack_pointer : ℕ
  pub foreground : Bool
  pub status : Status
  pub cpu_ticks : ℕ

abbrev pub info_of : Scheduler → Process → ProcessInfo
info_of s p = record {
  name = p.name;
  pid = p.pid;
  ppid = p.parent_pid;
  priority = p.priority;
  stack_base = p.stack_base;
  stack_pointer = p.stack_pointer;
  foreground = is_foreground_process s p.pid;
  status = p.status;
  cpu_ticks = p.cpu_ticks;
}

abbrev pub infos : Scheduler → List (Option Process) → List ProcessInfo
infos s [] = []
infos s (none ∷ l) = infos s l
infos s (some p ∷ l) = info_of s p ∷ infos s l

-- The entries before the one with pid -1 that ends the array.
unfoldable pub process_status : Scheduler → List ProcessInfo
process_status s = infos s s.processes

unfoldable pub get_pid : Scheduler → Option ℕ
get_pid s = s.current

-- What `getFds` writes to `fds[0]` and `fds[1]`; `none` where it writes nothing.
unfoldable pub get_fds : Scheduler → Option (ℕ × ℕ)
get_fds s = elim s.current [
  | none ↦ none
  | some c ↦
      if s.up
      then elim (slot s.processes c) [ none ↦ none | some p ↦ some (p.fd_in, p.fd_out) ]
      else none
]

unfoldable pub update_stdin_wait : Bool → Scheduler → Scheduler
update_stdin_wait value s = elim s.current [
  | none ↦ s
  | some c ↦ if s.up then update_process c (λ p. record p { waiting_for_stdin = value }) s else s
]

unfoldable pub remove_process : ℕ → Kernel → Kernel
remove_process pid k = elim (slot k.sched.processes pid) [
  | none ↦ k
  | some p ↦ record k {
    heap = destroy_process p k.heap;
    sched = record k.sched {
      processes = set k.sched.processes pid none;
      size = (k.sched.size + 255) % 256;
    };
  }
]

abbrev pub is_orphan_corpse : Option Process → Bool
is_orphan_corpse none = false
is_orphan_corpse (some p) = is_terminated p.status && same_pid p.parent_pid (some 0)

-- The loop of `cleanupTerminatedOrphans` over the indices from `i` on, `n` of them.
unfoldable pub cleanup_from : ℕ → ℕ → Kernel → Kernel
unfolding remove_process
cleanup_from zero i k = k
cleanup_from (suc n) i k =
    cleanup_from n (i + 1)
      (if is_orphan_corpse (slot k.sched.processes i) then remove_process i k else k)

unfoldable pub cleanup_terminated_orphans : Kernel → Kernel
unfolding cleanup_from
cleanup_terminated_orphans k = cleanup_from max_processes 0 k

abbrev pub destroy_all : List (Option Process) → Heap → Heap
destroy_all [] h = h
destroy_all (none ∷ l) h = destroy_all l h
destroy_all (some p ∷ l) h = destroy_all l (destroy_process p h)

-- The structure at SCHEDULER_ADDRESS keeps its contents; only the pointer becomes NULL.
unfoldable pub destroy_scheduler : Kernel → Kernel
destroy_scheduler k = record k {
  heap = destroy_all k.sched.processes k.heap;
  sched = record k.sched { up = false };
}
