-- ===== src/Kernel/Scheduler.antt =====
-- 3_Kernel/2_libraries/scheduler.c: the process table and the choice of the next process; the
-- operations that switch the caller out are in `Block` and `Exit`. The code's table has a 65th
-- entry that it neither sets nor uses. A result -1 is `none`.
pub mod Valid
pub mod Choice
pub mod Stored
pub mod Progress
use g21_tp2_so_1c.Base.{
  replicate, ℕ, zero, suc, ◌+◌, ◌-◌, ◌%◌, ◌^◌, List, [], ◌∷◌, Option, none, some, Bool, true, false,
  not, ◌&&◌, ◌||◌, map, set, leb, ltb, ◌==◌, if◌then◌else◌,
}
use g21_tp2_so_1c.Base.Slots.{slot, is_null, find_slot}
use g21_tp2_so_1c.Heap.{Heap}
use g21_tp2_so_1c.WaitQueue.{max_processes}
use g21_tp2_so_1c.Kernel.State.{
  Status, ready, blocked, running, terminated, Process, Scheduler, Sleeping, Timer, Kernel,
}
use g21_tp2_so_1c.Kernel.Process.{Request, create_process, destroy_process}

abbrev pub min_priority : ℕ
min_priority = 1

abbrev pub max_priority : ℕ
max_priority = 4

abbrev pub shell_pid : ℕ
shell_pid = 1

-- The file descriptors 0 and 1.
abbrev pub stdin : ℕ
stdin = 0

abbrev pub stdout : ℕ
stdout = 1

abbrev pub is_ready : Status → Bool
is_ready ready = true
is_ready _ = false

abbrev pub is_blocked : Status → Bool
is_blocked blocked = true
is_blocked _ = false

abbrev pub is_running : Status → Bool
is_running running = true
is_running _ = false

abbrev pub is_terminated : Status → Bool
is_terminated terminated = true
is_terminated _ = false

-- `a == b` on ids that may be -1.
abbrev pub same_pid : Option ℕ → Option ℕ → Bool
same_pid none none = true
same_pid none (some b) = false
same_pid (some a) none = false
same_pid (some a) (some b) = a == b

-- A change of the process behind a pointer of the table. Through NULL it reaches no process.
abbrev pub update_process : ℕ → (Process → Process) → Scheduler → Scheduler
update_process i f s = elim (slot s.processes i) [
  | none ↦ s
  | some p ↦ record s { processes = set s.processes i (some (f p)) }
]

abbrev pub with_sched : (Scheduler → Scheduler) → Kernel → Kernel
with_sched f k = record k { sched = f k.sched }

-- The state before the first process is added.
unfoldable pub init_scheduler : Scheduler → Scheduler
init_scheduler s =
    if s.up
    then s
    else record s { up = true; processes = replicate max_processes none; current = none; size = 0 }

abbrev pub may_run : Option Process → Bool
may_run none = false
may_run (some p) = is_ready p.status

-- The `do … while` of `getNextProcess`: at most `n` entries from `i` on.
unfoldable pub find_ready : List (Option Process) → ℕ → ℕ → Option ℕ
find_ready l i zero = none
find_ready l i (suc n) =
    let rest = find_ready l ((i + 1) % max_processes) n in
    if may_run (slot l i) then some i else rest

-- The process of `current`. Before the first switch `current` is -1, and the code reads the word
-- in front of the table; the model takes it for NULL.
abbrev pub current_process : Scheduler → Option Process
current_process s = elim s.current [ none ↦ none | some c ↦ slot s.processes c ]

abbrev pub keeps_cpu : Scheduler → Option Process → Bool
keeps_cpu s none = false
keeps_cpu s (some p) =
    (is_ready p.status || is_running p.status)
    && ltb 0 p.remaining_quantum
    && not s.force_reschedule

abbrev pub round_start : Option ℕ → ℕ
round_start none = 0
round_start (some c) = (c + 1) % max_processes

abbrev pub spend : Process → Process
spend p = record p { remaining_quantum = p.remaining_quantum - 1 }

abbrev pub refill : Process → Process
refill p = record p { remaining_quantum = p.priority }

-- The chosen process, by its place in the table, and the scheduler.
unfoldable pub get_next_process : Scheduler → Option ℕ × Scheduler
unfolding find_ready
get_next_process s =
    if not s.up || s.size == 0
    then (none, record s { force_reschedule = false })
    else (if keeps_cpu s (current_process s)
        then (s.current, elim s.current [ none ↦ s | some c ↦ update_process c spend s ])
        else elim (find_ready s.processes (round_start s.current) max_processes) [
          | none ↦ (none, record s { force_reschedule = false })
          | some i ↦ (
            some i,
            update_process i refill (record s { current = some i; force_reschedule = false }),
          )
        ])

abbrev pub saved : ℕ → Process → Process
saved rsp p = record p {
  stack_pointer = rsp;
  cpu_ticks = (p.cpu_ticks + 1) % 2 ^ 64;
  status = if is_running p.status then ready else p.status;
}

-- What `schedule` does with the process that it interrupts.
unfoldable pub save_current : Scheduler → ℕ → Scheduler
save_current s rsp = elim s.current [
  | none ↦ s
  | some c ↦ elim (slot s.processes c) [
    | none ↦ record s {
      total_cpu_ticks = (s.total_cpu_ticks + 1) % 2 ^ 64;
      null_writes = s.null_writes + 1;
    }
    | some p ↦ record s {
      processes = set s.processes c (some (saved rsp p));
      total_cpu_ticks = (s.total_cpu_ticks + 1) % 2 ^ 64;
    }
  ]
]

abbrev pub resumed : Process → Process
resumed p = record p { status = running }

-- The stack pointer to go on with.
unfoldable pub switch_to : ℕ → Scheduler → Option ℕ → ℕ × Scheduler
switch_to rsp s none = (rsp, s)
switch_to rsp s (some i) = elim (slot s.processes i) [
  | none ↦ (rsp, s)
  | some p ↦ (
    p.stack_pointer,
    record s { current = some p.pid; processes = set s.processes i (some (resumed p)) },
  )
]

unfoldable pub schedule : ℕ → Scheduler → ℕ × Scheduler
unfolding get_next_process save_current switch_to
schedule rsp s =
    if not s.up || s.size == 0
    then (rsp, s)
    else (let (next, s') = get_next_process (save_current s rsp) in switch_to rsp s' next)

abbrev pub request : ℕ → Option ℕ → ℕ → List (List ℕ) → List ℕ → Bool → ℕ → ℕ → Request
request pid parent main argv name unkillable fd_in fd_out = record {
  pid = pid;
  parent_pid = parent;
  entry_point = main;
  argv = argv;
  name = name;
  priority = min_priority;
  unkillable = unkillable;
  fd_in = fd_in % 2 ^ 16;
  fd_out = fd_out % 2 ^ 16;
}

abbrev pub inserted : Scheduler → ℕ → Process → Scheduler
inserted s pid p = record s {
  processes = set s.processes pid (some (record p { waiting_for_stdin = false }));
  size = (s.size + 1) % 256;
}

-- The descriptors are NULL or `fileDescriptors[STDIN]` and `fileDescriptors[STDOUT]`.
unfoldable pub add_process :
    ℕ → List (List ℕ) → List ℕ → Bool → Option (ℕ × ℕ) → Kernel → Option ℕ × Kernel
unfolding create_process
add_process main argv name unkillable none k = (none, k)
add_process main argv name unkillable (some (fd_in, fd_out)) k =
    let s = k.sched in
    if not s.up || leb max_processes s.size
    then (none, k)
    else elim (find_slot is_null s.processes) [
      | none ↦ (none, k)
      | some pid ↦
          let (p, h) =
            create_process (request pid s.current main argv name unkillable fd_in fd_out) k.heap in
          elim p [
            | none ↦ (none, record k { heap = h })
            | some q ↦ (some pid, record k { heap = h; sched = inserted s pid q })
          ]
    ]
