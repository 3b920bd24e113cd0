-- ===== src/Kernel/Semaphores.antt =====
-- 3_Kernel/2_libraries/synchro.c: the named semaphores. `acquire` (0_asm/synchro.asm) spins until
-- the lock is 1; every function releases it before it returns or yields.
pub mod Valid
pub mod Ops
pub mod Tokens
pub mod References
use g21_tp2_so_1c.Base.{
  ℕ, zero, suc, ◌+◌, ◌-◌, ◌%◌, ◌^◌, List, [], ◌∷◌, Option, none, some, Bool, true, false, not, ◌&&◌,
  ◌||◌, map, set, take, replicate, leb, ltb, ◌==◌, if◌then◌else◌,
}
use g21_tp2_so_1c.Base.Slots.{slot, is_null, find_slot}
use g21_tp2_so_1c.Text.{strcmp}
use g21_tp2_so_1c.Heap.{my_malloc}
use g21_tp2_so_1c.WaitQueue.{
  CircularBuffer, max_processes, pop_from_queue, add_to_queue, remove_process_from_queue,
}
use g21_tp2_so_1c.Kernel.State.{Semaphore, SemaphoreManager, Kernel}
use g21_tp2_so_1c.Kernel.Run.{M, Run, done, parked, pure, read, write, step, ◌>>=◌, ◌>>◌}
use g21_tp2_so_1c.Kernel.Process.{free}
use g21_tp2_so_1c.Kernel.Table.{unblock_process, get_pid}
use g21_tp2_so_1c.Kernel.Block.{block_process}

abbrev pub max_semaphores : ℕ
max_semaphores = 256

abbrev pub max_sem_name_length : ℕ
max_sem_name_length = 64

-- sizeof(semaphore_t)
abbrev pub sizeof_semaphore : ℕ
sizeof_semaphore = 344

abbrev pub int_mod : ℕ
int_mod = 2 ^ 32

-- `x > 0` for an `int`.
abbrev pub positive : ℕ → Bool
positive x = ltb 0 x && ltb x (2 ^ 31)

abbrev pub acquire : Semaphore → Semaphore
acquire s = record s { lock = 0 }

abbrev pub release : Semaphore → Semaphore
release s = record s { lock = 1 }

abbrev pub is_named : List ℕ → Option Semaphore → Bool
is_named name none = false
is_named name (some s) = strcmp s.name name == 0

unfoldable pub get_idx_by_name : List ℕ → SemaphoreManager → Option ℕ
get_idx_by_name name m = find_slot (is_named name) m.semaphores

unfoldable pub get_free_id : SemaphoreManager → Option ℕ
get_free_id m = find_slot is_null m.semaphores

unfoldable pub get_sem_by_name : List ℕ → SemaphoreManager → Option Semaphore
unfolding get_idx_by_name
get_sem_by_name name m = elim (get_idx_by_name name m) [
  | none ↦ none
  | some i ↦ slot m.semaphores i
]

unfoldable pub init_sem_manager : SemaphoreManager → SemaphoreManager
init_sem_manager m =
    if m.up
    then m
    else record { up = true; semaphores = replicate max_semaphores none; semaphores_count = 0 }

abbrev pub put_semaphore : ℕ → Option Semaphore → SemaphoreManager → SemaphoreManager
put_semaphore i s m = record m { semaphores = set m.semaphores i s }

abbrev pub with_sems : (SemaphoreManager → SemaphoreManager) → Kernel → Kernel
with_sems f k = record k { sems = f k.sems }

-- The array of a new queue is as `my_malloc` gave it.
abbrev pub new_semaphore : ℕ → List ℕ → ℕ → Semaphore
new_semaphore self name initial = record {
  self = self;
  value = initial;
  using = 1;
  name = take max_sem_name_length name;
  queue = record { v = replicate max_processes 0; read_index = 0; write_index = 0; size = 0 };
  lock = 1;
}

abbrev pub with_using : ℕ → Semaphore → Semaphore
with_using n s = release (record (acquire s) { using = n })

unfoldable pub sem_create : List ℕ → ℕ → Kernel → Option ℕ × Kernel
unfolding get_free_id
sem_create name initial k = elim (get_free_id k.sems) [
  | none ↦ (none, k)
  | some id ↦
      let (p, h) = my_malloc k.heap sizeof_semaphore in
      elim p [
        | none ↦ (none, record k { heap = h })
        | some self ↦ (
          some 0,
          record k {
            heap = h;
            sems = record k.sems {
              semaphores = set k.sems.semaphores id (some (new_semaphore self name initial));
              semaphores_count = k.sems.semaphores_count + 1;
            };
          },
        )
      ]
]

-- `initial` is the 32-bit pattern of an `int`.
unfoldable pub sem_open : List ℕ → ℕ → Kernel → Option ℕ × Kernel
unfolding get_idx_by_name sem_create
sem_open name initial k =
    if not k.sems.up || leb max_semaphores k.sems.semaphores_count
    then (none, k)
    else elim (get_idx_by_name name k.sems) [
      | none ↦ sem_create name initial k
      | some i ↦ elim (slot k.sems.semaphores i) [
        | none ↦ sem_create name initial k
        | some s ↦
            (some 0, with_sems (put_semaphore i (some (with_using ((s.using + 1) % int_mod) s))) k)
      ]
    ]

unfoldable pub sem_close : List ℕ → Kernel → Option ℕ × Kernel
unfolding get_idx_by_name free
sem_close name k = if not k.sems.up then (none, k) else elim (get_idx_by_name name k.sems) [
  | none ↦ (none, k)
  | some i ↦ elim (slot k.sems.semaphores i) [
    | none ↦ (none, k)
    | some s ↦
        if positive s.using && ltb 1 s.using
        then (some 0, with_sems (put_semaphore i (some (with_using (s.using - 1) s))) k)
        else (
          some 0,
          record k {
            heap = free k.heap s.self;
            sems = record k.sems {
              semaphores = set k.sems.semaphores i none;
              semaphores_count = k.sems.semaphores_count - 1;
            };
          },
        )
  ]
]

-- What the caller of `semWait` does after the locked part.
pub data Wait : Type 0 where
  passed refused : Wait
  must_block : ℕ → Wait

-- `uint16_t pid = getPid()`.
abbrev pub pid_bits : Option ℕ → ℕ
pid_bits none = 65535
pid_bits (some p) = p

-- `semWait` on the semaphore itself, for the process `pid`.
unfoldable pub wait_on : ℕ → Semaphore → Wait × Semaphore
wait_on pid s =
    let held = acquire s in
    if positive s.value
    then (passed, release (record held { value = s.value - 1 }))
    else elim (add_to_queue s.queue pid) [
      | none ↦ (refused, release held)
      | some q ↦ (must_block pid, release (record held { queue = q }))
    ]

unfoldable pub begin_wait : List ℕ → Kernel → Wait × Kernel
unfolding get_idx_by_name wait_on get_pid
begin_wait name k = if not k.sems.up then (refused, k) else elim (get_idx_by_name name k.sems) [
  | none ↦ (refused, k)
  | some i ↦ elim (slot k.sems.semaphores i) [
    | none ↦ (refused, k)
    | some s ↦
        let (w, s') = wait_on (pid_bits (get_pid k.sched)) s in
        (w, with_sems (put_semaphore i (some s')) k)
  ]
]

abbrev pub finish_wait : Wait → M (Option ℕ)
finish_wait passed = pure (some 0)
finish_wait refused = pure none
finish_wait (must_block pid) = do _ ← block_process pid; pure (some 0)

unfoldable pub sem_wait : List ℕ → M (Option ℕ)
sem_wait name = do w ← step (begin_wait name); finish_wait w

-- `semPost` on the semaphore itself: the process to unblock, if one waits.
unfoldable pub post_on : Semaphore → Option ℕ × Semaphore
post_on s =
    let held = acquire s in
    if ltb 0 s.queue.size
    then elim (pop_from_queue s.queue) [
      | none ↦ (none, release held)
      | some (pid, q) ↦ (some pid, release (record held { queue = q }))
    ]
    else (none, release (record held { value = (s.value + 1) % int_mod }))

abbrev pub unblock_if : Option ℕ → Kernel → Kernel
unblock_if none k = k
unblock_if (some pid) k = (unblock_process pid k).1

unfoldable pub sem_post : List ℕ → Kernel → Option ℕ × Kernel
unfolding get_idx_by_name post_on
sem_post name k = if not k.sems.up then (none, k) else elim (get_idx_by_name name k.sems) [
  | none ↦ (none, k)
  | some i ↦ elim (slot k.sems.semaphores i) [
    | none ↦ (none, k)
    | some s ↦
        let (wake, s') = post_on s in
        (some 0, unblock_if wake (with_sems (put_semaphore i (some s')) k))
  ]
]

abbrev pub leave_queue : ℕ → Option Semaphore → Option Semaphore
leave_queue pid none = none
leave_queue pid (some s) = some (
    release (record (acquire s) {
      queue = elim (remove_process_from_queue s.queue pid) [ none ↦ s.queue | some q ↦ q ];
    }))

unfoldable pub remove_process_from_all_semaphore_queues : ℕ → SemaphoreManager → SemaphoreManager
remove_process_from_all_semaphore_queues pid m = record m {
  semaphores = map (leave_queue pid) m.semaphores;
}
