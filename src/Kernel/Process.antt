-- ===== src/Kernel/Process.antt =====
-- 3_Kernel/2_libraries/process.c. The memory of a process comes from the heap of memoryManager.c.
-- `setup_stack_frame` (0_asm/interrupts.asm) pushes twenty words on the new stack.
pub mod Valid
use g21_tp2_so_1c.Base.{
  ℕ, ◌+◌, ◌-◌, ◌*◌, zero, suc, List, [], ◌∷◌, Option, none, some, Bool, true, false, length, take,
  ◌%◌, ◌^◌,
}
use g21_tp2_so_1c.Heap.{Heap, my_malloc, my_free}
use g21_tp2_so_1c.Kernel.State.{Process, Status, ready}

abbrev pub stack_size : ℕ
stack_size = 0x1000

-- sizeof(process_t)
abbrev pub sizeof_process : ℕ
sizeof_process = 136

abbrev pub max_name_length : ℕ
max_name_length = 64

-- `my_free`; a pointer that heads no block is counted, and the blocks are what they were only as long
-- as the count is 0.
unfoldable pub free : Heap → ℕ → Heap
free h p = elim (my_free h p) [ none ↦ record h { wild_frees = h.wild_frees + 1 } | some h' ↦ h' ]

-- A copy of each string, terminator included; `none` where the heap has no room for one, and the
-- copies made before are then lost.
unfoldable pub duplicate_strings : List (List ℕ) → Heap → Option (List ℕ) × Heap
duplicate_strings [] h = (some [], h)
duplicate_strings (s ∷ ss) h =
    let (p, h1) = my_malloc h (length s + 1) in
    let (ps, h2) = duplicate_strings ss h1 in
    elim p [
      | none ↦ (none, h1)
      | some a ↦ elim ps [ none ↦ (none, h2) | some rest ↦ (some (a ∷ rest), h2) ]
    ]

-- The array and the copies of the strings. An `argv` that is NULL or empty gets an array of one
-- NULL; so does a process without arguments.
unfoldable pub duplicate_argv : List (List ℕ) → Heap → Option (ℕ × List ℕ) × Heap
unfolding duplicate_strings
duplicate_argv [] h =
    let (p, h1) = my_malloc h 8 in elim p [ none ↦ (none, h1) | some a ↦ (some (a, []), h1) ]
duplicate_argv (s ∷ ss) h =
    let (p, h1) = my_malloc h ((length (s ∷ ss) + 1) * 8) in
    let (ps, h2) = duplicate_strings (s ∷ ss) h1 in
    elim p [
      | none ↦ (none, h1)
      | some a ↦ elim ps [ none ↦ (none, h2) | some strings ↦ (some (a, strings), h2) ]
    ]

unfoldable pub free_argv : List ℕ → ℕ → Heap → Heap
unfolding free
free_argv [] argv h = free h argv
free_argv (s ∷ ss) argv h = free_argv ss argv (free h s)

-- The address of the frame that a new process starts from.
abbrev pub setup_stack_frame : ℕ → ℕ
setup_stack_frame stack_end = stack_end - 160

-- What the caller of `createProcess` asks for; its argument `waiting_for_pid` is not used.
pub record Request : Type 0 where
  pub pid : ℕ
  pub parent_pid : Option ℕ
  pub entry_point : ℕ
  pub argv : List (List ℕ)
  pub name : List ℕ
  pub priority : ℕ
  pub unkillable : Bool
  pub fd_in : ℕ
  pub fd_out : ℕ

-- The fields that the code sets; `entry_point` stands in the new stack frame (the structure's own
-- field of that name is left unset). `return_value` and `waiting_for_stdin` are left as `my_malloc`
-- gave them, and are 0 here.
abbrev pub new_process : Request → ℕ → ℕ → ℕ → List ℕ → Process
new_process r self stack argv args = record {
  self = self;
  pid = r.pid;
  parent_pid = r.parent_pid;
  status = ready;
  priority = r.priority;
  remaining_quantum = r.priority;
  unkillable = r.unkillable;
  stack_base = stack;
  stack_pointer = setup_stack_frame (stack + stack_size);
  entry_point = r.entry_point;
  argv = argv;
  args = args;
  name = take (max_name_length - 1) r.name;
  return_value = 0;
  waiting_for_pid = some 0;
  fd_in = r.fd_in;
  fd_out = r.fd_out;
  waiting_for_stdin = false;
  cpu_ticks = 0;
}

unfoldable pub create_process : Request → Heap → Option Process × Heap
unfolding free duplicate_argv
create_process r h =
    let (p, h1) = my_malloc h sizeof_process in
    elim p [
      | none ↦ (none, h1)
      | some self ↦
          let (s, h2) = my_malloc h1 stack_size in
          elim s [
            | none ↦ (none, free h2 self)
            | some stack ↦
                let (a, h3) = duplicate_argv r.argv h2 in
                elim a [
                  | none ↦ (none, free (free h3 stack) self)
                  | some (argv, args) ↦ (some (new_process r self stack argv args), h3)
                ]
          ]
    ]

unfoldable pub destroy_process : Process → Heap → Heap
unfolding free free_argv
destroy_process p h = free (free (free_argv p.args p.argv h) p.stack_base) p.self
