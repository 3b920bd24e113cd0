-- ===== src/Kernel/Pipes.antt =====
-- 3_Kernel/2_libraries/pipes.c. A pipe is reached through its place in the table; the code keeps the
-- pointer while it waits, and the model takes no step for a pipe that was destroyed meanwhile.
pub mod Fifo
use g21_tp2_so_1c.Base.{
  ℕ, zero, suc, ◌+◌, ◌-◌, ◌%◌, ◌^◌, List, [], ◌∷◌, ◌++◌, Option, none, some, Bool, true, false, not,
  ◌&&◌, ◌||◌, map, set, get_or, replicate, length, leb, ltb, ◌==◌, if◌then◌else◌,
}
use g21_tp2_so_1c.Base.Slots.{slot, is_null, find_slot}
use g21_tp2_so_1c.Text.{itoa, strncat}
use g21_tp2_so_1c.Heap.{my_malloc}
use g21_tp2_so_1c.Kernel.State.{Pipe, PipeTable, Kernel}
use g21_tp2_so_1c.Kernel.Run.{M, Run, done, parked, pure, read, write, step, ◌>>=◌, ◌>>◌}
use g21_tp2_so_1c.Kernel.Process.{free}
use g21_tp2_so_1c.Kernel.Semaphores.{sem_open, sem_close, sem_wait, sem_post, int_mod}

abbrev pub max_pipes : ℕ
max_pipes = 64

abbrev pub pipe_size : ℕ
pipe_size = 1024

-- FDS_COUNT of colors.h
abbrev pub builtin_fds : ℕ
builtin_fds = 20

-- sizeof(pipe_t)
abbrev pub sizeof_pipe : ℕ
sizeof_pipe = 1172

-- EOF as a char.
abbrev pub eof_char : ℕ
eof_char = 255

-- "write" and "read".
abbrev pub write_suffix : List ℕ
write_suffix = b'w' ∷ b'r' ∷ b'i' ∷ b't' ∷ b'e' ∷ []

abbrev pub read_suffix : List ℕ
read_suffix = b'r' ∷ b'e' ∷ b'a' ∷ b'd' ∷ []

abbrev pub with_pipes : (PipeTable → PipeTable) → Kernel → Kernel
with_pipes f k = record k { pipe_table = f k.pipe_table }

abbrev pub put_pipe : ℕ → Option Pipe → PipeTable → PipeTable
put_pipe i p t = record t { pipes = set t.pipes i p }

unfoldable pub init_pipes : PipeTable → PipeTable
init_pipes t = record t { pipes = replicate max_pipes none }

-- The ends of a pipe: 0 reads, 1 writes.
pub data End : Type 0 where
  read_end write_end : End

abbrev pub fd_of : End → Pipe → ℕ
fd_of read_end p = p.fd_read
fd_of write_end p = p.fd_write

abbrev pub has_fd : ℕ → End → Option Pipe → Bool
has_fd fd e none = false
has_fd fd e (some p) = fd_of e p == fd

unfoldable pub get_index_by_fd : ℕ → End → PipeTable → Option ℕ
get_index_by_fd fd e t = find_slot (has_fd fd e) t.pipes

-- `nextFd` is 16 bits wide. The buffer is as `my_malloc` gave it.
unfoldable pub new_pipe : ℕ → ℕ → Pipe
new_pipe self fd =
    let fd' = (fd + 1) % 2 ^ 16 in
    record {
      self = self;
      buffer = replicate pipe_size 0;
      fd_read = fd;
      fd_write = fd';
      read_pos = 0;
      write_pos = 0;
      size = 0;
      write_sem = strncat (itoa fd) write_suffix;
      read_sem = strncat (itoa fd') read_suffix;
    }

-- Opens the two semaphores of pipe `p`, which stands at `i`. Where one cannot be opened the place is
-- cleared; the memory of the pipe is not given back.
unfoldable pub open_semaphores : ℕ → Pipe → Kernel → Option (ℕ × ℕ × ℕ) × Kernel
open_semaphores i p k =
    let (w, k1) = sem_open p.write_sem pipe_size k in
    elim w [
      | none ↦ (none, with_pipes (put_pipe i none) k1)
      | some _ ↦
          let (r, k2) = sem_open p.read_sem 0 k1 in
          elim r [
            | none ↦ (none, with_pipes (put_pipe i none) (sem_close p.write_sem k2).1)
            | some _ ↦ (some (i, p.fd_read, p.fd_write), k2)
          ]
    ]

-- The index that `createPipe` returns, with the two descriptors that it writes.
unfoldable pub create_pipe : Kernel → Option (ℕ × ℕ × ℕ) × Kernel
unfolding new_pipe open_semaphores
create_pipe k = elim (find_slot is_null k.pipe_table.pipes) [
  | none ↦ (none, k)
  | some i ↦
      let (m, h) = my_malloc k.heap sizeof_pipe in
      elim m [
        | none ↦ (none, record k { heap = h })
        | some self ↦
            let p = new_pipe self k.pipe_table.next_fd in
            open_semaphores i p (record k {
              heap = h;
              pipe_table = record {
                next_fd = (k.pipe_table.next_fd + 2) % 2 ^ 16;
                pipes = set k.pipe_table.pipes i (some p);
              };
            })
      ]
]

unfoldable pub put_byte : ℕ → Pipe → Pipe
put_byte c p = record p {
  buffer = set p.buffer p.write_pos c;
  write_pos = (p.write_pos + 1) % pipe_size;
  size = (p.size + 1) % int_mod;
}

unfoldable pub get_byte : Pipe → ℕ × Pipe
get_byte p = (
  get_or p.buffer p.read_pos 0,
  record p { read_pos = (p.read_pos + 1) % pipe_size; size = (p.size + int_mod - 1) % int_mod },
)

abbrev pub pipe_at : ℕ → Kernel → Option Pipe
pipe_at i k = slot k.pipe_table.pipes i

abbrev pub write_sem_of : Option Pipe → List ℕ
write_sem_of none = []
write_sem_of (some p) = p.write_sem

abbrev pub read_sem_of : Option Pipe → List ℕ
read_sem_of none = []
read_sem_of (some p) = p.read_sem

abbrev pub store_byte : ℕ → ℕ → Kernel → Kernel
store_byte i c k = elim (pipe_at i k) [
  | none ↦ k
  | some p ↦ with_pipes (put_pipe i (some (put_byte c p))) k
]

abbrev pub fetch_byte : ℕ → Kernel → ℕ × Kernel
fetch_byte i k = elim (pipe_at i k) [
  | none ↦ (0, k)
  | some p ↦ let (c, p') = get_byte p in (c, with_pipes (put_pipe i (some p')) k)
]

-- One round of the loop of `writePipe`; the results of the semaphores are ignored.
unfoldable pub send_byte : ℕ → ℕ → M (Unit {0})
send_byte i c = do
  name ← read (λ k. write_sem_of (pipe_at i k))
  _ ← sem_wait name
  write (store_byte i c)
  name' ← read (λ k. read_sem_of (pipe_at i k))
  _ ← step (sem_post name')
  pure tt

unfoldable pub receive_byte : ℕ → M ℕ
receive_byte i = do
  name ← read (λ k. read_sem_of (pipe_at i k))
  _ ← sem_wait name
  c ← step (fetch_byte i)
  name' ← read (λ k. write_sem_of (pipe_at i k))
  _ ← step (sem_post name')
  pure c

unfoldable pub send_bytes : ℕ → List ℕ → M (Unit {0})
unfolding send_byte
send_bytes i [] = pure tt
send_bytes i (c ∷ cs) = do send_byte i c; send_bytes i cs

unfoldable pub receive_bytes : ℕ → ℕ → M (List ℕ)
unfolding receive_byte
receive_bytes i zero = pure []
receive_bytes i (suc n) = do c ← receive_byte i; cs ← receive_bytes i n; pure (c ∷ cs)

-- The pipe behind a descriptor, by the guards that the functions share.
unfoldable pub find_pipe : ℕ → End → Kernel → Option ℕ
find_pipe fd e k =
    if ltb fd builtin_fds || leb k.pipe_table.next_fd fd
    then none
    else get_index_by_fd fd e k.pipe_table

abbrev pub write_to : Option ℕ → List ℕ → M (Option ℕ)
write_to none bytes = pure none
write_to (some i) bytes = do send_bytes i bytes; pure (some (length bytes))

unfoldable pub write_pipe : ℕ → List ℕ → M (Option ℕ)
write_pipe fd bytes = do i ← read (find_pipe fd write_end); write_to i bytes

abbrev pub read_from : Option ℕ → ℕ → M (Option (List ℕ))
read_from none n = pure none
read_from (some i) n = do cs ← receive_bytes i n; pure (some cs)

-- The bytes read; `readPipe` returns their number.
unfoldable pub read_pipe : ℕ → ℕ → M (Option (List ℕ))
read_pipe fd n = do i ← read (find_pipe fd read_end); read_from i n

abbrev pub end_stream : Option ℕ → M (Unit {0})
end_stream none = pure tt
end_stream (some i) = send_byte i eof_char

unfoldable pub send_pipe_eof : ℕ → M (Unit {0})
send_pipe_eof fd = do i ← read (find_pipe fd write_end); end_stream i

-- By the write descriptor, with no check of its range.
unfoldable pub destroy_pipe : ℕ → Kernel → Kernel
destroy_pipe fd k = elim (get_index_by_fd fd write_end k.pipe_table) [
  | none ↦ k
  | some i ↦ elim (pipe_at i k) [
    | none ↦ k
    | some p ↦
        let k1 = (sem_close p.write_sem k).1 in
        let k2 = (sem_close p.read_sem k1).1 in
        with_pipes (put_pipe i none) (record k2 { heap = free k2.heap p.self })
  ]
]
