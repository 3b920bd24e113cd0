-- ===== src/Kernel/Pipes/Fifo.antt =====
-- pipes.c: the buffer of a pipe as a queue of bytes.
use g21_tp2_so_1c.Base.{
  ℕ, ◌+◌, ◌-◌, ◌%◌, ◌≤◌, ◌<◌, ◌≡◌, ◌≢◌, List, [], ◌∷◌, ◌++◌, length, length-set, arith,
}
use g21_tp2_so_1c.Base.Ring.{window, spot, mod_next, window-snoc, window_of_pos}
use g21_tp2_so_1c.Kernel.State.{Pipe}
use g21_tp2_so_1c.Kernel.Pipes.{pipe_size, put_byte, get_byte, int_mod}

-- The positions and the size of a pipe fit together.
pub record IsRing (p : Pipe) : Type 0 where
  pub room : length p.buffer ≡ pipe_size
  pub read_in : p.read_pos < pipe_size
  pub fits : p.size ≤ pipe_size
  pub write_at : p.write_pos ≡ spot pipe_size p.read_pos p.size

-- The bytes in the pipe, the first to leave first.
abbrev pub contents : Pipe → List ℕ
contents p = window pipe_size p.buffer p.read_pos p.size

-- A pipe with fewer than 1024 bytes takes a byte at its end.
pub put_byte-contents :
    (c : ℕ) (p : Pipe)
    → IsRing p
    → p.size < pipe_size
    → IsRing (put_byte c p) × (contents (put_byte c p) ≡ contents p ++ (c ∷ []))
unfolding put_byte
put_byte-contents c p v h =
    let n : (p.size + 1) % int_mod ≡ p.size + 1 = omega arith in
    ground (
      arith,
      length-set p.buffer p.write_pos c,
      mod_next pipe_size p.write_pos,
      window-snoc pipe_size p.buffer p.write_pos c p.read_pos p.size,
    )

-- A pipe that is not empty gives its first byte, and the others stay in order.
pub get_byte-contents :
    (p : Pipe)
    → IsRing p
    → p.size ≢ 0
    → let (c, q) = get_byte p in IsRing q × (contents p ≡ c ∷ contents q)
unfolding get_byte
get_byte-contents p v h =
    let n : (p.size + int_mod - 1) % int_mod ≡ p.size - 1 = omega arith in
    ground
      (arith, mod_next pipe_size p.read_pos, window_of_pos pipe_size p.buffer p.read_pos p.size)
