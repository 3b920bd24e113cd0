-- ===== src/Kernel/QueueTests.antt =====
-- 3_Kernel: the theorems on semaphores, pipes and the keyboard buffer at concrete states.
use g21_tp2_so_1c.Base.{ℕ, ◌≡◌, refl, [], ◌∷◌, ◌++◌, false, replicate, arith}
use g21_tp2_so_1c.WaitQueue.{CircularBuffer}
use g21_tp2_so_1c.WaitQueue.Refine
use g21_tp2_so_1c.Kernel.State.{Semaphore, Pipe, Keyboard}
use g21_tp2_so_1c.Kernel.Semaphores.{wait_on, post_on}
use g21_tp2_so_1c.Kernel.Semaphores.Tokens.{
  Waited, Posted, NoneWastes, wait_on-Waited, post_on-Posted, semaphore-NoneWastes,
}
use g21_tp2_so_1c.Kernel.Pipes.{put_byte, get_byte}
use g21_tp2_so_1c.Kernel.Pipes.Fifo.{IsRing, contents, put_byte-contents, get_byte-contents}
use g21_tp2_so_1c.Kernel.Keyboard.{cb_push, cb_pop}
use g21_tp2_so_1c.Kernel.Keyboard.Fifo.{typed, Pushed, cb_push-Pushed, cb_pop-typed, cb_pop_full}
use g21_tp2_so_1c.Kernel.Invariant.{KeyboardIsValid}

abbrev keys : ℕ → ℕ → ℕ → Keyboard
keys r w n = record {
  v = 104 ∷ 105 ∷ replicate 254 120;
  read_index = r;
  write_index = w;
  size = n;
  active_shift = false;
  active_caps_lock = false;
  active_ctrl = false;
  end_of_file = false;
  registers_filled = false;
}

-- 5 and then 6 wait, round the end of the array.
abbrev queue : CircularBuffer
queue = record { v = 6 ∷ replicate 62 0 ++ (5 ∷ []); read_index = 63; write_index = 1; size = 2 }

queue-IsValid : Refine.IsValid queue
queue-IsValid = record { room = refl; read = omega arith; fits = omega arith; write = refl }

abbrev semaphore : Semaphore
semaphore = record { self = 0; value = 0; using = 1; name = []; queue = queue; lock = 1 }

wait_on-Waited_example : Waited 7 semaphore (wait_on 7 semaphore)
wait_on-Waited_example = wait_on-Waited 7 semaphore queue-IsValid

post_on-Posted_example : Posted semaphore (post_on semaphore)
post_on-Posted_example = post_on-Posted semaphore queue-IsValid

semaphore-NoneWastes_example : NoneWastes (wait_on 7 semaphore).1 × NoneWastes (post_on semaphore).1
semaphore-NoneWastes_example = semaphore-NoneWastes 7 semaphore queue-IsValid (λ e. cc)

-- Three bytes, round the end of the buffer.
abbrev pipe : Pipe
pipe = record {
  self = 0;
  buffer = 67 ∷ replicate 1021 0 ++ (65 ∷ 66 ∷ []);
  fd_read = 20;
  fd_write = 21;
  read_pos = 1022;
  write_pos = 1;
  size = 3;
  write_sem = [];
  read_sem = [];
}

pipe-IsRing : IsRing pipe
pipe-IsRing = record { room = refl; read_in = omega arith; fits = omega arith; write_at = refl }

contents-pipe : contents pipe ≡ 65 ∷ 66 ∷ 67 ∷ []
contents-pipe = refl

put_byte-contents_example :
    IsRing (put_byte 68 pipe) × (contents (put_byte 68 pipe) ≡ contents pipe ++ (68 ∷ []))
put_byte-contents_example = put_byte-contents 68 pipe pipe-IsRing (omega arith)

get_byte-contents_example :
    let (c, q) = get_byte pipe in IsRing q × (contents pipe ≡ c ∷ contents q)
get_byte-contents_example = get_byte-contents pipe pipe-IsRing (omega arith)

abbrev two_keys : Keyboard
two_keys = keys 0 2 2

two_keys-KeyboardIsValid : KeyboardIsValid two_keys
two_keys-KeyboardIsValid = record {
  room = refl;
  read_in = omega arith;
  fits = omega arith;
  write_at = refl;
}

cb_push-Pushed_example : Pushed 97 two_keys (cb_push 97 two_keys)
cb_push-Pushed_example = cb_push-Pushed 97 two_keys two_keys-KeyboardIsValid

cb_pop-typed_example : let (c, r) = cb_pop two_keys in typed two_keys ≡ c ∷ typed r
cb_pop-typed_example =
    cb_pop-typed two_keys two_keys-KeyboardIsValid refl (omega arith) (omega arith)

abbrev full_keys : Keyboard
full_keys = keys 0 0 256

full_keys-KeyboardIsValid : KeyboardIsValid full_keys
full_keys-KeyboardIsValid = record {
  room = refl;
  read_in = omega arith;
  fits = omega arith;
  write_at = refl;
}

cb_pop_full_example :
    (cb_pop full_keys ≡ (0, full_keys)) × ((c : ℕ) → cb_push c full_keys ≡ (false, full_keys))
cb_pop_full_example = cb_pop_full full_keys full_keys-KeyboardIsValid refl refl
