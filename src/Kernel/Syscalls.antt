-- ===== src/Kernel/Syscalls.antt =====
-- 3_Kernel/4_interruptions/syscalls.c and irqDispatcher.c: the system calls on processes, memory,
-- semaphores and pipes, and the keyboard interrupt of keyboard.c. The screen, the clock chip and the
-- speaker are no part of the state: what they return is an argument.
use g21_tp2_so_1c.Base.{
  ℕ, zero, suc, ◌-◌, List, [], ◌∷◌, Option, none, some, Bool, true, false, ◌||◌, length, ltb, ◌==◌,
  if◌then◌else◌,
}
use g21_tp2_so_1c.Kernel.State.{Kernel}
use g21_tp2_so_1c.Kernel.Run.{M, pure, read, write, ◌>>=◌, ◌>>◌}
use g21_tp2_so_1c.Kernel.Scheduler.{stdin}
use g21_tp2_so_1c.Kernel.Table.{get_fds}
use g21_tp2_so_1c.Kernel.Timer.{timer_handler}
use g21_tp2_so_1c.Kernel.Semaphores.{sem_post}
use g21_tp2_so_1c.Kernel.Pipes.{read_pipe, write_pipe, builtin_fds}
use g21_tp2_so_1c.Kernel.Keyboard.{
  kb_getchar, kb_sem_name, cb_push, update_flags, scancode_to_ascii, send_eof_to_stdin,
  with_keyboard,
}
use g21_tp2_so_1c.Kernel.Exit.{kill_foreground_process}

-- What a read returns: -1, or the characters that it stored; EOF, which is -1, where there are none.
pub data Answer : Type 0 where
  minus_one : Answer
  chars : List ℕ → Answer

abbrev pub eof_if_empty : Option (List ℕ) → Answer
eof_if_empty none = minus_one
eof_if_empty (some []) = minus_one
eof_if_empty (some (c ∷ cs)) = chars (c ∷ cs)

-- The loop over `kb_getchar`, which ends at a character 0.
unfoldable pub read_keys : ℕ → M (List ℕ)
read_keys zero = pure []
read_keys (suc n) = do
  c ← kb_getchar
  elim (c == 0) [ true ↦ pure [] | false ↦ (do cs ← read_keys n; pure (c ∷ cs)) ]

abbrev pub read_stdin : Option (ℕ × ℕ) → ℕ → M Answer
read_stdin none n = pure minus_one
read_stdin (some (fd_in, _)) n = elim (fd_in == stdin) [
  | true ↦ (do cs ← read_keys n; pure (chars cs))
  | false ↦ (do r ← read_pipe fd_in n; pure (eof_if_empty r))
]

unfoldable pub sys_read : ℕ → ℕ → M Answer
unfolding read_keys
sys_read fd n = elim (n == 0) [
  | true ↦ pure minus_one
  | false ↦ elim (fd == stdin) [
    | true ↦ (do fds ← read (λ k. get_fds k.sched); read_stdin fds n)
    | false ↦ (do r ← read_pipe fd n; pure (eof_if_empty r))
  ]
]

-- `printed` is what `printStrByLength` returns.
abbrev pub write_stdout : ℕ → Option (ℕ × ℕ) → List ℕ → M (Option ℕ)
write_stdout printed none bytes = pure (some printed)
write_stdout printed (some (_, fd_out)) bytes = elim (ltb builtin_fds fd_out) [
  | true ↦ write_pipe fd_out bytes
  | false ↦ pure (some printed)
]

unfoldable pub sys_write : ℕ → ℕ → List ℕ → M (Option ℕ)
sys_write printed fd bytes = elim (fd == 0 || length bytes == 0) [
  | true ↦ pure none
  | false ↦ elim (ltb fd builtin_fds) [
    | true ↦ (do fds ← read (λ k. get_fds k.sched); write_stdout printed fds bytes)
    | false ↦ write_pipe fd bytes
  ]
]

-- The two bytes that the message of a control key starts with: its cells are 16 bits wide.
abbrev pub control_message : List ℕ
control_message = b'^' ∷ 0 ∷ []

abbrev pub is_letter : ℕ → ℕ → Bool
is_letter small c = c == small || c == small - 32

-- What a key does while control is held. The register snapshot itself is not modelled.
abbrev pub control_key : ℕ → ℕ → M (Unit {0})
control_key printed c = elim (is_letter b's' c) [
  | true ↦ (do
    write (with_keyboard (λ kb. record kb { registers_filled = true }))
    _ ← sys_write printed 1 control_message
    pure tt)
  | false ↦ elim (is_letter b'd' c) [
    | true ↦ (do _ ← sys_write printed 1 control_message; write send_eof_to_stdin)
    | false ↦ elim (is_letter b'c' c) [
      | true ↦ (do _ ← sys_write printed 1 control_message; kill_foreground_process)
      | false ↦ pure tt
    ]
  ]
]

abbrev pub store_key : ℕ → Kernel → Kernel
store_key c k =
    if c == 0 then k else (sem_post kb_sem_name (with_keyboard (λ kb. (cb_push c kb).1) k)).1

abbrev pub handle_key : ℕ → ℕ → Bool → M (Unit {0})
handle_key printed c true = control_key printed c
handle_key printed c false = write (store_key c)

-- The keyboard interrupt, for the scan code that the controller holds.
unfoldable pub pressed_key : ℕ → ℕ → M (Unit {0})
pressed_key printed scancode = do
  write (with_keyboard (update_flags scancode))
  c ← read (λ k. scancode_to_ascii k.keyboard scancode)
  ctrl ← read (λ k. k.keyboard.active_ctrl)
  handle_key printed c ctrl

-- Interrupt 0 is the timer, 1 the keyboard; any other does nothing.
unfoldable pub irq_dispatcher : ℕ → ℕ → ℕ → M (Unit {0})
irq_dispatcher printed scancode zero = write timer_handler
irq_dispatcher printed scancode (suc zero) = pressed_key printed scancode
irq_dispatcher printed scancode (suc (suc _)) = pure tt
