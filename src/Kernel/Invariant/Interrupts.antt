-- ===== src/Kernel/Invariant/Interrupts.antt =====
-- 3_Kernel: the invariant of the kernel and the two interrupts.
use g21_tp2_so_1c.Base.{ℕ, zero, suc, Bool, true, false, ◌==◌, by_bool}
use g21_tp2_so_1c.Kernel.State.{Kernel}
use g21_tp2_so_1c.Kernel.Run.{M, Keeps, RunKeeps-bind, Keeps-cases, pure, write, ◌>>=◌}
use g21_tp2_so_1c.Kernel.Keyboard.{
  cb_push, with_keyboard, kb_sem_name, send_eof_to_stdin, update_flags, scancode_to_ascii,
}
use g21_tp2_so_1c.Kernel.Exit.{kill_foreground_process}
use g21_tp2_so_1c.Kernel.Syscalls.{
  sys_write, control_key, control_message, store_key, handle_key, pressed_key, irq_dispatcher,
  is_letter,
}
use g21_tp2_so_1c.Kernel.Invariant.{KernelIsValid}
use g21_tp2_so_1c.Kernel.Invariant.Changes.{keyboard-KernelIsValid}
use g21_tp2_so_1c.Kernel.Invariant.Steps.{timer_handler-KernelIsValid, sem_post-KernelIsValid}
use g21_tp2_so_1c.Kernel.Invariant.Ends.{
  cb_push-KeyboardIsValid, update_flags-KeyboardIsValid, kill_foreground_process-Keeps,
}
use g21_tp2_so_1c.Kernel.Invariant.Syscalls.{sys_write-Keeps}

registers-KernelIsValid :
    (k : Kernel)
    → KernelIsValid k
    → KernelIsValid (with_keyboard (λ kb. record kb { registers_filled = true }) k)
registers-KernelIsValid k v = keyboard-KernelIsValid k v _ (
    let o = v.keyboard_ok in
    record { room = o.room; read_in = o.read_in; fits = o.fits; write_at = o.write_at })

send_eof_to_stdin-KernelIsValid :
    (k : Kernel) → KernelIsValid k → KernelIsValid (send_eof_to_stdin k)
unfolding send_eof_to_stdin
send_eof_to_stdin-KernelIsValid k v =
    sem_post-KernelIsValid kb_sem_name (with_keyboard (λ kb. record kb { end_of_file = true }) k) (
      keyboard-KernelIsValid k v _ (
        let o = v.keyboard_ok in
        record { room = o.room; read_in = o.read_in; fits = o.fits; write_at = o.write_at }))

-- A message, and then what the key does.
message-Keeps :
    (printed : ℕ) (m : M (Unit {0}))
    → Keeps KernelIsValid m
    → Keeps KernelIsValid (sys_write printed 1 control_message >>= λ _. m)
message-Keeps printed m h k v =
    RunKeeps-bind KernelIsValid (sys_write printed 1 control_message k) (λ _. m)
      (sys_write-Keeps printed 1 control_message k v) (λ _. h)

control_key-Keeps : (printed c : ℕ) → Keeps KernelIsValid (control_key printed c)
control_key-Keeps printed c =
    Keeps-cases KernelIsValid (is_letter b's' c) _ _
      (λ _ k v.
        message-Keeps printed (pure tt) (λ k' v'. v')
          (with_keyboard (λ kb. record kb { registers_filled = true }) k)
          (registers-KernelIsValid k v))
      (λ _.
        Keeps-cases KernelIsValid (is_letter b'd' c) _ _
          (λ _. message-Keeps printed (write send_eof_to_stdin) send_eof_to_stdin-KernelIsValid)
          (λ _.
            Keeps-cases KernelIsValid (is_letter b'c' c) _ (pure tt)
              (λ _. message-Keeps printed kill_foreground_process kill_foreground_process-Keeps)
              (λ _ k v. v)))

store_key-KernelIsValid : (c : ℕ) (k : Kernel) → KernelIsValid k → KernelIsValid (store_key c k)
store_key-KernelIsValid c k v =
    by_bool KernelIsValid (c == 0) _ _ (λ _. v)
      (λ _.
        sem_post-KernelIsValid kb_sem_name (with_keyboard (λ kb. (cb_push c kb).1) k)
          (keyboard-KernelIsValid k v _ (cb_push-KeyboardIsValid c k.keyboard v.keyboard_ok)))

handle_key-Keeps : (printed c : ℕ) (ctrl : Bool) → Keeps KernelIsValid (handle_key printed c ctrl)
handle_key-Keeps printed c true = control_key-Keeps printed c
handle_key-Keeps printed c false = store_key-KernelIsValid c

pressed_key-Keeps : (printed scancode : ℕ) → Keeps KernelIsValid (pressed_key printed scancode)
unfolding pressed_key
pressed_key-Keeps printed scancode k v =
    let k1 = with_keyboard (update_flags scancode) k in
    handle_key-Keeps printed (scancode_to_ascii k1.keyboard scancode) k1.keyboard.active_ctrl k1 (
      keyboard-KernelIsValid k v _ (update_flags-KeyboardIsValid scancode k.keyboard v.keyboard_ok))

-- Every interrupt keeps the invariant: the timer's, the keyboard's, for any key, and any other.
pub irq_dispatcher-Keeps :
    (printed scancode irq : ℕ) → Keeps KernelIsValid (irq_dispatcher printed scancode irq)
unfolding irq_dispatcher
irq_dispatcher-Keeps printed scancode zero = timer_handler-KernelIsValid
irq_dispatcher-Keeps printed scancode (suc zero) = pressed_key-Keeps printed scancode
irq_dispatcher-Keeps printed scancode (suc (suc n)) = λ k v. v
