-- ===== src/Kernel/Keyboard.antt =====
-- 3_Kernel/3_drivers/keyboard.c: the scan codes, the flags and the ring of characters.
pub mod Fifo
use g21_tp2_so_1c.Base.{
  ℕ, zero, suc, ◌+◌, ◌-◌, ◌%◌, ◌^◌, List, [], ◌∷◌, Option, none, some, Bool, true, false, not, ◌&&◌,
  ◌||◌, set, get_or, leb, ltb, ◌==◌, if◌then◌else◌,
}
use g21_tp2_so_1c.Kernel.State.{Keyboard, Kernel}
use g21_tp2_so_1c.Kernel.Run.{M, Run, done, parked, pure, read, write, step, ◌>>=◌, ◌>>◌}
use g21_tp2_so_1c.Kernel.Scheduler.{with_sched}
use g21_tp2_so_1c.Kernel.Table.{update_stdin_wait}
use g21_tp2_so_1c.Kernel.Semaphores.{sem_open, sem_wait, sem_post}

abbrev pub keys_amount : ℕ
keys_amount = 59

abbrev pub buffer_size : ℕ
buffer_size = 256

-- "os_kb_sem"
abbrev pub kb_sem_name : List ℕ
kb_sem_name = b'o' ∷ b's' ∷ b'_' ∷ b'k' ∷ b'b' ∷ b'_' ∷ b's' ∷ b'e' ∷ b'm' ∷ []

-- The characters of a key without and with shift; the last key of the code's table has none given
-- and so is 0.
abbrev pub keycode_matrix : List (ℕ × ℕ)
keycode_matrix =
    (0, 0)
    ∷ (27, 27)
    ∷ (49, 33)
    ∷ (50, 64)
    ∷ (51, 35)
    ∷ (52, 36)
    ∷ (53, 37)
    ∷ (54, 94)
    ∷ (55, 38)
    ∷ (56, 42)
    ∷ (57, 40)
    ∷ (48, 41)
    ∷ (45, 95)
    ∷ (61, 43)
    ∷ (8, 8)
    ∷ (9, 9)
    ∷ (113, 81)
    ∷ (119, 87)
    ∷ (101, 69)
    ∷ (114, 82)
    ∷ (116, 84)
    ∷ (121, 89)
    ∷ (117, 85)
    ∷ (105, 73)
    ∷ (111, 79)
    ∷ (112, 80)
    ∷ (91, 123)
    ∷ (93, 125)
    ∷ (10, 10)
    ∷ (0, 0)
    ∷ (97, 65)
    ∷ (115, 83)
    ∷ (100, 68)
    ∷ (102, 70)
    ∷ (103, 71)
    ∷ (104, 72)
    ∷ (106, 74)
    ∷ (107, 75)
    ∷ (108, 76)
    ∷ (59, 58)
    ∷ (39, 34)
    ∷ (96, 126)
    ∷ (0, 0)
    ∷ (92, 124)
    ∷ (122, 90)
    ∷ (120, 88)
    ∷ (99, 67)
    ∷ (118, 86)
    ∷ (98, 66)
    ∷ (110, 78)
    ∷ (109, 77)
    ∷ (44, 60)
    ∷ (46, 62)
    ∷ (47, 63)
    ∷ (0, 0)
    ∷ (0, 0)
    ∷ (0, 0)
    ∷ (32, 32)
    ∷ []

abbrev pub with_keyboard : (Keyboard → Keyboard) → Kernel → Kernel
with_keyboard f k = record k { keyboard = f k.keyboard }

abbrev pub lshift : ℕ
lshift = 0x2a

abbrev pub rshift : ℕ
rshift = 0x36

abbrev pub lctrl : ℕ
lctrl = 0x1d

abbrev pub lctrl_release : ℕ
lctrl_release = 0x9d

abbrev pub capslock : ℕ
capslock = 0x3a

abbrev pub release_offset : ℕ
release_offset = 0x80

unfoldable pub update_flags : ℕ → Keyboard → Keyboard
update_flags scancode kb =
    if scancode == lctrl
    then record kb { active_ctrl = true }
    else (if scancode == lctrl_release
        then record kb { active_ctrl = false }
        else (if scancode == lshift || scancode == rshift
            then record kb { active_shift = true }
            else (if scancode == lshift + release_offset || scancode == rshift + release_offset
                then record kb { active_shift = false }
                else (if scancode == capslock
                    then record kb { active_caps_lock = not kb.active_caps_lock }
                    else kb))))

abbrev pub key : Bool → ℕ × ℕ → ℕ
key true p = p.1
key false p = p.0

-- Caps lock only turns small letters into capitals, shift or not.
unfoldable pub scancode_to_ascii : Keyboard → ℕ → ℕ
scancode_to_ascii kb scancode =
    if ltb scancode keys_amount
    then (let ascii = key kb.active_shift (get_or keycode_matrix scancode (0, 0)) in
        if kb.active_caps_lock && leb b'a' ascii && leb ascii b'z' then ascii - 32 else ascii)
    else 0

unfoldable pub cb_is_empty : Keyboard → Bool
cb_is_empty kb = kb.read_index == kb.write_index

unfoldable pub cb_is_full : Keyboard → Bool
cb_is_full kb = kb.size == buffer_size

-- The result is 1 where the character was stored.
unfoldable pub cb_push : ℕ → Keyboard → Bool × Keyboard
unfolding cb_is_full
cb_push c kb = if cb_is_full kb then (false, kb) else (
  true,
  record kb {
    v = set kb.v kb.write_index c;
    write_index = (kb.write_index + 1) % buffer_size;
    size = kb.size + 1;
  },
)

-- EOF as a char.
abbrev pub eof : ℕ
eof = 255

unfoldable pub cb_pop : Keyboard → ℕ × Keyboard
unfolding cb_is_empty
cb_pop kb =
    if cb_is_empty kb && not kb.end_of_file
    then (0, kb)
    else (if kb.end_of_file then (eof, record kb { end_of_file = false }) else (
      get_or kb.v kb.read_index 0,
      record kb { read_index = (kb.read_index + 1) % buffer_size; size = kb.size - 1 },
    ))

unfoldable pub init_keyboard_driver : Kernel → Option ℕ × Kernel
init_keyboard_driver = sem_open kb_sem_name 0

abbrev pub step_cb_pop : Kernel → ℕ × Kernel
step_cb_pop k = let (c, kb) = cb_pop k.keyboard in (c, record k { keyboard = kb })

unfoldable pub kb_getchar : M ℕ
kb_getchar = do
  write (with_sched (update_stdin_wait true))
  _ ← sem_wait kb_sem_name
  write (with_sched (update_stdin_wait false))
  step step_cb_pop

unfoldable pub send_eof_to_stdin : Kernel → Kernel
send_eof_to_stdin k =
    (sem_post kb_sem_name (with_keyboard (λ kb. record kb { end_of_file = true }) k)).1

unfoldable pub release_stdin : Kernel → Kernel
release_stdin k = (sem_post kb_sem_name k).1
