-- ===== src/Kernel/Keyboard/Fifo.antt =====
-- keyboard.c: the keyboard buffer as a queue of characters.
use g21_tp2_so_1c.Base.{ℕ, ◌<◌, ◌≡◌, List, [], ◌∷◌, ◌++◌, arith, Bool, true, false}
use g21_tp2_so_1c.Base.Ring.{window, window-snoc, window_of_pos}
use g21_tp2_so_1c.Kernel.State.{Keyboard}
use g21_tp2_so_1c.Kernel.Keyboard.{buffer_size, cb_push, cb_pop, cb_is_full, cb_is_empty}
use g21_tp2_so_1c.Kernel.Invariant.{KeyboardIsValid}

abbrev pub typed : Keyboard → List ℕ
typed kb = window buffer_size kb.v kb.read_index kb.size

-- The outcomes of a push.
abbrev pub Pushed : ℕ → Keyboard → Bool × Keyboard → Type 0
Pushed c kb (false, r) = (kb.size ≡ buffer_size) × (r ≡ kb)
Pushed c kb (true, r) = (kb.size < buffer_size) × (typed r ≡ typed kb ++ (c ∷ []))

-- A character is refused exactly when 256 are stored; otherwise it goes to the end.
pub cb_push-Pushed : (c : ℕ) (kb : Keyboard) → KeyboardIsValid kb → Pushed c kb (cb_push c kb)
unfolding cb_push cb_is_full
cb_push-Pushed c kb v =
    ground (arith, window-snoc buffer_size kb.v kb.write_index c kb.read_index kb.size)

-- With no end of file pending and from 1 to 255 characters stored, the first of them is taken.
pub cb_pop-typed :
    (kb : Keyboard)
    → KeyboardIsValid kb
    → kb.end_of_file ≡ false
    → 0 < kb.size
    → kb.size < buffer_size
    → let (c, r) = cb_pop kb in typed kb ≡ c ∷ typed r
unfolding cb_pop cb_is_empty
cb_pop-typed kb v e h n = ground (arith, window_of_pos buffer_size kb.v kb.read_index kb.size)

-- Of a full buffer nothing can be read: it is taken for an empty one, and nothing is taken out.
pub cb_pop_full :
    (kb : Keyboard)
    → KeyboardIsValid kb
    → kb.end_of_file ≡ false
    → kb.size ≡ buffer_size
    → (cb_pop kb ≡ (0, kb)) × ((c : ℕ) → cb_push c kb ≡ (false, kb))
unfolding cb_pop cb_is_empty cb_push cb_is_full
cb_pop_full kb v e n =
    let w : kb.read_index ≡ kb.write_index = ground (arith, v.write_at, v.read_in) in
    (ground arith, λ c. ground arith)
