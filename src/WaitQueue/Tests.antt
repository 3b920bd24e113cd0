-- ===== src/WaitQueue/Tests.antt =====
-- synchro.c: runs of the queue, and its theorems at concrete queues.
use g21_tp2_so_1c.Base.{ℕ, ◌≡◌, refl, [], ◌∷◌, ◌++◌, some, replicate, get_or, arith}
use g21_tp2_so_1c.WaitQueue.{
  CircularBuffer, pop_from_queue, add_to_queue, find_index, shift_back, remove_process_from_queue,
}
use g21_tp2_so_1c.WaitQueue.Refine.{
  IsValid, waiting, Added, Popped, add_to_queue-Added, pop_from_queue-Popped,
}
use g21_tp2_so_1c.WaitQueue.Remove.{Removed, remove_process_from_queue-Removed, remove_full_head}

-- 7, then 8, then 9, round the end of the array.
abbrev wrapped : CircularBuffer
wrapped = record {
  v = 9 ∷ replicate 61 0 ++ 7 ∷ 8 ∷ [];
  read_index = 62;
  write_index = 1;
  size = 3;
}

-- 64 entries, the first of them 5.
abbrev full : CircularBuffer
full = record { v = 5 ∷ replicate 63 3; read_index = 0; write_index = 0; size = 64 }

wrapped-IsValid : IsValid wrapped
wrapped-IsValid = record { room = refl; read = omega arith; fits = omega arith; write = refl }

full-IsValid : IsValid full
full-IsValid = record { room = refl; read = omega arith; fits = omega arith; write = refl }

waiting-wrapped : waiting wrapped ≡ 7 ∷ 8 ∷ 9 ∷ []
waiting-wrapped = refl

remove_runs :
    remove_process_from_queue wrapped 8
    ≡ some (record {
      v = 0 ∷ replicate 61 0 ++ 7 ∷ 9 ∷ [];
      read_index = 62;
      write_index = 0;
      size = 2;
    })
unfolding remove_process_from_queue find_index shift_back
remove_runs = refl

add_to_queue-Added_example : Added wrapped 4 (add_to_queue wrapped 4)
add_to_queue-Added_example = add_to_queue-Added wrapped 4 wrapped-IsValid

pop_from_queue-Popped_example : Popped wrapped (pop_from_queue wrapped)
pop_from_queue-Popped_example = pop_from_queue-Popped wrapped wrapped-IsValid

remove_process_from_queue-Removed_example : Removed wrapped 8 (remove_process_from_queue wrapped 8)
remove_process_from_queue-Removed_example =
    remove_process_from_queue-Removed wrapped 8 wrapped-IsValid (λ z. omega arith)

remove_full_head_example :
    (r : CircularBuffer) × (last : ℕ) × (remove_process_from_queue full 5 ≡ some r)
    × (waiting full ≡ waiting r ++ (last ∷ []))
    × (get_or r.v r.read_index 0 ≡ 5)
remove_full_head_example = remove_full_head full 5 full-IsValid refl refl
