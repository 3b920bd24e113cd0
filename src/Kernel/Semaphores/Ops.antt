-- ===== src/Kernel/Semaphores/Ops.antt =====
-- synchro.c: the invariant of the semaphore table, and the places of its entries.
use g21_tp2_so_1c.Base.{
  ◌<◌, length, set, ℕ, ◌+◌, ◌-◌, ◌≡◌, refl, ◌∙◌, List, Option, none, some, true, length-set,
  length-replicate, replicate, arith,
}
use g21_tp2_so_1c.Base.Slots.{
  slot, is_null, EachSlot-set, EachSlot-clear, occupied-fill, occupied-clear,
}
use g21_tp2_so_1c.WaitQueue.{max_processes}
use g21_tp2_so_1c.WaitQueue.Refine.{empty-IsValid}
use g21_tp2_so_1c.Kernel.State.{Semaphore, SemaphoreManager}
use g21_tp2_so_1c.Kernel.Semaphores.{put_semaphore, with_using, new_semaphore}
use g21_tp2_so_1c.Kernel.Semaphores.Valid.{Rests, SemsAreValid, put-SemsAreValid}

null_slot : (x : Option Semaphore) → is_null x ≡ true → x ≡ none
null_slot none e = refl
null_slot (some p) e = cc

new_semaphore-Rests :
    (i self initial : ℕ) (name : List ℕ) → Rests i (new_semaphore self name initial)
new_semaphore-Rests i self initial name = record {
  queue_ok = empty-IsValid (replicate max_processes 0) (length-replicate {A = ℕ} max_processes 0);
  unlocked = refl;
}

-- The table with a new semaphore in an unused place.
pub created-SemsAreValid :
    (m : SemaphoreManager) (id self initial : ℕ) (name : List ℕ)
    → id < length m.semaphores
    → is_null (slot m.semaphores id) ≡ true
    → SemsAreValid m
    → SemsAreValid (record m {
      semaphores = set m.semaphores id (some (new_semaphore self name initial));
      semaphores_count = m.semaphores_count + 1;
    })
created-SemsAreValid m id self initial name h n v =
    let s = new_semaphore self name initial in
    record {
      length_ok = length-set m.semaphores id (some s) ∙ v.length_ok;
      counted =
          let c = v.counted in
          let o = occupied-fill m.semaphores id s h (null_slot (slot m.semaphores id) n) in
          omega arith;
      rests =
          EachSlot-set Rests m.semaphores id s v.rests (new_semaphore-Rests id self initial name);
    }

-- The table without the semaphore at a place.
pub closed-SemsAreValid :
    (m : SemaphoreManager) (i : ℕ) (s : Semaphore)
    → slot m.semaphores i ≡ some s
    → SemsAreValid m
    → SemsAreValid (record m {
      semaphores = set m.semaphores i none;
      semaphores_count = m.semaphores_count - 1;
    })
closed-SemsAreValid m i s e v = record {
  length_ok = length-set m.semaphores i none ∙ v.length_ok;
  counted = let c = v.counted in let o = occupied-clear m.semaphores i s e in omega arith;
  rests = EachSlot-clear Rests m.semaphores i v.rests;
}

pub using-SemsAreValid :
    (m : SemaphoreManager) (i n : ℕ) (s : Semaphore)
    → slot m.semaphores i ≡ some s
    → SemsAreValid m
    → SemsAreValid (put_semaphore i (some (with_using n s)) m)
using-SemsAreValid m i n s e v =
    put-SemsAreValid m i s (with_using n s) e
      (record { queue_ok = (v.rests i s e).queue_ok; unlocked = refl }) v
