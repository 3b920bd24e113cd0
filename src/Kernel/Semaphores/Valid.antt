-- ===== src/Kernel/Semaphores/Valid.antt =====
-- synchro.c: the invariant of the semaphore table.
use g21_tp2_so_1c.Base.{
  ℕ, ◌≡◌, refl, sym, ◌∙◌, subst, Option, none, some, length, length-set, ltb, by_option, by_bool,
}
use g21_tp2_so_1c.Base.Slots.{
  slot, is_null, occupied, EachSlot, EachSlot-set, EachSlot-map, occupied-replace, length-map_slots,
  occupied-map,
}
use g21_tp2_so_1c.WaitQueue.{
  CircularBuffer, pop_from_queue, add_to_queue, remove_process_from_queue,
}
use g21_tp2_so_1c.WaitQueue.Refine
use g21_tp2_so_1c.WaitQueue.Refine.{
  Added, Popped, add_to_queue-Added, pop_from_queue-Popped, empty-IsValid,
}
use g21_tp2_so_1c.WaitQueue.Remove.{remove_process_from_queue-IsValid}
use g21_tp2_so_1c.Kernel.State.{Semaphore, SemaphoreManager}
use g21_tp2_so_1c.Kernel.Semaphores.{
  max_semaphores, leave_queue, remove_process_from_all_semaphore_queues, put_semaphore, post_on,
  wait_on, positive, acquire, release, Wait,
}

-- A semaphore at rest: its queue is valid and its lock is free.
pub record Rests (i : ℕ) (s : Semaphore) : Type 0 where
  pub queue_ok : Refine.IsValid s.queue
  pub unlocked : s.lock ≡ 1

-- The table has 256 entries, of which `semaphoresCount` are used, each by a semaphore at rest.
pub record SemsAreValid (m : SemaphoreManager) : Type 0 where
  pub length_ok : length m.semaphores ≡ max_semaphores
  pub counted : m.semaphores_count ≡ occupied m.semaphores
  pub rests : EachSlot Rests m.semaphores

pub put-SemsAreValid :
    (m : SemaphoreManager) (i : ℕ) (s t : Semaphore)
    → slot m.semaphores i ≡ some s
    → Rests i t
    → SemsAreValid m
    → SemsAreValid (put_semaphore i (some t) m)
put-SemsAreValid m i s t e r v = record {
  length_ok = length-set m.semaphores i (some t) ∙ v.length_ok;
  counted = v.counted ∙ sym (occupied-replace m.semaphores i t s e);
  rests = EachSlot-set Rests m.semaphores i t v.rests r;
}

queue_after_add :
    (q : CircularBuffer) (pid : ℕ) (r : CircularBuffer)
    → Refine.IsValid q
    → add_to_queue q pid ≡ some r
    → Refine.IsValid r
queue_after_add q pid r v e = (subst (Added q pid) e (add_to_queue-Added q pid v)).0

queue_after_pop :
    (q : CircularBuffer) (pid : ℕ) (r : CircularBuffer)
    → Refine.IsValid q
    → pop_from_queue q ≡ some (pid, r)
    → Refine.IsValid r
queue_after_pop q pid r v e = (subst (Popped q) e (pop_from_queue-Popped q v)).0

pub wait_on-Rests : (pid i : ℕ) (s : Semaphore) → Rests i s → Rests i (wait_on pid s).1
unfolding wait_on
wait_on-Rests pid i s r =
    by_bool (λ (x : Wait × Semaphore). Rests i x.1) (positive s.value) _ _
      (λ _. record { queue_ok = r.queue_ok; unlocked = refl })
      (λ _.
        by_option (λ (x : Wait × Semaphore). Rests i x.1) (add_to_queue s.queue pid) _ _
          (λ _. record { queue_ok = r.queue_ok; unlocked = refl })
          (λ q e. record {
            queue_ok = queue_after_add s.queue pid q r.queue_ok e;
            unlocked = refl;
          }))

pub post_on-Rests : (i : ℕ) (s : Semaphore) → Rests i s → Rests i (post_on s).1
unfolding post_on
post_on-Rests i s r =
    by_bool (λ (x : Option ℕ × Semaphore). Rests i x.1) (ltb 0 s.queue.size) _ _
      (λ _.
        by_option (λ (x : Option ℕ × Semaphore). Rests i x.1) (pop_from_queue s.queue) _ _
          (λ _. record { queue_ok = r.queue_ok; unlocked = refl })
          (λ (x : ℕ × CircularBuffer) e. record {
            queue_ok = queue_after_pop s.queue x.0 x.1 r.queue_ok e;
            unlocked = refl;
          }))
      (λ _. record { queue_ok = r.queue_ok; unlocked = refl })

leave_queue-null : (pid : ℕ) (x : Option Semaphore) → is_null (leave_queue pid x) ≡ is_null x
leave_queue-null pid none = refl
leave_queue-null pid (some s) = refl

leave_queue-Rests :
    (pid i : ℕ) (s t : Semaphore) → leave_queue pid (some s) ≡ some t → Rests i s → Rests i t
leave_queue-Rests pid i s t e r =
    let q = remove_process_from_queue-IsValid s.queue pid r.queue_ok in
    let u : Semaphore = release (record (acquire s) {
      queue = elim (remove_process_from_queue s.queue pid) [ none ↦ s.queue | some q ↦ q ];
    }) in
    let same : u ≡ t = cc in subst (Rests i) same (record { queue_ok = q; unlocked = refl })

pub leave_all-SemsAreValid :
    (pid : ℕ) (m : SemaphoreManager)
    → SemsAreValid m
    → SemsAreValid (remove_process_from_all_semaphore_queues pid m)
unfolding remove_process_from_all_semaphore_queues
leave_all-SemsAreValid pid m v = record {
  length_ok = length-map_slots (leave_queue pid) m.semaphores ∙ v.length_ok;
  counted = v.counted ∙ sym (occupied-map (leave_queue pid) m.semaphores (leave_queue-null pid));
  rests = EachSlot-map Rests (leave_queue pid) m.semaphores refl (leave_queue-Rests pid) v.rests;
}
