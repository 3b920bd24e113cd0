-- ===== src/Kernel/Invariant/Steps.antt =====
-- 3_Kernel: the invariant of the kernel and the operations that run to their end.
use g21_tp2_so_1c.Base.{
  ℕ, zero, suc, ◌+◌, ◌%◌, ◌^◌, ◌≡◌, refl, ap, ◌∙◌, List, [], ◌∷◌, Option, none, some, Bool, not,
  length, get_or, leb, ltb, if◌then◌else◌, by_option, by_bool,
}
use g21_tp2_so_1c.Base.Slots.{slot}
use g21_tp2_so_1c.WaitQueue.{max_processes}
use g21_tp2_so_1c.Kernel.State.{Kernel, Sleeping, ready, blocked}
use g21_tp2_so_1c.Kernel.Process.Valid.{destroy_process-IsTiled}
use g21_tp2_so_1c.Kernel.Scheduler.{is_blocked}
use g21_tp2_so_1c.Kernel.Scheduler.Valid.{
  update_process-TableIsValid, schedule-TableIsValid, other-TableIsValid,
}
use g21_tp2_so_1c.Kernel.Table.{
  forget_sleep, remove_sleeping_process, unblock_process, remove_process, process_at,
}
use g21_tp2_so_1c.Kernel.Table.Valid.{cleared-TableIsValid}
use g21_tp2_so_1c.Kernel.Timer.{
  with_timer, wake, wake_from, unblock_sleeping_processes, timer_handler, never, nobody,
}
use g21_tp2_so_1c.Kernel.Semaphores.{sem_post, post_on, get_idx_by_name, unblock_if}
use g21_tp2_so_1c.Kernel.Semaphores.Valid.{put-SemsAreValid, post_on-Rests}
use g21_tp2_so_1c.Kernel.Block.{force, mark_blocked}
use g21_tp2_so_1c.Kernel.Invariant.{KernelIsValid}
use g21_tp2_so_1c.Kernel.Invariant.Changes.{
  heap-KernelIsValid, sched-KernelIsValid, timer-KernelIsValid, sems-KernelIsValid,
  rsp-KernelIsValid,
}

length-forget_sleep : (i : ℕ) (l : List Sleeping) → length (forget_sleep i l) ≡ length l
length-forget_sleep i [] = refl
length-forget_sleep zero (e ∷ es) = refl
length-forget_sleep (suc i) (e ∷ es) = ap suc (length-forget_sleep i es)

pub remove_sleeping_process-KernelIsValid :
    (pid : ℕ) (k : Kernel)
    → KernelIsValid k
    → KernelIsValid (with_timer (remove_sleeping_process pid) k)
unfolding remove_sleeping_process
remove_sleeping_process-KernelIsValid pid k v =
    timer-KernelIsValid k v _ (length-forget_sleep pid k.timer.sleeping ∙ v.sleeping_ok)

pub unblock_process-KernelIsValid :
    (pid : ℕ) (k : Kernel) → KernelIsValid k → KernelIsValid (unblock_process pid k).1
unfolding unblock_process remove_sleeping_process
unblock_process-KernelIsValid pid k v =
    by_option (λ (r : Option ℕ × Kernel). KernelIsValid r.1) (process_at k.sched pid) _ _ (λ _. v)
      (λ p _.
        by_bool (λ (r : Option ℕ × Kernel). KernelIsValid r.1) (is_blocked p.status) _ _
          (λ _. sched-KernelIsValid _ (remove_sleeping_process-KernelIsValid pid k v) _ (
            update_process-TableIsValid pid (λ q. record q { status = ready }) k.sched (λ _. refl)
              v.table_ok))
          (λ _. v))

wake-KernelIsValid : (i : ℕ) (k : Kernel) → KernelIsValid k → KernelIsValid (wake i k)
unfolding wake
wake-KernelIsValid i k v =
    let e = get_or k.timer.sleeping i nobody in
    by_option KernelIsValid e.pid _ _ (λ _. v)
      (λ pid _.
        by_bool KernelIsValid (leb e.end_tick k.timer.ticks) _ _
          (λ _.
            let u = unblock_process-KernelIsValid pid k v in
            timer-KernelIsValid _ u _
              (length-forget_sleep i (unblock_process pid k).1.timer.sleeping ∙ u.sleeping_ok))
          (λ _. timer-KernelIsValid k v _ v.sleeping_ok))

wake_from-KernelIsValid : (n i : ℕ) (k : Kernel) → KernelIsValid k → KernelIsValid (wake_from n i k)
unfolding wake_from
wake_from-KernelIsValid zero i k v = v
wake_from-KernelIsValid (suc n) i k v =
    wake_from-KernelIsValid n (i + 1) (wake i k) (wake-KernelIsValid i k v)

unblock_sleeping_processes-KernelIsValid :
    (k : Kernel) → KernelIsValid k → KernelIsValid (unblock_sleeping_processes k)
unfolding unblock_sleeping_processes
unblock_sleeping_processes-KernelIsValid k v =
    by_bool KernelIsValid (ltb k.timer.ticks k.timer.next_tick_check) _ _ (λ _. v)
      (λ _.
        wake_from-KernelIsValid max_processes 0
          (with_timer (λ t. record t { next_tick_check = never }) k)
          (timer-KernelIsValid k v _ v.sleeping_ok))

-- A timer interrupt, with the switch to the process that runs next, keeps the invariant.
pub timer_handler-KernelIsValid : (k : Kernel) → KernelIsValid k → KernelIsValid (timer_handler k)
unfolding timer_handler
timer_handler-KernelIsValid k v =
    let k0 = with_timer (λ t. record t { ticks = (t.ticks + 1) % 2 ^ 64 }) k in
    let k1 = unblock_sleeping_processes k0 in
    let u = unblock_sleeping_processes-KernelIsValid k0 (timer-KernelIsValid k v _ v.sleeping_ok) in
    rsp-KernelIsValid _
      (sched-KernelIsValid k1 u _ (schedule-TableIsValid k1.rsp k1.sched u.table_ok)) _

pub force-KernelIsValid : (k : Kernel) → KernelIsValid k → KernelIsValid (force k)
unfolding force
force-KernelIsValid k v =
    sched-KernelIsValid k v _
      (other-TableIsValid k.sched _ refl refl v.table_ok.current_in v.table_ok)

pub mark_blocked-KernelIsValid :
    (pid : ℕ) (sleep : Bool) (k : Kernel)
    → KernelIsValid k
    → KernelIsValid (mark_blocked pid sleep k)
unfolding mark_blocked
mark_blocked-KernelIsValid pid sleep k v =
    let u : KernelIsValid (if sleep then k else with_timer (remove_sleeping_process pid) k) =
      by_bool KernelIsValid sleep _ _ (λ _. v)
        (λ _. remove_sleeping_process-KernelIsValid pid k v) in
    sched-KernelIsValid _ u _ (
      update_process-TableIsValid pid (λ p. record p { status = blocked }) _ (λ _. refl) u.table_ok)

pub remove_process-KernelIsValid :
    (pid : ℕ) (k : Kernel) → KernelIsValid k → KernelIsValid (remove_process pid k)
unfolding remove_process
remove_process-KernelIsValid pid k v =
    by_option KernelIsValid (slot k.sched.processes pid) _ _ (λ _. v)
      (λ p e.
        sched-KernelIsValid _
          (heap-KernelIsValid k v _ (destroy_process-IsTiled p k.heap v.heap_ok)) _
          (cleared-TableIsValid pid k.sched p e v.table_ok))

unblock_if-KernelIsValid :
    (o : Option ℕ) (k : Kernel) → KernelIsValid k → KernelIsValid (unblock_if o k)
unblock_if-KernelIsValid none k v = v
unblock_if-KernelIsValid (some pid) k v = unblock_process-KernelIsValid pid k v

pub sem_post-KernelIsValid :
    (name : List ℕ) (k : Kernel) → KernelIsValid k → KernelIsValid (sem_post name k).1
unfolding sem_post
sem_post-KernelIsValid name k v =
    by_bool (λ (x : Option ℕ × Kernel). KernelIsValid x.1) (not k.sems.up) _ _ (λ _. v)
      (λ _.
        by_option (λ (x : Option ℕ × Kernel). KernelIsValid x.1) (get_idx_by_name name k.sems) _ _
          (λ _. v)
          (λ i _.
            by_option (λ (x : Option ℕ × Kernel). KernelIsValid x.1) (slot k.sems.semaphores i) _ _
              (λ _. v)
              (λ s e. unblock_if-KernelIsValid (post_on s).0 _ (
                sems-KernelIsValid k v _ (
                  put-SemsAreValid k.sems i s (post_on s).1 e
                    (post_on-Rests i s (v.sems_ok.rests i s e)) v.sems_ok)))))
