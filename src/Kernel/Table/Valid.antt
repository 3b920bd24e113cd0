-- ===== src/Kernel/Table/Valid.antt =====
-- scheduler.c: the invariant of the process table when processes are removed and changed.
use g21_tp2_so_1c.Base.{
  ℕ, zero, suc, ◌+◌, ◌%◌, ◌≡◌, refl, sym, ◌∙◌, Option, none, some, Bool, length-set, set, arith,
  by_option, by_bool,
}
use g21_tp2_so_1c.Base.Slots.{
  slot, is_null, occupied-le, EachSlot-clear, EachSlot-map, occupied-clear, length-map_slots,
  occupied-map,
}
use g21_tp2_so_1c.Kernel.State.{Process, Scheduler, Kernel}
use g21_tp2_so_1c.Kernel.Scheduler.Valid.{TableIsValid, OwnPid, update_process-TableIsValid}
use g21_tp2_so_1c.Kernel.Table.{
  adopted, adopt_children, set_priority, update_stdin_wait, remove_process, process_at,
  cleanup_from,
}

adopted-null : (pid : ℕ) (x : Option Process) → is_null (adopted pid x) ≡ is_null x
adopted-null pid none = refl
adopted-null pid (some p) = ground arith

pub adopt_children-TableIsValid :
    (pid : ℕ) (s : Scheduler) → TableIsValid s → TableIsValid (adopt_children pid s)
unfolding adopt_children
adopt_children-TableIsValid pid s v = record {
  length_ok = length-map_slots (adopted pid) s.processes ∙ v.length_ok;
  counted = v.counted ∙ sym (occupied-map (adopted pid) s.processes (adopted-null pid));
  pids = EachSlot-map OwnPid (adopted pid) s.processes refl (λ i a b e k. ground arith) v.pids;
  current_in = v.current_in;
}

pub cleared-TableIsValid :
    (pid : ℕ) (s : Scheduler) (p : Process)
    → slot s.processes pid ≡ some p
    → TableIsValid s
    → TableIsValid (record s { processes = set s.processes pid none; size = (s.size + 255) % 256 })
cleared-TableIsValid pid s p e v = record {
  length_ok = length-set s.processes pid none ∙ v.length_ok;
  counted =
      omega (
        arith,
        occupied-clear s.processes pid p e,
        occupied-le s.processes,
        v.counted,
        v.length_ok,
      );
  pids = EachSlot-clear OwnPid s.processes pid v.pids;
  current_in = v.current_in;
}

pub remove_process-TableIsValid :
    (pid : ℕ) (k : Kernel) → TableIsValid k.sched → TableIsValid (remove_process pid k).sched
unfolding remove_process
remove_process-TableIsValid pid k v =
    by_option (λ (k : Kernel). TableIsValid k.sched) (slot k.sched.processes pid) _ _ (λ _. v)
      (λ p e. cleared-TableIsValid pid k.sched p e v)

pub set_priority-TableIsValid :
    (pid n : ℕ) (s : Scheduler) → TableIsValid s → TableIsValid (set_priority pid n s).1
unfolding set_priority
set_priority-TableIsValid pid n s v =
    by_option (λ (r : Option ℕ × Scheduler). TableIsValid r.1) (process_at s pid) _ _ (λ _. v)
      (λ p _.
        by_bool (λ (r : Option ℕ × Scheduler). TableIsValid r.1) _ _ _ (λ _. v)
          (λ _.
            update_process-TableIsValid pid (λ q. record q { priority = n; remaining_quantum = n })
              s (λ _. refl) v))

pub update_stdin_wait-TableIsValid :
    (b : Bool) (s : Scheduler) → TableIsValid s → TableIsValid (update_stdin_wait b s)
unfolding update_stdin_wait
update_stdin_wait-TableIsValid b s v =
    by_option TableIsValid s.current _ _ (λ _. v)
      (λ c _.
        by_bool TableIsValid s.up _ _
          (λ _.
            update_process-TableIsValid c (λ p. record p { waiting_for_stdin = b }) s (λ _. refl) v)
          (λ _. v))

pub cleanup_from-TableIsValid :
    (n i : ℕ) (k : Kernel) → TableIsValid k.sched → TableIsValid (cleanup_from n i k).sched
unfolding cleanup_from
cleanup_from-TableIsValid zero i k v = v
cleanup_from-TableIsValid (suc n) i k v = cleanup_from-TableIsValid n (i + 1) _ (
    by_bool (λ (k : Kernel). TableIsValid k.sched) _ _ _ (λ _. remove_process-TableIsValid i k v)
      (λ _. v))
