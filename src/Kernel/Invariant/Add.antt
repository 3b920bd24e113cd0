-- ===== src/Kernel/Invariant/Add.antt =====
-- scheduler.c: the invariant of the kernel and `addProcess`.
use g21_tp2_so_1c.Base.{
  false, ◌≡◌, length, Bool, refl, ◌<◌, true, arith, not, ℕ, ◌∙◌, subst, List, Option, none, some,
  not, ◌||◌, length-set, leb, arith, by_option, by_bool,
}
use g21_tp2_so_1c.Base.Slots.{
  occupied-fill, occupied-le, slot, is_null, find_slot, find_slot-FirstSlot, FirstSlot,
  EachSlot-set,
}
use g21_tp2_so_1c.Kernel.State.{Scheduler, Process, Kernel}
use g21_tp2_so_1c.WaitQueue.{max_processes}
use g21_tp2_so_1c.Kernel.Scheduler.{add_process, request, inserted}
use g21_tp2_so_1c.Kernel.Scheduler.Valid.{TableIsValid, OwnPid}
use g21_tp2_so_1c.Kernel.Table.Add.{create_process-Fills}
use g21_tp2_so_1c.Kernel.Process.{create_process}
use g21_tp2_so_1c.Kernel.Process.Valid.{create_process-IsTiled}
use g21_tp2_so_1c.Kernel.Invariant.{KernelIsValid}
use g21_tp2_so_1c.Kernel.Invariant.Changes.{sched-KernelIsValid, heap-KernelIsValid}

null_process : (x : Option Process) → is_null x ≡ true → x ≡ none
null_process none e = refl
null_process (some p) e = cc

inserted-TableIsValid :
    (s : Scheduler) (pid : ℕ) (p : Process)
    → pid < length s.processes
    → is_null (slot s.processes pid) ≡ true
    → p.pid ≡ pid
    → TableIsValid s
    → TableIsValid (inserted s pid p)
inserted-TableIsValid s pid p h n e v =
    let q = record p { waiting_for_stdin = false } in
    record {
      length_ok = length-set s.processes pid (some q) ∙ v.length_ok;
      counted =
          let c = v.counted in
          let l = v.length_ok in
          let b = occupied-le s.processes in
          let o = occupied-fill s.processes pid q h (null_process (slot s.processes pid) n) in
          omega arith;
      pids = EachSlot-set OwnPid s.processes pid q v.pids e;
      current_in = v.current_in;
    }

pub add_process-KernelIsValid :
    (main : ℕ) (argv : List (List ℕ)) (name : List ℕ) (unkillable : Bool) (fds : Option (ℕ × ℕ))
    (k : Kernel)
    → KernelIsValid k
    → KernelIsValid (add_process main argv name unkillable fds k).1
unfolding add_process
add_process-KernelIsValid main argv name unkillable none k v = v
add_process-KernelIsValid main argv name unkillable (some (fd_in, fd_out)) k v =
    by_bool (λ (x : Option ℕ × Kernel). KernelIsValid x.1)
      (not k.sched.up || leb max_processes k.sched.size) _ _ (λ _. v)
      (λ _.
        by_option (λ (x : Option ℕ × Kernel). KernelIsValid x.1)
          (find_slot is_null k.sched.processes) _ _ (λ _. v)
          (λ pid e.
            let f =
              subst (FirstSlot is_null k.sched.processes) e
                (find_slot-FirstSlot is_null k.sched.processes) in
            let r = request pid k.sched.current main argv name unkillable fd_in fd_out in
            let (p, h) = create_process r k.heap in
            let u = heap-KernelIsValid k v h (create_process-IsTiled r k.heap v.heap_ok) in
            by_option (λ (x : Option ℕ × Kernel). KernelIsValid x.1) p _ _ (λ _. u)
              (λ q c.
                sched-KernelIsValid (record k { heap = h }) u _
                  (inserted-TableIsValid k.sched pid q f.0 f.1
                    (create_process-Fills r k.heap q c).own_pid v.table_ok))))
