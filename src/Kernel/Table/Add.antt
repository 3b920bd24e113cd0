-- ===== src/Kernel/Table/Add.antt =====
-- process.c and scheduler.c: what `createProcess` and `addProcess` make of a request.
use g21_tp2_so_1c.Base.{
  ℕ, ◌+◌, ◌%◌, ◌^◌, ◌<◌, ◌≡◌, refl, ◌∙◌, subst, List, Option, none, some, Bool, true, false, not,
  ◌||◌, set, leb, arith, by_option, by_bool,
}
use g21_tp2_so_1c.Base.Slots.{slot, is_null, find_slot, find_slot-FirstSlot, FirstSlot}
use g21_tp2_so_1c.WaitQueue.{max_processes}
use g21_tp2_so_1c.Heap.{Heap, my_malloc}
use g21_tp2_so_1c.Kernel.State.{ready, Process, Scheduler, Kernel}
use g21_tp2_so_1c.Kernel.Process.{
  Request, create_process, new_process, duplicate_argv, free, sizeof_process, stack_size,
}
use g21_tp2_so_1c.Kernel.Scheduler.{add_process, request, inserted, min_priority}
use g21_tp2_so_1c.Kernel.Scheduler.Valid.{TableIsValid}

-- The fields of a new process that its request decides.
pub record Fills (r : Request) (p : Process) : Type 0 where
  pub own_pid : p.pid ≡ r.pid
  pub parent : p.parent_pid ≡ r.parent_pid
  pub is_new : p.status ≡ ready
  pub least : p.priority ≡ r.priority
  pub quantum : p.remaining_quantum ≡ r.priority
  pub flag : p.unkillable ≡ r.unkillable
  pub input : p.fd_in ≡ r.fd_in
  pub output : p.fd_out ≡ r.fd_out

FillsIn : Request → Option Process × Heap → Type 0
FillsIn r x = (p : Process) → x.0 ≡ some p → Fills r p

FillsIn-none : (r : Request) (h : Heap) → FillsIn r (none, h)
unfolding FillsIn
FillsIn-none r h p e = cc

FillsIn-some :
    (r : Request) (self stack argv : ℕ) (args : List ℕ) (h : Heap)
    → FillsIn r (some (new_process r self stack argv args), h)
unfolding FillsIn
FillsIn-some r self stack argv args h p e =
    let q : new_process r self stack argv args ≡ p = cc in
    subst (Fills r) q (record {
      own_pid = refl;
      parent = refl;
      is_new = refl;
      least = refl;
      quantum = refl;
      flag = refl;
      input = refl;
      output = refl;
    })

create_process-FillsIn : (r : Request) (h : Heap) → FillsIn r (create_process r h)
unfolding create_process
create_process-FillsIn r h =
    let (p, h1) = my_malloc h sizeof_process in
    by_option (FillsIn r) p _ _ (λ _. FillsIn-none r h1)
      (λ self _.
        let (s, h2) = my_malloc h1 stack_size in
        by_option (FillsIn r) s _ _ (λ _. FillsIn-none r (free h2 self))
          (λ stack _.
            let (a, h3) = duplicate_argv r.argv h2 in
            by_option (FillsIn r) a _ _ (λ _. FillsIn-none r (free (free h3 stack) self))
              (λ (a : ℕ × List ℕ) _. FillsIn-some r self stack a.0 a.1 h3)))

pub create_process-Fills :
    (r : Request) (h : Heap) (p : Process) → (create_process r h).0 ≡ some p → Fills r p
unfolding FillsIn
create_process-Fills r h = create_process-FillsIn r h

-- A process added at `pid`.
pub record Adds (s : Scheduler) (unkillable : Bool) (fd_in fd_out pid : ℕ) (s' : Scheduler)
    : Type 0 where
  pub unused : slot s.processes pid ≡ none
  pub lowest : (j : ℕ) → j < pid → is_null (slot s.processes j) ≡ false
  pub process : Process
  pub stored : s'.processes ≡ set s.processes pid (some process)
  pub size_grows : s'.size ≡ s.size + 1
  pub current_kept : s'.current ≡ s.current
  pub own_pid : process.pid ≡ pid
  pub parent : process.parent_pid ≡ s.current
  pub is_new : process.status ≡ ready
  pub least : process.priority ≡ min_priority
  pub quantum : process.remaining_quantum ≡ min_priority
  pub flag : process.unkillable ≡ unkillable
  pub input : process.fd_in ≡ fd_in % 2 ^ 16
  pub output : process.fd_out ≡ fd_out % 2 ^ 16

pub Added : Scheduler → Bool → ℕ → ℕ → Option ℕ × Kernel → Type 0
Added s u i o (none, k) = k.sched ≡ s
Added s u i o (some pid, k) = Adds s u i o pid k.sched

add_process_found :
    (s : Scheduler) (pid fd_in fd_out : ℕ) (r : Request) (p : Process)
    → TableIsValid s
    → s.size < max_processes
    → slot s.processes pid ≡ none
    → ((j : ℕ) → j < pid → is_null (slot s.processes j) ≡ false)
    → r.pid ≡ pid
    → r.parent_pid ≡ s.current
    → r.priority ≡ min_priority
    → r.fd_in ≡ fd_in % 2 ^ 16
    → r.fd_out ≡ fd_out % 2 ^ 16
    → Fills r p
    → Adds s r.unkillable fd_in fd_out pid (inserted s pid p)
add_process_found s pid fd_in fd_out r p v small unused low e1 e2 e3 e4 e5 f = record {
  unused = unused;
  lowest = low;
  process = record p { waiting_for_stdin = false };
  stored = refl;
  size_grows = omega arith;
  current_kept = refl;
  own_pid = f.own_pid ∙ e1;
  parent = f.parent ∙ e2;
  is_new = f.is_new;
  least = f.least ∙ e3;
  quantum = f.quantum ∙ e3;
  flag = f.flag;
  input = f.input ∙ e4;
  output = f.output ∙ e5;
}

not_full : (s : Scheduler) → (not s.up || leb max_processes s.size) ≡ false → s.size < max_processes
not_full s e = ground arith

null_slot : (x : Option Process) → is_null x ≡ true → x ≡ none
null_slot none e = refl
null_slot (some p) e = cc

Added-refused :
    (s : Scheduler) (u : Bool) (i o : ℕ) (k : Kernel) → k.sched ≡ s → Added s u i o (none, k)
unfolding Added
Added-refused s u i o k e = e

Added-some :
    (s : Scheduler) (u : Bool) (i o pid : ℕ) (k : Kernel)
    → Adds s u i o pid k.sched
    → Added s u i o (some pid, k)
unfolding Added
Added-some s u i o pid k a = a

-- `addProcess` returns -1 and leaves the table as it was, or it returns the lowest unused pid, at
-- which the new process is now ready, with the least priority and the parent, the descriptors and
-- the flag that it was asked for.
pub add_process-Added :
    (main : ℕ) (argv : List (List ℕ)) (name : List ℕ) (unkillable : Bool) (fd_in fd_out : ℕ)
    (k : Kernel)
    → TableIsValid k.sched
    → Added k.sched unkillable fd_in fd_out
        (add_process main argv name unkillable (some (fd_in, fd_out)) k)
unfolding add_process
add_process-Added main argv name unkillable fd_in fd_out k v =
    by_bool (Added k.sched unkillable fd_in fd_out)
      (not k.sched.up || leb max_processes k.sched.size) _ _
      (λ _. Added-refused k.sched unkillable fd_in fd_out k refl)
      (λ room.
        by_option (Added k.sched unkillable fd_in fd_out) (find_slot is_null k.sched.processes) _ _
          (λ _. Added-refused k.sched unkillable fd_in fd_out k refl)
          (λ pid e.
            let f =
              subst (FirstSlot is_null k.sched.processes) e
                (find_slot-FirstSlot is_null k.sched.processes) in
            let r = request pid k.sched.current main argv name unkillable fd_in fd_out in
            let (p, h) = create_process r k.heap in
            by_option (Added k.sched unkillable fd_in fd_out) p _ _
              (λ _. Added-refused k.sched unkillable fd_in fd_out (record k { heap = h }) refl)
              (λ q c.
                Added-some k.sched unkillable fd_in fd_out pid
                  (record k { heap = h; sched = inserted k.sched pid q })
                  (add_process_found k.sched pid fd_in fd_out r q v (not_full k.sched room)
                    (null_slot (slot k.sched.processes pid) f.1) f.2 refl refl refl refl refl
                    (create_process-Fills r k.heap q c)))))
