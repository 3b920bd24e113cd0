-- ===== src/Kernel/Scheduler/Valid.antt =====
-- scheduler.c: the invariant of the process table.
use g21_tp2_so_1c.Base.{
  ℕ, zero, suc, ◌+◌, ◌%◌, ◌<◌, ◌≡◌, refl, ap, sym, ◌∙◌, subst, List, Option, none, some, false, not,
  ◌||◌, length, length-set, set, ◌==◌, arith, by_option, by_bool,
}
use g21_tp2_so_1c.Base.Slots.{slot, occupied, EachSlot, EachSlot-set, occupied-replace, slot-bound}
use g21_tp2_so_1c.WaitQueue.{max_processes}
use g21_tp2_so_1c.Kernel.State.{Process, Scheduler}
use g21_tp2_so_1c.Kernel.Scheduler.{
  update_process, find_ready, get_next_process, save_current, saved, switch_to, schedule, resumed,
  spend, refill, current_process, keeps_cpu, round_start,
}

abbrev pub OwnPid : ℕ → Process → Type 0
OwnPid i p = p.pid ≡ i

-- The table has 64 entries, of which `size` are used; a process stands at the index that is its pid;
-- `current` is an index.
pub record TableIsValid (s : Scheduler) : Type 0 where
  pub length_ok : length s.processes ≡ max_processes
  pub counted : s.size ≡ occupied s.processes
  pub pids : EachSlot OwnPid s.processes
  pub current_in : (c : ℕ) → s.current ≡ some c → c < max_processes

-- A change of one process that leaves its pid keeps the invariant.
pub set-TableIsValid :
    (s : Scheduler) (i : ℕ) (p q : Process)
    → slot s.processes i ≡ some p
    → q.pid ≡ p.pid
    → TableIsValid s
    → TableIsValid (record s { processes = set s.processes i (some q) })
set-TableIsValid s i p q e k v = record {
  length_ok = length-set s.processes i (some q) ∙ v.length_ok;
  counted = v.counted ∙ sym (occupied-replace s.processes i q p e);
  pids = EachSlot-set OwnPid s.processes i q v.pids (k ∙ v.pids i p e);
  current_in = v.current_in;
}

pub update_process-TableIsValid :
    (i : ℕ) (f : Process → Process) (s : Scheduler)
    → ((p : Process) → (f p).pid ≡ p.pid)
    → TableIsValid s
    → TableIsValid (update_process i f s)
update_process-TableIsValid i f s k v =
    by_option TableIsValid (slot s.processes i) _ _ (λ _. v)
      (λ p e. set-TableIsValid s i p (f p) e (k p) v)

-- Fields that the invariant does not speak of.
pub other-TableIsValid :
    (s t : Scheduler)
    → t.processes ≡ s.processes
    → t.size ≡ s.size
    → ((c : ℕ) → t.current ≡ some c → c < max_processes)
    → TableIsValid s
    → TableIsValid t
other-TableIsValid s t p n c v = record {
  length_ok = ap length p ∙ v.length_ok;
  counted = n ∙ v.counted ∙ ap occupied (sym p);
  pids = subst (EachSlot OwnPid) (sym p) v.pids;
  current_in = c;
}

find_ready-lt :
    (l : List (Option Process)) (i n j : ℕ)
    → i < max_processes
    → find_ready l i n ≡ some j
    → j < max_processes
unfolding find_ready
find_ready-lt l i zero j h e = cc
find_ready-lt l i (suc n) j h e = ground (arith, find_ready-lt l ((i + 1) % max_processes) n j)

pub round_start-lt : (c : Option ℕ) → round_start c < max_processes
round_start-lt none = omega arith
round_start-lt (some c) = omega arith

pub save_current-TableIsValid :
    (s : Scheduler) (rsp : ℕ) → TableIsValid s → TableIsValid (save_current s rsp)
unfolding save_current
save_current-TableIsValid s rsp v =
    by_option TableIsValid s.current _ _ (λ _. v)
      (λ c e.
        by_option TableIsValid (slot s.processes c) _ _
          (λ _. other-TableIsValid s _ refl refl v.current_in v)
          (λ p n.
            other-TableIsValid (record s { processes = set s.processes c (some (saved rsp p)) }) _
              refl refl v.current_in (set-TableIsValid s c p (saved rsp p) n refl v)))

pub get_next_process-TableIsValid :
    (s : Scheduler) → TableIsValid s → TableIsValid (get_next_process s).1
unfolding get_next_process
get_next_process-TableIsValid s v =
    by_bool (λ (r : Option ℕ × Scheduler). TableIsValid r.1) (not s.up || s.size == 0) _ _
      (λ _. other-TableIsValid s _ refl refl v.current_in v)
      (λ _.
        by_bool (λ (r : Option ℕ × Scheduler). TableIsValid r.1) (keeps_cpu s (current_process s)) _
          _
          (λ _.
            by_option TableIsValid s.current _ _ (λ _. v)
              (λ c _. update_process-TableIsValid c spend s (λ _. refl) v))
          (λ _.
            by_option (λ (r : Option ℕ × Scheduler). TableIsValid r.1)
              (find_ready s.processes (round_start s.current) max_processes) _ _
              (λ _. other-TableIsValid s _ refl refl v.current_in v)
              (λ i e.
                update_process-TableIsValid i refill
                  (record s { current = some i; force_reschedule = false }) (λ _. refl)
                  (other-TableIsValid s _ refl refl
                    (λ c q.
                      let h =
                        find_ready-lt s.processes (round_start s.current) max_processes i
                          (round_start-lt s.current) e in
                      ground arith)
                    v))))

pub switch_to-TableIsValid :
    (rsp : ℕ) (s : Scheduler) (next : Option ℕ)
    → TableIsValid s
    → TableIsValid (switch_to rsp s next).1
unfolding switch_to
switch_to-TableIsValid rsp s none v = v
switch_to-TableIsValid rsp s (some i) v =
    by_option (λ (r : ℕ × Scheduler). TableIsValid r.1) (slot s.processes i) _ _ (λ _. v)
      (λ p e.
        other-TableIsValid (record s { processes = set s.processes i (some (resumed p)) }) _ refl
          refl
          (λ c q.
            let b = slot-bound s.processes i p e in
            let k = v.pids i p e in let l = v.length_ok in ground arith)
          (set-TableIsValid s i p (resumed p) e refl v))

pub schedule-TableIsValid :
    (rsp : ℕ) (s : Scheduler) → TableIsValid s → TableIsValid (schedule rsp s).1
unfolding schedule
schedule-TableIsValid rsp s v =
    by_bool (λ (r : ℕ × Scheduler). TableIsValid r.1) (not s.up || s.size == 0) _ _ (λ _. v)
      (λ _.
        switch_to-TableIsValid rsp (get_next_process (save_current s rsp)).1
          (get_next_process (save_current s rsp)).0
          (get_next_process-TableIsValid (save_current s rsp) (save_current-TableIsValid s rsp v)))
