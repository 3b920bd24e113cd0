-- ===== src/Kernel/Scheduler/Progress.antt =====
-- scheduler.c: the process that `schedule` hands the processor to.
use g21_tp2_so_1c.Base.{
  ℕ, zero, suc, ◌+◌, ◌-◌, ◌%◌, ◌<◌, ◌≡◌, ◌≢◌, refl, ap, sym, ◌∙◌, subst, Option, none, some, true,
  false, not, ◌||◌, set, ◌==◌, arith, by_option, by_bool, get_or-set_self, get_or-set_ne,
  ℕ_discrete,
}
use mathlib.Core.Option
use g21_tp2_so_1c.Base.Slots.{slot, slot-bound, occupied-clear}
use g21_tp2_so_1c.WaitQueue.{max_processes}
use g21_tp2_so_1c.Kernel.State.{running, Process, Scheduler}
use g21_tp2_so_1c.Kernel.Scheduler.{
  may_run, is_ready, find_ready, get_next_process, save_current, saved, switch_to, schedule,
  resumed, spend, refill, update_process, current_process, keeps_cpu, round_start,
}
use g21_tp2_so_1c.Kernel.Scheduler.Valid.{
  TableIsValid, save_current-TableIsValid, get_next_process-TableIsValid, round_start-lt,
}
use g21_tp2_so_1c.Kernel.Scheduler.Stored.{
  stopped_at, stored_at, get_next_process-stored_at, save_current-stored_at,
}
use g21_tp2_so_1c.Kernel.Scheduler.Choice.{around, FirstReady, find_ready-FirstReady}

around-mod : (i m : ℕ) → i < max_processes → around i m ≡ (i + m) % max_processes
around-mod i zero h = omega arith
around-mod i (suc m) h = around-mod ((i + 1) % max_processes) m (omega arith) ∙ omega arith

-- Every place of the table comes round.
around-reaches :
    (start i : ℕ)
    → start < max_processes
    → i < max_processes
    → (m : ℕ) × (m < max_processes) × (around start m ≡ i)
around-reaches start i h k =
    let m = (i + max_processes - start) % max_processes in
    (m, omega arith, around-mod start m h ∙ omega arith)

may_run-some : (x : Option Process) → may_run x ≡ true → (p : Process) × (x ≡ some p)
may_run-some none e = absurd (cc)
may_run-some (some p) e = (p, refl)

find_ready-finds :
    (s : Scheduler) (start i : ℕ)
    → start < max_processes
    → i < max_processes
    → may_run (slot s.processes i) ≡ true
    → find_ready s.processes start max_processes ≢ none
find_ready-finds s start i h k r e =
    let f =
      subst (FirstReady s.processes start max_processes) e
        (find_ready-FirstReady s.processes start max_processes) in
    let (m, b, a) = around-reaches start i h k in
    let no = f m b in let same = ap (λ j. may_run (slot s.processes j)) a in cc

update-slot :
    (i : ℕ) (f : Process → Process) (s : Scheduler) (p : Process)
    → slot s.processes i ≡ some p
    → slot (update_process i f s).processes i ≡ some (f p)
update-slot i f s p e =
    by_option (λ (t : Scheduler). slot t.processes i ≡ some (f p)) (slot s.processes i) _ _
      (λ n. absurd (cc))
      (λ q n.
        get_or-set_self s.processes i (some (f q)) none (slot-bound s.processes i q n)
        ∙ ap some (ap f (let same : q ≡ p = cc in same)))

-- A process of the table is chosen.
record Chosen (r : Option ℕ × Scheduler) : Type 0 where
  place : ℕ
  process : Process
  picked : r.0 ≡ some place
  stands : slot r.1.processes place ≡ some process

keeps-some :
    (s : Scheduler) (x : Option Process) → keeps_cpu s x ≡ true → (p : Process) × (x ≡ some p)
keeps-some s none e = absurd (cc)
keeps-some s (some p) e = (p, refl)

current-some :
    (s : Scheduler) (p : Process)
    → current_process s ≡ some p
    → (c : ℕ) × (s.current ≡ some c) × (slot s.processes c ≡ some p)
current-some s p =
    by_option (λ x. x ≡ some p → (c : ℕ) × (s.current ≡ some c) × (slot s.processes c ≡ some p))
      s.current none (λ c. slot s.processes c) (λ n h. absurd (cc)) (λ c e h. (c, e, h))

kept-Chosen :
    (s : Scheduler)
    → keeps_cpu s (current_process s) ≡ true
    → Chosen (s.current, elim s.current [ none ↦ s | some c ↦ update_process c spend s ])
kept-Chosen s y =
    let (p, e) = keeps-some s (current_process s) y in
    let (c, at, here) = current-some s p e in
    by_option (λ (t : Scheduler). Chosen (s.current, t)) s.current _ _ (λ n. absurd (cc))
      (λ d z.
        let same : c ≡ d = cc in
        record {
          place = d;
          process = spend p;
          picked = z;
          stands = update-slot d spend s p (subst (λ j. slot s.processes j ≡ some p) same here);
        })

get_next_process-Chosen :
    (s : Scheduler) (i : ℕ)
    → s.up ≡ true
    → s.size ≢ 0
    → i < max_processes
    → may_run (slot s.processes i) ≡ true
    → Chosen (get_next_process s)
unfolding get_next_process
get_next_process-Chosen s i u n b r =
    by_bool Chosen (not s.up || s.size == 0) _ _ (λ y. absurd (ground arith))
      (λ _.
        by_bool Chosen (keeps_cpu s (current_process s)) _ _ (λ y. kept-Chosen s y)
          (λ _.
            by_option Chosen (find_ready s.processes (round_start s.current) max_processes) _ _
              (λ z.
                absurd
                  (find_ready-finds s (round_start s.current) i (round_start-lt s.current) b r z))
              (λ j e.
                let f =
                  subst (FirstReady s.processes (round_start s.current) max_processes) e
                    (find_ready-FirstReady s.processes (round_start s.current) max_processes) in
                let (p, z) = may_run-some (slot s.processes j) f.3 in
                record {
                  place = j;
                  process = refill p;
                  picked = refl;
                  stands =
                      update-slot j refill (record s { current = some j; force_reschedule = false })
                        p z;
                })))

-- The processor goes on with process `process`, the current one, at the place where it stopped: `rsp` is
-- the stack pointer with which the process at its place stopped before.
pub record Resumes (prev_rsp : ℕ) (before : Scheduler) (rsp : ℕ) (s : Scheduler) : Type 0 where
  pub place : ℕ
  pub process : Process
  pub is_current : s.current ≡ some place
  pub stands : slot s.processes place ≡ some process
  pub runs : process.status ≡ running
  pub goes_on : stopped_at prev_rsp before place ≡ some rsp

switch_some-Resumes :
    (prev_rsp : ℕ) (before : Scheduler) (rsp : ℕ) (s : Scheduler) (j : ℕ) (p : Process)
    → TableIsValid s
    → slot s.processes j ≡ some p
    → ((i : ℕ) → stored_at s i ≡ stopped_at prev_rsp before i)
    → Resumes prev_rsp before (switch_to rsp s (some j)).0 (switch_to rsp s (some j)).1
unfolding switch_to
switch_some-Resumes prev_rsp before rsp s j p v h same =
    by_option (λ (x : ℕ × Scheduler). Resumes prev_rsp before x.0 x.1) (slot s.processes j) _ _
      (λ n. absurd (cc))
      (λ q e. record {
        place = j;
        process = resumed q;
        is_current = ap some (v.pids j q e);
        stands =
            get_or-set_self s.processes j (some (resumed q)) none (slot-bound s.processes j q e);
        runs = refl;
        goes_on = sym (same j) ∙ ap (Option.map (λ (p : Process). p.stack_pointer)) e;
      })

saved-ready :
    (rsp : ℕ) (p : Process) → is_ready p.status ≡ true → may_run (some (saved rsp p)) ≡ true
saved-ready rsp p h = ground arith

switch_to-Resumes :
    (prev_rsp : ℕ) (before : Scheduler) (rsp : ℕ) (r : Option ℕ × Scheduler)
    → TableIsValid r.1
    → Chosen r
    → ((i : ℕ) → stored_at r.1 i ≡ stopped_at prev_rsp before i)
    → Resumes prev_rsp before (switch_to rsp r.1 r.0).0 (switch_to rsp r.1 r.0).1
switch_to-Resumes prev_rsp before rsp r v c same =
    subst (λ n. Resumes prev_rsp before (switch_to rsp r.1 n).0 (switch_to rsp r.1 n).1)
      (sym c.picked) (switch_some-Resumes prev_rsp before rsp r.1 c.place c.process v c.stands same)

save_current-may_run :
    (s : Scheduler) (rsp i : ℕ)
    → may_run (slot s.processes i) ≡ true
    → may_run (slot (save_current s rsp).processes i) ≡ true
unfolding save_current
save_current-may_run s rsp i h =
    by_option (λ (t : Scheduler). may_run (slot t.processes i) ≡ true) s.current _ _ (λ _. h)
      (λ c _.
        by_option (λ (t : Scheduler). may_run (slot t.processes i) ≡ true) (slot s.processes c) _ _
          (λ _. h)
          (λ p e. elim (ℕ_discrete c i) [
            | yes y ↦
                let own =
                  get_or-set_self s.processes c (some (saved rsp p)) none
                    (slot-bound s.processes c p e) in
                let own_ready : is_ready p.status ≡ true =
                  ap may_run (sym e) ∙ ap (λ j. may_run (slot s.processes j)) y ∙ h in
                subst (λ j. may_run (slot (set s.processes c (some (saved rsp p))) j) ≡ true) y
                  (ap may_run own ∙ saved-ready rsp p own_ready)
            | no n ↦ ap may_run (get_or-set_ne s.processes (some (saved rsp p)) none n) ∙ h
          ]))

save_current-up : (s : Scheduler) (rsp : ℕ) → (save_current s rsp).up ≡ s.up
unfolding save_current
save_current-up s rsp =
    by_option (λ (t : Scheduler). t.up ≡ s.up) s.current _ _ (λ _. refl)
      (λ c _.
        by_option (λ (t : Scheduler). t.up ≡ s.up) (slot s.processes c) _ _ (λ _. refl)
          (λ _ _. refl))

some_ready-size :
    (s : Scheduler) (i : ℕ)
    → TableIsValid s
    → may_run (slot s.processes i) ≡ true
    → (s.size ≢ 0) × (i < max_processes)
some_ready-size s i v h =
    let (p, e) = may_run-some (slot s.processes i) h in
    let o = occupied-clear s.processes i p e in
    let c = v.counted in
    let l = v.length_ok in let b = slot-bound s.processes i p e in (λ z. omega arith, omega arith)

-- Where the scheduler is up and some process of a valid table is ready, `schedule` makes a process of
-- the table the current one, running, and returns the stack pointer with which it stopped: its argument
-- where that was the current process before, and otherwise what the table had stored.
pub schedule-Resumes :
    (rsp : ℕ) (s : Scheduler) (i : ℕ)
    → TableIsValid s
    → s.up ≡ true
    → may_run (slot s.processes i) ≡ true
    → Resumes rsp s (schedule rsp s).0 (schedule rsp s).1
unfolding schedule
schedule-Resumes rsp s i v u h =
    let s1 = save_current s rsp in
    let v1 = save_current-TableIsValid s rsp v in
    let h1 = save_current-may_run s rsp i h in
    let n1 = some_ready-size s1 i v1 h1 in
    let n = some_ready-size s i v h in
    by_bool (λ (x : ℕ × Scheduler). Resumes rsp s x.0 x.1) (not s.up || s.size == 0) _ _
      (λ y. absurd (let z = n.0 in ground arith))
      (λ _.
        switch_to-Resumes rsp s rsp (get_next_process s1) (get_next_process-TableIsValid s1 v1)
          (get_next_process-Chosen s1 i (save_current-up s rsp ∙ u) n1.0 n1.1 h1)
          (λ j. get_next_process-stored_at s1 j ∙ save_current-stored_at s rsp j))
