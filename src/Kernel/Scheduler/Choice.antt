-- ===== src/Kernel/Scheduler/Choice.antt =====
-- scheduler.c: which process `getNextProcess` and `schedule` choose.
use g21_tp2_so_1c.Base.{
  ℕ_discrete, get_or-set_self, get_or-set_ne, ℕ, zero, suc, ◌+◌, ◌%◌, ◌<◌, ◌≡◌, refl, ap, sym, ◌∙◌,
  subst, inl, inr, List, Option, none, some, true, false, not, ◌||◌, ◌==◌, arith, Bool-cases,
  by_option, by_bool,
}
use g21_tp2_so_1c.Base.Slots.{slot-bound, slot, EachSlot, EachSlot-set}
use g21_tp2_so_1c.WaitQueue.{max_processes}
use g21_tp2_so_1c.Kernel.State.{Process, Scheduler}
use g21_tp2_so_1c.Kernel.Scheduler.{
  may_run, is_running, find_ready, get_next_process, save_current, saved, switch_to, schedule,
  resumed, spend, refill, update_process, current_process, keeps_cpu, round_start,
}
use g21_tp2_so_1c.Kernel.Scheduler.Valid.{
  TableIsValid, save_current-TableIsValid, get_next_process-TableIsValid,
}

-- The index `m` places after `i`, round the table.
abbrev pub around : ℕ → ℕ → ℕ
around i zero = i
around i (suc m) = around ((i + 1) % max_processes) m

-- The first ready process among the `n` places from `i` on; none where no place has one.
abbrev pub FirstReady : List (Option Process) → ℕ → ℕ → Option ℕ → Type 0
FirstReady l i n none = (m : ℕ) → m < n → may_run (slot l (around i m)) ≡ false
FirstReady l i n (some j) =
    (m : ℕ) × (m < n)
    × (j ≡ around i m)
    × (may_run (slot l j) ≡ true)
    × ((d : ℕ) → d < m → may_run (slot l (around i d)) ≡ false)

skip-FirstReady :
    (l : List (Option Process)) (i n : ℕ) (r : Option ℕ)
    → may_run (slot l i) ≡ false
    → FirstReady l ((i + 1) % max_processes) n r
    → FirstReady l i (suc n) r
skip-FirstReady l i n none e f = λ m h. later m h
  where
    later : (m : ℕ) → m < suc n → may_run (slot l (around i m)) ≡ false
    later zero h = e
    later (suc m) h = f m (omega arith)
skip-FirstReady l i n (some j) e (m, h, at, go, before) =
    (suc m, omega arith, at, go, λ d h. later d h)
  where
    later : (d : ℕ) → d < suc m → may_run (slot l (around i d)) ≡ false
    later zero h = e
    later (suc d) h = before d (omega arith)

-- `getNextProcess` looks for the first ready process in the order of the table, round its end: with
-- `i` the place behind the current one and `n` 64, it passes over no ready process.
pub find_ready-FirstReady :
    (l : List (Option Process)) (i n : ℕ) → FirstReady l i n (find_ready l i n)
unfolding find_ready
find_ready-FirstReady l i zero = λ m h. absurd (omega arith)
find_ready-FirstReady l i (suc n) = elim (Bool-cases (may_run (slot l i))) [
  | inl y ↦ rw y (0, omega arith, refl, y, λ d h. absurd (omega arith))
  | inr e ↦ rw e (
      skip-FirstReady l i n (find_ready l ((i + 1) % max_processes) n) e
        (find_ready-FirstReady l ((i + 1) % max_processes) n))
]

-- Only the current process may be running.
abbrev pub OneRuns : Scheduler → Type 0
OneRuns s =
    (i : ℕ) (p : Process)
    → slot s.processes i ≡ some p
    → is_running p.status ≡ true
    → s.current ≡ some i

abbrev Idle : ℕ → Process → Type 0
Idle i p = is_running p.status ≡ false

abbrev NoneRuns : Scheduler → Type 0
NoneRuns s = EachSlot Idle s.processes

saved-Idle : (rsp i : ℕ) (p : Process) → Idle i (saved rsp p)
saved-Idle rsp i p = ground arith

save_current-NoneRuns : (s : Scheduler) (rsp : ℕ) → OneRuns s → NoneRuns (save_current s rsp)
unfolding save_current
save_current-NoneRuns s rsp v =
    by_option NoneRuns s.current _ _
      (λ e i p h. elim (Bool-cases (is_running p.status)) [
        | inl y ↦ absurd (let w : s.current ≡ some i = v i p h y in cc)
        | inr n ↦ n
      ])
      (λ c e.
        by_option NoneRuns (slot s.processes c) _ _
          (λ z i p h. elim (Bool-cases (is_running p.status)) [
            | inl y ↦ absurd (let d : c ≡ i = let w = v i p h y in cc in cc)
            | inr n ↦ n
          ])
          (λ q z i p h. elim (ℕ_discrete c i) [
            | yes y ↦
                let own =
                  get_or-set_self s.processes c (some (saved rsp q)) none
                    (slot-bound s.processes c q z) in
                let same : saved rsp q ≡ p = cc in subst (Idle i) same (saved-Idle rsp i q)
            | no n ↦
                let other = get_or-set_ne s.processes (some (saved rsp q)) none n in
                elim (Bool-cases (is_running p.status)) [
                  | inl y ↦ absurd (n (let w = v i p (sym other ∙ h) y in cc))
                  | inr m ↦ m
                ]
          ]))

update-NoneRuns :
    (i : ℕ) (f : Process → Process) (s : Scheduler)
    → ((p : Process) → (f p).status ≡ p.status)
    → NoneRuns s
    → NoneRuns (update_process i f s)
update-NoneRuns i f s h v =
    by_option NoneRuns (slot s.processes i) _ _ (λ _. v)
      (λ p e. EachSlot-set Idle s.processes i (f p) v (ap is_running (h p) ∙ v i p e))

get_next_process-NoneRuns : (s : Scheduler) → NoneRuns s → NoneRuns (get_next_process s).1
unfolding get_next_process
get_next_process-NoneRuns s v =
    by_bool (λ (r : Option ℕ × Scheduler). NoneRuns r.1) (not s.up || s.size == 0) _ _ (λ _. v)
      (λ _.
        by_bool (λ (r : Option ℕ × Scheduler). NoneRuns r.1) (keeps_cpu s (current_process s)) _ _
          (λ _.
            by_option NoneRuns s.current _ _ (λ _. v)
              (λ c _. update-NoneRuns c spend s (λ _. refl) v))
          (λ _.
            by_option (λ (r : Option ℕ × Scheduler). NoneRuns r.1)
              (find_ready s.processes (round_start s.current) max_processes) _ _ (λ _. v)
              (λ i _.
                update-NoneRuns i refill (record s { current = some i; force_reschedule = false })
                  (λ _. refl) v)))

switch_to-OneRuns :
    (rsp : ℕ) (s : Scheduler) (next : Option ℕ)
    → TableIsValid s
    → NoneRuns s
    → OneRuns (switch_to rsp s next).1
unfolding switch_to
switch_to-OneRuns rsp s none v n = λ i p h y. absurd (let z = n i p h in cc)
switch_to-OneRuns rsp s (some j) v n =
    by_option (λ (r : ℕ × Scheduler). OneRuns r.1) (slot s.processes j) _ _
      (λ _ i p h y. absurd (let z = n i p h in cc))
      (λ q e i p h y. elim (ℕ_discrete j i) [
        | yes z ↦ ap some (v.pids j q e ∙ z)
        | no ne ↦
            let other = get_or-set_ne s.processes (some (resumed q)) none ne in
            absurd (let z = n i p (sym other ∙ h) in cc)
      ])

-- On a valid table, `schedule` keeps it that no process but the current one is running.
pub schedule-OneRuns :
    (rsp : ℕ) (s : Scheduler) → TableIsValid s → OneRuns s → OneRuns (schedule rsp s).1
unfolding schedule
schedule-OneRuns rsp s v o =
    by_bool (λ (r : ℕ × Scheduler). OneRuns r.1) (not s.up || s.size == 0) _ _ (λ _. o)
      (λ _.
        let s1 = save_current s rsp in
        switch_to-OneRuns rsp (get_next_process s1).1 (get_next_process s1).0
          (get_next_process-TableIsValid s1 (save_current-TableIsValid s rsp v))
          (get_next_process-NoneRuns s1 (save_current-NoneRuns s rsp o)))
