-- ===== src/Kernel/Scheduler/Stored.antt =====
-- scheduler.c: the stack pointers that the table keeps.
use g21_tp2_so_1c.Base.{
  ℕ, ◌≡◌, ◌≢◌, refl, ap, sym, ◌∙◌, subst, Option, none, some, false, not, ◌||◌, set, ◌==◌,
  by_option, by_bool, get_or-set_self, get_or-set_ne, ℕ_discrete, if◌then◌else◌, ==-false, ==_iff,
}
use mathlib.Core.Option
use g21_tp2_so_1c.Base.Slots.{slot, slot-bound}
use g21_tp2_so_1c.WaitQueue.{max_processes}
use g21_tp2_so_1c.Kernel.State.{Process, Scheduler}
use g21_tp2_so_1c.Kernel.Scheduler.{
  same_pid, find_ready, get_next_process, save_current, saved, spend, refill, update_process,
  current_process, keeps_cpu, round_start,
}

-- The stack pointer with which the process at a place of the table stopped, where `prev_rsp` is the one of
-- the current process.
abbrev pub stopped_at : ℕ → Scheduler → ℕ → Option ℕ
stopped_at prev_rsp s i =
    Option.map (λ (p : Process). if same_pid s.current (some i) then prev_rsp else p.stack_pointer)
      (slot s.processes i)

-- The same, as the table has it.
abbrev pub stored_at : Scheduler → ℕ → Option ℕ
stored_at s i = Option.map (λ (p : Process). p.stack_pointer) (slot s.processes i)

update-stored_at :
    (j i : ℕ) (f : Process → Process) (s : Scheduler)
    → ((p : Process) → (f p).stack_pointer ≡ p.stack_pointer)
    → stored_at (update_process j f s) i ≡ stored_at s i
update-stored_at j i f s h =
    by_option (λ (t : Scheduler). stored_at t i ≡ stored_at s i) (slot s.processes j) _ _
      (λ n. refl)
      (λ p e. elim (ℕ_discrete j i) [
        | yes y ↦
            let own =
              get_or-set_self s.processes j (some (f p)) none (slot-bound s.processes j p e) in
            subst
              (λ k.
                Option.map (λ (q : Process). q.stack_pointer)
                  (slot (set s.processes j (some (f p))) k)
                ≡ stored_at s k)
              y
              (ap (Option.map (λ (q : Process). q.stack_pointer)) own
                ∙ ap some (h p)
                ∙ ap (Option.map (λ (q : Process). q.stack_pointer)) (sym e))
        | no n ↦
            ap (Option.map (λ (q : Process). q.stack_pointer))
              (get_or-set_ne s.processes (some (f p)) none n)
      ])

pub get_next_process-stored_at :
    (s : Scheduler) (i : ℕ) → stored_at (get_next_process s).1 i ≡ stored_at s i
unfolding get_next_process
get_next_process-stored_at s i =
    by_bool (λ (r : Option ℕ × Scheduler). stored_at r.1 i ≡ stored_at s i)
      (not s.up || s.size == 0) _ _ (λ _. refl)
      (λ _.
        by_bool (λ (r : Option ℕ × Scheduler). stored_at r.1 i ≡ stored_at s i)
          (keeps_cpu s (current_process s)) _ _
          (λ _.
            by_option (λ (t : Scheduler). stored_at t i ≡ stored_at s i) s.current _ _ (λ _. refl)
              (λ c _. update-stored_at c i spend s (λ p. refl)))
          (λ _.
            by_option (λ (r : Option ℕ × Scheduler). stored_at r.1 i ≡ stored_at s i)
              (find_ready s.processes (round_start s.current) max_processes) _ _ (λ _. refl)
              (λ j _.
                update-stored_at j i refill
                  (record s { current = some j; force_reschedule = false }) (λ p. refl))))

choice_other :
    (c i rsp : ℕ) (x : Option Process)
    → c ≢ i
    → Option.map (λ (p : Process). p.stack_pointer) x
      ≡ Option.map (λ (p : Process). if c == i then rsp else p.stack_pointer) x
choice_other c i rsp x n = rw (==-false c i n) refl

choice_own :
    (c i rsp : ℕ) (x : Option Process) (p : Process)
    → c ≡ i
    → x ≡ some p
    → some rsp ≡ Option.map (λ (p : Process). if c == i then rsp else p.stack_pointer) x
choice_own c i rsp x p y e = let yes_own = (==_iff c i).1 y in rw (e, yes_own) refl

choice_none :
    (c i rsp : ℕ) (x : Option Process)
    → x ≡ none
    → Option.map (λ (p : Process). p.stack_pointer) x
      ≡ Option.map (λ (p : Process). if c == i then rsp else p.stack_pointer) x
choice_none c i rsp x e = rw e refl

pub save_current-stored_at :
    (s : Scheduler) (rsp i : ℕ) → stored_at (save_current s rsp) i ≡ stopped_at rsp s i
unfolding save_current
save_current-stored_at s rsp i =
    by_option (λ (t : Scheduler). stored_at t i ≡ stopped_at rsp s i) s.current _ _ (λ n. rw n refl)
      (λ c e. rw e (
        by_option
          (λ (t : Scheduler).
            stored_at t i
            ≡ Option.map (λ (p : Process). if c == i then rsp else p.stack_pointer)
                (slot s.processes i))
          (slot s.processes c) _ _
          (λ n. elim (ℕ_discrete c i) [
            | yes y ↦ choice_none c i rsp (slot s.processes i) (ap (slot s.processes) (sym y) ∙ n)
            | no d ↦ choice_other c i rsp (slot s.processes i) d
          ])
          (λ p n. elim (ℕ_discrete c i) [
            | yes y ↦
                ap (Option.map (λ (q : Process). q.stack_pointer)) (
                  ap (slot (set s.processes c (some (saved rsp p)))) (sym y)
                  ∙ get_or-set_self s.processes c (some (saved rsp p)) none
                      (slot-bound s.processes c p n))
                ∙ choice_own c i rsp (slot s.processes i) p y (ap (slot s.processes) (sym y) ∙ n)
            | no d ↦
                ap (Option.map (λ (q : Process). q.stack_pointer))
                  (get_or-set_ne s.processes (some (saved rsp p)) none d)
                ∙ choice_other c i rsp (slot s.processes i) d
          ])))
