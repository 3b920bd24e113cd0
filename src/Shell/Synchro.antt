-- ===== src/Shell/Synchro.antt =====
-- 4_Userland/shellCodeModule/5_tests/testSynchro.c: four processes that add to one variable, with a
-- semaphore or without. Each statement that reads or writes shared memory is a step.
pub mod Totals
pub mod Holds
pub mod Sum
pub mod Stops
pub mod Ends
use g21_tp2_so_1c.Base.{
  ℕ, zero, suc, ◌+◌, ◌-◌, ◌*◌, ◌%◌, ◌^◌, ◌<◌, Bool, true, false, ltb, ◌==◌, if◌then◌else◌, Option,
  none, some, ◌≡◌,
}

-- `global` is an `int64_t`, kept as its pattern.
abbrev pub int_mod : ℕ
int_mod = 2 ^ 64

abbrev pub total_pair_processes : ℕ
total_pair_processes = 2

abbrev pub workers : ℕ
workers = 4

-- The statement that a process of `my_process_inc` is about to run: `semOpen`, the test of the loop,
-- `semWait`, the read and, with what was read, the write of `slowInc`, `semPost`, `semClose`.
pub data Place : Type 0 where
  opening testing waiting loading : Place
  storing : ℕ → Place
  posting closing ended : Place

pub record Worker : Type 0 where
  pub inc : ℕ
  pub i : ℕ
  pub place : Place

-- The semaphore is its value and the number of processes that have it open.
pub record Shared : Type 0 where
  pub global : ℕ
  pub value : ℕ
  pub users : ℕ
  pub worker : ℕ → Worker

abbrev pub update {ℓ} : {A : Type ℓ} → (ℕ → A) → ℕ → A → ℕ → A
update f k a j = if k == j then a else f j

abbrev pub at_place : ℕ → Place → Shared → Shared
at_place k p s = record s { worker = update s.worker k (record (s.worker k) { place = p }) }

-- The end of a round of the loop.
abbrev pub next_round : ℕ → Shared → Shared
next_round k s = record s {
  worker =
      update s.worker k
        (record { inc = (s.worker k).inc; i = (s.worker k).i + 1; place = testing });
}

-- A semaphore that nobody has open is made with the value 1.
abbrev pub open_sem : Shared → Shared
open_sem s =
    if s.users == 0 then record s { value = 1; users = 1 } else record s { users = s.users + 1 }

-- The write of what was read and added to.
abbrev pub slow_inc : ℕ → ℕ → Shared → Shared
slow_inc aux inc s = record s { global = (aux + inc) % int_mod }

-- One statement of process `k`, with `use_sem` and the number `n` of rounds; `none` is a wait, or the
-- end.
unfoldable pub advance : Bool → ℕ → Place → ℕ → Shared → Option Shared
advance use_sem n opening k s = some (at_place k testing (if use_sem then open_sem s else s))
advance use_sem n testing k s = some (
    at_place k
      (if ltb (s.worker k).i n
        then if use_sem then waiting else loading
        else if use_sem
        then closing
        else ended)
      s)
advance use_sem n waiting k s =
    if ltb 0 s.value then some (at_place k loading (record s { value = s.value - 1 })) else none
advance use_sem n loading k s = some (at_place k (storing s.global) s)
advance use_sem n (storing aux) k s =
    let t = slow_inc aux (s.worker k).inc s in
    some (if use_sem then at_place k posting t else next_round k t)
advance use_sem n posting k s = some (next_round k (record s { value = s.value + 1 }))
advance use_sem n closing k s = some (at_place k ended (record s { users = s.users - 1 }))
advance use_sem n ended k s = none

unfoldable pub my_process_inc : Bool → ℕ → ℕ → Shared → Option Shared
unfolding advance
my_process_inc use_sem n k s = advance use_sem n (s.worker k).place k s

-- The processes of even number count down, the others up.
abbrev pub inc_of : ℕ → ℕ
inc_of k = if k % 2 == 0 then int_mod - 1 else 1

-- `test_sync` sets the variable to 0 and makes the processes.
abbrev pub test_sync : Shared
test_sync = record {
  global = 0;
  value = 0;
  users = 0;
  worker = λ k. record { inc = inc_of k; i = 0; place = opening };
}

-- The states that the processes lead to, in any order of their statements.
pub data Reach (use_sem : Bool) (n : ℕ) : Shared → Type 0 where
  start : Reach use_sem n test_sync
  next :
      {s t : Shared} (k : ℕ)
      → Reach use_sem n s
      → k < workers
      → my_process_inc use_sem n k s ≡ some t
      → Reach use_sem n t
