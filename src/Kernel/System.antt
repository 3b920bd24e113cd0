-- ===== src/Kernel/System.antt =====
-- 3_Kernel: the whole system as a step relation. Processes make system calls and interrupts come in
-- between; what a switched-out process still has to do is kept, and goes on when the process is
-- resumed, in any order.
pub mod Keeps
use g21_tp2_so_1c.Base.{◌≡◌, ℕ, List, [], ◌∷◌, ◌++◌}
use g21_tp2_so_1c.Kernel.State.{Kernel}
use g21_tp2_so_1c.Kernel.Run.{M, Run, done, parked}
use g21_tp2_so_1c.Kernel.Dispatch.{Syscall, Reply, sys_call}
use g21_tp2_so_1c.Kernel.Syscalls.{irq_dispatcher}
use g21_tp2_so_1c.Kernel.Table.{cleanup_terminated_orphans}
use g21_tp2_so_1c.Kernel.Boot.{init_main_start}

-- What a call or an interrupt still has to do, whatever it returns.
pub data Work : Type 0 where
  calls : (Kernel → Run Reply) → Work
  handles : (Kernel → Run (Unit {0})) → Work

pub record System : Type 0 where
  pub kernel : Kernel
  pub pending : List Work

abbrev pub after_call : Run Reply → List Work → System
after_call (done a k) ws = record { kernel = k; pending = ws }
after_call (parked k rest) ws = record { kernel = k; pending = calls rest ∷ ws }

abbrev pub after_interrupt : Run (Unit {0}) → List Work → System
after_interrupt (done a k) ws = record { kernel = k; pending = ws }
after_interrupt (parked k rest) ws = record { kernel = k; pending = handles rest ∷ ws }

abbrev pub resume : Work → Kernel → List Work → System
resume (calls rest) k ws = after_call (rest k) ws
resume (handles rest) k ws = after_interrupt (rest k) ws

-- A process makes a call, an interrupt comes in, some switched-out work goes on, or the init process
-- starts the shell or makes a round of its loop.
pub data Step (s : System) : System → Type 0 where
  call : (c : Syscall) → Step s (after_call (sys_call c s.kernel) s.pending)
  interrupt :
      (printed scancode irq : ℕ)
      → Step s (after_interrupt (irq_dispatcher printed scancode irq s.kernel) s.pending)
  go_on :
      (before after : List Work) (w : Work)
      → s.pending ≡ before ++ (w ∷ after)
      → Step s (resume w s.kernel (before ++ after))
  init_starts :
      (shell_address : ℕ) → Step s (record s { kernel = init_main_start shell_address s.kernel })
  init_cleans : Step s (record s { kernel = cleanup_terminated_orphans s.kernel })

pub data Reaches (s : System) : System → Type 0 where
  here : Reaches s s
  then_step : {t u : System} → Reaches s t → Step t u → Reaches s u
