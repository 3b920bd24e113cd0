-- ===== src/Kernel/System/Keeps.antt =====
-- 3_Kernel: the invariant of the kernel and the steps of the system.
use g21_tp2_so_1c.Base.{List, [], ◌∷◌}
use g21_tp2_so_1c.Kernel.State.{Kernel}
use g21_tp2_so_1c.Kernel.Run.{Run, RunKeeps}
use g21_tp2_so_1c.Kernel.Invariant.{KernelIsValid}
use g21_tp2_so_1c.Kernel.System.{Work, calls, handles, System}

-- All the work that is left keeps the invariant.
abbrev WorkKeeps : Work → Type 0
WorkKeeps (calls rest) = (k : Kernel) → KernelIsValid k → RunKeeps KernelIsValid (rest k)
WorkKeeps (handles rest) = (k : Kernel) → KernelIsValid k → RunKeeps KernelIsValid (rest k)

abbrev AllKeep : List Work → Type 0
AllKeep [] = Unit {0}
AllKeep (w ∷ ws) = WorkKeeps w × AllKeep ws

abbrev SystemIsValid : System → Type 0
SystemIsValid s = KernelIsValid s.kernel × AllKeep s.pending
