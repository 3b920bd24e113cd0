-- ===== src/Kernel/Invariant/Changes.antt =====
-- 3_Kernel: the invariant of the kernel and changes of one part of its state.
use g21_tp2_so_1c.Base.{ℕ, ◌≡◌, length}
use g21_tp2_so_1c.WaitQueue.{max_processes}
use g21_tp2_so_1c.Heap.{Heap}
use g21_tp2_so_1c.Heap.Arena.{IsTiled}
use g21_tp2_so_1c.Kernel.State.{Kernel, PipeTable, Keyboard, Timer, Scheduler, SemaphoreManager}
use g21_tp2_so_1c.Kernel.Scheduler.Valid.{TableIsValid}
use g21_tp2_so_1c.Kernel.Semaphores.Valid.{SemsAreValid}
use g21_tp2_so_1c.Kernel.Invariant.{KernelIsValid, PipesAreValid, KeyboardIsValid}

module _ (k : Kernel) (v : KernelIsValid k) where
  pub heap-KernelIsValid : (h : Heap) → IsTiled h → KernelIsValid (record k { heap = h })
  heap-KernelIsValid h ok = record {
    heap_ok = ok;
    table_ok = v.table_ok;
    sleeping_ok = v.sleeping_ok;
    sems_ok = v.sems_ok;
    pipes_ok = v.pipes_ok;
    keyboard_ok = v.keyboard_ok;
  }

  pub sched-KernelIsValid :
      (s : Scheduler) → TableIsValid s → KernelIsValid (record k { sched = s })
  sched-KernelIsValid s ok = record {
    heap_ok = v.heap_ok;
    table_ok = ok;
    sleeping_ok = v.sleeping_ok;
    sems_ok = v.sems_ok;
    pipes_ok = v.pipes_ok;
    keyboard_ok = v.keyboard_ok;
  }

  pub timer-KernelIsValid :
      (t : Timer) → length t.sleeping ≡ max_processes → KernelIsValid (record k { timer = t })
  timer-KernelIsValid t ok = record {
    heap_ok = v.heap_ok;
    table_ok = v.table_ok;
    sleeping_ok = ok;
    sems_ok = v.sems_ok;
    pipes_ok = v.pipes_ok;
    keyboard_ok = v.keyboard_ok;
  }

  pub sems-KernelIsValid :
      (m : SemaphoreManager) → SemsAreValid m → KernelIsValid (record k { sems = m })
  sems-KernelIsValid m ok = record {
    heap_ok = v.heap_ok;
    table_ok = v.table_ok;
    sleeping_ok = v.sleeping_ok;
    sems_ok = ok;
    pipes_ok = v.pipes_ok;
    keyboard_ok = v.keyboard_ok;
  }

  pub pipes-KernelIsValid :
      (t : PipeTable) → PipesAreValid t → KernelIsValid (record k { pipe_table = t })
  pipes-KernelIsValid t ok = record {
    heap_ok = v.heap_ok;
    table_ok = v.table_ok;
    sleeping_ok = v.sleeping_ok;
    sems_ok = v.sems_ok;
    pipes_ok = ok;
    keyboard_ok = v.keyboard_ok;
  }

  pub keyboard-KernelIsValid :
      (kb : Keyboard) → KeyboardIsValid kb → KernelIsValid (record k { keyboard = kb })
  keyboard-KernelIsValid kb ok = record {
    heap_ok = v.heap_ok;
    table_ok = v.table_ok;
    sleeping_ok = v.sleeping_ok;
    sems_ok = v.sems_ok;
    pipes_ok = v.pipes_ok;
    keyboard_ok = ok;
  }

  pub rsp-KernelIsValid : (rsp : ℕ) → KernelIsValid (record k { rsp = rsp })
  rsp-KernelIsValid rsp = record {
    heap_ok = v.heap_ok;
    table_ok = v.table_ok;
    sleeping_ok = v.sleeping_ok;
    sems_ok = v.sems_ok;
    pipes_ok = v.pipes_ok;
    keyboard_ok = v.keyboard_ok;
  }
