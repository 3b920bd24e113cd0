-- ===== src/Kernel/Boot/Valid.antt =====
-- 3_Kernel/kernel.c: the invariant of the kernel after `main`.
use g21_tp2_so_1c.Base.{
  ◌≢◌, subst, sym, zero, suc, ap, ℕ, ◌≡◌, refl, ap, ◌∙◌, List, [], ◌∷◌, Option, none, some, true,
  false, length, replicate, arith, by_bool,
}
use g21_tp2_so_1c.Base.Slots.{slot, EachSlot}
use g21_tp2_so_1c.Heap.{Heap, my_mem_init}
use g21_tp2_so_1c.Heap.Valid.{my_mem_init-IsValid}
use g21_tp2_so_1c.Heap.Arena.{IsTiled}
use g21_tp2_so_1c.WaitQueue.{max_processes}
use g21_tp2_so_1c.Kernel.State.{Kernel, Scheduler, Sleeping, SemaphoreManager}
use g21_tp2_so_1c.Kernel.Scheduler.{init_scheduler, add_process, stdin, stdout}
use g21_tp2_so_1c.Kernel.Scheduler.Valid.{TableIsValid, OwnPid}
use g21_tp2_so_1c.Kernel.Timer.{init_sleeping_processes, forget_all}
use g21_tp2_so_1c.Kernel.Semaphores.{init_sem_manager, max_semaphores}
use g21_tp2_so_1c.Kernel.Semaphores.Valid.{SemsAreValid, Rests}
use g21_tp2_so_1c.Kernel.Pipes.{init_pipes, max_pipes}
use g21_tp2_so_1c.Kernel.Keyboard.{init_keyboard_driver, kb_sem_name}
use g21_tp2_so_1c.Kernel.Invariant.{KernelIsValid, PipeIsValid}
use g21_tp2_so_1c.Kernel.Invariant.Changes.{pipes-KernelIsValid}
use g21_tp2_so_1c.Kernel.Invariant.Add.{add_process-KernelIsValid}
use g21_tp2_so_1c.Kernel.Invariant.Tables.{sem_open-KernelIsValid}
use g21_tp2_so_1c.Kernel.Boot.{start_free_mem, mem_size, init_name, start_scheduler, boot, IsCold}

add_process-sems :
    (main : ℕ) (name : List ℕ) (k : Kernel) (m : SemaphoreManager)
    → let (r, k') = add_process main [] name true (some (0, 1)) k in
      add_process main [] name true (some (0, 1)) (record k { sems = m })
      ≡ (r, record k' { sems = m })
unfolding add_process
add_process-sems main name k m = ground arith

length-forget_all : (l : List Sleeping) → length (forget_all l) ≡ length l
length-forget_all [] = refl
length-forget_all (e ∷ es) = ap suc (length-forget_all es)

slot-nulls : {A : Type 0} (n i : ℕ) (a : A) → slot (replicate n none) i ≢ some a
slot-nulls zero i a e = cc
slot-nulls (suc n) zero a e = cc
slot-nulls (suc n) (suc i) a e = slot-nulls n i a e

pub null-EachSlot : {A : Type 0} (P : ℕ → A → Type 0) (n : ℕ) → EachSlot P (replicate n none)
null-EachSlot P n i a e = absurd (slot-nulls n i a e)

init_scheduler-TableIsValid : (s : Scheduler) → s.up ≡ false → TableIsValid (init_scheduler s)
unfolding init_scheduler
init_scheduler-TableIsValid s e = rw e (record {
  length_ok = refl;
  counted = refl;
  pids = null-EachSlot OwnPid max_processes;
  current_in = λ c q. cc;
})

init_sem_manager-SemsAreValid :
    (m : SemaphoreManager) → m.up ≡ false → SemsAreValid (init_sem_manager m)
unfolding init_sem_manager
init_sem_manager-SemsAreValid m e =
    rw e (record { length_ok = refl; counted = refl; rests = null-EachSlot Rests max_semaphores })

my_mem_init-IsTiled : (h : Heap) → IsTiled (my_mem_init h start_free_mem mem_size)
my_mem_init-IsTiled h =
    let v = my_mem_init-IsValid h start_free_mem mem_size (omega arith) (omega arith) in
    record { tiles = v.tiles; small = v.small }

-- `boot` past the scheduler's start.
abbrev finish : Kernel → Kernel
finish k3 =
    let k4 = record k3 { sems = init_sem_manager k3.sems } in
    let k5 = (init_keyboard_driver k4).1 in record k5 { pipe_table = init_pipes k5.pipe_table }

abbrev first : ℕ → Kernel → Kernel
first init_main k =
    (add_process init_main [] init_name true (some (stdin, stdout))
      (record k { sched = init_scheduler k.sched })).1

start_scheduler-first :
    (init_main : ℕ) (k : Kernel)
    → k.sched.up ≡ false
    → start_scheduler init_main k ≡ first init_main k
unfolding start_scheduler
start_scheduler-first init_main k e =
    by_bool (λ (x : Kernel). x ≡ first init_main k) k.sched.up k (first init_main k) (λ y. cc)
      (λ _. refl)

finish-KernelIsValid :
    (k : Kernel)
    → KernelIsValid (record k { sems = init_sem_manager k.sems })
    → KernelIsValid (finish k)
unfolding init_keyboard_driver init_pipes
finish-KernelIsValid k v =
    let v5 = sem_open-KernelIsValid kb_sem_name 0 (record k { sems = init_sem_manager k.sems }) v in
    pipes-KernelIsValid _ v5 _
      (record { length_ok = refl; each = null-EachSlot PipeIsValid max_pipes })

first-KernelIsValid :
    (init_main : ℕ) (k : Kernel)
    → KernelIsValid (record k { sched = init_scheduler k.sched; sems = init_sem_manager k.sems })
    → KernelIsValid
        (record (first init_main k) { sems = init_sem_manager (first init_main k).sems })
first-KernelIsValid init_main k v =
    let k2 = record k { sched = init_scheduler k.sched } in
    let m = init_sem_manager k.sems in
    let v3 =
      subst (λ (x : Option ℕ × Kernel). KernelIsValid x.1)
        (add_process-sems init_main init_name k2 m)
        (add_process-KernelIsValid init_main [] init_name true (some (stdin, stdout))
          (record k2 { sems = m }) v) in
    let same : (first init_main k).sems ≡ k.sems =
      ap (λ (x : Option ℕ × Kernel). x.1.sems) (add_process-sems init_main init_name k2 k.sems) in
    subst (λ n. KernelIsValid (record (first init_main k) { sems = init_sem_manager n })) (sym same)
      v3

-- From the variables as the loader leaves them, `main` of the kernel makes a valid state.
pub boot-KernelIsValid : (init_main : ℕ) (k : Kernel) → IsCold k → KernelIsValid (boot init_main k)
unfolding boot init_sleeping_processes
boot-KernelIsValid init_main k c =
    let k2 = record k {
      heap = my_mem_init k.heap start_free_mem mem_size;
      timer = init_sleeping_processes k.timer;
    } in
    subst (λ k3. KernelIsValid (finish k3))
      (sym (start_scheduler-first init_main k2 c.no_scheduler))
      (finish-KernelIsValid _ (
        first-KernelIsValid init_main k2 (record {
          heap_ok = my_mem_init-IsTiled k.heap;
          table_ok = init_scheduler-TableIsValid k.sched c.no_scheduler;
          sleeping_ok = length-forget_all k.timer.sleeping ∙ c.sleepers;
          sems_ok = init_sem_manager-SemsAreValid k.sems c.no_semaphores;
          pipes_ok = c.no_pipes;
          keyboard_ok = c.no_keys;
        })))
