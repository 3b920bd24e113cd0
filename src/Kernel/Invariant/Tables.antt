-- ===== src/Kernel/Invariant/Tables.antt =====
-- synchro.c and pipes.c: the invariant of the kernel and the opening and closing of semaphores and
-- pipes.
use g21_tp2_so_1c.Base.{
  arith, not, ℕ, ◌+◌, ◌-◌, ◌%◌, ◌∙◌, subst, List, Option, none, some, not, ◌&&◌, ◌||◌, length-set,
  length-replicate, leb, ltb, arith, by_option, by_bool,
}
use g21_tp2_so_1c.Base.Slots.{
  slot, is_null, find_slot, find_slot-FirstSlot, FirstSlot, EachSlot-set, EachSlot-clear,
}
use g21_tp2_so_1c.Heap.{my_malloc}
use g21_tp2_so_1c.Heap.Arena.{my_malloc-IsTiled}
use g21_tp2_so_1c.Kernel.State.{Kernel, Pipe}
use g21_tp2_so_1c.Kernel.Process.{free}
use g21_tp2_so_1c.Kernel.Process.Valid.{free-IsTiled}
use g21_tp2_so_1c.Kernel.Semaphores.{
  max_semaphores, sem_open, sem_create, sem_close, get_idx_by_name, get_free_id, positive,
  sizeof_semaphore, int_mod,
}
use g21_tp2_so_1c.Kernel.Semaphores.Ops.{
  created-SemsAreValid, closed-SemsAreValid, using-SemsAreValid,
}
use g21_tp2_so_1c.Kernel.Pipes.{
  create_pipe, open_semaphores, destroy_pipe, new_pipe, sizeof_pipe, pipe_size, with_pipes,
  put_pipe, get_index_by_fd, write_end,
}
use g21_tp2_so_1c.Kernel.Invariant.{KernelIsValid, PipeIsValid}
use g21_tp2_so_1c.Kernel.Invariant.Changes.{
  heap-KernelIsValid, sems-KernelIsValid, pipes-KernelIsValid,
}

pub sem_create-KernelIsValid :
    (name : List ℕ) (initial : ℕ) (k : Kernel)
    → KernelIsValid k
    → KernelIsValid (sem_create name initial k).1
unfolding sem_create get_free_id
sem_create-KernelIsValid name initial k v =
    by_option (λ (x : Option ℕ × Kernel). KernelIsValid x.1) (find_slot is_null k.sems.semaphores) _
      _ (λ _. v)
      (λ id e.
        let (p, h) = my_malloc k.heap sizeof_semaphore in
        let u = heap-KernelIsValid k v h (my_malloc-IsTiled k.heap sizeof_semaphore v.heap_ok) in
        let f =
          subst (FirstSlot is_null k.sems.semaphores) e
            (find_slot-FirstSlot is_null k.sems.semaphores) in
        by_option (λ (x : Option ℕ × Kernel). KernelIsValid x.1) p _ _ (λ _. u)
          (λ self _.
            sems-KernelIsValid (record k { heap = h }) u _
              (created-SemsAreValid k.sems id self initial name f.0 f.1 v.sems_ok)))

pub sem_open-KernelIsValid :
    (name : List ℕ) (initial : ℕ) (k : Kernel)
    → KernelIsValid k
    → KernelIsValid (sem_open name initial k).1
unfolding sem_open
sem_open-KernelIsValid name initial k v =
    by_bool (λ (x : Option ℕ × Kernel). KernelIsValid x.1)
      (not k.sems.up || leb max_semaphores k.sems.semaphores_count) _ _ (λ _. v)
      (λ _.
        by_option (λ (x : Option ℕ × Kernel). KernelIsValid x.1) (get_idx_by_name name k.sems) _ _
          (λ _. sem_create-KernelIsValid name initial k v)
          (λ i _.
            by_option (λ (x : Option ℕ × Kernel). KernelIsValid x.1) (slot k.sems.semaphores i) _ _
              (λ _. sem_create-KernelIsValid name initial k v)
              (λ s e.
                sems-KernelIsValid k v _
                  (using-SemsAreValid k.sems i ((s.using + 1) % int_mod) s e v.sems_ok))))

pub sem_close-KernelIsValid :
    (name : List ℕ) (k : Kernel) → KernelIsValid k → KernelIsValid (sem_close name k).1
unfolding sem_close
sem_close-KernelIsValid name k v =
    by_bool (λ (x : Option ℕ × Kernel). KernelIsValid x.1) (not k.sems.up) _ _ (λ _. v)
      (λ _.
        by_option (λ (x : Option ℕ × Kernel). KernelIsValid x.1) (get_idx_by_name name k.sems) _ _
          (λ _. v)
          (λ i _.
            by_option (λ (x : Option ℕ × Kernel). KernelIsValid x.1) (slot k.sems.semaphores i) _ _
              (λ _. v)
              (λ s e.
                by_bool (λ (x : Option ℕ × Kernel). KernelIsValid x.1)
                  (positive s.using && ltb 1 s.using) _ _
                  (λ _.
                    sems-KernelIsValid k v _
                      (using-SemsAreValid k.sems i (s.using - 1) s e v.sems_ok))
                  (λ _.
                    sems-KernelIsValid _
                      (heap-KernelIsValid k v _ (free-IsTiled k.heap s.self v.heap_ok)) _
                      (closed-SemsAreValid k.sems i s e v.sems_ok)))))

clear_pipe-KernelIsValid :
    (i : ℕ) (k : Kernel) → KernelIsValid k → KernelIsValid (with_pipes (put_pipe i none) k)
clear_pipe-KernelIsValid i k v = pipes-KernelIsValid k v _ (record {
  length_ok = length-set k.pipe_table.pipes i none ∙ v.pipes_ok.length_ok;
  each = EachSlot-clear PipeIsValid k.pipe_table.pipes i v.pipes_ok.each;
})

open_semaphores-KernelIsValid :
    (i : ℕ) (p : Pipe) (k : Kernel) → KernelIsValid k → KernelIsValid (open_semaphores i p k).1
unfolding open_semaphores
open_semaphores-KernelIsValid i p k v =
    let (w, k1) = sem_open p.write_sem pipe_size k in
    let v1 = sem_open-KernelIsValid p.write_sem pipe_size k v in
    by_option (λ (x : Option (ℕ × ℕ × ℕ) × Kernel). KernelIsValid x.1) w _ _
      (λ _. clear_pipe-KernelIsValid i k1 v1)
      (λ _ _.
        let (r, k2) = sem_open p.read_sem 0 k1 in
        let v2 = sem_open-KernelIsValid p.read_sem 0 k1 v1 in
        by_option (λ (x : Option (ℕ × ℕ × ℕ) × Kernel). KernelIsValid x.1) r _ _
          (λ _. clear_pipe-KernelIsValid i _ (sem_close-KernelIsValid p.write_sem k2 v2))
          (λ _ _. v2))

new_pipe-PipeIsValid : (i self fd : ℕ) → PipeIsValid i (new_pipe self fd)
unfolding new_pipe
new_pipe-PipeIsValid i self fd = record {
  room = length-replicate {A = ℕ} pipe_size 0;
  read_in = omega arith;
  write_in = omega arith;
}

pub create_pipe-KernelIsValid : (k : Kernel) → KernelIsValid k → KernelIsValid (create_pipe k).1
unfolding create_pipe
create_pipe-KernelIsValid k v =
    by_option (λ (x : Option (ℕ × ℕ × ℕ) × Kernel). KernelIsValid x.1)
      (find_slot is_null k.pipe_table.pipes) _ _ (λ _. v)
      (λ i _.
        let (m, h) = my_malloc k.heap sizeof_pipe in
        let u = heap-KernelIsValid k v h (my_malloc-IsTiled k.heap sizeof_pipe v.heap_ok) in
        by_option (λ (x : Option (ℕ × ℕ × ℕ) × Kernel). KernelIsValid x.1) m _ _ (λ _. u)
          (λ self _.
            let p = new_pipe self k.pipe_table.next_fd in
            open_semaphores-KernelIsValid i p _ (
              pipes-KernelIsValid (record k { heap = h }) u _
                (record {
                  length_ok = length-set k.pipe_table.pipes i (some p) ∙ v.pipes_ok.length_ok;
                  each =
                      EachSlot-set PipeIsValid k.pipe_table.pipes i p v.pipes_ok.each
                        (new_pipe-PipeIsValid i self k.pipe_table.next_fd);
                }))))

pub destroy_pipe-KernelIsValid :
    (fd : ℕ) (k : Kernel) → KernelIsValid k → KernelIsValid (destroy_pipe fd k)
unfolding destroy_pipe
destroy_pipe-KernelIsValid fd k v =
    by_option KernelIsValid (get_index_by_fd fd write_end k.pipe_table) _ _ (λ _. v)
      (λ i _.
        by_option KernelIsValid (slot k.pipe_table.pipes i) _ _ (λ _. v)
          (λ p _.
            let k1 = (sem_close p.write_sem k).1 in
            let k2 = (sem_close p.read_sem k1).1 in
            let v2 =
              sem_close-KernelIsValid p.read_sem k1 (sem_close-KernelIsValid p.write_sem k v) in
            clear_pipe-KernelIsValid i (record k2 { heap = free k2.heap p.self })
              (heap-KernelIsValid k2 v2 _ (free-IsTiled k2.heap p.self v2.heap_ok))))
