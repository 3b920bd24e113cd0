-- ===== src/Kernel/Process/Valid.antt =====
-- process.c: the arena when processes are made and destroyed.
use g21_tp2_so_1c.Base.{ℕ, ◌+◌, ◌*◌, List, [], ◌∷◌, Option, length, by_option}
use g21_tp2_so_1c.Heap.{Heap, my_malloc}
use g21_tp2_so_1c.Heap.Arena.{IsTiled, my_malloc-IsTiled, my_free-IsTiled}
use g21_tp2_so_1c.Kernel.State.{Process}
use g21_tp2_so_1c.Kernel.Process.{
  free, duplicate_strings, duplicate_argv, free_argv, Request, create_process, destroy_process,
  sizeof_process, stack_size,
}

pub free-IsTiled : (h : Heap) (p : ℕ) → IsTiled h → IsTiled (free h p)
unfolding free
free-IsTiled h p v = my_free-IsTiled h p v

duplicate_strings-IsTiled :
    (ss : List (List ℕ)) (h : Heap) → IsTiled h → IsTiled (duplicate_strings ss h).1
unfolding duplicate_strings
duplicate_strings-IsTiled [] h v = v
duplicate_strings-IsTiled (s ∷ ss) h v =
    let (p, h1) = my_malloc h (length s + 1) in
    let v1 = my_malloc-IsTiled h (length s + 1) v in
    let (ps, h2) = duplicate_strings ss h1 in
    let v2 = duplicate_strings-IsTiled ss h1 v1 in
    by_option (λ (x : Option (List ℕ) × Heap). IsTiled x.1) p _ _ (λ _. v1)
      (λ a _. by_option (λ (x : Option (List ℕ) × Heap). IsTiled x.1) ps _ _ (λ _. v2) (λ _ _. v2))

duplicate_argv-IsTiled :
    (ss : List (List ℕ)) (h : Heap) → IsTiled h → IsTiled (duplicate_argv ss h).1
unfolding duplicate_argv
duplicate_argv-IsTiled [] h v =
    let (p, h1) = my_malloc h 8 in
    let v1 = my_malloc-IsTiled h 8 v in
    by_option (λ (x : Option (ℕ × List ℕ) × Heap). IsTiled x.1) p _ _ (λ _. v1) (λ _ _. v1)
duplicate_argv-IsTiled (s ∷ ss) h v =
    let (p, h1) = my_malloc h ((length (s ∷ ss) + 1) * 8) in
    let v1 = my_malloc-IsTiled h ((length (s ∷ ss) + 1) * 8) v in
    let (ps, h2) = duplicate_strings (s ∷ ss) h1 in
    let v2 = duplicate_strings-IsTiled (s ∷ ss) h1 v1 in
    by_option (λ (x : Option (ℕ × List ℕ) × Heap). IsTiled x.1) p _ _ (λ _. v1)
      (λ a _.
        by_option (λ (x : Option (ℕ × List ℕ) × Heap). IsTiled x.1) ps _ _ (λ _. v2) (λ _ _. v2))

free_argv-IsTiled : (ss : List ℕ) (argv : ℕ) (h : Heap) → IsTiled h → IsTiled (free_argv ss argv h)
unfolding free_argv
free_argv-IsTiled [] argv h v = free-IsTiled h argv v
free_argv-IsTiled (s ∷ ss) argv h v = free_argv-IsTiled ss argv (free h s) (free-IsTiled h s v)

pub create_process-IsTiled : (r : Request) (h : Heap) → IsTiled h → IsTiled (create_process r h).1
unfolding create_process
create_process-IsTiled r h v =
    let (p, h1) = my_malloc h sizeof_process in
    let v1 = my_malloc-IsTiled h sizeof_process v in
    by_option (λ (x : Option Process × Heap). IsTiled x.1) p _ _ (λ _. v1)
      (λ self _.
        let (s, h2) = my_malloc h1 stack_size in
        let v2 = my_malloc-IsTiled h1 stack_size v1 in
        by_option (λ (x : Option Process × Heap). IsTiled x.1) s _ _ (λ _. free-IsTiled h2 self v2)
          (λ stack _.
            let (a, h3) = duplicate_argv r.argv h2 in
            let v3 = duplicate_argv-IsTiled r.argv h2 v2 in
            by_option (λ (x : Option Process × Heap). IsTiled x.1) a _ _
              (λ _. free-IsTiled (free h3 stack) self (free-IsTiled h3 stack v3)) (λ _ _. v3)))

pub destroy_process-IsTiled : (p : Process) (h : Heap) → IsTiled h → IsTiled (destroy_process p h)
unfolding destroy_process
destroy_process-IsTiled p h v =
    free-IsTiled _ p.self (free-IsTiled _ p.stack_base (free_argv-IsTiled p.args p.argv h v))
