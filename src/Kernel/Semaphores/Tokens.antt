-- ===== src/Kernel/Semaphores/Tokens.antt =====
-- synchro.c: what `semWait` and `semPost` do to the value of a semaphore and to the processes that wait
-- for it.
use g21_tp2_so_1c.Base.{
  length, ap, ◌∙◌, ℕ, ◌+◌, ◌%◌, ◌≤◌, ◌≡◌, refl, sym, subst, [], ◌∷◌, ◌++◌, Option, none, some, true,
  false, ltb, arith, by_bool, by_option,
}
use g21_tp2_so_1c.Base.Ring.{window}
use g21_tp2_so_1c.WaitQueue.{CircularBuffer, max_processes, pop_from_queue, add_to_queue}
use g21_tp2_so_1c.WaitQueue.Refine
use g21_tp2_so_1c.WaitQueue.Refine.{
  length-waiting, waiting, Added, Popped, add_to_queue-Added, pop_from_queue-Popped,
}
use g21_tp2_so_1c.Kernel.State.{Semaphore}
use g21_tp2_so_1c.Kernel.Semaphores.{
  wait_on, post_on, positive, Wait, passed, refused, must_block, int_mod,
}

-- The outcomes of a wait: the answer to the caller, and the semaphore.
abbrev pub Waited : ℕ → Semaphore → Wait × Semaphore → Type 0
Waited pid s (passed, t) = (positive s.value ≡ true) × (s.value ≡ t.value + 1) × (t.queue ≡ s.queue)
Waited pid s (refused, t) =
    (positive s.value ≡ false)
    × (max_processes ≤ s.queue.size)
    × (t.value ≡ s.value)
    × (t.queue ≡ s.queue)
Waited pid s (must_block p, t) =
    (positive s.value ≡ false)
    × (p ≡ pid)
    × (t.value ≡ s.value)
    × (waiting t.queue ≡ waiting s.queue ++ (pid ∷ []))

-- With a positive value the caller passes and takes one; otherwise it goes to the end of the queue,
-- or is refused where 64 wait already. A process that waits leaves the value as it is.
pub wait_on-Waited :
    (pid : ℕ) (s : Semaphore) → Refine.IsValid s.queue → Waited pid s (wait_on pid s)
unfolding wait_on
wait_on-Waited pid s v =
    by_bool (Waited pid s) (positive s.value) _ _ (λ e. (e, ground arith, refl))
      (λ n.
        by_option (Waited pid s) (add_to_queue s.queue pid) _ _
          (λ e. (n, subst (Added s.queue pid) e (add_to_queue-Added s.queue pid v), refl, refl))
          (λ q e.
            (n, refl, refl, (subst (Added s.queue pid) e (add_to_queue-Added s.queue pid v)).1)))

-- The outcomes of a post: the process to unblock, and the semaphore.
abbrev pub Posted : Semaphore → Option ℕ × Semaphore → Type 0
Posted s (some pid, t) = (t.value ≡ s.value) × (waiting s.queue ≡ pid ∷ waiting t.queue)
Posted s (none, t) =
    (waiting s.queue ≡ []) × (t.queue ≡ s.queue) × (t.value ≡ (s.value + 1) % int_mod)

-- A post hands its token to the process that waits longest, which is to be unblocked, and the value
-- stays; only where none waits does the value grow.
pub post_on-Posted : (s : Semaphore) → Refine.IsValid s.queue → Posted s (post_on s)
unfolding post_on
post_on-Posted s v =
    by_bool (Posted s) (ltb 0 s.queue.size) _ _
      (λ h.
        by_option (Posted s) (pop_from_queue s.queue) _ _
          (λ e.
            let a = subst (Popped s.queue) e (pop_from_queue-Popped s.queue v) in
            let z : s.queue.size ≡ 0 = sym (length-waiting s.queue) ∙ ap length a in
            absurd (ground arith))
          (λ (x : ℕ × CircularBuffer) e.
            (refl, (subst (Popped s.queue) e (pop_from_queue-Popped s.queue v)).1)))
      (λ n.
        let z : s.queue.size ≡ 0 = ground arith in
        (ap (window max_processes s.queue.v s.queue.read_index) z, refl, refl))

-- No process waits while the value is positive.
abbrev pub NoneWastes : Semaphore → Type 0
NoneWastes s = positive s.value ≡ true → waiting s.queue ≡ []

Waited-NoneWastes :
    (pid : ℕ) (s : Semaphore) (w : Wait) (t : Semaphore)
    → Waited pid s (w, t)
    → NoneWastes s
    → NoneWastes t
Waited-NoneWastes pid s passed t h n = λ p. ap waiting h.2 ∙ n h.0
Waited-NoneWastes pid s refused t h n = λ p. absurd (let a = h.0 in let b = ap positive h.2 in cc)
Waited-NoneWastes pid s (must_block q) t h n =
    λ p. absurd (let a = h.0 in let b = ap positive h.2 in cc)

Posted-NoneWastes :
    (s : Semaphore) (w : Option ℕ) (t : Semaphore) → Posted s (w, t) → NoneWastes s → NoneWastes t
Posted-NoneWastes s none t h n = λ p. ap waiting h.1 ∙ h.0
Posted-NoneWastes s (some pid) t h n =
    λ p. absurd (let a = n (sym (ap positive h.0) ∙ p) in let b = h.1 in cc)

-- Whatever is waited for and posted, no process waits while the value is positive, so no token lies
-- idle.
pub semaphore-NoneWastes :
    (pid : ℕ) (s : Semaphore)
    → Refine.IsValid s.queue
    → NoneWastes s
    → NoneWastes (wait_on pid s).1 × NoneWastes (post_on s).1
semaphore-NoneWastes pid s v n = (
  Waited-NoneWastes pid s (wait_on pid s).0 (wait_on pid s).1 (wait_on-Waited pid s v) n,
  Posted-NoneWastes s (post_on s).0 (post_on s).1 (post_on-Posted s v) n,
)
