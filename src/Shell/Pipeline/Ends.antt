-- ===== src/Shell/Pipeline/Ends.antt =====
-- shellFunctions.c: what becomes of the processes that a line starts.
use g21_tp2_so_1c.Base.{
  ℕ, ◌+◌, List, [], ◌∷◌, ◌++◌, Bool, true, false, ◌||◌, map, ◌==◌, none, some, ◌≡◌, refl, arith,
  by_option, by_cases,
}
use g21_tp2_so_1c.Text.Words.{strchr}
use g21_tp2_so_1c.Shell.Commands.{Command, fill_command_and_args}
use g21_tp2_so_1c.Shell.Pipeline.{
  Fds, Call, create_pipe, destroy_pipe, start, run, wait_pid, kill, no_process, Answers, Ended,
  started, failed, returned, also, start_from, finish, run_single, run_piped, single, piped,
  get_cmd_input, find_module, after_pipe, before_pipe,
}

-- The call starts the process; it waits for it or kills it; the shell runs a command itself, or a
-- process could not be made.
abbrev pub is_start : ℕ → Call → Bool
is_start p (start name args fds q) = p == q
is_start p _ = false

abbrev pub is_end : ℕ → Call → Bool
is_end p (wait_pid q) = p == q
is_end p (kill q) = p == q
is_end p _ = false

abbrev pub is_exit : Call → Bool
is_exit (run name args) = true
is_exit (no_process name) = true
is_exit _ = false

abbrev pub any {ℓ} : {A : Type ℓ} → (A → Bool) → List A → Bool
any f [] = false
any f (c ∷ cs) = f c || any f cs

abbrev member : ℕ → List ℕ → Bool
member p qs = any (λ q. p == q) qs

any-append {ℓ} :
    {A : Type ℓ} (f : A → Bool) (xs ys : List A) → any f (xs ++ ys) ≡ any f xs || any f ys
any-append f [] ys = refl
any-append f (x ∷ xs) ys = ground (arith, any-append f xs ys)

any-wait : (p : ℕ) (qs : List ℕ) → any (is_end p) (map wait_pid qs) ≡ member p qs
any-wait p [] = refl
any-wait p (q ∷ qs) = ground (arith, any-wait p qs)

any-kill : (p : ℕ) (qs : List ℕ) → any (is_end p) (map kill qs) ≡ member p qs
any-kill p [] = refl
any-kill p (q ∷ qs) = ground (arith, any-kill p qs)

kill_starts : (p : ℕ) (qs : List ℕ) → any (is_start p) (map kill qs) ≡ false
kill_starts p [] = refl
kill_starts p (q ∷ qs) = kill_starts p qs

wait_starts : (p : ℕ) (qs : List ℕ) → any (is_start p) (map wait_pid qs) ≡ false
wait_starts p [] = refl
wait_starts p (q ∷ qs) = wait_starts p qs

-- The processes started, with those of before, are those that run, or all of them are killed.
abbrev Accounted : List ℕ → List Call × Ended → Type 0
Accounted pids (calls, started qs) =
    (p : ℕ) → any (is_start p) calls || member p pids ≡ true → member p qs ≡ true
Accounted pids (calls, failed) =
    any is_exit calls ≡ false
    → (p : ℕ) → any (is_start p) calls || member p pids ≡ true
    → any (is_end p) calls ≡ true
Accounted pids (calls, returned r) = any is_exit calls ≡ true

Accounted-also :
    (pids : List ℕ) (name : List ℕ) (args : List (List ℕ)) (fds : Fds) (pid : ℕ)
    (r : List Call × Ended)
    → Accounted (pids ++ (pid ∷ [])) r
    → Accounted pids (also (start name args fds pid ∷ []) r)
Accounted-also pids name args fds pid (calls, started qs) h =
    λ p o. h p (ground (arith, any-append (λ (q : ℕ). p == q) pids (pid ∷ [])))
Accounted-also pids name args fds pid (calls, failed) h =
    λ x p o. h x p (ground (arith, any-append (λ (q : ℕ). p == q) pids (pid ∷ [])))
Accounted-also pids name args fds pid (calls, returned q) h = h

start_from-Accounted :
    (a : Answers) (i : ℕ) (cs : List (Command × Fds)) (pids : List ℕ)
    → Accounted pids (start_from a i cs pids)
unfolding start_from
start_from-Accounted a i [] pids = λ p o. o
start_from-Accounted a i ((c, fds) ∷ rest) pids =
    by_option (Accounted pids) (find_module c.command) _ _
      (λ e x p o. ground (arith, any-kill p pids, kill_starts p pids))
      (λ b e.
        by_cases (Accounted pids) b _ _ (λ t. refl)
          (λ t.
            by_option (Accounted pids) (a.new_process i) _ _ (λ n x. cc)
              (λ pid n.
                Accounted-also pids c.command c.args fds pid
                  (start_from a (i + 1) rest (pids ++ (pid ∷ [])))
                  (start_from-Accounted a (i + 1) rest (pids ++ (pid ∷ []))))))

Accounted-pipe : (r : List Call × Ended) → Accounted [] r → Accounted [] (also (create_pipe ∷ []) r)
Accounted-pipe (calls, started qs) h = h
Accounted-pipe (calls, failed) h = h
Accounted-pipe (calls, returned r) h = h

-- Every process that the calls start is waited for or killed, unless they end early.
abbrev Ends : List Call × ℕ → Type 0
Ends (calls, r) =
    any is_exit calls ≡ false
    → (p : ℕ) → any (is_start p) calls ≡ true
    → any (is_end p) calls ≡ true

finish-Ends :
    (closing : List Call) (r : List Call × Ended)
    → ((p : ℕ) → any (is_start p) closing ≡ false)
    → Accounted [] r
    → Ends (finish true closing r)
finish-Ends closing (calls, started qs) n h = λ x p o.
    let tail = map wait_pid qs ++ closing in
    ground (
      arith,
      h p,
      n p,
      any-append (is_start p) calls tail,
      any-append (is_start p) (map wait_pid qs) closing,
      any-append (is_end p) calls tail,
      any-append (is_end p) (map wait_pid qs) closing,
      wait_starts p qs,
      any-wait p qs,
    )
finish-Ends closing (calls, failed) n h = λ x p o. h x p (ground arith)
finish-Ends closing (calls, returned r) n h = λ x. cc

foreground-Ends :
    (fg : Bool) (closing : List Call) (r : List Call × Ended)
    → fg ≡ true
    → ((p : ℕ) → any (is_start p) closing ≡ false)
    → Accounted [] r
    → Ends (finish fg closing r)
foreground-Ends true closing r f n h = finish-Ends closing r n h
foreground-Ends false closing r f n h = absurd (cc)

run_single-Ends : (a : Answers) (c : Command) → c.foreground ≡ true → Ends (run_single a c)
unfolding run_single
run_single-Ends a c f =
    foreground-Ends c.foreground [] (start_from a 0 (single c) []) f (λ p. refl)
      (start_from-Accounted a 0 (single c) [])

run_piped-Ends : (a : Answers) (c d : Command) → d.foreground ≡ true → Ends (run_piped a c d)
unfolding run_piped
run_piped-Ends a c d f =
    by_option Ends a.pipe _ _ (λ e x p o. cc)
      (λ (ends : ℕ × ℕ) e.
        foreground-Ends d.foreground (destroy_pipe ends.1 ∷ [])
          (also (create_pipe ∷ []) (start_from a 0 (piped c d ends) [])) f (λ p. refl)
          (Accounted-pipe (start_from a 0 (piped c d ends) [])
            (start_from-Accounted a 0 (piped c d ends) [])))

-- Whether the line runs in the foreground: its last command decides.
unfoldable pub in_foreground : List ℕ → Bool
in_foreground line = elim (strchr line b'|') [
  | none ↦ (fill_command_and_args line).foreground
  | some rest ↦ (fill_command_and_args (after_pipe rest)).foreground
]

foreground_single :
    (line : List ℕ)
    → strchr line b'|' ≡ none
    → in_foreground line ≡ true
    → (fill_command_and_args line).foreground ≡ true
unfolding in_foreground
foreground_single line e f = rw (e, in_foreground) at f

foreground_piped :
    (line rest : List ℕ)
    → strchr line b'|' ≡ some rest
    → in_foreground line ≡ true
    → (fill_command_and_args (after_pipe rest)).foreground ≡ true
unfolding in_foreground
foreground_piped line rest e f = rw (e, in_foreground) at f

Ends-get_cmd_input :
    (a : Answers) (line : List ℕ) → in_foreground line ≡ true → Ends (get_cmd_input a line)
unfolding get_cmd_input
Ends-get_cmd_input a [] f = λ x p o. cc
Ends-get_cmd_input a (b ∷ s) f =
    by_option Ends (strchr (b ∷ s) b'|') _ _
      (λ e. run_single-Ends a (fill_command_and_args (b ∷ s)) (foreground_single (b ∷ s) e f))
      (λ rest e.
        by_option Ends (strchr (after_pipe rest) b'|') _ _
          (λ n.
            run_piped-Ends a (fill_command_and_args (before_pipe (b ∷ s)))
              (fill_command_and_args (after_pipe rest)) (foreground_piped (b ∷ s) rest e f))
          (λ more n x p o. cc))

-- Of a line in the foreground, every process that is started is waited for or killed, unless the shell
-- runs one of the commands itself or a process cannot be made.
pub get_cmd_input-Ends :
    (a : Answers) (line : List ℕ) (p : ℕ)
    → in_foreground line ≡ true
    → any is_exit (get_cmd_input a line).0 ≡ false
    → any (is_start p) (get_cmd_input a line).0 ≡ true
    → any (is_end p) (get_cmd_input a line).0 ≡ true
get_cmd_input-Ends a line p f x s = Ends-get_cmd_input a line f x p s
