-- ===== src/Shell/Philosophers.antt =====
-- 4_Userland/shellCodeModule/2_libraries/phylo.c: the dining philosophers. Each philosopher is a process
-- that runs `philosopher` statement by statement; the semaphores are their values.
pub mod Orderly
pub mod Moves
pub mod Safety
pub mod Fed
pub mod Served
use g21_tp2_so_1c.Base.{
  ℕ, zero, suc, ◌+◌, ◌-◌, ◌%◌, ◌≤◌, ◌<◌, Bool, true, false, not, ◌&&◌, ◌||◌, ltb, leb, ◌==◌,
  if◌then◌else◌, Option, none, some, List, [], ◌∷◌, ◌++◌, ◌≡◌,
}

abbrev pub max_philosophers : ℕ
max_philosophers = 10

pub data Mood : Type 0 where
  thinking hungry eating : Mood

abbrev pub is_eating : Mood → Bool
is_eating eating = true
is_eating _ = false

abbrev pub is_hungry : Mood → Bool
is_hungry hungry = true
is_hungry _ = false

-- What is printed: a status line with a flag for each philosopher that eats, the warning of
-- `checkAdjacentEating`, and the messages of the two commands.
pub data Line : Type 0 where
  status : List Bool → Line
  invalid_state : Line
  added : ℕ → ℕ → Line
  removed : ℕ → Line

-- The statement that a philosopher is about to run. The prefix names the function.
pub data Pc : Type 0 where
  think : Pc
  take_wait take_hungry take_test take_post take_sleep : Pc
  eat : Pc
  put_wait put_think put_left put_right put_post : Pc

pub record Hall : Type 0 where
  pub philosopher_count : ℕ
  pub state : ℕ → Mood
  pub last_state : ℕ → Mood
  pub pid_table : ℕ → ℕ
  pub active_philosopher : ℕ → Bool
  pub mutex : ℕ
  pub sems : ℕ → ℕ
  pub pc : ℕ → Pc
  pub printed : List Line

abbrev pub update {ℓ} : {A : Type ℓ} → (ℕ → A) → ℕ → A → ℕ → A
update f i a j = if i == j then a else f j

abbrev pub left : ℕ → ℕ → ℕ
left philosopher_count i = (i + philosopher_count - 1) % philosopher_count

abbrev pub right : ℕ → ℕ → ℕ
right philosopher_count i = (i + 1) % philosopher_count

-- The flags of the first `n` philosophers, in their order.
unfoldable pub eating_flags : ℕ → (ℕ → Mood) → List Bool
eating_flags zero state = []
eating_flags (suc n) state = eating_flags n state ++ (is_eating (state n) ∷ [])

unfoldable pub print_philosophers_status : Hall → Hall
print_philosophers_status h = record h {
  printed = status (eating_flags h.philosopher_count h.state) ∷ h.printed;
}

abbrev pub warn : Bool → List Line → List Line
warn b lines = if b then invalid_state ∷ lines else lines

-- The loop of `checkAdjacentEating` over the first `n` philosophers.
unfoldable pub check_first : ℕ → ℕ → (ℕ → Mood) → List Line → List Line
check_first count zero state lines = lines
check_first count (suc i) state lines =
    warn (is_eating (state i) && is_eating (state (right count i))) (
      warn (is_eating (state i) && is_eating (state (left count i)))
        (check_first count i state lines))

unfoldable pub check_adjacent_eating : Hall → Hall
unfolding check_first
check_adjacent_eating h = if leb h.philosopher_count 1 then h else record h {
  printed = check_first h.philosopher_count h.philosopher_count h.state h.printed;
}

abbrev pub differ : Bool → Bool → Bool
differ true b = not b
differ false b = b

-- Whether one of the first `n` went to or from EATING, and whether one eats.
unfoldable pub visual_changed : ℕ → (ℕ → Mood) → (ℕ → Mood) → Bool
visual_changed zero state last = false
visual_changed (suc i) state last =
    visual_changed i state last || differ (is_eating (state i)) (is_eating (last i))

unfoldable pub has_e : ℕ → (ℕ → Mood) → Bool
has_e zero state = false
has_e (suc i) state = has_e i state || is_eating (state i)

unfoldable pub check_and_print_state_change : Hall → Hall
unfolding visual_changed has_e print_philosophers_status check_adjacent_eating
check_and_print_state_change h =
    let count = h.philosopher_count in
    let seen = record h { last_state = λ i. if ltb i count then h.state i else h.last_state i } in
    if visual_changed count h.state h.last_state && (has_e count h.state || count == 1)
    then check_adjacent_eating (print_philosophers_status seen)
    else seen

unfoldable pub sem_post : ℕ → Hall → Hall
sem_post i h = record h { sems = update h.sems i (h.sems i + 1) }

unfoldable pub test : ℕ → Hall → Hall
unfolding check_and_print_state_change sem_post
test i h =
    if is_hungry (h.state i)
      && (not (is_eating (h.state (left h.philosopher_count i)))
          && not (is_eating (h.state (right h.philosopher_count i))))
    then sem_post i (check_and_print_state_change (record h { state = update h.state i eating }))
    else h

abbrev pub goto : ℕ → Pc → Hall → Hall
goto i p h = record h { pc = update h.pc i p }

abbrev pub put_state : ℕ → Mood → Hall → Hall
put_state i m h = record h { state = update h.state i m }

-- A semaphore is passed when its value is positive; `none` is a wait.
abbrev pub wait_mutex : ℕ → Pc → Hall → Option Hall
wait_mutex i p h =
    if ltb 0 h.mutex then some (goto i p (record h { mutex = h.mutex - 1 })) else none

abbrev pub post_mutex : Hall → Hall
post_mutex h = record h { mutex = h.mutex + 1 }

-- One statement of philosopher `i`: `think`, `take_forks`, `eat` and `put_forks` in turn.
unfoldable pub advance : Pc → ℕ → Hall → Option Hall
unfolding check_and_print_state_change test
advance think i h = some (goto i take_wait (put_state i thinking h))
advance take_wait i h = wait_mutex i take_hungry h
advance take_hungry i h =
    some (goto i take_test (check_and_print_state_change (put_state i hungry h)))
advance take_test i h = some (goto i take_post (test i h))
advance take_post i h = some (goto i take_sleep (post_mutex h))
advance take_sleep i h =
    if ltb 0 (h.sems i)
    then some (goto i eat (record h { sems = update h.sems i (h.sems i - 1) }))
    else none
advance eat i h = some (goto i put_wait (put_state i eating h))
advance put_wait i h = wait_mutex i put_think h
advance put_think i h =
    some (goto i put_left (check_and_print_state_change (put_state i thinking h)))
advance put_left i h = some (goto i put_right (test (left h.philosopher_count i) h))
advance put_right i h = some (goto i put_post (test (right h.philosopher_count i) h))
advance put_post i h = some (goto i think (post_mutex h))

unfoldable pub philosopher : ℕ → Hall → Option Hall
unfolding advance
philosopher i h = advance (h.pc i) i h

-- The command `a` up to its check: the last seat is taken, and the message printed. `pid` is what
-- `newProcess` returns, and the semaphore is opened with value 0.
abbrev pub with_philosopher : ℕ → Hall → Hall
with_philosopher pid h =
    let id = h.philosopher_count in
    record h {
      sems = update h.sems id 0;
      pc = update h.pc id think;
      pid_table = update h.pid_table id pid;
      active_philosopher = update h.active_philosopher id true;
      state = update h.state id thinking;
      last_state = update h.last_state id thinking;
      philosopher_count = id + 1;
      printed = added id pid ∷ h.printed;
    }

unfoldable pub add_philosopher : ℕ → Hall → Hall
unfolding check_and_print_state_change
add_philosopher pid h =
    if leb max_philosophers h.philosopher_count
    then h
    else check_and_print_state_change (with_philosopher pid h)

-- The command `r` up to its check: the last philosopher's process is killed, wherever it stands, and its
-- seat taken away. A philosopher that is killed makes no move, so what others do before the count goes
-- down comes before this step.
abbrev pub without_philosopher : Hall → Hall
without_philosopher h =
    let id = h.philosopher_count - 1 in
    record h {
      active_philosopher = update h.active_philosopher id false;
      philosopher_count = id;
      printed = removed id ∷ h.printed;
    }

unfoldable pub remove_philosopher : Hall → Hall
unfolding check_and_print_state_change
remove_philosopher h =
    if h.philosopher_count == 0
    then h
    else if h.active_philosopher (h.philosopher_count - 1)
    then check_and_print_state_change (without_philosopher h)
    else h

-- `phylo` opens the mutex with value 1; nobody sits at the table.
abbrev pub phylo_start : Hall
phylo_start = record {
  philosopher_count = 0;
  state = λ _. thinking;
  last_state = λ _. thinking;
  pid_table = λ _. 0;
  active_philosopher = λ _. false;
  mutex = 1;
  sems = λ _. 0;
  pc = λ _. think;
  printed = [];
}

-- Two philosophers who are neighbours only once the last one is gone, and who both eat. Up to three
-- philosophers are neighbours before as well.
abbrev pub ClosesOnEaters : Hall → Type 0
ClosesOnEaters h =
    (3 < h.philosopher_count)
    × ((h.state 0 ≡ eating) × (h.state (h.philosopher_count - 2) ≡ eating))

-- The philosophers and the commands, in any order. `leave` is the command `r` where it does not seat
-- two that eat side by side. The check at the end of a command is a step of its own, at any time after,
-- and as often as one likes: it holds no mutex, so that it may read the states at different times. It
-- may leave any copy of them in `last_state`, and what it prints is left open; `printed` has the lines
-- of the philosophers, and the messages of the commands.
pub data Step : Hall → Hall → Type 0 where
  move : {h h' : Hall} (i : ℕ) → i < h.philosopher_count → philosopher i h ≡ some h' → Step h h'
  enter :
      {h : Hall} (pid : ℕ)
      → h.philosopher_count < max_philosophers
      → Step h (with_philosopher pid h)
  leave :
      {h : Hall}
      → 0 < h.philosopher_count
      → h.active_philosopher (h.philosopher_count - 1) ≡ true
      → ¬ ClosesOnEaters h
      → Step h (without_philosopher h)
  look : {h : Hall} (seen : ℕ → Mood) → Step h (record h { last_state = seen })

pub data Reach : Hall → Type 0 where
  start : Reach phylo_start
  next : {h h' : Hall} → Reach h → Step h h' → Reach h'
