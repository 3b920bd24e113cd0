-- ===== src/Shell/Pipeline.antt =====
-- 4_Userland/shellCodeModule/2_libraries/shellFunctions.c: the table of commands, and `getCmdInput`,
-- which runs a line. What the kernel and the commands return is an argument; the calls made are a list.
pub mod Ends
use Prim.Native.Char.{code}
use Prim.Native.String.{String}
use g21_tp2_so_1c.Base.{
  ℕ, zero, suc, ◌+◌, ◌-◌, ◌*◌, ◌^◌, List, [], ◌∷◌, ◌++◌, Bool, true, false, not, ◌&&◌, ◌||◌, map,
  length, ◌==◌, if◌then◌else◌, Option, none, some,
}
use g21_tp2_so_1c.Text.{strcmp}
use g21_tp2_so_1c.Text.Words.{strchr}
use g21_tp2_so_1c.Shell.Commands.{Command, fill_command_and_args}

abbrev pub codes : String → List ℕ
codes String.[] = []
codes (String.◌∷◌ c s) = code c ∷ codes s

-- A name and whether the shell runs the command itself.
abbrev pub modules : List (List ℕ × Bool)
modules =
    (codes "help", true)
    ∷ (codes "time", true)
    ∷ (codes "setfont", true)
    ∷ (codes "clear", true)
    ∷ (codes "convert", true)
    ∷ (codes "snake", false)
    ∷ (codes "spotify", false)
    ∷ (codes "piano", false)
    ∷ (codes "getregs", true)
    ∷ (codes "opcode", true)
    ∷ (codes "divzero", true)
    ∷ (codes "testmm", false)
    ∷ (codes "ts", false)
    ∷ (codes "tp", false)
    ∷ (codes "tsem", false)
    ∷ (codes "colorshow", true)
    ∷ (codes "ps", false)
    ∷ (codes "mem", false)
    ∷ (codes "loop", false)
    ∷ (codes "kill", true)
    ∷ (codes "nice", true)
    ∷ (codes "block", true)
    ∷ (codes "cat", false)
    ∷ (codes "wc", false)
    ∷ (codes "filter", false)
    ∷ (codes "phylo", false)
    ∷ []

-- The search of the table for the first entry with the name.
unfoldable pub lookup_in : List (List ℕ × Bool) → List ℕ → Option Bool
lookup_in [] name = none
lookup_in ((entry, builtin) ∷ rest) name =
    let later = lookup_in rest name in if strcmp name entry == 0 then some builtin else later

abbrev pub find_module : List ℕ → Option Bool
find_module name = lookup_in modules name

-- `none` is the file descriptor -1.
pub record Fds : Type 0 where
  pub input : Option ℕ
  pub output : Option ℕ

pub data Call : Type 0 where
  create_pipe : Call
  destroy_pipe : ℕ → Call
  start : List ℕ → List (List ℕ) → Fds → ℕ → Call
  run : List ℕ → List (List ℕ) → Call
  wait_pid kill : ℕ → Call
  too_many_pipes no_pipe : Call
  no_process not_found : List ℕ → Call

-- What the kernel and the shell's own commands answer: the ends of a new pipe, the pid of the process
-- of the first and of the second command, and the result of a command that the shell runs.
pub record Answers : Type 0 where
  pub pipe : Option (ℕ × ℕ)
  pub new_process : ℕ → Option ℕ
  pub builtin : List ℕ → List (List ℕ) → ℕ

pub data Ended : Type 0 where
  started : List ℕ → Ended
  failed : Ended
  returned : ℕ → Ended

abbrev pub also : List Call → List Call × Ended → List Call × Ended
also calls r = (calls ++ r.0, r.1)

-- The loop that starts the commands, from the `i`th on, with the pids of those that run.
unfoldable pub start_from : Answers → ℕ → List (Command × Fds) → List ℕ → List Call × Ended
start_from a i [] pids = ([], started pids)
start_from a i ((c, fds) ∷ rest) pids = elim (find_module c.command) [
  | none ↦ (not_found c.command ∷ map kill pids, failed)
  | some true ↦ (run c.command c.args ∷ [], returned (a.builtin c.command c.args))
  | some false ↦ elim (a.new_process i) [
    | none ↦ (no_process c.command ∷ [], failed)
    | some pid ↦
        also (start c.command c.args fds pid ∷ []) (start_from a (i + 1) rest (pids ++ (pid ∷ [])))
  ]
]

abbrev pub ok : ℕ
ok = 0

abbrev pub error : ℕ
error = 2 ^ 32 - 1

-- What follows the start of all commands, and the result.
abbrev pub finish : Bool → List Call → List Call × Ended → List Call × ℕ
finish foreground closing (calls, started pids) =
    (calls ++ (if foreground then map wait_pid pids ++ closing else []), ok)
finish foreground closing (calls, failed) = (calls, error)
finish foreground closing (calls, returned r) = (calls, r)

abbrev pub before_pipe : List ℕ → List ℕ
before_pipe [] = []
before_pipe (c ∷ s) = if c == b'|' then [] else c ∷ before_pipe s

abbrev pub after_pipe : List ℕ → List ℕ
after_pipe [] = []
after_pipe (c ∷ s) = s

abbrev pub stdin : ℕ
stdin = 0

abbrev pub stdout : ℕ
stdout = 1

-- One command, with the descriptors that it gets.
abbrev pub single : Command → List (Command × Fds)
single c =
    (c, record { input = if c.foreground then some stdin else none; output = some stdout }) ∷ []

-- Two commands, the ends of a pipe between them.
abbrev pub piped : Command → Command → ℕ × ℕ → List (Command × Fds)
piped c d (read_end, write_end) =
    (c, record { input = some stdin; output = some write_end })
    ∷ (d, record { input = some read_end; output = some stdout })
    ∷ []

unfoldable pub run_single : Answers → Command → List Call × ℕ
unfolding start_from
run_single a c = finish c.foreground [] (start_from a 0 (single c) [])

-- The `&` of the second command decides.
unfoldable pub run_piped : Answers → Command → Command → List Call × ℕ
unfolding start_from
run_piped a c d = elim a.pipe [
  | none ↦ (create_pipe ∷ no_pipe ∷ [], error)
  | some ends ↦
      finish d.foreground (destroy_pipe ends.1 ∷ [])
        (also (create_pipe ∷ []) (start_from a 0 (piped c d ends) []))
]

unfoldable pub get_cmd_input : Answers → List ℕ → List Call × ℕ
unfolding run_single run_piped fill_command_and_args
get_cmd_input a [] = ([], ok)
get_cmd_input a (b ∷ s) =
    let line = b ∷ s in
    elim (strchr line b'|') [
      | none ↦ run_single a (fill_command_and_args line)
      | some rest ↦
          let right = after_pipe rest in
          elim (strchr right b'|') [
            | some more ↦ (too_many_pipes ∷ [], error)
            | none ↦
                run_piped a (fill_command_and_args (before_pipe line)) (fill_command_and_args right)
          ]
    ]
