-- ===== src/Cli/Executor.antt =====
-- cli-connectors/framework/src/process/executor.ts and signals.ts. `spawn` stands for Node's
-- child process: the world says how the child ends.
use vguardrail.Base.{ℕ, ◌+◌, String, Bool, true, false, Option, none, some, List, if◌then◌else◌}
use vguardrail.Base.Text.{str_eq}

-- How a child ends: it exits with a code or by a signal, its exit names neither, or it never ran.
pub data Fate : Type 0 where
  exited : ℕ → Fate
  killed : String → Fate
  unnamed : Fate
  not_spawned : String → Fate
  failed : String → Fate

-- `ExecutionOptions`, as the connector fills them
pub record Launch : Type 0 where
  pub executable : String
  pub args : List String
  pub stdin_data : Option (List ℕ)

-- `ExecutionResult`
pub record ExecutionResult : Type 0 where
  pub exit_code : ℕ
  pub started : Bool
  pub error : Option String

-- `SIGNAL_NUMBERS[signal]`, and 1 for a signal that it does not list
abbrev pub signal_number : String → ℕ
signal_number s =
    if str_eq s "SIGINT"
    then 2
    else if str_eq s "SIGTERM"
    then 15
    else if str_eq s "SIGHUP"
    then 1
    else if str_eq s "SIGQUIT"
    then 3
    else if str_eq s "SIGABRT"
    then 6
    else if str_eq s "SIGKILL"
    then 9
    else if str_eq s "SIGUSR1"
    then 10
    else if str_eq s "SIGUSR2"
    then 12
    else if str_eq s "SIGPIPE"
    then 13
    else if str_eq s "SIGALRM"
    then 14
    else if str_eq s "SIGSTOP"
    then 19
    else if str_eq s "SIGTSTP"
    then 20
    else if str_eq s "SIGCONT"
    then 18
    else if str_eq s "SIGCHLD"
    then 17
    else if str_eq s "SIGBUS"
    then 10
    else if str_eq s "SIGFPE"
    then 8
    else if str_eq s "SIGSEGV"
    then 11
    else 1

unfoldable pub result_of : Fate → ExecutionResult
result_of (exited code) = record { exit_code = code; started = true; error = none }
result_of (killed s) = record { exit_code = 128 + signal_number s; started = true; error = none }
result_of unnamed = record { exit_code = 1; started = true; error = none }
result_of (not_spawned m) = record { exit_code = 1; started = false; error = some m }
result_of (failed m) = record { exit_code = 1; started = false; error = some m }

-- `executeTool`
unfoldable pub execute_tool :
    {S : Type 0} → (Launch → S → Fate × S) → Launch → S → ExecutionResult × S
execute_tool spawn launch s = let (fate, s') = spawn launch s in (result_of fate, s')
