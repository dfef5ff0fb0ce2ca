-- ===== src/Mysh/Commands.antt =====
-- The job list and the commands of projects/p2/p2a/mysh.c. What the system knows of the processes is
-- an argument: `runs pid` tells that waitpid(pid, NULL, WNOHANG) returns 0.
use cs537_fall.Prelude.{
  ℕ, ◌+◌, ◌%◌, ◌^◌, ◌==◌, ltb, leb, if◌then◌else◌, Bool, false, ◌&&◌, Option, none, some, List, [],
  ◌∷◌, ◌++◌, length,
}
use cs537_fall.Mysh.Words.{String, parse}

-- `node_t`
pub record Job : Type 0 where
  pub jid : ℕ
  pub pid : ℕ
  pub argv : List String

-- The nodes behind `joblist`, `joblist->jid`, and the static `jid` of `execute`.
pub record Shell : Type 0 where
  pub jobs : List Job
  pub max_jid : ℕ
  pub last_jid : ℕ

unfoldable pub remove_stopped_jobs : (ℕ → Bool) → List Job → List Job
remove_stopped_jobs runs [] = []
remove_stopped_jobs runs (j ∷ js) =
    let rest = remove_stopped_jobs runs js in if runs j.pid then j ∷ rest else rest

unfoldable pub push : List Job → Job → List Job
push [] j = j ∷ []
push (i ∷ js) j = i ∷ push js j

-- The first job with this number.
unfoldable pub find_job : ℕ → List Job → Option ℕ
find_job jid [] = none
find_job jid (j ∷ js) = let rest = find_job jid js in if jid == j.jid then some j.pid else rest

-- The results -1, -2 and a process of `jid2pid`.
pub data Found : Type 0 where
  invalid : Found
  finished : Found
  found : ℕ → Found

abbrev pub as_found : Option ℕ → Found
as_found none = finished
as_found (some pid) = found pid

abbrev pub purge : (ℕ → Bool) → Shell → Shell
purge runs s = record s { jobs = remove_stopped_jobs runs s.jobs }

unfoldable pub jid2pid : (ℕ → Bool) → ℕ → Shell → Found × Shell
jid2pid runs jid s =
    if ltb s.max_jid jid
    then (invalid, s)
    else (as_found (find_job jid (purge runs s).jobs), purge runs s)

-- What a command does besides changing the shell: the jobs that it prints, the process that it waits
-- for, or the message.
pub data Effect : Type 0 where
  no_effect : Effect
  line_error : Effect
  lists : List Job → Effect
  invalid_jid : String → Effect
  terminated : ℕ → Option ℕ → Effect
  quits : Effect
  fork_error : Effect
  runs_job : ℕ → Bool → Effect

-- `++x` for an `unsigned long`
abbrev pub next_jid : ℕ → ℕ
next_jid x = (x + 1) % 2 ^ 64

-- `execute` in the shell; `forked` is the result of fork, `none` for -1.
unfoldable pub execute : Option ℕ → List String → Bool → Shell → Effect × Shell
execute none argv background s = (fork_error, s)
execute (some pid) argv background s = (
  runs_job pid background,
  record s {
    last_jid = next_jid s.last_jid;
    max_jid = next_jid s.max_jid;
    jobs = push s.jobs (record { jid = next_jid s.last_jid; pid = pid; argv = argv });
  },
)

-- The words "j", "myw" and "exit".
abbrev pub is_j : String → Bool
is_j (c ∷ []) = c == 106
is_j s = false

abbrev pub is_myw : String → Bool
is_myw (a ∷ b ∷ c ∷ []) = a == 109 && b == 121 && c == 119
is_myw s = false

abbrev pub is_exit : String → Bool
is_exit (a ∷ b ∷ c ∷ d ∷ []) = a == 101 && b == 120 && c == 105 && d == 116
is_exit s = false

-- The rest of "myw". `strtol` is a function of the C library: it gives the number, as an `unsigned long`, and whether all of the word
-- was read.
abbrev pub wait_for : String → ℕ × Bool → Found × Shell → Effect × Shell
wait_for word (jid, all) (invalid, s) = (invalid_jid word, s)
wait_for word (jid, all) (finished, s) =
    if all then (terminated jid none, s) else (invalid_jid word, s)
wait_for word (jid, all) (found pid, s) =
    if all then (terminated jid (some pid), s) else (invalid_jid word, s)

abbrev pub myw : (String → ℕ × Bool) → (ℕ → Bool) → String → Shell → Effect × Shell
myw strtol runs word s = wait_for word (strtol word) (jid2pid runs (strtol word).0 s)

-- A command of at least one word.
unfoldable pub run_words :
    (String → ℕ × Bool) → (ℕ → Bool) → Option ℕ → List String × Bool → Shell → Effect × Shell
run_words strtol runs forked ([], background) s = (no_effect, s)
run_words strtol runs forked (w ∷ [], background) s =
    if is_j w
    then (lists (remove_stopped_jobs runs s.jobs), purge runs s)
    else if is_exit w
    then (quits, s)
    else execute forked (w ∷ []) background s
run_words strtol runs forked (w ∷ v ∷ [], background) s =
    if is_myw w then myw strtol runs v s else execute forked (w ∷ v ∷ []) background s
run_words strtol runs forked (w ∷ v ∷ u ∷ ws, background) s =
    execute forked (w ∷ v ∷ u ∷ ws) background s

abbrev pub run_parsed :
    (String → ℕ × Bool)
    → (ℕ → Bool)
    → Option ℕ
    → Option (List String × Bool)
    → Shell
    → Effect × Shell
run_parsed strtol runs forked none s = (no_effect, s)
run_parsed strtol runs forked (some c) s = run_words strtol runs forked c s

-- One line of `readcommands`, given without its newline. With it, LSIZE bytes fit; a blank line has
-- no words.
unfoldable pub run_line :
    (String → ℕ × Bool) → (ℕ → Bool) → Option ℕ → String → Shell → Effect × Shell
run_line strtol runs forked line s =
    if leb 513 (length line)
    then (line_error, s)
    else run_parsed strtol runs forked (parse (line ++ (10 ∷ []))) s

-- `main` before its first line
abbrev pub first_shell : Shell
first_shell = record { jobs = []; max_jid = 0; last_jid = 0 }
