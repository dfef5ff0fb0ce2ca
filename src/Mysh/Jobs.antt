-- ===== src/Mysh/Jobs.antt =====
-- The job numbers of projects/p2/p2a/mysh.c, and what "myw" finds with them.
use cs537_fall.Prelude.{
  ℕ, suc, ◌+◌, ◌^◌, ◌≤◌, ◌<◌, ◌≡◌, ◌≢◌, refl, sym, ap, subst, ◌==◌, ltb, leb, Bool, true, false,
  Bool-cases, Option-cases, inl, inr, ◌⊎◌, ◌&&◌, Option, none, some, List, [], ◌∷◌, ◌++◌, All,
  length, arith,
}
use cs537_fall.Mysh.Words.{String, parse}
use cs537_fall.Mysh.Commands.{
  Job, Shell, remove_stopped_jobs, push, find_job, Found, invalid, finished, found, purge, jid2pid,
  next_jid, execute, is_j, is_myw, is_exit, wait_for, run_words, run_parsed, run_line, first_shell,
}

-- The numbers increase along the list, from above `low` to at most `high`.
abbrev pub IsIncreasing : ℕ → List Job → ℕ → Type 0
IsIncreasing low [] high = low ≤ high
IsIncreasing low (j ∷ js) high = (low < j.jid) × IsIncreasing j.jid js high

-- After `n` lines: the two counters agree, and the jobs have different numbers up to the counter, in
-- the order in which they started.
pub record IsNumbered (n : ℕ) (s : Shell) : Type 0 where
  pub started : s.last_jid ≤ n
  pub agree : s.max_jid ≡ s.last_jid
  pub increasing : IsIncreasing 0 s.jobs s.max_jid

lower-IsIncreasing :
    (a b high : ℕ) (js : List Job) → a ≤ b → IsIncreasing b js high → IsIncreasing a js high
lower-IsIncreasing a b high [] h i = omega arith
lower-IsIncreasing a b high (j ∷ js) h (first, rest) = (omega arith, rest)

remove-IsIncreasing :
    (runs : ℕ → Bool) (low high : ℕ) (js : List Job)
    → IsIncreasing low js high
    → IsIncreasing low (remove_stopped_jobs runs js) high
unfolding remove_stopped_jobs
remove-IsIncreasing runs low high [] i = i
remove-IsIncreasing runs low high (j ∷ js) (first, rest) = elim (Bool-cases (runs j.pid)) [
  | inl stays ↦ rw stays (first, remove-IsIncreasing runs j.jid high js rest)
  | inr stopped ↦ rw stopped (
      lower-IsIncreasing low j.jid high _ (omega arith)
        (remove-IsIncreasing runs j.jid high js rest))
]

push-IsIncreasing :
    (low high : ℕ) (js : List Job) (j : Job)
    → high < j.jid
    → IsIncreasing low js high
    → IsIncreasing low (push js j) j.jid
unfolding push
push-IsIncreasing low high [] j h i = (omega arith, omega arith)
push-IsIncreasing low high (k ∷ js) j h (first, rest) =
    (first, push-IsIncreasing k.jid high js j h rest)

-- One more line.
later-IsNumbered : {n : ℕ} {s : Shell} → IsNumbered n s → IsNumbered (suc n) s
later-IsNumbered v = record {
  started = omega (arith, v.started);
  agree = v.agree;
  increasing = v.increasing;
}

purge-IsNumbered :
    (runs : ℕ → Bool) {n : ℕ} (s : Shell) → IsNumbered n s → IsNumbered (suc n) (purge runs s)
purge-IsNumbered runs s v = record {
  started = omega (arith, v.started);
  agree = v.agree;
  increasing = remove-IsIncreasing runs 0 s.max_jid s.jobs v.increasing;
}

execute-IsNumbered :
    (forked : Option ℕ) (argv : List String) (background : Bool) (n : ℕ) (s : Shell)
    → n + 1 < 2 ^ 64
    → IsNumbered n s
    → IsNumbered (suc n) (execute forked argv background s).1
unfolding execute
execute-IsNumbered none argv background n s small v = later-IsNumbered v
execute-IsNumbered (some pid) argv background n s small v =
    let up : next_jid s.last_jid ≡ s.last_jid + 1 = omega (arith, v.started) in
    let same : next_jid s.max_jid ≡ next_jid s.last_jid = ap next_jid v.agree in
    record {
      started = omega (arith, v.started);
      agree = same;
      increasing =
          subst (IsIncreasing 0 _) (sym same)
            (push-IsIncreasing 0 s.max_jid s.jobs _ (omega (arith, v.agree, up)) v.increasing);
    }

jid2pid-IsNumbered :
    (runs : ℕ → Bool) (jid : ℕ) {n : ℕ} (s : Shell)
    → IsNumbered n s
    → IsNumbered (suc n) (jid2pid runs jid s).1
unfolding jid2pid
jid2pid-IsNumbered runs jid s v = elim (Bool-cases (ltb s.max_jid jid)) [
  | inl large ↦ rw large (later-IsNumbered v)
  | inr known ↦ rw known (purge-IsNumbered runs s v)
]

wait_for-shell : (word : String) (r : ℕ × Bool) (f : Found × Shell) → (wait_for word r f).1 ≡ f.1
wait_for-shell word (jid, all) (invalid, s) = refl
wait_for-shell word (jid, true) (finished, s) = refl
wait_for-shell word (jid, false) (finished, s) = refl
wait_for-shell word (jid, true) (found pid, s) = refl
wait_for-shell word (jid, false) (found pid, s) = refl

module _ (strtol : String → ℕ × Bool) (runs : ℕ → Bool) (forked : Option ℕ) where
  run_words-IsNumbered :
      (c : List String × Bool) (n : ℕ) (s : Shell)
      → n + 1 < 2 ^ 64
      → IsNumbered n s
      → IsNumbered (suc n) (run_words strtol runs forked c s).1
  unfolding run_words
  run_words-IsNumbered ([], background) n s small v = later-IsNumbered v
  run_words-IsNumbered (w ∷ [], background) n s small v = elim (Bool-cases (is_j w)) [
    | inl list ↦ rw list (purge-IsNumbered runs s v)
    | inr other ↦ elim (Bool-cases (is_exit w)) [
      | inl quit ↦ rw (other, quit) (later-IsNumbered v)
      | inr command ↦
          rw (other, command) (execute-IsNumbered forked (w ∷ []) background n s small v)
    ]
  ]
  run_words-IsNumbered (w ∷ u ∷ [], background) n s small v = elim (Bool-cases (is_myw w)) [
    | inl waits ↦
        rw (waits, wait_for-shell u (strtol u) (jid2pid runs (strtol u).0 s))
          (jid2pid-IsNumbered runs (strtol u).0 s v)
    | inr command ↦ rw command (execute-IsNumbered forked (w ∷ u ∷ []) background n s small v)
  ]
  run_words-IsNumbered (w ∷ u ∷ t ∷ ws, background) n s small v =
      execute-IsNumbered forked (w ∷ u ∷ t ∷ ws) background n s small v

  run_parsed-IsNumbered :
      (c : Option (List String × Bool)) (n : ℕ) (s : Shell)
      → n + 1 < 2 ^ 64
      → IsNumbered n s
      → IsNumbered (suc n) (run_parsed strtol runs forked c s).1
  run_parsed-IsNumbered none n s small v = later-IsNumbered v
  run_parsed-IsNumbered (some c) n s small v = run_words-IsNumbered c n s small v

-- The shell after `n` lines, with any answers of the system between them.
pub data Session : ℕ → Shell → Type 0 where
  opens : Session 0 first_shell
  reads :
      {n : ℕ} {s : Shell} (strtol : String → ℕ × Bool) (runs : ℕ → Bool) (forked : Option ℕ)
      (line : String)
      → Session n s
      → Session (suc n) (run_line strtol runs forked line s).1

-- In every session of fewer than 2^64 lines the counter of `execute` and the number in the head of
-- the job list agree, and the jobs of the list have increasing numbers, from 1 up to the counter.
pub Session-IsNumbered : {n : ℕ} {s : Shell} → n < 2 ^ 64 → Session n s → IsNumbered n s
unfolding run_line
Session-IsNumbered small opens = record {
  started = omega arith;
  agree = refl;
  increasing = omega arith;
}
Session-IsNumbered small (reads {n = n} {s = s} strtol runs forked line r) =
    let v = Session-IsNumbered (omega arith) r in
    elim (Bool-cases (leb 513 (length line))) [
      | inl long ↦ rw long (later-IsNumbered v)
      | inr fits ↦
          rw fits (
            run_parsed-IsNumbered strtol runs forked (parse (line ++ (10 ∷ []))) n s (omega arith)
              v)
    ]

-- `j` is one of the jobs.
abbrev pub IsIn : Job → List Job → Type 0
IsIn j [] = ⊥
IsIn j (k ∷ js) = (j ≡ k) ⊎ IsIn j js

-- No number on the list is above its bound.
All-IsIncreasing :
    (jid low high : ℕ) (js : List Job)
    → high < jid
    → IsIncreasing low js high
    → (low ≤ high) × All (λ j. j.jid ≢ jid) js
All-IsIncreasing jid low high [] h i = (i, tt)
All-IsIncreasing jid low high (k ∷ js) h (first, rest) =
    let (up, others) = All-IsIncreasing jid k.jid high js h rest in
    (omega arith, ((λ e. omega arith), others))

-- What `find_job` finds on the purged list is a job of the list that runs.
found_runs :
    (runs : ℕ → Bool) (jid : ℕ) (js : List Job) {pid : ℕ}
    → find_job jid (remove_stopped_jobs runs js) ≡ some pid
    → (j : Job) × IsIn j js × (j.jid ≡ jid) × (j.pid ≡ pid) × (runs pid ≡ true)
unfolding find_job remove_stopped_jobs
found_runs runs jid [] e = absurd (cc)
found_runs runs jid (k ∷ js) {pid} e = elim (Bool-cases (runs k.pid && jid == k.jid)) [
  | inl here ↦
      let same : k.pid ≡ pid = ground (arith, e) in
      (k, inl refl, ground arith, same, subst (λ (p : ℕ). runs p ≡ true) same (ground arith))
  | inr elsewhere ↦
      let (j, m, same, proc, up) =
        found_runs runs jid js {pid = pid} (ground (arith, e, elsewhere)) in
      (j, inr m, same, proc, up)
]

-- What it does not find has stopped.
missing_stopped :
    (runs : ℕ → Bool) (jid : ℕ) (js : List Job)
    → find_job jid (remove_stopped_jobs runs js) ≡ none
    → All (λ j. j.jid ≡ jid → runs j.pid ≡ false) js
unfolding find_job remove_stopped_jobs
missing_stopped runs jid [] e = tt
missing_stopped runs jid (k ∷ js) e =
    ((λ same. ground (arith, e, same)), missing_stopped runs jid js (ground (arith, e)))

-- The three results of `jid2pid`, for the jobs that the list held before.
abbrev pub Looked : (ℕ → Bool) → ℕ → Shell → Found → Type 0
Looked runs jid s invalid = (s.max_jid < jid) × All (λ j. j.jid ≢ jid) s.jobs
Looked runs jid s finished = (jid ≤ s.max_jid) × All (λ j. j.jid ≡ jid → runs j.pid ≡ false) s.jobs
Looked runs jid s (found pid) =
    (j : Job) × IsIn j s.jobs × (j.jid ≡ jid) × (j.pid ≡ pid) × (runs pid ≡ true)

-- At any point of a session of fewer than 2^64 lines, `jid2pid` finds the process of a job of the
-- list with this number that runs; it says that the job has finished only if the number is at most
-- `max_jid`, the last number that was given, and no job of the list with this number runs; and that the
-- number is invalid only if it is above `max_jid` and no job of the list has it.
pub jid2pid-Looked :
    {n : ℕ} {s : Shell} (runs : ℕ → Bool) (jid : ℕ)
    → n < 2 ^ 64
    → Session n s
    → Looked runs jid s (jid2pid runs jid s).0
unfolding jid2pid
jid2pid-Looked {s = s} runs jid small session = elim (Bool-cases (ltb s.max_jid jid)) [
  | inl large ↦ rw large (
    ground arith,
    (All-IsIncreasing jid 0 s.max_jid s.jobs (ground arith)
        (Session-IsNumbered small session).increasing).1,
  )
  | inr known ↦ elim (Option-cases (find_job jid (remove_stopped_jobs runs s.jobs))) [
    | inl missing ↦ rw (known, missing) (ground arith, missing_stopped runs jid s.jobs missing)
    | inr (pid, hit) ↦ rw (known, hit) (found_runs runs jid s.jobs hit)
  ]
]
