-- ===== src/Mlfq/Steps.antt =====
-- Histories of the kernel of projects/p2/p2b/xv6/xv6/kernel/proc.c: the calls in any order, by any
-- processes that run. A step is what is done under `ptable.lock`, but for those of `fork`: its child becomes
-- RUNNABLE without the lock, and `ninlevel[0]++` is a step of its own, before which anything may happen.
-- That one increment is taken to be indivisible, as it is on one processor: the Makefile sets CPUS := 1.
use cs537_fall.Prelude.{ℕ, ◌<◌, ◌≡◌, refl, subst, suc, Option, some, none, false, List, [], arith}
use cs537_fall.Prelude.Tally.{tally-zero}
use cs537_fall.Mlfq.State.{
  nproc, unused, embryo, running, Chan, null, TrapFrame, Proc, Kernel, Outcome, done, weight,
}
use cs537_fall.Mlfq.Calls.{
  allocproc, userinit, show_child, count_child, yield, exit, wait, Waited, reaped, no_child, asleep,
  sleep, sleep_tidy, wakeup, kill,
}
use cs537_fall.Mlfq.Scheduler.{Cursor, runs, sched_step}
use cs537_fall.Mlfq.Boost.{check_starve_and_boost}
use cs537_fall.Mlfq.Census.{IsBalanced, IsValid, IsBalanced-IsValid, count-IsBalanced}
use cs537_fall.Mlfq.Birth.{allocproc-IsBalanced, Shown, show_child-Shown, Keeps, userinit-Keeps}
use cs537_fall.Mlfq.Keeps.{
  wakeup1-IsBalanced, kill-IsBalanced, exit-Keeps, WaitKeeps, wait-WaitKeeps, sleep-IsBalanced,
  sleep_tidy-IsBalanced, yield-IsBalanced,
}
use cs537_fall.Mlfq.Tidy.{
  IsTidy, TidyIfDone, WaitTidy, allocproc-IsTidy, userinit-IsTidy, show_child-IsTidy,
  wakeup1-IsTidy, exit-IsTidy, sleep-IsTidy, sleep_tidy-IsTidy, yield-IsTidy, wait-IsTidy,
  kill-IsTidy, dispatch-IsTidy, check_starve_and_boost-IsTidy,
}
use cs537_fall.Mlfq.Demote.{dispatch-IsBalanced, check_starve_and_boost-IsBalanced}
use cs537_fall.Mlfq.Priority.{sched_step-IsRun}

-- The zeroed memory that the kernel starts with; `nextpid` starts at 1.
abbrev pub zero_frame : TrapFrame
zero_frame = record { eax = 0; cs = 0; ds = 0; es = 0; ss = 0; eflags = 0; esp = 0; eip = 0 }

abbrev pub zero_proc : Proc
zero_proc = record {
  sz = 0;
  pgdir = 0;
  kstack = 0;
  state = unused;
  pid = 0;
  parent = none;
  tf = zero_frame;
  chan = null;
  killed = false;
  ofile = [];
  cwd = 0;
  name = [];
  level = 0;
  timeticks = λ _. 0;
}

abbrev pub boot : Kernel
boot = record {
  procs = λ _. zero_proc;
  ninlevel = λ _. 0;
  nextpid = 1;
  initproc = none;
  last_level = λ _. 0;
  last_timeticks = λ _ _. 0;
}

abbrev pub after_wait : Waited → Kernel
after_wait (reaped pid k) = k
after_wait (no_child k) = k
after_wait (asleep k) = k

-- The process in slot `cur` runs.
abbrev pub Runs : Kernel → ℕ → Type 0
Runs k cur = (cur < nproc) × ((k.procs cur).state ≡ running)

-- One step of a call; the number is that of the children that are RUNNABLE and that `fork` has not counted
-- yet. A call of a process is made while that process runs; interrupts, `wakeup`, `kill`
-- and the scheduler come at any time. Between its steps
-- `fork` leaves the child as an EMBRYO; a step may take any EMBRYO.
pub data Step : ℕ → Kernel → ℕ → Kernel → Type 0 where
  starts_up :
      {n : ℕ} {k k' : Kernel} (kstack pgdir cwd : ℕ) (name : List ℕ)
      → userinit kstack pgdir cwd name k ≡ done k'
      → Step n k n k'
  -- `fork` calls `allocproc`, which takes the lock
  allocates : {n : ℕ} {k : Kernel} (kstack cur : ℕ) → Runs k cur → Step n k n (allocproc kstack k).1
  fails_to_copy :
      {n : ℕ} {k k' : Kernel} (pgdir cur i : ℕ)
      → Runs k cur
      → i < nproc
      → (k.procs i).state ≡ embryo
      → show_child pgdir cur (some i, k) ≡ (none, k')
      → Step n k n k'
  shows_child :
      {n pid : ℕ} {k k' : Kernel} (pgdir cur i : ℕ)
      → Runs k cur
      → i < nproc
      → (k.procs i).state ≡ embryo
      → show_child pgdir cur (some i, k) ≡ (some pid, k')
      → Step n k (suc n) k'
  counts_child : {n : ℕ} {k : Kernel} (pid : ℕ) → Step (suc n) k n (count_child (some pid, k)).1
  exits : {n : ℕ} {k k' : Kernel} (cur : ℕ) → Runs k cur → exit cur k ≡ done k' → Step n k n k'
  waits : {n : ℕ} {k : Kernel} (cur : ℕ) → Runs k cur → Step n k n (after_wait (wait cur k))
  sleeps : {n : ℕ} {k : Kernel} (c : Chan) (cur : ℕ) → Runs k cur → Step n k n (sleep c cur k)
  tidies : {n : ℕ} {k : Kernel} (cur : ℕ) → Runs k cur → Step n k n (sleep_tidy cur k)
  -- the two halves of `timer_tick`, which take the lock one after the other
  checks : {n : ℕ} {k : Kernel} → Step n k n (check_starve_and_boost k)
  yields : {n : ℕ} {k : Kernel} (cur : ℕ) → Runs k cur → Step n k n (yield cur k)
  wakes : {n : ℕ} {k : Kernel} (c : Chan) → Step n k n (wakeup c k)
  kills : {n : ℕ} {k : Kernel} (pid : ℕ) → Step n k n (kill pid k).1
  schedules :
      {n : ℕ} {k k' : Kernel} (c : Cursor) {i : ℕ} {c' : Cursor}
      → sched_step k c ≡ runs i k' c'
      → Step n k n k'

pub data Reach : ℕ → Kernel → Type 0 where
  boots : Reach 0 boot
  next : {n n' : ℕ} {k k' : Kernel} → Reach n k → Step n k n' k' → Reach n' k'

Keeps-done : {n : ℕ} (o : Outcome Kernel) {k : Kernel} → o ≡ done k → Keeps n o → IsBalanced n k
Keeps-done {n} o e h = subst (Keeps n) e h

after_wait-IsBalanced : {n : ℕ} (w : Waited) → WaitKeeps n w → IsBalanced n (after_wait w)
after_wait-IsBalanced (reaped pid k) v = v
after_wait-IsBalanced (no_child k) v = v
after_wait-IsBalanced (asleep k) v = v

TidyIfDone-done : (o : Outcome Kernel) {k : Kernel} → o ≡ done k → TidyIfDone o → IsTidy k
TidyIfDone-done o e h = subst TidyIfDone e h

after_wait-IsTidy : (w : Waited) → WaitTidy w → IsTidy (after_wait w)
after_wait-IsTidy (reaped pid k) h = h
after_wait-IsTidy (no_child k) h = h
after_wait-IsTidy (asleep k) h = h

Step-IsTidy : {n n' : ℕ} {k k' : Kernel} → Step n k n' k' → IsTidy k → IsTidy k'
unfolding wakeup
Step-IsTidy (starts_up {k = k} kstack pgdir cwd name e) h =
    TidyIfDone-done _ e (userinit-IsTidy kstack pgdir cwd name k h)
Step-IsTidy (allocates {k = k} kstack cur r) h = allocproc-IsTidy kstack k h
Step-IsTidy (fails_to_copy {k = k} pgdir cur i r hi filled e) h =
    subst (λ (o : Option ℕ × Kernel). IsTidy o.1) e (show_child-IsTidy pgdir cur (some i, k) h)
Step-IsTidy (shows_child {k = k} pgdir cur i r hi filled e) h =
    subst (λ (o : Option ℕ × Kernel). IsTidy o.1) e (show_child-IsTidy pgdir cur (some i, k) h)
Step-IsTidy (counts_child pid) h = h
Step-IsTidy (exits {k = k} cur r e) h = TidyIfDone-done _ e (exit-IsTidy cur k h)
Step-IsTidy (waits {k = k} cur r) h = after_wait-IsTidy _ (wait-IsTidy cur k h)
Step-IsTidy (sleeps {k = k} c cur r) h = sleep-IsTidy c cur k h
Step-IsTidy (tidies {k = k} cur r) h = sleep_tidy-IsTidy cur k h
Step-IsTidy (checks {k = k}) h = check_starve_and_boost-IsTidy k h
Step-IsTidy (yields {k = k} cur r) h = yield-IsTidy cur k h
Step-IsTidy (wakes {k = k} c) h = wakeup1-IsTidy c k h
Step-IsTidy (kills {k = k} pid) h = kill-IsTidy pid k h
Step-IsTidy (schedules {k = k} c e) h = rw (sched_step-IsRun k c e).result (dispatch-IsTidy _ k h)

-- In every state that the kernel can reach the pids are below `nextpid`, and an EMBRYO is at level 0.
pub Reach-IsTidy : {n : ℕ} {k : Kernel} → Reach n k → IsTidy k
Reach-IsTidy boots = λ j. record { below = omega arith; at_top = λ e. refl }
Reach-IsTidy (next r s) = Step-IsTidy s (Reach-IsTidy r)

-- Every step keeps the balance.
pub Step-IsBalanced :
    {n n' : ℕ} {k k' : Kernel} → Step n k n' k' → IsTidy k → IsBalanced n k → IsBalanced n' k'
unfolding wakeup
Step-IsBalanced (starts_up {k = k} kstack pgdir cwd name e) h v =
    Keeps-done _ e (userinit-Keeps kstack pgdir cwd name k v)
Step-IsBalanced (allocates {k = k} kstack cur r) h v = allocproc-IsBalanced kstack k v
Step-IsBalanced (fails_to_copy {n = n} {k = k} pgdir cur i r hi filled e) h v =
    subst (Shown n) e (show_child-Shown pgdir cur i k hi filled ((h i).at_top filled) v)
Step-IsBalanced (shows_child {n = n} {k = k} pgdir cur i r hi filled e) h v =
    subst (Shown n) e (show_child-Shown pgdir cur i k hi filled ((h i).at_top filled) v)
Step-IsBalanced (counts_child {k = k} pid) h v = count-IsBalanced k v
Step-IsBalanced (exits {k = k} cur r e) h v = Keeps-done _ e (exit-Keeps cur k r.0 r.1 v)
Step-IsBalanced (waits {k = k} cur r) h v = after_wait-IsBalanced _ (wait-WaitKeeps cur k r.0 r.1 v)
Step-IsBalanced (sleeps {k = k} c cur r) h v = sleep-IsBalanced c cur k r.0 r.1 v
Step-IsBalanced (tidies {k = k} cur r) h v = sleep_tidy-IsBalanced cur k r.0 v
Step-IsBalanced (checks {k = k}) h v = check_starve_and_boost-IsBalanced k v
Step-IsBalanced (yields {k = k} cur r) h v = yield-IsBalanced cur k r.0 r.1 v
Step-IsBalanced (wakes {k = k} c) h v = wakeup1-IsBalanced c k v
Step-IsBalanced (kills {k = k} pid) h v = kill-IsBalanced pid k v
Step-IsBalanced (schedules {k = k} c e) h v =
    let r = sched_step-IsRun k c e in rw r.result (dispatch-IsBalanced _ k r.in_range r.ready v)

pub boot-IsBalanced : IsBalanced 0 boot
boot-IsBalanced = record {
  levels = λ i. omega arith;
  fits = λ l. omega arith;
  counts = λ l h. ground (arith, tally-zero (weight l) zero_proc refl nproc);
}

pub Reach-IsBalanced : {owed : ℕ} {k : Kernel} → Reach owed k → IsBalanced owed k
Reach-IsBalanced boots = boot-IsBalanced
Reach-IsBalanced (next r s) = Step-IsBalanced s (Reach-IsTidy r) (Reach-IsBalanced r)

-- Where no such child is there, `ninlevel` is exact.
pub Reach-IsValid : {k : Kernel} → Reach 0 k → IsValid k
Reach-IsValid r = IsBalanced-IsValid _ (Reach-IsBalanced r)
