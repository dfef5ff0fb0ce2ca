-- ===== src/Mlfq/Tests.antt =====
-- Tests of the scheduler model on small tables, and the theorems at concrete inputs.
use cs537_fall.Prelude.{ℕ, zero, suc, ◌<◌, ◌≡◌, ◌≢◌, refl, some, [], arith}
use cs537_fall.Prelude.Arrays.{update}
use cs537_fall.Prelude.Loops.{first_below}
use cs537_fall.Mlfq.State.{nproc, runnable, running, sleeping, slot, Proc, Kernel, done, panic}
use cs537_fall.Mlfq.Calls.{allocproc, userinit, show_child, fork, wakeup}
use cs537_fall.Mlfq.Scheduler.{dispatch, pass_start}
use cs537_fall.Mlfq.Boost.{Pstat, getpinfo}
use cs537_fall.Mlfq.Census.{IsValid}
use cs537_fall.Mlfq.Steps.{zero_proc, boot, Reach, boots, next, starts_up, Reach-IsValid}
use cs537_fall.Mlfq.Pass.{Finds, pass-Finds}
use cs537_fall.Mlfq.Report.{IsReported, getpinfo-IsReported}
use cs537_fall.Mlfq.Effects.{woken, wakeup-woken}

-- The table after the first process has been set up.
abbrev started : Kernel
started = elim (userinit 4096 8192 1 [] boot) [ done k ↦ k | panic ↦ boot ]

started_by : userinit 4096 8192 1 [] boot ≡ done started
unfolding userinit allocproc first_below
started_by = refl

started-Reach : Reach 0 started
started-Reach = next boots (starts_up 4096 8192 1 [] started_by)

started_ready : (started.procs 0).state ≡ runnable
unfolding userinit allocproc first_below
started_ready = refl

-- The first process runs, and its child is RUNNABLE and not counted.
abbrev child_shown : Kernel
child_shown = (show_child 8192 0 (allocproc 4096 (dispatch 0 started))).1

-- One of the two processes of level 0 is counted.
child_shown_count : child_shown.ninlevel 0 ≡ 1
unfolding userinit allocproc first_below dispatch
child_shown_count = refl

started-IsValid : IsValid started
started-IsValid = Reach-IsValid started-Reach

started-NoneRuns : (j : ℕ) → j < nproc → (started.procs j).state ≢ running
unfolding userinit allocproc first_below
started-NoneRuns zero h = ground arith
started-NoneRuns (suc j) h = ground arith

pass-Finds_example : Finds 130 started pass_start
pass-Finds_example =
    pass-Finds started 0 started-IsValid started-NoneRuns (omega arith) started_ready

-- Slot 0 runs at level 0 on another processor; slot 1 is ready at level 1.
abbrev busy_proc : Proc
busy_proc = record zero_proc { state = running; pid = 1 }

abbrev lower_proc : Proc
lower_proc = record zero_proc { state = runnable; pid = 2; level = 1 }

abbrev hogged : Kernel
hogged = record boot {
  procs = update (update (λ _. zero_proc) 0 busy_proc) 1 lower_proc;
  ninlevel = update (update (λ _. 0) 0 1) 1 1;
  nextpid = 3;
}

abbrev blank : Pstat
blank = record { inuse = λ _. 7; pid = λ _. 7; priority = λ _. 7; state = λ _. 7; ticks = λ _ _. 7 }

getpinfo-IsReported_example : IsReported hogged 1 blank (getpinfo hogged blank)
getpinfo-IsReported_example = getpinfo-IsReported hogged blank 1 (omega arith)

-- The child gets the next pid.
fork_pid : (fork 4096 8192 0 hogged).0 ≡ some 3
unfolding fork allocproc first_below
fork_pid = refl

abbrev dozing : Kernel
dozing = record boot {
  procs = update (λ _. zero_proc) 2 (record zero_proc { state = sleeping; chan = slot 5; pid = 9 });
}

wakeup-woken_example : (wakeup (slot 5) dozing).procs 2 ≡ woken (slot 5) (dozing.procs 2)
wakeup-woken_example = wakeup-woken (slot 5) dozing 2 (omega arith)
