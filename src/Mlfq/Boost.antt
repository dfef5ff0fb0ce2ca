-- ===== src/Mlfq/Boost.antt =====
-- `check_starve_and_boost` of projects/p2/p2b/xv6/xv6/kernel/proc.c, its caller in kernel/trap.c,
-- and `getpinfo`, which reports the table to user programs.
use cs537_fall.Prelude.{ℕ, ◌+◌, ◌-◌, ◌==◌, if◌then◌else◌, Bool, ◌&&◌, not}
use cs537_fall.Prelude.Arrays.{update}
use cs537_fall.Prelude.Loops.{for_below}
use cs537_fall.Mlfq.State.{
  nproc, nlayer, ProcState, unused, embryo, sleeping, runnable, running, zombie, Proc, Kernel,
  is_runnable, put, enter_level, leave_level,
}
use cs537_fall.Mlfq.Calls.{yield}
use cs537_fall.Mlfq.Scheduler.{mlpq_timeticks}

-- Same level and same ticks as in the snapshot, above the lowest number.
abbrev pub is_starved : ℕ → Kernel → Bool
is_starved i k =
    not ((k.procs i).level == 0)
    && ((k.procs i).level == k.last_level i
        && (k.procs i).timeticks (k.procs i).level == k.last_timeticks i (k.procs i).level)

-- Up one level, with that level's tick counter set to its slice.
abbrev pub boosted : Proc → Proc
boosted p = record p {
  level = p.level - 1;
  timeticks = update p.timeticks (p.level - 1) (mlpq_timeticks (p.level - 1));
}

-- `laststate` takes level and ticks of slot `i`.
abbrev pub snapshot : ℕ → Kernel → Kernel
snapshot i k = record k {
  last_level = update k.last_level i (k.procs i).level;
  last_timeticks =
      update k.last_timeticks i
        (update (k.last_timeticks i) (k.procs i).level ((k.procs i).timeticks (k.procs i).level));
}

-- The body of the loop.
unfoldable pub boost_slot : ℕ → Kernel → Kernel
boost_slot i k =
    if is_runnable (k.procs i).state
    then snapshot i (
        if is_starved i k
        then enter_level ((k.procs i).level - 1)
            (put i (boosted (k.procs i)) (leave_level (k.procs i).level k))
        else k)
    else k

unfoldable pub check_starve_and_boost : Kernel → Kernel
check_starve_and_boost k = for_below nproc boost_slot k

-- The timer part of `trap`, for the process in slot `cur`: every hundredth tick looks for starving
-- processes; each tick makes the process yield. The lock is given
-- back between the two.
unfoldable pub timer_tick : ℕ → ℕ → Kernel → ℕ × Kernel
timer_tick cur starve_clock k =
    if starve_clock + 1 == 100
    then (0, yield cur (check_starve_and_boost k))
    else (starve_clock + 1, yield cur k)

-- the value of an enumerator of `enum procstate`
abbrev pub state_code : ProcState → ℕ
state_code unused = 0
state_code embryo = 1
state_code sleeping = 2
state_code runnable = 3
state_code running = 4
state_code zombie = 5

-- struct pstat of include/pstat.h
pub record Pstat : Type 0 where
  pub inuse : ℕ → ℕ
  pub pid : ℕ → ℕ
  pub priority : ℕ → ℕ
  pub state : ℕ → ℕ
  pub ticks : ℕ → ℕ → ℕ

-- The body of the loop of `getpinfo`; its inner loop copies the ticks of all levels.
unfoldable pub report_slot : Kernel → ℕ → Pstat → Pstat
report_slot k i st =
    let p = k.procs i in
    let used = record st { inuse = update st.inuse i (state_code p.state) } in
    if state_code p.state == 0 then used else record used {
      pid = update st.pid i p.pid;
      priority = update st.priority i p.level;
      state = update st.state i (state_code p.state);
      ticks =
          update st.ticks i (for_below nlayer (λ l row. update row l (p.timeticks l)) (st.ticks i));
    }

unfoldable pub getpinfo : Kernel → Pstat → Pstat
getpinfo k st = for_below nproc (report_slot k) st
