-- ===== src/Mlfq/Scheduler.antt =====
-- `scheduler` of projects/p2/p2b/xv6/xv6/kernel/proc.c. The two nested loops are a cursor and a
-- step: what the loops do between two tests of `p->state`. A step that reaches `swtch` says which
-- slot runs, and where the loops go on when that process gives the processor back.
use cs537_fall.Prelude.{ℕ, zero, suc, ◌+◌, ◌%◌, ◌==◌, leb, if◌then◌else◌, Bool, not, ◌&&◌}
use cs537_fall.Prelude.Arrays.{update}
use cs537_fall.Mlfq.State.{
  nproc, nlayer, running, Proc, Kernel, is_runnable, put, enter_level, leave_level,
}

-- mlpq_timeticks: { 5, 5, 10, 20 }
abbrev pub mlpq_timeticks : ℕ → ℕ
mlpq_timeticks zero = 5
mlpq_timeticks (suc zero) = 5
mlpq_timeticks (suc (suc zero)) = 10
mlpq_timeticks _ = 20

-- `while (highestlevel < NLAYER-1 && ninlevel[highestlevel] == 0) highestlevel++`, with `rounds`
-- the distance to NLAYER-1.
unfoldable pub highest_from : ℕ → ℕ → (ℕ → ℕ) → ℕ
highest_from zero h nin = h
highest_from (suc rounds) h nin =
    let rest = highest_from rounds (h + 1) nin in if nin h == 0 then rest else h

unfoldable pub highest_level : Kernel → ℕ
unfolding highest_from
highest_level k = highest_from 3 0 k.ninlevel

-- The loops' variables: the level `ii` and the slot `p`.
pub record Cursor : Type 0 where
  pub ii : ℕ
  pub pi : ℕ

-- The ticks after `++(p->timeticks[p->level])`, and whether they use the slice up.
abbrev pub next_ticks : Proc → ℕ
next_ticks p = p.timeticks p.level + 1

abbrev pub used_up : Proc → Bool
used_up p = next_ticks p % mlpq_timeticks p.level == 0

-- RUNNING, with one more tick at its level.
abbrev pub ticked : Proc → Proc
ticked p = record p { state = running; timeticks = update p.timeticks p.level (next_ticks p) }

-- A slice that is used up lowers the priority, except at the last level.
unfoldable pub dispatch : ℕ → Kernel → Kernel
dispatch i k =
    let p = k.procs i in
    if used_up p && not (p.level == 3)
    then enter_level (p.level + 1) (
        put i (record (ticked p) { level = p.level + 1 })
          (leave_level p.level (put i (ticked p) k)))
    else put i (ticked p) k

-- Where the loops go on after slot `c.pi` has run: `p--` and `p++` look at it again.
abbrev pub resume : Kernel → Cursor → Cursor
resume k c = if used_up (k.procs c.pi) then record c { pi = c.pi + 1 } else c

pub data Turn : Type 0 where
  goes_on : Cursor → Turn
  restarts : Turn
  runs : ℕ → Kernel → Cursor → Turn

-- One test of the loops. `restarts` is the end of the pass: the lock is released and taken again.
-- `p--` before `swtch` looks at the same slot again; `ii = highestlevel-1; break` starts the row
-- `highestlevel`.
unfoldable pub sched_step : Kernel → Cursor → Turn
sched_step k c =
    if leb nlayer c.ii
    then restarts
    else if leb nproc c.pi
    then goes_on (record { ii = c.ii + 1; pi = 0 })
    else if not (is_runnable (k.procs c.pi).state)
    then goes_on (record c { pi = c.pi + 1 })
    else if not (c.ii == highest_level k)
    then goes_on (record { ii = highest_level k; pi = 0 })
    else if not ((k.procs c.pi).level == c.ii)
    then goes_on (record c { pi = c.pi + 1 })
    else runs c.pi (dispatch c.pi k) (resume k c)

abbrev pub pass_start : Cursor
pass_start = record { ii = 0; pi = 0 }

-- One pass under the lock, for at most `fuel` tests: it reaches a `swtch`, or the end of the loops,
-- or it still goes on. Nothing else changes the table, since the lock is held.
unfoldable pub sched_pass : ℕ → Kernel → Cursor → Turn
sched_pass zero k c = goes_on c
sched_pass (suc fuel) k c = elim (sched_step k c) [
  | goes_on c' ↦ sched_pass fuel k c'
  | restarts ↦ restarts
  | runs i k' c' ↦ runs i k' c'
]
