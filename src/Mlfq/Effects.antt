-- ===== src/Mlfq/Effects.antt =====
-- What `fork`, `wakeup` and a time slice of projects/p2/p2b/xv6/xv6/kernel/proc.c do to the slots of
-- the table.
use cs537_fall.Prelude.{
  ℕ, zero, suc, ◌-◌, ◌<◌, ◌≡◌, ◌≢◌, ◌==◌, ltb, if◌then◌else◌, ◌&&◌, Bool-cases, inl, inr, Option,
  none, some, arith,
}
use cs537_fall.Prelude.Loops.{for_below_at}
use cs537_fall.Mlfq.State.{
  nproc, unused, runnable, running, Chan, Proc, Kernel, is_sleeping, chan_eq,
}
use cs537_fall.Mlfq.Calls.{allocproc, fork, fork_from, wake_slot, wakeup1, wakeup, yield}
use cs537_fall.Mlfq.Birth.{IsRefused, Allocated, allocproc-Allocated, PidsBelow, fork-PidsBelow}
use cs537_fall.Mlfq.Scheduler.{dispatch}

-- A slot after `wakeup c`: ready, if it slept on `c`.
abbrev pub woken : Chan → Proc → Proc
woken c p = if is_sleeping p.state && chan_eq p.chan c then record p { state = runnable } else p

wake_slot_other : (c : Chan) (i j : ℕ) (k : Kernel) → j ≢ i → (wake_slot c j k).procs i ≡ k.procs i
unfolding wake_slot
wake_slot_other c i j k n = ground arith

wake_slot_own : (c : Chan) (i : ℕ) (k : Kernel) → (wake_slot c i k).procs i ≡ woken c (k.procs i)
unfolding wake_slot
wake_slot_own c i k = ground arith

-- `wakeup c` makes every process that sleeps on `c` ready, and changes no other slot.
pub wakeup-woken :
    (c : Chan) (k : Kernel) (i : ℕ) → i < nproc → (wakeup c k).procs i ≡ woken c (k.procs i)
unfolding wakeup wakeup1
wakeup-woken c k i h =
    for_below_at (λ i (k : Kernel). k.procs i) (λ i. woken c) (wake_slot c) (wake_slot_other c)
      (wake_slot_own c) nproc i k h

-- A process that runs for a time slice and is preempted, `n` times in a row.
unfoldable pub run_alone : ℕ → ℕ → Kernel → Kernel
run_alone zero i k = k
run_alone (suc n) i k = yield i (dispatch i (run_alone n i k))

-- The level of a new process that has had `n` ticks: 5 ticks at level 0, 5 at level 1, 10 at level
-- 2, and level 3 from then on.
abbrev pub level_after : ℕ → ℕ
level_after n = if ltb n 5 then 0 else if ltb n 10 then 1 else if ltb n 20 then 2 else 3

-- The counters of a process that has had `n` ticks since it was new.
record HasRun (n : ℕ) (p : Proc) : Type 0 where
  level : p.level ≡ level_after n
  ticks :
      p.timeticks p.level
      ≡ (if ltb n 5 then n else if ltb n 10 then n - 5 else if ltb n 20 then n - 10 else n - 20)
  fresh : (l : ℕ) → p.level < l → p.timeticks l ≡ 0

-- What `fork` leaves when it succeeds with the child in slot `i`.
pub record IsForked (cur : ℕ) (k : Kernel) (pid i : ℕ) (k' : Kernel) : Type 0 where
  pub in_range : i < nproc
  pub was_free : (k.procs i).state ≡ unused
  pub ready : (k'.procs i).state ≡ runnable
  pub child_of : (k'.procs i).parent ≡ some cur
  pub child_pid : (k'.procs i).pid ≡ pid
  pub new_pid : pid ≡ k.nextpid
  pub unique_pid : (j : ℕ) → j ≢ i → (k'.procs j).pid ≢ pid
  pub at_top : (k'.procs i).level ≡ 0
  pub returns_zero : (k'.procs i).tf.eax ≡ 0
  pub same_size : (k'.procs i).sz ≡ (k.procs cur).sz
  pub others : (j : ℕ) → j ≢ i → k'.procs j ≡ k.procs j

abbrev pub Forked : ℕ → Kernel → Option ℕ × Kernel → Type 0
Forked cur k (none, k') = IsRefused k k'
Forked cur k (some pid, k') = (i : ℕ) × IsForked cur k pid i k'

fork_from-Forked :
    (pgdir cur : ℕ) (k : Kernel) (r : Option ℕ × Kernel)
    → (k.procs cur).state ≡ running
    → PidsBelow k
    → Allocated k r
    → Forked cur k (fork_from pgdir cur r)
fork_from-Forked pgdir cur k (none, k') run low b = b
fork_from-Forked pgdir cur k (some i, k') run low b = elim (Bool-cases (pgdir == 0)) [
  | inl null ↦
      rw null (record { same_state = λ j. ground (arith, b.others j, b.was_free, b.is_embryo) })
  | inr mapped ↦ rw mapped (
    i,
    record {
      in_range = b.in_range;
      was_free = b.was_free;
      ready = ground arith;
      child_of = ground arith;
      child_pid = ground arith;
      new_pid = b.new_pid;
      unique_pid = λ j n e. ground (arith, b.others j n, b.new_pid, low j, e);
      at_top = ground (arith, b.at_top);
      returns_zero = ground arith;
      same_size = ground (arith, b.others cur, b.was_free);
      others = λ j n. ground (arith, b.others j n);
    },
  )
]

pub fork-Forked :
    (kstack pgdir cur : ℕ) (k : Kernel)
    → (k.procs cur).state ≡ running
    → PidsBelow k
    → Forked cur k (fork kstack pgdir cur k) × PidsBelow (fork kstack pgdir cur k).1
unfolding fork
fork-Forked kstack pgdir cur k run low = (
  fork_from-Forked pgdir cur k (allocproc kstack k) run low (allocproc-Allocated kstack k),
  fork-PidsBelow kstack pgdir cur k low,
)
