-- ===== src/Mlfq/Calls.antt =====
-- The calls of projects/p2/p2b/xv6/xv6/kernel/proc.c that change the state of a process. `cur` is
-- the slot of the process that runs on this processor (`proc`). What kalloc, copyuvm, setupkvm and
-- namei return is an argument. A call is what it does when no other comes in between: it holds `ptable.lock`
-- while it uses the slots of others and `ninlevel`, but for `fork`, whose steps are `allocproc`, `show_child`
-- and `count_child`, and for `userinit`, which `main` calls before there is a process to switch to.
use cs537_fall.Prelude.{
  ℕ, zero, suc, ◌+◌, ◌==◌, if◌then◌else◌, Bool, true, false, ◌&&◌, ◌||◌, not, Option, none, some,
  List, [], ◌∷◌, map,
}
use cs537_fall.Prelude.Loops.{for_below, first_below}
use cs537_fall.Mlfq.State.{
  nproc, pgsize, unused, embryo, sleeping, runnable, zombie, Chan, null, slot, TrapFrame, Proc,
  Kernel, Outcome, done, panic, is_unused, is_sleeping, is_zombie, chan_eq, is_parent, chan_of, put,
  enter_level, leave_level,
}

-- What `allocproc` writes into a free slot: EMBRYO, a new pid, level 0, no ticks at any level.
abbrev pub fresh_proc : Proc → ℕ → Proc
fresh_proc p pid = record p { state = embryo; pid = pid; level = 0; timeticks = λ _. 0 }

-- `kstack` is what kalloc returns. Without a stack the slot is given back, and the pid is spent.
unfoldable pub allocproc : ℕ → Kernel → Option ℕ × Kernel
allocproc kstack k = elim (first_below nproc (λ i. is_unused (k.procs i).state)) [
  | none ↦ (none, k)
  | some i ↦
      let p = fresh_proc (k.procs i) k.nextpid in
      let k' = record (put i p k) { nextpid = k.nextpid + 1 } in
      if kstack == 0
      then (none, put i (record p { kstack = 0; state = unused }) k')
      else (some i, put i (record p { kstack = kstack }) k')
]

-- The frame of the first process: SEG_UCODE is 4, SEG_UDATA is 5, DPL_USER is 3, FL_IF is 0x200.
abbrev pub init_frame : TrapFrame
init_frame = record {
  eax = 0;
  cs = 35;
  ds = 43;
  es = 43;
  ss = 43;
  eflags = 0x200;
  esp = pgsize;
  eip = 0;
}

-- The first process; `name` is "initcode". A failing `allocproc` is a null dereference.
abbrev pub init_proc : ℕ → ℕ → List ℕ → Proc → Proc
init_proc pgdir cwd name p = record p {
  pgdir = pgdir;
  sz = pgsize;
  tf = init_frame;
  name = name;
  cwd = cwd;
  state = runnable;
}

-- `userinit` after its call of `allocproc`.
abbrev pub userinit_from : ℕ → ℕ → List ℕ → Option ℕ × Kernel → Outcome Kernel
userinit_from pgdir cwd name (none, k) = panic
userinit_from pgdir cwd name (some i, k) =
    let p = k.procs i in
    if pgdir == 0
    then panic
    else done
        (enter_level p.level (put i (init_proc pgdir cwd name p) (record k { initproc = some i })))

unfoldable pub userinit : ℕ → ℕ → ℕ → List ℕ → Kernel → Outcome Kernel
userinit kstack pgdir cwd name k = userinit_from pgdir cwd name (allocproc kstack k)

-- A slot of `np->ofile` is written where the parent's file is open.
abbrev pub copy_files : List ℕ → List ℕ → List ℕ
copy_files (f ∷ fs) (g ∷ gs) = (if f == 0 then g else f) ∷ copy_files fs gs
copy_files _ gs = gs

-- The child's slot as `fork` leaves it. filedup and idup return their argument.
abbrev pub child_proc : ℕ → ℕ → Proc → Proc → Proc
child_proc pgdir cur parent p = record p {
  pgdir = pgdir;
  sz = parent.sz;
  parent = some cur;
  tf = record (parent.tf) { eax = 0 };
  ofile = copy_files parent.ofile p.ofile;
  cwd = parent.cwd;
  state = runnable;
  name = parent.name;
}

-- `fork` after its call of `allocproc`, up to `np->state = RUNNABLE`. The name of the child, which is
-- copied last, is here set with the rest.
abbrev pub show_child : ℕ → ℕ → Option ℕ × Kernel → Option ℕ × Kernel
show_child pgdir cur (none, k) = (none, k)
show_child pgdir cur (some i, k) =
    let p = k.procs i in
    if pgdir == 0
    then (none, put i (record p { kstack = 0; state = unused }) k)
    else (some p.pid, put i (child_proc pgdir cur (k.procs cur) p) k)

-- `ninlevel[0]++` for the child. No lock is held between the two.
abbrev pub count_child : Option ℕ × Kernel → Option ℕ × Kernel
count_child (none, k) = (none, k)
count_child (some pid, k) = (some pid, enter_level 0 k)

-- `fork` after its call of `allocproc`.
abbrev pub fork_from : ℕ → ℕ → Option ℕ × Kernel → Option ℕ × Kernel
fork_from pgdir cur r = count_child (show_child pgdir cur r)

-- `kstack` and `pgdir` are what kalloc and copyuvm return; `none` is the result -1.
unfoldable pub fork : ℕ → ℕ → ℕ → Kernel → Option ℕ × Kernel
fork kstack pgdir cur k = fork_from pgdir cur (allocproc kstack k)

-- The body of the loop in `wakeup1`.
unfoldable pub wake_slot : Chan → ℕ → Kernel → Kernel
wake_slot c i k =
    if is_sleeping (k.procs i).state && chan_eq (k.procs i).chan c
    then enter_level (k.procs i).level (put i (record (k.procs i) { state = runnable }) k)
    else k

unfoldable pub wakeup1 : Chan → Kernel → Kernel
wakeup1 c k = for_below nproc (wake_slot c) k

-- `wakeup` takes the lock around `wakeup1`.
unfoldable pub wakeup : Chan → Kernel → Kernel
wakeup c k = wakeup1 c k

-- The body of the loop of `exit` that hands the children to init.
unfoldable pub adopt_slot : ℕ → ℕ → Kernel → Kernel
adopt_slot cur i k =
    if is_parent (k.procs i).parent cur
    then (let k' = put i (record (k.procs i) { parent = k.initproc }) k in
        if is_zombie (k.procs i).state then wakeup1 (chan_of k.initproc) k' else k')
    else k

-- Close all files and drop the working directory.
abbrev pub close_files : Proc → Proc
close_files p = record p { ofile = map (λ _. 0) p.ofile; cwd = 0 }

-- `proc->state = ZOMBIE; ninlevel[proc->level]--`
unfoldable pub become_zombie : ℕ → Kernel → Kernel
become_zombie cur k =
    leave_level (k.procs cur).level (put cur (record (k.procs cur) { state = zombie }) k)

unfoldable pub exit : ℕ → Kernel → Outcome Kernel
exit cur k =
    if is_parent k.initproc cur
    then panic
    else let closed = put cur (close_files (k.procs cur)) k in
      let woken = wakeup1 (chan_of (closed.procs cur).parent) closed in
      done (become_zombie cur (for_below nproc (adopt_slot cur) woken))

-- `proc->state = SLEEPING` and out of the census; `sched` gives the processor up.
unfoldable pub sleep : Chan → ℕ → Kernel → Kernel
sleep c cur k =
    leave_level (k.procs cur).level
      (put cur (record (k.procs cur) { chan = c; state = sleeping }) k)

-- The rest of `sleep`, after `sched` returns: `proc->chan = 0`.
unfoldable pub sleep_tidy : ℕ → Kernel → Kernel
sleep_tidy cur k = put cur (record (k.procs cur) { chan = null }) k

-- The body of the loop of `wait` at slot `i`, after what the slots before it gave.
abbrev pub wait_look : ℕ → ℕ → Kernel → Option ℕ × Bool → Option ℕ × Bool
wait_look cur i k (some j, kids) = (some j, kids)
wait_look cur i k (none, kids) =
    if is_parent (k.procs i).parent cur
    then (if is_zombie (k.procs i).state then some i else none, true)
    else (none, kids)

-- The scan of `wait` over the first `n` slots: the zombie child it stops at, and `havekids`.
unfoldable pub wait_scan : ℕ → ℕ → Kernel → Option ℕ × Bool
wait_scan cur zero k = (none, false)
wait_scan cur (suc n) k = wait_look cur n k (wait_scan cur n k)

-- How a round of `wait` ends: with the pid of a child, with -1, or asleep.
pub data Waited : Type 0 where
  reaped : ℕ → Kernel → Waited
  no_child : Kernel → Waited
  asleep : Kernel → Waited

-- `p->name[0] = 0`
abbrev pub set_head : List ℕ → List ℕ
set_head [] = []
set_head (c ∷ cs) = 0 ∷ cs

abbrev pub reap : ℕ → Kernel → Kernel
reap i k =
    put i
      (record (k.procs i) {
        kstack = 0;
        state = unused;
        pid = 0;
        parent = none;
        name = set_head (k.procs i).name;
        killed = false;
      })
      k

-- `wait` after the scan.
abbrev pub wait_from : ℕ → Kernel → Option ℕ × Bool → Waited
wait_from cur k (some i, kids) = reaped (k.procs i).pid (reap i k)
wait_from cur k (none, kids) =
    if not kids || (k.procs cur).killed then no_child k else asleep (sleep (slot cur) cur k)

unfoldable pub wait : ℕ → Kernel → Waited
wait cur k = wait_from cur k (wait_scan cur nproc k)

-- `proc->state = RUNNABLE`; the process stays in the census.
unfoldable pub yield : ℕ → Kernel → Kernel
yield cur k = put cur (record (k.procs cur) { state = runnable }) k

-- Mark slot `i` as killed, and wake it if it sleeps.
unfoldable pub kill_slot : ℕ → Kernel → Kernel
kill_slot i k =
    let p = record (k.procs i) { killed = true } in
    if is_sleeping p.state
    then enter_level p.level (put i (record p { state = runnable }) (put i p k))
    else put i p k

-- `true` is the result 0, `false` the result -1.
unfoldable pub kill : ℕ → Kernel → Bool × Kernel
kill pid k = elim (first_below nproc (λ i. (k.procs i).pid == pid)) [
  | none ↦ (false, k)
  | some i ↦ (true, kill_slot i k)
]
