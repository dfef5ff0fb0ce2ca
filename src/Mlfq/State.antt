-- ===== src/Mlfq/State.antt =====
-- The data of projects/p2/p2b/xv6/xv6/kernel/proc.h and the globals of kernel/proc.c beside it:
-- the process table, the census `ninlevel` and the snapshot `laststate`.
use cs537_fall.Prelude.{
  ℕ, ◌+◌, ◌-◌, ◌%◌, ◌^◌, ◌==◌, if◌then◌else◌, Bool, true, false, ◌&&◌, Option, none, some, List,
}
use cs537_fall.Prelude.Arrays.{update}
use cs537_fall.Prelude.Tally.{tally}

-- param.h: NPROC slots in the table, NLAYER levels.
abbrev pub nproc : ℕ
nproc = 64

abbrev pub nlayer : ℕ
nlayer = 4

-- include/mmu.h: PGSIZE
abbrev pub pgsize : ℕ
pgsize = 4096

-- enum procstate
pub data ProcState : Type 0 where
  unused embryo sleeping runnable running zombie : ProcState

-- A `void *chan`: NULL, the address of a slot of the table, or another kernel address.
pub data Chan : Type 0 where
  null : Chan
  slot : ℕ → Chan
  object : ℕ → Chan

-- The registers of a trap frame that proc.c names; user programs see them.
pub record TrapFrame : Type 0 where
  pub eax : ℕ
  pub cs : ℕ
  pub ds : ℕ
  pub es : ℕ
  pub ss : ℕ
  pub eflags : ℕ
  pub esp : ℕ
  pub eip : ℕ

-- struct proc. A pointer to a slot is the slot's index, and 0 stands for NULL in `kstack`,
-- `pgdir`, `cwd` and in the entries of `ofile`.
pub record Proc : Type 0 where
  pub sz : ℕ
  pub pgdir : ℕ
  pub kstack : ℕ
  pub state : ProcState
  pub pid : ℕ
  pub parent : Option ℕ
  pub tf : TrapFrame
  pub chan : Chan
  pub killed : Bool
  pub ofile : List ℕ
  pub cwd : ℕ
  pub name : List ℕ
  pub level : ℕ
  pub timeticks : ℕ → ℕ

-- ptable, ninlevel, nextpid, initproc and laststate. An entry of `ninlevel` is the bit pattern of
-- an `int`. `last_timeticks i l` is laststate.timeticks[i][l].
pub record Kernel : Type 0 where
  pub procs : ℕ → Proc
  pub ninlevel : ℕ → ℕ
  pub nextpid : ℕ
  pub initproc : Option ℕ
  pub last_level : ℕ → ℕ
  pub last_timeticks : ℕ → ℕ → ℕ

-- A call that returns, or `panic`.
pub data Outcome {ℓ} (A : Type ℓ) : Type ℓ where
  done : A → Outcome A
  panic : Outcome A

-- `x++` and `x--` on the bit pattern of an `int`
abbrev pub incr : ℕ → ℕ
incr x = (x + 1) % 2 ^ 32

abbrev pub decr : ℕ → ℕ
decr x = (x + 2 ^ 32 - 1) % 2 ^ 32

abbrev pub is_unused : ProcState → Bool
is_unused unused = true
is_unused _ = false

abbrev pub is_sleeping : ProcState → Bool
is_sleeping sleeping = true
is_sleeping _ = false

abbrev pub is_runnable : ProcState → Bool
is_runnable runnable = true
is_runnable _ = false

abbrev pub is_zombie : ProcState → Bool
is_zombie zombie = true
is_zombie _ = false

abbrev pub chan_eq : Chan → Chan → Bool
chan_eq null null = true
chan_eq (slot i) (slot j) = i == j
chan_eq (object a) (object b) = a == b
chan_eq _ _ = false

-- `p->parent == proc`
abbrev pub is_parent : Option ℕ → ℕ → Bool
is_parent none cur = false
is_parent (some i) cur = i == cur

-- a `struct proc *` as a channel
abbrev pub chan_of : Option ℕ → Chan
chan_of none = null
chan_of (some i) = slot i

-- `ptable.proc[i] = p`
abbrev pub put : ℕ → Proc → Kernel → Kernel
put i p k = record k { procs = update k.procs i p }

-- `ninlevel[l]++` and `ninlevel[l]--`
abbrev pub enter_level : ℕ → Kernel → Kernel
enter_level l k = record k { ninlevel = update k.ninlevel l (incr (k.ninlevel l)) }

abbrev pub leave_level : ℕ → Kernel → Kernel
leave_level l k = record k { ninlevel = update k.ninlevel l (decr (k.ninlevel l)) }

-- What `ninlevel` is to count: the processes that run or could run.
abbrev pub is_counted : ProcState → Bool
is_counted runnable = true
is_counted running = true
is_counted _ = false

-- 1 if `p` counts at level `l`, else 0
abbrev pub weight : ℕ → Proc → ℕ
weight l p = if is_counted p.state && p.level == l then 1 else 0

-- how many of the first `n` slots count at level `l`
abbrev pub census : ℕ → ℕ → (ℕ → Proc) → ℕ
census l n ps = tally (weight l) n ps
