-- ===== src/Shm/State.antt =====
-- The shared memory of projects/p3/p3b/xv6/kernel/vm.c: the regions and what a process keeps of them
-- (kernel/proc.h).
use cs537_fall.Prelude.{ℕ, ◌+◌, ◌%◌, ◌^◌, ◌-◌, ◌==◌, if◌then◌else◌, Bool, not, ◌&&◌, List}
use cs537_fall.Prelude.Arrays.{update}
use cs537_fall.Prelude.Tally.{tally}
use cs537_fall.Mlfq.State.{ProcState, is_unused}

-- SHMEM_REGIONS and SHMEM_MAX_PAGES of kernel/proc.h, NPROC and USERTOP of include/param.h, PGSIZE.
abbrev pub regions : ℕ
regions = 8

abbrev pub max_pages : ℕ
max_pages = 4

abbrev pub nproc : ℕ
nproc = 64

abbrev pub usertop : ℕ
usertop = 0xA0000

abbrev pub pgsize : ℕ
pgsize = 4096

-- The fields of `struct proc` that shared memory reads or writes.
pub record Proc : Type 0 where
  pub state : ProcState
  pub pid : ℕ
  pub sz : ℕ
  pub vaddr : ℕ → ℕ
  pub shmtop : ℕ

-- shmem_count, shmem_pages, shmem_paddr (by region and page), the process table, `nextpid`, and the
-- free list of kernel/kalloc.c. An entry of `count` is the bit pattern of an `int`.
pub record Shm : Type 0 where
  pub count : ℕ → ℕ
  pub pages : ℕ → ℕ
  pub paddr : ℕ → ℕ → ℕ
  pub procs : ℕ → Proc
  pub nextpid : ℕ
  pub free : List ℕ

abbrev pub incr : ℕ → ℕ
incr x = (x + 1) % 2 ^ 32

abbrev pub decr : ℕ → ℕ
decr x = (x + 2 ^ 32 - 1) % 2 ^ 32

-- `ptable.proc[i] = p`
abbrev pub put : ℕ → Proc → Shm → Shm
put i p m = record m { procs = update m.procs i p }

-- The process is attached to the region: its slot is in use and `shmem_vaddr[key]` is set.
abbrev pub is_attached : ℕ → Proc → Bool
is_attached key p = not (is_unused p.state) && not (p.vaddr key == 0)

abbrev pub attaches : ℕ → Proc → ℕ
attaches key p = if is_attached key p then 1 else 0

-- how many of the first `n` slots are attached to region `key`
abbrev pub refs : ℕ → ℕ → (ℕ → Proc) → ℕ
refs key n ps = tally (attaches key) n ps

-- how many of the first `n` regions a process has an address for
abbrev pub held : ℕ → (ℕ → ℕ) → ℕ
held n vaddr = tally (λ v. if v == 0 then 0 else 1) n vaddr
