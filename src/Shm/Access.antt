-- ===== src/Shm/Access.antt =====
-- How projects/p3/p3b/xv6/kernel/syscall.c checks the addresses that user programs pass, and the two
-- system calls of kernel/sysproc.c. `mem` is the memory of the current process: a word or a byte by
-- its address.
use cs537_fall.Prelude.{
  ℕ, zero, suc, ◌+◌, ◌-◌, ◌*◌, ◌%◌, ◌^◌, ◌==◌, ltb, leb, if◌then◌else◌, Bool, ◌||◌, ◌&&◌, Option,
  none, some,
}
use cs537_fall.Prelude.Loops.{for_below}
use cs537_fall.Mlfq.State.{Outcome, done}
use cs537_fall.Shm.State.{regions, usertop, Proc, Shm}
use cs537_fall.Shm.Calls.{shm_refcount, shmgetat}

-- The body of the loop of `get_shm_bound`.
abbrev pub lower_bound : Proc → ℕ → ℕ → ℕ → ℕ
lower_bound p addr key bound =
    if ltb addr (p.vaddr key) && ltb (p.vaddr key) bound then p.vaddr key else bound

unfoldable pub get_shm_bound : Proc → ℕ → ℕ
get_shm_bound p addr = for_below regions (lower_bound p addr) usertop

-- Where the memory ends that an address lies in: the heap below `shmtop`, else a region.
unfoldable pub user_bound : Proc → ℕ → ℕ
user_bound p addr = if ltb addr p.shmtop then p.sz else get_shm_bound p addr

-- `addr >= bound || addr+size > bound`, with the sum of two `uint`
abbrev pub out_of_bounds : Proc → ℕ → ℕ → Bool
out_of_bounds p addr size =
    leb (user_bound p addr) addr || ltb (user_bound p addr) ((addr + size) % 2 ^ 32)

-- `none` is the result -1.
unfoldable pub fetchint : Proc → (ℕ → ℕ) → ℕ → Option ℕ
fetchint p mem addr = if out_of_bounds p addr 4 then none else some (mem addr)

-- The scan of `fetchstr` from address `s`, with `rounds` bytes left before the bound.
unfoldable pub scan_nul : (ℕ → ℕ) → ℕ → ℕ → Option ℕ
scan_nul mem zero s = none
scan_nul mem (suc rounds) s =
    let rest = scan_nul mem rounds (s + 1) in if mem s == 0 then some s else rest

unfoldable pub fetchstr : Proc → (ℕ → ℕ) → ℕ → Option ℕ
fetchstr p mem addr =
    if leb (user_bound p addr) addr
    then none
    else elim (scan_nul mem (user_bound p addr - addr) addr) [
      | none ↦ none
      | some s ↦ some (s - addr)
    ]

-- The nth argument of a system call; `esp` is the user's stack pointer.
unfoldable pub argint : Proc → (ℕ → ℕ) → ℕ → ℕ → Option ℕ
argint p mem esp n = fetchint p mem ((esp + 4 + 4 * n) % 2 ^ 32)

unfoldable pub argptr : Proc → (ℕ → ℕ) → ℕ → ℕ → ℕ → Option ℕ
argptr p mem esp n size = elim (argint p mem esp n) [
  | none ↦ none
  | some i ↦ if out_of_bounds p i size then none else some i
]

-- `key < 0` for the bit pattern of an `int`
abbrev pub is_negative : ℕ → Bool
is_negative x = leb (2 ^ 31) x

unfoldable pub sys_shm_refcount : (ℕ → ℕ) → ℕ → ℕ → Shm → Option ℕ
sys_shm_refcount mem esp cur m = elim (argint (m.procs cur) mem esp 0) [
  | none ↦ none
  | some key ↦ if is_negative key then none else shm_refcount key m
]

-- A negative number of pages asks for none.
unfoldable pub sys_shmgetat : (ℕ → ℕ) → ℕ → ℕ → Shm → Outcome (Option ℕ × Shm)
sys_shmgetat mem esp cur m = elim (argint (m.procs cur) mem esp 0) [
  | none ↦ done (none, m)
  | some key ↦ elim (argint (m.procs cur) mem esp 1) [
    | none ↦ done (none, m)
    | some n ↦
        if is_negative key
        then done (none, m)
        else shmgetat key (if is_negative n then 0 else n) cur m
  ]
]
