-- ===== src/Count/Calls.antt =====
-- The dispatch of system calls in projects/p1/p1b/xv6/kernel/syscall.c, with the counter of each process.
use cs537_fall.Prelude.{
  ℕ, ◌+◌, ◌-◌, ◌%◌, ◌^◌, ◌==◌, ltb, leb, if◌then◌else◌, Bool, ◌&&◌, List, [], ◌∷◌,
}
use cs537_fall.Prelude.Arrays.{update}

-- `struct proc`, as far as system calls touch it: the register eax of its trap frame and the counter, bit
-- patterns of ints.
pub record Proc : Type 0 where
  pub eax : ℕ
  pub numsyscalls : ℕ

-- The processes by slot.
abbrev pub Procs : Type 0
Procs = ℕ → Proc

abbrev pub sys_getnumsyscallp_number : ℕ
sys_getnumsyscallp_number = 22

-- NELEM(syscalls); the array has a handler at each number from SYS_fork = 1 to SYS_getnumsyscallp = 22.
abbrev pub nelem_syscalls : ℕ
nelem_syscalls = 23

abbrev pub has_handler : ℕ → Bool
has_handler num = leb 1 num && leb num 22

-- `num > 0 && num < NELEM(syscalls) && syscalls[num] != NULL`
abbrev pub is_known : ℕ → Bool
is_known num = (ltb 0 num && ltb num (2 ^ 31)) && ltb num nelem_syscalls && has_handler num

-- A handler other than `sys_getnumsyscallp`: the number of the call and the processes before, the result
-- and the processes after.
abbrev pub Handlers : Type 0
Handlers = ℕ → Procs → ℕ × Procs

abbrev pub set_eax : ℕ → ℕ → Procs → Procs
set_eax cur v procs = update procs cur (record (procs cur) { eax = v })

abbrev pub sys_getnumsyscallp : ℕ → Procs → ℕ
sys_getnumsyscallp cur procs = (procs cur).numsyscalls

-- Every call but `getnumsyscallp` is counted before its handler runs.
abbrev pub count_call : ℕ → ℕ → Procs → Procs
count_call num cur procs =
    if num == sys_getnumsyscallp_number
    then procs
    else update procs cur
        (record (procs cur) { numsyscalls = ((procs cur).numsyscalls + 1) % 2 ^ 32 })

abbrev pub call_handler : Handlers → ℕ → ℕ → Procs → ℕ × Procs
call_handler handlers num cur procs =
    if num == sys_getnumsyscallp_number
    then (sys_getnumsyscallp cur procs, procs)
    else handlers num procs

-- What a handler returns goes into eax.
abbrev pub return_value : ℕ → ℕ × Procs → Procs
return_value cur (v, procs) = set_eax cur v procs

-- The call with number `num`.
abbrev pub dispatch_call : Handlers → ℕ → ℕ → Procs → Procs
dispatch_call handlers num cur procs =
    if is_known num
    then return_value cur (call_handler handlers num cur (count_call num cur procs))
    else set_eax cur (2 ^ 32 - 1) procs

unfoldable pub syscall : Handlers → ℕ → Procs → Procs
syscall handlers cur procs = dispatch_call handlers (procs cur).eax cur procs

-- A process that makes the calls of these numbers, one after the other.
unfoldable pub make_calls : Handlers → ℕ → List ℕ → Procs → Procs
make_calls handlers cur [] procs = procs
make_calls handlers cur (num ∷ nums) procs =
    make_calls handlers cur nums (syscall handlers cur (set_eax cur num procs))
