-- ===== src/Count/Tests.antt =====
-- Tests of the counter, and the theorem at a small run.
use cs537_fall.Prelude.{◌≡◌, refl, [], ◌∷◌, arith}
use cs537_fall.Count.Calls.{
  Procs, Handlers, syscall, set_eax, make_calls, sys_getnumsyscallp_number,
}
use cs537_fall.Count.Totals.{counted_calls, getnumsyscallp-total}

-- Handlers that return the number of the call.
abbrev echo : Handlers
echo num procs = (num, procs)

abbrev fresh : Procs
fresh slot = record { eax = 0; numsyscalls = 0 }

-- getpid, an unknown call, getnumsyscallp and uptime: two calls are counted.
getnumsyscallp-total_example :
    (syscall echo 3
      (set_eax 3 sys_getnumsyscallp_number (make_calls echo 3 (18 ∷ 99 ∷ 22 ∷ 21 ∷ []) fresh))
      3).eax
    ≡ 2
unfolding counted_calls
getnumsyscallp-total_example =
    getnumsyscallp-total echo 3 (λ num procs. refl) (18 ∷ 99 ∷ 22 ∷ 21 ∷ []) fresh (omega arith)
