-- ===== src/Shm/Tests.antt =====
-- Tests of the shared memory model, and the theorems at concrete inputs.
use cs537_fall.Prelude.{
  ℕ, zero, suc, ◌+◌, ◌-◌, ◌<◌, ◌≤◌, ◌≡◌, ◌≢◌, refl, true, Option, some, [], ◌∷◌, arith,
}
use cs537_fall.Prelude.Arrays.{update}
use cs537_fall.Prelude.Loops.{for_below, first_below}
use cs537_fall.Prelude.Tally.{tally}
use cs537_fall.Mlfq.State.{unused, running, Outcome, done, panic}
use cs537_fall.Shm.State.{usertop, Proc, Shm}
use cs537_fall.Shm.Calls.{
  shmgetat, shm_refcount, fork, fork_from, allocproc, share_region, shm_increase_count, shmeminit,
  userinit, alloc_pages, grow, shrink,
}
use cs537_fall.Shm.Refs.{IsCounted}
use cs537_fall.Shm.Steps.{Reach, boots, next, attaches_region, forks}
use cs537_fall.Shm.Preserved.{IsSafe}
use cs537_fall.Shm.Safe.{Reach-IsSafe}
use cs537_fall.Shm.Attach.{IsLaidOut, Got, shmgetat-Got}
use cs537_fall.Shm.Access.{user_bound, fetchint, argint, argptr, fetchstr, scan_nul}
use cs537_fall.Shm.Safety.{IsUserRange, argptr-IsUserRange, fetchstr-IsUserRange}
use cs537_fall.Shm.Grow.{IsGrown, growproc-IsGrown}

abbrev idle : Proc
idle = record { state = unused; pid = 0; sz = 0; vaddr = λ _. 0; shmtop = 0 }

-- One page of heap, and region 2 of two pages at the top.
abbrev sharer : Proc
sharer = record {
  state = running;
  pid = 1;
  sz = 4096;
  vaddr = update (λ _. 0) 2 (usertop - 8192);
  shmtop = usertop - 8192;
}

abbrev shared : Shm
shared = record {
  count = update (λ _. 0) 2 1;
  pages = update (λ _. 0) 2 2;
  paddr = λ _ _. 0x200000;
  procs = update (λ _. idle) 0 sharer;
  nextpid = 2;
  free = 0x300000 ∷ 0x301000 ∷ [];
}

shared-IsCounted : IsCounted shared
unfolding tally
shared-IsCounted zero h = refl
shared-IsCounted (suc zero) h = refl
shared-IsCounted (suc (suc zero)) h = refl
shared-IsCounted (suc (suc (suc n))) h = ground arith

sharer-IsLaidOut : IsLaidOut sharer
unfolding tally
sharer-IsLaidOut = record {
  size_pos = omega arith;
  heap_below = omega arith;
  top = omega arith;
  room = omega arith;
  regions_above = λ j h set. ground arith;
}

pages_small : (j : ℕ) → j < 8 → shared.pages j ≤ 4
pages_small j h = ground arith

-- The first process attaches to region 3 with two pages and forks; the child is in slot 1.
abbrev empty : Shm
empty = record shared { procs = λ _. idle }

abbrev outcome : Outcome Shm → Shm
outcome panic = empty
outcome (done s) = s

abbrev outcome_of : Outcome (Option ℕ × Shm) → Shm
outcome_of panic = empty
outcome_of (done (r, s)) = s

abbrev first : Shm
first = shmeminit (outcome (userinit 0x302000 0x303000 empty))

abbrev attached : Shm
attached = outcome_of (shmgetat 3 2 0 first)

first-Reach : Reach first
unfolding userinit allocproc first_below shmeminit for_below
first-Reach = boots empty 0x302000 0x303000 (λ i h. refl) refl

attached-Reach : Reach attached
unfolding shmgetat userinit allocproc first_below shmeminit for_below alloc_pages
attached-Reach = next first-Reach (attaches_region 3 2 0 (omega arith) refl refl)

Reach-IsSafe_example : IsSafe (fork 0x304000 0x305000 0 attached).1
unfolding shmgetat userinit allocproc first_below shmeminit for_below alloc_pages
Reach-IsSafe_example =
    Reach-IsSafe (next attached-Reach (forks 0x304000 0x305000 0 (omega arith) (omega arith) refl))

-- Region 2 counts two processes after the failed fork; one is attached.
fork_leaks_count : shm_refcount 2 (fork 0x302000 0 0 shared).1 ≡ some 2
unfolding shm_refcount fork fork_from allocproc first_below for_below share_region
    shm_increase_count
fork_leaks_count = refl

shmgetat-Got_example : Got 5 1 0 shared (shmgetat 5 1 0 shared)
shmgetat-Got_example =
    shmgetat-Got 5 1 0 shared (omega arith) refl pages_small shared-IsCounted sharer-IsLaidOut

argptr-IsUserRange_example : IsUserRange sharer 100 8
unfolding argptr argint fetchint user_bound
argptr-IsUserRange_example =
    argptr-IsUserRange sharer (λ _. 100) 16 0 8 sharer-IsLaidOut (omega arith) refl

-- A byte string that ends at address 4095.
abbrev text : ℕ → ℕ
text = update (λ _. 65) 4095 0

fetchstr-IsUserRange_example :
    IsUserRange sharer 4090 6 × (text (4090 + 5) ≡ 0) × ((j : ℕ) → j < 5 → text (4090 + j) ≢ 0)
unfolding fetchstr user_bound scan_nul
fetchstr-IsUserRange_example = fetchstr-IsUserRange sharer text 4090 sharer-IsLaidOut refl

sbrk_both_ways :
    IsGrown 0 8192 shared (grow true 4096 0 shared) × IsGrown 0 0 shared (shrink 4096 0 shared)
sbrk_both_ways = growproc-IsGrown true 4096 0 shared sharer-IsLaidOut
