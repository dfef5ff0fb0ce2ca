-- ===== src/Shm/Steps.antt =====
-- The calls of projects/p3/p3b/xv6/kernel that touch shared memory, in any order, from shmeminit on.
use cs537_fall.Prelude.{ℕ, ◌≤◌, ◌<◌, ◌≡◌, ◌≢◌, Bool, true, false, Option}
use cs537_fall.Mlfq.State.{ProcState, is_unused, done}
use cs537_fall.Shm.State.{nproc, Shm, put}
use cs537_fall.Shm.Calls.{shmeminit, shmgetat, userinit, fork, exec_commit, reap, grow, shrink}
use cs537_fall.Shm.Refs.{InUse}

-- A call by the process in slot `cur`. exec commits a size that allocuvm has given it, which is not above
-- `shmtop` of the caller. A fork whose copyuvm fails is left out, since it breaks the counts.
pub data Step : Shm → Shm → Type 0 where
  attaches_region :
      {m s : Shm} {r : Option ℕ} (key num_pages cur : ℕ)
      → cur < nproc
      → InUse cur m
      → shmgetat key num_pages cur m ≡ done (r, s)
      → Step m s
  forks :
      {m : Shm} (kstack pgdir cur : ℕ)
      → pgdir ≢ 0
      → cur < nproc
      → InUse cur m
      → Step m (fork kstack pgdir cur m).1
  execs :
      {m : Shm} (sz cur : ℕ)
      → cur < nproc
      → InUse cur m
      → 0 < sz
      → sz ≤ (m.procs cur).shmtop
      → Step m (exec_commit sz cur m)
  waits : {m : Shm} (i : ℕ) → i < nproc → InUse i m → Step m (reap i m)
  grows :
      {m : Shm} (enough : Bool) (n cur : ℕ)
      → cur < nproc
      → InUse cur m
      → Step m (grow enough n cur m).1
  shrinks : {m : Shm} (n cur : ℕ) → cur < nproc → InUse cur m → Step m (shrink n cur m).1
  -- exit, sleep and the scheduler
  turns :
      {m : Shm} (st : ProcState) (i : ℕ)
      → i < nproc
      → InUse i m
      → is_unused st ≡ false
      → Step m (put i (record (m.procs i) { state = st }) m)

-- The kernel starts with an empty process table, whatever the counters hold, userinit fills one slot,
-- and shmeminit clears the counters.
pub data Reach : Shm → Type 0 where
  boots :
      {s : Shm} (m : Shm) (kstack pgdir : ℕ)
      → ((i : ℕ) → i < nproc → is_unused (m.procs i).state ≡ true)
      → userinit kstack pgdir m ≡ done s
      → Reach (shmeminit s)
  next : {m s : Shm} → Reach m → Step m s → Reach s
