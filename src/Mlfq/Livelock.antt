-- ===== src/Mlfq/Livelock.antt =====
-- A pass of `scheduler` of projects/p2/p2b/xv6/xv6/kernel/proc.c on a machine where other processors
-- run the processes of the highest level.
use cs537_fall.Prelude.{ℕ, ◌+◌, ◌≤◌, ◌<◌, ◌≡◌, ◌≢◌, ◌⊎◌}
use cs537_fall.Mlfq.State.{nproc, runnable, Kernel}
use cs537_fall.Mlfq.Scheduler.{Cursor, highest_level}

-- Where the only processes of the highest level already run on other processors, while one of a
-- lower level is ready: the pass neither reaches `swtch` nor gives the lock up, however long it
-- takes.
abbrev pub IsHogged : Kernel → ℕ → Type 0
IsHogged k w =
    (w < nproc)
    × ((k.procs w).state ≡ runnable)
    × ((j : ℕ) → j < nproc → (k.procs j).state ≡ runnable → (k.procs j).level ≢ highest_level k)

-- Where the loops can stand then.
abbrev Trapped : Kernel → ℕ → Cursor → Type 0
Trapped k w c = (c.ii ≤ highest_level k) ⊎ ((c.ii ≡ highest_level k + 1) × (c.pi ≤ w))
