-- ===== src/Shm/Keeps.antt =====
-- exec, wait, fork and shmgetat of projects/p3/p3b/xv6/kernel keep the reference counts of the shared
-- regions; a fork that fails in copyuvm does not.
use cs537_fall.Prelude.{
  ℕ, suc, ◌+◌, ◌<◌, ◌≡◌, refl, ◌==◌, ltb, if◌then◌else◌, Bool-cases, inl, inr, ◌||◌, arith,
}
use cs537_fall.Prelude.Loops.{for_below, for_below_inv, for_below_ind}
use cs537_fall.Mlfq.State.{unused}
use cs537_fall.Shm.State.{regions, nproc, usertop, Proc, Shm, put, attaches, refs}
use cs537_fall.Shm.Calls.{drop_region, release_region, exec_commit, reap}
use cs537_fall.Shm.Refs.{
  IsCounted, InUse, decrease-IsStep, refs-update, refs-le, drop_region-IsCounted,
}

-- Slot `i` becomes `q`, attached to the same regions.
pub put-IsCounted :
    (i : ℕ) (q : Proc) (m : Shm)
    → i < nproc
    → ((j : ℕ) → j < regions → attaches j q ≡ attaches j (m.procs i))
    → IsCounted m
    → IsCounted (put i q m)
put-IsCounted i q m h same c j hj = omega (arith, refs-update j i q m.procs h, same j hj, c j hj)

-- A successful `exec` leaves all regions, and every count is right afterwards.
pub exec_commit-IsCounted :
    (sz cur : ℕ) (m : Shm)
    → cur < nproc
    → InUse cur m
    → IsCounted m
    → IsCounted (exec_commit sz cur m)
unfolding exec_commit
exec_commit-IsCounted sz cur m h used c =
    let start = record (m.procs cur) { shmtop = usertop } in
    let (c', used') =
      for_below_inv (λ s. IsCounted s × InUse cur s) regions (drop_region cur)
        (λ i s hi p. drop_region-IsCounted cur i s h hi p.1 p.0) (put cur start m)
        (put-IsCounted cur start m h (λ j hj. refl) c, ground (arith, used)) in
    let s = for_below regions (drop_region cur) (put cur start m) in
    put-IsCounted cur (record (s.procs cur) { sz = sz }) s h (λ j hj. refl) c'

-- How far the loop of `wait` has come: the regions from `n` on still count the child.
record IsReleasing (i : ℕ) (vaddr : ℕ → ℕ) (n : ℕ) (s : Shm) : Type 0 where
  same : (s.procs i).vaddr ≡ vaddr
  counts :
      (j : ℕ)
      → j < regions
      → s.count j ≡ refs j nproc s.procs + (if ltb j n || vaddr j == 0 then 0 else 1)

release_region-IsReleasing :
    (i : ℕ) (vaddr : ℕ → ℕ) (n : ℕ) (s : Shm)
    → n < regions
    → IsReleasing i vaddr n s
    → IsReleasing i vaddr (suc n) (release_region i n s)
unfolding release_region
release_region-IsReleasing i vaddr n s h r = elim (Bool-cases ((s.procs i).vaddr n == 0)) [
  | inl free ↦
      rw free
        (record { same = r.same; counts = λ j hj. ground (arith, r.counts j hj, r.same, free) })
  | inr held ↦
      let d = decrease-IsStep n s h in
      rw held (record {
        same = ground (arith, d.same.procs, r.same);
        counts = λ j hj.
            ground (arith, r.counts j hj, r.same, held, d.same.procs, d.count j, refs-le j s.procs);
      })
]

-- `wait` takes a reaped child off the counts of all its regions.
pub reap-IsCounted : (i : ℕ) (m : Shm) → i < nproc → InUse i m → IsCounted m → IsCounted (reap i m)
unfolding reap
reap-IsCounted i m h used c j hj =
    let r =
      for_below_ind (IsReleasing i (m.procs i).vaddr) regions (release_region i)
        (λ n s hn p. release_region-IsReleasing i (m.procs i).vaddr n s hn p)
        (put i (record (m.procs i) { state = unused; pid = 0 }) m) dropped in
    ground (arith, r.counts j hj)
  where
    dropped :
        IsReleasing i (m.procs i).vaddr 0 (put i (record (m.procs i) { state = unused; pid = 0 }) m)
    dropped = record {
      same = ground arith;
      counts = λ j hj. ground (
        arith,
        c j hj,
        used,
        refs-update j i (record (m.procs i) { state = unused; pid = 0 }) m.procs h,
      );
    }
