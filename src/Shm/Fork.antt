-- ===== src/Shm/Fork.antt =====
-- fork of projects/p3/p3b/xv6/kernel/proc.c and the shared regions: the child of a fork that succeeds
-- is counted, and the child of one that fails in copyuvm stays counted for ever.
use cs537_fall.Prelude.{
  ℕ, suc, ◌+◌, ◌<◌, ◌≡◌, ◌≢◌, refl, ◌==◌, ltb, if◌then◌else◌, Bool-cases, Option-cases, inl, inr,
  Option, none, some, arith,
}
use cs537_fall.Prelude.Arrays.{update}
use cs537_fall.Prelude.Loops.{for_below, for_below_ind, first_below, first_below-IsFirst}
use cs537_fall.Mlfq.State.{unused, embryo, runnable, is_unused}
use cs537_fall.Shm.State.{regions, nproc, usertop, Shm, put, refs}
use cs537_fall.Shm.Calls.{share_region, allocproc, fork_from, fork}
use cs537_fall.Shm.Refs.{IsCounted, InUse, increase-IsStep, refs-update, refs-le}
use cs537_fall.Shm.Keeps.{put-IsCounted}

-- What `allocproc` returns: a slot with no regions, or none; the counts are right in both cases.
pub record IsFresh (cur : ℕ) (m : Shm) (i : ℕ) (s : Shm) : Type 0 where
  pub in_range : i < nproc
  pub is_embryo : (s.procs i).state ≡ embryo
  pub bare : (j : ℕ) → (s.procs i).vaddr j ≡ 0
  pub not_caller : i ≢ cur
  pub caller : s.procs cur ≡ m.procs cur
  pub counted : IsCounted s

abbrev pub Allocated : ℕ → Shm → Option ℕ × Shm → Type 0
Allocated cur m (none, s) = IsCounted s
Allocated cur m (some i, s) = IsFresh cur m i s

pub allocproc-Allocated :
    (kstack cur : ℕ) (m : Shm) → InUse cur m → IsCounted m → Allocated cur m (allocproc kstack m)
unfolding allocproc
allocproc-Allocated kstack cur m used c =
    elim (Option-cases (first_below nproc (λ i. is_unused (m.procs i).state))) [
      | inl e ↦ rw (e, allocproc) c
      | inr (i, e) ↦
          let first = first_below-IsFirst nproc _ e in
          elim (Bool-cases (kstack == 0)) [
            | inl null ↦
                rw (e, null, allocproc)
                  (λ j hj. ground (
                    arith,
                    c j hj,
                    first.passes,
                    refs-update j i (record (m.procs i) { state = unused; pid = m.nextpid }) m.procs
                        first.in_range,
                  ))
            | inr stack ↦
                rw (e, stack, allocproc)
                  (record {
                    in_range = first.in_range;
                    is_embryo = ground arith;
                    bare = λ j. ground arith;
                    not_caller = λ same. ground (arith, first.passes, used);
                    caller = ground (arith, first.passes, used);
                    counted = λ j hj. ground (
                      arith,
                      c j hj,
                      first.passes,
                      refs-update j i
                          (record (m.procs i) {
                            state = embryo;
                            pid = m.nextpid;
                            vaddr = λ _. 0;
                            shmtop = usertop;
                          })
                          m.procs first.in_range,
                    );
                  })
          ]
    ]

-- How far the loop of `fork` has come: the child has the caller's addresses below `n`.
pub record IsSharing (cur i : ℕ) (m : Shm) (n : ℕ) (s : Shm) : Type 0 where
  pub counted : IsCounted s
  pub is_embryo : (s.procs i).state ≡ embryo
  pub shared : (j : ℕ) → (s.procs i).vaddr j ≡ (if ltb j n then (m.procs cur).vaddr j else 0)
  pub caller : s.procs cur ≡ m.procs cur

share_region-IsSharing :
    (cur i : ℕ) (m : Shm) (n : ℕ) (s : Shm)
    → i < nproc
    → i ≢ cur
    → n < regions
    → IsSharing cur i m n s
    → IsSharing cur i m (suc n) (share_region cur i n s)
unfolding share_region
share_region-IsSharing cur i m n s hi ne h r =
    let child = record (s.procs i) { vaddr = update (s.procs i).vaddr n ((s.procs cur).vaddr n) } in
    elim (Bool-cases ((s.procs cur).vaddr n == 0)) [
      | inl free ↦ rw free (record {
        counted = λ j hj.
            ground (arith, r.counted j hj, r.shared n, free, refs-update j i child s.procs hi);
        is_embryo = ground (arith, r.is_embryo);
        shared = λ j. ground (arith, r.shared j, r.caller, free);
        caller = ground (arith, r.caller);
      })
      | inr held ↦
          let d = increase-IsStep n (put i child s) h in
          rw held (record {
            counted = λ j hj. ground (
              arith,
              r.counted j hj,
              r.shared n,
              r.is_embryo,
              held,
              d.same.procs,
              d.count j,
              refs-update j i child s.procs hi,
              refs-le j (update s.procs i child),
            );
            is_embryo = ground (arith, r.is_embryo, d.same.procs);
            shared = λ j. ground (arith, r.shared j, r.caller, d.same.procs);
            caller = ground (arith, r.caller, d.same.procs);
          })
    ]

pub shared_all :
    (cur i : ℕ) (m s : Shm)
    → IsFresh cur m i s
    → IsSharing cur i s regions (for_below regions (share_region cur i) s)
shared_all cur i m s b =
    for_below_ind (IsSharing cur i s) regions (share_region cur i)
      (λ n t hn p. share_region-IsSharing cur i s n t b.in_range b.not_caller hn p) s
      (record {
        counted = b.counted;
        is_embryo = b.is_embryo;
        shared = λ j. ground (arith, b.bare j);
        caller = refl;
      })

fork_from-IsCounted :
    (pgdir cur : ℕ) (m : Shm) (r : Option ℕ × Shm)
    → pgdir ≢ 0
    → Allocated cur m r
    → IsCounted (fork_from pgdir cur r).1
unfolding fork_from
fork_from-IsCounted pgdir cur m (none, s) mapped b = b
fork_from-IsCounted pgdir cur m (some i, s) mapped b = elim (Bool-cases (pgdir == 0)) [
  | inl null ↦ absurd (mapped (ground arith))
  | inr other ↦
      let t = for_below regions (share_region cur i) s in
      let r = shared_all cur i m s b in
      rw other (
        put-IsCounted i
          (record (t.procs i) {
            shmtop = (t.procs cur).shmtop;
            sz = (t.procs cur).sz;
            state = runnable;
          })
          t b.in_range (λ j hj. ground (arith, r.is_embryo)) r.counted)
]

-- A fork for which copyuvm gets a page table leaves every count right: the child is counted for
-- each region that its parent is attached to. So does a fork that finds no slot or no stack.
pub fork-IsCounted :
    (kstack pgdir cur : ℕ) (m : Shm)
    → pgdir ≢ 0
    → InUse cur m
    → IsCounted m
    → IsCounted (fork kstack pgdir cur m).1
unfolding fork
fork-IsCounted kstack pgdir cur m mapped used c =
    fork_from-IsCounted pgdir cur m (allocproc kstack m) mapped
      (allocproc-Allocated kstack cur m used c)

-- Every region of `cur` is counted once too often.
abbrev pub IsLeaked : ℕ → Shm → Shm → Type 0
IsLeaked cur m s =
    (j : ℕ)
    → j < regions
    → s.count j ≡ refs j nproc s.procs + (if (m.procs cur).vaddr j == 0 then 0 else 1)
