-- ===== src/Shm/Safe.antt =====
-- What holds of the shared memory of projects/p3/p3b/xv6/kernel from boot on, after any calls.
use native.Mathlib.Decide.{ℕ_discrete}
use cs537_fall.Prelude.{false, ℕ, ◌<◌, ◌≡◌, refl, sym, ◌∙◌, true, subst, arith}
use cs537_fall.Prelude.Arrays.{update}
use cs537_fall.Prelude.Loops.{for_below_ind}
use cs537_fall.Prelude.Tally.{tally_congr, tally-zero}
use cs537_fall.Mlfq.State.{is_unused}
use cs537_fall.Shm.State.{regions, nproc, Proc, Shm, attaches, refs}
use cs537_fall.Shm.Calls.{shmeminit}
use cs537_fall.Shm.Attach.{IsLaidOut}
use cs537_fall.Shm.Children.{IsFirstProc, Started, userinit-Started}
use cs537_fall.Shm.Steps.{Reach, boots, next}
use cs537_fall.Shm.Preserved.{IsSafe, bare-IsLaidOut, Step-IsSafe}

-- How far the loop of `shmeminit` has come.
record IsCleared (m : Shm) (n : ℕ) (s : Shm) : Type 0 where
  procs : s.procs ≡ m.procs
  count : (j : ℕ) → j < n → s.count j ≡ 0
  pages : (j : ℕ) → j < n → s.pages j ≡ 0

shmeminit-IsCleared : (m : Shm) → IsCleared m regions (shmeminit m)
unfolding shmeminit
shmeminit-IsCleared m =
    for_below_ind (IsCleared m) regions
      (λ i (s : Shm). record s { count = update s.count i 0; pages = update s.pages i 0 })
      (λ n s h r. record {
        procs = r.procs;
        count = λ j hj. ground (arith, r.count j);
        pages = λ j hj. ground (arith, r.pages j);
      })
      m
      (record {
        procs = refl;
        count = λ j h. absurd (omega arith);
        pages = λ j h. absurd (omega arith);
      })

-- Nobody is attached to the region.
refs-none :
    (j : ℕ) (ps : ℕ → Proc) → ((i : ℕ) → i < nproc → attaches j (ps i) ≡ 0) → refs j nproc ps ≡ 0
refs-none j ps bare =
    let first = bare 0 (omega arith) in
    tally_congr (attaches j) nproc ps (λ _. ps 0) (λ i h. omega (arith, bare i h, first))
    ∙ tally-zero (attaches j) (ps 0) first nproc

started-attaches :
    (m s : Shm) (i j k : ℕ)
    → ((k : ℕ) → k < nproc → is_unused (m.procs k).state ≡ true)
    → IsFirstProc m s i
    → k < nproc
    → attaches j (s.procs k) ≡ 0
started-attaches m s i j k spare f h = elim (ℕ_discrete k i) [
  | yes same ↦ subst (λ x. attaches j (s.procs x) ≡ 0) (sym same) (ground (arith, f.bare j))
  | no other ↦ ground (arith, f.only.others k other, spare k h)
]

started-IsSafe :
    (m s t : Shm) (i : ℕ)
    → ((k : ℕ) → k < nproc → is_unused (m.procs k).state ≡ true)
    → IsFirstProc m s i
    → IsCleared s regions t
    → IsSafe t
started-IsSafe m s t i spare f c = record {
  counted = λ j h. omega (
    arith,
    c.count j h,
    refs-none j t.procs (
        subst (λ (ps : ℕ → Proc). (k : ℕ) → k < nproc → attaches j (ps k) ≡ 0) (sym c.procs)
          (λ k hk. started-attaches m s i j k spare f hk)),
  );
  small = λ j h. ground (arith, c.pages j h);
  layouts =
      subst
        (λ (ps : ℕ → Proc). (k : ℕ) → k < nproc → is_unused (ps k).state ≡ false → IsLaidOut (ps k))
        (sym c.procs) laid;
}
  where
    laid : (k : ℕ) → k < nproc → is_unused (s.procs k).state ≡ false → IsLaidOut (s.procs k)
    laid k h used = elim (ℕ_discrete k i) [
      | yes same ↦
          subst (λ x. IsLaidOut (s.procs x)) (sym same)
            (bare-IsLaidOut (s.procs i) (omega (arith, f.size)) (omega (arith, f.size)) f.top
              (λ j hj. f.bare j))
      | no other ↦ absurd (ground (arith, f.only.others k other, spare k h, used))
    ]

-- From boot on, after any calls of shmgetat, fork, exec, wait and sbrk and any changes between states in
-- use, in any order, where copyuvm does not fail in a fork: the count of each region is the number of
-- processes attached to it, no region has more than four pages, and each process in use has a valid layout,
-- its heap below its regions.
pub Reach-IsSafe : {m : Shm} → Reach m → IsSafe m
Reach-IsSafe (boots {s = s} m kstack pgdir spare e) =
    let (i, f) = subst (Started m) e (userinit-Started kstack pgdir m) in
    started-IsSafe m s (shmeminit s) i spare f (shmeminit-IsCleared s)
Reach-IsSafe (next r step) = Step-IsSafe step (Reach-IsSafe r)
