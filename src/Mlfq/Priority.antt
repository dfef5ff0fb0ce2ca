-- ===== src/Mlfq/Priority.antt =====
-- Which process `scheduler` of projects/p2/p2b/xv6/xv6/kernel/proc.c runs.
use cs537_fall.Prelude.{
  ℕ, zero, suc, ◌+◌, ◌≤◌, ◌<◌, ◌≡◌, ◌≢◌, ◌⊎◌, ◌==◌, true, Bool-cases, inl, inr, arith,
}
use cs537_fall.Prelude.Tally.{tally-witness}
use cs537_fall.Mlfq.State.{
  nproc, nlayer, runnable, running, Proc, Kernel, is_counted, census, weight,
}
use cs537_fall.Mlfq.Census.{IsValid, census-pos}
use cs537_fall.Mlfq.Scheduler.{Cursor, runs, highest_from, highest_level, dispatch, sched_step}

-- What the `while` loop of the scheduler leaves in `highestlevel`.
record IsHighest (rounds h : ℕ) (nin : ℕ → ℕ) (r : ℕ) : Type 0 where
  above : h ≤ r
  below : r ≤ h + rounds
  skipped : (l : ℕ) → h ≤ l → l < r → nin l ≡ 0
  stops : (r ≡ h + rounds) ⊎ (nin r ≢ 0)

highest_from-IsHighest :
    (rounds h : ℕ) (nin : ℕ → ℕ) → IsHighest rounds h nin (highest_from rounds h nin)
unfolding highest_from
highest_from-IsHighest zero h nin = record {
  above = omega arith;
  below = omega arith;
  skipped = λ l a b. absurd (omega arith);
  stops = inl (omega arith);
}
highest_from-IsHighest (suc rounds) h nin = elim (Bool-cases (nin h == 0)) [
  | inl none_here ↦
      let rest = highest_from-IsHighest rounds (h + 1) nin in
      rw none_here (record {
        above = omega (arith, rest.above);
        below = omega (arith, rest.below);
        skipped = λ l a b. ground (arith, rest.skipped l);
        stops = ground (arith, rest.stops);
      })
  | inr some_here ↦ rw some_here (record {
    above = omega arith;
    below = omega arith;
    skipped = λ l a b. absurd (omega arith);
    stops = inr (ground arith);
  })
]

highest_level-IsHighest : (k : Kernel) → IsHighest 3 0 k.ninlevel (highest_level k)
unfolding highest_level
highest_level-IsHighest k = highest_from-IsHighest 3 0 k.ninlevel

pub highest_level-lt : (k : Kernel) → highest_level k < nlayer
highest_level-lt k = omega (arith, (highest_level-IsHighest k).below)

-- No process that runs or could run stands at a level before the highest.
pub highest_level-le :
    {k : Kernel}
    → IsValid k
    → (j : ℕ) → j < nproc
    → is_counted (k.procs j).state ≡ true
    → highest_level k ≤ (k.procs j).level
highest_level-le {k} v j h c = ground (
  arith,
  v.counts (k.procs j).level (v.levels j),
  census-pos nproc j k.procs h c,
  (highest_level-IsHighest k).skipped (k.procs j).level (omega arith),
)

-- A step of the loops that reaches `swtch`.
pub record IsRun (k : Kernel) (c : Cursor) (i : ℕ) (k' : Kernel) (c' : Cursor) : Type 0 where
  pub in_range : i < nproc
  pub ready : (k.procs i).state ≡ runnable
  pub row : c.ii ≡ highest_level k
  pub at_row : (k.procs i).level ≡ highest_level k
  pub here : i ≡ c.pi
  pub result : k' ≡ dispatch i k

pub sched_step-IsRun :
    (k : Kernel) (c : Cursor) {i : ℕ} {k' : Kernel} {c' : Cursor}
    → sched_step k c ≡ runs i k' c'
    → IsRun k c i k' c'
unfolding sched_step
sched_step-IsRun k c e = ground arith

-- Some process counts at a level with a positive census.
census-witness :
    (l n : ℕ) (ps : ℕ → Proc)
    → 0 < census l n ps
    → (j : ℕ) × (j < n) × (is_counted (ps j).state ≡ true) × ((ps j).level ≡ l)
census-witness l n ps h =
    let (j, lt, p) = tally-witness (weight l) n ps h in
    (j, lt, ground (arith, p), ground (arith, p))

-- Every process that runs or could run is ready: none runs. So it is on one processor when its
-- scheduler looks for work.
abbrev pub NoneRuns : Kernel → Type 0
NoneRuns k = (j : ℕ) → j < nproc → (k.procs j).state ≢ running

-- Where none runs and some process is ready, one is ready at the highest level.
pub ready_at_highest :
    {k : Kernel} (j : ℕ)
    → IsValid k
    → NoneRuns k
    → j < nproc
    → (k.procs j).state ≡ runnable
    → (i : ℕ) × (i < nproc) × ((k.procs i).state ≡ runnable) × ((k.procs i).level ≡ highest_level k)
ready_at_highest {k} j v idle h ready = elim (highest_level-IsHighest k).stops [
  | inl last ↦
      (j, h, ready, omega (arith, v.levels j, highest_level-le v j h (ground (arith, ready))))
  | inr some_there ↦
      let (i, lt, c, e) =
        census-witness (highest_level k) nproc k.procs
          (omega (arith, some_there, v.counts (highest_level k) (highest_level-lt k))) in
      (i, lt, counted_ready i lt c, e)
]
  where
    counted_ready :
        (i : ℕ) → i < nproc → is_counted (k.procs i).state ≡ true → (k.procs i).state ≡ runnable
    counted_ready i lt c = ground (arith, idle i lt)
