-- ===== src/Mlfq/Demote.antt =====
-- The scheduler of projects/p2/p2b/xv6/xv6/kernel/proc.c and the starvation check move a process
-- between two levels: both keep the balance of `ninlevel` and
-- the census.
use cs537_fall.Prelude.{
  ℕ, not, ◌&&◌, ◌+◌, ◌-◌, ◌<◌, ◌≡◌, ◌≢◌, refl, ◌==◌, true, Bool-cases, inl, inr, ◌∙◌, if◌then◌else◌,
  arith,
}
use native.Mathlib.Decide.{ℕ_discrete}
use cs537_fall.Prelude.Loops.{for_below_inv}
use cs537_fall.Prelude.Arrays.{update}
use cs537_fall.Mlfq.State.{
  nproc, nlayer, runnable, Proc, Kernel, put, enter_level, leave_level, census, is_counted,
  is_runnable,
}
use cs537_fall.Mlfq.Census.{
  IsBalanced, incr-counts, decr-counts, put-IsBalanced, census-update, census-le,
}
use cs537_fall.Mlfq.Scheduler.{dispatch, ticked, used_up}
use cs537_fall.Mlfq.Boost.{boost_slot, boosted, is_starved, snapshot, check_starve_and_boost}

-- Slot `i`, which counts, moves to the level of `q`.
pub move-IsBalanced :
    {owed : ℕ}
    → (i m m' : ℕ) (q : Proc) (k : Kernel) → i < nproc
    → (k.procs i).level ≡ m
    → q.level ≡ m'
    → m ≢ m'
    → m' < nlayer
    → is_counted (k.procs i).state ≡ true
    → is_counted q.state ≡ true
    → IsBalanced owed k
    → IsBalanced owed (enter_level m' (put i q (leave_level m k)))
move-IsBalanced {owed} i m m' q k h e e' ne small before after v = record {
  levels = λ j. ground (arith, v.levels j);
  fits = λ l. ground (arith, v.fits l);
  counts = λ l hl.
      let moved = census-update l nproc i q k.procs h in
      let most = census-le l nproc k.procs in
      let most' = census-le l nproc (update k.procs i q) in
      let d = if l == 0 then owed else 0 in
      elim (ℕ_discrete m l) [
        | yes from ↦
            let one : census l nproc k.procs ≡ census l nproc (update k.procs i q) + 1 =
              ground arith in
            let down =
              decr-counts (k.ninlevel l) d (census l nproc (update k.procs i q)) (omega arith)
                (v.fits l) (v.counts l hl ∙ one) in
            ground arith
        | no stays ↦ elim (ℕ_discrete m' l) [
          | yes to ↦
              let up =
                incr-counts (k.ninlevel l) d (census l nproc k.procs) (ground arith)
                  (v.counts l hl) in
              ground arith
          | no other ↦ ground (arith, v.counts l hl)
        ]
      ];
}

pub dispatch-IsBalanced :
    {owed : ℕ}
    → (i : ℕ) (k : Kernel) → i < nproc
    → (k.procs i).state ≡ runnable
    → IsBalanced owed k
    → IsBalanced owed (dispatch i k)
unfolding dispatch
dispatch-IsBalanced i k h ready v =
    let w = put-IsBalanced i (ticked (k.procs i)) k h (v.levels i) (λ l hl. ground arith) v in
    elim (Bool-cases (used_up (k.procs i) && not ((k.procs i).level == 3))) [
      | inl lowered ↦ rw lowered (
          move-IsBalanced i (k.procs i).level ((k.procs i).level + 1)
            (record (ticked (k.procs i)) { level = (k.procs i).level + 1 })
            (put i (ticked (k.procs i)) k) h (ground arith) refl (omega arith)
            (ground (arith, v.levels i)) (ground arith) refl w)
      | inr stays ↦ rw stays w
    ]

snapshot-IsBalanced :
    {owed : ℕ} → (i : ℕ) (k : Kernel) → IsBalanced owed k → IsBalanced owed (snapshot i k)
snapshot-IsBalanced i k v = record { levels = v.levels; fits = v.fits; counts = v.counts }

boost_slot-IsBalanced :
    {owed : ℕ}
    → (i : ℕ) (k : Kernel) → i < nproc
    → IsBalanced owed k
    → IsBalanced owed (boost_slot i k)
unfolding boost_slot
boost_slot-IsBalanced i k h v = elim (Bool-cases (is_runnable (k.procs i).state)) [
  | inl ready ↦ elim (Bool-cases (is_starved i k)) [
    | inl starved ↦
        rw (ready, starved)
          (snapshot-IsBalanced i _ (
            move-IsBalanced i (k.procs i).level ((k.procs i).level - 1) (boosted (k.procs i)) k h
              refl refl (ground arith) (omega (arith, v.levels i)) (ground arith) (ground arith) v))
    | inr fed ↦ rw (ready, fed) (snapshot-IsBalanced i k v)
  ]
  | inr other ↦ rw other v
]

pub check_starve_and_boost-IsBalanced :
    {owed : ℕ} → (k : Kernel) → IsBalanced owed k → IsBalanced owed (check_starve_and_boost k)
unfolding check_starve_and_boost
check_starve_and_boost-IsBalanced k v =
    for_below_inv (IsBalanced _) nproc boost_slot (λ i s h w. boost_slot-IsBalanced i s h w) k v
