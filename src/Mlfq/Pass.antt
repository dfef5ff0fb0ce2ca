-- ===== src/Mlfq/Pass.antt =====
-- The passes of `scheduler` of projects/p2/p2b/xv6/xv6/kernel/proc.c: the branches of one test of the
-- loops, and the pass of a processor that alone runs processes.
use cs537_fall.Prelude.{
  ℕ, zero, suc, ◌+◌, ◌≤◌, ◌<◌, ◌≡◌, ◌≢◌, refl, sym, subst, ◌&&◌, ◌==◌, true, false, Bool-cases, inl,
  inr, arith,
}
use native.Mathlib.Decide.{ℕ_discrete}
use cs537_fall.Mlfq.State.{nproc, nlayer, runnable, Kernel, is_runnable}
use cs537_fall.Mlfq.Census.{IsValid}
use cs537_fall.Mlfq.Scheduler.{
  Cursor, goes_on, restarts, runs, highest_level, dispatch, sched_step, sched_pass, pass_start,
  resume,
}
use cs537_fall.Mlfq.Priority.{highest_level-lt, NoneRuns, ready_at_highest}

-- The branches of one test of the loops.
module _ (k : Kernel) (ii pi : ℕ) where
  abbrev pub at : Cursor
  at = record { ii = ii; pi = pi }

  pub step_row :
      ii < nlayer → nproc ≤ pi → sched_step k at ≡ goes_on (record { ii = ii + 1; pi = 0 })
  unfolding sched_step
  step_row h e = ground arith

  step_end : nlayer ≤ ii → sched_step k at ≡ restarts
  unfolding sched_step
  step_end h = ground arith

  pub step_skip :
      ii < nlayer
      → pi < nproc
      → is_runnable (k.procs pi).state ≡ false
      → sched_step k at ≡ goes_on (record { ii = ii; pi = pi + 1 })
  unfolding sched_step
  step_skip h e r = ground arith

  pub step_jump :
      ii < nlayer
      → pi < nproc
      → is_runnable (k.procs pi).state ≡ true
      → ii ≢ highest_level k
      → sched_step k at ≡ goes_on (record { ii = highest_level k; pi = 0 })
  unfolding sched_step
  step_jump h e r n = ground arith

  pub step_lower :
      pi < nproc
      → ii ≡ highest_level k
      → (k.procs pi).level ≢ ii
      → sched_step k at ≡ goes_on (record { ii = ii; pi = pi + 1 })
  unfolding sched_step
  step_lower e h n = ground (arith, highest_level-lt k)

  step_run :
      pi < nproc
      → is_runnable (k.procs pi).state ≡ true
      → ii ≡ highest_level k
      → (k.procs pi).level ≡ ii
      → sched_step k at ≡ runs pi (dispatch pi k) (resume k at)
  unfolding sched_step
  step_run e r h l = ground (arith, highest_level-lt k)

-- The pass finds a process within `fuel` tests.
abbrev pub Finds : ℕ → Kernel → Cursor → Type 0
Finds fuel k c = (i : ℕ) × (k' : Kernel) × (c' : Cursor) × (sched_pass fuel k c ≡ runs i k' c')

module _ (fuel : ℕ) (k : Kernel) (c : Cursor) where
  Finds-next : (c' : Cursor) → sched_step k c ≡ goes_on c' → Finds fuel k c' → Finds (suc fuel) k c
  unfolding sched_pass
  Finds-next c' e (i, k', r, found) = (i, k', r, rw (e, sched_pass) found)

  Finds-here :
      (i : ℕ) (k' : Kernel) (c' : Cursor) → sched_step k c ≡ runs i k' c' → Finds (suc fuel) k c
  unfolding sched_pass
  Finds-here i k' c' e = (i, k', c', rw (e, sched_pass))

-- A slot that is ready at the highest level.
abbrev IsTop : Kernel → ℕ → Type 0
IsTop k t = (t < nproc) × ((k.procs t).state ≡ runnable) × ((k.procs t).level ≡ highest_level k)

-- In the row of the highest level the scan ends at a ready process of that level.
Finds-in_row :
    (fuel pi j : ℕ) (k : Kernel)
    → IsTop k j
    → pi ≤ j
    → j < pi + fuel
    → Finds fuel k (record { ii = highest_level k; pi = pi })
Finds-in_row zero pi j k t a h = absurd (omega arith)
Finds-in_row (suc fuel) pi j k (b, ready, top) a h =
    elim (Bool-cases (is_runnable (k.procs pi).state && (k.procs pi).level == highest_level k)) [
      | inl hit ↦
          Finds-here fuel k _ pi (dispatch pi k) _
            (step_run k (highest_level k) pi (omega arith) (ground arith) refl (ground arith))
      | inr miss ↦
          Finds-next fuel k _ _ (step_over miss)
            (Finds-in_row fuel (pi + 1) j k (b, ready, top) (later miss) (omega arith))
    ]
  where
    later :
        (is_runnable (k.procs pi).state && (k.procs pi).level == highest_level k) ≡ false
        → pi + 1 ≤ j
    later miss = elim (ℕ_discrete pi j) [ yes e ↦ absurd (hit_at e miss) | no n ↦ omega arith ]
      where
        hit_at :
            pi ≡ j
            → (is_runnable (k.procs pi).state && (k.procs pi).level == highest_level k) ≡ false
            → ⊥
        hit_at e = rw e (ground (arith, ready, top))

    step_over :
        (is_runnable (k.procs pi).state && (k.procs pi).level == highest_level k) ≡ false
        → sched_step k (record { ii = highest_level k; pi = pi })
          ≡ goes_on (record { ii = highest_level k; pi = pi + 1 })
    step_over miss = elim (Bool-cases (is_runnable (k.procs pi).state)) [
      | inl r ↦ step_lower k (highest_level k) pi (omega arith) refl (ground arith)
      | inr r ↦ step_skip k (highest_level k) pi (highest_level-lt k) (omega arith) r
    ]

-- In another row the scan goes on in the row of the highest level, at the first ready process.
Finds-from_row :
    (fuel ii pi t : ℕ) (k : Kernel)
    → IsTop k t
    → ii < nlayer
    → ii ≢ highest_level k
    → pi ≤ t
    → t + 65 < pi + fuel
    → Finds fuel k (record { ii = ii; pi = pi })
Finds-from_row zero ii pi t k top hi n a h = absurd (omega arith)
Finds-from_row (suc fuel) ii pi t k (b, ready, top) hi n a h =
    elim (Bool-cases (is_runnable (k.procs pi).state)) [
      | inl here ↦
          Finds-next fuel k _ _ (step_jump k ii pi hi (omega arith) here n)
            (Finds-in_row fuel 0 t k (b, ready, top) (omega arith) (omega arith))
      | inr skip ↦
          Finds-next fuel k _ _ (step_skip k ii pi hi (omega arith) skip)
            (Finds-from_row fuel ii (pi + 1) t k (b, ready, top) hi n (later skip) (omega arith))
    ]
  where
    later : is_runnable (k.procs pi).state ≡ false → pi + 1 ≤ t
    later skip = elim (ℕ_discrete pi t) [ yes e ↦ absurd (hit_at e skip) | no d ↦ omega arith ]
      where
        hit_at : pi ≡ t → is_runnable (k.procs pi).state ≡ false → ⊥
        hit_at e = rw e (ground (arith, ready))

-- On one processor a pass that begins with a ready process somewhere runs one within 130 tests.
pub pass-Finds :
    (k : Kernel) (j : ℕ)
    → IsValid k
    → NoneRuns k
    → j < nproc
    → (k.procs j).state ≡ runnable
    → Finds 130 k pass_start
pass-Finds k j v idle h ready =
    let (t, b, r, l) = ready_at_highest j v idle h ready in
    elim (ℕ_discrete 0 (highest_level k)) [
      | yes e ↦ from_first t (b, r, l) e
      | no n ↦ Finds-from_row 130 0 0 t k (b, r, l) (omega arith) n (omega arith) (omega arith)
    ]
  where
    from_first : (t : ℕ) → IsTop k t → 0 ≡ highest_level k → Finds 130 k pass_start
    from_first t top e =
        subst (λ h. Finds 130 k (record { ii = h; pi = 0 })) (sym e)
          (Finds-in_row 130 0 t k top (omega arith) (omega arith))
