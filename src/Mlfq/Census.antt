-- ===== src/Mlfq/Census.antt =====
-- The invariant of the table of projects/p2/p2b/xv6/xv6/kernel/proc.c: `ninlevel` is the census of
-- the processes that run or could run, level by level. A change of one slot keeps it if the change
-- of `ninlevel` follows the slot's weight.
use cs537_fall.Prelude.{
  ℕ, suc, ◌+◌, ◌%◌, ◌^◌, ◌≤◌, ◌<◌, ◌≡◌, ◌∙◌, ◌==◌, if◌then◌else◌, true, false, arith,
}
use native.Mathlib.Decide.{ℕ_discrete}
use cs537_fall.Prelude.Arrays.{update}
use cs537_fall.Prelude.Tally.{tally-update, tally-le, tally-pos}
use cs537_fall.Mlfq.State.{
  nproc, nlayer, Proc, Kernel, incr, decr, put, enter_level, leave_level, is_counted, weight,
  census,
}

-- Changing one slot changes the census by that slot's weight.
pub census-update :
    (l n i : ℕ) (q : Proc) (ps : ℕ → Proc)
    → i < n
    → census l n (update ps i q) + weight l (ps i) ≡ census l n ps + weight l q
census-update l n i q ps h = tally-update (weight l) n i q ps h

pub census-le : (l n : ℕ) (ps : ℕ → Proc) → census l n ps ≤ n
census-le l n ps = tally-le (weight l) (λ p. ground arith) n ps

-- A process that counts is in the census of its level.
pub census-pos :
    (n i : ℕ) (ps : ℕ → Proc)
    → i < n
    → is_counted (ps i).state ≡ true
    → 0 < census (ps i).level n ps
census-pos n i ps h c = tally-pos (weight (ps i).level) n i ps h (ground arith)

-- Every level is one of the four, and `ninlevel`, as an int, is the census but for `owed` processes of
-- level 0 that a `fork` has made RUNNABLE and has not counted yet.
pub record IsBalanced (owed : ℕ) (k : Kernel) : Type 0 where
  pub levels : (i : ℕ) → (k.procs i).level < nlayer
  pub fits : (l : ℕ) → k.ninlevel l < 2 ^ 32
  pub counts :
      (l : ℕ)
      → l < nlayer
      → (k.ninlevel l + (if l == 0 then owed else 0)) % 2 ^ 32 ≡ census l nproc k.procs

-- Every level is one of the four, and `ninlevel` is the census.
pub record IsValid (k : Kernel) : Type 0 where
  pub levels : (i : ℕ) → (k.procs i).level < nlayer
  pub counts : (l : ℕ) → l < nlayer → k.ninlevel l ≡ census l nproc k.procs

-- Where no `fork` has a child that it has not counted, `ninlevel` is the census.
pub IsBalanced-IsValid : (k : Kernel) → IsBalanced 0 k → IsValid k
IsBalanced-IsValid k b = record {
  levels = b.levels;
  counts = λ l hl. ground (arith, b.counts l hl, b.fits l);
}

-- Slot `i` becomes `q`, which counts at the same levels.
pub put-IsBalanced :
    {owed : ℕ} (i : ℕ) (q : Proc) (k : Kernel)
    → i < nproc
    → q.level < nlayer
    → ((l : ℕ) → l < nlayer → weight l q ≡ weight l (k.procs i))
    → IsBalanced owed k
    → IsBalanced owed (put i q k)
put-IsBalanced i q k h small same v = record {
  levels = λ j. ground (arith, v.levels j);
  fits = v.fits;
  counts = λ l hl. v.counts l hl ∙ omega (arith, census-update l nproc i q k.procs h, same l hl);
}

-- `ninlevel` goes up or down by one at a level.
pub incr-counts : (x d c : ℕ) → c < 64 → (x + d) % 2 ^ 32 ≡ c → (incr x + d) % 2 ^ 32 ≡ c + 1
incr-counts x d c small e = omega arith

pub decr-counts :
    (x d c : ℕ) → c < 64 → x < 2 ^ 32 → (x + d) % 2 ^ 32 ≡ c + 1 → (decr x + d) % 2 ^ 32 ≡ c
decr-counts x d c small fits e = omega arith

-- Slot `i` begins to count: `ninlevel` goes up at its new level.
pub enter-IsBalanced :
    {owed : ℕ} (i m : ℕ) (q : Proc) (k : Kernel)
    → i < nproc
    → q.level ≡ m
    → m < nlayer
    → is_counted (k.procs i).state ≡ false
    → is_counted q.state ≡ true
    → IsBalanced owed k
    → IsBalanced owed (enter_level m (put i q k))
enter-IsBalanced {owed} i m q k h e small before after v = record {
  levels = λ j. ground (arith, v.levels j);
  fits = λ l. ground (arith, v.fits l);
  counts = λ l hl.
      let moved = census-update l nproc i q k.procs h in
      let most = census-le l nproc (update k.procs i q) in
      elim (ℕ_discrete m l) [
        | yes here ↦
            let up =
              incr-counts (k.ninlevel l) (if l == 0 then owed else 0) (census l nproc k.procs)
                (ground arith) (v.counts l hl) in
            ground arith
        | no other ↦ ground (arith, v.counts l hl)
      ];
}

-- Slot `i` stops to count: `ninlevel` goes down at its old level.
pub leave-IsBalanced :
    {owed : ℕ} (i m : ℕ) (q : Proc) (k : Kernel)
    → i < nproc
    → (k.procs i).level ≡ m
    → q.level < nlayer
    → is_counted (k.procs i).state ≡ true
    → is_counted q.state ≡ false
    → IsBalanced owed k
    → IsBalanced owed (leave_level m (put i q k))
leave-IsBalanced {owed} i m q k h e small before after v = record {
  levels = λ j. ground (arith, v.levels j);
  fits = λ l. ground (arith, v.fits l);
  counts = λ l hl.
      let moved = census-update l nproc i q k.procs h in
      let most = census-le l nproc k.procs in
      elim (ℕ_discrete m l) [
        | yes here ↦
            let one : census l nproc k.procs ≡ census l nproc (update k.procs i q) + 1 =
              ground arith in
            let down =
              decr-counts (k.ninlevel l) (if l == 0 then owed else 0)
                (census l nproc (update k.procs i q)) (omega arith) (v.fits l)
                (v.counts l hl ∙ one) in
            ground arith
        | no other ↦ ground (arith, v.counts l hl)
      ];
}

-- A child of level 0 becomes RUNNABLE before it is counted.
pub show-IsBalanced :
    {owed : ℕ} (i : ℕ) (q : Proc) (k : Kernel)
    → i < nproc
    → q.level ≡ 0
    → is_counted (k.procs i).state ≡ false
    → is_counted q.state ≡ true
    → IsBalanced owed k
    → IsBalanced (suc owed) (put i q k)
show-IsBalanced {owed} i q k h e before after v = record {
  levels = λ j. ground (arith, v.levels j);
  fits = v.fits;
  counts = λ l hl.
      let moved = census-update l nproc i q k.procs h in
      let most = census-le l nproc (update k.procs i q) in ground (arith, v.counts l hl);
}

-- The child is counted.
pub count-IsBalanced :
    {owed : ℕ} (k : Kernel) → IsBalanced (suc owed) k → IsBalanced owed (enter_level 0 k)
count-IsBalanced k v = record {
  levels = v.levels;
  fits = λ l. ground (arith, v.fits l);
  counts = λ l hl. ground (arith, v.counts l hl);
}
