-- ===== src/Mlfq/Starvation.antt =====
-- `check_starve_and_boost` of projects/p2/p2b/xv6/xv6/kernel/proc.c against starvation: a ready process
-- that is never run climbs one level with each check.
use cs537_fall.Prelude.{
  ℕ, zero, suc, ◌-◌, ◌≤◌, ◌<◌, ◌≡◌, ◌≢◌, refl, if◌then◌else◌, Bool-cases, inl, inr, ◌∙◌, arith,
}
use native.Mathlib.Decide.{dec_lt}
use cs537_fall.Prelude.Loops.{for_below}
use cs537_fall.Mlfq.State.{nproc, runnable, Kernel}
use cs537_fall.Mlfq.Boost.{boost_slot, is_starved, check_starve_and_boost}

-- Slot `i` is the same in both tables, and so is its snapshot.
pub record SameSlot (i : ℕ) (k k' : Kernel) : Type 0 where
  pub proc : k'.procs i ≡ k.procs i
  pub last_level : k'.last_level i ≡ k.last_level i
  pub last_timeticks : k'.last_timeticks i ≡ k.last_timeticks i

-- The snapshot of slot `i` is what the slot holds.
abbrev pub IsRecorded : ℕ → Kernel → Type 0
IsRecorded i k =
    (k.last_level i ≡ (k.procs i).level)
    × (k.last_timeticks i (k.procs i).level ≡ (k.procs i).timeticks (k.procs i).level)

-- One check of a ready slot: up one level if it starved, else where it was; and recorded.
pub record IsChecked (i : ℕ) (k k' : Kernel) : Type 0 where
  pub still_ready : (k'.procs i).state ≡ runnable
  pub new_level :
      (k'.procs i).level ≡ (if is_starved i k then (k.procs i).level - 1 else (k.procs i).level)
  pub recorded : IsRecorded i k'

boost_slot-SameSlot : (i j : ℕ) (k : Kernel) → j ≢ i → SameSlot i k (boost_slot j k)
unfolding boost_slot
boost_slot-SameSlot i j k n = record {
  proc = ground arith;
  last_level = ground arith;
  last_timeticks = ground arith;
}

boost_slot-IsChecked :
    (i : ℕ) (k : Kernel) → (k.procs i).state ≡ runnable → IsChecked i k (boost_slot i k)
unfolding boost_slot
boost_slot-IsChecked i k ready = elim (Bool-cases (is_starved i k)) [
  | inl starved ↦
      rw (ready, starved)
        (record { still_ready = ground arith; new_level = ground arith; recorded = ground arith })
  | inr fed ↦
      rw (ready, fed)
        (record { still_ready = ground arith; new_level = ground arith; recorded = ground arith })
]

SameSlot-trans : {i : ℕ} {k s t : Kernel} → SameSlot i k s → SameSlot i s t → SameSlot i k t
SameSlot-trans a b = record {
  proc = b.proc ∙ a.proc;
  last_level = b.last_level ∙ a.last_level;
  last_timeticks = b.last_timeticks ∙ a.last_timeticks;
}

-- What `IsChecked` says of a slot depends on that slot alone.
IsChecked-before : {i : ℕ} {k s t : Kernel} → SameSlot i k s → IsChecked i s t → IsChecked i k t
IsChecked-before {i} {k} {s} {t} a c = record {
  still_ready = c.still_ready;
  new_level = same_test;
  recorded = c.recorded;
}
  where
    same_test :
        (t.procs i).level ≡ (if is_starved i k then (k.procs i).level - 1 else (k.procs i).level)
    same_test = rw (← a.proc, ← a.last_level, ← a.last_timeticks) c.new_level

IsChecked-after : {i : ℕ} {k s t : Kernel} → IsChecked i k s → SameSlot i s t → IsChecked i k t
IsChecked-after c b = record {
  still_ready = rw b.proc c.still_ready;
  new_level = rw b.proc c.new_level;
  recorded = rw (b.proc, b.last_level, b.last_timeticks) c.recorded;
}

-- The loop up to slot `n` leaves the slots from `n` on alone.
checks_before : (n i : ℕ) (k : Kernel) → n ≤ i → SameSlot i k (for_below n boost_slot k)
unfolding for_below
checks_before zero i k h = record { proc = refl; last_level = refl; last_timeticks = refl }
checks_before (suc n) i k h =
    SameSlot-trans (checks_before n i k (omega arith)) (boost_slot-SameSlot i n _ (omega arith))

checks_through :
    (n i : ℕ) (k : Kernel)
    → i < n
    → (k.procs i).state ≡ runnable
    → IsChecked i k (for_below n boost_slot k)
unfolding for_below
checks_through zero i k h ready = absurd (omega arith)
checks_through (suc n) i k h ready = elim (dec_lt i n) [
  | yes before ↦
      IsChecked-after (checks_through n i k before ready) (boost_slot-SameSlot i n _ (omega arith))
  | no late ↦ last (omega arith)
]
  where
    last : i ≡ n → IsChecked i k (boost_slot n (for_below n boost_slot k))
    last e =
        let same = checks_before n n k (omega arith) in
        rw e (IsChecked-before same (boost_slot-IsChecked n _ (rw same.proc (rw (← e) ready))))

-- A check treats every ready slot by the rule of its own slot.
pub check-IsChecked :
    (i : ℕ) (k : Kernel)
    → i < nproc
    → (k.procs i).state ≡ runnable
    → IsChecked i k (check_starve_and_boost k)
unfolding check_starve_and_boost
check-IsChecked i k h ready = checks_through nproc i k h ready

-- Time passes for a process that is not run: `n` checks, and between them anything that leaves its
-- slot alone.
pub data Waits (i : ℕ) (k : Kernel) : ℕ → Kernel → Type 0 where
  start : Waits i k 0 k
  idle : {n : ℕ} {s t : Kernel} → Waits i k n s → SameSlot i s t → Waits i k n t
  check : {n : ℕ} {s : Kernel} → Waits i k n s → Waits i k (suc n) (check_starve_and_boost s)

record IsWaiting (i : ℕ) (k : Kernel) (n : ℕ) (s : Kernel) : Type 0 where
  ready : (s.procs i).state ≡ runnable
  recorded : 0 < n → IsRecorded i s
  level_le : (s.procs i).level ≤ (k.procs i).level - (n - 1)
