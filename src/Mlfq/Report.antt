-- ===== src/Mlfq/Report.antt =====
-- `getpinfo` of projects/p2/p2b/xv6/xv6/kernel/proc.c: what a user program reads of the table.
use cs537_fall.Prelude.{ℕ, zero, suc, ◌<◌, ◌≤◌, ◌≡◌, ◌≢◌, refl, ◌∙◌, arith}
use native.Mathlib.Decide.{dec_lt}
use cs537_fall.Prelude.Loops.{for_below}
use cs537_fall.Mlfq.State.{nproc, nlayer, unused, Kernel}
use cs537_fall.Mlfq.Boost.{Pstat, state_code, report_slot, getpinfo}

-- Entry `i` of the report: the state's number in `inuse`, and if the slot is used its pid, level,
-- state and ticks at the four levels; of a slot that is not used the rest stays as it was.
pub record IsReported (k : Kernel) (i : ℕ) (st st' : Pstat) : Type 0 where
  pub inuse : st'.inuse i ≡ state_code (k.procs i).state
  pub pid : (k.procs i).state ≢ unused → st'.pid i ≡ (k.procs i).pid
  pub priority : (k.procs i).state ≢ unused → st'.priority i ≡ (k.procs i).level
  pub state : (k.procs i).state ≢ unused → st'.state i ≡ state_code (k.procs i).state
  pub ticks :
      (k.procs i).state ≢ unused → (l : ℕ) → l < nlayer → st'.ticks i l ≡ (k.procs i).timeticks l
  pub stale :
      (k.procs i).state ≡ unused
      → (st'.pid i ≡ st.pid i)
        × (st'.priority i ≡ st.priority i)
        × (st'.state i ≡ st.state i)
        × (st'.ticks i ≡ st.ticks i)

-- Entry `i` of both reports is the same.
pub record SameEntry (i : ℕ) (st st' : Pstat) : Type 0 where
  pub inuse : st'.inuse i ≡ st.inuse i
  pub pid : st'.pid i ≡ st.pid i
  pub priority : st'.priority i ≡ st.priority i
  pub state : st'.state i ≡ st.state i
  pub ticks : st'.ticks i ≡ st.ticks i

report_slot-IsReported : (k : Kernel) (i : ℕ) (st : Pstat) → IsReported k i st (report_slot k i st)
unfolding report_slot for_below
report_slot-IsReported k i st = record {
  inuse = ground arith;
  pid = λ u. ground arith;
  priority = λ u. ground arith;
  state = λ u. ground arith;
  ticks = λ u l h. ground arith;
  stale = λ u. ground arith;
}

report_slot-SameEntry :
    (k : Kernel) (i j : ℕ) (st : Pstat) → j ≢ i → SameEntry i st (report_slot k j st)
unfolding report_slot
report_slot-SameEntry k i j st n = record {
  inuse = ground arith;
  pid = ground arith;
  priority = ground arith;
  state = ground arith;
  ticks = ground arith;
}

entries_before :
    (n i : ℕ) (k : Kernel) (st : Pstat) → n ≤ i → SameEntry i st (for_below n (report_slot k) st)
unfolding for_below
entries_before zero i k st h = record {
  inuse = refl;
  pid = refl;
  priority = refl;
  state = refl;
  ticks = refl;
}
entries_before (suc n) i k st h =
    let before = entries_before n i k st (omega arith) in
    let same = report_slot-SameEntry k i n (for_below n (report_slot k) st) (omega arith) in
    record {
      inuse = same.inuse ∙ before.inuse;
      pid = same.pid ∙ before.pid;
      priority = same.priority ∙ before.priority;
      state = same.state ∙ before.state;
      ticks = same.ticks ∙ before.ticks;
    }

IsReported-before :
    {k : Kernel} {i : ℕ} {st s t : Pstat}
    → SameEntry i st s
    → IsReported k i s t
    → IsReported k i st t
IsReported-before a r = record {
  inuse = r.inuse;
  pid = r.pid;
  priority = r.priority;
  state = r.state;
  ticks = r.ticks;
  stale =
      λ u. let (p, q, s, t) = r.stale u in (p ∙ a.pid, q ∙ a.priority, s ∙ a.state, t ∙ a.ticks);
}

IsReported-after :
    {k : Kernel} {i : ℕ} {st s t : Pstat}
    → IsReported k i st s
    → SameEntry i s t
    → IsReported k i st t
IsReported-after r b = record {
  inuse = b.inuse ∙ r.inuse;
  pid = λ u. b.pid ∙ r.pid u;
  priority = λ u. b.priority ∙ r.priority u;
  state = λ u. b.state ∙ r.state u;
  ticks = λ u l h. rw b.ticks (r.ticks u l h);
  stale =
      λ u. let (p, q, s, t) = r.stale u in (b.pid ∙ p, b.priority ∙ q, b.state ∙ s, b.ticks ∙ t);
}

entries_through :
    (n i : ℕ) (k : Kernel) (st : Pstat) → i < n → IsReported k i st (for_below n (report_slot k) st)
unfolding for_below
entries_through zero i k st h = absurd (omega arith)
entries_through (suc n) i k st h = elim (dec_lt i n) [
  | yes before ↦
      IsReported-after (entries_through n i k st before)
        (report_slot-SameEntry k i n _ (omega arith))
  | no late ↦ last (omega arith)
]
  where
    last : i ≡ n → IsReported k i st (report_slot k n (for_below n (report_slot k) st))
    last e =
        rw e
          (IsReported-before (entries_before n n k st (omega arith)) (report_slot-IsReported k n _))

-- `getpinfo` reports every slot: the number of its state, and if it is used its pid, its level, its
-- state and its ticks at each level; the entries of an unused slot keep what the caller had there.
pub getpinfo-IsReported :
    (k : Kernel) (st : Pstat) (i : ℕ) → i < nproc → IsReported k i st (getpinfo k st)
unfolding getpinfo
getpinfo-IsReported k st i h = entries_through nproc i k st h
