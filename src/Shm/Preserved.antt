-- ===== src/Shm/Preserved.antt =====
-- Each call on the shared memory of projects/p3/p3b/xv6/kernel keeps the counts and layouts.
use native.Mathlib.Decide.{ℕ_discrete}
use cs537_fall.Prelude.{
  ℕ, ◌≤◌, ◌<◌, ◌≡◌, ◌≢◌, ◌⊎◌, sym, ◌∙◌, ◌==◌, if◌then◌else◌, true, false, inl, inr, Option, none,
  some, subst, arith,
}
use cs537_fall.Prelude.Arrays.{update}
use cs537_fall.Prelude.Tally.{tally_congr}
use cs537_fall.Mlfq.State.{ProcState, unused, is_unused, done}
use cs537_fall.Shm.State.{regions, nproc, usertop, Proc, Shm, put}
use cs537_fall.Shm.Calls.{shmgetat, fork, exec_commit, reap, grow, shrink}
use cs537_fall.Shm.Refs.{IsCounted, InUse}
use cs537_fall.Shm.Keeps.{put-IsCounted, exec_commit-IsCounted, reap-IsCounted}
use cs537_fall.Shm.Fork.{fork-IsCounted}
use cs537_fall.Shm.Attach.{IsLaidOut, Got, shmgetat-Got}
use cs537_fall.Shm.Grow.{growproc-IsGrown, take_size-IsCounted}
use cs537_fall.Shm.Others.{
  IsSmall, IsKept, Keeps, shmgetat-Keeps, exec_commit-IsExeced, reap-IsReaped, grow-IsKept,
}
use cs537_fall.Shm.Children.{SameSpace, Forked, fork-Forked}
use cs537_fall.Shm.Steps.{Step, attaches_region, forks, execs, waits, grows, shrinks, turns}

-- The counts are right, no region is too large, and every process has a valid layout.
pub record IsSafe (m : Shm) : Type 0 where
  pub counted : IsCounted m
  pub small : IsSmall m
  pub layouts : (i : ℕ) → i < nproc → InUse i m → IsLaidOut (m.procs i)

-- One slot has changed, and its layout is valid if it is in use.
changed-IsSafe :
    (cur : ℕ) (m s : Shm)
    → IsSafe m
    → ((k : ℕ) → k ≢ cur → s.procs k ≡ m.procs k)
    → (InUse cur s → IsLaidOut (s.procs cur))
    → IsSmall s
    → IsCounted s
    → IsSafe s
changed-IsSafe cur m s v others new small counted = record {
  counted = counted;
  small = small;
  layouts = λ i h used. elim (ℕ_discrete i cur) [
    | yes same ↦
        subst (λ k. IsLaidOut (s.procs k)) (sym same) (new (subst (λ k. InUse k s) same used))
    | no other ↦
        subst IsLaidOut (sym (others i other))
          (v.layouts i h (subst (λ (p : Proc). is_unused p.state ≡ false) (others i other) used))
  ];
}

-- A process without regions has a valid layout if its heap ends at or below USERTOP.
pub bare-IsLaidOut :
    (p : Proc)
    → 0 < p.sz
    → p.sz ≤ usertop
    → p.shmtop ≡ usertop
    → ((j : ℕ) → j < regions → p.vaddr j ≡ 0)
    → IsLaidOut p
bare-IsLaidOut p pos fits top bare = record {
  size_pos = pos;
  heap_below = omega arith;
  top = omega arith;
  room = omega arith;
  regions_above = λ j h set. absurd (set (bare j h));
}

-- The layout is a matter of the size and the regions.
same-IsLaidOut : (p q : Proc) → SameSpace p q → IsLaidOut q → IsLaidOut p
same-IsLaidOut p q e v =
    let weighs =
      tally_congr (λ (a : ℕ). if a == 0 then 0 else 1) regions p.vaddr q.vaddr
        (λ j h. ground (arith, e.vaddr j h)) in
    record {
      size_pos = omega (arith, e.size, v.size_pos);
      heap_below = omega (arith, e.size, e.top, v.heap_below);
      top = omega (arith, e.top, v.top);
      room = omega (arith, e.top, weighs, v.room);
      regions_above = λ j h set.
          omega (arith, e.top, e.vaddr j h, v.regions_above j h (λ z. set (e.vaddr j h ∙ z)));
    }

kept-IsSafe :
    (cur : ℕ) (m s : Shm)
    → IsSafe m
    → IsKept cur m s
    → (InUse cur s → IsLaidOut (s.procs cur))
    → IsCounted s
    → IsSafe s
kept-IsSafe cur m s v k new counted = changed-IsSafe cur m s v k.others new k.small counted

obtained_IsSafe :
    (key num_pages cur : ℕ) (m s : Shm) (r : Option ℕ)
    → IsSafe m
    → IsLaidOut (m.procs cur)
    → Got key num_pages cur m (done (r, s))
    → IsKept cur m s
    → IsSafe s
obtained_IsSafe key num_pages cur m s none v laid e k = subst IsSafe (sym e) v
obtained_IsSafe key num_pages cur m s (some a) v laid g k =
    kept-IsSafe cur m s v k (λ used. g.layout) g.counted

attached-IsSafe :
    (key num_pages cur : ℕ) (m s : Shm) (r : Option ℕ)
    → cur < nproc
    → InUse cur m
    → shmgetat key num_pages cur m ≡ done (r, s)
    → IsSafe m
    → IsSafe s
attached-IsSafe key num_pages cur m s r h used e v =
    let laid = v.layouts cur h used in
    obtained_IsSafe key num_pages cur m s r v laid
      (subst (Got key num_pages cur m) e
        (shmgetat-Got key num_pages cur m h used v.small v.counted laid))
      (subst (Keeps cur m) e (shmgetat-Keeps key num_pages cur m v.small))

child_IsLaidOut :
    (cur i : ℕ) (m s : Shm)
    → IsSafe m
    → i < nproc
    → IsLaidOut (m.procs cur)
    → (((s.procs i).state ≡ unused)
        ⊎ ((s.procs i ≡ m.procs i) ⊎ SameSpace (s.procs i) (m.procs cur)))
    → InUse i s
    → IsLaidOut (s.procs i)
child_IsLaidOut cur i m s v h laid (inl gone) used = absurd (ground (arith, gone, used))
child_IsLaidOut cur i m s v h laid (inr (inl same)) used =
    subst IsLaidOut (sym same)
      (v.layouts i h (subst (λ (p : Proc). is_unused p.state ≡ false) same used))
child_IsLaidOut cur i m s v h laid (inr (inr space)) used =
    same-IsLaidOut (s.procs i) (m.procs cur) space laid

-- The slot that a fork fills is one of the table.
with_child_IsSafe :
    (cur : ℕ) (m s : Shm)
    → IsSafe m
    → IsLaidOut (m.procs cur)
    → Forked cur m s
    → IsCounted s
    → IsSafe s
with_child_IsSafe cur m s v laid (i, o, new) counted = record {
  counted = counted;
  small = λ j h. ground (arith, o.pages, v.small j h);
  layouts = λ k h used. elim (ℕ_discrete k i) [
    | yes same ↦
        subst (λ x. IsLaidOut (s.procs x)) (sym same)
          (child_IsLaidOut cur i m s v (subst (λ x. x < nproc) same h) laid new
            (subst (λ x. InUse x s) same used))
    | no other ↦
        subst IsLaidOut (sym (o.others k other))
          (v.layouts k h (subst (λ (p : Proc). is_unused p.state ≡ false) (o.others k other) used))
  ];
}

execed-IsSafe :
    (sz cur : ℕ) (m : Shm)
    → cur < nproc
    → InUse cur m
    → 0 < sz
    → sz ≤ (m.procs cur).shmtop
    → IsSafe m
    → IsSafe (exec_commit sz cur m)
execed-IsSafe sz cur m h used pos fits v =
    let s = exec_commit sz cur m in
    let (k, e) = exec_commit-IsExeced sz cur m v.small in
    let laid = v.layouts cur h used in
    let pos' : 0 < (s.procs cur).sz = omega (arith, e.size) in
    let fits' : (s.procs cur).sz ≤ usertop = omega (arith, e.size, laid.top) in
    kept-IsSafe cur m s v k (λ used'. bare-IsLaidOut (s.procs cur) pos' fits' e.top e.left)
      (exec_commit-IsCounted sz cur m h used v.counted)

reaped-IsSafe : (i : ℕ) (m : Shm) → i < nproc → InUse i m → IsSafe m → IsSafe (reap i m)
reaped-IsSafe i m h used v =
    let r = reap-IsReaped i m v.small in
    changed-IsSafe i m (reap i m) v r.others (λ used'. absurd (ground (arith, r.state, used')))
      r.small (reap-IsCounted i m h used v.counted)

turned-IsSafe :
    (st : ProcState) (i : ℕ) (m : Shm)
    → i < nproc
    → InUse i m
    → is_unused st ≡ false
    → IsSafe m
    → IsSafe (put i (record (m.procs i) { state = st }) m)
turned-IsSafe st i m h used live v =
    let p = record (m.procs i) { state = st } in
    let space : SameSpace (update m.procs i p i) (m.procs i) = record {
      size = ground arith;
      top = ground arith;
      vaddr = λ j hj. ground arith;
    } in
    changed-IsSafe i m (put i p m) v (λ k ne. ground (arith, ne))
      (λ used'. same-IsLaidOut (update m.procs i p i) (m.procs i) space (v.layouts i h used))
      v.small (put-IsCounted i p m h (λ j hj. ground (arith, used, live)) v.counted)

-- Every call keeps it.
pub Step-IsSafe : {m s : Shm} → Step m s → IsSafe m → IsSafe s
unfolding grow shrink
Step-IsSafe {m} {s} (attaches_region {r} key num_pages cur h used e) v =
    attached-IsSafe key num_pages cur m s r h used e v
Step-IsSafe {m} (forks kstack pgdir cur mapped h used) v =
    with_child_IsSafe cur m (fork kstack pgdir cur m).1 v (v.layouts cur h used)
      (fork-Forked kstack pgdir cur m mapped used v.counted)
      (fork-IsCounted kstack pgdir cur m mapped used v.counted)
Step-IsSafe {m} (execs sz cur h used pos fits) v = execed-IsSafe sz cur m h used pos fits v
Step-IsSafe {m} (waits i h used) v = reaped-IsSafe i m h used v
Step-IsSafe {m} (grows enough n cur h used) v =
    kept-IsSafe cur m (grow enough n cur m).1 v (grow-IsKept enough n cur m v.small).0
      (λ used'. (growproc-IsGrown enough n cur m (v.layouts cur h used)).0.layout)
      (take_size-IsCounted _ cur m h v.counted)
Step-IsSafe {m} (shrinks n cur h used) v =
    kept-IsSafe cur m (shrink n cur m).1 v (grow-IsKept true n cur m v.small).1
      (λ used'. (growproc-IsGrown true n cur m (v.layouts cur h used)).1.layout)
      (take_size-IsCounted _ cur m h v.counted)
Step-IsSafe {m} (turns st i h used live) v = turned-IsSafe st i m h used live v
