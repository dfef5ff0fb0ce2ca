-- ===== src/Shm/Others.antt =====
-- shmgetat, exec, wait and growproc of projects/p3/p3b/xv6/kernel change one slot of the process table,
-- and no region gets more than SHMEM_MAX_PAGES pages.
use cs537_fall.Prelude.{
  ℕ, suc, ◌≤◌, ◌<◌, ◌≡◌, ◌≢◌, refl, ◌==◌, ltb, leb, if◌then◌else◌, true, false, Bool, Bool-cases,
  inl, inr, ◌&&◌, Option, arith,
}
use cs537_fall.Prelude.Loops.{for_below, for_below_inv, for_below_ind}
use cs537_fall.Mlfq.State.{unused, Outcome, done, panic}
use cs537_fall.Shm.State.{regions, max_pages, usertop, Proc, Shm, put}
use cs537_fall.Shm.Calls.{
  alloc_pages, attach_addr, attach_pages, place, shmgetat, drop_region, exec_commit, release_region,
  reap, take_size, grow, shrink,
}
use cs537_fall.Shm.Refs.{decrease-IsStep}
use cs537_fall.Shm.Attach.{AllocPages, alloc_pages-AllocPages}

-- No region has more pages than it may have.
abbrev pub IsSmall : Shm → Type 0
IsSmall m = (j : ℕ) → j < regions → m.pages j ≤ max_pages

-- Slot `cur` may change, the others do not.
pub record IsKept (cur : ℕ) (m s : Shm) : Type 0 where
  pub others : (k : ℕ) → k ≢ cur → s.procs k ≡ m.procs k
  pub state : (s.procs cur).state ≡ (m.procs cur).state
  pub small : IsSmall s

put-IsKept :
    (cur : ℕ) (p : Proc) (m : Shm)
    → p.state ≡ (m.procs cur).state
    → IsSmall m
    → IsKept cur m (put cur p m)
put-IsKept cur p m same small = record {
  others = λ k ne. ground (arith, ne);
  state = ground (arith, same);
  small = small;
}

-- The same for a call that may panic.
abbrev pub Keeps : ℕ → Shm → Outcome (Option ℕ × Shm) → Type 0
Keeps cur m panic = Unit
Keeps cur m (done (r, s)) = IsKept cur m s

self-IsKept : (cur : ℕ) (m : Shm) → IsSmall m → IsKept cur m m
self-IsKept cur m small = record { others = λ k ne. refl; state = refl; small = small }

attach_pages-Keeps :
    (key n cur : ℕ) (m : Shm) (o : Outcome Shm)
    → n ≤ max_pages
    → IsSmall m
    → AllocPages m o
    → Keeps cur m (attach_pages key n cur o)
attach_pages-Keeps key n cur m panic few small a = tt
attach_pages-Keeps key n cur m (done s) few small a = record {
  others = λ k ne. ground (arith, a.procs, ne);
  state = ground (arith, a.procs);
  small = λ j h. ground (arith, a.pages, small j h, few);
}

place-Keeps :
    (key : ℕ) (fresh : Bool) (n cur : ℕ) (m : Shm)
    → n ≤ max_pages
    → IsSmall m
    → Keeps cur m (place key fresh n cur m)
place-Keeps key fresh n cur m few small =
    elim (Bool-cases (ltb (attach_addr n (m.procs cur)) (m.procs cur).sz)) [
      | inl full ↦ rw full (self-IsKept cur m small)
      | inr fits ↦ rw fits (pick fresh)
    ]
  where
    pick :
        (fresh : Bool)
        → Keeps cur m (attach_pages key n cur (if fresh then alloc_pages key n m else done m))
    pick true = attach_pages-Keeps key n cur m _ few small (alloc_pages-AllocPages key n m)
    pick false =
        attach_pages-Keeps key n cur m (done m) few small
          (record { count = refl; pages = refl; procs = refl })

pub shmgetat-Keeps :
    (key num_pages cur : ℕ) (m : Shm) → IsSmall m → Keeps cur m (shmgetat key num_pages cur m)
unfolding shmgetat
shmgetat-Keeps key num_pages cur m small = elim (Bool-cases (leb regions key)) [
  | inl out ↦ rw out (self-IsKept cur m small)
  | inr inside ↦ elim (Bool-cases ((m.procs cur).vaddr key == 0)) [
    | inr held ↦ rw (inside, held) (self-IsKept cur m small)
    | inl free ↦ elim (Bool-cases (m.count key == 0)) [
      | inr old ↦
          rw (inside, free, old)
            (place-Keeps key false (m.pages key) cur m (small key (ground arith)) small)
      | inl new ↦ elim (Bool-cases (ltb 0 num_pages && leb num_pages max_pages)) [
        | inl good ↦
            rw (inside, free, new, good) (place-Keeps key true num_pages cur m (ground arith) small)
        | inr bad ↦ rw (inside, free, new, bad) (self-IsKept cur m small)
      ]
    ]
  ]
]

-- How far the loop of `exec` has come: the regions below `n` are left.
record IsDropping (cur : ℕ) (m : Shm) (n : ℕ) (s : Shm) : Type 0 where
  pub kept : IsKept cur m s
  pub top : (s.procs cur).shmtop ≡ usertop
  pub left : (j : ℕ) → j < n → (s.procs cur).vaddr j ≡ 0

drop_region-IsDropping :
    (cur : ℕ) (m : Shm) (n : ℕ) (s : Shm)
    → n < regions
    → IsDropping cur m n s
    → IsDropping cur m (suc n) (drop_region cur n s)
unfolding drop_region
drop_region-IsDropping cur m n s h r = elim (Bool-cases ((s.procs cur).vaddr n == 0)) [
  | inl free ↦ rw free (record {
    kept = record {
      others = λ k ne. ground (arith, r.kept.others k ne, ne);
      state = ground (arith, r.kept.state);
      small = r.kept.small;
    };
    top = ground (arith, r.top);
    left = λ j hj. ground (arith, r.left j);
  })
  | inr held ↦
      let d = decrease-IsStep n s h in
      rw held (record {
        kept = record {
          others = λ k ne. ground (arith, r.kept.others k ne, ne, d.same.procs);
          state = ground (arith, r.kept.state, d.same.procs);
          small = λ j hj. ground (arith, r.kept.small j hj, d.same.pages);
        };
        top = ground (arith, r.top, d.same.procs);
        left = λ j hj. ground (arith, r.left j, d.same.procs);
      })
]

drop_all :
    (cur : ℕ) (m : Shm)
    → IsSmall m
    → IsDropping cur m regions (
        for_below regions (drop_region cur) (put cur (record (m.procs cur) { shmtop = usertop }) m))
drop_all cur m small =
    for_below_ind (IsDropping cur m) regions (drop_region cur)
      (λ n s h r. drop_region-IsDropping cur m n s h r)
      (put cur (record (m.procs cur) { shmtop = usertop }) m)
      (record {
        kept = put-IsKept cur (record (m.procs cur) { shmtop = usertop }) m refl small;
        top = ground arith;
        left = λ j h. absurd (omega arith);
      })

-- What `exec` makes of its slot.
pub record IsExeced (sz cur : ℕ) (s : Shm) : Type 0 where
  pub size : (s.procs cur).sz ≡ sz
  pub top : (s.procs cur).shmtop ≡ usertop
  pub left : (j : ℕ) → j < regions → (s.procs cur).vaddr j ≡ 0

pub exec_commit-IsExeced :
    (sz cur : ℕ) (m : Shm)
    → IsSmall m
    → IsKept cur m (exec_commit sz cur m) × IsExeced sz cur (exec_commit sz cur m)
unfolding exec_commit
exec_commit-IsExeced sz cur m small =
    let r = drop_all cur m small in
    (
      record {
        others = λ k ne. ground (arith, r.kept.others k ne, ne);
        state = ground (arith, r.kept.state);
        small = r.kept.small;
      },
      record {
        size = ground arith;
        top = ground (arith, r.top);
        left = λ j h. ground (arith, r.left j h);
      },
    )

-- `wait` gives the slot back.
pub record IsReaped (i : ℕ) (m s : Shm) : Type 0 where
  pub others : (k : ℕ) → k ≢ i → s.procs k ≡ m.procs k
  pub state : (s.procs i).state ≡ unused
  pub small : IsSmall s

release_region-IsReaped :
    (i : ℕ) (m : Shm) (n : ℕ) (s : Shm)
    → n < regions
    → IsReaped i m s
    → IsReaped i m (release_region i n s)
unfolding release_region
release_region-IsReaped i m n s h r = elim (Bool-cases ((s.procs i).vaddr n == 0)) [
  | inl free ↦ rw free r
  | inr held ↦
      let d = decrease-IsStep n s h in
      rw held (record {
        others = λ k ne. ground (arith, r.others k ne, d.same.procs);
        state = ground (arith, r.state, d.same.procs);
        small = λ j hj. ground (arith, r.small j hj, d.same.pages);
      })
]

pub reap-IsReaped : (i : ℕ) (m : Shm) → IsSmall m → IsReaped i m (reap i m)
unfolding reap
reap-IsReaped i m small =
    for_below_inv (IsReaped i m) regions (release_region i)
      (λ n s h r. release_region-IsReaped i m n s h r)
      (put i (record (m.procs i) { state = unused; pid = 0 }) m)
      (record { others = λ k ne. ground (arith, ne); state = ground arith; small = small })

take_size-IsKept : (sz cur : ℕ) (m : Shm) → IsSmall m → IsKept cur m (take_size sz cur m).1
take_size-IsKept sz cur m small = elim (Bool-cases (sz == 0)) [
  | inl failed ↦ rw failed (self-IsKept cur m small)
  | inr taken ↦ rw taken (put-IsKept cur (record (m.procs cur) { sz = sz }) m refl small)
]

pub grow-IsKept :
    (enough : Bool) (n cur : ℕ) (m : Shm)
    → IsSmall m
    → IsKept cur m (grow enough n cur m).1 × IsKept cur m (shrink n cur m).1
unfolding grow shrink
grow-IsKept enough n cur m small = (take_size-IsKept _ cur m small, take_size-IsKept _ cur m small)
