-- ===== src/Shm/Attach.antt =====
-- shmgetat of projects/p3/p3b/xv6/kernel/vm.c: the region that a process gets, on every branch.
use cs537_fall.Prelude.{
  ℕ, zero, suc, ◌+◌, ◌*◌, ◌≤◌, ◌<◌, ◌≡◌, ◌≢◌, refl, ◌==◌, ltb, leb, if◌then◌else◌, true, false,
  Bool, Bool-cases, inl, inr, ◌&&◌, Option, none, some, List, [], ◌∷◌, subst, length, arith,
}
use native.Mathlib.Decide.{ℕ_discrete}
use cs537_fall.Prelude.Arrays.{update, update_self}
use cs537_fall.Prelude.Tally.{tally-update, tally-le}
use cs537_fall.Mlfq.State.{Outcome, done, panic}
use cs537_fall.Shm.State.{regions, max_pages, nproc, usertop, pgsize, Proc, Shm, incr, refs, held}
use cs537_fall.Shm.Calls.{
  take_page, alloc_page, alloc_pages, attach, attach_addr, attach_pages, place, shmgetat,
}
use cs537_fall.Shm.Refs.{IsCounted, InUse, refs-update, refs-le}

ltb-false : (a b : ℕ) → ltb a b ≡ false → b ≤ a
ltb-false a b e = ground arith

-- What the allocation of pages leaves alone.
pub record IsAllocated (m s : Shm) : Type 0 where
  pub count : s.count ≡ m.count
  pub pages : s.pages ≡ m.pages
  pub procs : s.procs ≡ m.procs

abbrev pub AllocPages : Shm → Outcome Shm → Type 0
AllocPages m (done s) = IsAllocated m s
AllocPages m panic = Unit

take_page-AllocPages :
    (key n : ℕ) (m s : Shm) (pages : List ℕ)
    → IsAllocated m s
    → AllocPages m (take_page key n s pages)
take_page-AllocPages key n m s [] a = tt
take_page-AllocPages key n m s (page ∷ rest) a = record {
  count = a.count;
  pages = a.pages;
  procs = a.procs;
}

alloc_page-AllocPages :
    (key n : ℕ) (m : Shm) (o : Outcome Shm) → AllocPages m o → AllocPages m (alloc_page key n o)
alloc_page-AllocPages key n m panic a = tt
alloc_page-AllocPages key n m (done s) a = take_page-AllocPages key n m s s.free a

pub alloc_pages-AllocPages : (key n : ℕ) (m : Shm) → AllocPages m (alloc_pages key n m)
unfolding alloc_pages
alloc_pages-AllocPages key zero m = record { count = refl; pages = refl; procs = refl }
alloc_pages-AllocPages key (suc n) m =
    alloc_page-AllocPages key n m (alloc_pages key n m) (alloc_pages-AllocPages key n m)

-- Every page comes from the list of free pages; a panic means that they were too few.
abbrev Spent : ℕ → Shm → Outcome Shm → Type 0
Spent n m (done s) = length s.free + n ≡ length m.free
Spent n m panic = length m.free < n

take_page-Spent :
    (key n : ℕ) (m s : Shm) (pages : List ℕ)
    → length pages + n ≡ length m.free
    → Spent (suc n) m (take_page key n s pages)
take_page-Spent key n m s [] e = omega arith
take_page-Spent key n m s (page ∷ rest) e = omega arith

alloc_page-Spent :
    (key n : ℕ) (m : Shm) (o : Outcome Shm) → Spent n m o → Spent (suc n) m (alloc_page key n o)
alloc_page-Spent key n m panic e = omega arith
alloc_page-Spent key n m (done s) e = take_page-Spent key n m s s.free e

alloc_pages-Spent : (key n : ℕ) (m : Shm) → Spent n m (alloc_pages key n m)
unfolding alloc_pages
alloc_pages-Spent key zero m = omega arith
alloc_pages-Spent key (suc n) m =
    alloc_page-Spent key n m (alloc_pages key n m) (alloc_pages-Spent key n m)

-- The layout of a user address space: the heap below `shmtop`, the regions from `shmtop` to
-- USERTOP, at most four pages for each region that the process holds.
pub record IsLaidOut (p : Proc) : Type 0 where
  pub size_pos : 0 < p.sz
  pub heap_below : p.sz ≤ p.shmtop
  pub top : p.shmtop ≤ usertop
  pub room : usertop ≤ p.shmtop + 16384 * held regions p.vaddr
  pub regions_above : (j : ℕ) → j < regions → p.vaddr j ≢ 0 → p.shmtop ≤ p.vaddr j

-- A process that does not hold region `key` holds at most seven.
held-lt : (key : ℕ) (vaddr : ℕ → ℕ) → key < regions → vaddr key ≡ 0 → held regions vaddr < regions
held-lt key vaddr h z = ground (
  arith,
  tally-update (λ (v : ℕ). if v == 0 then 0 else 1) regions key 1 vaddr h,
  tally-le (λ (v : ℕ). if v == 0 then 0 else 1) (λ v. ground arith) regions (update vaddr key 1),
)

-- In a valid layout `shmtop - n * PGSIZE` does not wrap.
attach_addr-eq :
    (key n : ℕ) (p : Proc)
    → key < regions
    → p.vaddr key ≡ 0
    → n ≤ max_pages
    → IsLaidOut p
    → attach_addr n p + n * pgsize ≡ p.shmtop
attach_addr-eq key n p h z small v = omega (arith, held-lt key p.vaddr h z, v.room, v.top)

held-attach :
    (key a : ℕ) (vaddr : ℕ → ℕ)
    → key < regions
    → vaddr key ≡ 0
    → 0 < a
    → held regions (update vaddr key a) ≡ held regions vaddr + 1
held-attach key a vaddr h z pos =
    ground (arith, tally-update (λ (v : ℕ). if v == 0 then 0 else 1) regions key a vaddr h)

-- A new region directly below `shmtop`, of at most four pages, keeps the layout.
attached-IsLaidOut :
    (key n a : ℕ) (p : Proc)
    → key < regions
    → p.vaddr key ≡ 0
    → n ≤ max_pages
    → p.sz ≤ a
    → a + n * pgsize ≡ p.shmtop
    → IsLaidOut p
    → IsLaidOut (record p { vaddr = update p.vaddr key a; shmtop = a })
attached-IsLaidOut key n a p h z small fits e v = record {
  size_pos = v.size_pos;
  heap_below = fits;
  top = omega (arith, v.top);
  room = omega (arith, v.room, held-attach key a p.vaddr h z (omega (arith, v.size_pos)));
  regions_above = λ j hj set. above j hj set;
}
  where
    above : (j : ℕ) → j < regions → update p.vaddr key a j ≢ 0 → a ≤ update p.vaddr key a j
    above j hj set = elim (ℕ_discrete key j) [
      | yes same ↦ ground arith
      | no other ↦ ground (arith, v.regions_above j hj)
    ]

-- What `shmgetat` leaves when it returns address `a`.
pub record IsGot (key cur : ℕ) (a : ℕ) (s : Shm) : Type 0 where
  pub counted : IsCounted s
  pub layout : IsLaidOut (s.procs cur)
  pub address : (s.procs cur).vaddr key ≡ a
  pub above_heap : (s.procs cur).sz ≤ a

-- What `shmgetat` of `num_pages` pages gives. It panics only if no process holds the region and there are
-- fewer free pages than the new region has.
abbrev pub Got : ℕ → ℕ → ℕ → Shm → Outcome (Option ℕ × Shm) → Type 0
Got key num_pages cur m panic = (m.count key ≡ 0) × (length m.free < num_pages)
Got key num_pages cur m (done (none, s)) = s ≡ m
Got key num_pages cur m (done (some a, s)) = IsGot key cur a s

-- Attaching a process adds it to one count.
attach_counts :
    (key cur a j : ℕ) (m : Shm)
    → cur < nproc
    → InUse cur m
    → (m.procs cur).vaddr key ≡ 0
    → 0 < a
    → m.count j ≡ refs j nproc m.procs
    → update m.count key (incr (m.count key)) j
      ≡ refs j nproc (
          update m.procs cur
            (record (m.procs cur) { vaddr = update (m.procs cur).vaddr key a; shmtop = a }))
attach_counts key cur a j m h used z pos c = ground (
  arith,
  refs-le j m.procs,
  refs-update j cur (record (m.procs cur) { vaddr = update (m.procs cur).vaddr key a; shmtop = a })
      m.procs h,
  used,
  z,
)

module _ (key n num_pages cur : ℕ) (h : cur < nproc) (hk : key < regions)
    (small : n ≤ max_pages) where
  -- The caller, not attached to `key`, with room for `n` pages, in a table with the right counts.
  record CanAttach (m : Shm) : Type 0 where
    used : InUse cur m
    counted : IsCounted m
    layout : IsLaidOut (m.procs cur)
    free : (m.procs cur).vaddr key ≡ 0
    fits : (m.procs cur).sz ≤ attach_addr n (m.procs cur)

  attach-IsGot :
      (m : Shm) → CanAttach m → IsGot key cur (attach_addr n (m.procs cur)) (attach key n cur m)
  attach-IsGot m c =
      let p = m.procs cur in
      let a = attach_addr n p in
      let q = record p { vaddr = update p.vaddr key a; shmtop = a } in
      record {
        counted = λ j hj.
            attach_counts key cur a j m h c.used c.free (omega (arith, c.fits, c.layout.size_pos))
              (c.counted j hj);
        layout = rw (update_self m.procs cur q) (
            attached-IsLaidOut key n a p hk c.free small c.fits
              (attach_addr-eq key n p hk c.free small c.layout) c.layout);
        address = ground arith;
        above_heap = rw (update_self m.procs cur q) c.fits;
      }

  attach_pages-Got :
      (m : Shm) (o : Outcome Shm)
      → CanAttach m
      → AllocPages m o
      → (o ≡ panic → (m.count key ≡ 0) × (length m.free < num_pages))
      → Got key num_pages cur m (attach_pages key n cur o)
  attach_pages-Got m panic c a short = short refl
  attach_pages-Got m (done s) c a short = attach-IsGot s (record {
    used = rw a.procs c.used;
    counted = λ j hj. rw (a.procs, a.count) (c.counted j hj);
    layout = rw a.procs c.layout;
    free = rw a.procs c.free;
    fits = rw a.procs c.fits;
  })

  place-Got :
      (fresh : Bool) (m : Shm)
      → InUse cur m
      → IsCounted m
      → IsLaidOut (m.procs cur)
      → (m.procs cur).vaddr key ≡ 0
      → (fresh ≡ true → (m.count key ≡ 0) × (n ≡ num_pages))
      → Got key num_pages cur m (place key fresh n cur m)
  place-Got fresh m used c v z new =
      elim (Bool-cases (ltb (attach_addr n (m.procs cur)) (m.procs cur).sz)) [
        | inl full ↦ rw full refl
        | inr fits ↦
            let can : CanAttach m = record {
              used = used;
              counted = c;
              layout = v;
              free = z;
              fits = ltb-false _ _ fits;
            } in
            rw fits (pick fresh new can)
      ]
    where
      too_few : alloc_pages key n m ≡ panic → length m.free < n
      too_few e = subst (Spent n m) e (alloc_pages-Spent key n m)

      pick :
          (fresh : Bool)
          → (fresh ≡ true → (m.count key ≡ 0) × (n ≡ num_pages))
          → CanAttach m
          → Got key num_pages cur m
              (attach_pages key n cur (if fresh then alloc_pages key n m else done m))
      pick true new can =
          attach_pages-Got m _ can (alloc_pages-AllocPages key n m)
            (λ e. ((new refl).0, subst (λ k. length m.free < k) (new refl).1 (too_few e)))
      pick false new can =
          attach_pages-Got m (done m) can (record { count = refl; pages = refl; procs = refl })
            (λ e. absurd (cc))

-- For a process in use with a valid layout, where every count is the number of attached processes and no
-- region has more than four pages, `shmgetat` either leaves everything as it was and returns -1, or
-- returns the address of the region: the process holds the region at that address, at or above the end
-- of its heap, its layout is valid, and every count is the number of attached processes. It panics only if
-- the region is new and fewer pages are free than are asked for.
pub shmgetat-Got :
    (key num_pages cur : ℕ) (m : Shm)
    → cur < nproc
    → InUse cur m
    → ((j : ℕ) → j < regions → m.pages j ≤ max_pages)
    → IsCounted m
    → IsLaidOut (m.procs cur)
    → Got key num_pages cur m (shmgetat key num_pages cur m)
unfolding shmgetat
shmgetat-Got key num_pages cur m h used small c v = elim (Bool-cases (leb regions key)) [
  | inl out ↦ rw out refl
  | inr inside ↦ elim (Bool-cases ((m.procs cur).vaddr key == 0)) [
    | inr held ↦
        rw (inside, held)
          (record {
            counted = c;
            layout = v;
            address = refl;
            above_heap =
                omega (arith, v.heap_below, v.regions_above key (ground arith) (ground arith));
          })
    | inl free ↦ elim (Bool-cases (m.count key == 0)) [
      | inr old ↦
          rw (inside, free, old)
            (place-Got key (m.pages key) num_pages cur h (ground arith) (small key (ground arith))
              false m used c v (ground arith) (λ e. absurd (cc)))
      | inl new ↦ elim (Bool-cases (ltb 0 num_pages && leb num_pages max_pages)) [
        | inl good ↦
            rw (inside, free, new, good)
              (place-Got key num_pages num_pages cur h (ground arith) (ground arith) true m used c v
                (ground arith) (λ e. (ground arith, refl)))
        | inr bad ↦ rw (inside, free, new, bad) refl
      ]
    ]
  ]
]
