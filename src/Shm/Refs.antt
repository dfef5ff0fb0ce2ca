-- ===== src/Shm/Refs.antt =====
-- The reference counts of projects/p3/p3b/xv6/kernel/vm.c: `shmem_count[key]` is the number of
-- processes attached to the region, after every call that succeeds.
use cs537_fall.Prelude.{
  ℕ, ◌+◌, ◌≤◌, ◌<◌, ◌≡◌, refl, ◌==◌, leb, if◌then◌else◌, false, Bool-cases, inl, inr, ap, arith,
}
use cs537_fall.Prelude.Arrays.{update}
use cs537_fall.Prelude.Loops.{for_below_inv}
use cs537_fall.Prelude.Tally.{tally-update, tally-le}
use cs537_fall.Mlfq.State.{is_unused}
use cs537_fall.Shm.State.{regions, nproc, Proc, Shm, incr, decr, put, attaches, refs}
use cs537_fall.Shm.Calls.{free_pages, shm_decrease_count, shm_increase_count, drop_region}

-- Every count is the number of attached processes.
abbrev pub IsCounted : Shm → Type 0
IsCounted m = (key : ℕ) → key < regions → m.count key ≡ refs key nproc m.procs

pub refs-update :
    (key i : ℕ) (q : Proc) (ps : ℕ → Proc)
    → i < nproc
    → refs key nproc (update ps i q) + attaches key (ps i) ≡ refs key nproc ps + attaches key q
refs-update key i q ps h = tally-update (attaches key) nproc i q ps h

pub refs-le : (key : ℕ) (ps : ℕ → Proc) → refs key nproc ps ≤ nproc
refs-le key ps = tally-le (attaches key) (λ p. ground arith) nproc ps

-- Only the counts, the frame addresses and the free list change.
pub record SameTable (m s : Shm) : Type 0 where
  pub procs : s.procs ≡ m.procs
  pub pages : s.pages ≡ m.pages
  pub nextpid : s.nextpid ≡ m.nextpid

free_pages-SameTable :
    (key n : ℕ) (m : Shm)
    → SameTable m (free_pages key n m) × ((free_pages key n m).count ≡ m.count)
unfolding free_pages
free_pages-SameTable key n m =
    for_below_inv (λ s. SameTable m s × (s.count ≡ m.count)) n _
      (λ i s h p. (record { procs = p.0.procs; pages = p.0.pages; nextpid = p.0.nextpid }, p.1)) m
      (record { procs = refl; pages = refl; nextpid = refl }, refl)

-- One step of a count of a valid key: `f` is `incr` or `decr`.
pub record IsStep (f : ℕ → ℕ) (key : ℕ) (m s : Shm) : Type 0 where
  pub same : SameTable m s
  pub count : (j : ℕ) → s.count j ≡ (if key == j then f (m.count key) else m.count j)

pub decrease-IsStep :
    (key : ℕ) (m : Shm) → key < regions → IsStep decr key m (shm_decrease_count key m)
unfolding shm_decrease_count
decrease-IsStep key m h = elim (Bool-cases (leb regions key)) [
  | inl out ↦ absurd (ground arith)
  | inr inside ↦ elim (Bool-cases (update m.count key (decr (m.count key)) key == 0)) [
    | inl last ↦ rw (inside, last) freed
    | inr more ↦
        rw (inside, more)
          (record {
            same = record { procs = refl; pages = refl; nextpid = refl };
            count = λ j. refl;
          })
  ]
]
  where
    lowered : Shm
    lowered = record m { count = update m.count key (decr (m.count key)) }

    freed : IsStep decr key m (free_pages key (m.pages key) lowered)
    freed =
        let p = free_pages-SameTable key (m.pages key) lowered in
        record {
          same = record { procs = p.0.procs; pages = p.0.pages; nextpid = p.0.nextpid };
          count = λ j. ap (λ (f : ℕ → ℕ). f j) p.1;
        }

pub increase-IsStep :
    (key : ℕ) (m : Shm) → key < regions → IsStep incr key m (shm_increase_count key m)
unfolding shm_increase_count
increase-IsStep key m h = elim (Bool-cases (leb regions key)) [
  | inl out ↦ absurd (ground arith)
  | inr inside ↦
      rw inside
        (record { same = record { procs = refl; pages = refl; nextpid = refl }; count = λ j. refl })
]

-- Slot `i` is in use.
abbrev pub InUse : ℕ → Shm → Type 0
InUse i m = is_unused (m.procs i).state ≡ false

-- Leaving one region takes the process off its count.
pub leave-IsCounted :
    (i key : ℕ) (m s : Shm)
    → i < nproc
    → key < regions
    → InUse i m
    → ((m.procs i).vaddr key == 0) ≡ false
    → IsStep decr key m s
    → IsCounted m
    → IsCounted (put i (record (s.procs i) { vaddr = update (s.procs i).vaddr key 0 }) s)
leave-IsCounted i key m s h hk used held d c j hj = ground (
  arith,
  refs-update j i (record (s.procs i) { vaddr = update (s.procs i).vaddr key 0 }) s.procs h,
  d.same.procs,
  d.count j,
  c j hj,
  refs-le j m.procs,
  used,
  held,
)

-- The body of the loop of `exec` keeps the counts.
pub drop_region-IsCounted :
    (cur key : ℕ) (m : Shm)
    → cur < nproc
    → key < regions
    → InUse cur m
    → IsCounted m
    → IsCounted (drop_region cur key m) × InUse cur (drop_region cur key m)
unfolding drop_region
drop_region-IsCounted cur key m h hk used c = elim (Bool-cases ((m.procs cur).vaddr key == 0)) [
  | inl free ↦ rw free (
    λ j hj. ground (
      arith,
      refs-update j cur (record (m.procs cur) { vaddr = update (m.procs cur).vaddr key 0 }) m.procs
          h,
      c j hj,
      free,
    ),
    ground arith,
  )
  | inr held ↦
      let d = decrease-IsStep key m hk in
      rw held (leave-IsCounted cur key m _ h hk used held d c, ground (arith, d.same.procs, used))
]
