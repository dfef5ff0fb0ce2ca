-- ===== src/Shm/Grow.antt =====
-- growproc of projects/p3/p3b/xv6/kernel/proc.c with the bound that kernel/vm.c sets: the heap stays
-- below the shared regions.
use cs537_fall.Prelude.{
  ℕ, ◌+◌, ◌-◌, ◌%◌, ◌^◌, ◌≤◌, ◌<◌, ◌≡◌, refl, ◌==◌, ltb, leb, Bool, Bool-cases, true, false, inl,
  inr, ◌⊎◌, arith,
}
use cs537_fall.Prelude.Arrays.{update_self}
use cs537_fall.Shm.State.{nproc, Proc, Shm}
use cs537_fall.Shm.Refs.{IsCounted}
use cs537_fall.Shm.Keeps.{put-IsCounted}
use cs537_fall.Shm.Calls.{allocuvm, deallocuvm, take_size, grow, shrink}
use cs537_fall.Shm.Attach.{IsLaidOut}

-- A result of `growproc`: on failure nothing has changed; on success the layout is valid and the
-- size is the one that was asked for, or the old one.
pub record IsGrown (cur newsz : ℕ) (m : Shm) (r : Bool × Shm) : Type 0 where
  pub layout : IsLaidOut (r.1.procs cur)
  pub failed : r.0 ≡ false → r.1 ≡ m
  pub size : r.0 ≡ true → ((r.1.procs cur).sz ≡ newsz) ⊎ ((r.1.procs cur).sz ≡ (m.procs cur).sz)

resized :
    (sz : ℕ) (p : Proc) → 0 < sz → sz ≤ p.shmtop → IsLaidOut p → IsLaidOut (record p { sz = sz })
resized sz p pos fits v = record {
  size_pos = pos;
  heap_below = fits;
  top = v.top;
  room = v.room;
  regions_above = v.regions_above;
}

-- A size for the end of `growproc`: a failure, or one that fits and is the new or the old one.
abbrev IsSize : ℕ → Proc → ℕ → Type 0
IsSize newsz p sz = (sz ≡ 0) ⊎ ((sz ≤ p.shmtop) × ((sz ≡ newsz) ⊎ (sz ≡ p.sz)))

take_size-IsGrown :
    (newsz sz cur : ℕ) (m : Shm)
    → IsLaidOut (m.procs cur)
    → IsSize newsz (m.procs cur) sz
    → IsGrown cur newsz m (take_size sz cur m)
take_size-IsGrown newsz sz cur m v fits = elim (Bool-cases (sz == 0)) [
  | inl failed ↦ rw failed (record { layout = v; failed = λ e. refl; size = λ e. absurd (cc) })
  | inr taken ↦ rw taken (record {
    layout =
        rw (update_self m.procs cur (record (m.procs cur) { sz = sz }))
          (resized sz (m.procs cur) (ground arith) (ground arith) v);
    failed = λ e. absurd (cc);
    size = λ e. ground arith;
  })
]

allocuvm-IsSize :
    (enough : Bool) (p : Proc) (newsz : ℕ)
    → p.sz ≤ p.shmtop
    → IsSize newsz p (allocuvm enough p newsz)
unfolding allocuvm
allocuvm-IsSize enough p newsz below = elim (Bool-cases (ltb p.shmtop newsz)) [
  | inl over ↦ rw over (inl refl)
  | inr fits ↦ elim (Bool-cases (ltb newsz p.sz)) [
    | inl wraps ↦ rw (fits, wraps) (inr (below, inr refl))
    | inr up ↦ elim (Bool-cases enough) [
      | inl good ↦ rw (fits, up, good) (inr (ground arith, inl refl))
      | inr poor ↦ rw (fits, up, poor) (inl refl)
    ]
  ]
]

deallocuvm-IsSize : (p : Proc) (newsz : ℕ) → p.sz ≤ p.shmtop → IsSize newsz p (deallocuvm p newsz)
unfolding deallocuvm
deallocuvm-IsSize p newsz below = elim (Bool-cases (leb p.sz newsz)) [
  | inl kept ↦ rw kept (inr (below, inr refl))
  | inr down ↦ rw down (inr (ground arith, inl refl))
]

-- In a valid layout, `growproc` with n > 0 or with a negative number -n either fails and changes nothing, or
-- succeeds with the size sz + n or sz - n (modulo 2^32) or the old size; the layout stays valid, so the heap
-- never reaches the shared regions.
pub growproc-IsGrown :
    (enough : Bool) (n cur : ℕ) (m : Shm)
    → IsLaidOut (m.procs cur)
    → IsGrown cur (((m.procs cur).sz + n) % 2 ^ 32) m (grow enough n cur m)
      × IsGrown cur (((m.procs cur).sz + 2 ^ 32 - n) % 2 ^ 32) m (shrink n cur m)
unfolding grow shrink
growproc-IsGrown enough n cur m v = (
  take_size-IsGrown _ _ cur m v (allocuvm-IsSize enough (m.procs cur) _ v.heap_below),
  take_size-IsGrown _ _ cur m v (deallocuvm-IsSize (m.procs cur) _ v.heap_below),
)

pub take_size-IsCounted :
    (sz cur : ℕ) (m : Shm) → cur < nproc → IsCounted m → IsCounted (take_size sz cur m).1
take_size-IsCounted sz cur m h c = elim (Bool-cases (sz == 0)) [
  | inl failed ↦ rw failed c
  | inr taken ↦ rw taken (put-IsCounted cur (record (m.procs cur) { sz = sz }) m h (λ j hj. refl) c)
]
