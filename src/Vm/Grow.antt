-- ===== src/Vm/Grow.antt =====
-- allocuvm of projects/p3/p3b/xv6/kernel/vm.c maps fresh zeroed pages, or takes back what it mapped.
use cs537_fall.Prelude.{
  length, ℕ, ◌-◌, ◌*◌, ◌≤◌, ◌<◌, ◌≡◌, refl, sym, ◌∙◌, ltb, Bool, Bool-cases, true, false, inl, inr,
  ◌⊎◌, arith,
}
use native.Mathlib.Decide.{dec_lt}
use cs537_fall.Mlfq.State.{Outcome, done, panic}
use cs537_fall.Shm.State.{pgsize}
use cs537_fall.Vm.Frames.{pages_of}
use cs537_fall.Vm.Spaces.{Space, and_then, finish_alloc, allocuvm}
use cs537_fall.Vm.View.{page_of}
use cs537_fall.Vm.Balance.{IsSane, holders, Keeps}
use cs537_fall.Vm.Release.{Shrunk, deallocuvm-Shrunk}
use cs537_fall.Vm.Fill.{IsZeroPage, IsAbsent, Filled, alloc_pages-Filled}

module _ (end top : ℕ) (small : top ≤ 1024) (pos : 0 < end) where
  -- A size that is not the new one: the old size where that is larger, or 0 where the new size is over
  -- `shmtop` or there are too few free pages.
  abbrev pub IsRefused : ℕ → ℕ → Space → ℕ → Type 0
  IsRefused oldsz newsz s sz =
      ((sz ≡ oldsz) × (newsz < oldsz))
      ⊎ ((sz ≡ 0)
          × ((top * pgsize < newsz) ⊎ (length s.mem.free < pages_of newsz - pages_of oldsz)))

  -- The new size: it is not over `shmtop`, not below the old one, and there are enough free pages.
  abbrev pub IsServed : ℕ → ℕ → Space → ℕ → Type 0
  IsServed oldsz newsz s sz =
      (sz ≡ newsz)
      × (newsz ≤ top * pgsize)
      × (oldsz ≤ newsz)
      × (pages_of newsz - pages_of oldsz ≤ length s.mem.free)

  -- What `allocuvm` gives: the new size with fresh pages up to it, or the directory as it was.
  pub record IsGrown (oldsz newsz : ℕ) (s : Space) (sz : ℕ) (s' : Space) : Type 0 where
    pub sane : IsSane end top s'
    pub balance : (a : ℕ) → holders a top s' ≡ holders a top s
    pub below : (j : ℕ) → j < pages_of oldsz → page_of s'.dir j ≡ page_of s.dir j
    pub size :
        (IsServed oldsz newsz s sz
          × ((j : ℕ)
              → pages_of oldsz ≤ j
              → j < pages_of newsz
              → IsZeroPage s'.mem (page_of s'.dir j)))
        ⊎ (IsRefused oldsz newsz s sz × ((j : ℕ) → j < 1024 → page_of s'.dir j ≡ page_of s.dir j))

  abbrev pub Grown : ℕ → ℕ → Space → Outcome (ℕ × Space) → Type 0
  Grown oldsz newsz s panic = ⊥
  Grown oldsz newsz s (done (sz, s')) = IsGrown oldsz newsz s sz s'

  same-IsGrown :
      (oldsz newsz sz : ℕ) (s : Space)
      → IsRefused oldsz newsz s sz
      → IsSane end top s
      → IsGrown oldsz newsz s sz s
  same-IsGrown oldsz newsz sz s e v = record {
    sane = v;
    balance = λ a. refl;
    below = λ j h. refl;
    size = inr (e, λ j h. refl);
  }

  -- After the roll-back every page is as before.
  rolled_back-Grown :
      (oldsz newsz : ℕ) (s s' : Space) (o : Outcome (ℕ × Space))
      → pages_of newsz ≤ top
      → pages_of oldsz ≤ pages_of newsz
      → IsAbsent (pages_of oldsz) (pages_of newsz) s
      → Keeps end top small (pages_of oldsz) (pages_of newsz) s s'
      → length s.mem.free < pages_of newsz - pages_of oldsz
      → Shrunk end top small pos newsz oldsz s' o
      → Grown oldsz newsz s (and_then o (λ (r : ℕ × Space). done (0, r.1)))
  rolled_back-Grown oldsz newsz s s' panic h order absent k short r = r
  rolled_back-Grown oldsz newsz s s' (done (sz, s'')) h order absent k short (e, r) = record {
    sane = r.keeps.sane;
    balance = λ a. r.keeps.balance a ∙ k.balance a;
    below = λ j lt. back j (omega arith);
    size = inr (inr (refl, inr short), back);
  }
    where
      back : (j : ℕ) → j < 1024 → page_of s''.dir j ≡ page_of s.dir j
      back j lt = elim (dec_lt j (pages_of oldsz)) [
        | yes before ↦ r.keeps.outside j lt (inl before) ∙ k.outside j lt (inl before)
        | no from ↦ elim (dec_lt j (pages_of newsz)) [
          | yes inside ↦ r.absent j (omega arith) inside ∙ sym (absent j (omega arith) inside)
          | no after ↦ r.keeps.outside j lt (inr (omega arith)) ∙ k.outside j lt (inr (omega arith))
        ]
      ]

  finish_alloc-Grown :
      (oldsz newsz : ℕ) (s : Space) (o : Outcome (Bool × Space))
      → newsz ≤ top * pgsize
      → oldsz ≤ newsz
      → pages_of newsz ≤ top
      → pages_of oldsz ≤ pages_of newsz
      → IsAbsent (pages_of oldsz) (pages_of newsz) s
      → Filled end top small pos (pages_of oldsz) (pages_of newsz) s o
      → Grown oldsz newsz s (and_then o (finish_alloc end oldsz newsz))
  finish_alloc-Grown oldsz newsz s panic below_top up h order absent f = f
  finish_alloc-Grown oldsz newsz s (done (true, s')) below_top up h order absent f = record {
    sane = f.keeps.sane;
    balance = f.keeps.balance;
    below = λ j lt. f.keeps.outside j (omega arith) (inl lt);
    size = inl ((refl, below_top, up, omega (arith, f.room)), f.zeroed);
  }
  finish_alloc-Grown oldsz newsz s (done (false, s')) below_top up h order absent (f, short) =
      rolled_back-Grown oldsz newsz s s' _ h order absent f short
        (deallocuvm-Shrunk end top small pos newsz oldsz s' h f.sane)

  -- In an address space all of whose pages and free pages can be freed, and whose pages from the old
  -- size to `shmtop` are absent, `allocuvm` does not panic. It returns the new size, and the pages
  -- between the sizes are fresh pages of zeros; or every entry is as it was, and it returns the old size,
  -- which is larger, or 0, where the new size is over `shmtop` or there are fewer free pages than pages
  -- between the sizes, also where memory ran out half-way. Pages below the old size do not change, and each page of
  -- memory is held by the free list and the directory as often as before.
  pub allocuvm-Grown :
      (shmtop oldsz newsz : ℕ) (s : Space)
      → shmtop ≡ top * pgsize
      → oldsz ≤ shmtop
      → IsAbsent (pages_of oldsz) top s
      → IsSane end top s
      → Grown oldsz newsz s (allocuvm end shmtop oldsz newsz s)
  unfolding allocuvm
  allocuvm-Grown shmtop oldsz newsz s e fits absent v = elim (Bool-cases (ltb shmtop newsz)) [
    | inl over ↦ rw over (same-IsGrown oldsz newsz 0 s (inr (refl, inl (ground arith))) v)
    | inr room ↦ elim (Bool-cases (ltb newsz oldsz)) [
      | inl less ↦ rw (room, less) (same-IsGrown oldsz newsz oldsz s (inl (refl, ground arith)) v)
      | inr up ↦
          let in_space : pages_of newsz ≤ top = ground arith in
          let order : pages_of oldsz ≤ pages_of newsz = ground arith in
          rw (room, up)
            (finish_alloc-Grown oldsz newsz s _ (ground arith) (ground arith) in_space order
              (λ j a b. absent j a (omega arith))
              (alloc_pages-Filled end top small pos (pages_of newsz - pages_of oldsz)
                (pages_of oldsz) (pages_of newsz) s (omega arith) in_space
                (λ j a b. absent j a (omega arith)) v))
    ]
  ]
