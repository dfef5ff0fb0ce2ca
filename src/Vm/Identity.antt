-- ===== src/Vm/Identity.antt =====
-- setupkvm of projects/p3/p3b/xv6/kernel/vm.c maps each page of the kernel once, to itself.
use cs537_fall.Prelude.{
  ℕ, suc, ◌+◌, ◌-◌, ◌*◌, ◌/◌, ◌<◌, ◌≡◌, refl, ◌∙◌, ltb, leb, ◌≤◌, ◌⊎◌, length, List, if◌then◌else◌,
  Bool-cases, Option-cases, ◌%◌, ◌≢◌, inl, inr, Option, none, some, [], ◌∷◌, subst, arith,
}
use native.Mathlib.Decide.{ℕ_discrete}
use cs537_fall.Mlfq.State.{Outcome, done, panic}
use cs537_fall.Shm.State.{pgsize, usertop}
use cs537_fall.Vm.Frames.{Mem, fill_page, kalloc, pop_page, phystop}
use cs537_fall.Vm.Tables.{
  Entry, pdx, pte_w, Pgdir, pte, Mapped, mapped, unmapped, remap, Kmap, kmap, map_kernel, set_up,
  map_in, setupkvm,
}
use cs537_fall.Vm.View.{page_of}
use cs537_fall.Vm.Rounds.{itself, MapsUpto, IsRange, IsTableCount, map_kernel-step}

-- The kernel part of every directory, by page number: the I/O space, the kernel's text, its data and
-- memory, and the devices.
abbrev pub kernel_page : ℕ → ℕ → Option Entry
kernel_page kdata p =
    if ltb p 0xA0
    then none
    else if ltb p 0x100
    then itself pte_w p
    else if ltb p (kdata / pgsize)
    then itself 0 p
    else if ltb p 0x1000
    then itself pte_w p
    else if ltb p 0xFE000
    then none
    else if ltb p 0x100000
    then itself pte_w p
    else none

-- The tables that the pages of the kernel below a page number take: 4 up to PHYSTOP, 8 for the devices.
abbrev kernel_tables : ℕ → ℕ
kernel_tables b =
    if leb b 0xA0
    then 0
    else if leb b 0x1000
    then (b - 1) / 1024 + 1
    else if leb b 0xFE000
    then 4
    else if leb b 0x100000
    then (b - 1) / 1024 - 1011
    else 12

-- A directory and its tables take 13 pages.
abbrev pub kernel_pages : ℕ
kernel_pages = 13

-- The whole directory is as `kernel_page` says, or there were too few pages.
abbrev pub MapsKernel : ℕ → Mem → Outcome (Option Pgdir × Mem) → Type 0
MapsKernel kdata m₀ panic = ⊥
MapsKernel kdata m₀ (done (none, m)) = length m₀.free < kernel_pages
MapsKernel kdata m₀ (done (some d, m)) =
    ((p : ℕ) → page_of d p ≡ kernel_page kdata p) × (length m₀.free ≤ length m.free + kernel_pages)

-- `kdata` is the address of page `dp`.
module _ (kdata dp : ℕ) (at : kdata ≡ dp * pgsize) (after : 0x100 < dp) (within : dp < 0x1000) where
  io :
      IsRange
        (kernel_page kdata)
        0
        (record { from = usertop; size = 0x100000 - usertop; perm = pte_w })
        0xA0
        0x5F
  io = record {
    start = refl;
    rounds = refl;
    order = omega arith;
    gap = λ q lo hi. ground arith;
    maps = λ q lo hi. ground arith;
  }

  text :
      IsRange
        (kernel_page kdata)
        0x100
        (record { from = 0x100000; size = kdata - 0x100000; perm = 0 })
        0x100
        (dp - 0x101)
  text = record {
    start = refl;
    rounds = omega arith;
    order = omega arith;
    gap = λ q lo hi. absurd (omega arith);
    maps = λ q lo hi. ground arith;
  }

  memory :
      IsRange
        (kernel_page kdata)
        dp
        (record { from = kdata; size = phystop - kdata; perm = pte_w })
        dp
        (0xFFF - dp)
  memory = record {
    start = at;
    rounds = omega arith;
    order = omega arith;
    gap = λ q lo hi. absurd (omega arith);
    maps = λ q lo hi. ground arith;
  }

  devices :
      IsRange
        (kernel_page kdata)
        0x1000
        (record { from = 0xFE000000; size = 0x2000000; perm = pte_w })
        0xFE000
        0x1FFF
  devices = record {
    start = refl;
    rounds = refl;
    order = omega arith;
    gap = λ q lo hi. ground arith;
    maps = λ q lo hi. ground arith;
  }

  kernel_tables-rises : (p : ℕ) → kernel_tables p ≤ kernel_tables (suc p)
  kernel_tables-rises p = ground arith

  -- Where the kernel has pages.
  kernel_ranges :
      (p : ℕ) (e : Entry)
      → kernel_page kdata p ≡ some e
      → ((0xA0 ≤ p) × (p < 0x1000)) ⊎ ((0xFE000 ≤ p) × (p < 0x100000))
  kernel_ranges p e h = ground arith

  new_table :
      (p : ℕ) (e : Entry)
      → kernel_page kdata p ≡ some e
      → (p % 1024 ≡ 0) ⊎ (p ≡ 0xA0)
      → kernel_tables (suc p) ≡ suc (kernel_tables p)
  new_table p e h starts = ground (arith, kernel_ranges p e h)

  page_before :
      (p q : ℕ) (e : Entry)
      → kernel_page kdata p ≡ some e
      → p % 1024 ≢ 0
      → p ≢ 0xA0
      → suc q ≡ p
      → kernel_page kdata q ≢ none
  page_before p q e h inside later next gone = ground (arith, kernel_ranges p e h)

  shares :
      (p : ℕ) (e : Entry)
      → kernel_page kdata p ≡ some e
      → (kernel_tables (suc p) ≡ suc (kernel_tables p))
        ⊎ ((q : ℕ) × (e' : Entry) × (suc q ≡ p)
            × (kernel_page kdata q ≡ some e')
            × (pdx (q * pgsize) ≡ pdx (p * pgsize)))
  shares p e h = elim (ℕ_discrete (p % 1024) 0) [
    | yes start ↦ inl (new_table p e h (inl start))
    | no inside ↦ elim (ℕ_discrete p 0xA0) [
      | yes first ↦ inl (new_table p e h (inr first))
      | no later ↦
          let next : suc (p - 1) ≡ p = omega arith in
          elim (Option-cases (kernel_page kdata (p - 1))) [
            | inl gone ↦ absurd (page_before p (p - 1) e h inside later next gone)
            | inr (e', there) ↦ inr (p - 1, e', next, there, omega arith)
          ]
    ]
  ]

  kernel_tables-IsTableCount : IsTableCount (kernel_page kdata) kernel_tables
  kernel_tables-IsTableCount = record { rises = kernel_tables-rises; shares = shares }

  module _ (free : ℕ) where
    abbrev Kernel : ℕ → Mapped → Type 0
    Kernel = MapsUpto (kernel_page kdata) kernel_tables kernel_tables-IsTableCount free

    kernel_step :
        (b p n : ℕ) (k : Kmap) (ks : List Kmap) (c : ℕ) (r : Mapped)
        → suc (p + n) ≡ c
        → IsRange (kernel_page kdata) b k p n
        → ((r' : Mapped) → Kernel c r' → Kernel 0x100000 (map_kernel ks r'))
        → Kernel b r
        → Kernel 0x100000 (map_kernel (k ∷ ks) r)
    kernel_step b p n k ks c r e i next =
        map_kernel-step (kernel_page kdata) kernel_tables kernel_tables-IsTableCount free b p n k ks
          0x100000 r i (λ r' v. next r' (subst (λ x. Kernel x r') e v))

    kmap-MapsUpto : (r : Mapped) → Kernel 0 r → Kernel 0x100000 (map_kernel (kmap kdata) r)
    kmap-MapsUpto r =
        let device_range : Kmap = record { from = 0xFE000000; size = 0x2000000; perm = pte_w } in
        let memory_range : Kmap = record { from = kdata; size = phystop - kdata; perm = pte_w } in
        let text_range : Kmap = record { from = 0x100000; size = kdata - 0x100000; perm = 0 } in
        let io_range : Kmap = record { from = usertop; size = 0x100000 - usertop; perm = pte_w } in
        kernel_step 0 0xA0 0x5F io_range (text_range ∷ memory_range ∷ device_range ∷ []) 0x100 r
          refl io
          (λ r₁.
            kernel_step 0x100 0x100 (dp - 0x101) text_range (memory_range ∷ device_range ∷ []) dp r₁
              (omega arith) text
              (λ r₂.
                kernel_step dp dp (0xFFF - dp) memory_range (device_range ∷ []) 0x1000 r₂
                  (omega arith) memory
                  (λ r₃.
                    kernel_step 0x1000 0xFE000 0x1FFF device_range [] 0x100000 r₃ refl devices
                      (λ r₄ v₄. v₄))))

    set_up-MapsKernel :
        (m₀ : Mem) (r : Mapped)
        → length m₀.free ≡ suc free
        → Kernel 0x100000 r
        → MapsKernel kdata m₀ (set_up r)
    set_up-MapsKernel m₀ (mapped d m) e (v, room) = (
      λ p.
          v p
          ∙ elim (Bool-cases (ltb p 0x100000)) [ inl low ↦ rw low refl | inr over ↦ ground arith ],
      omega arith,
    )
    set_up-MapsKernel m₀ (unmapped d m) e v = omega arith
    set_up-MapsKernel m₀ remap e v = v

  map_in-MapsKernel :
      (m : Mem) (free : List ℕ)
      → m.free ≡ free
      → MapsKernel kdata m (map_in kdata (pop_page m free))
  unfolding pte
  map_in-MapsKernel m [] e = rw e (omega arith)
  map_in-MapsKernel m (r ∷ rest) e = set_up-MapsKernel (length rest) m _ (rw e refl) (
      kmap-MapsUpto (length rest)
        (mapped (record { addr = r; tables = λ _. none })
          (fill_page r 0 (record m { free = rest })))
        ((λ q. ground arith), omega arith))

  -- Where the kernel's data start at a page boundary between 0x101000 and PHYSTOP, `setupkvm` does not
  -- panic, whatever memory is left. It returns null only if fewer than 13 pages are free; else it takes
  -- at most 13, and the directory maps each page of the I/O space, of the kernel's text, of its data and
  -- memory up to PHYSTOP and of the devices to itself, with PTE_W except for the text, and maps nothing
  -- else.
  pub setupkvm-MapsKernel : (m : Mem) → MapsKernel kdata m (setupkvm kdata m)
  unfolding setupkvm kalloc
  setupkvm-MapsKernel m = map_in-MapsKernel m m.free refl
