-- ===== src/Vm/Shared.antt =====
-- Two processes that attach to one region by shmgetat of projects/p3/p3b/xv6/kernel/vm.c see the same
-- frames, in the same order.
use cs537_fall.Prelude.{
  ℕ, zero, suc, ◌+◌, ◌-◌, ◌*◌, ◌%◌, ◌^◌, ◌≤◌, ◌<◌, ◌≡◌, ◌⊎◌, inl, refl, ap, sym, ◌∙◌, true, false,
  Option, none, some, List, [], ◌∷◌, length, subst, arith,
}
use cs537_fall.Prelude.Arrays.{update}
use cs537_fall.Mlfq.State.{Outcome, done}
use cs537_fall.Shm.State.{pgsize}
use cs537_fall.Vm.Frames.{Mem, fill_page, kalloc}
use cs537_fall.Vm.Tables.{Entry, pte_wu, Pgdir, set_pte, mappages}
use cs537_fall.Vm.View.{page_of, HasTable, page_of-set_pte, set_pte-HasTable, mappages-user}
use cs537_fall.Vm.Regions.{Sharing, take_mapped, attach_page, attach_rounds}

abbrev pub frame_entry : ℕ → Option Entry
frame_entry r = some (record { frame = r; perm = pte_wu })

-- The first `n` pages of the region are mapped below page `t`, the first one at the top.
pub record IsShared (t n : ℕ) (d : Pgdir) (s : Sharing) : Type 0 where
  pub table : HasTable s.dir
  pub region : (i : ℕ) → i < n → page_of s.dir (t - suc i) ≡ frame_entry (s.paddr i)
  pub others : (j : ℕ) → j < 1024 → (j + n < t) ⊎ (t ≤ j) → page_of s.dir j ≡ page_of d j

-- A directory in which the pages below `t` are free for `n` pages.
pub record HasRoom (t n : ℕ) (d : Pgdir) : Type 0 where
  pub table : HasTable d
  pub user : t ≤ 1024
  pub fits : n ≤ t
  pub absent : (j : ℕ) → t ≤ j + n → j < t → page_of d j ≡ none

-- The entry of the next page is written.
map_frame-IsShared :
    (t n : ℕ) (d : Pgdir) (s : Sharing)
    → t ≤ 1024
    → n < t
    → page_of s.dir (t - suc n) ≡ none
    → IsShared t n d s
    → take_mapped s (
        mappages s.dir
          ((t * pgsize + 2 ^ 32 - suc n * pgsize) % 2 ^ 32)
          pgsize
          (s.paddr n)
          pte_wu
          s.mem)
      ≡ done (record s { dir = set_pte ((t - suc n) * pgsize) (frame_entry (s.paddr n)) s.dir })
map_frame-IsShared t n d s user below absent r =
    let va : (t * pgsize + 2 ^ 32 - suc n * pgsize) % 2 ^ 32 ≡ (t - suc n) * pgsize = omega arith in
    rw (va, mappages-user s.dir (t - suc n) (s.paddr n) pte_wu s.mem (omega arith) r.table, absent)
      refl

set_pte-IsShared :
    (t n : ℕ) (d : Pgdir) (s : Sharing)
    → t ≤ 1024
    → n < t
    → IsShared t n d s
    → IsShared t
        (suc n)
        d
        (record s { dir = set_pte ((t - suc n) * pgsize) (frame_entry (s.paddr n)) s.dir })
set_pte-IsShared t n d s user below r = record {
  table =
      set_pte-HasTable s.dir ((t - suc n) * pgsize) (frame_entry (s.paddr n)) (omega arith) r.table;
  region = λ i h. ground (
    arith,
    page_of-set_pte s.dir (t - suc n) (t - suc i) (frame_entry (s.paddr n)) (omega arith)
        (omega arith) r.table,
    r.region i,
  );
  others = λ j h away. ground (
    arith,
    page_of-set_pte s.dir (t - suc n) j (frame_entry (s.paddr n)) (omega arith) h r.table,
    away,
    r.others j h,
  );
}

-- The page below the pages that are mapped is still free.
next-absent :
    (t n k : ℕ) (d : Pgdir) (s : Sharing)
    → HasRoom t k d
    → n < k
    → IsShared t n d s
    → page_of s.dir (t - suc n) ≡ none
next-absent t n k d s v below r =
    r.others (t - suc n) (omega (arith, v.user, v.fits)) (inl (omega (arith, v.fits)))
    ∙ v.absent (t - suc n) (omega arith) (omega (arith, v.fits))

-- A result of the loop for `n` pages, with a property of the memory and the frames.
abbrev pub Shares : ℕ → ℕ → Pgdir → (Sharing → Type 0) → Outcome Sharing → Type 0
Shares t n d P o = (s : Sharing) × (o ≡ done s) × IsShared t n d s × P s

module _ (t k : ℕ) (d : Pgdir) (v : HasRoom t k d) (s₀ : Sharing) (start : s₀.dir ≡ d) where
  -- The frames and the memory are those of the first process.
  abbrev pub Same : Sharing → Type 0
  Same s = (s.paddr ≡ s₀.paddr) × (s.mem ≡ s₀.mem)

  none-IsShared : IsShared t 0 d s₀
  none-IsShared = record {
    table = subst HasTable (sym start) v.table;
    region = λ i h. absurd (omega arith);
    others = λ j h away. ap (λ (e : Pgdir). page_of e j) start;
  }

  pub attach_old-Shares :
      (n : ℕ) → n ≤ k → Shares t n d Same (attach_rounds false (t * pgsize) n s₀)
  unfolding attach_rounds
  attach_old-Shares zero h = (s₀, refl, none-IsShared, (refl, refl))
  attach_old-Shares (suc n) h =
      let (s, e, r, same) = attach_old-Shares n (omega arith) in
      let below : n < t = omega (arith, v.fits) in
      (
        record s { dir = set_pte ((t - suc n) * pgsize) (frame_entry (s.paddr n)) s.dir },
        rw e (map_frame-IsShared t n d s v.user below (next-absent t n k d s v (omega arith) r) r),
        set_pte-IsShared t n d s v.user below r,
        same,
      )

  -- The frames are zero-filled and came out of the free list.
  pub record IsCreated (n : ℕ) (s : Sharing) : Type 0 where
    pub zeroed : (i : ℕ) → i < n → s.mem.bytes (s.paddr i) ≡ (λ _. 0)
    pub taken : length s.mem.free + n ≡ length s₀.mem.free

  -- A round with a frame from the free list.
  fresh_frame-Shares :
      (n : ℕ) (s : Sharing) (free : List ℕ)
      → n < k
      → s.mem.free ≡ free
      → n < length s₀.mem.free
      → IsShared t n d s
      → IsCreated n s
      → Shares t
          (suc n)
          d
          (IsCreated (suc n))
          (attach_page true ((t * pgsize + 2 ^ 32 - suc n * pgsize) % 2 ^ 32) n s)
  unfolding kalloc
  fresh_frame-Shares n s [] h e enough r f = absurd (omega (arith, f.taken, ap length e))
  fresh_frame-Shares n s (page ∷ rest) h e enough r f =
      let below : n < t = omega (arith, v.fits) in
      let u = record s {
        mem = fill_page page 0 (record s.mem { free = rest });
        paddr = update s.paddr n page;
      } in
      let r' : IsShared t n d u = record {
        table = r.table;
        region = λ i hi. ground (arith, r.region i hi);
        others = r.others;
      } in
      (
        record u { dir = set_pte ((t - suc n) * pgsize) (frame_entry (u.paddr n)) u.dir },
        rw e (map_frame-IsShared t n d u v.user below (next-absent t n k d u v h r') r'),
        set_pte-IsShared t n d u v.user below r',
        record {
          zeroed = λ i hi. ground (arith, f.zeroed i);
          taken = omega (arith, f.taken, ap length e);
        },
      )

  pub attach_new-Shares :
      (n : ℕ)
      → n ≤ k
      → k ≤ length s₀.mem.free
      → Shares t n d (IsCreated n) (attach_rounds true (t * pgsize) n s₀)
  unfolding attach_rounds
  attach_new-Shares zero h enough = (
    s₀,
    refl,
    none-IsShared,
    record { zeroed = λ i hi. absurd (omega arith); taken = omega arith },
  )
  attach_new-Shares (suc n) h enough =
      let (s, e, r, f) = attach_new-Shares n (omega arith) enough in
      rw e (fresh_frame-Shares n s s.mem.free (omega arith) refl (omega arith) r f)

-- Page `i` of the region, from its lowest address on, is one zero-filled frame in both directories.
abbrev pub OneFrame : ℕ → ℕ → Sharing → Sharing → Type 0
OneFrame p q s s' =
    (r : ℕ) × (page_of s.dir p ≡ frame_entry r)
    × (page_of s'.dir q ≡ frame_entry r)
    × (s'.mem.bytes r ≡ (λ _. 0))

-- Directory `d'` is `d` but for the `n` pages below page `t`.
abbrev pub OnlyRegion : ℕ → ℕ → Pgdir → Pgdir → Type 0
OnlyRegion t n d d' = (j : ℕ) → j < 1024 → (j + n < t) ⊎ (t ≤ j) → page_of d' j ≡ page_of d j

-- In two directories that have room for `n` pages below page `p` and below page `q`, with `n` free frames: the
-- loop of shmgetat for a new region in the first, and then for this region in the second, does not panic.
-- Then page i of the region, counted from its lowest address, is the same frame in both, filled with zeros,
-- and all other user pages of both directories are as they were.
pub attach_rounds-OneFrame :
    (p q n : ℕ) (dp dq : Pgdir) (m : Mem) (paddr : ℕ → ℕ)
    → HasRoom p n dp
    → HasRoom q n dq
    → n ≤ length m.free
    → (s : Sharing) × (s' : Sharing) × (attach_rounds true
          (p * pgsize)
          n
          (record { dir = dp; mem = m; paddr = paddr })
        ≡ done s)
      × (attach_rounds false (q * pgsize) n (record s { dir = dq }) ≡ done s')
      × ((i : ℕ) → i < n → OneFrame (p - n + i) (q - n + i) s s')
      × OnlyRegion p n dp s.dir
      × OnlyRegion q n dq s'.dir
attach_rounds-OneFrame p q n dp dq m paddr vp vq enough =
    let s₀ : Sharing = record { dir = dp; mem = m; paddr = paddr } in
    let (s, e, r, f) = attach_new-Shares p n dp vp s₀ refl n (omega arith) enough in
    let (s', e', r', (frames, mem)) =
      attach_old-Shares q n dq vq (record s { dir = dq }) refl n (omega arith) in
    (
      s,
      s',
      e,
      e',
      (λ i h.
          let k = n - suc i in
          let at_p : p - n + i ≡ p - suc k = omega (arith, vp.fits) in
          let at_q : q - n + i ≡ q - suc k = omega (arith, vq.fits) in
          (
            s.paddr k,
            rw at_p (r.region k (omega arith)),
            rw at_q (r'.region k (omega arith) ∙ ap (λ (f : ℕ → ℕ). frame_entry (f k)) frames),
            rw mem (f.zeroed k (omega arith)),
          )),
      r.others,
      r'.others,
    )
