-- ===== src/Vm/Forked.antt =====
-- copyuvm of projects/p3/p3b/xv6/kernel/vm.c: the child has copies of the parent's pages below its size,
-- and the parent's own pages in the shared regions.
use cs537_fall.Prelude.{
  length, ◌+◌, ℕ, ◌-◌, ◌*◌, ◌≤◌, ◌<◌, ◌≡◌, refl, ◌∙◌, Bool, true, false, inl, Option, none, some,
  All, arith,
}
use native.Mathlib.Nat.{le_refl}
use cs537_fall.Mlfq.State.{Outcome, done, panic}
use cs537_fall.Shm.State.{pgsize, usertop}
use cs537_fall.Vm.Frames.{Mem, is_frame, pages_of}
use cs537_fall.Vm.Tables.{Entry, Pgdir, setupkvm}
use cs537_fall.Vm.Spaces.{Space, and_then, unless_full}
use cs537_fall.Vm.Copies.{freevm, share_pages, finish_copy, copy_into, copyuvm}
use cs537_fall.Vm.View.{page_of}
use cs537_fall.Vm.Balance.{occurrences}
use cs537_fall.Vm.Private.{user_pages, CopyOf, ShareOf, IsBuilt, Built}
use cs537_fall.Vm.Copied.{InUse, copy_pages-Built, share_pages-Built}
use cs537_fall.Vm.SetUp.{SetUp, setupkvm-SetUp}
use cs537_fall.Vm.Identity.{kernel_pages, MapsKernel, setupkvm-MapsKernel}
use cs537_fall.Vm.Discard.{Returns, freevm-Returns}

-- The address space of a child: private copies of the parent's pages below page number `lo`, the
-- parent's own pages from `top` to USERTOP, nothing between; the pages that were not free have their
-- bytes.
pub record IsForked (end lo top : ℕ) (s : Space) (c : Pgdir) (m : Mem) : Type 0 where
  pub copied : (j : ℕ) → j < lo → CopyOf s.mem m (page_of s.dir j) (page_of c j)
  pub shared : (j : ℕ) → top ≤ j → j < user_pages → ShareOf (page_of s.dir j) (page_of c j)
  pub absent : (j : ℕ) → lo ≤ j → j < top → page_of c j ≡ none
  pub kept : (a : ℕ) → occurrences a s.mem.free ≡ 0 → m.bytes a ≡ s.mem.bytes a

abbrev pub Forked : ℕ → ℕ → ℕ → Space → Outcome (Option Pgdir × Mem) → Type 0
Forked end lo top s panic = ⊥
Forked end lo top s (done (none, m)) = length s.mem.free < kernel_pages + lo
Forked end lo top s (done (some c, m)) = IsForked end lo top s c m

module _ (end lo top sz : ℕ) (pos : 0 < end) (s : Space) (m : Mem)
    (fewer : (a : ℕ) → occurrences a m.free ≤ occurrences a s.mem.free)
    (kept : (a : ℕ) → occurrences a s.mem.free ≡ 0 → m.bytes a ≡ s.mem.bytes a)
    (tables : length s.mem.free ≤ length m.free + kernel_pages) where
  -- A copy of what setupkvm left is a copy of what there was.
  CopyOf-before :
      (m' : Mem) (p c : Option Entry) → InUse end s.mem p → CopyOf m m' p c → CopyOf s.mem m' p c
  CopyOf-before m' none c u o = o
  CopyOf-before m' (some e) none u o = o
  CopyOf-before m' (some e) (some c) (valid, used) (perm, bytes, was_free, taken) =
      (perm, bytes ∙ kept e.frame used, omega (arith, fewer c.frame), taken)

  InUse-after : (p : Option Entry) → InUse end s.mem p → InUse end m p
  InUse-after none u = u
  InUse-after (some e) (valid, used) = (valid, omega (arith, fewer e.frame))

  discarded-Forked :
      (o : Outcome Mem)
      → length m.free < lo
      → Returns o
      → Forked end lo top s (and_then o (λ m'. done (none, m')))
  discarded-Forked panic short r = r
  discarded-Forked (done m') short r = omega arith

  finish_copy-Forked :
      (below : top ≤ user_pages) (o : Outcome (Bool × Space))
      → lo ≤ top
      → pages_of sz ≡ lo
      → ((j : ℕ) → j < lo → InUse end s.mem (page_of s.dir j))
      → Built end m s.dir top below lo user_pages o
      → Forked end lo top s (and_then o (finish_copy end sz))
  finish_copy-Forked below panic h e used b = b
  finish_copy-Forked below (done (true, c)) h e used b = record {
    copied = λ j hj. CopyOf-before c.mem _ _ (used j hj) (b.copied j hj);
    shared = b.shared;
    absent = λ j a hj. b.absent j a (omega arith) (inl hj);
    kept = λ a z. b.child.kept a (omega (arith, fewer a)) ∙ kept a z;
  }
  finish_copy-Forked below (done (false, c)) h e used (b, short) =
      discarded-Forked (freevm end sz c) short
        (freevm-Returns end user_pages (omega arith) pos sz c (omega arith) b.sane b.directory)

module _ (end lo top sz shmtop : ℕ) (pos : 0 < end) (s : Space) (below : top ≤ user_pages)
    (fits : lo ≤ top) (size : pages_of sz ≡ lo) (at : shmtop ≡ top * pgsize)
    (used : (j : ℕ) → j < lo → InUse end s.mem (page_of s.dir j))
    (regions_used : (j : ℕ) → top ≤ j → j < user_pages → InUse end s.mem (page_of s.dir j))
    (distinct : (a : ℕ) → occurrences a s.mem.free ≤ 1) where
  -- Both loops and the end of `copyuvm`, from a directory without user pages.
  copy_into-Forked :
      (kdata : ℕ) (r : Option Pgdir × Mem)
      → SetUp end s.mem (done r)
      → MapsKernel kdata s.mem (done r)
      → Forked end lo top s (copy_into end sz shmtop s.dir r)
  copy_into-Forked kdata (none, m) k few = omega arith
  copy_into-Forked kdata (some c, m) (k, table) (as_kernel, tables) =
      finish_copy-Forked end lo top sz pos s m k.fewer k.kept tables below _ fits size used (
        both_loops _ (
          copy_pages-Built end m s.dir top below distinct' (pages_of sz) 0 lo
            (record { dir = c; mem = m }) (omega arith) fits
            (λ j hj. InUse-after end lo top sz pos s m k.fewer k.kept tables _ (used j hj)) start))
    where
      distinct' : (a : ℕ) → occurrences a m.free ≤ 1
      distinct' a = omega (arith, k.fewer a, distinct a)

      start : IsBuilt end m s.dir top below 0 top (record { dir = c; mem = m })
      start = record {
        child = record {
          sane = record {
            table = table;
            free_ok = k.free_ok;
            pages_ok = λ j hj. rw (k.absent j hj) tt;
          };
          directory = k.directory;
          fewer = λ a. le_refl _;
          kept = λ a z. refl;
        };
        copied = λ j hj. absurd (omega arith);
        shared = λ j a b. absurd (omega arith);
        absent = λ j a hj o. k.absent j hj;
        room = omega arith;
      }

      both_loops :
          (o : Outcome (Bool × Space))
          → Built end m s.dir top below lo top o
          → Built end m s.dir top below lo user_pages
              (and_then o (unless_full (share_pages (pages_of (usertop - shmtop)) shmtop s.dir)))
      both_loops panic b = b
      both_loops (done (false, c')) b = b
      both_loops (done (true, c')) b =
          share_pages-Built end m s.dir top below distinct' (pages_of (usertop - shmtop)) top lo
            shmtop c' (omega arith) at fits (omega arith)
            (λ j a hj.
              InUse-after end lo top sz pos s m k.fewer k.kept tables _ (regions_used j a hj))
            b

  -- For a parent whose pages below its size and from `shmtop` to USERTOP are mapped, can be freed and are
  -- not free, with no page twice in the free list, and where the kernel's data start at a page boundary
  -- between 0x101000 and PHYSTOP, `copyuvm` does not panic. It returns null only if fewer free pages are
  -- there than 13 and one for each page below the size; else a directory that has, for each page below
  -- the size, a page that was free with the parent's bytes; the parent's own pages from `shmtop` to
  -- USERTOP; nothing between. The bytes of all pages that were not free are as they were.
  pub copyuvm-Forked :
      (kdata dp : ℕ)
      → kdata ≡ dp * pgsize
      → 0x100 < dp
      → dp < 0x1000
      → All (λ v. is_frame end v ≡ true) s.mem.free
      → Forked end lo top s (copyuvm end kdata sz shmtop s)
  unfolding copyuvm
  copyuvm-Forked kdata dp at_page after within ok =
      from_set_up (setupkvm kdata s.mem) (setupkvm-MapsKernel kdata dp at_page after within s.mem)
        (setupkvm-SetUp end kdata s.mem (omega arith) ok)
    where
      from_set_up :
          (o : Outcome (Option Pgdir × Mem))
          → MapsKernel kdata s.mem o
          → SetUp end s.mem o
          → Forked end lo top s (and_then o (copy_into end sz shmtop s.dir))
      from_set_up panic returns k = absurd returns
      from_set_up (done r) returns k = copy_into-Forked kdata r k returns
