-- ===== src/Vm/Discard.antt =====
-- freevm of projects/p3/p3b/xv6/kernel/vm.c returns for every address space that can be given up.
use cs537_fall.Prelude.{
  if◌then◌else◌, ◌+◌, refl, ◌∙◌, arith, ℕ, zero, suc, ◌-◌, ◌*◌, ◌≤◌, ◌<◌, ◌≡◌, ◌==◌, leb,
  Bool-cases, true, inl, inr, Option, none, some,
}
use native.Mathlib.Nat.{le_refl}
use cs537_fall.Prelude.Tally.{tally}
use cs537_fall.Mlfq.State.{Outcome, done, panic}
use cs537_fall.Shm.State.{pgsize}
use cs537_fall.Vm.Frames.{Mem, kfree, is_frame, pages_of}
use cs537_fall.Vm.Tables.{Entry, Pgtab, Pgdir, pte, set_pte}
use cs537_fall.Vm.Spaces.{Space, and_then, free_entry, dealloc_page, dealloc_pages, deallocuvm}
use cs537_fall.Vm.Copies.{free_table, free_tables, freevm}
use cs537_fall.Vm.Balance.{maps_to, occurrences, IsSane}
use cs537_fall.Vm.View.{page_of}
use cs537_fall.Vm.Release.{kfree-eq, Shrunk, deallocuvm-Shrunk}
use cs537_fall.Vm.Private.{IsTable, IsDirectory, set_pte-IsDirectory}
use cs537_fall.Vm.Own.{
  at_page, table_pages, own_pages, SamePages, SamePages-set_pte, own_pages-same,
}

-- A call that returns.
abbrev pub Returns {ℓ} : {A : Type ℓ} → Outcome A → Type 0
Returns panic = ⊥
Returns (done a) = Unit

module _ (end : ℕ) where
  -- What a write to an entry keeps, the loop of `deallocuvm` keeps.
  module _ (P : Pgdir → Type 0) (closed : (d : Pgdir) (va : ℕ) → P d → P (set_pte va none d)) where
    abbrev DirDone : Outcome Space → Type 0
    DirDone panic = Unit
    DirDone (done s) = P s.dir

    written-DirDone :
        (va : ℕ) (s : Space) (o : Outcome Mem)
        → P s.dir
        → DirDone (and_then o (λ m. done (record { dir = set_pte va none s.dir; mem = m })))
    written-DirDone va s panic v = tt
    written-DirDone va s (done m) v = closed s.dir va v

    free_entry-DirDone :
        (va : ℕ) (p : Option Entry) (s : Space) → P s.dir → DirDone (free_entry end va p s)
    free_entry-DirDone va none s v = v
    free_entry-DirDone va (some e) s v = elim (Bool-cases (e.frame == 0)) [
      | inl null ↦ rw null tt
      | inr other ↦ rw other (written-DirDone va s (kfree end e.frame s.mem) v)
    ]

    then-DirDone :
        (o : Outcome Space) (next : Space → Outcome Space)
        → DirDone o
        → ((s : Space) → P s.dir → DirDone (next s))
        → DirDone (and_then o next)
    then-DirDone panic next v f = v
    then-DirDone (done s) next v f = f s v

    dealloc_pages-DirDone :
        (rounds n : ℕ) (s : Space) → P s.dir → DirDone (dealloc_pages end rounds n s)
    unfolding dealloc_pages dealloc_page
    dealloc_pages-DirDone zero n s v = v
    dealloc_pages-DirDone (suc rounds) n s v =
        then-DirDone (dealloc_page end n s) (dealloc_pages end rounds (suc n))
          (free_entry-DirDone (n * pgsize) (pte s.dir (n * pgsize)) s v)
          (λ s' v'. dealloc_pages-DirDone rounds (suc n) s' v')

    abbrev SizeDone : Outcome (ℕ × Space) → Type 0
    SizeDone panic = Unit
    SizeDone (done (sz, s)) = P s.dir

    with_size-SizeDone :
        (sz : ℕ) (o : Outcome Space) → DirDone o → SizeDone (and_then o (λ s. done (sz, s)))
    with_size-SizeDone sz panic v = v
    with_size-SizeDone sz (done s) v = v

    deallocuvm-SizeDone :
        (oldsz newsz : ℕ) (s : Space) → P s.dir → SizeDone (deallocuvm end oldsz newsz s)
    unfolding deallocuvm
    deallocuvm-SizeDone oldsz newsz s v = elim (Bool-cases (leb oldsz newsz)) [
      | inl grows ↦ rw grows v
      | inr less ↦ rw less (
          with_size-SizeDone newsz _
            (dealloc_pages-DirDone (pages_of oldsz - pages_of newsz) (pages_of newsz) s v))
    ]

  -- A call that returns, and after which each page is free as often as before and `extra` times more.
  abbrev pub Gives : (ℕ → ℕ) → Mem → Outcome Mem → Type 0
  Gives extra m panic = ⊥
  Gives extra m (done m') = (a : ℕ) → occurrences a m'.free ≡ occurrences a m.free + extra a

  kfree-Gives :
      (pos : 0 < end) (v : ℕ) (m : Mem)
      → is_frame end v ≡ true
      → Gives (λ a. if v == a then 1 else 0) m (kfree end v m)
  unfolding occurrences
  kfree-Gives pos v m h = rw (kfree-eq end 0 (omega arith) pos v m h) (λ a. omega arith)

  then-Gives :
      (k l : ℕ → ℕ) (m : Mem) (o : Outcome Mem) (next : Mem → Outcome Mem)
      → Gives k m o
      → ((m' : Mem) → Gives l m' (next m'))
      → Gives (λ a. k a + l a) m (and_then o next)
  then-Gives k l m panic next g h = g
  then-Gives k l m (done m') next g h = both (next m') (h m')
    where
      both : (o : Outcome Mem) → Gives l m' o → Gives (λ a. k a + l a) m o
      both panic f = f
      both (done m'') f = λ a. omega (arith, f a, g a)

  free_table-Gives :
      (pos : 0 < end) (t : Option Pgtab) (m : Mem)
      → IsTable end t
      → Gives (λ a. at_page a t) m (free_table end t m)
  free_table-Gives pos none m v = λ a. omega arith
  free_table-Gives pos (some t) m v = kfree-Gives pos t.addr m v

  free_tables-Gives :
      (pos : 0 < end) (rounds i : ℕ) (d : Pgdir) (m : Mem)
      → IsDirectory end d
      → Gives (λ a. table_pages a rounds i d) m (free_tables end rounds i d m)
  unfolding free_tables table_pages
  free_tables-Gives pos zero i d m v = λ a. omega arith
  free_tables-Gives pos (suc rounds) i d m v =
      then-Gives (λ a. at_page a (d.tables i)) (λ a. table_pages a rounds (suc i) d) m
        (free_table end (d.tables i) m) (free_tables end rounds (suc i) d)
        (free_table-Gives pos (d.tables i) m (v.tables_ok i))
        (λ m'. free_tables-Gives pos rounds (suc i) d m' v)

  -- After `deallocuvm` to size 0, all pages of the user part are free.
  all_absent :
      (a top : ℕ) (s : Space)
      → ((j : ℕ) → 0 ≤ j → j < top → page_of s.dir j ≡ none)
      → tally (maps_to a) top (page_of s.dir) ≡ 0
  unfolding tally
  all_absent a zero s h = refl
  all_absent a (suc n) s h =
      rw (h n (omega arith) (omega arith))
        (omega (arith, all_absent a n s (λ j z lt. h j z (omega arith))))

  moved-Gives :
      (k l : ℕ → ℕ) (m m' : Mem) (o : Outcome Mem)
      → ((a : ℕ) → occurrences a m'.free + k a ≡ occurrences a m.free + l a)
      → Gives k m' o
      → Gives l m o
  moved-Gives k l m m' panic e g = g
  moved-Gives k l m m' (done m'') e g = λ a. g a ∙ e a

  abbrev Known : Pgdir → Pgdir → Type 0
  Known d₀ d = IsDirectory end d × SamePages d₀ d

  Known-closed : (d₀ d : Pgdir) (va : ℕ) → Known d₀ d → Known d₀ (set_pte va none d)
  Known-closed d₀ d va (v, same) =
      (set_pte-IsDirectory end d va none v, SamePages-set_pte d₀ d va same)

  -- The pages that `freevm` frees: the user pages below page number `top`, and the directory's own.
  abbrev pub given_back : ℕ → Space → ℕ → ℕ
  given_back top s a = tally (maps_to a) top (page_of s.dir) + own_pages a s.dir

  rest-Gives :
      (pos : 0 < end) (sz : ℕ) (small : pages_of sz ≤ 1024) (s : Space) (o : Outcome (ℕ × Space))
      → Shrunk end (pages_of sz) small pos sz 0 s o
      → SizeDone (Known s.dir) (Known-closed s.dir) o
      → Gives (given_back (pages_of sz) s) s.mem (
          and_then o (λ (r : ℕ × Space).
            and_then (free_tables end 1024 0 r.1.dir r.1.mem) (kfree end r.1.dir.addr)))
  rest-Gives pos sz small s panic h k = h
  rest-Gives pos sz small s (done (n, s')) (e, freed) (v, same) =
      moved-Gives (λ a. own_pages a s'.dir) (given_back (pages_of sz) s) s.mem s'.mem _
        (λ a.
          let none_left : tally (maps_to a) (pages_of sz) (page_of s'.dir) ≡ 0 =
            all_absent a (pages_of sz) s' freed.absent in
          omega (arith, freed.keeps.balance a, none_left, own_pages-same s.dir s'.dir a same))
        (then-Gives (λ a. table_pages a 1024 0 s'.dir) (λ a. if s'.dir.addr == a then 1 else 0)
          s'.mem (free_tables end 1024 0 s'.dir s'.mem) (kfree end s'.dir.addr)
          (free_tables-Gives pos 1024 0 s'.dir s'.mem v)
          (λ m. kfree-Gives pos s'.dir.addr m v.addr_ok))

  -- For a directory whose tables, whose own page and whose user pages below the given size can be freed,
  -- `freevm` does not panic. Afterwards each page of memory is in the free list as often as it was there
  -- before, mapped by a user page below the size, and a page of a table or of the directory, together.
  pub freevm-Gives :
      (pos : 0 < end) (sz : ℕ) (s : Space)
      → pages_of sz ≤ 1024
      → IsSane end (pages_of sz) s
      → IsDirectory end s.dir
      → Gives (given_back (pages_of sz) s) s.mem (freevm end sz s)
  unfolding freevm
  freevm-Gives pos sz s small v d =
      rest-Gives pos sz small s (deallocuvm end sz 0 s)
        (deallocuvm-Shrunk end (pages_of sz) small pos sz 0 s (le_refl _) v)
        (deallocuvm-SizeDone (Known s.dir) (Known-closed s.dir) sz 0 s (d, (refl, λ a i. refl)))

  Gives-Returns : (k : ℕ → ℕ) (m : Mem) (o : Outcome Mem) → Gives k m o → Returns o
  Gives-Returns k m panic g = g
  Gives-Returns k m (done m') g = tt

  pub freevm-Returns :
      (top : ℕ) (small : top ≤ 1024) (pos : 0 < end) (sz : ℕ) (s : Space)
      → pages_of sz ≤ top
      → IsSane end top s
      → IsDirectory end s.dir
      → Returns (freevm end sz s)
  freevm-Returns top small pos sz s h v d =
      Gives-Returns (given_back (pages_of sz) s) s.mem (freevm end sz s) (
        freevm-Gives pos sz s (omega arith)
          (record {
            table = v.table;
            free_ok = v.free_ok;
            pages_ok = λ j lt. v.pages_ok j (omega arith);
          })
          d)
