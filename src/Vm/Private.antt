-- ===== src/Vm/Private.antt =====
-- copyuvm of projects/p3/p3b/xv6/kernel/vm.c: what its two loops have built of the child's address space.
use cs537_fall.Prelude.{
  length, ◌+◌, ℕ, ◌*◌, ◌≤◌, ◌<◌, ◌≡◌, ◌∙◌, ◌==◌, Bool, Bool-cases, true, false, inl, inr, ◌⊎◌,
  Option, none, some, All, arith,
}
use cs537_fall.Mlfq.State.{Outcome, done, panic}
use cs537_fall.Shm.State.{pgsize}
use cs537_fall.Vm.Frames.{Mem, is_frame}
use cs537_fall.Vm.Tables.{Entry, Pgtab, Pgdir, pdx, set_in, set_pte, pte_wu}
use cs537_fall.Vm.Spaces.{Space}
use cs537_fall.Vm.View.{page_of, page_of-set_pte, set_pte-HasTable}
use cs537_fall.Vm.Balance.{IsSane, occurrences}

-- `USERTOP / PGSIZE`
abbrev pub user_pages : ℕ
user_pages = 160

abbrev pub IsTable : ℕ → Option Pgtab → Type 0
IsTable end none = Unit
IsTable end (some t) = is_frame end t.addr ≡ true

-- The pages of the directory itself can be freed.
pub record IsDirectory (end : ℕ) (d : Pgdir) : Type 0 where
  pub tables_ok : (i : ℕ) → IsTable end (d.tables i)
  pub addr_ok : is_frame end d.addr ≡ true

set_in-IsTable :
    (end : ℕ) (t : Option Pgtab) (va : ℕ) (e : Option Entry)
    → IsTable end t
    → IsTable end (set_in t va e)
set_in-IsTable end none va e v = v
set_in-IsTable end (some t) va e v = v

pub set_pte-IsDirectory :
    (end : ℕ) (d : Pgdir) (va : ℕ) (e : Option Entry)
    → IsDirectory end d
    → IsDirectory end (set_pte va e d)
unfolding set_pte
set_pte-IsDirectory end d va e v = record {
  tables_ok = λ i. elim (Bool-cases (pdx va == i)) [
    | inl same ↦ rw same (set_in-IsTable end (d.tables (pdx va)) va e (v.tables_ok (pdx va)))
    | inr other ↦ rw other (v.tables_ok i)
  ];
  addr_ok = v.addr_ok;
}

-- The entry `c` of the child maps a page that was free in `m` and has the bytes that the parent's page
-- had there, and is no longer free.
abbrev pub CopyOf : Mem → Mem → Option Entry → Option Entry → Type 0
CopyOf m m' none c = ⊥
CopyOf m m' (some e) none = ⊥
CopyOf m m' (some e) (some c) =
    (c.perm ≡ pte_wu)
    × (m'.bytes c.frame ≡ m.bytes e.frame)
    × (0 < occurrences c.frame m.free)
    × (occurrences c.frame m'.free ≡ 0)

-- The entry of the child maps the page of the parent.
abbrev pub ShareOf : Option Entry → Option Entry → Type 0
ShareOf none c = ⊥
ShareOf (some e) none = ⊥
ShareOf (some e) (some c) = (c.perm ≡ pte_wu) × (c.frame ≡ e.frame)

module _ (end : ℕ) (m : Mem) where
  -- A child that can be given up, with the pages that were not free at the start as they were.
  pub record IsChild (c : Space) : Type 0 where
    pub sane : IsSane end user_pages c
    pub directory : IsDirectory end c.dir
    pub fewer : (a : ℕ) → occurrences a c.mem.free ≤ occurrences a m.free
    pub kept : (a : ℕ) → occurrences a m.free ≡ 0 → c.mem.bytes a ≡ m.bytes a

  -- Page `n`, which is absent, gets an entry.
  pub write-IsChild :
      (n : ℕ) (e : Entry) (c : Space) (m' : Mem)
      → n < user_pages
      → is_frame end e.frame ≡ true
      → All (λ v. is_frame end v ≡ true) m'.free
      → ((a : ℕ) → occurrences a m'.free ≤ occurrences a m.free)
      → ((a : ℕ) → occurrences a m.free ≡ 0 → m'.bytes a ≡ m.bytes a)
      → IsChild c
      → IsChild (record { dir = set_pte (n * pgsize) (some e) c.dir; mem = m' })
  write-IsChild n e c m' h backed free_ok fewer kept v = record {
    sane = record {
      table = set_pte-HasTable c.dir (n * pgsize) (some e) (omega arith) v.sane.table;
      free_ok = free_ok;
      pages_ok = λ j hj. elim (Bool-cases (n == j)) [
        | inl same ↦
            rw (page_of-set_pte c.dir n j (some e) (omega arith) (omega arith) v.sane.table, same)
              backed
        | inr other ↦
            rw (page_of-set_pte c.dir n j (some e) (omega arith) (omega arith) v.sane.table, other)
              (v.sane.pages_ok j hj)
      ];
    };
    directory = set_pte-IsDirectory end c.dir (n * pgsize) (some e) v.directory;
    fewer = fewer;
    kept = kept;
  }

  pub CopyOf-later :
      (m₁ m₂ : Mem) (p c : Option Entry)
      → ((a : ℕ) → occurrences a m₁.free ≡ 0 → m₂.bytes a ≡ m₁.bytes a)
      → ((a : ℕ) → occurrences a m₂.free ≤ occurrences a m₁.free)
      → CopyOf m m₁ p c
      → CopyOf m m₂ p c
  CopyOf-later m₁ m₂ none c k f o = o
  CopyOf-later m₁ m₂ (some e) none k f o = o
  CopyOf-later m₁ m₂ (some e) (some c) k f (perm, bytes, was_free, taken) =
      (perm, k c.frame taken ∙ bytes, was_free, omega (arith, f c.frame))

  module _ (d : Pgdir) (top : ℕ) (below : top ≤ user_pages) where
    -- The pages below `lo` are copied, and those from `top` to `hi` are shared; the copies took `lo` pages.
    pub record IsBuilt (lo hi : ℕ) (c : Space) : Type 0 where
      pub child : IsChild c
      pub copied : (j : ℕ) → j < lo → CopyOf m c.mem (page_of d j) (page_of c.dir j)
      pub shared : (j : ℕ) → top ≤ j → j < hi → ShareOf (page_of d j) (page_of c.dir j)
      pub absent : (j : ℕ) → lo ≤ j → j < user_pages → (j < top) ⊎ (hi ≤ j) → page_of c.dir j ≡ none
      pub room : length m.free ≤ length c.mem.free + lo

    -- What a loop returns; it gives up only if there were not enough pages.
    abbrev pub Built : ℕ → ℕ → Outcome (Bool × Space) → Type 0
    Built lo hi panic = ⊥
    Built lo hi (done (true, c)) = IsBuilt lo hi c
    Built lo hi (done (false, c)) = IsChild c × (length m.free < lo)
