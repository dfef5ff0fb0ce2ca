-- ===== src/Vm/Own.antt =====
-- The pages that a directory of projects/p3/p3b/xv6/kernel/vm.c is made of: its own and its tables'.
use cs537_fall.Prelude.{
  ==_iff, if◌then◌else◌, ◌+◌, refl, arith, ℕ, zero, suc, ◌≡◌, ◌==◌, Bool-cases, inl, inr, Option,
  none, some,
}
use cs537_fall.Vm.Tables.{pdx, set_in, Entry, Pgtab, Pgdir, set_pte}

-- How often page `a` is the page of a table, and of the tables from number `i` on.
abbrev pub at_page : ℕ → Option Pgtab → ℕ
at_page a none = 0
at_page a (some t) = if t.addr == a then 1 else 0

unfoldable pub table_pages : ℕ → ℕ → ℕ → Pgdir → ℕ
table_pages a zero i d = 0
table_pages a (suc rounds) i d = at_page a (d.tables i) + table_pages a rounds (suc i) d

-- How often page `a` is a page of the directory itself.
abbrev pub own_pages : ℕ → Pgdir → ℕ
own_pages a d = table_pages a 1024 0 d + (if d.addr == a then 1 else 0)

-- A directory with the same pages.
abbrev pub SamePages : Pgdir → Pgdir → Type 0
SamePages d d' = (d'.addr ≡ d.addr) × ((a i : ℕ) → at_page a (d'.tables i) ≡ at_page a (d.tables i))

set_in-at_page :
    (a va : ℕ) (e : Option Entry) (t : Option Pgtab) → at_page a (set_in t va e) ≡ at_page a t
set_in-at_page a va e none = refl
set_in-at_page a va e (some t) = refl

pub SamePages-set_pte : (d₀ d : Pgdir) (va : ℕ) → SamePages d₀ d → SamePages d₀ (set_pte va none d)
unfolding set_pte
SamePages-set_pte d₀ d va (addr, same) = (
  addr,
  λ a i. elim (Bool-cases (pdx va == i)) [
    | inl here ↦
        rw (here, set_in-at_page a va none (d.tables (pdx va)), (==_iff _ _).0 here) (same a i)
    | inr other ↦ rw other (same a i)
  ],
)

table_pages-same :
    (d d' : Pgdir) (a rounds i : ℕ)
    → SamePages d d'
    → table_pages a rounds i d' ≡ table_pages a rounds i d
unfolding table_pages
table_pages-same d d' a zero i h = refl
table_pages-same d d' a (suc rounds) i h =
    omega (arith, h.1 a i, table_pages-same d d' a rounds (suc i) h)

pub own_pages-same : (d d' : Pgdir) (a : ℕ) → SamePages d d' → own_pages a d' ≡ own_pages a d
own_pages-same d d' a h = rw (table_pages-same d d' a 1024 0 h, h.0) refl
