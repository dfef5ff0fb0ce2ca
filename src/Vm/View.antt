-- ===== src/Vm/View.antt =====
-- The user part of a directory of projects/p3/p3b/xv6/kernel/vm.c as one array of entries, by page
-- number. It lies in the first table, which setupkvm makes for the I/O space.
use cs537_fall.Prelude.{
  ℕ, ◌+◌, ◌-◌, ◌*◌, ◌/◌, ◌%◌, ◌^◌, ◌<◌, ◌≡◌, refl, ap, ◌∙◌, ◌==◌, if◌then◌else◌, Bool, true, Option,
  some, arith,
}
use cs537_fall.Shm.State.{pgsize}
use cs537_fall.Vm.Frames.{Mem}
use cs537_fall.Vm.Tables.{
  Entry, Pgtab, Pgdir, pdx, ptx, pte, set_pte, walkpgdir, write_pte, map_page, map_rounds, mappages,
}

-- The entry of page `n`.
abbrev pub page_of : Pgdir → ℕ → Option Entry
page_of d n = pte d (n * pgsize)

abbrev pub HasTable : Pgdir → Type 0
HasTable d = (t : Pgtab) × (d.tables 0 ≡ some t)

pdx_user : (n : ℕ) → n < 1024 → pdx (n * pgsize) ≡ 0
pdx_user n h = omega arith

ptx_user : (n : ℕ) → n < 1024 → ptx (n * pgsize) ≡ n
ptx_user n h = omega arith

pub page_of-table :
    (d : Pgdir) {t : Pgtab} (n : ℕ) → n < 1024 → d.tables 0 ≡ some t → page_of d n ≡ t.ptes n
unfolding pte
page_of-table d n h e = rw (pdx_user n h, e, ptx_user n h) refl

-- A write to the entry of page `n` is a write to the array.
pub page_of-set_pte :
    (d : Pgdir) (n j : ℕ) (e : Option Entry)
    → n < 1024
    → j < 1024
    → HasTable d
    → page_of (set_pte (n * pgsize) e d) j ≡ (if n == j then e else page_of d j)
unfolding pte set_pte
page_of-set_pte d n j e hn hj (t, same) =
    rw (pdx_user n hn, pdx_user j hj, same, ptx_user n hn, ptx_user j hj) refl

pub set_pte-HasTable :
    (d : Pgdir) (va : ℕ) (e : Option Entry) → pdx va ≡ 0 → HasTable d → HasTable (set_pte va e d)
unfolding set_pte
set_pte-HasTable d va e z (t, same) = rw (z, same) (_, refl)

walkpgdir-found :
    (create : Bool) (d : Pgdir) (va : ℕ) (m : Mem) {t : Pgtab}
    → d.tables (pdx va) ≡ some t
    → walkpgdir create d va m ≡ some (d, m)
unfolding walkpgdir
walkpgdir-found create d va m e = rw (e, walkpgdir) refl

map_page-found :
    (d : Pgdir) (va : ℕ) (e : Entry) (m : Mem) {t : Pgtab}
    → d.tables (pdx va) ≡ some t
    → map_page va e d m ≡ write_pte va e d m (pte d va)
unfolding map_page
map_page-found d va e m same = rw (walkpgdir-found true d va m same, map_page) refl

-- Mapping one page needs no table: it writes the entry of a page that is absent.
pub mappages-user :
    (d : Pgdir) (n r perm : ℕ) (m : Mem)
    → n < 1024
    → HasTable d
    → mappages d (n * pgsize) pgsize r perm m
      ≡ write_pte (n * pgsize) (record { frame = r; perm = perm }) d m (page_of d n)
unfolding mappages map_rounds
mappages-user d n r perm m h (t, same) =
    let none_more : (n * pgsize + pgsize - 1) % 2 ^ 32 / pgsize - n * pgsize / pgsize ≡ 0 =
      omega arith in
    let aligned : n * pgsize / pgsize * pgsize ≡ n * pgsize = omega arith in
    rw (none_more, aligned)
      (map_page-found d (n * pgsize) (record { frame = r; perm = perm }) m
        (ap d.tables (pdx_user n h) ∙ same))
