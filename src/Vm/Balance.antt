-- ===== src/Vm/Balance.antt =====
-- Who holds a physical page of projects/p3/p3b/xv6/kernel: the free list or a user page of a directory.
use cs537_fall.Prelude.{
  ℕ, zero, suc, ◌+◌, ◌*◌, ◌≤◌, ◌<◌, ◌≡◌, refl, subst, ◌∙◌, ◌==◌, if◌then◌else◌, Bool-cases, true,
  inl, inr, ◌⊎◌, Option, none, some, List, [], ◌∷◌, All, arith,
}
use cs537_fall.Prelude.Arrays.{update}
use cs537_fall.Prelude.Tally.{tally, tally-update}
use cs537_fall.Shm.State.{pgsize}
use cs537_fall.Vm.Frames.{Mem, is_frame}
use cs537_fall.Vm.Tables.{Entry, Pgdir, set_pte}
use cs537_fall.Vm.Spaces.{Space}
use cs537_fall.Vm.View.{page_of, HasTable, page_of-set_pte, set_pte-HasTable}

-- how often a page is in a list
unfoldable pub occurrences : ℕ → List ℕ → ℕ
occurrences a [] = 0
occurrences a (x ∷ xs) = (if x == a then 1 else 0) + occurrences a xs

-- An entry maps page `a`.
abbrev pub maps_to : ℕ → Option Entry → ℕ
maps_to a none = 0
maps_to a (some e) = if e.frame == a then 1 else 0

-- The places that hold page `a`: in the free list and below page number `top` of the directory.
abbrev pub holders : ℕ → ℕ → Space → ℕ
holders a top s = occurrences a s.mem.free + tally (maps_to a) top (page_of s.dir)

-- An entry maps a page that `kfree` accepts.
abbrev pub IsBacked : ℕ → Option Entry → Type 0
IsBacked end none = Unit
IsBacked end (some e) = is_frame end e.frame ≡ true

-- A user address space below page number `top`: all its pages and all free pages can be freed.
pub record IsSane (end top : ℕ) (s : Space) : Type 0 where
  pub table : HasTable s.dir
  pub free_ok : All (λ v. is_frame end v ≡ true) s.mem.free
  pub pages_ok : (j : ℕ) → j < top → IsBacked end (page_of s.dir j)

tally-same :
    (a n : ℕ) (f g : ℕ → Option Entry)
    → ((j : ℕ) → j < n → f j ≡ g j)
    → tally (maps_to a) n f ≡ tally (maps_to a) n g
unfolding tally
tally-same a zero f g h = refl
tally-same a (suc n) f g h =
    rw (h n (omega arith), tally-same a n f g (λ j lt. h j (omega arith))) refl

-- A write to page `n` changes the count by that page.
pub tally-set_pte :
    (a top n : ℕ) (d : Pgdir) (e : Option Entry)
    → n < top
    → top ≤ 1024
    → HasTable d
    → tally (maps_to a) top (page_of (set_pte (n * pgsize) e d)) + maps_to a (page_of d n)
      ≡ tally (maps_to a) top (page_of d) + maps_to a e
tally-set_pte a top n d e hn ht t = omega (
  arith,
  tally-same a top (page_of (set_pte (n * pgsize) e d)) (update (page_of d) n e)
      (λ j hj. page_of-set_pte d n j e (omega arith) (omega arith) t),
  tally-update (maps_to a) top n e (page_of d) hn,
)

module _ (end top : ℕ) (small : top ≤ 1024) where
  -- From `s` to `s'` only the pages from `lo` to `hi` change, and every page of memory is held as often.
  pub record Keeps (lo hi : ℕ) (s s' : Space) : Type 0 where
    pub sane : IsSane end top s'
    pub balance : (a : ℕ) → holders a top s' ≡ holders a top s
    pub outside : (j : ℕ) → j < 1024 → (j < lo) ⊎ (hi ≤ j) → page_of s'.dir j ≡ page_of s.dir j

  pub Keeps-none : (lo hi : ℕ) (s : Space) → IsSane end top s → Keeps lo hi s s
  Keeps-none lo hi s v = record { sane = v; balance = λ a. refl; outside = λ j h o. refl }

  pub Keeps-then :
      (lo mid hi : ℕ) {s s' s'' : Space}
      → lo ≤ mid
      → mid ≤ hi
      → Keeps lo mid s s'
      → Keeps mid hi s' s''
      → Keeps lo hi s s''
  Keeps-then lo mid hi a b p q = record {
    sane = q.sane;
    balance = λ v. q.balance v ∙ p.balance v;
    outside = λ j h o. elim o [
      | inl before ↦ q.outside j h (inl (omega arith)) ∙ p.outside j h (inl before)
      | inr after ↦ q.outside j h (inr after) ∙ p.outside j h (inr (omega arith))
    ];
  }

  -- A write to page `n` and a change of the free list that balances it.
  write-Keeps :
      (n : ℕ) (s : Space) (e : Option Entry) (m : Mem)
      → n < top
      → IsSane end top s
      → IsBacked end e
      → All (λ v. is_frame end v ≡ true) m.free
      → ((a : ℕ)
          → occurrences a m.free + maps_to a e
            ≡ occurrences a s.mem.free + maps_to a (page_of s.dir n))
      → Keeps n (suc n) s (record { dir = set_pte (n * pgsize) e s.dir; mem = m })
  write-Keeps n s e m h v backed free_ok moves = record {
    sane = record {
      table = set_pte-HasTable s.dir (n * pgsize) e (omega arith) v.table;
      free_ok = free_ok;
      pages_ok = λ j hj. elim (Bool-cases (n == j)) [
        | inl same ↦
            rw (page_of-set_pte s.dir n j e (omega arith) (omega arith) v.table, same) backed
        | inr other ↦
            rw (page_of-set_pte s.dir n j e (omega arith) (omega arith) v.table, other)
              (v.pages_ok j hj)
      ];
    };
    balance = λ a. omega (arith, tally-set_pte a top n s.dir e h small v.table, moves a);
    outside = λ j hj o. page_of-set_pte s.dir n j e (omega arith) hj v.table ∙ ground arith;
  }

  -- A free page goes to page `n`, which was absent.
  pub fill-Keeps :
      (n : ℕ) (s : Space) (r perm : ℕ) (m : Mem)
      → n < top
      → IsSane end top s
      → s.mem.free ≡ r ∷ m.free
      → page_of s.dir n ≡ none
      → Keeps n (suc n) s (record {
        dir = set_pte (n * pgsize) (some (record { frame = r; perm = perm })) s.dir;
        mem = m;
      })
  unfolding occurrences
  fill-Keeps n s r perm m h v e absent =
      let ok = subst (All (λ v. is_frame end v ≡ true)) e v.free_ok in
      write-Keeps n s (some (record { frame = r; perm = perm })) m h v ok.0 ok.1
        (λ a. rw (e, absent) (omega arith))

  -- The page that page `n` maps goes back to the free list.
  pub free-Keeps :
      (n : ℕ) (s : Space) (e : Entry) (m : Mem)
      → n < top
      → IsSane end top s
      → page_of s.dir n ≡ some e
      → m.free ≡ e.frame ∷ s.mem.free
      → Keeps n (suc n) s (record { dir = set_pte (n * pgsize) none s.dir; mem = m })
  unfolding occurrences
  free-Keeps n s e m h v there freed =
      let ok = subst (IsBacked end) there (v.pages_ok n h) in
      write-Keeps n s none m h v tt (rw freed (ok, v.free_ok))
        (λ a. rw (freed, there) (omega arith))
