-- ===== src/Vm/Release.antt =====
-- deallocuvm of projects/p3/p3b/xv6/kernel/vm.c gives back the pages between two sizes, and no others.
use cs537_fall.Prelude.{
  ℕ, zero, suc, ◌+◌, ◌-◌, ◌≤◌, ◌<◌, ◌≡◌, refl, ◌∙◌, ◌==◌, leb, if◌then◌else◌, Bool-cases,
  Option-cases, true, false, inl, inr, none, ◌∷◌, subst, arith,
}
use native.Mathlib.Decide.{dec_lt}
use cs537_fall.Mlfq.State.{Outcome, done, panic}
use cs537_fall.Vm.Frames.{Mem, fill_page, kfree, is_frame, pages_of}
use cs537_fall.Vm.Spaces.{Space, dealloc_page, dealloc_pages, and_then, deallocuvm}
use cs537_fall.Vm.View.{page_of, page_of-set_pte}
use cs537_fall.Vm.Balance.{IsSane, IsBacked, Keeps, Keeps-none, Keeps-then, free-Keeps}

pub only_page : (j n : ℕ) → n ≤ j → j < suc n → j ≡ n
only_page j n a b = omega arith

module _ (end top : ℕ) (small : top ≤ 1024) (pos : 0 < end) where
  -- The pages from `lo` to `hi` are absent afterwards.
  pub record IsFreed (lo hi : ℕ) (s s' : Space) : Type 0 where
    pub keeps : Keeps end top small lo hi s s'
    pub absent : (j : ℕ) → lo ≤ j → j < hi → page_of s'.dir j ≡ none

  abbrev pub Freed : ℕ → ℕ → Space → Outcome Space → Type 0
  Freed lo hi s panic = ⊥
  Freed lo hi s (done s') = IsFreed lo hi s s'

  pub kfree-eq :
      (v : ℕ) (m : Mem)
      → is_frame end v ≡ true
      → kfree end v m ≡ done (record (fill_page v 1 m) { free = v ∷ m.free })
  unfolding kfree
  kfree-eq v m h = rw h refl

  dealloc_page-Freed :
      (n : ℕ) (s : Space) → n < top → IsSane end top s → Freed n (suc n) s (dealloc_page end n s)
  unfolding dealloc_page
  dealloc_page-Freed n s h v = elim (Option-cases (page_of s.dir n)) [
    | inl gone ↦ rw gone (record {
      keeps = Keeps-none end top small n (suc n) s v;
      absent = λ j lo hi. rw (only_page j n lo hi) gone;
    })
    | inr (e, there) ↦
        let ok = subst (IsBacked end) there (v.pages_ok n h) in
        let some_frame : (e.frame == 0) ≡ false = ground arith in
        let k =
          free-Keeps end top small n s e
            (record (fill_page e.frame 1 s.mem) { free = e.frame ∷ s.mem.free }) h v there refl in
        rw (there, some_frame, kfree-eq e.frame s.mem ok)
          (record {
            keeps = k;
            absent = λ j lo hi.
                page_of-set_pte s.dir n j none (omega arith) (omega arith) v.table ∙ ground arith;
          })
  ]

  glue-Freed :
      (lo mid hi : ℕ) {s s' : Space} (o : Outcome Space)
      → lo ≤ mid
      → mid ≤ hi
      → hi ≤ top
      → IsFreed lo mid s s'
      → Freed mid hi s' o
      → Freed lo hi s o
  glue-Freed lo mid hi panic a b c p q = q
  glue-Freed lo mid hi (done s'') a b c p q = record {
    keeps = Keeps-then end top small lo mid hi a b p.keeps q.keeps;
    absent = λ j hl hh. elim (dec_lt j mid) [
      | yes before ↦ q.keeps.outside j (omega arith) (inl before) ∙ p.absent j hl before
      | no after ↦ q.absent j (omega arith) hh
    ];
  }

  then-Freed :
      (lo mid hi : ℕ) (s : Space) (o : Outcome Space) (next : Space → Outcome Space)
      → lo ≤ mid
      → mid ≤ hi
      → hi ≤ top
      → Freed lo mid s o
      → ((s' : Space) → IsSane end top s' → Freed mid hi s' (next s'))
      → Freed lo hi s (and_then o next)
  then-Freed lo mid hi s panic next a b c p q = p
  then-Freed lo mid hi s (done s') next a b c p q =
      glue-Freed lo mid hi (next s') a b c p (q s' p.keeps.sane)

  pub dealloc_pages-Freed :
      (rounds n hi : ℕ) (s : Space)
      → n + rounds ≡ hi
      → hi ≤ top
      → IsSane end top s
      → Freed n hi s (dealloc_pages end rounds n s)
  unfolding dealloc_pages
  dealloc_pages-Freed zero n hi s e h v = record {
    keeps = Keeps-none end top small n hi s v;
    absent = λ j a b. absurd (omega arith);
  }
  dealloc_pages-Freed (suc rounds) n hi s e h v =
      then-Freed n (suc n) hi s (dealloc_page end n s) (dealloc_pages end rounds (suc n))
        (omega arith) (omega arith) h (dealloc_page-Freed n s (omega arith) v)
        (λ s' v'. dealloc_pages-Freed rounds (suc n) hi s' (omega arith) h v')

  abbrev pub Shrunk : ℕ → ℕ → Space → Outcome (ℕ × Space) → Type 0
  Shrunk oldsz newsz s panic = ⊥
  Shrunk oldsz newsz s (done (sz, s')) =
      (sz ≡ (if leb oldsz newsz then oldsz else newsz))
      × IsFreed (pages_of newsz) (pages_of oldsz) s s'

  done-Shrunk :
      (oldsz newsz : ℕ) (s : Space) (o : Outcome Space)
      → leb oldsz newsz ≡ false
      → Freed (pages_of newsz) (pages_of oldsz) s o
      → Shrunk oldsz newsz s (and_then o (λ s'. done (newsz, s')))
  done-Shrunk oldsz newsz s panic less f = f
  done-Shrunk oldsz newsz s (done s') less f = (rw less refl, f)

  -- In an address space all of whose pages and free pages can be freed, `deallocuvm` does not panic. It
  -- returns the smaller size; the pages between the two sizes are absent afterwards, all others are as
  -- they were, and each page of memory is held by the free list and the directory as often as before.
  pub deallocuvm-Shrunk :
      (oldsz newsz : ℕ) (s : Space)
      → pages_of oldsz ≤ top
      → IsSane end top s
      → Shrunk oldsz newsz s (deallocuvm end oldsz newsz s)
  unfolding deallocuvm
  deallocuvm-Shrunk oldsz newsz s h v = elim (Bool-cases (leb oldsz newsz)) [
    | inl grows ↦
        let none_between : pages_of oldsz ≤ pages_of newsz = ground arith in
        rw grows (
          rw grows refl,
          record {
            keeps = Keeps-none end top small (pages_of newsz) (pages_of oldsz) s v;
            absent = λ j a b. absurd (omega arith);
          },
        )
    | inr less ↦
        let order : pages_of newsz ≤ pages_of oldsz = ground arith in
        rw less (
          done-Shrunk oldsz newsz s _ less (
            dealloc_pages-Freed (pages_of oldsz - pages_of newsz) (pages_of newsz) (pages_of oldsz)
              s (omega arith) h v))
  ]
