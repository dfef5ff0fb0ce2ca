-- ===== src/Vm/Fill.antt =====
-- The loop of allocuvm of projects/p3/p3b/xv6/kernel/vm.c maps fresh zeroed pages until memory runs out.
use cs537_fall.Prelude.{
  length, ap, ℕ, zero, suc, ◌+◌, ◌-◌, ◌*◌, ◌≤◌, ◌<◌, ◌≡◌, refl, ◌∙◌, ◌==◌, Bool, Bool-cases, true,
  false, inl, inr, Option, none, some, List, [], ◌∷◌, arith,
}
use native.Mathlib.Decide.{dec_lt}
use cs537_fall.Prelude.Arrays.{update_self}
use cs537_fall.Mlfq.State.{Outcome, done, panic}
use cs537_fall.Shm.State.{pgsize}
use cs537_fall.Vm.Frames.{Mem, fill_page, kalloc, pop_page}
use cs537_fall.Vm.Tables.{Entry, set_pte, pte_wu}
use cs537_fall.Vm.Spaces.{Space, and_then, alloc_in, alloc_page, unless_full, alloc_pages}
use cs537_fall.Vm.View.{page_of, page_of-set_pte, mappages-user}
use cs537_fall.Vm.Balance.{IsSane, Keeps, Keeps-none, Keeps-then, fill-Keeps}
use cs537_fall.Vm.Release.{only_page}

-- A user page that may be read and written, filled with zeros.
abbrev pub IsZeroPage : Mem → Option Entry → Type 0
IsZeroPage m none = ⊥
IsZeroPage m (some e) = (e.perm ≡ pte_wu) × (m.bytes e.frame ≡ (λ _. 0))

IsZeroPage-later :
    (m m' : Mem) (p : Option Entry)
    → ((a : ℕ) → (m.bytes a ≡ (λ _. 0)) → m'.bytes a ≡ (λ _. 0))
    → IsZeroPage m p
    → IsZeroPage m' p
IsZeroPage-later m m' none h z = z
IsZeroPage-later m m' (some e) h z = (z.0, h e.frame z.1)

-- No page from `lo` to `hi` is mapped.
abbrev pub IsAbsent : ℕ → ℕ → Space → Type 0
IsAbsent lo hi s = (j : ℕ) → lo ≤ j → j < hi → page_of s.dir j ≡ none

module _ (end top : ℕ) (small : top ≤ 1024) (pos : 0 < end) where
  -- The pages from `lo` to `hi` are fresh.
  pub record IsFilled (lo hi : ℕ) (s s' : Space) : Type 0 where
    pub keeps : Keeps end top small lo hi s s'
    pub zeroed : (j : ℕ) → lo ≤ j → j < hi → IsZeroPage s'.mem (page_of s'.dir j)
    pub room : length s.mem.free ≡ length s'.mem.free + (hi - lo)
    pub still_zero : (a : ℕ) → s.mem.bytes a ≡ (λ _. 0) → s'.mem.bytes a ≡ (λ _. 0)

  abbrev pub Filled : ℕ → ℕ → Space → Outcome (Bool × Space) → Type 0
  Filled lo hi s panic = ⊥
  Filled lo hi s (done (true, s')) = IsFilled lo hi s s'
  Filled lo hi s (done (false, s')) = Keeps end top small lo hi s s' × (length s.mem.free < hi - lo)

  alloc_in-Filled :
      (n : ℕ) (s : Space) (free : List ℕ)
      → n < top
      → s.mem.free ≡ free
      → page_of s.dir n ≡ none
      → IsSane end top s
      → Filled n (suc n) s (alloc_in n s (pop_page s.mem free))
  alloc_in-Filled n s [] h e absent v =
      (Keeps-none end top small n (suc n) s v, omega (arith, ap length e))
  alloc_in-Filled n s (r ∷ rest) h e absent v =
      let m = fill_page r 0 (record s.mem { free = rest }) in
      rw (mappages-user s.dir n r pte_wu m (omega arith) v.table, absent)
        (record {
          keeps = fill-Keeps end top small n s r pte_wu m h v e absent;
          zeroed = λ j lo hi.
              let there : page_of
                    (set_pte (n * pgsize) (some (record { frame = r; perm = pte_wu })) s.dir) j
                  ≡ some (record { frame = r; perm = pte_wu }) =
                page_of-set_pte s.dir n j _ (omega arith) (omega arith) v.table
                ∙ ground (arith, only_page j n lo hi) in
              rw there (refl, update_self s.mem.bytes r (λ _. 0));
          room = omega (arith, ap length e);
          still_zero = λ a z. elim (Bool-cases (r == a)) [
            | inl same ↦ rw same refl
            | inr other ↦ rw other z
          ];
        })

  alloc_page-Filled :
      (n : ℕ) (s : Space)
      → n < top
      → page_of s.dir n ≡ none
      → IsSane end top s
      → Filled n (suc n) s (alloc_page n s)
  unfolding alloc_page kalloc
  alloc_page-Filled n s h absent v = alloc_in-Filled n s s.mem.free h refl absent v

  glue-Filled :
      (lo mid hi : ℕ) {s s' : Space} (o : Outcome (Bool × Space))
      → lo ≤ mid
      → mid ≤ hi
      → hi ≤ top
      → IsFilled lo mid s s'
      → Filled mid hi s' o
      → Filled lo hi s o
  glue-Filled lo mid hi panic a b c p q = q
  glue-Filled lo mid hi (done (false, s'')) a b c p (q, short) =
      (Keeps-then end top small lo mid hi a b p.keeps q, omega (arith, p.room))
  glue-Filled lo mid hi {s' = s'} (done (true, s'')) a b c p q = record {
    keeps = Keeps-then end top small lo mid hi a b p.keeps q.keeps;
    zeroed = λ j hl hh. elim (dec_lt j mid) [
      | yes before ↦
          rw (q.keeps.outside j (omega arith) (inl before))
            (IsZeroPage-later s'.mem s''.mem _ q.still_zero (p.zeroed j hl before))
      | no after ↦ q.zeroed j (omega arith) hh
    ];
    room = omega (arith, p.room, q.room);
    still_zero = λ v z. q.still_zero v (p.still_zero v z);
  }

  then-Filled :
      (lo mid hi : ℕ) (s : Space) (o : Outcome (Bool × Space))
      (next : Space → Outcome (Bool × Space))
      → lo ≤ mid
      → mid ≤ hi
      → hi ≤ top
      → Filled lo mid s o
      → ((s' : Space) → Keeps end top small lo mid s s' → Filled mid hi s' (next s'))
      → Filled lo hi s (and_then o (unless_full next))
  then-Filled lo mid hi s panic next a b c p q = p
  then-Filled lo mid hi s (done (false, s')) next a b c (p, short) q = (
    Keeps-then end top small lo mid hi a b p (Keeps-none end top small mid hi s' p.sane),
    omega arith,
  )
  then-Filled lo mid hi s (done (true, s')) next a b c p q =
      glue-Filled lo mid hi (next s') a b c p (q s' p.keeps)

  pub alloc_pages-Filled :
      (rounds n hi : ℕ) (s : Space)
      → n + rounds ≡ hi
      → hi ≤ top
      → IsAbsent n hi s
      → IsSane end top s
      → Filled n hi s (alloc_pages rounds n s)
  unfolding alloc_pages
  alloc_pages-Filled zero n hi s e h absent v = record {
    keeps = Keeps-none end top small n hi s v;
    zeroed = λ j a b. absurd (omega arith);
    room = omega arith;
    still_zero = λ a z. z;
  }
  alloc_pages-Filled (suc rounds) n hi s e h absent v =
      then-Filled n (suc n) hi s (alloc_page n s) (alloc_pages rounds (suc n)) (omega arith)
        (omega arith) h
        (alloc_page-Filled n s (omega arith) (absent n (omega arith) (omega arith)) v)
        (λ s' k.
          alloc_pages-Filled rounds (suc n) hi s' (omega arith) h
            (λ j a b. k.outside j (omega arith) (inr a) ∙ absent j (omega arith) b) k.sane)
