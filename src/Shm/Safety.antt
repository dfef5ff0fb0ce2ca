-- ===== src/Shm/Safety.antt =====
-- The address checks of projects/p3/p3b/xv6/kernel/syscall.c let only memory of the process through.
use cs537_fall.Prelude.{
  ℕ, zero, suc, ◌+◌, ◌-◌, ◌^◌, ◌≤◌, ◌<◌, ◌≡◌, ◌≢◌, ◌⊎◌, ap, ◌==◌, ltb, leb, true, false, Bool-cases,
  Option-cases, inl, inr, some, arith,
}
use native.Mathlib.Decide.{dec_lt}
use cs537_fall.Prelude.Loops.{for_below_ind}
use cs537_fall.Shm.State.{regions, usertop, Proc}
use cs537_fall.Shm.Access.{
  lower_bound, get_shm_bound, user_bound, out_of_bounds, scan_nul, fetchstr, argptr,
}
use cs537_fall.Shm.Attach.{IsLaidOut}

-- The loop's result is at most USERTOP and at most every region's start after `addr`.
record IsBelow (p : Proc) (addr n bound : ℕ) : Type 0 where
  top : bound ≤ usertop
  starts : (j : ℕ) → j < n → addr < p.vaddr j → bound ≤ p.vaddr j

lower_bound-IsBelow :
    (p : Proc) (addr n bound : ℕ)
    → IsBelow p addr n bound
    → IsBelow p addr (suc n) (lower_bound p addr n bound)
lower_bound-IsBelow p addr n bound b = record {
  top = ground (arith, b.top);
  starts = λ j hj after. at_start j after (dec_lt j n) hj;
}
  where
    at_start :
        (j : ℕ)
        → addr < p.vaddr j
        → Dec (j < n)
        → j < suc n
        → lower_bound p addr n bound ≤ p.vaddr j
    at_start j after (yes before) hj = ground (arith, b.starts j before after)
    at_start j after (no late) hj = last (omega arith)
      where
        last : j ≡ n → lower_bound p addr n bound ≤ p.vaddr j
        last e = ground (arith, ap p.vaddr e)

get_shm_bound-IsBelow : (p : Proc) (addr : ℕ) → IsBelow p addr regions (get_shm_bound p addr)
unfolding get_shm_bound
get_shm_bound-IsBelow p addr =
    for_below_ind (IsBelow p addr) regions (lower_bound p addr)
      (λ n b hn below. lower_bound-IsBelow p addr n b below) usertop
      (record { top = omega arith; starts = λ j hj after. absurd (omega arith) })

-- `size` bytes from `addr` lie in the heap, or among the regions with no region starting inside.
abbrev pub IsUserRange : Proc → ℕ → ℕ → Type 0
IsUserRange p addr size =
    (addr + size ≤ p.sz)
    ⊎ ((p.shmtop ≤ addr)
        × (addr + size ≤ usertop)
        × ((j : ℕ) → j < regions → addr < p.vaddr j → addr + size ≤ p.vaddr j))

user_range :
    (p : Proc) (addr size : ℕ)
    → IsLaidOut p
    → size < 2 ^ 31
    → addr < user_bound p addr
    → addr + size ≤ user_bound p addr
    → IsUserRange p addr size
unfolding user_bound
user_range p addr size v small start fits = elim (Bool-cases (ltb addr p.shmtop)) [
  | inl heap ↦ inl (ground (arith, fits))
  | inr shared ↦
      let b = get_shm_bound-IsBelow p addr in
      inr (
        ground arith,
        ground (arith, fits, b.top),
        λ j hj after. ground (arith, fits, b.starts j hj after),
      )
]

-- A bound of the memory is at most USERTOP, so the sum of the check does not wrap.
user_bound-le : (p : Proc) (addr : ℕ) → IsLaidOut p → user_bound p addr ≤ usertop
unfolding user_bound
user_bound-le p addr v = ground (arith, v.heap_below, v.top, (get_shm_bound-IsBelow p addr).top)

in_bounds :
    (p : Proc) (addr size : ℕ)
    → IsLaidOut p
    → size < 2 ^ 31
    → out_of_bounds p addr size ≡ false
    → IsUserRange p addr size
in_bounds p addr size v small e =
    user_range p addr size v small (ground (arith, user_bound-le p addr v))
      (ground (arith, user_bound-le p addr v))

-- A pointer that `argptr` lets through: all its `size` bytes lie in the heap of the process, or among
-- its shared regions, with no other region starting inside.
pub argptr-IsUserRange :
    (p : Proc) (mem : ℕ → ℕ) (esp n size : ℕ) {i : ℕ}
    → IsLaidOut p
    → size < 2 ^ 31
    → argptr p mem esp n size ≡ some i
    → IsUserRange p i size
unfolding argptr
argptr-IsUserRange p mem esp n size {i} v small e = in_bounds p i size v small (ground (arith, e))

-- What the scan for the end of a string finds.
record IsScanned (mem : ℕ → ℕ) (rounds s : ℕ) (e : ℕ) : Type 0 where
  after : s ≤ e
  before : e < s + rounds
  is_nul : mem e ≡ 0
  first : (j : ℕ) → s ≤ j → j < e → mem j ≢ 0

scan_nul-IsScanned :
    (mem : ℕ → ℕ) (rounds s : ℕ) {e : ℕ} → scan_nul mem rounds s ≡ some e → IsScanned mem rounds s e
unfolding scan_nul
scan_nul-IsScanned mem zero s h = absurd (cc)
scan_nul-IsScanned mem (suc rounds) s {e} h = elim (Bool-cases (mem s == 0)) [
  | inl nul ↦ here nul (ground arith)
  | inr other ↦
      let rest = scan_nul-IsScanned mem rounds (s + 1) {e = e} (ground (arith, h, other)) in
      record {
        after = omega (arith, rest.after);
        before = omega (arith, rest.before);
        is_nul = rest.is_nul;
        first = λ j a b. ground (arith, rest.first j, other);
      }
]
  where
    here : (mem s == 0) ≡ true → s ≡ e → IsScanned mem (suc rounds) s e
    here nul same = record {
      after = omega arith;
      before = omega arith;
      is_nul = ground (arith, ap mem same);
      first = λ j a b. absurd (omega arith);
    }

-- A string that `fetchstr` lets through lies in the heap of the process or among its shared regions,
-- its end included; the length returned is the distance to its first NUL.
pub fetchstr-IsUserRange :
    (p : Proc) (mem : ℕ → ℕ) (addr : ℕ) {n : ℕ}
    → IsLaidOut p
    → fetchstr p mem addr ≡ some n
    → IsUserRange p addr (n + 1) × (mem (addr + n) ≡ 0) × ((j : ℕ) → j < n → mem (addr + j) ≢ 0)
unfolding fetchstr
fetchstr-IsUserRange p mem addr {n} v e = elim (Bool-cases (leb (user_bound p addr) addr)) [
  | inl out ↦ absurd (ground arith)
  | inr inside ↦ elim (Option-cases (scan_nul mem (user_bound p addr - addr) addr)) [
    | inl missing ↦ absurd (ground arith)
    | inr (s, found) ↦
        let r = scan_nul-IsScanned mem _ addr found in
        let same : addr + n ≡ s = ground (arith, r.after) in
        let top = user_bound-le p addr v in
        (
          user_range p addr (n + 1) v (omega (arith, r.before, top)) (ground arith)
              (omega (arith, r.before)),
          rw same r.is_nul,
          λ j h. r.first (addr + j) (omega arith) (omega arith),
        )
  ]
]
