-- ===== src/Prelude/Loops.antt =====
-- `for (i = 0; i < n; i++)` over the slots of a table: the whole pass, and the pass that stops at
-- the first hit.
use Prim.Native.Nat.{ℕ, zero, suc, ◌<◌, ◌≤◌}
use mathlib.Core.Path.{◌≡◌, refl, ap, ◌∙◌}
use mathlib.Core.Logic.{◌≢◌, ◌⊎◌, inl, inr}
use mathlib.Core.Bool.{Bool, true, false}
use mathlib.Core.Option.{Option, none, some}
use native.Mathlib.Decide.{dec_lt}
use native.Mathlib.Omega.{arith}
use cs537_fall.Prelude.Tests.{Option-cases, if◌then◌else◌}

-- The body runs for 0, 1, …, n - 1 in this order.
unfoldable pub for_below {ℓ} : {S : Type ℓ} → ℕ → (ℕ → S → S) → S → S
for_below zero body s = s
for_below (suc n) body s = body n (for_below n body s)

pub for_below_inv {ℓ κ} :
    {S : Type ℓ} (P : S → Type κ) (n : ℕ) (body : ℕ → S → S)
    → ((i : ℕ) (s : S) → i < n → P s → P (body i s))
    → (s : S) → P s
    → P (for_below n body s)
unfolding for_below
for_below_inv P zero body keep s p = p
for_below_inv P (suc n) body keep s p =
    keep n (for_below n body s) (omega arith)
      (for_below_inv P n body (λ i t h. keep i t (omega arith)) s p)

-- The same for an invariant that says how far the loop has come.
pub for_below_ind {ℓ κ} :
    {S : Type ℓ} (P : ℕ → S → Type κ) (n : ℕ) (body : ℕ → S → S)
    → ((i : ℕ) (s : S) → i < n → P i s → P (suc i) (body i s))
    → (s : S) → P 0 s
    → P n (for_below n body s)
unfolding for_below
for_below_ind P zero body keep s p = p
for_below_ind P (suc n) body keep s p =
    keep n (for_below n body s) (omega arith)
      (for_below_ind P n body (λ i t h. keep i t (omega arith)) s p)

-- The first index below `n` that passes the test.
unfoldable pub first_below : ℕ → (ℕ → Bool) → Option ℕ
first_below zero test = none
first_below (suc n) test = elim (first_below n test) [
  | some i ↦ some i
  | none ↦ if test n then some n else none
]

-- What `first_below` finds is in range, passes the test, and nothing before it passes.
pub record IsFirst (n : ℕ) (test : ℕ → Bool) (i : ℕ) : Type 0 where
  pub in_range : i < n
  pub passes : test i ≡ true
  pub least : (j : ℕ) → j < i → test j ≡ false

pub first_below-none :
    (n : ℕ) (test : ℕ → Bool) → first_below n test ≡ none → (j : ℕ) → j < n → test j ≡ false
unfolding first_below
first_below-none zero test e j h = absurd (omega arith)
first_below-none (suc n) test e j h = elim (Option-cases (first_below n test)) [
  | inl none_before ↦ ground (arith, first_below-none n test none_before j)
  | inr (i, found) ↦ ground arith
]

first_below-step :
    (n : ℕ) (test : ℕ → Bool) {i : ℕ}
    → first_below (suc n) test ≡ some i
    → (first_below n test ≡ some i) ⊎ ((first_below n test ≡ none) × (test n ≡ true) × (n ≡ i))
unfolding first_below
first_below-step n test e = ground arith

pub first_below-IsFirst :
    (n : ℕ) (test : ℕ → Bool) {i : ℕ} → first_below n test ≡ some i → IsFirst n test i
unfolding first_below
first_below-IsFirst zero test e = absurd (cc)
first_below-IsFirst (suc n) test {i} e = elim (first_below-step n test e) [
  | inl found ↦
      let before = first_below-IsFirst n test found in
      record { in_range = omega arith; passes = before.passes; least = before.least }
  | inr (missed, hit, same) ↦ record {
    in_range = omega arith;
    passes = rw (← same) hit;
    least = λ j h. first_below-none n test missed j (omega arith);
  }
]

-- The loop up to slot `n` leaves the view of a slot from `n` on alone.
pub for_below_out {ℓ κ} :
    {S : Type ℓ} {V : Type κ} (view : ℕ → S → V) (body : ℕ → S → S)
    → ((i j : ℕ) (s : S) → j ≢ i → view i (body j s) ≡ view i s)
    → (n i : ℕ) (s : S) → n ≤ i
    → view i (for_below n body s) ≡ view i s
unfolding for_below
for_below_out view body others zero i s h = refl
for_below_out view body others (suc n) i s h =
    others i n _ (omega arith) ∙ for_below_out view body others n i s (omega arith)

-- A loop whose body for slot `i` changes the view of slot `i` alone, and changes it by `g`.
pub for_below_at {ℓ κ} :
    {S : Type ℓ} {V : Type κ} (view : ℕ → S → V) (g : ℕ → V → V) (body : ℕ → S → S)
    → ((i j : ℕ) (s : S) → j ≢ i → view i (body j s) ≡ view i s)
    → ((i : ℕ) (s : S) → view i (body i s) ≡ g i (view i s))
    → (n i : ℕ) (s : S) → i < n
    → view i (for_below n body s) ≡ g i (view i s)
unfolding for_below
for_below_at view g body others own zero i s h = absurd (omega arith)
for_below_at view g body others own (suc n) i s h = elim (dec_lt i n) [
  | yes before ↦ others i n _ (omega arith) ∙ for_below_at view g body others own n i s before
  | no late ↦ last (omega arith)
]
  where
    last : i ≡ n → view i (body n (for_below n body s)) ≡ g i (view i s)
    last e = rw e (own n _ ∙ ap (g n) (for_below_out view body others n n s (omega arith)))
