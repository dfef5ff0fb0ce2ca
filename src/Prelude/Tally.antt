-- ===== src/Prelude/Tally.antt =====
-- Sums over the slots of a table: how often something holds in the first `n` slots.
use Prim.Native.Nat.{ℕ, zero, suc, ◌+◌, ◌≤◌, ◌<◌}
use mathlib.Core.Path.{◌≡◌, refl, ap}
use native.Mathlib.Decide.{dec_lt}
use native.Mathlib.Omega.{arith}
use cs537_fall.Prelude.Arrays.{update}

module _ {ℓ} {A : Type ℓ} (weight : A → ℕ) where
  unfoldable pub tally : ℕ → (ℕ → A) → ℕ
  tally zero a = 0
  tally (suc n) a = weight (a n) + tally n a

  tally-update_out : (n i : ℕ) (v : A) (a : ℕ → A) → n ≤ i → tally n (update a i v) ≡ tally n a
  unfolding tally
  tally-update_out zero i v a h = refl
  tally-update_out (suc n) i v a h = ground (arith, tally-update_out n i v a (omega arith))

  -- Changing one slot changes the sum by that slot's weight.
  pub tally-update :
      (n i : ℕ) (v : A) (a : ℕ → A)
      → i < n
      → tally n (update a i v) + weight (a i) ≡ tally n a + weight v
  unfolding tally
  tally-update zero i v a h = absurd (omega arith)
  tally-update (suc n) i v a h = elim (dec_lt i n) [
    | yes before ↦ ground (arith, tally-update n i v a before)
    | no late ↦ last (omega arith)
  ]
    where
      last : i ≡ n → tally (suc n) (update a i v) + weight (a i) ≡ tally (suc n) a + weight v
      last e = rw e (ground (arith, tally-update_out n n v a (omega arith)))

  -- The sum depends on the weights only.
  pub tally_congr :
      (n : ℕ) (a b : ℕ → A)
      → ((i : ℕ) → i < n → weight (a i) ≡ weight (b i))
      → tally n a ≡ tally n b
  unfolding tally
  tally_congr zero a b same = refl
  tally_congr (suc n) a b same =
      omega (arith, same n (omega arith), tally_congr n a b (λ i h. same i (omega arith)))

  pub tally-le : ((x : A) → weight x ≤ 1) → (n : ℕ) (a : ℕ → A) → tally n a ≤ n
  unfolding tally
  tally-le one zero a = omega arith
  tally-le one (suc n) a = omega (arith, tally-le one n a, one (a n))

  -- A slot with a weight makes the sum positive, and a positive sum has such a slot.
  pub tally-pos : (n i : ℕ) (a : ℕ → A) → i < n → 0 < weight (a i) → 0 < tally n a
  unfolding tally
  tally-pos zero i a h p = absurd (omega arith)
  tally-pos (suc n) i a h p = elim (dec_lt i n) [
    | yes before ↦ omega (arith, tally-pos n i a before p)
    | no late ↦ last (omega arith)
  ]
    where
      last : i ≡ n → 0 < tally (suc n) a
      last e = omega (arith, p, ap (λ (j : ℕ). weight (a j)) e)

  pub tally-witness : (n : ℕ) (a : ℕ → A) → 0 < tally n a → (i : ℕ) × (i < n) × (0 < weight (a i))
  unfolding tally
  tally-witness zero a h = absurd (omega arith)
  tally-witness (suc n) a h = elim (dec_lt 0 (weight (a n))) [
    | yes here ↦ (n, omega arith, here)
    | no other ↦ let (i, lt, p) = tally-witness n a (omega arith) in (i, omega arith, p)
  ]

  pub tally-zero : (x : A) → weight x ≡ 0 → (n : ℕ) → tally n (λ _. x) ≡ 0
  unfolding tally
  tally-zero x z zero = refl
  tally-zero x z (suc n) = omega (arith, z, tally-zero x z n)
