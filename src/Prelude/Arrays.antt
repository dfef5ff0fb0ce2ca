-- ===== src/Prelude/Arrays.antt =====
-- A C array as a function of its index, for arrays whose length is a small constant. `at a i` is
-- `a[i]`, and `update a i v` is `a[i] = v`.
use Prim.Native.Nat.{ℕ}
use mathlib.Core.Path.{◌≡◌}
use mathlib.Core.Logic.{◌≢◌}
use native.Mathlib.Omega.{arith}
use cs537_fall.Prelude.Tests.{◌==◌, if◌then◌else◌}

abbrev pub update {ℓ} : {A : Type ℓ} → (ℕ → A) → ℕ → A → ℕ → A
update a i v j = if i == j then v else a j

pub update_self {ℓ} : {A : Type ℓ} (a : ℕ → A) (i : ℕ) (v : A) → update a i v i ≡ v
update_self a i v = ground arith

pub update_ne {ℓ} : {A : Type ℓ} (a : ℕ → A) {i j : ℕ} (v : A) → i ≢ j → update a i v j ≡ a j
update_ne a v h = ground arith
