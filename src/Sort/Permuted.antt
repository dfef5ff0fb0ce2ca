-- ===== src/Sort/Permuted.antt =====
-- Permuting the records of a file keeps their number and the length of their encoding.
use cs537_fall.Prelude.{◌/◌, ◌≡◌, refl, ◌∙◌, List, ◌++◌, length, length-append, arith}
use mathlib.Core.Logic.{∥∥₁_elim}
use mathlib.Core.List.{Perm, Permᴰ}
use native.Mathlib.Nat.{ℕ_set}
use cs537_fall.Sort.Files.{int_bytes}
use cs537_fall.Sort.Reads.{Rec, encode}

same_lengthᴰ : {xs ys : List Rec} → Permᴰ xs ys → length (encode xs) ≡ length (encode ys)
unfolding encode
same_lengthᴰ Permᴰ.nil = refl
same_lengthᴰ (Permᴰ.cons {a = a} {l₁ = xs} {l₂ = ys} e d) = rw (← e) (
    omega
      (arith, same_lengthᴰ d, length-append a.bytes (encode xs), length-append a.bytes (encode ys)))
same_lengthᴰ (Permᴰ.swap {a = a} {b = b} {l = l} e₁ e₂) =
    rw (← e₁, ← e₂)
      (omega (
        arith,
        length-append a.bytes
            (int_bytes b.key ++ (int_bytes (length b.bytes / 4) ++ (b.bytes ++ encode l))),
        length-append b.bytes (encode l),
        length-append b.bytes
            (int_bytes a.key ++ (int_bytes (length a.bytes / 4) ++ (a.bytes ++ encode l))),
        length-append a.bytes (encode l),
      ))
same_lengthᴰ (Permᴰ.trans d₁ d₂) = same_lengthᴰ d₁ ∙ same_lengthᴰ d₂

pub same_length : {xs ys : List Rec} → Perm xs ys → length (encode xs) ≡ length (encode ys)
same_length p = ∥∥₁_elim p (ℕ_set _ _) same_lengthᴰ

same_countᴰ : {xs ys : List Rec} → Permᴰ xs ys → length xs ≡ length ys
same_countᴰ Permᴰ.nil = refl
same_countᴰ (Permᴰ.cons e d) = omega (arith, same_countᴰ d)
same_countᴰ (Permᴰ.swap e₁ e₂) = refl
same_countᴰ (Permᴰ.trans d₁ d₂) = same_countᴰ d₁ ∙ same_countᴰ d₂

pub length-perm : {xs ys : List Rec} → Perm xs ys → length xs ≡ length ys
length-perm p = ∥∥₁_elim p (ℕ_set _ _) same_countᴰ
