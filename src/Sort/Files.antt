-- ===== src/Sort/Files.antt =====
-- Files and memory of projects/p1/p1a/varsort.c, as bytes.
use cs537_fall.Prelude.{
  ℕ, zero, suc, ◌+◌, ◌*◌, ◌/◌, ◌%◌, ◌^◌, ◌≤◌, ◌<◌, ◌≡◌, refl, ap, ◌∙◌, Option, none, some, List, [],
  ◌∷◌, ◌++◌, length, arith,
}
use cs537_fall.Prelude.Arrays.{update, update_self, update_ne}

-- The four bytes of an unsigned int, the lowest first, and back.
abbrev pub int_bytes : ℕ → List ℕ
int_bytes x = x % 256 ∷ x / 256 % 256 ∷ x / 65536 % 256 ∷ x / 16777216 % 256 ∷ []

abbrev pub int_of : ℕ → ℕ → ℕ → ℕ → ℕ
int_of a b c d = a + b * 256 + c * 65536 + d * 16777216

pub int_of-int_bytes :
    (x : ℕ)
    → x < 2 ^ 32
    → int_of (x % 256) (x / 256 % 256) (x / 65536 % 256) (x / 16777216 % 256) ≡ x
int_of-int_bytes x h = omega arith

abbrev add_byte : ℕ → Option (List ℕ × List ℕ) → Option (List ℕ × List ℕ)
add_byte b none = none
add_byte b (some (bs, f)) = some (b ∷ bs, f)

-- `read` of `n` bytes, and what is left of the file; `none` if there are fewer.
unfoldable pub read : ℕ → List ℕ → Option (List ℕ × List ℕ)
read zero f = some ([], f)
read (suc n) [] = none
read (suc n) (b ∷ f) = add_byte b (read n f)

pub read-append : (bs f : List ℕ) → read (length bs) (bs ++ f) ≡ some (bs, f)
unfolding read
read-append [] f = refl
read-append (b ∷ bs) f = ap (add_byte b) (read-append bs f)

-- Bytes into memory from an address on, and `n` bytes from there.
unfoldable pub store : ℕ → List ℕ → (ℕ → ℕ) → ℕ → ℕ
store a [] m = m
store a (b ∷ bs) m = store (a + 1) bs (update m a b)

unfoldable pub load : ℕ → ℕ → (ℕ → ℕ) → List ℕ
load zero a m = []
load (suc n) a m = m a ∷ load n (a + 1) m

pub store-before : (a : ℕ) (bs : List ℕ) (m : ℕ → ℕ) (x : ℕ) → x < a → store a bs m x ≡ m x
unfolding store
store-before a [] m x h = refl
store-before a (b ∷ bs) m x h =
    store-before (a + 1) bs (update m a b) x (omega arith) ∙ update_ne m b (λ e. omega arith)

-- A load depends on the bytes that it reads.
pub load-same :
    (n a : ℕ) (m m' : ℕ → ℕ) → ((x : ℕ) → a ≤ x → x < a + n → m x ≡ m' x) → load n a m ≡ load n a m'
unfolding load
load-same zero a m m' h = refl
load-same (suc n) a m m' h =
    rw
      (
        h a (omega arith) (omega arith),
        load-same n (a + 1) m m' (λ x lo hi. h x (omega arith) (omega arith)),
      )
      refl

pub load-store : (bs : List ℕ) (a : ℕ) (m : ℕ → ℕ) → load (length bs) a (store a bs m) ≡ bs
unfolding load store
load-store [] a m = refl
load-store (b ∷ bs) a m =
    let first : store (a + 1) bs (update m a b) a ≡ b =
      store-before (a + 1) bs (update m a b) a (omega arith) ∙ update_self m a b in
    rw (first, load-store bs (a + 1) (update m a b)) refl

pub length-load : (n a : ℕ) (m : ℕ → ℕ) → length (load n a m) ≡ n
unfolding load
length-load zero a m = refl
length-load (suc n) a m = omega (arith, length-load n (a + 1) m)
