-- ===== src/Http/Lines.antt =====
-- What rio_readlineb of projects/p4/p4a/cs537.c reads.
use cs537_fall.Prelude.{
  ℕ, zero, suc, ◌+◌, ◌-◌, ◌≤◌, ◌<◌, ◌≡◌, ◌≢◌, refl, ap, ◌==◌, ltb, if◌then◌else◌, Bool, Bool-cases,
  true, false, inl, inr, List, [], ◌∷◌, ◌++◌, length, All, arith,
}
use cs537_fall.Http.Bytes.{newline, c_string, Line, read_bytes, rio_readlineb}

-- No byte of `l` is `c`.
abbrev pub Lacks : ℕ → List ℕ → Type 0
Lacks c l = All (λ d. d ≢ c) l

pub Lacks-left : (c : ℕ) (a b : List ℕ) → Lacks c (a ++ b) → Lacks c a
Lacks-left c [] b h = tt
Lacks-left c (d ∷ a) b (other, h) = (other, Lacks-left c a b h)

pub Lacks-right : (c : ℕ) (a b : List ℕ) → Lacks c (a ++ b) → Lacks c b
Lacks-right c [] b h = h
Lacks-right c (d ∷ a) b (other, h) = Lacks-right c a b h

pub Lacks-append : (c : ℕ) (a b : List ℕ) → Lacks c a → Lacks c b → Lacks c (a ++ b)
Lacks-append c [] b h g = g
Lacks-append c (d ∷ a) b (other, h) g = (other, Lacks-append c a b h g)

-- The test of a text that is given.
unfoldable pub is_without : ℕ → List ℕ → Bool
is_without c [] = true
is_without c (d ∷ s) = let rest = is_without c s in if d == c then false else rest

pub is_without-Lacks : (c : ℕ) (s : List ℕ) → is_without c s ≡ true → Lacks c s
unfolding is_without
is_without-Lacks c [] h = tt
is_without-Lacks c (d ∷ s) h = (ground arith, is_without-Lacks c s (ground arith))

read_bytes_line :
    (rounds n : ℕ) (l s : List ℕ)
    → Lacks newline l
    → length l < rounds
    → read_bytes rounds n (l ++ (newline ∷ s))
      ≡ record { n = n + length l; buf = l ++ (newline ∷ []); rest = s }
unfolding read_bytes
read_bytes_line zero n l s h short = absurd (omega arith)
read_bytes_line (suc rounds) n [] s h short =
    let none_more : n + 0 ≡ n = omega arith in rw none_more refl
read_bytes_line (suc rounds) n (c ∷ l) s (other, h) short =
    let visible : (c == newline) ≡ false = ground (arith, other) in
    let count : n + 1 + length l ≡ n + suc (length l) = omega arith in
    rw (visible, read_bytes_line rounds (n + 1) l s h (omega arith), count) refl

-- A line that fits in the buffer is read whole, and its newline with it.
pub rio_readlineb_line :
    (buf : List ℕ) (maxlen : ℕ) (l s : List ℕ)
    → Lacks newline l
    → length l + 1 < maxlen
    → rio_readlineb buf maxlen (l ++ (newline ∷ s))
      ≡ record { n = 1 + length l; buf = l ++ (newline ∷ []); rest = s }
unfolding rio_readlineb
rio_readlineb_line buf maxlen [] s h short = read_bytes_line (maxlen - 1) 1 [] s h (omega arith)
rio_readlineb_line buf maxlen (c ∷ l) s h short =
    read_bytes_line (maxlen - 1) 1 (c ∷ l) s h (omega arith)

read_bytes-n : (rounds n : ℕ) (s : List ℕ) → n ≤ (read_bytes rounds n s).n
unfolding read_bytes
read_bytes-n zero n s = omega arith
read_bytes-n (suc rounds) n [] = omega arith
read_bytes-n (suc rounds) n (c ∷ s) = ground (arith, read_bytes-n rounds (n + 1) s)

-- No byte is lost.
read_bytes-all :
    (rounds n : ℕ) (s : List ℕ) → (read_bytes rounds n s).buf ++ (read_bytes rounds n s).rest ≡ s
unfolding read_bytes
read_bytes-all zero n s = refl
read_bytes-all (suc rounds) n [] = refl
read_bytes-all (suc rounds) n (c ∷ s) = elim (Bool-cases (c == newline)) [
  | inl last ↦ rw last refl
  | inr other ↦ rw other (ap (λ (t : List ℕ). c ∷ t) (read_bytes-all rounds (n + 1) s))
]

read_bytes-shorter :
    (rounds n c : ℕ) (s : List ℕ) → length (read_bytes (suc rounds) n (c ∷ s)).rest ≤ length s
unfolding read_bytes
read_bytes-shorter zero n c s = ground arith
read_bytes-shorter (suc rounds) n c [] = ground arith
read_bytes-shorter (suc rounds) n c (d ∷ s) = ground (arith, read_bytes-shorter rounds (n + 1) d s)

-- One byte at least is read, unless the input is at its end.
pub record IsRead (c : ℕ) (s : List ℕ) (l : Line) : Type 0 where
  pub positive : ltb 0 l.n ≡ true
  pub all : l.buf ++ l.rest ≡ c ∷ s
  pub shorter : length l.rest ≤ length s

read_bytes-IsRead : (k c : ℕ) (s : List ℕ) → IsRead c s (read_bytes (suc k) 1 (c ∷ s))
read_bytes-IsRead k c s = record {
  positive = ground (arith, read_bytes-n (suc k) 1 (c ∷ s));
  all = read_bytes-all (suc k) 1 (c ∷ s);
  shorter = read_bytes-shorter k 1 c s;
}

pub rio_readlineb-IsRead :
    (buf : List ℕ) (k c : ℕ) (s : List ℕ) → IsRead c s (rio_readlineb buf (suc (suc k)) (c ∷ s))
unfolding rio_readlineb
rio_readlineb-IsRead buf k c s =
    let rounds : suc (suc k) - 1 ≡ suc k = omega arith in rw rounds (read_bytes-IsRead k c s)

-- Text without a NUL is its own C string.
pub c_string_self : (s : List ℕ) → Lacks 0 s → c_string s ≡ s
unfolding c_string
c_string_self [] h = refl
c_string_self (c ∷ s) (other, h) =
    let visible : (c == 0) ≡ false = ground (arith, other) in rw (visible, c_string_self s h) refl
