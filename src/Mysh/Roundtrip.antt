-- ===== src/Mysh/Roundtrip.antt =====
-- parse of projects/p2/p2a/mysh.c reads back what a user can write: words with blanks, tabs and newlines between them.
use cs537_fall.Prelude.{
  ℕ, ◌+◌, ◌*◌, ◌≤◌, ◌≡◌, ◌≢◌, refl, if◌then◌else◌, ◌⊎◌, Bool, true, false, not, List, [], ◌∷◌, ◌++◌,
  All, length, arith,
}
use cs537_fall.Mysh.Words.{String, ampersand, starts_word, begin_word, tokens, ends_in_ampersand}

-- A blank, a tab or a newline.
abbrev pub IsBlank : ℕ → Type 0
IsBlank c = (c ≡ 32) ⊎ ((c ≡ 9) ⊎ (c ≡ 10))

-- A word: not empty, and no byte of it is a blank, a tab or a newline.
abbrev pub IsWord : String → Type 0
IsWord w = (w ≢ []) × All (λ c. (c ≢ 32) × (c ≢ 9) × (c ≢ 10)) w

-- One or more blanks, tabs and newlines.
abbrev pub IsGap : String → Type 0
IsGap g = (g ≢ []) × All IsBlank g

-- A word and the gap behind it.
abbrev pub IsSpaced : String × String → Type 0
IsSpaced (w, g) = IsWord w × IsGap g

-- The words of a line, each with what stands behind it.
abbrev pub spaced : List (String × String) → String
spaced [] = []
spaced ((w, g) ∷ ps) = w ++ (g ++ spaced ps)

abbrev pub words_of : List (String × String) → List String
words_of [] = []
words_of ((w, g) ∷ ps) = w ∷ words_of ps

-- The last word, if there is one, does not end in '&'.
unfoldable pub in_front : List String → Bool
in_front [] = true
in_front (w ∷ []) = not (ends_in_ampersand w)
in_front (w ∷ v ∷ ws) = in_front (v ∷ ws)

-- The words that a user writes for a command: in the background there is a last word "&".
abbrev pub command : List String → Bool → List String
command ws false = ws
command ws true = ws ++ ((ampersand ∷ []) ∷ [])

-- A foreground command has a word, and its last word does not end in '&'.
abbrev pub IsWritable : List String → Bool → Type 0
IsWritable [] false = ⊥
IsWritable (w ∷ ws) false = in_front (w ∷ ws) ≡ true
IsWritable ws true = Unit

-- Every word takes a byte, and all but the last one a delimiter behind it.
begin_word-length :
    (c : ℕ) (s : String) (ws : List String)
    → 2 * length ws + (if starts_word s then 0 else 1) ≤ length s + 1
    → 2 * length (begin_word c s ws) ≤ length s + 2
begin_word-length c s [] h = ground (arith, h)
begin_word-length c s (w ∷ ws) h = ground (arith, h)

tokens_bound :
    (s : String) → 2 * length (tokens s) + (if starts_word s then 0 else 1) ≤ length s + 1
unfolding tokens
tokens_bound [] = omega arith
tokens_bound (c ∷ s) =
    ground (arith, tokens_bound s, begin_word-length c s (tokens s) (tokens_bound s))

tokens-newline : (s : String) → tokens (s ++ (10 ∷ [])) ≡ tokens s
unfolding tokens
tokens-newline [] = refl
tokens-newline (c ∷ []) = ground arith
tokens-newline (c ∷ d ∷ s) = rw (tokens-newline (d ∷ s)) refl

-- `parse` finds at most 256 = ARGC words in a line that `readcommands` gives it, of at most 512 bytes
-- and a newline.
pub length-tokens : (line : String) → length line ≤ 512 → length (tokens (line ++ (10 ∷ []))) ≤ 256
length-tokens line h = rw (tokens-newline line) (omega (arith, tokens_bound line))
