-- ===== src/Http/Shown.antt =====
-- clientPrint of projects/p4/p4a/client.c: what it prints for header lines, a blank line and a body.
use cs537_fall.Prelude.{
  ℕ, zero, suc, ◌+◌, ◌<◌, ◌≡◌, refl, ltb, true, some, List, [], ◌∷◌, ◌++◌, length, All, arith,
}
use cs537_fall.Server.Uri.{String}
use cs537_fall.Http.Bytes.{codes, newline, crlf, maxbuf, c_string, same_string, Line, rio_readlineb}
use cs537_fall.Http.Client.{length_line, print_header, client_print}
use cs537_fall.Http.Lines.{
  Lacks, Lacks-append, is_without, is_without-Lacks, rio_readlineb_line, c_string_self,
}
use cs537_fall.Http.Readhdrs.{IsHeader, lines_before, header-NotBlank}
use cs537_fall.Http.Printed.{print_body_all}

-- A header line that `printf` prints whole.
abbrev pub IsText : List ℕ → Type 0
IsText l = IsHeader l × Lacks 0 l

-- The line behind the header lines `ls` is blank.
abbrev pub next_line : List (List ℕ) → List ℕ
next_line [] = crlf
next_line (l ∷ ls) = l ++ (newline ∷ [])

-- Each line behind "Header: ", and behind it the length that the next line states.
abbrev pub shown : List (List ℕ) → String
shown [] = []
shown (l ∷ ls) =
    (codes "Header: " ++ ((l ++ (newline ∷ [])) ++ length_line (next_line ls))) ++ shown ls

-- What rio_readlineb gives with the lines and a blank line to come.
abbrev read_next : List (List ℕ) → List ℕ → Line
read_next [] s = record { n = 2; buf = crlf; rest = s }
read_next (l ∷ ls) s = record {
  n = 1 + length l;
  buf = l ++ (newline ∷ []);
  rest = lines_before ls (crlf ++ s);
}

read_next-rio_readlineb :
    (buf : List ℕ) (ls : List (List ℕ)) (s : List ℕ)
    → All IsText ls
    → rio_readlineb buf maxbuf (lines_before ls (crlf ++ s)) ≡ read_next ls s
read_next-rio_readlineb buf [] s h =
    rio_readlineb_line buf maxbuf (13 ∷ []) s ((λ e. absurd (omega arith)), tt) (omega arith)
read_next-rio_readlineb buf (l ∷ ls) s ((h, _), hs) =
    rio_readlineb_line buf maxbuf l (lines_before ls (crlf ++ s)) h.one_line h.fits

c_string-next : (ls : List (List ℕ)) → All IsText ls → c_string (next_line ls) ≡ next_line ls
unfolding is_without
c_string-next [] h = c_string_self crlf (is_without-Lacks 0 crlf blank)
  where
    blank : is_without 0 crlf ≡ true
    blank = refl
c_string-next (l ∷ ls) ((_, v), hs) =
    c_string_self (l ++ (newline ∷ []))
      (Lacks-append 0 l (newline ∷ []) v ((λ e. absurd (omega arith)), tt))

read_next-buf : (ls : List (List ℕ)) (s : List ℕ) → (read_next ls s).buf ≡ next_line ls
read_next-buf [] s = refl
read_next-buf (l ∷ ls) s = refl

print_header-shown :
    (fuel : ℕ) (ls : List (List ℕ)) (s : List ℕ)
    → All IsText ls
    → length ls < fuel
    → print_header fuel (read_next ls s) ≡ some (shown ls, record { n = 2; buf = crlf; rest = s })
unfolding print_header c_string same_string
print_header-shown zero ls s h enough = absurd (omega arith)
print_header-shown (suc fuel) [] s h enough = refl
print_header-shown (suc fuel) (l ∷ ls) s ((h, v), hs) enough =
    let positive : ltb 0 (1 + length l) ≡ true = ground arith in
    rw
      (
        header-NotBlank l h.one_line h.not_blank,
        positive,
        read_next-rio_readlineb (l ++ (newline ∷ [])) ls s hs,
        read_next-buf ls s,
        c_string-next ls hs,
        c_string-next (l ∷ ls) ((h, v), hs),
        print_header-shown fuel ls s hs (omega arith),
      )
      refl

-- For header lines that are not blank and fit in the buffer, a blank line and a body, all without NUL, clientPrint prints
-- each line behind "Header: ", followed by the length if the next line states one, and then the body.
pub client_print-shown :
    (fuel : ℕ) (buf : List ℕ) (ls : List (List ℕ)) (s : List ℕ)
    → All IsText ls
    → Lacks 0 s
    → length ls < fuel
    → length s < fuel
    → client_print fuel buf (lines_before ls (crlf ++ s)) ≡ some (shown ls ++ s)
unfolding client_print
client_print-shown fuel buf ls s h v enough enough' =
    rw
      (
        read_next-rio_readlineb buf ls s h,
        print_header-shown fuel ls s h enough,
        print_body_all fuel crlf s v enough',
      )
      refl
