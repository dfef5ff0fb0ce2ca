-- ===== src/Http/Readhdrs.antt =====
-- requestReadhdrs of projects/p4/p4a/request.c: when it ends.
use cs537_fall.Prelude.{
  ℕ, zero, suc, ◌+◌, ◌<◌, ◌≡◌, ◌≢◌, refl, ap, ◌∙◌, false, none, some, List, [], ◌∷◌, ◌++◌, length,
  All, arith,
}
use cs537_fall.Http.Bytes.{newline, crlf, maxline, c_string, same_string, rio_readlineb}
use cs537_fall.Http.Requests.{skip_headers, request_readhdrs}
use cs537_fall.Http.Lines.{Lacks, rio_readlineb_line}

-- A line, without its newline, that fits in the buffer and is not blank.
pub record IsHeader (l : List ℕ) : Type 0 where
  pub one_line : Lacks newline l
  pub fits : length l + 1 < maxline
  pub not_blank : l ≢ 13 ∷ []

abbrev pub lines_before : List (List ℕ) → List ℕ → List ℕ
lines_before [] s = s
lines_before (l ∷ ls) s = l ++ (newline ∷ lines_before ls s)

-- `strcmp` does not take such a line for a blank one.
abbrev pub NotBlank : List ℕ → Type 0
NotBlank buf = same_string (c_string buf) crlf ≡ false

pub header-NotBlank : (l : List ℕ) → Lacks newline l → l ≢ 13 ∷ [] → NotBlank (l ++ (newline ∷ []))
unfolding c_string same_string
header-NotBlank [] h ne = refl
header-NotBlank (c ∷ []) h ne =
    let other : c ≢ 13 = λ e. ne (ap (λ (d : ℕ). d ∷ []) e) in ground (arith, other)
header-NotBlank (c ∷ d ∷ l) (h, (other, more)) ne = ground (arith, other)

readhdrs_header :
    (fuel : ℕ) (buf l s : List ℕ)
    → IsHeader l
    → request_readhdrs (suc fuel) buf (l ++ (newline ∷ s))
      ≡ request_readhdrs fuel (l ++ (newline ∷ [])) s
unfolding request_readhdrs skip_headers
readhdrs_header fuel buf l s h =
    rw
      (
        rio_readlineb_line buf maxline l s h.one_line h.fits,
        header-NotBlank l h.one_line h.not_blank,
      )
      refl

readhdrs_blank : (fuel : ℕ) (buf s : List ℕ) → request_readhdrs (suc fuel) buf (crlf ++ s) ≡ some s
unfolding request_readhdrs skip_headers c_string same_string
readhdrs_blank fuel buf s =
    let carriage : 13 ≢ newline = λ e. absurd (omega arith) in
    rw (rio_readlineb_line buf maxline (13 ∷ []) s (carriage, tt) (omega arith)) refl

-- After lines that are not blank and fit in the buffer, and a blank line, requestReadhdrs has read up to
-- the byte behind the blank line, for every number of tests above that of the lines.
pub request_readhdrs_ends :
    (fuel : ℕ) (buf : List ℕ) (ls : List (List ℕ)) (s : List ℕ)
    → All IsHeader ls
    → length ls < fuel
    → request_readhdrs fuel buf (lines_before ls (crlf ++ s)) ≡ some s
request_readhdrs_ends zero buf ls s h enough = absurd (omega arith)
request_readhdrs_ends (suc fuel) buf [] s h enough = readhdrs_blank fuel buf s
request_readhdrs_ends (suc fuel) buf (l ∷ ls) s (h, hs) enough =
    readhdrs_header fuel buf l (lines_before ls (crlf ++ s)) h
    ∙ request_readhdrs_ends fuel (l ++ (newline ∷ [])) ls s hs (omega arith)

readhdrs_end : (fuel : ℕ) (buf : List ℕ) → NotBlank buf → request_readhdrs fuel buf [] ≡ none
unfolding request_readhdrs skip_headers rio_readlineb
readhdrs_end zero buf h = refl
readhdrs_end (suc fuel) buf h = rw h (readhdrs_end fuel buf h)

readhdrs_stuck :
    (fuel : ℕ) (buf : List ℕ) (ls : List (List ℕ))
    → NotBlank buf
    → All IsHeader ls
    → request_readhdrs fuel buf (lines_before ls []) ≡ none
unfolding request_readhdrs skip_headers
readhdrs_stuck zero buf ls b h = refl
readhdrs_stuck (suc fuel) buf [] b h = readhdrs_end (suc fuel) buf b
readhdrs_stuck (suc fuel) buf (l ∷ ls) b (h, hs) =
    readhdrs_header fuel buf l (lines_before ls []) h
    ∙ readhdrs_stuck fuel (l ++ (newline ∷ [])) ls (header-NotBlank l h.one_line h.not_blank) hs

-- Where the input ends after one or more lines that are not blank and fit in the buffer,
-- requestReadhdrs has not ended after any number of tests.
pub request_readhdrs_hangs :
    (fuel : ℕ) (buf l : List ℕ) (ls : List (List ℕ))
    → All IsHeader (l ∷ ls)
    → request_readhdrs fuel buf (lines_before (l ∷ ls) []) ≡ none
unfolding request_readhdrs skip_headers
request_readhdrs_hangs zero buf l ls h = refl
request_readhdrs_hangs (suc fuel) buf l ls (h, hs) =
    readhdrs_header fuel buf l (lines_before ls []) h
    ∙ readhdrs_stuck fuel (l ++ (newline ∷ [])) ls (header-NotBlank l h.one_line h.not_blank) hs
