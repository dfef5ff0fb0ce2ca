-- ===== src/Http/Pages.antt =====
-- The head of a page that requestServeStatic of projects/p4/p4a/request.c sends, line by line, and what
-- clientPrint of client.c prints for it.
use mathlib.Core.List.{append_assoc}
use cs537_fall.Prelude.{
  ℕ, zero, suc, ◌+◌, ◌/◌, ◌%◌, ◌^◌, ◌≤◌, ◌<◌, ◌≡◌, ◌≢◌, refl, sym, ◌==◌, ltb, Bool-cases, true, inl,
  inr, List, [], ◌∷◌, ◌++◌, length, length-append, All, arith,
}
use cs537_fall.Server.Uri.{String, FileType, text_html, image_gif, image_jpeg, text_plain}
use cs537_fall.Http.Bytes.{joined, codes, newline, crlf, maxline}
use cs537_fall.Http.Numbers.{
  digits, print_nat, print_int, skip_spaces, scan_int, scan_int-print_nat,
}
use cs537_fall.Http.Replies.{type_name, static_head}
use cs537_fall.Http.Client.{behind, length_line}
use cs537_fall.Http.Lines.{Lacks, Lacks-append, is_without, is_without-Lacks}
use cs537_fall.Http.Readhdrs.{lines_before}
use cs537_fall.Http.Shown.{IsText, shown}

digits-Lacks :
    (c rounds n : ℕ) (out : String) → c < 48 → Lacks c out → Lacks c (digits rounds n out)
unfolding digits
digits-Lacks c zero n out low h = h
digits-Lacks c (suc rounds) n out low h = elim (Bool-cases (n == 0)) [
  | inl done ↦ rw done h
  | inr more ↦
      rw more
        (digits-Lacks c rounds (n / 10) ((48 + n % 10) ∷ out) low ((λ e. absurd (omega arith)), h))
]

length-digits : (rounds n : ℕ) (out : String) → length (digits rounds n out) ≤ rounds + length out
unfolding digits
length-digits zero n out = omega arith
length-digits (suc rounds) n out =
    ground (arith, length-digits rounds (n / 10) ((48 + n % 10) ∷ out))

print_nat-Lacks : (c n : ℕ) → c < 48 → Lacks c (print_nat n)
unfolding print_nat
print_nat-Lacks c n low = elim (Bool-cases (n == 0)) [
  | inl nil ↦ rw nil ((λ e. absurd (omega arith)), tt)
  | inr more ↦ rw more (digits-Lacks c 20 n [] low tt)
]

length-print_nat : (n : ℕ) → length (print_nat n) ≤ 20
unfolding print_nat
length-print_nat n = ground (arith, length-digits 20 n [])

print_int-print_nat : (n : ℕ) → n < 2 ^ 31 → print_int n ≡ print_nat n
unfolding print_int
print_int-print_nat n h = let small : ltb n (2 ^ 31) ≡ true = ground arith in rw small refl

-- The lines without their newlines.
abbrev pub length_header : ℕ → String
length_header n = codes "Content-Length: " ++ (print_nat n ++ (13 ∷ []))

abbrev pub type_header : FileType → String
type_header t = codes "Content-Type: " ++ (type_name t ++ (13 ∷ []))

abbrev pub page_lines : FileType → ℕ → List String
page_lines t n =
    (codes "HTTP/1.0 200 OK" ++ (13 ∷ []))
    ∷ (codes "Server: CS537 Web Server" ++ (13 ∷ []))
    ∷ length_header n
    ∷ type_header t
    ∷ []

pub static_head-page_lines :
    (t : FileType) (n : ℕ) (file : List ℕ)
    → n < 2 ^ 31
    → static_head t n ++ file ≡ lines_before (page_lines t n) (crlf ++ file)
static_head-page_lines t n file small =
    let name = type_name t in
    let end = crlf ++ (codes "Content-Type: " ++ (name ++ (crlf ++ crlf))) in
    let next = lines_before (type_header t ∷ []) (crlf ++ file) in
    rw
      (
        print_int-print_nat n small,
        append_assoc (print_nat n) end file,
        append_assoc name (crlf ++ crlf) file,
        append_assoc (print_nat n) (13 ∷ []) (newline ∷ next),
        append_assoc name (13 ∷ []) (newline ∷ (crlf ++ file)),
      )
      refl

pub text :
    (l : String)
    → is_without newline l ≡ true
    → is_without 0 l ≡ true
    → length l + 1 < maxline
    → l ≢ 13 ∷ []
    → IsText l
text l lines nuls short ne = (
  record { one_line = is_without-Lacks newline l lines; fits = short; not_blank = ne },
  is_without-Lacks 0 l nuls,
)

length_header-Lacks :
    (c n : ℕ)
    → c < 48
    → is_without c (codes "Content-Length: ") ≡ true
    → c ≢ 13
    → Lacks c (length_header n)
length_header-Lacks c n low h other =
    Lacks-append c (codes "Content-Length: ") (print_nat n ++ (13 ∷ []))
      (is_without-Lacks c (codes "Content-Length: ") h)
      (Lacks-append c (print_nat n) (13 ∷ []) (print_nat-Lacks c n low) ((λ e. other (sym e)), tt))

pub length_header-IsText : (n : ℕ) → IsText (length_header n)
unfolding is_without
length_header-IsText n = (
  record {
    one_line = length_header-Lacks newline n (omega arith) refl (λ e. absurd (omega arith));
    fits = omega (arith, length-append (print_nat n) (13 ∷ []), length-print_nat n);
    not_blank = λ e. absurd (cc);
  },
  length_header-Lacks 0 n (omega arith) refl (λ e. absurd (omega arith)),
)

pub type_header-IsText : (t : FileType) → IsText (type_header t)
unfolding is_without
type_header-IsText text_html =
    text (type_header text_html) refl refl (omega arith) (λ e. absurd (cc))
type_header-IsText image_gif =
    text (type_header image_gif) refl refl (omega arith) (λ e. absurd (cc))
type_header-IsText image_jpeg =
    text (type_header image_jpeg) refl refl (omega arith) (λ e. absurd (cc))
type_header-IsText text_plain =
    text (type_header text_plain) refl refl (omega arith) (λ e. absurd (cc))

pub page_lines-IsText : (t : FileType) (n : ℕ) → All IsText (page_lines t n)
unfolding is_without
page_lines-IsText t n =
    let status = codes "HTTP/1.0 200 OK" ++ (13 ∷ []) in
    let server = codes "Server: CS537 Web Server" ++ (13 ∷ []) in
    (
      text status refl refl (omega arith) (λ e. absurd (cc)),
      (
        text server refl refl (omega arith) (λ e. absurd (cc)),
        (length_header-IsText n, (type_header-IsText t, tt)),
      ),
    )

-- What the client prints before the file.
abbrev pub page_head : FileType → ℕ → String
page_head t n = joined (
    codes "Header: HTTP/1.0 200 OK"
    ∷ crlf
    ∷ codes "Header: Server: CS537 Web Server"
    ∷ crlf
    ∷ codes "Length = "
    ∷ print_nat n
    ∷ (newline ∷ [])
    ∷ codes "Header: Content-Length: "
    ∷ print_nat n
    ∷ crlf
    ∷ codes "Header: Content-Type: "
    ∷ type_name t
    ∷ crlf
    ∷ [])

pub length_line-length_header :
    (n : ℕ)
    → n < 2 ^ 31
    → length_line (length_header n ++ (newline ∷ []))
      ≡ codes "Length = " ++ (print_nat n ++ (newline ∷ []))
unfolding length_line behind scan_int skip_spaces
length_line-length_header n small =
    rw
      (
        append_assoc (print_nat n) (13 ∷ []) (newline ∷ []),
        scan_int-print_nat n crlf (omega arith) refl,
        print_int-print_nat n small,
      )
      refl

length_line-type_header : (t : FileType) → length_line (type_header t ++ (newline ∷ [])) ≡ []
unfolding length_line behind
length_line-type_header t = refl

length_line_server : length_line (codes "Server: CS537 Web Server" ++ crlf) ≡ []
unfolding length_line behind
length_line_server = refl

pub length_line-crlf : length_line crlf ≡ []
unfolding length_line behind
length_line-crlf = refl

pub shown-page_lines : (t : FileType) (n : ℕ) → n < 2 ^ 31 → shown (page_lines t n) ≡ page_head t n
shown-page_lines t n small =
    rw
      (
        length_line_server,
        length_line-length_header n small,
        length_line-type_header t,
        length_line-crlf,
      )
      (simp append_assoc refl)
