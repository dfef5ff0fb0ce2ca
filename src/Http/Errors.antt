-- ===== src/Http/Errors.antt =====
-- The error pages of requestError of projects/p4/p4a/request.c, as clientPrint of client.c prints them.
use mathlib.Core.List.{append_assoc}
use cs537_fall.Prelude.{
  ℕ, ◌^◌, ◌≤◌, ◌<◌, ◌≡◌, refl, ap, ◌∙◌, true, some, List, [], ◌∷◌, ◌++◌, length, All, arith,
}
use cs537_fall.Server.Uri.{String, text_html}
use cs537_fall.Server.Request.{Failure, not_implemented, not_found, unreadable, unrunnable}
use cs537_fall.Http.Bytes.{joined, codes, newline, crlf, maxbuf}
use cs537_fall.Http.Numbers.{print_nat}
use cs537_fall.Http.Replies.{errnum, shortmsg, longmsg, error_body, request_error}
use cs537_fall.Http.Client.{behind, length_line, client_print}
use cs537_fall.Http.Lines.{Lacks, Lacks-append, is_without, is_without-Lacks}
use cs537_fall.Http.Readhdrs.{lines_before}
use cs537_fall.Http.Shown.{IsText, shown, client_print-shown}
use cs537_fall.Http.Pages.{
  text, length_header, type_header, length_header-IsText, type_header-IsText,
  length_line-length_header, length_line-crlf,
}

abbrev status_line : Failure → String
status_line f = codes "HTTP/1.0 " ++ (errnum f ++ (codes " " ++ (shortmsg f ++ (13 ∷ []))))

abbrev error_lines : Failure → ℕ → List String
error_lines f n = status_line f ∷ type_header text_html ∷ length_header n ∷ []

abbrev page_of : Failure → String → String
page_of f cause = error_body cause (errnum f) (shortmsg f) (longmsg f)

request_error-error_lines :
    (f : Failure) (cause : String)
    → request_error cause (errnum f) (shortmsg f) (longmsg f)
      ≡ lines_before (error_lines f (length (page_of f cause))) (crlf ++ page_of f cause)
unfolding request_error
request_error-error_lines f cause = simp append_assoc refl

status_line-IsText : (f : Failure) → IsText (status_line f)
unfolding is_without
status_line-IsText not_implemented =
    text (status_line not_implemented) refl refl (omega arith) (λ e. absurd (cc))
status_line-IsText not_found =
    text (status_line not_found) refl refl (omega arith) (λ e. absurd (cc))
status_line-IsText unreadable =
    text (status_line unreadable) refl refl (omega arith) (λ e. absurd (cc))
status_line-IsText unrunnable =
    text (status_line unrunnable) refl refl (omega arith) (λ e. absurd (cc))

error_lines-IsText : (f : Failure) (n : ℕ) → All IsText (error_lines f n)
error_lines-IsText f n =
    (status_line-IsText f, (type_header-IsText text_html, (length_header-IsText n, tt)))

-- What the client prints before the page.
abbrev pub error_head : Failure → ℕ → String
error_head f n = joined (
    codes "Header: HTTP/1.0 "
    ∷ errnum f
    ∷ codes " "
    ∷ shortmsg f
    ∷ crlf
    ∷ codes "Header: Content-Type: text/html"
    ∷ crlf
    ∷ codes "Length = "
    ∷ print_nat n
    ∷ (newline ∷ [])
    ∷ codes "Header: Content-Length: "
    ∷ print_nat n
    ∷ crlf
    ∷ [])

length_line_type : length_line (codes "Content-Type: text/html" ++ crlf) ≡ []
unfolding length_line behind
length_line_type = refl

shown-error_lines : (f : Failure) (n : ℕ) → n < 2 ^ 31 → shown (error_lines f n) ≡ error_head f n
shown-error_lines f n small =
    rw (length_line_type, length_line-length_header n small, length_line-crlf)
      (simp append_assoc refl)

abbrev page_top : Failure → String
page_top f = joined (
    codes "<html><title>CS537 Error</title>"
    ∷ codes "<body bgcolor=fffff>"
    ∷ crlf
    ∷ errnum f
    ∷ codes ": "
    ∷ shortmsg f
    ∷ crlf
    ∷ codes "<p>"
    ∷ longmsg f
    ∷ codes ": "
    ∷ [])

abbrev page_foot : String
page_foot = crlf ++ (codes "<hr>CS537 Web Server" ++ crlf)

error_body-page_top :
    (f : Failure) (cause : String) → page_of f cause ≡ page_top f ++ (cause ++ page_foot)
unfolding error_body
error_body-page_top f cause = simp append_assoc refl

is_without-page_top : (f : Failure) → is_without 0 (page_top f) ≡ true
unfolding is_without
is_without-page_top not_implemented = refl
is_without-page_top not_found = refl
is_without-page_top unreadable = refl
is_without-page_top unrunnable = refl

is_without-page_foot : is_without 0 page_foot ≡ true
unfolding is_without
is_without-page_foot = refl

error_body-Lacks : (f : Failure) (cause : String) → Lacks 0 cause → Lacks 0 (page_of f cause)
error_body-Lacks f cause h = rw (error_body-page_top f cause) (
    Lacks-append 0 (page_top f) (cause ++ page_foot)
      (is_without-Lacks 0 (page_top f) (is_without-page_top f))
      (Lacks-append 0 cause page_foot h (is_without-Lacks 0 page_foot is_without-page_foot)))

-- For each of the four error pages, and a text without NUL that it names, where the page and its NUL fit into
-- the MAXBUF = 8192 bytes of requestError's `body`, the client prints the status, "Length = " with the
-- length of the page, and the page, for any number of tests of its loops from 8192 on.
pub client_print-request_error :
    (f : Failure) (cause : String) (fuel : ℕ) (buf : List ℕ)
    → Lacks 0 cause
    → length (page_of f cause) < maxbuf
    → maxbuf ≤ fuel
    → client_print fuel buf (request_error cause (errnum f) (shortmsg f) (longmsg f))
      ≡ some (error_head f (length (page_of f cause)) ++ page_of f cause)
client_print-request_error f cause fuel buf h small enough =
    let body = page_of f cause in
    ap (client_print fuel buf) (request_error-error_lines f cause)
    ∙ client_print-shown fuel buf (error_lines f (length body)) body
        (error_lines-IsText f (length body)) (error_body-Lacks f cause h) (omega arith)
        (omega arith)
    ∙ ap (λ (head : String). some (head ++ body)) (shown-error_lines f (length body) (omega arith))
