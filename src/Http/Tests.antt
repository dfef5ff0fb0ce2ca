-- ===== src/Http/Tests.antt =====
-- Tests of the connections of the web server, and the theorems at concrete inputs.
use cs537_fall.Prelude.{
  ℕ, if◌then◌else◌, ◌++◌, ◌≡◌, refl, true, false, Option, none, some, List, [], ◌∷◌, length, arith,
}
use cs537_fall.Server.Uri.{
  String, contains, request_parse_uri, ends_in, request_get_filetype, image_gif,
}
use cs537_fall.Server.Request.{Stat, not_found, request_handle}
use cs537_fall.Http.Bytes.{codes, newline, crlf, same_string, c_string, rio_readlineb, read_bytes}
use cs537_fall.Http.Numbers.{digits, print_nat, print_int, scan_int, scan_digits, skip_spaces}
use cs537_fall.Http.Replies.{sent, errnum, shortmsg, longmsg, error_body, request_error, deliver}
use cs537_fall.Http.Requests.{
  request_readhdrs, Stack, Files, handle, scan_words, word, after_word, is_get,
}
use cs537_fall.Http.Client.{
  client_send, client_print, print_header, print_body, length_line, behind,
}
use cs537_fall.Http.Lines.{is_without, is_without-Lacks}
use cs537_fall.Http.Readhdrs.{IsHeader, lines_before, request_readhdrs_ends, request_readhdrs_hangs}
use cs537_fall.Http.Printed.{client_print_ends}
use cs537_fall.Http.Shown.{shown, client_print-shown}
use cs537_fall.Http.Pages.{page_head}
use cs537_fall.Http.Exchange.{client_print-handle}
use cs537_fall.Http.Errors.{error_head, client_print-request_error}

-- A file "./a.gif" of three bytes.
abbrev page : List ℕ
page = 71 ∷ 10 ∷ 73 ∷ []

abbrev page_stat : Stat
page_stat = record { is_regular = true; is_readable = true; is_executable = false; size = 3 }

abbrev find_page : String → Option Stat
find_page s = if same_string s (codes "./a.gif") then some page_stat else none

abbrev files : Files
files = record { stat = find_page; mmap = λ f n. some page; run = λ f a. [] }

abbrev stack : Stack
stack = record { buf = []; words = record { method = []; uri = []; version = [] }; headers = [] }

-- A request that is no GET is answered before its headers are read.
post :
    handle files stack 0 (codes "POST / HTTP/1.1" ++ crlf)
    ≡ some (
        sent (
          request_error
            (codes "POST")
            (codes "501")
            (codes "Not Implemented")
            (codes "CS537 Server does not implement this method")))
unfolding handle rio_readlineb read_bytes c_string scan_words skip_spaces word after_word is_get
    same_string request_handle deliver
post = refl

-- At the end of the input the last line stays in the buffer, and is tested for its length again.
cut_off :
    client_print 9 [] (codes "Content-Length: 3")
    ≡ some (codes "Header: Content-Length: 3Length = 3" ++ (newline ∷ []))
unfolding client_print rio_readlineb read_bytes c_string same_string print_header print_body
    length_line behind scan_int skip_spaces scan_digits print_int print_nat digits
cut_off = refl

host-IsHeader : IsHeader (codes "host: pc")
unfolding is_without
host-IsHeader = record {
  one_line = is_without-Lacks newline (codes "host: pc") refl;
  fits = omega arith;
  not_blank = λ e. absurd (cc);
}

request_readhdrs_ends_example :
    request_readhdrs 2 [] (lines_before (codes "host: pc" ∷ []) (crlf ++ (7 ∷ []))) ≡ some (7 ∷ [])
request_readhdrs_ends_example =
    request_readhdrs_ends 2 [] (codes "host: pc" ∷ []) (7 ∷ []) (host-IsHeader, tt) (omega arith)

request_readhdrs_hangs_example :
    request_readhdrs 1000 [] (lines_before (codes "host: pc" ∷ []) []) ≡ none
request_readhdrs_hangs_example =
    request_readhdrs_hangs 1000 [] (codes "host: pc") [] (host-IsHeader, tt)

client_print_ends_example : (out : String) × (client_print 9 [] (codes "HTTP/1.0") ≡ some out)
client_print_ends_example = client_print_ends 9 [] (codes "HTTP/1.0") (omega arith)

client_print-shown_example :
    client_print 2 [] (lines_before (codes "host: pc" ∷ []) (crlf ++ (7 ∷ [])))
    ≡ some (shown (codes "host: pc" ∷ []) ++ (7 ∷ []))
unfolding is_without
client_print-shown_example =
    client_print-shown 2 [] (codes "host: pc" ∷ []) (7 ∷ [])
      ((host-IsHeader, is_without-Lacks 0 (codes "host: pc") refl), tt)
      (is_without-Lacks 0 (7 ∷ []) refl) (omega arith) (omega arith)

client_print-request_error_example :
    client_print 8192 []
      (request_error (codes "./b") (errnum not_found) (shortmsg not_found) (longmsg not_found))
    ≡ some (
        error_head not_found (
          length (
            error_body
              (codes "./b")
              (codes "404")
              (codes "Not found")
              (codes "CS537 Server could not find this file")))
        ++ error_body
            (codes "./b")
            (codes "404")
            (codes "Not found")
            (codes "CS537 Server could not find this file"))
unfolding is_without error_body
client_print-request_error_example =
    client_print-request_error not_found (codes "./b") 8192 []
      (is_without-Lacks 0 (codes "./b") refl) (omega arith) (omega arith)

client_print-handle_example :
    (answer : List ℕ) × (handle files stack 8 (client_send (codes "pc") (codes "/a.gif"))
      ≡ some (sent answer))
    × (client_print 8 [] answer ≡ some (page_head image_gif 3 ++ page))
unfolding contains request_parse_uri ends_in request_get_filetype is_without same_string
client_print-handle_example =
    client_print-handle files stack [] 8 (codes "pc") (codes "/a.gif") page_stat page
      (
        (refl, (λ e. absurd (omega arith))),
        (
          (refl, (λ e. absurd (omega arith))),
          (
            (refl, (λ e. absurd (omega arith))),
            (
              (refl, (λ e. absurd (omega arith))),
              ((refl, (λ e. absurd (omega arith))), ((refl, (λ e. absurd (omega arith))), tt)),
            ),
          ),
        ),
      )
      (omega arith) (is_without-Lacks newline (codes "pc") refl) (omega arith) refl refl refl refl
      refl refl (omega arith) (is_without-Lacks 0 page refl) (omega arith)
