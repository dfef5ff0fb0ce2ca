-- ===== src/Http/Exchange.antt =====
-- A request of clientSend, its answer by requestHandle, and what clientPrint makes of the answer
-- (projects/p4/p4a/client.c and request.c).
use cs537_fall.Prelude.{
  ℕ, ◌+◌, ◌%◌, ◌^◌, ◌≤◌, ◌<◌, ◌≡◌, refl, ap, ◌∙◌, ltb, true, false, some, List, ◌++◌, length, arith,
}
use cs537_fall.Server.Uri.{String, cgi, contains, request_parse_uri, request_get_filetype}
use cs537_fall.Server.Request.{Stat, static_file, serve, request_parse_uri-static}
use cs537_fall.Http.Bytes.{newline, maxline}
use cs537_fall.Http.Replies.{sent, static_head, request_serve_static, deliver}
use cs537_fall.Http.Requests.{Stack, Files, handle}
use cs537_fall.Http.Client.{client_send, client_print}
use cs537_fall.Http.Lines.{Lacks}
use cs537_fall.Http.Received.{IsName, file_name, handle-client_send}
use cs537_fall.Http.Shown.{client_print-shown}
use cs537_fall.Http.Pages.{
  page_lines, page_lines-IsText, static_head-page_lines, page_head, shown-page_lines,
}

-- A name without "cgi" of a regular file that its owner may read.
serve_static :
    (name : String) (s : Stat)
    → contains cgi name ≡ false
    → s.is_regular ≡ true
    → s.is_readable ≡ true
    → serve (request_parse_uri name) (some s) ≡ static_file (file_name name) s.size
serve_static name s static regular readable =
    rw (request_parse_uri-static name, static, regular, readable) refl

deliver_static :
    (files : Files) (filename : String) (file : List ℕ)
    → length file < 2 ^ 31
    → files.mmap filename (length file) ≡ some file
    → deliver files.mmap files.run (static_file filename (length file))
      ≡ sent (static_head (request_get_filetype filename) (length file) ++ file)
unfolding deliver request_serve_static
deliver_static files filename file small mapped =
    let size : length file % 2 ^ 32 ≡ length file = omega arith in
    let positive : ltb (length file) (2 ^ 31) ≡ true = ground arith in
    rw (size, positive, mapped) refl

client_print_page :
    (fuel : ℕ) (buf : List ℕ) (filename : String) (file : List ℕ)
    → length file < 2 ^ 31
    → Lacks 0 file
    → length file + 4 < fuel
    → client_print fuel buf (static_head (request_get_filetype filename) (length file) ++ file)
      ≡ some (page_head (request_get_filetype filename) (length file) ++ file)
client_print_page fuel buf filename file small text enough =
    let t = request_get_filetype filename in
    let n = length file in
    ap (client_print fuel buf) (static_head-page_lines t n file small)
    ∙ client_print-shown fuel buf (page_lines t n) file (page_lines-IsText t n) text (omega arith)
        (omega arith)
    ∙ ap (λ (head : String). some (head ++ file)) (shown-page_lines t n small)

-- The client asks for a name without white space, NUL or "cgi", and name and host fit in its buffer. The name stands for a
-- regular file that its owner may read, of fewer than 2^31 bytes and without NUL, and mapping the file gives its
-- bytes. Then the server answers, and the client prints the header, "Length = " with the length of the
-- file, and the file.
pub client_print-handle :
    (files : Files) (old : Stack) (buf : List ℕ) (fuel : ℕ) (hostname name : String) (s : Stat)
    (file : List ℕ)
    → IsName name
    → length name + 15 ≤ maxline
    → Lacks newline hostname
    → length hostname + 8 ≤ maxline
    → contains cgi name ≡ false
    → files.stat (file_name name) ≡ some s
    → s.is_regular ≡ true
    → s.is_readable ≡ true
    → s.size ≡ length file
    → files.mmap (file_name name) (length file) ≡ some file
    → length file < 2 ^ 31
    → Lacks 0 file
    → length file + 4 < fuel
    → (answer : List ℕ) × (handle files old fuel (client_send hostname name) ≡ some (sent answer))
      × (client_print fuel buf answer
          ≡ some (page_head (request_get_filetype (file_name name)) (length file) ++ file))
client_print-handle files old buf fuel hostname name s file n nshort h hshort static found regular
      readable size mapped small text enough =
    let filename = file_name name in
    (
      static_head (request_get_filetype filename) (length file) ++ file,
      rw
          (
            handle-client_send files old fuel hostname name n nshort h hshort (omega arith),
            found,
            serve_static name s static regular readable,
            size,
            deliver_static files filename file small mapped,
          )
          refl,
      client_print_page fuel buf filename file small text enough,
    )
