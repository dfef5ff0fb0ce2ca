-- ===== src/Http/Replies.antt =====
-- requestError, requestServeStatic and requestServeDynamic of projects/p4/p4a/request.c: the bytes that
-- the server sends.
use cs537_fall.Prelude.{
  ℕ, ◌+◌, ◌-◌, ◌%◌, ◌^◌, ltb, if◌then◌else◌, Option, none, some, List, [], ◌∷◌, ◌++◌, length,
}
use cs537_fall.Server.Uri.{
  String, FileType, text_html, image_gif, image_jpeg, text_plain, request_get_filetype,
}
use cs537_fall.Server.Request.{
  Failure, not_implemented, not_found, unreadable, unrunnable, Reply, error_page, static_file,
  dynamic_page,
}
use cs537_fall.Http.Bytes.{codes, crlf, joined}
use cs537_fall.Http.Numbers.{print_nat, print_int}

-- What becomes of a request: bytes go to the client, or a wrapper of cs537.c ends the server by exit.
pub data Answer : Type 0 where
  sent : List ℕ → Answer
  server_exits : Answer

abbrev pub type_name : FileType → String
type_name text_html = codes "text/html"
type_name image_gif = codes "image/gif"
type_name image_jpeg = codes "image/jpeg"
type_name text_plain = codes "text/plain"

-- `errnum`, `shortmsg` and `longmsg` of the four calls of requestError.
abbrev pub errnum : Failure → String
errnum not_implemented = codes "501"
errnum not_found = codes "404"
errnum unreadable = codes "403"
errnum unrunnable = codes "403"

abbrev pub shortmsg : Failure → String
shortmsg not_implemented = codes "Not Implemented"
shortmsg not_found = codes "Not found"
shortmsg unreadable = codes "Forbidden"
shortmsg unrunnable = codes "Forbidden"

abbrev pub longmsg : Failure → String
longmsg not_implemented = codes "CS537 Server does not implement this method"
longmsg not_found = codes "CS537 Server could not find this file"
longmsg unreadable = codes "CS537 Server could not read this file"
longmsg unrunnable = codes "CS537 Server could not run this CGI program"

-- The text in `body`, which each sprintf appends to, where it and its NUL fit into the MAXBUF bytes of the
-- buffer; a longer text is written beyond it.
unfoldable pub error_body : String → String → String → String → String
error_body cause num short long = joined (
    codes "<html><title>CS537 Error</title>"
    ∷ codes "<body bgcolor=fffff>"
    ∷ crlf
    ∷ num
    ∷ codes ": "
    ∷ short
    ∷ crlf
    ∷ codes "<p>"
    ∷ long
    ∷ codes ": "
    ∷ cause
    ∷ crlf
    ∷ codes "<hr>CS537 Web Server"
    ∷ crlf
    ∷ [])

unfoldable pub request_error : String → String → String → String → List ℕ
request_error cause num short long =
    let body = error_body cause num short long in
    joined (
      codes "HTTP/1.0 "
      ∷ num
      ∷ codes " "
      ∷ short
      ∷ crlf
      ∷ codes "Content-Type: text/html"
      ∷ crlf
      ∷ codes "Content-Length: "
      ∷ print_nat (length body)
      ∷ crlf
      ∷ crlf
      ∷ body
      ∷ [])

-- The first two lines of a response with a file or from a program.
abbrev pub ok_lines : String
ok_lines = codes "HTTP/1.0 200 OK" ++ (crlf ++ (codes "Server: CS537 Web Server" ++ crlf))

-- `filesize`, an int, where `mmap` takes a size_t.
abbrev pub as_size : ℕ → ℕ
as_size n = if ltb n (2 ^ 31) then n else 2 ^ 64 + n - 2 ^ 32

abbrev pub static_head : FileType → ℕ → String
static_head filetype filesize = joined (
    ok_lines
    ∷ codes "Content-Length: "
    ∷ print_int filesize
    ∷ crlf
    ∷ codes "Content-Type: "
    ∷ type_name filetype
    ∷ crlf
    ∷ crlf
    ∷ [])

-- The rest of requestServeStatic, with what `mmap` maps.
abbrev pub send_file : FileType → ℕ → Option (List ℕ) → Answer
send_file filetype filesize none = server_exits
send_file filetype filesize (some srcp) = sent (static_head filetype filesize ++ srcp)

-- `mmap filename length` is what opening a file and mapping so many bytes of it gives; `none` is a failure
-- of either.
unfoldable pub request_serve_static : (String → ℕ → Option (List ℕ)) → String → ℕ → Answer
request_serve_static mmap filename filesize =
    send_file (request_get_filetype filename) filesize (mmap filename (as_size filesize))

-- `run` is what the program writes for the arguments.
unfoldable pub request_serve_dynamic : (String → String → List ℕ) → String → String → Answer
request_serve_dynamic run filename cgiargs = sent (ok_lines ++ run filename cgiargs)

-- The calls at the ends of `requestHandle`; `requestServeStatic` takes the size as an int.
unfoldable pub deliver :
    (String → ℕ → Option (List ℕ)) → (String → String → List ℕ) → Reply → Answer
deliver mmap run (error_page f cause) =
    sent (request_error cause (errnum f) (shortmsg f) (longmsg f))
deliver mmap run (static_file filename size) = request_serve_static mmap filename (size % 2 ^ 32)
deliver mmap run (dynamic_page filename cgiargs) = request_serve_dynamic run filename cgiargs
