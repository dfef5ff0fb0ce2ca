-- ===== src/Server/Request.antt =====
-- requestHandle of projects/p4/p4a/request.c: what a request is answered with.
use cs537_fall.Prelude.{
  ℕ, ◌≡◌, refl, if◌then◌else◌, Bool, true, false, Bool-cases, inl, inr, ◌||◌, ◌&&◌, not, Option,
  none, some,
}
use cs537_fall.Server.Uri.{
  String, cgi, contains, Parsed, parse_dynamic, split_at, question_mark, request_parse_uri,
}

-- What `stat` finds: S_ISREG, S_IRUSR and S_IXUSR of the mode, and the size.
pub record Stat : Type 0 where
  pub is_regular : Bool
  pub is_readable : Bool
  pub is_executable : Bool
  pub size : ℕ

-- The four calls of requestError.
pub data Failure : Type 0 where
  not_implemented : Failure
  not_found : Failure
  unreadable : Failure
  unrunnable : Failure

-- An error page is the failure and what it names; the others are the calls of requestServeStatic and
-- requestServeDynamic.
pub data Reply : Type 0 where
  error_page : Failure → String → Reply
  static_file : String → ℕ → Reply
  dynamic_page : String → String → Reply

-- The end of `requestHandle`.
abbrev pub serve : Parsed → Option Stat → Reply
serve r none = error_page not_found r.filename
serve r (some sbuf) =
    if r.is_static
    then (if not sbuf.is_regular || not sbuf.is_readable
        then error_page unreadable r.filename
        else static_file r.filename sbuf.size)
    else if not sbuf.is_regular || not sbuf.is_executable
    then error_page unrunnable r.filename
    else dynamic_page r.filename r.cgiargs

-- `is_get` is `!strcasecmp(method, "GET")`; `stat` is the file system.
unfoldable pub request_handle : (String → Option Stat) → Bool → String → String → Reply
request_handle stat is_get method uri =
    if not is_get
    then error_page not_implemented method
    else serve (request_parse_uri uri) (stat (request_parse_uri uri).filename)

-- The right to the answer: a file goes out only if it is a regular file that its owner may read,
-- a program runs only if it is a regular file that its owner may execute, and an error page means what
-- it says.
abbrev pub IsAllowed : (String → Option Stat) → Bool → String → Reply → Type 0
IsAllowed stat is_get uri (static_file f n) =
    (is_get ≡ true)
    × (contains cgi uri ≡ false)
    × ((s : Stat) × (stat f ≡ some s)
        × (s.is_regular ≡ true)
        × (s.is_readable ≡ true)
        × (s.size ≡ n))
IsAllowed stat is_get uri (dynamic_page f args) =
    (is_get ≡ true)
    × (contains cgi uri ≡ true)
    × ((s : Stat) × (stat f ≡ some s) × (s.is_regular ≡ true) × (s.is_executable ≡ true))
IsAllowed stat is_get uri (error_page not_implemented f) = is_get ≡ false
IsAllowed stat is_get uri (error_page not_found f) = (is_get ≡ true) × (stat f ≡ none)
IsAllowed stat is_get uri (error_page unreadable f) =
    (is_get ≡ true)
    × (contains cgi uri ≡ false)
    × ((s : Stat) × (stat f ≡ some s) × ((s.is_regular && s.is_readable) ≡ false))
IsAllowed stat is_get uri (error_page unrunnable f) =
    (is_get ≡ true)
    × (contains cgi uri ≡ true)
    × ((s : Stat) × (stat f ≡ some s) × ((s.is_regular && s.is_executable) ≡ false))

parse_dynamic-program :
    (uri : String) (o : Option (String × String)) → (parse_dynamic uri o).is_static ≡ false
parse_dynamic-program uri none = refl
parse_dynamic-program uri (some r) = refl

-- The URI decides between a file and a program.
pub request_parse_uri-static :
    (uri : String) → (request_parse_uri uri).is_static ≡ not (contains cgi uri)
unfolding request_parse_uri
request_parse_uri-static uri = elim (Bool-cases (contains cgi uri)) [
  | inl program ↦ rw program (parse_dynamic-program uri (split_at question_mark uri))
  | inr file ↦ rw file refl
]
