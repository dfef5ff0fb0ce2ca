-- ===== src/Server/Uri.antt =====
-- The URI of a request, in projects/p4/p4a/request.c. A C string is the list of its bytes before the
-- NUL; the buffers of MAXLINE bytes are not bounded here.
use cs537_fall.Prelude.{
  ℕ, ◌≡◌, ◌≢◌, refl, ◌==◌, if◌then◌else◌, Bool, true, false, ◌&&◌, ◌||◌, not, Option, none, some,
  List, [], ◌++◌, ◌∷◌, All, arith,
}

abbrev pub String : Type 0
String = List ℕ

-- "cgi", "home.html", ".html", ".gif", ".jpg" and the four content types
abbrev pub cgi : String
cgi = 99 ∷ 103 ∷ 105 ∷ []

abbrev pub home_page : String
home_page = 104 ∷ 111 ∷ 109 ∷ 101 ∷ 46 ∷ 104 ∷ 116 ∷ 109 ∷ 108 ∷ []

abbrev pub slash : ℕ
slash = 47

abbrev pub question_mark : ℕ
question_mark = 63

abbrev pub dot : ℕ
dot = 46

-- `strncmp(s, p, strlen(p)) == 0`
abbrev pub starts_with : String → String → Bool
starts_with [] s = true
starts_with (c ∷ p) [] = false
starts_with (c ∷ p) (d ∷ s) = (c == d) && starts_with p s

-- `strstr(s, p) != NULL`
unfoldable pub contains : String → String → Bool
contains p [] = starts_with p []
contains p (c ∷ s) = starts_with p (c ∷ s) || contains p s

-- The string is not empty and its last byte is `c`.
unfoldable pub ends_in : ℕ → String → Bool
ends_in c [] = false
ends_in c (d ∷ []) = d == c
ends_in c (d ∷ e ∷ s) = ends_in c (e ∷ s)

-- `index(s, c)`: the bytes before the first `c` and those after it.
unfoldable pub split_at : ℕ → String → Option (String × String)
split_at c [] = none
split_at c (d ∷ s) =
    let rest = split_at c s in
    if d == c then some ([], s) else elim rest [ none ↦ none | some (a, z) ↦ some (d ∷ a, z) ]

pub record Parsed : Type 0 where
  pub is_static : Bool
  pub filename : String
  pub cgiargs : String

-- The dynamic half, given `index(uri, '?')`.
abbrev pub parse_dynamic : String → Option (String × String) → Parsed
parse_dynamic uri none = record { is_static = false; filename = dot ∷ uri; cgiargs = [] }
parse_dynamic uri (some (path, args)) = record {
  is_static = false;
  filename = dot ∷ path;
  cgiargs = args;
}

-- The URI is not empty: `uri[strlen(uri)-1]` is a byte of it.
unfoldable pub request_parse_uri : String → Parsed
request_parse_uri uri =
    if not (contains cgi uri)
    then record {
      is_static = true;
      filename = dot ∷ (if ends_in slash uri then uri ++ home_page else uri);
      cgiargs = [];
    }
    else parse_dynamic uri (split_at question_mark uri)

-- The content type of a file.
pub data FileType : Type 0 where
  text_html : FileType
  image_gif : FileType
  image_jpeg : FileType
  text_plain : FileType

unfoldable pub request_get_filetype : String → FileType
request_get_filetype f =
    if contains (46 ∷ 104 ∷ 116 ∷ 109 ∷ 108 ∷ []) f
    then text_html
    else if contains (46 ∷ 103 ∷ 105 ∷ 102 ∷ []) f
    then image_gif
    else if contains (46 ∷ 106 ∷ 112 ∷ 103 ∷ []) f
    then image_jpeg
    else text_plain

split_at-append :
    (c : ℕ) (path args : String)
    → All (λ d. d ≢ c) path
    → split_at c (path ++ (c ∷ args)) ≡ some (path, args)
unfolding split_at
split_at-append c [] args h = ground arith
split_at-append c (d ∷ path) args (other, h) = ground (arith, split_at-append c path args h, other)

-- A URI that contains "cgi" and consists of a path without '?', a '?' and arguments asks for the
-- program that "." and the path name, with these arguments.
pub request_parse_uri-dynamic :
    (path args : String)
    → All (λ d. d ≢ question_mark) path
    → contains cgi (path ++ (question_mark ∷ args)) ≡ true
    → request_parse_uri (path ++ (question_mark ∷ args))
      ≡ record { is_static = false; filename = dot ∷ path; cgiargs = args }
unfolding request_parse_uri
request_parse_uri-dynamic path args h e = rw (e, split_at-append question_mark path args h) refl

starts_with-append : (p s t : String) → starts_with p s ≡ true → starts_with p (s ++ t) ≡ true
starts_with-append [] s t h = refl
starts_with-append (c ∷ p) [] t h = absurd (cc)
starts_with-append (c ∷ p) (d ∷ s) t h = ground (arith, starts_with-append p s t)

-- What contains a string goes on to contain it when it gets longer at the end.
contains-append : (p s t : String) → contains p s ≡ true → contains p (s ++ t) ≡ true
unfolding contains
contains-append p [] [] h = h
contains-append p [] (c ∷ t) h = ground (arith, starts_with-append p [] (c ∷ t))
contains-append p (c ∷ s) t h =
    ground (arith, contains-append p s t, starts_with-append p (c ∷ s) t)

contains-suffix : (p s t : String) → contains p t ≡ true → contains p (s ++ t) ≡ true
unfolding contains
contains-suffix p [] t h = h
contains-suffix p (c ∷ s) t h = ground (arith, contains-suffix p s t h)

home_page_html : contains (46 ∷ 104 ∷ 116 ∷ 109 ∷ 108 ∷ []) home_page ≡ true
unfolding contains
home_page_html = refl

-- A request without "cgi" that ends in '/' gets the page home.html of that directory, as HTML.
pub request_get_filetype-home :
    (uri : String)
    → contains cgi uri ≡ false
    → ends_in slash uri ≡ true
    → ((request_parse_uri uri).filename ≡ dot ∷ (uri ++ home_page))
      × (request_get_filetype (request_parse_uri uri).filename ≡ text_html)
unfolding request_parse_uri request_get_filetype
request_get_filetype-home uri static dir = (
  rw (static, dir) refl,
  rw
      (
        static,
        dir,
        contains-suffix (46 ∷ 104 ∷ 116 ∷ 109 ∷ 108 ∷ []) (dot ∷ uri) home_page home_page_html,
      )
      refl,
)
