-- ===== src/WebServer/Request.antt =====
-- hw3/webserver-files/request.c, on lists of bytes. The lines that a client sends, what `stat` says
-- of a file and what an uninitialised buffer holds are arguments.
pub mod Public
pub mod Counted
mod Tests
use Prim.Native.Char.{code}
use Prim.Native.String.{String}
use operations_systems.Base.{
  ℕ, zero, suc, ◌+◌, Bool, true, false, not, ◌&&◌, ◌||◌, Option, none, some, List, [], ◌∷◌, ◌++◌,
  length, leb, ◌==◌, if◌then◌else◌,
}
use operations_systems.Base.Int.{ℤ}

abbrev pub Text : Type 0
Text = List ℕ

abbrev pub bytes : String → Text
bytes String.[] = []
bytes (String.◌∷◌ c s) = code c ∷ bytes s

abbrev pub eq_text : Text → Text → Bool
eq_text [] [] = true
eq_text [] (d ∷ t) = false
eq_text (c ∷ s) [] = false
eq_text (c ∷ s) (d ∷ t) = c == d && eq_text s t

-- `strstr`, as a test.
abbrev pub starts_with : (pattern : Text) → Text → Bool
starts_with [] s = true
starts_with (c ∷ p) [] = false
starts_with (c ∷ p) (d ∷ s) = c == d && starts_with p s

abbrev pub strstr : Text → (pattern : Text) → Bool
strstr [] p = starts_with p []
strstr (c ∷ s) p = starts_with p (c ∷ s) || strstr s p

-- `strcasecmp(s, t) == 0`.
abbrev pub lower : ℕ → ℕ
lower c = if leb b'A' c && leb c b'Z' then c + 32 else c

abbrev pub eq_case : Text → Text → Bool
eq_case [] [] = true
eq_case [] (d ∷ t) = false
eq_case (c ∷ s) [] = false
eq_case (c ∷ s) (d ∷ t) = lower c == lower d && eq_case s t

-- `Rio_readlineb`: the buffer and the lines behind it. At the end of the input the buffer is left as
-- it was.
abbrev pub read_line : (buf : Text) → List Text → Text × List Text
read_line buf [] = (buf, [])
read_line buf (line ∷ lines) = (line, lines)

-- The loop of `requestReadhdrs`, on fuel: the lines behind the empty one.
pub header_loop : ℕ → Text × List Text → Option (List Text)
header_loop zero (buf, lines) = none
header_loop (suc k) (buf, lines) =
    let rest = header_loop k (read_line buf lines) in
    if eq_text buf (bytes "\r\n") then some lines else rest

-- `buf` is what the uninitialised buffer holds.
pub request_read_headers : (fuel : ℕ) (buf : Text) → List Text → Option (List Text)
unfolding header_loop
request_read_headers fuel buf lines = header_loop fuel (read_line buf lines)

-- What stands before and behind the first question mark.
abbrev pub before_query : Text → Text
before_query [] = []
before_query (c ∷ s) = if c == b'?' then [] else c ∷ before_query s

abbrev pub behind_query : Text → Text
behind_query [] = []
behind_query (c ∷ s) = if c == b'?' then s else behind_query s

-- `uri[strlen(uri)-1]`; the byte before the buffer where the text is empty.
abbrev pub last_byte : (before : ℕ) → Text → ℕ
last_byte before [] = before
last_byte before (c ∷ s) = last_byte c s

pub record Target : Type 0 where
  pub is_static : Bool
  pub filename : Text
  pub cgiargs : Text

abbrev pub public_dir : Text
public_dir = bytes "./public/"

abbrev pub home_html : Text
home_html = bytes "home.html"

-- `old_cgiargs` is what the buffer holds, which one branch leaves.
pub request_parse_uri : (before : ℕ) (old_cgiargs : Text) → (uri : Text) → Target
request_parse_uri before old_cgiargs uri =
    if strstr uri (bytes "..")
    then record { is_static = true; filename = public_dir ++ home_html; cgiargs = old_cgiargs }
    else if not (strstr uri (bytes "cgi"))
    then record {
      is_static = true;
      filename =
          if last_byte before uri == b'/'
          then public_dir ++ (uri ++ home_html)
          else public_dir ++ uri;
      cgiargs = [];
    }
    else record {
      is_static = false;
      filename = public_dir ++ before_query uri;
      cgiargs = behind_query uri;
    }

pub request_get_filetype : Text → Text
request_get_filetype filename =
    if strstr filename (bytes ".html")
    then bytes "text/html"
    else if strstr filename (bytes ".gif")
    then bytes "image/gif"
    else if strstr filename (bytes ".jpg")
    then bytes "image/jpeg"
    else bytes "text/plain"

-- `stat`: an error, or the size and whether the file is regular and the owner may read and run it.
pub data FileStatus : Type 0 where
  missing : FileStatus
  found : (regular readable executable : Bool) (size : ℕ) → FileStatus

pub record ThreadStats : Type 0 where
  pub id : ℤ
  pub arrival : ℕ
  pub dispatch : ℕ
  pub handled_requests : ℕ
  pub handled_stat_requests : ℕ
  pub handled_dyn_requests : ℕ

-- The lines of a response's header, by their formats.
pub data HeaderLine : Type 0 where
  status : Text → HeaderLine
  server_name : HeaderLine
  content_type : Text → HeaderLine
  content_length : ℕ → HeaderLine
  stat_req_arrival : ℕ → HeaderLine
  stat_req_dispatch : ℕ → HeaderLine
  stat_thread_id : ℤ → HeaderLine
  stat_thread_count : ℕ → HeaderLine
  stat_thread_static : ℕ → HeaderLine
  stat_thread_dynamic : ℕ → HeaderLine
  end_of_header : HeaderLine

-- The header, and then a text, a file, or what a CGI program writes.
pub data Response : Type 0 where
  error_page : List HeaderLine → (body : Text) → Response
  file : List HeaderLine → (filename : Text) (size : ℕ) → Response
  program : List HeaderLine → (filename cgiargs : Text) → Response

abbrev pub statistics : ThreadStats → List HeaderLine
statistics t =
    stat_req_arrival t.arrival
    ∷ stat_req_dispatch t.dispatch
    ∷ stat_thread_id t.id
    ∷ stat_thread_count t.handled_requests
    ∷ stat_thread_static t.handled_stat_requests
    ∷ stat_thread_dynamic t.handled_dyn_requests
    ∷ []

abbrev pub crlf : Text
crlf = bytes "\r\n"

-- The body as the `sprintf`s are meant, each behind the text so far.
abbrev pub error_body : (cause errnum shortmsg longmsg : Text) → Text
error_body cause errnum shortmsg longmsg =
    bytes "<html><title>OS-HW3 Error</title>"
    ++ bytes "<body bgcolor=fffff>\r\n"
    ++ (errnum ++ bytes ": " ++ shortmsg ++ crlf)
    ++ (bytes "<p>" ++ longmsg ++ bytes ": " ++ cause ++ crlf)
    ++ bytes "<hr>OS-HW3 Web Server\r\n"

pub request_error : (cause errnum shortmsg longmsg : Text) → ThreadStats → Response
request_error cause errnum shortmsg longmsg t =
    let body = error_body cause errnum shortmsg longmsg in
    error_page
      (status (errnum ++ bytes " " ++ shortmsg)
        ∷ content_type (bytes "text/html")
        ∷ content_length (length body)
        ∷ (statistics t ++ end_of_header ∷ []))
      body

pub request_serve_dynamic : (filename cgiargs : Text) → ThreadStats → Response
request_serve_dynamic filename cgiargs t =
    program (status (bytes "200 OK") ∷ server_name ∷ statistics t) filename cgiargs

pub request_serve_static : (filename : Text) (filesize : ℕ) → ThreadStats → Response
request_serve_static filename filesize t =
    file
      (status (bytes "200 OK")
        ∷ server_name
        ∷ content_length filesize
        ∷ content_type (request_get_filetype filename)
        ∷ (statistics t ++ end_of_header ∷ []))
      filename filesize

abbrev pub not_found : Text → ThreadStats → ThreadStats × Response
not_found filename t = (
  t,
  request_error filename (bytes "404") (bytes "Not found")
      (bytes "OS-HW3 Server could not find this file") t,
)

abbrev pub forbidden : Text → (longmsg : Text) → ThreadStats → ThreadStats × Response
forbidden filename longmsg t =
    (t, request_error filename (bytes "403") (bytes "Forbidden") longmsg t)

-- `requestHandle` from `stat` on.
abbrev pub serve : Target → ThreadStats → FileStatus → ThreadStats × Response
serve target t missing = not_found target.filename t
serve target t (found regular readable executable size) =
    if target.is_static
    then if not regular || not readable
      then forbidden target.filename (bytes "OS-HW3 Server could not read this file") t
      else (let t' = record t { handled_stat_requests = t.handled_stat_requests + 1 } in
          (t', request_serve_static target.filename size t'))
    else if not regular || not executable
    then forbidden target.filename (bytes "OS-HW3 Server could not run this CGI program") t
    else (let t' = record t { handled_dyn_requests = t.handled_dyn_requests + 1 } in
        (t', request_serve_dynamic target.filename target.cgiargs t'))

abbrev pub serve_behind :
    Option (List Text) → ThreadStats × Response → Option (ThreadStats × Response)
serve_behind none r = none
serve_behind (some lines) r = some r

-- `requestHandle` behind the request line, whose words `sscanf` has put into `method` and `uri`;
-- `dispatch` is the time since the arrival, `buf` what the buffer for the headers holds. `none` where
-- the fuel for the headers runs out.
pub request_handle :
    (stat : Text → FileStatus) (before : ℕ) (old_cgiargs : Text) (dispatch : ℕ) (method uri : Text)
    (fuel : ℕ) (buf : Text) (lines : List Text)
    → ThreadStats
    → Option (ThreadStats × Response)
request_handle stat before old_cgiargs dispatch method uri fuel buf lines t =
    let t' = record t { handled_requests = t.handled_requests + 1; dispatch = dispatch } in
    let target = request_parse_uri before old_cgiargs uri in
    if not (eq_case method (bytes "GET"))
    then some (
      t',
      request_error method (bytes "501") (bytes "Not Implemented")
          (bytes "OS-HW3 Server does not implement this method") t',
    )
    else serve_behind (request_read_headers fuel buf lines) (serve target t' (stat target.filename))
