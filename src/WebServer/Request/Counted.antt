-- ===== src/WebServer/Request/Counted.antt =====
-- `requestHandle` of hw3/webserver-files/request.c: its counters, and what it serves.
use operations_systems.Base.{
  ℕ, zero, suc, ◌+◌, ◌<◌, ◌≡◌, refl, ap, inl, inr, Bool, true, false, Bool-cases, none, some, List,
  [], ◌∷◌, ◌++◌, arith, length, All,
}
use operations_systems.WebServer.Request.{
  Text, bytes, eq_text, eq_case, header_loop, request_read_headers, Target, request_parse_uri,
  FileStatus, missing, found, ThreadStats, Response, error_page, file, program, serve,
  request_handle, request_error, request_serve_dynamic, request_serve_static,
}
use operations_systems.WebServer.Request.Public.{IsPublic, request_parse_uri-IsPublic}

-- A response, the counters before and behind it, and the file that `stat` allows it to serve.
abbrev pub IsCounted : (Text → FileStatus) → ThreadStats → ThreadStats × Response → Type 0
IsCounted stat t (t', error_page h b) =
    (t'.handled_requests ≡ t.handled_requests + 1)
    × (t'.handled_stat_requests ≡ t.handled_stat_requests)
    × (t'.handled_dyn_requests ≡ t.handled_dyn_requests)
IsCounted stat t (t', file h name size) =
    (t'.handled_requests ≡ t.handled_requests + 1)
    × (t'.handled_stat_requests ≡ t.handled_stat_requests + 1)
    × (t'.handled_dyn_requests ≡ t.handled_dyn_requests)
    × IsPublic name
    × ((x : Bool) × (stat name ≡ found true true x size))
IsCounted stat t (t', program h name args) =
    (t'.handled_requests ≡ t.handled_requests + 1)
    × (t'.handled_stat_requests ≡ t.handled_stat_requests)
    × (t'.handled_dyn_requests ≡ t.handled_dyn_requests + 1)
    × IsPublic name
    × ((r : Bool) × (size : ℕ) × (stat name ≡ found true r true size))

-- The counters of a thread that has counted a request but not its kind.
record Begun (t t' : ThreadStats) : Type 0 where
  handled : t'.handled_requests ≡ t.handled_requests + 1
  static : t'.handled_stat_requests ≡ t.handled_stat_requests
  dynamic : t'.handled_dyn_requests ≡ t.handled_dyn_requests

module _ (stat : Text → FileStatus) (t t' : ThreadStats) (b : Begun t t') where
  serve-IsCounted :
      (is_static : Bool) (name args : Text)
      → IsPublic name
      → (s : FileStatus) → stat name ≡ s
      → IsCounted stat t
          (serve (record { is_static = is_static; filename = name; cgiargs = args }) t' s)
  unfolding request_error request_serve_dynamic request_serve_static
  serve-IsCounted i name args p missing e = (b.handled, b.static, b.dynamic)
  serve-IsCounted true name args p (found true true x size) e =
      (b.handled, ap (λ n. n + 1) b.static, b.dynamic, p, (x, e))
  serve-IsCounted true name args p (found true false x size) e = (b.handled, b.static, b.dynamic)
  serve-IsCounted true name args p (found false r x size) e = (b.handled, b.static, b.dynamic)
  serve-IsCounted false name args p (found true r true size) e =
      (b.handled, b.static, ap (λ n. n + 1) b.dynamic, p, (r, size, e))
  serve-IsCounted false name args p (found true r false size) e = (b.handled, b.static, b.dynamic)
  serve-IsCounted false name args p (found false r x size) e = (b.handled, b.static, b.dynamic)

abbrev pub NoneBlank : List Text → Type 0
NoneBlank lines = All (λ l. eq_text l (bytes "\r\n") ≡ false) lines

module _ (rest : List Text) where
  read_headers-blank :
      (fuel : ℕ) (buf : Text) (hs : List Text)
      → length hs < fuel
      → NoneBlank hs
      → request_read_headers fuel buf (hs ++ bytes "\r\n" ∷ rest) ≡ some rest
  unfolding request_read_headers header_loop
  read_headers-blank zero buf hs lt n = elim lt [ ]
  read_headers-blank (suc k) buf [] lt n = refl
  read_headers-blank (suc k) buf (h ∷ hs) lt (e, n) =
      rw e (read_headers-blank k h hs (omega (arith, lt)) n)

-- The buffer holds the last line, or the line before the loop.
header_loop-end :
    (fuel : ℕ) (buf : Text) (hs : List Text)
    → NoneBlank (buf ∷ hs)
    → header_loop fuel (buf, hs) ≡ none
unfolding header_loop
header_loop-end zero buf hs n = refl
header_loop-end (suc k) buf [] (e, n) = rw e (header_loop-end k buf [] (e, n))
header_loop-end (suc k) buf (h ∷ hs) (e, n) = rw e (header_loop-end k h hs n)

read_headers-end :
    (fuel : ℕ) (buf h : Text) (hs : List Text)
    → NoneBlank (h ∷ hs)
    → request_read_headers fuel buf (h ∷ hs) ≡ none
unfolding request_read_headers
read_headers-end fuel buf h hs n = header_loop-end fuel h hs n

module _ (stat : Text → FileStatus) (before : ℕ) (old : Text) (dispatch : ℕ) (method uri : Text)
    (fuel : ℕ) (buf : Text) (t : ThreadStats) where
  abbrev begun : ThreadStats
  begun = record t { handled_requests = t.handled_requests + 1; dispatch = dispatch }

  abbrev target : Target
  target = request_parse_uri before old uri

  -- A request whose headers end with an empty line, with a round for each of them, is answered and counted once: as static or as
  -- dynamic where a file is served, and then the file is below ./public, regular, and the owner may
  -- read or run it; with an error page otherwise.
  pub request_handle-IsCounted :
      (hs rest : List Text)
      → length hs < fuel
      → NoneBlank hs
      → (r : ThreadStats × Response) × (request_handle stat before old dispatch method uri fuel buf
            (hs ++ bytes "\r\n" ∷ rest)
            t
          ≡ some r)
        × IsCounted stat t r
  unfolding request_handle request_error
  request_handle-IsCounted hs rest lt n = elim (Bool-cases (eq_case method (bytes "GET"))) [
    | inl get ↦
        rw (request_handle, get, read_headers-blank rest fuel buf hs lt n)
          (
            _,
            refl,
            serve-IsCounted stat t begun (record { handled = refl; static = refl; dynamic = refl })
                target.is_static target.filename target.cgiargs
                (request_parse_uri-IsPublic before old uri) (stat target.filename) refl,
          )
    | inr other ↦ rw (request_handle, other) (_, refl, (refl, refl, refl))
  ]

  -- A GET request with lines behind the request line, none of them empty, is never answered: whatever
  -- the buffer held, no number of rounds ends the loop over the headers.
  pub request_handle-Endless :
      (h : Text) (hs : List Text)
      → eq_case method (bytes "GET") ≡ true
      → NoneBlank (h ∷ hs)
      → request_handle stat before old dispatch method uri fuel buf (h ∷ hs) t ≡ none
  unfolding request_handle
  request_handle-Endless h hs get n =
      rw (request_handle, get, read_headers-end fuel buf h hs n) refl
