-- ===== src/WebServer/Request/Tests.antt =====
-- Requests to hw3/webserver-files/request.c.
use operations_systems.Base.{
  ◌≡◌, refl, true, false, none, some, List, [], ◌∷◌, ◌++◌, arith, if◌then◌else◌,
}
use operations_systems.Base.Int.{pos}
use operations_systems.WebServer.Request.{
  Text, bytes, eq_text, FileStatus, missing, found, ThreadStats, Response, request_handle,
  request_parse_uri, request_get_filetype,
}
use operations_systems.WebServer.Request.Public.{IsPublic, request_parse_uri-IsPublic}
use operations_systems.WebServer.Request.Counted.{
  IsCounted, request_handle-IsCounted, request_handle-Endless,
}

abbrev idle : ThreadStats
idle = record {
  id = pos 0;
  arrival = 0;
  dispatch = 0;
  handled_requests = 4;
  handled_stat_requests = 2;
  handled_dyn_requests = 1;
}

abbrev stat : Text → FileStatus
stat name = if eq_text name (bytes "./public/a.html") then found true true false 20 else missing

abbrev headers : List Text
headers = bytes "Host: here\r\n" ∷ []

request_parse_uri-IsPublic_example : IsPublic (request_parse_uri 0 [] (bytes "/x/cgi?a..")).filename
request_parse_uri-IsPublic_example = request_parse_uri-IsPublic 0 [] (bytes "/x/cgi?a..")

request_handle-IsCounted_example :
    (r : ThreadStats × Response) × (request_handle stat 0 [] 9
        (bytes "GET")
        (bytes "a.html")
        2
        []
        (headers ++ bytes "\r\n" ∷ [])
        idle
      ≡ some r)
    × IsCounted stat idle r
request_handle-IsCounted_example =
    request_handle-IsCounted stat 0 [] 9 (bytes "GET") (bytes "a.html") 2 [] idle headers []
      (ground arith) (refl, tt)

request_handle-Endless_example :
    request_handle stat 0 [] 9 (bytes "get") (bytes "a.html") 1000 (bytes "\r\n") headers idle
    ≡ none
request_handle-Endless_example =
    request_handle-Endless stat 0 [] 9 (bytes "get") (bytes "a.html") 1000 (bytes "\r\n") idle
      (bytes "Host: here\r\n") [] refl (refl, tt)

crlf_test : bytes "\r\n" ≡ b'\r' ∷ b'\n' ∷ []
crlf_test = refl

query_test : (request_parse_uri 0 [] (bytes "o.cgi?1&2")).cgiargs ≡ bytes "1&2"
unfolding request_parse_uri
query_test = refl

filetype_test : request_get_filetype (bytes "./public/a.gif") ≡ bytes "image/gif"
unfolding request_get_filetype
filetype_test = refl
