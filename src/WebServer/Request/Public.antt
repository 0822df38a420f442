-- ===== src/WebServer/Request/Public.antt =====
-- No request of hw3/webserver-files/request.c reaches a file outside of ./public.
use operations_systems.Base.{
  ℕ, ◌≡◌, refl, sym, ap, ◌∙◌, inl, inr, Bool, true, false, Bool-cases, ◌&&◌, ◌||◌, [], ◌∷◌, ◌++◌,
  arith, ◌==◌, if◌then◌else◌,
}
use operations_systems.WebServer.Request.{
  Text, bytes, starts_with, strstr, before_query, last_byte, public_dir, home_html,
  request_parse_uri,
}

abbrev dots : Text
dots = b'.' ∷ b'.' ∷ []

-- The file name is one of the public directory, and no `..` leads out of it.
abbrev pub IsPublic : Text → Type 0
IsPublic filename = (rest : Text) × (filename ≡ public_dir ++ rest) × (strstr rest dots ≡ false)

or_false : (a b : Bool) → (a || b) ≡ false → (a ≡ false) × (b ≡ false)
or_false a b e = ground arith

starts_with_query :
    (s : Text) (p : Text) → starts_with p s ≡ false → starts_with p (before_query s) ≡ false
starts_with_query [] p e = e
starts_with_query (c ∷ s) [] e = cc
starts_with_query (c ∷ s) (d ∷ p) e = elim (Bool-cases (c == b'?')) [
  | inl q ↦ rw q refl
  | inr q ↦ rw q (elim (Bool-cases (d == c)) [
    | inl h ↦ rw h (starts_with_query s p (ap (λ b. b && starts_with p s) (sym h) ∙ e))
    | inr h ↦ rw h refl
  ])
]

strstr-before_query : (s : Text) → strstr s dots ≡ false → strstr (before_query s) dots ≡ false
strstr-before_query [] e = refl
strstr-before_query (c ∷ s) e =
    let (here, rest) = or_false (starts_with dots (c ∷ s)) (strstr s dots) e in
    let no_start = starts_with_query (c ∷ s) dots here in
    both (c == b'?') no_start (strstr-before_query s rest)
  where
    both :
        (q : Bool)
        → starts_with dots (if q then [] else c ∷ before_query s) ≡ false
        → strstr (before_query s) dots ≡ false
        → strstr (if q then [] else c ∷ before_query s) dots ≡ false
    both true h r = refl
    both false h r = rw (h, r) refl

-- Behind a slash, a text without `..` makes none.
strstr-append :
    (before : ℕ) (s t : Text)
    → strstr s dots ≡ false
    → (last_byte before s == b'/') ≡ true
    → strstr t dots ≡ false
    → strstr (s ++ t) dots ≡ false
strstr-append before [] t e l h = h
strstr-append before (c ∷ []) t e l h = rw (no_dot, h) refl
  where
    no_dot : (b'.' == c) ≡ false
    no_dot = ground arith
strstr-append before (c ∷ d ∷ s) t e l h =
    let (here, rest) = or_false (starts_with dots (c ∷ d ∷ s)) (strstr (d ∷ s) dots) e in
    rw (here, strstr-append before (d ∷ s) t rest l h) refl

-- `requestParseURI` makes the name of a file below ./public, without `..`, of any URI.
pub request_parse_uri-IsPublic :
    (before : ℕ) (old_cgiargs uri : Text)
    → IsPublic (request_parse_uri before old_cgiargs uri).filename
unfolding request_parse_uri
request_parse_uri-IsPublic before old uri = elim (Bool-cases (strstr uri (bytes ".."))) [
  | inl d ↦ rw (request_parse_uri, d) (home_html, refl, refl)
  | inr d ↦
      rw (request_parse_uri, d)
        (elim (Bool-cases (strstr uri (bytes "cgi"))) [
          | inl c ↦ rw c (before_query uri, refl, strstr-before_query uri d)
          | inr c ↦ rw c (elim (Bool-cases (last_byte before uri == b'/')) [
            | inl l ↦ rw l (uri ++ home_html, refl, strstr-append before uri home_html d l refl)
            | inr l ↦ rw l (uri, refl, d)
          ])
        ])
]
