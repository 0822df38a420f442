-- ===== src/Shell/Text.antt =====
-- hw1/Commands.cpp: the functions that read a command line, on lists of bytes. A byte is never zero.
pub mod Trim
pub mod Words
pub mod Background
pub mod Contains
mod Tests
use operations_systems.Base.{
  ℕ, zero, suc, ◌+◌, ◌-◌, ◌*◌, Bool, true, false, not, ◌&&◌, ◌||◌, Option, none, some, List, [],
  ◌∷◌, ◌++◌, length, get_elem?, leb, ltb, ◌==◌, if◌then◌else◌,
}
use operations_systems.Base.Int.{ℤ, pos, negsuc}

abbrev pub Text : Type 0
Text = List ℕ

-- `WHITESPACE`, which is also what `isspace` knows.
abbrev pub is_space : ℕ → Bool
is_space c = c == b' ' || c == b'\n' || c == b'\r' || c == b'\t' || c == 12 || c == 11

abbrev pub not_space : ℕ → Bool
not_space c = not (is_space c)

abbrev pub is_not : ℕ → ℕ → Bool
is_not d c = not (c == d)

abbrev pub is_byte : ℕ → ℕ → Bool
is_byte d c = c == d

abbrev pub take : ℕ → Text → Text
take zero s = []
take (suc n) [] = []
take (suc n) (c ∷ s) = c ∷ take n s

abbrev pub drop : ℕ → Text → Text
drop zero s = s
drop (suc n) [] = []
drop (suc n) (c ∷ s) = drop n s

abbrev pub after : Option ℕ → Option ℕ
after none = none
after (some i) = some (suc i)

-- The index of the first and of the last byte that passes a test; `none` is `npos`.
abbrev pub find_first : (ℕ → Bool) → Text → Option ℕ
find_first p [] = none
find_first p (c ∷ s) = if p c then some 0 else after (find_first p s)

abbrev pub or_here : (here : Bool) → Option ℕ → Option ℕ
or_here here (some i) = some (suc i)
or_here here none = if here then some 0 else none

abbrev pub find_last : (ℕ → Bool) → Text → Option ℕ
find_last p [] = none
find_last p (c ∷ s) = or_here (p c) (find_last p s)

-- `find(...) != npos`.
abbrev pub contains : (ℕ → Bool) → Text → Bool
contains p [] = false
contains p (c ∷ s) = if p c then true else contains p s

abbrev pub from_index : Text → Option ℕ → Text
from_index s none = []
from_index s (some start) = drop start s

abbrev pub up_to_index : Text → Option ℕ → Text
up_to_index s none = []
up_to_index s (some end) = take (suc end) s

pub ltrim : Text → Text
ltrim s = from_index s (find_first not_space s)

pub rtrim : Text → Text
rtrim s = up_to_index s (find_last not_space s)

pub trim : Text → Text
trim s = rtrim (ltrim s)

abbrev pub starts_word : Text → Bool
starts_word [] = false
starts_word (c ∷ s) = not_space c

abbrev pub add_to_first : ℕ → List Text → List Text
add_to_first c [] = (c ∷ []) ∷ []
add_to_first c (w ∷ ws) = (c ∷ w) ∷ ws

-- What `iss >> s` reads, one after the other.
abbrev pub words : Text → List Text
words [] = []
words (c ∷ s) =
    if is_space c
    then words s
    else if starts_word s
    then add_to_first c (words s)
    else (c ∷ []) ∷ words s

abbrev pub command_max_args : ℕ
command_max_args = 20

-- The arguments; `none` where the closing NULL is written past the end of `args`.
pub parse_command_line : Text → Option (List Text)
parse_command_line line =
    let args = words (trim line) in if ltb (length args) command_max_args then some args else none

-- `none` where `str[npos]` is read.
pub is_background_command : Text → Option Bool
is_background_command line = elim (find_last not_space line) [
  | none ↦ none
  | some i ↦ elim (get_elem? line i) [ none ↦ none | some c ↦ some (c == b'&') ]
]

-- Where a byte is, with another in its place.
abbrev pub set_byte : Text → ℕ → ℕ → Text
set_byte [] i d = []
set_byte (c ∷ s) zero d = d ∷ s
set_byte (c ∷ s) (suc i) d = c ∷ set_byte s i d

-- The index of the last byte that passes a test, at the index `i` or before.
abbrev pub find_last_to : (ℕ → Bool) → Text → ℕ → Option ℕ
find_last_to p s i = find_last p (take (suc i) s)

-- `idx` has 32 bits, so it never equals `npos`: a line of spaces is read far out of bounds, `none`.
pub remove_background_sign : Text → Option Text
remove_background_sign line = elim (find_last not_space line) [
  | none ↦ none
  | some idx ↦ elim (get_elem? line idx) [
    | none ↦ none
    | some c ↦
        if c == b'&'
        then some (up_to_index (set_byte line idx b' ') (find_last_to not_space line idx))
        else some line
  ]
]

abbrev pub is_digit : ℕ → Bool
is_digit c = leb b'0' c && leb c b'9'

pub is_digits : Text → Bool
is_digits s = elim (find_first (λ c. not (is_digit c || c == b'-')) s) [
  | none ↦ true
  | some _ ↦ false
]

-- `atoi`, for numbers that an `int` holds.
abbrev pub digits : ℕ → Text → ℕ
digits n [] = n
digits n (c ∷ s) = let rest = digits (10 * n + (c - b'0')) s in if is_digit c then rest else n

abbrev pub negate : ℕ → ℤ
negate zero = pos 0
negate (suc n) = negsuc n

abbrev pub signed : Text → ℤ
signed [] = pos 0
signed (c ∷ s) =
    if c == b'-'
    then negate (digits 0 s)
    else if c == b'+'
    then pos (digits 0 s)
    else pos (digits 0 (c ∷ s))

pub atoi : Text → ℤ
unfolding ltrim
atoi s = signed (ltrim s)
