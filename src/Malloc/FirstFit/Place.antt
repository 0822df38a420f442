-- ===== src/Malloc/FirstFit/Place.antt =====
-- What `smalloc` of hw4/malloc_2.cpp does to the blocks, whatever the representation.
use operations_systems.Base.{
  ℕ, zero, suc, ◌+◌, ◌≤◌, ◌<◌, ◌≡◌, ◌≢◌, refl, ap, ◌∙◌, inl, inr, Bool, true, false, Bool-cases,
  Option, none, some, List, [], ◌∷◌, ◌++◌, arith, length, get_elem?, leb, ◌&&◌,
}
use operations_systems.Malloc.Words.{Ptr, null}
use operations_systems.Malloc.FirstFit.{size_of_metadata}
use operations_systems.Malloc.FirstFit.Layout.{
  Block, block, behind, end, address, mark, fit, shift, le-address, le-end,
}

-- The payload address and the blocks: the first free block that fits, or a new one behind the last,
-- or nothing.
abbrev pub place_found :
    Option ℕ → (granted : Bool) → Ptr → List Block → (size : ℕ) → Ptr × List Block
place_found (some k) granted start bs n = (address start bs k + size_of_metadata, mark bs k false)
place_found none true start bs n = (end start bs + size_of_metadata, bs ++ block n false ∷ [])
place_found none false start bs n = (null, bs)

abbrev pub place : (granted : Bool) → Ptr → List Block → (size : ℕ) → Ptr × List Block
place granted start bs n = place_found (fit bs n) granted start bs n

-- A hit is a free block that is large enough.
abbrev pub FitsAt : List Block → ℕ → Option ℕ → Type 0
FitsAt bs n none = Unit {0}
FitsAt bs n (some k) = (m : ℕ) × (get_elem? bs k ≡ some (block m true)) × (n ≤ m)

FitsAt-shift :
    (b : Block) (bs : List Block) (n : ℕ) (o : Option ℕ)
    → FitsAt bs n o
    → FitsAt (b ∷ bs) n (shift o)
FitsAt-shift b bs n none h = tt
FitsAt-shift b bs n (some k) h = h

pub fit-FitsAt : (bs : List Block) (n : ℕ) → FitsAt bs n (fit bs n)
fit-FitsAt [] n = tt
fit-FitsAt (b ∷ bs) n = elim (Bool-cases (b.is_free && leb n b.size)) [
  | inl fits ↦ rw fits (b.size, ground arith, ground arith)
  | inr no_fit ↦ rw no_fit (FitsAt-shift b bs n (fit bs n) (fit-FitsAt bs n))
]

pub lt-length_of_get_elem? :
    (bs : List Block) (k : ℕ) {b : Block} → get_elem? bs k ≡ some b → k < length bs
lt-length_of_get_elem? [] k e = cc
lt-length_of_get_elem? (b ∷ bs) zero e = omega arith
lt-length_of_get_elem? (b ∷ bs) (suc k) e = omega (arith, lt-length_of_get_elem? bs k e)

get_elem?-mark_ne :
    (bs : List Block) (j k : ℕ) (f : Bool) → j ≢ k → get_elem? (mark bs k f) j ≡ get_elem? bs j
get_elem?-mark_ne [] j k f ne = refl
get_elem?-mark_ne (b ∷ bs) zero zero f ne = absurd (ne refl)
get_elem?-mark_ne (b ∷ bs) zero (suc k) f ne = refl
get_elem?-mark_ne (b ∷ bs) (suc j) zero f ne = refl
get_elem?-mark_ne (b ∷ bs) (suc j) (suc k) f ne = get_elem?-mark_ne bs j k f (λ e. ne (ap suc e))

get_elem?-append :
    (bs cs : List Block) (j : ℕ) → j < length bs → get_elem? (bs ++ cs) j ≡ get_elem? bs j
get_elem?-append [] cs j h = elim h [ ]
get_elem?-append (b ∷ bs) cs zero h = refl
get_elem?-append (b ∷ bs) cs (suc j) h = get_elem?-append bs cs j (omega arith)

address-mark :
    (a : Ptr) (bs : List Block) (j k : ℕ) (f : Bool) → address a (mark bs k f) j ≡ address a bs j
address-mark a [] j k f = refl
address-mark a (b ∷ bs) zero zero f = refl
address-mark a (b ∷ bs) zero (suc k) f = refl
address-mark a (b ∷ bs) (suc j) zero f = refl
address-mark a (b ∷ bs) (suc j) (suc k) f = address-mark (behind a b.size) bs j k f

address-append :
    (a : Ptr) (bs cs : List Block) (j : ℕ) → j < length bs → address a (bs ++ cs) j ≡ address a bs j
address-append a [] cs j h = elim h [ ]
address-append a (b ∷ bs) cs zero h = refl
address-append a (b ∷ bs) cs (suc j) h = address-append (behind a b.size) bs cs j (omega arith)

-- Placing leaves every block in use as it is and where it is.
module _ (granted : Bool) (start : Ptr) (bs : List Block) (n j m : ℕ)
    (used : get_elem? bs j ≡ some (block m false)) where
  abbrev Kept : List Block → Type 0
  Kept cs = (get_elem? cs j ≡ some (block m false)) × (address start cs j ≡ address start bs j)

  place_found-Kept : (o : Option ℕ) → FitsAt bs n o → Kept (place_found o granted start bs n).1
  place_found-Kept none h = placed granted
    where
      placed : (g : Bool) → Kept (place_found none g start bs n).1
      placed true = (
        get_elem?-append bs _ j (lt-length_of_get_elem? bs j used) ∙ used,
        address-append start bs _ j (lt-length_of_get_elem? bs j used),
      )
      placed false = (used, refl)
  place_found-Kept (some k) (l, e, le) =
      (get_elem?-mark_ne bs j k false ne ∙ used, address-mark start bs j k false)
    where
      ne : j ≢ k
      ne q = cc

  pub place-Kept : Kept (place granted start bs n).1
  place-Kept = place_found-Kept (fit bs n) (fit-FitsAt bs n)

-- The payloads of two blocks do not overlap.
pub address_apart :
    (a : Ptr) (bs : List Block) (j k m : ℕ) (f : Bool)
    → get_elem? bs j ≡ some (block m f)
    → j < k
    → k < length bs
    → address a bs j + size_of_metadata + m ≤ address a bs k
address_apart a [] j k m f e h l = cc
address_apart a (b ∷ bs) j zero m f e h l = absurd (omega arith)
address_apart a (b ∷ bs) zero (suc k) m f e h l = ground (arith, le-address (behind a b.size) bs k)
address_apart a (b ∷ bs) (suc j) (suc k) m f e h l =
    address_apart (behind a b.size) bs j k m f e (omega arith) (omega arith)

pub address_before_end :
    (a : Ptr) (bs : List Block) (j m : ℕ) (f : Bool)
    → get_elem? bs j ≡ some (block m f)
    → address a bs j + size_of_metadata + m ≤ end a bs
address_before_end a [] j m f e = cc
address_before_end a (b ∷ bs) zero m f e = ground (arith, le-end (behind a b.size) bs)
address_before_end a (b ∷ bs) (suc j) m f e = address_before_end (behind a b.size) bs j m f e
