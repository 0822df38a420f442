-- ===== src/Malloc/FirstFit/Apart.antt =====
-- The payload that `smalloc` of hw4/malloc_2.cpp returns, against the blocks in use.
use operations_systems.Base.{
  ℕ, ◌+◌, ◌≤◌, ◌<◌, ◌≡◌, ◌≢◌, refl, sym, ap, ◌∙◌, ◌⊎◌, inl, inr, Bool, true, false, Option, none,
  some, List, arith, length, get_elem?,
}
use operations_systems.Malloc.Words.{Ptr, null, word}
use operations_systems.Malloc.FirstFit.{Heap, size_of_metadata, smalloc}
use operations_systems.Malloc.FirstFit.Layout.{Block, block, address, fit, IsHeap}
use operations_systems.Malloc.FirstFit.Place.{
  place_found, FitsAt, fit-FitsAt, lt-length_of_get_elem?, address_apart, address_before_end,
}
use operations_systems.Malloc.FirstFit.Alloc.{smalloc-place}

-- Block `j` of `m` bytes, header and payload, ends before the header of the payload of `n` bytes at
-- `p`, or begins behind that payload.
abbrev pub Apart : Ptr → List Block → (j m : ℕ) → (p : Ptr) → (n : ℕ) → Type 0
Apart start bs j m p n =
    (address start bs j + size_of_metadata + m + size_of_metadata ≤ p)
    ⊎ (p + n ≤ address start bs j)

module _ (granted : Bool) (start : Ptr) (bs : List Block) (n j m : ℕ)
    (used : get_elem? bs j ≡ some (block m false)) where
  order : (k : ℕ) → j ≢ k → (j < k) ⊎ (k < j)
  order k ne = ground arith

  place_found-Apart :
      (o : Option ℕ)
      → FitsAt bs n o
      → (place_found o granted start bs n).0 ≢ null
      → Apart start bs j m (place_found o granted start bs n).0 n
  place_found-Apart none h ne = appended granted ne
    where
      appended :
          (g : Bool)
          → (place_found none g start bs n).0 ≢ null
          → Apart start bs j m (place_found none g start bs n).0 n
      appended true _ = inl (omega (arith, address_before_end start bs j m false used))
      appended false ne = absurd (ne refl)
  place_found-Apart (some k) (l, e, le) _ = elim (order k different) [
    | inl lt ↦
        inl (
          omega (arith, address_apart start bs j k m false used lt (lt-length_of_get_elem? bs k e)))
    | inr gt ↦
        inr
          (omega (arith, address_apart start bs k j l true e gt (lt-length_of_get_elem? bs j used)))
  ]
    where
      different : j ≢ k
      different q = cc

returned : Ptr → Option (Ptr × Heap) → Ptr
returned p none = p
returned p (some (q, h)) = q

-- A payload that a call of a valid size returns overlaps no block in use, neither its header nor its
-- payload.
pub smalloc-Apart :
    (granted : Bool) (fuel : ℕ) (h h' : Heap) (start : Ptr) (bs : List Block) (n : ℕ) (p : Ptr)
    → IsHeap h start bs
    → 0 < n
    → n ≤ 100000000
    → length bs < fuel
    → h.brk + n + size_of_metadata < word
    → smalloc granted fuel h n ≡ some (p, h')
    → p ≢ null
    → (j m : ℕ) → get_elem? bs j ≡ some (block m false)
    → Apart start bs j m p n
unfolding returned
smalloc-Apart granted fuel h h' start bs n p w pos_n small enough room run ne j m used =
    let (h1, run', _, _) = smalloc-place h start bs w n granted fuel pos_n small enough room in
    let q = ap (returned p) (sym run ∙ run') in
    rw q
      (place_found-Apart granted start bs n j m used (fit bs n) (fit-FitsAt bs n) (λ z. ne (q ∙ z)))
