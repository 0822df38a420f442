-- ===== src/Malloc/FirstFit/Resize.antt =====
-- `srealloc` of hw4/malloc_2.cpp.
use operations_systems.Base.{
  ℕ, ◌+◌, ◌-◌, ◌≤◌, ◌<◌, ◌≡◌, ◌≢◌, refl, sym, ap, ◌∙◌, ◌⊎◌, inl, inr, Bool, true, false, Bool-cases,
  Option, some, List, arith, length, get_elem?, leb, ltb, ◌==◌, ◌&&◌, ◌||◌, if◌then◌else◌,
}
use operations_systems.Malloc.Words.{Ptr, null, word, memmove}
use operations_systems.Malloc.FirstFit.{Heap, size_of_metadata, smalloc, move_to, srealloc}
use operations_systems.Malloc.FirstFit.Layout.{Block, block, address, mark, IsHeap, header_at}
use operations_systems.Malloc.FirstFit.Place.{place, place-Kept}
use operations_systems.Malloc.FirstFit.Alloc.{smalloc-place}
use operations_systems.Malloc.FirstFit.Release.{sfree_bytes, sfree-IsHeap, IsHeap-bytes}

abbrev pub moved : ℕ → Ptr × List Block → Ptr × List Block
moved k r = if r.0 == null then r else (r.0, mark r.1 k true)

-- The payload address and the blocks behind `srealloc` to `n` bytes of block `k`, of `m` bytes: the
-- block itself where it is large enough, or else a placed block, and block `k` is free.
abbrev pub resize : (granted : Bool) → Ptr → List Block → (k m n : ℕ) → Ptr × List Block
resize granted start bs k m n =
    if leb n m
    then (address start bs k + size_of_metadata, bs)
    else moved k (place granted start bs n)

-- A run that returns `r.0`, leaves a heap of the blocks `r.1`, and has the old block's bytes at `r.0`
-- and all other bytes as they were; every byte is as it was where `r.0` is NULL.
abbrev pub Resized :
    Option (Ptr × Heap) → Heap → (start old : Ptr) → (m : ℕ) → Ptr × List Block → Type 0
Resized o h start old m r =
    (h' : Heap) × (o ≡ some (r.0, h'))
    × IsHeap h' start r.1
    × (r.0 ≢ null → (i : ℕ) → i < m → h'.bytes (r.0 + i) ≡ h.bytes (old + i))
    × ((a : ℕ) → (r.0 ≡ null) ⊎ ((a < r.0) ⊎ (r.0 + m ≤ a)) → h'.bytes a ≡ h.bytes a)

module _ (granted : Bool) (fuel : ℕ) (h : Heap) (old n : ℕ)
    (valid : (n == 0 || ltb 100000000 n) ≡ false) (not_null : (old == null) ≡ false) where
  stays :
      leb n (h.cells (old - size_of_metadata)).size ≡ true
      → srealloc granted fuel h old n ≡ some (old, h)
  unfolding srealloc
  stays fits = rw (srealloc, valid, not_null, fits) refl

  module _ (grows : leb n (h.cells (old - size_of_metadata)).size ≡ false) (h' : Heap) (p : Ptr)
      (run : smalloc granted fuel h n ≡ some (p, h')) where
    fails : (p == null) ≡ true → srealloc granted fuel h old n ≡ some (null, h')
    unfolding srealloc
    fails z = rw (srealloc, valid, not_null, grows, run, z) refl

    moves :
        (p == null) ≡ false
        → srealloc granted fuel h old n
          ≡ some (p, move_to h' old p (h'.cells (old - size_of_metadata)).size)
    unfolding srealloc
    moves z = rw (srealloc, valid, not_null, grows, run, z) refl

-- Copying the old payload to `p` and freeing the old block.
module _ (h : Heap) (start : Ptr) (cs : List Block) (w : IsHeap h start cs) (k m : ℕ)
    (e : get_elem? cs k ≡ some (block m false)) (a p : Ptr) (q : address start cs k ≡ a) where
  abbrev from : Ptr
  from = a + size_of_metadata

  move_to-mark : IsHeap (move_to h from p m) start (mark cs k true)
  move_to-mark = rw (← q) (sfree-IsHeap _ start cs (IsHeap-bytes h start cs _ w) k m false e)

  move_to_bytes : (x : ℕ) → (move_to h from p m).bytes x ≡ memmove h.bytes p from m x
  move_to_bytes x i = sfree_bytes (record h { bytes = memmove h.bytes p from m }) from i x

memmove_inside : (bytes : ℕ → ℕ) (p q m i : ℕ) → i < m → memmove bytes p q m (p + i) ≡ bytes (q + i)
memmove_inside bytes p q m i lt = rw (inside) (ap bytes (omega arith))
  where
    inside : (leb p (p + i) && ltb (p + i) (p + m)) ≡ true
    inside = ground arith

memmove_outside :
    (bytes : ℕ → ℕ) (p q m a : ℕ) → (a < p) ⊎ (p + m ≤ a) → memmove bytes p q m a ≡ bytes a
memmove_outside bytes p q m a out = rw (outside) refl
  where
    outside : (leb p a && ltb a (p + m)) ≡ false
    outside = ground arith

module _ (granted : Bool) (fuel : ℕ) (h : Heap) (start : Ptr) (bs : List Block) (k m n : ℕ)
    (w : IsHeap h start bs) (used : get_elem? bs k ≡ some (block m false)) (pos_n : 0 < n)
    (small : n ≤ 100000000) (enough : length bs < fuel)
    (room : h.brk + n + size_of_metadata < word) where
  abbrev old : Ptr
  old = address start bs k + size_of_metadata

  valid : (n == 0 || ltb 100000000 n) ≡ false
  valid = ground arith

  not_null : (old == null) ≡ false
  not_null = ground arith

  header_of : old - size_of_metadata ≡ address start bs k
  header_of = omega arith

  size_of :
      (h' : Heap) (cs : List Block)
      → IsHeap h' start cs
      → get_elem? cs k ≡ some (block m false)
      → address start cs k ≡ address start bs k
      → (h'.cells (old - size_of_metadata)).size ≡ m
  size_of h' cs w' e q =
      ap (λ a. (h'.cells a).size) (header_of ∙ sym q)
      ∙ (header_at h'.cells start null cs k (block m false) w'.linked e).0

  not_in_place : leb n m ≡ false → leb n (h.cells (old - size_of_metadata)).size ≡ false
  not_in_place grows = ap (leb n) (size_of h bs w used refl) ∙ grows

  is_null : (a : Ptr) → (a == null) ≡ true → null ≡ a
  is_null a z = ground arith

  elsewhere : (a : Ptr) → (a == null) ≡ false → (Q : Type 0) → (a ≡ null) ⊎ Q → Q
  elsewhere a z Q (inl e) = absurd (ground arith)
  elsewhere a z Q (inr q) = q

  -- `srealloc` to a valid size of a block in use: the block itself where it is large enough, and the
  -- blocks and every byte are as they were; or else a block placed like `smalloc` does, with the old
  -- bytes, the old block free and every byte elsewhere as it was. Where nothing can be placed it
  -- returns NULL, and the blocks and every byte are as they were.
  pub srealloc-resize :
      Resized (srealloc granted fuel h old n) h start old m (resize granted start bs k m n)
  srealloc-resize = elim (Bool-cases (leb n m)) [
    | inl fits ↦ rw fits (
      h,
      stays granted fuel h old n valid not_null (ap (leb n) (size_of h bs w used refl) ∙ fits),
      w,
      λ _ i _. refl,
      λ a _. refl,
    )
    | inr grows ↦ rw grows (
        let (h', run, w', same) =
          smalloc-place h start bs w n granted fuel pos_n small enough room in
        let kept = place-Kept granted start bs n k m used in
        elim (Bool-cases ((place granted start bs n).0 == null)) [
          | inl z ↦ rw z (
            h',
            fails granted fuel h old n valid not_null (not_in_place grows) h' _ run z ∙ λ i.
                some (is_null _ z i, h'),
            w',
            λ ne. absurd (ne (sym (is_null _ z))),
            λ a _ i. same i a,
          )
          | inr z ↦ rw z (
            move_to h' old (place granted start bs n).0 m,
            moves granted fuel h old n valid not_null (not_in_place grows) h' _ run z ∙ λ i. some (
              (place granted start bs n).0,
              move_to h' old (place granted start bs n).0 (size_of h' _ w' kept.0 kept.1 i),
            ),
            move_to-mark h' start _ w' k m kept.0 _ _ kept.1,
            λ _ i lt.
                move_to_bytes h' start _ w' k m kept.0 _ _ kept.1 _
                ∙ memmove_inside h'.bytes _ old m i lt
                ∙ λ j. same j (old + i),
            λ a out.
                move_to_bytes h' start _ w' k m kept.0 _ _ kept.1 a
                ∙ memmove_outside h'.bytes _ old m a (elsewhere _ z _ out)
                ∙ λ j. same j a,
          )
        ])
  ]
