-- ===== src/Malloc/BestFit/Calls/Place.antt =====
-- How `smalloc` of hw4/malloc_3.cpp makes a block of the last one or behind it.
use operations_systems.Base.{
  ℕ, ◌+◌, ◌≤◌, ◌<◌, ◌≡◌, refl, sym, ap, ◌∙◌, inr, Bool, true, false, not, List, [], ◌∷◌, ◌++◌,
  arith, All, length, ◌==◌,
}
use mathlib.Core.List.{Permᴰ}
use mathlib.Core.List.Permᴰ
use mathlib.Core.Path.{subst}
use operations_systems.Base.Int.{ℤ, pos}
use operations_systems.Malloc.Words.{Ptr, word, memmove}
use operations_systems.Malloc.BestFit.Memory.{
  Memory, Heap, Statistics, done, size_of_metadata, copy_footer, is_free_at,
}
use operations_systems.Malloc.BestFit.BlockList.Chain.{Apart, SameLinks, Chain-same}
use operations_systems.Malloc.BestFit.BlockList.Order.{IsList, Ascending-same, first}
use operations_systems.Malloc.BestFit.BlockList.Erase.{has}
use operations_systems.Malloc.BestFit.BlockList.Members.{All-perm, All-member, All-members}
use operations_systems.Malloc.BestFit.BlockList.Steps.{
  SameTag, SameTags, SameTags-trans, Within, add_step,
}
use operations_systems.Malloc.BestFit.Tiles.{
  Block, block, footer, behind, Tile, headers, structs, end, Shape,
}
use operations_systems.Malloc.BestFit.Tiles.Layout.{
  structs-Spread, structs-below, structs-append, headers-Within, le-end,
}
use operations_systems.Malloc.BestFit.Tiles.Replace.{extended, Within-left, Within-right}
use operations_systems.Malloc.BestFit.Blocks.Reinsert.{copied-SameTag, copied-Tile, copied-IsList}
use operations_systems.Malloc.BestFit.Calls.{header_in_use, place}

-- A header written at `p` changes no struct apart.
module _ (m : Memory) (p n : ℕ) where
  header-SameTag : (x : Ptr) → Apart p x → SameTag m (header_in_use m p n) x
  header-SameTag x a = (ground arith, ground arith)

  header-kept :
      (xs : List Ptr)
      → All (Apart p) xs
      → All (SameLinks m (header_in_use m p n)) xs × All (λ x. header_in_use m p n x ≡ m x) xs
  header-kept [] a = (tt, tt)
  header-kept (x ∷ xs) (a, r) =
      let (links, sizes) = header-kept xs r in
      (((ground arith, ground arith), links), (ground arith, sizes))

  header_size : header_in_use m p n p ≡ n
  header_size = ground arith

  header_free : is_free_at (header_in_use m p n) p ≡ false
  header_free = ground arith

pub header-IsList :
    (h : Heap) (p n : ℕ) (xs : List Ptr)
    → IsList h xs
    → All (Apart p) xs
    → IsList (record h { memory = header_in_use h.memory p n }) xs
header-IsList h p n xs is a =
    let (links, sizes) = header-kept h.memory p n xs a in
    record {
      linked = record {
        chain = Chain-same h.memory (header_in_use h.memory p n) _ _ xs links is.linked.chain;
        spread = is.linked.spread;
        size_length = is.linked.size_length;
      };
      ascending = Ascending-same h.memory (header_in_use h.memory p n) xs sizes is.ascending;
    }

header-SameTags :
    (m : Memory) (p n : ℕ) (xs : List Ptr) → All (Apart p) xs → SameTags m (header_in_use m p n) xs
header-SameTags m p n [] a = tt
header-SameTags m p n (x ∷ xs) (a, r) = (header-SameTag m p n x a, header-SameTags m p n xs r)

copied-SameTags :
    (m : Memory) (p : Ptr) (xs : List Ptr)
    → All (Apart (footer p (m p))) xs
    → SameTags m (copy_footer m p) xs
copied-SameTags m p [] a = tt
copied-SameTags m p (x ∷ xs) (a, r) = ((copied-SameTag m p x a).0, copied-SameTags m p xs r)

Apart-behind : (p q : Ptr) (xs : List Ptr) → p ≤ q → All (λ t. t + 32 ≤ p) xs → All (Apart q) xs
Apart-behind p q [] l b = tt
Apart-behind p q (x ∷ xs) l (b, r) = (inr (omega arith), Apart-behind p q xs l r)

-- The heap `h` held the blocks `pre` and, behind them, `old`, which is no more in the list `ys`. The break
-- has moved.
module _ (h : Heap) (pre old : List Block) (xs : List Ptr) (shape : Shape h (pre ++ old) xs)
    (n : ℕ) where
  abbrev p : Ptr
  p = end h.sbrk_start pre

  abbrev ts : List Ptr
  ts = structs h.sbrk_start (pre ++ (block n false ∷ []))

  abbrev pub moved : Memory → (head : Ptr) → (size : ℤ) → Statistics → Heap
  moved m head size st = record h {
    memory = m;
    head = head;
    size = size;
    wilderness = p;
    brk = behind p n;
    statistics = st;
  }

  parts : ts ≡ structs h.sbrk_start pre ++ (p ∷ (footer p n ∷ []))
  parts = structs-append h.sbrk_start pre (block n false ∷ [])

  below : All (λ t. t + 32 ≤ p) (structs h.sbrk_start pre)
  below = structs-below h.sbrk_start p pre (omega arith)

  apart : (q : Ptr) → p ≤ q → All (Apart q) (structs h.sbrk_start pre)
  apart q l = Apart-behind p q (structs h.sbrk_start pre) l below

  headers-Apart : (q : Ptr) → p ≤ q → All (Apart q) (headers h.sbrk_start pre)
  headers-Apart q l =
      All-members (Apart q) (headers h.sbrk_start pre) (structs h.sbrk_start pre) (apart q l)
        (headers-Within h.sbrk_start pre)

  p_struct : has p ts ≡ true
  p_struct = rw parts (Within-right (structs h.sbrk_start pre) (p ∷ (footer p n ∷ []))).0

  pre_Within : Within ts (structs h.sbrk_start pre)
  pre_Within = rw parts (Within-left (structs h.sbrk_start pre) (p ∷ (footer p n ∷ [])))

  headers_in : Within ts (headers h.sbrk_start pre)
  headers_in =
      All-members (λ x. has x ts ≡ true) (headers h.sbrk_start pre) (structs h.sbrk_start pre)
        pre_Within (headers-Within h.sbrk_start pre)

  pub place-Shape :
      (fuel : ℕ) (m : Memory) (head : Ptr) (size : ℤ) (st : Statistics) (ys : List Ptr)
      → IsList (moved m head size st) ys
      → Permᴰ ys (headers h.sbrk_start pre)
      → SameTags h.memory m (structs h.sbrk_start pre)
      → behind p n < word
      → length ys ≤ fuel
      → (m' : Memory) × (zs : List Ptr) × (place fuel (moved m head size st) n p
          ≡ done (p + size_of_metadata, moved m' (first zs) (pos (length zs)) st))
        × Shape (moved m' (first zs) (pos (length zs)) st) (pre ++ (block n false ∷ [])) zs
  unfolding place
  place-Shape fuel m head size st ys is perm same small enough =
      let ys_apart = All-perm (Apart p) (Permᴰ.symm perm) (headers-Apart p (omega arith)) in
      let listed = header-IsList (moved m head size st) p n ys is ys_apart in
      let (m3, zs, run, added, perm', s3) =
        add_step ts (structs-Spread h.sbrk_start (pre ++ (block n false ∷ []))) fuel
          (moved (header_in_use m p n) head size st) p ys (headers h.sbrk_start pre) listed perm
          ys_apart (omega (arith, shape.start_pos, le-end h.sbrk_start pre))
          (p_struct, All-perm (λ x. has x ts ≡ true) (Permᴰ.symm perm) headers_in) enough in
      let (at_size, at_free) = All-member (SameTag (header_in_use m p n) m3) p ts s3 p_struct in
      let size_n = at_size ∙ header_size m p n in
      let footer_apart =
        All-perm (Apart (footer p n)) (Permᴰ.symm perm')
          (inr (omega arith), headers-Apart (footer p n) (omega arith)) in
      let copied =
        copied-IsList p n (moved m3 (first zs) (pos (length zs)) st) zs added footer_apart size_n in
      let tile =
        subst (λ (f : Bool). Tile (copy_footer m3 p) p (block n f))
          (ap (λ (f : ℕ). not (f == 0)) at_free ∙ header_free m p n) (copied-Tile m3 p n size_n) in
      let kept = SameTags-trans h.memory m (copy_footer m3 p) (structs h.sbrk_start pre) same (
        SameTags-trans m (header_in_use m p n) (copy_footer m3 p) (structs h.sbrk_start pre)
          (header-SameTags m p n (structs h.sbrk_start pre) (apart p (omega arith)))
          (SameTags-trans (header_in_use m p n) m3 (copy_footer m3 p) (structs h.sbrk_start pre)
            (All-members (SameTag (header_in_use m p n) m3) (structs h.sbrk_start pre) ts s3
              pre_Within)
            (copied-SameTags m3 p (structs h.sbrk_start pre)
              (rw size_n (apart (footer p n) (omega arith)))))) in
      (
        copy_footer m3 p,
        zs,
        rw run (
            ap
              (λ (z : ℕ). done (
                p + size_of_metadata,
                moved (memmove m3 (p + z + size_of_metadata) p size_of_metadata) (first zs)
                    (pos (length zs)) st,
              ))
              (sym size_n)),
        extended h pre old xs shape (copy_footer m3 p) zs n false st tile small kept
            (record {
              linked = record {
                chain = copied.linked.chain;
                spread = copied.linked.spread;
                size_length = refl;
              };
              ascending = copied.ascending;
            })
            perm',
      )
