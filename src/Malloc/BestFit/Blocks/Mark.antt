-- ===== src/Malloc/BestFit/Blocks/Mark.antt =====
-- The flags that `sfree` of hw4/malloc_3.cpp writes, on a heap of blocks.
use operations_systems.Base.{◌+◌, ℕ, ◌≡◌, refl, sym, ◌∙◌, Bool, List, [], ◌∷◌, ◌++◌, arith, All}
use mathlib.Core.List.{Permᴰ}
use mathlib.Core.List.Permᴰ
use mathlib.Core.Path.{subst}
use operations_systems.Base.Int.{ℤ}
use operations_systems.Malloc.Words.{Ptr, null}
use operations_systems.Malloc.BestFit.Memory.{set_is_free, size_at, size_of_metadata, Memory, Heap}
use operations_systems.Malloc.BestFit.BlockList.Chain.{Apart, SameLinks, Chain, Chain-same}
use operations_systems.Malloc.BestFit.BlockList.Order.{Ascending-same, first}
use operations_systems.Malloc.BestFit.BlockList.Members.{All-perm}
use operations_systems.Malloc.BestFit.BlockList.Steps.{SameTag, SameTags}
use operations_systems.Malloc.BestFit.Tiles.{
  Block, block, footer, behind, Tile, headers, end, last_header, Outside, Shape,
}
use operations_systems.Malloc.BestFit.Tiles.Layout.{headers-append, Tiles-split}
use operations_systems.Malloc.BestFit.Tiles.Replace.{replaced, outer_headers, last_header-append}

-- Header and footer of the block at `p` get the flag `u`.
abbrev pub flagged : Bool → Memory → (p : Ptr) → Memory
flagged u m p =
    let marked = set_is_free m p u in set_is_free marked (p + size_of_metadata + size_at marked p) u

module _ (u : Bool) (m : Memory) (p n : ℕ) (size_n : m p ≡ n) where
  marked-Tile : m (footer p n) ≡ n → Tile (flagged u m p) p (block n u)
  marked-Tile e = record {
    header_size = ground (arith, size_n);
    header_free = ground (arith, size_n);
    footer_size = ground (arith, size_n, e);
    footer_free = ground (arith, size_n);
  }

  marked-SameTag : (t : Ptr) → Outside p n t → SameTag m (flagged u m p) t
  marked-SameTag t o = (ground (arith, size_n), ground (arith, size_n))

  marked-SameTags : (ys : List Ptr) → All (Outside p n) ys → SameTags m (flagged u m p) ys
  marked-SameTags [] o = tt
  marked-SameTags (y ∷ ys) (o, os) = (marked-SameTag y o, marked-SameTags ys os)

  -- Neither the block's own links and size nor those of a block apart.
  marked-links :
      (ys : List Ptr)
      → All (Apart p) ys
      → All (Apart (footer p n)) ys
      → All (SameLinks m (flagged u m p)) ys × All (λ y. flagged u m p y ≡ m y) ys
  marked-links [] a b = (tt, tt)
  marked-links (y ∷ ys) (a, r) (b, s) =
      let (links, sizes) = marked-links ys r s in
      (((ground (arith, size_n), ground (arith, size_n)), links), (ground (arith, size_n), sizes))

  marked_self : SameLinks m (flagged u m p) p × (flagged u m p p ≡ m p)
  marked_self = ((ground (arith, size_n), ground (arith, size_n)), ground (arith, size_n))

-- The block of `n` bytes between `pre` and `post` is marked free or in use.
module _ (h : Heap) (pre post : List Block) (n : ℕ) (f u : Bool) (xs : List Ptr)
    (shape : Shape h (pre ++ (block n f ∷ post)) xs) where
  abbrev p : Ptr
  p = end h.sbrk_start pre

  abbrev rest : List Ptr
  rest = headers h.sbrk_start pre ++ headers (behind p n) post

  abbrev marked : Memory
  marked = flagged u h.memory p

  tile : Tile h.memory p (block n f)
  tile = (Tiles-split h.memory h.brk (block n f ∷ post) h.sbrk_start pre shape.tiles).1.0

  perm : Permᴰ xs (p ∷ rest)
  perm = Permᴰ.trans shape.members (
      rw (headers-append h.sbrk_start pre (block n f ∷ post))
        (Permᴰ.middle p (headers h.sbrk_start pre) (headers (behind p n) post)))

  kept : All (SameLinks h.memory marked) xs × All (λ y. marked y ≡ h.memory y) xs
  kept =
      let self = marked_self u h.memory p n tile.header_size in
      let (links, sizes) =
        marked-links u h.memory p n tile.header_size rest
          (outer_headers h.sbrk_start (behind p n) p pre post (omega arith) (omega arith))
          (outer_headers h.sbrk_start (behind p n) (footer p n) pre post (omega arith)
            (omega arith)) in
      (
        All-perm (SameLinks h.memory marked) (Permᴰ.symm perm) (self.0, links),
        All-perm (λ y. marked y ≡ h.memory y) (Permᴰ.symm perm) (self.1, sizes),
      )

  head_first : (ys : List Ptr) → Chain h.memory null h.head ys → first ys ≡ h.head
  head_first [] c = sym c
  head_first (y ∷ ys) (k, c) = sym k.here

  wilderness_same :
      (ds : List Block)
      → h.wilderness ≡ last_header h.sbrk_start (pre ++ (block n f ∷ ds))
      → h.wilderness ≡ last_header p (block n u ∷ ds)
  wilderness_same [] w = w ∙ last_header-append h.sbrk_start pre (block n f) []
  wilderness_same (d ∷ ds) w = w ∙ last_header-append h.sbrk_start pre (block n f) (d ∷ ds)

  pub flagged-Shape : Shape (record h { memory = marked }) (pre ++ (block n u ∷ post)) xs
  flagged-Shape =
      subst
        (λ (hd : Ptr).
          Shape (record h { memory = marked; head = hd }) (pre ++ (block n u ∷ post)) xs)
        (head_first xs shape.listed.linked.chain)
        (subst
          (λ (sz : ℤ).
            Shape (record h { memory = marked; head = first xs; size = sz })
              (pre ++ (block n u ∷ post)) xs)
          (sym shape.listed.linked.size_length)
          (replaced h pre (block n f ∷ []) post xs shape marked xs n u h.wilderness h.statistics
            (marked-Tile u h.memory p n tile.header_size tile.footer_size) refl
            (λ ys o w. marked-SameTags u h.memory p n tile.header_size ys o)
            (record {
              linked = record {
                chain = Chain-same h.memory marked _ _ xs kept.0 (
                    subst (λ (a : Ptr). Chain h.memory null a xs)
                      (sym (head_first xs shape.listed.linked.chain)) shape.listed.linked.chain);
                spread = shape.listed.linked.spread;
                size_length = refl;
              };
              ascending = Ascending-same h.memory marked xs kept.1 shape.listed.ascending;
            })
            perm (wilderness_same post shape.wilderness_last)))
