-- ===== src/Malloc/BestFit/Tiles.antt =====
-- The heap of hw4/malloc_3.cpp as a row of blocks, each with a header and a footer.
pub mod Layout
pub mod Replace
pub mod Coalesce
use operations_systems.Base.{
  ℕ, ◌+◌, ◌*◌, ◌%◌, ◌<◌, ◌≤◌, ◌≡◌, ◌⊎◌, Bool, List, [], ◌∷◌, length, if◌then◌else◌,
}
use mathlib.Core.List.{Permᴰ}
use operations_systems.Malloc.Words.{Ptr, null, word}
use operations_systems.Malloc.BestFit.Memory.{
  Memory, size_at, is_free_at, size_of_metadata, tags, Statistics, Heap,
}
use operations_systems.Malloc.BestFit.BlockList.Order.{IsList}

pub record Block : Type 0 where
  pub size : ℕ
  pub is_free : Bool

abbrev pub block : ℕ → Bool → Block
block n f = record { size = n; is_free = f }

-- Where the footer of a block of `n` bytes is, and where the next block begins.
abbrev pub footer : Ptr → ℕ → Ptr
footer p n = p + n + size_of_metadata

abbrev pub behind : Ptr → ℕ → Ptr
behind p n = p + n + tags

-- Header and footer at `p` describe the block.
pub record Tile (m : Memory) (p : Ptr) (b : Block) : Type 0 where
  pub header_size : size_at m p ≡ b.size
  pub header_free : is_free_at m p ≡ b.is_free
  pub footer_size : size_at m (footer p b.size) ≡ b.size
  pub footer_free : is_free_at m (footer p b.size) ≡ b.is_free

-- The blocks fill the addresses from `p` to `e`.
abbrev pub Tiles : Memory → (p : Ptr) → List Block → (e : Ptr) → Type 0
Tiles m p [] e = p ≡ e
Tiles m p (b ∷ bs) e = Tile m p b × Tiles m (behind p b.size) bs e

-- The headers, and all headers and footers.
abbrev pub headers : Ptr → List Block → List Ptr
headers p [] = []
headers p (b ∷ bs) = p ∷ headers (behind p b.size) bs

abbrev pub structs : Ptr → List Block → List Ptr
structs p [] = []
structs p (b ∷ bs) = p ∷ (footer p b.size ∷ structs (behind p b.size) bs)

abbrev pub end : Ptr → List Block → Ptr
end p [] = p
end p (b ∷ bs) = end (behind p b.size) bs

-- The last header, or NULL.
abbrev pub last_header : Ptr → List Block → Ptr
last_header p [] = null
last_header p (b ∷ []) = p
last_header p (b ∷ (c ∷ bs)) = last_header (behind p b.size) (c ∷ bs)

-- A struct that neither overlaps the block at `p` of `v` bytes nor its footer.
abbrev pub Outside : (p v : ℕ) → Ptr → Type 0
Outside p v t = (t + 32 ≤ p) ⊎ (p + v + 64 ≤ t)

abbrev pub free_count : List Block → ℕ
free_count [] = 0
free_count (b ∷ bs) = (if b.is_free then 1 else 0) + free_count bs

abbrev pub bytes_of : List Block → ℕ
bytes_of [] = 0
bytes_of (b ∷ bs) = b.size + bytes_of bs

abbrev pub free_bytes_of : List Block → ℕ
free_bytes_of [] = 0
free_bytes_of (b ∷ bs) = (if b.is_free then b.size else 0) + free_bytes_of bs

-- The counters are the sums over the blocks, modulo 2^64.
pub record IsCounted (s : Statistics) (bs : List Block) : Type 0 where
  pub blocks : s.allocated_blocks ≡ length bs % word
  pub frees : s.free_blocks ≡ free_count bs % word
  pub bytes : s.allocated_bytes ≡ bytes_of bs % word
  pub free_bytes : s.free_bytes ≡ free_bytes_of bs % word
  pub metadata : s.metadata_bytes ≡ (tags * length bs) % word

-- The blocks `bs` fill the heap from its start to the break, `xs` lists them by size, and the wilderness
-- is the last.
pub record Shape (h : Heap) (bs : List Block) (xs : List Ptr) : Type 0 where
  pub start_pos : 0 < h.sbrk_start
  pub small : h.brk < word
  pub tiles : Tiles h.memory h.sbrk_start bs h.brk
  pub listed : IsList h xs
  pub members : Permᴰ xs (headers h.sbrk_start bs)
  pub wilderness_last : h.wilderness ≡ last_header h.sbrk_start bs

-- The heap holds the blocks, and the counters count them.
pub record Holds (h : Heap) (bs : List Block) (xs : List Ptr) : Type 0 where
  pub shape : Shape h bs xs
  pub counted : IsCounted h.statistics bs
