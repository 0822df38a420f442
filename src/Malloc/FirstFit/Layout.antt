-- ===== src/Malloc/FirstFit/Layout.antt =====
-- The blocks that the heap of hw4/malloc_2.cpp stands for: they fill the program's data segment
-- from its start to the break, and the list links their headers in that order.
use operations_systems.Base.{
  ℕ, zero, suc, ◌+◌, ◌*◌, ◌%◌, ◌≤◌, ◌<◌, ◌≡◌, refl, ◌∙◌, Bool, false, Option, none, some, List, [],
  ◌∷◌, arith, length, get_elem?, leb, ◌&&◌, if◌then◌else◌,
}
use operations_systems.Malloc.Words.{Ptr, null, word, set_cell_self, set_cell-ne}
use operations_systems.Malloc.FirstFit.{Metadata, Statistics, Heap, size_of_metadata, set_is_free}

pub record Block : Type 0 where
  pub size : ℕ
  pub is_free : Bool

abbrev pub block : ℕ → Bool → Block
block n b = record { size = n; is_free = b }

-- Where the block behind one of `n` bytes at `a` begins.
abbrev pub behind : Ptr → ℕ → Ptr
behind a n = a + size_of_metadata + n

-- The end of the blocks that begin at `a`, and the address of one of them.
abbrev pub end : Ptr → List Block → Ptr
end a [] = a
end a (b ∷ bs) = end (behind a b.size) bs

abbrev pub address : Ptr → List Block → ℕ → Ptr
address a [] k = a
address a (b ∷ bs) zero = a
address a (b ∷ bs) (suc k) = address (behind a b.size) bs k

abbrev pub first : Ptr → List Block → Ptr
first a [] = null
first a (b ∷ bs) = a

abbrev pub header : Block → (next prev : Ptr) → Metadata
header b next prev = record { size = b.size; is_free = b.is_free; next = next; prev = prev }

-- The headers of the blocks from `a` on, behind the block at `prev`.
abbrev pub Linked : (Ptr → Metadata) → (a prev : Ptr) → List Block → Type 0
Linked cells a prev [] = Unit {0}
Linked cells a prev (b ∷ bs) =
    (cells a ≡ header b (first (behind a b.size) bs) prev) × Linked cells (behind a b.size) a bs

-- The block at an index with another mark.
abbrev pub mark : List Block → ℕ → Bool → List Block
mark [] k f = []
mark (b ∷ bs) zero f = block b.size f ∷ bs
mark (b ∷ bs) (suc k) f = b ∷ mark bs k f

-- Sums over the blocks.
abbrev pub free_count : List Block → ℕ
free_count [] = 0
free_count (b ∷ bs) = (if b.is_free then 1 else 0) + free_count bs

abbrev pub bytes_of : List Block → ℕ
bytes_of [] = 0
bytes_of (b ∷ bs) = b.size + bytes_of bs

abbrev pub free_bytes_of : List Block → ℕ
free_bytes_of [] = 0
free_bytes_of (b ∷ bs) = (if b.is_free then b.size else 0) + free_bytes_of bs

-- The counters are the sums over the blocks, modulo 2^64.
pub record IsCounted (s : Statistics) (bs : List Block) : Type 0 where
  pub blocks : s.allocated_blocks ≡ length bs % word
  pub frees : s.free_blocks ≡ free_count bs % word
  pub bytes : s.allocated_bytes ≡ bytes_of bs % word
  pub free_bytes : s.free_bytes ≡ free_bytes_of bs % word
  pub metadata : s.metadata_bytes ≡ (size_of_metadata * length bs) % word

-- Memory beyond the break reads as zero.
abbrev pub unused : Metadata
unused = record { size = 0; is_free = false; next = null; prev = null }

pub record IsHeap (h : Heap) (start : Ptr) (bs : List Block) : Type 0 where
  pub start_pos : 0 < start
  pub linked : Linked h.cells start null bs
  pub head_first : h.head ≡ first start bs
  pub brk_end : h.brk ≡ end start bs
  pub fresh : (a : Ptr) → h.brk ≤ a → h.cells a ≡ unused
  pub counted : IsCounted h.statistics bs

abbrev pub shift : Option ℕ → Option ℕ
shift none = none
shift (some k) = some (suc k)

-- The first free block of at least `n` bytes.
abbrev pub fit : List Block → ℕ → Option ℕ
fit [] n = none
fit (b ∷ bs) n = if b.is_free && leb n b.size then some 0 else shift (fit bs n)

pub le-end : (a : Ptr) (bs : List Block) → a ≤ end a bs
le-end a [] = omega arith
le-end a (b ∷ bs) = omega (arith, le-end (behind a b.size) bs)

pub le-address : (a : Ptr) (bs : List Block) (k : ℕ) → a ≤ address a bs k
le-address a [] k = omega arith
le-address a (b ∷ bs) zero = omega arith
le-address a (b ∷ bs) (suc k) = omega (arith, le-address (behind a b.size) bs k)

pub address-lt-end :
    (a : Ptr) (bs : List Block) (k : ℕ)
    → k < length bs
    → address a bs k + size_of_metadata ≤ end a bs
address-lt-end a [] k h = elim h [ ]
address-lt-end a (b ∷ bs) zero h = omega (arith, le-end (behind a b.size) bs)
address-lt-end a (b ∷ bs) (suc k) h = address-lt-end (behind a b.size) bs k (omega arith)

-- Only the cells from `a` to the end matter.
pub Linked-congr :
    (cells cells' : Ptr → Metadata) (a prev : Ptr) (bs : List Block)
    → Linked cells a prev bs
    → ((x : Ptr) → a ≤ x → x < end a bs → cells' x ≡ cells x)
    → Linked cells' a prev bs
Linked-congr cells cells' a prev [] l same = tt
Linked-congr cells cells' a prev (b ∷ bs) (e, l) same = (
  same a (omega arith) (omega (arith, le-end (behind a b.size) bs)) ∙ e,
  Linked-congr cells cells' (behind a b.size) a bs l (λ x lo hi. same x (omega arith) hi),
)

pub first-mark : (a : Ptr) (bs : List Block) (k : ℕ) (f : Bool) → first a (mark bs k f) ≡ first a bs
first-mark a [] k f = refl
first-mark a (b ∷ bs) zero f = refl
first-mark a (b ∷ bs) (suc k) f = refl

pub end-mark : (a : Ptr) (bs : List Block) (k : ℕ) (f : Bool) → end a (mark bs k f) ≡ end a bs
end-mark a [] k f = refl
end-mark a (b ∷ bs) zero f = refl
end-mark a (b ∷ bs) (suc k) f = end-mark (behind a b.size) bs k f

-- The header of a block.
pub header_at :
    (cells : Ptr → Metadata) (a prev : Ptr) (bs : List Block) (k : ℕ) (b : Block)
    → Linked cells a prev bs
    → get_elem? bs k ≡ some b
    → ((cells (address a bs k)).size ≡ b.size) × ((cells (address a bs k)).is_free ≡ b.is_free)
header_at cells a prev [] k b l e = cc
header_at cells a prev (c ∷ bs) zero b (h, l) e = ground arith
header_at cells a prev (c ∷ bs) (suc k) b (h, l) e = header_at cells (behind a c.size) a bs k b l e

-- Marking a block rewrites its header alone.
pub Linked-mark :
    (cells : Ptr → Metadata) (a prev : Ptr) (bs : List Block) (k : ℕ) (f : Bool)
    → Linked cells a prev bs
    → k < length bs
    → Linked (set_is_free cells (address a bs k) f) a prev (mark bs k f)
Linked-mark cells a prev [] k f l h = elim h [ ]
Linked-mark cells a prev (b ∷ bs) zero f (e, l) h = (
  set_cell_self cells a _ ∙ λ i. record (e i) { is_free = f },
  Linked-congr cells _ (behind a b.size) a bs l λ x lo hi. set_cell-ne cells a _ x (omega arith),
)
Linked-mark cells a prev (b ∷ bs) (suc k) f (e, l) h = (
  set_cell-ne cells _ _ a (omega (arith, le-address (behind a b.size) bs k))
      ∙ rw (first-mark (behind a b.size) bs k f) e,
  Linked-mark cells (behind a b.size) a bs k f l (omega arith),
)
