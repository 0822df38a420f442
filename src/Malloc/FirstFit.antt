-- ===== src/Malloc/FirstFit.antt =====
-- hw4/malloc_2.cpp: a list of blocks in address order, searched for the first free one that fits.
-- Loops run on fuel, and a function is `none` when the fuel runs out.
pub mod Layout
pub mod Loops
pub mod Counters
pub mod Place
pub mod Alloc
pub mod Release
pub mod Apart
pub mod Resize
mod Tests
use operations_systems.Base.{
  ℕ, zero, suc, ◌+◌, ◌-◌, ◌*◌, ◌%◌, Bool, true, false, ◌&&◌, ◌||◌, Option, none, some, leb, ltb,
  ◌==◌, if◌then◌else◌,
}
use operations_systems.Malloc.Words.{
  Ptr, null, set_cell, word, failed, add_word, neg_word, sbrk, memmove, memset,
}

pub record Metadata : Type 0 where
  pub size : ℕ
  pub is_free : Bool
  pub next : Ptr
  pub prev : Ptr

-- sizeof(MallocMetadata): two `size_t`-sized pointers, a `size_t`, and a `bool` with its padding.
abbrev pub size_of_metadata : ℕ
size_of_metadata = 32

pub record Statistics : Type 0 where
  pub allocated_blocks : ℕ
  pub free_blocks : ℕ
  pub allocated_bytes : ℕ
  pub free_bytes : ℕ
  pub metadata_bytes : ℕ

-- `cells` holds the headers by address, `bytes` the payload.
pub record Heap : Type 0 where
  pub cells : Ptr → Metadata
  pub bytes : ℕ → ℕ
  pub head : Ptr
  pub brk : ℕ
  pub statistics : Statistics

abbrev pub set_next : (Ptr → Metadata) → Ptr → Ptr → Ptr → Metadata
set_next cells p q = set_cell cells p (record (cells p) { next = q })

abbrev pub set_prev : (Ptr → Metadata) → Ptr → Ptr → Ptr → Metadata
set_prev cells p q = set_cell cells p (record (cells p) { prev = q })

abbrev pub set_is_free : (Ptr → Metadata) → Ptr → Bool → Ptr → Metadata
set_is_free cells p b = set_cell cells p (record (cells p) { is_free = b })

pub update_statistics : Statistics → (blocks frees bytes free_bytes metadata : ℕ) → Statistics
update_statistics s blocks frees bytes free_bytes metadata = record {
  allocated_blocks = add_word s.allocated_blocks blocks;
  free_blocks = add_word s.free_blocks frees;
  allocated_bytes = add_word s.allocated_bytes bytes;
  free_bytes = add_word s.free_bytes free_bytes;
  metadata_bytes = add_word s.metadata_bytes metadata;
}

-- `metadata->prev = iter; metadata->next = iter->next; iter->next = metadata;` and, where there is a
-- next block, `metadata->next->prev = metadata;`.
abbrev pub link_after : (Ptr → Metadata) → (iter metadata following : Ptr) → Ptr → Metadata
link_after cells iter metadata following =
    set_next (set_next (set_prev cells metadata iter) metadata following) iter metadata

pub add_loop : ℕ → (Ptr → Metadata) → (metadata iter : Ptr) → Option (Ptr → Metadata)
add_loop zero cells metadata iter = none
add_loop (suc k) cells metadata iter =
    let following = (cells iter).next in
    let rest = add_loop k cells metadata following in
    if iter == null
    then some cells
    else if following == null
    then some (link_after cells iter metadata null)
    else if ltb metadata following
    then some (set_prev (link_after cells iter metadata following) following metadata)
    else rest

-- The list's cells and its head.
pub add_metadata : ℕ → (Ptr → Metadata) → (head metadata : Ptr) → Option ((Ptr → Metadata) × Ptr)
unfolding add_loop
add_metadata fuel cells head metadata =
    if head == null
    then some (cells, metadata)
    else if ltb metadata head
    then some (
      set_prev (set_prev (set_next cells metadata head) metadata (cells head).prev) head metadata,
      metadata,
    )
    else elim (add_loop fuel cells metadata head) [
      | none ↦ none
      | some cells' ↦ some (cells', head)
    ]

-- The address of the first free block that fits, or NULL.
pub search_free_block : ℕ → (Ptr → Metadata) → (size : ℕ) → (iter : Ptr) → Option Ptr
search_free_block zero cells size iter = none
search_free_block (suc k) cells size iter =
    let rest = search_free_block k cells size (cells iter).next in
    if iter == null
    then some null
    else if (cells iter).is_free && leb size (cells iter).size
    then some iter
    else rest

-- `smalloc` where a free block was found.
abbrev pub reuse : Heap → Ptr → Ptr × Heap
reuse h address = (
  address + size_of_metadata,
  record h {
    cells = set_is_free h.cells address false;
    statistics =
        update_statistics h.statistics 0 (neg_word 1) 0 (neg_word (h.cells address).size) 0;
  },
)

-- The new block's header, and its place in the list.
pub append_block : ℕ → Heap → (size address brk : ℕ) → Option (Ptr × Heap)
append_block fuel h size address brk =
    elim (add_metadata fuel
      (set_cell h.cells address (record (h.cells address) { size = size; is_free = false })) h.head
      address) [
        | none ↦ none
        | some (cells, head) ↦ some (
          address + size_of_metadata,
          record h {
            cells = cells;
            head = head;
            brk = brk;
            statistics = update_statistics h.statistics 1 0 size 0 size_of_metadata;
          },
        )
      ]

pub extend : (granted : Bool) → ℕ → Heap → (size : ℕ) → Option (Ptr × Heap)
extend granted fuel h size =
    let (address, brk) = sbrk granted h.brk (size + size_of_metadata) in
    if address == failed then some (null, h) else append_block fuel h size address brk

pub smalloc : (granted : Bool) → ℕ → Heap → (size : ℕ) → Option (Ptr × Heap)
smalloc granted fuel h size =
    if size == 0 || ltb 100000000 size
    then some (null, h)
    else elim (search_free_block fuel h.cells size h.head) [
      | none ↦ none
      | some address ↦
          if address == null then extend granted fuel h size else some (reuse h address)
    ]

pub scalloc : (granted : Bool) → ℕ → Heap → (num size : ℕ) → Option (Ptr × Heap)
scalloc granted fuel h num size = elim (smalloc granted fuel h (num * size % word)) [
  | none ↦ none
  | some (address, h') ↦
      if address == null
      then some (null, h')
      else some (address, record h' { bytes = memset h'.bytes address 0 (size * num % word) })
]

pub sfree : Heap → Ptr → Heap
sfree h p =
    let block = p - size_of_metadata in
    if p == null then h else if (h.cells block).is_free then h else record h {
      cells = set_is_free h.cells block true;
      statistics = update_statistics h.statistics 0 1 0 (h.cells block).size 0;
    }

-- Behind the `smalloc` of `srealloc`.
abbrev pub move_to : Heap → (oldp newp old_size : ℕ) → Heap
move_to h oldp newp old_size = sfree (record h { bytes = memmove h.bytes newp oldp old_size }) oldp

pub srealloc : (granted : Bool) → ℕ → Heap → (oldp size : ℕ) → Option (Ptr × Heap)
srealloc granted fuel h oldp size =
    let block = oldp - size_of_metadata in
    if size == 0 || ltb 100000000 size
    then some (null, h)
    else if oldp == null
    then smalloc granted fuel h size
    else if leb size (h.cells block).size
    then some (oldp, h)
    else elim (smalloc granted fuel h size) [
      | none ↦ none
      | some (newp, h') ↦
          if newp == null
          then some (null, h')
          else some (newp, move_to h' oldp newp (h'.cells block).size)
    ]

-- The counters that the tests read.
pub num_free_blocks : Heap → ℕ
num_free_blocks h = h.statistics.free_blocks

pub num_free_bytes : Heap → ℕ
num_free_bytes h = h.statistics.free_bytes

pub num_allocated_blocks : Heap → ℕ
num_allocated_blocks h = h.statistics.allocated_blocks

pub num_allocated_bytes : Heap → ℕ
num_allocated_bytes h = h.statistics.allocated_bytes

pub num_meta_data_bytes : Heap → ℕ
num_meta_data_bytes h = h.statistics.metadata_bytes

abbrev pub size_meta_data : ℕ
size_meta_data = size_of_metadata
