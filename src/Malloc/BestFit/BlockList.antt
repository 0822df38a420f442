-- ===== src/Malloc/BestFit/BlockList.antt =====
-- `BlockList` of hw4/malloc_3.cpp. Loops run on fuel.
pub mod Chain
pub mod Links
pub mod Insert
pub mod Order
pub mod Add
pub mod Erase
pub mod Unlink
pub mod Remove
pub mod Members
pub mod Steps
pub mod Search
mod Tests
use operations_systems.Base.{
  ℕ, zero, suc, Bool, true, false, not, ◌&&◌, ◌||◌, leb, ltb, ◌==◌, if◌then◌else◌,
}
use operations_systems.Base.Int.{pos, ◌+ℤ◌, ◌-ℤ◌}
use operations_systems.Malloc.Words.{Ptr, null}
use operations_systems.Malloc.BestFit.Memory.{
  Memory, size_at, is_free_at, next_at, prev_at, set_next, set_prev, Heap, Run, done, fault,
  out_of_fuel, ◌>>=◌,
}

-- `p->size < q->size || (p->size == q->size && p < q)`.
abbrev pub before : Memory → (p q : Ptr) → Bool
before m p q = ltb (size_at m p) (size_at m q) || (size_at m p == size_at m q && ltb p q)

-- `if(p) p->prev = q;`
abbrev pub set_prev_of : Memory → (p q : Ptr) → Memory
set_prev_of m p q = if p == null then m else set_prev m p q

-- `metadata` in front of the head.
abbrev pub link_head : Memory → (head metadata : Ptr) → Memory
link_head m head metadata =
    let linked = set_prev (set_next m metadata head) metadata (prev_at m head) in
    set_prev linked (next_at linked metadata) metadata

-- `metadata` behind the head.
abbrev pub link_second : Memory → (head metadata : Ptr) → Memory
link_second m head metadata =
    let linked =
      set_next (set_prev (set_next m metadata (next_at m head)) metadata head) head metadata in
    set_prev_of linked (next_at linked metadata) metadata

-- `metadata` behind the last block.
abbrev pub link_last : Memory → (iter metadata : Ptr) → Memory
link_last m iter metadata =
    set_next (set_next (set_prev m metadata iter) metadata null) iter metadata

-- `metadata` behind `iter`, which has a block behind it.
abbrev pub link_behind : Memory → (iter metadata : Ptr) → Memory
link_behind m iter metadata =
    let placed = set_prev m metadata iter in
    let linked = set_next (set_next placed metadata (next_at placed iter)) iter metadata in
    set_prev linked (next_at linked metadata) metadata

-- `metadata` behind the block behind `iter`.
abbrev pub link_behind_next : Memory → (iter metadata : Ptr) → Memory
link_behind_next m iter metadata =
    let placed = set_next m metadata (next_at m (next_at m iter)) in
    let placed = set_prev placed metadata (next_at placed iter) in
    let linked = set_next placed (next_at placed iter) metadata in
    set_prev_of linked (next_at linked metadata) metadata

-- `head->next && p->size == metadata->size && metadata > p`.
abbrev pub goes_on : Memory → (head metadata p : Ptr) → Bool
goes_on m head metadata p =
    not (next_at m head == null) && (size_at m p == size_at m metadata && ltb p metadata)

-- The list's memory, and whether a slot was found.
pub add_loop : ℕ → Memory → (head metadata iter : Ptr) → Run (Memory × Bool)
add_loop zero m head metadata iter = out_of_fuel
add_loop (suc k) m head metadata iter =
    let following = next_at m iter in
    let rest = add_loop k m head metadata following in
    if iter == null
    then done (m, false)
    else if following == null
    then done (link_last m iter metadata, true)
    else if leb (size_at m metadata) (size_at m following)
    then (if before m metadata following
        then done (link_behind m iter metadata, true)
        else if not (goes_on m head metadata following)
        then done (link_behind_next m iter metadata, true)
        else rest)
    else rest

pub add_from : ℕ → Heap → (metadata : Ptr) → Run Heap
add_from fuel h metadata = do
  (m, found) ← add_loop fuel h.memory h.head metadata h.head
  done (record h { memory = m; size = if found then h.size +ℤ pos 1 else h.size })

pub add_metadata : ℕ → Heap → (metadata : Ptr) → Run Heap
add_metadata fuel h metadata =
    let m = h.memory in
    let search = add_from fuel h metadata in
    if h.head == null
    then done (record h {
      memory = set_prev (set_next m metadata null) metadata null;
      head = metadata;
      size = h.size +ℤ pos 1;
    })
    else if leb (size_at m metadata) (size_at m h.head)
    then (if before m metadata h.head
        then done (record h {
          memory = link_head m h.head metadata;
          head = metadata;
          size = h.size +ℤ pos 1;
        })
        else if not (goes_on m h.head metadata (next_at m h.head))
        then done (record h { memory = link_second m h.head metadata; size = h.size +ℤ pos 1 })
        else search)
    else search

-- `iter->prev->next = iter->next;`, and `iter->next->prev = iter->prev;` where there is a next block.
abbrev pub unlink : Memory → (iter : Ptr) → Memory
unlink m iter =
    let linked = set_next m (prev_at m iter) (next_at m iter) in
    set_prev_of linked (next_at linked iter) (prev_at linked iter)

pub remove_loop : ℕ → Memory → (metadata iter : Ptr) → Run (Memory × Bool)
remove_loop zero m metadata iter = out_of_fuel
remove_loop (suc k) m metadata iter =
    let rest = remove_loop k m metadata (next_at m iter) in
    if iter == null
    then done (m, false)
    else if iter == metadata
    then done (unlink m iter, true)
    else rest

pub remove_from : ℕ → Heap → (metadata : Ptr) → Run Heap
remove_from fuel h metadata = do
  (m, found) ← remove_loop fuel h.memory metadata (next_at h.memory h.head)
  done (record h { memory = m; size = if found then h.size -ℤ pos 1 else h.size })

-- A fault is `head->next` of an empty list.
pub remove_metadata : ℕ → Heap → (metadata : Ptr) → Run Heap
remove_metadata fuel h metadata =
    let m = h.memory in
    let search = remove_from fuel h metadata in
    if h.head == null
    then fault
    else if h.head == metadata
    then done (record h {
      memory = set_prev_of m (next_at m h.head) null;
      head = next_at m h.head;
      size = h.size -ℤ pos 1;
    })
    else search

-- The first free block of at least `size` bytes, or NULL.
pub search_loop : ℕ → Memory → (size : ℕ) → (iter : Ptr) → Run Ptr
search_loop zero m size iter = out_of_fuel
search_loop (suc k) m size iter =
    let rest = search_loop k m size (next_at m iter) in
    if iter == null
    then done null
    else if is_free_at m iter && leb size (size_at m iter)
    then done iter
    else rest

pub search_free_block : ℕ → Heap → (size : ℕ) → Run Ptr
search_free_block fuel h size = search_loop fuel h.memory size h.head
