-- ===== src/Malloc/BestFit/MmapList.antt =====
-- `MmapList` of hw4/malloc_3.cpp, a list that no call uses yet. Loops run on fuel.
use operations_systems.Base.{ℕ, zero, suc, ◌==◌, if◌then◌else◌}
use operations_systems.Malloc.Words.{Ptr, null}
use operations_systems.Malloc.BestFit.Memory.{
  Memory, next_at, prev_at, set_next, set_prev, Run, done, fault, out_of_fuel, ◌>>=◌,
}
use operations_systems.Malloc.BestFit.BlockList.{set_prev_of}

-- The memory and the head.
pub add_metadata : Memory → (head metadata : Ptr) → Memory × Ptr
add_metadata m head metadata =
    if head == null
    then (set_prev (set_next m metadata null) metadata null, metadata)
    else (set_prev (set_next (set_prev m head metadata) metadata head) metadata null, metadata)

-- `head->prev->next = head->next;`, and `head->next->prev = head->prev;` where there is a next block. A
-- fault is a write through NULL.
abbrev pub unlink_head : Memory → (head : Ptr) → Run Memory
unlink_head m head =
    let linked = set_next m (prev_at m head) (next_at m head) in
    if prev_at m head == null
    then fault
    else done (set_prev_of linked (next_at linked head) (prev_at linked head))

-- The loop tests the head where it means to test `iter`.
pub remove_loop : ℕ → Memory → (head metadata iter : Ptr) → Run Memory
remove_loop zero m head metadata iter = out_of_fuel
remove_loop (suc k) m head metadata iter =
    let rest = remove_loop k m head metadata (next_at m iter) in
    if iter == null then done m else if head == metadata then unlink_head m head else rest

pub remove_metadata : ℕ → Memory → (head metadata : Ptr) → Run (Memory × Ptr)
remove_metadata fuel m head metadata =
    let search = do m ← remove_loop fuel m head metadata (next_at m head); done (m, head)
    in if head == null
      then fault
      else if head == metadata
      then done (set_prev_of m (next_at m head) null, next_at m head)
      else search
