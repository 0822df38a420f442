-- ===== src/Malloc/BestFit/Realloc.antt =====
-- `tryMergeRealloc` of hw4/malloc_3.cpp: a block grows into its free neighbours and the wilderness. The
-- cases carry the letters of the code.
use operations_systems.Base.{
  ℕ, ◌+◌, ◌*◌, ◌%◌, Bool, true, false, not, ◌&&◌, ◌||◌, leb, ltb, ◌==◌, if◌then◌else◌,
}
use operations_systems.Malloc.Words.{Ptr, null, word, neg_word, memmove}
use operations_systems.Malloc.BestFit.Memory.{
  size_of_metadata, tags, size_at, set_is_free, copy_footer, sub_word, Heap, Run, done, fault,
  ◌>>=◌,
}
use operations_systems.Malloc.BestFit.Kernel.{Kernel, extend_break, count}
use operations_systems.Malloc.BestFit.BlockList.{add_metadata, remove_metadata}
use operations_systems.Malloc.BestFit.Blocks.{
  footer_before, block_behind, is_free_if, block_of_footer, grow,
}

abbrev pub use_block : Heap → Ptr → Heap
use_block h p = record h { memory = set_is_free h.memory p false }

-- The payload of `from` moves to the payload of `to`.
abbrev pub move_payload : Heap → (to from : Ptr) → Heap
move_payload h to from = record h {
  memory =
      memmove h.memory (to + size_of_metadata) (from + size_of_metadata) (size_at h.memory from);
}

-- The block at `p` goes back into the list, its footer is written and its payload returned.
abbrev pub put_back : ℕ → Heap → (p : Ptr) → Run (Ptr × Heap)
put_back fuel h p = do
  h ← add_metadata fuel h p
  done (p + size_of_metadata, record h { memory = copy_footer h.memory p })

-- The part of case b that extends the wilderness; false where `sbrk` fails.
pub enlarge_current : Kernel → Heap → (size footer current : ℕ) → Run (Heap × Bool)
enlarge_current os h size footer current =
    let all = (size_at h.memory current + size_at h.memory footer + tags) % word in
    let added = sub_word size all in
    let (extended, granted) = extend_break os h added in
    let grown = count (grow extended current added) 0 0 added 0 0 in
    let fits =
      leb size ((size_at grown.memory current + size_at grown.memory footer + tags) % word) in
    let block = block_of_footer h.memory footer in
    let moved = block_of_footer grown.memory footer in
    if leb all size
    then (if not granted
        then done (h, false)
        else if fits
        then done (record grown { wilderness = moved }, true)
        else fault)
    else done (record h { wilderness = block }, true)

-- The part of case b that merges with the block before.
pub case_b : ℕ → Heap → (footer current : Ptr) → Run (Ptr × Heap)
case_b fuel h footer current =
    let block = block_of_footer h.memory footer in
    let counted =
      count h (neg_word 1) (neg_word 1) tags (neg_word (size_at h.memory block)) (neg_word tags) in
    let grown = use_block (grow counted block (size_at h.memory current + tags)) block in
    do
      h ← remove_metadata fuel (move_payload grown block current) current
      h ← remove_metadata fuel h block
      put_back fuel h block

-- The wilderness grows; the counters change before `sbrk` may fail.
pub case_c : Kernel → ℕ → Heap → (size : ℕ) → (current : Ptr) → Run (Ptr × Heap)
case_c os fuel h size current =
    let added = sub_word size (size_at h.memory current) in
    let counted = count h 0 0 added 0 0 in
    let (extended, granted) = extend_break os counted added in
    let grown = use_block (grow extended current added) current in
    let merged = do h ← remove_metadata fuel grown current; put_back fuel h current
    in if added == 0 || not (added % 8 == 0)
      then fault
      else if not granted
      then done (null, counted)
      else if not (extended.brk % 8 == 0) || ltb (size_at grown.memory current) size
      then fault
      else merged

-- The free block behind is taken in.
pub case_d : ℕ → Heap → (current following : Ptr) → Run (Ptr × Heap)
case_d fuel h current following =
    let counted =
      count h (neg_word 1) (neg_word 1) tags (neg_word (size_at h.memory following))
        (neg_word tags) in
    let grown = use_block (grow counted current (size_at h.memory following + tags)) current in
    do
      h ← remove_metadata fuel grown current
      h ← remove_metadata fuel h following
      put_back fuel h current

-- Three blocks become the one at `block`; cases e and f.
pub merge_three : ℕ → Heap → (block current following : Ptr) → Run (Ptr × Heap)
merge_three fuel h block current following = do
  h ← remove_metadata fuel (move_payload h block current) block
  h ← remove_metadata fuel h current
  h ← remove_metadata fuel h following
  put_back fuel h block

pub case_e : ℕ → Heap → (footer current following : Ptr) → Run (Ptr × Heap)
case_e fuel h footer current following =
    let m = h.memory in
    let block = block_of_footer m footer in
    let counted =
      count h (neg_word 2) (neg_word 2) (4 * size_of_metadata)
        (neg_word (size_at m footer + size_at m following)) (neg_word (4 * size_of_metadata)) in
    let grown =
      grow counted block (size_at m current + size_at m following + 4 * size_of_metadata) in
    merge_three fuel (use_block grown block) block current following

-- The block behind is the wilderness, and the block before is free.
pub case_f_both :
    Kernel → ℕ → Heap → (size : ℕ) → (footer current following : Ptr) → Run (Ptr × Heap)
case_f_both os fuel h size footer current following =
    let m = h.memory in
    let block = block_of_footer m footer in
    let all = size_at m block + size_at m current + size_at m following + 4 * size_of_metadata in
    let added = sub_word size all in
    let (extended, granted) = extend_break os h added in
    let counted =
      count extended (neg_word 2) (neg_word 2) (added + 4 * size_of_metadata)
        (neg_word (size_at m block + size_at m following)) (neg_word (4 * size_of_metadata)) in
    let grown =
      grow counted block (size_at m current + size_at m following + added + 4 * size_of_metadata) in
    let used = use_block grown block in
    let merged = merge_three fuel (record used { wilderness = block }) block current following in
    if added == 0 || not (added % 8 == 0)
    then fault
    else if not granted
    then done (null, h)
    else merged

-- The block behind is the wilderness, and the block before is in use.
pub case_f_next : Kernel → ℕ → Heap → (size : ℕ) → (current following : Ptr) → Run (Ptr × Heap)
case_f_next os fuel h size current following =
    let m = h.memory in
    let added = sub_word size (size_at m current + size_at m following + tags) in
    let (extended, granted) = extend_break os h added in
    let counted =
      count extended (neg_word 1) (neg_word 1) (added + tags) (neg_word (size_at m following))
        (neg_word tags) in
    let larger = grow counted following added in
    let grown = grow larger current (size_at larger.memory following + tags) in
    let merged = do
      h ← remove_metadata fuel grown current
      h ← remove_metadata fuel h following
      (p, h) ← put_back fuel h current
      done (p, record h { wilderness = current })
    in if added == 0 || not (added % 8 == 0)
      then fault
      else if not granted
      then done (null, h)
      else merged

-- The cases behind case b.
pub try_other_cases :
    Kernel
    → ℕ
    → Heap
    → (size : ℕ) → (footer current following : Ptr) → (prev_free next_free : Bool)
    → Run (Ptr × Heap)
try_other_cases os fuel h size footer current following prev_free next_free =
    let m = h.memory in
    let c = case_c os fuel h size current in
    let d = case_d fuel h current following in
    let e = case_e fuel h footer current following in
    let f_both = case_f_both os fuel h size footer current following in
    let f_next = case_f_next os fuel h size current following in
    if current == h.wilderness
    then c
    else if next_free && leb size ((size_at m following + size_at m current + tags) % word)
    then d
    else if prev_free
        && next_free
        && leb size (
            (size_at m footer + size_at m current + size_at m following + 4 * size_of_metadata)
            % word)
    then e
    else if next_free && following == h.wilderness
    then (if prev_free then f_both else f_next)
    else done (null, h)

-- Case b and the cases behind it, once the wilderness is large enough.
pub try_cases :
    Kernel
    → ℕ
    → Heap
    → (size : ℕ) → (footer current following : Ptr) → (next_free : Bool) → Run (Ptr × Heap)
try_cases os fuel h size footer current following next_free =
    let m = h.memory in
    let merged = case_b fuel h footer current in
    let others = try_other_cases os fuel h size footer current following true next_free in
    if leb size ((size_at m current + size_at m footer + tags) % word) then merged else others

-- The payload, or NULL.
pub try_merge_realloc : Kernel → ℕ → Heap → (address size : ℕ) → Run (Ptr × Heap)
try_merge_realloc os fuel h address size =
    let footer = footer_before h address in
    let following = block_behind h address in
    let next_free = is_free_if h.memory following in
    let others = try_other_cases os fuel h size footer address following false next_free in
    let cases = try_cases os fuel h size footer address following next_free in
    let enlarged = do
      (h', granted) ← enlarge_current os h size footer address
      let merged = try_cases os fuel h' size footer address following next_free
      if granted then merged else done (null, h')
    in if is_free_if h.memory footer
      then (if address == h.wilderness then enlarged else cases)
      else others
