-- ===== src/Malloc/BestFit/Memory.antt =====
-- The memory, the counters and the global state of hw4/malloc_3.cpp. A cell holds the whole field where
-- a field of a struct begins, and else the byte at its address: headers and footers that overlap in
-- part are not represented.
use operations_systems.Base.{ℕ, ◌+◌, ◌-◌, ◌%◌, Bool, not, ◌==◌, if◌then◌else◌}
use operations_systems.Base.Int.{ℤ}
use operations_systems.Malloc.Words.{Ptr, word, add_word, memmove}

abbrev pub Memory : Type 0
Memory = Ptr → ℕ

-- sizeof(MallocMetadata), and what a header and a footer take.
abbrev pub size_of_metadata : ℕ
size_of_metadata = 32

abbrev pub tags : ℕ
tags = 64

-- `p->size`, `p->is_free`, `p->next` and `p->prev`.
abbrev pub size_at : Memory → Ptr → ℕ
size_at m p = m p

abbrev pub is_free_at : Memory → Ptr → Bool
is_free_at m p = not (m (p + 8) == 0)

abbrev pub next_at : Memory → Ptr → Ptr
next_at m p = m (p + 16)

abbrev pub prev_at : Memory → Ptr → Ptr
prev_at m p = m (p + 24)

abbrev pub store : Memory → Ptr → ℕ → Memory
store m p v a = if a == p then v else m a

abbrev pub set_size : Memory → Ptr → ℕ → Memory
set_size m p v = store m p v

abbrev pub set_is_free : Memory → Ptr → Bool → Memory
set_is_free m p b = store m (p + 8) (if b then 1 else 0)

abbrev pub set_next : Memory → Ptr → Ptr → Memory
set_next m p q = store m (p + 16) q

abbrev pub set_prev : Memory → Ptr → Ptr → Memory
set_prev m p q = store m (p + 24) q

-- `std::memmove((char*)p + p->size + SOM, p, SOM)`: the footer becomes a copy of the header.
abbrev pub copy_footer : Memory → Ptr → Memory
copy_footer m p = memmove m (p + size_at m p + size_of_metadata) p size_of_metadata

-- Subtraction of `size_t`.
abbrev pub sub_word : ℕ → ℕ → ℕ
sub_word a b = (a + (word - b % word)) % word

pub record Statistics : Type 0 where
  pub allocated_blocks : ℕ
  pub free_blocks : ℕ
  pub allocated_bytes : ℕ
  pub free_bytes : ℕ
  pub metadata_bytes : ℕ

-- The arguments are `long`, here in two's complement.
abbrev pub update_statistics :
    Statistics → (blocks frees bytes free_bytes metadata : ℕ) → Statistics
update_statistics s blocks frees bytes free_bytes metadata = record {
  allocated_blocks = add_word s.allocated_blocks blocks;
  free_blocks = add_word s.free_blocks frees;
  allocated_bytes = add_word s.allocated_bytes bytes;
  free_bytes = add_word s.free_bytes free_bytes;
  metadata_bytes = add_word s.metadata_bytes metadata;
}

-- The globals: `head`, `wilderness` and `size` are those of `block_list`; `brk` is the kernel's.
pub record Heap : Type 0 where
  pub memory : Memory
  pub head : Ptr
  pub wilderness : Ptr
  pub size : ℤ
  pub brk : ℕ
  pub sbrk_start : Ptr
  pub statistics : Statistics

-- How a call ends: `fault` is a read through NULL or a failed assertion.
pub data Run (A : Type 0) : Type 0 where
  done : A → Run A
  fault : Run A
  out_of_fuel : Run A

infixl 5 ◌>>=◌
abbrev pub ◌>>=◌ : {A B : Type 0} → Run A → (A → Run B) → Run B
done a >>= k = k a
fault >>= k = fault
out_of_fuel >>= k = out_of_fuel
