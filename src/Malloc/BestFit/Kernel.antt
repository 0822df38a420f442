-- ===== src/Malloc/BestFit/Kernel.antt =====
-- What hw4/malloc_3.cpp takes from the kernel.
use operations_systems.Base.{ℕ, Bool, not, ◌==◌}
use operations_systems.Malloc.Words.{Ptr, failed, sbrk}
use operations_systems.Malloc.BestFit.Memory.{update_statistics, Heap}

-- The kernel in one call: which `sbrk` it grants at which break, and where `mmap` maps.
pub record Kernel : Type 0 where
  pub grants : (brk size : ℕ) → Bool
  pub mmap : (size : ℕ) → Ptr

-- `sbrk(size)`: the heap with the new break, and whether it was granted.
abbrev pub extend_break : Kernel → Heap → (size : ℕ) → Heap × Bool
extend_break os h size =
    let (p, brk) = sbrk (os.grants h.brk size) h.brk size in
    (record h { brk = brk }, not (p == failed))

abbrev pub count : Heap → (blocks frees bytes free_bytes metadata : ℕ) → Heap
count h blocks frees bytes free_bytes metadata = record h {
  statistics = update_statistics h.statistics blocks frees bytes free_bytes metadata;
}
