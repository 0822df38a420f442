-- ===== src/Malloc/Naive.antt =====
-- hw4/malloc_1.cpp: every allocation moves the program break.
pub mod Regions
mod Tests
use operations_systems.Base.{ℕ, ◌+◌, Bool, ◌||◌, ltb, ◌==◌, if◌then◌else◌}
use operations_systems.Malloc.Words.{Ptr, null, failed, sbrk}

pub smalloc : (granted : Bool) → (brk size : ℕ) → Ptr × ℕ
smalloc granted brk size =
    if size == 0 || ltb 100000000 size
    then (null, brk)
    else (let (res, brk') = sbrk granted brk size in
        if res == failed then (null, brk') else (res, brk'))
