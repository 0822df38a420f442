-- ===== src/Malloc.antt =====
-- hw4: the allocators over `sbrk`.
pub mod Words
pub mod Naive
pub mod FirstFit
pub mod BestFit
