-- ===== src/Malloc/BestFit.antt =====
-- hw4/malloc_3.cpp: blocks with a header and a footer in a list by size, split and merged.
pub mod Memory
pub mod BlockList
pub mod Blocks
pub mod Tiles
pub mod Kernel
pub mod Realloc
pub mod Calls
pub mod MmapList
