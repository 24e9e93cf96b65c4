-- ===== src/Heap.antt =====
-- heap/HeapAllocator.h and heap/HeapAllocator.cpp: the object layout, the size classes, the chunks
-- and the allocator over them.
pub mod Object
pub mod Layout
pub mod Chunk
pub mod SizeClass
pub mod Allocator
mod Tests
