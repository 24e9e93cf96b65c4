-- ===== src/Heap/Layout.antt =====
-- `BlockInfo`, `HeapChunk` and `create_heap_chunk` of heap/HeapAllocator.{h,cpp}: one `calloc` holds
-- thirteen runs of `cells_size` blocks, then the list of block infos. The address that `calloc`
-- returned is the argument `base`.
pub mod Regions
use cat_la_project.Base.{ℕ, ◌+◌, ◌*◌, Bool, true, List, [], ◌∷◌, map}

pub record BlockInfo : Type 0 where
  pub entry_position : ℕ
  pub empty : Bool
  pub current_location : ℕ

pub record HeapChunk : Type 0 where
  pub cells_size : ℕ
  pub block_info_list : List BlockInfo

-- BLOCK_SIZE0 to BLOCK_SIZE12
abbrev pub block_sizes : List ℕ
block_sizes = 32 ∷ 40 ∷ 48 ∷ 56 ∷ 64 ∷ 72 ∷ 80 ∷ 88 ∷ 96 ∷ 128 ∷ 256 ∷ 384 ∷ 512 ∷ []

-- NUMBER_OF_BLOCKS and BLOCKS_SIZE
abbrev pub number_of_blocks : ℕ
number_of_blocks = 13

abbrev pub blocks_size : ℕ
blocks_size = 1856

-- position0, position1, ...: each run starts where the one before it ends. No product wraps, since a chunk
-- is made with 1024 cells.
unfoldable pub positions : ℕ → ℕ → List ℕ → List ℕ
positions base cells [] = []
positions base cells (s ∷ ss) = base ∷ positions (base + s * cells) cells ss

-- An info as the loop over the list leaves it; `calloc` has cleared `current_location`.
abbrev pub fresh_info : ℕ → BlockInfo
fresh_info p = record { entry_position = p; empty = true; current_location = 0 }

unfoldable pub create_heap_chunk : ℕ → ℕ → HeapChunk
create_heap_chunk base cells = record {
  cells_size = cells;
  block_info_list = map fresh_info (positions base cells block_sizes);
}
