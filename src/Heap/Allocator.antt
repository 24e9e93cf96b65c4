-- ===== src/Heap/Allocator.antt =====
-- `HeapAllocator` of heap/HeapAllocator.cpp, and the chunk list of `CatVM` that it appends to
-- (vm/CatVM.cpp), run by one thread at a time. `calloc` is a parameter: the address that it returns
-- for the chunk of each number. It clears the bytes of the new region.

pub mod Wf
pub mod Tries
pub mod Total
pub mod Separate
use cat_la_project.Base.{
  ℕ, zero, suc, ◌+◌, ◌*◌, Bool, ◌&&◌, Option, none, some, List, [], ◌∷◌, ◌++◌, ◌==◌, ltb, leb,
  if◌then◌else◌, get_elem?, set,
}
use cat_la_project.Heap.Object.{Memory, zeroed}
use cat_la_project.Heap.Layout.{HeapChunk, create_heap_chunk, blocks_size}
use cat_la_project.Heap.Chunk.{Malloc}
use cat_la_project.Heap.Chunk
use cat_la_project.Heap.SizeClass.{byte_size, size_class}

pub record HeapAllocator : Type 0 where
  pub is_thread_safe : Bool
  pub number_of_chunks : ℕ
  pub chunks : List HeapChunk
  pub chunks_cells_size : ℕ

-- The allocator, the objects, and `CatVM::heap_chunk_list` as the addresses of its chunks.
pub record HeapState : Type 0 where
  pub allocator : HeapAllocator
  pub mem : Memory
  pub heap_chunk_list : List ℕ

-- `calloc(1, size)` at `base`
unfoldable pub clear_region : ℕ → ℕ → Memory → Memory
clear_region base size mem a = if leb base a && ltb a (base + size) then zeroed else mem a

abbrev pub with_chunk : HeapState → ℕ → HeapChunk → Memory → HeapState
with_chunk st i chunk mem = record st {
  allocator = record (st.allocator) { chunks = set st.allocator.chunks i chunk };
  mem = mem;
}

-- The `HeapAllocator` constructor: `number` chunks, made one after the other.
module _ (calloc : ℕ → ℕ) where
  unfoldable pub first_chunks : ℕ → ℕ → List HeapChunk
  first_chunks cells zero = []
  first_chunks cells (suc k) = first_chunks cells k ++ (create_heap_chunk (calloc k) cells ∷ [])

  unfoldable pub clear_chunks : ℕ → ℕ → Memory → Memory
  clear_chunks cells zero mem = mem
  clear_chunks cells (suc k) mem =
      clear_region (calloc k) (cells * blocks_size) (clear_chunks cells k mem)

  unfoldable pub new_allocator : (is_thread_safe : Bool) → (cells number : ℕ) → Memory → HeapState
  new_allocator is_thread_safe cells number mem = record {
    allocator = record {
      is_thread_safe = is_thread_safe;
      number_of_chunks = number;
      chunks = first_chunks cells number;
      chunks_cells_size = cells;
    };
    mem = clear_chunks cells number mem;
    heap_chunk_list = [];
  }

  -- `create_new_chunk`, with `CatVM::add_heap_allocator_chunk`
  unfoldable pub create_new_chunk : ℕ → HeapState → HeapState
  create_new_chunk cells st = record {
    allocator = record (st.allocator) {
      chunks = st.allocator.chunks ++ (create_heap_chunk base cells ∷ []);
      number_of_chunks = st.allocator.number_of_chunks + 1;
    };
    mem = clear_region base (cells * blocks_size) st.mem;
    heap_chunk_list = st.heap_chunk_list ++ (base ∷ []);
  }
    where
      base : ℕ
      base = calloc st.allocator.number_of_chunks

-- The inner loop: an address and the chunk that gave it, or the index after all chunks refused.
pub data Tried : Type 0 where
  got : (address current_chunk_index : ℕ) → HeapState → Tried
  failed : (current_chunk_index : ℕ) → HeapState → Tried

unfoldable pub next_chunk : ℕ → ℕ → ℕ
next_chunk cs i = if i + 1 == cs then 0 else i + 1

module _ (cycling : ℕ → Bool) (ty n index size : ℕ) where
  -- The chunk's answer, stored back; `rest` is the next round.
  unfoldable pub after_chunk : HeapState → ℕ → Malloc → Option Tried → Option Tried
  after_chunk st current m rest = elim m.address [
    | some a ↦ some (got a current (with_chunk st current m.chunk m.mem))
    | none ↦ rest
  ]

  -- `none` is a read past the array of chunks.
  unfoldable pub try_chunks : (rounds : ℕ) → ℕ → HeapState → Option Tried
  try_chunks zero current st = some (failed current st)
  try_chunks (suc rounds) current st = elim (get_elem? st.allocator.chunks current) [
    | none ↦ none
    | some chunk ↦
        elim (Chunk.malloc cycling st.allocator.is_thread_safe ty n chunk st.mem index size) [
          | none ↦ none
          | some m ↦
              let rest =
                try_chunks rounds (next_chunk st.allocator.number_of_chunks current)
                  (with_chunk st current m.chunk m.mem) in
              after_chunk st current m rest
        ]
  ]

-- The answer of `malloc`: the address or `nullptr`, the new start index, and the state.
pub record Answer : Type 0 where
  pub address : Option ℕ
  pub chunk_search_start_index : ℕ
  pub state : HeapState

module _ (calloc : ℕ → ℕ) (cycling : ℕ → Bool) (ty n : ℕ) where
  -- The outer `while (true)`, by fuel: a new chunk after each round that failed.
  unfoldable pub alloc_loop : (fuel : ℕ) → (index size : ℕ) → ℕ → HeapState → Option Answer
  alloc_loop zero index size current st = none
  alloc_loop (suc fuel) index size current st =
      elim (try_chunks cycling ty n index size st.allocator.number_of_chunks current st) [
        | none ↦ none
        | some (got a i st') ↦
            some (record { address = some a; chunk_search_start_index = i; state = st' })
        | some (failed i st') ↦
            alloc_loop fuel index size i
              (create_new_chunk calloc st'.allocator.chunks_cells_size st')
      ]

  -- `HeapAllocator::malloc`
  unfoldable pub malloc : (fuel : ℕ) → HeapState → (chunk_search_start_index : ℕ) → Option Answer
  malloc fuel st start = elim (size_class (byte_size n)) [
    | none ↦ some (record { address = none; chunk_search_start_index = start; state = st })
    | some (index, size) ↦ alloc_loop fuel index size start st
  ]
