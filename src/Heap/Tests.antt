-- ===== src/Heap/Tests.antt =====
-- Runs of the allocator on small heaps, and the theorems at concrete inputs.
use cat_la_project.Base.{
  ℕ, zero, suc, ◌+◌, ◌*◌, ◌≤◌, ◌≡◌, refl, Bool, true, false, Option, none, some, map, get_elem?,
  dec_lt, arith, inl, inr, List, [], ◌∷◌,
}
use cat_la_project.Heap.Object.{Memory, zeroed}
use cat_la_project.Heap.Layout.{HeapChunk, BlockInfo, create_heap_chunk, positions}
use cat_la_project.Heap.Layout.Regions.{block, Apart, Block-Apart}
use cat_la_project.Heap.Chunk.{Malloc, malloc_loop, try_class, next_class, block_scan, take_block}
use cat_la_project.Heap.Chunk
use cat_la_project.Heap.Chunk.Outcome.{IsChunk}
use cat_la_project.Heap.Chunk.Passed.{Promise, IsFull}
use cat_la_project.Heap.Chunk.Promise.{malloc-Promise}
use cat_la_project.Heap.Chunk.Full.{malloc-full}
use cat_la_project.Heap.SizeClass.{byte_size, size_class}
use cat_la_project.Heap.SizeClass.Fits.{Fits, size_class-Fits}
use cat_la_project.Heap.Allocator.{
  HeapState, Answer, malloc, alloc_loop, try_chunks, after_chunk, new_allocator, create_new_chunk,
  clear_region, next_chunk, first_chunks, clear_chunks,
}
use cat_la_project.Heap.Allocator.Wf.{IsHeap, new_allocator-IsHeap, create_heap_chunk-IsChunk}
use cat_la_project.Heap.Allocator.Total.{Served, malloc-Served, malloc_too_large}
use cat_la_project.Heap.Allocator.Separate.{Disjoint, KeepsLive, malloc-KeepsLive}

abbrev calloc : ℕ → ℕ
calloc k = 4096 * k + 4096

abbrev acyclic : ℕ → Bool
acyclic ty = false

abbrev no_memory : Memory
no_memory a = zeroed

heap : HeapState
unfolding new_allocator first_chunks clear_chunks clear_region create_heap_chunk positions
heap = new_allocator calloc true 2 1 no_memory

-- The answers of consecutive requests for objects of `n` fields.
run : ℕ → ℕ → ℕ → HeapState → List (Option ℕ)
unfolding malloc alloc_loop try_chunks after_chunk create_new_chunk next_chunk Chunk.malloc
    malloc_loop try_class next_class block_scan take_block byte_size size_class
run n start zero st = []
run n start (suc k) st = elim (malloc calloc acyclic 7 n 2 st start) [
  | none ↦ []
  | some ans ↦ ans.address ∷ run n ans.chunk_search_start_index k ans.state
]

-- 59 fields take the last class: two blocks in the first chunk, then a new chunk.
largest : run 59 0 3 heap ≡ some 6784 ∷ some 7296 ∷ some 10880 ∷ []
unfolding run heap
largest = refl

-- With 60 fields the answer is a null pointer.
too_many_fields : run 60 0 1 heap ≡ none ∷ []
unfolding run heap
too_many_fields = refl

size_class-Fits_example : Fits 41 2 48
unfolding size_class
size_class-Fits_example = size_class-Fits 41 2 48 refl

-- The blocks at 4096 and 4128 of the first chunk.
Block-Apart_example : Apart 4096 32 4128 32
unfolding positions
Block-Apart_example =
    Block-Apart {base = 4096} {cells = 2} (block 0 0 4096 refl refl (omega arith) refl)
      (block 0 1 4096 refl refl (omega arith) refl) (omega arith)

chunk : HeapChunk
unfolding create_heap_chunk positions
chunk = create_heap_chunk 4096 2

chunk-IsChunk : IsChunk 4096 2 chunk
unfolding chunk
chunk-IsChunk = create_heap_chunk-IsChunk 4096 2 (omega arith)

malloc-Promise_example :
    Promise 4096 2 acyclic true 7 0 no_memory chunk 1 40
      (Chunk.malloc acyclic true 7 0 chunk no_memory 1 40)
malloc-Promise_example =
    malloc-Promise 4096 2 acyclic true 7 0 no_memory chunk 1 40 chunk-IsChunk refl

-- A chunk of which all classes are marked full, though its blocks are dead.
close_info : BlockInfo → BlockInfo
close_info info = record info { empty = false }

closed : HeapChunk
unfolding chunk close_info
closed = record chunk { block_info_list = map close_info chunk.block_info_list }

get_elem?-close :
    (infos : List BlockInfo) (j : ℕ) (info : BlockInfo)
    → get_elem? (map close_info infos) j ≡ some info
    → (old : BlockInfo) × (get_elem? infos j ≡ some old) × (info ≡ close_info old)
get_elem?-close [] j info h = absurd (cc)
get_elem?-close (x ∷ xs) zero info h = (x, refl, cc)
get_elem?-close (x ∷ xs) (suc j) info h = get_elem?-close xs j info h

closed-IsChunk : IsChunk 4096 2 closed
unfolding closed
closed-IsChunk = record {
  size = refl;
  count = refl;
  entries = λ j info h.
      let (old, at, e) = get_elem?-close chunk.block_info_list j info h in
      rw e (chunk-IsChunk.entries j old at);
  located = λ j info h.
      let (old, at, e) = get_elem?-close chunk.block_info_list j info h in
      rw e (chunk-IsChunk.located j old at);
}

closed-IsFull : (k : ℕ) → 9 ≤ k → IsFull closed k
unfolding closed
closed-IsFull k le info h =
    let (old, at, e) = get_elem?-close chunk.block_info_list k info h in rw e

malloc-full_example :
    Chunk.malloc acyclic true 7 8 closed no_memory 9 128
    ≡ some (record { chunk = closed; mem = no_memory; address = none })
malloc-full_example =
    malloc-full 4096 2 acyclic true 7 8 no_memory closed closed-IsChunk 9 128 closed-IsFull refl

heap-IsHeap : IsHeap calloc 2 heap
unfolding heap
heap-IsHeap = new_allocator-IsHeap calloc 2 true 1 no_memory (omega arith)

heap-one : heap.allocator.number_of_chunks ≡ 1
unfolding heap
heap-one = refl

malloc-Served_example :
    (ans : Answer) × (malloc calloc acyclic 7 3 2 heap 0 ≡ some ans)
    × Served calloc 2 acyclic 7 3 heap ans
malloc-Served_example =
    malloc-Served calloc 2 acyclic 7 3 0 0 heap heap-IsHeap (omega (arith, heap-one)) (omega arith)

calloc-Disjoint : Disjoint calloc 2
calloc-Disjoint i j ne = elim (dec_lt i j) [
  | yes lt ↦ inl (omega arith)
  | no ge ↦ inr (omega arith)
]

malloc-KeepsLive_example :
    (ans : Answer) × (a s : ℕ) × (malloc calloc acyclic 7 3 2 heap 0 ≡ some ans)
    × (ans.address ≡ some a)
    × (byte_size 3 ≤ s)
    × KeepsLive calloc 2 heap ans a s
malloc-KeepsLive_example =
    malloc-KeepsLive calloc 2 calloc-Disjoint acyclic 7 3 0 0 heap heap-IsHeap
      (omega (arith, heap-one)) (omega arith)

malloc_too_large_example :
    malloc calloc acyclic 7 60 2 heap 0
    ≡ some (record { address = none; chunk_search_start_index = 0; state = heap })
malloc_too_large_example =
    malloc_too_large calloc 2 acyclic 7 60 2 0 heap (omega arith) (omega arith)
