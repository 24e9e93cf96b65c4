-- ===== src/Heap/Allocator/Wf.antt =====
-- The well-formed heaps: every chunk stands in its own `calloc`, and searches start in bounds.
use cat_la_project.Base.{
  ℕ, zero, suc, ◌<◌, ◌≡◌, refl, Bool, true, some, List, [], ◌∷◌, ◌++◌, map, get_elem?, length,
  length-set, length-append, get_elem?-set_cases, inl, inr, arith, ◌∙◌, ◌⊎◌, ap,
}
use cat_la_project.Heap.Object.{Memory}
use cat_la_project.Heap.Layout.{
  BlockInfo, HeapChunk, positions, block_sizes, fresh_info, create_heap_chunk,
}
use cat_la_project.Heap.Layout.Regions.{length-positions}
use cat_la_project.Heap.Chunk.Outcome.{IsChunk}
use cat_la_project.Heap.Allocator.{
  HeapState, with_chunk, first_chunks, new_allocator, create_new_chunk,
}

pub record IsHeap (calloc : ℕ → ℕ) (cells : ℕ) (st : HeapState) : Type 0 where
  pub count : length st.allocator.chunks ≡ st.allocator.number_of_chunks
  pub size : st.allocator.chunks_cells_size ≡ cells
  pub room : 0 < cells
  pub chunks :
      (k : ℕ) (chunk : HeapChunk)
      → get_elem? st.allocator.chunks k ≡ some chunk
      → IsChunk (calloc k) cells chunk

get_elem?-fresh :
    (ps : List ℕ) (j : ℕ) (info : BlockInfo)
    → get_elem? (map fresh_info ps) j ≡ some info
    → (p : ℕ) × (get_elem? ps j ≡ some p) × (info ≡ fresh_info p)
get_elem?-fresh [] j info h = absurd (cc)
get_elem?-fresh (p ∷ ps) zero info h = (p, refl, cc)
get_elem?-fresh (p ∷ ps) (suc j) info h = get_elem?-fresh ps j info h

length-fresh : (ps : List ℕ) → length (map fresh_info ps) ≡ length ps
length-fresh [] = refl
length-fresh (p ∷ ps) = ap suc (length-fresh ps)

pub create_heap_chunk-IsChunk :
    (base cells : ℕ) → 0 < cells → IsChunk base cells (create_heap_chunk base cells)
unfolding create_heap_chunk
create_heap_chunk-IsChunk base cells room = record {
  size = refl;
  count = length-fresh (positions base cells block_sizes) ∙ length-positions base cells block_sizes;
  entries = λ j info h.
      let (p, at, e) = get_elem?-fresh (positions base cells block_sizes) j info h in rw e at;
  located = λ j info h.
      let (p, at, e) = get_elem?-fresh (positions base cells block_sizes) j info h in rw e room;
}

-- Every class of a new chunk is open, and starts at its run.
pub create_heap_chunk-open :
    (base cells j : ℕ) (info : BlockInfo)
    → get_elem? (create_heap_chunk base cells).block_info_list j ≡ some info
    → info.empty ≡ true
unfolding create_heap_chunk
create_heap_chunk-open base cells j info h =
    let (p, at, e) = get_elem?-fresh (positions base cells block_sizes) j info h in rw e

-- What stands at an index of a list with one more entry.
pub get_elem?-snoc {ℓ} :
    {A : Type ℓ} (xs : List A) (x : A) (k : ℕ) (a : A)
    → get_elem? (xs ++ (x ∷ [])) k ≡ some a
    → (get_elem? xs k ≡ some a) ⊎ ((k ≡ length xs) × (a ≡ x))
get_elem?-snoc [] x zero a h = inr (refl, cc)
get_elem?-snoc [] x (suc k) a h = absurd (cc)
get_elem?-snoc (y ∷ xs) x zero a h = inl h
get_elem?-snoc (y ∷ xs) x (suc k) a h = elim (get_elem?-snoc xs x k a h) [
  | inl old ↦ inl old
  | inr (e, new) ↦ inr (ap suc e, new)
]

pub get_elem?-snoc_last {ℓ} :
    {A : Type ℓ} (xs : List A) (x : A) → get_elem? (xs ++ (x ∷ [])) (length xs) ≡ some x
get_elem?-snoc_last [] x = refl
get_elem?-snoc_last (y ∷ xs) x = get_elem?-snoc_last xs x

module _ (calloc : ℕ → ℕ) (cells : ℕ) where
  -- Storing back a chunk that is well formed.
  pub with_chunk-IsHeap :
      (st : HeapState) (i : ℕ) (old new : HeapChunk) (mem : Memory)
      → IsHeap calloc cells st
      → get_elem? st.allocator.chunks i ≡ some old
      → IsChunk (calloc i) cells new
      → IsHeap calloc cells (with_chunk st i new mem)
  with_chunk-IsHeap st i old new mem is here chunk = record {
    count = length-set st.allocator.chunks i new ∙ is.count;
    size = is.size;
    room = is.room;
    chunks = λ k c h. elim (get_elem?-set_cases st.allocator.chunks i k old new c here h) [
      | inl (ik, e) ↦ rw (e, ← ik) chunk
      | inr (ne, h') ↦ is.chunks k c h'
    ];
  }

  -- Adding a chunk keeps the heap well formed.
  pub create_new_chunk-IsHeap :
      (st : HeapState)
      → IsHeap calloc cells st
      → IsHeap calloc cells (create_new_chunk calloc cells st)
  unfolding create_new_chunk
  create_new_chunk-IsHeap st is =
      let base : ℕ = calloc st.allocator.number_of_chunks in
      let new = create_heap_chunk base cells in
      record {
        count = omega (arith, length-append {0} st.allocator.chunks (new ∷ []), is.count);
        size = is.size;
        room = is.room;
        chunks = λ k c h. elim (get_elem?-snoc st.allocator.chunks new k c h) [
          | inl old ↦ is.chunks k c old
          | inr (e, same) ↦
              let at : k ≡ st.allocator.number_of_chunks = e ∙ is.count in
              rw (same, at) (create_heap_chunk-IsChunk base cells is.room)
        ];
      }

  first_chunks-length : (k : ℕ) → length (first_chunks calloc cells k) ≡ k
  unfolding first_chunks
  first_chunks-length zero = refl
  first_chunks-length (suc k) = omega (
    arith,
    length-append {0} (first_chunks calloc cells k) (create_heap_chunk (calloc k) cells ∷ []),
    first_chunks-length k,
  )

  first_chunks-IsChunk :
      (n k : ℕ) (c : HeapChunk)
      → 0 < cells
      → get_elem? (first_chunks calloc cells n) k ≡ some c
      → IsChunk (calloc k) cells c
  unfolding first_chunks
  first_chunks-IsChunk zero k c room h = absurd (cc)
  first_chunks-IsChunk (suc n) k c room h =
      elim (get_elem?-snoc (first_chunks calloc cells n) _ k c h) [
        | inl old ↦ first_chunks-IsChunk n k c room old
        | inr (e, same) ↦
            rw (same, e, first_chunks-length n) (create_heap_chunk-IsChunk (calloc n) cells room)
      ]

  -- The constructor makes a well-formed heap.
  pub new_allocator-IsHeap :
      (ts : Bool) (number : ℕ) (mem : Memory)
      → 0 < cells
      → IsHeap calloc cells (new_allocator calloc ts cells number mem)
  unfolding new_allocator
  new_allocator-IsHeap ts number mem room = record {
    count = first_chunks-length number;
    size = refl;
    room = room;
    chunks = λ k c h. first_chunks-IsChunk number k c room h;
  }
