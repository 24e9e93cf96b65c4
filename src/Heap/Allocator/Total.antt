-- ===== src/Heap/Allocator/Total.antt =====
-- `HeapAllocator::malloc` ends after at most one new chunk, and what it returns.
use cat_la_project.Base.{
  ℕ, suc, ◌+◌, ◌*◌, ◌^◌, ◌≤◌, ◌<◌, ◌≡◌, refl, Bool, none, some, [], ◌∷◌, ◌++◌, get_elem?,
  get_elem?-some, inl, inr, arith, ◌∙◌, subst, dec_lt, ◌⊎◌, get_elem?-lt, Option-cases,
}
use cat_la_project.Heap.Object.{Memory}
use cat_la_project.Heap.Layout.{block_sizes, blocks_size, create_heap_chunk}
use cat_la_project.Heap.Layout.Regions.{Block, run_within}
use cat_la_project.Heap.Chunk.Outcome.{Fresh}
use cat_la_project.Heap.SizeClass.{byte_size, size_class}
use cat_la_project.Heap.SizeClass.Fits.{size_class-Fits, size_class-none, byte_size_lem}
use cat_la_project.Heap.Allocator.{
  HeapState, Tried, got, failed, Answer, try_chunks, alloc_loop, malloc, create_new_chunk,
  clear_region,
}
use cat_la_project.Heap.Allocator.Wf.{
  IsHeap, create_new_chunk-IsHeap, create_heap_chunk-IsChunk, create_heap_chunk-open,
  get_elem?-snoc_last,
}
use cat_la_project.Heap.Allocator.Tries.{
  Ready, Keeps, TriedOk, tried_got, tried_failed, try_chunks-Tries,
}

-- A served request: an object of the wanted shape in a block that holds it, in the chunk where the
-- next search starts. `mem` is the memory at the time: that of the call, or with a new chunk.
pub record Served (calloc : ℕ → ℕ) (cells : ℕ) (cycling : ℕ → Bool) (ty n : ℕ) (st : HeapState)
    (ans : Answer) : Type 0 where
  pub a : ℕ
  pub s : ℕ
  pub mem : Memory
  pub address : ans.address ≡ some a
  pub start : ans.chunk_search_start_index < ans.state.allocator.number_of_chunks
  pub in_block : Block (calloc ans.chunk_search_start_index) cells a s
  pub holds : byte_size n ≤ s
  pub fresh : Fresh cycling ty n mem ans.state.mem a
  pub before :
      (mem ≡ st.mem)
      ⊎ (mem ≡ clear_region (calloc st.allocator.number_of_chunks) (cells * blocks_size) st.mem)
  pub heap : IsHeap calloc cells ans.state

module _ (calloc : ℕ → ℕ) (cells : ℕ) (cycling : ℕ → Bool) (ty n : ℕ) where
  -- In a new chunk every class is open and its blocks are dead.
  Ready-new :
      (st : HeapState) (index size : ℕ)
      → IsHeap calloc cells st
      → get_elem? block_sizes index ≡ some size
      → 0 < size
      → Ready (create_new_chunk calloc cells st) index st.allocator.number_of_chunks
  unfolding create_new_chunk clear_region
  Ready-new st index size is row pos =
      let base : ℕ = calloc st.allocator.number_of_chunks in
      let chunk = create_heap_chunk base cells in
      let is_chunk = create_heap_chunk-IsChunk base cells is.room in
      let (info, here) =
        get_elem?-some chunk.block_info_list index
          (omega (arith, get_elem?-lt block_sizes index size row, is_chunk.count)) in
      let (lo, hi) =
        run_within base cells block_sizes index info.entry_position size
          (is_chunk.entries index info here) row in
      let inside : 0 < size * cells = grind (arith, is.room) in
      let below : info.entry_position < base + cells * blocks_size = omega arith in
      record {
        chunk = chunk;
        info = info;
        stands =
            subst (λ k. get_elem? (st.allocator.chunks ++ (chunk ∷ [])) k ≡ some chunk) is.count
              (get_elem?-snoc_last st.allocator.chunks chunk);
        row = here;
        open_class = create_heap_chunk-open base cells index info here;
        free = ground arith;
      }

  create_new_chunk-number :
      (st : HeapState)
      → (create_new_chunk calloc cells st).allocator.number_of_chunks
        ≡ st.allocator.number_of_chunks + 1
  unfolding create_new_chunk
  create_new_chunk-number st = refl

  create_new_chunk-mem :
      (st : HeapState)
      → (create_new_chunk calloc cells st).mem
        ≡ clear_region (calloc st.allocator.number_of_chunks) (cells * blocks_size) st.mem
  unfolding create_new_chunk
  create_new_chunk-mem st = refl

  module _ (index size : ℕ) (row : get_elem? block_sizes index ≡ some size)
      (holds : byte_size n ≤ size) (pos : 0 < size) where
    alloc_loop-got :
        (fuel current a i : ℕ) (st st' : HeapState)
        → try_chunks cycling ty n index size st.allocator.number_of_chunks current st
          ≡ some (got a i st')
        → alloc_loop calloc cycling ty n (suc fuel) index size current st
          ≡ some (record { address = some a; chunk_search_start_index = i; state = st' })
    unfolding alloc_loop
    alloc_loop-got fuel current a i st st' e = rw (e, alloc_loop) refl

    alloc_loop-failed :
        (fuel current i : ℕ) (st st' : HeapState)
        → st'.allocator.chunks_cells_size ≡ cells
        → try_chunks cycling ty n index size st.allocator.number_of_chunks current st
          ≡ some (failed i st')
        → alloc_loop calloc cycling ty n (suc fuel) index size current st
          ≡ alloc_loop calloc cycling ty n fuel index size i (create_new_chunk calloc cells st')
    unfolding alloc_loop
    alloc_loop-failed fuel current i st st' c e = rw (e, alloc_loop, c) refl

    -- The round after a new chunk ends.
    second_round :
        (fuel current : ℕ) (st old : HeapState)
        → IsHeap calloc cells old
        → current < old.allocator.number_of_chunks
        → old.mem ≡ st.mem
        → Keeps st old
        → (t : Tried)
        → try_chunks cycling ty n index size
            (create_new_chunk calloc cells old).allocator.number_of_chunks
            current
            (create_new_chunk calloc cells old)
          ≡ some t
        → TriedOk calloc cells cycling ty n index size
            (create_new_chunk calloc cells old)
            current
            (create_new_chunk calloc cells old).allocator.number_of_chunks
            t
        → (ans : Answer) × (alloc_loop calloc cycling ty n
              (suc fuel)
              index
              size
              current
              (create_new_chunk calloc cells old)
            ≡ some ans)
          × Served calloc cells cycling ty n st ans
    second_round fuel current st old is lt same keeps t e (tried_got a s i st' hi b le f is' k) = (
      _,
      alloc_loop-got fuel current a i (create_new_chunk calloc cells old) st' e,
      record {
        a = a;
        s = s;
        mem = (create_new_chunk calloc cells old).mem;
        address = refl;
        start = omega (arith, k.number);
        in_block = b;
        holds = omega arith;
        fresh = f;
        before = inr (create_new_chunk-mem old ∙ cc (keeps.number, same));
        heap = is';
      },
    )
    second_round fuel current st old is lt same keeps t e
          (tried_failed i st' hi me is' k none_ready) =
        absurd (
          none_ready old.allocator.number_of_chunks
            (
              omega (arith, create_new_chunk-number old),
              elim (dec_lt old.allocator.number_of_chunks current) [
                | yes wrapped ↦ inr (omega (arith, create_new_chunk-number old))
                | no ahead ↦ inl (omega arith, omega (arith, create_new_chunk-number old))
              ],
            )
            (Ready-new old index size is row pos))

    -- Two rounds are enough.
    pub alloc_loop-Served :
        (fuel current : ℕ) (st : HeapState)
        → IsHeap calloc cells st
        → current < st.allocator.number_of_chunks
        → (ans : Answer) × (alloc_loop calloc cycling ty n (suc (suc fuel)) index size current st
            ≡ some ans)
          × Served calloc cells cycling ty n st ans
    alloc_loop-Served fuel current st is lt =
        let (t, e, ok) =
          try_chunks-Tries calloc cells cycling ty n index size row st.allocator.number_of_chunks
            current st is lt (omega arith) in
        first t e ok
      where
        first :
            (t : Tried)
            → try_chunks cycling ty n index size st.allocator.number_of_chunks current st ≡ some t
            → TriedOk calloc cells cycling ty n index size st current st.allocator.number_of_chunks
                t
            → (ans : Answer) × (alloc_loop calloc cycling ty n
                  (suc (suc fuel))
                  index
                  size
                  current
                  st
                ≡ some ans)
              × Served calloc cells cycling ty n st ans
        first t e (tried_got a s i st' hi b le f is' k) = (
          _,
          alloc_loop-got (suc fuel) current a i st st' e,
          record {
            a = a;
            s = s;
            mem = st.mem;
            address = refl;
            start = omega (arith, k.number);
            in_block = b;
            holds = omega arith;
            fresh = f;
            before = inl refl;
            heap = is';
          },
        )
        first t e (tried_failed i st' hi me is' k none_ready) =
            let new = create_new_chunk calloc cells st' in
            let (t', e', ok) =
              try_chunks-Tries calloc cells cycling ty n index size row
                new.allocator.number_of_chunks i new (create_new_chunk-IsHeap calloc cells st' is')
                (omega (arith, create_new_chunk-number st', k.number)) (omega arith) in
            let (ans, ea, served) =
              second_round fuel i st st' is' (omega (arith, k.number)) me k t' e' ok in
            (ans, alloc_loop-failed (suc fuel) current i st st' is'.size e ∙ ea, served)

  -- On a well-formed heap a request of at most 59 fields, from a start index within the chunks, is
  -- served with two rounds of fuel: the answer is a block of the chunk of the new start index, with room
  -- for the request, that was dead before; it is live now, with one reference and its fields cleared;
  -- the rest of the memory is that of the call, or that with one new chunk; and the heap is well formed.
  pub malloc-Served :
      (fuel start : ℕ) (st : HeapState)
      → IsHeap calloc cells st
      → start < st.allocator.number_of_chunks
      → n ≤ 59
      → (ans : Answer) × (malloc calloc cycling ty n (suc (suc fuel)) st start ≡ some ans)
        × Served calloc cells cycling ty n st ans
  unfolding malloc
  malloc-Served fuel start st is lt few = elim (Option-cases (size_class (byte_size n))) [
    | inl refused ↦
        absurd (omega (arith, (size_class-none (byte_size n)).0 refused, byte_size_lem n))
    | inr ((index, size), e) ↦
        let fits = size_class-Fits (byte_size n) index size e in
        rw (e, malloc)
          (alloc_loop-Served index size fits.row fits.holds
            (omega (arith, fits.holds, byte_size_lem n)) fuel start st is lt)
  ]

  -- A request of more than 59 and fewer than 2 ^ 60 fields gets a null pointer and changes nothing.
  pub malloc_too_large :
      (fuel start : ℕ) (st : HeapState)
      → 59 < n
      → n < 2 ^ 60
      → malloc calloc cycling ty n fuel st start
        ≡ some (record { address = none; chunk_search_start_index = start; state = st })
  unfolding malloc
  malloc_too_large fuel start st many fits =
      rw ((size_class-none (byte_size n)).1 (omega (arith, byte_size_lem n)), malloc) refl
