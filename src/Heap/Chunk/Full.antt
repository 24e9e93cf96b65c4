-- ===== src/Heap/Chunk/Full.antt =====
-- `empty` is set to false when a search fails and never set back: a full class stays closed, whatever
-- dies in it later.
use cat_la_project.Base.{
  ℕ, zero, suc, ◌+◌, ◌≤◌, ◌≡◌, Bool, none, some, get_elem?, get_elem?-some, get_elem?-lt, arith,
  dec_lt, ◌∙◌, subst,
}
use cat_la_project.Heap.Object.{Memory}
use cat_la_project.Heap.Layout.{HeapChunk, block_sizes, number_of_blocks}
use cat_la_project.Heap.Chunk.{Malloc, malloc_loop, malloc}
use cat_la_project.Heap.Chunk.Classes.{next_class_more, next_class_last}
use cat_la_project.Heap.Chunk.Outcome.{IsChunk}
use cat_la_project.Heap.Chunk.Passed.{IsFull}
use cat_la_project.Heap.Chunk.Promise.{try_class-full}

module _ (base cells : ℕ) (cycling : ℕ → Bool) (ts : Bool) (ty n : ℕ) (mem : Memory)
    (chunk : HeapChunk) (is : IsChunk base cells chunk) where
  abbrev null_answer : Malloc
  null_answer = record { chunk = chunk; mem = mem; address = none }

  malloc_loop-full :
      (fuel index size : ℕ)
      → ((k : ℕ) → index ≤ k → IsFull chunk k)
      → get_elem? block_sizes index ≡ some size
      → number_of_blocks ≤ fuel + index
      → malloc_loop cycling ts ty n fuel chunk mem index size ≡ some null_answer
  unfolding malloc_loop
  malloc_loop-full zero index size full at enough =
      absurd (omega (arith, get_elem?-lt block_sizes index size at))
  malloc_loop-full (suc fuel) index size full at enough =
      let (info, here) =
        get_elem?-some chunk.block_info_list index
          (omega (arith, is.count, get_elem?-lt block_sizes index size at)) in
      let step =
        try_class-full base cells cycling ts ty n mem chunk index size
          (λ chunk' b. malloc_loop cycling ts ty n fuel chunk' mem (index + 1) b) info here
          (full index (omega arith) info here) in
      step ∙ elim (dec_lt index 12) [
        | yes lt ↦
            let (b, hb, le, next) =
              next_class_more chunk mem index size
                (λ b. malloc_loop cycling ts ty n fuel chunk mem (index + 1) b) at lt in
            let plus : suc index ≡ index + 1 = omega arith in
            next
            ∙ subst (λ i. malloc_loop cycling ts ty n fuel chunk mem i b ≡ some null_answer) plus
                (malloc_loop-full fuel (suc index) b (λ k le'. full k (omega arith)) hb
                  (omega arith))
        | no ge ↦
            next_class_last chunk mem index size _ at
              (omega (arith, get_elem?-lt block_sizes index size at))
      ]

  -- On a well-formed chunk where the class of the index and all above it are marked full, a request for
  -- the class is refused, and nothing changes, whatever the memory holds.
  pub malloc-full :
      (index size : ℕ)
      → ((k : ℕ) → index ≤ k → IsFull chunk k)
      → get_elem? block_sizes index ≡ some size
      → malloc cycling ts ty n chunk mem index size ≡ some null_answer
  unfolding malloc
  malloc-full index size full at =
      malloc_loop-full number_of_blocks index size full at (omega arith)
