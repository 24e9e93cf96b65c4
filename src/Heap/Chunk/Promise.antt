-- ===== src/Heap/Chunk/Promise.antt =====
-- `HeapChunk::malloc` ends and keeps its promise, from every class and every well-formed chunk.
use cat_la_project.Base.{
  ℕ, zero, suc, ◌+◌, ◌*◌, ◌≤◌, ◌<◌, ◌≡◌, refl, Bool, true, false, Option, some, get_elem?,
  get_elem?-lt, get_elem?-some, get_elem?-set_self, get_elem?-set_ne, arith, dec_lt, sym, subst,
  inl, inr, Bool-cases,
}
use cat_la_project.Heap.Object.{Memory}
use cat_la_project.Heap.Layout.{BlockInfo, HeapChunk, block_sizes, number_of_blocks}
use cat_la_project.Heap.Layout.Regions.{block}
use cat_la_project.Heap.Chunk.{
  Cursor, Malloc, Search, hit, exhausted, set_info, block_scan, take_block, next_class, try_class,
  malloc_loop, malloc,
}
use cat_la_project.Heap.Chunk.Scan.{OnRun, scan-hit, scan-exhausted, next_location-lt}
use cat_la_project.Heap.Chunk.Outcome.{IsChunk, set_info-IsChunk, init_object-Fresh}
use cat_la_project.Heap.Chunk.Passed.{Outcome, allocated, Promise, Passed, next_class-Promise}

module _ (base cells : ℕ) (cycling : ℕ → Bool) (ts : Bool) (ty n : ℕ) (mem : Memory) where
  -- The start of a search lies on the run of its info.
  start-OnRun :
      (chunk : HeapChunk) (index size : ℕ) (info : BlockInfo)
      → IsChunk base cells chunk
      → get_elem? chunk.block_info_list index ≡ some info
      → OnRun info.entry_position size chunk.cells_size (record {
        entry = info.entry_position + info.current_location * size;
        index = info.current_location;
      })
  start-OnRun chunk index size info is here = record {
    at = refl;
    within = omega (arith, is.size, is.located index info here);
  }

  Passed-full :
      (chunk : HeapChunk) (index : ℕ) (info : BlockInfo)
      → IsChunk base cells chunk
      → get_elem? chunk.block_info_list index ≡ some info
      → info.empty ≡ false
      → Passed base cells cycling ts ty n mem chunk chunk index
  Passed-full chunk index info is here full = record {
    is_chunk = is;
    sizes = refl;
    full = λ info' h. let e : info ≡ info' = cc in rw (← e) full;
    same = λ k ne. refl;
    occupied = λ info' s i h hs empty lt. let e : info ≡ info' = cc in absurd (cc);
  }

  Passed-exhausted :
      (chunk : HeapChunk) (index size : ℕ) (info : BlockInfo) (c : Cursor)
      → IsChunk base cells chunk
      → get_elem? chunk.block_info_list index ≡ some info
      → get_elem? block_sizes index ≡ some size
      → block_scan ts chunk mem info size ≡ exhausted c
      → Passed base cells cycling ts ty n mem chunk
          (set_info chunk index (record info { current_location = c.index; empty = false }))
          index
  unfolding block_scan
  Passed-exhausted chunk index size info c is here at searched =
      let new : BlockInfo = record info { current_location = c.index; empty = false } in
      let now =
        get_elem?-set_self chunk.block_info_list index new
          (get_elem?-lt chunk.block_info_list index info here) in
      let (on, seen) =
        scan-exhausted info.entry_position size chunk.cells_size ts mem chunk.cells_size _ c
          (omega arith) (start-OnRun chunk index size info is here) searched in
      record {
        is_chunk = set_info-IsChunk index info new is here refl (omega (arith, on.within, is.size));
        sizes = refl;
        full = λ info' h. let e : new ≡ info' = cc now in rw (← e);
        same = λ k ne. get_elem?-set_ne chunk.block_info_list index k new (λ e. ne (sym e));
        occupied = λ info' s i h hs empty lt.
            let e : info ≡ info' = cc in
            let es : size ≡ s = cc in
            rw (← e, ← es)
              (seen i lt (elim (dec_lt i info.current_location) [
                | yes before ↦ inr (omega arith)
                | no after ↦ inl (omega arith, omega arith)
              ]));
      }

  taken-Outcome :
      (chunk : HeapChunk) (index size : ℕ) (info : BlockInfo) (c : Cursor) (mem' : Memory)
      → IsChunk base cells chunk
      → get_elem? chunk.block_info_list index ≡ some info
      → get_elem? block_sizes index ≡ some size
      → info.empty ≡ true
      → block_scan ts chunk mem info size ≡ hit c mem'
      → Outcome base cells cycling ty n chunk mem index size
          (take_block cycling ts ty n chunk mem' info index c)
  unfolding block_scan take_block
  taken-Outcome chunk index size info c mem' is here at empty searched =
      let t =
        scan-hit info.entry_position size chunk.cells_size ts mem chunk.cells_size _ c mem'
          (start-OnRun chunk index size info is here) searched in
      allocated c.entry size refl
        (block index c.index info.entry_position (is.entries index info here) at
          (omega (arith, is.size, t.on_run.within)) t.on_run.at)
        (omega arith) (init_object-Fresh cycling ty n c.entry mem mem' t.was_dead t.claimed)
        (set_info-IsChunk index info _ is here refl (
          omega (
            arith,
            is.size,
            next_location-lt info.entry_position size chunk.cells_size c.index t.on_run.within,
          )))
        (record {
          class_index = index;
          info = info;
          cell = c.index;
          above = omega arith;
          row = here;
          has_size = at;
          is_open = empty;
          inside = t.on_run.within;
          here = t.on_run.at;
          passed = λ j le lt. absurd (omega arith);
        })

  try_class-hit :
      (chunk : HeapChunk) (index size : ℕ) (rest : HeapChunk → ℕ → Option Malloc) (info : BlockInfo)
      (c : Cursor) (mem' : Memory)
      → get_elem? chunk.block_info_list index ≡ some info
      → info.empty ≡ true
      → block_scan ts chunk mem info size ≡ hit c mem'
      → try_class cycling ts ty n chunk mem index size rest
        ≡ some (take_block cycling ts ty n chunk mem' info index c)
  unfolding try_class
  try_class-hit chunk index size rest info c mem' here empty e = rw (here, try_class, e, empty) refl

  try_class-exhausted :
      (chunk : HeapChunk) (index size : ℕ) (rest : HeapChunk → ℕ → Option Malloc) (info : BlockInfo)
      (c : Cursor)
      → get_elem? chunk.block_info_list index ≡ some info
      → info.empty ≡ true
      → block_scan ts chunk mem info size ≡ exhausted c
      → (let full : HeapChunk =
            set_info chunk index (record info { current_location = c.index; empty = false }) in
          try_class cycling ts ty n chunk mem index size rest
          ≡ next_class full mem index size (rest full))
  unfolding try_class
  try_class-exhausted chunk index size rest info c here empty e =
      rw (here, try_class, e, empty) refl

  pub try_class-full :
      (chunk : HeapChunk) (index size : ℕ) (rest : HeapChunk → ℕ → Option Malloc) (info : BlockInfo)
      → get_elem? chunk.block_info_list index ≡ some info
      → info.empty ≡ false
      → try_class cycling ts ty n chunk mem index size rest
        ≡ next_class chunk mem index size (rest chunk)
  unfolding try_class
  try_class-full chunk index size rest info here full = rw (here, try_class, full) refl

  try_class-Promise :
      (chunk : HeapChunk) (index size : ℕ) (rest : HeapChunk → ℕ → Option Malloc)
      → IsChunk base cells chunk
      → get_elem? block_sizes index ≡ some size
      → ((chunk' : HeapChunk) (b : ℕ)
          → IsChunk base cells chunk'
          → suc index < number_of_blocks
          → get_elem? block_sizes (suc index) ≡ some b
          → Promise base cells cycling ts ty n mem chunk' (suc index) b (rest chunk' b))
      → Promise base cells cycling ts ty n mem chunk index size
          (try_class cycling ts ty n chunk mem index size rest)
  try_class-Promise chunk index size rest is at ih =
      let (info, here) =
        get_elem?-some chunk.block_info_list index
          (omega (arith, is.count, get_elem?-lt block_sizes index size at)) in
      elim (Bool-cases info.empty) [
        | inl empty ↦ searched info here empty (block_scan ts chunk mem info size) refl
        | inr full ↦
            let p = Passed-full chunk index info is here full in
            rw (try_class-full chunk index size rest info here full) (
              next_class-Promise base cells cycling ts ty n mem chunk chunk index size (rest chunk)
                p at (λ b lt hb. ih chunk b is lt hb))
      ]
    where
      searched :
          (info : BlockInfo)
          → get_elem? chunk.block_info_list index ≡ some info
          → info.empty ≡ true
          → (found : Search) → block_scan ts chunk mem info size ≡ found
          → Promise base cells cycling ts ty n mem chunk index size
              (try_class cycling ts ty n chunk mem index size rest)
      searched info here empty (hit c mem') e = (
        take_block cycling ts ty n chunk mem' info index c,
        try_class-hit chunk index size rest info c mem' here empty e,
        taken-Outcome chunk index size info c mem' is here at empty e,
      )
      searched info here empty (exhausted c) e =
          let p = Passed-exhausted chunk index size info c is here at e in
          rw (try_class-exhausted chunk index size rest info c here empty e) (
            next_class-Promise base cells cycling ts ty n mem chunk _ index size (rest _) p at
              (λ b lt hb. ih _ b p.is_chunk lt hb))

  pub malloc_loop-Promise :
      (fuel : ℕ) (chunk : HeapChunk) (index size : ℕ)
      → IsChunk base cells chunk
      → get_elem? block_sizes index ≡ some size
      → number_of_blocks ≤ fuel + index
      → Promise base cells cycling ts ty n mem chunk index size
          (malloc_loop cycling ts ty n fuel chunk mem index size)
  unfolding malloc_loop
  malloc_loop-Promise zero chunk index size is at enough =
      absurd (omega (arith, get_elem?-lt block_sizes index size at))
  malloc_loop-Promise (suc fuel) chunk index size is at enough =
      try_class-Promise chunk index size
        (λ chunk' b. malloc_loop cycling ts ty n fuel chunk' mem (index + 1) b) is at
        (λ chunk' b is' lt hb.
          let next : suc index ≡ index + 1 = omega arith in
          subst
            (λ i.
              Promise base cells cycling ts ty n mem chunk' (suc index) b
                (malloc_loop cycling ts ty n fuel chunk' mem i b))
            next (malloc_loop-Promise fuel chunk' (suc index) b is' hb (omega arith)))

  -- On a well-formed chunk, from the class of an index and its block size, `HeapChunk::malloc` ends within
  -- its thirteen rounds. It answers a fresh object in a block of a class that was not marked full, that
  -- class or a larger one, where each class that it passed over was marked full or had no dead block. Or
  -- it refuses: then the memory is as it was, that class and all above are marked full, and each of them
  -- that was not marked before had no dead block.
  pub malloc-Promise :
      (chunk : HeapChunk) (index size : ℕ)
      → IsChunk base cells chunk
      → get_elem? block_sizes index ≡ some size
      → Promise base cells cycling ts ty n mem chunk index size
          (malloc cycling ts ty n chunk mem index size)
  unfolding malloc
  malloc-Promise chunk index size is at =
      malloc_loop-Promise number_of_blocks chunk index size is at (omega arith)
