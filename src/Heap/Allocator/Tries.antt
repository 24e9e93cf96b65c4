-- ===== src/Heap/Allocator/Tries.antt =====
-- The inner loop over the chunks: what it returns, and that it asks every chunk.
use cat_la_project.Base.{
  ℕ, zero, suc, ◌+◌, ◌*◌, ◌≤◌, ◌<◌, ◌≡◌, ◌≢◌, refl, Bool, true, Option, none, some, get_elem?,
  get_elem?-some, get_elem?-set_ne, inl, inr, arith, sym, ◌∙◌, subst, ◌⊎◌, ℕ_discrete, ap, ◌==◌,
  Bool-cases,
}
use cat_la_project.Heap.Object.{Memory, is_dead}
use cat_la_project.Heap.Layout.{BlockInfo, HeapChunk, block_sizes}
use cat_la_project.Heap.Layout.Regions.{Block}
use cat_la_project.Heap.Chunk
use cat_la_project.Heap.Chunk.{Malloc}
use cat_la_project.Heap.Chunk.Outcome.{Fresh}
use cat_la_project.Heap.Chunk.Passed.{Outcome, allocated, refused}
use cat_la_project.Heap.Chunk.Promise.{malloc-Promise}
use cat_la_project.Heap.Allocator.{
  HeapState, with_chunk, Tried, got, failed, next_chunk, after_chunk, try_chunks,
}
use cat_la_project.Heap.Allocator.Wf.{IsHeap, with_chunk-IsHeap}

-- Chunk `k` has class `index` open, and its first block is dead.
pub record Ready (st : HeapState) (index k : ℕ) : Type 0 where
  pub chunk : HeapChunk
  pub info : BlockInfo
  pub stands : get_elem? st.allocator.chunks k ≡ some chunk
  pub row : get_elem? chunk.block_info_list index ≡ some info
  pub open_class : info.empty ≡ true
  pub free : is_dead (st.mem info.entry_position).state ≡ true

-- The chunks that the loop asks in `rounds` rounds from `current`.
abbrev pub Reach : (cs current rounds k : ℕ) → Type 0
Reach cs current rounds k =
    (k < cs) × (((current ≤ k) × (k < current + rounds)) ⊎ (k + cs < current + rounds))

-- What a heap keeps while chunks are asked.
pub record Keeps (st st' : HeapState) : Type 0 where
  pub number : st'.allocator.number_of_chunks ≡ st.allocator.number_of_chunks
  pub listed : st'.heap_chunk_list ≡ st.heap_chunk_list

module _ (calloc : ℕ → ℕ) (cells : ℕ) (cycling : ℕ → Bool) (ty n index size : ℕ) where
  pub data TriedOk (st : HeapState) (current rounds : ℕ) : Tried → Type 0 where
    tried_got :
        (a s i : ℕ) (st' : HeapState)
        → i < st.allocator.number_of_chunks
        → Block (calloc i) cells a s
        → size ≤ s
        → Fresh cycling ty n st.mem st'.mem a
        → IsHeap calloc cells st'
        → Keeps st st'
        → TriedOk st current rounds (got a i st')
    tried_failed :
        (i : ℕ) (st' : HeapState)
        → i < st.allocator.number_of_chunks
        → st'.mem ≡ st.mem
        → IsHeap calloc cells st'
        → Keeps st st'
        → ((k : ℕ) → Reach st.allocator.number_of_chunks current rounds k → Ready st index k → ⊥)
        → TriedOk st current rounds (failed i st')

  abbrev pub Tries : HeapState → ℕ → ℕ → Option Tried → Type 0
  Tries st current rounds r = (t : Tried) × (r ≡ some t) × TriedOk st current rounds t

  pub next_chunk-lt : (cs i : ℕ) → i < cs → next_chunk cs i < cs
  unfolding next_chunk
  next_chunk-lt cs i h = ground arith

  Reach-next :
      (cs i rounds k : ℕ)
      → i < cs
      → rounds < cs
      → k ≢ i
      → Reach cs i (suc rounds) k
      → Reach cs (next_chunk cs i) rounds k
  unfolding next_chunk
  Reach-next cs i rounds k lt le ne r = elim (Bool-cases (i + 1 == cs)) [
    | inl last ↦ ground arith
    | inr more ↦ ground arith
  ]

  -- A chunk that refused was not ready.
  refused-Ready :
      (st : HeapState) (current : ℕ) (chunk : HeapChunk) (m : Malloc)
      → IsHeap calloc cells st
      → get_elem? st.allocator.chunks current ≡ some chunk
      → get_elem? block_sizes index ≡ some size
      → Outcome (calloc current) cells cycling ty n chunk st.mem index size m
      → m.address ≡ none
      → Ready st index current
      → ⊥
  refused-Ready st current chunk m is here row (allocated a s e b le f is' c) no_address r = cc
  refused-Ready st current chunk m is here row (refused e me is' below full occ) no_address r =
      let same : r.chunk ≡ chunk = cc (r.stands) in
      let info : get_elem? chunk.block_info_list index ≡ some r.info = rw (← same) r.row in
      let at : r.info.entry_position + 0 * size ≡ r.info.entry_position = omega arith in
      let busy =
        occ index (omega arith) r.info size 0 info row r.open_class
          (omega (arith, is.room, (is.chunks current chunk here).size)) in
      cc (busy, r.free, ap (λ a. is_dead (st.mem a).state) at)

  Ready-keep :
      (st : HeapState) (current k : ℕ) (chunk : HeapChunk) (mem : Memory)
      → mem ≡ st.mem
      → k ≢ current
      → Ready st index k
      → Ready (with_chunk st current chunk mem) index k
  Ready-keep st current k chunk mem same ne r = record {
    chunk = r.chunk;
    info = r.info;
    stands = get_elem?-set_ne st.allocator.chunks current k chunk (λ e. ne (sym e)) ∙ r.stands;
    row = r.row;
    open_class = r.open_class;
    free = rw same r.free;
  }

  -- One round that refused, followed by the others.
  TriedOk-next :
      (st : HeapState) (current rounds : ℕ) (chunk : HeapChunk) (m : Malloc) (t : Tried)
      → current < st.allocator.number_of_chunks
      → rounds < st.allocator.number_of_chunks
      → m.mem ≡ st.mem
      → (Ready st index current → ⊥)
      → TriedOk
          (with_chunk st current m.chunk m.mem)
          (next_chunk st.allocator.number_of_chunks current)
          rounds
          t
      → TriedOk st current (suc rounds) t
  TriedOk-next st current rounds chunk m t lt le same no_one (tried_got a s i st' hi b hs f is k) =
      tried_got a s i st' hi b hs (subst (λ mem. Fresh cycling ty n mem st'.mem a) same f) is
        (record { number = k.number; listed = k.listed })
  TriedOk-next st current rounds chunk m t lt le same no_one
        (tried_failed i st' hi me is k none_ready) =
      tried_failed i st' hi (me ∙ same) is (record { number = k.number; listed = k.listed })
        λ j reach ready. elim (ℕ_discrete j current) [
          | yes here ↦ no_one (subst (Ready st index) here ready)
          | no ne ↦
              none_ready j
                (Reach-next st.allocator.number_of_chunks current rounds j lt le ne reach)
                (Ready-keep st current j m.chunk m.mem same ne ready)
        ]

  module _ (row : get_elem? block_sizes index ≡ some size) where
    try_chunks-zero :
        (current : ℕ) (st : HeapState)
        → try_chunks cycling ty n index size 0 current st ≡ some (failed current st)
    unfolding try_chunks
    try_chunks-zero current st = refl

    try_chunks-suc :
        (rounds current : ℕ) (st : HeapState) (chunk : HeapChunk) (m : Malloc)
        → get_elem? st.allocator.chunks current ≡ some chunk
        → Chunk.malloc cycling st.allocator.is_thread_safe ty n chunk st.mem index size ≡ some m
        → try_chunks cycling ty n index size (suc rounds) current st
          ≡ after_chunk cycling ty n index size st current m (
              try_chunks cycling ty n index size rounds
                (next_chunk st.allocator.number_of_chunks current)
                (with_chunk st current m.chunk m.mem))
    unfolding try_chunks
    try_chunks-suc rounds current st chunk m here e = rw (here, try_chunks, e) refl

    after-got :
        (st : HeapState) (current a : ℕ) (m : Malloc) (rest : Option Tried)
        → m.address ≡ some a
        → after_chunk cycling ty n index size st current m rest
          ≡ some (got a current (with_chunk st current m.chunk m.mem))
    unfolding after_chunk
    after-got st current a m rest e = ground arith

    after-none :
        (st : HeapState) (current : ℕ) (m : Malloc) (rest : Option Tried)
        → m.address ≡ none
        → after_chunk cycling ty n index size st current m rest ≡ rest
    unfolding after_chunk
    after-none st current m rest e = ground arith

    round-Tries :
        (st : HeapState) (current rounds : ℕ) (chunk : HeapChunk) (m : Malloc) (rest : Option Tried)
        → IsHeap calloc cells st
        → current < st.allocator.number_of_chunks
        → rounds < st.allocator.number_of_chunks
        → get_elem? st.allocator.chunks current ≡ some chunk
        → (IsHeap calloc cells (with_chunk st current m.chunk m.mem)
            → Tries
                (with_chunk st current m.chunk m.mem)
                (next_chunk st.allocator.number_of_chunks current)
                rounds
                rest)
        → Outcome (calloc current) cells cycling ty n chunk st.mem index size m
        → Tries st current (suc rounds) (after_chunk cycling ty n index size st current m rest)
    round-Tries st current rounds chunk m rest is lt le here ih (allocated a s e b hs f is' c) = (
      got a current (with_chunk st current m.chunk m.mem),
      after-got st current a m rest e,
      tried_got a s current _ lt b hs f
          (with_chunk-IsHeap calloc cells st current chunk m.chunk m.mem is here is')
          (record { number = refl; listed = refl }),
    )
    round-Tries st current rounds chunk m rest is lt le here ih (refused e me is' below full occ) =
        let (t, et, ok) =
          ih (with_chunk-IsHeap calloc cells st current chunk m.chunk m.mem is here is') in
        let no_one =
          refused-Ready st current chunk m is here row (refused e me is' below full occ) e in
        (
          t,
          after-none st current m rest e ∙ et,
          TriedOk-next st current rounds chunk m t lt le me no_one ok,
        )

    pub try_chunks-Tries :
        (rounds current : ℕ) (st : HeapState)
        → IsHeap calloc cells st
        → current < st.allocator.number_of_chunks
        → rounds ≤ st.allocator.number_of_chunks
        → Tries st current rounds (try_chunks cycling ty n index size rounds current st)
    try_chunks-Tries zero current st is lt le = (
      failed current st,
      try_chunks-zero current st,
      tried_failed current st lt refl is (record { number = refl; listed = refl })
          (λ k reach ready. absurd (omega arith)),
    )
    try_chunks-Tries (suc rounds) current st is lt le =
        let (chunk, here) = get_elem?-some st.allocator.chunks current (omega (arith, is.count)) in
        let (m, e, o) =
          malloc-Promise (calloc current) cells cycling st.allocator.is_thread_safe ty n st.mem
            chunk index size (is.chunks current chunk here) row in
        rw (try_chunks-suc rounds current st chunk m here e) (
          round-Tries st current rounds chunk m _ is lt (omega arith) here
            (λ is'.
              try_chunks-Tries rounds (next_chunk st.allocator.number_of_chunks current)
                (with_chunk st current m.chunk m.mem) is'
                (next_chunk-lt st.allocator.number_of_chunks current lt) (omega arith))
            o)
