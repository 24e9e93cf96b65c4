-- ===== src/Heap/Allocator/Separate.antt =====
-- A new object shares no byte with any object in use, and leaves every such object as it was.
use cat_la_project.Base.{
  ℕ, suc, ◌*◌, ◌≤◌, ◌<◌, ◌≡◌, ◌≢◌, Bool, false, some, inl, inr, arith, sym, ◌∙◌, subst, ◌⊎◌, ap,
  ℕ_discrete,
}
use cat_la_project.Heap.Object.{Memory, is_dead}
use cat_la_project.Heap.Layout.{blocks_size}
use cat_la_project.Heap.Layout.Regions.{Block, block, Apart, Block-within, Block-Apart}
use cat_la_project.Heap.SizeClass.{byte_size}
use cat_la_project.Heap.SizeClass.Fits.{size_at}
use cat_la_project.Heap.Allocator.{HeapState, Answer, malloc, clear_region}
use cat_la_project.Heap.Allocator.Wf.{IsHeap}
use cat_la_project.Heap.Allocator.Total.{Served, malloc-Served}

-- What the code relies on in `calloc`: two calls return regions that share no byte.
abbrev pub Disjoint : (ℕ → ℕ) → ℕ → Type 0
Disjoint calloc cells =
    (i j : ℕ) → i ≢ j → Apart (calloc i) (cells * blocks_size) (calloc j) (cells * blocks_size)

Block-pos : {base cells a s : ℕ} → Block base cells a s → 0 < s
Block-pos {s} (block j i p hp hs hi e) = omega (arith, size_at j s hs)

-- The objects in use in the chunks of `st`, as the new object at `a` finds and leaves them.
abbrev pub KeepsLive : (ℕ → ℕ) → ℕ → HeapState → Answer → ℕ → ℕ → Type 0
KeepsLive calloc cells st ans a s =
    (k b t : ℕ)
    → k < st.allocator.number_of_chunks
    → Block (calloc k) cells b t
    → is_dead (st.mem b).state ≡ false
    → (ans.state.mem b ≡ st.mem b) × Apart a s b t

module _ (calloc : ℕ → ℕ) (cells : ℕ) (apart : Disjoint calloc cells) where
  blocks_of_two :
      {i k a s b t : ℕ}
      → Block (calloc i) cells a s
      → Block (calloc k) cells b t
      → a ≢ b
      → Apart a s b t
  blocks_of_two {i} {k} {a} {s} {b} {t} p q ne = elim (ℕ_discrete i k) [
    | yes same ↦ Block-Apart (subst (λ c. Block (calloc c) cells a s) same p) q ne
    | no other ↦ regions (apart i k other)
  ]
    where
      regions :
          Apart (calloc i) (cells * blocks_size) (calloc k) (cells * blocks_size) → Apart a s b t
      regions (inl le) =
          let (l, h) = Block-within p in let (l', h') = Block-within q in inl (omega arith)
      regions (inr le) =
          let (l, h) = Block-within p in let (l', h') = Block-within q in inr (omega arith)

  outside :
      (k new b t : ℕ) (mem : Memory)
      → k ≢ new
      → Block (calloc k) cells b t
      → clear_region (calloc new) (cells * blocks_size) mem b ≡ mem b
  unfolding clear_region
  outside k new b t mem ne q = ground (arith, Block-within q, Block-pos q, apart k new ne)

  module _ (cycling : ℕ → Bool) (ty n : ℕ) where
    Served-KeepsLive :
        (st : HeapState) (ans : Answer)
        → (v : Served calloc cells cycling ty n st ans) → KeepsLive calloc cells st ans v.a v.s
    Served-KeepsLive st ans v k b t lt q busy =
        let same : v.mem b ≡ st.mem b = held v.before in
        let ne : b ≢ v.a =
          λ e. cc (v.fresh.was_dead, busy, same, ap (λ x. is_dead (v.mem x).state) e) in
        (v.fresh.others b ne ∙ same, blocks_of_two v.in_block q (λ e. ne (sym e)))
      where
        held :
            (v.mem ≡ st.mem)
              ⊎ (v.mem
                  ≡ clear_region
                      (calloc st.allocator.number_of_chunks)
                      (cells * blocks_size)
                      st.mem)
            → v.mem b ≡ st.mem b
        held (inl e) = ap (λ m. m b) e
        held (inr e) =
            ap (λ m. m b) e ∙ outside k st.allocator.number_of_chunks b t st.mem (omega arith) q

    -- On a well-formed heap whose chunks `calloc` keeps apart, a request of at most 59 fields, from a
    -- start index within the chunks and with two rounds of fuel, gets an address. The block there has
    -- room for the request and shares no byte with the block of any object in use, and every object in
    -- use is left as it was.
    pub malloc-KeepsLive :
        (fuel start : ℕ) (st : HeapState)
        → IsHeap calloc cells st
        → start < st.allocator.number_of_chunks
        → n ≤ 59
        → (ans : Answer) × (a s : ℕ) × (malloc calloc cycling ty n (suc (suc fuel)) st start
            ≡ some ans)
          × (ans.address ≡ some a)
          × (byte_size n ≤ s)
          × KeepsLive calloc cells st ans a s
    malloc-KeepsLive fuel start st is lt few =
        let (ans, e, v) = malloc-Served calloc cells cycling ty n fuel start st is lt few in
        (ans, v.a, v.s, e, v.address, v.holds, Served-KeepsLive st ans v)
