-- ===== src/Heap/Chunk/Passed.antt =====
-- What one call of `HeapChunk::malloc` comes to, and the classes that it passes over.
use cat_la_project.Base.{
  ℕ, suc, ◌+◌, ◌*◌, ◌≤◌, ◌<◌, ◌≡◌, ◌≢◌, refl, Bool, true, false, Option, none, some, get_elem?,
  get_elem?-lt, ℕ_discrete, arith, dec_lt, sym, ◌∙◌, subst,
}
use cat_la_project.Heap.Object.{Memory, is_dead}
use cat_la_project.Heap.Layout.{BlockInfo, HeapChunk, block_sizes, number_of_blocks}
use cat_la_project.Heap.Layout.Regions.{Block}
use cat_la_project.Heap.Chunk.{Malloc, next_class}
use cat_la_project.Heap.Chunk.Classes.{next_class_more, next_class_last}
use cat_la_project.Heap.Chunk.Outcome.{IsChunk, Fresh}

-- Every block of class `k` is in use, if the class is not marked full.
abbrev pub Occupied : HeapChunk → Memory → ℕ → Type 0
Occupied chunk mem k =
    (info : BlockInfo) (s i : ℕ)
    → get_elem? chunk.block_info_list k ≡ some info
    → get_elem? block_sizes k ≡ some s
    → info.empty ≡ true
    → i < chunk.cells_size
    → is_dead (mem (info.entry_position + i * s)).state ≡ false

abbrev pub IsFull : HeapChunk → ℕ → Type 0
IsFull chunk k =
    (info : BlockInfo) → get_elem? chunk.block_info_list k ≡ some info → info.empty ≡ false

abbrev pub SameAt : HeapChunk → HeapChunk → ℕ → Type 0
SameAt chunk chunk' k = get_elem? chunk'.block_info_list k ≡ get_elem? chunk.block_info_list k

-- The block at `a` is a cell of a class that is not marked full, of block size `s`. The classes from
-- `index` up to it are full: each is marked so, or has no dead block.
pub record Chosen (chunk : HeapChunk) (mem : Memory) (index a s : ℕ) : Type 0 where
  pub class_index : ℕ
  pub info : BlockInfo
  pub cell : ℕ
  pub above : index ≤ class_index
  pub row : get_elem? chunk.block_info_list class_index ≡ some info
  pub has_size : get_elem? block_sizes class_index ≡ some s
  pub is_open : info.empty ≡ true
  pub inside : cell < chunk.cells_size
  pub here : a ≡ info.entry_position + cell * s
  pub passed : (j : ℕ) → index ≤ j → j < class_index → Occupied chunk mem j

pub data Outcome (base cells : ℕ) (cycling : ℕ → Bool) (ty n : ℕ) (chunk : HeapChunk) (mem : Memory)
    (index size : ℕ) (m : Malloc) : Type 0 where
  allocated :
      (a s : ℕ)
      → m.address ≡ some a
      → Block base cells a s
      → size ≤ s
      → Fresh cycling ty n mem m.mem a
      → IsChunk base cells m.chunk
      → Chosen chunk mem index a s
      → Outcome base cells cycling ty n chunk mem index size m
  refused :
      m.address ≡ none
      → m.mem ≡ mem
      → IsChunk base cells m.chunk
      → ((k : ℕ) → k < index → SameAt chunk m.chunk k)
      → ((k : ℕ) → index ≤ k → IsFull m.chunk k)
      → ((k : ℕ) → index ≤ k → Occupied chunk mem k)
      → Outcome base cells cycling ty n chunk mem index size m

module _ (base cells : ℕ) (cycling : ℕ → Bool) (ts : Bool) (ty n : ℕ) (mem : Memory) where
  abbrev pub Promise : HeapChunk → ℕ → ℕ → Option Malloc → Type 0
  Promise chunk index size r =
      (m : Malloc) × (r ≡ some m) × Outcome base cells cycling ty n chunk mem index size m

  -- A class that is passed over: `chunk'` is `chunk` with class `index` marked full.
  pub record Passed (chunk chunk' : HeapChunk) (index : ℕ) : Type 0 where
    pub is_chunk : IsChunk base cells chunk'
    pub sizes : chunk'.cells_size ≡ chunk.cells_size
    pub full : IsFull chunk' index
    pub same : (k : ℕ) → k ≢ index → SameAt chunk chunk' k
    pub occupied : Occupied chunk mem index

  Occupied-SameAt :
      (chunk chunk' : HeapChunk) (k : ℕ)
      → SameAt chunk chunk' k
      → chunk'.cells_size ≡ chunk.cells_size
      → Occupied chunk' mem k
      → Occupied chunk mem k
  Occupied-SameAt chunk chunk' k same sizes occ info s i h hs e lt =
      occ info s i (same ∙ h) hs e (omega arith)

  IsFull-SameAt :
      (chunk chunk' : HeapChunk) (k : ℕ) → SameAt chunk chunk' k → IsFull chunk k → IsFull chunk' k
  IsFull-SameAt chunk chunk' k same full info h = full info (sym same ∙ h)

  Passed-Chosen :
      (chunk chunk' : HeapChunk) (index a s : ℕ)
      → Passed chunk chunk' index
      → Chosen chunk' mem (suc index) a s
      → Chosen chunk mem index a s
  Passed-Chosen chunk chunk' index a s p c = record {
    class_index = c.class_index;
    info = c.info;
    cell = c.cell;
    above = omega (arith, c.above);
    row = sym (p.same c.class_index (omega (arith, c.above))) ∙ c.row;
    has_size = c.has_size;
    is_open = c.is_open;
    inside = omega (arith, c.inside, p.sizes);
    here = c.here;
    passed = λ j at lt. elim (dec_lt index j) [
      | yes more ↦
          Occupied-SameAt chunk chunk' j (p.same j (omega arith)) p.sizes
            (c.passed j (omega arith) lt)
      | no here ↦ let eq : index ≡ j = omega arith in subst (Occupied chunk mem) eq p.occupied
    ];
  }

  Passed-Outcome :
      (chunk chunk' : HeapChunk) (index size size' : ℕ) (m : Malloc)
      → Passed chunk chunk' index
      → size ≤ size'
      → Outcome base cells cycling ty n chunk' mem (suc index) size' m
      → Outcome base cells cycling ty n chunk mem index size m
  Passed-Outcome chunk chunk' index size size' m p le (allocated a s e b le' f is c) =
      allocated a s e b (omega arith) f is (Passed-Chosen chunk chunk' index a s p c)
  Passed-Outcome chunk chunk' index size size' m p le (refused e me is below full occ) =
      refused e me is (λ k lt. below k (omega arith) ∙ p.same k (omega arith))
        (λ k at. elim (dec_lt index k) [
          | yes more ↦ full k more
          | no here ↦
              let eq : index ≡ k = omega arith in
              subst (IsFull m.chunk) eq
                (IsFull-SameAt chunk' m.chunk index (below index (omega arith)) p.full)
        ])
        (λ k at. elim (dec_lt index k) [
          | yes more ↦ Occupied-SameAt chunk chunk' k (p.same k (omega arith)) p.sizes (occ k more)
          | no here ↦ let eq : index ≡ k = omega arith in subst (Occupied chunk mem) eq p.occupied
        ])

  Passed-last :
      (chunk chunk' : HeapChunk) (size : ℕ)
      → Passed chunk chunk' 12
      → Outcome base cells cycling ty n chunk mem 12 size
          (record { chunk = chunk'; mem = mem; address = none })
  Passed-last chunk chunk' size p =
      refused refl refl p.is_chunk (λ k lt. p.same k (omega arith))
        (λ k at. elim (ℕ_discrete 12 k) [
          | yes eq ↦ subst (IsFull chunk') eq p.full
          | no ne ↦ λ info h.
              absurd (omega (arith, get_elem?-lt chunk'.block_info_list k info h, p.is_chunk.count))
        ])
        (λ k at. elim (ℕ_discrete 12 k) [
          | yes eq ↦ subst (Occupied chunk mem) eq p.occupied
          | no ne ↦ λ info s i h hs. absurd (omega (arith, get_elem?-lt block_sizes k s hs))
        ])

  pub next_class-Promise :
      (chunk chunk' : HeapChunk) (index size : ℕ) (rest : ℕ → Option Malloc)
      → Passed chunk chunk' index
      → get_elem? block_sizes index ≡ some size
      → ((b : ℕ)
          → suc index < number_of_blocks
          → get_elem? block_sizes (suc index) ≡ some b
          → Promise chunk' (suc index) b (rest b))
      → Promise chunk index size (next_class chunk' mem index size rest)
  next_class-Promise chunk chunk' index size rest p at ih = elim (dec_lt index 12) [
    | yes lt ↦
        let (b, hb, le, step) = next_class_more chunk' mem index size rest at lt in
        let (m, e, o) = ih b (omega arith) hb in
        (m, step ∙ e, Passed-Outcome chunk chunk' index size b m p le o)
    | no ge ↦
        let lt13 = get_elem?-lt block_sizes index size at in
        let eq : index ≡ 12 = omega arith in
        (
          record { chunk = chunk'; mem = mem; address = none },
          next_class_last chunk' mem index size rest at eq,
          subst
              (λ i.
                Outcome base cells cycling ty n chunk mem i size
                  (record { chunk = chunk'; mem = mem; address = none }))
              (sym eq) (Passed-last chunk chunk' size (subst (Passed chunk chunk') eq p)),
        )
  ]
