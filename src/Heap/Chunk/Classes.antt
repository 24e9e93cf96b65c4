-- ===== src/Heap/Chunk/Classes.antt =====
-- The walk over the size classes: block sizes and indices stay in step.
use cat_la_project.Base.{
  ℕ, zero, suc, ◌+◌, ◌≤◌, ◌<◌, ◌≡◌, refl, Option, none, some, List, [], ◌∷◌, get_elem?,
  get_elem?-some, arith, ◌∙◌, sym, ap, ◌==◌, false,
}
use cat_la_project.Heap.Object.{Memory}
use cat_la_project.Heap.Layout.{HeapChunk, block_sizes}
use cat_la_project.Heap.Chunk.{Malloc, next_block_size, next_class}

some_eq : (a b : ℕ) → some a ≡ some b → a ≡ b
some_eq a b h = cc

-- Each size is followed by the one that the code computes from it.
abbrev Chain : List ℕ → Type 0
Chain [] = Unit {0}
Chain (x ∷ []) = Unit {0}
Chain (x ∷ y ∷ xs) = (next_block_size x ≡ some y) × (x ≤ y) × Chain (y ∷ xs)

Chain-at :
    (xs : List ℕ) (j x y : ℕ)
    → Chain xs
    → get_elem? xs j ≡ some x
    → get_elem? xs (suc j) ≡ some y
    → (next_block_size x ≡ some y) × (x ≤ y)
Chain-at [] j x y c hx hy = absurd (cc)
Chain-at (a ∷ []) zero x y c hx hy = absurd (cc)
Chain-at (a ∷ []) (suc j) x y c hx hy = absurd (cc)
Chain-at (a ∷ b ∷ xs) zero x y c hx hy = ground (arith, c)
Chain-at (a ∷ b ∷ xs) (suc j) x y c hx hy = Chain-at (b ∷ xs) j x y c.2 hx hy

block_sizes-Chain : Chain block_sizes
unfolding next_block_size
block_sizes-Chain = ground arith

module _ (chunk : HeapChunk) (mem : Memory) (index block_size : ℕ) (rest : ℕ → Option Malloc)
    (size : get_elem? block_sizes index ≡ some block_size) where
  -- Below the last class the walk goes on with the size of the next class.
  pub next_class_more :
      index < 12
      → (b : ℕ) × (get_elem? block_sizes (suc index) ≡ some b)
        × (block_size ≤ b)
        × (next_class chunk mem index block_size rest ≡ rest b)
  unfolding next_class
  next_class_more lt =
      let (b, e) = get_elem?-some block_sizes (suc index) (omega arith) in
      let (step, le) = Chain-at block_sizes index block_size b block_sizes-Chain size e in
      let ne : (index + 1 == 13) ≡ false = ground arith in
      (b, e, le, rw (step, next_class, ne) refl)

  -- After the last class it ends with a null pointer.
  pub next_class_last :
      index ≡ 12
      → next_class chunk mem index block_size rest
        ≡ some (record { chunk = chunk; mem = mem; address = none })
  unfolding next_class next_block_size
  next_class_last e =
      let last : block_size ≡ 512 =
        some_eq block_size 512 (sym size ∙ ap (get_elem? block_sizes) e) in
      ground (arith, last)
