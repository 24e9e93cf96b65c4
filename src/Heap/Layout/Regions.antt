-- ===== src/Heap/Layout/Regions.antt =====
-- The runs of a chunk and their blocks do not overlap, and stay within the `calloc`.
use cat_la_project.Base.{
  ℕ, zero, suc, ◌+◌, ◌*◌, ◌≤◌, ◌<◌, ◌≡◌, ◌≢◌, refl, ◌⊎◌, inl, inr, List, [], ◌∷◌, some, get_elem?,
  length, arith, dec_lt, ap,
}
use cat_la_project.Heap.Layout.{positions, block_sizes, blocks_size}

abbrev pub sum : List ℕ → ℕ
sum [] = 0
sum (x ∷ xs) = x + sum xs

pub length-positions : (base cells : ℕ) (ss : List ℕ) → length (positions base cells ss) ≡ length ss
unfolding positions
length-positions base cells [] = refl
length-positions base cells (s ∷ ss) = ap suc (length-positions (base + s * cells) cells ss)

-- A run lies between the start and the end of all runs.
pub run_within :
    (base cells : ℕ) (ss : List ℕ) (j p s : ℕ)
    → get_elem? (positions base cells ss) j ≡ some p
    → get_elem? ss j ≡ some s
    → (base ≤ p) × (p + s * cells ≤ base + sum ss * cells)
unfolding positions
run_within base cells [] j p s hp hs = absurd (cc)
run_within base cells (x ∷ ss) zero p s hp hs =
    let here : base ≡ p = ground arith in
    let size : x ≡ s = ground arith in rw (← here, ← size) (omega arith, omega arith)
run_within base cells (x ∷ ss) (suc j) p s hp hs =
    let (lo, hi) = run_within (base + x * cells) cells ss j p s hp hs in (omega arith, omega arith)

-- An earlier run ends before a later one starts.
pub run_order :
    (base cells : ℕ) (ss : List ℕ) (j k p q s t : ℕ)
    → j < k
    → get_elem? (positions base cells ss) j ≡ some p
    → get_elem? ss j ≡ some s
    → get_elem? (positions base cells ss) k ≡ some q
    → get_elem? ss k ≡ some t
    → p + s * cells ≤ q
unfolding positions
run_order base cells [] j k p q s t lt hp hs hq ht = absurd (cc)
run_order base cells (x ∷ ss) zero zero p q s t lt hp hs hq ht = absurd (omega arith)
run_order base cells (x ∷ ss) zero (suc k) p q s t lt hp hs hq ht =
    let here : base ≡ p = ground arith in
    let size : x ≡ s = ground arith in
    rw (← here, ← size) (run_within (base + x * cells) cells ss k q t hq ht).0
run_order base cells (x ∷ ss) (suc j) zero p q s t lt hp hs hq ht = absurd (omega arith)
run_order base cells (x ∷ ss) (suc j) (suc k) p q s t lt hp hs hq ht =
    run_order (base + x * cells) cells ss j k p q s t (omega arith) hp hs hq ht

pub cell_within : (i cells s : ℕ) → i < cells → i * s + s ≤ s * cells
cell_within i cells s h = grind arith

cell_order : (i j s : ℕ) → i < j → i * s + s ≤ j * s
cell_order i j s h = grind arith

-- The addresses of the blocks of one chunk.
pub data Block (base cells : ℕ) (a s : ℕ) : Type 0 where
  block :
      (j i p : ℕ)
      → get_elem? (positions base cells block_sizes) j ≡ some p
      → get_elem? block_sizes j ≡ some s
      → i < cells
      → a ≡ p + i * s
      → Block base cells a s

abbrev pub Apart : (a s b t : ℕ) → Type 0
Apart a s b t = (a + s ≤ b) ⊎ (b + t ≤ a)

blocks_apart :
    (base cells j k i l p q s t : ℕ)
    → get_elem? (positions base cells block_sizes) j ≡ some p
    → get_elem? block_sizes j ≡ some s
    → get_elem? (positions base cells block_sizes) k ≡ some q
    → get_elem? block_sizes k ≡ some t
    → i < cells
    → j < k
    → p + i * s + s ≤ q + l * t
blocks_apart base cells j k i l p q s t hp hs hq ht hi lt =
    omega
      (arith, run_order base cells block_sizes j k p q s t lt hp hs hq ht, cell_within i cells s hi)

-- A block stays within the `cells_size * BLOCKS_SIZE` bytes in front of the info list.
pub Block-within :
    {base cells a s : ℕ} → Block base cells a s → (base ≤ a) × (a + s ≤ base + cells * blocks_size)
Block-within {base} {cells} {s} (block j i p hp hs hi e) =
    let (lo, hi') = run_within base cells block_sizes j p s hp hs in
    let inside = cell_within i cells s hi in (omega arith, omega arith)

same_run : (i l p s : ℕ) → p + i * s ≢ p + l * s → Apart (p + i * s) s (p + l * s) s
same_run i l p s ne = elim (dec_lt i l) [
  | yes lt ↦ inl (omega (arith, cell_order i l s lt))
  | no ge ↦ elim (dec_lt l i) [
    | yes gt ↦ inr (omega (arith, cell_order l i s gt))
    | no le ↦ let e : i ≡ l = omega arith in absurd (ne (ap (λ n. p + n * s) e))
  ]
]

-- Two blocks of one chunk at different addresses share no byte, whatever their classes.
pub Block-Apart :
    {base cells a s b t : ℕ} → Block base cells a s → Block base cells b t → a ≢ b → Apart a s b t
Block-Apart {base} {cells} {s} {t} (block j i p hp hs hi e) (block k l q hq ht hl f) ne =
    elim (dec_lt j k) [
      | yes lt ↦ inl (omega (arith, blocks_apart base cells j k i l p q s t hp hs hq ht hi lt))
      | no ge ↦ elim (dec_lt k j) [
        | yes gt ↦ inr (omega (arith, blocks_apart base cells k j l i q p t s hq ht hp hs hl gt))
        | no le ↦
            let jk : j ≡ k = omega arith in
            let pq : p ≡ q = cc in
            let st : s ≡ t = cc in rw (e, f, ← pq, ← st) (same_run i l p s (λ eq. ne (cc)))
      ]
    ]
