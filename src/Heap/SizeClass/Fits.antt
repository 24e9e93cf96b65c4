-- ===== src/Heap/SizeClass/Fits.antt =====
-- The chosen class is a row of the table and holds the object; no smaller class would, except for an
-- object of 96 bytes.
use cat_la_project.Base.{
  ℕ, zero, suc, ◌+◌, ◌-◌, ◌*◌, ◌^◌, ◌≤◌, ◌<◌, ◌≡◌, refl, ◌⊎◌, inl, inr, none, some, get_elem?,
  get_elem?-lt, arith, dec_lt, sym, ◌∙◌, ap, ◌↔◌,
}
use cat_la_project.Heap.Layout.{block_sizes}
use cat_la_project.Heap.SizeClass.{byte_size, size_class}

small_class : (i : ℕ) → i < 9 → get_elem? block_sizes i ≡ some (32 + i * 8)
small_class zero h = refl
small_class (suc zero) h = refl
small_class (suc (suc zero)) h = refl
small_class (suc (suc (suc zero))) h = refl
small_class (suc (suc (suc (suc zero)))) h = refl
small_class (suc (suc (suc (suc (suc zero))))) h = refl
small_class (suc (suc (suc (suc (suc (suc zero)))))) h = refl
small_class (suc (suc (suc (suc (suc (suc (suc zero))))))) h = refl
small_class (suc (suc (suc (suc (suc (suc (suc (suc zero)))))))) h = refl
small_class (suc (suc (suc (suc (suc (suc (suc (suc (suc i))))))))) h = absurd (omega arith)

large_class :
    (i : ℕ)
    → i < 4
    → get_elem? block_sizes (suc (suc (suc (suc (suc (suc (suc (suc (suc i)))))))))
      ≡ some (128 + i * 128)
large_class zero h = refl
large_class (suc zero) h = refl
large_class (suc (suc zero)) h = refl
large_class (suc (suc (suc zero))) h = refl
large_class (suc (suc (suc (suc i)))) h = absurd (omega arith)

pub record Fits (b index size : ℕ) : Type 0 where
  pub row : get_elem? block_sizes index ≡ some size
  pub holds : b ≤ size
  pub least :
      (j t : ℕ) → j < index → get_elem? block_sizes j ≡ some t → (t < b) ⊎ ((t ≡ 96) × (b ≡ 96))

pub size_at :
    (j t : ℕ)
    → get_elem? block_sizes j ≡ some t
    → ((j < 9) × (t ≡ 32 + j * 8)) ⊎ ((9 ≤ j) × (t ≡ 128 + (j - 9) * 128))
size_at j t h = elim (dec_lt j 9) [
  | yes lt ↦ inl (lt, cc (small_class j lt))
  | no ge ↦
      let room = get_elem?-lt block_sizes j t h in
      let row = large_class (j - 9) (omega arith) in
      let at : suc (suc (suc (suc (suc (suc (suc (suc (suc (j - 9))))))))) ≡ j = omega arith in
      inr (omega arith, cc (ap (get_elem? block_sizes) at, row))
]

-- The arithmetic of the two branches.
abbrev Small : ℕ → ℕ → ℕ → Type 0
Small b index size =
    (b < 96) × (index < 9) × (size ≡ 32 + index * 8) × (b ≤ size) × ((index ≡ 0) ⊎ (size < b + 8))

abbrev Large : ℕ → ℕ → ℕ → Type 0
Large b index size =
    (96 ≤ b)
    × (9 ≤ index)
    × (index < 13)
    × (size ≡ 128 + (index - 9) * 128)
    × (b ≤ size)
    × ((index ≡ 9) ⊎ (size < b + 128))

size_class_cases :
    (b index size : ℕ) → size_class b ≡ some (index, size) → Small b index size ⊎ Large b index size
unfolding size_class
size_class_cases b index size h = elim (dec_lt b 96) [
  | yes lt ↦ inl (lt, ground arith, ground arith, ground arith, ground arith)
  | no ge ↦ inr (omega arith, ground arith, ground arith, ground arith, ground arith, ground arith)
]

row_small : (i : ℕ) {s : ℕ} → i < 9 → s ≡ 32 + i * 8 → get_elem? block_sizes i ≡ some s
row_small i lt e = small_class i lt ∙ ap some (sym e)

row_large :
    (i : ℕ) {s : ℕ} → 9 ≤ i → i < 13 → s ≡ 128 + (i - 9) * 128 → get_elem? block_sizes i ≡ some s
row_large i ge lt e =
    let at : suc (suc (suc (suc (suc (suc (suc (suc (suc (i - 9))))))))) ≡ i = omega arith in
    sym (ap (get_elem? block_sizes) at) ∙ large_class (i - 9) (omega arith) ∙ ap some (sym e)

-- A size that gets a class fits its block, which is that of the index. Every smaller class is too
-- small, but that a request of 96 bytes passes over the class of 96.
pub size_class-Fits : (b index size : ℕ) → size_class b ≡ some (index, size) → Fits b index size
size_class-Fits b index size h = elim (size_class_cases b index size h) [
  | inl (lt, i, e, le, tight) ↦ record {
    row = row_small index i e;
    holds = le;
    least = λ j t lt' hj. inl (omega (arith, size_at j t hj));
  }
  | inr (ge, lo, hi, e, le, tight) ↦ record {
    row = row_large index lo hi e;
    holds = le;
    least = λ j t lt' hj. at_least j t lt' (size_at j t hj) ge e tight lo;
  }
]
  where
    at_least :
        (j t : ℕ)
        → j < index
        → ((j < 9) × (t ≡ 32 + j * 8)) ⊎ ((9 ≤ j) × (t ≡ 128 + (j - 9) * 128))
        → 96 ≤ b
        → size ≡ 128 + (index - 9) * 128
        → (index ≡ 9) ⊎ (size < b + 128)
        → 9 ≤ index
        → (t < b) ⊎ ((t ≡ 96) × (b ≡ 96))
    at_least j t lt (inl (p, q)) ge e tight lo = elim (dec_lt t b) [
      | yes below ↦ inl below
      | no above ↦ inr (omega arith, omega arith)
    ]
    at_least j t lt (inr (p, q)) ge e tight lo = inl (omega arith)

-- A request is refused exactly when it is larger than every class.
pub size_class-none : (b : ℕ) → (size_class b ≡ none) ↔ (512 < b)
unfolding size_class
size_class-none b = ground arith

-- The size of an object does not wrap while its fields take less than 2 ^ 60 words.
pub byte_size_lem : (n : ℕ) → n < 2 ^ 60 → byte_size n ≡ 40 + n * 8
unfolding byte_size
byte_size_lem n h = omega arith
