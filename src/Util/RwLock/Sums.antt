-- ===== src/Util/RwLock/Sums.antt =====
-- Weights summed over the threads.
use cat_la_project.Base.{
  ℕ, zero, suc, ◌+◌, ◌≤◌, ◌≡◌, refl, some, List, [], ◌∷◌, get_elem?, set, length, arith,
}

module _ {ℓ} {A : Type ℓ} (w : A → ℕ) where
  unfoldable pub total : List A → ℕ
  total [] = 0
  total (x ∷ xs) = w x + total xs

  pub total-set :
      (xs : List A) (i : ℕ) (old new : A)
      → get_elem? xs i ≡ some old
      → total (set xs i new) + w old ≡ total xs + w new
  unfolding total
  total-set [] i old new h = absurd (cc)
  total-set (x ∷ xs) zero old new h = let e : x ≡ old = cc in rw e (omega arith)
  total-set (x ∷ xs) (suc i) old new h = omega (arith, total-set xs i old new h)

  pub le-total : (xs : List A) (i : ℕ) (a : A) → get_elem? xs i ≡ some a → w a ≤ total xs
  unfolding total
  le-total [] i a h = absurd (cc)
  le-total (x ∷ xs) zero a h = let e : x ≡ a = cc in rw e (omega arith)
  le-total (x ∷ xs) (suc i) a h = omega (arith, le-total xs i a h)

  pub total-le : ((a : A) → w a ≤ 1) → (xs : List A) → total xs ≤ length xs
  unfolding total
  total-le small [] = omega arith
  total-le small (x ∷ xs) = omega (arith, small x, total-le small xs)

  -- Two places are both counted.
  pub two-le-total :
      (xs : List A) (i j : ℕ) (a b : A)
      → get_elem? xs i ≡ some a
      → get_elem? xs j ≡ some b
      → (i ≡ j → ⊥)
      → w a + w b ≤ total xs
  unfolding total
  two-le-total [] i j a b ha hb ne = absurd (cc)
  two-le-total (x ∷ xs) zero zero a b ha hb ne = absurd (ne refl)
  two-le-total (x ∷ xs) zero (suc j) a b ha hb ne =
      let e : x ≡ a = cc in rw e (omega (arith, le-total xs j b hb))
  two-le-total (x ∷ xs) (suc i) zero a b ha hb ne =
      let e : x ≡ b = cc in rw e (omega (arith, le-total xs i a ha))
  two-le-total (x ∷ xs) (suc i) (suc j) a b ha hb ne =
      omega (arith, two-le-total xs i j a b ha hb (λ e. ne (omega arith)))
