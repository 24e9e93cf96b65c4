-- ===== src/Gc/Counts/After.antt =====
-- What a release leaves as it was.
use cat_la_project.Base.{
  ℕ, ◌≡◌, ◌≢◌, refl, ◌∙◌, Bool, true, false, List, [], ◌∷◌, arith, Bool-cases, inl, inr, ◌⊎◌,
}
use cat_la_project.Heap.Object.{Memory, ObjectState}
use cat_la_project.Gc.Counts.{set_state}
use cat_la_project.Gc.Counts.Drop.{kept_twice}
use cat_la_project.Gc.Ledger.{Going, without, plus}

-- From `held` in use to `held'`: what stays in use changes in its count, what was not in use not at all.
pub record After (held held' : ℕ → Bool) (mem mem' : Memory) : Type 0 where
  pub still : (a : ℕ) → held' a ≡ true → held a ≡ true
  pub kept : (a : ℕ) → held' a ≡ true → mem' a ≡ record (mem a) { count = (mem' a).count }
  pub away : (a : ℕ) → held a ≡ false → mem' a ≡ mem a

pub not_still :
    (held held' : ℕ → Bool) (a : ℕ)
    → (held' a ≡ true → held a ≡ true)
    → held a ≡ false
    → held' a ≡ false
not_still held held' a h out = elim (Bool-cases (held' a)) [
  | inl has ↦ cc (h has)
  | inr no_longer ↦ no_longer
]

pub After-trans :
    (h1 h2 h3 : ℕ → Bool) (m1 m2 m3 : Memory)
    → After h1 h2 m1 m2
    → After h2 h3 m2 m3
    → After h1 h3 m1 m3
After-trans h1 h2 h3 m1 m2 m3 p q = record {
  still = λ a h. p.still a (q.still a h);
  kept = λ a h. kept_twice (m1 a) (m2 a) (m3 a) (p.kept a (q.still a h)) (q.kept a h);
  away = λ a h. q.away a (not_still h1 h2 a (p.still a) h) ∙ p.away a h;
}

pub set_state-other :
    (state : ObjectState) (mem : Memory) (c a : ℕ) → c ≢ a → set_state state mem c a ≡ mem a
unfolding set_state
set_state-other state mem c a ne = ground arith

pub set_state-fields :
    (state : ObjectState) (mem : Memory) (c : ℕ) → (set_state state mem c c).fields ≡ (mem c).fields
unfolding set_state
set_state-fields state mem c = ground arith

pub without-ne : (held : ℕ → Bool) (c a : ℕ) → without held c a ≡ true → (c ≢ a) × (held a ≡ true)
without-ne held c a h = ground arith

pub without_self : (held : ℕ → Bool) (c : ℕ) → without held c c ≡ false
without_self held c = ground arith

pub List-cases : (xs : List ℕ) → (xs ≡ []) ⊎ ((o : ℕ) × (os : List ℕ) × (xs ≡ o ∷ os))
List-cases [] = inl refl
List-cases (o ∷ os) = inr (o, os, refl)

module _ (objs : List ℕ) where
  -- An object on a stack is in use and has no reference.
  pub stacked-held :
      (held : ℕ → Bool) (owed due : ℕ → ℕ) (mem : Memory) (c : ℕ)
      → Going objs held owed (plus due c) mem
      → held c ≡ true
  stacked-held held owed due mem c g = ground (arith, g.stacked c)
