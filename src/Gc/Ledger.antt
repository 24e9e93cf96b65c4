-- ===== src/Gc/Ledger.antt =====
-- The account of references: what the count of each object should be. `held` says which objects are in
-- use, `owed` how many references to an object are held outside the fields of those, and `due` how often
-- an object stands on the stacks of objects to release.
pub mod Moves
use cat_la_project.Base.{
  ℕ, zero, suc, ◌+◌, ◌-◌, ◌^◌, ◌<◌, ◌≡◌, ◌≢◌, Bool, true, false, List, [], ◌∷◌, ◌==◌, if◌then◌else◌,
}
use cat_la_project.Heap.Object.{Memory}

-- How often `a` stands in a list.
abbrev pub times : ℕ → List ℕ → ℕ
times a [] = 0
times a (b ∷ bs) = (if b == a then 1 else 0) + times a bs

-- How many of the `n` fields from index `i` on hold `a`.
unfoldable pub occ : (ℕ → ℕ) → (i n a : ℕ) → ℕ
occ fields i zero a = 0
occ fields i (suc n) a = (if fields i == a then 1 else 0) + occ fields (suc i) n a

abbrev pub occ_in : Memory → (o a : ℕ) → ℕ
occ_in mem o a = occ (mem o).fields 0 (mem o).field_length a

-- The references to `a` from the fields of the objects in use.
unfoldable pub refs : List ℕ → (ℕ → Bool) → Memory → ℕ → ℕ
refs [] held mem a = 0
refs (o ∷ os) held mem a = (if held o then occ_in mem o a else 0) + refs os held mem a

unfoldable pub size : List ℕ → (ℕ → Bool) → ℕ
size [] held = 0
size (o ∷ os) held = (if held o then 1 else 0) + size os held

-- `objs` lists the objects in use, each once. The count of an object in use is the number of its
-- references; no other object has any.
pub record Ledger (objs : List ℕ) (held : ℕ → Bool) (owed : ℕ → ℕ) (mem : Memory) : Type 0 where
  pub null : held 0 ≡ false
  pub listed : (a : ℕ) → held a ≡ true → times a objs ≡ 1
  pub counted : (a : ℕ) → held a ≡ true → (mem a).count ≡ owed a + refs objs held mem a
  pub gone : (a : ℕ) → a ≢ 0 → held a ≡ false → owed a + refs objs held mem a ≡ 0
  pub small : (a : ℕ) → held a ≡ true → (mem a).count < 2 ^ 64

-- An object in use with no reference.
abbrev pub unowned : (ℕ → Bool) → Memory → ℕ → ℕ
unowned held mem a = if held a then (if (mem a).count == 0 then 1 else 0) else 0

-- The stacks hold each unowned object once, and nothing else.
abbrev pub Stacked : (ℕ → Bool) → Memory → (ℕ → ℕ) → Type 0
Stacked held mem due = (a : ℕ) → due a ≡ unowned held mem a

pub record Going (objs : List ℕ) (held : ℕ → Bool) (owed due : ℕ → ℕ) (mem : Memory) : Type 0 where
  pub ledger : Ledger objs held owed mem
  pub stacked : Stacked held mem due

-- The objects in use without `c`.
abbrev pub without : (ℕ → Bool) → ℕ → ℕ → Bool
without held c a = if c == a then false else held a

abbrev pub plus : (ℕ → ℕ) → ℕ → ℕ → ℕ
plus f c a = (if c == a then 1 else 0) + f a

abbrev pub minus : (ℕ → ℕ) → ℕ → ℕ → ℕ
minus f c a = if c == a then f a - 1 else f a
