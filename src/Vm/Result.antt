-- ===== src/Vm/Result.antt =====
-- What running code comes to: a value, undefined behaviour (a read or write out of bounds, or through
-- a null pointer), or no progress within the rounds that a wait was given.
use cat_la_project.Base.{Option, none, some}

pub data Result {ℓ} (A : Type ℓ) : Type ℓ where
  ok : A → Result A
  fault waiting : Result A

infixl 5 ◌>>=◌
abbrev pub ◌>>=◌ {ℓ κ} : {A : Type ℓ} {B : Type κ} → Result A → (A → Result B) → Result B
ok a >>= f = f a
fault >>= f = fault
waiting >>= f = waiting

-- A read that is out of bounds, or through a null pointer.
abbrev pub or_fault {ℓ} : {A : Type ℓ} → Option A → Result A
or_fault none = fault
or_fault (some a) = ok a
