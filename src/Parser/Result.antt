-- ===== src/Parser/Result.antt =====
-- What a parse comes to. `parse_exception` is `ParseException`; `invalid_argument` and `out_of_range`
-- are the exceptions of `stoull`, and `no_memory` is the `length_error` or `bad_alloc` of a vector, which
-- `parse` does not catch; `undefined` is an access out of bounds.
use cat_la_project.Base.{Option, none, some}

pub data Error : Type 0 where
  parse_exception invalid_argument out_of_range no_memory undefined : Error

pub data Parsed {ℓ} (A : Type ℓ) : Type ℓ where
  ok : A → Parsed A
  err : Error → Parsed A

infixl 5 ◌>>=◌
abbrev pub ◌>>=◌ {ℓ κ} : {A : Type ℓ} {B : Type κ} → Parsed A → (A → Parsed B) → Parsed B
ok a >>= f = f a
err e >>= f = err e

abbrev pub or_error {ℓ} : {A : Type ℓ} → Error → Option A → Parsed A
or_error e none = err e
or_error e (some a) = ok a
