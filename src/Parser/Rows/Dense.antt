-- ===== src/Parser/Rows/Dense.antt =====
-- The array of a section of vm/parser/VMParser.cpp holds a row for each index, the newest, or is refused.
use cat_la_project.Base.{
  Option, sym, ℕ, zero, suc, ◌+◌, ◌%◌, ◌^◌, ◌<◌, ◌≤◌, ◌≡◌, ◌≢◌, refl, none, some, List, [], ◌∷◌,
  get_elem?, get_elem?-some, length, arith, ◌∙◌, ap, inl, inr, true, false, Bool-cases, ℕ_discrete,
  ◌==◌, ltb, subst,
}
use cat_la_project.Parser.Result.{Parsed, ok, err, parse_exception, no_memory, ◌>>=◌, or_error}
use cat_la_project.Parser.Rows.{
  Rows, no_rows, add_row, find_row, collect, to_array, Storage, RowKind,
}

module _ {ℓ} {A : Type ℓ} where
  -- The rows that a section added, the newest in front.
  pub added : List (ℕ × A) → Rows A
  unfolding add_row
  added [] = no_rows
  added ((i, a) ∷ history) = add_row (added history) i a

  -- `a` is what was added last with the index `i`.
  pub data Newest (i : ℕ) (a : A) : List (ℕ × A) → Type ℓ where
    first : (j : ℕ) (b : A) (history : List (ℕ × A)) → j ≡ i → b ≡ a → Newest i a ((j, b) ∷ history)
    later :
        (j : ℕ) (b : A) (history : List (ℕ × A))
        → j ≢ i
        → Newest i a history
        → Newest i a ((j, b) ∷ history)

  -- No row was added with the index `i`.
  pub data NoRow (i : ℕ) : List (ℕ × A) → Type ℓ where
    no_row : NoRow i []
    another :
        (j : ℕ) (b : A) (history : List (ℕ × A))
        → j ≢ i
        → NoRow i history
        → NoRow i ((j, b) ∷ history)

  abbrev pub AtMost : ℕ → List (ℕ × A) → Type 0
  AtMost m [] = Unit {0}
  AtMost m ((j, a) ∷ history) = (j ≤ m) × AtMost m history

  -- `m` is the greatest index of a row.
  abbrev pub IsGreatest : ℕ → List (ℕ × A) → Type ℓ
  IsGreatest m history = AtMost m history × (a : A) × Newest m a history

  -- The array of a history that is not empty, with the greatest index `m`.
  pub data IsArray (storage : Storage) (kind : RowKind) (history : List (ℕ × A)) (m : ℕ)
      : Parsed (List A) → Type ℓ where
    filled :
        (items : List A)
        → storage.room kind ((m + 1) % 2 ^ 64) ≡ true
        → length items ≡ (m + 1) % 2 ^ 64
        → ((i : ℕ) → i < length items → (a : A) × (get_elem? items i ≡ some a) × Newest i a history)
        → IsArray storage kind history m (ok items)
    missing :
        (i : ℕ)
        → storage.room kind ((m + 1) % 2 ^ 64) ≡ true
        → i < m
        → NoRow i history
        → IsArray storage kind history m (err parse_exception)
    refused :
        storage.room kind ((m + 1) % 2 ^ 64) ≡ false
        → IsArray storage kind history m (err no_memory)

  find_row-Newest :
      (history : List (ℕ × A)) (i : ℕ) (a : A) → find_row history i ≡ some a → Newest i a history
  unfolding find_row
  find_row-Newest [] i a e = cc
  find_row-Newest ((j, b) ∷ history) i a e = elim (ℕ_discrete j i) [
    | yes q ↦ first j b history q (ground arith)
    | no ne ↦ later j b history ne (find_row-Newest history i a (ground arith))
  ]

  find_row-NoRow : (history : List (ℕ × A)) (i : ℕ) → find_row history i ≡ none → NoRow i history
  unfolding find_row
  find_row-NoRow [] i e = no_row
  find_row-NoRow ((j, b) ∷ history) i e = elim (ℕ_discrete j i) [
    | yes q ↦ absurd (ground arith)
    | no ne ↦ another j b history ne (find_row-NoRow history i (ground arith))
  ]

  added-row_map : (history : List (ℕ × A)) → (added history).row_map ≡ history
  unfolding added
  added-row_map [] = refl
  added-row_map ((i, a) ∷ history) = ap (λ rows. (i, a) ∷ rows) (added-row_map history)

  AtMost-mono : (m n : ℕ) (history : List (ℕ × A)) → m ≤ n → AtMost m history → AtMost n history
  AtMost-mono m n [] le h = h
  AtMost-mono m n ((j, a) ∷ history) le (lt, h) = (omega arith, AtMost-mono m n history le h)

  added-AtMost : (history : List (ℕ × A)) → AtMost (added history).max_index history
  unfolding added
  added-AtMost [] = record {}
  added-AtMost ((i, a) ∷ history) = (
    ground arith,
    AtMost-mono (added history).max_index _ history (ground arith) (added-AtMost history),
  )

  -- The greatest index has a row.
  added-found :
      (i : ℕ) (a : A) (history : List (ℕ × A))
      → (b : A) × (find_row ((i, a) ∷ history) (added ((i, a) ∷ history)).max_index ≡ some b)
  unfolding added find_row
  added-found i a [] = (a, ground arith)
  added-found i a ((j, b) ∷ history) =
      let (c, found) = added-found j b history in
      let m = (added ((j, b) ∷ history)).max_index in
      elim (Bool-cases (ltb m i)) [
        | inl lt ↦ (a, rw lt (ground arith))
        | inr ge ↦ elim (Bool-cases (i == m)) [
          | inl same ↦ (a, rw (ge, same) refl)
          | inr other ↦ (c, rw (ge, other) found)
        ]
      ]

module _ {ℓ} {A : Type ℓ} (rows : List (ℕ × A)) where
  -- The rows of `left` indices from `from` on, in order; or an exception, for one that is missing.
  abbrev IsDense : (from left : ℕ) → Parsed (List A) → Type ℓ
  IsDense from left (ok items) =
      (length items ≡ left) × ((i : ℕ) → i < left → get_elem? items i ≡ find_row rows (from + i))
  IsDense from left (err e) =
      (e ≡ parse_exception) × (i : ℕ) × (i < left) × (find_row rows (from + i) ≡ none)

  IsDense-cons :
      (from left : ℕ) (a : A) (p : Parsed (List A))
      → find_row rows from ≡ some a
      → IsDense (suc from) left p
      → IsDense from (suc left) (p >>= λ more. ok (a ∷ more))
  IsDense-cons from left a (err e) here (is, i, lt, absent) =
      (is, suc i, omega arith, ap (find_row rows) (omega arith) ∙ absent)
  IsDense-cons from left a (ok items) here (size, rest) = (ap suc size, at)
    where
      at : (i : ℕ) → i < suc left → get_elem? (a ∷ items) i ≡ find_row rows (from + i)
      at zero lt = sym here ∙ ap (find_row rows) (omega arith)
      at (suc i) lt = rest i (omega arith) ∙ ap (find_row rows) (omega arith)

  IsDense-first :
      (from left : ℕ) (o : Option A)
      → find_row rows from ≡ o
      → IsDense (suc from) left (collect rows (suc from) left)
      → IsDense from (suc left) (
          or_error parse_exception o >>= λ a.
          collect rows (suc from) left >>= λ more. ok (a ∷ more))
  IsDense-first from left none e rest = (refl, 0, omega arith, ap (find_row rows) (omega arith) ∙ e)
  IsDense-first from left (some a) e rest =
      IsDense-cons from left a (collect rows (suc from) left) e rest

  collect-IsDense : (from left : ℕ) → IsDense from left (collect rows from left)
  unfolding collect
  collect-IsDense from zero = (refl, λ i lt. absurd (omega arith))
  collect-IsDense from (suc left) =
      IsDense-first from left (find_row rows from) refl (collect-IsDense (suc from) left)

module _ {ℓ} {A : Type ℓ} (storage : Storage) (kind : RowKind) where
  IsDense-IsArray :
      (history : List (ℕ × A)) (m : ℕ) (b : A) (p : Parsed (List A))
      → find_row history m ≡ some b
      → storage.room kind ((m + 1) % 2 ^ 64) ≡ true
      → IsDense history 0 ((m + 1) % 2 ^ 64) p
      → IsArray storage kind history m p
  IsDense-IsArray history m b (err e) found room (is, i, lt, absent) =
      let absent : find_row history i ≡ none = ap (find_row history) (omega arith) ∙ absent in
      let ne : i ≢ m = λ q. cc (absent, found, ap (find_row history) q) in
      subst (λ x. IsArray storage kind history m (err x)) (sym is)
        (missing i room (omega arith) (find_row-NoRow history i absent))
  IsDense-IsArray history m b (ok items) found room (size, at) = filled items room size (λ i lt.
      let (a, e) = get_elem?-some items i lt in
      let here = sym (at i (omega arith)) ∙ e in
      (a, e, find_row-Newest history i a (ap (find_row history) (omega arith) ∙ here)))

  -- The array of a section whose rows were added in any order and with any index: `m` is the greatest
  -- index. Where there is room for `m + 1` rows, a `size_t`, it has that many, and holds at each place the row
  -- that was added last with its index; or it is refused with a `ParseException`, and an index below `m`
  -- has no row. Where there is no room it is refused, and the exception is that of the vector.
  pub to_array-IsArray :
      (i : ℕ) (a : A) (history : List (ℕ × A))
      → (m : ℕ) × IsGreatest m ((i, a) ∷ history)
        × IsArray storage kind
            ((i, a) ∷ history)
            m
            (to_array storage kind (added ((i, a) ∷ history)))
  unfolding to_array
  to_array-IsArray i a history =
      let all = (i, a) ∷ history in
      let m = (added all).max_index in
      let (b, found) = added-found i a history in
      let rows = added-row_map all in
      (
        m,
        (added-AtMost all, b, find_row-Newest all m b found),
        elim (Bool-cases (storage.room kind ((m + 1) % 2 ^ 64))) [
          | inl room ↦
              rw (rows, room)
                (IsDense-IsArray all m b _ found room (collect-IsDense all 0 ((m + 1) % 2 ^ 64)))
          | inr full ↦ rw (rows, full) (refused full)
        ],
      )
