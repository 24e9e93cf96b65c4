-- ===== src/Parser/Rows.antt =====
-- What the sections of vm/parser/VMParser.cpp share: rows with an index, kept in an `unordered_map` with
-- the greatest index, and made an array when the section is read. The loops take fuel; `none` is no fuel
-- left.
pub mod Dense
pub mod Ends
use cat_la_project.Base.{
  Bool, true, false, ◌+◌, ◌%◌, ◌^◌, ℕ, zero, suc, Option, none, some, List, [], ◌∷◌, ◌==◌, ltb,
  if◌then◌else◌,
}
use cat_la_project.Base.Strings.{Text, codes, text_eq}
use cat_la_project.Parser.Result.{Parsed, ok, err, parse_exception, no_memory, ◌>>=◌, or_error}
use cat_la_project.Parser.Lines.{move_until_next_line}

pub record Rows {ℓ} (A : Type ℓ) : Type ℓ where
  pub row_map : List (ℕ × A)
  pub max_index : ℕ

abbrev pub no_rows {ℓ} : {A : Type ℓ} → Rows A
no_rows = record { row_map = []; max_index = 0 }

-- `map[index] = a`: the newest row of an index is found.
unfoldable pub add_row {ℓ} : {A : Type ℓ} → Rows A → ℕ → A → Rows A
add_row rows index a = record {
  row_map = (index, a) ∷ rows.row_map;
  max_index = if ltb rows.max_index index then index else rows.max_index;
}

unfoldable pub find_row {ℓ} : {A : Type ℓ} → List (ℕ × A) → ℕ → Option A
find_row [] i = none
find_row ((j, a) ∷ rows) i = let rest = find_row rows i in if j == i then some a else rest

-- What the arrays of the sections hold: `string`, `TypeInfo`, `ArgumentInfo` and `Function*`.
pub data RowKind : Type 0 where
  import_rows type_rows argument_rows function_rows : RowKind

-- The memory that the library gives: whether there is room for a vector of so many rows, and how many
-- values the block holds that `calloc` gives for so many constants, 0 where it gives none.
pub record Storage : Type 0 where
  pub room : RowKind → ℕ → Bool
  pub held_values : ℕ → ℕ

-- The `for` loop over the array: a missing row is a `ParseException`.
unfoldable pub collect {ℓ} : {A : Type ℓ} → List (ℕ × A) → (from left : ℕ) → Parsed (List A)
unfolding find_row
collect rows from zero = ok []
collect rows from (suc left) = do
  a ← or_error parse_exception (find_row rows from)
  more ← collect rows (suc from) left
  ok (a ∷ more)

abbrev pub is_empty {ℓ} : {A : Type ℓ} → List A → Bool
is_empty [] = true
is_empty (x ∷ xs) = false

-- `max_index + 1`, a `size_t`
abbrev pub values_length {ℓ} : {A : Type ℓ} → Rows A → ℕ
values_length rows = (rows.max_index + 1) % 2 ^ 64

-- The array of a section, empty without a row.
unfoldable pub to_array {ℓ} : {A : Type ℓ} → Storage → RowKind → Rows A → Parsed (List A)
unfolding collect
to_array storage kind rows =
    if is_empty rows.row_map
    then ok []
    else if storage.room kind (values_length rows)
    then collect rows.row_map 0 (values_length rows)
    else err no_memory

-- What follows a line that was added, or not.
unfoldable pub go_on {ℓ} :
    {B : Type ℓ} → Parsed B → (B → Option (Parsed (B × Text))) → Option (Parsed (B × Text))
go_on (err e) next = some (err e)
go_on (ok rows) next = next rows

-- One line of a section; `next` is the rest of the loop.
unfoldable pub rows_round {ℓ} :
    {B : Type ℓ}
    → (add : B → Text → Parsed B) → B
    → (line rest : Text) → (B → Option (Parsed (B × Text)))
    → Option (Parsed (B × Text))
unfolding go_on
rows_round add rows line rest next =
    let blank = next rows in
    if text_eq line (codes "$end")
    then some (ok (rows, rest))
    else if is_empty line
    then blank
    else go_on (add rows line) next

-- The `while` loop of a section: `add` takes a line that is neither `$end` nor empty.
unfoldable pub read_rows {ℓ} :
    {B : Type ℓ} → (fuel : ℕ) → (add : B → Text → Parsed B) → B → Text → Option (Parsed (B × Text))
read_rows zero add rows code = none
read_rows (suc fuel) add rows [] = some (ok (rows, []))
read_rows (suc fuel) add rows (c ∷ cs) =
    let (line, rest) = move_until_next_line (c ∷ cs) in
    rows_round add rows line rest (λ rows'. read_rows fuel add rows' rest)
