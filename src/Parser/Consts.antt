-- ===== src/Parser/Consts.antt =====
-- `parse_const` and `move_until` of vm/parser/VMParser.cpp. The text that is left is `none` once the
-- position is past the end of the code. `stod` is the library's, to the 64 bits of a `double`.
pub mod Ends
use cat_la_project.Base.{
  ℕ, zero, suc, ◌+◌, ◌-◌, ◌%◌, ◌^◌, Bool, true, false, ◌||◌, Option, none, some, List, [], ◌∷◌,
  ◌==◌, leb, ltb, if◌then◌else◌, length,
}
use cat_la_project.Base.Strings.{Text, codes, text_eq}
use cat_la_project.Vm.Modules.{ConstValue, const_string, const_int, const_float}
use cat_la_project.Parser.Result.{
  Parsed, ok, err, parse_exception, invalid_argument, out_of_range, undefined, ◌>>=◌, or_error,
}
use cat_la_project.Parser.Regex.{Item, lit, one, many, digit, word, match}
use cat_la_project.Parser.Lines.{move_until_next_line}
use cat_la_project.Parser.Tokens.{stoull, magnitude, skip_spaces}
use cat_la_project.Parser.Rows.{Storage, Rows, no_rows, add_row, find_row, is_empty, values_length}

-- `HASH_MARK`: a hash, a line end or a zero byte
abbrev pub is_mark : ℕ → Bool
is_mark c = c == b'#' || c == 10 || c == 0

-- The bytes before a mark, without spaces, and the code from the mark on, if there is one.
unfoldable pub until_mark : Text → Text × Option Text
until_mark [] = ([], none)
until_mark (c ∷ cs) =
    let (before, rest) = until_mark cs in
    if is_mark c
    then ([], some (c ∷ cs))
    else if c == b' '
    then (before, rest)
    else (c ∷ before, rest)

-- Without a mark the position stays.
unfoldable pub move_until : Text → Text × Text
unfolding until_mark
move_until code =
    let (before, rest) = until_mark code in (before, elim rest [ none ↦ code | some cs ↦ cs ])

-- `std::stoll`, to the 64 bits of the number.
abbrev in_range : (most : ℕ) → Parsed ℕ → Parsed ℕ
in_range most (ok v) = if leb v most then ok v else err out_of_range
in_range most (err e) = err e

abbrev negate : Parsed ℕ → Parsed ℕ
negate (ok v) = ok ((2 ^ 64 - v) % 2 ^ 64)
negate (err e) = err e

unfoldable pub signed_long : Text → Parsed ℕ
unfolding magnitude
signed_long [] = err invalid_argument
signed_long (c ∷ cs) =
    if c == b'-'
    then negate (in_range (2 ^ 63) (magnitude cs))
    else if c == b'+'
    then in_range (2 ^ 63 - 1) (magnitude cs)
    else in_range (2 ^ 63 - 1) (magnitude (c ∷ cs))

unfoldable pub stoll : Text → Parsed ℕ
unfolding skip_spaces signed_long
stoll s = signed_long (skip_spaces s)

-- `current_position++`
abbrev pub step_over : Option Text → Option Text
step_over none = none
step_over (some []) = none
step_over (some (c ∷ cs)) = some cs

-- The bytes of a value. The code has a zero byte behind its end; a read behind that is out of bounds.
unfoldable pub take_bytes : (byte_size : ℕ) → Option Text → Parsed (Text × Option Text)
take_bytes zero code = ok ([], code)
take_bytes (suc n) none = err undefined
take_bytes (suc n) (some []) = do (bytes, rest) ← take_bytes n none; ok (0 ∷ bytes, rest)
take_bytes (suc n) (some (c ∷ cs)) = do (bytes, rest) ← take_bytes n (some cs); ok (c ∷ bytes, rest)

module _ (stod : Text → Parsed ℕ) where
  -- The `switch` on the type.
  unfoldable pub const_value : (type byte_size : ℕ) → (bytes : Text) → Parsed ConstValue
  unfolding stoll
  const_value type byte_size bytes =
      if type == b's'
      then ok (const_string bytes)
      else if type == b'i'
      then (do v ← stoll bytes; ok (const_int byte_size v))
      else if type == b'f'
      then (do v ← stod bytes; ok (const_float byte_size v))
      else err parse_exception

  -- The code behind the mark, which has to be there.
  abbrev pub behind_mark : Text → Parsed Text
  behind_mark [] = err parse_exception
  behind_mark (c ∷ []) = err parse_exception
  behind_mark (c ∷ d ∷ cs) = ok (d ∷ cs)

  -- What follows the header of a constant, with its captures.
  unfoldable pub add_captured :
      Rows ConstValue
      → (at_mark : Text) → Option (List Text)
      → Parsed (Rows ConstValue × Option Text)
  unfolding take_bytes const_value
  add_captured rows at_mark (some (index ∷ size ∷ (type ∷ []) ∷ [])) = do
    i ← stoull index
    byte_size ← stoull size
    rest ← behind_mark at_mark
    (bytes, left) ← take_bytes byte_size (some rest)
    value ← const_value type byte_size bytes
    ok (add_row rows i value, step_over left)
  add_captured rows at_mark _ = err parse_exception

  -- One constant: `(\d+):(\d+):(\w)`, a mark, and the bytes of the value.
  unfoldable pub add_const :
      Rows ConstValue → (code : Text) → Parsed (Rows ConstValue × Option Text)
  unfolding move_until add_captured
  add_const rows code =
      let (head, at_mark) = move_until code in
      add_captured rows at_mark
        (match (many 1 digit ∷ lit b':' ∷ many 1 digit ∷ lit b':' ∷ one word ∷ []) head)

  abbrev pub no_bytes : Text → Bool
  no_bytes [] = true
  no_bytes (c ∷ cs) = false

  -- The loop goes on behind a constant; past the end it reads out of bounds.
  unfoldable pub after_const :
      Parsed (Rows ConstValue × Option Text)
      → (next : Rows ConstValue → Text → Option (Parsed (Rows ConstValue × Text)))
      → Option (Parsed (Rows ConstValue × Text))
  after_const (err e) next = some (err e)
  after_const (ok (rows, none)) next = some (err undefined)
  after_const (ok (rows, some left)) next = next rows left

  -- The `while` loop; `none` is no fuel left.
  unfoldable pub read_consts :
      (fuel : ℕ) → Rows ConstValue → Text → Option (Parsed (Rows ConstValue × Text))
  unfolding move_until_next_line add_const after_const
  read_consts zero rows code = none
  read_consts (suc fuel) rows [] = some (ok (rows, []))
  read_consts (suc fuel) rows (c ∷ cs) =
      let (line, rest) = move_until_next_line (c ∷ cs) in
      let blank = read_consts fuel rows rest in
      if text_eq line (codes "$end")
      then some (ok (rows, rest))
      else if no_bytes line
      then blank
      else after_const (add_const rows (c ∷ cs)) (λ rows' left. read_consts fuel rows' left)

  -- The `for` loop over the array: a missing row is a `ParseException`, and a value is written out of
  -- bounds where the block holds too few.
  unfoldable pub fill_values :
      (held : ℕ) → List (ℕ × ConstValue) → (from left : ℕ) → Parsed (List ConstValue)
  unfolding find_row
  fill_values held rows from zero = ok []
  fill_values held rows from (suc left) = do
    value ← or_error parse_exception (find_row rows from)
    written ← if ltb from held then ok value else err undefined
    more ← fill_values held rows (suc from) left
    ok (written ∷ more)

  unfoldable pub const_array : Storage → Rows ConstValue → Parsed (List ConstValue)
  unfolding fill_values
  const_array storage rows =
      if is_empty rows.row_map
      then ok []
      else fill_values (storage.held_values (values_length rows)) rows.row_map 0
          (values_length rows)

  unfoldable pub parse_const : Storage → Text → Option (Parsed (List ConstValue × Text))
  unfolding read_consts const_array
  parse_const storage code = elim (read_consts (suc (length code)) no_rows code) [
    | none ↦ none
    | some (err e) ↦ some (err e)
    | some (ok (rows, rest)) ↦ some (do values ← const_array storage rows; ok (values, rest))
  ]
