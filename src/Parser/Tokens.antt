-- ===== src/Parser/Tokens.antt =====
-- The parts of a line: comma-separated pieces, numbers, registers, indices, types and constants.
pub mod Print
use cat_la_project.Base.{
  ℕ, zero, suc, ◌+◌, ◌-◌, ◌*◌, ◌/◌, ◌%◌, ◌^◌, Bool, true, false, ◌&&◌, ◌||◌, none, some, List, [],
  ◌∷◌, ◌++◌, get_elem?, ◌==◌, ltb, leb, if◌then◌else◌,
}
use cat_la_project.Base.Strings.{Text, codes, text_eq}
use cat_la_project.Vm.PrimitiveType.{PrimitiveType, all_types, name}
use cat_la_project.Vm.Modules.{ConstValue, const_string, const_int, const_float, ArgumentInfo}
use cat_la_project.Parser.Result.{
  Parsed, ok, err, parse_exception, invalid_argument, out_of_range, undefined, ◌>>=◌,
}
use cat_la_project.Parser.Regex.{lits, many, digit, is_in, match}

-- The pieces between the commas.
unfoldable pub pieces : Text → List Text
pieces [] = [] ∷ []
pieces (c ∷ cs) = elim (pieces cs) [
  | [] ↦ []
  | p ∷ ps ↦ if c == b',' then [] ∷ p ∷ ps else (c ∷ p) ∷ ps
]

-- `sregex_token_iterator` with `-1` ends without the empty piece behind a last comma.
unfoldable pub drop_empty_end : List Text → List Text
drop_empty_end [] = []
drop_empty_end (p ∷ []) = p ∷ []
drop_empty_end (p ∷ [] ∷ []) = p ∷ []
drop_empty_end (p ∷ q ∷ ps) = p ∷ drop_empty_end (q ∷ ps)

unfoldable pub split_commas : Text → List Text
unfolding pieces drop_empty_end
split_commas s = drop_empty_end (pieces s)

unfoldable pub digits_value : ℕ → Text → ℕ
digits_value acc [] = acc
digits_value acc (c ∷ cs) = digits_value (acc * 10 + (c - 48)) cs

unfoldable pub take_digits : Text → Text
take_digits [] = []
take_digits (c ∷ cs) = let rest = take_digits cs in if is_in digit c then c ∷ rest else []

-- The value of the digits that a text starts with.
unfoldable pub magnitude : Text → Parsed ℕ
unfolding digits_value take_digits
magnitude s = elim (take_digits s) [
  | [] ↦ err invalid_argument
  | d ∷ ds ↦
      if ltb (digits_value 0 (d ∷ ds)) (2 ^ 64)
      then ok (digits_value 0 (d ∷ ds))
      else err out_of_range
]

unfoldable pub skip_spaces : Text → Text
skip_spaces [] = []
skip_spaces (c ∷ cs) =
    let rest = skip_spaces cs in if c == 32 || (leb 9 c && leb c 13) then rest else c ∷ cs

-- A minus negates in 64 bits.
unfoldable pub negated : Parsed ℕ → Parsed ℕ
negated (ok v) = ok ((2 ^ 64 - v) % 2 ^ 64)
negated (err e) = err e

unfoldable pub signed : Text → Parsed ℕ
unfolding magnitude negated
signed [] = err invalid_argument
signed (c ∷ cs) =
    if c == b'-'
    then negated (magnitude cs)
    else if c == b'+'
    then magnitude cs
    else magnitude (c ∷ cs)

-- `std::stoull`: white space, a sign, and the digits that follow; what is behind them is ignored.
unfoldable pub stoull : Text → Parsed ℕ
unfolding skip_spaces signed
stoull s = signed (skip_spaces s)

abbrev pub size_max : ℕ
size_max = 2 ^ 64 - 1

-- `(reg|var)#(\d+)` as its two alternatives, or `@void`
unfoldable pub parse_register_or_variable_number : Text → Parsed ℕ
parse_register_or_variable_number s = elim (match (lits (codes "reg#") ++ (many 1 digit ∷ [])) s) [
  | some (d ∷ ds) ↦ stoull d
  | _ ↦ elim (match (lits (codes "var#") ++ (many 1 digit ∷ [])) s) [
    | some (d ∷ ds) ↦ stoull d
    | _ ↦ if text_eq s (codes "@void") then ok size_max else err parse_exception
  ]
]

-- An index with its prefix, or bare.
unfoldable pub parse_index : Text → Text → Parsed ℕ
parse_index prefix s = elim (match (lits prefix ++ (many 1 digit ∷ [])) s) [
  | some (d ∷ ds) ↦ stoull d
  | _ ↦ elim (match (many 1 digit ∷ []) s) [ some (d ∷ ds) ↦ stoull d | _ ↦ err parse_exception ]
]

unfoldable pub parse_using_type_index : Text → Parsed ℕ
unfolding parse_index
parse_using_type_index s = parse_index (codes "type#") s

unfoldable pub parse_const_value_index : Text → Parsed ℕ
unfolding parse_index
parse_const_value_index s = parse_index (codes "const#") s

unfoldable pub parse_bool : Text → Parsed Bool
parse_bool s =
    if text_eq s (codes "true")
    then ok true
    else if text_eq s (codes "false")
    then ok false
    else err parse_exception

-- A C string ends at its first zero byte.
unfoldable pub c_str : Text → Text
c_str [] = []
c_str (c ∷ cs) = if c == 0 then [] else c ∷ c_str cs

unfoldable pub find_type : List PrimitiveType → Text → Parsed PrimitiveType
find_type [] s = err parse_exception
find_type (t ∷ ts) s = if text_eq (name t) s then ok t else find_type ts s

unfoldable pub parse_primitive_type : Text → Parsed PrimitiveType
unfolding find_type c_str
parse_primitive_type s = find_type all_types (c_str s)

unfoldable pub parse_argument_type : Text → Parsed ArgumentInfo
parse_argument_type s = elim (match (lits (codes "type#") ++ (many 1 digit ∷ [])) s) [
  | some (d ∷ ds) ↦ do i ← stoull d; ok (record { primitive_type = none; type_index = i })
  | _ ↦ do t ← parse_primitive_type s; ok (record { primitive_type = some t; type_index = 0 })
]

-- The first `n` bytes of a little-endian word.
unfoldable pub word_bytes : ℕ → ℕ → Text
word_bytes zero w = []
word_bytes (suc n) w = w % 256 ∷ word_bytes n (w / 256)

-- `get_const_value_as_string`: `byte_size` bytes of whatever the constant points to.
unfoldable pub get_const_value_as_string : List ConstValue → ℕ → Parsed Text
get_const_value_as_string consts i = elim (get_elem? consts i) [
  | none ↦ err undefined
  | some (const_string s) ↦ ok s
  | some (const_int n bits) ↦ if leb n 8 then ok (word_bytes n bits) else err undefined
  | some (const_float n bits) ↦ if leb n 8 then ok (word_bytes n bits) else err undefined
]
