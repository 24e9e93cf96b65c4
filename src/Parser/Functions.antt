-- ===== src/Parser/Functions.antt =====
-- `parse_function` of vm/parser/VMParser.cpp. The answer holds the code behind the section, and the loop
-- takes fuel.
pub mod Total
use cat_la_project.Base.{
  Bool, true, false, ℕ, zero, suc, Option, none, some, List, [], ◌∷◌, ◌++◌, length, if◌then◌else◌,
}
use cat_la_project.Base.Strings.{Text, codes, text_eq}
use cat_la_project.Vm.Modules.{ConstValue, ArgumentInfo, LabelBlock, Function}
use cat_la_project.Parser.Result.{Parsed, ok, err, parse_exception, ◌>>=◌}
use cat_la_project.Parser.Regex.{Item, lit, lits, many, digit, any, match}
use cat_la_project.Parser.Lines.{move_until_next_line}
use cat_la_project.Parser.Tokens.{
  stoull, split_commas, parse_argument_type, get_const_value_as_string,
}
use cat_la_project.Parser.Orders.{parse_label_blocks}
use cat_la_project.Parser.Rows.{
  Storage, argument_rows, function_rows, Rows, no_rows, add_row, to_array,
}

abbrev number : Item
number = many 1 digit

abbrev is_empty : Text → Bool
is_empty [] = true
is_empty (c ∷ cs) = false

-- The loop over the arguments, `(\d+):(.+)` each; an empty piece ends it.
unfoldable pub add_arguments : Rows ArgumentInfo → List Text → Parsed (Rows ArgumentInfo)
add_arguments rows [] = ok rows
add_arguments rows (piece ∷ pieces) = elim (match (number ∷ lit b':' ∷ many 1 any ∷ []) piece) [
  | some (index ∷ type ∷ captures) ↦ do
    i ← stoull index
    info ← parse_argument_type type
    add_arguments (add_row rows i info) pieces
  | _ ↦ if is_empty piece then ok rows else err parse_exception
]

-- What the line of a function says: its index, and all of it but the blocks.
pub record Head : Type 0 where
  pub index : ℕ
  pub name : Text
  pub variables_size : ℕ
  pub registers_size : ℕ
  pub return_type_info : ArgumentInfo
  pub argument_type_infos : List ArgumentInfo

-- `(\d+):(\d+):var:(\d+):reg:(\d+)\((.*)\)->(.+)\{`
abbrev head_pattern : List Item
head_pattern =
    number
    ∷ lit b':'
    ∷ number
    ∷ (lits (codes ":var:")
        ++ (number
            ∷ (lits (codes ":reg:")
                ++ (number
                    ∷ lit b'('
                    ∷ many 0 any
                    ∷ (lits (codes ")->") ++ (many 1 any ∷ lit b'{' ∷ []))))))

unfoldable pub parse_head : Storage → List ConstValue → Text → Parsed Head
unfolding add_arguments
parse_head storage consts line = elim (match head_pattern line) [
  | some (index ∷ name_index ∷ variables ∷ registers ∷ arguments ∷ type ∷ captures) ↦ do
    i ← stoull index
    n ← stoull name_index
    name ← get_const_value_as_string consts n
    v ← stoull variables
    r ← stoull registers
    rows ← add_arguments no_rows (split_commas arguments)
    return_type ← parse_argument_type type
    infos ← to_array storage argument_rows rows
    ok (record {
      index = i;
      name = name;
      variables_size = v;
      registers_size = r;
      return_type_info = return_type;
      argument_type_infos = infos;
    })
  | _ ↦ err parse_exception
]

-- The constructor of `Function`.
unfoldable pub make_function : Head → List LabelBlock → Function
make_function head blocks = record {
  name = head.name;
  variables_size = head.variables_size;
  registers_size = head.registers_size;
  label_blocks = blocks;
  return_type_info = head.return_type_info;
  argument_type_infos = head.argument_type_infos;
}

-- `function_map[index]` for the blocks that were read, and the rest of the loop.
unfoldable pub with_blocks :
    Rows Function
    → Head
    → Option (Parsed (List LabelBlock × Text))
    → (Rows Function → Text → Option (Parsed (Rows Function × Text)))
    → Option (Parsed (Rows Function × Text))
unfolding make_function
with_blocks rows head none next = none
with_blocks rows head (some (err e)) next = some (err e)
with_blocks rows head (some (ok (blocks, rest))) next =
    next (add_row rows head.index (make_function head blocks)) rest

-- A line that is neither `$end` nor empty, and the blocks behind it.
unfoldable pub function_line :
    List ConstValue
    → Rows Function
    → Parsed Head
    → (rest : Text) → (Rows Function → Text → Option (Parsed (Rows Function × Text)))
    → Option (Parsed (Rows Function × Text))
unfolding with_blocks
function_line consts rows (err e) rest next = some (err e)
function_line consts rows (ok head) rest next =
    with_blocks rows head (parse_label_blocks (suc (length rest)) consts rest) next

-- One round of the loop; `next` is the rest of it.
unfoldable pub function_round :
    Storage
    → List ConstValue
    → Rows Function
    → (line rest : Text) → (Rows Function → Text → Option (Parsed (Rows Function × Text)))
    → Option (Parsed (Rows Function × Text))
function_round storage consts rows line rest next =
    let blank = next rows rest in
    if text_eq line (codes "$end")
    then some (ok (rows, rest))
    else if is_empty line
    then blank
    else function_line consts rows (parse_head storage consts line) rest next

unfoldable pub read_functions :
    Storage
    → (fuel : ℕ) → List ConstValue
    → Rows Function
    → Text
    → Option (Parsed (Rows Function × Text))
read_functions storage zero consts rows code = none
read_functions storage (suc fuel) consts rows [] = some (ok (rows, []))
read_functions storage (suc fuel) consts rows (c ∷ cs) =
    let (line, rest) = move_until_next_line (c ∷ cs) in
    function_round storage consts rows line rest
      (λ rows' code. read_functions storage fuel consts rows' code)

-- The functions in the order of their indices, and the code behind the section.
unfoldable pub function_array :
    Storage → Option (Parsed (Rows Function × Text)) → Option (Parsed (List Function × Text))
function_array storage none = none
function_array storage (some (err e)) = some (err e)
function_array storage (some (ok (rows, rest))) =
    some (to_array storage function_rows rows >>= λ functions. ok (functions, rest))

unfoldable pub parse_function :
    Storage → List ConstValue → Text → Option (Parsed (List Function × Text))
unfolding read_functions function_array
parse_function storage consts code =
    function_array storage (read_functions storage (suc (length code)) consts no_rows code)
