-- ===== src/Parser/Orders.antt =====
-- `parse_order`, `parse_orders` and `parse_label_blocks` of vm/parser/VMParser.cpp. The loops go on to
-- the end of the code and take fuel; `none` is no fuel left. The answer holds the code behind the part
-- that was read.
pub mod Total
pub mod Shapes
use cat_la_project.Base.{
  ℕ, zero, suc, ◌+◌, Bool, true, false, Option, none, some, List, [], ◌∷◌, ◌++◌, ◌==◌, length,
  if◌then◌else◌,
}
use cat_la_project.Base.Strings.{Text, codes, text_eq}
use cat_la_project.Vm.Modules.{
  ConstValue, Order, get_const_integer, get_argument, add_integer, jump_to_label, return_function,
  set_object_field, LabelBlock,
}
use cat_la_project.Parser.Result.{Parsed, ok, err, parse_exception, undefined, ◌>>=◌}
use cat_la_project.Parser.Regex.{Item, lit, lits, many, any, word, match}
use cat_la_project.Parser.Lines.{move_until_next_line}
use cat_la_project.Parser.Tokens.{
  split_commas, stoull, size_max, parse_register_or_variable_number, parse_using_type_index,
  parse_const_value_index, parse_bool, parse_primitive_type, get_const_value_as_string,
}

unfoldable pub parse_jump : List Text → Parsed Order
parse_jump [] = err parse_exception
parse_jump (label ∷ rest) = ok (jump_to_label label none)

unfoldable pub parse_ret : List Text → Parsed Order
parse_ret [] = err parse_exception
parse_ret (register ∷ rest) = do
  r ← parse_register_or_variable_number register
  ok (return_function r)

unfoldable pub parse_set_field : List ConstValue → List Text → Parsed Order
parse_set_field consts (parent ∷ object ∷ lock ∷ type ∷ name ∷ rest) = do
  p ← parse_register_or_variable_number parent
  o ← parse_register_or_variable_number object
  b ← parse_bool lock
  t ← parse_using_type_index type
  c ← parse_const_value_index name
  field_name ← get_const_value_as_string consts c
  ok (set_object_field p o t field_name 0 b)
parse_set_field consts _ = err parse_exception

-- The orders without a result register.
unfoldable pub parse_plain :
    (order_name : Text) → (args : List Text) → List ConstValue → Parsed Order
unfolding parse_jump parse_ret parse_set_field
parse_plain order_name args consts =
    if text_eq order_name (codes "jump_to")
    then parse_jump args
    else if text_eq order_name (codes "ret")
    then parse_ret args
    else if text_eq order_name (codes "set_field")
    then parse_set_field consts args
    else err parse_exception

unfoldable pub parse_get_const : ℕ → List Text → Parsed Order
parse_get_const register (type ∷ index ∷ rest) = do
  t ← parse_primitive_type type
  i ← stoull index
  ok (get_const_integer t register i)
parse_get_const register _ = err parse_exception

unfoldable pub parse_get_argument : ℕ → List Text → Parsed Order
parse_get_argument register [] = err parse_exception
parse_get_argument register (index ∷ rest) = do i ← stoull index; ok (get_argument register i)

-- The test asks for two arguments, and `args[2]` is read all the same.
unfoldable pub third_argument : List Text → Parsed ℕ
third_argument [] = err undefined
third_argument (right ∷ rest) = parse_register_or_variable_number right

unfoldable pub parse_add : ℕ → List Text → Parsed Order
unfolding third_argument
parse_add register (type ∷ left ∷ rest) = do
  t ← parse_primitive_type type
  l ← parse_register_or_variable_number left
  r ← third_argument rest
  ok (add_integer t register l r)
parse_add register _ = err parse_exception

-- The orders with one. The branch of `get_field` is empty and falls through to the exception.
unfoldable pub parse_assigned : ℕ → (order_name : Text) → (args : List Text) → Parsed Order
unfolding parse_get_const parse_get_argument parse_add
parse_assigned register order_name args =
    if text_eq order_name (codes "const")
    then parse_get_const register args
    else if text_eq order_name (codes "arg")
    then parse_get_argument register args
    else if text_eq order_name (codes "iadd")
    then parse_add register args
    else err parse_exception

unfoldable pub parse_order :
    (assignment_register : ℕ)
    → (order_name : Text) → (args : List Text) → List ConstValue
    → Parsed Order
unfolding parse_plain parse_assigned
parse_order register order_name args consts =
    if register == size_max
    then parse_plain order_name args consts
    else parse_assigned register order_name args

-- The first piece is the name, and the others are the arguments.
unfoldable pub parse_pieces : ℕ → List Text → List ConstValue → Parsed Order
unfolding parse_order
parse_pieces register [] consts = parse_order register [] [] consts
parse_pieces register (order_name ∷ args) consts = parse_order register order_name args consts

-- A line of a label: `(.+)=(.+)`, or an order on its own.
unfoldable pub parse_line : List ConstValue → Text → Parsed Order
unfolding parse_pieces
parse_line consts line = elim (match (many 1 any ∷ lit b'=' ∷ many 1 any ∷ []) line) [
  | some (register ∷ order ∷ more) ↦ do
    r ← parse_register_or_variable_number register
    parse_pieces r (split_commas order) consts
  | _ ↦ parse_pieces size_max (split_commas line) consts
]

abbrev is_empty : Text → Bool
is_empty [] = true
is_empty (c ∷ cs) = false

-- An item in front of those that follow.
unfoldable pub prepend {ℓ} : {A : Type ℓ} → A → Parsed (List A × Text) → Parsed (List A × Text)
prepend a (err e) = err e
prepend a (ok (items, rest)) = ok (a ∷ items, rest)

-- What the line of a loop leads to: the rest of the loop, unless it is not parsed.
unfoldable pub then_more {ℓ} :
    {A : Type ℓ} → Parsed A → Option (Parsed (List A × Text)) → Option (Parsed (List A × Text))
unfolding prepend
then_more (err e) more = some (err e)
then_more (ok a) none = none
then_more (ok a) (some more) = some (prepend a more)

-- One line of `parse_orders`; `more` is the rest of the loop.
unfoldable pub orders_round :
    List ConstValue
    → (line rest : Text) → Option (Parsed (List Order × Text))
    → Option (Parsed (List Order × Text))
unfolding then_more
orders_round consts line rest more =
    if text_eq line (codes "label:end")
    then some (ok ([], rest))
    else if is_empty line
    then more
    else then_more (parse_line consts line) more

unfoldable pub parse_orders :
    (fuel : ℕ) → List ConstValue → Text → Option (Parsed (List Order × Text))
unfolding orders_round
parse_orders zero consts code = none
parse_orders (suc fuel) consts [] = some (ok ([], []))
parse_orders (suc fuel) consts (c ∷ cs) =
    let (line, rest) = move_until_next_line (c ∷ cs) in
    orders_round consts line rest (parse_orders fuel consts rest)

-- The block of a label whose orders were read, and the blocks behind it.
unfoldable pub with_block :
    Text
    → Parsed (List Order × Text)
    → (Text → Option (Parsed (List LabelBlock × Text)))
    → Option (Parsed (List LabelBlock × Text))
unfolding then_more
with_block label (err e) more = some (err e)
with_block label (ok (orders, rest)) more =
    then_more (ok (record { name = label; orders = orders })) (more rest)

-- The orders behind a line that matched with the captures given.
unfoldable pub with_label :
    List ConstValue
    → (rest : Text) → (Text → Option (Parsed (List LabelBlock × Text)))
    → Option (List Text)
    → Option (Parsed (List LabelBlock × Text))
unfolding with_block
with_label consts rest more (some (label ∷ captures)) =
    elim (parse_orders (suc (length rest)) consts rest) [
      | none ↦ none
      | some orders ↦ with_block label orders more
    ]
with_label consts rest more _ = some (err parse_exception)

-- `label:(\w+)` and its orders
unfoldable pub parse_label :
    List ConstValue
    → (line rest : Text) → (Text → Option (Parsed (List LabelBlock × Text)))
    → Option (Parsed (List LabelBlock × Text))
parse_label consts line rest more =
    with_label consts rest more (match (lits (codes "label:") ++ (many 1 word ∷ [])) line)

-- One line of `parse_label_blocks`; `more` is the rest of the loop on the code that is left.
unfoldable pub blocks_round :
    List ConstValue
    → (line rest : Text) → (Text → Option (Parsed (List LabelBlock × Text)))
    → Option (Parsed (List LabelBlock × Text))
blocks_round consts line rest more =
    let next = more rest in
    if text_eq line (codes "}")
    then some (ok ([], rest))
    else if is_empty line
    then next
    else parse_label consts line rest more

unfoldable pub parse_label_blocks :
    (fuel : ℕ) → List ConstValue → Text → Option (Parsed (List LabelBlock × Text))
parse_label_blocks zero consts code = none
parse_label_blocks (suc fuel) consts [] = some (ok ([], []))
parse_label_blocks (suc fuel) consts (c ∷ cs) =
    let (line, rest) = move_until_next_line (c ∷ cs) in
    blocks_round consts line rest (λ code. parse_label_blocks fuel consts code)
