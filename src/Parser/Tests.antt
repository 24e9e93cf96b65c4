-- ===== src/Parser/Tests.antt =====
-- Runs of the parser of orders, and the theorems about it at concrete input.
use cat_la_project.Base.{Option, ◌++◌, ℕ, ◌-◌, ◌^◌, true, ◌≡◌, refl, some, none, [], ◌∷◌, arith}
use cat_la_project.Base.Strings.{Text, codes}
use cat_la_project.Vm.PrimitiveType.{i64, i32}
use cat_la_project.Vm.Modules.{
  const_string, const_int, get_const_integer, jump_to_label, return_function,
}
use cat_la_project.Parser.Result.{Parsed, parse_exception, ok, err, undefined}
use cat_la_project.Base.Strings.{text_eq}
use cat_la_project.Vm.PrimitiveType.{all_types, name}
use cat_la_project.Parser.Lines.{move_until_next_line}
use cat_la_project.Parser.Consts.{parse_const, fill_values}
use cat_la_project.Parser.Whole.{ModuleObject, parse}
use cat_la_project.Parser.Whole.Total.{parse-returns}
use cat_la_project.Parser.Tokens.Print.{decimal, parse_register_or_variable_number-decimal}
use cat_la_project.Parser.Regex.{match, greedy, is_in}
use cat_la_project.Parser.Tokens.{
  parse_argument_type, parse_register_or_variable_number, stoull, split_commas,
  parse_primitive_type, get_const_value_as_string,
}
use cat_la_project.Parser.Orders.{
  parse_line, blocks_round, parse_label, with_label, parse_order, parse_orders, parse_label_blocks,
}
use cat_la_project.Parser.Rows.{
  Storage, import_rows, no_rows, read_rows, rows_round, to_array, add_row,
}
use cat_la_project.Parser.Rows.Dense.{added, IsGreatest, IsArray, to_array-IsArray}
use cat_la_project.Parser.Sections.{add_type, add_type_define, parse_type, parse_type_define}
use cat_la_project.Parser.Functions.{
  parse_function, parse_head, with_blocks, function_line, function_round, read_functions,
}
use cat_la_project.Parser.Orders.Total.{Ends}
use cat_la_project.Parser.Orders.Shapes.{Answers, parse_order-Answers, iadd_two_arguments}

abbrev body : Text
body = codes "reg#1 = const, i32, 0\n\nret, reg#1\nlabel:end\n}\n"

body_is_parsed :
    parse_orders 60 [] body
    ≡ some (ok (get_const_integer i32 1 0 ∷ return_function 1 ∷ [], codes "}\n"))
unfolding parse_orders text_eq move_until_next_line parse_line match greedy is_in
    parse_register_or_variable_number stoull split_commas parse_primitive_type all_types name
body_is_parsed = refl

abbrev blocks : Text
blocks = codes "label:start\n jump_to,start\nlabel:end\n}\n"

blocks_are_parsed :
    parse_label_blocks 60 [] blocks
    ≡ some (
        ok (
          record { name = codes "start"; orders = jump_to_label (codes "start") none ∷ [] } ∷ [],
          [],
        ))
unfolding parse_label_blocks blocks_round text_eq move_until_next_line parse_label with_label match
    greedy is_in parse_orders parse_line split_commas
blocks_are_parsed = refl

parse_order-Answers_example :
    Answers [] 1
      (codes "const")
      (codes "i32" ∷ codes "0" ∷ [])
      (parse_order 1 (codes "const") (codes "i32" ∷ codes "0" ∷ []) [])
parse_order-Answers_example =
    parse_order-Answers 1 (codes "const") (codes "i32" ∷ codes "0" ∷ []) []

iadd_two_arguments_example :
    parse_order 1 (codes "iadd") (codes "i32" ∷ codes "reg#0" ∷ []) [] ≡ err undefined
unfolding parse_primitive_type all_types name text_eq parse_register_or_variable_number match greedy
    is_in stoull
iadd_two_arguments_example =
    iadd_two_arguments 1 (codes "i32") (codes "reg#0") [] i32 0 (λ e. omega arith) refl refl

-- Room for every vector, and for every constant.
abbrev roomy : Storage
roomy = record { room = λ kind n. true; held_values = λ n. n }

abbrev types_text : Text
types_text = codes "0:0:4\n\n1:0:5\n1:0:6\n$end\nrest"

-- The newest row of an index stays, and the name of a type is the number in the text.
types_are_parsed :
    parse_type roomy types_text
    ≡ some (
        ok (
          record { import_index = 0; type_name = codes "4" }
              ∷ record { import_index = 0; type_name = codes "6" }
              ∷ [],
          codes "rest",
        ))
unfolding parse_type read_rows rows_round text_eq move_until_next_line add_type match greedy is_in
    to_array add_row
types_are_parsed = refl

-- A type without fields is refused.
no_fields_are_refused :
    parse_type_define (const_string (codes "A") ∷ []) (codes "0:()\n$end\n")
    ≡ some (err parse_exception)
unfolding parse_type_define read_rows rows_round text_eq move_until_next_line add_type_define match
    greedy is_in stoull get_const_value_as_string
no_fields_are_refused = refl

-- The indices 1 and 2 have no row.
gap_is_refused :
    to_array roomy import_rows (add_row (add_row no_rows 0 (codes "b")) 3 (codes "a"))
    ≡ err parse_exception
unfolding to_array add_row
gap_is_refused = refl

-- `max_index + 1` wraps: a single row with the greatest index is an empty array.
wrapped_array_is_empty :
    to_array roomy import_rows (add_row no_rows (2 ^ 64 - 1) (codes "a")) ≡ ok []
unfolding to_array add_row
wrapped_array_is_empty = refl

to_array-IsArray_example :
    (m : ℕ) × IsGreatest m ((0, codes "b") ∷ (0, codes "c") ∷ (1, codes "a") ∷ [])
    × IsArray roomy import_rows
        ((0, codes "b") ∷ (0, codes "c") ∷ (1, codes "a") ∷ [])
        m
        (to_array roomy import_rows (added ((0, codes "b") ∷ (0, codes "c") ∷ (1, codes "a") ∷ [])))
to_array-IsArray_example =
    to_array-IsArray roomy import_rows 0 (codes "b") ((0, codes "c") ∷ (1, codes "a") ∷ [])

abbrev function_text : Text
function_text =
    codes "0:0:var:2:reg:3(1:i32,0:type#4)->i64{\n label:a\n ret,reg#1\n label:end\n}\n$end\n"

-- The arguments stand in the order of their indices.
function_is_parsed :
    parse_function roomy (const_string (codes "f") ∷ []) function_text
    ≡ some (
        ok (
          record {
            name = codes "f";
            variables_size = 2;
            registers_size = 3;
            label_blocks = record { name = codes "a"; orders = return_function 1 ∷ [] } ∷ [];
            return_type_info = record { primitive_type = some i64; type_index = 0 };
            argument_type_infos =
                record { primitive_type = none; type_index = 4 }
                ∷ record { primitive_type = some i32; type_index = 0 }
                ∷ [];
          }
              ∷ [],
          [],
        ))
unfolding parse_function function_round function_line parse_head with_blocks text_eq
    move_until_next_line match greedy is_in to_array add_row stoull split_commas parse_argument_type
    parse_primitive_type all_types name get_const_value_as_string parse_label_blocks blocks_round
    parse_label with_label parse_orders parse_line parse_register_or_variable_number read_functions
function_is_parsed = refl

-- Two constants: the text "a b" and the number 42.
abbrev two_consts : Text
two_consts = codes "0:3:s#a b\n1:2:i#42\n$end\n"

no_double : Text → Parsed ℕ
no_double s = err parse_exception

two_consts_are_read :
    parse_const no_double roomy two_consts
    ≡ some (ok (const_string (codes "a b") ∷ const_int 2 42 ∷ [], []))
unfolding parse_const no_double roomy match greedy is_in text_eq stoull fill_values add_row
two_consts_are_read = refl

parse-returns_example :
    (p : Parsed (Option ModuleObject)) × (parse roomy no_double
        (codes "m")
        (codes "$const\n0:1:s#x\n$end\n")
      ≡ some p)
parse-returns_example = parse-returns roomy no_double (codes "m") (codes "$const\n0:1:s#x\n$end\n")

parse_register_or_variable_number-decimal_example :
    (parse_register_or_variable_number (codes "reg#" ++ decimal 1024) ≡ ok 1024)
    × (parse_register_or_variable_number (codes "var#" ++ decimal 1024) ≡ ok 1024)
parse_register_or_variable_number-decimal_example =
    parse_register_or_variable_number-decimal 1024 (omega arith)
