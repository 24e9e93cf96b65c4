-- ===== src/Parser/Sections.antt =====
-- `parse_import`, `parse_type` and `parse_type_define` of vm/parser/VMParser.cpp. The answer holds the
-- code behind the section.
use cat_la_project.Base.{ℕ, suc, Option, none, some, List, [], ◌∷◌, ◌++◌, length, if◌then◌else◌}
use cat_la_project.Base.Strings.{Text, codes, text_eq}
use cat_la_project.Vm.Modules.{ConstValue, TypeInfo, FieldInfo, TypeObject}
use cat_la_project.Parser.Result.{Parsed, ok, err, parse_exception, ◌>>=◌}
use cat_la_project.Parser.Regex.{Item, lit, lits, many, digit, word, any, match}
use cat_la_project.Parser.Tokens.{
  stoull, split_commas, parse_primitive_type, get_const_value_as_string,
}
use cat_la_project.Parser.Rows.{
  Storage, RowKind, import_rows, type_rows, Rows, no_rows, add_row, to_array, read_rows,
}

-- Rows of an indexed section as their array.
unfoldable pub finish_rows {ℓ} :
    {A : Type ℓ}
    → Storage
    → RowKind
    → Option (Parsed (Rows A × Text))
    → Option (Parsed (List A × Text))
finish_rows storage kind none = none
finish_rows storage kind (some (err e)) = some (err e)
finish_rows storage kind (some (ok (rows, rest))) =
    some (to_array storage kind rows >>= λ items. ok (items, rest))

abbrev number : Item
number = many 1 digit

-- `(\d+):(\d+):(\d+)`: the name of the type is the text of the third number.
unfoldable pub add_type : Rows TypeInfo → Text → Parsed (Rows TypeInfo)
unfolding stoull
add_type rows line = elim (match (number ∷ lit b':' ∷ number ∷ lit b':' ∷ number ∷ []) line) [
  | some (index ∷ import_index ∷ type_name ∷ captures) ↦ do
    i ← stoull index
    j ← stoull import_index
    ok (add_row rows i (record { import_index = j; type_name = type_name }))
  | _ ↦ err parse_exception
]

unfoldable pub parse_type : Storage → Text → Option (Parsed (List TypeInfo × Text))
unfolding finish_rows
parse_type storage code =
    finish_rows storage type_rows (read_rows (suc (length code)) add_type no_rows code)

-- `(\d+):this`
unfoldable pub add_this : (module_name : Text) → Rows Text → Text → Parsed (Rows Text)
add_this module_name rows line = elim (match (number ∷ lits (codes ":this")) line) [
  | some (index ∷ captures) ↦ do i ← stoull index; ok (add_row rows i module_name)
  | _ ↦ err parse_exception
]

-- The name of an imported module: that of a constant, and empty for any other word than `const`.
unfoldable pub import_name : List ConstValue → (target : Text) → (target_index : ℕ) → Parsed Text
import_name consts target target_index =
    if text_eq target (codes "const") then get_const_value_as_string consts target_index else ok []

-- `(\d+):(\w+)#(\d+)`, or else `(\d+):this`
unfoldable pub add_import :
    (module_name : Text) → List ConstValue → Rows Text → Text → Parsed (Rows Text)
unfolding add_this import_name
add_import module_name consts rows line =
    elim (match (number ∷ lit b':' ∷ many 1 word ∷ lit b'#' ∷ number ∷ []) line) [
      | some (index ∷ target ∷ target_index ∷ captures) ↦ do
        i ← stoull index
        k ← stoull target_index
        name ← import_name consts target k
        ok (add_row rows i name)
      | _ ↦ add_this module_name rows line
    ]

unfoldable pub parse_import :
    Storage → (module_name : Text) → List ConstValue → Text → Option (Parsed (List Text × Text))
unfolding finish_rows
parse_import storage module_name consts code =
    finish_rows storage import_rows
      (read_rows (suc (length code)) (add_import module_name consts) no_rows code)

-- `(\d+):(\d+):(\d+)`: a field of a type of a module
unfoldable pub parse_user_field : List ConstValue → Text → Parsed FieldInfo
parse_user_field consts piece =
    elim (match (number ∷ lit b':' ∷ number ∷ lit b':' ∷ number ∷ []) piece) [
      | some (field_name ∷ import_index ∷ name_index ∷ captures) ↦ do
        i ← stoull import_index
        k ← stoull name_index
        type_name ← get_const_value_as_string consts k
        ok (record {
          field_name = field_name;
          primitive_type = none;
          user_def_type = record { import_index = i; type_name = type_name };
        })
      | _ ↦ err parse_exception
    ]

-- `(\d+):(\w+)`: a field of a primitive type, or else one of a type of a module
unfoldable pub parse_field : List ConstValue → Text → Parsed FieldInfo
unfolding parse_user_field
parse_field consts piece = elim (match (number ∷ lit b':' ∷ many 1 word ∷ []) piece) [
  | some (field_name ∷ type ∷ captures) ↦ do
    t ← parse_primitive_type type
    ok (record {
      field_name = field_name;
      primitive_type = some t;
      user_def_type = record { import_index = 0; type_name = [] };
    })
  | _ ↦ parse_user_field consts piece
]

unfoldable pub parse_fields : List ConstValue → List Text → Parsed (List FieldInfo)
unfolding parse_field
parse_fields consts [] = ok []
parse_fields consts (piece ∷ pieces) = do
  field ← parse_field consts piece
  fields ← parse_fields consts pieces
  ok (field ∷ fields)

-- The constructor of `Type`, for a type that is not primitive.
unfoldable pub make_type : (type_name : Text) → List FieldInfo → TypeInfo → TypeObject
make_type type_name field_infos parent_info = record {
  primitive_type = none;
  type_name = type_name;
  field_infos = field_infos;
  parent_info = parent_info;
  all_fields = [];
  reference_fields = [];
}

-- `(\d+):\((.*)\)`: a type without a parent
unfoldable pub parse_base_type : List ConstValue → Text → Parsed TypeObject
unfolding parse_fields make_type split_commas
parse_base_type consts line =
    elim (match (number ∷ lit b':' ∷ lit b'(' ∷ many 0 any ∷ lit b')' ∷ []) line) [
      | some (name_index ∷ fields ∷ captures) ↦ do
        n ← stoull name_index
        name ← get_const_value_as_string consts n
        fs ← parse_fields consts (split_commas fields)
        ok (make_type name fs (record { import_index = 0; type_name = [] }))
      | _ ↦ err parse_exception
    ]

-- `(\d+):\((.*)\):(\d+):(\d+)`: a type with a parent, or else one without
unfoldable pub parse_type_line : List ConstValue → Text → Parsed TypeObject
unfolding parse_base_type parse_fields make_type split_commas
parse_type_line consts line =
    elim (match
      (number
        ∷ lit b':'
        ∷ lit b'('
        ∷ many 0 any
        ∷ lit b')'
        ∷ lit b':'
        ∷ number
        ∷ lit b':'
        ∷ number
        ∷ [])
      line) [
        | some (name_index ∷ fields ∷ extends_import ∷ extends_name ∷ captures) ↦ do
          n ← stoull name_index
          name ← get_const_value_as_string consts n
          i ← stoull extends_import
          k ← stoull extends_name
          parent ← get_const_value_as_string consts k
          fs ← parse_fields consts (split_commas fields)
          ok (make_type name fs (record { import_index = i; type_name = parent }))
        | _ ↦ parse_base_type consts line
      ]

-- `types.push_back`
unfoldable pub add_type_define : List ConstValue → List TypeObject → Text → Parsed (List TypeObject)
unfolding parse_type_line
add_type_define consts types line = do type ← parse_type_line consts line; ok (types ++ (type ∷ []))

unfoldable pub parse_type_define : List ConstValue → Text → Option (Parsed (List TypeObject × Text))
parse_type_define consts code = read_rows (suc (length code)) (add_type_define consts) [] code
