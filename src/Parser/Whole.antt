-- ===== src/Parser/Whole.antt =====
-- `parse` of vm/parser/VMParser.cpp: the sections of a module text, in any order, and the module.
pub mod Total
use cat_la_project.Base.{
  ℕ, zero, suc, Option, none, some, List, [], ◌∷◌, length, Bool, true, false, if◌then◌else◌,
}
use cat_la_project.Base.Strings.{Text, codes, text_eq}
use cat_la_project.Vm.Modules.{ConstValue, TypeInfo, TypeObject, Function}
use cat_la_project.Parser.Result.{
  Parsed, ok, err, parse_exception, invalid_argument, out_of_range, no_memory, undefined,
}
use cat_la_project.Parser.Lines.{move_until_next_line}
use cat_la_project.Parser.Rows.{Storage}
use cat_la_project.Parser.Consts.{parse_const}
use cat_la_project.Parser.Sections.{parse_import, parse_type, parse_type_define}
use cat_la_project.Parser.Functions.{parse_function}

-- `Module` of vm/modules/Module.h, as its constructor makes it.
pub record ModuleObject : Type 0 where
  pub name : Text
  pub const_values : List ConstValue
  pub import_module_names : List Text
  pub type_define_map : List (Text × TypeObject)
  pub type_defines : List TypeObject
  pub using_type_infos : List TypeInfo
  pub functions : List Function

-- `type_define_map`: the entry that was put in last stands in front.
unfoldable pub define_types : List TypeObject → List (Text × TypeObject) → List (Text × TypeObject)
define_types [] types = types
define_types (t ∷ ts) types = define_types ts ((t.type_name, t) ∷ types)

-- What was read so far.
pub record Contents : Type 0 where
  pub const_values : List ConstValue
  pub import_module_names : List Text
  pub type_defines : List TypeObject
  pub using_types : List TypeInfo
  pub functions : List Function

abbrev pub nothing_read : Contents
nothing_read = record {
  const_values = [];
  import_module_names = [];
  type_defines = [];
  using_types = [];
  functions = [];
}

unfoldable pub make_module : (name : Text) → Contents → ModuleObject
unfolding define_types
make_module name c = record {
  name = name;
  const_values = c.const_values;
  import_module_names = c.import_module_names;
  type_define_map = define_types c.type_defines [];
  type_defines = c.type_defines;
  using_type_infos = c.using_types;
  functions = c.functions;
}

-- What a section gives goes into the contents.
unfoldable pub put_in {ℓ} :
    {A : Type ℓ} → (A → Contents) → Option (Parsed (A × Text)) → Option (Parsed (Contents × Text))
put_in add none = none
put_in add (some (err e)) = some (err e)
put_in add (some (ok (a, rest))) = some (ok (add a, rest))

module _ (storage : Storage) (stod : Text → Parsed ℕ) (name : Text) where
  -- One line between the sections; a line that starts none is passed over.
  unfoldable pub parse_section : (line rest : Text) → Contents → Option (Parsed (Contents × Text))
  unfolding put_in
  parse_section line rest c =
      if text_eq line (codes "$const")
      then put_in (λ values. record c { const_values = values }) (parse_const stod storage rest)
      else if text_eq line (codes "$import")
      then put_in (λ names. record c { import_module_names = names })
          (parse_import storage name c.const_values rest)
      else if text_eq line (codes "$typedef")
      then put_in (λ types. record c { type_defines = types })
          (parse_type_define c.const_values rest)
      else if text_eq line (codes "$type")
      then put_in (λ types. record c { using_types = types }) (parse_type storage rest)
      else if text_eq line (codes "$function")
      then put_in (λ functions. record c { functions = functions })
          (parse_function storage c.const_values rest)
      else some (ok (c, rest))

  unfoldable pub parse_next :
      Option (Parsed (Contents × Text))
      → (next : Contents → Text → Option (Parsed Contents)) → Option (Parsed Contents)
  parse_next none next = none
  parse_next (some (err e)) next = some (err e)
  parse_next (some (ok (c, rest))) next = next c rest

  -- The `while` loop; `none` is no fuel left.
  unfoldable pub parse_loop : (fuel : ℕ) → Contents → Text → Option (Parsed Contents)
  unfolding move_until_next_line parse_section parse_next
  parse_loop zero c code = none
  parse_loop (suc fuel) c [] = some (ok c)
  parse_loop (suc fuel) c (b ∷ bs) =
      let (line, rest) = move_until_next_line (b ∷ bs) in
      parse_next (parse_section line rest c) (λ c' code. parse_loop fuel c' code)

  -- A `ParseException` makes the result a null pointer; the other exceptions leave `parse`.
  unfoldable pub caught : Parsed Contents → Parsed (Option ModuleObject)
  unfolding make_module
  caught (ok c) = ok (some (make_module name c))
  caught (err parse_exception) = ok none
  caught (err invalid_argument) = err invalid_argument
  caught (err out_of_range) = err out_of_range
  caught (err no_memory) = err no_memory
  caught (err undefined) = err undefined

  unfoldable pub parse : Text → Option (Parsed (Option ModuleObject))
  unfolding parse_loop caught
  parse code = elim (parse_loop (suc (length code)) nothing_read code) [
    | none ↦ none
    | some r ↦ some (caught r)
  ]
