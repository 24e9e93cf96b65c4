-- ===== src/Vm/Modules.antt =====
-- vm/modules/: constants, types, functions, labels, orders and modules, and vm/parser/Structs.h.
-- A pointer to a type is its index in a table of types; a pointer to a label block is the block's
-- index in its function; `none` is `nullptr`.
use cat_la_project.Base.{ℕ, suc, Bool, true, false, Option, none, some, List, [], ◌∷◌}
use cat_la_project.Base.Strings.{Text, text_eq}
use cat_la_project.Vm.PrimitiveType.{PrimitiveType}

-- `ConstValue`: the tag `type` with what `value_reference` points to, an `int64_t` and a `double` as
-- their 64 bits.
pub data ConstValue : Type 0 where
  const_string : Text → ConstValue
  const_int const_float : (byte_size bits : ℕ) → ConstValue

pub record TypeInfo : Type 0 where
  pub import_index : ℕ
  pub type_name : Text

pub record FieldInfo : Type 0 where
  pub field_name : Text
  pub primitive_type : Option PrimitiveType
  pub user_def_type : TypeInfo

pub record ArgumentInfo : Type 0 where
  pub primitive_type : Option PrimitiveType
  pub type_index : ℕ

-- `OwnershipOrder` of vm/modules/orders/Order.h
pub data OwnershipOrder : Type 0 where
  clone borrow move : OwnershipOrder

-- The subclasses of `Order`, each with its fields.
pub data Order : Type 0 where
  get_const_integer : (type : PrimitiveType) (result_register const_index : ℕ) → Order
  get_argument : (result_register argument_index : ℕ) → Order
  add_integer : (type : PrimitiveType) (result_register left right : ℕ) → Order
  jump_to_label : (label_name : Text) (label : Option ℕ) → Order
  return_function : (result_register : ℕ) → Order
  get_object_field :
      (target result_register using_type_index : ℕ) (field_name : Text) (field_index : ℕ)
      → OwnershipOrder
      → Order
  set_object_field :
      (target field_object_register using_type_index : ℕ) (field_name : Text) (field_index : ℕ)
      → (borrow_lock : Bool) → Order
  new_class_object :
      (result_register using_type_index : ℕ) (using_type : Option ℕ) (field_length : ℕ) → Order

pub record LabelBlock : Type 0 where
  pub name : Text
  pub orders : List Order

pub record Function : Type 0 where
  pub name : Text
  pub variables_size : ℕ
  pub registers_size : ℕ
  pub label_blocks : List LabelBlock
  pub return_type_info : ArgumentInfo
  pub argument_type_infos : List ArgumentInfo

-- `Field` of vm/modules/Field.h: a name and a type pointer.
pub record Field : Type 0 where
  pub name : Text
  pub type : Option ℕ

-- `Type` of vm/modules/Type.h: what the linking of orders reads.
pub record TypeObject : Type 0 where
  pub primitive_type : Option PrimitiveType
  pub type_name : Text
  pub field_infos : List FieldInfo
  pub parent_info : TypeInfo
  pub all_fields : List Field
  pub reference_fields : List ℕ

-- `label_block_map[name]`: the constructor of `Function` stores the blocks in order, so the last
-- block of a name stays; a missing name reads as a null pointer.
unfoldable pub find_label : List LabelBlock → (index : ℕ) → Text → Option ℕ
find_label [] index label = none
find_label (b ∷ bs) index label = elim (find_label bs (suc index) label) [
  | some i ↦ some i
  | none ↦ elim (text_eq b.name label) [ true ↦ some index | false ↦ none ]
]
