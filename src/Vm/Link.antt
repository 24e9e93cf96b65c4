-- ===== src/Vm/Link.antt =====
-- `Order::link` of the classes in vm/modules/orders/: names become indices and pointers.
pub mod Names
pub mod NoFields
use cat_la_project.Base.{
  ℕ, zero, suc, ◌+◌, Bool, true, false, Option, none, some, List, [], ◌∷◌, get_elem?, if◌then◌else◌,
}
use cat_la_project.Base.Strings.{Text, text_eq}
use cat_la_project.Util.BitSet.{get_flag}
use cat_la_project.Vm.Modules.{
  Order, get_const_integer, get_argument, add_integer, jump_to_label, return_function,
  get_object_field, set_object_field, new_class_object, Field, TypeObject, LabelBlock, Function,
  find_label,
}
use cat_la_project.Vm.Result.{Result, ok, fault, ◌>>=◌, or_fault}

-- The types that pointers name, and `using_types` of the module.
pub record Types : Type 0 where
  pub table : ℕ → TypeObject
  pub using_types : List (Option ℕ)

-- The loop over `all_fields`: the first field of the name.
unfoldable pub find_field : List Field → (index : ℕ) → Text → Option ℕ
find_field [] index name = none
find_field (f ∷ fs) index name = elim (text_eq f.name name) [
  | true ↦ some index
  | false ↦ find_field fs (suc index) name
]

-- `mod->using_types[using_type_index]`, dereferenced.
unfoldable pub using_type_at : Types → ℕ → Result TypeObject
using_type_at types i = do
  pointer ← or_fault (get_elem? types.using_types i)
  type ← or_fault pointer
  ok (types.table type)

-- The flag of a field that was found is only read, for a message.
unfoldable pub linked_index : TypeObject → Text → (old : ℕ) → Result ℕ
linked_index type name old = elim (find_field type.all_fields 0 name) [
  | none ↦ ok old
  | some i ↦ elim (get_flag type.reference_fields i) [ none ↦ fault | some flag ↦ ok i ]
]

-- An order with an empty name keeps its index.
unfoldable pub link_field : Types → (using_type : ℕ) → Text → (old : ℕ) → Result ℕ
link_field types using_type [] old = ok old
link_field types using_type (c ∷ cs) old = do
  type ← using_type_at types using_type
  linked_index type (c ∷ cs) old

unfoldable pub link : Types → Function → Order → Result Order
link types function (jump_to_label name label) =
    ok (jump_to_label name (find_label function.label_blocks 0 name))
link types function (get_object_field target result using_type name index own) = do
  i ← link_field types using_type name index
  ok (get_object_field target result using_type name i own)
link types function (set_object_field target source using_type name index borrow_lock) = do
  i ← link_field types using_type name index
  ok (set_object_field target source using_type name i borrow_lock)
link types function (new_class_object result using_type_index using_type field_length) = do
  pointer ← or_fault (get_elem? types.using_types using_type_index)
  ok (new_class_object result using_type_index pointer field_length)
link types function order = ok order

-- The constructor of `NewClassObject`.
unfoldable pub make_new : (result_register using_type_index : ℕ) → Order
make_new result using_type_index = new_class_object result using_type_index none 0
