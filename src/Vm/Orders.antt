-- ===== src/Vm/Orders.antt =====
-- `Order::eval` of every class in vm/modules/orders/.
pub mod Add
pub mod Fields
use cat_la_project.Base.{
  ℕ, ◌+◌, ◌*◌, Bool, true, false, Option, none, some, List, [], ◌∷◌, get_elem?,
}
use cat_la_project.Base.Strings.{Text}
use cat_la_project.Heap.Allocator.{Answer}
use cat_la_project.Heap.Allocator
use cat_la_project.Vm.Modules.{
  ConstValue, const_string, const_int, const_float, Order, get_const_integer, get_argument,
  add_integer, jump_to_label, return_function, get_object_field, set_object_field, new_class_object,
  OwnershipOrder,
}
use cat_la_project.Vm.Result.{Result, ok, fault, waiting, ◌>>=◌, or_fault}
use cat_la_project.Vm.Machine.{Machine, Surroundings, read_register, write_register, with_mem}
use Add.{add_word}
use Fields.{get_field, set_field}

-- The first eight bytes of a string, as a little-endian word; a shorter one is read out of bounds.
abbrev first_word : Text → Option ℕ
first_word (a ∷ b ∷ c ∷ d ∷ e ∷ f ∷ g ∷ h ∷ rest) =
    some (a + 256 * (b + 256 * (c + 256 * (d + 256 * (e + 256 * (f + 256 * (g + 256 * h)))))))
first_word _ = none

-- `*((uint64_t*) value_reference)`
unfoldable pub const_word : ConstValue → Option ℕ
const_word (const_string s) = first_word s
const_word (const_int size bits) = some bits
const_word (const_float size bits) = some bits

-- `HeapAllocator::malloc` as a thread calls it: a null type is read by it, and faults. Two rounds of
-- chunks are enough (Heap/Allocator/Total.antt).
unfoldable pub allocate : Surroundings → Option ℕ → ℕ → Machine → Result Answer
allocate env none n m = fault
allocate env (some ty) n m =
    or_fault (Allocator.malloc env.calloc env.cycling ty n 2 m.heap m.allocator_search_start_index)

-- A pointer as a register holds it.
abbrev pub pointer : Option ℕ → ℕ
pointer none = 0
pointer (some a) = a

unfoldable pub eval : Surroundings → Order → Machine → Result Machine
eval env (get_const_integer type result index) m = do
  c ← or_fault (get_elem? env.const_values index)
  w ← or_fault (const_word c)
  write_register m result w
eval env (get_argument result index) m = do
  a ← or_fault (get_elem? m.arguments index)
  write_register m result a
eval env (add_integer type result left right) m = do
  l ← read_register m left
  r ← read_register m right
  elim (add_word type (env.above m) l r) [ none ↦ ok m | some w ↦ write_register m result w ]
eval env (jump_to_label name label) m =
    ok (record m { current_label_block = label; current_order_index = 0 })
eval env (return_function result) m = do
  r ← read_register m result
  write_register (record m { return_function = true }) env.function.registers_size r
eval env (get_object_field target result using_type name index ownership) m = do
  parent ← read_register m target
  (object, mem) ← get_field env.others env.rounds ownership parent index m.heap.mem
  write_register (with_mem m mem) result object
eval env (set_object_field target source using_type name index borrow_lock) m = do
  parent ← read_register m target
  object ← read_register m source
  mem ← set_field env.others env.rounds borrow_lock parent index object m.heap.mem
  ok (with_mem m mem)
eval env (new_class_object result using_type_index using_type field_length) m = do
  ans ← allocate env using_type field_length m
  write_register
      (record m { heap = ans.state; allocator_search_start_index = ans.chunk_search_start_index })
      result (pointer ans.address)
