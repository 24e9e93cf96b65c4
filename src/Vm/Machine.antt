-- ===== src/Vm/Machine.antt =====
-- The state that `CatVM::run_function` and the orders work on (vm/CatVM.h, vm/CatVM.cpp), and what a
-- run is given: the module, the function, and the surroundings that the source does not define.
use cat_la_project.Base.{ℕ, Bool, Option, List, get_elem?, set, ltb, length, if◌then◌else◌}
use cat_la_project.Heap.Object.{Memory}
use cat_la_project.Heap.Allocator.{HeapState}
use cat_la_project.Vm.Modules.{ConstValue, Function}
use cat_la_project.Vm.Result.{Result, ok, fault, or_fault}

-- The arrays of `run_function` and the fields of `VMThread` that the orders use. The current function
-- is that of `Surroundings`.
pub record Machine : Type 0 where
  pub registers : List ℕ
  pub variables : List ℕ
  pub arguments : List ℕ
  pub current_label_block : Option ℕ
  pub current_order_index : ℕ
  pub return_function : Bool
  pub heap : HeapState
  pub allocator_search_start_index : ℕ

-- `above` is what stands in the four bytes above a 32-bit local that is read as 64 bits; `others` is
-- what other threads do to the memory in one round of a wait, and `rounds` how many rounds a wait gets;
-- `calloc` and `cycling` are those of the allocator.
pub record Surroundings : Type 0 where
  pub const_values : List ConstValue
  pub function : Function
  pub above : Machine → ℕ
  pub others : Memory → Memory
  pub rounds : ℕ
  pub calloc : ℕ → ℕ
  pub cycling : ℕ → Bool

-- `registers[i]` and `registers[i] = v`
unfoldable pub read_register : Machine → ℕ → Result ℕ
read_register m i = or_fault (get_elem? m.registers i)

unfoldable pub write_register : Machine → ℕ → ℕ → Result Machine
write_register m i v =
    if ltb i (length m.registers) then ok (record m { registers = set m.registers i v }) else fault

abbrev pub with_mem : Machine → Memory → Machine
with_mem m mem = record m { heap = record (m.heap) { mem = mem } }
