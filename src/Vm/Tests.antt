-- ===== src/Vm/Tests.antt =====
-- Runs of orders and functions, and the theorems at concrete inputs.
use cat_la_project.Base.{
  ℕ, ◌+◌, ◌*◌, ◌≡◌, ◌≢◌, refl, Bool, true, false, Option, none, some, List, [], ◌∷◌, arith, ◌==◌,
  if◌then◌else◌,
}
use cat_la_project.Base.Strings.{Text, codes}
use cat_la_project.Heap.Object.{Memory, zeroed, write}
use cat_la_project.Heap.Allocator.{HeapState, new_allocator}
use cat_la_project.Heap.Allocator.Wf.{new_allocator-IsHeap}
use cat_la_project.Vm.PrimitiveType.{i8, i32}
use cat_la_project.Vm.Modules.{
  Order, LabelBlock, Function, TypeObject, OwnershipOrder, borrow, ArgumentInfo, get_argument,
  add_integer, jump_to_label, return_function, set_object_field, get_object_field,
}
use cat_la_project.Vm.Result.{Result, ok, fault, waiting, ◌>>=◌}
use cat_la_project.Vm.Machine.{Machine, Surroundings, read_register, write_register}
use cat_la_project.Vm.Orders.{eval}
use cat_la_project.Vm.Orders.Add.{add_word}
use cat_la_project.Vm.Orders.Add.Laws.{IsSum, add_word-IsSum, add_word_leaks}
use cat_la_project.Vm.Orders.Fields.{set_lock, get_field, set_field}
use cat_la_project.Vm.Orders.Fields.Get.{left, counted, get_field_deadlock, get_field_takes}
use cat_la_project.Vm.Orders.Fields.Set.{Stored, at_try, set_field_waits}
use cat_la_project.Vm.Run.{current_block, current_order, advance, round, run_loop, run_function}
use cat_la_project.Vm.Run.Jump.{round_after_jump}
use cat_la_project.Vm.Run.Straight.{exec, run_loop-exec}
use cat_la_project.Vm.Link.{Types, link, make_new}
use cat_la_project.Vm.Link.Names.{Found, link-Found}
use cat_la_project.Vm.Link.NoFields.{new_has_no_fields}

add_word-IsSum_example : IsSum i8 200 100 (add_word i8 7 200 100)
add_word-IsSum_example = add_word-IsSum i8 7 200 100

add_word_leaks_example : add_word i32 0 2 3 ≢ add_word i32 1 2 3
add_word_leaks_example = add_word_leaks i32 0 1 2 3 (omega arith) (omega arith) (omega arith)

abbrev no_memory : Memory
no_memory a = zeroed

-- An object at 64 with two fields: a borrowed one and a reference to an object at 128.
abbrev two_fields : Memory
two_fields =
    write no_memory 64 (record zeroed { field_length = 2; fields = λ i. if i == 0 then 1 else 128 })

alone : Memory → Memory
alone mem = mem

get_field_deadlock_example : get_field alone 100 borrow 64 0 two_fields ≡ waiting
unfolding alone
get_field_deadlock_example =
    get_field_deadlock alone 100 64 0 borrow two_fields (λ mem h. h)
      (record { not_null = omega arith; has_field = omega arith }) refl refl

get_field_takes_example :
    (mem' : Memory) × (get_field alone 1 borrow 64 1 two_fields ≡ ok (128, mem'))
    × ((mem' 64).lock_flag ≡ false)
    × ((j : ℕ)
        → (mem' 64).fields j ≡ (if 1 == j then left borrow 128 else (two_fields 64).fields j))
    × ((a : ℕ) → (mem' a).count ≡ counted borrow 128 a (two_fields a).count)
get_field_takes_example =
    get_field_takes alone 0 64 1 borrow two_fields
      (record { not_null = omega arith; has_field = omega arith }) refl (omega arith)

-- Another thread gives field 0 back in the first wait.
gives_back : Memory → Memory
gives_back mem = write mem 64 (record (mem 64) { fields = λ i. if i == 0 then 256 else 128 })

set_field_waits_example :
    (mem' : Memory) × (set_field gives_back 2 true 64 0 512 two_fields ≡ ok mem')
    × Stored gives_back 64 0 512 (at_try gives_back 1 64 two_fields) mem'
unfolding gives_back set_lock
set_field_waits_example =
    set_field_waits gives_back 1 2 64 0 512 two_fields
      (record { not_null = omega arith; has_field = omega arith }) (omega arith)
      (refl, refl, (refl, omega arith))

-- A function of two blocks: `start` adds its arguments and jumps, `last` returns.
abbrev start_orders : List Order
start_orders =
    get_argument 0 0
    ∷ get_argument 1 1
    ∷ add_integer i32 2 0 1
    ∷ jump_to_label (codes "last") (some 1)
    ∷ []

abbrev last_orders : List Order
last_orders = return_function 0 ∷ return_function 2 ∷ []

abbrev start_block : LabelBlock
start_block = record { name = codes "start"; orders = start_orders }

abbrev last_block : LabelBlock
last_block = record { name = codes "last"; orders = last_orders }

abbrev no_type : ArgumentInfo
no_type = record { primitive_type = none; type_index = 0 }

abbrev sum : Function
sum = record {
  name = codes "sum";
  variables_size = 0;
  registers_size = 3;
  label_blocks = start_block ∷ last_block ∷ [];
  return_type_info = no_type;
  argument_type_infos = no_type ∷ no_type ∷ [];
}

abbrev calloc : ℕ → ℕ
calloc k = 4096 * k + 4096

abbrev plain : Surroundings
plain = record {
  const_values = [];
  function = sum;
  above = λ m. 0;
  others = λ mem. mem;
  rounds = 4;
  calloc = calloc;
  cycling = λ ty. false;
}

abbrev heap : HeapState
heap = new_allocator calloc false 2 1 no_memory

abbrev machine : Machine
machine = record {
  registers = 9 ∷ 9 ∷ 9 ∷ 9 ∷ [];
  variables = [];
  arguments = 40 ∷ 2 ∷ [];
  current_label_block = some 0;
  current_order_index = 0;
  return_function = false;
  heap = heap;
  allocator_search_start_index = 0;
}

-- The result of a run.
outcome : Result (ℕ × Machine) → Option ℕ
outcome (ok r) = some r.0
outcome fault = none
outcome waiting = none

-- The jump skips `return_function 0`, so the sum is returned.
sum_of_two : outcome (run_function 6 plain machine) ≡ some 42
unfolding outcome run_function run_loop round current_order current_block advance eval add_word
    read_register write_register
sum_of_two = refl

abbrev at_jump : Machine
at_jump = record machine { current_order_index = 3 }

round_after_jump_example :
    round plain at_jump
    ≡ ok (
      false,
      record at_jump {
        current_label_block = some 1;
        current_order_index = 1;
        return_function = false;
      },
    )
unfolding current_order
round_after_jump_example = round_after_jump plain at_jump (codes "last") 1 last_block refl refl refl

abbrev in_last : Machine
in_last = record machine { current_label_block = some 1 }

run_loop-exec_example : run_loop 2 plain in_last ≡ exec plain last_orders in_last
run_loop-exec_example =
    run_loop-exec plain last_orders 2 in_last 1 last_block refl refl refl (omega arith)
      (omega arith) (tt, (tt, tt))

abbrev empty_type : TypeObject
empty_type = record {
  primitive_type = none;
  type_name = codes "T";
  field_infos = [];
  parent_info = record { import_index = 0; type_name = [] };
  all_fields = [];
  reference_fields = [];
}

abbrev types : Types
types = record { table = λ ty. empty_type; using_types = some 7 ∷ [] }

link-Found_example :
    (label : Option ℕ) × (link types sum (jump_to_label (codes "last") none)
      ≡ ok (jump_to_label (codes "last") label))
    × Found (start_block ∷ last_block ∷ []) 0 (codes "last") label
link-Found_example = link-Found types sum (codes "last") none

one_chunk : heap.allocator.number_of_chunks ≡ 1
unfolding new_allocator
one_chunk = refl

new_has_no_fields_example :
    (m' : Machine) × ((link types sum (make_new 1 0) >>= λ o. eval plain o machine) ≡ ok m')
    × ((source u i : ℕ) (name : Text) (b : Bool)
        → eval plain (set_object_field 1 source u name i b) m' ≡ fault)
    × ((target u i : ℕ) (name : Text) (own : OwnershipOrder)
        → eval plain (get_object_field 1 target u name i own) m' ≡ fault)
new_has_no_fields_example =
    new_has_no_fields plain types sum machine 2 1 0 7 3 refl
      (new_allocator-IsHeap calloc 2 false 1 no_memory (omega arith)) (omega (arith, one_chunk))
      (omega arith) refl
