-- ===== src/Vm/Run.antt =====
-- `CatVM::run_function` of vm/CatVM.cpp. The arrays that it makes are not cleared: their first contents
-- are an argument. The loop takes fuel, and `waiting` also means that the fuel ran out.
pub mod Jump
pub mod Straight
use cat_la_project.Base.{
  ℕ, zero, suc, ◌+◌, Bool, true, false, ◌||◌, none, some, get_elem?, length, ◌==◌, if◌then◌else◌,
}
use cat_la_project.Vm.Modules.{Order, LabelBlock}
use cat_la_project.Vm.Result.{Result, ok, fault, waiting, ◌>>=◌, or_fault}
use cat_la_project.Vm.Machine.{Machine, Surroundings, read_register}
use cat_la_project.Vm.Orders.{eval}

-- `vm_thread->current_label_block`, which must point to a block.
unfoldable pub current_block : Surroundings → Machine → Result LabelBlock
current_block env m = elim m.current_label_block [
  | none ↦ fault
  | some b ↦ or_fault (get_elem? env.function.label_blocks b)
]

-- `orders[current_order_index]`
unfoldable pub current_order : Surroundings → Machine → Result Order
unfolding current_block
current_order env m = do
  block ← current_block env m
  or_fault (get_elem? block.orders m.current_order_index)

-- `current_order_index++` and the test for the end: the size is that of the block after the order.
unfoldable pub finish : LabelBlock → Machine → Bool × Machine
finish block m =
    if (m.current_order_index + 1 == length block.orders) || m.return_function
    then (
      true,
      record m { current_order_index = m.current_order_index + 1; return_function = false },
    )
    else (false, record m { current_order_index = m.current_order_index + 1 })

unfoldable pub advance : Surroundings → Machine → Result (Bool × Machine)
unfolding current_block finish
advance env m = do block ← current_block env m; ok (finish block m)

-- The body of `while (true)`; the flag says that the loop is left.
unfoldable pub round : Surroundings → Machine → Result (Bool × Machine)
round env m = do order ← current_order env m; m' ← eval env order m; advance env m'

unfoldable pub run_loop : ℕ → Surroundings → Machine → Result Machine
run_loop zero env m = waiting
run_loop (suc fuel) env m = do
  (done, m') ← round env m
  elim done [ true ↦ ok m' | false ↦ run_loop fuel env m' ]

-- The state in which the loop starts: `label_blocks[0]` and its first order.
abbrev pub enter : Machine → Machine
enter m = record m { current_label_block = some 0; current_order_index = 0 }

-- `run_function` for registers and variables as they were allocated.
unfoldable pub run_function : ℕ → Surroundings → Machine → Result (ℕ × Machine)
run_function fuel env m = do
  m' ← run_loop fuel env (enter m)
  result ← read_register m' env.function.registers_size
  ok (result, m')
