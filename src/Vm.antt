-- ===== src/Vm.antt =====
-- vm/: the data of a module, its orders, and their execution.
pub mod PrimitiveType
pub mod Modules
pub mod Result
pub mod Machine
pub mod Orders
pub mod Run
pub mod Link
mod Tests
