-- ===== src/Parser.antt =====
-- vm/parser/VMParser.cpp, over the bytes of the code. `position` is modelled by the code that is left.
pub mod Result
pub mod Regex
pub mod Lines
pub mod Tokens
pub mod Orders
pub mod Rows
pub mod Sections
pub mod Consts
pub mod Functions
pub mod Whole
pub mod Tests
