-- ===== src/Vm/Orders/Add.antt =====
-- `AddInteger::eval` of vm/modules/orders/Add.cpp, on the 64-bit registers of a little-endian machine.
-- A sum narrower than `int` is an `int`, and every 32-bit sum is read back as eight bytes. Signed sums
-- are modelled as they wrap on the machine.
pub mod Laws
use cat_la_project.Base.{ℕ, ◌+◌, ◌-◌, ◌*◌, ◌%◌, ◌^◌, Option, none, some, ltb, if◌then◌else◌}
use cat_la_project.Vm.PrimitiveType.{PrimitiveType, type_void, i8, i16, i32, i64, u8, u16, u32, u64}

-- The `int` of a signed value in the low byte, and in the low two bytes, of a register.
unfoldable pub int_of_i8 : ℕ → ℕ
int_of_i8 r = if ltb (r % 2 ^ 8) (2 ^ 7) then r % 2 ^ 8 else r % 2 ^ 8 + 2 ^ 32 - 2 ^ 8

unfoldable pub int_of_i16 : ℕ → ℕ
int_of_i16 r = if ltb (r % 2 ^ 16) (2 ^ 15) then r % 2 ^ 16 else r % 2 ^ 16 + 2 ^ 32 - 2 ^ 16

-- `*((uint64_t*) &result)` for a 32-bit `result`: `above` stands in the upper half.
unfoldable pub read_wide : (above low : ℕ) → ℕ
read_wide above low = low % 2 ^ 32 + above % 2 ^ 32 * 2 ^ 32

-- The word stored in the result register; no branch is taken for `void`.
unfoldable pub add_word : PrimitiveType → (above left right : ℕ) → Option ℕ
unfolding int_of_i8 int_of_i16 read_wide
add_word type_void above l r = none
add_word i8 above l r = some (read_wide above (int_of_i8 l + int_of_i8 r))
add_word i16 above l r = some (read_wide above (int_of_i16 l + int_of_i16 r))
add_word i32 above l r = some (read_wide above (l % 2 ^ 32 + r % 2 ^ 32))
add_word i64 above l r = some ((l + r) % 2 ^ 64)
add_word u8 above l r = some (read_wide above (l % 2 ^ 8 + r % 2 ^ 8))
add_word u16 above l r = some (read_wide above (l % 2 ^ 16 + r % 2 ^ 16))
add_word u32 above l r = some (read_wide above (l % 2 ^ 32 + r % 2 ^ 32))
add_word u64 above l r = some ((l + r) % 2 ^ 64)
