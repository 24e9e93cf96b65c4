-- ===== src/Vm/Orders/Add/Laws.antt =====
-- The sum of `AddInteger` is right in the bits of its type, and undetermined above a 32-bit result.
use cat_la_project.Base.{ℕ, ◌+◌, ◌%◌, ◌^◌, ◌<◌, ◌≡◌, ◌≢◌, refl, Option, none, some, arith}
use cat_la_project.Vm.PrimitiveType.{PrimitiveType, type_void, i8, i16, i32, i64, u8, u16, u32, u64}
use cat_la_project.Vm.Orders.Add.{add_word}

-- The bits of an integer type.
abbrev pub width : PrimitiveType → ℕ
width type_void = 0
width i8 = 8
width i16 = 16
width i32 = 32
width i64 = 64
width u8 = 8
width u16 = 16
width u32 = 32
width u64 = 64

abbrev pub IsSum : PrimitiveType → ℕ → ℕ → Option ℕ → Type 0
IsSum t l r none = t ≡ type_void
IsSum t l r (some w) = (t ≢ type_void) × (w < 2 ^ 64) × (w % 2 ^ width t ≡ (l + r) % 2 ^ width t)

-- For each of the eight integer types a word of 64 bits is stored whose low bits, as many as the type has, are
-- the sum of the operands modulo 2 ^ width, whatever stands above the local; for void none is.
pub add_word-IsSum : (t : PrimitiveType) (above l r : ℕ) → IsSum t l r (add_word t above l r)
unfolding add_word
add_word-IsSum type_void above l r = refl
add_word-IsSum i8 above l r = (λ e. cc, ground arith, ground arith)
add_word-IsSum i16 above l r = (λ e. cc, ground arith, ground arith)
add_word-IsSum i32 above l r = (λ e. cc, omega arith, omega arith)
add_word-IsSum i64 above l r = (λ e. cc, omega arith, omega arith)
add_word-IsSum u8 above l r = (λ e. cc, omega arith, omega arith)
add_word-IsSum u16 above l r = (λ e. cc, omega arith, omega arith)
add_word-IsSum u32 above l r = (λ e. cc, omega arith, omega arith)
add_word-IsSum u64 above l r = (λ e. cc, omega arith, omega arith)

-- For an integer type narrower than 64 bits, two different contents of the four bytes above the sum give
-- two different words.
pub add_word_leaks :
    (t : PrimitiveType) (a b l r : ℕ)
    → 0 < width t
    → width t < 64
    → a % 2 ^ 32 ≢ b % 2 ^ 32
    → add_word t a l r ≢ add_word t b l r
unfolding add_word
add_word_leaks type_void a b l r lo hi ne e = absurd (omega arith)
add_word_leaks i8 a b l r lo hi ne e = ground arith
add_word_leaks i16 a b l r lo hi ne e = ground arith
add_word_leaks i32 a b l r lo hi ne e = ground arith
add_word_leaks i64 a b l r lo hi ne e = absurd (omega arith)
add_word_leaks u8 a b l r lo hi ne e = ground arith
add_word_leaks u16 a b l r lo hi ne e = ground arith
add_word_leaks u32 a b l r lo hi ne e = ground arith
add_word_leaks u64 a b l r lo hi ne e = absurd (omega arith)
