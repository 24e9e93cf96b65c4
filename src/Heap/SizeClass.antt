-- ===== src/Heap/SizeClass.antt =====
-- The choice of a size class at the start of `HeapAllocator::malloc` (heap/HeapAllocator.cpp), for a
-- 64-bit `size_t`: ADDRESS_SIZE_SHIFT is 3, and `sizeof(HeapObject)` is 40.
pub mod Fits
use cat_la_project.Base.{
  ℕ, ◌+◌, ◌-◌, ◌*◌, ◌/◌, ◌%◌, ◌^◌, Option, none, some, ◌==◌, ltb, leb, if◌then◌else◌,
}

abbrev pub size_of_object : ℕ
size_of_object = 40

-- `sizeof(HeapObject) + (fields_length << 3)`, in 64 bits
unfoldable pub byte_size : ℕ → ℕ
byte_size fields_length = (size_of_object + (fields_length * 8) % 2 ^ 64) % 2 ^ 64

-- The quotient by `2 ^ k`, rounded up: `temp & mask` and `temp >> k`.
abbrev round_up : ℕ → ℕ → ℕ
round_up temp unit = if temp % unit == 0 then temp / unit else temp / unit + 1

unfoldable pub size_class : ℕ → Option (ℕ × ℕ)
size_class b =
    if ltb b 96
    then (let index : ℕ = if leb b 32 then 0 else round_up (b - 32) 8 in
        some (index, 32 + index * 8))
    else if leb b 512
    then (let index_temp : ℕ = if leb b 128 then 0 else round_up (b - 128) 128 in
        some (index_temp + 9, 128 + index_temp * 128))
    else none
