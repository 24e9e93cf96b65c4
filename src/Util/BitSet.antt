-- ===== src/Util/BitSet.antt =====
-- vm/modules/util/BitSet.h over an array of bytes.
pub mod Laws
use cat_la_project.Base.{
  ℕ, ◌+◌, ◌/◌, ◌%◌, ◌*◌, ◌^◌, Bool, not, Option, none, some, List, get_elem?, set, replicate,
  bit_and, bit_or, ◌==◌, if◌then◌else◌,
}

-- `calloc(1, (length >> 3) + 1)`
unfoldable pub create_bitset : ℕ → List ℕ
create_bitset length = replicate (length / 8 + 1) 0

-- `bytes[index >> 3] & (1 << (index & 0b111))`; `none` is a read out of bounds.
unfoldable pub get_flag : List ℕ → ℕ → Option Bool
get_flag bytes index = elim (get_elem? bytes (index / 8)) [
  | none ↦ none
  | some byte ↦ some (not (bit_and byte (2 ^ (index % 8)) == 0))
]

-- `bytes[index >> 3] |= value << (index & 0b111)`: a false value changes nothing.
unfoldable pub set_flag : List ℕ → ℕ → Bool → Option (List ℕ)
set_flag bytes index value = elim (get_elem? bytes (index / 8)) [
  | none ↦ none
  | some byte ↦
      some (set bytes (index / 8) (bit_or byte (if value then 2 ^ (index % 8) else 0) % 256))
]
