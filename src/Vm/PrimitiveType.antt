-- ===== src/Vm/PrimitiveType.antt =====
-- vm/PrimitiveType.h and vm/PrimitiveType.cpp. The program compares `PrimitiveType*` with the nine
-- that `setup_primitive_types` makes, so a pointer is the name of one of them.
use cat_la_project.Base.{ℕ, List, [], ◌∷◌}
use cat_la_project.Base.Strings.{Text, codes}

pub data PrimitiveType : Type 0 where
  type_void i8 i16 i32 i64 u8 u16 u32 u64 : PrimitiveType

-- The first argument of `create`.
unfoldable pub id : PrimitiveType → ℕ
id type_void = 0
id i8 = 1
id i16 = 2
id i32 = 3
id i64 = 4
id u8 = 5
id u16 = 6
id u32 = 7
id u64 = 8

-- The second.
unfoldable pub name : PrimitiveType → Text
name type_void = codes "void"
name i8 = codes "i8"
name i16 = codes "i16"
name i32 = codes "i32"
name i64 = codes "i64"
name u8 = codes "u8"
name u16 = codes "u16"
name u32 = codes "u32"
name u64 = codes "u64"

-- `all_types` after `setup_primitive_types`
unfoldable pub all_types : List PrimitiveType
all_types = type_void ∷ i8 ∷ i16 ∷ i32 ∷ i64 ∷ u8 ∷ u16 ∷ u32 ∷ u64 ∷ []
