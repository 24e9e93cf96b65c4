-- ===== src/Heap/Object.antt =====
-- `HeapObject` of heap/HeapAllocator.h and the memory that holds the objects: a function from the
-- byte address of an object's header. The words behind a header are its `fields`.
use cat_la_project.Base.{ℕ, ◌≡◌, refl, Bool, true, false, ◌==◌, if◌then◌else◌}

pub data ObjectState : Type 0 where
  dead live process_gc waiting_for_gc : ObjectState

pub record HeapObject : Type 0 where
  pub count : ℕ
  pub crc : ℕ
  pub state : ObjectState
  pub async_release : Bool
  pub is_cyclic_type : Bool
  pub lock_flag : Bool
  pub field_length : ℕ
  pub type_info : ℕ
  pub fields : ℕ → ℕ

abbrev pub Memory : Type 0
Memory = ℕ → HeapObject

abbrev pub write : Memory → ℕ → HeapObject → Memory
write mem a o b = if a == b then o else mem b

-- `calloc` clears every byte: what is read there as an object is dead, with no fields.
abbrev pub zeroed : HeapObject
zeroed = record {
  count = 0;
  crc = 0;
  state = dead;
  async_release = false;
  is_cyclic_type = false;
  lock_flag = false;
  field_length = 0;
  type_info = 0;
  fields = λ _. 0;
}

-- `object->state != 0`
abbrev pub is_dead : ObjectState → Bool
is_dead dead = true
is_dead live = false
is_dead process_gc = false
is_dead waiting_for_gc = false

pub is_dead→dead : (s : ObjectState) → is_dead s ≡ true → s ≡ dead
is_dead→dead dead h = refl
is_dead→dead live h = absurd (cc)
is_dead→dead process_gc h = absurd (cc)
is_dead→dead waiting_for_gc h = absurd (cc)

-- `get_object_field` and `set_object_field`
unfoldable pub get_object_field : Memory → ℕ → ℕ → ℕ
get_object_field mem object field_index = (mem object).fields field_index

abbrev pub update_field : (ℕ → ℕ) → ℕ → ℕ → ℕ → ℕ
update_field fields i v j = if i == j then v else fields j

unfoldable pub set_object_field : Memory → ℕ → ℕ → ℕ → Memory
set_object_field mem object field_index value =
    write mem object
      (record (mem object) { fields = update_field (mem object).fields field_index value })
