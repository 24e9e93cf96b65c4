-- ===== src/Vm/Orders/Fields.antt =====
-- The field orders of vm/modules/orders/GetFieldValue.cpp and SetFieldValue.cpp, with `object_lock`
-- and `object_unlock` of heap/HeapAllocator.h. An access through a null parent, or past the fields of
-- the object, is a fault. The value 1 in a field says that the field is borrowed.
pub mod Locks
pub mod Get
pub mod Set
use cat_la_project.Base.{
  ℕ, zero, suc, ◌+◌, ◌%◌, ◌^◌, Bool, true, false, ◌||◌, ◌==◌, leb, if◌then◌else◌,
}
use cat_la_project.Heap.Object.{Memory, write, update_field}
use cat_la_project.Vm.Modules.{OwnershipOrder, clone, borrow, move}
use cat_la_project.Vm.Result.{Result, ok, fault, waiting, ◌>>=◌}

unfoldable pub set_lock : Memory → ℕ → Bool → Memory
set_lock mem a flag = write mem a (record (mem a) { lock_flag = flag })

unfoldable pub store_field : Memory → ℕ → ℕ → ℕ → Memory
store_field mem a i v = write mem a (record (mem a) { fields = update_field (mem a).fields i v })

-- `field_object->count.fetch_add(1)`
unfoldable pub add_count : Memory → ℕ → Memory
add_count mem a = write mem a (record (mem a) { count = ((mem a).count + 1) % 2 ^ 64 })

-- An access that the object does not have.
abbrev pub is_outside : Memory → ℕ → ℕ → Bool
is_outside mem a i = a == 0 || leb (mem a).field_length i

-- The `switch` on the ownership.
unfoldable pub take_field : OwnershipOrder → (parent index object : ℕ) → Memory → Memory
unfolding add_count store_field
take_field clone parent index object mem = if object == 0 then mem else add_count mem object
take_field borrow parent index object mem = store_field mem parent index 1
take_field move parent index object mem = store_field mem parent index 0

module _ (others : Memory → Memory) where
  -- `object_lock`: the others act while the flag is set.
  unfoldable pub object_lock : (rounds : ℕ) → ℕ → Memory → Result Memory
  unfolding set_lock
  object_lock zero a mem = waiting
  object_lock (suc f) a mem =
      let again = object_lock f a (others mem) in
      if (mem a).lock_flag then again else ok (set_lock mem a true)

  -- `GetObjectFieldOwnership::eval`: a borrowed field is tried again with the lock still held.
  unfoldable pub get_field :
      (rounds : ℕ) → OwnershipOrder → (parent index : ℕ) → Memory → Result (ℕ × Memory)
  unfolding object_lock take_field set_lock
  get_field zero own parent index mem = waiting
  get_field (suc f) own parent index mem = if is_outside mem parent index then fault else do
    mem' ← object_lock (suc f) parent mem
    let object = (mem' parent).fields index
    let again = get_field f own parent index mem'
    if object == 1
        then again
        else ok (object, set_lock (take_field own parent index object mem') parent false)

  -- The loop of `SetObjectFieldOwnership::eval`: a borrowed field is waited for with the lock released.
  unfoldable pub set_field_loop : (rounds : ℕ) → (parent index object : ℕ) → Memory → Result Memory
  unfolding object_lock store_field set_lock
  set_field_loop zero parent index object mem = waiting
  set_field_loop (suc f) parent index object mem = do
    mem' ← object_lock (suc f) parent mem
    let again = set_field_loop f parent index object (others (set_lock mem' parent false))
    if (mem' parent).fields index == 1
        then again
        else ok (set_lock (store_field mem' parent index object) parent false)

  -- `SetObjectFieldOwnership::eval`
  unfoldable pub set_field :
      (rounds : ℕ) → (borrow_lock : Bool) → (parent index object : ℕ) → Memory → Result Memory
  unfolding set_field_loop object_lock store_field set_lock
  set_field rounds borrow_lock parent index object mem =
      if is_outside mem parent index
      then fault
      else if borrow_lock
      then set_field_loop rounds parent index object mem
      else do
        mem' ← object_lock rounds parent mem
        ok (set_lock (store_field mem' parent index object) parent false)
