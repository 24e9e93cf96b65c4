-- ===== src/Gc/Fields.antt =====
-- The field functions of CatLa.cpp, which count the references that fields hold. `waiting` is: a lock or
-- a borrowed field was waited for in every round, or a release had no fuel left. An access through a null
-- parent, or past the fields of the object, is a fault. The value 1 in a field says that it is borrowed.
pub mod Swap
pub mod Keep
use cat_la_project.Base.{ℕ, zero, suc, Bool, true, false, none, some, ◌==◌, if◌then◌else◌}
use cat_la_project.Heap.Object.{Memory, get_object_field, set_object_field}
use cat_la_project.Vm.Orders.Fields.{object_lock, set_lock, store_field, is_outside}
use cat_la_project.Vm.Result.{Result, ok, fault, waiting, ◌>>=◌}
use cat_la_project.Gc.Counts.{GcState, increment_reference_count, decrement_reference_count}

-- `set_object_field_atomic`, and `set_move_object_field_uncheck`, which looks at nothing either.
unfoldable pub set_object_field_atomic :
    (others : Memory → Memory) (rounds parent field_index field_object : ℕ) → Memory → Result Memory
unfolding object_lock set_lock set_object_field
set_object_field_atomic others rounds parent i object mem =
    if is_outside mem parent i then fault else do
      mem' ← object_lock others rounds parent mem
      ok (set_lock (set_object_field mem' parent i object) parent false)

unfoldable pub set_move_object_field_uncheck :
    (others : Memory → Memory) (rounds parent field_index field_object : ℕ) → Memory → Result Memory
unfolding object_lock set_lock store_field
set_move_object_field_uncheck others rounds parent i object mem =
    if is_outside mem parent i then fault else do
      mem' ← object_lock others rounds parent mem
      ok (set_lock (store_field mem' parent i object) parent false)

unfoldable pub get_object_field_atomic :
    (others : Memory → Memory) (rounds parent field_index : ℕ) → Memory → Result (ℕ × Memory)
unfolding object_lock set_lock get_object_field
get_object_field_atomic others zero parent i mem = waiting
get_object_field_atomic others (suc f) parent i mem = if is_outside mem parent i then fault else do
  mem' ← object_lock others (suc f) parent mem
  let object = get_object_field mem' parent i
  let mem'' = set_lock mem' parent false
  let again = get_object_field_atomic others f parent i (others mem'')
  if object == 1 then again else ok (object, mem'')

unfoldable pub lock_in : GcState → ℕ → Bool → GcState
unfolding set_lock
lock_in st a flag = record st { mem = set_lock st.mem a flag }

unfoldable pub store_in : GcState → (parent i v : ℕ) → GcState
unfolding store_field
store_in st parent i v = record st { mem = store_field st.mem parent i v }

-- `if (old_field_object != nullptr) decrement_reference_count`
unfoldable pub drop_old : (fuel old : ℕ) → GcState → Result GcState
drop_old fuel old st =
    if old == 0 then ok st else elim (decrement_reference_count fuel old st.mem) [
      | none ↦ waiting
      | some mem ↦ ok (record st { mem = mem })
    ]

-- The others act while a lock or a field is waited for.
module _ (others : GcState → GcState) where
  -- `object_lock`
  unfoldable pub lock_object : (rounds : ℕ) → ℕ → GcState → Result GcState
  unfolding lock_in
  lock_object zero a st = waiting
  lock_object (suc f) a st =
      let again = lock_object f a (others st) in
      if (st.mem a).lock_flag then again else ok (lock_in st a true)

  -- The loops of `set_clone_object_field`, `set_move_object_field` and `get_move_object_field`: what the
  -- field held is returned, and `object` is in it.
  unfoldable pub swap_field : (rounds : ℕ) → (parent i object : ℕ) → GcState → Result (ℕ × GcState)
  unfolding lock_object lock_in store_in
  swap_field zero parent i object st = waiting
  swap_field (suc f) parent i object st = if is_outside st.mem parent i then fault else do
    st' ← lock_object (suc f) parent st
    let old = (st'.mem parent).fields i
    let again = swap_field f parent i object (others (lock_in st' parent false))
    if old == 1 then again else ok (old, lock_in (store_in st' parent i object) parent false)

  unfoldable pub set_clone_object_field :
      (rounds fuel : ℕ) → (parent field_index field_object : ℕ) → GcState → Result GcState
  unfolding swap_field drop_old
  set_clone_object_field rounds fuel parent i object st = do
    (old, st') ← swap_field rounds parent i object (increment_reference_count object st)
    drop_old fuel old st'

  unfoldable pub set_move_object_field :
      (rounds fuel : ℕ) → (parent field_index field_object : ℕ) → GcState → Result GcState
  unfolding swap_field drop_old
  set_move_object_field rounds fuel parent i object st = do
    (old, st') ← swap_field rounds parent i object st
    drop_old fuel old st'

  unfoldable pub get_move_object_field :
      (rounds : ℕ) → (parent field_index : ℕ) → GcState → Result (ℕ × GcState)
  unfolding swap_field
  get_move_object_field rounds parent i st = swap_field rounds parent i 0 st

  unfoldable pub get_clone_object_field :
      (rounds : ℕ) → (parent field_index : ℕ) → GcState → Result (ℕ × GcState)
  unfolding lock_object lock_in
  get_clone_object_field zero parent i st = waiting
  get_clone_object_field (suc f) parent i st = if is_outside st.mem parent i then fault else do
    st' ← lock_object (suc f) parent st
    let object = (st'.mem parent).fields i
    let again = get_clone_object_field f parent i (others (lock_in st' parent false))
    if object == 1
        then again
        else ok (
          object,
          lock_in (if object == 0 then st' else increment_reference_count object st') parent false,
        )
