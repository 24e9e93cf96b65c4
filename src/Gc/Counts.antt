-- ===== src/Gc/Counts.antt =====
-- `increment_reference_count`, `decrement_reference_count` and
-- `decrement_reference_count_waiting_gc_object` of gc/GC.h, run by one thread at a time. The loops take
-- fuel, and `none` is no fuel left. A stack is a list with its top in front.
pub mod After
pub mod Drop
pub mod Loop
pub mod Release
pub mod Rounds
pub mod Wait
use cat_la_project.Base.{
  ℕ, zero, suc, ◌+◌, ◌-◌, ◌%◌, ◌^◌, Bool, true, false, ◌&&◌, Option, none, some, List, [], ◌∷◌,
  ◌==◌, if◌then◌else◌,
}
use cat_la_project.Heap.Object.{Memory, ObjectState, dead, process_gc, waiting_for_gc, write}
use cat_la_project.Vm.Orders.Fields.{add_count, store_field}

-- `unordered_set`: what it holds, each object once.
abbrev pub contains : List ℕ → ℕ → Bool
contains [] a = false
contains (b ∷ bs) a = let rest = contains bs a in if b == a then true else rest

unfoldable pub insert : ℕ → List ℕ → List ℕ
insert a set = if contains set a then set else a ∷ set

-- The memory, and `suspected_object_list` of the collector.
pub record GcState : Type 0 where
  pub mem : Memory
  pub suspected : List ℕ

-- `count.fetch_sub(1)`
unfoldable pub sub_count : Memory → ℕ → Memory
sub_count mem a = write mem a (record (mem a) { count = ((mem a).count + 2 ^ 64 - 1) % 2 ^ 64 })

unfoldable pub set_state : ObjectState → Memory → ℕ → Memory
set_state state mem a = write mem a (record (mem a) { state = state })

-- `CycleCollector::add_suspected_object`
unfoldable pub add_suspected_object : ℕ → GcState → GcState
unfolding insert
add_suspected_object object st = record st { suspected = insert object st.suspected }

-- The `compare_exchange_strong` of `async_release`, and what follows it.
unfoldable pub suspect : ℕ → GcState → GcState
unfolding add_suspected_object
suspect object st =
    if (st.mem object).async_release
    then st
    else add_suspected_object object
        (record st { mem = write st.mem object (record (st.mem object) { async_release = true }) })

unfoldable pub increment_reference_count : ℕ → GcState → GcState
unfolding suspect add_count
increment_reference_count object st =
    let st' : GcState = record st { mem = add_count st.mem object } in
    if (st.mem object).count == 1 && (st.mem object).is_cyclic_type then suspect object st' else st'

-- `is_cyclic_type && async_release`: the collector will look at the object.
abbrev pub is_suspected : Memory → ℕ → Bool
is_suspected mem a = (mem a).is_cyclic_type && (mem a).async_release

-- The variables of the loop over the fields of an object that waits for the collector.
pub record Waiting : Type 0 where
  pub mem : Memory
  pub check_roots : List ℕ
  pub check_objects : List ℕ

-- The field `i` with the object `field_object` in it. An object that is released with this one stays in
-- the field, and any other is taken out of it.
unfoldable pub drop_waiting : (current i field_object : ℕ) → Waiting → Waiting
unfolding sub_count store_field
drop_waiting current i field_object w =
    let mem' = sub_count w.mem field_object in
    if (w.mem field_object).count == 1
    then (if is_suspected mem' field_object
        then record w {
          mem = store_field mem' current i 0;
          check_roots = field_object ∷ w.check_roots;
        }
        else record w { mem = mem'; check_objects = field_object ∷ w.check_objects })
    else record w { mem = store_field mem' current i 0 }

unfoldable pub drop_waiting_fields : (left current i : ℕ) → Waiting → Waiting
drop_waiting_fields zero current i w = w
drop_waiting_fields (suc left) current i w =
    let field_object = (w.mem current).fields i in
    let w' = if field_object == 0 then w else drop_waiting current i field_object w in
    drop_waiting_fields left current (suc i) w'

-- One round of the inner loop: the object is marked and its fields are dropped.
unfoldable pub release_waiting : (current : ℕ) → Waiting → Waiting
unfolding set_state
release_waiting current w =
    drop_waiting_fields (w.mem current).field_length current 0
      (record w { mem = set_state process_gc w.mem current })

-- The inner `while (true)`: `release_objects` in the end, and the other variables.
unfoldable pub release_waiting_loop :
    (fuel current : ℕ) → (release_objects : List ℕ) → Waiting → Option (List ℕ × Waiting)
release_waiting_loop zero current release w = none
release_waiting_loop (suc fuel) current release w =
    let w' = release_waiting current w in
    elim w'.check_objects [
      | [] ↦ some (current ∷ release, w')
      | object ∷ objects ↦
          release_waiting_loop fuel object (current ∷ release)
            (record w' { check_objects = objects })
    ]

unfoldable pub set_states : ObjectState → List ℕ → Memory → Memory
unfolding set_state
set_states state [] mem = mem
set_states state (a ∷ as') mem = set_states state as' (set_state state mem a)

-- The outer `while (true)`, over the roots.
unfoldable pub waiting_loop :
    (fuel current_root : ℕ) → (check_roots : List ℕ) → Memory → Option Memory
unfolding set_states
waiting_loop zero root roots mem = none
waiting_loop (suc fuel) root roots mem =
    elim (release_waiting_loop (suc fuel) root []
      (record { mem = mem; check_roots = roots; check_objects = [] })) [
        | none ↦ none
        | some (release, w) ↦
            let mem' = set_states waiting_for_gc release w.mem in
            elim w.check_roots [ [] ↦ some mem' | next ∷ rest ↦ waiting_loop fuel next rest mem' ]
      ]

unfoldable pub decrement_reference_count_waiting_gc_object :
    (fuel object : ℕ) → Memory → Option Memory
unfolding waiting_loop
decrement_reference_count_waiting_gc_object fuel object mem = waiting_loop fuel object [] mem

-- The field `field_object` of an object that is released at once, and the stack of those to come.
unfoldable pub drop_released :
    (fuel field_object : ℕ) → Memory → (check_objects : List ℕ) → Option (Memory × List ℕ)
unfolding sub_count
drop_released fuel field_object mem objects =
    let mem' = sub_count mem field_object in
    if (mem field_object).count == 1
    then (if is_suspected mem' field_object
        then elim (decrement_reference_count_waiting_gc_object fuel field_object mem') [
          | none ↦ none
          | some mem'' ↦ some (mem'', objects)
        ]
        else some (mem', field_object ∷ objects))
    else some (mem', objects)

unfoldable pub drop_released_fields :
    (fuel left current i : ℕ) → Memory → (check_objects : List ℕ) → Option (Memory × List ℕ)
drop_released_fields fuel zero current i mem objects = some (mem, objects)
drop_released_fields fuel (suc left) current i mem objects =
    let field_object = (mem current).fields i in
    elim (if field_object == 0
      then some (mem, objects)
      else drop_released fuel field_object mem objects) [
        | none ↦ none
        | some (mem', objects') ↦ drop_released_fields fuel left current (suc i) mem' objects'
      ]

-- The `while (true)` of `decrement_reference_count`
unfoldable pub release_loop : (fuel current : ℕ) → (check_objects : List ℕ) → Memory → Option Memory
unfolding set_state
release_loop zero current objects mem = none
release_loop (suc fuel) current objects mem =
    elim (drop_released_fields (suc fuel) (mem current).field_length current 0 mem objects) [
      | none ↦ none
      | some (mem', objects') ↦
          let mem'' = set_state dead mem' current in
          elim objects' [ [] ↦ some mem'' | next ∷ rest ↦ release_loop fuel next rest mem'' ]
    ]

unfoldable pub decrement_reference_count : (fuel object : ℕ) → Memory → Option Memory
unfolding sub_count
decrement_reference_count fuel object mem =
    let mem' = sub_count mem object in
    if (mem object).count == 1
    then (if is_suspected mem' object
        then decrement_reference_count_waiting_gc_object fuel object mem'
        else release_loop fuel object [] mem')
    else some mem'
