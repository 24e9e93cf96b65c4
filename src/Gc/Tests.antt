-- ===== src/Gc/Tests.antt =====
-- Runs of the functions of gc/ and CatLa.cpp on small heaps, and the theorems at concrete heaps.
use cat_la_project.Base.{
  ℕ, ◌*◌, ◌≤◌, ◌<◌, ◌≡◌, refl, true, false, some, List, [], ◌∷◌, ◌==◌, if◌then◌else◌, arith,
}
use cat_la_project.Heap.Object.{Memory, HeapObject, ObjectState, dead, live, zeroed, write}
use cat_la_project.Gc.Counts.{
  GcState, contains, decrement_reference_count, increment_reference_count,
}
use cat_la_project.Gc.Ledger.{occ, refs, size, Ledger, plus}
use cat_la_project.Gc.Balance.{is_live, Balanced, decrement_reference_count-Balanced}
use cat_la_project.Gc.Balance.Reach.{root, decrement_reference_count-Reachable}
use cat_la_project.Gc.Balance.Increment.{
  Suspects, increment_reference_count-Balanced, increment_reference_count-Suspects,
}
use cat_la_project.Gc.Collect.{gc_collect}
use cat_la_project.Gc.Collect.Phases.{
  LockPhase, lock_phase, Marking, mark_gray, mark_white_or_black,
}
use cat_la_project.Gc.Collect.Garbage.{WhiteIsGarbage}
use cat_la_project.Gc.Collect.Lock.Locked.{LockedIn}
use cat_la_project.Gc.Collect.Found.{lock_phase-WhiteIsGarbage}
use cat_la_project.Gc.Fields.{
  set_move_object_field, set_clone_object_field, get_move_object_field, get_clone_object_field,
}
use cat_la_project.Gc.Fields.Keep.{
  Stored, CountedOnce, set_move_object_field-Balanced, set_clone_object_field-Balanced,
  get_move_object_field-Balanced, get_clone_object_field-Balanced,
}
use cat_la_project.Vm.Result.{Result, ok, fault, waiting}

-- 100 holds 200, which holds 300; 300 has a null field. 100 and 300 are referenced from outside too.
abbrev cell : (count next : ℕ) → HeapObject
cell count next = record zeroed {
  count = count;
  state = live;
  field_length = 1;
  fields = λ i. if i == 0 then next else 0;
}

abbrev chain : Memory
chain = write (write (write (λ _. zeroed) 300 (cell 2 0)) 200 (cell 1 300)) 100 (cell 1 200)

abbrev objects : List ℕ
objects = 100 ∷ 200 ∷ 300 ∷ []

abbrev owed_300 : ℕ → ℕ
owed_300 a = if 300 == a then 1 else 0

chain-Balanced : Balanced objects (plus owed_300 100) chain
unfolding refs occ
chain-Balanced = record {
  ledger = record {
    null = refl;
    listed = λ a h. ground arith;
    counted = λ a h. ground arith;
    gone = λ a ne h. ground arith;
    small = λ a h. ground arith;
  };
  stacked = λ a. ground arith;
}

at_most_3 : size objects (is_live chain) ≤ 3
unfolding size
at_most_3 = omega arith

-- The release of 100 releases 200 as well, and 300 has one reference left.
decrement_reference_count-Balanced_example :
    (mem' : Memory) × (decrement_reference_count 3 100 chain ≡ some mem')
    × Balanced objects owed_300 mem'
decrement_reference_count-Balanced_example =
    decrement_reference_count-Balanced objects 3 100 owed_300 chain at_most_3 (omega arith)
      chain-Balanced

decrement_reference_count-Reachable_example :
    (mem' : Memory) × (decrement_reference_count 3 100 chain ≡ some mem')
    × (is_live mem' 300 ≡ true)
    × (mem' 300 ≡ record (chain 300) { count = (mem' 300).count })
decrement_reference_count-Reachable_example =
    decrement_reference_count-Reachable objects 3 100 300 owed_300 chain at_most_3 (omega arith)
      chain-Balanced (root (omega arith) (omega arith))

abbrev quiet : GcState
quiet = record { mem = chain; suspected = [] }

increment_reference_count-Balanced_example :
    Balanced objects (plus (plus owed_300 100) 200) (increment_reference_count 200 quiet).mem
increment_reference_count-Balanced_example =
    increment_reference_count-Balanced objects 200 (plus owed_300 100) quiet refl (omega arith)
      chain-Balanced

-- 400 has a cyclic type and one reference.
abbrev cyclic : GcState
cyclic = record {
  mem = write (λ _. zeroed) 400 (record (cell 1 0) { is_cyclic_type = true });
  suspected = [];
}

increment_reference_count-Suspects_example :
    Suspects 400 cyclic (increment_reference_count 400 cyclic)
increment_reference_count-Suspects_example = increment_reference_count-Suspects 400 cyclic

-- It stands in the list afterwards.
cyclic_is_suspected : contains (increment_reference_count 400 cyclic).suspected 400 ≡ true
unfolding increment_reference_count
cyclic_is_suspected = refl

nobody : GcState → GcState
nobody st = st

-- The reference to 100 goes into the field of 300.
set_move_object_field-Balanced_example :
    (st' : GcState) × (set_move_object_field nobody 1 3 300 0 100 quiet ≡ ok st')
    × Stored objects 300 0 100 owed_300 quiet st'
set_move_object_field-Balanced_example =
    set_move_object_field-Balanced objects nobody 0 3 300 0 100 owed_300 quiet at_most_3 refl
      (omega arith) (ground arith) refl (omega arith) chain-Balanced

set_clone_object_field-Balanced_example :
    (st' : GcState) × (set_clone_object_field nobody 1 3 100 0 300 quiet ≡ ok st')
    × Stored objects 100 0 300 (plus owed_300 100) quiet st'
set_clone_object_field-Balanced_example =
    set_clone_object_field-Balanced objects nobody 0 3 100 0 300 (plus owed_300 100) quiet at_most_3
      refl (omega arith) (ground arith) refl (omega arith) refl (omega arith) chain-Balanced

get_move_object_field-Balanced_example :
    (st' : GcState) × (get_move_object_field nobody 1 200 0 quiet ≡ ok (300, st'))
    × Balanced objects (plus (plus owed_300 100) 300) st'.mem
    × ((st'.mem 200).fields 0 ≡ 0)
get_move_object_field-Balanced_example =
    get_move_object_field-Balanced objects nobody 0 200 0 (plus owed_300 100) quiet refl refl refl
      (omega arith) chain-Balanced

get_clone_object_field-Balanced_example :
    (st' : GcState) × (get_clone_object_field nobody 1 200 0 quiet ≡ ok (300, st'))
    × Balanced objects (plus (plus owed_300 100) 300) st'.mem
    × CountedOnce objects 200 300 quiet st'
get_clone_object_field-Balanced_example =
    get_clone_object_field-Balanced objects nobody 0 200 0 (plus owed_300 100) quiet refl refl refl
      (omega arith) (omega arith) chain-Balanced

-- 500 and 600 hold each other, and nothing else holds them: the collector finds both.
abbrev ring : GcState
ring = record {
  mem = write (write (λ _. zeroed) 500 (cell 1 600)) 600 (cell 1 500);
  suspected = 500 ∷ [];
}

states_after : Result GcState → List ObjectState
states_after r = elim r [
  | ok st ↦ (st.mem 500).state ∷ (st.mem 600).state ∷ []
  | fault ↦ []
  | waiting ↦ []
]

ring_is_dead : states_after (gc_collect (λ s. s) (λ m. m) 5 ring) ≡ dead ∷ dead ∷ []
unfolding states_after gc_collect
ring_is_dead = refl

-- With another reference to 600, both stay as they are.
abbrev ring_in_use : GcState
ring_in_use = record {
  mem = write (write (λ _. zeroed) 500 (cell 1 600)) 600 (cell 2 500);
  suspected = 500 ∷ [];
}

ring_is_live : states_after (gc_collect (λ s. s) (λ m. m) 5 ring_in_use) ≡ live ∷ live ∷ []
unfolding states_after gc_collect
ring_is_live = refl

ring-Ledger : Ledger (500 ∷ 600 ∷ []) (is_live ring.mem) (λ a. 0) ring.mem
unfolding refs occ
ring-Ledger = record {
  null = refl;
  listed = λ a h. ground arith;
  counted = λ a h. ground arith;
  gone = λ a ne h. ground arith;
  small = λ a h. ground arith;
}

ring_size : 2 * size (500 ∷ 600 ∷ []) (is_live ring.mem) < 5
unfolding size
ring_size = omega arith

ring_is_free : (a : ℕ) → is_live ring.mem a ≡ true → (ring.mem a).lock_flag ≡ false
ring_is_free a h = ground arith

lock_phase-WhiteIsGarbage_example :
    (locked : LockPhase) × (s s' : Marking) × (lock_phase (λ m. m) 5 500 ring.mem ≡ ok locked)
    × LockedIn (500 ∷ 600 ∷ []) (is_live ring.mem) ring.mem locked
    × (mark_gray 5 500 locked.mem locked.colors ≡ ok s)
    × (mark_white_or_black 5 500 locked.mem s ≡ ok s')
    × WhiteIsGarbage (is_live ring.mem) (λ a. 0) locked.mem s'
lock_phase-WhiteIsGarbage_example =
    lock_phase-WhiteIsGarbage (500 ∷ 600 ∷ []) (is_live ring.mem) (λ a. 0) ring.mem (λ m. m) 5 500
      ring-Ledger ring_is_free refl ring_size
