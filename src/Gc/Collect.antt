-- ===== src/Gc/Collect.antt =====
-- `CycleCollector::gc_collect` of gc/GC.cpp. A `color_map` is a function to the colour that was set, and
-- the reads of a missing one give `red`; a missing count is 0. A stack is a list with its top in front.
-- The phases are in Collect/Phases; here they are put together.
pub mod Garbage
pub mod Found
pub mod Gray
pub mod Phases
pub mod Lock
pub mod Mark
use cat_la_project.Base.{
  ℕ, zero, suc, Bool, true, false, ◌&&◌, Option, none, some, List, [], ◌∷◌, ◌==◌, if◌then◌else◌,
}
use cat_la_project.Heap.Object.{Memory, ObjectState, dead, live, process_gc, waiting_for_gc}
use cat_la_project.Vm.Orders.Fields.{object_lock, set_lock}
use cat_la_project.Vm.Result.{Result, ok, fault, waiting, ◌>>=◌}
use cat_la_project.Gc.Counts.{
  GcState, contains, insert, set_state, set_states, is_suspected, decrement_reference_count,
}
use cat_la_project.Gc.Collect.Phases.{
  Color, red, gray, white, black, ColorMap, color_of, is_white, LockPhase, Marking, lock_phase,
  mark_gray, mark_white_or_black,
}

unfoldable pub unlock_all : List ℕ → Memory → Memory
unfolding set_lock
unlock_all [] mem = mem
unlock_all (a ∷ objects) mem = unlock_all objects (set_lock mem a false)

-- The white objects among `cycle_objects` wait for the collector, and are released in the end.
unfoldable pub collect_white :
    ColorMap → (cycle_objects release : List ℕ) → Memory → Memory × List ℕ
unfolding set_state insert
collect_white colors [] release mem = (mem, release)
collect_white colors (a ∷ objects) release mem =
    if is_white (color_of colors a)
    then collect_white colors objects (insert a release) (set_state waiting_for_gc mem a)
    else collect_white colors objects release mem

abbrev pub is_waiting : ObjectState → Bool
is_waiting waiting_for_gc = true
is_waiting dead = false
is_waiting live = false
is_waiting process_gc = false

-- The fields of `current` that are not visited yet go on the stack.
unfoldable pub push_unvisited : (left i : ℕ) → (fields : ℕ → ℕ) → (visited stack : List ℕ) → List ℕ
push_unvisited zero i fields visited stack = stack
push_unvisited (suc left) i fields visited stack =
    let object = fields i in
    let stack' =
      if object == 0 then stack else if contains visited object then stack else object ∷ stack in
    push_unvisited left (suc i) fields visited stack'

-- `ready_to_release` and `non_cycle_objects`: whether all that can be reached waits for the collector.
unfoldable pub non_cycle_loop :
    (fuel current : ℕ)
    → (check_objects non_cycle_objects : List ℕ) → Memory
    → Result (Bool × List ℕ)
unfolding insert push_unvisited
non_cycle_loop zero current stack visited mem = waiting
non_cycle_loop (suc fuel) current stack visited mem =
    let visited' = insert current visited in
    let stack' = push_unvisited (mem current).field_length 0 (mem current).fields visited' stack in
    if is_waiting (mem current).state
    then elim stack' [
      | [] ↦ ok (true, visited')
      | next ∷ rest ↦ non_cycle_loop fuel next rest visited' mem
    ]
    else ok (false, visited)

unfoldable pub insert_all : (objects release : List ℕ) → List ℕ
unfolding insert
insert_all [] release = release
insert_all (a ∷ objects) release = insert_all objects (insert a release)

unfoldable pub erase : ℕ → List ℕ → List ℕ
erase a [] = []
erase a (b ∷ set) = let rest = erase a set in if b == a then rest else b ∷ rest

-- One `root` of the list: the objects that are found to be garbage are added to `release`.
unfoldable pub collect_cyclic :
    (fuel root : ℕ) → LockPhase → (release : List ℕ) → Result (Memory × List ℕ)
unfolding mark_gray mark_white_or_black collect_white unlock_all
collect_cyclic fuel root locked release = do
  gray_end ← mark_gray fuel root locked.mem locked.colors
  marked ← mark_white_or_black fuel root locked.mem gray_end
  let (mem, release') = collect_white marked.colors locked.cycle_objects release locked.mem
  ok (unlock_all locked.cycle_objects mem, release')

unfoldable pub collect_non_cyclic :
    (fuel root : ℕ) → LockPhase → (release : List ℕ) → Result (Memory × List ℕ)
unfolding non_cycle_loop insert_all unlock_all
collect_non_cyclic fuel root locked release = do
  let mem = unlock_all locked.cycle_objects locked.mem
  (ready, objects) ← non_cycle_loop fuel root [] [] mem
  ok (mem, if ready then insert_all objects release else release)

module _ (others : Memory → Memory) where
  unfoldable pub collect_root :
      (fuel root : ℕ) → (release : List ℕ) → Memory → Result (Memory × List ℕ)
  unfolding lock_phase collect_cyclic collect_non_cyclic
  collect_root fuel root release mem = do
    locked ← lock_phase others fuel root mem
    if locked.is_cyclic_root
        then collect_cyclic fuel root locked release
        else collect_non_cyclic fuel root locked release

  unfoldable pub collect_roots :
      (fuel : ℕ) → (roots release : List ℕ) → Memory → Result (Memory × List ℕ)
  unfolding collect_root
  collect_roots fuel [] release mem = ok (mem, release)
  collect_roots fuel (root ∷ roots) release mem = do
    (mem', release') ← collect_root fuel root release mem
    collect_roots fuel roots release' mem'

-- The live objects that a released one refers to lose a reference.
unfoldable pub drop_live_fields : (fuel left object i : ℕ) → Memory → Result Memory
drop_live_fields fuel zero object i mem = ok mem
drop_live_fields fuel (suc left) object i mem =
    let field_object = (mem object).fields i in
    let released = if field_object == 0 then some mem else elim (mem field_object).state [
      | live ↦ decrement_reference_count fuel field_object mem
      | dead ↦ some mem
      | process_gc ↦ some mem
      | waiting_for_gc ↦ some mem
    ] in
    elim released [ none ↦ waiting | some mem' ↦ drop_live_fields fuel left object (suc i) mem' ]

-- The lists and the memory while `release_objects` is gone through.
pub record Collection : Type 0 where
  pub state : GcState
  pub roots : List ℕ

unfoldable pub release_object : (fuel object : ℕ) → Collection → Result Collection
unfolding erase drop_live_fields
release_object fuel object c = do
  let suspected' =
      if is_suspected c.state.mem object then erase object c.state.suspected else c.state.suspected
  mem' ← drop_live_fields fuel (c.state.mem object).field_length object 0 c.state.mem
  ok (record {
    state = record { mem = mem'; suspected = suspected' };
    roots = erase object c.roots;
  })

unfoldable pub release_all : (fuel : ℕ) → (objects : List ℕ) → Collection → Result Collection
unfolding release_object
release_all fuel [] c = ok c
release_all fuel (a ∷ objects) c = do c' ← release_object fuel a c; release_all fuel objects c'

-- `gc_collect`. `order` is the order in which an `unordered_set` is gone through.
unfoldable pub gc_collect :
    (order : List ℕ → List ℕ) (others : Memory → Memory) (fuel : ℕ) → GcState → Result GcState
unfolding collect_roots release_all set_states insert_all
gc_collect order others fuel st = do
  (mem, release) ← collect_roots others fuel (order st.suspected) [] st.mem
  c ←
      release_all fuel (order release)
        (record { state = record { mem = mem; suspected = [] }; roots = st.suspected })
  ok (record {
    mem = set_states dead (order release) c.state.mem;
    suspected = insert_all (order c.roots) c.state.suspected;
  })
