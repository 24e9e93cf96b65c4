-- ===== src/Gc/Collect/Phases.antt =====
-- The phases of `gc_collect` of gc/GC.cpp that colour what can be reached from a root: lock, mark gray,
-- and mark white or black.
use cat_la_project.Base.{
  ℕ, zero, suc, ◌+◌, ◌-◌, ◌%◌, ◌^◌, Bool, true, false, Option, none, some, List, [], ◌∷◌, ◌++◌,
  ◌==◌, if◌then◌else◌,
}
use cat_la_project.Heap.Object.{Memory}
use cat_la_project.Vm.Orders.Fields.{object_lock}
use cat_la_project.Vm.Result.{Result, ok, waiting, ◌>>=◌}

pub data Color : Type 0 where
  red gray white black : Color

abbrev pub ColorMap : Type 0
ColorMap = ℕ → Option Color

-- `color_map[a]`
abbrev pub color_of : ColorMap → ℕ → Color
color_of colors a = elim (colors a) [ none ↦ red | some c ↦ c ]

unfoldable pub set_color : ColorMap → ℕ → Color → ColorMap
set_color colors a c b = if a == b then some c else colors b

unfoldable pub set_count : (ℕ → ℕ) → ℕ → ℕ → ℕ → ℕ
set_count counts a n b = if a == b then n else counts b

abbrev pub is_gray : Color → Bool
is_gray gray = true
is_gray red = false
is_gray white = false
is_gray black = false

abbrev pub is_white : Color → Bool
is_white white = true
is_white red = false
is_white gray = false
is_white black = false

abbrev pub is_black : Color → Bool
is_black black = true
is_black red = false
is_black gray = false
is_black white = false

-- The variables of the lock phase. The objects that were locked are in `cycle_objects`.
pub record LockPhase : Type 0 where
  pub mem : Memory
  pub colors : ColorMap
  pub check_objects : List ℕ
  pub cycle_objects : List ℕ
  pub is_cyclic_root : Bool

-- One field that is not null.
unfoldable pub lock_field : (root field_object : ℕ) → LockPhase → LockPhase
unfolding set_color
lock_field root object s = elim (s.colors object) [
  | none ↦ record s {
    colors = set_color s.colors object red;
    check_objects = object ∷ s.check_objects;
  }
  | some c ↦ if object == root then record s { is_cyclic_root = true } else s
]

unfoldable pub lock_fields : (left root i : ℕ) → (fields : ℕ → ℕ) → LockPhase → LockPhase
unfolding lock_field
lock_fields zero root i fields s = s
lock_fields (suc left) root i fields s =
    let s' = if fields i == 0 then s else lock_field root (fields i) s in
    lock_fields left root (suc i) fields s'

module _ (others : Memory → Memory) where
  unfoldable pub lock_loop : (fuel root current : ℕ) → LockPhase → Result LockPhase
  unfolding lock_fields object_lock
  lock_loop zero root current s = waiting
  lock_loop (suc fuel) root current s = do
    mem ← object_lock others (suc fuel) current s.mem
    let s' =
        lock_fields (mem current).field_length root 0 (mem current).fields
          (record s { mem = mem; cycle_objects = s.cycle_objects ++ (current ∷ []) })
    elim s'.check_objects [
      | [] ↦ ok s'
      | next ∷ rest ↦ lock_loop fuel root next (record s' { check_objects = rest })
    ]

  unfoldable pub lock_phase : (fuel root : ℕ) → Memory → Result LockPhase
  unfolding lock_loop set_color
  lock_phase fuel root mem = lock_loop fuel root root (record {
    mem = mem;
    colors = set_color (λ _. none) root red;
    check_objects = [];
    cycle_objects = [];
    is_cyclic_root = false;
  })

-- The variables of the two phases that count and mark.
pub record Marking : Type 0 where
  pub colors : ColorMap
  pub counts : ℕ → ℕ
  pub check_objects : List ℕ

-- One field that is not null: the count of references without it.
unfoldable pub gray_field : Memory → (field_object : ℕ) → Marking → Marking
unfolding set_color set_count
gray_field mem object s =
    if is_gray (color_of s.colors object)
    then record s {
      counts = set_count s.counts object (if s.counts object == 0 then 0 else s.counts object - 1);
    }
    else record {
      colors = set_color s.colors object gray;
      counts = set_count s.counts object (((mem object).count + 2 ^ 64 - 1) % 2 ^ 64);
      check_objects = object ∷ s.check_objects;
    }

-- One field that is not null, of an object with the colour `current_color`.
unfoldable pub mark_field : (current_color : Color) → (field_object : ℕ) → Marking → Marking
unfolding set_color set_count
mark_field white object s =
    let color = color_of s.colors object in
    if s.counts object == 0
    then (if is_gray color
        then record s {
          colors = set_color s.colors object white;
          check_objects = object ∷ s.check_objects;
        }
        else s)
    else record s {
      colors = set_color s.colors object black;
      check_objects = if is_black color then s.check_objects else object ∷ s.check_objects;
    }
mark_field black object s = record {
  counts = set_count s.counts object ((s.counts object + 1) % 2 ^ 64);
  colors =
      if is_black (color_of s.colors object) then s.colors else set_color s.colors object black;
  check_objects =
      if is_black (color_of s.colors object) then s.check_objects else object ∷ s.check_objects;
}
mark_field red object s = s
mark_field gray object s = s

-- A loop over the fields, and the loop over the objects.
unfoldable pub for_fields :
    (ℕ → Marking → Marking) → (left i : ℕ) → (fields : ℕ → ℕ) → Marking → Marking
for_fields act zero i fields s = s
for_fields act (suc left) i fields s =
    let s' = if fields i == 0 then s else act (fields i) s in for_fields act left (suc i) fields s'

-- `act` says what to do with a field, from the colours that an object starts with.
unfoldable pub marking_loop :
    (act : ColorMap → (current field_object : ℕ) → Marking → Marking)
    → (fuel current : ℕ) → Memory
    → Marking
    → Result Marking
unfolding for_fields
marking_loop act zero current mem s = waiting
marking_loop act (suc fuel) current mem s =
    let s' =
      for_fields (act s.colors current) (mem current).field_length 0 (mem current).fields s in
    elim s'.check_objects [
      | [] ↦ ok s'
      | next ∷ rest ↦ marking_loop act fuel next mem (record s' { check_objects = rest })
    ]

unfoldable pub mark_gray : (fuel root : ℕ) → Memory → ColorMap → Result Marking
unfolding marking_loop gray_field set_color set_count
mark_gray fuel root mem colors =
    marking_loop (λ _ _ object s. gray_field mem object s) fuel root mem
      (record {
        colors = set_color colors root gray;
        counts = set_count (λ _. 0) root (mem root).count;
        check_objects = [];
      })

unfoldable pub mark_white_or_black : (fuel root : ℕ) → Memory → Marking → Result Marking
unfolding marking_loop mark_field set_color
mark_white_or_black fuel root mem s =
    marking_loop (λ colors current object s'. mark_field (color_of colors current) object s') fuel
      root mem
      (record {
        colors = set_color s.colors root (if s.counts root == 0 then white else black);
        counts = s.counts;
        check_objects = [];
      })
