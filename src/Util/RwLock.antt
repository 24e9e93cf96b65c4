-- ===== src/Util/RwLock.antt =====
-- `RWLock` of util/Concurrent.h, used by any number of threads. A thread is one of the points of
-- `read_lock` and `write_lock` between two accesses of `count`; each event is one such access.
pub mod Sums
pub mod Exclusion
use cat_la_project.Base.{
  ℕ, ◌+◌, ◌-◌, ◌%◌, ◌^◌, Bool, true, false, not, ◌&&◌, Option, none, some, List, [], ◌∷◌, ◌==◌,
  if◌then◌else◌, get_elem?, set,
}

-- `loaded_read t` and `loaded_write t` hold `count_temp`.
pub data Thread : Type 0 where
  idle want_read reading want_write writing : Thread
  loaded_read loaded_write : ℕ → Thread

-- `cas true` is a `compare_exchange_weak` that fails for no reason.
pub data Event : Type 0 where
  call_read call_write load unlock : Event
  cas : Bool → Event

-- `count_temp = this->count` and the test behind it
unfoldable pub load_read : ℕ → Thread
load_read count = if count == 0 then want_read else loaded_read count

unfoldable pub load_write : ℕ → Thread
load_write count = if count == 1 then loaded_write count else want_write

-- The `compare_exchange_weak` of each loop, and the loop back.
unfoldable pub cas_read : (spurious : Bool) → ℕ → ℕ → Thread × ℕ
cas_read spurious temp count =
    if not spurious && count == temp then (reading, (temp + 1) % 2 ^ 64) else (want_read, count)

unfoldable pub cas_write : (spurious : Bool) → ℕ → ℕ → Thread × ℕ
cas_write spurious temp count =
    if not spurious && count == temp then (writing, 0) else (want_write, count)

-- One access by one thread; `none` where the thread cannot make it.
unfoldable pub move : Event → Thread → ℕ → Option (Thread × ℕ)
unfolding load_read load_write cas_read cas_write
move call_read idle count = some (want_read, count)
move call_write idle count = some (want_write, count)
move load want_read count = some (load_read count, count)
move load want_write count = some (load_write count, count)
move (cas spurious) (loaded_read temp) count = some (cas_read spurious temp count)
move (cas spurious) (loaded_write temp) count = some (cas_write spurious temp count)
move unlock reading count = some (idle, (count + 2 ^ 64 - 1) % 2 ^ 64)
move unlock writing count = some (idle, (count + 1) % 2 ^ 64)
move _ _ count = none

pub record System : Type 0 where
  pub count : ℕ
  pub threads : List Thread

-- The lock as constructed, with all threads outside it.
unfoldable pub init : List Thread → System
init threads = record { count = 1; threads = threads }

-- A step of thread `i`; an event that it cannot make changes nothing.
unfoldable pub step : System → ℕ → Event → System
unfolding move
step s i e = elim (get_elem? s.threads i) [
  | none ↦ s
  | some t ↦ elim (move e t s.count) [
    | none ↦ s
    | some (t', count') ↦ record { count = count'; threads = set s.threads i t' }
  ]
]

-- Any interleaving.
unfoldable pub run : System → List (ℕ × Event) → System
run s [] = s
run s ((i, e) ∷ es) = run (step s i e) es
