-- ===== src/Util/Tests.antt =====
-- Runs of the lock and the bit set, and the theorems at concrete inputs.
use cat_la_project.Base.{
  ◌≢◌, ℕ, zero, suc, ◌/◌, ◌<◌, ◌≡◌, refl, true, false, some, List, [], ◌∷◌, length, arith,
}
use cat_la_project.Util.BitSet.{create_bitset, get_flag, set_flag}
use cat_la_project.Util.BitSet.Laws.{IsBytes, get_flag-set_flag, get_flag-create_bitset}
use cat_la_project.Util.RwLock.{
  want_read, Thread, idle, writing, reading, Event, call_read, call_write, load, cas, init, run,
  step, move,
}
use cat_la_project.Util.RwLock.Sums.{total}
use cat_la_project.Util.RwLock.Exclusion.{
  Holds, Meaning, reads, writes, writer_alone, count-Meaning,
}

-- Flag 9 is set, and a false value clears nothing.
set_then_keep : set_flag (0 ∷ 2 ∷ []) 9 false ≡ some (0 ∷ 2 ∷ [])
unfolding set_flag
set_then_keep = refl

sample-IsBytes : IsBytes (0 ∷ 4 ∷ [])
sample-IsBytes zero b h = let e : 0 ≡ b = cc in omega arith
sample-IsBytes (suc zero) b h = let e : 4 ≡ b = cc in omega arith
sample-IsBytes (suc (suc k)) b h = absurd (cc)

get_flag-set_flag_example :
    (bytes' : List ℕ) × (set_flag (0 ∷ 4 ∷ []) 9 true ≡ some bytes')
    × (length bytes' ≡ 2)
    × (get_flag bytes' 10 ≡ get_flag (0 ∷ 4 ∷ []) 10)
get_flag-set_flag_example =
    get_flag-set_flag (0 ∷ 4 ∷ []) 9 10 sample-IsBytes (omega arith) (omega arith)

get_flag-create_bitset_example :
    (9 / 8 < length (create_bitset 12)) × (get_flag (create_bitset 12) 9 ≡ some false)
get_flag-create_bitset_example = get_flag-create_bitset 12 9 (omega arith)

-- One thread gets the write lock, another then fails to get in.
abbrev pair : List Thread
pair = idle ∷ idle ∷ []

abbrev history : List (ℕ × Event)
history =
    (0, call_write) ∷ (1, call_read) ∷ (0, load) ∷ (0, cas false) ∷ (1, load) ∷ (1, cas false) ∷ []

writer_in : Holds (run (init pair) history) 0 writing
unfolding run init step move
writer_in = refl

reader_waits : Holds (run (init pair) history) 1 want_read
unfolding run init step move
reader_waits = refl

writer_alone_example : (want_read ≢ writing) × (want_read ≢ reading)
writer_alone_example =
    writer_alone pair history (refl, (refl, tt)) (omega arith) 0 1 want_read writer_in reader_waits
      (λ e. omega arith)

count-Meaning_example :
    Meaning
      (run (init pair) history).count
      (total reads (run (init pair) history).threads)
      (total writes (run (init pair) history).threads)
count-Meaning_example = count-Meaning pair history (refl, (refl, tt)) (omega arith)
