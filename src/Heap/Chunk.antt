-- ===== src/Heap/Chunk.antt =====
-- `HeapChunk::malloc` of heap/HeapAllocator.cpp, run by one thread at a time. `none` as an address
-- is `nullptr`; the `none` of the whole loop is a read outside the info list, or no fuel left.
pub mod Scan
pub mod Classes
pub mod Outcome
pub mod Passed
pub mod Promise
pub mod Full
use cat_la_project.Base.{
  ℕ, zero, suc, ◌+◌, ◌*◌, Bool, true, false, not, Option, none, some, ◌==◌, ltb, leb, if◌then◌else◌,
  get_elem?, set,
}
use cat_la_project.Heap.Object.{Memory, live, is_dead, write, update_field}
use cat_la_project.Heap.Layout.{BlockInfo, HeapChunk, number_of_blocks}

-- `current_entry` and `current_entry_index`
pub record Cursor : Type 0 where
  pub entry : ℕ
  pub index : ℕ

pub data Search : Type 0 where
  hit : Cursor → Memory → Search
  exhausted : Cursor → Search

-- `state.compare_exchange_strong(dead, live)`
unfoldable pub compare_exchange : Memory → ℕ → Bool × Memory
compare_exchange mem a =
    if is_dead (mem a).state
    then (true, write mem a (record (mem a) { state = live }))
    else (false, mem)

-- The step to the next block, back to the first after the last.
unfoldable pub advance : (block_entry block_size cells : ℕ) → Cursor → Cursor
advance block_entry block_size cells c =
    if c.index + 1 == cells
    then record { entry = block_entry; index = 0 }
    else record { entry = c.entry + block_size; index = c.index + 1 }

module _ (is_thread_safe : Bool) (mem : Memory) (block_entry block_size cells : ℕ) where
  -- The `for` loop over the blocks of one run, by the rounds left.
  unfoldable pub scan : ℕ → Cursor → Search
  unfolding advance compare_exchange
  scan zero c = exhausted c
  scan (suc rounds) c =
      let rest = scan rounds (advance block_entry block_size cells c) in
      if not (is_dead (mem c.entry).state)
      then rest
      else if is_thread_safe
      then (let (won, mem') = compare_exchange mem c.entry in if won then hit c mem' else rest)
      else if not (is_dead (mem c.entry).state)
      then rest
      else hit c mem

-- `fields[j] = nullptr` for each `j` below the length
unfoldable pub clear_fields : (ℕ → ℕ) → ℕ → ℕ → ℕ
clear_fields fields zero = fields
clear_fields fields (suc n) = update_field (clear_fields fields n) n 0

-- The stores into a block that was taken. `cycling` reads `is_cycling_type` of a type.
unfoldable pub init_object :
    (cycling : ℕ → Bool) → Memory → ℕ → (type_info field_length : ℕ) → Memory
unfolding clear_fields
init_object cycling mem a type_info field_length = write mem a (record (mem a) {
  fields = clear_fields (mem a).fields field_length;
  type_info = type_info;
  field_length = field_length;
  async_release = false;
  state = live;
  is_cyclic_type = cycling type_info;
  count = 1;
})

-- The size of the next class, `nullptr` past the last.
unfoldable pub next_block_size : ℕ → Option ℕ
next_block_size b =
    if ltb b 96
    then some (b + 8)
    else if b == 96
    then some 128
    else if leb b 512
    then some (b + 128)
    else none

pub record Malloc : Type 0 where
  pub chunk : HeapChunk
  pub mem : Memory
  pub address : Option ℕ

abbrev pub set_info : HeapChunk → ℕ → BlockInfo → HeapChunk
set_info chunk i info = record chunk { block_info_list = set chunk.block_info_list i info }

-- `current_entry_index++` with its wrap, stored as the next start of a search.
unfoldable pub next_location : ℕ → ℕ → ℕ
next_location cells i = if i + 1 == cells then 0 else i + 1

-- The search of the run of `info`, from its current location.
unfoldable pub block_scan :
    (is_thread_safe : Bool) → HeapChunk → Memory → BlockInfo → (block_size : ℕ) → Search
unfolding scan
block_scan is_thread_safe chunk mem info block_size =
    scan is_thread_safe mem info.entry_position block_size chunk.cells_size chunk.cells_size
      (record {
        entry = info.entry_position + info.current_location * block_size;
        index = info.current_location;
      })

-- `index++`, the next block size, and the two ways out; `rest` is the next round.
unfoldable pub next_class :
    HeapChunk → Memory → (index block_size : ℕ) → (ℕ → Option Malloc) → Option Malloc
unfolding next_block_size
next_class chunk mem index block_size rest = elim (next_block_size block_size) [
  | none ↦ some (record { chunk = chunk; mem = mem; address = none })
  | some b ↦
      if index + 1 == number_of_blocks
      then some (record { chunk = chunk; mem = mem; address = none })
      else rest b
]

module _ (cycling : ℕ → Bool) (is_thread_safe : Bool) (type_info field_length : ℕ) where
  -- The stores after the search of one run that found a block.
  unfoldable pub take_block : HeapChunk → Memory → BlockInfo → (index : ℕ) → Cursor → Malloc
  unfolding init_object next_location
  take_block chunk mem info index c = record {
    chunk =
        set_info chunk index
          (record info { current_location = next_location chunk.cells_size c.index });
    mem = init_object cycling mem c.entry type_info field_length;
    address = some c.entry;
  }

  -- One round: a run that is marked full, or whose search fails, is passed over.
  unfoldable pub try_class :
      HeapChunk → Memory → (index block_size : ℕ) → (HeapChunk → ℕ → Option Malloc) → Option Malloc
  try_class chunk mem index block_size rest = elim (get_elem? chunk.block_info_list index) [
    | none ↦ none
    | some info ↦
        if not info.empty
        then next_class chunk mem index block_size (rest chunk)
        else elim (block_scan is_thread_safe chunk mem info block_size) [
          | hit c mem' ↦ some (take_block chunk mem' info index c)
          | exhausted c ↦
              let full =
                set_info chunk index (record info { current_location = c.index; empty = false }) in
              next_class full mem index block_size (rest full)
        ]
  ]

  -- `while (true)`, by fuel.
  unfoldable pub malloc_loop : ℕ → HeapChunk → Memory → (index block_size : ℕ) → Option Malloc
  malloc_loop zero chunk mem index block_size = none
  malloc_loop (suc fuel) chunk mem index block_size =
      try_class chunk mem index block_size (λ chunk' b. malloc_loop fuel chunk' mem (index + 1) b)

  -- `HeapChunk::malloc`: the index grows in every round and stops at 13.
  unfoldable pub malloc : HeapChunk → Memory → (index block_size : ℕ) → Option Malloc
  malloc chunk mem index block_size = malloc_loop number_of_blocks chunk mem index block_size
