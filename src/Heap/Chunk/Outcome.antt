-- ===== src/Heap/Chunk/Outcome.antt =====
-- What a call of `HeapChunk::malloc` promises, and the well-formed chunks that it keeps.
use cat_la_project.Base.{
  ℕ, zero, suc, ◌≤◌, ◌<◌, ◌≡◌, ◌≢◌, Bool, true, false, some, get_elem?, length, length-set,
  get_elem?-set_cases, inl, inr, arith, ltb, if◌then◌else◌, ◌∙◌,
}
use cat_la_project.Heap.Object.{Memory, live, is_dead}
use cat_la_project.Heap.Layout.{BlockInfo, HeapChunk, positions, block_sizes, number_of_blocks}
use cat_la_project.Heap.Chunk.{set_info, clear_fields, init_object}
use cat_la_project.Heap.Chunk.Scan.{Claimed}

-- The infos stand at the runs of the layout, and each search starts inside its run.
pub record IsChunk (base cells : ℕ) (chunk : HeapChunk) : Type 0 where
  pub size : chunk.cells_size ≡ cells
  pub count : length chunk.block_info_list ≡ number_of_blocks
  pub entries :
      (j : ℕ) (info : BlockInfo)
      → get_elem? chunk.block_info_list j ≡ some info
      → get_elem? (positions base cells block_sizes) j ≡ some info.entry_position
  pub located :
      (j : ℕ) (info : BlockInfo)
      → get_elem? chunk.block_info_list j ≡ some info
      → info.current_location < cells

pub set_info-IsChunk :
    {base cells : ℕ} {chunk : HeapChunk} (j : ℕ) (old new : BlockInfo)
    → IsChunk base cells chunk
    → get_elem? chunk.block_info_list j ≡ some old
    → new.entry_position ≡ old.entry_position
    → new.current_location < cells
    → IsChunk base cells (set_info chunk j new)
set_info-IsChunk {base} {cells} {chunk} j old new is here same within = record {
  size = is.size;
  count = length-set chunk.block_info_list j new ∙ is.count;
  entries = λ k info h. elim (get_elem?-set_cases chunk.block_info_list j k old new info here h) [
    | inl (jk, e) ↦ rw (e, same, ← jk) (is.entries j old here)
    | inr (ne, h') ↦ is.entries k info h'
  ];
  located = λ k info h. elim (get_elem?-set_cases chunk.block_info_list j k old new info here h) [
    | inl (jk, e) ↦ rw e within
    | inr (ne, h') ↦ is.located k info h'
  ];
}

-- A zeroed live object with one reference, in a block that was dead; nothing else is touched.
pub record Fresh (cycling : ℕ → Bool) (ty n : ℕ) (mem mem' : Memory) (a : ℕ) : Type 0 where
  pub was_dead : is_dead (mem a).state ≡ true
  pub others : (b : ℕ) → b ≢ a → mem' b ≡ mem b
  pub state : (mem' a).state ≡ live
  pub count : (mem' a).count ≡ 1
  pub type_info : (mem' a).type_info ≡ ty
  pub field_length : (mem' a).field_length ≡ n
  pub async_release : (mem' a).async_release ≡ false
  pub cyclic : (mem' a).is_cyclic_type ≡ cycling ty
  pub cleared : (j : ℕ) → j < n → (mem' a).fields j ≡ 0
  pub beyond : (j : ℕ) → n ≤ j → (mem' a).fields j ≡ (mem a).fields j

pub clear_fields_lem :
    (fields : ℕ → ℕ) (n j : ℕ) → clear_fields fields n j ≡ (if ltb j n then 0 else fields j)
unfolding clear_fields
clear_fields_lem fields zero j = ground arith
clear_fields_lem fields (suc n) j = ground (arith, clear_fields_lem fields n j)

pub init_object-Fresh :
    (cycling : ℕ → Bool) (type_info field_length a : ℕ) (mem mem' : Memory)
    → is_dead (mem a).state ≡ true
    → Claimed mem a mem'
    → Fresh cycling type_info field_length mem (init_object cycling mem' a type_info field_length) a
unfolding init_object
init_object-Fresh cycling type_info field_length a mem mem' dead c = record {
  was_dead = dead;
  others = λ b ne. ground (arith, c.others b ne);
  state = ground arith;
  count = ground arith;
  type_info = ground arith;
  field_length = ground arith;
  async_release = ground arith;
  cyclic = ground arith;
  cleared = λ j lt. ground (arith, clear_fields_lem (mem' a).fields field_length j);
  beyond = λ j le. ground (arith, clear_fields_lem (mem' a).fields field_length j, c.kept);
}
