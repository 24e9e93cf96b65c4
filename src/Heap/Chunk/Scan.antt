-- ===== src/Heap/Chunk/Scan.antt =====
-- The search of one run: it stays on the run's blocks, takes only dead blocks and misses none.
use cat_la_project.Base.{
  ℕ, zero, suc, ◌+◌, ◌*◌, ◌≤◌, ◌<◌, ◌≡◌, ◌≢◌, refl, ◌⊎◌, inl, inr, Bool, true, false, arith,
  Bool-cases, ◌==◌, sym, ◌∙◌, subst, ℕ_discrete,
}
use cat_la_project.Heap.Object.{Memory, live, is_dead, write}
use cat_la_project.Heap.Chunk.{
  Cursor, hit, exhausted, compare_exchange, advance, scan, next_location,
}

pub record OnRun (block_entry block_size cells : ℕ) (c : Cursor) : Type 0 where
  pub at : c.entry ≡ block_entry + c.index * block_size
  pub within : c.index < cells

-- The memory after the claim of `a`: only the state of `a` may have changed.
pub record Claimed (mem : Memory) (a : ℕ) (mem' : Memory) : Type 0 where
  pub others : (b : ℕ) → b ≢ a → mem' b ≡ mem b
  pub kept : mem' a ≡ record (mem a) { state = (mem' a).state }

pub record Taken (mem : Memory) (block_entry block_size cells : ℕ) (c : Cursor) (mem' : Memory)
    : Type 0 where
  pub on_run : OnRun block_entry block_size cells c
  pub was_dead : is_dead (mem c.entry).state ≡ true
  pub claimed : Claimed mem c.entry mem'

Claimed-refl : (mem : Memory) (a : ℕ) → Claimed mem a mem
Claimed-refl mem a = record { others = λ b ne. refl; kept = refl }

Claimed-cas : (mem : Memory) (a : ℕ) → Claimed mem a (write mem a (record (mem a) { state = live }))
Claimed-cas mem a = record { others = λ b ne. ground arith; kept = ground arith }

claim : Bool → Memory → ℕ → Memory
claim true mem a = write mem a (record (mem a) { state = live })
claim false mem a = mem

claim-Claimed : (ts : Bool) (mem : Memory) (a : ℕ) → Claimed mem a (claim ts mem a)
unfolding claim
claim-Claimed true mem a = Claimed-cas mem a
claim-Claimed false mem a = Claimed-refl mem a

module _ (block_entry block_size cells : ℕ) where
  pub advance-OnRun :
      (c : Cursor)
      → OnRun block_entry block_size cells c
      → OnRun block_entry block_size cells (advance block_entry block_size cells c)
  unfolding advance
  advance-OnRun c o = elim (Bool-cases (c.index + 1 == cells)) [
    | inl last ↦ rw last (record { at = omega arith; within = omega (arith, o.within) })
    | inr more ↦ rw more (record { at = grind (arith, o.at); within = ground (arith, o.within) })
  ]

  pub next_location-lt : (i : ℕ) → i < cells → next_location cells i < cells
  unfolding next_location
  next_location-lt i h = ground arith

  module _ (ts : Bool) (mem : Memory) where
    scan-zero : (c : Cursor) → scan ts mem block_entry block_size cells 0 c ≡ exhausted c
    unfolding scan
    scan-zero c = refl

    scan-busy :
        (rounds : ℕ) (c : Cursor)
        → is_dead (mem c.entry).state ≡ false
        → scan ts mem block_entry block_size cells (suc rounds) c
          ≡ scan ts mem block_entry block_size cells rounds (advance block_entry block_size cells c)
    unfolding scan
    scan-busy rounds c busy = rw busy

  scan-dead :
      (ts : Bool) (mem : Memory) (rounds : ℕ) (c : Cursor)
      → is_dead (mem c.entry).state ≡ true
      → scan ts mem block_entry block_size cells (suc rounds) c ≡ hit c (claim ts mem c.entry)
  unfolding scan claim
  scan-dead true mem rounds c dead = rw (dead, compare_exchange)
  scan-dead false mem rounds c dead = rw dead

  module _ (ts : Bool) (mem : Memory) where
    taken :
        (c d : Cursor) (mem' : Memory)
        → OnRun block_entry block_size cells c
        → is_dead (mem c.entry).state ≡ true
        → hit c (claim ts mem c.entry) ≡ hit d mem'
        → Taken mem block_entry block_size cells d mem'
    taken c d mem' o dead e =
        let same : c ≡ d = cc in
        let mems : claim ts mem c.entry ≡ mem' = cc in
        subst (λ x. Taken mem block_entry block_size cells x mem') same
          (rw (← mems)
            (record { on_run = o; was_dead = dead; claimed = claim-Claimed ts mem c.entry }))

    pub scan-hit :
        (rounds : ℕ) (c d : Cursor) (mem' : Memory)
        → OnRun block_entry block_size cells c
        → scan ts mem block_entry block_size cells rounds c ≡ hit d mem'
        → Taken mem block_entry block_size cells d mem'
    scan-hit zero c d mem' o h = absurd (cc (scan-zero ts mem c))
    scan-hit (suc rounds) c d mem' o h = elim (Bool-cases (is_dead (mem c.entry).state)) [
      | inl dead ↦ taken c d mem' o dead (sym (scan-dead ts mem rounds c dead) ∙ h)
      | inr busy ↦
          scan-hit rounds (advance block_entry block_size cells c) d mem' (advance-OnRun c o)
            (sym (scan-busy ts mem rounds c busy) ∙ h)
    ]

    abbrev Seen : ℕ → Cursor → Type 0
    Seen rounds c =
        (i : ℕ)
        → i < cells
        → ((c.index ≤ i) × (i < c.index + rounds)) ⊎ (i + cells < c.index + rounds)
        → is_dead (mem (block_entry + i * block_size)).state ≡ false

    Seen-suc :
        (rounds : ℕ) (c : Cursor)
        → suc rounds ≤ cells
        → OnRun block_entry block_size cells c
        → is_dead (mem c.entry).state ≡ false
        → Seen rounds (advance block_entry block_size cells c)
        → Seen (suc rounds) c
    unfolding advance
    Seen-suc rounds c le o busy seen i lt at = elim (ℕ_discrete i c.index) [
      | yes here ↦ rw (here, ← o.at) busy
      | no other ↦ elim (Bool-cases (c.index + 1 == cells)) [
        | inl last ↦ ground (arith, seen i)
        | inr more ↦ ground (arith, seen i)
      ]
    ]

    -- A search that fails has seen every block of its rounds occupied, across the wrap too.
    pub scan-exhausted :
        (rounds : ℕ) (c d : Cursor)
        → rounds ≤ cells
        → OnRun block_entry block_size cells c
        → scan ts mem block_entry block_size cells rounds c ≡ exhausted d
        → OnRun block_entry block_size cells d × Seen rounds c
    scan-exhausted zero c d le o h =
        let same : c ≡ d = cc (scan-zero ts mem c) in
        (subst (OnRun block_entry block_size cells) same o, λ i lt at. absurd (omega arith))
    scan-exhausted (suc rounds) c d le o h = elim (Bool-cases (is_dead (mem c.entry).state)) [
      | inl dead ↦ absurd (cc (scan-dead ts mem rounds c dead))
      | inr busy ↦
          let (on, seen) =
            scan-exhausted rounds (advance block_entry block_size cells c) d (omega arith)
              (advance-OnRun c o) (sym (scan-busy ts mem rounds c busy) ∙ h) in
          (on, Seen-suc rounds c le o busy seen)
    ]
