-- ===== src/Gc/Balance.antt =====
-- `increment_reference_count` and `decrement_reference_count` of gc/GC.h keep every count equal to the
-- number of references, where the objects in use are those whose state is `live`.
pub mod Increment
pub mod Reach
use cat_la_project.Base.{
  ℕ, zero, suc, ◌+◌, ◌^◌, ◌≤◌, ◌<◌, ◌≡◌, ◌≢◌, refl, sym, ◌∙◌, ap, subst, Bool, true, false, ◌&&◌,
  Option, none, some, List, [], ◌∷◌, ◌==◌, if◌then◌else◌, arith, Bool-cases, inl, inr, ◌⊎◌,
}
use cat_la_project.Heap.Object.{
  Memory, HeapObject, ObjectState, dead, live, process_gc, waiting_for_gc,
}
use cat_la_project.Vm.Orders.Fields.{add_count}
use cat_la_project.Gc.Counts.{
  GcState, contains, suspect, add_suspected_object, increment_reference_count,
  decrement_reference_count,
}
use cat_la_project.Gc.Counts.After.{After}
use cat_la_project.Gc.Counts.Release.{Freed, IsReleased}
use cat_la_project.Gc.Counts.Loop.{decrement_reference_count-Freed}
use cat_la_project.Gc.Ledger.{occ, size, Ledger, Going, plus}
use cat_la_project.Gc.Ledger.Moves.{SameFields, refs-SameFields, refs-without, owed-held}

abbrev pub is_live_state : ObjectState → Bool
is_live_state live = true
is_live_state dead = false
is_live_state process_gc = false
is_live_state waiting_for_gc = false

abbrev pub is_live : Memory → ℕ → Bool
is_live mem a = is_live_state (mem a).state

-- The count of each live object is the number of its references: `owed` of them outside the heap, and one
-- for each field of a live object that holds it. It is not 0, and what is not live has no reference.
abbrev pub Balanced : List ℕ → (ℕ → ℕ) → Memory → Type 0
Balanced objs owed mem = Going objs (is_live mem) owed (λ a. 0) mem

IsReleased-is_live : (s : ObjectState) → IsReleased s → is_live_state s ≡ false
IsReleased-is_live s h = elim h [ inl e ↦ ap is_live_state e | inr e ↦ ap is_live_state e ]

module _ (objs : List ℕ) where
  -- What is in use in the end is what is live then.
  pub Freed-is_live :
      (owed : ℕ → ℕ) (mem mem' : Memory) (f : Freed objs (is_live mem) owed (λ a. 0) mem mem')
      (a : ℕ)
      → f.held' a ≡ is_live mem' a
  Freed-is_live owed mem mem' f a = elim (Bool-cases (f.held' a)) [
    | inl has ↦
        has
        ∙ sym (
            ap (λ (o : HeapObject). is_live_state o.state) (f.after.kept a has)
            ∙ f.after.still a has)
    | inr out ↦ elim (Bool-cases (is_live mem a)) [
      | inl was ↦ out ∙ sym (IsReleased-is_live (mem' a).state (f.released a was out))
      | inr was_not ↦
          out
          ∙ sym (ap (λ (o : HeapObject). is_live_state o.state) (f.after.away a was_not) ∙ was_not)
    ]
  ]

  pub Freed-Balanced :
      (owed : ℕ → ℕ) (mem mem' : Memory)
      → Freed objs (is_live mem) owed (λ a. 0) mem mem'
      → Balanced objs owed mem'
  Freed-Balanced owed mem mem' f =
      subst (λ (h : ℕ → Bool). Going objs h owed (λ a. 0) mem')
        (λ i a. Freed-is_live owed mem mem' f a i) f.going

  -- In a heap where the counts are right, a reference to `x` is given back. The release ends, with as
  -- many rounds as there are live objects, and the counts are right again without that reference: what
  -- is live is referenced, and what is not has no reference left.
  pub decrement_reference_count-Balanced :
      (fuel x : ℕ) (owed : ℕ → ℕ) (mem : Memory)
      → size objs (is_live mem) ≤ fuel
      → x ≢ 0
      → Balanced objs (plus owed x) mem
      → (mem' : Memory) × (decrement_reference_count fuel x mem ≡ some mem')
        × Balanced objs owed mem'
  decrement_reference_count-Balanced fuel x owed mem le ne g =
      let (mem', e, f) =
        decrement_reference_count-Freed objs fuel x (is_live mem) owed mem le ne g in
      (mem', e, Freed-Balanced owed mem mem' f)

  -- Counts and suspicion aside, the objects are as they were.
  abbrev pub SameShape : Memory → Memory → Type 0
  SameShape mem mem' =
      (a : ℕ)
      → ((mem' a).fields ≡ (mem a).fields)
        × ((mem' a).field_length ≡ (mem a).field_length)
        × ((mem' a).state ≡ (mem a).state)

  pub SameShape-Balanced :
      (owed owed' : ℕ → ℕ) (mem mem' : Memory)
      → SameShape mem mem'
      → ((a : ℕ) → is_live mem a ≡ true → (mem' a).count + owed a ≡ (mem a).count + owed' a)
      → ((a : ℕ) → is_live mem a ≡ true → (mem a).count ≤ (mem' a).count)
      → ((a : ℕ) → is_live mem a ≡ true → (mem' a).count < 2 ^ 64)
      → ((a : ℕ) → a ≢ 0 → is_live mem a ≡ false → owed' a ≡ owed a)
      → Balanced objs owed mem
      → Balanced objs owed' mem'
  SameShape-Balanced owed owed' mem mem' same count more small out g =
      let fields : SameFields (is_live mem) mem mem' = λ a h. ((same a).0, (same a).1) in
      let lives : (a : ℕ) → is_live mem' a ≡ is_live mem a = λ a. ap is_live_state (same a).2 in
      subst (λ (h : ℕ → Bool). Going objs h owed' (λ a. 0) mem') (λ i a. sym (lives a) i)
        (record {
          ledger = record {
            null = g.ledger.null;
            listed = g.ledger.listed;
            counted = λ a h. omega (
              arith,
              g.ledger.counted a h,
              count a h,
              refs-SameFields objs (is_live mem) mem mem' a fields,
            );
            gone = λ a ne h. omega (
              arith,
              g.ledger.gone a ne h,
              out a ne h,
              refs-SameFields objs (is_live mem) mem mem' a fields,
            );
            small = small;
          };
          stacked = λ a. ground (arith, g.stacked a, more a);
        })

  add_count-SameShape : (mem : Memory) (x : ℕ) → SameShape mem (add_count mem x)
  unfolding add_count
  add_count-SameShape mem x a = (ground arith, ground arith, ground arith)

  add_count-count :
      (mem : Memory) (x a : ℕ)
      → (mem x).count + 1 < 2 ^ 64
      → (add_count mem x a).count ≡ (if x == a then 1 else 0) + (mem a).count
  unfolding add_count
  add_count-count mem x a lt = ground arith

  pub add_count-Balanced :
      (x : ℕ) (owed : ℕ → ℕ) (mem : Memory)
      → is_live mem x ≡ true
      → (mem x).count + 1 < 2 ^ 64
      → Balanced objs owed mem
      → Balanced objs (plus owed x) (add_count mem x)
  add_count-Balanced x owed mem has lt g =
      SameShape-Balanced owed (plus owed x) mem (add_count mem x) (add_count-SameShape mem x)
        (λ a h. omega (arith, add_count-count mem x a lt))
        (λ a h. omega (arith, add_count-count mem x a lt))
        (λ a h. ground (arith, add_count-count mem x a lt, g.ledger.small a h))
        (λ a z h. let ne : x ≢ a = λ e. cc (has, h, ap (is_live mem) e) in ground arith) g
