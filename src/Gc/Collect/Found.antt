-- ===== src/Gc/Collect/Found.antt =====
-- The phases of `gc_collect` of gc/GC.cpp for one root: it locks, counts and marks, and what is white then
-- is garbage.
use cat_la_project.Base.{
  ℕ, ◌*◌, ◌<◌, ◌≡◌, refl, ◌∙◌, ap, Bool, true, false, List, arith, ◌==◌, if◌then◌else◌,
}
use cat_la_project.Heap.Object.{Memory, HeapObject}
use cat_la_project.Vm.Result.{ok}
use cat_la_project.Gc.Collect.Phases.{
  LockPhase, Marking, lock_phase, mark_gray, mark_white_or_black,
}
use cat_la_project.Gc.Collect.Lock.Locked.{LockedIn, lock_phase-AllLocked}
use cat_la_project.Gc.Collect.Garbage.{WhiteIsGarbage, mark_white_or_black-WhiteIsGarbage}
use cat_la_project.Gc.Ledger.{times, size, Ledger}
use cat_la_project.Gc.Ledger.Moves.{SameFields, refs-SameFields}
use cat_la_project.Gc.Balance.Reach.{field-referenced}

module _ (objs : List ℕ) (held : ℕ → Bool) (owed : ℕ → ℕ) where
  locked_field {ℓ} :
      {A : Type ℓ} (get : HeapObject → A) (o : HeapObject) (b : Bool)
      → get (record o { lock_flag = true }) ≡ get o
      → get (if b then o else record o { lock_flag = true }) ≡ get o
  locked_field get o true e = refl
  locked_field get o false e = e

  locked_same {ℓ} :
      {A : Type ℓ} (mem : Memory) (s : LockPhase)
      → LockedIn objs held mem s
      → (get : HeapObject → A) → ((o : HeapObject) → get (record o { lock_flag = true }) ≡ get o)
      → (a : ℕ) → get (s.mem a) ≡ get (mem a)
  locked_same mem s locked get e a =
      ap get (locked a) ∙ locked_field get (mem a) (times a s.cycle_objects == 0) (e (mem a))

  -- Locks do not change the account.
  LockedIn-Ledger :
      (mem : Memory) (s : LockPhase)
      → LockedIn objs held mem s
      → Ledger objs held owed mem
      → Ledger objs held owed s.mem
  LockedIn-Ledger mem s locked l =
      let count = λ (a : ℕ). locked_same mem s locked (λ o. o.count) (λ o. refl) a in
      let fields : SameFields held mem s.mem = λ a h. (
        locked_same mem s locked (λ o. o.fields) (λ o. refl) a,
        locked_same mem s locked (λ o. o.field_length) (λ o. refl) a,
      ) in
      record {
        null = l.null;
        listed = l.listed;
        counted = λ a h.
            omega (arith, l.counted a h, count a, refs-SameFields objs held mem s.mem a fields);
        gone = λ a ne h. omega (arith, l.gone a ne h, refs-SameFields objs held mem s.mem a fields);
        small = λ a h. omega (arith, l.small a h, count a);
      }

  -- The counts of the objects in use are right, their locks are free, and the root is in use. Then the
  -- three phases for a root end, the memory is as before but for the locks of what was visited, and the
  -- white objects are garbage: nothing outside the heap refers to one of them, and no object in use but
  -- white ones does.
  pub lock_phase-WhiteIsGarbage :
      (mem : Memory) (others : Memory → Memory) (fuel root : ℕ)
      → Ledger objs held owed mem
      → ((a : ℕ) → held a ≡ true → (mem a).lock_flag ≡ false)
      → held root ≡ true
      → 2 * size objs held < fuel
      → (locked : LockPhase) × (s s' : Marking) × (lock_phase others fuel root mem ≡ ok locked)
        × LockedIn objs held mem locked
        × (mark_gray fuel root locked.mem locked.colors ≡ ok s)
        × (mark_white_or_black fuel root locked.mem s ≡ ok s')
        × WhiteIsGarbage held owed locked.mem s'
  lock_phase-WhiteIsGarbage mem others fuel root l free has lt =
      let (locked, e, all) =
        lock_phase-AllLocked objs held mem others l.listed
          (λ b j h range.
            field-referenced objs held owed mem b j l h (omega (arith, range.1)) range.2)
          free fuel root (omega arith) has in
      let (s, s', e1, e2, garbage) =
        mark_white_or_black-WhiteIsGarbage objs held locked.mem owed
          (LockedIn-Ledger mem locked all.locked l) fuel root locked.colors has all.locking.all_red
          lt in
      (locked, s, s', e, all.locked, e1, e2, garbage)
