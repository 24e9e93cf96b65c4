-- ===== src/Gc/Collect/Lock.antt =====
-- The lock phase of `gc_collect` of gc/GC.cpp locks what can be reached from the root, each object once.
pub mod Locked
use cat_la_project.Base.{
  ℕ, zero, suc, ◌+◌, ◌≤◌, ◌<◌, ◌≡◌, ◌≢◌, refl, sym, ◌∙◌, ap, subst, Bool, true, false, Option, none,
  some, List, [], ◌∷◌, ◌++◌, ◌==◌, if◌then◌else◌, arith, Bool-cases, inl, inr, ◌⊎◌, ℕ_discrete,
}
use cat_la_project.Heap.Object.{Memory, HeapObject}
use cat_la_project.Vm.Orders.Fields.{object_lock, set_lock}
use cat_la_project.Vm.Result.{Result, ok, waiting, ◌>>=◌}
use cat_la_project.Gc.Collect.Phases.{
  Color, red, color_of, ColorMap, set_color, LockPhase, lock_field, lock_fields, lock_loop,
  lock_phase,
}
use cat_la_project.Gc.Collect.Gray.{color_of-set_color}
use cat_la_project.Gc.Collect.Gray.Loop.{InRange}
use cat_la_project.Gc.Collect.Gray.Ends.{RangeOf}
use cat_la_project.Gc.Counts.After.{List-cases}
use cat_la_project.Gc.Ledger.{times, size}
use cat_la_project.Gc.Ledger.Moves.{size-without}

abbrev pub is_some : Option Color → Bool
is_some none = false
is_some (some c) = true

abbrev pub seen : LockPhase → ℕ → Bool
seen s a = is_some (s.colors a)

pub times-append : (a : ℕ) (xs ys : List ℕ) → times a (xs ++ ys) ≡ times a xs + times a ys
times-append a [] ys = omega arith
times-append a (x ∷ xs) ys = omega (arith, times-append a xs ys)

module _ (objs : List ℕ) (held : ℕ → Bool) where
  -- Each object that was seen is locked or on the stack, and once.
  pub record Locking (s : LockPhase) : Type 0 where
    pub once :
        (a : ℕ) → times a s.check_objects + times a s.cycle_objects ≡ (if seen s a then 1 else 0)
    pub seen_held : (a : ℕ) → seen s a ≡ true → held a ≡ true
    pub all_red : (a : ℕ) → color_of s.colors a ≡ red

  -- What a step over the fields leaves and adds.
  pub record Onward (s s' : LockPhase) : Type 0 where
    pub locking : Locking s'
    pub same_mem : s'.mem ≡ s.mem
    pub same_cycle : s'.cycle_objects ≡ s.cycle_objects
    pub stays : (a : ℕ) → seen s a ≡ true → seen s' a ≡ true

  lock_field_old :
      (root f : ℕ) (s : LockPhase)
      → seen s f ≡ true
      → lock_field root f s ≡ (if f == root then record s { is_cyclic_root = true } else s)
  unfolding lock_field
  lock_field_old root f s h =
      elim (s.colors f)
          as (λ o.
            is_some o ≡ true
            → elim o as (λ _. LockPhase) [
              | none ↦ record s {
                colors = set_color s.colors f red;
                check_objects = f ∷ s.check_objects;
              }
              | some c ↦ if f == root then record s { is_cyclic_root = true } else s
            ]
              ≡ (if f == root then record s { is_cyclic_root = true } else s)) [
                | none ↦ λ e. cc e
                | some c ↦ λ e. refl
              ]
        h

  lock_field_new :
      (root f : ℕ) (s : LockPhase)
      → seen s f ≡ false
      → lock_field root f s
        ≡ record s { colors = set_color s.colors f red; check_objects = f ∷ s.check_objects }
  unfolding lock_field
  lock_field_new root f s h =
      elim (s.colors f)
          as (λ o.
            is_some o ≡ false
            → elim o as (λ _. LockPhase) [
              | none ↦ record s {
                colors = set_color s.colors f red;
                check_objects = f ∷ s.check_objects;
              }
              | some c ↦ if f == root then record s { is_cyclic_root = true } else s
            ]
              ≡ record s {
                colors = set_color s.colors f red;
                check_objects = f ∷ s.check_objects;
              }) [ none ↦ λ e. refl | some c ↦ λ e. cc e ]
        h

  pub seen-set_color :
      (colors : ColorMap) (f a : ℕ)
      → is_some (set_color colors f red a) ≡ (if f == a then true else is_some (colors a))
  unfolding set_color
  seen-set_color colors f a = elim (Bool-cases (f == a)) [ inl e ↦ rw e refl | inr e ↦ rw e refl ]

  pub lock_field-Onward :
      (root f : ℕ) (s : LockPhase)
      → held f ≡ true
      → Locking s
      → Onward s (lock_field root f s) × (seen (lock_field root f s) f ≡ true)
  lock_field-Onward root f s has l = elim (Bool-cases (seen s f)) [
    | inl old ↦
        let stop : LockPhase = if f == root then record s { is_cyclic_root = true } else s in
        rw (lock_field_old root f s old) (elim (Bool-cases (f == root)) [
          | inl e ↦ rw e (
            record {
              locking = record { once = l.once; seen_held = l.seen_held; all_red = l.all_red };
              same_mem = refl;
              same_cycle = refl;
              stays = λ a h. h;
            },
            old,
          )
          | inr e ↦
              rw e
                (record { locking = l; same_mem = refl; same_cycle = refl; stays = λ a h. h }, old)
        ])
    | inr new ↦
        let now = λ (a : ℕ). seen-set_color s.colors f a in
        rw (lock_field_new root f s new) (
          record {
            locking = record {
              once = λ a. elim (ℕ_discrete f a) [
                | yes q ↦
                    subst
                      (λ b.
                        (if f == b then 1 else 0)
                          + times b s.check_objects
                          + times b s.cycle_objects
                        ≡ (if is_some (set_color s.colors f red b) then 1 else 0))
                      q (ground (arith, now f, l.once f))
                | no q ↦ ground (arith, now a, l.once a)
              ];
              seen_held = λ a h. elim (ℕ_discrete f a) [
                | yes q ↦ subst (λ b. held b ≡ true) q has
                | no q ↦ l.seen_held a (ground (arith, now a))
              ];
              all_red = λ a. color_of-set_color s.colors f a red ∙ ground (arith, l.all_red a);
            };
            same_mem = refl;
            same_cycle = refl;
            stays = λ a h. now a ∙ ground arith;
          },
          now f ∙ ground arith,
        )
  ]
