-- ===== src/Gc/Collect/Lock/Locked.antt =====
-- The loops of the lock phase of `gc_collect` end.
use cat_la_project.Base.{
  ℕ, zero, suc, ◌≤◌, ◌<◌, ◌≡◌, refl, sym, ◌∙◌, ap, subst, Bool, true, false, none, List, [], ◌∷◌,
  ◌++◌, ◌==◌, if◌then◌else◌, arith, Bool-cases, inl, inr, ℕ_discrete,
}
use cat_la_project.Heap.Object.{Memory, HeapObject}
use cat_la_project.Vm.Orders.Fields.{object_lock, set_lock}
use cat_la_project.Vm.Result.{Result, ok}
use cat_la_project.Gc.Collect.Phases.{
  red, set_color, LockPhase, lock_field, lock_fields, lock_loop, lock_phase,
}
use cat_la_project.Gc.Collect.Gray.{color_of-set_color}
use cat_la_project.Gc.Collect.Gray.Loop.{InRange}
use cat_la_project.Gc.Collect.Gray.Ends.{RangeOf}
use cat_la_project.Gc.Collect.Lock.{
  seen, times-append, Locking, Onward, lock_field-Onward, seen-set_color,
}
use cat_la_project.Gc.Counts.After.{List-cases}
use cat_la_project.Gc.Ledger.{times, size, without}
use cat_la_project.Gc.Ledger.Moves.{size-without}

empty_case :
    (xs : List ℕ) (stop : Result LockPhase) (go : ℕ → List ℕ → Result LockPhase)
    → xs ≡ []
    → (elim xs as (λ _. Result LockPhase) [ [] ↦ stop | next ∷ rest ↦ go next rest ]) ≡ stop
empty_case xs stop go e = rw e refl

more_case :
    (xs : List ℕ) (stop : Result LockPhase) (go : ℕ → List ℕ → Result LockPhase) (n : ℕ)
    (ns : List ℕ)
    → xs ≡ n ∷ ns
    → (elim xs as (λ _. Result LockPhase) [ [] ↦ stop | next ∷ rest ↦ go next rest ]) ≡ go n ns
more_case xs stop go n ns e = rw e refl

module _ (objs : List ℕ) (held : ℕ → Bool) where
  record FieldsLocked (i left : ℕ) (fields : ℕ → ℕ) (s s' : LockPhase) : Type 0 where
    onward : Onward objs held s s'
    covered : (j : ℕ) → InRange fields i left j → seen s' (fields j) ≡ true

  fields_null :
      (left root i : ℕ) (fields : ℕ → ℕ) (s : LockPhase)
      → (fields i == 0) ≡ true
      → lock_fields (suc left) root i fields s ≡ lock_fields left root (suc i) fields s
  unfolding lock_fields
  fields_null left root i fields s e = rw e refl

  fields_object :
      (left root i : ℕ) (fields : ℕ → ℕ) (s : LockPhase)
      → (fields i == 0) ≡ false
      → lock_fields (suc left) root i fields s
        ≡ lock_fields left root (suc i) fields (lock_field root (fields i) s)
  unfolding lock_fields
  fields_object left root i fields s e = rw e refl

  fields_none : (root i : ℕ) (fields : ℕ → ℕ) (s : LockPhase) → lock_fields zero root i fields s ≡ s
  unfolding lock_fields
  fields_none root i fields s = refl

  Onward-trans :
      (s1 s2 s3 : LockPhase)
      → Onward objs held s1 s2
      → Onward objs held s2 s3
      → Onward objs held s1 s3
  Onward-trans s1 s2 s3 p q = record {
    locking = q.locking;
    same_mem = q.same_mem ∙ p.same_mem;
    same_cycle = q.same_cycle ∙ p.same_cycle;
    stays = λ a h. q.stays a (p.stays a h);
  }

  lock_fields-FieldsLocked :
      (left root i : ℕ) (fields : ℕ → ℕ) (s : LockPhase)
      → ((j : ℕ) → InRange fields i left j → held (fields j) ≡ true)
      → Locking objs held s
      → FieldsLocked i left fields s (lock_fields left root i fields s)
  lock_fields-FieldsLocked zero root i fields s inside l =
      rw (fields_none root i fields s) (record {
        onward = record { locking = l; same_mem = refl; same_cycle = refl; stays = λ a h. h };
        covered = λ j (from, to, ne). absurd (omega arith);
      })
  lock_fields-FieldsLocked (suc left) root i fields s inside l =
      let inside' : (j : ℕ) → InRange fields (suc i) left j → held (fields j) ≡ true =
        λ j (from, to, ne). inside j (omega arith, omega arith, ne) in
      elim (Bool-cases (fields i == 0)) [
        | inl null ↦
            let later = lock_fields-FieldsLocked left root (suc i) fields s inside' l in
            rw (fields_null left root i fields s null) (record {
              onward = later.onward;
              covered = λ j (from, to, ne). elim (ℕ_discrete i j) [
                | yes q ↦ absurd (ground (arith, ap fields q))
                | no q ↦ later.covered j (omega arith, omega arith, ne)
              ];
            })
        | inr object ↦
            let s1 = lock_field root (fields i) s in
            let (first, now) =
              lock_field-Onward objs held root (fields i) s
                (inside i (omega arith, omega arith, ground arith)) l in
            let later =
              lock_fields-FieldsLocked left root (suc i) fields s1 inside' first.locking in
            let s2 = lock_fields left root (suc i) fields s1 in
            rw (fields_object left root i fields s object) (record {
              onward = Onward-trans s s1 s2 first later.onward;
              covered = λ j (from, to, ne). elim (ℕ_discrete i j) [
                | yes q ↦
                    subst (λ k. seen s2 (fields k) ≡ true) q (later.onward.stays (fields i) now)
                | no q ↦ later.covered j (omega arith, omega arith, ne)
              ];
            })
      ]

  -- The objects in `cycle_objects` are locked, and the memory is else as it was.
  abbrev pub LockedIn : Memory → LockPhase → Type 0
  LockedIn mem s =
      (a : ℕ)
      → s.mem a
        ≡ (if times a s.cycle_objects == 0 then mem a else record (mem a) { lock_flag = true })

  abbrev push : ℕ → LockPhase → LockPhase
  push c s = record s { check_objects = c ∷ s.check_objects }

  abbrev unlocked : LockPhase → ℕ → Bool
  unlocked s a = if times a s.cycle_objects == 0 then held a else false

  set_lock_lem :
      (mem : Memory) (c a : ℕ)
      → set_lock mem c true a ≡ (if c == a then record (mem c) { lock_flag = true } else mem a)
  unfolding set_lock
  set_lock_lem mem c a = refl

  -- The current object is locked.
  abbrev taken : ℕ → LockPhase → LockPhase
  taken c s = record s { mem = set_lock s.mem c true; cycle_objects = s.cycle_objects ++ (c ∷ []) }

  module _ (mem : Memory) (others : Memory → Memory) where
    record Ready (c : ℕ) (s : LockPhase) : Type 0 where
      locking : Locking objs held (push c s)
      locked : LockedIn mem s
      closed :
          (b j : ℕ)
          → 0 < times b s.cycle_objects
          → RangeOf mem b j
          → seen s ((mem b).fields j) ≡ true

    taken-Locking : (c : ℕ) (s : LockPhase) → Ready c s → Locking objs held (taken c s)
    taken-Locking c s r = record {
      once = λ a. omega (arith, r.locking.once a, times-append a s.cycle_objects (c ∷ []));
      seen_held = r.locking.seen_held;
      all_red = r.locking.all_red;
    }

    -- The current object was seen and is not locked.
    current_free :
        (c : ℕ) (s : LockPhase)
        → Ready c s
        → (held c ≡ true) × (times c s.cycle_objects ≡ 0) × (s.mem c ≡ mem c)
    current_free c s r =
        let yes_seen : seen s c ≡ true = ground (arith, r.locking.once c) in
        let free : times c s.cycle_objects ≡ 0 = ground (arith, r.locking.once c) in
        (r.locking.seen_held c yes_seen, free, r.locked c ∙ rw free refl)

    taken-LockedIn : (c : ℕ) (s : LockPhase) → Ready c s → LockedIn mem (taken c s)
    taken-LockedIn c s r a =
        let (has, free, same) = current_free c s r in
        let added = times-append a s.cycle_objects (c ∷ []) in
        set_lock_lem s.mem c a ∙ elim (ℕ_discrete c a) [
          | yes q ↦
              subst
                (λ b. (if c == b then record (s.mem c) { lock_flag = true } else s.mem b) ≡ (
                  if times b (s.cycle_objects ++ (c ∷ [])) == 0
                  then mem b
                  else record (mem b) { lock_flag = true }))
                q
                (let self : (c == c) ≡ true = ground arith in
                  let in_cycle : (times c (s.cycle_objects ++ (c ∷ [])) == 0) ≡ false =
                    ground (arith, times-append c s.cycle_objects (c ∷ [])) in
                  rw (self, in_cycle) (ap (λ (o : HeapObject). record o { lock_flag = true }) same))
          | no q ↦
              let apart : (c == a) ≡ false = ground arith in
              let no_more : times a (s.cycle_objects ++ (c ∷ [])) ≡ times a s.cycle_objects =
                ground (arith, added) in
              rw (apart, no_more) (r.locked a)
        ]

    module _ (listed : (a : ℕ) → held a ≡ true → times a objs ≡ 1)
        (inside : (b j : ℕ) → held b ≡ true → RangeOf mem b j → held ((mem b).fields j) ≡ true)
        (free : (a : ℕ) → held a ≡ true → (mem a).lock_flag ≡ false) where
      abbrev after_round : (root c : ℕ) → LockPhase → LockPhase
      after_round root c s =
          lock_fields (set_lock s.mem c true c).field_length root 0 (set_lock s.mem c true c).fields
            (taken c s)

      lock_current :
          (fuel c : ℕ) (s : LockPhase)
          → Ready c s
          → object_lock others (suc fuel) c s.mem ≡ ok (set_lock s.mem c true)
      unfolding object_lock
      lock_current fuel c s r =
          let (has, out, same) = current_free c s r in
          let open_ : (s.mem c).lock_flag ≡ false =
            ap (λ (o : HeapObject). o.lock_flag) same ∙ free c has in
          rw open_ refl

      loop_opens :
          (fuel root c : ℕ) (s : LockPhase)
          → Ready c s
          → lock_loop others (suc fuel) root c s
            ≡ elim (after_round root c s).check_objects as (λ _. Result LockPhase) [
              | [] ↦ ok (after_round root c s)
              | next ∷ rest ↦
                  lock_loop others fuel root next
                    (record (after_round root c s) { check_objects = rest })
            ]
      unfolding lock_loop
      loop_opens fuel root c s r = rw (lock_current fuel c s r) refl

      loop_stop :
          (fuel root c : ℕ) (s : LockPhase)
          → Ready c s
          → (after_round root c s).check_objects ≡ []
          → lock_loop others (suc fuel) root c s ≡ ok (after_round root c s)
      loop_stop fuel root c s r e =
          loop_opens fuel root c s r
          ∙ empty_case (after_round root c s).check_objects (ok (after_round root c s))
              (λ next rest.
                lock_loop others fuel root next
                  (record (after_round root c s) { check_objects = rest }))
              e

      loop_next :
          (fuel root c next : ℕ) (rest : List ℕ) (s : LockPhase)
          → Ready c s
          → (after_round root c s).check_objects ≡ next ∷ rest
          → lock_loop others (suc fuel) root c s
            ≡ lock_loop others fuel root next
                (record (after_round root c s) { check_objects = rest })
      loop_next fuel root c next rest s r e =
          loop_opens fuel root c s r
          ∙ more_case (after_round root c s).check_objects (ok (after_round root c s))
              (λ next rest.
                lock_loop others fuel root next
                  (record (after_round root c s) { check_objects = rest }))
              next rest e

      round_lem :
          (root c : ℕ) (s : LockPhase)
          → Ready c s
          → Onward objs held (taken c s) (after_round root c s)
            × ((b j : ℕ)
                → 0 < times b (after_round root c s).cycle_objects
                → RangeOf mem b j
                → seen (after_round root c s) ((mem b).fields j) ≡ true)
      round_lem root c s r =
          let (has, out, same) = current_free c s r in
          let locked_c : set_lock s.mem c true c ≡ record (s.mem c) { lock_flag = true } =
            set_lock_lem s.mem c c ∙ ground arith in
          let eq_c : set_lock s.mem c true c ≡ record (mem c) { lock_flag = true } =
            locked_c ∙ ap (λ (o : HeapObject). record o { lock_flag = true }) same in
          let s' = after_round root c s in
          let all =
            lock_fields-FieldsLocked (set_lock s.mem c true c).field_length root 0
              (set_lock s.mem c true c).fields (taken c s)
              (λ j range.
                subst
                  (λ (o : HeapObject).
                    InRange o.fields 0 o.field_length j → held (o.fields j) ≡ true)
                  (sym eq_c) (λ range'. inside c j has range') range)
              (taken-Locking c s r) in
          (
            all.onward,
            λ b j is_locked range. elim (ℕ_discrete c b) [
              | yes q ↦
                  subst (λ k. RangeOf mem k j → seen s' ((mem k).fields j) ≡ true) q
                    (subst
                      (λ (o : HeapObject).
                        InRange o.fields 0 o.field_length j → seen s' (o.fields j) ≡ true)
                      eq_c (all.covered j))
                    range
              | no q ↦
                  let was : 0 < times b s.cycle_objects = ground (
                    arith,
                    ap (times b) all.onward.same_cycle,
                    times-append b s.cycle_objects (c ∷ []),
                  ) in
                  all.onward.stays ((mem b).fields j) (r.closed b j was range)
            ],
          )

      -- All that was seen is locked, and what it refers to as well.
      pub record AllLocked (s : LockPhase) : Type 0 where
        pub locking : Locking objs held s
        pub empty : s.check_objects ≡ []
        pub locked : LockedIn mem s
        pub closed :
            (b j : ℕ)
            → 0 < times b s.cycle_objects
            → RangeOf mem b j
            → seen s ((mem b).fields j) ≡ true

      taken-smaller :
          (c : ℕ) (s : LockPhase)
          → Ready c s
          → size objs (unlocked s) ≡ suc (size objs (unlocked (taken c s)))
      taken-smaller c s r =
          let (has, out, same) = current_free c s r in
          let still = size-without objs (unlocked s) c (listed c has) (ground arith) in
          let same_rest : (a : ℕ) → unlocked (taken c s) a ≡ without (unlocked s) c a =
            λ a. ground (arith, times-append a s.cycle_objects (c ∷ [])) in
          still ∙ ap (λ (h : ℕ → Bool). suc (size objs h)) (λ i a. sym (same_rest a) i)

      lock_loop-AllLocked :
          (fuel root c : ℕ) (s : LockPhase)
          → size objs (unlocked s) ≤ fuel
          → Ready c s
          → (s' : LockPhase) × (lock_loop others fuel root c s ≡ ok s')
            × AllLocked s'
            × ((a : ℕ) → seen s a ≡ true → seen s' a ≡ true)
      lock_loop-AllLocked zero root c s le r = absurd (omega (arith, taken-smaller c s r))
      lock_loop-AllLocked (suc fuel) root c s le r =
          let (on, closed) = round_lem root c s r in
          let s1 = after_round root c s in
          let locked1 : LockedIn mem s1 = λ a.
            ap (λ (m : Memory). m a) on.same_mem
            ∙ taken-LockedIn c s r a
            ∙ ap
                (λ (xs : List ℕ).
                  if times a xs == 0 then mem a else record (mem a) { lock_flag = true })
                (sym on.same_cycle) in
          elim (List-cases s1.check_objects) [
            | inl empty ↦ (
              s1,
              loop_stop fuel root c s r empty,
              record { locking = on.locking; empty = empty; locked = locked1; closed = closed },
              on.stays,
            )
            | inr (next, rest, top) ↦
                let s2 : LockPhase = record s1 { check_objects = rest } in
                let ready : Ready next s2 = record {
                  locking = record {
                    once = λ a. omega (arith, on.locking.once a, ap (times a) top);
                    seen_held = on.locking.seen_held;
                    all_red = on.locking.all_red;
                  };
                  locked = locked1;
                  closed = closed;
                } in
                let fewer : size objs (unlocked s2) ≡ size objs (unlocked (taken c s)) =
                  ap (λ (xs : List ℕ). size objs (λ a. if times a xs == 0 then held a else false))
                    on.same_cycle in
                let (s', e, end, stays) =
                  lock_loop-AllLocked fuel root next s2 (omega (arith, taken-smaller c s r, fewer))
                    ready in
                (
                  s',
                  loop_next fuel root c next rest s r top ∙ e,
                  end,
                  λ a h. stays a (on.stays a h),
                )
          ]

      abbrev start : ℕ → LockPhase
      start root = record {
        mem = mem;
        colors = set_color (λ _. none) root red;
        check_objects = [];
        cycle_objects = [];
        is_cyclic_root = false;
      }

      start-Ready : (root : ℕ) → held root ≡ true → Ready root (start root)
      start-Ready root has =
          let now = λ (a : ℕ). seen-set_color objs held (λ _. none) root a in
          record {
            locking = record {
              once = λ a. ground (arith, now a);
              seen_held = λ a h. elim (ℕ_discrete root a) [
                | yes q ↦ subst (λ b. held b ≡ true) q has
                | no q ↦ absurd (ground (arith, now a))
              ];
              all_red = λ a. color_of-set_color (λ _. none) root a red ∙ ground arith;
            };
            locked = λ a. refl;
            closed = λ b j none_locked range. absurd (omega arith);
          }

      -- The lock phase ends, with as many rounds as there are objects in use.
      pub lock_phase-AllLocked :
          (fuel root : ℕ)
          → size objs held ≤ fuel
          → held root ≡ true
          → (s : LockPhase) × (lock_phase others fuel root mem ≡ ok s) × AllLocked s
      unfolding lock_phase
      lock_phase-AllLocked fuel root le has =
          let (s, e, end, stays) =
            lock_loop-AllLocked fuel root root (start root) le (start-Ready root has) in
          (s, e, end)
