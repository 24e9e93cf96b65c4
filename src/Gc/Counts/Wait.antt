-- ===== src/Gc/Counts/Wait.antt =====
-- An object that waits for the collector is released with all that only it keeps in use.
use cat_la_project.Base.{
  ℕ, zero, suc, ◌+◌, ◌≤◌, ◌<◌, ◌≡◌, refl, sym, ◌∙◌, ap, Bool, true, false, some, List, [], ◌∷◌,
  ◌==◌, if◌then◌else◌, arith, Bool-cases, inl, inr, dec_lt,
}
use cat_la_project.Heap.Object.{Memory, HeapObject, ObjectState, waiting_for_gc}
use cat_la_project.Gc.Counts.{
  set_state, set_states, Waiting, release_waiting_loop, waiting_loop,
  decrement_reference_count_waiting_gc_object,
}
use cat_la_project.Gc.Counts.Drop.{stacks}
use cat_la_project.Gc.Ledger.{times, size, Going, plus}
use cat_la_project.Gc.Ledger.Moves.{Going-change, Going-eq, size-without}
use cat_la_project.Gc.Counts.After.{After, After-trans, stacked-held, List-cases}
use cat_la_project.Gc.Counts.Rounds.{Inner, release_waiting_loop-Inner}

module _ (objs : List ℕ) where
  set_states_lem :
      (state : ObjectState) (release : List ℕ) (mem : Memory) (a : ℕ)
      → set_states state release mem a
        ≡ (if times a release == 0 then mem a else record (mem a) { state = state })
  unfolding set_states set_state
  set_states_lem state [] mem a = refl
  set_states_lem state (c ∷ release) mem a =
      let rest = set_states_lem state release (set_state state mem c) a in ground arith

  -- The whole release: what goes out of use waits for the collector.
  pub record Waited (held : ℕ → Bool) (owed outer : ℕ → ℕ) (mem mem' : Memory) : Type 0 where
    pub held' : ℕ → Bool
    pub going : Going objs held' owed outer mem'
    pub after : After held held' mem mem'
    pub smaller : size objs held' < size objs held
    pub released : (a : ℕ) → held a ≡ true → held' a ≡ false → (mem' a).state ≡ waiting_for_gc

  -- The inner loop, with the states that are set behind it.
  Inner-Waited :
      (held : ℕ → Bool) (owed outer : ℕ → ℕ) (mem : Memory) (release : List ℕ) (w : Waiting)
      → Inner objs held owed outer mem [] release w
      → Waited held owed
          (λ a. times a w.check_roots + outer a)
          mem
          (set_states waiting_for_gc release w.mem)
  Inner-Waited held owed outer mem release w i =
      let mem' = set_states waiting_for_gc release w.mem in
      let unlisted : (a : ℕ) → (held a ≡ true → i.held' a ≡ true) → times a release ≡ 0 = λ a h.
        elim (dec_lt 0 (times a release)) [
          | yes p ↦ elim (i.listed a p) [
            | inl none_there ↦ absurd (omega arith)
            | inr (x, y) ↦ cc (h x, y)
          ]
          | no none_there ↦ omega arith
        ] in
      let same : (a : ℕ) → times a release ≡ 0 → mem' a ≡ w.mem a =
        λ a h. ground (arith, set_states_lem waiting_for_gc release w.mem a) in
      let same_held : (a : ℕ) → i.held' a ≡ true → mem' a ≡ w.mem a =
        λ a h. same a (unlisted a (λ k. h)) in
      record {
        held' = i.held';
        going = Going-change objs i.held' owed _ w.mem mem' same_held i.going;
        after = record {
          still = i.after.still;
          kept = λ a h.
              same_held a h
              ∙ i.after.kept a h
              ∙ ap (λ (o : HeapObject). record (mem a) { count = o.count }) (sym (same_held a h));
          away = λ a h. same a (unlisted a (λ k. cc (h, k))) ∙ i.after.away a h;
        };
        smaller = i.smaller;
        released = λ a h h'.
            let l = i.all a h h' in ground (arith, set_states_lem waiting_for_gc release w.mem a);
      }

  outer_stop :
      (fuel root : ℕ) (roots release : List ℕ) (mem : Memory) (w : Waiting)
      → release_waiting_loop
          (suc fuel)
          root
          []
          (record { mem = mem; check_roots = roots; check_objects = [] })
        ≡ some (release, w)
      → w.check_roots ≡ []
      → waiting_loop (suc fuel) root roots mem ≡ some (set_states waiting_for_gc release w.mem)
  unfolding waiting_loop
  outer_stop fuel root roots release mem w h none_left = rw (h, waiting_loop, none_left) refl

  outer_next :
      (fuel root next : ℕ) (roots rest release : List ℕ) (mem : Memory) (w : Waiting)
      → release_waiting_loop
          (suc fuel)
          root
          []
          (record { mem = mem; check_roots = roots; check_objects = [] })
        ≡ some (release, w)
      → w.check_roots ≡ next ∷ rest
      → waiting_loop (suc fuel) root roots mem
        ≡ waiting_loop fuel next rest (set_states waiting_for_gc release w.mem)
  unfolding waiting_loop
  outer_next fuel root next roots rest release mem w h more = rw (h, waiting_loop, more) refl

  waiting_loop-Waited :
      (fuel root : ℕ) (roots : List ℕ) (held : ℕ → Bool) (owed outer : ℕ → ℕ) (mem : Memory)
      → size objs held ≤ fuel
      → Going objs held owed (plus (λ a. times a roots + outer a) root) mem
      → (mem' : Memory) × (waiting_loop fuel root roots mem ≡ some mem')
        × Waited held owed outer mem mem'
  waiting_loop-Waited zero root roots held owed outer mem le g =
      let has = stacked-held objs held owed (λ a. times a roots + outer a) mem root g in
      absurd (omega (arith, size-without objs held root (g.ledger.listed root has) has))
  waiting_loop-Waited (suc fuel) root roots held owed outer mem le g =
      let w0 : Waiting = record { mem = mem; check_roots = roots; check_objects = [] } in
      let g0 : Going objs held owed (plus (stacks w0 outer) root) mem =
        Going-eq objs held owed owed (plus (λ a. times a roots + outer a) root)
          (plus (stacks w0 outer) root) mem (λ a z. refl) (λ a. omega arith) g in
      let (release, w, e, i) =
        release_waiting_loop-Inner objs (suc fuel) root held owed outer [] w0 le g0 in
      let first = Inner-Waited held owed outer mem release w i in
      let mem1 = set_states waiting_for_gc release w.mem in
      elim (List-cases w.check_roots) [
        | inl empty ↦ (
          mem1,
          outer_stop fuel root roots release mem w e empty,
          record {
            held' = first.held';
            going =
                Going-eq objs first.held' owed owed _ outer mem1 (λ a z. refl)
                  (λ a. omega (arith, ap (times a) empty)) first.going;
            after = first.after;
            smaller = first.smaller;
            released = first.released;
          },
        )
        | inr (next, rest, top) ↦
            let g1 : Going objs first.held' owed (plus (λ a. times a rest + outer a) next) mem1 =
              Going-eq objs first.held' owed owed (λ a. times a w.check_roots + outer a) _ mem1
                (λ a z. refl) (λ a. omega (arith, ap (times a) top)) first.going in
            let (mem', e', second) =
              waiting_loop-Waited fuel next rest first.held' owed outer mem1
                (omega (arith, first.smaller)) g1 in
            (
              mem',
              outer_next fuel root next roots rest release mem w e top ∙ e',
              record {
                held' = second.held';
                going = second.going;
                after =
                    After-trans held first.held' second.held' mem mem1 mem' first.after
                      second.after;
                smaller = omega (arith, first.smaller, second.smaller);
                released = λ a h h'. elim (Bool-cases (first.held' a)) [
                  | inl later ↦ second.released a later h'
                  | inr now ↦
                      ap (λ (o : HeapObject). o.state) (second.after.away a now)
                      ∙ first.released a h now
                ];
              },
            )
      ]

  -- The release of an object that waits, with as many rounds as objects in use.
  pub waiting-Waited :
      (fuel object : ℕ) (held : ℕ → Bool) (owed outer : ℕ → ℕ) (mem : Memory)
      → size objs held ≤ fuel
      → Going objs held owed (plus outer object) mem
      → (mem' : Memory) × (decrement_reference_count_waiting_gc_object fuel object mem ≡ some mem')
        × Waited held owed outer mem mem'
  unfolding decrement_reference_count_waiting_gc_object
  waiting-Waited fuel object held owed outer mem le g =
      waiting_loop-Waited fuel object [] held owed outer mem le
        (Going-eq objs held owed owed (plus outer object) _ mem (λ a z. refl) (λ a. omega arith) g)
