-- ===== src/Gc/Counts/Rounds.antt =====
-- The inner loop of the release of an object that waits for the collector.
use cat_la_project.Base.{
  ℕ, zero, suc, ◌+◌, ◌≤◌, ◌<◌, ◌≡◌, ◌≢◌, refl, sym, ◌∙◌, ap, Bool, true, false, some, List, [], ◌∷◌,
  arith, Bool-cases, inl, inr, ◌⊎◌, ℕ_discrete,
}
use cat_la_project.Heap.Object.{Memory, HeapObject, process_gc}
use cat_la_project.Gc.Counts.{
  set_state, Waiting, drop_waiting_fields, release_waiting, release_waiting_loop,
}
use cat_la_project.Gc.Counts.Drop.{stacks, drop_waiting_fields-DropsAll}
use cat_la_project.Gc.Ledger.{times, occ_in, size, Going, without, plus}
use cat_la_project.Gc.Ledger.Moves.{Going-change, Going-without, Going-eq, size-without}
use cat_la_project.Gc.Counts.After.{
  After, After-trans, not_still, stacked-held, set_state-other, set_state-fields, without-ne,
  without_self, List-cases,
}

module _ (objs : List ℕ) where
  -- One round: `c` goes out of use.
  record Released (held : ℕ → Bool) (owed outer : ℕ → ℕ) (c : ℕ) (w w' : Waiting) : Type 0 where
    going : Going objs (without held c) owed (stacks w' outer) w'.mem
    after : After held (without held c) w.mem w'.mem
    smaller : size objs held ≡ suc (size objs (without held c))

  release_waiting-Released :
      (held : ℕ → Bool) (owed outer : ℕ → ℕ) (c : ℕ) (w : Waiting)
      → Going objs held owed (plus (stacks w outer) c) w.mem
      → Released held owed outer c w (release_waiting c w)
  unfolding release_waiting
  release_waiting-Released held owed outer c w g =
      let has = stacked-held objs held owed (stacks w outer) w.mem c g in
      let held' = without held c in
      let mem1 = set_state process_gc w.mem c in
      let w1 : Waiting = record w { mem = mem1 } in
      let same : (a : ℕ) → held' a ≡ true → mem1 a ≡ w.mem a =
        λ a h. set_state-other process_gc w.mem c a (without-ne held c a h).0 in
      let g1 =
        Going-change objs held' (λ a. owed a + occ_in w.mem c a) (stacks w outer) w.mem mem1 same
          (Going-without objs held owed (stacks w outer) w.mem c g) in
      let w' = drop_waiting_fields (w.mem c).field_length c 0 w1 in
      let all =
        drop_waiting_fields-DropsAll objs held' c (without_self held c) outer (w.mem c).field_length
          0 w1 owed (w.mem c).fields
          (λ j le. ap (λ (fs : ℕ → ℕ). fs j) (set_state-fields process_gc w.mem c)) g1 in
      record {
        going = all.going;
        after = record {
          still = λ a h. (without-ne held c a h).1;
          kept = λ a h.
              all.dropped.kept a h
              ∙ ap (λ (o : HeapObject). record o { count = (w'.mem a).count }) (same a h);
          away = λ a h.
              let ne : c ≢ a = λ e. cc (has, h, ap held e) in
              all.dropped.away a (not_still held held' a (λ k. (without-ne held c a k).1) h)
                (λ e. ne (sym e))
              ∙ set_state-other process_gc w.mem c a ne;
        };
        smaller = size-without objs held c (g.ledger.listed c has) has;
      }

  -- The inner loop: `release` gets the objects that go out of use.
  pub record Inner (held : ℕ → Bool) (owed outer : ℕ → ℕ) (mem : Memory) (release release' : List ℕ)
      (w' : Waiting) : Type 0 where
    pub held' : ℕ → Bool
    pub going : Going objs held' owed (λ a. times a w'.check_roots + outer a) w'.mem
    pub after : After held held' mem w'.mem
    pub smaller : size objs held' < size objs held
    pub listed :
        (a : ℕ)
        → 0 < times a release'
        → (0 < times a release) ⊎ ((held a ≡ true) × (held' a ≡ false))
    pub more : (a : ℕ) → 0 < times a release → 0 < times a release'
    pub all : (a : ℕ) → held a ≡ true → held' a ≡ false → 0 < times a release'

  loop_stop :
      (fuel c : ℕ) (release : List ℕ) (w : Waiting)
      → (release_waiting c w).check_objects ≡ []
      → release_waiting_loop (suc fuel) c release w ≡ some (c ∷ release, release_waiting c w)
  unfolding release_waiting_loop release_waiting drop_waiting_fields
  loop_stop fuel c release w h = rw (h, release_waiting_loop) refl

  loop_next :
      (fuel c o : ℕ) (os release : List ℕ) (w : Waiting)
      → (release_waiting c w).check_objects ≡ o ∷ os
      → release_waiting_loop (suc fuel) c release w
        ≡ release_waiting_loop fuel o
            (c ∷ release)
            (record (release_waiting c w) { check_objects = os })
  unfolding release_waiting_loop
  loop_next fuel c o os release w h = rw (h, release_waiting_loop) refl

  -- What is listed now was listed before, or is the object that went out of use.
  newly :
      (held held' : ℕ → Bool) (c a : ℕ) (release : List ℕ)
      → held c ≡ true
      → held' c ≡ false
      → 0 < times a (c ∷ release)
      → (0 < times a release) ⊎ ((held a ≡ true) × (held' a ≡ false))
  newly held held' c a release has out h = elim (ℕ_discrete c a) [
    | yes e ↦ inr (ap held (sym e) ∙ has, ap held' (sym e) ∙ out)
    | no ne ↦ inl (ground arith)
  ]

  pub release_waiting_loop-Inner :
      (fuel c : ℕ) (held : ℕ → Bool) (owed outer : ℕ → ℕ) (release : List ℕ) (w : Waiting)
      → size objs held ≤ fuel
      → Going objs held owed (plus (stacks w outer) c) w.mem
      → (release' : List ℕ) × (w' : Waiting) × (release_waiting_loop fuel c release w
          ≡ some (release', w'))
        × Inner held owed outer w.mem release release' w'
  release_waiting_loop-Inner zero c held owed outer release w le g =
      let has = stacked-held objs held owed (stacks w outer) w.mem c g in
      absurd (omega (arith, size-without objs held c (g.ledger.listed c has) has))
  release_waiting_loop-Inner (suc fuel) c held owed outer release w le g =
      let has = stacked-held objs held owed (stacks w outer) w.mem c g in
      let r = release_waiting-Released held owed outer c w g in
      let w1 = release_waiting c w in
      let held1 = without held c in
      let out = without_self held c in
      elim (List-cases w1.check_objects) [
        | inl empty ↦ (
          c ∷ release,
          w1,
          loop_stop fuel c release w empty,
          record {
            held' = held1;
            going =
                Going-eq objs held1 owed owed (stacks w1 outer) _ w1.mem (λ a z. refl)
                  (λ a. omega (arith, ap (times a) empty)) r.going;
            after = r.after;
            smaller = omega (arith, r.smaller);
            listed = λ a h. newly held held1 c a release has out h;
            more = λ a h. ground arith;
            all = λ a h h'. ground arith;
          },
        )
        | inr (o, os, top) ↦
            let next : Waiting = record w1 { check_objects = os } in
            let g1 : Going objs held1 owed (plus (stacks next outer) o) w1.mem =
              Going-eq objs held1 owed owed (stacks w1 outer) _ w1.mem (λ a z. refl)
                (λ a. omega (arith, ap (times a) top)) r.going in
            let (release', w', e, i) =
              release_waiting_loop-Inner fuel o held1 owed outer (c ∷ release) next
                (omega (arith, r.smaller)) g1 in
            (
              release',
              w',
              loop_next fuel c o os release w top ∙ e,
              record {
                held' = i.held';
                going = i.going;
                after = After-trans held held1 i.held' w.mem w1.mem w'.mem r.after i.after;
                smaller = omega (arith, r.smaller, i.smaller);
                listed = λ a h. elim (i.listed a h) [
                  | inl old ↦
                      newly held i.held' c a release has
                        (not_still held1 i.held' c (i.after.still c) out) old
                  | inr (p, q) ↦ inr (r.after.still a p, q)
                ];
                more = λ a h. i.more a (ground arith);
                all = λ a h h'. elim (Bool-cases (held1 a)) [
                  | inl later ↦ i.all a later h'
                  | inr now ↦ i.more a (ground arith)
                ];
              },
            )
      ]
