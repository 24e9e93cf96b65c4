-- ===== src/Gc/Counts/Loop.antt =====
-- `decrement_reference_count` releases what is no longer referenced, and nothing else.
use cat_la_project.Base.{
  ℕ, zero, suc, ◌≤◌, ◌<◌, ◌≡◌, ◌≢◌, refl, sym, ◌∙◌, ap, subst, Bool, true, some, List, [], ◌∷◌,
  ◌==◌, arith, Bool-cases, inl, inr,
}
use cat_la_project.Heap.Object.{Memory, HeapObject, dead}
use cat_la_project.Gc.Counts.{
  sub_count, set_state, is_suspected, drop_released_fields, release_loop, decrement_reference_count,
}
use cat_la_project.Gc.Counts.After.{
  After-trans, not_still, stacked-held, set_state-other, without-ne, without_self, List-cases,
}
use cat_la_project.Gc.Counts.Wait.{waiting-Waited}
use cat_la_project.Gc.Ledger.{times, size, Going, without, plus}
use cat_la_project.Gc.Ledger.Moves.{
  Going-change, Going-without, Going-eq, Going-drop_more, Going-drop_last, size-without, owed-held,
}
use cat_la_project.Gc.Counts.Release.{
  IsReleased, sub_count-After, Freed, Freed-trans, drop_released_fields-Frees,
}

module _ (objs : List ℕ) where
  loop_stop :
      (fuel c : ℕ) (mem mem' : Memory) (stack : List ℕ)
      → drop_released_fields (suc fuel) (mem c).field_length c 0 mem stack ≡ some (mem', [])
      → release_loop (suc fuel) c stack mem ≡ some (set_state dead mem' c)
  unfolding release_loop
  loop_stop fuel c mem mem' stack e = rw (release_loop, e) refl

  loop_next :
      (fuel c next : ℕ) (rest : List ℕ) (mem mem' : Memory) (stack : List ℕ)
      → drop_released_fields (suc fuel) (mem c).field_length c 0 mem stack
        ≡ some (mem', next ∷ rest)
      → release_loop (suc fuel) c stack mem ≡ release_loop fuel next rest (set_state dead mem' c)
  unfolding release_loop
  loop_next fuel c next rest mem mem' stack e = rw (release_loop, e) refl

  -- One round of the loop: `c` is dead, and the stack is what is left to do.
  round-Frees :
      (fuel c : ℕ) (held : ℕ → Bool) (owed : ℕ → ℕ) (mem : Memory) (stack : List ℕ)
      → size objs held ≤ fuel
      → Going objs held owed (plus (λ a. times a stack) c) mem
      → (mem' : Memory) × (stack' : List ℕ) × (drop_released_fields fuel
            (mem c).field_length
            c
            0
            mem
            stack
          ≡ some (mem', stack'))
        × (f : Freed objs held owed (λ a. times a stack') mem (set_state dead mem' c)) × (size objs
              f.held'
            < size objs held)
  unfolding set_state
  round-Frees fuel c held owed mem stack le g =
      let due : ℕ → ℕ = λ a. times a stack in
      let has = stacked-held objs held owed due mem c g in
      let held1 = without held c in
      let less = size-without objs held c (g.ledger.listed c has) has in
      let (mem1, stack1, e, f) =
        drop_released_fields-Frees objs fuel (mem c).field_length c 0 held1 owed (mem c).fields mem
          stack (omega arith) (without_self held c) refl
          (Going-without objs held owed due mem c g) in
      let mem2 = set_state dead mem1 c in
      let out = not_still held1 f.held' c (f.after.still c) (without_self held c) in
      let ne : (a : ℕ) → f.held' a ≡ true → c ≢ a = λ a h e'. cc (h, out, ap f.held' e') in
      let same : (a : ℕ) → c ≢ a → mem2 a ≡ mem1 a = λ a z. set_state-other dead mem1 c a z in
      (
        mem1,
        stack1,
        e,
        record {
          held' = f.held';
          going = Going-change objs f.held' owed _ mem1 mem2 (λ a h. same a (ne a h)) f.going;
          after = record {
            still = λ a h. (without-ne held c a (f.after.still a h)).1;
            kept = λ a h.
                same a (ne a h)
                ∙ f.after.kept a h
                ∙ ap (λ (o : HeapObject). record (mem a) { count = o.count })
                    (sym (same a (ne a h)));
            away = λ a h.
                let apart : c ≢ a = λ e'. cc (has, h, ap held e') in
                same a apart ∙ f.after.away a (ground arith);
          };
          le = omega (arith, f.le);
          released = λ a h h'. elim (Bool-cases (held1 a)) [
            | inl later ↦
                let apart : c ≢ a = (without-ne held c a later).0 in
                subst (λ (o : HeapObject). IsReleased o.state) (sym (same a apart))
                  (f.released a later h')
            | inr now ↦ inl (ground arith)
          ];
        },
        omega (arith, f.le),
      )

  release_loop-Freed :
      (fuel c : ℕ) (held : ℕ → Bool) (owed : ℕ → ℕ) (mem : Memory) (stack : List ℕ)
      → size objs held ≤ fuel
      → Going objs held owed (plus (λ a. times a stack) c) mem
      → (mem' : Memory) × (release_loop fuel c stack mem ≡ some mem')
        × Freed objs held owed (λ a. 0) mem mem'
  release_loop-Freed zero c held owed mem stack le g =
      let has = stacked-held objs held owed (λ a. times a stack) mem c g in
      absurd (omega (arith, size-without objs held c (g.ledger.listed c has) has))
  release_loop-Freed (suc fuel) c held owed mem stack le g =
      let (mem1, stack1, e, first, less) = round-Frees (suc fuel) c held owed mem stack le g in
      let mem2 = set_state dead mem1 c in
      elim (List-cases stack1) [
        | inl empty ↦ (
          mem2,
          loop_stop fuel c mem mem1 stack (e ∙ ap (λ s. some (mem1, s)) empty),
          record {
            held' = first.held';
            going =
                Going-eq objs first.held' owed owed _ (λ a. 0) mem2 (λ a z. refl)
                  (λ a. sym (ap (times a) empty)) first.going;
            after = first.after;
            le = first.le;
            released = first.released;
          },
        )
        | inr (next, rest, top) ↦
            let g1 : Going objs first.held' owed (plus (λ a. times a rest) next) mem2 =
              Going-eq objs first.held' owed owed (λ a. times a stack1) _ mem2 (λ a z. refl)
                (λ a. omega (arith, ap (times a) top)) first.going in
            let (mem', e', second) =
              release_loop-Freed fuel next first.held' owed mem2 rest (omega arith) g1 in
            (
              mem',
              loop_next fuel c next rest mem mem1 stack (e ∙ ap (λ s. some (mem1, s)) top) ∙ e',
              Freed-trans objs held owed owed (λ a. times a stack1) (λ a. 0) mem mem2 mem' first
                  second,
            )
      ]

  -- The last reference was the one that is dropped: the object and what only it keeps in use are released.
  pub decrement_reference_count-Freed :
      (fuel x : ℕ) (held : ℕ → Bool) (owed : ℕ → ℕ) (mem : Memory)
      → size objs held ≤ fuel
      → x ≢ 0
      → Going objs held (plus owed x) (λ a. 0) mem
      → (mem' : Memory) × (decrement_reference_count fuel x mem ≡ some mem')
        × Freed objs held owed (λ a. 0) mem mem'
  unfolding decrement_reference_count
  decrement_reference_count-Freed fuel x held owed mem le ne g =
      let has = owed-held objs held (plus owed x) mem x g.ledger ne (ground arith) in
      let mem1 = sub_count mem x in
      let after = sub_count-After held mem x has in
      elim (Bool-cases ((mem x).count == 1)) [
        | inl last ↦
            let g1 = Going-drop_last objs held owed (λ a. 0) mem x ne (ground arith) g in
            elim (Bool-cases (is_suspected mem1 x)) [
              | inl later ↦
                  let (mem2, e, w) = waiting-Waited objs fuel x held owed (λ a. 0) mem1 le g1 in
                  (
                    mem2,
                    rw (last, later) e,
                    record {
                      held' = w.held';
                      going = w.going;
                      after = After-trans held held w.held' mem mem1 mem2 after w.after;
                      le = omega (arith, w.smaller);
                      released = λ a h h'. inr (w.released a h h');
                    },
                  )
              | inr now ↦
                  let (mem2, e, f) = release_loop-Freed fuel x held owed mem1 [] le g1 in
                  (
                    mem2,
                    rw (last, now) e,
                    record {
                      held' = f.held';
                      going = f.going;
                      after = After-trans held held f.held' mem mem1 mem2 after f.after;
                      le = f.le;
                      released = f.released;
                    },
                  )
            ]
        | inr more ↦ (
          mem1,
          rw more refl,
          record {
            held' = held;
            going = Going-drop_more objs held owed (λ a. 0) mem x ne (ground arith) g;
            after = after;
            le = omega arith;
            released = λ a h h'. cc (h, h');
          },
        )
      ]
