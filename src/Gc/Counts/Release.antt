-- ===== src/Gc/Counts/Release.antt =====
-- The loop of `decrement_reference_count` over the fields of an object that is released.
use cat_la_project.Base.{
  ℕ, zero, suc, ◌+◌, ◌≤◌, ◌≡◌, ◌≢◌, refl, sym, ◌∙◌, ap, subst, Bool, true, false, Option, some,
  List, ◌∷◌, ◌==◌, if◌then◌else◌, arith, Bool-cases, inl, inr, ◌⊎◌,
}
use cat_la_project.Heap.Object.{Memory, HeapObject, ObjectState, dead, waiting_for_gc}
use cat_la_project.Gc.Counts.{sub_count, is_suspected, drop_released, drop_released_fields}
use cat_la_project.Gc.Counts.After.{After, After-trans, not_still}
use cat_la_project.Gc.Counts.Wait.{waiting-Waited}
use cat_la_project.Gc.Ledger.{times, occ, size, Going, plus}
use cat_la_project.Gc.Ledger.Moves.{Going-eq, Going-drop_more, Going-drop_last, owed-held}

abbrev pub IsReleased : ObjectState → Type 0
IsReleased s = (s ≡ dead) ⊎ (s ≡ waiting_for_gc)

After-refl : (held : ℕ → Bool) (mem : Memory) → After held held mem mem
After-refl held mem = record { still = λ a h. h; kept = λ a h. refl; away = λ a h. refl }

pub sub_count-After :
    (held : ℕ → Bool) (mem : Memory) (f : ℕ) → held f ≡ true → After held held mem (sub_count mem f)
unfolding sub_count
sub_count-After held mem f has = record {
  still = λ a h. h;
  kept = λ a h. ground arith;
  away = λ a h. let ne : f ≢ a = λ e. cc (has, h, ap held e) in ground arith;
}

module _ (objs : List ℕ) where
  -- Some objects went out of use, and the stack holds those that have to.
  pub record Freed (held : ℕ → Bool) (owed due : ℕ → ℕ) (mem mem' : Memory) : Type 0 where
    pub held' : ℕ → Bool
    pub going : Going objs held' owed due mem'
    pub after : After held held' mem mem'
    pub le : size objs held' ≤ size objs held
    pub released : (a : ℕ) → held a ≡ true → held' a ≡ false → IsReleased (mem' a).state

  pub Freed-trans :
      (held : ℕ → Bool) (owed owed' due due' : ℕ → ℕ) (m1 m2 m3 : Memory)
      (p : Freed held owed due m1 m2)
      → Freed p.held' owed' due' m2 m3
      → Freed held owed' due' m1 m3
  Freed-trans held owed owed' due due' m1 m2 m3 p q = record {
    held' = q.held';
    going = q.going;
    after = After-trans held p.held' q.held' m1 m2 m3 p.after q.after;
    le = omega (arith, p.le, q.le);
    released = λ a h h'. elim (Bool-cases (p.held' a)) [
      | inl later ↦ q.released a later h'
      | inr now ↦
          subst (λ (o : HeapObject). IsReleased o.state) (sym (q.after.away a now))
            (p.released a h now)
    ];
  }

  -- What a step over the fields, or the loop over them, returns.
  abbrev Frees : (ℕ → Bool) → (ℕ → ℕ) → Memory → Option (Memory × List ℕ) → Type 0
  Frees held owed mem r =
      (mem' : Memory) × (stack : List ℕ) × (r ≡ some (mem', stack))
      × Freed held owed (λ a. times a stack) mem mem'

  drop_released-Frees :
      (fuel f : ℕ) (held : ℕ → Bool) (owed : ℕ → ℕ) (mem : Memory) (stack : List ℕ)
      → size objs held ≤ fuel
      → f ≢ 0
      → Going objs held (plus owed f) (λ a. times a stack) mem
      → Frees held owed mem (drop_released fuel f mem stack)
  unfolding drop_released
  drop_released-Frees fuel f held owed mem stack le ne g =
      let has = owed-held objs held (plus owed f) mem f g.ledger ne (ground arith) in
      let mem1 = sub_count mem f in
      let after = sub_count-After held mem f has in
      let due : ℕ → ℕ = λ a. times a stack in
      elim (Bool-cases ((mem f).count == 1)) [
        | inl last ↦
            let g1 = Going-drop_last objs held owed due mem f ne (ground arith) g in
            elim (Bool-cases (is_suspected mem1 f)) [
              | inl later ↦
                  let (mem2, e, w) = waiting-Waited objs fuel f held owed due mem1 le g1 in
                  (
                    mem2,
                    stack,
                    rw (last, later, e) refl,
                    record {
                      held' = w.held';
                      going = w.going;
                      after = After-trans held held w.held' mem mem1 mem2 after w.after;
                      le = omega (arith, w.smaller);
                      released = λ a h h'. inr (w.released a h h');
                    },
                  )
              | inr now ↦ (
                mem1,
                f ∷ stack,
                rw (last, now) refl,
                record {
                  held' = held;
                  going = g1;
                  after = after;
                  le = omega arith;
                  released = λ a h h'. cc (h, h');
                },
              )
            ]
        | inr more ↦ (
          mem1,
          stack,
          rw more refl,
          record {
            held' = held;
            going = Going-drop_more objs held owed due mem f ne (ground arith) g;
            after = after;
            le = omega arith;
            released = λ a h h'. cc (h, h');
          },
        )
      ]

  next_null :
      (fuel left c i : ℕ) (mem : Memory) (stack : List ℕ)
      → ((mem c).fields i == 0) ≡ true
      → drop_released_fields fuel (suc left) c i mem stack
        ≡ drop_released_fields fuel left c (suc i) mem stack
  unfolding drop_released_fields
  next_null fuel left c i mem stack h = rw (drop_released_fields, h) refl

  next_object :
      (fuel left c i : ℕ) (mem mem' : Memory) (stack stack' : List ℕ)
      → ((mem c).fields i == 0) ≡ false
      → drop_released fuel ((mem c).fields i) mem stack ≡ some (mem', stack')
      → drop_released_fields fuel (suc left) c i mem stack
        ≡ drop_released_fields fuel left c (suc i) mem' stack'
  unfolding drop_released_fields
  next_object fuel left c i mem mem' stack stack' h e = rw (drop_released_fields, h, e) refl

  -- The loop over the fields of an object `c` that is out of use.
  pub drop_released_fields-Frees :
      (fuel left c i : ℕ) (held : ℕ → Bool) (owed fields : ℕ → ℕ) (mem : Memory) (stack : List ℕ)
      → size objs held ≤ fuel
      → held c ≡ false
      → (mem c).fields ≡ fields
      → Going objs held (λ a. owed a + occ fields i left a) (λ a. times a stack) mem
      → Frees held owed mem (drop_released_fields fuel left c i mem stack)
  unfolding occ drop_released_fields
  drop_released_fields-Frees fuel zero c i held owed fields mem stack le out same g =
      let due : ℕ → ℕ = λ a. times a stack in
      (
        mem,
        stack,
        refl,
        record {
          held' = held;
          going =
              Going-eq objs held (λ a. owed a + 0) owed due due mem (λ a z. omega arith) (λ a. refl)
                g;
          after = After-refl held mem;
          le = omega arith;
          released = λ a h h'. cc (h, h');
        },
      )
  drop_released_fields-Frees fuel (suc left) c i held owed fields mem stack le out same g =
      let f = (mem c).fields i in
      let here : f ≡ fields i = ap (λ (fs : ℕ → ℕ). fs i) same in
      let due : ℕ → ℕ = λ a. times a stack in
      let later : ℕ → ℕ = λ a. owed a + occ fields (suc i) left a in
      let all : ℕ → ℕ =
        λ a. owed a + ((if fields i == a then 1 else 0) + occ fields (suc i) left a) in
      elim (Bool-cases (f == 0)) [
        | inl null ↦ rw (next_null fuel left c i mem stack null) (
            drop_released_fields-Frees fuel left c (suc i) held owed fields mem stack le out same
              (Going-eq objs held all later due due mem (λ a ne. ground arith) (λ a. refl) g))
        | inr more ↦
            let ne : f ≢ 0 = ground arith in
            let g' : Going objs held (plus later f) due mem =
              Going-eq objs held all (plus later f) due due mem (λ a z. ground arith) (λ a. refl)
                g in
            let (mem1, stack1, e1, first) =
              drop_released-Frees fuel f held later mem stack le ne g' in
            let out1 = not_still held first.held' c (first.after.still c) out in
            let same1 = ap (λ (o : HeapObject). o.fields) (first.after.away c out) ∙ same in
            let (mem2, stack2, e2, second) =
              drop_released_fields-Frees fuel left c (suc i) first.held' owed fields mem1 stack1
                (omega (arith, first.le)) out1 same1 first.going in
            (
              mem2,
              stack2,
              next_object fuel left c i mem mem1 stack stack1 more e1 ∙ e2,
              Freed-trans held later owed (λ a. times a stack1) (λ a. times a stack2) mem mem1 mem2
                  first second,
            )
      ]
