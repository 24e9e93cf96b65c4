-- ===== src/Gc/Collect/Mark/Loop.antt =====
-- The white or black phase of `gc_collect` ends, with every object that the gray phase found marked, and
-- with nothing white in a field of a black object.
use cat_la_project.Base.{
  ℕ, zero, suc, ◌<◌, ◌≡◌, ◌≢◌, ◌∙◌, ap, subst, Bool, true, List, ◌∷◌, ◌==◌, arith, Bool-cases, inl,
  inr, ◌⊎◌, ℕ_discrete, length, dec_lt,
}
use cat_la_project.Heap.Object.{Memory}
use cat_la_project.Vm.Result.{ok}
use cat_la_project.Gc.Collect.Phases.{
  Color, color_of, is_black, Marking, mark_field, for_fields, marking_loop, ColorMap,
}
use cat_la_project.Gc.Collect.Gray.{is_visited}
use cat_la_project.Gc.Collect.Gray.Loop.{
  InRange, for_fields_null, for_fields_object, for_fields_none,
}
use cat_la_project.Gc.Collect.Gray.Ends.{RangeOf, loop_stop, loop_next}
use cat_la_project.Gc.Collect.Mark.{
  visited, blackened, Marks, potential, MarkStep, MarkStep-refl, MarkStep-trans,
}
use cat_la_project.Gc.Collect.Mark.Step.{mark_field-FieldMarked}
use cat_la_project.Gc.Counts.After.{List-cases}
use cat_la_project.Gc.Ledger.{times}

module _ (objs : List ℕ) (G : ℕ → Bool) (g : ℕ → ℕ)
    (listed : (a : ℕ) → G a ≡ true → times a objs ≡ 1) (mem : Memory) where
  record FieldsMarked (c : Color) (i left : ℕ) (fields : ℕ → ℕ) (s s' : Marking) : Type 0 where
    step : MarkStep objs G g listed s s'
    covered_visited : (j : ℕ) → InRange fields i left j → visited s' (fields j) ≡ true
    covered_black :
        (j : ℕ) → InRange fields i left j → is_black c ≡ true → blackened s' (fields j) ≡ true

  for_fields-FieldsMarked :
      (left i : ℕ) (c : Color) (fields : ℕ → ℕ) (s : Marking)
      → is_visited c ≡ true
      → ((j : ℕ) → InRange fields i left j → G (fields j) ≡ true)
      → Marks objs G g listed s
      → FieldsMarked c i left fields s (for_fields (mark_field c) left i fields s)
  for_fields-FieldsMarked zero i c fields s v inside m =
      rw (for_fields_none (mark_field c) i fields s) (record {
        step = MarkStep-refl objs G g listed s m;
        covered_visited = λ j (from, to, ne). absurd (omega arith);
        covered_black = λ j (from, to, ne) h. absurd (omega arith);
      })
  for_fields-FieldsMarked (suc left) i c fields s v inside m =
      let f = fields i in
      let inside' : (j : ℕ) → InRange fields (suc i) left j → G (fields j) ≡ true =
        λ j (from, to, ne). inside j (omega arith, omega arith, ne) in
      elim (Bool-cases (f == 0)) [
        | inl null ↦
            let later = for_fields-FieldsMarked left (suc i) c fields s v inside' m in
            rw (for_fields_null (mark_field c) left i fields s null) (record {
              step = later.step;
              covered_visited = λ j (from, to, ne). elim (ℕ_discrete i j) [
                | yes q ↦ absurd (ground (arith, ap fields q))
                | no q ↦ later.covered_visited j (omega arith, omega arith, ne)
              ];
              covered_black = λ j (from, to, ne) h. elim (ℕ_discrete i j) [
                | yes q ↦ absurd (ground (arith, ap fields q))
                | no q ↦ later.covered_black j (omega arith, omega arith, ne) h
              ];
            })
        | inr object ↦
            let first =
              mark_field-FieldMarked objs G g listed c f s v m
                (inside i (omega arith, omega arith, ground arith)) in
            let s1 = mark_field c f s in
            let later =
              for_fields-FieldsMarked left (suc i) c fields s1 v inside' first.step.marks in
            let s2 = for_fields (mark_field c) left (suc i) fields s1 in
            rw (for_fields_object (mark_field c) left i fields s object) (record {
              step = MarkStep-trans objs G g listed s s1 s2 first.step later.step;
              covered_visited = λ j (from, to, ne). elim (ℕ_discrete i j) [
                | yes q ↦
                    subst (λ k. visited s2 (fields k) ≡ true) q
                      (later.step.stays_visited f first.now_visited)
                | no q ↦ later.covered_visited j (omega arith, omega arith, ne)
              ];
              covered_black = λ j (from, to, ne) h. elim (ℕ_discrete i j) [
                | yes q ↦
                    subst (λ k. blackened s2 (fields k) ≡ true) q
                      (later.step.stays_black f (first.now_black h))
                | no q ↦ later.covered_black j (omega arith, omega arith, ne) h
              ];
            })
      ]

  -- The fields of `b` have the marks that they should have.
  pub record Done (s : Marking) (b : ℕ) : Type 0 where
    pub fields_visited : (j : ℕ) → RangeOf mem b j → visited s ((mem b).fields j) ≡ true
    pub fields_black :
        (j : ℕ) → RangeOf mem b j → blackened s b ≡ true → blackened s ((mem b).fields j) ≡ true

  -- Between two rounds: the stack holds what is marked and not done.
  pub record Between (s : Marking) : Type 0 where
    pub marks : Marks objs G g listed s
    pub todo : (b : ℕ) → visited s b ≡ true → (0 < times b s.check_objects) ⊎ Done s b
    pub stack_visited : (a : ℕ) → 0 < times a s.check_objects → visited s a ≡ true

  abbrev push : ℕ → Marking → Marking
  push c s = record s { check_objects = c ∷ s.check_objects }

  module _ (G_closed : (b j : ℕ) → G b ≡ true → RangeOf mem b j → G ((mem b).fields j) ≡ true) where
    abbrev after_round : ℕ → Marking → Marking
    after_round c s =
        for_fields (mark_field (color_of s.colors c)) (mem c).field_length 0 (mem c).fields s

    -- An object that was marked and is not on the stack is done, unless it turned black.
    settled :
        (c a : ℕ) (s s' : Marking)
        → FieldsMarked (color_of s.colors c) 0 (mem c).field_length (mem c).fields s s'
        → (c ≢ a → Done s a)
        → (0 < times a s'.check_objects) ⊎ Done s' a
    settled c a s s' all done =
        let seen : (j : ℕ) → RangeOf mem a j → visited s' ((mem a).fields j) ≡ true = λ j range.
          elim (ℕ_discrete c a) [
            | yes q ↦
                subst (λ k. RangeOf mem k j → visited s' ((mem k).fields j) ≡ true) q
                  (all.covered_visited j) range
            | no ne ↦ all.step.stays_visited ((mem a).fields j) ((done ne).fields_visited j range)
          ] in
        elim (Bool-cases (blackened s' a)) [
          | inr open_ ↦
              inr (record {
                fields_visited = seen;
                fields_black = λ j range h. absurd (cc (open_, h));
              })
          | inl now ↦ elim (Bool-cases (blackened s a)) [
            | inr new ↦ inl (all.step.new_black a now new)
            | inl was ↦ inr (record {
              fields_visited = seen;
              fields_black = λ j range h. elim (ℕ_discrete c a) [
                | yes q ↦
                    subst (λ k. RangeOf mem k j → blackened s' ((mem k).fields j) ≡ true) q
                      (λ r. all.covered_black j r (ap (blackened s) q ∙ was)) range
                | no ne ↦
                    all.step.stays_black ((mem a).fields j) ((done ne).fields_black j range was)
              ];
            })
          ]
        ]

    round-Between :
        (c : ℕ) (s : Marking)
        → Between (push c s)
        → Between (after_round c s) × MarkStep objs G g listed s (after_round c s)
    round-Between c s b =
        let cv : visited s c ≡ true = b.stack_visited c (ground arith) in
        let m : Marks objs G g listed s = record {
          colored = b.marks.colored;
          within = b.marks.within;
          untouched = b.marks.untouched;
          white_zero = b.marks.white_zero;
        } in
        let all =
          for_fields-FieldsMarked (mem c).field_length 0 (color_of s.colors c) (mem c).fields s cv
            (λ j range. G_closed c j (m.within c cv) range) m in
        let s' = after_round c s in
        (
          record {
            marks = all.step.marks;
            todo = λ a h. elim (Bool-cases (visited s a)) [
              | inr new ↦ inl (all.step.new_visited a h new)
              | inl old ↦ elim (dec_lt 0 (times a s.check_objects)) [
                | yes p ↦ inl (all.step.stays_stacked a p)
                | no not_there ↦
                    let done : (c ≢ a) → Done s a = λ ne. elim (b.todo a old) [
                      | inl p ↦ absurd (ground (arith, not_there))
                      | inr d ↦ record {
                        fields_visited = d.fields_visited;
                        fields_black = d.fields_black;
                      }
                    ] in
                    settled c a s s' all (λ ne. done ne)
              ]
            ];
            stack_visited = λ a h. elim (all.step.only_visited a h) [
              | inl before ↦ all.step.stays_visited a (b.stack_visited a (ground arith))
              | inr v ↦ v
            ];
          },
          all.step,
        )

    pub record MarkEnd (s' : Marking) : Type 0 where
      pub marks : Marks objs G g listed s'
      pub done : (b : ℕ) → visited s' b ≡ true → Done s' b

    abbrev act : ColorMap → ℕ → ℕ → Marking → Marking
    act colors current object s = mark_field (color_of colors current) object s

    pub mark_loop-MarkEnd :
        (fuel c : ℕ) (s : Marking)
        → potential objs G g listed s < fuel
        → Between (push c s)
        → (s' : Marking) × (marking_loop act fuel c mem s ≡ ok s')
          × MarkEnd s'
          × ((a : ℕ) → visited s a ≡ true → visited s' a ≡ true)
    mark_loop-MarkEnd zero c s le b = absurd (omega arith)
    mark_loop-MarkEnd (suc fuel) c s le b =
        let (b1, step) = round-Between c s b in
        let s1 = after_round c s in
        elim (List-cases s1.check_objects) [
          | inl empty ↦ (
            s1,
            loop_stop act fuel c mem s empty,
            record {
              marks = b1.marks;
              done = λ a h. elim (b1.todo a h) [
                | inl p ↦ absurd (omega (arith, ap (times a) empty))
                | inr d ↦ d
              ];
            },
            step.stays_visited,
          )
          | inr (next, rest, top) ↦
              let s2 : Marking = record s1 { check_objects = rest } in
              let b2 : Between (push next s2) = record {
                marks = record {
                  colored = b1.marks.colored;
                  within = b1.marks.within;
                  untouched = b1.marks.untouched;
                  white_zero = b1.marks.white_zero;
                };
                todo = λ a h. elim (b1.todo a h) [
                  | inl p ↦ inl (omega (arith, ap (times a) top))
                  | inr d ↦
                      inr (record {
                        fields_visited = d.fields_visited;
                        fields_black = d.fields_black;
                      })
                ];
                stack_visited = λ a h. b1.stack_visited a (omega (arith, ap (times a) top));
              } in
              let (s', e, end, stays) =
                mark_loop-MarkEnd fuel next s2 (omega (arith, step.bounded, ap length top)) b2 in
              (
                s',
                loop_next act fuel c next rest mem s top ∙ e,
                end,
                λ a h. stays a (step.stays_visited a h),
              )
        ]
