-- ===== src/Gc/Collect/Mark/Step.antt =====
-- One field in the white or black phase of `gc_collect`.
use cat_la_project.Base.{
  ℕ, ◌+◌, ◌%◌, ◌^◌, ◌≡◌, ◌≢◌, refl, sym, ◌∙◌, ap, subst, Bool, true, false, List, ◌∷◌, ◌==◌,
  if◌then◌else◌, arith, Bool-cases, inl, inr, ℕ_discrete, length,
}
use cat_la_project.Gc.Collect.Phases.{
  Color, red, gray, white, black, color_of, set_color, set_count, is_gray, is_white, is_black,
  Marking, mark_field, ColorMap,
}
use cat_la_project.Gc.Collect.Gray.{color_of-set_color, is_visited}
use cat_la_project.Gc.Collect.Mark.{
  is_red, visited, blackened, Marks, unvisited, unblackened, MarkStep, MarkStep-refl, recolored,
  size-same,
}
use cat_la_project.Gc.Ledger.{times}

set_count_other : (counts : ℕ → ℕ) (f n a : ℕ) → f ≢ a → set_count counts f n a ≡ counts a
unfolding set_count
set_count_other counts f n a ne = ground arith

gray_unvisited : (c : Color) → is_gray c ≡ true → (is_visited c ≡ false) × (is_black c ≡ false)
gray_unvisited red h = cc h
gray_unvisited gray h = (refl, refl)
gray_unvisited white h = cc h
gray_unvisited black h = cc h

third : (c : Color) → is_gray c ≡ false → is_red c ≡ false → is_visited c ≡ true
third red h h' = cc h'
third gray h h' = cc h
third white h h' = refl
third black h h' = refl

black_visited : (c : Color) → is_black c ≡ true → (is_visited c ≡ true) × (c ≡ black)
black_visited red h = cc h
black_visited gray h = cc h
black_visited white h = cc h
black_visited black h = (refl, refl)

-- The colour that the step gives to a black object is the one it has.
blacken_black :
    (colors : ColorMap) (f a : ℕ)
    → is_black (color_of colors f) ≡ true
    → color_of (set_color colors f black) a ≡ color_of colors a
blacken_black colors f a h = color_of-set_color colors f a black ∙ elim (ℕ_discrete f a) [
  | yes q ↦
      subst (λ b. (if f == b then black else color_of colors b) ≡ color_of colors b) q
        (ground (arith, sym (black_visited (color_of colors f) h).1))
  | no q ↦ ground arith
]

module _ (objs : List ℕ) (G : ℕ → Bool) (g : ℕ → ℕ)
    (listed : (a : ℕ) → G a ≡ true → times a objs ≡ 1) where
  -- The colours and the stack stay, and at most the counts of black objects change.
  recounted :
      (s s' : Marking)
      → Marks objs G g listed s
      → ((a : ℕ) → color_of s'.colors a ≡ color_of s.colors a)
      → ((a : ℕ) → blackened s a ≡ false → s'.counts a ≡ s.counts a)
      → s'.check_objects ≡ s.check_objects
      → MarkStep objs G g listed s s'
  recounted s s' m color counts stack =
      let nv =
        size-same objs G g listed (unvisited objs G g listed s) (unvisited objs G g listed s')
          (λ a. ground (arith, ap is_visited (color a))) in
      let nb =
        size-same objs G g listed (unblackened objs G g listed s) (unblackened objs G g listed s')
          (λ a. ground (arith, ap is_black (color a))) in
      record {
        marks = record {
          colored = λ a h. ap is_red (color a) ∙ m.colored a h;
          within = λ a h. m.within a (sym (ap is_visited (color a)) ∙ h);
          untouched = λ a h.
              let was : blackened s a ≡ false = sym (ap is_black (color a)) ∙ h in
              counts a was ∙ m.untouched a was;
          white_zero = λ a h. m.white_zero a (sym (ap is_white (color a)) ∙ h);
        };
        stays_visited = λ a h. ap is_visited (color a) ∙ h;
        stays_black = λ a h. ap is_black (color a) ∙ h;
        stays_stacked = λ a h. omega (arith, ap (times a) stack);
        new_visited = λ a h h'. absurd (cc (ap is_visited (color a), h, h'));
        new_black = λ a h h'. absurd (cc (ap is_black (color a), h, h'));
        only_visited = λ a h. inl (omega (arith, ap (times a) stack));
        bounded = omega (arith, nv, nb, ap length stack);
      }

  -- The object in the field gets the mark that the one that holds it has, or black.
  pub record FieldMarked (c : Color) (f : ℕ) (s s' : Marking) : Type 0 where
    pub step : MarkStep objs G g listed s s'
    pub now_visited : visited s' f ≡ true
    pub now_black : is_black c ≡ true → blackened s' f ≡ true

  to_black :
      (c : Color) (s s' : Marking) (f : ℕ)
      → Marks objs G g listed s
      → G f ≡ true
      → ((a : ℕ) → color_of s'.colors a ≡ (if f == a then black else color_of s.colors a))
      → ((a : ℕ) → f ≢ a → s'.counts a ≡ s.counts a)
      → s'.check_objects ≡ (if blackened s f then s.check_objects else f ∷ s.check_objects)
      → FieldMarked c f s s'
  to_black c s s' f m in_G color counts stack =
      let here : color_of s'.colors f ≡ black = color f ∙ ground arith in
      record {
        step = elim (Bool-cases (blackened s f)) [
          | inl e ↦
              recounted s s' m
                (λ a. elim (ℕ_discrete f a) [
                  | yes q ↦
                      subst (λ b. color_of s'.colors b ≡ color_of s.colors b) q
                        (here ∙ sym (black_visited (color_of s.colors f) e).1)
                  | no q ↦ color a ∙ ground arith
                ])
                (λ a h. elim (ℕ_discrete f a) [
                  | yes q ↦ absurd (cc (ap (blackened s) q, e, h))
                  | no q ↦ counts a q
                ])
                (stack ∙ rw e refl)
          | inr e ↦
              recolored objs G g listed s s' f black m in_G refl e (λ h. absurd (cc h)) color counts
                (stack ∙ rw e refl)
        ];
        now_visited = ap is_visited here;
        now_black = λ h. ap is_black here;
      }

  pub mark_field-FieldMarked :
      (c : Color) (f : ℕ) (s : Marking)
      → is_visited c ≡ true
      → Marks objs G g listed s
      → G f ≡ true
      → FieldMarked c f s (mark_field c f s)
  unfolding mark_field
  mark_field-FieldMarked red f s h m in_G = absurd (cc h)
  mark_field-FieldMarked gray f s h m in_G = absurd (cc h)
  mark_field-FieldMarked black f s h m in_G =
      to_black black s (mark_field black f s) f m in_G
        (λ a. elim (Bool-cases (blackened s f)) [
          | inl e ↦
              rw e (sym (blacken_black s.colors f a e) ∙ color_of-set_color s.colors f a black)
          | inr e ↦ rw e (color_of-set_color s.colors f a black)
        ])
        (λ a ne. set_count_other s.counts f ((s.counts f + 1) % 2 ^ 64) a ne) refl
  mark_field-FieldMarked white f s h m in_G = elim (Bool-cases (s.counts f == 0)) [
    | inl none_left ↦ elim (Bool-cases (is_gray (color_of s.colors f))) [
      | inl e ↦
          let s' : Marking = record s {
            colors = set_color s.colors f white;
            check_objects = f ∷ s.check_objects;
          } in
          let (unseen, not_black) = gray_unvisited (color_of s.colors f) e in
          let kept = m.untouched f not_black in
          let color = λ (a : ℕ). color_of-set_color s.colors f a white in
          let here : color_of s'.colors f ≡ white = color f ∙ ground arith in
          rw (none_left, e)
            (record {
              step =
                  recolored objs G g listed s s' f white m in_G refl not_black
                    (λ w. (unseen, kept, ground (arith, kept))) color (λ a ne. refl) refl;
              now_visited = ap is_visited here;
              now_black = λ b. absurd (cc b);
            })
      | inr e ↦
          rw (none_left, e)
            (record {
              step = MarkStep-refl objs G g listed s m;
              now_visited = third (color_of s.colors f) e (m.colored f in_G);
              now_black = λ b. absurd (cc b);
            })
    ]
    | inr some_left ↦
        let s' : Marking = record s {
          colors = set_color s.colors f black;
          check_objects =
              if is_black (color_of s.colors f) then s.check_objects else f ∷ s.check_objects;
        } in
        rw some_left (
          to_black white s s' f m in_G (λ a. color_of-set_color s.colors f a black) (λ a ne. refl)
            refl)
  ]
