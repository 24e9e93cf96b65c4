-- ===== src/Gc/Collect/Mark.antt =====
-- A step of the white or black phase of `gc_collect`: what is marked stays marked, and what gets a new
-- mark goes on the stack.
pub mod Loop
pub mod Step
use cat_la_project.Base.{
  ℕ, zero, suc, ◌+◌, ◌-◌, ◌%◌, ◌^◌, ◌≤◌, ◌<◌, ◌≡◌, ◌≢◌, refl, sym, ◌∙◌, ap, subst, Bool, true,
  false, Option, none, some, List, [], ◌∷◌, ◌==◌, if◌then◌else◌, arith, Bool-cases, inl, inr, ◌⊎◌,
  ℕ_discrete, length,
}
use cat_la_project.Gc.Collect.Phases.{
  Color, red, gray, white, black, color_of, set_color, set_count, is_gray, is_white, is_black,
  Marking, mark_field, ColorMap,
}
use cat_la_project.Gc.Collect.Gray.{color_of-set_color, is_visited}
use cat_la_project.Gc.Ledger.{times, size, without}
use cat_la_project.Gc.Ledger.Moves.{size-without}

abbrev pub is_red : Color → Bool
is_red red = true
is_red gray = false
is_red white = false
is_red black = false

abbrev pub visited : Marking → ℕ → Bool
visited s a = is_visited (color_of s.colors a)

abbrev pub blackened : Marking → ℕ → Bool
blackened s a = is_black (color_of s.colors a)

module _ (objs : List ℕ) (G : ℕ → Bool) (g : ℕ → ℕ)
    (listed : (a : ℕ) → G a ≡ true → times a objs ≡ 1) where
  -- `G` is what the gray phase found, and `g` are the counts that it left.
  pub record Marks (s : Marking) : Type 0 where
    pub colored : (a : ℕ) → G a ≡ true → is_red (color_of s.colors a) ≡ false
    pub within : (a : ℕ) → visited s a ≡ true → G a ≡ true
    pub untouched : (a : ℕ) → blackened s a ≡ false → s.counts a ≡ g a
    pub white_zero : (a : ℕ) → is_white (color_of s.colors a) ≡ true → g a ≡ 0

  abbrev pub unvisited : Marking → ℕ → Bool
  unvisited s a = if visited s a then false else G a

  abbrev pub unblackened : Marking → ℕ → Bool
  unblackened s a = if blackened s a then false else G a

  -- The rounds that are left at most.
  abbrev pub potential : Marking → ℕ
  potential s = length s.check_objects + size objs (unvisited s) + size objs (unblackened s)

  pub record MarkStep (s s' : Marking) : Type 0 where
    pub marks : Marks s'
    pub stays_visited : (a : ℕ) → visited s a ≡ true → visited s' a ≡ true
    pub stays_black : (a : ℕ) → blackened s a ≡ true → blackened s' a ≡ true
    pub stays_stacked : (a : ℕ) → 0 < times a s.check_objects → 0 < times a s'.check_objects
    pub new_visited :
        (a : ℕ) → visited s' a ≡ true → visited s a ≡ false → 0 < times a s'.check_objects
    pub new_black :
        (a : ℕ) → blackened s' a ≡ true → blackened s a ≡ false → 0 < times a s'.check_objects
    pub only_visited :
        (a : ℕ)
        → 0 < times a s'.check_objects
        → (0 < times a s.check_objects) ⊎ (visited s' a ≡ true)
    pub bounded : potential s' ≤ potential s

  pub MarkStep-refl : (s : Marking) → Marks s → MarkStep s s
  MarkStep-refl s m = record {
    marks = m;
    stays_visited = λ a h. h;
    stays_black = λ a h. h;
    stays_stacked = λ a h. h;
    new_visited = λ a h h'. cc (h, h');
    new_black = λ a h h'. cc (h, h');
    only_visited = λ a h. inl h;
    bounded = omega arith;
  }

  pub MarkStep-trans : (s1 s2 s3 : Marking) → MarkStep s1 s2 → MarkStep s2 s3 → MarkStep s1 s3
  MarkStep-trans s1 s2 s3 p q = record {
    marks = q.marks;
    stays_visited = λ a h. q.stays_visited a (p.stays_visited a h);
    stays_black = λ a h. q.stays_black a (p.stays_black a h);
    stays_stacked = λ a h. q.stays_stacked a (p.stays_stacked a h);
    new_visited = λ a h h'. elim (Bool-cases (visited s2 a)) [
      | inl now ↦ q.stays_stacked a (p.new_visited a now h')
      | inr later ↦ q.new_visited a h later
    ];
    new_black = λ a h h'. elim (Bool-cases (blackened s2 a)) [
      | inl now ↦ q.stays_stacked a (p.new_black a now h')
      | inr later ↦ q.new_black a h later
    ];
    only_visited = λ a h. elim (q.only_visited a h) [
      | inl before ↦ elim (p.only_visited a before) [
        | inl first ↦ inl first
        | inr v ↦ inr (q.stays_visited a v)
      ]
      | inr v ↦ inr v
    ];
    bounded = omega (arith, p.bounded, q.bounded);
  }

  -- Of the functions that say what is left, one object is taken out.
  size-take :
      (h h' : ℕ → Bool) (f : ℕ)
      → ((a : ℕ) → h' a ≡ without h f a)
      → G f ≡ true
      → h f ≡ true
      → size objs h ≡ suc (size objs h')
  size-take h h' f same in_G has =
      size-without objs h f (listed f in_G) has
      ∙ ap (λ (k : ℕ → Bool). suc (size objs k)) (λ i a. sym (same a) i)

  pub size-same : (h h' : ℕ → Bool) → ((a : ℕ) → h' a ≡ h a) → size objs h' ≡ size objs h
  size-same h h' same = ap (size objs) (λ i a. same a i)

  white-or : (c : Color) → is_visited c ≡ true → is_black c ≡ false → is_white c ≡ true
  white-or red h h' = cc h
  white-or gray h h' = cc h
  white-or white h h' = refl
  white-or black h h' = cc h'

  not_both : (c : Color) → is_white c ≡ true → is_black c ≡ false
  not_both red h = refl
  not_both gray h = refl
  not_both white h = refl
  not_both black h = cc h

  -- What goes on the stack is no longer left.
  recolored-potential :
      (s s' : Marking) (f : ℕ) (c : Color)
      → G f ≡ true
      → is_visited c ≡ true
      → blackened s f ≡ false
      → (is_white c ≡ true → visited s f ≡ false)
      → ((a : ℕ) → color_of s'.colors a ≡ (if f == a then c else color_of s.colors a))
      → length s'.check_objects ≡ suc (length s.check_objects)
      → potential s' ≤ potential s
  recolored-potential s s' f c in_G vc not_black if_white color longer =
      let here : color_of s'.colors f ≡ c = color f ∙ ground arith in
      let other : (a : ℕ) → f ≢ a → color_of s'.colors a ≡ color_of s.colors a =
        λ a ne. color a ∙ ground arith in
      let fewer : visited s f ≡ false → size objs (unvisited s) ≡ suc (size objs (unvisited s')) =
        λ e.
          size-take (unvisited s) (unvisited s') f
            (λ a. elim (ℕ_discrete f a) [
              | yes q ↦
                  subst (λ b. unvisited s' b ≡ without (unvisited s) f b) q
                    (ground (arith, ap is_visited here))
              | no q ↦ ground (arith, ap is_visited (other a q))
            ])
            in_G (ground arith) in
      elim (Bool-cases (is_white c)) [
        | inl w ↦
            let same = size-same (unblackened s) (unblackened s') (λ a. elim (ℕ_discrete f a) [
              | yes q ↦
                  subst (λ b. unblackened s' b ≡ unblackened s b) q
                    (ground (arith, ap is_black here, not_both c w))
              | no q ↦ ground (arith, ap is_black (other a q))
            ]) in
            omega (arith, same, fewer (if_white w))
        | inr nw ↦
            let black_c : is_black c ≡ true = elim (Bool-cases (is_black c)) [
              | inl e ↦ e
              | inr e ↦ cc (white-or c vc e, nw)
            ] in
            let fewer_black =
              size-take (unblackened s) (unblackened s') f
                (λ a. elim (ℕ_discrete f a) [
                  | yes q ↦
                      subst (λ b. unblackened s' b ≡ without (unblackened s) f b) q
                        (ground (arith, ap is_black here))
                  | no q ↦ ground (arith, ap is_black (other a q))
                ])
                in_G (ground arith) in
            elim (Bool-cases (visited s f)) [
              | inl old ↦
                  let same = size-same (unvisited s) (unvisited s') (λ a. elim (ℕ_discrete f a) [
                    | yes q ↦
                        subst (λ b. unvisited s' b ≡ unvisited s b) q
                          (ground (arith, ap is_visited here))
                    | no q ↦ ground (arith, ap is_visited (other a q))
                  ]) in
                  omega (arith, same, fewer_black)
              | inr new ↦ omega (arith, fewer new, fewer_black)
            ]
      ]

  -- `f` gets the colour `c`, and goes on the stack.
  pub recolored :
      (s s' : Marking) (f : ℕ) (c : Color)
      → Marks s
      → G f ≡ true
      → is_visited c ≡ true
      → blackened s f ≡ false
      → (is_white c ≡ true → (visited s f ≡ false) × (s'.counts f ≡ g f) × (g f ≡ 0))
      → ((a : ℕ) → color_of s'.colors a ≡ (if f == a then c else color_of s.colors a))
      → ((a : ℕ) → f ≢ a → s'.counts a ≡ s.counts a)
      → s'.check_objects ≡ f ∷ s.check_objects
      → MarkStep s s'
  recolored s s' f c m in_G vc not_black if_white color counts stack =
      let here : color_of s'.colors f ≡ c = color f ∙ ground arith in
      let other : (a : ℕ) → f ≢ a → color_of s'.colors a ≡ color_of s.colors a =
        λ a ne. color a ∙ ground arith in
      let visited_f : visited s' f ≡ true = ap is_visited here ∙ vc in
      let top = λ (a : ℕ). ap (times a) stack in
      let not_red : is_red c ≡ false =
        elim c as (λ k. is_visited k ≡ true → is_red k ≡ false) [
          | red ↦ λ h. cc h
          | gray ↦ λ h. refl
          | white ↦ λ h. refl
          | black ↦ λ h. refl
        ]
          vc in
      record {
        marks = record {
          colored = λ a h. elim (ℕ_discrete f a) [
            | yes q ↦ ap is_red (ap (color_of s'.colors) (sym q) ∙ here) ∙ not_red
            | no q ↦ ap is_red (other a q) ∙ m.colored a h
          ];
          within = λ a h. elim (ℕ_discrete f a) [
            | yes q ↦ ap G (sym q) ∙ in_G
            | no q ↦ m.within a (sym (ap is_visited (other a q)) ∙ h)
          ];
          untouched = λ a h. elim (ℕ_discrete f a) [
            | yes q ↦
                let not_black_c : is_black c ≡ false =
                  sym (ap is_black here) ∙ ap (blackened s') q ∙ h in
                ap s'.counts (sym q) ∙ (if_white (white-or c vc not_black_c)).1 ∙ ap g q
            | no q ↦ counts a q ∙ m.untouched a (sym (ap is_black (other a q)) ∙ h)
          ];
          white_zero = λ a h. elim (ℕ_discrete f a) [
            | yes q ↦
                let white_c : is_white c ≡ true =
                  sym (ap is_white here) ∙ ap (λ b. is_white (color_of s'.colors b)) q ∙ h in
                ap g (sym q) ∙ (if_white white_c).2
            | no q ↦ m.white_zero a (sym (ap is_white (other a q)) ∙ h)
          ];
        };
        stays_visited = λ a h. elim (ℕ_discrete f a) [
          | yes q ↦ subst (λ b. visited s' b ≡ true) q visited_f
          | no q ↦ ap is_visited (other a q) ∙ h
        ];
        stays_black = λ a h. elim (ℕ_discrete f a) [
          | yes q ↦ absurd (cc (not_black, ap (blackened s) q, h))
          | no q ↦ ap is_black (other a q) ∙ h
        ];
        stays_stacked = λ a h. omega (arith, top a);
        new_visited = λ a h h'. elim (ℕ_discrete f a) [
          | yes q ↦ ground (arith, top a)
          | no q ↦ absurd (cc (ap is_visited (other a q), h, h'))
        ];
        new_black = λ a h h'. elim (ℕ_discrete f a) [
          | yes q ↦ ground (arith, top a)
          | no q ↦ absurd (cc (ap is_black (other a q), h, h'))
        ];
        only_visited = λ a h. elim (ℕ_discrete f a) [
          | yes q ↦ inr (subst (λ b. visited s' b ≡ true) q visited_f)
          | no q ↦ inl (ground (arith, top a))
        ];
        bounded =
            recolored-potential s s' f c in_G vc not_black (λ w. (if_white w).0) color
              (ap length stack);
      }
