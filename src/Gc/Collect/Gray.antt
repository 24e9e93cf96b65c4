-- ===== src/Gc/Collect/Gray.antt =====
-- The gray phase of `gc_collect` visits what can be reached from the root once, and leaves in the counts
-- at least the references that come from elsewhere.
pub mod Loop
pub mod Ends
use cat_la_project.Base.{
  ℕ, zero, suc, ◌+◌, ◌-◌, ◌%◌, ◌^◌, ◌≤◌, ◌<◌, ◌≡◌, ◌≢◌, refl, sym, ◌∙◌, ap, subst, Bool, true,
  false, Option, none, some, List, [], ◌∷◌, ◌==◌, if◌then◌else◌, arith, Bool-cases, inl, inr, ◌⊎◌,
  ℕ_discrete,
}
use cat_la_project.Heap.Object.{Memory, HeapObject}
use cat_la_project.Vm.Result.{Result, ok, waiting}
use cat_la_project.Gc.Collect.Phases.{
  Color, red, gray, white, black, color_of, set_color, set_count, is_gray, Marking, gray_field,
  for_fields, marking_loop, mark_gray, ColorMap,
}
use cat_la_project.Gc.Counts.After.{List-cases}
use cat_la_project.Gc.Ledger.{times, occ, occ_in, refs, size, Ledger, without, plus}
use cat_la_project.Gc.Ledger.Moves.{refs-without, size-without}

set_color_lem :
    (colors : ColorMap) (a b : ℕ) (c : Color)
    → set_color colors a c b ≡ (if a == b then some c else colors b)
unfolding set_color
set_color_lem colors a b c = refl

pub color_of-set_color :
    (colors : ColorMap) (a b : ℕ) (c : Color)
    → color_of (set_color colors a c) b ≡ (if a == b then c else color_of colors b)
color_of-set_color colors a b c =
    let read = λ (o : Option Color). elim o as (λ _. Color) [ none ↦ red | some d ↦ d ] in
    elim (Bool-cases (a == b)) [
      | inl e ↦
          let set : set_color colors a c b ≡ some c = set_color_lem colors a b c ∙ rw e refl in
          ap read set ∙ sym (rw e refl)
      | inr e ↦
          let set : set_color colors a c b ≡ colors b = set_color_lem colors a b c ∙ rw e refl in
          ap read set ∙ sym (rw e refl)
    ]

abbrev pub is_visited : Color → Bool
is_visited white = true
is_visited black = true
is_visited red = false
is_visited gray = false

abbrev pub in_gray : Marking → ℕ → Bool
in_gray s a = is_gray (color_of s.colors a)

module _ (objs : List ℕ) (held : ℕ → Bool) (mem : Memory) (P : ℕ → Type 0) where
  -- `rest` are the objects whose fields were not looked at; the gray ones among them are on the stack.
  pub record Grayed (rest : ℕ → Bool) (owed : ℕ → ℕ) (s : Marking) : Type 0 where
    pub known : (a : ℕ) → in_gray s a ≡ true → owed a + refs objs rest mem a ≤ s.counts a
    pub unknown :
        (a : ℕ)
        → held a ≡ true
        → in_gray s a ≡ false
        → owed a + refs objs rest mem a ≡ (mem a).count
    pub stacked :
        (a : ℕ) → times a s.check_objects ≡ (if in_gray s a then (if rest a then 1 else 0) else 0)
    pub fresh : (a : ℕ) → in_gray s a ≡ false → rest a ≡ held a
    pub gray_held : (a : ℕ) → in_gray s a ≡ true → held a ≡ true
    pub reached : (a : ℕ) → in_gray s a ≡ true → P a
    pub unmarked : (a : ℕ) → is_visited (color_of s.colors a) ≡ false

  pub Grayed-eq :
      (rest : ℕ → Bool) (owed owed' : ℕ → ℕ) (s : Marking)
      → held 0 ≡ false
      → ((a : ℕ) → a ≢ 0 → owed' a ≡ owed a)
      → Grayed rest owed s
      → Grayed rest owed' s
  Grayed-eq rest owed owed' s null same g =
      let ne : (a : ℕ) → held a ≡ true → a ≢ 0 = λ a has e. cc (null, has, ap held e) in
      record {
        known = λ a h. omega (arith, g.known a h, same a (ne a (g.gray_held a h)));
        unknown = λ a has h. omega (arith, g.unknown a has h, same a (ne a has));
        stacked = g.stacked;
        fresh = g.fresh;
        gray_held = g.gray_held;
        reached = g.reached;
        unmarked = g.unmarked;
      }

  pub gray_field-in_gray :
      (f a : ℕ) (s : Marking)
      → in_gray (gray_field mem f s) a ≡ (if f == a then true else in_gray s a)
  unfolding gray_field set_color
  gray_field-in_gray f a s = ground arith

  gray_field-unmarked :
      (f a : ℕ) (s : Marking)
      → ((b : ℕ) → is_visited (color_of s.colors b) ≡ false)
      → is_visited (color_of (gray_field mem f s).colors a) ≡ false
  unfolding gray_field
  gray_field-unmarked f a s h = elim (Bool-cases (in_gray s f)) [
    | inl e ↦ rw e (h a)
    | inr e ↦ rw e (ap is_visited (color_of-set_color s.colors f a gray) ∙ ground (arith, h a))
  ]

  gray_field-counts :
      (f a : ℕ) (s : Marking)
      → in_gray s f ≡ false
      → 0 < (mem f).count
      → (mem f).count < 2 ^ 64
      → (gray_field mem f s).counts a ≡ (if f == a then (mem f).count - 1 else s.counts a)
  unfolding gray_field set_count
  gray_field-counts f a s e pos small = rw e (ground arith)

  gray_field-stack :
      (f : ℕ) (s : Marking)
      → in_gray s f ≡ false
      → (gray_field mem f s).check_objects ≡ f ∷ s.check_objects
  unfolding gray_field
  gray_field-stack f s e = rw e refl

  -- The object becomes gray: it goes on the stack, and its count is that of the memory less one.
  Grayed-new :
      (rest : ℕ → Bool) (owed : ℕ → ℕ) (f : ℕ) (s s' : Marking)
      → held f ≡ true
      → P f
      → in_gray s f ≡ false
      → ((a : ℕ) → in_gray s' a ≡ (if f == a then true else in_gray s a))
      → ((a : ℕ) → is_visited (color_of s'.colors a) ≡ false)
      → ((a : ℕ) → s'.counts a ≡ (if f == a then (mem f).count - 1 else s.counts a))
      → ((a : ℕ) → times a s'.check_objects ≡ (if f == a then 1 else 0) + times a s.check_objects)
      → Grayed rest (plus owed f) s
      → Grayed rest owed s'
  Grayed-new rest owed f s s' has p e now unmarked counts stack g =
      let other : (a : ℕ) → f ≢ a → in_gray s' a ≡ in_gray s a = λ a ne. now a ∙ ground arith in
      let one : rest f ≡ true = g.fresh f e ∙ has in
      record {
        known = λ a h. elim (ℕ_discrete f a) [
          | yes q ↦
              subst (λ b. owed b + refs objs rest mem b ≤ s'.counts b) q
                (ground (arith, g.unknown f has e, counts f))
          | no q ↦ ground (arith, g.known a (sym (other a q) ∙ h), counts a)
        ];
        unknown = λ a h h'. elim (ℕ_discrete f a) [
          | yes q ↦ absurd (ground (arith, now a))
          | no q ↦ ground (arith, g.unknown a h (sym (other a q) ∙ h'))
        ];
        stacked = λ a. elim (ℕ_discrete f a) [
          | yes q ↦
              subst
                (λ b.
                  times b s'.check_objects
                  ≡ (if in_gray s' b then (if rest b then 1 else 0) else 0))
                q (ground (arith, stack f, now f, g.stacked f))
          | no q ↦ ground (arith, stack a, other a q, g.stacked a)
        ];
        fresh = λ a h. elim (ℕ_discrete f a) [
          | yes q ↦ absurd (ground (arith, now a))
          | no q ↦ g.fresh a (sym (other a q) ∙ h)
        ];
        gray_held = λ a h. elim (ℕ_discrete f a) [
          | yes q ↦ subst (λ b. held b ≡ true) q has
          | no q ↦ g.gray_held a (sym (other a q) ∙ h)
        ];
        reached = λ a h. elim (ℕ_discrete f a) [
          | yes q ↦ subst P q p
          | no q ↦ g.reached a (sym (other a q) ∙ h)
        ];
        unmarked = unmarked;
      }

  -- One field that is not null.
  pub gray_field-Grayed :
      (rest : ℕ → Bool) (owed : ℕ → ℕ) (f : ℕ) (s : Marking)
      → held f ≡ true
      → P f
      → (mem f).count < 2 ^ 64
      → Grayed rest (plus owed f) s
      → Grayed rest owed (gray_field mem f s)
  unfolding gray_field set_color set_count
  gray_field-Grayed rest owed f s has p small g =
      let now = λ (a : ℕ). gray_field-in_gray f a s in
      elim (Bool-cases (in_gray s f)) [
        | inl e ↦ rw e (record {
          known = λ a h. ground (arith, g.known a);
          unknown = λ a h h'. ground (arith, g.unknown a);
          stacked = λ a. g.stacked a;
          fresh = λ a h. g.fresh a h;
          gray_held = λ a h. g.gray_held a h;
          reached = λ a h. g.reached a h;
          unmarked = g.unmarked;
        })
        | inr e ↦
            let pos : 0 < (mem f).count = ground (arith, g.unknown f has e) in
            Grayed-new rest owed f s (gray_field mem f s) has p e now
              (λ a. gray_field-unmarked f a s g.unmarked) (λ a. gray_field-counts f a s e pos small)
              (λ a. ap (times a) (gray_field-stack f s e)) g
      ]
