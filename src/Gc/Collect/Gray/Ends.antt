-- ===== src/Gc/Collect/Gray/Ends.antt =====
-- The gray phase of `gc_collect` ends, with the objects that can be reached from the root in gray.
use cat_la_project.Base.{
  ℕ, zero, suc, ◌+◌, ◌≤◌, ◌≡◌, refl, sym, ◌∙◌, ap, subst, Bool, true, false, List, [], ◌∷◌, ◌==◌,
  if◌then◌else◌, arith, Bool-cases, inl, inr, ℕ_discrete,
}
use cat_la_project.Heap.Object.{Memory}
use cat_la_project.Vm.Result.{ok}
use cat_la_project.Gc.Collect.Phases.{
  red, gray, color_of, set_color, set_count, is_gray, Marking, gray_field, for_fields, marking_loop,
  mark_gray, ColorMap,
}
use cat_la_project.Gc.Collect.Gray.{in_gray, is_visited, Grayed, color_of-set_color}
use cat_la_project.Gc.Collect.Gray.Loop.{InRange, for_fields-FieldsGray}
use cat_la_project.Gc.Counts.After.{List-cases}
use cat_la_project.Gc.Ledger.{times, occ_in, refs, size, Ledger, without}
use cat_la_project.Gc.Ledger.Moves.{refs-without, size-without}
use cat_la_project.Gc.Balance.Reach.{field-referenced}

abbrev pub RangeOf : Memory → (b j : ℕ) → Type 0
RangeOf mem b j = InRange (mem b).fields 0 (mem b).field_length j

pub loop_stop :
    (act : ColorMap → ℕ → ℕ → Marking → Marking) (fuel c : ℕ) (mem : Memory) (s : Marking)
    → (for_fields (act s.colors c) (mem c).field_length 0 (mem c).fields s).check_objects ≡ []
    → marking_loop act (suc fuel) c mem s
      ≡ ok (for_fields (act s.colors c) (mem c).field_length 0 (mem c).fields s)
unfolding marking_loop
loop_stop act fuel c mem s e = rw (marking_loop, e) refl

pub loop_next :
    (act : ColorMap → ℕ → ℕ → Marking → Marking) (fuel c next : ℕ) (others : List ℕ) (mem : Memory)
    (s : Marking)
    → (for_fields (act s.colors c) (mem c).field_length 0 (mem c).fields s).check_objects
      ≡ next ∷ others
    → marking_loop act (suc fuel) c mem s
      ≡ marking_loop act fuel next mem
          (record (for_fields (act s.colors c) (mem c).field_length 0 (mem c).fields s) {
            check_objects = others;
          })
unfolding marking_loop
loop_next act fuel c next others mem s e = rw (marking_loop, e) refl

module _ (objs : List ℕ) (held : ℕ → Bool) (mem : Memory) (P : ℕ → Type 0) (owed : ℕ → ℕ)
    (l : Ledger objs held owed mem) where
  -- The fields of the gray objects that were looked at are gray.
  abbrev pub Closed : (ℕ → Bool) → Marking → Type 0
  Closed rest s =
      (b j : ℕ)
      → in_gray s b ≡ true
      → rest b ≡ false
      → RangeOf mem b j
      → in_gray s ((mem b).fields j) ≡ true

  pub record GrayEnd (s s' : Marking) : Type 0 where
    pub rest : ℕ → Bool
    pub grayed : Grayed objs held mem P rest owed s'
    pub empty : s'.check_objects ≡ []
    pub closed : Closed rest s'
    pub stays : (a : ℕ) → in_gray s a ≡ true → in_gray s' a ≡ true

  abbrev push : ℕ → Marking → Marking
  push c s = record s { check_objects = c ∷ s.check_objects }

  -- The object on top of the stack is one that was not looked at.
  Grayed-pop :
      (rest : ℕ → Bool) (c : ℕ) (s : Marking)
      → Grayed objs held mem P rest owed (push c s)
      → (in_gray s c ≡ true)
        × (rest c ≡ true)
        × (held c ≡ true)
        × Grayed objs held mem P (without rest c) (λ a. owed a + occ_in mem c a) s
  Grayed-pop rest c s g =
      let is : in_gray s c ≡ true = ground (arith, g.stacked c) in
      let left : rest c ≡ true = ground (arith, g.stacked c) in
      let has = g.gray_held c is in
      let split = λ (a : ℕ). refs-without objs rest mem c a (l.listed c has) left in
      (
        is,
        left,
        has,
        record {
          known = λ a h. omega (arith, g.known a h, split a);
          unknown = λ a h h'. omega (arith, g.unknown a h h', split a);
          stacked = λ a. elim (ℕ_discrete c a) [
            | yes q ↦
                subst
                  (λ b.
                    times b s.check_objects
                    ≡ (if in_gray s b then (if without rest c b then 1 else 0) else 0))
                  q (ground (arith, g.stacked c))
            | no q ↦ ground (arith, g.stacked a)
          ];
          fresh = λ a h. elim (ℕ_discrete c a) [
            | yes q ↦ absurd (cc (ap (in_gray s) q, h, is))
            | no q ↦ ground (arith, g.fresh a h)
          ];
          gray_held = g.gray_held;
          reached = g.reached;
          unmarked = g.unmarked;
        },
      )

  -- One round of the loop.
  record Visited (rest : ℕ → Bool) (c : ℕ) (s s' : Marking) : Type 0 where
    grayed : Grayed objs held mem P (without rest c) owed s'
    closed : Closed (without rest c) s'
    stays : (a : ℕ) → in_gray s a ≡ true → in_gray s' a ≡ true
    smaller : size objs rest ≡ suc (size objs (without rest c))

  module _
      (P_closed : (b j : ℕ) → held b ≡ true → P b → RangeOf mem b j → P ((mem b).fields j)) where
    round-Visited :
        (rest : ℕ → Bool) (c : ℕ) (s : Marking)
        → Grayed objs held mem P rest owed (push c s)
        → Closed rest s
        → Visited rest c s (for_fields (gray_field mem) (mem c).field_length 0 (mem c).fields s)
    round-Visited rest c s g closed =
        let (is, left, has, popped) = Grayed-pop rest c s g in
        let s' = for_fields (gray_field mem) (mem c).field_length 0 (mem c).fields s in
        let all =
          for_fields-FieldsGray objs held mem P owed l (mem c).field_length 0 (without rest c)
            (mem c).fields s
            (λ j (from, to, ne).
              field-referenced objs held owed mem c j l has (omega (arith, to)) ne)
            (λ j range. P_closed c j has (g.reached c is) range) popped in
        record {
          grayed = all.grayed;
          closed = λ b j is_gray_b out range. elim (ℕ_discrete c b) [
            | yes q ↦
                subst (λ k. RangeOf mem k j → in_gray s' ((mem k).fields j) ≡ true) q
                  (all.covered j) range
            | no q ↦ elim (Bool-cases (in_gray s b)) [
              | inl was ↦ all.stays ((mem b).fields j) (closed b j was (ground arith) range)
              | inr was_not ↦
                  let held_b : held b ≡ true = all.grayed.gray_held b is_gray_b in
                  let rest_b = g.fresh b was_not in absurd (ground arith)
            ]
          ];
          stays = all.stays;
          smaller = size-without objs rest c (l.listed c has) left;
        }

    abbrev act : ColorMap → ℕ → ℕ → Marking → Marking
    act colors current object s = gray_field mem object s

    gray_loop-GrayEnd :
        (fuel c : ℕ) (rest : ℕ → Bool) (s : Marking)
        → size objs rest ≤ fuel
        → Grayed objs held mem P rest owed (push c s)
        → Closed rest s
        → (s' : Marking) × (marking_loop act fuel c mem s ≡ ok s') × GrayEnd s s'
    gray_loop-GrayEnd zero c rest s le g closed =
        let (is, left, has, popped) = Grayed-pop rest c s g in
        absurd (omega (arith, size-without objs rest c (l.listed c has) left))
    gray_loop-GrayEnd (suc fuel) c rest s le g closed =
        let v = round-Visited rest c s g closed in
        let s1 = for_fields (gray_field mem) (mem c).field_length 0 (mem c).fields s in
        elim (List-cases s1.check_objects) [
          | inl empty ↦ (
            s1,
            loop_stop act fuel c mem s empty,
            record {
              rest = without rest c;
              grayed = v.grayed;
              empty = empty;
              closed = v.closed;
              stays = v.stays;
            },
          )
          | inr (next, others, top) ↦
              let s2 : Marking = record s1 { check_objects = others } in
              let g2 : Grayed objs held mem P (without rest c) owed (push next s2) = record {
                known = v.grayed.known;
                unknown = v.grayed.unknown;
                stacked = λ a. ap (times a) (sym top) ∙ v.grayed.stacked a;
                fresh = v.grayed.fresh;
                gray_held = v.grayed.gray_held;
                reached = v.grayed.reached;
                unmarked = v.grayed.unmarked;
              } in
              let (s', e, end) =
                gray_loop-GrayEnd fuel next (without rest c) s2 (omega (arith, v.smaller)) g2
                  v.closed in
              (
                s',
                loop_next act fuel c next others mem s top ∙ e,
                record {
                  rest = end.rest;
                  grayed = end.grayed;
                  empty = end.empty;
                  closed = end.closed;
                  stays = λ a h. end.stays a (v.stays a h);
                },
              )
        ]

    abbrev start : ℕ → ColorMap → Marking
    start root colors = record {
      colors = set_color colors root gray;
      counts = set_count (λ _. 0) root (mem root).count;
      check_objects = [];
    }

    start-in_gray :
        (root a : ℕ) (colors : ColorMap)
        → is_gray (color_of colors a) ≡ false
        → in_gray (start root colors) a ≡ (root == a)
    start-in_gray root a colors h =
        ap is_gray (color_of-set_color colors root a gray) ∙ ground (arith)

    start-counts :
        (root : ℕ) (colors : ColorMap) → (start root colors).counts root ≡ (mem root).count
    unfolding set_count
    start-counts root colors = ground arith

    start-Grayed :
        (root : ℕ) (s : Marking)
        → held root ≡ true
        → P root
        → ((a : ℕ) → in_gray s a ≡ (root == a))
        → ((a : ℕ) → is_visited (color_of s.colors a) ≡ false)
        → s.counts root ≡ (mem root).count
        → s.check_objects ≡ []
        → Grayed objs held mem P held owed (push root s)
    start-Grayed root s has p now unmarked count empty =
        let is_root : (a : ℕ) → in_gray s a ≡ true → root ≡ a = λ a h. ground (arith, now a) in
        record {
          known = λ a h.
              subst (λ b. owed b + refs objs held mem b ≤ s.counts b) (is_root a h)
                (omega (arith, l.counted root has, count));
          unknown = λ a h h'. sym (l.counted a h);
          stacked = λ a. elim (ℕ_discrete root a) [
            | yes q ↦
                subst
                  (λ b.
                    (if root == b then 1 else 0) + times b s.check_objects
                    ≡ (if in_gray s b then (if held b then 1 else 0) else 0))
                  q (ground (arith, now root, ap (times root) empty))
            | no q ↦ ground (arith, now a, ap (times a) empty)
          ];
          fresh = λ a h. refl;
          gray_held = λ a h. subst (λ b. held b ≡ true) (is_root a h) has;
          reached = λ a h. subst P (is_root a h) p;
          unmarked = unmarked;
        }

    -- Every colour is red before, as after the lock phase.
    pub mark_gray-GrayEnd :
        (fuel root : ℕ) (colors : ColorMap)
        → size objs held ≤ fuel
        → held root ≡ true
        → P root
        → ((a : ℕ) → color_of colors a ≡ red)
        → (s s' : Marking) × (mark_gray fuel root mem colors ≡ ok s')
          × GrayEnd s s'
          × (in_gray s' root ≡ true)
    unfolding mark_gray
    mark_gray-GrayEnd fuel root colors le has p all_red =
        let s = start root colors in
        let now : (a : ℕ) → in_gray s a ≡ (root == a) =
          λ a. start-in_gray root a colors (ap is_gray (all_red a)) in
        let unmarked : (a : ℕ) → is_visited (color_of s.colors a) ≡ false = λ a.
          ap is_visited (
            color_of-set_color colors root a gray
            ∙ ap (λ c. if root == a then gray else c) (all_red a))
          ∙ ground arith in
        let g = start-Grayed root s has p now unmarked (start-counts root colors) refl in
        let (s', e, end) = gray_loop-GrayEnd fuel root held s le g (λ b j h out range.
          let is_root : root ≡ b = ground (arith, now b) in cc (ap held is_root, has, out)) in
        (s, s', e, end, end.stays root (now root ∙ ground arith))
