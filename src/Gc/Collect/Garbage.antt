-- ===== src/Gc/Collect/Garbage.antt =====
-- What `gc_collect` of gc/GC.cpp finds white from a root is garbage.
use cat_la_project.Base.{
  ℕ, ◌*◌, ◌≤◌, ◌<◌, ◌≡◌, refl, sym, ◌∙◌, ap, subst, Bool, true, false, List, [], ◌∷◌, ◌==◌,
  if◌then◌else◌, arith, Bool-cases, inl, inr, ◌⊎◌,
}
use cat_la_project.Heap.Object.{Memory}
use cat_la_project.Vm.Result.{ok}
use cat_la_project.Gc.Collect.Phases.{
  Color, red, gray, white, black, color_of, set_color, is_gray, is_white, is_black, Marking,
  mark_gray, mark_white_or_black, ColorMap,
}
use cat_la_project.Gc.Collect.Gray.{color_of-set_color, is_visited, in_gray}
use cat_la_project.Gc.Collect.Gray.Ends.{RangeOf, GrayEnd, mark_gray-GrayEnd}
use cat_la_project.Gc.Collect.Mark.{is_red, visited, blackened, unvisited, unblackened}
use cat_la_project.Gc.Collect.Mark.Loop.{Between, MarkEnd, mark_loop-MarkEnd}
use cat_la_project.Gc.Ledger.{times, occ_in, size, Ledger}
use cat_la_project.Gc.Ledger.Moves.{refs-without}
use cat_la_project.Gc.Balance.Reach.{occ-field}

-- What can be reached from the root.
data FromRoot (mem : Memory) (root : ℕ) : ℕ → Type 0 where
  here : FromRoot mem root root
  there : (b j : ℕ) → FromRoot mem root b → RangeOf mem b j → FromRoot mem root ((mem b).fields j)

-- Nothing outside the heap refers to a white object, and no object in use but white ones does.
abbrev pub WhiteIsGarbage : (held : ℕ → Bool) (owed : ℕ → ℕ) → Memory → Marking → Type 0
WhiteIsGarbage held owed mem s =
    (a : ℕ)
    → is_white (color_of s.colors a) ≡ true
    → (owed a ≡ 0)
      × ((b j : ℕ)
          → held b ≡ true
          → RangeOf mem b j
          → (mem b).fields j ≡ a
          → is_white (color_of s.colors b) ≡ true)

gray_lem : (c : Color) → is_gray c ≡ true → is_red c ≡ false
gray_lem red h = cc h
gray_lem gray h = refl
gray_lem white h = refl
gray_lem black h = refl

visited_black : (c : Color) → is_visited c ≡ true → (is_white c ≡ true) ⊎ (is_black c ≡ true)
visited_black red h = cc h
visited_black gray h = cc h
visited_black white h = inl refl
visited_black black h = inr refl

white_visited : (c : Color) → is_white c ≡ true → (is_black c ≡ false) × (is_visited c ≡ true)
white_visited red h = cc h
white_visited gray h = cc h
white_visited white h = (refl, refl)
white_visited black h = cc h

in_else : (b c : Bool) → (if b then false else c) ≡ true → c ≡ true
in_else true c h = cc h
in_else false c h = h

size_mono :
    (objs : List ℕ) (h h' : ℕ → Bool)
    → ((a : ℕ) → h a ≡ true → h' a ≡ true)
    → size objs h ≤ size objs h'
unfolding size
size_mono [] h h' imp = omega arith
size_mono (o ∷ os) h h' imp = ground (arith, size_mono os h h' imp, imp o)

module _ (objs : List ℕ) (held : ℕ → Bool) (mem : Memory) (owed : ℕ → ℕ)
    (l : Ledger objs held owed mem) where
  module _ (root : ℕ) (s : Marking) (gs : Marking)
      (end : GrayEnd objs held mem (FromRoot mem root) owed l gs s)
      (root_gray : in_gray s root ≡ true) where
    G : ℕ → Bool
    G a = in_gray s a

    listed : (a : ℕ) → G a ≡ true → times a objs ≡ 1
    unfolding G
    listed a h = l.listed a (end.grayed.gray_held a h)

    -- Everything gray was looked at.
    gray_rest : (a : ℕ) → in_gray s a ≡ true → end.rest a ≡ false
    gray_rest a h = ground (arith, end.grayed.stacked a, ap (times a) end.empty)

    G_closed : (b j : ℕ) → G b ≡ true → RangeOf mem b j → G ((mem b).fields j) ≡ true
    unfolding G
    G_closed b j h range = end.closed b j h (gray_rest b h) range

    abbrev first_color : Color
    first_color = if s.counts root == 0 then white else black

    abbrev first : Marking
    first = record {
      colors = set_color s.colors root first_color;
      counts = s.counts;
      check_objects = [];
    }

    first-visited : (a : ℕ) → visited first a ≡ (root == a)
    first-visited a =
        ap is_visited (color_of-set_color s.colors root a first_color)
        ∙ ground (arith, end.grayed.unmarked a)

    first-Between : Between objs G s.counts listed mem (record first { check_objects = root ∷ [] })
    unfolding G
    first-Between =
        let color = λ (a : ℕ). color_of-set_color s.colors root a first_color in
        let is_root : (a : ℕ) → visited first a ≡ true → root ≡ a =
          λ a h. ground (arith, first-visited a) in
        record {
          marks = record {
            colored = λ a h. ap is_red (color a) ∙ ground (arith, gray_lem (color_of s.colors a) h);
            within = λ a h. subst (λ b. in_gray s b ≡ true) (is_root a h) root_gray;
            untouched = λ a h. refl;
            white_zero = λ a h.
                let q = is_root a (white_visited (color_of first.colors a) h).1 in
                subst (λ b. is_white (color_of first.colors b) ≡ true → s.counts b ≡ 0) q
                  (λ w. ground (arith, sym (ap is_white (color root)) ∙ w)) h;
          };
          todo = λ a h. inl (ground (arith, is_root a h));
          stack_visited = λ a h. first-visited a ∙ ground arith;
        }

    -- The phase ends.
    marked :
        (fuel : ℕ)
        → 2 * size objs held < fuel
        → (s' : Marking) × (mark_white_or_black fuel root mem s ≡ ok s')
          × MarkEnd objs G s.counts listed mem G_closed s'
          × (visited s' root ≡ true)
    unfolding mark_white_or_black G
    marked fuel le =
        let a_visited =
          size_mono objs (unvisited objs G s.counts listed first) held
            (λ a h. end.grayed.gray_held a (in_else (visited first a) (G a) h)) in
        let a_black =
          size_mono objs (unblackened objs G s.counts listed first) held
            (λ a h. end.grayed.gray_held a (in_else (blackened first a) (G a) h)) in
        let (s', e, m, stays) =
          mark_loop-MarkEnd objs G s.counts listed mem G_closed fuel root first
            (omega (arith, a_visited, a_black)) first-Between in
        (s', e, m, stays root (first-visited root ∙ ground arith))

    all_visited :
        (s' : Marking) (m : MarkEnd objs G s.counts listed mem G_closed s')
        → visited s' root ≡ true
        → (a : ℕ) → FromRoot mem root a
        → visited s' a ≡ true
    all_visited s' m r a here = r
    all_visited s' m r a (there b j f range) =
        (m.done b (all_visited s' m r b f)).fields_visited j range

    white-garbage :
        (s' : Marking) (m : MarkEnd objs G s.counts listed mem G_closed s')
        → visited s' root ≡ true
        → WhiteIsGarbage held owed mem s'
    unfolding G
    white-garbage s' m r a w =
        let v : visited s' a ≡ true = (white_visited (color_of s'.colors a) w).1 in
        let in_G : in_gray s a ≡ true = m.marks.within a v in
        let zero_count = m.marks.white_zero a w in
        let few = end.grayed.known a in_G in
        (
          omega arith,
          λ b j has range e. elim (Bool-cases (end.rest b)) [
            | inl outside ↦
                let split = refs-without objs end.rest mem b a (l.listed b has) outside in
                let holds =
                  subst (λ c. 0 < occ_in mem b c) e
                    (occ-field objs (mem b).fields 0 (mem b).field_length j range.0 range.1) in
                absurd (omega arith)
            | inr inside ↦
                let in_G_b : in_gray s b ≡ true = elim (Bool-cases (in_gray s b)) [
                  | inl yes_gray ↦ yes_gray
                  | inr not_gray ↦ cc (end.grayed.fresh b not_gray, inside, has)
                ] in
                let vb = all_visited s' m r b (end.grayed.reached b in_G_b) in
                elim (visited_black (color_of s'.colors b) vb) [
                  | inl white_b ↦ white_b
                  | inr black_b ↦
                      let black_a =
                        subst (λ c. blackened s' c ≡ true) e
                          ((m.done b vb).fields_black j range black_b) in
                      cc (black_a, (white_visited (color_of s'.colors a) w).0)
                ]
          ],
        )

  -- The counts of the live objects are right, the root is live, and no object has a colour but red. Then
  -- both phases end, and the white objects are garbage: nothing outside the heap refers to one of them,
  -- and no object in use but white ones does.
  pub mark_white_or_black-WhiteIsGarbage :
      (fuel root : ℕ) (colors : ColorMap)
      → held root ≡ true
      → ((a : ℕ) → color_of colors a ≡ red)
      → 2 * size objs held < fuel
      → (s s' : Marking) × (mark_gray fuel root mem colors ≡ ok s)
        × (mark_white_or_black fuel root mem s ≡ ok s')
        × WhiteIsGarbage held owed mem s'
  mark_white_or_black-WhiteIsGarbage fuel root colors has all_red le =
      let (gs, s, e, end, root_gray) =
        mark_gray-GrayEnd objs held mem (FromRoot mem root) owed l
          (λ b j h f range. there b j f range) fuel root colors (omega arith) has here all_red in
      let (s', e', m, r) = marked root s gs end root_gray fuel le in
      (s, s', e, e', white-garbage root s gs end root_gray s' m r)
