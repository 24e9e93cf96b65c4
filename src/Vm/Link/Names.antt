-- ===== src/Vm/Link/Names.antt =====
-- A linked jump points to the last block of its name.
use cat_la_project.Base.{
  ℕ, zero, suc, ◌+◌, ◌≡◌, ◌≢◌, refl, inl, inr, Bool, true, false, Option, none, some, List, [], ◌∷◌,
  arith, Bool-cases, ap, subst,
}
use cat_la_project.Base.Strings.{Text, text_eq, text_eq→eq, text_eq_refl}
use cat_la_project.Vm.Modules.{LabelBlock, find_label, Function, jump_to_label}
use cat_la_project.Vm.Result.{ok}
use cat_la_project.Vm.Link.{link, Types}

-- No block from index `i` on has the name.
abbrev pub NoLabel : List LabelBlock → Text → Type 0
NoLabel [] name = Unit {0}
NoLabel (b ∷ bs) name = (b.name ≢ name) × NoLabel bs name

-- The block at the index has the name, and no later one has.
abbrev pub LastLabel : List LabelBlock → ℕ → Text → Type 0
LastLabel [] i name = ⊥
LastLabel (b ∷ bs) zero name = (b.name ≡ name) × NoLabel bs name
LastLabel (b ∷ bs) (suc i) name = LastLabel bs i name

abbrev pub Found : List LabelBlock → ℕ → Text → Option ℕ → Type 0
Found bs from name none = NoLabel bs name
Found bs from name (some i) = (k : ℕ) × (i ≡ from + k) × LastLabel bs k name

ne_of_text : (s t : Text) → text_eq s t ≡ false → s ≢ t
ne_of_text s t h e = cc (text_eq_refl t, ap (λ x. text_eq x t) e)

find_label-nil : (from : ℕ) (name : Text) → find_label [] from name ≡ none
unfolding find_label
find_label-nil from name = refl

find_label-head :
    (b : LabelBlock) (bs : List LabelBlock) (from : ℕ) (name : Text)
    → find_label bs (suc from) name ≡ none
    → (t : Bool) → text_eq b.name name ≡ t
    → find_label (b ∷ bs) from name ≡ elim t [ true ↦ some from | false ↦ none ]
unfolding find_label
find_label-head b bs from name h t e = rw (h, e) refl

find_label-tail :
    (b : LabelBlock) (bs : List LabelBlock) (from i : ℕ) (name : Text)
    → find_label bs (suc from) name ≡ some i
    → find_label (b ∷ bs) from name ≡ some i
unfolding find_label
find_label-tail b bs from i name h = rw h refl

find_label-Found :
    (bs : List LabelBlock) (from : ℕ) (name : Text) → Found bs from name (find_label bs from name)
find_label-Found [] from name = rw (find_label-nil from name) tt
find_label-Found (b ∷ bs) from name =
    rest (find_label bs (suc from) name) refl (find_label-Found bs (suc from) name)
  where
    rest :
        (r : Option ℕ)
        → find_label bs (suc from) name ≡ r
        → Found bs (suc from) name (find_label bs (suc from) name)
        → Found (b ∷ bs) from name (find_label (b ∷ bs) from name)
    rest (some i) e f =
        let g : Found bs (suc from) name (some i) = subst (Found bs (suc from) name) e f in
        rw (find_label-tail b bs from i name e) (suc g.0, omega (arith, g.1), g.2)
    rest none e f =
        let g : Found bs (suc from) name none = subst (Found bs (suc from) name) e f in
        elim (Bool-cases (text_eq b.name name)) [
          | inl same ↦
              rw (find_label-head b bs from name e true same)
                (0, omega arith, (text_eq→eq b.name name same, g))
          | inr other ↦
              rw (find_label-head b bs from name e false other) (ne_of_text b.name name other, g)
        ]

-- Linking a jump succeeds: its label is the last block of the name, or null when no block has it.
pub link-Found :
    (types : Types) (function : Function) (name : Text) (old : Option ℕ)
    → (label : Option ℕ) × (link types function (jump_to_label name old)
        ≡ ok (jump_to_label name label))
      × Found function.label_blocks 0 name label
unfolding link
link-Found types function name old =
    (find_label function.label_blocks 0 name, refl, find_label-Found function.label_blocks 0 name)
