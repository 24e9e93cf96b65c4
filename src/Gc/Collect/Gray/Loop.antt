-- ===== src/Gc/Collect/Gray/Loop.antt =====
-- The loops of the gray phase of `gc_collect`.
use cat_la_project.Base.{
  ℕ, zero, suc, ◌+◌, ◌≤◌, ◌<◌, ◌≡◌, ◌≢◌, refl, ◌∙◌, ap, subst, Bool, true, false, List, ◌==◌,
  if◌then◌else◌, arith, Bool-cases, inl, inr, ℕ_discrete,
}
use cat_la_project.Heap.Object.{Memory}
use cat_la_project.Gc.Collect.Phases.{Marking, gray_field, for_fields}
use cat_la_project.Gc.Collect.Gray.{
  in_gray, Grayed, Grayed-eq, gray_field-in_gray, gray_field-Grayed,
}
use cat_la_project.Gc.Ledger.{occ, Ledger, plus}

pub for_fields_null :
    (act : ℕ → Marking → Marking) (left i : ℕ) (fields : ℕ → ℕ) (s : Marking)
    → (fields i == 0) ≡ true
    → for_fields act (suc left) i fields s ≡ for_fields act left (suc i) fields s
unfolding for_fields
for_fields_null act left i fields s e = rw e refl

pub for_fields_object :
    (act : ℕ → Marking → Marking) (left i : ℕ) (fields : ℕ → ℕ) (s : Marking)
    → (fields i == 0) ≡ false
    → for_fields act (suc left) i fields s ≡ for_fields act left (suc i) fields (act (fields i) s)
unfolding for_fields
for_fields_object act left i fields s e = rw e refl

pub for_fields_none :
    (act : ℕ → Marking → Marking) (i : ℕ) (fields : ℕ → ℕ) (s : Marking)
    → for_fields act zero i fields s ≡ s
unfolding for_fields
for_fields_none act i fields s = refl

-- The field `j` is one of the `left` fields from `i` on, and not null.
abbrev pub InRange : (ℕ → ℕ) → (i left j : ℕ) → Type 0
InRange fields i left j = (i ≤ j) × (j < i + left) × (fields j ≢ 0)

module _ (objs : List ℕ) (held : ℕ → Bool) (mem : Memory) (P : ℕ → Type 0) (owed : ℕ → ℕ)
    (l : Ledger objs held owed mem) where
  -- What the loop over the fields comes to.
  pub record FieldsGray (rest : ℕ → Bool) (i left : ℕ) (fields : ℕ → ℕ) (s s' : Marking)
      : Type 0 where
    pub grayed : Grayed objs held mem P rest owed s'
    pub stays : (a : ℕ) → in_gray s a ≡ true → in_gray s' a ≡ true
    pub covered : (j : ℕ) → InRange fields i left j → in_gray s' (fields j) ≡ true

  pub for_fields-FieldsGray :
      (left i : ℕ) (rest : ℕ → Bool) (fields : ℕ → ℕ) (s : Marking)
      → ((j : ℕ) → InRange fields i left j → held (fields j) ≡ true)
      → ((j : ℕ) → InRange fields i left j → P (fields j))
      → Grayed objs held mem P rest (λ a. owed a + occ fields i left a) s
      → FieldsGray rest i left fields s (for_fields (gray_field mem) left i fields s)
  unfolding occ
  for_fields-FieldsGray zero i rest fields s inside p g =
      rw (for_fields_none (gray_field mem) i fields s) (record {
        grayed =
            Grayed-eq objs held mem P rest (λ a. owed a + 0) owed s l.null (λ a z. omega arith) g;
        stays = λ a h. h;
        covered = λ j (from, to, ne). absurd (omega arith);
      })
  for_fields-FieldsGray (suc left) i rest fields s inside p g =
      let f = fields i in
      let later : ℕ → ℕ = λ a. owed a + occ fields (suc i) left a in
      let all : ℕ → ℕ = λ a. owed a + ((if f == a then 1 else 0) + occ fields (suc i) left a) in
      let inside' : (j : ℕ) → InRange fields (suc i) left j → held (fields j) ≡ true =
        λ j (from, to, ne). inside j (omega arith, omega arith, ne) in
      let p' : (j : ℕ) → InRange fields (suc i) left j → P (fields j) =
        λ j (from, to, ne). p j (omega arith, omega arith, ne) in
      elim (Bool-cases (f == 0)) [
        | inl null ↦
            let rest_of =
              for_fields-FieldsGray left (suc i) rest fields s inside' p'
                (Grayed-eq objs held mem P rest all later s l.null (λ a z. ground arith) g) in
            rw (for_fields_null (gray_field mem) left i fields s null) (record {
              grayed = rest_of.grayed;
              stays = rest_of.stays;
              covered = λ j (from, to, ne). elim (ℕ_discrete i j) [
                | yes q ↦ absurd (ground (arith, ap fields q))
                | no q ↦ rest_of.covered j (omega arith, omega arith, ne)
              ];
            })
        | inr object ↦
            let ne_f : f ≢ 0 = ground arith in
            let here : InRange fields i (suc left) i = (omega arith, omega arith, ne_f) in
            let g1 =
              gray_field-Grayed objs held mem P rest later f s (inside i here) (p i here)
                (l.small f (inside i here))
                (Grayed-eq objs held mem P rest all (plus later f) s l.null (λ a z. omega arith)
                  g) in
            let s1 = gray_field mem f s in
            let now = λ (a : ℕ). gray_field-in_gray objs held mem P f a s in
            let rest_of = for_fields-FieldsGray left (suc i) rest fields s1 inside' p' g1 in
            rw (for_fields_object (gray_field mem) left i fields s object) (record {
              grayed = rest_of.grayed;
              stays = λ a h. rest_of.stays a (now a ∙ ground arith);
              covered = λ j (from, to, ne). elim (ℕ_discrete i j) [
                | yes q ↦
                    subst
                      (λ k.
                        in_gray (for_fields (gray_field mem) left (suc i) fields s1) (fields k)
                        ≡ true)
                      q (rest_of.stays f (now f ∙ ground arith))
                | no q ↦ rest_of.covered j (omega arith, omega arith, ne)
              ];
            })
      ]
