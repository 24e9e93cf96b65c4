-- ===== src/Gc/Ledger/Moves.antt =====
-- How the account changes when a reference is dropped, and when an object goes out of use.
use cat_la_project.Base.{
  ℕ, suc, ◌+◌, ◌-◌, ◌^◌, ◌<◌, ◌≡◌, ◌≢◌, refl, sym, ◌∙◌, ap, subst, Bool-cases, inl, inr, Bool, true,
  List, [], ◌∷◌, ◌==◌, if◌then◌else◌, arith,
}
use cat_la_project.Heap.Object.{Memory}
use cat_la_project.Gc.Counts.{sub_count}
use cat_la_project.Gc.Ledger.{times, occ_in, refs, size, Ledger, Going, without, plus}

-- The objects in use have the same fields in both memories.
abbrev pub SameFields : (ℕ → Bool) → Memory → Memory → Type 0
SameFields held mem mem' =
    (a : ℕ)
    → held a ≡ true
    → ((mem' a).fields ≡ (mem a).fields) × ((mem' a).field_length ≡ (mem a).field_length)

pub refs-SameFields :
    (objs : List ℕ) (held : ℕ → Bool) (mem mem' : Memory) (a : ℕ)
    → SameFields held mem mem'
    → refs objs held mem' a ≡ refs objs held mem a
unfolding refs
refs-SameFields [] held mem mem' a h = refl
refs-SameFields (o ∷ os) held mem mem' a h = elim (Bool-cases (held o)) [
  | inl has ↦ rw (has, (h o has).0, (h o has).1, refs-SameFields os held mem mem' a h) refl
  | inr out ↦ rw out (omega (arith, refs-SameFields os held mem mem' a h))
]

refs-without_other :
    (objs : List ℕ) (held : ℕ → Bool) (mem : Memory) (c a : ℕ)
    → times c objs ≡ 0
    → refs objs (without held c) mem a ≡ refs objs held mem a
unfolding refs
refs-without_other [] held mem c a h = refl
refs-without_other (o ∷ os) held mem c a h = ground (arith, refs-without_other os held mem c a)

pub refs-without :
    (objs : List ℕ) (held : ℕ → Bool) (mem : Memory) (c a : ℕ)
    → times c objs ≡ 1
    → held c ≡ true
    → refs objs held mem a ≡ refs objs (without held c) mem a + occ_in mem c a
unfolding refs
refs-without [] held mem c a h has = absurd (omega arith)
refs-without (o ∷ os) held mem c a h has =
    ground (arith, refs-without_other os held mem c a, refs-without os held mem c a)

size-without_other :
    (objs : List ℕ) (held : ℕ → Bool) (c : ℕ)
    → times c objs ≡ 0
    → size objs (without held c) ≡ size objs held
unfolding size
size-without_other [] held c h = refl
size-without_other (o ∷ os) held c h = ground (arith, size-without_other os held c)

pub size-without :
    (objs : List ℕ) (held : ℕ → Bool) (c : ℕ)
    → times c objs ≡ 1
    → held c ≡ true
    → size objs held ≡ suc (size objs (without held c))
unfolding size
size-without [] held c h has = absurd (omega arith)
size-without (o ∷ os) held c h has =
    ground (arith, size-without_other os held c, size-without os held c)

module _ (objs : List ℕ) where
  -- What is owed is in use.
  pub owed-held :
      (held : ℕ → Bool) (owed : ℕ → ℕ) (mem : Memory) (f : ℕ)
      → Ledger objs held owed mem
      → f ≢ 0
      → 0 < owed f
      → held f ≡ true
  owed-held held owed mem f l ne pos = elim (Bool-cases (held f)) [
    | inl has ↦ has
    | inr out ↦ absurd (omega (arith, l.gone f ne out))
  ]

  -- The objects in use are as they were.
  pub Going-change :
      (held : ℕ → Bool) (owed due : ℕ → ℕ) (mem mem' : Memory)
      → ((a : ℕ) → held a ≡ true → mem' a ≡ mem a)
      → Going objs held owed due mem
      → Going objs held owed due mem'
  Going-change held owed due mem mem' same g =
      let fields : SameFields held mem mem' =
        λ a has. (ap (λ o. o.fields) (same a has), ap (λ o. o.field_length) (same a has)) in
      record {
        ledger = record {
          null = g.ledger.null;
          listed = g.ledger.listed;
          counted = λ a has.
              ap (λ o. o.count) (same a has)
              ∙ g.ledger.counted a has
              ∙ ap (λ (n : ℕ). owed a + n) (sym (refs-SameFields objs held mem mem' a fields));
          gone = λ a ne out.
              ap (λ (n : ℕ). owed a + n) (refs-SameFields objs held mem mem' a fields)
              ∙ g.ledger.gone a ne out;
          small = λ a has.
              subst (λ (n : ℕ). n < 2 ^ 64) (sym (ap (λ o. o.count) (same a has)))
                (g.ledger.small a has);
        };
        stacked = λ a. elim (Bool-cases (held a)) [
          | inl has ↦ ground (arith, g.stacked a, ap (λ o. o.count) (same a has))
          | inr out ↦ ground (arith, g.stacked a)
        ];
      }

  -- An object that was on a stack goes out of use, and its fields are owed.
  pub Going-without :
      (held : ℕ → Bool) (owed due : ℕ → ℕ) (mem : Memory) (c : ℕ)
      → Going objs held owed (plus due c) mem
      → Going objs (without held c) (λ a. owed a + occ_in mem c a) due mem
  Going-without held owed due mem c g =
      let l = g.ledger in
      let has : held c ≡ true = ground (arith, g.stacked c) in
      let unowned_c : (mem c).count ≡ 0 = ground (arith, g.stacked c) in
      let once = l.listed c has in
      record {
        ledger = record {
          null = ground (arith, l.null);
          listed = λ a h. l.listed a (ground arith);
          counted = λ a h. ground (arith, l.counted a, refs-without objs held mem c a once has);
          gone = λ a ne h.
              ground (arith, l.gone a ne, l.counted c has, refs-without objs held mem c a once has);
          small = λ a h. l.small a (ground arith);
        };
        stacked = λ a. ground (arith, g.stacked a);
      }

  sub_count-SameFields :
      (held : ℕ → Bool) (mem : Memory) (f : ℕ) → SameFields held mem (sub_count mem f)
  unfolding sub_count
  sub_count-SameFields held mem f = λ a has. (ground arith, ground arith)

  -- Only the count of `f` changes, to one less.
  pub sub_count-count :
      (mem : Memory) (f a : ℕ)
      → 0 < (mem f).count
      → (mem f).count < 2 ^ 64
      → (sub_count mem f a).count ≡ (if f == a then (mem a).count - 1 else (mem a).count)
  unfolding sub_count
  sub_count-count mem f a pos small = ground arith

  Ledger-drop :
      (held : ℕ → Bool) (owed : ℕ → ℕ) (mem : Memory) (f : ℕ)
      → f ≢ 0
      → Ledger objs held (plus owed f) mem
      → (held f ≡ true) × (0 < (mem f).count) × Ledger objs held owed (sub_count mem f)
  Ledger-drop held owed mem f ne l =
      let has = owed-held held (plus owed f) mem f l ne (ground arith) in
      let pos : 0 < (mem f).count = ground (arith, l.counted f has) in
      let count = λ (a : ℕ). sub_count-count mem f a pos (l.small f has) in
      let same = λ (a : ℕ).
        refs-SameFields objs held mem (sub_count mem f) a (sub_count-SameFields held mem f) in
      (
        has,
        pos,
        record {
          null = l.null;
          listed = l.listed;
          counted = λ a h. ground (arith, l.counted a h, count a, same a);
          gone = λ a ne' h. ground (arith, l.gone a ne' h, same a);
          small = λ a h. ground (arith, l.small a h, count a);
        },
      )

  -- A reference that is not the last is dropped.
  pub Going-drop_more :
      (held : ℕ → Bool) (owed due : ℕ → ℕ) (mem : Memory) (f : ℕ)
      → f ≢ 0
      → (mem f).count ≢ 1
      → Going objs held (plus owed f) due mem
      → Going objs held owed due (sub_count mem f)
  Going-drop_more held owed due mem f ne more g =
      let (has, pos, l) = Ledger-drop held owed mem f ne g.ledger in
      record {
        ledger = l;
        stacked =
            λ a. ground (arith, g.stacked a, sub_count-count mem f a pos (g.ledger.small f has));
      }

  -- The last reference is dropped: the object has to be released.
  pub Going-drop_last :
      (held : ℕ → Bool) (owed due : ℕ → ℕ) (mem : Memory) (f : ℕ)
      → f ≢ 0
      → (mem f).count ≡ 1
      → Going objs held (plus owed f) due mem
      → Going objs held owed (plus due f) (sub_count mem f)
  Going-drop_last held owed due mem f ne last g =
      let (has, pos, l) = Ledger-drop held owed mem f ne g.ledger in
      record {
        ledger = l;
        stacked =
            λ a. ground (arith, g.stacked a, sub_count-count mem f a pos (g.ledger.small f has));
      }

  -- The account does not say what is owed of null.
  pub Going-eq :
      (held : ℕ → Bool) (owed owed' due due' : ℕ → ℕ) (mem : Memory)
      → ((a : ℕ) → a ≢ 0 → owed' a ≡ owed a)
      → ((a : ℕ) → due' a ≡ due a)
      → Going objs held owed due mem
      → Going objs held owed' due' mem
  Going-eq held owed owed' due due' mem same_owed same_due g =
      let not_null : (a : ℕ) → held a ≡ true → a ≢ 0 =
        λ a has e. cc (g.ledger.null, has, ap held e) in
      record {
        ledger = record {
          null = g.ledger.null;
          listed = g.ledger.listed;
          counted = λ a has. omega (arith, g.ledger.counted a has, same_owed a (not_null a has));
          gone = λ a ne out. omega (arith, g.ledger.gone a ne out, same_owed a ne);
          small = g.ledger.small;
        };
        stacked = λ a. same_due a ∙ g.stacked a;
      }
