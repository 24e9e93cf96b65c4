-- ===== src/Gc/Balance/Reach.antt =====
-- `decrement_reference_count` of gc/GC.h releases nothing that can still be reached.
use cat_la_project.Base.{
  ℕ, zero, suc, ◌+◌, ◌≤◌, ◌<◌, ◌≡◌, ◌≢◌, sym, ◌∙◌, ap, subst, Bool, true, some, List, arith,
  Bool-cases, inl, inr,
}
use cat_la_project.Heap.Object.{Memory, HeapObject}
use cat_la_project.Gc.Counts.{decrement_reference_count}
use cat_la_project.Gc.Counts.Release.{Freed}
use cat_la_project.Gc.Counts.Loop.{decrement_reference_count-Freed}
use cat_la_project.Gc.Ledger.{occ, size, Ledger, plus}
use cat_la_project.Gc.Ledger.Moves.{refs-without, owed-held}
use cat_la_project.Gc.Balance.{is_live, Balanced, Freed-is_live}

module _ (objs : List ℕ) where
  -- What can be reached from a reference that is held outside the heap.
  pub data Reachable (owed : ℕ → ℕ) (mem : Memory) : ℕ → Type 0 where
    root : {a : ℕ} → a ≢ 0 → 0 < owed a → Reachable owed mem a
    field :
        {a : ℕ} (b i : ℕ)
        → Reachable owed mem b
        → i < (mem b).field_length
        → (mem b).fields i ≡ a
        → a ≢ 0
        → Reachable owed mem a

  pub occ-field :
      (fields : ℕ → ℕ) (start n i : ℕ)
      → start ≤ i
      → i < start + n
      → 0 < occ fields start n (fields i)
  unfolding occ
  occ-field fields start zero i le lt = absurd (omega arith)
  occ-field fields start (suc n) i le lt =
      ground (arith, occ-field fields (suc start) n i, ap fields)

  -- A field of a live object is one of the references that are counted.
  pub field-referenced :
      (held : ℕ → Bool) (owed : ℕ → ℕ) (mem : Memory) (b i : ℕ)
      → Ledger objs held owed mem
      → held b ≡ true
      → i < (mem b).field_length
      → (mem b).fields i ≢ 0
      → held ((mem b).fields i) ≡ true
  field-referenced held owed mem b i l has lt ne =
      let a = (mem b).fields i in
      elim (Bool-cases (held a)) [
        | inl in_use ↦ in_use
        | inr out ↦
            let all = refs-without objs held mem b a (l.listed b has) has in
            absurd
              (omega (arith, l.gone a ne out, occ-field (mem b).fields 0 (mem b).field_length i))
      ]

  -- Every object that can be reached is live: nothing in use was given to the allocator.
  pub Reachable-is_live :
      (owed : ℕ → ℕ) (mem : Memory) (a : ℕ)
      → Balanced objs owed mem
      → Reachable owed mem a
      → is_live mem a ≡ true
  Reachable-is_live owed mem a g (root ne pos) =
      owed-held objs (is_live mem) owed mem a g.ledger ne pos
  Reachable-is_live owed mem a g (field b i r lt e ne) =
      let has = Reachable-is_live owed mem b g r in
      subst (λ c. is_live mem c ≡ true) e
        (field-referenced (is_live mem) owed mem b i g.ledger has lt (λ z. ne (sym e ∙ z)))

  pub Freed-keeps :
      (held : ℕ → Bool) (owed : ℕ → ℕ) (mem mem' : Memory)
      (f : Freed objs held owed (λ a. 0) mem mem') (a : ℕ)
      → Reachable owed mem a
      → f.held' a ≡ true
  Freed-keeps held owed mem mem' f a (root ne pos) =
      owed-held objs f.held' owed mem' a f.going.ledger ne pos
  Freed-keeps held owed mem mem' f a (field b i r lt e ne) =
      let has = Freed-keeps held owed mem mem' f b r in
      let same = f.after.kept b has in
      let e' : (mem' b).fields i ≡ a = ap (λ (o : HeapObject). o.fields i) same ∙ e in
      let lt' : i < (mem' b).field_length =
        subst (λ (o : HeapObject). i < o.field_length) (sym same) lt in
      subst (λ c. f.held' c ≡ true) e'
        (field-referenced f.held' owed mem' b i f.going.ledger has lt' (λ z. ne (sym e' ∙ z)))

  -- A release leaves alone whatever can still be reached without the reference that is given back: it
  -- stays live, and nothing of it but its count changes.
  pub decrement_reference_count-Reachable :
      (fuel x a : ℕ) (owed : ℕ → ℕ) (mem : Memory)
      → size objs (is_live mem) ≤ fuel
      → x ≢ 0
      → Balanced objs (plus owed x) mem
      → Reachable owed mem a
      → (mem' : Memory) × (decrement_reference_count fuel x mem ≡ some mem')
        × (is_live mem' a ≡ true)
        × (mem' a ≡ record (mem a) { count = (mem' a).count })
  decrement_reference_count-Reachable fuel x a owed mem le ne g r =
      let (mem', e, f) =
        decrement_reference_count-Freed objs fuel x (is_live mem) owed mem le ne g in
      let has = Freed-keeps (is_live mem) owed mem mem' f a r in
      (mem', e, sym (Freed-is_live objs owed mem mem' f a) ∙ has, f.after.kept a has)
