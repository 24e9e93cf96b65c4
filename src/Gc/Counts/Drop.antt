-- ===== src/Gc/Counts/Drop.antt =====
-- The release of an object that waits for the collector keeps the account of references.
use cat_la_project.Base.{
  ℕ, zero, suc, ◌+◌, ◌≤◌, ◌<◌, ◌≡◌, ◌≢◌, refl, ◌∙◌, ap, Bool, true, false, List, ◌==◌,
  if◌then◌else◌, arith, Bool-cases, inl, inr,
}
use cat_la_project.Heap.Object.{Memory, HeapObject}
use cat_la_project.Vm.Orders.Fields.{store_field}
use cat_la_project.Gc.Counts.{sub_count, is_suspected, Waiting, drop_waiting, drop_waiting_fields}
use cat_la_project.Gc.Ledger.{times, occ, Going, plus}
use cat_la_project.Gc.Ledger.Moves.{
  Going-change, Going-drop_more, Going-drop_last, Going-eq, owed-held,
}

-- While the fields of `c` are dropped: objects in use change only in their count, others but `c` not at all.
pub record Dropped (held : ℕ → Bool) (c : ℕ) (mem mem' : Memory) : Type 0 where
  pub kept : (a : ℕ) → held a ≡ true → mem' a ≡ record (mem a) { count = (mem' a).count }
  pub away : (a : ℕ) → held a ≡ false → a ≢ c → mem' a ≡ mem a
  pub state : (mem' c).state ≡ (mem c).state

pub Dropped-refl : (held : ℕ → Bool) (c : ℕ) (mem : Memory) → Dropped held c mem mem
Dropped-refl held c mem = record { kept = λ a h. refl; away = λ a h ne. refl; state = refl }

pub kept_twice :
    (x y z : HeapObject)
    → y ≡ record x { count = y.count }
    → z ≡ record y { count = z.count }
    → z ≡ record x { count = z.count }
kept_twice x y z p q = q ∙ ap (λ (o : HeapObject). record o { count = z.count }) p

pub Dropped-trans :
    (held : ℕ → Bool) (c : ℕ) (m1 m2 m3 : Memory)
    → Dropped held c m1 m2
    → Dropped held c m2 m3
    → Dropped held c m1 m3
Dropped-trans held c m1 m2 m3 d e = record {
  kept = λ a h. kept_twice (m1 a) (m2 a) (m3 a) (d.kept a h) (e.kept a h);
  away = λ a h ne. e.away a h ne ∙ d.away a h ne;
  state = e.state ∙ d.state;
}

abbrev pub stacks : Waiting → (ℕ → ℕ) → ℕ → ℕ
stacks w outer a = times a w.check_roots + times a w.check_objects + outer a

module _ (objs : List ℕ) (held : ℕ → Bool) (c : ℕ) (out : held c ≡ false) (outer : ℕ → ℕ) where
  unheld-ne : (a : ℕ) → held a ≡ true → c ≢ a
  unheld-ne a has e = cc (has, out, ap held e)

  pub sub_count-Dropped :
      (mem : Memory) (f : ℕ) → held f ≡ true → Dropped held c mem (sub_count mem f)
  unfolding sub_count
  sub_count-Dropped mem f has =
      let ne = unheld-ne f has in
      record {
        kept = λ a h. ground arith;
        away = λ a h ne'. let other : f ≢ a = λ e. cc (has, h, ap held e) in ground arith;
        state = ground arith;
      }

  store_field-Dropped : (mem : Memory) (i : ℕ) → Dropped held c mem (store_field mem c i 0)
  unfolding store_field
  store_field-Dropped mem i = record {
    kept = λ a h. let ne = unheld-ne a h in ground arith;
    away = λ a h ne. ground arith;
    state = ground arith;
  }

  store_field-later :
      (mem : Memory) (i j : ℕ) → i < j → (store_field mem c i 0 c).fields j ≡ (mem c).fields j
  unfolding store_field
  store_field-later mem i j lt = ground arith

  store_field-held : (mem : Memory) (i a : ℕ) → held a ≡ true → store_field mem c i 0 a ≡ mem a
  unfolding store_field
  store_field-held mem i a has = let ne = unheld-ne a has in ground arith

  sub_count-fields : (mem : Memory) (f : ℕ) → (sub_count mem f c).fields ≡ (mem c).fields
  unfolding sub_count
  sub_count-fields mem f = ground arith

  -- What one step of the loop over the fields comes to.
  record Step (i : ℕ) (owed : ℕ → ℕ) (w w' : Waiting) : Type 0 where
    going : Going objs held owed (stacks w' outer) w'.mem
    dropped : Dropped held c w.mem w'.mem
    later : (j : ℕ) → i < j → (w'.mem c).fields j ≡ (w.mem c).fields j

  drop_waiting-Step :
      (i f : ℕ) (w : Waiting) (owed : ℕ → ℕ)
      → f ≢ 0
      → held f ≡ true
      → Going objs held (plus owed f) (stacks w outer) w.mem
      → Step i owed w (drop_waiting c i f w)
  unfolding drop_waiting
  drop_waiting-Step i f w owed ne has g =
      let sub = sub_count-Dropped w.mem f has in
      let mem' = sub_count w.mem f in
      let stored =
        Dropped-trans held c w.mem mem' (store_field mem' c i 0) sub (store_field-Dropped mem' i) in
      let stays = λ (j : ℕ). λ (lt : i < j).
        store_field-later mem' i j lt ∙ ap (λ (fs : ℕ → ℕ). fs j) (sub_count-fields w.mem f) in
      let released = λ (last : ((w.mem f).count == 1) ≡ true).
        Going-drop_last objs held owed (stacks w outer) w.mem f ne (ground arith) g in
      elim (Bool-cases ((w.mem f).count == 1)) [
        | inl last ↦ elim (Bool-cases (is_suspected mem' f)) [
          | inl later ↦
              rw (last, later)
                (record {
                  going =
                      Going-change objs held owed _ mem' (store_field mem' c i 0)
                        (store_field-held mem' i)
                        (Going-eq objs held owed owed (plus (stacks w outer) f)
                          (λ a.
                            (if f == a then 1 else 0)
                            + times a w.check_roots
                            + times a w.check_objects
                            + outer a)
                          mem' (λ a z. refl) (λ a. omega arith) (released last));
                  dropped = stored;
                  later = stays;
                })
          | inr now ↦
              rw (last, now)
                (record {
                  going =
                      Going-eq objs held owed owed (plus (stacks w outer) f) _ mem' (λ a z. refl)
                        (λ a. omega arith) (released last);
                  dropped = sub;
                  later = λ j lt. ap (λ (fs : ℕ → ℕ). fs j) (sub_count-fields w.mem f);
                })
        ]
        | inr more ↦ rw more (record {
          going =
              Going-change objs held owed (stacks w outer) mem' (store_field mem' c i 0)
                (store_field-held mem' i)
                (Going-drop_more objs held owed (stacks w outer) w.mem f ne (ground arith) g);
          dropped = stored;
          later = stays;
        })
      ]

  pub record DropsAll (owed : ℕ → ℕ) (w w' : Waiting) : Type 0 where
    pub going : Going objs held owed (stacks w' outer) w'.mem
    pub dropped : Dropped held c w.mem w'.mem

  next_null :
      (left i : ℕ) (w : Waiting)
      → ((w.mem c).fields i == 0) ≡ true
      → drop_waiting_fields (suc left) c i w ≡ drop_waiting_fields left c (suc i) w
  unfolding drop_waiting_fields
  next_null left i w h = rw h refl

  next_object :
      (left i : ℕ) (w : Waiting)
      → ((w.mem c).fields i == 0) ≡ false
      → drop_waiting_fields (suc left) c i w
        ≡ drop_waiting_fields left c (suc i) (drop_waiting c i ((w.mem c).fields i) w)
  unfolding drop_waiting_fields
  next_object left i w h = rw h refl

  no_fields : (i : ℕ) (w : Waiting) → drop_waiting_fields zero c i w ≡ w
  unfolding drop_waiting_fields
  no_fields i w = refl

  -- The loop over the fields drops what the fields held, and stacks what has to be released.
  pub drop_waiting_fields-DropsAll :
      (left i : ℕ) (w : Waiting) (owed fields : ℕ → ℕ)
      → ((j : ℕ) → i ≤ j → (w.mem c).fields j ≡ fields j)
      → Going objs held (λ a. owed a + occ fields i left a) (stacks w outer) w.mem
      → DropsAll owed w (drop_waiting_fields left c i w)
  unfolding occ
  drop_waiting_fields-DropsAll zero i w owed fields same g = rw (no_fields i w) (record {
    going =
        Going-eq objs held (λ a. owed a + 0) owed (stacks w outer) (stacks w outer) w.mem
          (λ a z. omega arith) (λ a. refl) g;
    dropped = Dropped-refl held c w.mem;
  })
  drop_waiting_fields-DropsAll (suc left) i w owed fields same g =
      let f = (w.mem c).fields i in
      let here : f ≡ fields i = same i (omega arith) in
      let later : ℕ → ℕ = λ a. owed a + occ fields (suc i) left a in
      let all : ℕ → ℕ =
        λ a. owed a + ((if fields i == a then 1 else 0) + occ fields (suc i) left a) in
      elim (Bool-cases (f == 0)) [
        | inl null ↦ rw (next_null left i w null) (
            drop_waiting_fields-DropsAll left (suc i) w owed fields (λ j le. same j (omega arith))
              (Going-eq objs held all later (stacks w outer) (stacks w outer) w.mem
                (λ a ne. ground arith) (λ a. refl) g))
        | inr more ↦
            let ne : f ≢ 0 = ground arith in
            let g' : Going objs held (plus later f) (stacks w outer) w.mem =
              Going-eq objs held all (plus later f) (stacks w outer) (stacks w outer) w.mem
                (λ a z. ground arith) (λ a. refl) g in
            let has = owed-held objs held (plus later f) w.mem f g'.ledger ne (ground arith) in
            let step = drop_waiting-Step i f w later ne has g' in
            let w' = drop_waiting c i f w in
            let rest =
              drop_waiting_fields-DropsAll left (suc i) w' owed fields
                (λ j le. step.later j (omega arith) ∙ same j (omega arith)) step.going in
            rw (next_object left i w more) (record {
              going = rest.going;
              dropped =
                  Dropped-trans held c w.mem w'.mem (drop_waiting_fields left c (suc i) w').mem
                    step.dropped rest.dropped;
            })
      ]
