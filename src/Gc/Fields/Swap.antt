-- ===== src/Gc/Fields/Swap.antt =====
-- What a field holds is exchanged: the account of references follows.
use cat_la_project.Base.{
  ℕ, zero, suc, ◌+◌, ◌≤◌, ◌<◌, ◌≡◌, ◌≢◌, refl, sym, ◌∙◌, ap, subst, Bool, true, false, List, ◌==◌,
  if◌then◌else◌, arith, ℕ_discrete, ◌&&◌, Bool-cases, inl, inr,
}
use cat_la_project.Heap.Object.{Memory, HeapObject, update_field}
use cat_la_project.Vm.Orders.Fields.{store_field, is_outside}
use cat_la_project.Vm.Result.{ok}
use cat_la_project.Gc.Counts.{GcState}
use cat_la_project.Gc.Ledger.{times, occ, occ_in, refs, Going, without, plus}
use cat_la_project.Gc.Ledger.Moves.{SameFields, refs-SameFields, refs-without}
use cat_la_project.Gc.Balance.{is_live_state, is_live, Balanced, SameShape-Balanced}
use cat_la_project.Gc.Balance.Reach.{field-referenced}
use cat_la_project.Gc.Fields.{lock_in, store_in, lock_object, swap_field}

occ-update_field_below :
    (fields : ℕ → ℕ) (i v start n a : ℕ)
    → i < start
    → occ (update_field fields i v) start n a ≡ occ fields start n a
unfolding occ
occ-update_field_below fields i v start zero a lt = refl
occ-update_field_below fields i v start (suc n) a lt =
    ground (arith, occ-update_field_below fields i v (suc start) n a)

-- One `v` more, and one of the old value less.
occ-update_field :
    (fields : ℕ → ℕ) (i v start n a : ℕ)
    → start ≤ i
    → i < start + n
    → occ (update_field fields i v) start n a + (if fields i == a then 1 else 0)
      ≡ occ fields start n a + (if v == a then 1 else 0)
unfolding occ
occ-update_field fields i v start zero a le lt = absurd (omega arith)
occ-update_field fields i v start (suc n) a le lt = elim (Bool-cases (i == start)) [
  | inl e ↦ ground (arith, occ-update_field_below fields i v (suc start) n a, ap fields)
  | inr e ↦ ground (arith, occ-update_field fields i v (suc start) n a)
]

store_field-other : (mem : Memory) (p i v a : ℕ) → p ≢ a → store_field mem p i v a ≡ mem a
unfolding store_field
store_field-other mem p i v a ne = ground arith

store_field_lem :
    (mem : Memory) (p i v : ℕ)
    → store_field mem p i v p ≡ record (mem p) { fields = update_field (mem p).fields i v }
unfolding store_field
store_field_lem mem p i v = ground arith

store_field-count : (mem : Memory) (p i v a : ℕ) → (store_field mem p i v a).count ≡ (mem a).count
unfolding store_field
store_field-count mem p i v a = ground arith

store_field-state : (mem : Memory) (p i v a : ℕ) → (store_field mem p i v a).state ≡ (mem a).state
unfolding store_field
store_field-state mem p i v a = ground arith

store_field-fields :
    (mem : Memory) (p i v a j : ℕ)
    → (store_field mem p i v a).fields j ≡ (if p == a && i == j then v else (mem a).fields j)
unfolding store_field
store_field-fields mem p i v a j = elim (ℕ_discrete p a) [
  | yes q ↦
      subst
        (λ b.
          (store_field mem p i v b).fields j ≡ (if p == b && i == j then v else (mem b).fields j))
        q (ground arith)
  | no ne ↦ ground arith
]

module _ (objs : List ℕ) where
  refs-store_field :
      (held : ℕ → Bool) (mem : Memory) (p i v a : ℕ)
      → times p objs ≡ 1
      → held p ≡ true
      → i < (mem p).field_length
      → refs objs held (store_field mem p i v) a + (if (mem p).fields i == a then 1 else 0)
        ≡ refs objs held mem a + (if v == a then 1 else 0)
  refs-store_field held mem p i v a once has lt =
      let mem' = store_field mem p i v in
      let apart : SameFields (without held p) mem mem' = λ b h.
        let ne : p ≢ b = ground arith in
        (
          ap (λ o. o.fields) (store_field-other mem p i v b ne),
          ap (λ o. o.field_length) (store_field-other mem p i v b ne),
        ) in
      let here : occ_in mem' p a ≡ occ (update_field (mem p).fields i v) 0 (mem p).field_length a =
        ap (λ (o : HeapObject). occ o.fields 0 o.field_length a) (store_field_lem mem p i v) in
      omega (
        arith,
        refs-without objs held mem p a once has,
        refs-without objs held mem' p a once has,
        refs-SameFields objs (without held p) mem mem' a apart,
        here,
        occ-update_field (mem p).fields i v 0 (mem p).field_length a,
      )

  -- The reference to `v` goes into a field, and the one that was there comes out.
  store_field-Balanced :
      (owed : ℕ → ℕ) (mem : Memory) (p i v : ℕ)
      → is_live mem p ≡ true
      → i < (mem p).field_length
      → Balanced objs (plus owed v) mem
      → Balanced objs (plus owed ((mem p).fields i)) (store_field mem p i v)
  store_field-Balanced owed mem p i v has lt g =
      let mem' = store_field mem p i v in
      let old = (mem p).fields i in
      let lives : (a : ℕ) → is_live mem' a ≡ is_live mem a =
        λ a. ap is_live_state (store_field-state mem p i v a) in
      let moved =
        λ (a : ℕ). refs-store_field (is_live mem) mem p i v a (g.ledger.listed p has) has lt in
      subst (λ (h : ℕ → Bool). Going objs h (plus owed old) (λ a. 0) mem') (λ j a. sym (lives a) j)
        (record {
          ledger = record {
            null = g.ledger.null;
            listed = g.ledger.listed;
            counted =
                λ a h. omega (arith, g.ledger.counted a h, store_field-count mem p i v a, moved a);
            gone = λ a ne h. omega (arith, g.ledger.gone a ne h, moved a);
            small = λ a h. omega (arith, g.ledger.small a h, store_field-count mem p i v a);
          };
          stacked = λ a. ground (arith, g.stacked a, store_field-count mem p i v a);
        })

  pub lock_in-Balanced :
      (owed : ℕ → ℕ) (st : GcState) (p : ℕ) (flag : Bool)
      → Balanced objs owed st.mem
      → Balanced objs owed (lock_in st p flag).mem
  unfolding lock_in
  lock_in-Balanced owed st p flag g =
      let count : (a : ℕ) → ((lock_in st p flag).mem a).count ≡ (st.mem a).count =
        λ a. ground arith in
      SameShape-Balanced objs owed owed st.mem (lock_in st p flag).mem
        (λ a. (ground arith, ground arith, ground arith)) (λ a h. omega (arith, count a))
        (λ a h. omega (arith, count a)) (λ a h. omega (arith, count a, g.ledger.small a h))
        (λ a z h. refl) g

  pub lock_in-fields :
      (st : GcState) (p : ℕ) (flag : Bool) (a : ℕ)
      → ((lock_in st p flag).mem a).fields ≡ (st.mem a).fields
  unfolding lock_in
  lock_in-fields st p flag a = ground arith

  lock_in-field_length :
      (st : GcState) (p : ℕ) (flag : Bool) (a : ℕ)
      → ((lock_in st p flag).mem a).field_length ≡ (st.mem a).field_length
  unfolding lock_in
  lock_in-field_length st p flag a = ground arith

  pub lock_in-is_live :
      (st : GcState) (p : ℕ) (flag : Bool) (a : ℕ)
      → is_live (lock_in st p flag).mem a ≡ is_live st.mem a
  unfolding lock_in
  lock_in-is_live st p flag a = ground arith

  pub lock_in-count :
      (st : GcState) (p : ℕ) (flag : Bool) (a : ℕ)
      → ((lock_in st p flag).mem a).count ≡ (st.mem a).count
  unfolding lock_in
  lock_in-count st p flag a = ground arith

  pub lock_in-lock_flag :
      (st : GcState) (p : ℕ) (flag : Bool) → ((lock_in st p flag).mem p).lock_flag ≡ flag
  unfolding lock_in
  lock_in-lock_flag st p flag = ground arith

  pub lock_object_free :
      (others : GcState → GcState) (rounds p : ℕ) (st : GcState)
      → (st.mem p).lock_flag ≡ false
      → lock_object others (suc rounds) p st ≡ ok (lock_in st p true)
  unfolding lock_object
  lock_object_free others rounds p st free = rw free refl

  swap_free :
      (others : GcState → GcState) (rounds p i v : ℕ) (st : GcState)
      → is_outside st.mem p i ≡ false
      → (st.mem p).lock_flag ≡ false
      → ((st.mem p).fields i == 1) ≡ false
      → swap_field others (suc rounds) p i v st
        ≡ ok ((st.mem p).fields i, lock_in (store_in (lock_in st p true) p i v) p false)
  unfolding swap_field
  swap_free others rounds p i v st inside free more =
      let st1 = lock_in st p true in
      let here = ap (λ (fs : ℕ → ℕ). fs i) (lock_in-fields st p true p) in
      let not_one : ((st1.mem p).fields i == 1) ≡ false =
        subst (λ o. (o == 1) ≡ false) (sym here) more in
      subst
        (λ o.
          swap_field others (suc rounds) p i v st ≡ ok (o, lock_in (store_in st1 p i v) p false))
        here (rw (inside, lock_object_free others rounds p st free, not_one) refl)

  pub is_outside_live :
      (mem : Memory) (p i : ℕ)
      → is_live mem 0 ≡ false
      → is_live mem p ≡ true
      → i < (mem p).field_length
      → is_outside mem p i ≡ false
  is_outside_live mem p i null has lt =
      let ne : p ≢ 0 = λ e. cc (null, has, ap (is_live mem) e) in ground arith

  -- A field of a live object is not borrowed, where 1 is no object.
  pub not_borrowed :
      (owed : ℕ → ℕ) (mem : Memory) (p i : ℕ)
      → is_live mem p ≡ true
      → is_live mem 1 ≡ false
      → i < (mem p).field_length
      → Balanced objs owed mem
      → ((mem p).fields i == 1) ≡ false
  not_borrowed owed mem p i has one lt g = elim (Bool-cases ((mem p).fields i == 1)) [
    | inl e ↦
        let is_one : (mem p).fields i ≡ 1 = ground arith in
        let lives =
          field-referenced objs (is_live mem) owed mem p i g.ledger has lt (λ z. omega arith) in
        cc (lives, one, ap (is_live mem) is_one)
    | inr e ↦ e
  ]

  -- With the lock free, the field is exchanged in the first round.
  pub swap_field-Balanced :
      (others : GcState → GcState) (rounds p i v : ℕ) (owed : ℕ → ℕ) (st : GcState)
      → (st.mem p).lock_flag ≡ false
      → is_live st.mem p ≡ true
      → is_live st.mem 1 ≡ false
      → i < (st.mem p).field_length
      → Balanced objs (plus owed v) st.mem
      → (st' : GcState) × (swap_field others (suc rounds) p i v st ≡ ok ((st.mem p).fields i, st'))
        × Balanced objs (plus owed ((st.mem p).fields i)) st'.mem
        × ((st'.mem p).fields i ≡ v)
        × ((st'.mem p).lock_flag ≡ false)
        × ((a : ℕ) → is_live st'.mem a ≡ is_live st.mem a)
        × ((a j : ℕ) → (st'.mem a).fields j ≡ (if p == a && i == j then v else (st.mem a).fields j))
  unfolding store_in
  swap_field-Balanced others rounds p i v owed st free has one lt g =
      let st1 = lock_in st p true in
      let g1 = lock_in-Balanced (plus owed v) st p true g in
      let st2 = store_in st1 p i v in
      let fields1 = ap (λ (fs : ℕ → ℕ). fs i) (lock_in-fields st p true p) in
      let g2 : Balanced objs (plus owed ((st.mem p).fields i)) st2.mem =
        subst (λ o. Balanced objs (plus owed o) st2.mem) fields1
          (store_field-Balanced owed st1.mem p i v (lock_in-is_live st p true p ∙ has)
            (subst (λ n. i < n) (sym (lock_in-field_length st p true p)) lt) g1) in
      (
        lock_in st2 p false,
        swap_free others rounds p i v st (is_outside_live st.mem p i g.ledger.null has lt) free
            (not_borrowed (plus owed v) st.mem p i has one lt g),
        lock_in-Balanced (plus owed ((st.mem p).fields i)) st2 p false g2,
        ap (λ (fs : ℕ → ℕ). fs i)
              (lock_in-fields st2 p false p
                ∙ ap (λ (o : HeapObject). o.fields) (store_field_lem st1.mem p i v))
            ∙ ground arith,
        lock_in-lock_flag st2 p false,
        λ a.
            lock_in-is_live st2 p false a
            ∙ ap is_live_state (store_field-state st1.mem p i v a)
            ∙ lock_in-is_live st p true a,
        λ a j.
            ap (λ (fs : ℕ → ℕ). fs j) (lock_in-fields st2 p false a)
            ∙ store_field-fields st1.mem p i v a j
            ∙ ap (λ (fs : ℕ → ℕ). if p == a && i == j then v else fs j)
                (lock_in-fields st p true a),
      )
