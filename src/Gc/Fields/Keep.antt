-- ===== src/Gc/Fields/Keep.antt =====
-- The field functions of CatLa.cpp keep every count equal to the number of references.
use cat_la_project.Base.{
  ℕ, suc, ◌+◌, ◌^◌, ◌≤◌, ◌<◌, ◌≡◌, ◌≢◌, ◌%◌, ℕ_discrete, refl, sym, ◌∙◌, ap, subst, true, false,
  List, ◌==◌, ◌&&◌, if◌then◌else◌, arith, Bool-cases, inl, inr,
}
use cat_la_project.Heap.Object.{Memory, HeapObject}
use cat_la_project.Vm.Orders.Fields.{add_count, is_outside}
use cat_la_project.Vm.Result.{ok}
use cat_la_project.Gc.Counts.{GcState, suspect, increment_reference_count}
use cat_la_project.Gc.Ledger.{size, plus}
use cat_la_project.Gc.Ledger.Moves.{Going-eq, owed-held}
use cat_la_project.Gc.Balance.{is_live_state, is_live, Balanced, Freed-is_live, Freed-Balanced}
use cat_la_project.Gc.Counts.Loop.{decrement_reference_count-Freed}
use cat_la_project.Gc.Balance.Reach.{field-referenced, root, Freed-keeps}
use cat_la_project.Gc.Balance.Increment.{
  increment_reference_count-Balanced, increment_reference_count-Suspects,
}
use cat_la_project.Gc.Fields.{
  lock_in, drop_old, set_clone_object_field, set_move_object_field, get_move_object_field,
  get_clone_object_field,
}
use cat_la_project.Gc.Fields.Swap.{
  lock_in-Balanced, lock_in-count, lock_in-fields, lock_in-is_live, lock_in-lock_flag,
  lock_object_free, is_outside_live, not_borrowed, swap_field-Balanced,
}

count_one :
    (x a n : ℕ)
    → (x ≡ a → n + 1 < 2 ^ 64)
    → (if x == a then (n + 1) % 2 ^ 64 else n) ≡ (if x == a then 1 else 0) + n
count_one x a n small = elim (ℕ_discrete x a) [
  | yes e ↦ let lt = small e in ground arith
  | no ne ↦ ground arith
]

module _ (objs : List ℕ) where
  -- Nothing is owed of null.
  plus_null :
      (owed : ℕ → ℕ) (mem : Memory) → Balanced objs (plus owed 0) mem → Balanced objs owed mem
  plus_null owed mem g =
      Going-eq objs (is_live mem) (plus owed 0) owed (λ a. 0) (λ a. 0) mem (λ a ne. ground arith)
        (λ a. refl) g

  null_plus :
      (owed : ℕ → ℕ) (mem : Memory) → Balanced objs owed mem → Balanced objs (plus owed 0) mem
  null_plus owed mem g =
      Going-eq objs (is_live mem) owed (plus owed 0) (λ a. 0) (λ a. 0) mem (λ a ne. ground arith)
        (λ a. refl) g

  -- What the release of the old value leaves: what is referenced from outside the heap is live, and
  -- nothing but the count of what is live has changed.
  pub record Kept (owed : ℕ → ℕ) (st st' : GcState) : Type 0 where
    pub referenced : (p : ℕ) → p ≢ 0 → 0 < owed p → is_live st'.mem p ≡ true
    pub same :
        (a : ℕ)
        → is_live st'.mem a ≡ true
        → st'.mem a ≡ record (st.mem a) { count = (st'.mem a).count }

  drop_old-Balanced :
      (fuel old : ℕ) (owed : ℕ → ℕ) (st : GcState)
      → size objs (is_live st.mem) ≤ fuel
      → Balanced objs (plus owed old) st.mem
      → (st' : GcState) × (drop_old fuel old st ≡ ok st')
        × Balanced objs owed st'.mem
        × Kept owed st st'
  unfolding drop_old
  drop_old-Balanced fuel old owed st le g = elim (Bool-cases (old == 0)) [
    | inl e ↦
        let null : old ≡ 0 = ground arith in
        let g' = plus_null owed st.mem (subst (λ o. Balanced objs (plus owed o) st.mem) null g) in
        (
          st,
          rw e refl,
          g',
          record {
            referenced = λ p ne pos. owed-held objs (is_live st.mem) owed st.mem p g'.ledger ne pos;
            same = λ a has. refl;
          },
        )
    | inr e ↦
        let (mem, done, f) =
          decrement_reference_count-Freed objs fuel old (is_live st.mem) owed st.mem le
            (ground arith) g in
        (
          record st { mem = mem },
          rw (e, done) refl,
          Freed-Balanced objs owed st.mem mem f,
          record {
            referenced = λ p ne pos.
                sym (Freed-is_live objs owed st.mem mem f p)
                ∙ Freed-keeps objs (is_live st.mem) owed st.mem mem f p (root ne pos);
            same = λ a has. f.after.kept a (Freed-is_live objs owed st.mem mem f a ∙ has);
          },
        )
  ]

  size-is_live :
      (m m' : Memory)
      → ((a : ℕ) → is_live m' a ≡ is_live m a)
      → size objs (is_live m') ≡ size objs (is_live m)
  size-is_live m m' h = ap (size objs) (λ i a. h a i)

  -- What a store of `v` in field `i` of `p` comes to: the counts are right, `p` is live and its lock free,
  -- field `i` of it holds `v`, and every other field of an object that is live is as it was.
  pub record Stored (p i v : ℕ) (owed : ℕ → ℕ) (st st' : GcState) : Type 0 where
    pub balanced : Balanced objs owed st'.mem
    pub lives : is_live st'.mem p ≡ true
    pub unlocked : (st'.mem p).lock_flag ≡ false
    pub fields :
        (a j : ℕ)
        → is_live st'.mem a ≡ true
        → (st'.mem a).fields j ≡ (if p == a && i == j then v else (st.mem a).fields j)

  -- A reference that the caller gives away is moved into a field of an object whose lock is free and that
  -- is referenced from outside the heap. The function returns, the field holds the reference, no other
  -- field of an object that is live afterwards has changed, what the field held is released, and the
  -- counts are right without the reference that was given away.
  pub set_move_object_field-Balanced :
      (others : GcState → GcState) (rounds fuel p i v : ℕ) (owed : ℕ → ℕ) (st : GcState)
      → size objs (is_live st.mem) ≤ fuel
      → (st.mem p).lock_flag ≡ false
      → p ≢ 0
      → 0 < owed p
      → is_live st.mem 1 ≡ false
      → i < (st.mem p).field_length
      → Balanced objs (plus owed v) st.mem
      → (st' : GcState) × (set_move_object_field others (suc rounds) fuel p i v st ≡ ok st')
        × Stored p i v owed st st'
  unfolding set_move_object_field
  set_move_object_field-Balanced others rounds fuel p i v owed st le free ne pos one lt g =
      let has = owed-held objs (is_live st.mem) (plus owed v) st.mem p g.ledger ne (ground arith) in
      let (st1, e, g1, stored, unlocked, lives, fields) =
        swap_field-Balanced objs others rounds p i v owed st free has one lt g in
      let le1 : size objs (is_live st1.mem) ≤ fuel =
        omega (arith, size-is_live st.mem st1.mem lives) in
      let (st2, e', g2, kept) = drop_old-Balanced fuel ((st.mem p).fields i) owed st1 le1 g1 in
      let still = kept.referenced p ne pos in
      (
        st2,
        rw (e, e') refl,
        record {
          balanced = g2;
          lives = still;
          unlocked = ap (λ (o : HeapObject). o.lock_flag) (kept.same p still) ∙ unlocked;
          fields = λ a j here. ap (λ (o : HeapObject). o.fields j) (kept.same a here) ∙ fields a j;
        },
      )

  increment-kept :
      (x : ℕ) (st : GcState) (a : ℕ)
      → (((increment_reference_count x st).mem a).lock_flag ≡ (st.mem a).lock_flag)
        × (((increment_reference_count x st).mem a).state ≡ (st.mem a).state)
        × (((increment_reference_count x st).mem a).field_length ≡ (st.mem a).field_length)
        × (((increment_reference_count x st).mem a).fields ≡ (st.mem a).fields)
  unfolding increment_reference_count suspect add_count
  increment-kept x st a = (ground arith, ground arith, ground arith, ground arith)

  -- A live object is stored in a field of an object whose lock is free and that is referenced from
  -- outside the heap. The function returns, the field holds the object and counts as a reference of its
  -- own, no other field of an object that is live afterwards has changed, and what the field held is
  -- released.
  pub set_clone_object_field-Balanced :
      (others : GcState → GcState) (rounds fuel p i v : ℕ) (owed : ℕ → ℕ) (st : GcState)
      → size objs (is_live st.mem) ≤ fuel
      → (st.mem p).lock_flag ≡ false
      → p ≢ 0
      → 0 < owed p
      → is_live st.mem 1 ≡ false
      → i < (st.mem p).field_length
      → is_live st.mem v ≡ true
      → (st.mem v).count + 1 < 2 ^ 64
      → Balanced objs owed st.mem
      → (st' : GcState) × (set_clone_object_field others (suc rounds) fuel p i v st ≡ ok st')
        × Stored p i v owed st st'
  unfolding set_clone_object_field set_move_object_field
  set_clone_object_field-Balanced others rounds fuel p i v owed st le free ne pos one lt lives small
        g =
      let st1 = increment_reference_count v st in
      let kept = increment-kept v st in
      let same : (a : ℕ) → is_live st1.mem a ≡ is_live st.mem a =
        λ a. ap is_live_state (kept a).1 in
      let (st', e, r) =
        set_move_object_field-Balanced others rounds fuel p i v owed st1
          (omega (arith, size-is_live st.mem st1.mem same)) ((kept p).0 ∙ free) ne pos
          (same 1 ∙ one) (omega (arith, (kept p).2))
          (increment_reference_count-Balanced objs v owed st lives small g) in
      (
        st',
        e,
        record {
          balanced = r.balanced;
          lives = r.lives;
          unlocked = r.unlocked;
          fields = λ a j here.
              r.fields a j here
              ∙ ap (λ (fs : ℕ → ℕ). if p == a && i == j then v else fs j) (kept a).3;
        },
      )

  -- What a field of a live object holds is moved out of it: the caller has the reference, and the field
  -- is null.
  pub get_move_object_field-Balanced :
      (others : GcState → GcState) (rounds p i : ℕ) (owed : ℕ → ℕ) (st : GcState)
      → (st.mem p).lock_flag ≡ false
      → is_live st.mem p ≡ true
      → is_live st.mem 1 ≡ false
      → i < (st.mem p).field_length
      → Balanced objs owed st.mem
      → (st' : GcState) × (get_move_object_field others (suc rounds) p i st
          ≡ ok ((st.mem p).fields i, st'))
        × Balanced objs (plus owed ((st.mem p).fields i)) st'.mem
        × ((st'.mem p).fields i ≡ 0)
  unfolding get_move_object_field
  get_move_object_field-Balanced others rounds p i owed st free has one lt g =
      let (st1, e, g1, stored, unlocked, lives, fields) =
        swap_field-Balanced objs others rounds p i 0 owed st free has one lt
          (null_plus owed st.mem g) in
      (st1, e, g1, stored)

  clone_free :
      (others : GcState → GcState) (rounds p i : ℕ) (st : GcState)
      → is_outside st.mem p i ≡ false
      → (st.mem p).lock_flag ≡ false
      → ((st.mem p).fields i == 1) ≡ false
      → get_clone_object_field others (suc rounds) p i st
        ≡ ok (
          (st.mem p).fields i,
          lock_in
              (if (st.mem p).fields i == 0
                then lock_in st p true
                else increment_reference_count ((st.mem p).fields i) (lock_in st p true))
              p
              false,
        )
  unfolding get_clone_object_field
  clone_free others rounds p i st inside free more =
      let st1 = lock_in st p true in
      let here = ap (λ (fs : ℕ → ℕ). fs i) (lock_in-fields objs st p true p) in
      let not_one : ((st1.mem p).fields i == 1) ≡ false =
        subst (λ o. (o == 1) ≡ false) (sym here) more in
      subst
        (λ o.
          get_clone_object_field others (suc rounds) p i st
          ≡ ok (o, lock_in (if o == 0 then st1 else increment_reference_count o st1) p false))
        here (rw (inside, lock_object_free objs others rounds p st free, not_one) refl)

  -- The state after a field of `p` was read that holds `object`.
  abbrev taken : (p object : ℕ) → GcState → GcState
  taken p object st =
      let st1 = lock_in st p true in
      lock_in (if object == 0 then st1 else increment_reference_count object st1) p false

  taken-fields :
      (p object : ℕ) (st : GcState) (a : ℕ) → ((taken p object st).mem a).fields ≡ (st.mem a).fields
  taken-fields p object st a =
      let st1 = lock_in st p true in
      elim (Bool-cases (object == 0)) [
        | inl e ↦ rw e (lock_in-fields objs st1 p false a ∙ lock_in-fields objs st p true a)
        | inr e ↦ rw e (
            lock_in-fields objs (increment_reference_count object st1) p false a
            ∙ (increment-kept object st1 a).3
            ∙ lock_in-fields objs st p true a)
      ]

  taken-count :
      (p object : ℕ) (st : GcState) (a : ℕ)
      → (st.mem object).count + 1 < 2 ^ 64
      → ((taken p object st).mem a).count
        ≡ (if object == 0 then 0 else if object == a then 1 else 0) + (st.mem a).count
  taken-count p object st a small =
      let st1 = lock_in st p true in
      let locked = lock_in-count objs st p true a in
      elim (Bool-cases (object == 0)) [
        | inl e ↦ rw e (omega (arith, lock_in-count objs st1 p false a, locked))
        | inr e ↦
            let counted = (increment_reference_count-Suspects object st1 a).0 in
            let unlocked = lock_in-count objs (increment_reference_count object st1) p false a in
            rw e (
              unlocked
              ∙ counted
              ∙ rw locked (
                  count_one object a (st.mem a).count
                    (λ q. subst (λ b. (st.mem b).count + 1 < 2 ^ 64) q small)))
      ]

  -- A reference to `object` was taken out of a field of `p`, which keeps its own.
  pub record CountedOnce (p object : ℕ) (st st' : GcState) : Type 0 where
    pub fields : (a : ℕ) → (st'.mem a).fields ≡ (st.mem a).fields
    pub count :
        (a : ℕ)
        → (st'.mem a).count
          ≡ (if object == 0 then 0 else if object == a then 1 else 0) + (st.mem a).count
    pub unlocked : (st'.mem p).lock_flag ≡ false

  -- What a field of a live object holds is read: the caller has a reference of its own, which is counted
  -- where it is not null, no other count and no field of any object changes, and the lock is free.
  pub get_clone_object_field-Balanced :
      (others : GcState → GcState) (rounds p i : ℕ) (owed : ℕ → ℕ) (st : GcState)
      → (st.mem p).lock_flag ≡ false
      → is_live st.mem p ≡ true
      → is_live st.mem 1 ≡ false
      → i < (st.mem p).field_length
      → (st.mem ((st.mem p).fields i)).count + 1 < 2 ^ 64
      → Balanced objs owed st.mem
      → (st' : GcState) × (get_clone_object_field others (suc rounds) p i st
          ≡ ok ((st.mem p).fields i, st'))
        × Balanced objs (plus owed ((st.mem p).fields i)) st'.mem
        × CountedOnce p ((st.mem p).fields i) st st'
  get_clone_object_field-Balanced others rounds p i owed st free has one lt small g =
      let object = (st.mem p).fields i in
      let st1 = lock_in st p true in
      let g1 = lock_in-Balanced objs owed st p true g in
      let st2 : GcState = if object == 0 then st1 else increment_reference_count object st1 in
      let g2 : Balanced objs (plus owed object) st2.mem = elim (Bool-cases (object == 0)) [
        | inl e ↦
            let null : object ≡ 0 = ground arith in
            rw e (
              subst (λ o. Balanced objs (plus owed o) st1.mem) (sym null)
                (null_plus owed st1.mem g1))
        | inr e ↦
            let lives =
              field-referenced objs (is_live st.mem) owed st.mem p i g.ledger has lt
                (ground arith) in
            rw e (
              increment_reference_count-Balanced objs object owed st1
                (lock_in-is_live objs st p true object ∙ lives)
                (omega (arith, lock_in-count objs st p true object)) g1)
      ] in
      (
        lock_in st2 p false,
        clone_free others rounds p i st (is_outside_live objs st.mem p i g.ledger.null has lt) free
            (not_borrowed objs owed st.mem p i has one lt g),
        lock_in-Balanced objs (plus owed object) st2 p false g2,
        record {
          fields = taken-fields p object st;
          count = λ a. taken-count p object st a small;
          unlocked = lock_in-lock_flag objs st2 p false;
        },
      )
