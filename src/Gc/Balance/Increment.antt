-- ===== src/Gc/Balance/Increment.antt =====
-- `increment_reference_count` of gc/GC.h: the count, and the list of the objects the collector looks at.
use cat_la_project.Base.{
  ℕ, ◌+◌, ◌^◌, ◌<◌, ◌≡◌, refl, ◌∙◌, Bool, true, not, ◌&&◌, List, ◌%◌, ◌==◌, if◌then◌else◌, arith,
  Bool-cases, inl, inr,
}
use cat_la_project.Heap.Object.{Memory, HeapObject}
use cat_la_project.Vm.Orders.Fields.{add_count}
use cat_la_project.Gc.Counts.{
  GcState, contains, insert, suspect, add_suspected_object, increment_reference_count,
}
use cat_la_project.Gc.Ledger.{plus}
use cat_la_project.Gc.Balance.{is_live, Balanced, SameShape, SameShape-Balanced, add_count-Balanced}

suspect-SameShape :
    (x : ℕ) (st : GcState) (objs : List ℕ) → SameShape objs st.mem (suspect x st).mem
unfolding suspect
suspect-SameShape x st objs a = (ground arith, ground arith, ground arith)

suspect-count : (x : ℕ) (st : GcState) (a : ℕ) → ((suspect x st).mem a).count ≡ (st.mem a).count
unfolding suspect
suspect-count x st a = ground arith

suspect-Balanced :
    (objs : List ℕ) (x : ℕ) (owed : ℕ → ℕ) (st : GcState)
    → Balanced objs owed st.mem
    → Balanced objs owed (suspect x st).mem
suspect-Balanced objs x owed st g =
    SameShape-Balanced objs owed owed st.mem (suspect x st).mem (suspect-SameShape x st objs)
      (λ a h. omega (arith, suspect-count x st a)) (λ a h. omega (arith, suspect-count x st a))
      (λ a h. omega (arith, suspect-count x st a, g.ledger.small a h)) (λ a z h. refl) g

add_count_lem :
    (mem : Memory) (x a : ℕ)
    → (add_count mem x a).count ≡ (if x == a then ((mem a).count + 1) % 2 ^ 64 else (mem a).count)
unfolding add_count
add_count_lem mem x a = ground arith

add_count-async_release :
    (mem : Memory) (x a : ℕ) → (add_count mem x a).async_release ≡ (mem a).async_release
unfolding add_count
add_count-async_release mem x a = ground arith

-- A new reference to a live object is counted, as long as the count does not reach 2 ^ 64.
pub increment_reference_count-Balanced :
    (objs : List ℕ) (x : ℕ) (owed : ℕ → ℕ) (st : GcState)
    → is_live st.mem x ≡ true
    → (st.mem x).count + 1 < 2 ^ 64
    → Balanced objs owed st.mem
    → Balanced objs (plus owed x) (increment_reference_count x st).mem
unfolding increment_reference_count
increment_reference_count-Balanced objs x owed st has lt g =
    let st1 : GcState = record st { mem = add_count st.mem x } in
    let g1 = add_count-Balanced objs x owed st.mem has lt g in
    elim (Bool-cases ((st.mem x).count == 1 && (st.mem x).is_cyclic_type)) [
      | inl e ↦ rw e (suspect-Balanced objs x (plus owed x) st1 g1)
      | inr e ↦ rw e g1
    ]

-- Whether an object is made known to the collector by a new reference: it has a cyclic type, and it is
-- the second.
abbrev pub is_second : HeapObject → Bool
is_second object = object.count == 1 && object.is_cyclic_type

-- The counts, the flags and the list after a new reference to `x`.
abbrev pub Suspects : ℕ → GcState → GcState → Type 0
Suspects x st st' =
    (a : ℕ)
    → ((st'.mem a).count ≡ (if x == a then ((st.mem a).count + 1) % 2 ^ 64 else (st.mem a).count))
      × ((st'.mem a).async_release
          ≡ (if x == a && is_second (st.mem x) then true else (st.mem a).async_release))
      × (contains st'.suspected a ≡ (
          if x == a && (is_second (st.mem x) && not (st.mem x).async_release)
          then true
          else contains st.suspected a))

contains-insert :
    (x a : ℕ) (set : List ℕ) → contains (insert x set) a ≡ (if x == a then true else contains set a)
unfolding insert
contains-insert x a set = ground arith

suspect-async_release :
    (x : ℕ) (st : GcState) (a : ℕ)
    → ((suspect x st).mem a).async_release ≡ (if x == a then true else (st.mem a).async_release)
unfolding suspect
suspect-async_release x st a = ground arith

suspect-suspected :
    (x : ℕ) (st : GcState) (a : ℕ)
    → contains (suspect x st).suspected a
      ≡ (if x == a && not (st.mem x).async_release then true else contains st.suspected a)
unfolding suspect add_suspected_object
suspect-suspected x st a = elim (Bool-cases (st.mem x).async_release) [
  | inl e ↦ rw e (ground arith)
  | inr e ↦ rw e (contains-insert x a st.suspected ∙ ground arith)
]

-- A new reference adds one to the count of its object, modulo 2 ^ 64, and to no other. An object with a
-- cyclic type that gets its second reference has `async_release` set afterwards, and stands in the list
-- of suspected objects if the flag was not set before; no other flag and no other entry changes.
pub increment_reference_count-Suspects :
    (x : ℕ) (st : GcState) → Suspects x st (increment_reference_count x st)
unfolding increment_reference_count
increment_reference_count-Suspects x st a =
    let st1 : GcState = record st { mem = add_count st.mem x } in
    let count = add_count_lem st.mem x a in
    let flag = add_count-async_release st.mem x a in
    let flag_x = add_count-async_release st.mem x x in
    elim (Bool-cases (is_second (st.mem x))) [
      | inl e ↦ rw e (
        suspect-count x st1 a ∙ count,
        suspect-async_release x st1 a ∙ ground arith,
        suspect-suspected x st1 a ∙ rw flag_x (ground arith),
      )
      | inr e ↦ rw e (count, ground arith, ground arith)
    ]
