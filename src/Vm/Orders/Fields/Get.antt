-- ===== src/Vm/Orders/Fields/Get.antt =====
-- What a read of a field does: the field moves as the ownership says and the lock is released, but a
-- borrowed field makes the order wait for itself.
use cat_la_project.Base.{
  ℕ, zero, suc, ◌+◌, ◌%◌, ◌^◌, ◌≡◌, ◌≢◌, refl, true, false, arith, ◌==◌, ◌∙◌, ap, if◌then◌else◌,
  ℕ_discrete,
}
use mathlib.Core.Path.{ap₂}
use cat_la_project.Heap.Object.{Memory}
use cat_la_project.Vm.Modules.{OwnershipOrder, clone, borrow, move}
use cat_la_project.Vm.Result.{Result, ok, waiting}
use cat_la_project.Vm.Orders.Fields.{set_lock, is_outside, take_field, object_lock, get_field}
use cat_la_project.Vm.Orders.Fields.Locks.{
  Inside, KeepsLock, object_lock_free, object_lock_held, set_lock-flag, set_lock-fields,
  set_lock-length, set_lock-count, Inside-is_outside,
}

-- What is left in the field.
abbrev pub left : OwnershipOrder → ℕ → ℕ
left clone object = object
left borrow object = 1
left move object = 0

-- The count of an object after a read of `object`.
abbrev pub counted : OwnershipOrder → (object a count : ℕ) → ℕ
counted clone object a count =
    if object == 0 then count else if object == a then (count + 1) % 2 ^ 64 else count
counted borrow object a count = count
counted move object a count = count

ok-object :
    (a b : ℕ) (mem : Memory)
    → a ≡ b
    → (let r : Result (ℕ × Memory) = ok (a, mem) in r ≡ ok (b, mem))
ok-object a b mem e = rw e

module _ (others : Memory → Memory) where
  get_field-zero :
      (parent index : ℕ) (own : OwnershipOrder) (mem : Memory)
      → get_field others zero own parent index mem ≡ waiting
  unfolding get_field
  get_field-zero parent index own mem = refl

  -- With the lock held, a try of `get_field` waits as long as it is given rounds.
  get_field_held :
      (f parent index : ℕ) (own : OwnershipOrder) (mem : Memory)
      → KeepsLock others parent
      → Inside mem parent index
      → (mem parent).lock_flag ≡ true
      → get_field others f own parent index mem ≡ waiting
  unfolding get_field
  get_field_held zero parent index own mem keep inside h = refl
  get_field_held (suc f) parent index own mem keep inside h =
      rw
        (
          Inside-is_outside others mem parent index inside,
          object_lock_held others (suc f) parent mem keep h,
        )
        refl

  get_field_again :
      (f parent index : ℕ) (own : OwnershipOrder) (mem mem' : Memory)
      → is_outside mem parent index ≡ false
      → object_lock others (suc f) parent mem ≡ ok mem'
      → ((mem' parent).fields index == 1) ≡ true
      → get_field others (suc f) own parent index mem ≡ get_field others f own parent index mem'
  unfolding get_field
  get_field_again f parent index own mem mem' inside locked is_one =
      rw (inside, locked, is_one) refl

  -- A read of a borrowed field that finds the object unlocked does not end in any number of rounds, if
  -- the other threads never clear a lock that is set: it waits for the lock that it holds itself.
  pub get_field_deadlock :
      (f parent index : ℕ) (own : OwnershipOrder) (mem : Memory)
      → KeepsLock others parent
      → Inside mem parent index
      → (mem parent).lock_flag ≡ false
      → (mem parent).fields index ≡ 1
      → get_field others f own parent index mem ≡ waiting
  get_field_deadlock zero parent index own mem keep inside unlocked borrowed =
      get_field-zero parent index own mem
  get_field_deadlock (suc f) parent index own mem keep inside unlocked borrowed =
      get_field_again f parent index own mem (set_lock mem parent true)
        (Inside-is_outside others mem parent index inside)
        (object_lock_free others f parent mem unlocked)
        (rw (set_lock-fields others mem parent true, borrowed) refl)
      ∙ get_field_held f parent index own (set_lock mem parent true) keep
          (record {
            not_null = inside.not_null;
            has_field = rw (set_lock-length others mem parent true) inside.has_field;
          })
          (set_lock-flag others mem parent true)

  take_field-fields :
      (own : OwnershipOrder) (parent index : ℕ) (mem : Memory) (j : ℕ)
      → (take_field own parent index ((mem parent).fields index) mem parent).fields j
        ≡ (if index == j then left own ((mem parent).fields index) else (mem parent).fields j)
  unfolding take_field
  take_field-fields clone parent index mem j = elim (ℕ_discrete index j) [
    | yes e ↦ rw (← e) (ground arith)
    | no ne ↦ ground arith
  ]
  take_field-fields borrow parent index mem j = ground arith
  take_field-fields move parent index mem j = ground arith

  take_field-count :
      (own : OwnershipOrder) (parent index object : ℕ) (mem : Memory) (a : ℕ)
      → (take_field own parent index object mem a).count ≡ counted own object a (mem a).count
  unfolding take_field
  take_field-count clone parent index object mem a = elim (ℕ_discrete object a) [
    | yes e ↦ rw (← e) (ground arith)
    | no ne ↦ ground arith
  ]
  take_field-count borrow parent index object mem a = elim (ℕ_discrete parent a) [
    | yes e ↦ rw (← e) (ground arith)
    | no ne ↦ ground arith
  ]
  take_field-count move parent index object mem a = elim (ℕ_discrete parent a) [
    | yes e ↦ rw (← e) (ground arith)
    | no ne ↦ ground arith
  ]

  get_field_done :
      (f parent index : ℕ) (own : OwnershipOrder) (mem mem' : Memory)
      → is_outside mem parent index ≡ false
      → object_lock others (suc f) parent mem ≡ ok mem'
      → ((mem' parent).fields index == 1) ≡ false
      → get_field others (suc f) own parent index mem
        ≡ ok (
          (mem' parent).fields index,
          set_lock (take_field own parent index ((mem' parent).fields index) mem') parent false,
        )
  unfolding get_field
  get_field_done f parent index own mem mem' inside locked is_one = rw (inside, locked, is_one) refl

  -- A read of a field of an object that exists, is not locked, and whose field is not borrowed, returns
  -- the field in one round and releases the lock. `clone` leaves the field and adds one reference to the
  -- object in it, `borrow` leaves the mark and `move` a null; other fields and counts stay.
  pub get_field_takes :
      (f parent index : ℕ) (own : OwnershipOrder) (mem : Memory)
      → Inside mem parent index
      → (mem parent).lock_flag ≡ false
      → (mem parent).fields index ≢ 1
      → (mem' : Memory) × (get_field others (suc f) own parent index mem
          ≡ ok ((mem parent).fields index, mem'))
        × ((mem' parent).lock_flag ≡ false)
        × ((j : ℕ)
            → (mem' parent).fields j ≡ (
                if index == j then left own ((mem parent).fields index) else (mem parent).fields j))
        × ((a : ℕ) → (mem' a).count ≡ counted own ((mem parent).fields index) a (mem a).count)
  get_field_takes f parent index own mem inside unlocked ne =
      let locked = set_lock mem parent true in
      let same = set_lock-fields others mem parent true in
      let object : ℕ = (mem parent).fields index in
      let is_one : ((locked parent).fields index == 1) ≡ false = rw same (ground arith) in
      (
        set_lock (take_field own parent index ((locked parent).fields index) locked) parent false,
        get_field_done f parent index own mem locked
              (Inside-is_outside others mem parent index inside)
              (object_lock_free others f parent mem unlocked) is_one
            ∙ ok-object _ _
                (set_lock (take_field own parent index ((locked parent).fields index) locked) parent
                  false)
                (ap (λ (fs : ℕ → ℕ). fs index) same),
        set_lock-flag others _ parent false,
        λ j.
            ap (λ (fs : ℕ → ℕ). fs j) (set_lock-fields others _ parent false)
            ∙ take_field-fields own parent index locked j
            ∙ ap (λ (fs : ℕ → ℕ). if index == j then left own (fs index) else fs j) same,
        λ a.
            set_lock-count others _ parent false a
            ∙ take_field-count own parent index ((locked parent).fields index) locked a
            ∙ ap₂ (λ (fs : ℕ → ℕ) (c : ℕ). counted own (fs index) a c) same
                (set_lock-count others mem parent true a),
      )
