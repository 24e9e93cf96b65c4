-- ===== src/Vm/Orders/Fields/Set.antt =====
-- What a write of a field does, and that it waits for a borrowed field to be given back.
use cat_la_project.Base.{
  ℕ, zero, suc, ◌<◌, ◌≡◌, ◌≢◌, refl, true, false, arith, ◌==◌, ◌∙◌, if◌then◌else◌,
}
use cat_la_project.Heap.Object.{Memory}
use cat_la_project.Vm.Result.{ok}
use cat_la_project.Vm.Orders.Fields.{set_lock, store_field, object_lock, set_field_loop, set_field}
use cat_la_project.Vm.Orders.Fields.Locks.{
  Inside, object_lock_free, set_lock-fields, Inside-is_outside,
}

module _ (others : Memory → Memory) where
  set_field_again :
      (f parent index object : ℕ) (mem mem' : Memory)
      → object_lock others (suc f) parent mem ≡ ok mem'
      → ((mem' parent).fields index == 1) ≡ true
      → set_field_loop others (suc f) parent index object mem
        ≡ set_field_loop others f parent index object (others (set_lock mem' parent false))
  unfolding set_field_loop
  set_field_again f parent index object mem mem' locked is_one = rw (locked, is_one) refl

  set_field_done :
      (f parent index object : ℕ) (mem mem' : Memory)
      → object_lock others (suc f) parent mem ≡ ok mem'
      → ((mem' parent).fields index == 1) ≡ false
      → set_field_loop others (suc f) parent index object mem
        ≡ ok (set_lock (store_field mem' parent index object) parent false)
  unfolding set_field_loop
  set_field_done f parent index object mem mem' locked is_one = rw (locked, is_one) refl

  -- The memory after one try of a write that found the field borrowed.
  abbrev retried : Memory → ℕ → Memory
  retried mem parent = others (set_lock (set_lock mem parent true) parent false)

  -- The field is borrowed for `k` tries, and given back before the next; the lock is free each time.
  abbrev pub GivenBack : ℕ → (parent index : ℕ) → Memory → Type 0
  GivenBack zero parent index mem =
      ((mem parent).lock_flag ≡ false) × ((mem parent).fields index ≢ 1)
  GivenBack (suc k) parent index mem =
      ((mem parent).lock_flag ≡ false)
      × ((mem parent).fields index ≡ 1)
      × GivenBack k parent index (retried mem parent)

  -- The memory that the successful try finds.
  abbrev pub at_try : ℕ → ℕ → Memory → Memory
  at_try zero parent mem = mem
  at_try (suc k) parent mem = at_try k parent (retried mem parent)

  abbrev pub Stored : (parent index object : ℕ) → Memory → Memory → Type 0
  Stored parent index object mem mem' =
      ((mem' parent).lock_flag ≡ false)
      × ((j : ℕ) → (mem' parent).fields j ≡ (if index == j then object else (mem parent).fields j))
      × ((b : ℕ) → b ≢ parent → mem' b ≡ mem b)

  store-Stored :
      (parent index object : ℕ) (mem : Memory)
      → Stored parent index object mem
          (set_lock (store_field (set_lock mem parent true) parent index object) parent false)
  unfolding set_lock store_field
  store-Stored parent index object mem = (ground arith, λ j. ground arith, λ b ne. ground arith)

  set_field_loop-Stored :
      (k f parent index object : ℕ) (mem : Memory)
      → k < f
      → GivenBack k parent index mem
      → (mem' : Memory) × (set_field_loop others f parent index object mem ≡ ok mem')
        × Stored parent index object (at_try k parent mem) mem'
  set_field_loop-Stored k zero parent index object mem lt g = absurd (omega arith)
  set_field_loop-Stored zero (suc f) parent index object mem lt g =
      let is_one : ((set_lock mem parent true parent).fields index == 1) ≡ false =
        rw (set_lock-fields others mem parent true) (ground arith) in
      (
        _,
        set_field_done f parent index object mem _ (object_lock_free others f parent mem g.0)
            is_one,
        store-Stored parent index object mem,
      )
  set_field_loop-Stored (suc k) (suc f) parent index object mem lt g =
      let is_one : ((set_lock mem parent true parent).fields index == 1) ≡ true =
        rw (set_lock-fields others mem parent true) (ground arith) in
      let (mem', e, stored) =
        set_field_loop-Stored k f parent index object (retried mem parent) (omega arith) g.2 in
      (
        mem',
        set_field_again f parent index object mem _ (object_lock_free others f parent mem g.0)
              is_one
            ∙ e,
        stored,
      )

  -- A write with `borrow_lock`, to a field of the object that is borrowed for `k` tries and then given
  -- back, the lock being free at each try, ends with more than `k` rounds. It stores the object and
  -- releases the lock, and leaves the other fields and the other objects as the last try found them.
  pub set_field_waits :
      (k f parent index object : ℕ) (mem : Memory)
      → Inside mem parent index
      → k < f
      → GivenBack k parent index mem
      → (mem' : Memory) × (set_field others f true parent index object mem ≡ ok mem')
        × Stored parent index object (at_try k parent mem) mem'
  unfolding set_field
  set_field_waits k f parent index object mem inside lt g =
      rw (Inside-is_outside others mem parent index inside)
        (set_field_loop-Stored k f parent index object mem lt g)
