-- ===== src/Vm/Orders/Fields/Locks.antt =====
-- The object lock, and what setting it leaves alone.
use cat_la_project.Base.{ℕ, zero, suc, ◌<◌, ◌≡◌, ◌≢◌, refl, Bool, true, false, arith, ℕ_discrete}
use cat_la_project.Heap.Object.{Memory}
use cat_la_project.Vm.Result.{ok, waiting}
use cat_la_project.Vm.Orders.Fields.{set_lock, is_outside, object_lock}

-- The object exists and has the field.
pub record Inside (mem : Memory) (parent index : ℕ) : Type 0 where
  pub not_null : parent ≢ 0
  pub has_field : index < (mem parent).field_length

-- The other threads keep to the protocol: they do not clear a flag that they did not set.
abbrev pub KeepsLock : (Memory → Memory) → ℕ → Type 0
KeepsLock others a = (mem : Memory) → (mem a).lock_flag ≡ true → (others mem a).lock_flag ≡ true

module _ (others : Memory → Memory) where
  pub object_lock_free :
      (f a : ℕ) (mem : Memory)
      → (mem a).lock_flag ≡ false
      → object_lock others (suc f) a mem ≡ ok (set_lock mem a true)
  unfolding object_lock
  object_lock_free f a mem h = rw h

  -- A lock that is held stays held.
  pub object_lock_held :
      (f a : ℕ) (mem : Memory)
      → KeepsLock others a
      → (mem a).lock_flag ≡ true
      → object_lock others f a mem ≡ waiting
  unfolding object_lock
  object_lock_held zero a mem keep h = refl
  object_lock_held (suc f) a mem keep h = rw h (object_lock_held f a (others mem) keep (keep mem h))

  pub set_lock-flag : (mem : Memory) (a : ℕ) (b : Bool) → (set_lock mem a b a).lock_flag ≡ b
  unfolding set_lock
  set_lock-flag mem a b = ground arith

  pub set_lock-fields :
      (mem : Memory) (a : ℕ) (b : Bool) → (set_lock mem a b a).fields ≡ (mem a).fields
  unfolding set_lock
  set_lock-fields mem a b = ground arith

  pub set_lock-length :
      (mem : Memory) (a : ℕ) (b : Bool) → (set_lock mem a b a).field_length ≡ (mem a).field_length
  unfolding set_lock
  set_lock-length mem a b = ground arith

  pub Inside-is_outside :
      (mem : Memory) (parent index : ℕ)
      → Inside mem parent index
      → is_outside mem parent index ≡ false
  Inside-is_outside mem parent index h = ground (arith, h.not_null, h.has_field)

  pub set_lock-count :
      (mem : Memory) (p : ℕ) (b : Bool) (a : ℕ) → (set_lock mem p b a).count ≡ (mem a).count
  unfolding set_lock
  set_lock-count mem p b a = elim (ℕ_discrete p a) [
    | yes e ↦ rw (← e) (ground arith)
    | no ne ↦ ground arith
  ]
