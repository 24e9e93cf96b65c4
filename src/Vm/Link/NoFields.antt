-- ===== src/Vm/Link/NoFields.antt =====
-- An object made by `NewClassObject` has no fields.
use cat_la_project.Base.{
  none, Option-cases, inl, inr, ℕ, suc, ◌<◌, ◌≡◌, refl, Bool, true, some, get_elem?,
  get_elem?-set_self, set, length, arith, ◌∙◌, ap, ltb,
}
use cat_la_project.Base.Strings.{Text}
use cat_la_project.Heap.Object.{Memory}
use cat_la_project.Heap.Allocator.{Answer}
use cat_la_project.Heap.Allocator
use cat_la_project.Heap.Allocator.Wf.{IsHeap}
use cat_la_project.Heap.Allocator.Total.{malloc-Served}
use cat_la_project.Vm.Modules.{
  Function, new_class_object, set_object_field, get_object_field, OwnershipOrder,
}
use cat_la_project.Vm.Result.{ok, fault, ◌>>=◌}
use cat_la_project.Vm.Machine.{Machine, Surroundings, read_register, write_register}
use cat_la_project.Vm.Orders.{eval, allocate, pointer}
use cat_la_project.Vm.Orders.Fields.{is_outside, set_field, get_field}
use cat_la_project.Vm.Link.{Types, link, make_new}

module _ (env : Surroundings) where
  eval-new :
      (result index ty : ℕ) (m : Machine) (ans : Answer)
      → Allocator.malloc env.calloc env.cycling ty 0 2 m.heap m.allocator_search_start_index
        ≡ some ans
      → result < length m.registers
      → eval env (new_class_object result index (some ty) 0) m
        ≡ ok (record m {
          heap = ans.state;
          allocator_search_start_index = ans.chunk_search_start_index;
          registers = set m.registers result (pointer ans.address);
        })
  unfolding eval allocate write_register
  eval-new result index ty m ans e lt =
      let fits : ltb result (length m.registers) ≡ true = ground arith in
      rw (e, allocate) (rw fits refl)

  read_register-at :
      (m : Machine) (i v : ℕ) → get_elem? m.registers i ≡ some v → read_register m i ≡ ok v
  unfolding read_register
  read_register-at m i v h = rw h refl

  read_register-missing :
      (m : Machine) (i : ℕ) → get_elem? m.registers i ≡ none → read_register m i ≡ fault
  unfolding read_register
  read_register-missing m i h = rw h refl

  set_field-outside :
      (others : Memory → Memory) (rounds : ℕ) (b : Bool) (p i object : ℕ) (mem : Memory)
      → is_outside mem p i ≡ true
      → set_field others rounds b p i object mem ≡ fault
  unfolding set_field
  set_field-outside others rounds b p i object mem out = rw out refl

  get_field-outside :
      (others : Memory → Memory) (rounds : ℕ) (own : OwnershipOrder) (p i : ℕ) (mem : Memory)
      → is_outside mem p i ≡ true
      → get_field others (suc rounds) own p i mem ≡ fault
  unfolding get_field
  get_field-outside others rounds own p i mem out = rw out refl

  eval-set_outside :
      (target source u i p : ℕ) (name : Text) (b : Bool) (m : Machine)
      → get_elem? m.registers target ≡ some p
      → is_outside m.heap.mem p i ≡ true
      → eval env (set_object_field target source u name i b) m ≡ fault
  unfolding eval
  eval-set_outside target source u i p name b m h out =
      elim (Option-cases (get_elem? m.registers source)) [
        | inl missing ↦
            rw (read_register-at m target p h, read_register-missing m source missing) refl
        | inr (v, k) ↦
            rw
              (
                read_register-at m target p h,
                read_register-at m source v k,
                set_field-outside env.others env.rounds b p i v m.heap.mem out,
              )
              refl
      ]

  eval-get_outside :
      (target result u i p : ℕ) (name : Text) (own : OwnershipOrder) (m : Machine) (r : ℕ)
      → env.rounds ≡ suc r
      → get_elem? m.registers target ≡ some p
      → is_outside m.heap.mem p i ≡ true
      → eval env (get_object_field target result u name i own) m ≡ fault
  unfolding eval
  eval-get_outside target result u i p name own m r rounds h out =
      let none_there = get_field-outside env.others r own p i m.heap.mem out in
      rw (read_register-at m target p h, rounds, none_there) refl

  -- On a well-formed heap, with a start index within the chunks, a result register within the registers
  -- and a type at the index: a linked `NewClassObject` makes an object, and every field of it is out of
  -- its bounds. Each read and each write of a field of the object in the result register, right after,
  -- faults, for every index and with one round at least.
  pub new_has_no_fields :
      (types : Types) (function : Function) (m : Machine) (cells result index ty r : ℕ)
      → env.rounds ≡ suc r
      → IsHeap env.calloc cells m.heap
      → m.allocator_search_start_index < m.heap.allocator.number_of_chunks
      → result < length m.registers
      → get_elem? types.using_types index ≡ some (some ty)
      → (m' : Machine) × ((link types function (make_new result index) >>= λ o. eval env o m)
          ≡ ok m')
        × ((source u i : ℕ) (name : Text) (b : Bool)
            → eval env (set_object_field result source u name i b) m' ≡ fault)
        × ((target u i : ℕ) (name : Text) (own : OwnershipOrder)
            → eval env (get_object_field result target u name i own) m' ≡ fault)
  unfolding link make_new
  new_has_no_fields types function m cells result index ty r rounds heap start room has =
      let (ans, e, v) =
        malloc-Served env.calloc cells env.cycling ty 0 0 m.allocator_search_start_index m.heap heap
          start (omega arith) in
      let m' : Machine = record m {
        heap = ans.state;
        allocator_search_start_index = ans.chunk_search_start_index;
        registers = set m.registers result (pointer ans.address);
      } in
      let at : get_elem? m'.registers result ≡ some v.a =
        get_elem?-set_self m.registers result (pointer ans.address) room
        ∙ ap (λ o. some (pointer o)) v.address in
      let outside : (i : ℕ) → is_outside m'.heap.mem v.a i ≡ true =
        λ i. ground (arith, v.fresh.field_length) in
      (
        m',
        rw has (eval-new result index ty m ans e room),
        λ source u i name b. eval-set_outside result source u i v.a name b m' at (outside i),
        λ target u i name own.
            eval-get_outside result target u i v.a name own m' r rounds at (outside i),
      )
