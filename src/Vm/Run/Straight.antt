-- ===== src/Vm/Run/Straight.antt =====
-- A block with no jump runs as the list of its orders, up to the first return or the end.
use cat_la_project.Base.{
  ℕ, zero, suc, ◌+◌, ◌≤◌, ◌<◌, Bool-cases, inl, inr, ◌≡◌, ◌≢◌, refl, Bool, true, false, ◌||◌, some,
  List, [], ◌∷◌, get_elem?, length, drop, drop-cons, ◌==◌, arith, ◌∙◌, sym, ap, if◌then◌else◌,
}
use cat_la_project.Vm.Modules.{Order, LabelBlock, jump_to_label}
use cat_la_project.Vm.Result.{Result, ok, fault, waiting, ◌>>=◌}
use cat_la_project.Vm.Machine.{Machine, Surroundings, write_register}
use cat_la_project.Vm.Orders.{eval}
use cat_la_project.Vm.Run.{current_order, finish, round, run_loop}
use cat_la_project.Vm.Run.Jump.{round-order, current_block-at, advance-finish}

abbrev pub IsStraight : Order → Type 0
IsStraight (jump_to_label name label) = ⊥
IsStraight _ = Unit {0}

abbrev pub AllStraight : List Order → Type 0
AllStraight [] = Unit {0}
AllStraight (o ∷ os) = IsStraight o × AllStraight os

abbrev is_empty : List Order → Bool
is_empty [] = true
is_empty (o ∷ os) = false

abbrev counted : Machine → Machine
counted m = record m { current_order_index = m.current_order_index + 1 }

-- The meaning of a list of orders: one after the other, up to a return or the last.
unfoldable pub exec : Surroundings → List Order → Machine → Result Machine
exec env [] m = fault
exec env (o ∷ os) m = do
  m' ← eval env o m
  let rest = exec env os (counted m')
  if is_empty os || m'.return_function
      then ok (record (counted m') { return_function = false })
      else rest

-- The machine as an order that is no jump may leave it.
abbrev Stays : Machine → Machine → Type 0
Stays m m' =
    (m'.current_label_block ≡ m.current_label_block)
    × (m'.current_order_index ≡ m.current_order_index)

write_register-Stays : (m m' : Machine) (i v : ℕ) → write_register m i v ≡ ok m' → Stays m m'
unfolding write_register
write_register-Stays m m' i v h = ground arith

eval-Stays :
    (env : Surroundings) (o : Order) (m m' : Machine)
    → IsStraight o
    → eval env o m ≡ ok m'
    → Stays m m'
unfolding eval write_register
eval-Stays env (jump_to_label name label) m m' s h = absurd s
eval-Stays env _ m m' s h = ground arith

-- The state of a run inside a block with `os` still to do.
record At (env : Surroundings) (m : Machine) (b : ℕ) (block : LabelBlock) (os : List Order)
    : Type 0 where
  here : m.current_label_block ≡ some b
  stands : get_elem? env.function.label_blocks b ≡ some block
  todo : drop m.current_order_index block.orders ≡ os

not_empty : (os : List Order) → is_empty os ≡ false → 0 < length os
not_empty [] h = absurd (cc)
not_empty (o ∷ os) h = omega arith

module _ (env : Surroundings) where
  current_order-At :
      (m : Machine) (b : ℕ) (block : LabelBlock) (o : Order) (os : List Order)
      → At env m b block (o ∷ os)
      → current_order env m ≡ ok o
  unfolding current_order
  current_order-At m b block o os at =
      let (row, _, _) = drop-cons m.current_order_index block.orders o os at.todo in
      rw (current_block-at env m b block at.here at.stands, current_order, row) refl

  finish-At :
      (m m' : Machine) (b : ℕ) (block : LabelBlock) (o : Order) (os : List Order)
      → At env m b block (o ∷ os)
      → Stays m m'
      → finish block m' ≡ (
          if is_empty os || m'.return_function
          then (true, record (counted m') { return_function = false })
          else (false, counted m'))
  unfolding finish
  finish-At m m' b block o os at s =
      let (_, _, len) = drop-cons m.current_order_index block.orders o os at.todo in
      let test : (m'.current_order_index + 1 == length block.orders) ≡ is_empty os = last os len in
      rw test
    where
      last :
          (os : List Order)
          → length block.orders ≡ m.current_order_index + suc (length os)
          → (m'.current_order_index + 1 == length block.orders) ≡ is_empty os
      last [] len = ground (arith, s)
      last (p ∷ ps) len = ground (arith, s)

  At-next :
      (m m' : Machine) (b : ℕ) (block : LabelBlock) (o : Order) (os : List Order)
      → At env m b block (o ∷ os)
      → Stays m m'
      → At env (counted m') b block os
  At-next m m' b block o os at s =
      let (_, tail, _) = drop-cons m.current_order_index block.orders o os at.todo in
      let i : m'.current_order_index + 1 ≡ suc m.current_order_index = omega (arith, s.1) in
      record {
        here = s.0 ∙ at.here;
        stands = at.stands;
        todo = ap (λ (n : ℕ). drop n block.orders) i ∙ tail;
      }

  run_loop-round :
      (fuel : ℕ) (m : Machine) (r : Bool × Machine)
      → round env m ≡ ok r
      → run_loop (suc fuel) env m ≡ elim r.0 [ true ↦ ok r.1 | false ↦ run_loop fuel env r.1 ]
  unfolding run_loop
  run_loop-round fuel m r h = rw (h, run_loop) refl

  run_loop-fault :
      (fuel : ℕ) (m : Machine) (r : Result Machine) (o : Order)
      → current_order env m ≡ ok o
      → eval env o m ≡ r
      → ((m' : Machine) → r ≢ ok m')
      → run_loop (suc fuel) env m ≡ r
  unfolding run_loop round
  run_loop-fault fuel m (ok m') o h e ne = absurd (ne m' refl)
  run_loop-fault fuel m fault o h e ne = rw (h, run_loop, e) refl
  run_loop-fault fuel m waiting o h e ne = rw (h, run_loop, e) refl

  exec-ok :
      (o : Order) (os : List Order) (m m' : Machine)
      → eval env o m ≡ ok m'
      → exec env (o ∷ os) m ≡ (
          if is_empty os || m'.return_function
          then ok (record (counted m') { return_function = false })
          else exec env os (counted m'))
  unfolding exec
  exec-ok o os m m' e = rw (e, exec) refl

  exec-fault :
      (o : Order) (os : List Order) (m : Machine) (r : Result Machine)
      → eval env o m ≡ r
      → ((m' : Machine) → r ≢ ok m')
      → exec env (o ∷ os) m ≡ r
  unfolding exec
  exec-fault o os m (ok m') e ne = absurd (ne m' refl)
  exec-fault o os m fault e ne = rw (e, exec) refl
  exec-fault o os m waiting e ne = rw (e, exec) refl

  -- One order that is no jump, and what follows it.
  ran :
      (o : Order) (os : List Order) (fuel : ℕ) (m m' : Machine) (b : ℕ) (block : LabelBlock)
      → At env m b block (o ∷ os)
      → eval env o m ≡ ok m'
      → Stays m m'
      → (is_empty os ≡ false → run_loop fuel env (counted m') ≡ exec env os (counted m'))
      → run_loop (suc fuel) env m ≡ exec env (o ∷ os) m
  ran o os fuel m m' b block at e s ih =
      let now = current_order-At m b block o os at in
      let step =
        round-order env m o m' now e
        ∙ advance-finish env m' block (current_block-at env m' b block (s.0 ∙ at.here) at.stands)
        ∙ ap ok (finish-At m m' b block o os at s) in
      elim (Bool-cases (is_empty os || m'.return_function)) [
        | inl stop ↦
            run_loop-round fuel m (true, record (counted m') { return_function = false })
              (step ∙ rw stop refl)
            ∙ sym (exec-ok o os m m' e ∙ rw stop refl)
        | inr more ↦
            run_loop-round fuel m (false, counted m') (step ∙ rw more refl)
            ∙ ih (ground arith)
            ∙ sym (exec-ok o os m m' e ∙ rw more refl)
      ]

  -- From an order of a block behind which no order is a jump, `run_function`'s loop gives what running
  -- the list of the orders that are left gives, one after the other up to a return or the last, with as
  -- much fuel as orders are left.
  pub run_loop-exec :
      (os : List Order) (fuel : ℕ) (m : Machine) (b : ℕ) (block : LabelBlock)
      → m.current_label_block ≡ some b
      → get_elem? env.function.label_blocks b ≡ some block
      → drop m.current_order_index block.orders ≡ os
      → 0 < length os
      → length os ≤ fuel
      → AllStraight os
      → run_loop fuel env m ≡ exec env os m
  run_loop-exec [] fuel m b block here stands todo some_left le s = absurd (omega arith)
  run_loop-exec (o ∷ os) zero m b block here stands todo some_left le s = absurd (omega arith)
  run_loop-exec (o ∷ os) (suc fuel) m b block here stands todo some_left le s =
      order (eval env o m) refl (λ m' e more.
        let a = At-next m m' b block o os at (eval-Stays env o m m' s.0 e) in
        run_loop-exec os fuel (counted m') b block a.here a.stands a.todo (not_empty os more)
          (omega arith) s.1)
    where
      at : At env m b block (o ∷ os)
      at = record { here = here; stands = stands; todo = todo }

      order :
          (r : Result Machine)
          → eval env o m ≡ r
          → ((m' : Machine)
              → eval env o m ≡ ok m'
              → is_empty os ≡ false
              → run_loop fuel env (counted m') ≡ exec env os (counted m'))
          → run_loop (suc fuel) env m ≡ exec env (o ∷ os) m
      order (ok m') e ih = ran o os fuel m m' b block at e (eval-Stays env o m m' s.0 e) (ih m' e)
      order fault e ih =
          run_loop-fault fuel m fault o (current_order-At m b block o os at) e (λ x h. cc)
          ∙ sym (exec-fault o os m fault e (λ x h. cc))
      order waiting e ih =
          run_loop-fault fuel m waiting o (current_order-At m b block o os at) e (λ x h. cc)
          ∙ sym (exec-fault o os m waiting e (λ x h. cc))
