-- ===== src/Vm/Run/Jump.antt =====
-- Where a run goes on after a jump.
use cat_la_project.Base.{
  ℕ, ◌+◌, ◌≡◌, refl, false, Option, some, get_elem?, length, ◌==◌, arith, ◌∙◌, ap,
}
use cat_la_project.Base.Strings.{Text}
use cat_la_project.Vm.Modules.{Order, LabelBlock, jump_to_label}
use cat_la_project.Vm.Result.{ok}
use cat_la_project.Vm.Machine.{Machine, Surroundings}
use cat_la_project.Vm.Orders.{eval}
use cat_la_project.Vm.Run.{current_block, current_order, finish, advance, round}

module _ (env : Surroundings) (m : Machine) where
  pub eval-jump :
      (name : Text) (label : Option ℕ)
      → eval env (jump_to_label name label) m
        ≡ ok (record m { current_label_block = label; current_order_index = 0 })
  unfolding eval
  eval-jump name label = refl

  pub round-order :
      (o : Order) (m' : Machine)
      → current_order env m ≡ ok o
      → eval env o m ≡ ok m'
      → round env m ≡ advance env m'
  unfolding round
  round-order o m' h e = rw (h, e) refl

  pub current_block-at :
      (b : ℕ) (block : LabelBlock)
      → m.current_label_block ≡ some b
      → get_elem? env.function.label_blocks b ≡ some block
      → current_block env m ≡ ok block
  unfolding current_block
  current_block-at b block here at = rw (here, current_block, at) refl

  pub advance-finish :
      (block : LabelBlock) → current_block env m ≡ ok block → advance env m ≡ ok (finish block m)
  unfolding advance
  advance-finish block h = rw (h, advance) refl

  pub finish-going :
      (block : LabelBlock)
      → m.return_function ≡ false
      → finish block m ≡ (
        (m.current_order_index + 1) == length block.orders,
        record m { current_order_index = m.current_order_index + 1; return_function = false },
      )
  unfolding finish
  finish-going block going = ground arith

module _ (env : Surroundings) (m : Machine) where
  -- A jump to a block that stands, where no return is pending, goes on at the second order of the block:
  -- its first is not run by the jump, and a block with one order ends the function.
  pub round_after_jump :
      (name : Text) (b : ℕ) (block : LabelBlock)
      → current_order env m ≡ ok (jump_to_label name (some b))
      → get_elem? env.function.label_blocks b ≡ some block
      → m.return_function ≡ false
      → round env m
        ≡ ok (
          1 == length block.orders,
          record m {
            current_label_block = some b;
            current_order_index = 1;
            return_function = false;
          },
        )
  round_after_jump name b block here at going =
      let m' : Machine = record m { current_label_block = some b; current_order_index = 0 } in
      round-order env m (jump_to_label name (some b)) m' here (eval-jump env m name (some b))
      ∙ advance-finish env m' block (current_block-at env m' b block refl at)
      ∙ ap ok (finish-going env m' block going)
