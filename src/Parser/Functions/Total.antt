-- ===== src/Parser/Functions/Total.antt =====
-- The loop of `parse_function` ends, since each round of it takes a byte at least.
use cat_la_project.Base.{ℕ, zero, suc, ◌<◌, ◌≤◌, Option, none, some, List, [], ◌∷◌, length, arith}
use cat_la_project.Base.Strings.{Text}
use cat_la_project.Vm.Modules.{ConstValue, LabelBlock, Function}
use cat_la_project.Parser.Result.{Parsed, ok, err}
use cat_la_project.Parser.Lines.{move_until_next_line, length-rest_cons}
use cat_la_project.Parser.Orders.{parse_label_blocks}
use cat_la_project.Parser.Orders.Total.{Ends, parse_label_blocks-Ends}
use cat_la_project.Parser.Rows.{Storage, Rows}
use cat_la_project.Parser.Rows.Ends.{RowsEnd, RowsEnd-mono}
use cat_la_project.Parser.Functions.{
  Head, with_blocks, function_line, function_round, parse_head, read_functions,
}

abbrev Next : Type 0
Next = Rows Function → Text → Option (Parsed (Rows Function × Text))

-- A continuation that ends on every code of at most `n` bytes.
abbrev EndsBelow : ℕ → Next → Type 0
EndsBelow n next =
    (rows : Rows Function) (code : Text) → length code ≤ n → RowsEnd n (next rows code)

RowsEnd-with_blocks :
    (n m : ℕ) (rows : Rows Function) (head : Head) (r : Option (Parsed (List LabelBlock × Text)))
    (next : Next)
    → m ≤ n
    → Ends m r
    → EndsBelow n next
    → RowsEnd n (with_blocks rows head r next)
unfolding with_blocks
RowsEnd-with_blocks n m rows head none next le h k = absurd h
RowsEnd-with_blocks n m rows head (some (err e)) next le h k = record {}
RowsEnd-with_blocks n m rows head (some (ok (blocks, rest))) next le h k = k _ rest (omega arith)

RowsEnd-function_line :
    (n : ℕ) (consts : List ConstValue) (rows : Rows Function) (head : Parsed Head) (rest : Text)
    (next : Next)
    → length rest ≤ n
    → EndsBelow n next
    → RowsEnd n (function_line consts rows head rest next)
unfolding function_line
RowsEnd-function_line n consts rows (err e) rest next le k = record {}
RowsEnd-function_line n consts rows (ok head) rest next le k =
    RowsEnd-with_blocks n (length rest) rows head
      (parse_label_blocks (suc (length rest)) consts rest) next le
      (parse_label_blocks-Ends (suc (length rest)) consts rest (omega arith)) k

RowsEnd-function_round :
    (storage : Storage) (n : ℕ) (consts : List ConstValue) (rows : Rows Function) (line rest : Text)
    (next : Next)
    → length rest ≤ n
    → EndsBelow n next
    → RowsEnd n (function_round storage consts rows line rest next)
unfolding function_round
RowsEnd-function_round storage n consts rows line rest next le k =
    let blank = k rows rest le in
    let read =
      RowsEnd-function_line n consts rows (parse_head storage consts line) rest next le k in
    ground arith

pub read_functions-RowsEnd :
    (storage : Storage) (fuel : ℕ) (consts : List ConstValue) (rows : Rows Function) (code : Text)
    → length code < fuel
    → RowsEnd (length code) (read_functions storage fuel consts rows code)
unfolding read_functions
read_functions-RowsEnd storage zero consts rows code lt = absurd (omega arith)
read_functions-RowsEnd storage (suc fuel) consts rows [] lt = omega arith
read_functions-RowsEnd storage (suc fuel) consts rows (c ∷ cs) lt =
    let (line, rest) = move_until_next_line (c ∷ cs) in
    let next : Next = λ rows' code. read_functions storage fuel consts rows' code in
    let below : EndsBelow (length cs) next = λ rows' code le.
      RowsEnd-mono (length code) (length cs) (next rows' code) le
        (read_functions-RowsEnd storage fuel consts rows' code (omega arith)) in
    let round =
      RowsEnd-function_round storage (length cs) consts rows line rest next (length-rest_cons c cs)
        below in
    RowsEnd-mono (length cs) (length (c ∷ cs)) (function_round storage consts rows line rest next)
      (omega arith) round
