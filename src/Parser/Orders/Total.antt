-- ===== src/Parser/Orders/Total.antt =====
-- The loops of `parse_orders` and `parse_label_blocks` come to an end: each round takes a byte at least.
use cat_la_project.Base.{
  ℕ, zero, suc, ◌≤◌, ◌<◌, Option, none, some, List, [], ◌∷◌, ◌++◌, length, arith,
}
use cat_la_project.Base.Strings.{Text, codes}
use cat_la_project.Vm.Modules.{ConstValue, Order, LabelBlock}
use cat_la_project.Parser.Result.{Parsed, ok, err}
use cat_la_project.Parser.Lines.{move_until_next_line, length-rest_cons}
use cat_la_project.Parser.Orders.{
  parse_orders, parse_line, then_more, prepend, parse_label_blocks, parse_label, with_label,
  with_block, orders_round, blocks_round,
}
use cat_la_project.Parser.Regex.{match, lits, many, word}

-- An exception, or items with at most `n` bytes of code left.
abbrev pub Ends {ℓ} : {A : Type ℓ} → ℕ → Option (Parsed (List A × Text)) → Type 0
Ends n none = ⊥
Ends n (some (err e)) = Unit {0}
Ends n (some (ok (items, rest))) = length rest ≤ n

Ends-mono {ℓ} :
    {A : Type ℓ} (m n : ℕ) (r : Option (Parsed (List A × Text))) → m ≤ n → Ends m r → Ends n r
Ends-mono m n none le h = absurd h
Ends-mono m n (some (err e)) le h = h
Ends-mono m n (some (ok (items, rest))) le h = omega arith

Ends-then_more {ℓ} :
    {A : Type ℓ} (n : ℕ) (a : Parsed A) (r : Option (Parsed (List A × Text)))
    → Ends n r
    → Ends n (then_more a r)
unfolding then_more prepend
Ends-then_more n (err e) r h = (record {})
Ends-then_more n (ok a) none h = absurd h
Ends-then_more n (ok a) (some (err e)) h = h
Ends-then_more n (ok a) (some (ok (items, rest))) h = h

Ends-orders_round :
    (n : ℕ) (consts : List ConstValue) (line rest : Text)
    (more : Option (Parsed (List Order × Text)))
    → length rest ≤ n
    → Ends n more
    → Ends n (orders_round consts line rest more)
unfolding orders_round
Ends-orders_round n consts line rest more le h =
    let after = Ends-then_more n (parse_line consts line) more h in ground arith

-- With fuel for a round more than the code has bytes, `parse_orders` returns: an exception, or orders
-- with at most the code's bytes left.
pub parse_orders-Ends :
    (fuel : ℕ) (consts : List ConstValue) (code : Text)
    → length code < fuel
    → Ends (length code) (parse_orders fuel consts code)
unfolding parse_orders
parse_orders-Ends zero consts code lt = absurd (omega arith)
parse_orders-Ends (suc fuel) consts [] lt = omega arith
parse_orders-Ends (suc fuel) consts (c ∷ cs) lt =
    let le = length-rest_cons c cs in
    let (line, rest) = move_until_next_line (c ∷ cs) in
    let ih = parse_orders-Ends fuel consts rest (omega arith) in
    let more =
      Ends-mono (length rest) (length (c ∷ cs)) (parse_orders fuel consts rest) (omega arith) ih in
    Ends-orders_round (length (c ∷ cs)) consts line rest (parse_orders fuel consts rest)
      (omega arith) more

-- A continuation that ends on every code of at most `n` bytes.
abbrev EndsBelow : ℕ → (Text → Option (Parsed (List LabelBlock × Text))) → Type 0
EndsBelow n more = (code : Text) → length code ≤ n → Ends n (more code)

Ends-with_block :
    (n : ℕ) (label : Text) (p : Parsed (List Order × Text))
    (more : Text → Option (Parsed (List LabelBlock × Text)))
    → Ends n (some p)
    → EndsBelow n more
    → Ends n (with_block label p more)
unfolding with_block
Ends-with_block n label (err e) more h k = h
Ends-with_block n label (ok (orders, rest)) more h k =
    Ends-then_more n (ok (record { name = label; orders = orders })) (more rest) (k rest h)

Ends-label_orders :
    (n : ℕ) (label : Text) (r : Option (Parsed (List Order × Text)))
    (more : Text → Option (Parsed (List LabelBlock × Text)))
    → Ends n r
    → EndsBelow n more
    → Ends n (elim r [ none ↦ none | some orders ↦ with_block label orders more ])
Ends-label_orders n label none more h k = absurd h
Ends-label_orders n label (some p) more h k = Ends-with_block n label p more h k

Ends-with_label :
    (n : ℕ) (consts : List ConstValue) (rest : Text)
    (more : Text → Option (Parsed (List LabelBlock × Text))) (captures : Option (List Text))
    → length rest ≤ n
    → EndsBelow n more
    → Ends n (with_label consts rest more captures)
unfolding with_label
Ends-with_label n consts rest more (some (label ∷ captures)) le k =
    let inner = parse_orders-Ends (suc (length rest)) consts rest (omega arith) in
    let orders =
      Ends-mono (length rest) n (parse_orders (suc (length rest)) consts rest) le inner in
    Ends-label_orders n label (parse_orders (suc (length rest)) consts rest) more orders k
Ends-with_label n consts rest more (some []) le k = record {}
Ends-with_label n consts rest more none le k = record {}

Ends-parse_label :
    (n : ℕ) (consts : List ConstValue) (line rest : Text)
    (more : Text → Option (Parsed (List LabelBlock × Text)))
    → length rest ≤ n
    → EndsBelow n more
    → Ends n (parse_label consts line rest more)
unfolding parse_label
Ends-parse_label n consts line rest more le k =
    Ends-with_label n consts rest more (match (lits (codes "label:") ++ (many 1 word ∷ [])) line) le
      k

Ends-blocks_round :
    (n : ℕ) (consts : List ConstValue) (line rest : Text)
    (more : Text → Option (Parsed (List LabelBlock × Text)))
    → length rest ≤ n
    → EndsBelow n more
    → Ends n (blocks_round consts line rest more)
unfolding blocks_round
Ends-blocks_round n consts line rest more le k =
    let next = k rest le in
    let label = Ends-parse_label n consts line rest more le k in ground arith

pub parse_label_blocks-Ends :
    (fuel : ℕ) (consts : List ConstValue) (code : Text)
    → length code < fuel
    → Ends (length code) (parse_label_blocks fuel consts code)
unfolding parse_label_blocks
parse_label_blocks-Ends zero consts code lt = absurd (omega arith)
parse_label_blocks-Ends (suc fuel) consts [] lt = omega arith
parse_label_blocks-Ends (suc fuel) consts (c ∷ cs) lt =
    let (line, rest) = move_until_next_line (c ∷ cs) in
    let more : Text → Option (Parsed (List LabelBlock × Text)) =
      λ code. parse_label_blocks fuel consts code in
    let below : EndsBelow (length cs) more = λ code le.
      Ends-mono (length code) (length cs) (more code) le
        (parse_label_blocks-Ends fuel consts code (omega arith)) in
    let round = Ends-blocks_round (length cs) consts line rest more (length-rest_cons c cs) below in
    Ends-mono (length cs) (length (c ∷ cs)) (blocks_round consts line rest more) (omega arith) round
