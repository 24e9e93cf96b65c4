-- ===== src/Parser/Rows/Ends.antt =====
-- The loop of a section comes to an end: each round takes a byte at least.
use cat_la_project.Base.{ℕ, zero, suc, ◌<◌, ◌≤◌, Option, none, some, [], ◌∷◌, length, arith}
use cat_la_project.Base.Strings.{Text}
use cat_la_project.Parser.Result.{Parsed, ok, err}
use cat_la_project.Parser.Lines.{move_until_next_line, length-rest_cons}
use cat_la_project.Parser.Rows.{go_on, rows_round, read_rows}

-- An exception, or rows with at most `n` bytes of code left.
abbrev pub RowsEnd {ℓ} : {B : Type ℓ} → ℕ → Option (Parsed (B × Text)) → Type 0
RowsEnd n none = ⊥
RowsEnd n (some (err e)) = Unit {0}
RowsEnd n (some (ok (rows, rest))) = length rest ≤ n

pub RowsEnd-mono {ℓ} :
    {B : Type ℓ} (k n : ℕ) (r : Option (Parsed (B × Text))) → k ≤ n → RowsEnd k r → RowsEnd n r
RowsEnd-mono k n none le h = absurd h
RowsEnd-mono k n (some (err e)) le h = h
RowsEnd-mono k n (some (ok (rows, rest))) le h = omega arith

module _ {ℓ} {B : Type ℓ} (add : B → Text → Parsed B) where
  RowsEnd-go_on :
      (n : ℕ) (p : Parsed B) (next : B → Option (Parsed (B × Text)))
      → ((rows : B) → RowsEnd n (next rows))
      → RowsEnd n (go_on p next)
  unfolding go_on
  RowsEnd-go_on n (err e) next h = record {}
  RowsEnd-go_on n (ok rows) next h = h rows

  RowsEnd-rows_round :
      (n : ℕ) (rows : B) (line rest : Text) (next : B → Option (Parsed (B × Text)))
      → length rest ≤ n
      → ((rows' : B) → RowsEnd n (next rows'))
      → RowsEnd n (rows_round add rows line rest next)
  unfolding rows_round
  RowsEnd-rows_round n rows line rest next le h =
      let blank = h rows in let added = RowsEnd-go_on n (add rows line) next h in ground arith

  pub read_rows-RowsEnd :
      (fuel : ℕ) (rows : B) (code : Text)
      → length code < fuel
      → RowsEnd (length code) (read_rows fuel add rows code)
  unfolding read_rows
  read_rows-RowsEnd zero rows code lt = absurd (omega arith)
  read_rows-RowsEnd (suc fuel) rows [] lt = omega arith
  read_rows-RowsEnd (suc fuel) rows (c ∷ cs) lt =
      let le = length-rest_cons c cs in
      let (line, rest) = move_until_next_line (c ∷ cs) in
      RowsEnd-rows_round (length (c ∷ cs)) rows line rest (λ rows'. read_rows fuel add rows' rest)
        (omega arith)
        (λ rows'.
          RowsEnd-mono (length rest) (length (c ∷ cs)) (read_rows fuel add rows' rest) (omega arith)
            (read_rows-RowsEnd fuel rows' rest (omega arith)))
