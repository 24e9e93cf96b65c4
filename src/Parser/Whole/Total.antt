-- ===== src/Parser/Whole/Total.antt =====
-- `parse` of vm/parser/VMParser.cpp ends for every text, or comes to an access out of bounds.
use cat_la_project.Base.{
  ℕ, zero, suc, ◌<◌, ◌≤◌, ◌≡◌, refl, Option, none, some, List, [], ◌∷◌, length, arith, Bool-cases,
  inl, inr,
}
use cat_la_project.Base.Strings.{Text, codes, text_eq}
use cat_la_project.Vm.Modules.{ConstValue, Function}
use cat_la_project.Parser.Result.{Parsed, ok, err, ◌>>=◌}
use cat_la_project.Parser.Lines.{move_until_next_line, length-rest_cons}
use cat_la_project.Parser.Rows.{
  Storage, RowKind, import_rows, type_rows, function_rows, Rows, no_rows, to_array,
}
use cat_la_project.Parser.Rows.Ends.{RowsEnd, read_rows-RowsEnd}
use cat_la_project.Parser.Consts.{read_consts, const_array, parse_const}
use cat_la_project.Parser.Consts.Ends.{read_consts-RowsEnd}
use cat_la_project.Parser.Sections.{
  finish_rows, add_type, add_import, add_type_define, parse_import, parse_type, parse_type_define,
}
use cat_la_project.Parser.Functions.{function_array, parse_function}
use cat_la_project.Parser.Functions.Total.{read_functions-RowsEnd}
use cat_la_project.Parser.Whole.{
  ModuleObject, Contents, nothing_read, put_in, parse_section, parse_next, parse_loop, caught,
  parse,
}

array-RowsEnd {ℓ} :
    {A : Type ℓ} (n : ℕ) (p : Parsed (List A)) (rest : Text)
    → length rest ≤ n
    → RowsEnd n (some (p >>= (λ items. ok (items, rest))))
array-RowsEnd n (err e) rest le = record {}
array-RowsEnd n (ok items) rest le = le

finish_rows-RowsEnd {ℓ} :
    {A : Type ℓ} (storage : Storage) (kind : RowKind) (n : ℕ) (r : Option (Parsed (Rows A × Text)))
    → RowsEnd n r
    → RowsEnd n (finish_rows storage kind r)
unfolding finish_rows
finish_rows-RowsEnd storage kind n none h = h
finish_rows-RowsEnd storage kind n (some (err e)) h = h
finish_rows-RowsEnd storage kind n (some (ok (rows, rest))) h =
    array-RowsEnd n (to_array storage kind rows) rest h

function_array-RowsEnd :
    (storage : Storage) (n : ℕ) (r : Option (Parsed (Rows Function × Text)))
    → RowsEnd n r
    → RowsEnd n (function_array storage r)
unfolding function_array
function_array-RowsEnd storage n none h = h
function_array-RowsEnd storage n (some (err e)) h = h
function_array-RowsEnd storage n (some (ok (rows, rest))) h =
    array-RowsEnd n (to_array storage function_rows rows) rest h

put_in-RowsEnd {ℓ} :
    {A : Type ℓ} (n : ℕ) (add : A → Contents) (r : Option (Parsed (A × Text)))
    → RowsEnd n r
    → RowsEnd n (put_in add r)
unfolding put_in
put_in-RowsEnd n add none h = h
put_in-RowsEnd n add (some (err e)) h = h
put_in-RowsEnd n add (some (ok (a, rest))) h = h

module _ (storage : Storage) (stod : Text → Parsed ℕ) (name : Text) where
  parse_const-RowsEnd : (code : Text) → RowsEnd (length code) (parse_const stod storage code)
  unfolding parse_const
  parse_const-RowsEnd code =
      elim (read_consts stod (suc (length code)) no_rows code)
          as (λ r.
            RowsEnd (length code) r
            → RowsEnd (length code) (elim r as (λ _. Option (Parsed (List ConstValue × Text))) [
              | none ↦ none
              | some (err e) ↦ some (err e)
              | some (ok (rows, rest)) ↦
                  some (const_array stod storage rows >>= (λ values. ok (values, rest)))
            ])) [
              | none ↦ λ h. h
              | some (err e) ↦ λ h. h
              | some (ok (rows, rest)) ↦
                  λ h. array-RowsEnd (length code) (const_array stod storage rows) rest h
            ]
        (read_consts-RowsEnd stod (suc (length code)) no_rows code (omega arith))

  parse_import-RowsEnd :
      (consts : List ConstValue) (code : Text)
      → RowsEnd (length code) (parse_import storage name consts code)
  unfolding parse_import
  parse_import-RowsEnd consts code =
      finish_rows-RowsEnd storage import_rows (length code) _
        (read_rows-RowsEnd (add_import name consts) (suc (length code)) no_rows code (omega arith))

  parse_type-RowsEnd : (code : Text) → RowsEnd (length code) (parse_type storage code)
  unfolding parse_type
  parse_type-RowsEnd code =
      finish_rows-RowsEnd storage type_rows (length code) _
        (read_rows-RowsEnd add_type (suc (length code)) no_rows code (omega arith))

  parse_type_define-RowsEnd :
      (consts : List ConstValue) (code : Text)
      → RowsEnd (length code) (parse_type_define consts code)
  unfolding parse_type_define
  parse_type_define-RowsEnd consts code =
      read_rows-RowsEnd (add_type_define consts) (suc (length code)) [] code (omega arith)

  parse_function-RowsEnd :
      (consts : List ConstValue) (code : Text)
      → RowsEnd (length code) (parse_function storage consts code)
  unfolding parse_function
  parse_function-RowsEnd consts code =
      function_array-RowsEnd storage (length code) _
        (read_functions-RowsEnd storage (suc (length code)) consts no_rows code (omega arith))

  parse_section-RowsEnd :
      (line rest : Text) (c : Contents)
      → RowsEnd (length rest) (parse_section storage stod name line rest c)
  unfolding parse_section
  parse_section-RowsEnd line rest c = elim (Bool-cases (text_eq line (codes "$const"))) [
    | inl e ↦ rw e (put_in-RowsEnd (length rest) _ _ (parse_const-RowsEnd rest))
    | inr not_const ↦ elim (Bool-cases (text_eq line (codes "$import"))) [
      | inl e ↦
          rw (not_const, e)
            (put_in-RowsEnd (length rest) _ _ (parse_import-RowsEnd c.const_values rest))
      | inr not_import ↦ elim (Bool-cases (text_eq line (codes "$typedef"))) [
        | inl e ↦
            rw (not_const, not_import, e)
              (put_in-RowsEnd (length rest) _ _ (parse_type_define-RowsEnd c.const_values rest))
        | inr not_typedef ↦ elim (Bool-cases (text_eq line (codes "$type"))) [
          | inl e ↦
              rw (not_const, not_import, not_typedef, e)
                (put_in-RowsEnd (length rest) _ _ (parse_type-RowsEnd rest))
          | inr not_type ↦ elim (Bool-cases (text_eq line (codes "$function"))) [
            | inl e ↦
                rw (not_const, not_import, not_typedef, not_type, e)
                  (put_in-RowsEnd (length rest) _ _ (parse_function-RowsEnd c.const_values rest))
            | inr e ↦ rw (not_const, not_import, not_typedef, not_type, e) (omega arith)
          ]
        ]
      ]
    ]
  ]

  abbrev Returns : Option (Parsed Contents) → Type 0
  Returns r = (p : Parsed Contents) × (r ≡ some p)

  Returns-parse_next :
      (n : ℕ) (r : Option (Parsed (Contents × Text)))
      (next : Contents → Text → Option (Parsed Contents))
      → RowsEnd n r
      → ((c : Contents) (code : Text) → length code ≤ n → Returns (next c code))
      → Returns (parse_next storage stod name r next)
  unfolding parse_next
  Returns-parse_next n none next h k = absurd h
  Returns-parse_next n (some (err e)) next h k = (_, refl)
  Returns-parse_next n (some (ok (c, rest))) next h k = k c rest h

  parse_loop-Returns :
      (fuel : ℕ) (c : Contents) (code : Text)
      → length code < fuel
      → Returns (parse_loop storage stod name fuel c code)
  unfolding parse_loop
  parse_loop-Returns zero c code lt = absurd (omega arith)
  parse_loop-Returns (suc fuel) c [] lt = (ok c, refl)
  parse_loop-Returns (suc fuel) c (b ∷ bs) lt =
      let (line, rest) = move_until_next_line (b ∷ bs) in
      let le = length-rest_cons b bs in
      Returns-parse_next (length rest) (parse_section storage stod name line rest c)
        (λ c' code. parse_loop storage stod name fuel c' code) (parse_section-RowsEnd line rest c)
        (λ c' code shorter. parse_loop-Returns fuel c' code (omega arith))

  -- `parse` ends for every text, whatever `stod` answers and whatever room there is: with a module, a null
  -- pointer, an exception, or at an access out of bounds, where the model stops.
  pub parse-returns :
      (code : Text) → (p : Parsed (Option ModuleObject)) × (parse storage stod name code ≡ some p)
  unfolding parse
  parse-returns code =
      let (p, e) = parse_loop-Returns (suc (length code)) nothing_read code (omega arith) in
      (caught storage stod name p, rw (parse, e) refl)
