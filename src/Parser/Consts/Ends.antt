-- ===== src/Parser/Consts/Ends.antt =====
-- The loop of `parse_const` ends, or comes to an access out of bounds: each round takes a byte at least.
use cat_la_project.Base.{
  Bool-cases, inl, inr, ℕ, zero, suc, ◌<◌, ◌≤◌, Option, none, some, List, [], ◌∷◌, length, arith,
  ◌==◌,
}
use cat_la_project.Base.Strings.{Text, codes, text_eq}
use cat_la_project.Vm.Modules.{ConstValue}
use cat_la_project.Parser.Result.{Parsed, ok, err, ◌>>=◌}
use cat_la_project.Parser.Lines.{move_until_next_line, length-rest_cons}
use cat_la_project.Parser.Consts.{
  is_mark, behind_mark, no_bytes, after_const, add_captured, until_mark, move_until, step_over,
  take_bytes, const_value, add_const, read_consts,
}
use cat_la_project.Parser.Tokens.{stoull}
use cat_la_project.Parser.Rows.{Rows}
use cat_la_project.Parser.Rows.Ends.{RowsEnd, RowsEnd-mono}

-- At most `n` bytes are left.
abbrev LeftAtMost : ℕ → Option Text → Type 0
LeftAtMost n none = Unit {0}
LeftAtMost n (some cs) = length cs ≤ n

abbrev Shrinks {ℓ} : {A : Type ℓ} → ℕ → Parsed (A × Option Text) → Type 0
Shrinks n (err e) = Unit {0}
Shrinks n (ok (a, left)) = LeftAtMost n left

longer : (n : ℕ) (code : Option Text) → LeftAtMost n code → LeftAtMost (suc n) code
longer n none h = h
longer n (some cs) h = omega arith

until_mark-LeftAtMost : (code : Text) → LeftAtMost (length code) (until_mark code).1
unfolding until_mark
until_mark-LeftAtMost [] = record {}
until_mark-LeftAtMost (c ∷ cs) =
    let ih = longer (length cs) (until_mark cs).1 (until_mark-LeftAtMost cs) in
    elim (Bool-cases (is_mark c)) [
      | inl e ↦ rw e (omega arith)
      | inr e ↦ elim (Bool-cases (c == b' ')) [
        | inl space ↦ rw (e, space) ih
        | inr other ↦ rw (e, other) ih
      ]
    ]

Shrinks-cons :
    (c n : ℕ) (r : Parsed (Text × Option Text))
    → Shrinks n r
    → Shrinks n (r >>= (λ x. ok (c ∷ x.0, x.1)))
Shrinks-cons c n (err e) h = h
Shrinks-cons c n (ok (bytes, left)) h = h

take_bytes-Shrinks :
    (size n : ℕ) (code : Option Text) → LeftAtMost n code → Shrinks n (take_bytes size code)
unfolding take_bytes
take_bytes-Shrinks zero n code h = h
take_bytes-Shrinks (suc size) n none h = record {}
take_bytes-Shrinks (suc size) n (some []) h =
    Shrinks-cons 0 n (take_bytes size none) (take_bytes-Shrinks size n none (record {}))
take_bytes-Shrinks (suc size) n (some (c ∷ cs)) h =
    Shrinks-cons c n (take_bytes size (some cs)) (take_bytes-Shrinks size n (some cs) (omega arith))

move_until-length : (code : Text) → length (move_until code).1 ≤ length code
unfolding move_until
move_until-length code =
    elim (until_mark code).1
        as (λ r.
          LeftAtMost (length code) r
          → length (elim r as (λ _. Text) [ none ↦ code | some cs ↦ cs ]) ≤ length code) [
            | none ↦ λ h. omega arith
            | some cs ↦ λ h. h
          ]
      (until_mark-LeftAtMost code)

module _ (stod : Text → Parsed ℕ) where
  Shrinks-bind {ℓ} :
      {A : Type ℓ} (n : ℕ) (r : Parsed A) (f : A → Parsed (Rows ConstValue × Option Text))
      → ((a : A) → Shrinks n (f a))
      → Shrinks n (r >>= f)
  Shrinks-bind n (err e) f h = record {}
  Shrinks-bind n (ok a) f h = h a

  step_over-LeftAtMost :
      (n : ℕ) (left : Option Text) → LeftAtMost n left → LeftAtMost n (step_over left)
  step_over-LeftAtMost n none h = h
  step_over-LeftAtMost n (some []) h = record {}
  step_over-LeftAtMost n (some (c ∷ cs)) h = omega arith

  Shrinks-left :
      (n : ℕ) (r : Parsed (Text × Option Text))
      (f : Text → Option Text → Parsed (Rows ConstValue × Option Text))
      → Shrinks n r
      → ((bytes : Text) (left : Option Text) → LeftAtMost n left → Shrinks n (f bytes left))
      → Shrinks n (r >>= (λ x. f x.0 x.1))
  Shrinks-left n (err e) f h k = h
  Shrinks-left n (ok (bytes, left)) f h k = k bytes left h

  behind_mark-Shrinks :
      (n : ℕ) (at_mark : Text) (f : Text → Parsed (Rows ConstValue × Option Text))
      → length at_mark ≤ suc n
      → ((rest : Text) → length rest ≤ n → Shrinks n (f rest))
      → Shrinks n (behind_mark stod at_mark >>= f)
  behind_mark-Shrinks n [] f le k = record {}
  behind_mark-Shrinks n (c ∷ []) f le k = record {}
  behind_mark-Shrinks n (c ∷ d ∷ cs) f le k = k (d ∷ cs) (omega arith)

  add_captured-Shrinks :
      (n : ℕ) (rows : Rows ConstValue) (at_mark : Text) (captures : Option (List Text))
      → length at_mark ≤ suc n
      → Shrinks n (add_captured stod rows at_mark captures)
  unfolding add_captured
  add_captured-Shrinks n rows at_mark none le = record {}
  add_captured-Shrinks n rows at_mark (some []) le = record {}
  add_captured-Shrinks n rows at_mark (some (i ∷ [])) le = record {}
  add_captured-Shrinks n rows at_mark (some (i ∷ s ∷ [])) le = record {}
  add_captured-Shrinks n rows at_mark (some (i ∷ s ∷ [] ∷ xs)) le = record {}
  add_captured-Shrinks n rows at_mark (some (i ∷ s ∷ (t ∷ u ∷ ts) ∷ xs)) le = record {}
  add_captured-Shrinks n rows at_mark (some (i ∷ s ∷ (t ∷ []) ∷ (x ∷ xs))) le = record {}
  add_captured-Shrinks n rows at_mark (some (i ∷ s ∷ (t ∷ []) ∷ [])) le =
      Shrinks-bind n (stoull i) _ (λ index. Shrinks-bind n (stoull s) _ (λ size.
        behind_mark-Shrinks n at_mark _ le (λ rest shorter.
          Shrinks-left n (take_bytes size (some rest)) _
            (take_bytes-Shrinks size n (some rest) shorter)
            (λ bytes left at_most.
              Shrinks-bind n (const_value stod t size bytes) _
                (λ value. step_over-LeftAtMost n left at_most)))))

  RowsEnd-after_const :
      (n : ℕ) (r : Parsed (Rows ConstValue × Option Text))
      (next : Rows ConstValue → Text → Option (Parsed (Rows ConstValue × Text)))
      → Shrinks n r
      → ((rows : Rows ConstValue) (code : Text) → length code ≤ n → RowsEnd n (next rows code))
      → RowsEnd n (after_const stod r next)
  unfolding after_const
  RowsEnd-after_const n (err e) next h k = record {}
  RowsEnd-after_const n (ok (rows, none)) next h k = record {}
  RowsEnd-after_const n (ok (rows, some left)) next h k = k rows left h

  pub read_consts-RowsEnd :
      (fuel : ℕ) (rows : Rows ConstValue) (code : Text)
      → length code < fuel
      → RowsEnd (length code) (read_consts stod fuel rows code)
  unfolding read_consts add_const
  read_consts-RowsEnd zero rows code lt = absurd (omega arith)
  read_consts-RowsEnd (suc fuel) rows [] lt = omega arith
  read_consts-RowsEnd (suc fuel) rows (c ∷ cs) lt =
      let n = length cs in
      let (line, rest) = move_until_next_line (c ∷ cs) in
      let le = length-rest_cons c cs in
      let blank =
        RowsEnd-mono (length rest) (suc n) (read_consts stod fuel rows rest) (omega arith)
          (read_consts-RowsEnd fuel rows rest (omega arith)) in
      let next : Rows ConstValue → Text → Option (Parsed (Rows ConstValue × Text)) =
        λ rows' left. read_consts stod fuel rows' left in
      let read =
        RowsEnd-mono n (suc n) (after_const stod (add_const stod rows (c ∷ cs)) next) (omega arith)
          (RowsEnd-after_const n (add_const stod rows (c ∷ cs)) next
            (add_captured-Shrinks n rows (move_until (c ∷ cs)).1 _ (move_until-length (c ∷ cs)))
            (λ rows' left shorter.
              RowsEnd-mono (length left) n (next rows' left) shorter
                (read_consts-RowsEnd fuel rows' left (omega arith)))) in
      elim (Bool-cases (text_eq line (codes "$end"))) [
        | inl e ↦ rw e (omega arith)
        | inr e ↦ elim (Bool-cases (no_bytes stod line)) [
          | inl b ↦ rw (e, b) blank
          | inr b ↦ rw (e, b) read
        ]
      ]
