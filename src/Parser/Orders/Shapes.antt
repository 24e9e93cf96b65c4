-- ===== src/Parser/Orders/Shapes.antt =====
-- Which orders `parse_order` of vm/parser/VMParser.cpp makes, and from which texts.
use cat_la_project.Base.{
  ℕ, ◌≡◌, refl, ◌≢◌, ℕ_discrete, none, List, [], ◌∷◌, arith, Bool, true, inl, inr, Bool-cases,
  subst, sym,
}
use cat_la_project.Base.Strings.{Text, codes, text_eq, text_eq→eq}
use cat_la_project.Vm.Modules.{
  ConstValue, Order, get_const_integer, get_argument, add_integer, jump_to_label, return_function,
  set_object_field,
}
use cat_la_project.Vm.PrimitiveType.{PrimitiveType}
use cat_la_project.Parser.Result.{Parsed, ok, err, undefined, ◌>>=◌}
use cat_la_project.Parser.Tokens.{
  size_max, parse_register_or_variable_number, parse_using_type_index, parse_const_value_index,
  parse_bool, parse_primitive_type, get_const_value_as_string, stoull,
}
use cat_la_project.Parser.Orders.{
  parse_jump, parse_ret, parse_set_field, parse_plain, parse_get_const, parse_get_argument,
  parse_add, third_argument, parse_assigned, parse_order,
}

-- How an order is written, with the name and the arguments that `order` holds: those of the first group
-- behind a register and `=`, those of the second without, which `SIZE_MAX` stands for. What stands behind
-- the arguments is not looked at. No text is a `GetObjectFieldOwnership` or a `NewClassObject`.
pub data Spells (consts : List ConstValue) (register : ℕ) : Text → List Text → Order → Type 0 where
  spells_const :
      (type index : Text) (rest : List Text) (t : PrimitiveType) (i : ℕ)
      → register ≢ size_max
      → parse_primitive_type type ≡ ok t
      → stoull index ≡ ok i
      → Spells consts register
          (codes "const")
          (type ∷ index ∷ rest)
          (get_const_integer t register i)
  spells_arg :
      (index : Text) (rest : List Text) (i : ℕ)
      → register ≢ size_max
      → stoull index ≡ ok i
      → Spells consts register (codes "arg") (index ∷ rest) (get_argument register i)
  spells_iadd :
      (type left right : Text) (rest : List Text) (t : PrimitiveType) (l r : ℕ)
      → register ≢ size_max
      → parse_primitive_type type ≡ ok t
      → parse_register_or_variable_number left ≡ ok l
      → parse_register_or_variable_number right ≡ ok r
      → Spells consts register
          (codes "iadd")
          (type ∷ left ∷ right ∷ rest)
          (add_integer t register l r)
  spells_jump_to :
      (label : Text) (rest : List Text)
      → register ≡ size_max
      → Spells consts register (codes "jump_to") (label ∷ rest) (jump_to_label label none)
  spells_ret :
      (result : Text) (rest : List Text) (r : ℕ)
      → register ≡ size_max
      → parse_register_or_variable_number result ≡ ok r
      → Spells consts register (codes "ret") (result ∷ rest) (return_function r)
  spells_set_field :
      (parent object lock type name : Text) (rest : List Text) (p o t c : ℕ) (b : Bool)
      (field_name : Text)
      → register ≡ size_max
      → parse_register_or_variable_number parent ≡ ok p
      → parse_register_or_variable_number object ≡ ok o
      → parse_bool lock ≡ ok b
      → parse_using_type_index type ≡ ok t
      → parse_const_value_index name ≡ ok c
      → get_const_value_as_string consts c ≡ ok field_name
      → Spells consts register
          (codes "set_field")
          (parent ∷ object ∷ lock ∷ type ∷ name ∷ rest)
          (set_object_field p o t field_name 0 b)

-- What is parsed, if anything is, has the property.
abbrev Gives {ℓ} : {A : Type ℓ} → (A → Type 0) → Parsed A → Type 0
Gives P (err e) = Unit {0}
Gives P (ok a) = P a

Gives->>= {ℓ κ} :
    {A : Type ℓ} {B : Type κ} (P : B → Type 0) (m : Parsed A) (f : A → Parsed B)
    → ((a : A) → m ≡ ok a → Gives P (f a))
    → Gives P (m >>= f)
Gives->>= P (err e) f h = record {}
Gives->>= P (ok a) f h = h a refl

-- An answer is what the text spells, and an exception is for a text that spells no order.
abbrev pub Answers : List ConstValue → ℕ → Text → List Text → Parsed Order → Type 0
Answers consts register order_name args (ok o) = Spells consts register order_name args o
Answers consts register order_name args (err e) =
    (o : Order) → Spells consts register order_name args o → ⊥

module _ (consts : List ConstValue) (r : ℕ) where
  parse_jump-Spells :
      (args : List Text)
      → r ≡ size_max
      → Gives (Spells consts r (codes "jump_to") args) (parse_jump args)
  unfolding parse_jump
  parse_jump-Spells [] e = record {}
  parse_jump-Spells (label ∷ rest) e = spells_jump_to label rest e

  parse_ret-Spells :
      (args : List Text)
      → r ≡ size_max
      → Gives (Spells consts r (codes "ret") args) (parse_ret args)
  unfolding parse_ret
  parse_ret-Spells [] e = record {}
  parse_ret-Spells (a ∷ rest) e =
      Gives->>= (Spells consts r (codes "ret") (a ∷ rest)) (parse_register_or_variable_number a) _
        (λ i h. spells_ret a rest i e h)

  parse_set_field-Spells :
      (args : List Text)
      → r ≡ size_max
      → Gives (Spells consts r (codes "set_field") args) (parse_set_field consts args)
  unfolding parse_set_field
  parse_set_field-Spells [] e = record {}
  parse_set_field-Spells (a ∷ []) e = record {}
  parse_set_field-Spells (a ∷ b ∷ []) e = record {}
  parse_set_field-Spells (a ∷ b ∷ c ∷ []) e = record {}
  parse_set_field-Spells (a ∷ b ∷ c ∷ d ∷ []) e = record {}
  parse_set_field-Spells (a ∷ b ∷ c ∷ d ∷ f ∷ rest) e =
      let P = Spells consts r (codes "set_field") (a ∷ b ∷ c ∷ d ∷ f ∷ rest) in
      Gives->>= P (parse_register_or_variable_number a) _ (λ p hp.
        Gives->>= P (parse_register_or_variable_number b) _ (λ o ho.
          Gives->>= P (parse_bool c) _ (λ l hl. Gives->>= P (parse_using_type_index d) _ (λ t ht.
            Gives->>= P (parse_const_value_index f) _ (λ i hi.
              Gives->>= P (get_const_value_as_string consts i) _
                (λ s hs. spells_set_field a b c d f rest p o t i l s e hp ho hl ht hi hs))))))

  parse_get_const-Spells :
      (args : List Text)
      → r ≢ size_max
      → Gives (Spells consts r (codes "const") args) (parse_get_const r args)
  unfolding parse_get_const
  parse_get_const-Spells [] ne = record {}
  parse_get_const-Spells (a ∷ []) ne = record {}
  parse_get_const-Spells (a ∷ b ∷ rest) ne =
      let P = Spells consts r (codes "const") (a ∷ b ∷ rest) in
      Gives->>= P (parse_primitive_type a) _
        (λ t ht. Gives->>= P (stoull b) _ (λ i hi. spells_const a b rest t i ne ht hi))

  parse_get_argument-Spells :
      (args : List Text)
      → r ≢ size_max
      → Gives (Spells consts r (codes "arg") args) (parse_get_argument r args)
  unfolding parse_get_argument
  parse_get_argument-Spells [] ne = record {}
  parse_get_argument-Spells (a ∷ rest) ne =
      Gives->>= (Spells consts r (codes "arg") (a ∷ rest)) (stoull a) _
        (λ i h. spells_arg a rest i ne h)

  parse_add-Spells :
      (args : List Text)
      → r ≢ size_max
      → Gives (Spells consts r (codes "iadd") args) (parse_add r args)
  unfolding parse_add third_argument
  parse_add-Spells [] ne = record {}
  parse_add-Spells (a ∷ []) ne = record {}
  parse_add-Spells (a ∷ b ∷ []) ne =
      let P = Spells consts r (codes "iadd") (a ∷ b ∷ []) in
      Gives->>= P (parse_primitive_type a) _
        (λ t ht. Gives->>= P (parse_register_or_variable_number b) _ (λ l hl. record {}))
  parse_add-Spells (a ∷ b ∷ c ∷ rest) ne =
      let P = Spells consts r (codes "iadd") (a ∷ b ∷ c ∷ rest) in
      Gives->>= P (parse_primitive_type a) _ (λ t ht.
        Gives->>= P (parse_register_or_variable_number b) _ (λ l hl.
          Gives->>= P (parse_register_or_variable_number c) _
            (λ i hi. spells_iadd a b c rest t l i ne ht hl hi)))

  -- The name that was compared is the one that is spelled.
  named :
      (name expected : Text) (args : List Text) (p : Parsed Order)
      → text_eq name expected ≡ true
      → Gives (Spells consts r expected args) p
      → Gives (Spells consts r name args) p
  named name expected args p e =
      subst (λ n. Gives (Spells consts r n args) p) (sym (text_eq→eq name expected e))

  parse_plain-Spells :
      (name : Text) (args : List Text)
      → r ≡ size_max
      → Gives (Spells consts r name args) (parse_plain name args consts)
  unfolding parse_plain
  parse_plain-Spells name args e = elim (Bool-cases (text_eq name (codes "jump_to"))) [
    | inl is ↦ rw is (named name (codes "jump_to") args _ is (parse_jump-Spells args e))
    | inr no_jump ↦ elim (Bool-cases (text_eq name (codes "ret"))) [
      | inl is ↦ rw (no_jump, is) (named name (codes "ret") args _ is (parse_ret-Spells args e))
      | inr no_ret ↦ elim (Bool-cases (text_eq name (codes "set_field"))) [
        | inl is ↦
            rw (no_jump, no_ret, is)
              (named name (codes "set_field") args _ is (parse_set_field-Spells args e))
        | inr no_set ↦ rw (no_jump, no_ret, no_set) (record {})
      ]
    ]
  ]

  parse_assigned-Spells :
      (name : Text) (args : List Text)
      → r ≢ size_max
      → Gives (Spells consts r name args) (parse_assigned r name args)
  unfolding parse_assigned
  parse_assigned-Spells name args ne = elim (Bool-cases (text_eq name (codes "const"))) [
    | inl is ↦ rw is (named name (codes "const") args _ is (parse_get_const-Spells args ne))
    | inr no_const ↦ elim (Bool-cases (text_eq name (codes "arg"))) [
      | inl is ↦
          rw (no_const, is) (named name (codes "arg") args _ is (parse_get_argument-Spells args ne))
      | inr no_arg ↦ elim (Bool-cases (text_eq name (codes "iadd"))) [
        | inl is ↦
            rw (no_const, no_arg, is)
              (named name (codes "iadd") args _ is (parse_add-Spells args ne))
        | inr no_add ↦ rw (no_const, no_arg, no_add) (record {})
      ]
    ]
  ]

  parse_order-Spells :
      (name : Text) (args : List Text)
      → Gives (Spells consts r name args) (parse_order r name args consts)
  unfolding parse_order
  parse_order-Spells name args = elim (ℕ_discrete r size_max) [
    | yes e ↦ let plain = parse_plain-Spells name args e in ground arith
    | no ne ↦ let assigned = parse_assigned-Spells name args ne in ground arith
  ]

  -- What is spelled is made.
  Spells-parse_order :
      (name : Text) (args : List Text) (o : Order)
      → Spells consts r name args o
      → parse_order r name args consts ≡ ok o
  unfolding parse_order parse_assigned parse_plain parse_get_const parse_get_argument parse_add
      third_argument parse_jump parse_ret parse_set_field text_eq
  Spells-parse_order name args o (spells_const type index rest t i ne ht hi) =
      let made : parse_get_const r (type ∷ index ∷ rest) ≡ ok (get_const_integer t r i) =
        rw (ht, hi) refl in
      ground arith
  Spells-parse_order name args o (spells_arg index rest i ne hi) =
      let made : parse_get_argument r (index ∷ rest) ≡ ok (get_argument r i) = rw hi refl in
      ground arith
  Spells-parse_order name args o (spells_iadd type left right rest t l i ne ht hl hr) =
      let made : parse_add r (type ∷ left ∷ right ∷ rest) ≡ ok (add_integer t r l i) =
        rw (ht, hl, hr) refl in
      ground arith
  Spells-parse_order name args o (spells_jump_to label rest e) = ground arith
  Spells-parse_order name args o (spells_ret result rest i e h) =
      let made : parse_ret (result ∷ rest) ≡ ok (return_function i) = rw h refl in ground arith
  Spells-parse_order name args o
        (spells_set_field p s l t n rest pi oi ti ci b f e hp ho hb ht hc hf) =
      let made : parse_set_field consts (p ∷ s ∷ l ∷ t ∷ n ∷ rest)
          ≡ ok (set_object_field pi oi ti f 0 b) =
        rw (hp, ho, hb, ht, hc, hf) refl in
      ground arith

  answered :
      (name : Text) (args : List Text) (p : Parsed Order)
      → parse_order r name args consts ≡ p
      → Gives (Spells consts r name args) p
      → Answers consts r name args p
  answered name args (ok o) e spelled = spelled
  answered name args (err x) e none_made =
      λ o spells. let made = Spells-parse_order name args o spells in cc

-- An order is made exactly where its name and its arguments spell one, and it is the order that they
-- spell: `const`, `arg` and `iadd` with the register that is assigned, `jump_to`, `ret` and `set_field`
-- without one, each with the operands read from its arguments, a jump without a block, and a field order
-- with the index 0. For every other name, for arguments that are missing or are not read, and in the
-- wrong one of the two groups, the answer is an exception or the read out of bounds.
pub parse_order-Answers :
    (register : ℕ) (order_name : Text) (args : List Text) (consts : List ConstValue)
    → Answers consts register order_name args (parse_order register order_name args consts)
parse_order-Answers register order_name args consts =
    answered consts register order_name args _ refl
      (parse_order-Spells consts register order_name args)

-- An `iadd` with its type and one register passes the test on the number of its arguments, and reads
-- the third out of bounds.
pub iadd_two_arguments :
    (register : ℕ) (type left : Text) (consts : List ConstValue) (t : PrimitiveType) (l : ℕ)
    → register ≢ size_max
    → parse_primitive_type type ≡ ok t
    → parse_register_or_variable_number left ≡ ok l
    → parse_order register (codes "iadd") (type ∷ left ∷ []) consts ≡ err undefined
unfolding parse_order parse_assigned parse_add third_argument text_eq
iadd_two_arguments register type left consts t l ne ht hl =
    let add : parse_add register (type ∷ left ∷ []) ≡ err undefined = rw (ht, hl) in ground arith
