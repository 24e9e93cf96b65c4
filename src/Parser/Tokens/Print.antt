-- ===== src/Parser/Tokens/Print.antt =====
-- Numbers that are written in decimal are read back by `stoull` and by the parser of registers.
use cat_la_project.Base.{
  ℕ, zero, suc, ◌+◌, ◌-◌, ◌*◌, ◌/◌, ◌%◌, ◌^◌, ◌<◌, ◌≤◌, ◌≡◌, refl, sym, ◌∙◌, ap, subst, true, false,
  ◌&&◌, ◌||◌, none, some, List, [], ◌∷◌, ◌++◌, length, arith, ◌==◌, ltb, leb, if◌then◌else◌,
  Bool-cases, inl, inr,
}
use cat_la_project.Base.Strings.{Text, codes}
use cat_la_project.Parser.Result.{ok}
use cat_la_project.Parser.Regex.{Item, lits, many, digit, is_in, greedy, match}
use cat_la_project.Parser.Tokens.{
  digits_value, take_digits, magnitude, skip_spaces, signed, stoull,
  parse_register_or_variable_number,
}

-- The decimal digits of `n`; a step of `fuel` writes one.
unfoldable pub print_digits : (fuel n : ℕ) → Text
print_digits zero n = (48 + n % 10) ∷ []
print_digits (suc fuel) n =
    let more = print_digits fuel (n / 10) in
    if ltb n 10 then (48 + n) ∷ [] else more ++ ((48 + n % 10) ∷ [])

-- Twenty digits are enough for 64 bits.
unfoldable pub decimal : ℕ → Text
unfolding print_digits
decimal n = print_digits 19 n

abbrev AllDigits : Text → Type 0
AllDigits [] = Unit {0}
AllDigits (c ∷ cs) = (is_in digit c ≡ true) × AllDigits cs

AllDigits-append : (xs ys : Text) → AllDigits xs → AllDigits ys → AllDigits (xs ++ ys)
AllDigits-append [] ys h k = k
AllDigits-append (x ∷ xs) ys (d, h) k = (d, AllDigits-append xs ys h k)

one_digit : (n : ℕ) → n < 10 → is_in digit (48 + n) ≡ true
unfolding is_in
one_digit n lt = ground arith

print_digits-AllDigits : (fuel n : ℕ) → AllDigits (print_digits fuel n)
unfolding print_digits
print_digits-AllDigits zero n = (one_digit (n % 10) (omega arith), record {})
print_digits-AllDigits (suc fuel) n = elim (Bool-cases (ltb n 10)) [
  | inl e ↦ rw e (one_digit n (ground arith), record {})
  | inr e ↦ rw e (
      AllDigits-append (print_digits fuel (n / 10)) ((48 + n % 10) ∷ [])
        (print_digits-AllDigits fuel (n / 10)) (one_digit (n % 10) (omega arith), record {}))
]

digits_value-append :
    (acc : ℕ) (xs : Text) (d : ℕ)
    → digits_value acc (xs ++ (d ∷ [])) ≡ digits_value acc xs * 10 + (d - 48)
unfolding digits_value
digits_value-append acc [] d = refl
digits_value-append acc (x ∷ xs) d = digits_value-append (acc * 10 + (x - 48)) xs d

-- The numbers of at most `fuel + 1` digits are below this.
abbrev below : ℕ → ℕ
below zero = 10
below (suc fuel) = below fuel * 10

digits_value-print_digits : (fuel n : ℕ) → n < below fuel → digits_value 0 (print_digits fuel n) ≡ n
unfolding print_digits digits_value
digits_value-print_digits zero n lt = omega arith
digits_value-print_digits (suc fuel) n lt = elim (Bool-cases (ltb n 10)) [
  | inl e ↦ rw e (omega arith)
  | inr e ↦
      let ih = digits_value-print_digits fuel (n / 10) (omega arith) in
      rw e (digits_value-append 0 (print_digits fuel (n / 10)) (48 + n % 10) ∙ omega (arith, ih))
]

nonempty : (fuel n : ℕ) → (c : ℕ) × (cs : Text) × (print_digits fuel n ≡ c ∷ cs)
unfolding print_digits
nonempty zero n = (_, _, refl)
nonempty (suc fuel) n = elim (Bool-cases (ltb n 10)) [
  | inl e ↦ (48 + n, [], rw e refl)
  | inr e ↦
      let (c, cs, q) = nonempty fuel (n / 10) in (c, cs ++ ((48 + n % 10) ∷ []), rw (e, q) refl)
]

append_nil : (xs : Text) → xs ++ [] ≡ xs
append_nil [] = refl
append_nil (x ∷ xs) = ap (λ t. x ∷ t) (append_nil xs)

append_assoc : (xs ys zs : Text) → (xs ++ ys) ++ zs ≡ xs ++ (ys ++ zs)
append_assoc [] ys zs = refl
append_assoc (x ∷ xs) ys zs = ap (λ t. x ∷ t) (append_assoc xs ys zs)

take_digits-AllDigits : (ds : Text) → AllDigits ds → take_digits ds ≡ ds
unfolding take_digits
take_digits-AllDigits [] h = refl
take_digits-AllDigits (d ∷ ds) (e, h) = rw (e, take_digits-AllDigits ds h) refl

-- The group takes all digits.
greedy-AllDigits :
    (taken ds : Text)
    → AllDigits ds
    → 1 ≤ length (taken ++ ds)
    → greedy digit 1 (match []) taken ds ≡ some ((taken ++ ds) ∷ [])
unfolding greedy match
greedy-AllDigits taken [] h le =
    let long : leb 1 (length taken) ≡ true = ground (arith, ap length (append_nil taken)) in
    rw (long, append_nil taken) refl
greedy-AllDigits taken (d ∷ ds) (e, h) le =
    let ih =
      greedy-AllDigits (taken ++ (d ∷ [])) ds h
        (subst (λ t. 1 ≤ length t) (sym (append_assoc taken (d ∷ []) ds)) le) in
    rw (e, ih, append_assoc taken (d ∷ []) ds) refl

skip_digit :
    (c : ℕ) (cs : Text) → (c == 32 || (leb 9 c && leb c 13)) ≡ false → skip_spaces (c ∷ cs) ≡ c ∷ cs
unfolding skip_spaces
skip_digit c cs e = rw e refl

unsigned :
    (c : ℕ) (cs : Text)
    → (c == b'-') ≡ false
    → (c == b'+') ≡ false
    → signed (c ∷ cs) ≡ magnitude (c ∷ cs)
unfolding signed
unsigned c cs e e' = rw (e, e') refl

magnitude-AllDigits :
    (c : ℕ) (cs : Text)
    → AllDigits (c ∷ cs)
    → ltb (digits_value 0 (c ∷ cs)) (2 ^ 64) ≡ true
    → magnitude (c ∷ cs) ≡ ok (digits_value 0 (c ∷ cs))
unfolding magnitude
magnitude-AllDigits c cs h e = rw (magnitude, take_digits-AllDigits (c ∷ cs) h, e) refl

stoull-AllDigits :
    (c : ℕ) (cs : Text)
    → AllDigits (c ∷ cs)
    → digits_value 0 (c ∷ cs) < 2 ^ 64
    → stoull (c ∷ cs) ≡ ok (digits_value 0 (c ∷ cs))
unfolding stoull is_in
stoull-AllDigits c cs h lt =
    let no_space : (c == 32 || (leb 9 c && leb c 13)) ≡ false = ground (arith, h.0) in
    let no_minus : (c == b'-') ≡ false = ground (arith, h.0) in
    let no_plus : (c == b'+') ≡ false = ground (arith, h.0) in
    let fits : ltb (digits_value 0 (c ∷ cs)) (2 ^ 64) ≡ true = ground arith in
    ap signed (skip_digit c cs no_space)
    ∙ unsigned c cs no_minus no_plus
    ∙ magnitude-AllDigits c cs h fits

abbrev numbered : Text → List Item
numbered prefix = lits prefix ++ (many 1 digit ∷ [])

match-numbered :
    (prefix ds : Text)
    → AllDigits ds
    → 1 ≤ length ds
    → match (numbered prefix) (prefix ++ ds) ≡ some (ds ∷ [])
unfolding match
match-numbered [] ds h le = greedy-AllDigits [] ds h le
match-numbered (p ∷ ps) ds h le =
    let same : (p == p) ≡ true = ground arith in rw same (match-numbered ps ds h le)

-- What starts with `var#` is no register.
no_register : (ds : Text) → match (numbered (codes "reg#")) (codes "var#" ++ ds) ≡ none
unfolding match
no_register ds = refl

abbrev ReadAs : (digits : Text) (n : ℕ) → Type 0
ReadAs digits n =
    (parse_register_or_variable_number (codes "reg#" ++ digits) ≡ ok n)
    × (parse_register_or_variable_number (codes "var#" ++ digits) ≡ ok n)

digits-ReadAs :
    (c n : ℕ) (cs : Text) → AllDigits (c ∷ cs) → stoull (c ∷ cs) ≡ ok n → ReadAs (c ∷ cs) n
unfolding parse_register_or_variable_number
digits-ReadAs c n cs ds read =
    let reg = match-numbered (codes "reg#") (c ∷ cs) ds (omega arith) in
    let var = match-numbered (codes "var#") (c ∷ cs) ds (omega arith) in
    (
      rw (parse_register_or_variable_number, reg) read,
      rw (parse_register_or_variable_number, no_register (c ∷ cs), var) read,
    )

-- A register or a variable whose number is written in decimal is read as that number, for every number of
-- 64 bits.
pub parse_register_or_variable_number-decimal :
    (n : ℕ)
    → n < 2 ^ 64
    → (parse_register_or_variable_number (codes "reg#" ++ decimal n) ≡ ok n)
      × (parse_register_or_variable_number (codes "var#" ++ decimal n) ≡ ok n)
unfolding decimal
parse_register_or_variable_number-decimal n lt =
    let (c, cs, q) = nonempty 19 n in
    let digits = print_digits-AllDigits 19 n in
    let value = digits_value-print_digits 19 n (omega arith) in
    let ds : AllDigits (c ∷ cs) = subst AllDigits q digits in
    let read : stoull (c ∷ cs) ≡ ok n =
      let v : digits_value 0 (c ∷ cs) ≡ n = ap (digits_value 0) (sym q) ∙ value in
      stoull-AllDigits c cs ds (omega (arith, v)) ∙ ap ok v in
    subst (λ t. ReadAs t n) (sym q) (digits-ReadAs c n cs ds read)
