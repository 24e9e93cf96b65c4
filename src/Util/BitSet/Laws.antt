-- ===== src/Util/BitSet/Laws.antt =====
-- A flag that was set is read back, and no other flag changes.
use cat_la_project.Base.{
  ℕ, zero, suc, ◌+◌, ◌/◌, ◌%◌, ◌^◌, ◌<◌, ◌≡◌, ◌≢◌, refl, Bool, true, false, not, ◌||◌, none, some,
  List, get_elem?, set, length, length-replicate, get_elem?-some, get_elem?-set_self,
  get_elem?-set_ne, get_elem?-lt, length-set, Option-cases, inl, inr, get_elem?-set_cases, Option,
  replicate, arith, bit_and, bit_or, ◌==◌, if◌then◌else◌, ℕ_discrete, sym, ◌∙◌, ap,
}
use cat_la_project.Util.BitSet.{create_bitset, get_flag, set_flag}

-- A test that holds for every number under a bound, by running it.
each_under : (test : ℕ → Bool) → ℕ → Bool
each_under test zero = true
each_under test (suc k) = let rest = each_under test k in if test k then rest else false

each_under_at :
    (test : ℕ → Bool) (bound k : ℕ) → k < bound → each_under test bound ≡ true → test k ≡ true
unfolding each_under
each_under_at test zero k lt all = absurd (omega arith)
each_under_at test (suc bound) k lt all =
    let (last, rest) : (test bound ≡ true) × (each_under test bound ≡ true) = ground (arith, all) in
    elim (ℕ_discrete k bound) [
      | yes same ↦ ap test same ∙ last
      | no ne ↦ each_under_at test bound k (omega arith) rest
    ]

iff : Bool → Bool → Bool
iff true b = b
iff false b = not b

iff_sound : (a b : Bool) → iff a b ≡ true → a ≡ b
unfolding iff
iff_sound a b h = ground arith

-- Bit `j` of a byte, after bit `i` is set.
abbrev bit : ℕ → ℕ → Bool
bit byte i = not (bit_and byte (2 ^ i) == 0)

bits_check : ℕ → ℕ → ℕ → Bool
bits_check byte i j = iff (bit (bit_or byte (2 ^ i) % 256) j) ((i == j) || bit byte j)

table : each_under (λ byte. each_under (λ i. each_under (λ j. bits_check byte i j) 8) 8) 256 ≡ true
unfolding each_under bits_check iff
table = refl

bit_lem :
    (byte i j : ℕ)
    → byte < 256
    → i < 8
    → j < 8
    → bit (bit_or byte (2 ^ i) % 256) j ≡ ((i == j) || bit byte j)
unfolding bits_check
bit_lem byte i j hb hi hj =
    let rows = each_under_at _ 256 byte hb table in
    let row = each_under_at _ 8 i hi rows in
    iff_sound _ _ (each_under_at (λ k. bits_check byte i k) 8 j hj row)

same_bit : (i j : ℕ) → i / 8 ≡ j / 8 → (i % 8 == j % 8) ≡ (i == j)
same_bit i j h = ground arith

-- Every entry of the array is a byte.
abbrev pub IsBytes : List ℕ → Type 0
IsBytes bytes = (k b : ℕ) → get_elem? bytes k ≡ some b → b < 256

get_flag-at :
    (bytes : List ℕ) (j b : ℕ)
    → get_elem? bytes (j / 8) ≡ some b
    → get_flag bytes j ≡ some (bit b (j % 8))
unfolding get_flag
get_flag-at bytes j b h = rw (h, get_flag) refl

set_flag-at :
    (bytes : List ℕ) (i b : ℕ)
    → get_elem? bytes (i / 8) ≡ some b
    → set_flag bytes i true ≡ some (set bytes (i / 8) (bit_or b (2 ^ (i % 8)) % 256))
unfolding set_flag
set_flag-at bytes i b h = rw (h, set_flag) refl

set_flag-at_false :
    (bytes : List ℕ) (i b : ℕ)
    → get_elem? bytes (i / 8) ≡ some b
    → set_flag bytes i false ≡ some (set bytes (i / 8) (bit_or b 0 % 256))
unfolding set_flag
set_flag-at_false bytes i b h = rw (h, set_flag) refl

flag_after :
    (bytes : List ℕ) (i b j c : ℕ)
    → IsBytes bytes
    → get_elem? bytes (i / 8) ≡ some b
    → get_elem? bytes (j / 8) ≡ some c
    → get_flag (set bytes (i / 8) (bit_or b (2 ^ (i % 8)) % 256)) j
      ≡ (if i == j then some true else get_flag bytes j)
flag_after bytes i b j c is hb hc = elim (ℕ_discrete (i / 8) (j / 8)) [
  | yes same ↦
      let new = bit_or b (2 ^ (i % 8)) % 256 in
      let row = get_elem?-set_self bytes (i / 8) new (get_elem?-lt bytes (i / 8) b hb) in
      let bc : b ≡ c = cc (ap (get_elem? bytes) same) in
      let law = bit_lem b (i % 8) (j % 8) (is (i / 8) b hb) (omega arith) (omega arith) in
      get_flag-at (set bytes (i / 8) new) j new
        (sym (ap (get_elem? (set bytes (i / 8) new)) same) ∙ row)
      ∙ ap some law
      ∙ rw (same_bit i j same, get_flag-at bytes j c hc, ← bc) (or_if (i == j) (bit b (j % 8)))
  | no ne ↦
      let other = get_elem?-set_ne bytes (i / 8) (j / 8) (bit_or b (2 ^ (i % 8)) % 256) ne in
      get_flag-at _ j c (other ∙ hc)
      ∙ sym (get_flag-at bytes j c hc)
      ∙ sym (if_ne i j (get_flag bytes j) (λ e. ne (ap (λ (n : ℕ). n / 8) e)))
]
  where
    or_if : (p q : Bool) → some (p || q) ≡ (if p then some true else some q)
    or_if true q = refl
    or_if false q = refl

    if_ne : (i j : ℕ) (r : Option Bool) → i ≢ j → (if i == j then some true else r) ≡ r
    if_ne i j r ne = ground arith

-- Setting a flag of an array of bytes succeeds and keeps its length; the flag then reads true, and
-- every other flag of the array as before.
pub get_flag-set_flag :
    (bytes : List ℕ) (i j : ℕ)
    → IsBytes bytes
    → i / 8 < length bytes
    → j / 8 < length bytes
    → (bytes' : List ℕ) × (set_flag bytes i true ≡ some bytes')
      × (length bytes' ≡ length bytes)
      × (get_flag bytes' j ≡ (if i == j then some true else get_flag bytes j))
get_flag-set_flag bytes i j is lt lt' =
    let (b, hb) = get_elem?-some bytes (i / 8) lt in
    let (c, hc) = get_elem?-some bytes (j / 8) lt' in
    (
      set bytes (i / 8) (bit_or b (2 ^ (i % 8)) % 256),
      set_flag-at bytes i b hb,
      length-set bytes (i / 8) _,
      flag_after bytes i b j c is hb hc,
    )

set_flag-out :
    (bytes : List ℕ) (i : ℕ) (v : Bool) → get_elem? bytes (i / 8) ≡ none → set_flag bytes i v ≡ none
unfolding set_flag
set_flag-out bytes i v h = rw (h, set_flag) refl

set_flag-row :
    (bytes : List ℕ) (i : ℕ) (v : Bool) (b : ℕ)
    → get_elem? bytes (i / 8) ≡ some b
    → (x : ℕ) × (x < 256) × (set_flag bytes i v ≡ some (set bytes (i / 8) x))
unfolding set_flag
set_flag-row bytes i v b h =
    (bit_or b (if v then 2 ^ (i % 8) else 0) % 256, omega arith, rw (h, set_flag) refl)

-- The bytes stay bytes.
pub set_flag-IsBytes :
    (bytes bytes' : List ℕ) (i : ℕ) (v : Bool)
    → IsBytes bytes
    → set_flag bytes i v ≡ some bytes'
    → IsBytes bytes'
set_flag-IsBytes bytes bytes' i v is h k b hb = elim (Option-cases (get_elem? bytes (i / 8))) [
  | inl out ↦ absurd (cc (set_flag-out bytes i v out))
  | inr (old, row) ↦
      let (x, small, e) = set_flag-row bytes i v old row in
      let same : set bytes (i / 8) x ≡ bytes' = cc in
      elim (get_elem?-set_cases bytes (i / 8) k old x b row (rw same hb)) [
        | inl (at, eq) ↦ omega arith
        | inr (ne, h') ↦ is k b h'
      ]
]

zero_table : each_under (λ j. not (bit 0 j)) 8 ≡ true
unfolding each_under
zero_table = refl

zero_bit : (j : ℕ) → j < 8 → bit 0 j ≡ false
zero_bit j h = ground (arith, each_under_at (λ j. not (bit 0 j)) 8 j h zero_table)

get_elem?-replicate : (n k a : ℕ) → k < n → get_elem? (replicate n a) k ≡ some a
get_elem?-replicate zero k a h = absurd (omega arith)
get_elem?-replicate (suc n) zero a h = refl
get_elem?-replicate (suc n) (suc k) a h = get_elem?-replicate n k a (omega arith)

-- A new bit set of `n` flags has a byte for each flag below `n`, and the flag is false.
pub get_flag-create_bitset :
    (n j : ℕ)
    → j < n
    → (j / 8 < length (create_bitset n)) × (get_flag (create_bitset n) j ≡ some false)
unfolding create_bitset
get_flag-create_bitset n j h = (
  omega (arith, length-replicate (n / 8 + 1) (0 + 0)),
  get_flag-at (replicate (n / 8 + 1) 0) j 0
        (get_elem?-replicate (n / 8 + 1) (j / 8) 0 (omega arith))
      ∙ ap some (zero_bit (j % 8) (omega arith)),
)
