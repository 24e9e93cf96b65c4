-- ===== src/Parser/Regex.antt =====
-- The `std::regex` patterns of VMParser.cpp are rows of literals and capture groups. `match` is
-- `regex_match` on them: a match of the whole text, the longest choice first, with backtracking.
use cat_la_project.Base.{
  ℕ, Bool, not, ◌&&◌, ◌||◌, Option, none, some, List, [], ◌∷◌, ◌++◌, length, ◌==◌, leb,
  if◌then◌else◌,
}
use cat_la_project.Base.Strings.{Text}

-- `\d`, `\w` and `.` (any byte but a line end)
pub data Class : Type 0 where
  digit word any : Class

unfoldable pub is_in : Class → ℕ → Bool
is_in digit c = leb b'0' c && leb c b'9'
is_in word c =
    (leb b'0' c && leb c b'9')
    || (leb b'a' c && leb c b'z')
    || (leb b'A' c && leb c b'Z')
    || c == b'_'
is_in any c = not (c == 10) && not (c == 13)

-- A literal byte, or a group: one byte of a class, or at least `least` bytes of it.
pub data Item : Type 0 where
  lit : ℕ → Item
  one : Class → Item
  many : (least : ℕ) → Class → Item

abbrev pub lits : Text → List Item
lits [] = []
lits (c ∷ cs) = lit c ∷ lits cs

abbrev captured : Text → Option (List Text) → Option (List Text)
captured w none = none
captured w (some cs) = some (w ∷ cs)

abbrev or_else : Option (List Text) → Option (List Text) → Option (List Text)
or_else (some a) r = some a
or_else none r = r

-- A group that holds `taken` so far: a longer one first, then this one.
unfoldable pub greedy :
    Class → ℕ → (Text → Option (List Text)) → (taken : Text) → Text → Option (List Text)
greedy k least rest taken [] = if leb least (length taken) then captured taken (rest []) else none
greedy k least rest taken (c ∷ cs) =
    let longer = greedy k least rest (taken ++ (c ∷ [])) cs in
    let stop = if leb least (length taken) then captured taken (rest (c ∷ cs)) else none in
    if is_in k c then or_else longer stop else stop

-- The captures of a match, in order.
unfoldable pub match : List Item → Text → Option (List Text)
match [] [] = some []
match [] (c ∷ cs) = none
match (lit a ∷ is) [] = none
match (lit a ∷ is) (c ∷ cs) = if a == c then match is cs else none
match (one k ∷ is) [] = none
match (one k ∷ is) (c ∷ cs) = if is_in k c then captured (c ∷ []) (match is cs) else none
match (many least k ∷ is) s = greedy k least (match is) [] s
