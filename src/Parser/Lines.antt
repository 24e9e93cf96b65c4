-- ===== src/Parser/Lines.antt =====
-- `move_until_next_line` of vm/parser/VMParser.cpp: the bytes up to the next line end, without spaces,
-- and the code behind it.
use cat_la_project.Base.{ℕ, [], ◌∷◌, ◌==◌, if◌then◌else◌, length, ◌≤◌, arith}
use cat_la_project.Base.Strings.{Text}

unfoldable pub move_until_next_line : Text → Text × Text
move_until_next_line [] = ([], [])
move_until_next_line (c ∷ cs) =
    let (line, rest) = move_until_next_line cs in
    if c == 10 then ([], cs) else if c == b' ' then (line, rest) else (c ∷ line, rest)

-- The code that is left is no longer.
pub length-rest : (cs : Text) → length (move_until_next_line cs).1 ≤ length cs
unfolding move_until_next_line
length-rest [] = omega arith
length-rest (c ∷ cs) = let ih = length-rest cs in ground arith

pub length-rest_cons : (c : ℕ) (cs : Text) → length (move_until_next_line (c ∷ cs)).1 ≤ length cs
unfolding move_until_next_line
length-rest_cons c cs = let ih = length-rest cs in ground arith
