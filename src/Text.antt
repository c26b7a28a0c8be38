-- ===== src/Text.antt =====
-- Python's `str` as its list of code points: equality, the order in which SQLite compares TEXT,
-- `str.strip`, and `first_line` of cli.py.
pub mod Order
use laneq.Common.{
  ℕ, List, [], ◌∷◌, ◌++◌, reverse, Bool, true, false, ◌&&◌, ◌||◌, String, code, ℕ_discrete, leb,
  ltb, ◌==◌, if◌then◌else◌,
}
use laneq.Common.Lists.{length, mem, take}

abbrev pub Text : Type 0
Text = List ℕ

unfoldable pub Text-discrete : Discrete Text
Text-discrete = hlevel ℕ_discrete

abbrev pub codes : String → Text
codes String.[] = []
codes (String.◌∷◌ c s) = code c ∷ codes s

abbrev pub text_eq : Text → Text → Bool
text_eq a b = elim (Text-discrete a b) [ yes _ ↦ true | no _ ↦ false ]

-- Python's `a in texts`.
abbrev pub text_mem : Text → List Text → Bool
text_mem a [] = false
text_mem a (b ∷ bs) = text_eq a b || text_mem a bs

-- `a <= b` on TEXT columns: by code points, as the BINARY collation does.
unfoldable pub text_leb : Text → Text → Bool
text_leb [] b = true
text_leb (x ∷ xs) [] = false
text_leb (x ∷ xs) (y ∷ ys) = if x == y then text_leb xs ys else ltb x y

-- `str.isspace` of one character.
unfoldable pub is_space : ℕ → Bool
is_space c =
    (leb 9 c && leb c 13)
    || (leb 28 c && leb c 32)
    || c == 0x85
    || c == 0xa0
    || c == 0x1680
    || (leb 0x2000 c && leb c 0x200a)
    || c == 0x2028
    || c == 0x2029
    || c == 0x202f
    || c == 0x205f
    || c == 0x3000

unfoldable pub lstrip : Text → Text
unfolding is_space
lstrip [] = []
lstrip (c ∷ cs) = let rest = lstrip cs in if is_space c then rest else c ∷ cs

unfoldable pub strip : Text → Text
unfolding lstrip
strip s = reverse (lstrip (reverse (lstrip s)))

-- `str.splitlines` breaks a line at these.
unfoldable pub is_line_break : ℕ → Bool
is_line_break c =
    (leb 10 c && leb c 13) || (leb 28 c && leb c 30) || c == 0x85 || c == 0x2028 || c == 0x2029

-- `text.splitlines()[0]`, of a text that is not empty.
unfoldable pub until_break : Text → Text
unfolding is_line_break
until_break [] = []
until_break (c ∷ cs) = let rest = until_break cs in if is_line_break c then [] else c ∷ rest

-- cli.py's `first_line`, at its default limit of 70.
unfoldable pub first_line : Text → Text
unfolding strip until_break
first_line body =
    let text = until_break (strip body) in
    if ltb 70 (length text) then take 70 text ++ codes "..." else text
