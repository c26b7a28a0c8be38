-- ===== src/Dependencies.antt =====
-- `parse_dependency_ids` and `format_dependency_ids` of cli.py: ids as a text with commas. Python's
-- `int` reads digits of other scripts too, which the model leaves out.
use laneq.Common.{
  ℕ, zero, suc, ◌+◌, ◌-◌, ◌*◌, ◌/◌, ◌%◌, List, [], ◌∷◌, ◌++◌, Bool, true, false, ◌&&◌, Option, none,
  some, Result, ok, err, argument_type, leb, ltb, ◌==◌, if◌then◌else◌,
}
use laneq.Text.{Text, is_space}

-- Digits with single underscores between them; `seen` says that the last one was a digit.
unfoldable pub digits_value : ℕ → Bool → Text → Option ℕ
digits_value acc seen [] = if seen then some acc else none
digits_value acc seen (c ∷ cs) =
    let after_digit = digits_value (acc * 10 + (c - 48)) true cs in
    let after_underscore = digits_value acc false cs in
    if leb 48 c && leb c 57 then after_digit else if c == 95 && seen then after_underscore else none

-- `int(piece)` where it is at least 1; what it refuses and what is below 1 raise one error.
unfoldable pub positive_int : Text → Option ℕ
unfolding digits_value
positive_int [] = none
positive_int (c ∷ cs) =
    elim (if c == 43 then digits_value 0 false cs else digits_value 0 false (c ∷ cs)) [
      | none ↦ none
      | some n ↦ if leb 1 n then some n else none
    ]

-- `value.replace(",", " ").split()`: `piece` holds the current piece reversed.
abbrev pub separates : ℕ → Bool
separates c = if c == 44 then true else is_space c

abbrev pub close_piece : Text → List Text → List Text
close_piece [] pieces = pieces
close_piece (c ∷ cs) pieces = (c ∷ cs) ∷ pieces

unfoldable pub add_char : ℕ → Text × List Text → Text × List Text
add_char c (piece, pieces) =
    if separates c then ([], close_piece piece pieces) else (c ∷ piece, pieces)

-- The piece that the text begins with, and those behind it.
unfoldable pub pieces_of : Text → Text × List Text
unfolding add_char
pieces_of [] = ([], [])
pieces_of (c ∷ cs) = add_char c (pieces_of cs)

unfoldable pub split_ids : Text → List Text
unfolding pieces_of
split_ids value = let (piece, pieces) = pieces_of value in close_piece piece pieces

unfoldable pub read_ids : List Text → Result (List ℕ)
unfolding positive_int
read_ids [] = ok []
read_ids (piece ∷ pieces) = elim (positive_int piece) [
  | none ↦ err argument_type
  | some n ↦ elim (read_ids pieces) [ ok ns ↦ ok (n ∷ ns) | err e ↦ err e ]
]

unfoldable pub parse_dependency_ids : Text → Result (List ℕ)
unfolding read_ids split_ids
parse_dependency_ids value = read_ids (split_ids value)

-- `str(n)`; the number itself is fuel enough.
unfoldable pub decimal : ℕ → ℕ → Text
decimal zero n = []
decimal (suc fuel) n =
    let front = decimal fuel (n / 10) in
    if ltb n 10 then (48 + n) ∷ [] else front ++ (48 + n % 10) ∷ []

unfoldable pub join_ids : List ℕ → Text
unfolding decimal
join_ids [] = []
join_ids (n ∷ []) = decimal (suc n) n
join_ids (n ∷ m ∷ ns) = decimal (suc n) n ++ 44 ∷ join_ids (m ∷ ns)

unfoldable pub format_dependency_ids : List ℕ → Option Text
unfolding join_ids
format_dependency_ids [] = none
format_dependency_ids (n ∷ ns) = some (join_ids (n ∷ ns))
