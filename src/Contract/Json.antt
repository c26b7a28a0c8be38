-- ===== src/Contract/Json.antt =====
-- The canonical JSON text of a manifest: `json.dumps` with sorted keys, no blanks and
-- `ensure_ascii=False`, on the dict that `parse_handoff` freezes.
use laneq.Common.{ℕ, ◌+◌, ◌/◌, ◌%◌, List, [], ◌∷◌, ◌++◌, ltb, ◌==◌, if◌then◌else◌}
use laneq.Text.{Text, codes}

pub record Successor : Type 0 where
  pub admission_key : Text
  pub body : Text
  pub lane : Text
  pub priority : Text

hex_digit : ℕ → ℕ
hex_digit n = if ltb n 10 then 48 + n else 87 + n

-- One character inside a JSON string: 34 is the quote, 92 the backslash.
unfoldable pub escape_char : ℕ → Text
unfolding hex_digit
escape_char c =
    if c == 34
    then 92 ∷ 34 ∷ []
    else if c == 92
    then 92 ∷ 92 ∷ []
    else if c == 10
    then 92 ∷ 110 ∷ []
    else if c == 13
    then 92 ∷ 114 ∷ []
    else if c == 9
    then 92 ∷ 116 ∷ []
    else if c == 12
    then 92 ∷ 102 ∷ []
    else if c == 8
    then 92 ∷ 98 ∷ []
    else if ltb c 32
    then 92 ∷ 117 ∷ 48 ∷ 48 ∷ hex_digit (c / 16) ∷ hex_digit (c % 16) ∷ []
    else c ∷ []

unfoldable pub escape : Text → Text
unfolding escape_char
escape [] = []
escape (c ∷ cs) = escape_char c ++ escape cs

unfoldable pub quoted : Text → Text
unfolding escape
quoted s = 34 ∷ escape s ++ 34 ∷ []

-- "name":value, with what follows
unfoldable pub entry : Text → Text → Text → Text
unfolding quoted
entry name value rest = quoted name ++ 58 ∷ value ++ rest

unfoldable pub encode_successor : Successor → Text
unfolding entry quoted
encode_successor s =
    123
    ∷ entry (codes "admission_key") (quoted s.admission_key) (
        44
        ∷ entry (codes "body") (quoted s.body) (
            44
            ∷ entry (codes "lane") (quoted s.lane)
                (44 ∷ entry (codes "priority") (quoted s.priority) (125 ∷ []))))

unfoldable pub encode_rest : List Successor → Text
unfolding encode_successor
encode_rest [] = []
encode_rest (s ∷ ss) = 44 ∷ encode_successor s ++ encode_rest ss

unfoldable pub encode_successors : List Successor → Text
unfolding encode_rest encode_successor
encode_successors [] = 91 ∷ 93 ∷ []
encode_successors (s ∷ ss) = 91 ∷ encode_successor s ++ encode_rest ss ++ 93 ∷ []

unfoldable pub encode_manifest : Text → Text → Text → Text → List Successor → Text
unfolding entry quoted encode_successors
encode_manifest source artifact receipt reference successors =
    123
    ∷ entry (codes "artifact_digest") (quoted artifact) (
        44
        ∷ entry (codes "input_digest") (quoted source) (
            44
            ∷ entry (codes "receipt_digest") (quoted receipt) (
                44
                ∷ entry (codes "receipt_ref") (quoted reference)
                    (44 ∷ entry (codes "successors") (encode_successors successors) (125 ∷ [])))))
