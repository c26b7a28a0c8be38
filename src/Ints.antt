-- ===== src/Ints.antt =====
-- Python's `int(text)` and `str(n)`, on decimal digits; digits of other scripts are left out.
pub mod Decimal
use laneq.Common.{
  ℕ, zero, suc, [], ◌∷◌, false, Option, none, some, Result, ok, err, value_error, ◌==◌,
  if◌then◌else◌,
}
use laneq.Text.{Text, strip}
use laneq.Dependencies.{digits_value, decimal}

pub data ℤ : Type 0 where
  pos : ℕ → ℤ
  negsuc : ℕ → ℤ

abbrev pub negated : ℕ → ℤ
negated zero = pos zero
negated (suc n) = negsuc n

-- A text without space around it.
abbrev pub signed : Text → Option ℤ
signed [] = none
signed (c ∷ cs) =
    if c == 45
    then elim (digits_value 0 false cs) [ none ↦ none | some n ↦ some (negated n) ]
    else elim (if c == 43 then digits_value 0 false cs else digits_value 0 false (c ∷ cs)) [
      | none ↦ none
      | some n ↦ some (pos n)
    ]

abbrev pub or_value_error : Option ℤ → Result ℤ
or_value_error none = err value_error
or_value_error (some n) = ok n

unfoldable pub int_of : Text → Result ℤ
unfolding digits_value strip
int_of t = or_value_error (signed (strip t))

-- `str(n)`
unfoldable pub str_of : ℕ → Text
unfolding decimal
str_of n = decimal (suc n) n
