-- ===== src/Ints/Decimal.antt =====
-- `int` reads what `str` writes.
use laneq.Common.{
  ℕ, zero, suc, ◌+◌, ◌-◌, ◌*◌, ◌/◌, ◌%◌, ◌≤◌, ◌<◌, ◌≡◌, refl, ap, sym, ◌∙◌, [], ◌∷◌, ◌++◌, Bool,
  true, false, ◌&&◌, some, ok, arith, reverse, leb, ltb, ◌==◌, Bool-cases, inl, inr,
}
use mathlib.Core.List.{reverse_aux}
use laneq.Common.Lists.{append_nil, append_assoc}
use laneq.Text.{Text, strip, lstrip, is_space}
use laneq.Sql.Order.{Every}
use laneq.Dependencies.{digits_value, decimal}
use laneq.Ints.{pos, or_value_error, signed, int_of, str_of}

abbrev IsDigits : Text → Type 0
IsDigits = Every (λ c. (48 ≤ c) × (c ≤ 57))

digit_step :
    (acc d : ℕ) (seen : Bool) (rest : Text)
    → d ≤ 9
    → digits_value acc seen ((48 + d) ∷ rest) ≡ digits_value (acc * 10 + d) true rest
unfolding digits_value
digit_step acc d seen rest le = rw (test, value) refl
  where
    test : (leb 48 (48 + d) && leb (48 + d) 57) ≡ true
    test = ground arith

    value : 48 + d - 48 ≡ d
    value = omega arith

last_digit : (n : ℕ) → n % 10 ≤ 9
last_digit n = omega arith

whole : (n : ℕ) → n / 10 * 10 + n % 10 ≡ n
whole n = omega arith

fewer : (n fuel : ℕ) → ltb n 10 ≡ false → n < suc fuel → n / 10 < fuel
fewer n fuel h lt = ground arith

read_decimal :
    (fuel n : ℕ) (rest : Text)
    → n < fuel
    → digits_value 0 false (decimal fuel n ++ rest) ≡ digits_value n true rest
unfolding decimal
read_decimal zero n rest lt = absurd (omega arith)
read_decimal (suc fuel) n rest lt = elim (Bool-cases (ltb n 10)) [
  | inl e ↦
      rw e
        (digit_step 0 n false rest (ground arith) ∙ ap (λ m. digits_value m true rest) (zero_mul n))
  | inr e ↦ rw e (
      ap (digits_value 0 false) (append_assoc (decimal fuel (n / 10)) ((48 + n % 10) ∷ []) rest)
      ∙ read_decimal fuel (n / 10) ((48 + n % 10) ∷ rest) (fewer n fuel e lt)
      ∙ digit_step (n / 10) (n % 10) true rest (last_digit n)
      ∙ ap (λ m. digits_value m true rest) (whole n))
]
  where
    zero_mul : (n : ℕ) → 0 * 10 + n ≡ n
    zero_mul n = omega arith

Every-append : (xs ys : Text) → IsDigits xs → IsDigits ys → IsDigits (xs ++ ys)
Every-append [] ys h k = k
Every-append (x ∷ xs) ys h k = (h.0, Every-append xs ys h.1 k)

decimal-IsDigits : (fuel n : ℕ) → IsDigits (decimal fuel n)
unfolding decimal
decimal-IsDigits zero n = tt
decimal-IsDigits (suc fuel) n = elim (Bool-cases (ltb n 10)) [
  | inl e ↦ rw e (((omega arith, ground arith), tt))
  | inr e ↦ rw e (
      Every-append (decimal fuel (n / 10)) _ (decimal-IsDigits fuel (n / 10))
        ((omega arith, omega arith), tt))
]

digit_not_space : (c : ℕ) → (48 ≤ c) × (c ≤ 57) → is_space c ≡ false
unfolding is_space
digit_not_space c h = ground (arith, h.0, h.1)

lstrip_digits : (xs : Text) → IsDigits xs → lstrip xs ≡ xs
unfolding lstrip
lstrip_digits [] h = refl
lstrip_digits (c ∷ cs) h = rw (digit_not_space c h.0) refl

reverse_aux-IsDigits : (xs acc : Text) → IsDigits xs → IsDigits acc → IsDigits (reverse_aux xs acc)
reverse_aux-IsDigits [] acc h k = k
reverse_aux-IsDigits (x ∷ xs) acc h k = reverse_aux-IsDigits xs (x ∷ acc) h.1 (h.0, k)

reverse_aux-reverse_aux :
    (xs acc more : Text) → reverse_aux (reverse_aux xs acc) more ≡ reverse_aux acc (xs ++ more)
reverse_aux-reverse_aux [] acc more = refl
reverse_aux-reverse_aux (x ∷ xs) acc more = reverse_aux-reverse_aux xs (x ∷ acc) more

strip_digits : (xs : Text) → IsDigits xs → strip xs ≡ xs
unfolding strip
strip_digits xs h =
    ap (λ t. reverse (lstrip (reverse t))) (lstrip_digits xs h)
    ∙ ap reverse (lstrip_digits (reverse xs) (reverse_aux-IsDigits xs [] h tt))
    ∙ reverse_aux-reverse_aux xs [] []
    ∙ append_nil xs

signed_digits :
    (xs : Text) (n : ℕ) → IsDigits xs → digits_value 0 false xs ≡ some n → signed xs ≡ some (pos n)
unfolding digits_value
signed_digits [] n h e = cc
signed_digits (c ∷ cs) n h e = rw (minus, plus) (rw e refl)
  where
    minus : (c == 45) ≡ false
    minus = ground (arith, h.0.0)

    plus : (c == 43) ≡ false
    plus = ground (arith, h.0.0)

-- `int(str(n))` is `n`.
pub int_of-str_of : (n : ℕ) → int_of (str_of n) ≡ ok (pos n)
unfolding int_of str_of
int_of-str_of n =
    let digits = decimal-IsDigits (suc n) n in
    let value : digits_value 0 false (decimal (suc n) n) ≡ some n =
      ap (digits_value 0 false) (sym (append_nil (decimal (suc n) n)))
      ∙ read_decimal (suc n) n [] (omega arith)
      ∙ nothing_left n in
    let read =
      ap signed (strip_digits (decimal (suc n) n) digits)
      ∙ signed_digits (decimal (suc n) n) n digits value in
    ap or_value_error read
  where
    nothing_left : (n : ℕ) → digits_value n true [] ≡ some n
    nothing_left n = refl
