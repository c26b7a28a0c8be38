-- ===== src/Text/Order.antt =====
-- Laws of the comparison and of the equality of texts.
use laneq.Common.{[], ◌∷◌, true, false, ◌≡◌, refl, ◌≢◌, arith}
use laneq.Text.{Text, text_eq, text_leb}

pub text_eq_refl : (a : Text) → text_eq a a ≡ true
text_eq_refl a = ground arith

pub eq_of_text_eq : (a b : Text) → text_eq a b ≡ true → a ≡ b
eq_of_text_eq a b h = ground arith

pub ne_of_text_eq : (a b : Text) → text_eq a b ≡ false → a ≢ b
ne_of_text_eq a b h = λ e. ground arith

pub text_leb_refl : (a : Text) → text_leb a a ≡ true
unfolding text_leb
text_leb_refl [] = refl
text_leb_refl (x ∷ xs) = ground (arith, text_leb_refl xs)

pub text_leb_trans :
    (a b c : Text) → text_leb a b ≡ true → text_leb b c ≡ true → text_leb a c ≡ true
unfolding text_leb
text_leb_trans [] b c h k = refl
text_leb_trans (x ∷ xs) [] c h k = cc
text_leb_trans (x ∷ xs) (y ∷ ys) [] h k = cc
text_leb_trans (x ∷ xs) (y ∷ ys) (z ∷ zs) h k = ground (arith, text_leb_trans xs ys zs)

-- What is not at most `b` is above it.
pub text_leb_total : (a b : Text) → text_leb a b ≡ false → text_leb b a ≡ true
unfolding text_leb
text_leb_total [] b h = cc
text_leb_total (x ∷ xs) [] h = refl
text_leb_total (x ∷ xs) (y ∷ ys) h = ground (arith, text_leb_total xs ys)

pub text_leb_antisym : (a b : Text) → text_leb a b ≡ true → text_leb b a ≡ true → a ≡ b
unfolding text_leb
text_leb_antisym [] [] h k = refl
text_leb_antisym [] (y ∷ ys) h k = cc
text_leb_antisym (x ∷ xs) [] h k = cc
text_leb_antisym (x ∷ xs) (y ∷ ys) h k = ground (arith, text_leb_antisym xs ys)

-- A deadline that has passed at one reading of the clock has passed at every later one.
pub passed_later :
    (deadline now later : Text)
    → text_leb now later ≡ true
    → text_leb deadline later ≡ false
    → text_leb deadline now ≡ false
passed_later deadline now later up h = ground (arith, text_leb_trans deadline now later)
