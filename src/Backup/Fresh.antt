-- ===== src/Backup/Fresh.antt =====
-- The loop that looks for a name ends with one that no file has.
use laneq.Common.{
  ℕ, suc, zero, ◌≡◌, ◌≢◌, ◌≤◌, ◌<◌, refl, ap, sym, ◌∙◌, List, [], ◌∷◌, ◌++◌, true, false, ok,
  Bool-cases, inl, inr, arith,
}
use laneq.Common.Lists.{length, length-append}
use laneq.Text.{Text, text_eq, text_mem}
use laneq.Text.Order.{eq_of_text_eq}
use laneq.Ints.{pos, int_of, str_of}
use laneq.Ints.Decimal.{int_of-str_of}
use laneq.Backup.{backup_prefix, numbered, next_free, make_backup_path, unlink}

append_cancel : (xs : Text) {ys zs : Text} → xs ++ ys ≡ xs ++ zs → ys ≡ zs
append_cancel [] h = h
append_cancel (x ∷ xs) h = append_cancel xs (cc (h))

str_of_injective : (a b : ℕ) → str_of a ≡ str_of b → a ≡ b
str_of_injective a b h =
    let same : ok (pos a) ≡ ok (pos b) = sym (int_of-str_of a) ∙ ap int_of h ∙ int_of-str_of b in
    cc (same)

numbered_injective : (base : Text) (a b : ℕ) → numbered base a ≡ numbered base b → a ≡ b
unfolding numbered
numbered_injective base a b h =
    let tails : 45 ∷ str_of a ≡ 45 ∷ str_of b = append_cancel base h in
    str_of_injective a b (cc (tails))

base_ne_numbered : (base : Text) (k : ℕ) → base ≢ numbered base k
unfolding numbered
base_ne_numbered base k h =
    let same : length base ≡ length (base ++ (45 ∷ str_of k)) = ap length h in
    absurd (omega (arith, same, length-append base (45 ∷ str_of k)))

mem-unlink :
    (c d : Text) (files : List Text)
    → c ≢ d
    → text_mem d files ≡ true
    → text_mem d (unlink c files) ≡ true
mem-unlink c d [] ne h = h
mem-unlink c d (f ∷ fs) ne h = elim (Bool-cases (text_eq f c)) [
  | inl e ↦ elim (Bool-cases (text_eq d f)) [
    | inl u ↦ absurd (ne (sym (eq_of_text_eq d f u ∙ eq_of_text_eq f c e)))
    | inr u ↦ rw e (mem-unlink c d fs ne (rw u at h))
  ]
  | inr e ↦ elim (Bool-cases (text_eq d f)) [
    | inl u ↦ rw (e, u) refl
    | inr u ↦ rw (e, u) (mem-unlink c d fs ne (rw u at h))
  ]
]

unlink_le : (c : Text) (files : List Text) → length (unlink c files) ≤ length files
unlink_le c [] = omega arith
unlink_le c (f ∷ fs) = elim (Bool-cases (text_eq f c)) [
  | inl e ↦ rw e (omega (arith, unlink_le c fs))
  | inr e ↦ rw e (omega (arith, unlink_le c fs))
]

text_eq_sym : (a b : Text) → text_eq a b ≡ false → text_eq b a ≡ false
text_eq_sym a b e = ground arith

unlink_lt :
    (c : Text) (files : List Text)
    → text_mem c files ≡ true
    → length (unlink c files) < length files
unlink_lt c [] h = cc
unlink_lt c (f ∷ fs) h = elim (Bool-cases (text_eq f c)) [
  | inl e ↦ rw e (omega (arith, unlink_le c fs))
  | inr e ↦ let below = unlink_lt c fs (rw (text_eq_sym f c e) at h) in rw e (omega (arith, below))
]

-- The files that the loop has not yet met shrink with each round.
next_free_new :
    (fuel suffix : ℕ) (base c : Text) (files left : List Text)
    → length left ≤ fuel
    → (text_mem c files ≡ true → text_mem c left ≡ true)
    → ((k : ℕ)
        → suffix < k
        → text_mem (numbered base k) files ≡ true
        → text_mem (numbered base k) left ≡ true)
    → ((k : ℕ) → suffix < k → c ≢ numbered base k)
    → text_mem (next_free fuel base files suffix c) files ≡ false
unfolding next_free
next_free_new zero suffix base c files [] le now later apart =
    elim (Bool-cases (text_mem c files)) [
      | inl e ↦ let bad : false ≡ true = now e in cc (bad)
      | inr e ↦ e
    ]
next_free_new zero suffix base c files (f ∷ fs) le now later apart = absurd (omega (arith, le))
next_free_new (suc fuel) suffix base c files left le now later apart =
    elim (Bool-cases (text_mem c files)) [
      | inl e ↦ rw e (
          next_free_new fuel (suc suffix) base (numbered base (suc suffix)) files (unlink c left)
            (omega (arith, le, unlink_lt c left (now e)))
            (λ h.
              mem-unlink c (numbered base (suc suffix)) left (apart (suc suffix) (omega arith))
                (later (suc suffix) (omega arith) h))
            (λ k lt h.
              mem-unlink c (numbered base k) left (apart k (omega (arith, lt)))
                (later k (omega (arith, lt)) h))
            (λ k lt h. absurd (omega (arith, lt, numbered_injective base (suc suffix) k h))))
      | inr e ↦ rw e e
    ]

pub make_backup_path_new :
    (name stamp : Text) (files : List Text)
    → text_mem (make_backup_path name stamp files) files ≡ false
unfolding make_backup_path
make_backup_path_new name stamp files =
    let base : Text = backup_prefix name ++ stamp in
    next_free_new (length files) 1 base base files files (omega arith) (λ h. h) (λ k lt h. h)
      (λ k lt. base_ne_numbered base k)
