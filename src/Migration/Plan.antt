-- ===== src/Migration/Plan.antt =====
-- The columns that a plan adds are new, and after it none is missing.
use laneq.Common.{
  ◌≡◌, refl, sym, subst, ◌∙◌, List, [], ◌∷◌, ◌++◌, true, false, Bool-cases, inl, inr, arith,
}
use laneq.Common.Lists.{append_assoc}
use laneq.Sql.Order.{Every, Every-map}
use laneq.Migration.{Column, column_eq, has_column, all_columns, missing}

pub eq_of_column_eq : (a b : Column) → column_eq a b ≡ true → a ≡ b
eq_of_column_eq a b h = ground arith

column_eq_refl : (a : Column) → column_eq a a ≡ true
column_eq_refl a = ground arith

column_eq_sym : (a b : Column) → column_eq a b ≡ false → column_eq b a ≡ false
column_eq_sym a b h = elim (Bool-cases (column_eq b a)) [
  | inl e ↦
      let same = eq_of_column_eq b a e in
      let bad : true ≡ false = sym (column_eq_refl a) ∙ subst (λ x. column_eq a x ≡ false) same h in
      cc (bad)
  | inr e ↦ e
]

has-append_left :
    (c : Column) (xs ys : List Column) → has_column c xs ≡ true → has_column c (xs ++ ys) ≡ true
has-append_left c [] ys h = cc
has-append_left c (x ∷ xs) ys h = elim (Bool-cases (column_eq c x)) [
  | inl e ↦ rw e refl
  | inr e ↦ rw e (has-append_left c xs ys (rw e at h))
]

pub has-append_false :
    (c : Column) (xs ys : List Column)
    → has_column c xs ≡ false
    → has_column c (xs ++ ys) ≡ has_column c ys
has-append_false c [] ys h = refl
has-append_false c (x ∷ xs) ys h = elim (Bool-cases (column_eq c x)) [
  | inl e ↦ let bad : true ≡ false = rw e at h in cc (bad)
  | inr e ↦ rw e (has-append_false c xs ys (rw e at h))
]

has-append_right :
    (c : Column) (xs ys : List Column) → has_column c ys ≡ true → has_column c (xs ++ ys) ≡ true
has-append_right c xs ys h = elim (Bool-cases (has_column c xs)) [
  | inl e ↦ has-append_left c xs ys e
  | inr e ↦ has-append_false c xs ys e ∙ h
]

-- The columns are none of the table's, and none stands twice.
abbrev pub IsFresh : List Column → List Column → Type 0
IsFresh [] columns = Unit
IsFresh (c ∷ cs) columns = (has_column c columns ≡ false) × IsFresh cs (columns ++ c ∷ [])

abbrev Distinct : List Column → Type 0
Distinct [] = Unit
Distinct (c ∷ cs) = (has_column c cs ≡ false) × Distinct cs

-- None of the columns is in the other list.
abbrev IsApart : List Column → List Column → Type 0
IsApart cs others = Every (λ c. has_column c others ≡ false) cs

IsApart-more :
    (c : Column) (cs others : List Column)
    → has_column c cs ≡ false
    → IsApart cs others
    → IsApart cs (others ++ c ∷ [])
IsApart-more c [] others h k = tt
IsApart-more c (d ∷ ds) others h k = elim (Bool-cases (column_eq c d)) [
  | inl e ↦ let bad : true ≡ false = rw e at h in cc (bad)
  | inr e ↦ (
    has-append_false d others (c ∷ []) k.0 ∙ rw (column_eq_sym c d e) refl,
    IsApart-more c ds others (rw e at h) k.1,
  )
]

missing-IsFresh :
    (cs columns extra : List Column)
    → Distinct cs
    → IsApart cs extra
    → IsFresh (missing columns cs) (columns ++ extra)
missing-IsFresh [] columns extra d a = tt
missing-IsFresh (c ∷ cs) columns extra d a = elim (Bool-cases (has_column c columns)) [
  | inl e ↦ rw e (missing-IsFresh cs columns extra d.1 a.1)
  | inr e ↦ rw e (
    has-append_false c columns extra e ∙ a.0,
    subst (IsFresh (missing columns cs)) (sym (append_assoc columns extra (c ∷ [])))
        (missing-IsFresh cs columns (extra ++ c ∷ []) d.1 (IsApart-more c cs extra d.0 a.1)),
  )
]

all-IsApart : IsApart all_columns []
all-IsApart = (refl, (refl, (refl, (refl, (refl, (refl, (refl, (refl, (refl, tt)))))))))

all-Distinct : Distinct all_columns
all-Distinct = (refl, (refl, (refl, (refl, (refl, (refl, (refl, (refl, (refl, tt)))))))))

pub all-IsFresh : (columns : List Column) → IsFresh (missing columns all_columns) (columns ++ [])
all-IsFresh columns = missing-IsFresh all_columns columns [] all-Distinct all-IsApart

pub added :
    (cs columns : List Column) → Every (λ c. has_column c (columns ++ missing columns cs) ≡ true) cs
added [] columns = tt
added (c ∷ cs) columns = elim (Bool-cases (has_column c columns)) [
  | inl e ↦
      let same : missing columns (c ∷ cs) ≡ missing columns cs = rw e refl in
      subst (λ m. Every (λ d. has_column d (columns ++ m) ≡ true) (c ∷ cs)) (sym same)
        (has-append_left c columns (missing columns cs) e, added cs columns)
  | inr e ↦
      let same : missing columns (c ∷ cs) ≡ c ∷ missing columns cs = rw e refl in
      subst (λ m. Every (λ d. has_column d (columns ++ m) ≡ true) (c ∷ cs)) (sym same)
        (
          has-append_right c columns (c ∷ missing columns cs) (rw (column_eq_refl c) refl),
          Every-map later cs (added cs columns),
        )
]
  where
    later :
        (d : Column)
        → has_column d (columns ++ missing columns cs) ≡ true
        → has_column d (columns ++ c ∷ missing columns cs) ≡ true
    later d h = elim (Bool-cases (has_column d columns)) [
      | inl e ↦ has-append_left d columns (c ∷ missing columns cs) e
      | inr e ↦
          has-append_right d columns (c ∷ missing columns cs) (elim (Bool-cases (column_eq d c)) [
            | inl k ↦ rw k refl
            | inr k ↦ rw k (sym (has-append_false d columns (missing columns cs) e) ∙ h)
          ])
    ]

pub none_missing :
    (cs columns : List Column)
    → Every (λ c. has_column c columns ≡ true) cs
    → missing columns cs ≡ []
none_missing [] columns h = refl
none_missing (c ∷ cs) columns h = rw h.0 (none_missing cs columns h.1)
