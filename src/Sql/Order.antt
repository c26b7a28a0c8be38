-- ===== src/Sql/Order.antt =====
-- ORDER BY sorts: its first row is a row of the table before which no row comes, and it keeps the
-- rows.
use laneq.Common.{
  if◌then◌else◌, ap, sym, ◌∙◌, subst, List, [], ◌∷◌, Bool, true, false, ◌≡◌, refl, inl, inr, Option,
  none, some, arith, Bool-cases, suc,
}
use laneq.Common.Lists.{length}
use laneq.Sql.{order_by, insert_by, count, select}

-- Every row satisfies the predicate.
abbrev pub Every {ℓ κ} : {A : Type ℓ} → (A → Type κ) → List A → Type κ
Every P [] = Unit
Every P (x ∷ xs) = P x × Every P xs

abbrev pub head {ℓ} : {A : Type ℓ} → List A → Option A
head [] = none
head (x ∷ xs) = some x

module _ {ℓ} {A : Type ℓ} where
  pub Every-map {κ μ} :
      {P : A → Type κ} {Q : A → Type μ} (f : (a : A) → P a → Q a) (xs : List A)
      → Every P xs
      → Every Q xs
  Every-map f [] h = tt
  Every-map f (x ∷ xs) h = (f x h.0, Every-map f xs h.1)

  pub Every-insert_by {κ} :
      (P : A → Type κ) (before : A → A → Bool) (a : A) (xs : List A)
      → P a
      → Every P xs
      → Every P (insert_by before a xs)
  Every-insert_by P before a [] p h = (p, h)
  Every-insert_by P before a (x ∷ xs) p h = elim (Bool-cases (before a x)) [
    | inl e ↦ rw e (p, h)
    | inr e ↦ rw e (h.0, Every-insert_by P before a xs p h.1)
  ]

  -- What every row satisfies, every row of the ordered result satisfies.
  pub Every-order_by {κ} :
      (P : A → Type κ) (before : A → A → Bool) (xs : List A)
      → Every P xs
      → Every P (order_by before xs)
  unfolding order_by
  Every-order_by P before [] h = tt
  Every-order_by P before (x ∷ xs) h =
      Every-insert_by P before x (order_by before xs) h.0 (Every-order_by P before xs h.1)

  Every-of-insert_by {κ} :
      (P : A → Type κ) (before : A → A → Bool) (a : A) (xs : List A)
      → Every P (insert_by before a xs)
      → P a × Every P xs
  Every-of-insert_by P before a [] h = h
  Every-of-insert_by P before a (x ∷ xs) h = elim (Bool-cases (before a x)) [
    | inl e ↦ rw e at h
    | inr e ↦
        let h' : Every P (x ∷ insert_by before a xs) = rw e at h in
        let rest = Every-of-insert_by P before a xs h'.1 in (rest.0, (h'.0, rest.1))
  ]

  -- And the other way round.
  pub Every-of-order_by {κ} :
      (P : A → Type κ) (before : A → A → Bool) (xs : List A)
      → Every P (order_by before xs)
      → Every P xs
  unfolding order_by
  Every-of-order_by P before [] h = tt
  Every-of-order_by P before (x ∷ xs) h =
      let both = Every-of-insert_by P before x (order_by before xs) h in
      (both.0, Every-of-order_by P before xs both.1)

  pub Every-select {κ} :
      (P : A → Type κ) (test : A → Bool) (xs : List A)
      → Every P xs
      → Every (λ x. P x × (test x ≡ true)) (select test xs)
  Every-select P test [] h = tt
  Every-select P test (x ∷ xs) h = elim (Bool-cases (test x)) [
    | inl e ↦ rw e ((h.0, e), Every-select P test xs h.1)
    | inr e ↦ rw e (Every-select P test xs h.1)
  ]

  pub Every-of-select {κ} :
      (P : A → Type κ) (test : A → Bool) (xs : List A)
      → Every P (select test xs)
      → Every (λ x. test x ≡ true → P x) xs
  Every-of-select P test [] h = tt
  Every-of-select P test (x ∷ xs) h = elim (Bool-cases (test x)) [
    | inl e ↦
        let h' : Every P (x ∷ select test xs) = rw e at h in
        (λ _. h'.0, Every-of-select P test xs h'.1)
    | inr e ↦
        let h' : Every P (select test xs) = rw e at h in (λ t. cc, Every-of-select P test xs h')
  ]

  pub Every-head {κ} : (P : A → Type κ) (xs : List A) {a : A} → head xs ≡ some a → Every P xs → P a
  Every-head P [] e h = cc
  Every-head P (x ∷ xs) {a} e h = subst P (cc) h.0

  pub count-insert_by :
      (test : A → Bool) (before : A → A → Bool) (a : A) (xs : List A)
      → count test (insert_by before a xs) ≡ count test (a ∷ xs)
  count-insert_by test before a [] = refl
  count-insert_by test before a (x ∷ xs) = ground (arith, count-insert_by test before a xs)

  -- The ordered result holds the rows of the table, each as often.
  pub count-order_by :
      (test : A → Bool) (before : A → A → Bool) (xs : List A)
      → count test (order_by before xs) ≡ count test xs
  unfolding order_by
  count-order_by test before [] = refl
  count-order_by test before (x ∷ xs) =
      ground
        (arith, count-insert_by test before x (order_by before xs), count-order_by test before xs)

module _ {ℓ} {A : Type ℓ} where
  pub length-select :
      (test : A → Bool) (rows : List A) → length (select test rows) ≡ count test rows
  length-select test [] = refl
  length-select test (r ∷ rs) = ground (arith, length-select test rs)

  length-count : (rows : List A) → length rows ≡ count (λ r. true) rows
  length-count [] = refl
  length-count (r ∷ rs) = ap suc (length-count rs)

  -- An ordered SELECT returns as many rows as COUNT(*) counts.
  pub length-ordered_select :
      (test : A → Bool) (before : A → A → Bool) (rows : List A)
      → length (order_by before (select test rows)) ≡ count test rows
  length-ordered_select test before rows =
      length-count (order_by before (select test rows))
      ∙ count-order_by (λ _. true) before (select test rows)
      ∙ sym (length-count (select test rows))
      ∙ length-select test rows

module _ {ℓ} {A : Type ℓ} (before : A → A → Bool)
    (total : (a b : A) → before a b ≡ false → before b a ≡ true)
    (trans : (a b c : A) → before a b ≡ true → before b c ≡ true → before a c ≡ true)
    (reflexive : (a : A) → before a a ≡ true) where
  abbrev IsSorted : List A → Type 0
  IsSorted [] = Unit
  IsSorted (x ∷ xs) = Every (λ y. before x y ≡ true) xs × IsSorted xs

  insert_by-IsSorted : (a : A) (xs : List A) → IsSorted xs → IsSorted (insert_by before a xs)
  insert_by-IsSorted a [] h = (tt, tt)
  insert_by-IsSorted a (x ∷ xs) h = elim (Bool-cases (before a x)) [
    | inl e ↦ rw e ((e, Every-map (λ y p. trans a x y e p) xs h.0), h)
    | inr e ↦ rw e (
      Every-insert_by (λ y. before x y ≡ true) before a xs (total a x e) h.0,
      insert_by-IsSorted a xs h.1,
    )
  ]

  pub order_by-IsSorted : (xs : List A) → IsSorted (order_by before xs)
  unfolding order_by
  order_by-IsSorted [] = tt
  order_by-IsSorted (x ∷ xs) = insert_by-IsSorted x (order_by before xs) (order_by-IsSorted xs)

  -- The first row of the ordered result comes before every row.
  pub order_by-first :
      (xs : List A) {a : A}
      → head (order_by before xs) ≡ some a
      → Every (λ y. before a y ≡ true) (order_by before xs)
  order_by-first xs {a} h = go (order_by before xs) h (order_by-IsSorted xs)
    where
      go : (ys : List A) → head ys ≡ some a → IsSorted ys → Every (λ y. before a y ≡ true) ys
      go [] e s = tt
      go (y ∷ ys) e s = ground (arith, reflexive a)

  insert_by_first :
      (a : A) (ys : List A) → Every (λ y. before a y ≡ true) ys → insert_by before a ys ≡ a ∷ ys
  insert_by_first a [] h = refl
  insert_by_first a (y ∷ ys) h = rw h.0 refl

  select-insert_by :
      (test : A → Bool) (a : A) (xs : List A)
      → IsSorted xs
      → select test (insert_by before a xs)
        ≡ (if test a then insert_by before a (select test xs) else select test xs)
  select-insert_by test a [] h = refl
  select-insert_by test a (x ∷ xs) h = elim (Bool-cases (before a x)) [
    | inl e ↦
        let all = Every-map (λ y p. trans a x y e p) xs h.0 in
        let chosen =
          Every-map (λ y p. p.0) (select test (x ∷ xs))
            (Every-select (λ y. before a y ≡ true) test (x ∷ xs) (e, all)) in
        rw (e, insert_by_first a (select test (x ∷ xs)) chosen) refl
    | inr e ↦ rw e (elim (Bool-cases (test x)) [
      | inl u ↦
          rw (u, e, select-insert_by test a xs h.1)
            (elim (Bool-cases (test a)) [ inl v ↦ rw v refl | inr v ↦ rw v refl ])
      | inr u ↦ rw (u, select-insert_by test a xs h.1) refl
    ])
  ]

  -- A WHERE clause chooses the same rows in the same order before and after ORDER BY.
  pub select-order_by :
      (test : A → Bool) (xs : List A)
      → select test (order_by before xs) ≡ order_by before (select test xs)
  unfolding order_by
  select-order_by test [] = refl
  select-order_by test (x ∷ xs) =
      select-insert_by test x (order_by before xs) (order_by-IsSorted xs)
      ∙ rw (select-order_by test xs)
          (elim (Bool-cases (test x)) [ inl e ↦ rw e refl | inr e ↦ rw e refl ])
