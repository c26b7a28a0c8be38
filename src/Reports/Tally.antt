-- ===== src/Reports/Tally.antt =====
-- What a GROUP BY counts: each key has one entry, with the number of the rows that have the key.
use laneq.Common.{
  ℕ, suc, ◌+◌, ◌≡◌, refl, ap, sym, ◌∙◌, subst, List, [], ◌∷◌, Bool, true, false, arith, Bool-cases,
  inl, inr, if◌then◌else◌,
}
use laneq.Common.Lists.{length}
use laneq.Sql.{count}
use laneq.Sql.Order.{Every, Every-map}
use laneq.Reports.Stats.{bump, tally}

-- An order of the keys, and the test that two keys are the same.
pub record IsKeyOrder {K : Type 0} (same before : K → K → Bool) : Type 0 where
  pub eq_of_same : (a b : K) → same a b ≡ true → a ≡ b
  pub same_refl : (a : K) → same a a ≡ true
  pub total : (a b : K) → before a b ≡ false → before b a ≡ true
  pub trans : (a b c : K) → before a b ≡ true → before b c ≡ true → before a c ≡ true
  pub antisym : (a b : K) → before a b ≡ true → before b a ≡ true → a ≡ b

module _ {K : Type 0} (same before : K → K → Bool) where
  -- The count that stands at a key: the first one, or 0.
  abbrev pub counted : K → List (K × ℕ) → ℕ
  counted k [] = 0
  counted k ((j, n) ∷ rest) = if same k j then n else counted k rest

  abbrev pub total_count : List (K × ℕ) → ℕ
  total_count [] = 0
  total_count ((j, n) ∷ rest) = n + total_count rest

  total_count-bump :
      (k : K) (t : List (K × ℕ)) → total_count (bump same before k t) ≡ suc (total_count t)
  total_count-bump k [] = omega arith
  total_count-bump k ((j, n) ∷ rest) = elim (Bool-cases (same k j)) [
    | inl e ↦ rw e (omega arith)
    | inr e ↦ rw e (elim (Bool-cases (before k j)) [
      | inl b ↦ rw b (omega arith)
      | inr b ↦ rw b (omega (arith, total_count-bump k rest))
    ])
  ]

  pub total_count-tally : (ks : List K) → total_count (tally same before ks) ≡ length ks
  total_count-tally [] = refl
  total_count-tally (k ∷ ks) =
      total_count-bump k (tally same before ks) ∙ ap suc (total_count-tally ks)

  -- A key that comes after another one in a tally.
  abbrev pub IsLater : K → K × ℕ → Type 0
  IsLater j entry = (before j entry.0 ≡ true) × (same j entry.0 ≡ false)

  -- The keys stand in their order, each of them once.
  abbrev pub IsOrdered : List (K × ℕ) → Type 0
  IsOrdered [] = Unit
  IsOrdered ((j, n) ∷ rest) = Every (IsLater j) rest × IsOrdered rest

  module _ (law : IsKeyOrder same before) where
    not_same : (a b : K) → ¬ (a ≡ b) → same a b ≡ false
    not_same a b ne = elim (Bool-cases (same a b)) [
      | inl e ↦ absurd (ne (law.eq_of_same a b e))
      | inr e ↦ e
    ]

    ne_of_not_same : (a b : K) → same a b ≡ false → ¬ (a ≡ b)
    ne_of_not_same a b h e =
        let bad : true ≡ false = sym (law.same_refl a) ∙ subst (λ x. same a x ≡ false) (sym e) h in
        cc (bad)

    -- A key before the first one is not in the tally.
    counted_before :
        (k j : K) (n : ℕ) (rest : List (K × ℕ))
        → before k j ≡ true
        → same k j ≡ false
        → Every (IsLater j) rest
        → counted k ((j, n) ∷ rest) ≡ 0
    counted_before k j n rest b s h = rw s (go rest h)
      where
        go : (rest : List (K × ℕ)) → Every (IsLater j) rest → counted k rest ≡ 0
        go [] h = refl
        go ((i, m) ∷ rest) h = elim (Bool-cases (same k i)) [
          | inl e ↦
              let same_i = law.eq_of_same k i e in
              absurd (
                ne_of_not_same k j s
                  (law.antisym k j b (subst (λ x. before j x ≡ true) (sym same_i) h.0.0)))
          | inr e ↦ rw e (go rest h.1)
        ]

    IsLater-before :
        (k j : K)
        → before k j ≡ true
        → same k j ≡ false
        → (entry : K × ℕ) → IsLater j entry
        → IsLater k entry
    IsLater-before k j b s entry h =
        let to = law.trans k j entry.0 b h.0 in
        (
          to,
          not_same k entry.0 (λ e.
              ne_of_not_same k j s
                (law.antisym k j b (subst (λ x. before j x ≡ true) (sym e) h.0))),
        )

    same_sym : (a b : K) → same a b ≡ false → same b a ≡ false
    same_sym a b h = not_same b a (λ e. ne_of_not_same a b h (sym e))

    Every-bump :
        (j k : K) (t : List (K × ℕ))
        → IsLater j (k, 0)
        → Every (IsLater j) t
        → Every (IsLater j) (bump same before k t)
    Every-bump j k [] h e = (h, tt)
    Every-bump j k ((i, n) ∷ rest) h e = elim (Bool-cases (same k i)) [
      | inl s ↦ rw s e
      | inr s ↦ rw s (elim (Bool-cases (before k i)) [
        | inl b ↦ rw b (h, e)
        | inr b ↦ rw b (e.0, Every-bump j k rest h e.1)
      ])
    ]

    bump-IsOrdered : (k : K) (t : List (K × ℕ)) → IsOrdered t → IsOrdered (bump same before k t)
    bump-IsOrdered k [] h = (tt, tt)
    bump-IsOrdered k ((j, n) ∷ rest) h = elim (Bool-cases (same k j)) [
      | inl s ↦ rw s h
      | inr s ↦ rw s (elim (Bool-cases (before k j)) [
        | inl b ↦ rw b (((b, s), Every-map (IsLater-before k j b s) rest h.0), h)
        | inr b ↦
            rw b
              (Every-bump j k rest (law.total k j b, same_sym k j s) h.0, bump-IsOrdered k rest h.1)
      ])
    ]

    counted-bump :
        (k i : K) (t : List (K × ℕ))
        → IsOrdered t
        → counted k (bump same before i t) ≡ (if same k i then suc (counted k t) else counted k t)
    counted-bump k i [] h = refl
    counted-bump k i ((j, n) ∷ rest) h = elim (Bool-cases (same i j)) [
      | inl s ↦
          let e = law.eq_of_same i j s in
          rw s (
            subst
              (λ x. (if same k j then suc n else counted k rest) ≡ (
                if same k x
                then suc (if same k j then n else counted k rest)
                else (if same k j then n else counted k rest)))
              (sym e) (ground arith))
      | inr s ↦ rw s (elim (Bool-cases (before i j)) [
        | inl b ↦ rw b (elim (Bool-cases (same k i)) [
          | inl u ↦
              let absent : (if same k j then n else counted k rest) ≡ 0 =
                subst (λ x. counted x ((j, n) ∷ rest) ≡ 0) (sym (law.eq_of_same k i u))
                  (counted_before i j n rest b s h.0) in
              rw u (rw absent refl)
          | inr u ↦ rw u refl
        ])
        | inr b ↦ rw b (
            rw (counted-bump k i rest h.1) (elim (Bool-cases (same k i)) [
              | inl u ↦
                  let apart = subst (λ x. same x j ≡ false) (sym (law.eq_of_same k i u)) s in
                  rw (u, apart) refl
              | inr u ↦ rw u refl
            ]))
      ])
    ]

    pub tally-IsOrdered : (ks : List K) → IsOrdered (tally same before ks)
    tally-IsOrdered [] = tt
    tally-IsOrdered (k ∷ ks) = bump-IsOrdered k (tally same before ks) (tally-IsOrdered ks)

    -- A key stands with the number of times that it is in the list.
    pub counted-tally : (k : K) (ks : List K) → counted k (tally same before ks) ≡ count (same k) ks
    counted-tally k [] = refl
    counted-tally k (i ∷ ks) =
        counted-bump k i (tally same before ks) (tally-IsOrdered ks)
        ∙ ap (λ n. if same k i then suc n else n) (counted-tally k ks)
