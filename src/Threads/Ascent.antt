-- ===== src/Threads/Ascent.antt =====
-- The loop of `ancestors` ends, and lists the way from the root of the thread down to the parent.
use laneq.Common.{
  ℕ, zero, suc, ◌≤◌, ◌≡◌, refl, ap, sym, ◌∙◌, List, [], ◌∷◌, ◌++◌, none, some, false, arith,
  Option-cases, inl, inr, reverse,
}
use mathlib.Core.List.{reverse_aux}
use laneq.Common.Lists.{mem, append_nil, append_assoc}
use laneq.Sql.Order.{Every, Every-map}
use laneq.Database.{Directive, Db, find}
use laneq.Database.Rows.{find_below, id_of_find}
use laneq.Core.Invariant.{IsWell}
use laneq.Threads.{ancestors, or_none, parent_in, walk_up}
use laneq.Threads.Termination.{parent_smaller}

-- The rows above a directive, from the root on: those above its parent, and then the parent.
abbrev pub path_down : ℕ → List Directive → ℕ → List Directive
path_down zero rows i = []
path_down (suc depth) rows i = elim (parent_in (find i rows)) [
  | none ↦ []
  | some parent ↦ elim (find parent rows) [
    | none ↦ []
    | some row ↦ path_down depth rows row.id ++ row ∷ []
  ]
]

mem_below : (p : ℕ) (seen : List ℕ) → Every (λ s. suc p ≤ s) seen → mem p seen ≡ false
mem_below p [] h = refl
mem_below p (s ∷ ss) h = ground (arith, h.0, mem_below p ss h.1)

reverse_aux-append :
    (out acc : List Directive) (row : Directive)
    → reverse_aux (out ++ row ∷ []) acc ≡ row ∷ reverse_aux out acc
reverse_aux-append [] acc row = refl
reverse_aux-append (x ∷ xs) acc row = reverse_aux-append xs (x ∷ acc) row

-- One round of the loop.
module _ (rows : List Directive) where
  up_stops :
      (f i : ℕ) (seen : List ℕ) (out : List Directive)
      → parent_in (find i rows) ≡ none
      → walk_up (suc f) rows seen out i ≡ some (path_down (suc f) rows i ++ reverse out)
  unfolding walk_up
  up_stops f i seen out e = rw (walk_up, path_down, e) refl

  up_loses :
      (f i p : ℕ) (seen : List ℕ) (out : List Directive)
      → parent_in (find i rows) ≡ some p
      → mem p seen ≡ false
      → find p rows ≡ none
      → walk_up (suc f) rows seen out i ≡ some (path_down (suc f) rows i ++ reverse out)
  unfolding walk_up
  up_loses f i p seen out e m k = rw (walk_up, path_down, e, m, k) refl

  up_goes :
      (f i p : ℕ) (seen : List ℕ) (out : List Directive) (row : Directive)
      → parent_in (find i rows) ≡ some p
      → mem p seen ≡ false
      → find p rows ≡ some row
      → walk_up f rows (p ∷ seen) (out ++ row ∷ []) row.id
        ≡ some (path_down f rows row.id ++ reverse (out ++ row ∷ []))
      → walk_up (suc f) rows seen out i ≡ some (path_down (suc f) rows i ++ reverse out)
  unfolding walk_up
  up_goes f i p seen out row e m k later =
      rw (walk_up, path_down, e, m, k)
        (later
          ∙ ap (λ t. some (path_down f rows row.id ++ t)) (reverse_aux-append out [] row)
          ∙ ap some (sym (append_assoc (path_down f rows row.id) (row ∷ []) (reverse out))))

module _ (db : Db) (w : IsWell db) where
  walk_up-path_down :
      (fuel i : ℕ) (seen : List ℕ) (out : List Directive)
      → i ≤ fuel
      → Every (λ s. i ≤ s) seen
      → walk_up (suc fuel) db.directives seen out i
        ≡ some (path_down (suc fuel) db.directives i ++ reverse out)
  walk_up-path_down zero i seen out le h =
      up_stops db.directives zero i seen out
        (ap parent_in (find_below 1 db.next_id i db.directives w.ascending (omega arith)))
  walk_up-path_down (suc f) i seen out le h =
      elim (Option-cases (parent_in (find i db.directives))) [
        | inl e ↦ up_stops db.directives (suc f) i seen out e
        | inr (p, e) ↦
            let smaller = parent_smaller db i p w e in
            let unseen = mem_below p seen (Every-map (λ s k. omega (arith, smaller, k)) seen h) in
            elim (Option-cases (find p db.directives)) [
              | inl k ↦ up_loses db.directives (suc f) i p seen out e unseen k
              | inr (row, k) ↦
                  let same = id_of_find p db.directives k in
                  up_goes db.directives (suc f) i p seen out row e unseen k (
                    walk_up-path_down f row.id (p ∷ seen) (out ++ row ∷ [])
                      (omega (arith, same, smaller))
                      (
                        omega (arith, same),
                        Every-map (λ s j. omega (arith, smaller, same, j)) seen h,
                      ))
            ]
      ]

  -- On tables in order the loop of `ancestors` ends within as many rounds as the id of the
  -- directive and one, its test for a parent it has seen never holds, and it lists the rows above
  -- the directive from the root of the thread down to the parent.
  pub ancestors_lem :
      (i : ℕ)
      → (walk_up (suc i) db.directives [] [] i ≡ some (path_down (suc i) db.directives i))
        × (ancestors db.directives i ≡ path_down (suc i) db.directives i)
  unfolding ancestors
  ancestors_lem i =
      let ends =
        walk_up-path_down i i [] [] (omega arith) tt
        ∙ ap some (append_nil (path_down (suc i) db.directives i)) in
      (ends, ap or_none ends)
