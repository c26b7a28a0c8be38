-- ===== src/Reservations/Roots/Exclusion.antt =====
-- Writers exclude one another: the roots that `admit` reserves share no path and no work while they
-- are not delivered.
use laneq.Common.{
  ℕ, ◌≡◌, ◌≢◌, refl, ap, sym, ◌∙◌, List, [], ◌∷◌, ◌++◌, Bool, true, false, ◌&&◌, ◌||◌, none, arith,
  Bool-cases, ◌⊎◌, inl, inr,
}
use laneq.Common.Lists.{In, In-append}
use laneq.Text.{Text, codes, text_eq}
use laneq.Text.Order.{text_eq_refl}
use laneq.Sql.{exists}
use laneq.Database.{ReservedRoot}
use laneq.Reservations.{Reservation}
use laneq.Reservations.Roots.{
  root, is_active, is_prefix, overlaps, holds_path, is_taken, any_taken, has_active_work, new_root,
  path_rows,
}

-- What is in a list, and what `exists` finds.
exists-In :
    {A : Type 0} (test : A → Bool) (x : A) (xs : List A)
    → In x xs
    → test x ≡ true
    → exists test xs ≡ true
exists-In test x [] h t = absurd h
exists-In test x (y ∷ ys) (inl e) t = rw (← e, t) refl
exists-In test x (y ∷ ys) (inr h) t = elim (Bool-cases (test y)) [
  | inl u ↦ rw u refl
  | inr u ↦ rw u (exists-In test x ys h t)
]

In-path_rows :
    (key : Text) (ps : List Text) (p : Text × Text)
    → In p (path_rows key ps)
    → (p.0 ≡ key) × In p.1 ps
In-path_rows key [] p h = absurd h
In-path_rows key (x ∷ xs) p (inl e) = (ap (λ q. q.0) e, inl (ap (λ q. q.1) e))
In-path_rows key (x ∷ xs) p (inr h) =
    let (same, there) = In-path_rows key xs p h in (same, inr there)

overlaps_comm : (p q : Text) → overlaps p q ≡ overlaps q p
unfolding overlaps
overlaps_comm p q =
    shuffle (text_eq p (codes ".")) (text_eq q (codes "."))
      (is_prefix (p ++ 47 ∷ []) (q ++ 47 ∷ [])) (is_prefix (q ++ 47 ∷ []) (p ++ 47 ∷ []))
  where
    shuffle : (a b c d : Bool) → (a || b || c || d) ≡ (b || a || d || c)
    shuffle true true c d = refl
    shuffle true false c d = refl
    shuffle false true c d = refl
    shuffle false false true true = refl
    shuffle false false true false = refl
    shuffle false false false true = refl
    shuffle false false false false = refl

-- The roots that are not delivered hold paths apart from those of other roots in their namespace,
-- and works apart; every row of `reserved_paths` has a root.
pub record IsExclusive (roots : List ReservedRoot) (rows : List (Text × Text)) : Type 0 where
  pub rooted :
      (p : Text × Text) → In p rows → exists (λ r. text_eq r.admission_key p.0) roots ≡ true
  pub apart :
      (p q : Text × Text) (r s : ReservedRoot)
      → In p rows
      → In q rows
      → In r roots
      → In s roots
      → r.admission_key ≡ p.0
      → s.admission_key ≡ q.0
      → p.0 ≢ q.0
      → r.namespace ≡ s.namespace
      → is_active r ≡ true
      → is_active s ≡ true
      → overlaps p.1 q.1 ≡ false
  pub one_writer :
      (r s : ReservedRoot)
      → In r roots
      → In s roots
      → is_active r ≡ true
      → is_active s ≡ true
      → r.work_id ≡ s.work_id
      → r.admission_key ≡ s.admission_key

exists-append :
    {A : Type 0} (test : A → Bool) (xs ys : List A)
    → exists test xs ≡ true
    → exists test (xs ++ ys) ≡ true
exists-append test [] ys h = cc
exists-append test (x ∷ xs) ys h = ground (arith, exists-append test xs ys)

root-exists :
    (key : Text) (roots : List ReservedRoot)
    → root key roots ≡ none
    → exists (λ r. text_eq r.admission_key key) roots ≡ false
root-exists key [] h = refl
root-exists key (r ∷ rs) h = ground (arith, root-exists key rs)

any_taken-In :
    (namespace : Text) (roots : List ReservedRoot) (rows : List (Text × Text)) (paths : List Text)
    (path : Text)
    → any_taken namespace roots rows paths ≡ false
    → In path paths
    → is_taken namespace roots rows path ≡ false
any_taken-In namespace roots rows [] path h k = absurd k
any_taken-In namespace roots rows (p ∷ ps) path h (inl e) = rw e (ground arith)
any_taken-In namespace roots rows (p ∷ ps) path h (inr k) =
    any_taken-In namespace roots rows ps path (ground arith) k

exists-last :
    {A : Type 0} (test : A → Bool) (xs : List A) (y : A)
    → test y ≡ true
    → exists test (xs ++ y ∷ []) ≡ true
exists-last test [] y h = rw h refl
exists-last test (x ∷ xs) y h = ground (arith, exists-last test xs y)

true_ne_false : true ≢ false
true_ne_false h = cc

-- A new root whose resources are free.
module _ (new : Reservation) (n : ℕ) (roots : List ReservedRoot) (rows : List (Text × Text))
    (w : IsExclusive roots rows) (fresh : root new.task.admission_key roots ≡ none)
    (free : any_taken new.namespace roots rows new.paths ≡ false)
    (idle : has_active_work new.work_id roots ≡ false) where
  abbrev key : Text
  key = new.task.admission_key

  no_old_root : (r : ReservedRoot) → In r roots → r.admission_key ≢ key
  no_old_root r h same =
      let found =
        exists-In (λ x. text_eq x.admission_key key) r roots h (rw same (text_eq_refl key)) in
      true_ne_false (sym found ∙ root-exists key roots fresh)

  no_old_row : (p : Text × Text) → In p rows → p.0 ≢ key
  no_old_row p h same =
      let found = ap (λ k. exists (λ r. text_eq r.admission_key k) roots) same in
      true_ne_false (sym (w.rooted p h) ∙ found ∙ root-exists key roots fresh)

  stored :
      (r : ReservedRoot) → In r (roots ++ new_root new n ∷ []) → In r roots ⊎ (r ≡ new_root new n)
  stored r h = elim (In-append r roots (new_root new n ∷ []) h) [
    | inl k ↦ inl k
    | inr k ↦ elim k [ inl e ↦ inr e | inr x ↦ absurd x ]
  ]

  old_root :
      (p : Text × Text) (r : ReservedRoot)
      → In p rows
      → In r (roots ++ new_root new n ∷ [])
      → r.admission_key ≡ p.0
      → In r roots
  old_root p r hp hr same = elim (stored r hr) [
    | inl k ↦ k
    | inr e ↦ absurd (no_old_row p hp (sym same ∙ ap (λ x. x.admission_key) e))
  ]

  same_namespace :
      (r : ReservedRoot)
      → In r (roots ++ new_root new n ∷ [])
      → r.admission_key ≡ key
      → r.namespace ≡ new.namespace
  same_namespace r hr same = elim (stored r hr) [
    | inl k ↦ absurd (no_old_root r k same)
    | inr e ↦ ap (λ x. x.namespace) e
  ]

  free_path :
      (q : Text × Text) (s : ReservedRoot) (path : Text)
      → In q rows
      → In s roots
      → s.admission_key ≡ q.0
      → s.namespace ≡ new.namespace
      → is_active s ≡ true
      → In path new.paths
      → overlaps q.1 path ≡ false
  free_path q s path hq hs same named active hp = elim (Bool-cases (overlaps q.1 path)) [
    | inr e ↦ e
    | inl e ↦
        let holder : holds_path new.namespace roots q ≡ true =
          exists-In
            (λ r. text_eq r.admission_key q.0 && text_eq r.namespace new.namespace && is_active r) s
            roots hs (rw (same, named, text_eq_refl q.0, text_eq_refl new.namespace) active) in
        let found : is_taken new.namespace roots rows path ≡ true =
          exists-In (λ p. holds_path new.namespace roots p && overlaps p.1 path) q rows hq
            (rw holder e) in
        absurd
          (true_ne_false (sym found ∙ any_taken-In new.namespace roots rows new.paths path free hp))
  ]

  no_active_work : (r : ReservedRoot) → In r roots → is_active r ≡ true → r.work_id ≢ new.work_id
  no_active_work r h active same =
      let found : has_active_work new.work_id roots ≡ true =
        exists-In (λ x. text_eq x.work_id new.work_id && is_active x) r roots h
          (rw (same, text_eq_refl new.work_id) active) in
      true_ne_false (sym found ∙ idle)

  pub stored-IsExclusive :
      IsExclusive (roots ++ new_root new n ∷ []) (rows ++ path_rows key new.paths)
  stored-IsExclusive = record {
    rooted = λ p h. elim (In-append p rows (path_rows key new.paths) h) [
      | inl k ↦ exists-append _ roots (new_root new n ∷ []) (w.rooted p k)
      | inr kr ↦
          let (k, there) = In-path_rows key new.paths p kr in
          exists-last _ roots (new_root new n) (rw k (text_eq_refl key))
    ];
    apart = λ p q r s hp hq hr hs ep eq ne same ra sa.
        elim (In-append p rows (path_rows key new.paths) hp) [
          | inl kp ↦ elim (In-append q rows (path_rows key new.paths) hq) [
            | inl kq ↦
                w.apart p q r s kp kq (old_root p r kp hr ep) (old_root q s kq hs eq) ep eq ne same
                  ra sa
            | inr kq ↦
                let (k, there) = In-path_rows key new.paths q kq in
                free_path p r q.1 kp (old_root p r kp hr ep) ep
                  (same ∙ same_namespace s hs (eq ∙ k)) ra there
          ]
          | inr kp ↦
              let (k, there) = In-path_rows key new.paths p kp in
              elim (In-append q rows (path_rows key new.paths) hq) [
                | inl kq ↦
                    overlaps_comm p.1 q.1
                    ∙ free_path q s p.1 kq (old_root q s kq hs eq) eq
                        (sym same ∙ same_namespace r hr (ep ∙ k)) sa there
                | inr kq ↦ absurd (ne (k ∙ sym ((In-path_rows key new.paths q kq).0)))
              ]
        ];
    one_writer = λ r s hr hs ra sa same. elim (stored r hr) [
      | inl kr ↦ elim (stored s hs) [
        | inl ks ↦ w.one_writer r s kr ks ra sa same
        | inr es ↦ absurd (no_active_work r kr ra (same ∙ ap (λ x. x.work_id) es))
      ]
      | inr er ↦ elim (stored s hs) [
        | inl ks ↦ absurd (no_active_work s ks sa (sym same ∙ ap (λ x. x.work_id) er))
        | inr es ↦ ap (λ x. x.admission_key) (er ∙ sym es)
      ]
    ];
  }
