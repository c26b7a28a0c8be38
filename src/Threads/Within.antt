-- ===== src/Threads/Within.antt =====
-- What the lists of SELECT and ORDER BY contain, and what is below a directive.
use laneq.Common.{
  ℕ, zero, suc, ◌≡◌, refl, ap, sym, subst, ◌∙◌, List, [], ◌∷◌, some, Bool, true, Bool-cases, inl,
  inr, ◌==◌,
}
use laneq.Common.Lists.{In, In-append, In-append_left, In-append_right}
use laneq.Sql.{select, order_by, insert_by}
use laneq.Sql.Order.{Every}
use laneq.Database.{Directive, find}
use laneq.Threads.{children}
use laneq.Threads.Descent.{concat_map, below, IsWithin}

-- What is in the lists that SELECT and ORDER BY make.
pub Every-In :
    (P : Directive → Type 0) (rows : List Directive) (r : Directive)
    → Every P rows
    → In r rows
    → P r
Every-In P [] r h k = absurd k
Every-In P (x ∷ xs) r h (inl e) = subst P (sym e) h.0
Every-In P (x ∷ xs) r h (inr k) = Every-In P xs r h.1 k

pub Every-of-In :
    (P : Directive → Type 0) (rows : List Directive)
    → ((r : Directive) → In r rows → P r)
    → Every P rows
Every-of-In P [] h = tt
Every-of-In P (x ∷ xs) h = (h x (inl refl), Every-of-In P xs (λ r k. h r (inr k)))

pub In-find : (i : ℕ) (rows : List Directive) {r : Directive} → find i rows ≡ some r → In r rows
In-find i [] e = cc
In-find i (x ∷ xs) {r} e = elim (Bool-cases (x.id == i)) [
  | inl t ↦ let same : x ≡ r = cc (rw t at e) in inl (sym same)
  | inr t ↦ inr (In-find i xs (rw t at e))
]

pub In-select :
    (test : Directive → Bool) (r : Directive) (rows : List Directive)
    → In r rows
    → test r ≡ true
    → In r (select test rows)
In-select test r [] h t = absurd h
In-select test r (x ∷ xs) (inl e) t = rw (ap test (sym e) ∙ t) (inl e)
In-select test r (x ∷ xs) (inr h) t = elim (Bool-cases (test x)) [
  | inl u ↦ rw u (inr (In-select test r xs h t))
  | inr u ↦ rw u (In-select test r xs h t)
]

In-insert_by :
    (before : Directive → Directive → Bool) (r x : Directive) (rows : List Directive)
    → In r (x ∷ rows)
    → In r (insert_by before x rows)
In-insert_by before r x [] h = h
In-insert_by before r x (y ∷ ys) h = elim (Bool-cases (before x y)) [
  | inl e ↦ rw e h
  | inr e ↦ rw e (elim h [
    | inl same ↦ inr (In-insert_by before r x ys (inl same))
    | inr rest ↦ elim rest [
      | inl same ↦ inl same
      | inr more ↦ inr (In-insert_by before r x ys (inr more))
    ]
  ])
]

pub In-order_by :
    (before : Directive → Directive → Bool) (r : Directive) (rows : List Directive)
    → In r rows
    → In r (order_by before rows)
unfolding order_by
In-order_by before r [] h = absurd h
In-order_by before r (x ∷ xs) (inl e) = In-insert_by before r x (order_by before xs) (inl e)
In-order_by before r (x ∷ xs) (inr h) =
    In-insert_by before r x (order_by before xs) (inr (In-order_by before r xs h))

pub In-of-concat_map :
    (f : Directive → List Directive) (r : Directive) (cs : List Directive)
    → In r (concat_map f cs)
    → (c : Directive) × In c cs × In r (f c)
In-of-concat_map f r [] h = absurd h
In-of-concat_map f r (c ∷ cs) h = elim (In-append r (f c) (concat_map f cs) h) [
  | inl k ↦ (c, inl refl, k)
  | inr k ↦ let (d, there, inside) = In-of-concat_map f r cs k in (d, inr there, inside)
]

In-concat_map :
    (f : Directive → List Directive) (r c : Directive) (cs : List Directive)
    → In c cs
    → In r (f c)
    → In r (concat_map f cs)
In-concat_map f r c [] h k = absurd h
In-concat_map f r c (d ∷ ds) (inl e) k =
    In-append_left r (f d) (concat_map f ds) (subst (λ x. In r (f x)) e k)
In-concat_map f r c (d ∷ ds) (inr h) k =
    In-append_right r (f d) (concat_map f ds) (In-concat_map f r c ds h k)

module _ (rows : List Directive) where
  pub child-In-below :
      (depth i : ℕ) (r : Directive)
      → IsWithin depth rows i
      → In r (children rows i)
      → In r (below depth rows i)
  unfolding below
  child-In-below zero i r h k = subst (In r) h k
  child-In-below (suc depth) i r h k = In-append_left r (children rows i) _ k

  -- What is below is closed under children.
  pub below_closed :
      (depth i : ℕ) (x r : Directive)
      → IsWithin depth rows i
      → In x (below depth rows i)
      → In r (children rows x.id)
      → In r (below depth rows i)
  unfolding below
  below_closed zero i x r h k c = absurd k
  below_closed (suc depth) i x r h k c =
      let cs = children rows i in
      let each = λ (d : Directive). below depth rows d.id in
      elim (In-append x cs (concat_map each cs) k) [
        | inl child ↦ In-append_right r cs (concat_map each cs) (
            In-concat_map each r x cs child (
              child-In-below depth x.id r (Every-In (λ d. IsWithin depth rows d.id) cs x h child)
                c))
        | inr deeper ↦
            let (d, there, inside) = In-of-concat_map each x cs deeper in
            In-append_right r cs (concat_map each cs) (
              In-concat_map each r d cs there (
                below_closed depth d.id x r (Every-In (λ y. IsWithin depth rows y.id) cs d h there)
                  inside c))
      ]
