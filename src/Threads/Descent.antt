-- ===== src/Threads/Descent.antt =====
-- The loop of `descendants` ends, and lists what a recursion over the children lists.
use laneq.Common.Lists.{append_nil, append_assoc}
use laneq.Common.{
  ℕ, zero, suc, ◌+◌, ◌≤◌, ◌≡◌, refl, ap, sym, ◌∙◌, List, [], ◌∷◌, ◌++◌, Option, none, some, arith,
  true,
}
use laneq.Sql.Order.{Every, Every-map, Every-order_by, Every-select}
use laneq.Database.{Directive, Db}
use laneq.Database.Rows.{Ascends, ids}
use laneq.Core.Invariant.{IsSound, ParentBelow, IsWell}
use laneq.Threads.{is_parent, children, walk_down, sum_over, rounds}

abbrev pub concat_map : (Directive → List Directive) → List Directive → List Directive
concat_map f [] = []
concat_map f (r ∷ rs) = f r ++ concat_map f rs

-- The rows below a directive, down to a depth: its children, and then what is below each of them.
unfoldable pub below : ℕ → List Directive → ℕ → List Directive
below zero rows i = []
below (suc depth) rows i =
    children rows i ++ concat_map (λ c. below depth rows c.id) (children rows i)

-- Nothing is further down.
abbrev pub IsWithin : ℕ → List Directive → ℕ → Type 0
IsWithin zero rows i = children rows i ≡ []
IsWithin (suc depth) rows i = Every (λ c. IsWithin depth rows c.id) (children rows i)

zero_add : (n : ℕ) → 0 + n ≡ n
zero_add n = omega arith

add_assoc : (a b c : ℕ) → a + b + c ≡ a + (b + c)
add_assoc a b c = omega arith

suc_add : (a b : ℕ) → suc a + b ≡ suc (a + b)
suc_add a b = omega arith

module _ (rows : List Directive) where
  walk_step :
      (f i : ℕ) (s : List ℕ) (out : List Directive)
      → walk_down (suc f) rows (i ∷ s) out
        ≡ walk_down f rows (ids (children rows i) ++ s) (out ++ children rows i)
  unfolding walk_down
  walk_step f i s out = refl

  -- The loop on the children of one directive, from what it does for each of them.
  walk_each :
      (depth : ℕ)
      → ((c : Directive) (f : ℕ) (s : List ℕ) (out : List Directive)
          → IsWithin depth rows c.id
          → walk_down (rounds depth rows c.id + f) rows (c.id ∷ s) out
            ≡ walk_down f rows s (out ++ below depth rows c.id))
      → (cs : List Directive) (f : ℕ) (s : List ℕ) (out : List Directive)
      → Every (λ c. IsWithin depth rows c.id) cs
      → walk_down (sum_over (λ c. rounds depth rows c.id) cs + f) rows (ids cs ++ s) out
        ≡ walk_down f rows s (out ++ concat_map (λ c. below depth rows c.id) cs)
  walk_each depth one [] f s out h = rw (zero_add f, append_nil out) refl
  walk_each depth one (c ∷ cs) f s out h =
      let later = sum_over (λ x. rounds depth rows x.id) cs in
      let rest = concat_map (λ x. below depth rows x.id) cs in
      ap (λ n. walk_down n rows (c.id ∷ (ids cs ++ s)) out)
        (add_assoc (rounds depth rows c.id) later f)
      ∙ one c (later + f) (ids cs ++ s) out h.0
      ∙ walk_each depth one cs f s (out ++ below depth rows c.id) h.1
      ∙ ap (walk_down f rows s) (append_assoc out (below depth rows c.id) rest)

  walk_one :
      (depth i f : ℕ) (s : List ℕ) (out : List Directive)
      → IsWithin depth rows i
      → walk_down (rounds depth rows i + f) rows (i ∷ s) out
        ≡ walk_down f rows s (out ++ below depth rows i)
  unfolding rounds below
  walk_one zero i f s out h =
      ap (λ n. walk_down n rows (i ∷ s) out) (suc_add 0 f ∙ ap suc (zero_add f))
      ∙ walk_step f i s out
      ∙ rw h refl
  walk_one (suc depth) i f s out h =
      let cs = children rows i in
      ap (λ n. walk_down n rows (i ∷ s) out) (suc_add (sum_over (λ c. rounds depth rows c.id) cs) f)
      ∙ walk_step (sum_over (λ c. rounds depth rows c.id) cs + f) i s out
      ∙ walk_each depth (λ c f s out k. walk_one depth c.id f s out k) cs f s (out ++ cs) h
      ∙ ap (walk_down f rows s) (append_assoc out cs (concat_map (λ c. below depth rows c.id) cs))

-- The children of a directive have larger ids, which have been given out.
id_bounds :
    (lo hi : ℕ) (rows : List Directive) → Ascends lo rows hi → Every (λ r. suc r.id ≤ hi) rows
id_bounds lo hi [] up = tt
id_bounds lo hi (r ∷ rs) up = (above r (suc r.id) hi rs up.1, id_bounds (suc r.id) hi rs up.1)
  where
    above : (r : Directive) (lo hi : ℕ) (rows : List Directive) → Ascends lo rows hi → lo ≤ hi
    above r lo hi [] up = up
    above r lo hi (x ∷ xs) up = omega (arith, above r (suc x.id) hi xs up.1)

Every-both :
    (P Q : Directive → Type 0) (rows : List Directive)
    → Every P rows
    → Every Q rows
    → Every (λ r. P r × Q r) rows
Every-both P Q [] p q = tt
Every-both P Q (r ∷ rs) p q = ((p.0, q.0), Every-both P Q rs p.1 q.1)

child_bounds :
    (i hi : ℕ) (r : Directive)
    → (IsSound r × (suc r.id ≤ hi)) × (is_parent i r.parent_id ≡ true)
    → (suc i ≤ r.id) × (suc r.id ≤ hi)
child_bounds i hi r h = below_parent r.parent_id h.0.0.parent_below h.1
  where
    below_parent :
        (o : Option ℕ)
        → ParentBelow o r.id
        → is_parent i o ≡ true
        → (suc i ≤ r.id) × (suc r.id ≤ hi)
    below_parent none k e = cc
    below_parent (some parent) k e = ground (arith, h.0.1)

module _ (db : Db) (w : IsWell db) where
  children_bounds :
      (i : ℕ) → Every (λ c. (suc i ≤ c.id) × (suc c.id ≤ db.next_id)) (children db.directives i)
  unfolding children
  children_bounds i = Every-order_by _ _ _ (
      Every-map (child_bounds i db.next_id) _ (
        Every-select (λ r. IsSound r × (suc r.id ≤ db.next_id)) _ db.directives
          (Every-both _ _ db.directives w.sound
            (id_bounds 1 db.next_id db.directives w.ascending))))

  pub all-IsWithin : (depth i : ℕ) → db.next_id ≤ i + suc depth → IsWithin depth db.directives i
  all-IsWithin zero i le = no_child (children db.directives i) (children_bounds i)
    where
      no_child :
          (cs : List Directive) → Every (λ c. (suc i ≤ c.id) × (suc c.id ≤ db.next_id)) cs → cs ≡ []
      no_child [] h = refl
      no_child (c ∷ cs) h = absurd (omega arith)
  all-IsWithin (suc depth) i le =
      Every-map (λ c b. all-IsWithin depth c.id (omega (arith, b.0))) (children db.directives i)
        (children_bounds i)

  -- On tables in order the loop of `descendants` ends with an empty stack, and has listed for each
  -- directive its children by priority and id, and then what is below each child.
  pub walk_down-below :
      (i : ℕ)
      → walk_down (rounds db.next_id db.directives i) db.directives (i ∷ []) []
        ≡ (below db.next_id db.directives i, [])
  unfolding walk_down
  walk_down-below i =
      ap (λ n. walk_down n db.directives (i ∷ []) [])
        (sym (add_zero (rounds db.next_id db.directives i)))
      ∙ walk_one db.directives db.next_id i 0 [] [] (all-IsWithin db.next_id i (omega arith))
    where
      add_zero : (n : ℕ) → n + 0 ≡ n
      add_zero n = omega arith
