-- ===== src/Threads/Membership.antt =====
-- Which rows `thread_rows` lists: those with the same root.
use laneq.Common.{
  ℕ, zero, suc, ◌≤◌, ◌≡◌, ◌↔◌, ◌⊎◌, refl, ap, sym, subst, ◌∙◌, ◌++◌, Option, none, some, true,
  arith, Option-cases, inl, inr,
}
use laneq.Common.Lists.{In, In-append, In-append_left, In-append_right}
use laneq.Sql.Order.{Every, Every-order_by, Every-select}
use laneq.Database.{Directive, Db, find}
use laneq.Database.Rows.{find_each, find_below, id_of_find}
use laneq.Core.Invariant.{IsWell}
use laneq.Threads.{
  parent_in, root_from, thread_root, is_parent, children, descendants, row_list, thread_rows,
}
use laneq.Threads.Termination.{IsRoot, walk_stops, walk_goes, parent_smaller, thread_root-IsRoot}
use laneq.Threads.Descent.{concat_map, below, all-IsWithin, walk_down-below}
use laneq.Threads.Within.{
  Every-In, In-find, In-select, In-order_by, In-of-concat_map, child-In-below, below_closed,
}

root_from_missing : (f : ℕ) (db : Db) (i : ℕ) → IsWell db → i ≤ 0 → root_from f db.directives i ≡ i
unfolding root_from
root_from_missing zero db i w le = refl
root_from_missing (suc f) db i w le =
    walk_stops f db.directives i
      (ap parent_in (find_below 1 db.next_id i db.directives w.ascending (omega arith)))

-- The walk to the root takes the same way with any fuel that is enough.
root_from_same :
    (f g : ℕ) (db : Db) (i : ℕ)
    → IsWell db
    → i ≤ f
    → i ≤ g
    → root_from f db.directives i ≡ root_from g db.directives i
unfolding root_from
root_from_same zero g db i w le lf = sym (root_from_missing g db i w le)
root_from_same (suc f) zero db i w le lf =
    root_from_missing (suc f) db i w lf ∙ sym (root_from_missing zero db i w lf)
root_from_same (suc f) (suc g) db i w le lf =
    elim (Option-cases (parent_in (find i db.directives))) [
      | inl e ↦ walk_stops f db.directives i e ∙ sym (walk_stops g db.directives i e)
      | inr (parent, e) ↦
          let smaller = parent_smaller db i parent w e in
          walk_goes f db.directives i e
          ∙ root_from_same f g db parent w (omega (arith, smaller)) (omega (arith, smaller))
          ∙ sym (walk_goes g db.directives i e)
    ]

In-row_list : (o : Option Directive) (r : Directive) → In r (row_list o) → o ≡ some r
In-row_list none r h = absurd h
In-row_list (some x) r (inl e) = ap some (sym e)
In-row_list (some x) r (inr h) = absurd h

module _ (db : Db) (w : IsWell db) where
  thread_root_root : (i : ℕ) → IsRoot db.directives i → thread_root db.directives i ≡ i
  unfolding thread_root root_from
  thread_root_root zero h = refl
  thread_root_root (suc i) h = walk_stops i db.directives (suc i) h

  thread_root_step :
      (i parent : ℕ)
      → parent_in (find i db.directives) ≡ some parent
      → thread_root db.directives i ≡ thread_root db.directives parent
  unfolding thread_root
  thread_root_step zero parent h = absurd (omega (arith, parent_smaller db 0 parent w h))
  thread_root_step (suc i) parent h =
      let smaller = parent_smaller db (suc i) parent w h in
      walk_goes i db.directives (suc i) h
      ∙ root_from_same i parent db parent w (omega (arith, smaller)) (omega arith)

  child_facts :
      (i : ℕ)
      → Every
          (λ r. (find r.id db.directives ≡ some r) × (is_parent i r.parent_id ≡ true))
          (children db.directives i)
  unfolding children
  child_facts i = Every-order_by _ _ _ (
      Every-select (λ r. find r.id db.directives ≡ some r) _ db.directives
        (find_each 1 db.next_id db.directives w.ascending))

  is_parent-eq : (i : ℕ) (o : Option ℕ) → is_parent i o ≡ true → o ≡ some i
  is_parent-eq i none e = cc
  is_parent-eq i (some p) e = ground arith

  child-thread_root :
      (i : ℕ) (r : Directive)
      → (find r.id db.directives ≡ some r) × (is_parent i r.parent_id ≡ true)
      → thread_root db.directives r.id ≡ thread_root db.directives i
  child-thread_root i r h =
      thread_root_step r.id i (ap parent_in h.0 ∙ is_parent-eq i r.parent_id h.1)

  In-below-thread_root :
      (depth i : ℕ) (r : Directive)
      → In r (below depth db.directives i)
      → thread_root db.directives r.id ≡ thread_root db.directives i
  unfolding below
  In-below-thread_root zero i r h = absurd h
  In-below-thread_root (suc depth) i r h =
      let cs = children db.directives i in
      let each = λ (d : Directive). below depth db.directives d.id in
      let facts = λ (d : Directive) (k : In d cs). child-thread_root i d (
        Every-In (λ r. (find r.id db.directives ≡ some r) × (is_parent i r.parent_id ≡ true)) cs d
          (child_facts i) k) in
      elim (In-append r cs (concat_map each cs) h) [
        | inl child ↦ facts r child
        | inr deeper ↦
            let (d, there, inside) = In-of-concat_map each r cs deeper in
            In-below-thread_root depth d.id r inside ∙ facts d there
      ]

  below-found :
      (depth i : ℕ) (r : Directive)
      → In r (below depth db.directives i)
      → find r.id db.directives ≡ some r
  unfolding below
  below-found zero i r h = absurd h
  below-found (suc depth) i r h =
      let cs = children db.directives i in
      let each = λ (d : Directive). below depth db.directives d.id in
      elim (In-append r cs (concat_map each cs) h) [
        | inl child ↦
            (Every-In (λ r. (find r.id db.directives ≡ some r) × (is_parent i r.parent_id ≡ true))
              cs r (child_facts i) child).0
        | inr deeper ↦
            let (d, there, inside) = In-of-concat_map each r cs deeper in
            below-found depth d.id r inside
      ]

  In-children :
      (i : ℕ) (r : Directive)
      → In r db.directives
      → r.parent_id ≡ some i
      → In r (children db.directives i)
  unfolding children
  In-children i r h e =
      In-order_by _ r _
        (In-select (λ x. is_parent i x.parent_id) r db.directives h (is_parent_some r.parent_id e))
    where
      is_parent_some : (o : Option ℕ) → o ≡ some i → is_parent i o ≡ true
      is_parent_some none k = cc
      is_parent_some (some p) k = let same : p ≡ i = cc (k) in ground arith

  -- A row is below the root of its thread when its parent is that root or below it.
  below_parent :
      (i parent : ℕ) (r : Directive)
      → find i db.directives ≡ some r
      → parent_in (find i db.directives) ≡ some parent
      → ((x : Directive)
          → find parent db.directives ≡ some x
          → (parent ≡ thread_root db.directives parent)
            ⊎ In x (below db.next_id db.directives (thread_root db.directives parent)))
      → In r (below db.next_id db.directives (thread_root db.directives i))
  below_parent i parent r e k upper =
      let p = subst (λ o. parent_in o ≡ some parent) e k in
      let child = In-children parent r (In-find i db.directives e) p in
      let root = thread_root db.directives parent in
      let within = all-IsWithin db w db.next_id root (omega arith) in
      subst (λ x. In r (below db.next_id db.directives x)) (sym (thread_root_step i parent k))
        (elim (Option-cases (find parent db.directives)) [
          | inl missing ↦ child-In-below db.directives db.next_id root r within (
              subst (λ x. In r (children db.directives x))
                (sym (thread_root_root parent (ap parent_in missing))) child)
          | inr (x, there) ↦ elim (upper x there) [
            | inl top ↦
                child-In-below db.directives db.next_id root r within
                  (subst (λ y. In r (children db.directives y)) top child)
            | inr under ↦ below_closed db.directives db.next_id root x r within under (
                subst (λ y. In r (children db.directives y))
                  (sym (id_of_find parent db.directives there)) child)
          ]
        ])

  -- A row is the root of its thread, or below it.
  below_root :
      (bound i : ℕ) (r : Directive)
      → i ≤ bound
      → find i db.directives ≡ some r
      → (i ≡ thread_root db.directives i)
        ⊎ In r (below db.next_id db.directives (thread_root db.directives i))
  below_root zero i r le e =
      let missing = find_below 1 db.next_id i db.directives w.ascending (omega arith) in
      let bad : none ≡ some r = cc (missing, e) in cc (bad)
  below_root (suc bound) i r le e = elim (Option-cases (parent_in (find i db.directives))) [
    | inl k ↦ inl (sym (thread_root_root i k))
    | inr (parent, k) ↦
        let smaller = parent_smaller db i parent w k in
        inr (
          below_parent i parent r e k
            (λ x there. below_root bound parent x (omega (arith, smaller)) there))
  ]

  descendants-below : (i : ℕ) → descendants db i ≡ below db.next_id db.directives i
  unfolding descendants
  descendants-below i = ap (λ both. both.0) (walk_down-below db w i)

  thread_rows-eq :
      (i : ℕ)
      → thread_rows db i
        ≡ row_list (find (thread_root db.directives i) db.directives)
          ++ below db.next_id db.directives (thread_root db.directives i)
  unfolding thread_rows
  thread_rows-eq i =
      ap (λ rest. row_list (find (thread_root db.directives i) db.directives) ++ rest)
        (descendants-below (thread_root db.directives i))

  thread_rows_same :
      (i : ℕ) (r : Directive)
      → In r (thread_rows db i)
      → thread_root db.directives r.id ≡ thread_root db.directives i
  thread_rows_same i r h =
      let root = thread_root db.directives i in
      let top = thread_root_root root (thread_root-IsRoot db i w) in
      elim (In-append r (row_list (find root db.directives)) _
        (subst (In r) (thread_rows-eq i) h)) [
          | inl k ↦
              ap (thread_root db.directives) (id_of_find root db.directives (In-row_list _ r k))
              ∙ top
          | inr k ↦ In-below-thread_root db.next_id root r k ∙ top
        ]

  pub thread_rows-found :
      (i : ℕ) (r : Directive) → In r (thread_rows db i) → find r.id db.directives ≡ some r
  thread_rows-found i r h =
      let root = thread_root db.directives i in
      elim (In-append r (row_list (find root db.directives)) _
        (subst (In r) (thread_rows-eq i) h)) [
          | inl k ↦
              let e = In-row_list _ r k in
              subst (λ j. find j db.directives ≡ some r) (sym (id_of_find root db.directives e)) e
          | inr k ↦ below-found db.next_id root r k
        ]

  thread_rows_all :
      (i : ℕ) (r : Directive)
      → find r.id db.directives ≡ some r
      → thread_root db.directives r.id ≡ thread_root db.directives i
      → In r (thread_rows db i)
  thread_rows_all i r e h =
      let root = thread_root db.directives i in
      subst (In r) (sym (thread_rows-eq i)) (elim (below_root r.id r.id r (omega arith) e) [
        | inl top ↦ In-append_left r (row_list (find root db.directives)) _ (
            subst (λ o. In r (row_list o)) (sym e ∙ ap (λ j. find j db.directives) (top ∙ h))
              (inl refl))
        | inr under ↦
            In-append_right r (row_list (find root db.directives)) _
              (subst (λ j. In r (below db.next_id db.directives j)) h under)
      ])

  -- On tables in order `thread_rows` lists a row of the table if and only if the row and the
  -- directive have the same root: all of the thread, and nothing else.
  pub thread_rows-In :
      (i : ℕ) (r : Directive)
      → find r.id db.directives ≡ some r
      → In r (thread_rows db i) ↔ (thread_root db.directives r.id ≡ thread_root db.directives i)
  thread_rows-In i r e = (thread_rows_same i r, thread_rows_all i r e)
