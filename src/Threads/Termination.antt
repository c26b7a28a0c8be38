-- ===== src/Threads/Termination.antt =====
-- The walk to the root of a thread ends at a root.
use laneq.Common.{
  ℕ, zero, suc, ◌≤◌, ◌≡◌, refl, ap, sym, subst, List, [], ◌∷◌, none, some, arith, Option-cases, inl,
  inr, ◌==◌, Bool-cases,
}
use laneq.Sql.Order.{Every}
use laneq.Database.{Directive, Db, find}
use laneq.Database.Rows.{find_below, id_of_find}
use laneq.Core.Invariant.{IsSound, ParentBelow, IsWell}
use laneq.Threads.{parent_in, root_from, thread_root}

-- The loop of `thread_rows` stops at this id: it is not in the table, or it has no parent.
abbrev pub IsRoot : List Directive → ℕ → Type 0
IsRoot rows i = parent_in (find i rows) ≡ none

pub found-IsSound :
    (i : ℕ) (rows : List Directive) {r : Directive}
    → Every IsSound rows
    → find i rows ≡ some r
    → IsSound r
found-IsSound i [] h e = cc
found-IsSound i (x ∷ xs) {r} h e = elim (Bool-cases (x.id == i)) [
  | inl t ↦ let same : x ≡ r = cc (rw t at e) in subst IsSound same h.0
  | inr t ↦ found-IsSound i xs h.1 (rw t at e)
]

pub walk_stops :
    (fuel : ℕ) (rows : List Directive) (i : ℕ) → IsRoot rows i → root_from (suc fuel) rows i ≡ i
unfolding root_from
walk_stops fuel rows i h = rw (root_from, h) refl

pub walk_goes :
    (fuel : ℕ) (rows : List Directive) (i : ℕ) {parent : ℕ}
    → parent_in (find i rows) ≡ some parent
    → root_from (suc fuel) rows i ≡ root_from fuel rows parent
unfolding root_from
walk_goes fuel rows i h = rw (root_from, h) refl

pub parent_smaller :
    (db : Db) (i parent : ℕ)
    → IsWell db
    → parent_in (find i db.directives) ≡ some parent
    → suc parent ≤ i
parent_smaller db i parent w h = elim (Option-cases (find i db.directives)) [
  | inl e ↦ cc (rw e at h)
  | inr (r, e) ↦
      let p : r.parent_id ≡ some parent = rw e at h in
      let sound = found-IsSound i db.directives w.sound e in
      let below : ParentBelow (some parent) r.id = rw p at sound.parent_below in
      omega (arith, below, id_of_find i db.directives e)
]

root_from-IsRoot :
    (fuel : ℕ) (db : Db) (i : ℕ)
    → IsWell db
    → i ≤ fuel
    → IsRoot db.directives (root_from fuel db.directives i)
unfolding root_from
root_from-IsRoot zero db i w le =
    ap parent_in (find_below 1 db.next_id i db.directives w.ascending (omega arith))
root_from-IsRoot (suc fuel) db i w le = elim (Option-cases (parent_in (find i db.directives))) [
  | inl e ↦ subst (IsRoot db.directives) (sym (walk_stops fuel db.directives i e)) e
  | inr (parent, e) ↦
      let smaller = parent_smaller db i parent w e in
      subst (IsRoot db.directives) (sym (walk_goes fuel db.directives i e))
        (root_from-IsRoot fuel db parent w (omega (arith, smaller)))
]

-- On tables in order the walk ends: the loop stops within as many steps as the id of the directive,
-- at an id that is not in the table or has no parent.
pub thread_root-IsRoot :
    (db : Db) (i : ℕ) → IsWell db → IsRoot db.directives (thread_root db.directives i)
unfolding thread_root
thread_root-IsRoot db i w = root_from-IsRoot i db i w (omega arith)
