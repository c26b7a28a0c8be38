-- ===== src/Core/Invariant.antt =====
-- What holds of the table of directives between two calls of core.py, whatever the calls are.
pub mod Kept
use laneq.Common.{
  ℕ, ◌+◌, ◌≤◌, ◌<◌, ◌≡◌, refl, Bool, true, false, List, [], ◌∷◌, ◌++◌, Option, none, some, arith,
  Bool-cases, inl, inr, if◌then◌else◌, ap,
}
use laneq.Text.{Text}
use laneq.Clock.{Env, utc_now}
use laneq.Sql.{update}
use laneq.Sql.Order.{Every}
use laneq.Database.{
  Status, pending, taken, deferred, done, dropped, parked, requeue, hold, Directive, Db, connect,
}
use laneq.Database.Rows.{Ascends, KeepsId, update-Ascends, Ascends-append}
use laneq.Action.{update_where, insert_directive, open_connection}
use laneq.Action.Keeps.{Keeps}
use laneq.Leases.{reclaim_expired_leases, reclaim_deferred, reap_stale}
use laneq.Leases.Bulk.{
  reclaim_expired_leases-eq-update, reclaim_deferred-eq-update, reap_stale-eq-update,
}

-- The statuses in which a directive may have a claim.
abbrev pub has_claim : Status → Bool
has_claim taken = true
has_claim parked = true
has_claim _ = false

abbrev pub ParentBelow : Option ℕ → ℕ → Type 0
ParentBelow none i = Unit
ParentBelow (some p) i = p < i

-- A row is in order: without a claim it has no token, lease or consumer; a parked ordinary
-- directive has no token; its parent has a smaller id; its priority has a name.
pub record IsSound (r : Directive) : Type 0 where
  pub no_token : has_claim r.status ≡ false → r.claim_token ≡ none
  pub no_lease : has_claim r.status ≡ false → r.lease_until ≡ none
  pub no_consumer : has_claim r.status ≡ false → r.taken_by ≡ none
  pub parked_ordinary : r.status ≡ parked → r.recovery_policy ≡ requeue → r.claim_token ≡ none
  pub parent_below : ParentBelow r.parent_id r.id
  pub named_priority : r.priority < 3

-- The ids ascend from 1 and stay below the next one, and every row is sound.
pub record IsWell (db : Db) : Type 0 where
  pub ascending : Ascends 1 db.directives db.next_id
  pub sound : Every IsSound db.directives

-- The change leaves the id alone, and keeps the rows that pass the test sound.
pub record RowKeeps (test : Directive → Bool) (change : Directive → Directive) : Type 0 where
  pub same_id : KeepsId change
  pub still_sound : (r : Directive) → IsSound r → test r ≡ true → IsSound (change r)

module _ {test : Directive → Bool} {change : Directive → Directive} (k : RowKeeps test change) where
  update-IsSound :
      (rows : List Directive) → Every IsSound rows → Every IsSound (update test change rows)
  update-IsSound [] h = tt
  update-IsSound (r ∷ rs) h = elim (Bool-cases (test r)) [
    | inl e ↦ rw e (k.still_sound r h.0 e, update-IsSound rs h.1)
    | inr e ↦ rw e (h.0, update-IsSound rs h.1)
  ]

  pub update-IsWell :
      (db : Db) → IsWell db → IsWell (record db { directives = update test change db.directives })
  update-IsWell db w = record {
    ascending = update-Ascends test change k.same_id 1 db.next_id db.directives w.ascending;
    sound = update-IsSound db.directives w.sound;
  }

  pub update_where-IsWell : Keeps IsWell (update_where test change)
  unfolding update_where
  update_where-IsWell = record { at = λ db w. update-IsWell db w }

append-IsSound :
    (rows : List Directive) (r : Directive)
    → Every IsSound rows
    → IsSound r
    → Every IsSound (rows ++ r ∷ [])
append-IsSound [] r h s = (s, tt)
append-IsSound (x ∷ xs) r h s = (h.0, append-IsSound xs r h.1 s)

pub insert_directive-IsWell :
    (make : ℕ → Directive)
    → ((i : ℕ) → (make i).id ≡ i)
    → (db : Db) → IsWell db
    → IsSound (make db.next_id)
    → IsWell (insert_directive make db).1
unfolding insert_directive
insert_directive-IsWell make same db w s = record {
  ascending =
      Ascends-append 1 db.next_id db.directives (make db.next_id) w.ascending (same db.next_id);
  sound = append-IsSound db.directives (make db.next_id) w.sound s;
}

pub connect-IsWell : (db : Db) → IsWell db → IsWell (connect db)
unfolding connect
connect-IsWell db w =
    update-IsWell (record { same_id = λ r. refl; still_sound = λ r s _. ground arith }) db w

pub open_connection-IsWell : Keeps IsWell open_connection
unfolding open_connection
open_connection-IsWell = record { at = connect-IsWell }

pub reclaim_expired_leases-IsWell :
    (env : Env) (i : ℕ) → Keeps IsWell (reclaim_expired_leases env i)
reclaim_expired_leases-IsWell env i = record {
  at = λ db w.
      rw (reclaim_expired_leases-eq-update env i 1 db.next_id db w.ascending)
        (update-IsWell (record { same_id = λ r. refl; still_sound = λ r s e. ground arith }) db w);
}

pub reclaim_deferred-IsWell : (env : Env) (i : ℕ) → Keeps IsWell (reclaim_deferred env i)
reclaim_deferred-IsWell env i = record {
  at = λ db w.
      rw (reclaim_deferred-eq-update env i 1 db.next_id db w.ascending)
        (update-IsWell (record { same_id = λ r. refl; still_sound = λ r s e. ground arith }) db w);
}

pub reap_stale-IsWell : (env : Env) (i n : ℕ) → Keeps IsWell (reap_stale env i n)
reap_stale-IsWell env i n = record {
  at = λ db w.
      let w' = connect-IsWell db w in
      rw (reap_stale-eq-update env i n 1 (connect db).next_id db w'.ascending) (
        update-IsWell (record { same_id = λ r. refl; still_sound = λ r s e. ground arith })
          (connect db) w');
}
