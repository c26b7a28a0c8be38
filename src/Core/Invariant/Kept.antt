-- ===== src/Core/Invariant/Kept.antt =====
-- Every operation of core.py keeps the tables in order, whether it returns or raises.
use laneq.Common.{
  dec_lt, ℕ, ◌<◌, ◌≡◌, refl, Bool, true, false, ◌&&◌, List, Option, none, some, arith, Option-cases,
  inl, inr, ◌==◌, ok,
}
use laneq.Text.{Text}
use laneq.Clock.{Env, Duration}
use laneq.Database.{
  Status, pending, taken, deferred, done, dropped, parked, Policy, Directive, Db, find, status_eq,
}
use laneq.Database.Rows.{find_above, KeepsId}
use laneq.Action.{◌>>=◌}
use laneq.Action.Keeps.{Keeps, Keeps-bind-lift, Keeps-bind, keeps_rules}
use laneq.Core.Guard.{priority_value, unless_none, require_ordinary_directive}
use laneq.Core.Enqueue.{new_directive, insert_child, push, reprioritize}
use laneq.Core.Claim.{mark_taken, take_row, take_next, reap_if_asked, take, peek, touch_row, touch}
use laneq.Core.Settle.{
  with_status, set_status, with_deferral, defer, with_parking, park, with_unparking, unpark, reap,
}
use laneq.Core.Invariant.{
  IsSound, IsWell, RowKeeps, update_where-IsWell, insert_directive-IsWell, open_connection-IsWell,
  reclaim_expired_leases-IsWell, reclaim_deferred-IsWell, reap_stale-IsWell,
}

found_below :
    (p : ℕ) (r : Directive) (db : Db) → IsWell db → find p db.directives ≡ some r → p < db.next_id
found_below p r db w e = elim (dec_lt p db.next_id) [
  | yes lt ↦ lt
  | no ge ↦ cc (find_above 1 db.next_id p db.directives w.ascending (omega arith))
]

unless_none-IsWell : {A : Type 0} (n i : ℕ) (a : A) → Keeps IsWell (unless_none n i a)
unfolding unless_none
unless_none-IsWell n i a = record { at = λ db w. w }

require_ordinary-IsWell : (i : ℕ) → Keeps IsWell (require_ordinary_directive i)
unfolding require_ordinary_directive
require_ordinary-IsWell i = record { at = λ db w. w }

pub with_status-id : (s : Status) (at : Text) → KeepsId (with_status s at)
with_status-id pending at r = refl
with_status-id done at r = refl
with_status-id s at r = refl

with_status-IsSound :
    (s : Status) (at : Text) (r : Directive) → IsSound r → IsSound (with_status s at r)
with_status-IsSound pending at r s = ground arith
with_status-IsSound done at r s = ground arith
with_status-IsSound taken at r s = ground arith
with_status-IsSound deferred at r s = ground arith
with_status-IsSound dropped at r s = ground arith
with_status-IsSound parked at r s = ground arith

-- The changes that the operations make keep the rows sound.
module _ (test : Directive → Bool) where
  pub settle-RowKeeps : (s : Status) (at : Text) → RowKeeps test (with_status s at)
  settle-RowKeeps s at = record {
    same_id = with_status-id s at;
    still_sound = λ r v _. with_status-IsSound s at r v;
  }

  pub take-RowKeeps :
      (at consumer token lease : Text) → RowKeeps test (mark_taken at consumer token lease)
  take-RowKeeps at consumer token lease = record {
    same_id = λ r. refl;
    still_sound = λ r v _. ground arith;
  }

  pub defer-RowKeeps :
      (at : Option Text) (ids : Option (List ℕ)) → RowKeeps test (with_deferral at ids)
  defer-RowKeeps at ids = record { same_id = λ r. refl; still_sound = λ r v _. ground arith }

  pub park-RowKeeps : RowKeeps test with_parking
  park-RowKeeps = record { same_id = λ r. refl; still_sound = λ r v _. ground arith }

  pub unpark-RowKeeps : RowKeeps test with_unparking
  unpark-RowKeeps = record { same_id = λ r. refl; still_sound = λ r v _. ground arith }

  pub priority-RowKeeps :
      (value : ℕ) → value < 3 → RowKeeps test (λ r. record r { priority = value })
  priority-RowKeeps value lt = record { same_id = λ r. refl; still_sound = λ r v _. ground arith }

-- A renewed lease goes to a taken row only.
pub touch-RowKeeps :
    (i : ℕ) (own : Directive → Bool) (at : Text)
    → RowKeeps
        (λ r. r.id == i && status_eq r.status taken && own r)
        (λ r. record r { lease_until = some at })
touch-RowKeeps i own at = record { same_id = λ r. refl; still_sound = λ r v e. ground arith }

ruleset well_rules = (
  keeps_rules, unless_none-IsWell, require_ordinary-IsWell, update_where-IsWell, settle-RowKeeps,
  take-RowKeeps, defer-RowKeeps, park-RowKeeps, unpark-RowKeeps, open_connection-IsWell,
  touch-RowKeeps, reclaim_expired_leases-IsWell, reclaim_deferred-IsWell, reap_stale-IsWell,
)

pub set_status-IsWell :
    (i : ℕ) (s : Status) (token : Option Text) (force : Bool) (env : Env)
    → Keeps IsWell (set_status i s token force env)
unfolding set_status
set_status-IsWell i s token force env = search well_rules depth 20

pub defer-IsWell :
    (i : ℕ) (until : Option Text) (delay : Duration) (blocked_by : List Text) (token : Option Text)
    (force : Bool) (env : Env)
    → Keeps IsWell (defer i until delay blocked_by token force env)
unfolding defer
defer-IsWell i until delay blocked_by token force env = search well_rules depth 20

pub park-IsWell :
    (i : ℕ) (token : Option Text) (force : Bool) (env : Env) → Keeps IsWell (park i token force env)
unfolding park
park-IsWell i token force env = search well_rules depth 20

pub unpark-IsWell : (i : ℕ) → Keeps IsWell (unpark i)
unfolding unpark
unpark-IsWell i = search well_rules depth 20

pub reap-IsWell : (mode : Bool) (n : ℕ) (env : Env) → Keeps IsWell (reap mode n env)
unfolding reap
reap-IsWell true n env = search well_rules depth 20
reap-IsWell false n env = search well_rules depth 20

touch_row-IsWell :
    (i : ℕ) (lease : Duration) (guard : Text → Directive → Bool) (env : Env)
    → Keeps IsWell (touch_row i lease guard env)
unfolding touch_row
touch_row-IsWell i lease guard env = search well_rules depth 20

pub touch-IsWell :
    (i : ℕ) (lease : Duration) (token : Option Text) (force : Bool) (env : Env)
    → Keeps IsWell (touch i lease token force env)
unfolding touch
touch-IsWell i lease token force env = search (well_rules, touch_row-IsWell) depth 20

take_row-IsWell :
    (env : Env) (consumer : Text) (lease : Duration) (lane : Text) (row : Option Directive)
    → Keeps IsWell (take_row env consumer lease lane row)
unfolding take_row
take_row-IsWell env consumer lease lane none = search well_rules
take_row-IsWell env consumer lease lane (some row) = search well_rules depth 20

take_next-IsWell :
    (env : Env) (consumer : Text) (lease : Duration) (lane : Text) (policy : Policy)
    → Keeps IsWell (take_next env consumer lease lane policy)
unfolding take_next
take_next-IsWell env consumer lease lane policy = search (well_rules, take_row-IsWell) depth 20

reap_if_asked-IsWell : (env : Env) (n : Option ℕ) → Keeps IsWell (reap_if_asked env n)
unfolding reap_if_asked
reap_if_asked-IsWell env none = search well_rules
reap_if_asked-IsWell env (some n) = search well_rules

pub take-IsWell :
    (consumer : Text) (lease : Duration) (lane policy : Text) (reap : Option ℕ) (env : Env)
    → Keeps IsWell (take consumer lease lane policy reap env)
unfolding take
take-IsWell consumer lease lane policy reap env =
    search (well_rules, take_next-IsWell, reap_if_asked-IsWell) depth 20

pub peek-IsWell : (lane policy : Text) (env : Env) → Keeps IsWell (peek lane policy env)
unfolding peek
peek-IsWell lane policy env = search well_rules depth 20

-- A name that `_priority_value` accepts has a value below 3.
pub priority_value-lt : (name : Text) (value : ℕ) → priority_value name ≡ ok value → value < 3
unfolding priority_value
priority_value-lt name value h = ground arith

pub reprioritize-IsWell : (i : ℕ) (name : Text) → Keeps IsWell (reprioritize i name)
unfolding reprioritize
reprioritize-IsWell i name = Keeps-bind-lift (priority_value name) _ (λ value e.
    let lt = priority_value-lt name value e in search (well_rules, priority-RowKeeps) depth 20)

-- A parent that exists has an id below the next one, which is the child's.
pub insert_child-IsWell :
    (parent : Option ℕ) (value : ℕ) (body : Text) (at : Option Text) (lane : Text) (policy : Policy)
    → value < 3
    → Keeps IsWell (insert_child parent (new_directive value body at parent lane policy))
unfolding insert_child ◌>>=◌
insert_child-IsWell none value body at lane policy lt = record {
  at = λ db w.
      insert_directive-IsWell (new_directive value body at none lane policy) (λ i. refl) db w
        (ground arith);
}
insert_child-IsWell (some p) value body at lane policy lt = record {
  at = λ db w. elim (Option-cases (find p db.directives)) [
    | inl e ↦ rw e w
    | inr (r, e) ↦ rw e (
        insert_directive-IsWell (new_directive value body at (some p) lane policy) (λ i. refl) db w
          (ground (arith, found_below p r db w e)))
  ];
}

pub push-IsWell :
    (body priority : Text) (parent : Option ℕ) (lane policy : Text) (env : Env)
    → Keeps IsWell (push body priority parent lane policy env)
unfolding push
push-IsWell body priority parent lane policy env = Keeps-bind _ _ (search well_rules) (λ _.
    Keeps-bind-lift (priority_value priority) _ (λ value e.
      let lt = priority_value-lt priority value e in
      search (well_rules, insert_child-IsWell) depth 20))
