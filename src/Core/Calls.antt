-- ===== src/Core/Calls.antt =====
-- A client's calls of core.py as data, and histories of calls.
use laneq.Common.{ℕ, Bool, false, not, List, [], ◌∷◌, Option, none}
use laneq.Text.{Text}
use laneq.Clock.{Env, Duration}
use laneq.Database.{Status, Db}
use laneq.Core.Guard.{is_some}
use laneq.Core.Enqueue
use laneq.Core.Claim
use laneq.Core.Settle

pub data Call : Type 0 where
  push : Text → Text → Option ℕ → Text → Text → Call
  reprioritize : ℕ → Text → Call
  take : Text → Duration → Text → Text → Option ℕ → Call
  peek : Text → Text → Call
  touch : ℕ → Duration → Option Text → Bool → Call
  set_status : ℕ → Status → Option Text → Bool → Call
  defer : ℕ → Option Text → Duration → List Text → Option Text → Bool → Call
  park : ℕ → Option Text → Bool → Call
  unpark : ℕ → Call
  reap : Bool → ℕ → Call

-- The database that a call leaves, whether it returns or raises.
unfoldable pub perform : Call → Env → Db → Db
perform (push body priority parent lane policy) env db =
    (Enqueue.push body priority parent lane policy env db).1
perform (reprioritize i priority) env db = (Enqueue.reprioritize i priority db).1
perform (take consumer lease lane policy stale) env db =
    (Claim.take consumer lease lane policy stale env db).1
perform (peek lane policy) env db = (Claim.peek lane policy env db).1
perform (touch i lease token force) env db = (Claim.touch i lease token force env db).1
perform (set_status i s token force) env db = (Settle.set_status i s token force env db).1
perform (defer i until delay blocked_by token force) env db =
    (Settle.defer i until delay blocked_by token force env db).1
perform (park i token force) env db = (Settle.park i token force env db).1
perform (unpark i) env db = (Settle.unpark i db).1
perform (reap mode n) env db = (Settle.reap mode n env db).1

-- Does the call ask for the administrative override?
abbrev pub is_forced : Call → Bool
is_forced (touch i lease token force) = force
is_forced (set_status i s token force) = force
is_forced (defer i until delay blocked_by token force) = force
is_forced (park i token force) = force
is_forced _ = false

-- The claim token of the call.
abbrev pub token_of : Call → Option Text
token_of (touch i lease token force) = token
token_of (set_status i s token force) = token
token_of (defer i until delay blocked_by token force) = token
token_of (park i token force) = token
token_of _ = none

-- Does the call reap stale claims?
abbrev pub reaps_stale : Call → Bool
reaps_stale (take consumer lease lane policy stale) = is_some stale
reaps_stale (reap mode n) = not mode
reaps_stale _ = false

-- Calls one after the other, each with what it reads of its surroundings.
unfoldable pub history : List (Env × Call) → Db → Db
unfolding perform
history [] db = db
history ((env, call) ∷ calls) db = history calls (perform call env db)

-- The database that `migrate` creates.
abbrev pub new_db : Db
new_db = record {
  directives = [];
  next_id = 1;
  receipts = [];
  admissions = [];
  roots = [];
  paths = [];
}
