-- ===== src/Core/Guard.antt =====
-- The checks that the operations of core.py share: `_priority_value`, `_recovery_policy`,
-- `_claim_guard`, `_raise_missing_or_inactive` and `require_ordinary_directive`.
use laneq.Common.{
  ℕ, List, [], ◌∷◌, Bool, true, false, not, ◌&&◌, Option, none, some, Result, ok, err, Error,
  queue_error, not_found, precondition, key_error, ◌==◌, if◌then◌else◌,
}
use laneq.Text.{Text, codes, text_eq, text_leb}
use laneq.Database.{taken, status_eq, Policy, requeue, hold, policy_eq, Directive, find}
use laneq.Action.{Action}

-- PRIORITIES
unfoldable pub priority_value : Text → Result ℕ
priority_value name =
    if text_eq name (codes "P0")
    then ok 0
    else if text_eq name (codes "P1")
    then ok 1
    else if text_eq name (codes "P2")
    then ok 2
    else err queue_error

-- PRIORITY_NAMES
unfoldable pub priority_name : ℕ → Result Text
priority_name n =
    if n == 0
    then ok (codes "P0")
    else if n == 1
    then ok (codes "P1")
    else if n == 2
    then ok (codes "P2")
    else err key_error

unfoldable pub policy_of : Text → Result Policy
policy_of name =
    if text_eq name (codes "requeue")
    then ok requeue
    else if text_eq name (codes "hold")
    then ok hold
    else err queue_error

-- The condition that `_claim_guard` adds to a WHERE clause.
pub data Guard : Type 0 where
  fenced : Text → Guard
  forced : Guard

unfoldable pub claim_guard : Option Text → Bool → Result Guard
claim_guard (some []) force = err queue_error
claim_guard (some (c ∷ cs)) force = if force then err queue_error else ok (fenced (c ∷ cs))
claim_guard none force = if force then ok forced else err precondition

-- `column = value`, which is not true of NULL.
abbrev pub holds : Option Text → Text → Bool
holds none value = false
holds (some at) value = text_eq at value

-- `lease_until > now`, which is not true of NULL.
abbrev pub is_live : Option Text → Text → Bool
is_live none now = false
is_live (some at) now = not (text_leb at now)

abbrev pub admits : Guard → Text → Directive → Bool
admits forced now r = true
admits (fenced token) now r =
    status_eq r.status taken && holds r.claim_token token && is_live r.lease_until now

-- `claim_token is not None`: the operation opens a transaction of its own.
abbrev pub is_some {ℓ} : {A : Type ℓ} → Option A → Bool
is_some none = false
is_some (some a) = true

-- The exception where an UPDATE has changed no row: the item is missing, or in another state.
unfoldable pub missing_or_inactive : ℕ → List Directive → Error
missing_or_inactive item_id rows = elim (find item_id rows) [
  | none ↦ not_found
  | some r ↦ precondition
]

-- What follows an UPDATE: its result, or that exception where `rowcount` is 0.
unfoldable pub unless_none : {A : Type 0} → ℕ → ℕ → A → Action A
unless_none rowcount item_id result db =
    (if rowcount == 0 then err (missing_or_inactive item_id db.directives) else ok result, db)

abbrev pub is_protected : Option Directive → Bool
is_protected none = false
is_protected (some r) = policy_eq r.recovery_policy hold

unfoldable pub require_ordinary_directive : ℕ → Action Unit
require_ordinary_directive item_id db =
    (if is_protected (find item_id db.directives) then err precondition else ok tt, db)

abbrev pub parent_exists : List Directive → Option ℕ → Bool
parent_exists rows none = true
parent_exists rows (some i) = is_some (find i rows)
