-- ===== src/Handoff.antt =====
-- handoff.py: the fenced completion of a protected directive together with the publication of its
-- successors, in one transaction.
pub mod Sealing
pub mod Publishing
pub mod Completion
pub mod Replay
use laneq.Common.{
  ℕ, suc, ◌+◌, List, [], ◌∷◌, ◌++◌, Bool, true, false, not, ◌&&◌, Option, none, some, Result, ok,
  err, Error, queue_error, not_found, precondition, leb, ◌==◌, if◌then◌else◌,
}
use laneq.Common.Lists.{length}
use laneq.Text.{Text, text_eq}
use laneq.Clock.{Env, utc_now}
use laneq.Sql.{first, exists}
use laneq.Database.{
  Status, done, taken, status_eq, hold, policy_eq, Directive, Receipt, HandoffRow, Db, find,
}
use laneq.Action.{
  Action, pure, lift, gets, modify, raise_if, open_connection, or_rollback, update_where, ◌>>=◌,
  ◌>>◌,
}
use laneq.Core.Guard.{fenced, admits, is_some}
use laneq.Contract.{Value, text, Handoff, check_text, parse_handoff}
use laneq.Contract.Json.{Successor}
use laneq.Stage.{admit_in_transaction}

-- SELECT … FROM handoff_receipts WHERE directive_id=?
abbrev pub find_receipt : ℕ → List HandoffRow → Option HandoffRow
find_receipt i = first (λ h. h.directive_id == i)

-- The receipt that is sealed for the directive, if it is one of this claim and content.
unfoldable pub sealed : Text → Text → Option HandoffRow → Result (Option Receipt)
sealed token digest none = ok none
sealed token digest (some row) =
    if text_eq row.claim_token token && text_eq row.manifest_digest digest
    then ok (some row.receipt)
    else err precondition

unfoldable pub sealed_receipt : ℕ → Text → Handoff → Action (Option Receipt)
unfolding sealed
sealed_receipt item_id token manifest = do
  row ← gets (λ db. find_receipt item_id db.receipts)
  lift (sealed token manifest.digest row)

abbrev pub is_input : Env → Handoff → Directive → Bool
is_input env manifest r =
    policy_eq r.recovery_policy hold && text_eq (env.sha256 r.body) manifest.input_digest

unfoldable pub check_input : Env → Handoff → Option Directive → Result (Unit {0})
check_input env manifest none = err not_found
check_input env manifest (some r) = if is_input env manifest r then ok tt else err precondition

unfoldable pub require_input : Env → ℕ → Handoff → Action Unit
unfolding check_input
require_input env item_id manifest = do
  row ← gets (λ db. find item_id db.directives)
  lift (check_input env manifest row)

-- With the (i+1)-th reading of the clock. A reading that a branch skips is left out of the count.
unfoldable pub require_active : Env → ℕ → ℕ → Text → Action Unit
require_active env i item_id token = do
  active ←
      gets (λ db.
        exists (λ r. r.id == item_id && admits (fenced token) (utc_now env i) r) db.directives)
  raise_if (not active) precondition

unfoldable pub insert_successors : Env → ℕ → ℕ → List Successor → Action (List ℕ)
unfolding admit_in_transaction
insert_successors env i item_id [] = pure []
insert_successors env i item_id (child ∷ rest) =
    let later = insert_successors env (suc i) item_id rest in
    do c ← admit_in_transaction env i child (some item_id); cs ← later; pure (c ∷ cs)

-- The SET clause of `finish_parent`.
abbrev pub with_finish : Text → Directive → Directive
with_finish at r = record r {
  status = done;
  done_at = some at;
  taken_by = none;
  claim_token = none;
  lease_until = none;
}

unfoldable pub finish_parent : Env → ℕ → ℕ → Text → Action Unit
finish_parent env i item_id token = do
  rowcount ←
      update_where (λ r. r.id == item_id && admits (fenced token) (utc_now env (suc i)) r)
        (with_finish (utc_now env i))
  raise_if (not (rowcount == 1)) precondition

abbrev pub receipt_of : ℕ → Handoff → List ℕ → Receipt
receipt_of item_id manifest children = record {
  id = item_id;
  input_digest = manifest.input_digest;
  artifact_digest = manifest.artifact_digest;
  receipt_ref = manifest.receipt_ref;
  receipt_digest = manifest.receipt_digest;
  manifest_digest = manifest.digest;
  successor_ids = children;
}

unfoldable pub seal : ℕ → Text → Handoff → Receipt → Action Unit
seal item_id token manifest receipt = modify (λ db. record db {
  receipts =
      db.receipts
      ++ record {
        directive_id = item_id;
        claim_token = token;
        manifest_digest = manifest.digest;
        manifest_json = manifest.encoded;
        receipt = receipt;
      }
        ∷ [];
})

unfoldable pub commit_handoff : Env → ℕ → Text → Handoff → Action Receipt
unfolding require_input require_active insert_successors seal finish_parent
commit_handoff env item_id token manifest = do
  require_input env item_id manifest
  require_active env 0 item_id token
  children ← insert_successors env 1 item_id manifest.successors
  let receipt = receipt_of item_id manifest children
  seal item_id token manifest receipt
  finish_parent env (suc (length manifest.successors)) item_id token
  pure receipt

unfoldable pub or_commit : Env → ℕ → Text → Handoff → Option Receipt → Action Receipt
unfolding commit_handoff
or_commit env item_id token manifest (some receipt) = pure receipt
or_commit env item_id token manifest none = commit_handoff env item_id token manifest

unfoldable pub settle : Env → ℕ → Text → Handoff → Action Receipt
unfolding sealed_receipt or_commit
settle env item_id token manifest = do
  existing ← sealed_receipt item_id token manifest
  or_commit env item_id token manifest existing

-- The largest SQLite integer is 2 ^ 63 - 1.
unfoldable pub require_item_id : ℕ → Result (Unit {0})
require_item_id item_id =
    if leb 1 item_id && leb item_id 9223372036854775807 then ok tt else err queue_error

unfoldable pub complete : ℕ → Text → Value → Env → Action Receipt
unfolding require_item_id check_text parse_handoff settle
complete item_id claim_token manifest env = do
  lift (require_item_id item_id)
  token ← lift (check_text claim_token 256)
  parsed ← lift (parse_handoff env.sha256 manifest)
  open_connection
  or_rollback true (settle env item_id token parsed)

abbrev receipt_in : Option HandoffRow → Option Receipt
receipt_in none = none
receipt_in (some row) = some row.receipt

unfoldable pub get_receipt : ℕ → Action (Option Receipt)
unfolding require_item_id
get_receipt item_id = do
  lift (require_item_id item_id)
  open_connection
  row ← gets (λ db. find_receipt item_id db.receipts)
  pure (receipt_in row)
