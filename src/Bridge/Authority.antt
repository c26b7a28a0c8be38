-- ===== src/Bridge/Authority.antt =====
-- What the owner of a lane can complete.
use laneq.Common.{
  ◌≡◌, ℕ, List, refl, true, not, Option, none, some, ok, arith, Result-cases, Option-cases,
  Bool-cases, inl, inr, precondition,
}
use laneq.Text.{Text, text_eq}
use laneq.Text.Order.{eq_of_text_eq}
use laneq.Clock.{Env}
use laneq.Sql.{first}
use laneq.Database.{Directive, Receipt, Admission, Db, find, connect}
use laneq.Action.{raise_if, ◌>>=◌}
use laneq.Action.Returns.{>>=-eq-ok}
use laneq.Contract.{Value, Handoff, parse_handoff}
use laneq.Handoff.{find_receipt, sealed, sealed_receipt, commit_handoff}
use laneq.Bridge.{
  Owner, is_own, joined, lookup, all_authorized, commit_authorized, settle_own, complete,
}

joined-ok :
    (env : Env) (o : Option Admission) (rows : List Directive) {row : Admission × Directive}
    → joined env o rows ≡ ok row
    → (o ≡ some row.0)
      × (find row.0.directive_id rows ≡ some row.1)
      × (env.sha256 row.1.body ≡ row.0.body_digest)
joined-ok env none rows h = cc
joined-ok env (some a) rows {row} h = elim (Option-cases (find a.directive_id rows)) [
  | inl e ↦ cc (rw (joined, e) at h)
  | inr (d, e) ↦ elim (Bool-cases (text_eq (env.sha256 d.body) a.body_digest)) [
    | inr f ↦ cc (rw (joined, e, f) at h)
    | inl f ↦
        let same : (a, d) ≡ row = cc (rw (joined, e, f) at h) in
        rw (← same) (refl, e, eq_of_text_eq (env.sha256 d.body) a.body_digest f)
  ]
]

module _ (task_id token : Text) (owner : Owner) (env : Env) where
  -- The task is admitted in the lane of the owner with a body of the admitted digest, and the
  -- successors of a manifest that is sealed anew are all for lanes that the owner may publish to.
  pub record IsAuthorized (m : Handoff) (db : Db) : Type 0 where
    pub row : Admission × Directive
    pub is_first : first (is_own task_id owner db.directives) db.admissions ≡ some row.0
    pub is_there : find row.0.directive_id db.directives ≡ some row.1
    pub same_body : env.sha256 row.1.body ≡ row.0.body_digest
    pub lanes :
        find_receipt row.1.id db.receipts ≡ none
        → all_authorized owner.successor_lanes m.successors ≡ true

  fresh_lanes :
      (i : ℕ) (m : Handoff) (db : Db) {rc : Receipt} (found : Option Receipt)
      → (sealed_receipt i token m db).0 ≡ ok found
      → (commit_authorized env owner i token m found db).0 ≡ ok rc
      → find_receipt i db.receipts ≡ none
      → all_authorized owner.successor_lanes m.successors ≡ true
  unfolding sealed_receipt sealed commit_authorized ◌>>=◌
  fresh_lanes i m db (some r) e h f = cc (rw f at e)
  fresh_lanes i m db none e h f =
      let allowed = all_authorized owner.successor_lanes m.successors in
      let (u, k, h1, s) =
        >>=-eq-ok (raise_if (not allowed) precondition) (λ u. commit_handoff env i token m) db h in
      ground (arith, k)

  settle_own-IsAuthorized :
      (m : Handoff) (db : Db) {rc : Receipt}
      → (settle_own env task_id token m owner db).0 ≡ ok rc
      → IsAuthorized m db
  unfolding settle_own lookup sealed_receipt ◌>>=◌
  settle_own-IsAuthorized m db h =
      let (row, e, h1, s1) = >>=-eq-ok (lookup env task_id owner) _ db h in
      let (found, k, h2, s2) = >>=-eq-ok (sealed_receipt row.1.id token m) _ db h1 in
      let facts =
        joined-ok env (first (is_own task_id owner db.directives) db.admissions) db.directives e in
      record {
        row = row;
        is_first = facts.0;
        is_there = facts.1;
        same_body = facts.2;
        lanes = λ f. fresh_lanes row.1.id m db found k h2 f;
      }

  -- A lane's owner completes its own tasks only: if `complete` of the bridge returns, the task is
  -- admitted in the lane of the owner, its body has the admitted digest, and the successors that are
  -- published are for lanes that the owner may publish to.
  pub complete_own :
      (value : Value) (db : Db) {rc : Receipt}
      → (complete task_id token value owner env db).0 ≡ ok rc
      → (m : Handoff) × (parse_handoff env.sha256 value ≡ ok m) × IsAuthorized m (connect db)
  unfolding complete ◌>>=◌
  complete_own value db {rc} h = elim (Result-cases (parse_handoff env.sha256 value)) [
    | inr (x, p) ↦ cc (rw p at h)
    | inl (m, p) ↦ let k = rw p at h in (m, p, settle_own-IsAuthorized m (connect db) k)
  ]
