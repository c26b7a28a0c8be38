-- ===== src/Handoff/Completion.antt =====
-- What a call of `complete` that returns a new receipt has found, and what it leaves.
use laneq.Common.{
  ℕ, suc, ◌≡◌, ◌≢◌, refl, ap, sym, ◌∙◌, List, [], ◌∷◌, ◌++◌, true, ◌&&◌, none, some, ok, arith,
  ◌==◌,
}
use laneq.Common.Lists.{length}
use laneq.Text.{Text}
use laneq.Clock.{Env, utc_now}
use laneq.Sql.{update, count}
use laneq.Database.{Receipt, Directive, HandoffRow, Db, find}
use laneq.Database.Rows.{Ascends, id_of_find, find-update}
use laneq.Action.{pure, ◌>>=◌}
use laneq.Action.Returns.{>>=-eq-ok}
use laneq.Core.Guard.{fenced, admits}
use laneq.Core.Sweep.{count-rowcount}
use laneq.Core.Ownership.{HoldsClaim}
use laneq.Contract.{Handoff}
use laneq.Handoff.{
  find_receipt, is_input, check_input, require_input, require_active, insert_successors,
  with_finish, finish_parent, receipt_of, seal, commit_handoff,
}
use laneq.Handoff.Publishing.{
  Ready, insert_successors-Ready, AllAdmitted, AllAdmitted-same, insert_successors-AllAdmitted,
}

-- The row of `handoff_receipts` that a completion writes.
abbrev pub sealed_row : ℕ → Text → Handoff → Receipt → HandoffRow
sealed_row i token m rc = record {
  directive_id = i;
  claim_token = token;
  manifest_digest = m.digest;
  manifest_json = m.encoded;
  receipt = rc;
}

pub check_input-is_input :
    (env : Env) (m : Handoff) (r : Directive)
    → check_input env m (some r) ≡ ok tt
    → is_input env m r ≡ true
unfolding check_input
check_input-is_input env m r h = ground arith

pub check_input-none : (env : Env) (m : Handoff) → check_input env m none ≢ ok tt
unfolding check_input
check_input-none env m h = cc

find_receipt-append :
    (i : ℕ) (rows : List HandoffRow) (row : HandoffRow)
    → find_receipt i rows ≡ none
    → row.directive_id ≡ i
    → find_receipt i (rows ++ row ∷ []) ≡ some row
find_receipt-append i [] row h e = ground arith
find_receipt-append i (x ∷ xs) row h e = ground (arith, find_receipt-append i xs row)

module _ (env : Env) (i : ℕ) (token : Text) (m : Handoff) (db : Db) where
  -- The database after the successors have been admitted.
  abbrev pub published : Db
  published = (insert_successors env 1 i m.successors db).1

  abbrev last : ℕ
  last = suc (length m.successors)

  abbrev pub finished_db : Receipt → Db
  finished_db rc = record published {
    receipts = published.receipts ++ sealed_row i token m rc ∷ [];
    directives =
        update (λ r. r.id == i && admits (fenced token) (utc_now env (suc last)) r)
          (with_finish (utc_now env last)) published.directives;
  }

  pub record Commits (rc : Receipt) (after : Db) : Type 0 where
    pub input_ok : check_input env m (find i db.directives) ≡ ok tt
    pub children : List ℕ
    pub inserted : (insert_successors env 1 i m.successors db).0 ≡ ok children
    pub counted :
        count
          (λ r. r.id == i && admits (fenced token) (utc_now env (suc last)) r)
          published.directives
        ≡ 1
    pub same_receipt : rc ≡ receipt_of i m children
    pub same_db : after ≡ finished_db rc

  pub commit_handoff-Commits :
      {rc : Receipt}
      → (commit_handoff env i token m db).0 ≡ ok rc
      → Commits rc (commit_handoff env i token m db).1
  unfolding commit_handoff require_input require_active seal finish_parent ◌>>=◌
  commit_handoff-Commits {rc} h =
      let (u1, e1, h1, s1) = >>=-eq-ok (require_input env i m) _ db h in
      let (u2, e2, h2, s2) = >>=-eq-ok (require_active env 0 i token) _ db h1 in
      let (children, e3, h3, s3) = >>=-eq-ok (insert_successors env 1 i m.successors) _ db h2 in
      let stored = record published {
        receipts = published.receipts ++ sealed_row i token m (receipt_of i m children) ∷ [];
      } in
      let (u5, e5, h5, s5) =
        >>=-eq-ok (finish_parent env last i token) (λ u. pure (receipt_of i m children)) stored
          h3 in
      let same : receipt_of i m children ≡ rc = cc (h5) in
      let one : count (λ r. r.id == i && admits (fenced token) (utc_now env (suc last)) r)
            published.directives
          ≡ 1 =
        ground (arith, e5) in
      record {
        input_ok = e1;
        children = children;
        inserted = e3;
        counted = one;
        same_receipt = sym same;
        same_db = s1 ∙ s2 ∙ s3 ∙ s5 ∙ ap finished_db same;
      }

  pub all_admitted :
      {rc : Receipt} {after : Db}
      → Commits rc after
      → AllAdmitted env m.successors rc.successor_ids after
  all_admitted {after} c = rw c.same_receipt (
      AllAdmitted-same env published after m.successors c.children
        (ap (λ d. d.admissions) c.same_db)
        (insert_successors-AllAdmitted env 1 i m.successors db c.inserted))

  module _ (ascending : Ascends 1 db.directives db.next_id)
      (fresh : find_receipt i db.receipts ≡ none) {rc : Receipt} {after : Db} (c : Commits rc after)
      (r : Directive) (f : find i db.directives ≡ some r) where
    ready : Ready i r db.receipts published
    ready =
        (insert_successors-Ready i r db.receipts env 1 i m.successors).at db
          (record { found = f; same_receipts = refl; ascending = ascending })

    admitted : admits (fenced token) (utc_now env (suc last)) r ≡ true
    admitted =
        let n =
          count-rowcount (admits (fenced token) (utc_now env (suc last))) 1 published.next_id i
            published.directives ready.ascending in
        ground (arith, n, c.counted, ready.found)

    pub held : HoldsClaim r token (utc_now env (suc last))
    held = ground (arith, admitted)

    pub finished : find i after.directives ≡ some (with_finish (utc_now env last) r)
    finished =
        ap (λ d. find i d.directives) c.same_db
        ∙ find-update _ (with_finish (utc_now env last)) (λ x. refl) i published.directives
        ∙ rw ready.found (ground (arith, admitted, id_of_find i db.directives f))

    pub sealed_there : find_receipt i after.receipts ≡ some (sealed_row i token m rc)
    sealed_there =
        ap (λ d. find_receipt i d.receipts) c.same_db
        ∙ find_receipt-append i published.receipts (sealed_row i token m rc)
            (rw ready.same_receipts fresh) refl
