-- ===== src/Handoff/Publishing.antt =====
-- The successors of a handoff: their admission leaves every row that exists, and every receipt, as
-- it was, and each of them is then admitted.
use laneq.Common.{ℕ, suc, ◌≡◌, refl, subst, ◌∙◌, List, [], ◌∷◌, Option, none, some, ok}
use laneq.Clock.{Env}
use laneq.Database.{Directive, HandoffRow, Admission, Db, find}
use laneq.Database.Rows.{Ascends, Ascends-append, find-append}
use laneq.Action.{pure, modify, insert_directive}
use laneq.Action.Keeps.{Keeps, Keeps-bind, keeps_rules}
use laneq.Contract.Json.{Successor}
use laneq.Action.Returns.{>>=-eq-ok}
use laneq.Stage.Identity.{IsAdmitted, admission-IsAdmitted, admission-Keeps}
use laneq.Stage.{insert_stage, admit_found, admit_in_transaction}
use laneq.Handoff.{insert_successors}

-- The row `r` is there under its id, the receipts are these, and the ids ascend.
pub record Ready (i : ℕ) (r : Directive) (receipts : List HandoffRow) (db : Db) : Type 0 where
  pub found : find i db.directives ≡ some r
  pub same_receipts : db.receipts ≡ receipts
  pub ascending : Ascends 1 db.directives db.next_id

module _ (i : ℕ) (r : Directive) (receipts : List HandoffRow) where
  insert_directive-Ready :
      (make : ℕ → Directive)
      → ((n : ℕ) → (make n).id ≡ n)
      → Keeps (Ready i r receipts) (insert_directive make)
  unfolding insert_directive
  insert_directive-Ready make same = record {
    at = λ db h. record {
      found = find-append i db.directives (make db.next_id) ∙ rw h.found refl;
      same_receipts = h.same_receipts;
      ascending =
          Ascends-append 1 db.next_id db.directives (make db.next_id) h.ascending (same db.next_id);
    };
  }

  insert_stage-Ready :
      (env : Env) (k : ℕ) (task : Successor) (value : ℕ) (parent : Option ℕ)
      → Keeps (Ready i r receipts) (insert_stage env k task value parent)
  unfolding insert_stage modify
  insert_stage-Ready env k task value parent =
      Keeps-bind _ _ (insert_directive-Ready _ (λ n. refl)) (λ item_id.
        Keeps-bind _ _
          (record {
            at = λ db h. record {
              found = h.found;
              same_receipts = h.same_receipts;
              ascending = h.ascending;
            };
          })
          (λ u. search keeps_rules))

  admit_found-Ready :
      (env : Env) (k : ℕ) (task : Successor) (value : ℕ) (parent : Option ℕ) (o : Option Admission)
      → Keeps (Ready i r receipts) (admit_found env k task value parent o)
  unfolding admit_found
  admit_found-Ready env k task value parent none = insert_stage-Ready env k task value parent
  admit_found-Ready env k task value parent (some a) = search keeps_rules depth 20

  pub admit_in_transaction-Ready :
      (env : Env) (k : ℕ) (task : Successor) (parent : Option ℕ)
      → Keeps (Ready i r receipts) (admit_in_transaction env k task parent)
  unfolding admit_in_transaction
  admit_in_transaction-Ready env k task parent = search (keeps_rules, admit_found-Ready) depth 20

  pub insert_successors-Ready :
      (env : Env) (k item_id : ℕ) (ss : List Successor)
      → Keeps (Ready i r receipts) (insert_successors env k item_id ss)
  unfolding insert_successors
  insert_successors-Ready env k item_id [] = search keeps_rules
  insert_successors-Ready env k item_id (s ∷ ss) =
      Keeps-bind _ _ (admit_in_transaction-Ready env k s (some item_id)) (λ c.
        Keeps-bind _ _ (insert_successors-Ready env (suc k) item_id ss) (λ cs. search keeps_rules))

-- Each task is admitted, as the directive with the id beside it.
abbrev pub AllAdmitted : Env → List Successor → List ℕ → Db → Type 0
AllAdmitted env [] [] db = Unit
AllAdmitted env (s ∷ ss) (n ∷ ns) db = IsAdmitted env s n db × AllAdmitted env ss ns db
AllAdmitted env _ _ db = ⊥

module _ (env : Env) where
  successors-Keeps :
      (s : Successor) (n k item_id : ℕ) (ss : List Successor)
      → Keeps (IsAdmitted env s n) (insert_successors env k item_id ss)
  unfolding insert_successors
  successors-Keeps s n k item_id [] = search keeps_rules
  successors-Keeps s n k item_id (t ∷ ts) =
      Keeps-bind _ _ (admission-Keeps env s n k t (some item_id))
        (λ c. Keeps-bind _ _ (successors-Keeps s n (suc k) item_id ts) (λ cs. search keeps_rules))

  pub insert_successors-AllAdmitted :
      (k item_id : ℕ) (ss : List Successor) (db : Db) {ns : List ℕ}
      → (insert_successors env k item_id ss db).0 ≡ ok ns
      → AllAdmitted env ss ns (insert_successors env k item_id ss db).1
  unfolding insert_successors pure
  insert_successors-AllAdmitted k item_id [] db {ns} h =
      let same : [] ≡ ns = cc (h) in subst (λ xs. AllAdmitted env [] xs db) same tt
  insert_successors-AllAdmitted k item_id (s ∷ ss) db {ns} h =
      let (c, e, h1, s1) = >>=-eq-ok (admit_in_transaction env k s (some item_id)) _ db h in
      let mid = (admit_in_transaction env k s (some item_id) db).1 in
      let (cs, e', h2, s2) = >>=-eq-ok (insert_successors env (suc k) item_id ss) _ mid h1 in
      let after = (insert_successors env (suc k) item_id ss mid).1 in
      let here : IsAdmitted env s c after =
        (successors-Keeps s c (suc k) item_id ss).at mid
          (admission-IsAdmitted env k s (some item_id) db e) in
      let same : c ∷ cs ≡ ns = cc (h2) in
      rw (s1, s2, ← same) (here, insert_successors-AllAdmitted (suc k) item_id ss mid e')

-- It is a statement about the admissions alone.
pub AllAdmitted-same :
    (env : Env) (db after : Db) (ss : List Successor) (ns : List ℕ)
    → after.admissions ≡ db.admissions
    → AllAdmitted env ss ns db
    → AllAdmitted env ss ns after
AllAdmitted-same env db after [] [] same h = tt
AllAdmitted-same env db after (s ∷ ss) (n ∷ ns) same h = (
  record {
    value = h.0.value;
    priced = h.0.priced;
    admission = h.0.admission;
    there = rw same h.0.there;
    same_id = h.0.same_id;
    same_task = h.0.same_task;
  },
  AllAdmitted-same env db after ss ns same h.1,
)
AllAdmitted-same env db after [] (n ∷ ns) same h = absurd h
AllAdmitted-same env db after (s ∷ ss) [] same h = absurd h
