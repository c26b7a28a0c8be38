-- ===== src/Core/Survival.antt =====
-- A claim outlives what other workers do: while its lease runs, only its owner, an override or a
-- reaping by age can write to the directive.
use laneq.Common.{
  ℕ, ◌≡◌, ◌≢◌, refl, ap, sym, ◌∙◌, false, List, [], ◌∷◌, some, arith, Bool-cases, inl, inr,
}
use laneq.Text.{Text, text_eq, text_leb}
use laneq.Text.Order.{eq_of_text_eq}
use laneq.Clock.{Env, utc_now}
use laneq.Sql.Order.{Every}
use laneq.Database.{taken, Directive, Db, find}
use laneq.Core.Guard.{fenced, admits}
use laneq.Core.Calls.{Call, perform, is_forced, token_of, reaps_stale, history}
use laneq.Core.Invariant.{IsWell}
use laneq.Core.Sparing.{Spares, IsSame, IsSame-trans}
use laneq.Core.Histories.{perform-Spared}

-- The row is taken under the token, until that time.
pub record IsClaimed (token until : Text) (r : Directive) : Type 0 where
  pub is_taken : r.status ≡ taken
  pub same_token : r.claim_token ≡ some token
  pub ends : r.lease_until ≡ some until

-- A call of another worker, before that time: it has not the token, asks for no override, reaps no
-- stale claims, and its clock never reaches that time.
pub record IsOther (token until : Text) (c : Env × Call) : Type 0 where
  pub no_override : is_forced c.1 ≡ false
  pub other_token : token_of c.1 ≢ some token
  pub no_reaping : reaps_stale c.1 ≡ false
  pub earlier : (j : ℕ) → text_leb until (utc_now c.0 j) ≡ false

other_fence :
    (token t now : Text) (r : Directive)
    → t ≢ token
    → r.claim_token ≡ some token
    → admits (fenced t) now r ≡ false
other_fence token t now r ne e = elim (Bool-cases (text_eq token t)) [
  | inl h ↦ absurd (ne (sym (eq_of_text_eq token t h)))
  | inr h ↦ rw e (ground arith)
]

pub IsSame-IsClaimed :
    {token until : Text} (r r' : Directive)
    → IsSame r r'
    → IsClaimed token until r
    → IsClaimed token until r'
IsSame-IsClaimed r r' same c = record {
  is_taken = ap (λ x. x.status) same ∙ c.is_taken;
  same_token = ap (λ x. x.claim_token) same ∙ c.same_token;
  ends = ap (λ x. x.lease_until) same ∙ c.ends;
}

claim-Spares :
    (token until : Text) (env : Env) (call : Call)
    → IsOther token until (env, call)
    → Spares (IsClaimed token until) env (λ t. token_of call ≡ some t) (reaps_stale call)
claim-Spares token until env call o = record {
  not_pending = λ r c. ground (arith, c.is_taken);
  not_deferred = λ r c. ground (arith, c.is_taken);
  not_parked = λ r c. ground (arith, c.is_taken);
  not_expired = λ j r c. rw (c.is_taken, c.ends, o.earlier j) refl;
  not_admitted = λ t now r given c.
      other_fence token t now r (λ same. o.other_token (given ∙ ap some same)) c.same_token;
  not_reaped = λ r a c. cc (a, o.no_reaping);
  still = IsSame-IsClaimed;
}

-- On tables in order, whatever calls of the queue operations, from `push` to `reap`, other workers
-- make while a lease runs, the claimed directive stays in the table, and its row is the same but
-- for its lane and its priority: none of the calls has the claim's token, asks for the override, or
-- reaps stale claims, and the time that each reads is before the lease ends.
pub history-IsSame :
    (calls : List (Env × Call)) (db : Db) (i : ℕ) (r : Directive) (token until : Text)
    → IsWell db
    → find i db.directives ≡ some r
    → IsClaimed token until r
    → Every (IsOther token until) calls
    → (r' : Directive) × (find i (history calls db).directives ≡ some r') × IsSame r r'
unfolding history
history-IsSame [] db i r token until w e c o = (r, e, refl)
history-IsSame ((env, call) ∷ calls) db i r token until w e c o =
    let spares = claim-Spares token until env call o.0 in
    let spared = perform-Spared call env db spares w o.0.no_override in
    let (r', e', same) = spared.row i r e c in
    let (r'', e'', same') =
      history-IsSame calls (perform call env db) i r' token until spared.well e'
        (spares.still r r' same c) o.1 in
    (r'', e'', IsSame-trans r r' r'' same same')
