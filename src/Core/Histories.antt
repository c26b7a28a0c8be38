-- ===== src/Core/Histories.antt =====
-- What holds after any calls of core.py, in any order, failing ones included.
use laneq.Common.{ℕ, ◌≡◌, refl, ap, ◌∙◌, Bool, true, false, List, [], ◌∷◌, some, arith}
use laneq.Text.{Text}
use laneq.Clock.{Env}
use laneq.Sql.Order.{Every}
use laneq.Database.{is_terminal, Directive, Db, find}
use laneq.Core.Calls.{Call, perform, is_forced, token_of, reaps_stale, history, new_db}
use laneq.Core.Invariant.{IsWell}
use laneq.Core.Invariant.Kept
use laneq.Core.Sparing.{Spares, Spared, Spared-refl}
use laneq.Core.Sparing.Calls as Each

-- Every call keeps the tables in order, whether it returns or raises.
pub perform-IsWell : (call : Call) (env : Env) (db : Db) → IsWell db → IsWell (perform call env db)
unfolding perform
perform-IsWell (Call.push body priority parent lane policy) env db w =
    (Kept.push-IsWell body priority parent lane policy env).at db w
perform-IsWell (Call.reprioritize i priority) env db w =
    (Kept.reprioritize-IsWell i priority).at db w
perform-IsWell (Call.take consumer lease lane policy stale) env db w =
    (Kept.take-IsWell consumer lease lane policy stale env).at db w
perform-IsWell (Call.peek lane policy) env db w = (Kept.peek-IsWell lane policy env).at db w
perform-IsWell (Call.touch i lease token force) env db w =
    (Kept.touch-IsWell i lease token force env).at db w
perform-IsWell (Call.set_status i s token force) env db w =
    (Kept.set_status-IsWell i s token force env).at db w
perform-IsWell (Call.defer i until delay blocked_by token force) env db w =
    (Kept.defer-IsWell i until delay blocked_by token force env).at db w
perform-IsWell (Call.park i token force) env db w = (Kept.park-IsWell i token force env).at db w
perform-IsWell (Call.unpark i) env db w = (Kept.unpark-IsWell i).at db w
perform-IsWell (Call.reap mode n) env db w = (Kept.reap-IsWell mode n env).at db w

pub history_from-IsWell :
    (calls : List (Env × Call)) (db : Db) → IsWell db → IsWell (history calls db)
unfolding history
history_from-IsWell [] db w = w
history_from-IsWell ((env, call) ∷ calls) db w =
    history_from-IsWell calls (perform call env db) (perform-IsWell call env db w)

-- From a new database, any calls at all, failing ones included, lead to tables in order.
pub history-IsWell : (calls : List (Env × Call)) → IsWell (history calls new_db)
history-IsWell calls =
    history_from-IsWell calls new_db (record { ascending = omega arith; sound = tt })

-- A call that asks for no override spares the rows that it may not write to.
pub perform-Spared :
    {G : Directive → Type 0} (call : Call) (env : Env) (db : Db)
    → Spares G env (λ t. token_of call ≡ some t) (reaps_stale call)
    → IsWell db
    → is_forced call ≡ false
    → Spared G db (perform call env db)
unfolding perform
perform-Spared (Call.push body priority parent lane policy) env db a w u =
    (Each.push-Spared a db body priority parent lane policy).at db (Spared-refl w)
perform-Spared (Call.reprioritize i priority) env db a w u =
    (Each.reprioritize-Spared a db i priority).at db (Spared-refl w)
perform-Spared (Call.take consumer lease lane policy stale) env db a w u =
    (Each.take-Spared a db consumer lease lane policy stale (λ h. h)).at db (Spared-refl w)
perform-Spared (Call.peek lane policy) env db a w u =
    (Each.peek-Spared a db lane policy).at db (Spared-refl w)
perform-Spared (Call.touch i lease token force) env db a w u =
    rw u ((Each.touch-Spared a db i token (λ t e. e) lease).at db (Spared-refl w))
perform-Spared (Call.set_status i s token force) env db a w u =
    rw u ((Each.set_status-Spared a db i token (λ t e. e) s).at db (Spared-refl w))
perform-Spared (Call.defer i until delay blocked_by token force) env db a w u =
    rw u ((Each.defer-Spared a db i token (λ t e. e) until delay blocked_by).at db (Spared-refl w))
perform-Spared (Call.park i token force) env db a w u =
    rw u ((Each.park-Spared a db i token (λ t e. e)).at db (Spared-refl w))
perform-Spared (Call.unpark i) env db a w u = (Each.unpark-Spared a db i).at db (Spared-refl w)
perform-Spared (Call.reap mode n) env db a w u =
    (Each.reap-Spared a db mode n (λ h. rw h refl)).at db (Spared-refl w)

-- No call may write to a row that is done or dropped.
terminal-Spares :
    (env : Env) (fences : Text → Type 0) (reaps : Bool)
    → Spares (λ r. is_terminal r.status ≡ true) env fences reaps
terminal-Spares env fences reaps = record {
  not_pending = λ r t. ground arith;
  not_deferred = λ r t. ground arith;
  not_parked = λ r t. ground arith;
  not_expired = λ j r t. ground arith;
  not_admitted = λ token now r f t. ground arith;
  not_reaped = λ r a t. ground arith;
  still = λ r r' same t. rw (ap (λ x. x.status) same) t;
}

-- A directive that is done or dropped stays so, and stays in the table, through any calls that ask
-- for no override.
pub terminal_absorbs :
    (calls : List (Env × Call)) (db : Db) (k : ℕ) (r : Directive)
    → IsWell db
    → Every (λ c. is_forced c.1 ≡ false) calls
    → find k db.directives ≡ some r
    → is_terminal r.status ≡ true
    → (r' : Directive) × (find k (history calls db).directives ≡ some r') × (r'.status ≡ r.status)
unfolding history
terminal_absorbs [] db k r w u e t = (r, e, refl)
terminal_absorbs ((env, call) ∷ calls) db k r w u e t =
    let spared = perform-Spared call env db (terminal-Spares env _ _) w u.0 in
    let (r', e', kept) = spared.row k r e t in
    let same : r'.status ≡ r.status = ap (λ x. x.status) kept in
    let (r'', e'', same') =
      terminal_absorbs calls (perform call env db) k r' spared.well u.1 e' (rw same t) in
    (r'', e'', same' ∙ same)
