-- ===== src/Server/Enums.antt =====
-- The maps between enums and texts are inverse to each other, and a call over gRPC is the call of
-- core.py.
use laneq.Common.{
  ℕ, zero, suc, ◌≤◌, ◌≡◌, refl, fun_ext, ap, ◌∙◌, subst, Bool, true, Result, ok, err, arith,
  ℕ_discrete,
}
use laneq.Text.{Text, codes, Text-discrete}
use laneq.Clock.{Env}
use laneq.Database.{Status, pending, taken, deferred, done, dropped, parked, Db}
use laneq.Action.{Action, continue, lift, pure, ◌>>=◌}
use laneq.Core.Guard.{priority_name}
use laneq.Core.Settle.{set_status}
use laneq.Ints.{str_of}
use laneq.Ints.Decimal.{int_of-str_of}
use laneq.Reports.Stats.{status_name}
use laneq.Server.{
  priority_to_proto, priority_from_proto, status_to_proto, status_from_proto, Reply, replied,
  caught, handle,
}
use laneq.Server.Rpc.{as_id, id_of, text_or_none, SetStatusRequest, handle_set_status}

from_to : (s : Status) → status_from_proto (status_to_proto (status_name s)) ≡ s
unfolding status_from_proto status_to_proto Text-discrete ℕ_discrete
from_to pending = refl
from_to taken = refl
from_to deferred = refl
from_to done = refl
from_to dropped = refl
from_to parked = refl

to_from : (n : ℕ) → 1 ≤ n → n ≤ 6 → status_to_proto (status_name (status_from_proto n)) ≡ n
unfolding status_from_proto status_to_proto Text-discrete ℕ_discrete
to_from zero lo hi = absurd (omega arith)
to_from (suc zero) lo hi = refl
to_from (suc (suc zero)) lo hi = refl
to_from (suc (suc (suc zero))) lo hi = refl
to_from (suc (suc (suc (suc zero)))) lo hi = refl
to_from (suc (suc (suc (suc (suc zero))))) lo hi = refl
to_from (suc (suc (suc (suc (suc (suc zero)))))) lo hi = refl
to_from (suc (suc (suc (suc (suc (suc (suc n))))))) lo hi = absurd (omega arith)

no_name : (p : ℕ) (name : Text) → priority_name (suc (suc (suc p))) ≡ ok name → ⊥
unfolding priority_name
no_name p name h = ground (arith, h)

priority_from_to :
    (p : ℕ) (name : Text)
    → priority_name p ≡ ok name
    → (priority_from_proto (priority_to_proto name) ≡ name) × (priority_to_proto name ≡ suc p)
unfolding priority_name priority_from_proto priority_to_proto Text-discrete ℕ_discrete
priority_from_to zero name h =
    let same : codes "P0" ≡ name = cc (h) in
    subst (λ t. (priority_from_proto (priority_to_proto t) ≡ t) × (priority_to_proto t ≡ 1)) same
      (refl, refl)
priority_from_to (suc zero) name h =
    let same : codes "P1" ≡ name = cc (h) in
    subst (λ t. (priority_from_proto (priority_to_proto t) ≡ t) × (priority_to_proto t ≡ 2)) same
      (refl, refl)
priority_from_to (suc (suc zero)) name h =
    let same : codes "P2" ≡ name = cc (h) in
    subst (λ t. (priority_from_proto (priority_to_proto t) ≡ t) × (priority_to_proto t ≡ 3)) same
      (refl, refl)
priority_from_to (suc (suc (suc p))) name h = absurd (no_name p name h)

-- The enum of each status stands for that status, the numbers 1 to 6 for one status each, and the
-- enum of each priority of a row for that priority, one more than its number in the table.
pub enums-IsInverse :
    ((s : Status) → status_from_proto (status_to_proto (status_name s)) ≡ s)
    × ((n : ℕ) → 1 ≤ n → n ≤ 6 → status_to_proto (status_name (status_from_proto n)) ≡ n)
    × ((p : ℕ) (name : Text)
        → priority_name p ≡ ok name
        → (priority_from_proto (priority_to_proto name) ≡ name) × (priority_to_proto name ≡ suc p))
enums-IsInverse = (from_to, to_from, priority_from_to)

id_of-str_of : (n : ℕ) → id_of (str_of n) ≡ ok n
unfolding id_of
id_of-str_of n = ap as_id (int_of-str_of n)

abbrev pub request_of : ℕ → Status → Text → Bool → SetStatusRequest
request_of n s token force = record {
  id = str_of n;
  status = status_to_proto (status_name s);
  claim_token = token;
  force = force;
}

-- What a caller sees of the result of an operation.
abbrev pub reply_of : {A B : Type 0} → Bool → (A → B) → Result A → Reply B
reply_of values f (ok a) = replied (f a)
reply_of values f (err e) = caught values (err e)

caught-pure :
    {A B : Type 0} (values : Bool) (f : A → B) (r : Result A) (d : Db)
    → (caught values (continue r (λ a. pure (f a)) d).0 ≡ reply_of values f r)
      × ((continue r (λ a. pure (f a)) d).1 ≡ d)
unfolding pure
caught-pure values f (ok a) d = (refl, refl)
caught-pure values f (err e) d = (refl, refl)

handle-pure :
    {A B : Type 0} (values : Bool) (f : A → B) (m : Action A) (db : Db)
    → ((handle values (m >>= λ a. pure (f a)) db).0 ≡ reply_of values f (m db).0)
      × ((handle values (m >>= λ a. pure (f a)) db).1 ≡ (m db).1)
unfolding handle ◌>>=◌
handle-pure values f m db = caught-pure values f (m db).0 (m db).1

bind-lift-ok :
    {A B : Type 0} (r : Result A) (k : A → Action B) {a : A} (db : Db)
    → r ≡ ok a
    → (lift r >>= k) db ≡ k a db
unfolding ◌>>=◌
bind-lift-ok r k db h = rw h refl

handle_set_status-run :
    (n : ℕ) (s : Status) (token : Text) (force : Bool) (env : Env)
    → handle_set_status (request_of n s token force) env ≡ (
        set_status n s (text_or_none token) force env >>= λ x.
        pure (str_of x.0, status_to_proto (status_name s)))
unfolding handle_set_status
handle_set_status-run n s token force env =
    let number = status_to_proto (status_name s) in
    fun_ext (λ db.
      bind-lift-ok (id_of (str_of n))
        (λ item_id.
          set_status item_id (status_from_proto number) (text_or_none token) force env >>= λ x.
          pure (str_of x.0, number))
        db (id_of-str_of n)
      ∙ ap
          (λ t.
            (set_status n t (text_or_none token) force env >>= λ x. pure (str_of x.0, number)) db)
          (from_to s))

-- `SetStatus` with the id, the enum and the token of a call is that call of `set_status`: the
-- database becomes the same, and the caller sees its result, or the status code of its exception.
pub handle_set_status-set_status :
    (n : ℕ) (s : Status) (token : Text) (force : Bool) (env : Env) (db : Db)
    → ((handle true (handle_set_status (request_of n s token force) env) db).0
        ≡ reply_of true
            (λ x. (str_of x.0, status_to_proto (status_name s)))
            (set_status n s (text_or_none token) force env db).0)
      × ((handle true (handle_set_status (request_of n s token force) env) db).1
          ≡ (set_status n s (text_or_none token) force env db).1)
handle_set_status-set_status n s token force env db =
    let run = handle_set_status-run n s token force env in
    let seen =
      handle-pure true (λ x. (str_of x.0, status_to_proto (status_name s)))
        (set_status n s (text_or_none token) force env) db in
    (ap (λ m. (handle true m db).0) run ∙ seen.0, ap (λ m. (handle true m db).1) run ∙ seen.1)
