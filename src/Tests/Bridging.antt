-- ===== src/Tests/Bridging.antt =====
-- Runs of the bridge, and an instance of the theorem about its completions.
use laneq.Common.{◌≡◌, refl, [], ◌∷◌, some, ok, err, precondition, ℕ_discrete}
use laneq.Text.{Text, codes, Text-discrete, text_leb}
use laneq.Clock.{utc_now, strftime}
use laneq.Database.{Admission, Db, connect}
use laneq.Action.{◌>>=◌}
use laneq.Contract.{Value, Handoff, parse_handoff, text, dict, field, end}
use laneq.Bridge.{Owner, snapped, complete, operate}
use laneq.Bridge.Authority.{IsAuthorized, complete_own}
use laneq.Tests.Handoffs.{hash_env, digest_a, stage_db, manifest, receipt}

abbrev owner : Text → Owner
owner lane = record {
  lane = codes "dev";
  consumer = codes "bob";
  lease_seconds = 90;
  successor_lanes = lane ∷ [];
}

abbrev admission : Admission
admission = record {
  admission_key = codes "k0";
  directive_id = 1;
  body_digest = digest_a;
  lane = codes "dev";
  priority = 1;
}

abbrev admitted_db : Db
admitted_db = record stage_db { admissions = admission ∷ [] }

runs : Unit {0}
unfolding complete operate ◌>>=◌ connect utc_now strftime text_leb Text-discrete ℕ_discrete
    parse_handoff
runs = tt

completes :
    (complete
      (codes "k0")
      (codes "t5")
      (manifest (codes "r"))
      (owner (codes "dev"))
      (hash_env 0)
      admitted_db).0
    ≡ ok receipt
unfolding runs
completes = refl

-- The successor is for a lane that this owner may not publish to.
unauthorized :
    (complete
      (codes "k0")
      (codes "t5")
      (manifest (codes "r"))
      (owner (codes "ops"))
      (hash_env 0)
      admitted_db).0
    ≡ err precondition
unfolding runs
unauthorized = refl

abbrev inspection : Value
inspection = dict (
    field (codes "operation") (text (codes "inspect")) (
      field (codes "task_id") (text (codes "k0"))
        (field (codes "claim_token") (text (codes "t5")) end)))

inspects :
    (operate inspection (owner (codes "dev")) (hash_env 0) admitted_db).0
    ≡ ok (
        snapped (record {
          task_id = codes "k0";
          lane = codes "dev";
          claim_token = some (codes "t5");
          input_digest = digest_a;
          lease_until = some (codes "2026-06-20T00:10:00Z");
          body = codes "stage";
        }))
unfolding runs
inspects = refl

complete_own_example :
    (m : Handoff) × (parse_handoff ((hash_env 0).sha256) (manifest (codes "r")) ≡ ok m)
    × IsAuthorized
        (codes "k0")
        (codes "t5")
        (owner (codes "dev"))
        (hash_env 0)
        m
        (connect admitted_db)
complete_own_example =
    complete_own (codes "k0") (codes "t5") (owner (codes "dev")) (hash_env 0) (manifest (codes "r"))
      admitted_db completes
