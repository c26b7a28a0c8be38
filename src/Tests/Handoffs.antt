-- ===== src/Tests/Handoffs.antt =====
-- Runs of `admit` and `complete`, and instances of the theorems about them.
use laneq.Common.{
  ℕ, ◌≡◌, ◌≢◌, refl, [], ◌∷◌, none, some, ok, err, precondition, ℕ_discrete, ◌⊎◌, if◌then◌else◌,
  inl, arith, inr, Result,
}
use laneq.Text.{Text, codes, text_eq, first_line, Text-discrete, text_leb}
use laneq.Text.Order.{ne_of_text_eq}
use laneq.Clock.{Env, utc_now, strftime}
use laneq.Database.{pending, Db, Directive, Receipt, connect}
use laneq.Action.{◌>>=◌}
use laneq.Core.Invariant.{IsWell}
use laneq.Contract.{
  Value, text, list, nil, cons, dict, field, end, Handoff, parse_handoff, check_text,
  parse_successor,
}
use laneq.Contract.Json.{Successor, encode_manifest}
use laneq.Contract.Bounds.{IsAccepted, parse_handoff-IsAccepted}
use laneq.Handoff.{complete, get_receipt, require_item_id}
use laneq.Handoff.Sealing.{IsRequest, complete-err}
use laneq.Handoff.Replay.{
  Completed, complete_completes, complete-complete, complete-complete_conflict,
  complete-get_receipt,
}
use laneq.Stage.{admit, Admitted, successor_value, stage_priority}
use laneq.Stage.Repeats.{admit-admit, admit-admit_conflict}
use laneq.Tests.Samples.{env_at, queue, guarded}

abbrev pub digest_a : Text
digest_a = codes "aaaaaaaaaaaaaaaaaaaaaaaaaaaaaaaaaaaaaaaaaaaaaaaaaaaaaaaaaaaaaaaa"

abbrev pub digest_b : Text
digest_b = codes "bbbbbbbbbbbbbbbbbbbbbbbbbbbbbbbbbbbbbbbbbbbbbbbbbbbbbbbbbbbbbbbb"

-- Surroundings whose hash tells the body "stage" from all other texts.
abbrev pub hash_env : ℕ → Env
hash_env t = record (env_at t (codes "u")) {
  sha256 = λ s. if text_eq s (codes "stage") then digest_a else digest_b;
}

-- A protected directive whose lease runs.
abbrev staged : Directive
staged = record guarded { lease_until = some (codes "2026-06-20T00:10:00Z") }

abbrev pub stage_db : Db
stage_db = record queue { directives = record staged { id = 1 } ∷ []; next_id = 2 }

stage_db-IsWell : IsWell stage_db
stage_db-IsWell = ground arith

-- A manifest that names one successor.
abbrev pub manifest : Text → Value
manifest reference = dict (
    field (codes "input_digest") (text digest_a) (
      field (codes "artifact_digest") (text digest_b) (
        field (codes "receipt_ref") (text reference) (
          field (codes "receipt_digest") (text digest_b) (
            field (codes "successors")
              (list
                (cons (successor_value (codes "k1") (codes "next") (codes "dev") (codes "P1")) nil))
              end)))))

abbrev child : Successor
child = record {
  admission_key = codes "k1";
  body = codes "next";
  lane = codes "dev";
  priority = codes "P1";
}

-- Everything that a run of `complete` or `admit` computes with.
runs : Unit {0}
unfolding complete admit ◌>>=◌ connect utc_now strftime text_leb Text-discrete ℕ_discrete
    get_receipt first_line parse_handoff require_item_id check_text parse_successor stage_priority
runs = tt

abbrev pub receipt : Receipt
receipt = record {
  id = 1;
  input_digest = digest_a;
  artifact_digest = digest_b;
  receipt_ref = codes "r";
  receipt_digest = digest_b;
  manifest_digest = digest_b;
  successor_ids = 2 ∷ [];
}

completes : (complete 1 (codes "t5") (manifest (codes "r")) (hash_env 0) stage_db).0 ≡ ok receipt
unfolding runs
completes = refl

refused :
    (complete 1 (codes "t6") (manifest (codes "r")) (hash_env 0) stage_db).0 ≡ err precondition
unfolding runs
refused = refl

-- The manifest as it is parsed.
abbrev pub parsed_manifest : Handoff
parsed_manifest = record {
  input_digest = digest_a;
  artifact_digest = digest_b;
  receipt_ref = codes "r";
  receipt_digest = digest_b;
  successors = child ∷ [];
  encoded = encode_manifest digest_a digest_b digest_b (codes "r") (child ∷ []);
  digest = digest_b;
}

parses : parse_handoff ((hash_env 0).sha256) (manifest (codes "r")) ≡ ok parsed_manifest
unfolding runs
parses = refl

valid_id : require_item_id 1 ≡ ok tt
unfolding runs
valid_id = refl

other_token : check_text (codes "t6") 256 ≡ ok (codes "t6")
unfolding runs
other_token = refl

other-IsRequest : IsRequest 1 (codes "t6") (manifest (codes "r")) (hash_env 60) parsed_manifest
other-IsRequest = record { valid_id = valid_id; valid_token = other_token; parsed = parses }

t6_ne_t5 : codes "t6" ≢ codes "t5"
unfolding Text-discrete ℕ_discrete
t6_ne_t5 = ne_of_text_eq (codes "t6") (codes "t5") refl

abbrev after_completion : Db
after_completion = (complete 1 (codes "t5") (manifest (codes "r")) (hash_env 0) stage_db).1

parse_handoff-IsAccepted_example : IsAccepted ((hash_env 0).sha256) parsed_manifest
parse_handoff-IsAccepted_example =
    parse_handoff-IsAccepted ((hash_env 0).sha256) (manifest (codes "r")) parses

complete_completes_example :
    Completed 1 (codes "t5") (manifest (codes "r")) (hash_env 0) stage_db receipt after_completion
complete_completes_example =
    complete_completes 1 (codes "t5") (manifest (codes "r")) (hash_env 0) stage_db stage_db-IsWell
      refl completes

complete-complete_example :
    complete 1 (codes "t5") (manifest (codes "r")) (hash_env 60) after_completion
    ≡ (ok receipt, connect after_completion)
complete-complete_example =
    complete-complete 1 (codes "t5") (manifest (codes "r")) (hash_env 0) stage_db stage_db-IsWell
      refl (hash_env 60) refl completes

complete-complete_conflict_example :
    complete 1 (codes "t6") (manifest (codes "r")) (hash_env 60) after_completion
    ≡ (err precondition, connect after_completion)
complete-complete_conflict_example =
    complete-complete_conflict 1 (codes "t5") (manifest (codes "r")) (hash_env 0) stage_db
      stage_db-IsWell refl (codes "t6") (manifest (codes "r")) (hash_env 60) parsed_manifest
      other-IsRequest completes (inl t6_ne_t5)

complete-get_receipt_example :
    get_receipt 1 after_completion ≡ (ok (some receipt), connect after_completion)
complete-get_receipt_example =
    complete-get_receipt 1 (codes "t5") (manifest (codes "r")) (hash_env 0) stage_db stage_db-IsWell
      refl completes

complete-err_example :
    ((complete 1 (codes "t6") (manifest (codes "r")) (hash_env 0) stage_db).1 ≡ stage_db)
    ⊎ ((complete 1 (codes "t6") (manifest (codes "r")) (hash_env 0) stage_db).1 ≡ connect stage_db)
complete-err_example =
    complete-err 1 (codes "t6") (manifest (codes "r")) (hash_env 0) stage_db refused

abbrev task_2 : Admitted
task_2 = record {
  id = 2;
  status = pending;
  lane = codes "dev";
  priority = codes "P1";
  parent = none;
  summary = codes "next";
}

-- A task is admitted once.
admits_task :
    (admit (codes "k1") (codes "next") (codes "dev") (codes "P1") (hash_env 0) stage_db).0
    ≡ ok task_2
unfolding runs
admits_task = refl

abbrev after_admission : Db
after_admission =
    (admit (codes "k1") (codes "next") (codes "dev") (codes "P1") (hash_env 0) stage_db).1

admit-admit_example :
    (a : Admitted) × (admit
        (codes "k1")
        (codes "next")
        (codes "dev")
        (codes "P1")
        (hash_env 60)
        after_admission
      ≡ (ok a, connect after_admission))
    × (a.id ≡ 2)
admit-admit_example =
    admit-admit (codes "k1") (codes "next") (codes "dev") (codes "P1") (hash_env 0) (hash_env 60)
      stage_db refl admits_task

parses_child :
    parse_successor (successor_value (codes "k1") (codes "next") (codes "dev") (codes "P1"))
    ≡ ok child
unfolding runs
parses_child = refl

child_priority : stage_priority (codes "P1") ≡ ok 1
unfolding runs
child_priority = refl

-- The same task with another priority.
abbrev urgent_child : Successor
urgent_child = record child { priority = codes "P0" }

parses_urgent :
    parse_successor (successor_value (codes "k1") (codes "next") (codes "dev") (codes "P0"))
    ≡ ok urgent_child
unfolding runs
parses_urgent = refl

urgent_priority : stage_priority (codes "P0") ≡ ok 0
unfolding runs
urgent_priority = refl

other_priority : stage_priority (codes "P0") ≢ stage_priority (codes "P1")
other_priority e =
    let bad : ◌≡◌ {A = Result ℕ} (ok 0) (ok 1) = cc (e, urgent_priority, child_priority) in cc (bad)

admit-admit_conflict_example :
    admit (codes "k1") (codes "next") (codes "dev") (codes "P0") (hash_env 60) after_admission
    ≡ (err precondition, connect after_admission)
admit-admit_conflict_example =
    admit-admit_conflict (codes "k1") (codes "next") (codes "dev") (codes "P1") (codes "next")
      (codes "dev") (codes "P0") (hash_env 0) (hash_env 60) stage_db child urgent_child 0 refl
      parses_child parses_urgent urgent_priority refl (inr (inr other_priority)) admits_task
