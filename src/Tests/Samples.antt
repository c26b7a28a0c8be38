-- ===== src/Tests/Samples.antt =====
-- A queue of three directives, and surroundings to run calls in.
use laneq.Common.{ℕ, ◌+◌, ◌≡◌, refl, arith, [], ◌∷◌, none, some, err, value_error}
use laneq.Text.{Text, codes}
use laneq.Clock.{Env, strftime}
use laneq.Database.{taken, done, requeue, hold, Directive, Db}
use laneq.Core.Enqueue.{new_directive}
use laneq.Core.Invariant.{IsWell}

-- Midnight of the 20th of June 2026.
abbrev pub midnight : ℕ
midnight = 63917510400

midnight_lem : strftime midnight ≡ codes "2026-06-20T00:00:00Z"
unfolding strftime
midnight_lem = refl

abbrev pub env_at : ℕ → Text → Env
env_at t token = record {
  clock = λ i. midnight + t + i;
  uuid = token;
  float_mul = λ s m. err value_error;
  sha256 = λ s. s;
  default_lease = 1800;
}

-- The clock stands still.
abbrev pub env_still : ℕ → Text → Env
env_still t token = record (env_at t token) { clock = λ i. midnight + t }

abbrev pub waiting : Directive
waiting = new_directive 1 (codes "ship it") none none (codes "default") requeue 1

abbrev pub urgent : Directive
urgent = new_directive 0 (codes "fix it") none (some 1) (codes "default") requeue 2

abbrev pub held : Directive
held = record (new_directive 2 (codes "look") none none (codes "default") requeue 3) {
  status = taken;
  taken_at = some (codes "2026-06-19T23:59:00Z");
  taken_by = some (codes "ann");
  claim_token = some (codes "t3");
  lease_until = some (codes "2026-06-20T00:10:00Z");
}

abbrev pub finished : Directive
finished = record (new_directive 1 (codes "old") none none (codes "default") requeue 4) {
  status = done;
}

abbrev pub guarded : Directive
guarded = record (new_directive 1 (codes "stage") none none (codes "dev") hold 5) {
  status = taken;
  taken_by = some (codes "bob");
  claim_token = some (codes "t5");
  lease_until = some (codes "2026-06-19T23:00:00Z");
}

abbrev pub queue : Db
queue = record {
  directives = waiting ∷ urgent ∷ held ∷ finished ∷ guarded ∷ [];
  next_id = 6;
  receipts = [];
  admissions = [];
  roots = [];
  paths = [];
}

pub queue-IsWell : IsWell queue
queue-IsWell = ground arith
