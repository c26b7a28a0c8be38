-- ===== src/Tests/Granting.antt =====
-- A grant and a proof, and instances of the theorems on authentication.
use laneq.Common.{
  ℕ, ◌+◌, ◌*◌, ◌≡◌, ◌≢◌, ◌↔◌, ◌⊎◌, refl, [], ◌∷◌, none, some, Option, true, false, ok, err, Error,
  grant_error, value_error, recursion_error, arith, ℕ_discrete, if◌then◌else◌,
}
use laneq.Text.{Text, codes, text_eq, Text-discrete, strip}
use laneq.Action.{Action, gets}
use laneq.Ints.{pos}
use laneq.Auth.{
  Number, finite, nan, number, text, dict, Entries, end, entry, Outside, ReplayCache, get,
  required_number, verify_grant, verify_proof,
}
use laneq.Auth.Replay.{Attempt, attempt, after_all}
use laneq.Auth.Once.{verify_proof_once}
use laneq.Auth.Grants.{IsGrant, IsRaised, verify_grant-IsGrant}
use laneq.Interceptor.{
  Mode, enforce, Interceptor, Call, Handler, checked, intercept_service, answered, unauthenticated,
  run, Wire, serve, Files, build_interceptor_from_env, or_text,
}
use laneq.Interceptor.Closed.{IsAuthentic, IsRefused, after_serve, serve_enforced}
use laneq.Interceptor.Config.{IsConfigured, build-IsConfigured}
use laneq.Tests.Samples.{queue}

abbrev grant : Entries
grant = entry (codes "exp") (number (finite (pos 100))) (
    entry (codes "aud") (text (codes "q"))
      (entry (codes "cnf") (dict (entry (codes "key") (text (codes "k")) end)) end))

abbrev proof : Entries
proof = entry (codes "aud") (text (codes "q")) (
    entry (codes "method") (text (codes "/m")) (
      entry (codes "request_sha256") (text (codes "d")) (
        entry (codes "iat") (number (finite (pos 50)))
          (entry (codes "nonce") (text (codes "n")) end))))

-- The tokens "g" and "p" have these payloads, and "deep" one that is nested too deep; a tick is a
-- second.
abbrev outside : Outside Text
outside = record {
  decode = λ keys token. some token;
  loads = λ payload.
      if text_eq payload (codes "g")
      then ok (dict grant)
      else if text_eq payload (codes "p")
      then ok (dict proof)
      else if text_eq payload (codes "deep")
      then err recursion_error
      else err value_error;
  new_key = λ t. some t;
  too_large = λ n. false;
  second = 1;
}

abbrev at : ℕ → Attempt outside
at now = record {
  proof = codes "p";
  client_key = codes "k";
  audience = codes "q";
  method = codes "/m";
  request_sha256 = codes "d";
  now = now;
  skew = pos 30;
}

abbrev empty : ReplayCache
empty = record { ttl = 60; seen = [] }

runs : Unit {0}
unfolding verify_grant verify_proof serve intercept_service build_interceptor_from_env strip
    Text-discrete ℕ_discrete
runs = tt

first_time : (attempt outside (at 20) empty).0 ≡ ok proof
unfolding runs
first_time = refl

within_a_minute : (attempt outside (at 79) (attempt outside (at 20) empty).1).0 ≡ err grant_error
unfolding runs
within_a_minute = refl

-- At the end of the window the cache has forgotten the nonce.
second_time :
    (attempt outside (at 80) (after_all outside [] (attempt outside (at 20) empty).1)).0 ≡ ok proof
unfolding runs
second_time = refl

is_real : (iat : Number) → required_number (get (codes "iat") proof) ≡ ok iat → iat ≢ nan
unfolding runs
is_real iat h = λ e. let same : finite (pos 50) ≡ iat = cc (h) in cc (same, e)

verify_proof_once_example : (80 ≡ 20 + 2 * 30) × (60 ≡ 2 * 30)
verify_proof_once_example =
    verify_proof_once outside (at 20) (at 80) [] empty 30 refl refl refl refl (omega arith) is_real
      tt first_time second_time

verify_grant-IsGrant_example :
    ((claims : Entries)
      → (verify_grant outside (codes "g") [] (codes "q") 99 ≡ ok claims)
        ↔ IsGrant outside (codes "g") [] (codes "q") 99 claims)
    × ((e : Error)
        → verify_grant outside (codes "g") [] (codes "q") 99 ≡ err e
        → IsRaised outside (codes "g") [] e)
verify_grant-IsGrant_example = verify_grant-IsGrant outside (codes "g") [] (codes "q") 99

granted : verify_grant outside (codes "g") [] (codes "q") 99 ≡ ok grant
unfolding runs
granted = refl

expired : verify_grant outside (codes "g") [] (codes "q") 100 ≡ err grant_error
unfolding runs
expired = refl

-- The RecursionError of `json.loads` is not caught.
too_deep : verify_grant outside (codes "deep") [] (codes "q") 50 ≡ err recursion_error
unfolding runs
too_deep = refl

abbrev interceptor : Mode → Interceptor Text
interceptor mode = record {
  public_keys = codes "i" ∷ [];
  audience = codes "q";
  mode = mode;
  skew = pos 30;
  replay = empty;
}

abbrev wire : Wire Text
wire = record { serialize = λ r. some r; sha256 = λ r. r }

abbrev call : Call
call = record {
  method = codes "/m";
  metadata = (codes "laneq-grant", codes "g") ∷ (codes "laneq-proof", codes "p") ∷ [];
}

abbrev next_id_of : Text → Action ℕ
next_id_of r = gets (λ db. db.next_id)

abbrev handler : Handler Text ℕ
handler = record { unary_unary = some next_id_of }

routed : intercept_service enforce (some handler) ≡ some (checked next_id_of)
unfolding runs
routed = refl

lets_through :
    (after_serve outside wire
      (interceptor enforce)
      call
      (checked next_id_of)
      (codes "d")
      50
      queue).0
    ≡ answered 6
unfolding runs gets
lets_through = refl

refuses :
    (after_serve outside wire
      (interceptor enforce)
      call
      (checked next_id_of)
      (codes "e")
      50
      queue).0
    ≡ unauthenticated
unfolding runs
refuses = refl

serve_enforced_example :
    (IsAuthentic outside wire (interceptor enforce) call (codes "d") 50
      × ((f : Text → Action ℕ) × (some next_id_of ≡ some f)
          × (after_serve outside wire
                (interceptor enforce)
                call
                (checked next_id_of)
                (codes "d")
                50
                queue
              ≡ run (f (codes "d")) queue)))
    ⊎ IsRefused outside wire
        (after_serve outside wire
          (interceptor enforce)
          call
          (checked next_id_of)
          (codes "d")
          50
          queue).0
        queue
        (after_serve outside wire
          (interceptor enforce)
          call
          (checked next_id_of)
          (codes "d")
          50
          queue).1
serve_enforced_example =
    serve_enforced outside wire (interceptor enforce) call handler (checked next_id_of) (codes "d")
      50 queue refl routed

abbrev files : Files Text
files = record { read = λ path. some path; parse_key = λ content. some content }

abbrev env : Text → Option Text
env name =
    if text_eq name (codes "LANEQ_AUTH_MODE")
    then some (codes "enforce")
    else if text_eq name (codes "LANEQ_AUTH_AUDIENCE")
    then some (codes "q")
    else if text_eq name (codes "LANEQ_AUTH_PUBKEY_PATHS")
    then some (codes "i: ")
    else none

built : build_interceptor_from_env outside files env ≡ ok (some (interceptor enforce))
unfolding runs
built = refl

build-IsConfigured_example :
    ((some (interceptor enforce) ≡ none)
      × (text_eq (or_text (env (codes "LANEQ_AUTH_MODE")) (codes "off")) (codes "off") ≡ true))
    ⊎ ((i : Interceptor Text) × (some (interceptor enforce) ≡ some i)
        × IsConfigured outside files i)
build-IsConfigured_example = build-IsConfigured outside files env built
