-- ===== src/Interceptor.antt =====
-- grpc_auth.py: the server interceptor, which asks for a grant and a proof with every call, and its
-- construction from the environment. The log is left out. A request is served in one step, since
-- nothing is awaited between its authentication and its handler.
pub mod Closed
pub mod Config
use laneq.Common.{
  ℕ, zero, suc, ◌+◌, ◌-◌, ◌*◌, List, [], ◌∷◌, Bool, true, false, not, ◌&&◌, ◌||◌, Option, none,
  some, Result, ok, err, Error, grant_error, value_error, os_error, leb, ltb, if◌then◌else◌, ◌==◌,
}
use laneq.Text.{Text, codes, text_eq, strip}
use laneq.Ints.{ℤ, pos, negsuc, int_of}
use laneq.Database.{Db}
use laneq.Action.{Action}
use laneq.Contract.{◌>>=◌, ◌>>◌}
use laneq.Auth.{Outside, ReplayCache, Entries, get, verify_grant, public_key_from_cnf, verify_proof}

pub data Mode : Type 0 where
  off log_only enforce : Mode

-- MODES
unfoldable pub mode_of : Text → Result Mode
mode_of name =
    if text_eq name (codes "off")
    then ok off
    else if text_eq name (codes "log-only")
    then ok log_only
    else if text_eq name (codes "enforce")
    then ok enforce
    else err value_error

-- The skew is in seconds, the time to live of the cache in ticks.
pub record Interceptor (Key : Type 0) : Type 0 where
  pub public_keys : List Key
  pub audience : Text
  pub mode : Mode
  pub skew : ℤ
  pub replay : ReplayCache

-- max(60, skew_seconds * 2)
abbrev pub ttl_seconds : ℤ → ℕ
ttl_seconds (pos skew) = if leb 60 (skew * 2) then skew * 2 else 60
ttl_seconds (negsuc skew) = 60

abbrev pub ticks : ℕ → ℤ → ℤ
ticks second (pos n) = pos (second * n)
ticks second (negsuc n) = negsuc (second * suc n - 1)

-- What a call comes with: the entries of its metadata in their order.
pub record Call : Type 0 where
  pub method : Text
  pub metadata : List (Text × Text)

-- `dict(metadata).get(key)`: the last entry with the key.
unfoldable pub metadata_get : Text → List (Text × Text) → Option Text
metadata_get key [] = none
metadata_get key (e ∷ es) = elim (metadata_get key es) [
  | some value ↦ some value
  | none ↦ if text_eq e.0 key then some e.1 else none
]

-- A handler; one that is not unary-unary streams.
pub record Handler (Request Response : Type 0) : Type 0 where
  pub unary_unary : Option (Request → Action Response)

-- What the interceptor returns for a call: the handler itself, one that aborts, or one that
-- authenticates first.
pub data Route (Request Response : Type 0) : Type 0 where
  passed : Handler Request Response → Route Request Response
  denied : Route Request Response
  checked : (Request → Action Response) → Route Request Response

abbrev pub route_of :
    {Request Response : Type 0} → Mode → Handler Request Response → Route Request Response
route_of off handler = passed handler
route_of log_only handler = elim handler.unary_unary [ none ↦ passed handler | some f ↦ checked f ]
route_of enforce handler = elim handler.unary_unary [ none ↦ denied | some f ↦ checked f ]

unfoldable pub intercept_service :
    {Request Response : Type 0}
    → Mode
    → Option (Handler Request Response)
    → Option (Route Request Response)
intercept_service mode none = none
intercept_service mode (some handler) = some (route_of mode handler)

-- What the caller sees: the status UNAUTHENTICATED, an exception, the answer, or a stream.
pub data Served (Response : Type 0) : Type 0 where
  unauthenticated : Served Response
  raised : Error → Served Response
  answered : Response → Served Response
  streamed : Served Response

abbrev pub served : {Response : Type 0} → Result Response → Served Response
served (ok response) = answered response
served (err e) = raised e

abbrev pub run : {Response : Type 0} → Action Response → Db → Served Response × Db
run m db = let (r, db') = m db in (served r, db')

-- A text of the metadata that is there and not empty.
abbrev pub present : Option Text → Result Text
present (some (c ∷ cs)) = ok (c ∷ cs)
present _ = err grant_error

-- `SerializeToString`, which may raise, and `hashlib.sha256(payload).hexdigest()`.
pub record Wire (Request : Type 0) : Type 0 where
  pub serialize : Request → Option Text
  pub sha256 : Text → Text

unfoldable pub request_sha256 : {Request : Type 0} → Wire Request → Request → Result Text
request_sha256 wire request = elim (wire.serialize request) [
  | none ↦ err grant_error
  | some payload ↦ ok (wire.sha256 payload)
]

module _ {Key : Type 0} (out : Outside Key) where
  unfoldable pub new_interceptor : List Key → Text → Text → ℤ → Result (Interceptor Key)
  unfolding mode_of
  new_interceptor public_keys audience mode skew = do
    m ← mode_of mode
    ok (record {
      public_keys = public_keys;
      audience = audience;
      mode = m;
      skew = skew;
      replay = record { ttl = out.second * ttl_seconds skew; seen = [] };
    })

  -- `_authenticate` up to the proof: the proof and the key that it is to be signed with.
  unfoldable pub granted : Interceptor Key → Call → ℕ → Result (Text × Key)
  unfolding metadata_get verify_grant public_key_from_cnf
  granted i call now = do
    grant_token ← present (metadata_get (codes "laneq-grant") call.metadata)
    proof_token ← present (metadata_get (codes "laneq-proof") call.metadata)
    claims ← verify_grant out grant_token i.public_keys i.audience now
    client_key ← public_key_from_cnf out (get (codes "cnf") claims)
    ok (proof_token, client_key)

  abbrev pub prove :
      Interceptor Key → Call → Text → ℕ → Result (Text × Key) → Result Entries × ReplayCache
  prove i call digest now (err e) = (err e, i.replay)
  prove i call digest now (ok (proof, client_key)) =
      verify_proof out proof client_key i.audience call.method digest now (ticks out.second i.skew)
        i.replay

  unfoldable pub authenticate : Interceptor Key → Call → Text → ℕ → Result Entries × ReplayCache
  unfolding granted verify_proof
  authenticate i call digest now = prove i call digest now (granted i call now)

  abbrev pub check_digest : Interceptor Key → Call → ℕ → Result Text → Result Entries × ReplayCache
  check_digest i call now (err e) = (err e, i.replay)
  check_digest i call now (ok digest) = authenticate i call digest now

  unfoldable pub check_request :
      {Request : Type 0}
      → Wire Request
      → Interceptor Key
      → Call
      → Request
      → ℕ
      → Result Entries × ReplayCache
  unfolding authenticate request_sha256
  check_request wire i call request now = check_digest i call now (request_sha256 wire request)

-- What follows from the result of the check: an exception other than GrantError is not caught.
abbrev pub after_check :
    {Request Response : Type 0}
    → Mode
    → Result Entries
    → (Request → Action Response)
    → Request
    → Db
    → Served Response × Db
after_check mode (ok claims) f request db = run (f request) db
after_check enforce (err grant_error) f request db = (unauthenticated, db)
after_check mode (err grant_error) f request db = run (f request) db
after_check mode (err e) f request db = (raised e, db)

-- A request on a route: what the caller sees, the interceptor afterwards and the database.
unfoldable pub serve :
    {Key Request Response : Type 0}
    → Outside Key
    → Wire Request
    → Interceptor Key
    → Call
    → Route Request Response
    → Request
    → ℕ
    → Db
    → Served Response × Interceptor Key × Db
unfolding check_request
serve out wire i call (passed handler) request now db = elim handler.unary_unary [
  | none ↦ (streamed, i, db)
  | some f ↦ let (r, db') = run (f request) db in (r, i, db')
]
serve out wire i call denied request now db = (unauthenticated, i, db)
serve out wire i call (checked f) request now db =
    let (r, cache) = check_request out wire i call request now in
    let (seen, db') = after_check i.mode r f request db in (seen, record i { replay = cache }, db')

-- What `build_interceptor_from_env` calls beside the environment: the file at a path, and
-- `pyseto.Key.new` on what it holds.
pub record Files (Key : Type 0) : Type 0 where
  pub read : Text → Option Text
  pub parse_key : Text → Option Key

-- `text.split(os.pathsep)`
unfoldable pub split_paths : Text → List Text
split_paths [] = [] ∷ []
split_paths (c ∷ cs) = elim (split_paths cs) [
  | [] ↦ []
  | path ∷ paths ↦ if c == 58 then [] ∷ path ∷ paths else (c ∷ path) ∷ paths
]

abbrev pub or_text : Option Text → Text → Text
or_text none default = default
or_text (some t) default = t

module _ {Key : Type 0} (files : Files Key) where
  abbrev pub read_key : Text → Result Key
  read_key path = elim (files.read path) [
    | none ↦ err os_error
    | some content ↦ elim (files.parse_key content) [ none ↦ err value_error | some k ↦ ok k ]
  ]

  -- The loop over the paths.
  unfoldable pub read_keys : List Text → Result (List Key)
  unfolding strip
  read_keys [] = ok []
  read_keys (path ∷ paths) = elim (strip path) [
    | [] ↦ read_keys paths
    | c ∷ cs ↦ elim (read_key (c ∷ cs)) [
      | err e ↦ err e
      | ok key ↦ elim (read_keys paths) [ err e ↦ err e | ok keys ↦ ok (key ∷ keys) ]
    ]
  ]

-- `if not value: raise ValueError`
abbrev pub required {ℓ} : {A : Type ℓ} → List A → Result (List A)
required [] = err value_error
required (x ∷ xs) = ok (x ∷ xs)

abbrev pub some_of : {Key : Type 0} → Result (Interceptor Key) → Result (Option (Interceptor Key))
some_of (err e) = err e
some_of (ok i) = ok (some i)

module _ {Key : Type 0} (out : Outside Key) (files : Files Key) where
  unfoldable pub build_from : Text → (Text → Option Text) → Result (Option (Interceptor Key))
  unfolding split_paths read_keys int_of new_interceptor
  build_from mode env = do
    audience ← required (or_text (env (codes "LANEQ_AUTH_AUDIENCE")) [])
    found ← read_keys files (split_paths (or_text (env (codes "LANEQ_AUTH_PUBKEY_PATHS")) []))
    public_keys ← required found
    skew ← int_of (or_text (env (codes "LANEQ_AUTH_SKEW_SECONDS")) (codes "30"))
    some_of (new_interceptor out public_keys audience mode skew)

  unfoldable pub build_interceptor_from_env :
      (Text → Option Text) → Result (Option (Interceptor Key))
  unfolding build_from
  build_interceptor_from_env env =
      let mode = or_text (env (codes "LANEQ_AUTH_MODE")) (codes "off") in
      if text_eq mode (codes "off") then ok none else build_from mode env
