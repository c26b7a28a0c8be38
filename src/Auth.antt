-- ===== src/Auth.antt =====
-- auth.py: the checks of a grant and of the proof that comes with each request, and the cache of the
-- nonces that were seen. Times are counted in ticks from 1970 on, so many to the second that each
-- float of the claims is a whole number of them; a difference of times is taken exactly.
pub mod Replay
pub mod Proofs
pub mod Once
pub mod Grants
use laneq.Common.{
  ℕ, zero, suc, ◌+◌, ◌-◌, ◌*◌, List, [], ◌∷◌, Bool, true, false, not, ◌&&◌, ◌||◌, Option, none,
  some, Result, ok, err, Error, grant_error, type_error, value_error, overflow_error, leb, ltb,
  if◌then◌else◌,
}
use laneq.Text.{Text, codes, text_eq}
use laneq.Ints.{ℤ, pos, negsuc}
use laneq.Sql.{select, exists}
use laneq.Contract.{◌>>=◌, ◌>>◌}

-- A number of a JSON text: `json.loads` reads NaN and the infinities too.
pub data Number : Type 0 where
  finite : ℤ → Number
  nan infinity minus_infinity : Number

mutual
  pub data Claim : Type 0 where
    null : Claim
    bool : Bool → Claim
    number : Number → Claim
    text : Text → Claim
    list : Claims → Claim
    dict : Entries → Claim

  pub data Claims : Type 0 where
    nil : Claims
    cons : Claim → Claims → Claims

  pub data Entries : Type 0 where
    end : Entries
    entry : Text → Claim → Entries → Entries

-- What the code calls: `pyseto.decode`, which returns the payload of a token that one of the keys
-- has signed; `json.loads`, by whose dicts a key stands once, and which raises a ValueError, a
-- TypeError, or a RecursionError on deep nesting; `pyseto.Key.new`; and whether an int
-- of so many ticks is too large for a float.
pub record Outside (Key : Type 0) : Type 0 where
  pub decode : List Key → Text → Option Text
  pub loads : Text → Result Claim
  pub new_key : Text → Option Key
  pub too_large : ℤ → Bool
  pub second : ℕ

abbrev pub refuse_if : Bool → Result (Unit {0})
refuse_if true = err grant_error
refuse_if false = ok tt

-- `claims.get(name)`
abbrev pub get : Text → Entries → Option Claim
get name end = none
get name (entry key value rest) = if text_eq key name then some value else get name rest

unfoldable pub numeric : Option Claim → Bool → Result (Option Number)
numeric none required = if required then err grant_error else ok none
numeric (some null) required = if required then err grant_error else ok none
numeric (some (number n)) required = ok (some n)
numeric (some c) required = err grant_error

unfoldable pub numeric_claim : Entries → Text → Bool → Result (Option Number)
unfolding numeric
numeric_claim claims name required = numeric (get name claims) required

-- `now_ts >= n` and `now_ts < n`, both false of NaN.
abbrev pub reaches : ℕ → Number → Bool
reaches now (finite (pos n)) = leb n now
reaches now (finite (negsuc n)) = true
reaches now nan = false
reaches now infinity = false
reaches now minus_infinity = true

abbrev pub is_before : ℕ → Number → Bool
is_before now (finite (pos n)) = ltb now n
is_before now (finite (negsuc n)) = false
is_before now nan = false
is_before now infinity = true
is_before now minus_infinity = false

abbrev pub reaches_claim : ℕ → Option Number → Bool
reaches_claim now none = false
reaches_claim now (some n) = reaches now n

abbrev pub is_before_claim : ℕ → Option Number → Bool
is_before_claim now none = false
is_before_claim now (some n) = is_before now n

-- `claim == value` for a str.
abbrev pub is_text : Option Claim → Text → Bool
is_text (some (text t)) value = text_eq t value
is_text _ value = false

-- What `json.loads` returned must be a dict; of what it raises two exceptions are caught.
abbrev pub as_object : Result Claim → Result Entries
as_object (ok (dict claims)) = ok claims
as_object (err value_error) = err grant_error
as_object (err type_error) = err grant_error
as_object (err e) = err e
as_object (ok c) = err grant_error

abbrev pub or_refuse : {A : Type 0} → Option A → Result A
or_refuse none = err grant_error
or_refuse (some a) = ok a

-- ReplayCache: the nonces with their expiry.
pub record ReplayCache : Type 0 where
  pub ttl : ℕ
  pub seen : List (Text × ℕ)

abbrev pub has_nonce : Text → List (Text × ℕ) → Bool
has_nonce nonce = exists (λ e. text_eq e.0 nonce)

abbrev pub prune : ℕ → List (Text × ℕ) → List (Text × ℕ)
prune now = select (λ e. ltb now e.1)

unfoldable pub check_and_add : Text → ℕ → ReplayCache → Bool × ReplayCache
check_and_add nonce now cache =
    let seen = prune now cache.seen in
    if has_nonce nonce seen
    then (false, record cache { seen = seen })
    else (true, record cache { seen = (nonce, now + cache.ttl) ∷ seen })

-- `hmac.compare_digest` of two str raises a TypeError where one is not ASCII.
abbrev pub is_ascii : Text → Bool
is_ascii [] = true
is_ascii (c ∷ cs) = ltb c 128 && is_ascii cs

abbrev pub compare_digest : Text → Text → Result Bool
compare_digest a b = if is_ascii a && is_ascii b then ok (text_eq a b) else err type_error

-- A claim that is a str and not empty.
abbrev pub full_text : Option Claim → Result Text
full_text (some (text (c ∷ cs))) = ok (c ∷ cs)
full_text _ = err grant_error

abbrev pub is_empty : Text → Bool
is_empty [] = true
is_empty (c ∷ cs) = false

-- `d > skew_seconds`, the skew in ticks.
abbrev pub exceeds : ℕ → ℤ → Bool
exceeds d (pos skew) = ltb skew d
exceeds d (negsuc skew) = true

abbrev pub distance : ℕ → ℤ → ℕ
distance now (pos n) = (now - n) + (n - now)
distance now (negsuc n) = now + suc n

-- `abs(now.timestamp() - iat) > skew_seconds`
unfoldable pub outside_window : {Key : Type 0} → Outside Key → ℕ → ℤ → Number → Result Bool
outside_window out now skew (finite iat) =
    if out.too_large iat then err overflow_error else ok (exceeds (distance now iat) skew)
outside_window out now skew nan = ok false
outside_window out now skew infinity = ok true
outside_window out now skew minus_infinity = ok true

abbrev pub required_number : Option Claim → Result Number
required_number (some (number n)) = ok n
required_number _ = err grant_error

abbrev pub if_fresh : Entries → Bool × ReplayCache → Result Entries × ReplayCache
if_fresh claims (true, cache) = (ok claims, cache)
if_fresh claims (false, cache) = (err grant_error, cache)

abbrev pub with_cache : Result (Entries × Text) → ℕ → ReplayCache → Result Entries × ReplayCache
with_cache (err e) now cache = (err e, cache)
with_cache (ok (claims, nonce)) now cache = if_fresh claims (check_and_add nonce now cache)

module _ {Key : Type 0} (out : Outside Key) where
  unfoldable pub verify_grant : Text → List Key → Text → ℕ → Result Entries
  unfolding numeric_claim
  verify_grant token public_keys audience now = do
    payload ← or_refuse (out.decode public_keys token)
    claims ← as_object (out.loads payload)
    exp ← numeric_claim claims (codes "exp") true
    refuse_if (reaches_claim now exp)
    nbf ← numeric_claim claims (codes "nbf") false
    refuse_if (is_before_claim now nbf)
    refuse_if (not (is_text (get (codes "aud") claims) audience))
    ok claims

  abbrev pub new_key_of : Option Claim → Result Key
  new_key_of (some (text t)) = or_refuse (out.new_key t)
  new_key_of _ = err grant_error

  unfoldable pub public_key_from_cnf : Option Claim → Result Key
  public_key_from_cnf (some (dict cnf)) = new_key_of (get (codes "key") cnf)
  public_key_from_cnf _ = err grant_error

  unfoldable pub verified_proof_nonce : Entries → Text → Text → Text → ℕ → ℤ → Result Text
  unfolding outside_window
  verified_proof_nonce claims audience method request_sha256 now skew = do
    refuse_if (not (is_text (get (codes "aud") claims) audience))
    refuse_if (not (is_text (get (codes "method") claims) method))
    refuse_if (is_empty request_sha256)
    digest ← full_text (get (codes "request_sha256") claims)
    same ← compare_digest digest request_sha256
    refuse_if (not same)
    iat ← required_number (get (codes "iat") claims)
    late ← outside_window out now skew iat
    refuse_if late
    full_text (get (codes "nonce") claims)

  -- `verify_proof` up to the replay cache: the claims and the nonce.
  unfoldable pub proof_claims : Text → Key → Text → Text → Text → ℕ → ℤ → Result (Entries × Text)
  unfolding verified_proof_nonce
  proof_claims proof client_key audience method request_sha256 now skew = do
    payload ← or_refuse (out.decode (client_key ∷ []) proof)
    claims ← as_object (out.loads payload)
    nonce ← verified_proof_nonce claims audience method request_sha256 now skew
    ok (claims, nonce)

  unfoldable pub verify_proof :
      Text → Key → Text → Text → Text → ℕ → ℤ → ReplayCache → Result Entries × ReplayCache
  unfolding proof_claims check_and_add
  verify_proof proof client_key audience method request_sha256 now skew cache =
      with_cache (proof_claims proof client_key audience method request_sha256 now skew) now cache
