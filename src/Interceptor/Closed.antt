-- ===== src/Interceptor/Closed.antt =====
-- What the interceptor lets through.
use laneq.Common.{
  ℕ, ◌≡◌, ◌⊎◌, refl, ap, sym, ◌∙◌, subst, [], ◌∷◌, Option, none, some, Result, ok, err, Error,
  grant_error, inl, inr, Option-cases,
}
use laneq.Text.{Text, codes}
use laneq.Database.{Db}
use laneq.Action.{Action}
use laneq.Contract.Bounds.{bind_returns}
use laneq.Auth.{Outside, Entries, get, verify_grant, public_key_from_cnf}
use laneq.Auth.Replay.{Attempt, attempt-accepts}
use laneq.Auth.Proofs.{IsProof, accepts-IsProof}
use laneq.Auth.Grants.{IsGrant, verify_grant-IsGrant}
use laneq.Interceptor.{
  Mode, enforce, Interceptor, Call, Handler, Route, denied, checked, route_of, intercept_service,
  Served, unauthenticated, raised, run, present, metadata_get, Wire, request_sha256, granted, prove,
  ticks, authenticate, check_digest, check_request, after_check, serve,
}

present-ok : (o : Option Text) {t : Text} → present o ≡ ok t → o ≡ some t
present-ok none h = cc
present-ok (some []) h = cc
present-ok (some (c ∷ cs)) {t} h = let same : c ∷ cs ≡ t = cc (h) in ap some same

module _ {Key Request : Type 0} (out : Outside Key) (wire : Wire Request) where
  -- The call of `verify_proof` in `_authenticate`.
  abbrev pub attempt_of : Interceptor Key → Call → Text → ℕ → Text → Key → Attempt out
  attempt_of i call digest now proof client_key = record {
    proof = proof;
    client_key = client_key;
    audience = i.audience;
    method = call.method;
    request_sha256 = digest;
    now = now;
    skew = ticks out.second i.skew;
  }

  -- A grant that is good now, and a proof by its key for this method and this request.
  pub record IsAuthentic (i : Interceptor Key) (call : Call) (request : Request) (now : ℕ)
      : Type 0 where
    pub grant_token : Text
    pub has_grant : metadata_get (codes "laneq-grant") call.metadata ≡ some grant_token
    pub proof_token : Text
    pub has_proof : metadata_get (codes "laneq-proof") call.metadata ≡ some proof_token
    pub grant : Entries
    pub is_grant : IsGrant out grant_token i.public_keys i.audience now grant
    pub client_key : Key
    pub has_key : public_key_from_cnf out (get (codes "cnf") grant) ≡ ok client_key
    pub digest : Text
    pub has_digest : request_sha256 wire request ≡ ok digest
    pub proof : Entries
    pub nonce : Text
    pub is_proof : IsProof out (attempt_of i call digest now proof_token client_key) proof nonce

  -- What the grant's part of the check has found.
  record IsGranted (i : Interceptor Key) (call : Call) (now : ℕ) (proof_token : Text)
      (client_key : Key) : Type 0 where
    grant_token : Text
    has_grant : metadata_get (codes "laneq-grant") call.metadata ≡ some grant_token
    has_proof : metadata_get (codes "laneq-proof") call.metadata ≡ some proof_token
    grant : Entries
    is_grant : IsGrant out grant_token i.public_keys i.audience now grant
    has_key : public_key_from_cnf out (get (codes "cnf") grant) ≡ ok client_key

  granted-IsGranted :
      (i : Interceptor Key) (call : Call) (now : ℕ) {proof : Text} {key : Key}
      → granted out i call now ≡ ok (proof, key)
      → IsGranted i call now proof key
  unfolding granted
  granted-IsGranted i call now {proof} {key} h =
      let (g, has_grant, h1) =
        bind_returns (present (metadata_get (codes "laneq-grant") call.metadata)) _ h in
      let (p, has_proof, h2) =
        bind_returns (present (metadata_get (codes "laneq-proof") call.metadata)) _ h1 in
      let (claims, verified, h3) =
        bind_returns (verify_grant out g i.public_keys i.audience now) _ h2 in
      let (k, has_key, h4) =
        bind_returns (public_key_from_cnf out (get (codes "cnf") claims)) _ h3 in
      let same : ◌≡◌ {A = Text × Key} (p, k) (proof, key) = cc (h4) in
      subst (λ x. IsGranted i call now x.0 x.1) same
        (record {
          grant_token = g;
          has_grant = present-ok _ has_grant;
          has_proof = present-ok _ has_proof;
          grant = claims;
          is_grant =
              ((verify_grant-IsGrant out g i.public_keys i.audience now).0 claims).0 verified;
          has_key = has_key;
        })

  proved-IsAuthentic :
      (i : Interceptor Key) (call : Call) (request : Request) (now : ℕ) (digest : Text)
      (r : Result (Text × Key)) {claims : Entries}
      → request_sha256 wire request ≡ ok digest
      → granted out i call now ≡ r
      → (prove out i call digest now r).0 ≡ ok claims
      → IsAuthentic i call request now
  proved-IsAuthentic i call request now digest (err e) d g h = cc
  proved-IsAuthentic i call request now digest (ok (proof, key)) d g h =
      let (nonce, accepted, fresh, rest) =
        attempt-accepts out (attempt_of i call digest now proof key) i.replay h in
      let granted_by = granted-IsGranted i call now g in
      record {
        grant_token = granted_by.grant_token;
        has_grant = granted_by.has_grant;
        proof_token = proof;
        has_proof = granted_by.has_proof;
        grant = granted_by.grant;
        is_grant = granted_by.is_grant;
        client_key = key;
        has_key = granted_by.has_key;
        digest = digest;
        has_digest = d;
        proof = _;
        nonce = nonce;
        is_proof = accepts-IsProof out (attempt_of i call digest now proof key) accepted;
      }

  checked-IsAuthentic :
      (i : Interceptor Key) (call : Call) (request : Request) (now : ℕ) {claims : Entries}
      → (check_request out wire i call request now).0 ≡ ok claims
      → IsAuthentic i call request now
  unfolding check_request authenticate
  checked-IsAuthentic i call request now {claims} h = go (request_sha256 wire request) refl h
    where
      go :
          (r : Result Text)
          → request_sha256 wire request ≡ r
          → (check_digest out i call now r).0 ≡ ok claims
          → IsAuthentic i call request now
      go (err e) d k = cc
      go (ok digest) d k =
          proved-IsAuthentic i call request now digest (granted out i call now) d refl k

module _ {Key Request Response : Type 0} (out : Outside Key) (wire : Wire Request) where
  -- Nothing has been done for the caller, and nothing to the database.
  abbrev pub IsRefused : Served Response → Db → Db → Type 0
  IsRefused seen db db' =
      (db' ≡ db) × ((seen ≡ unauthenticated) ⊎ ((e : Error) × (seen ≡ raised e)))

  after_check_enforce :
      (r : Result Entries) (f : Request → Action Response) (request : Request) (db : Db)
      → ((claims : Entries) × (r ≡ ok claims)
          × (after_check enforce r f request db ≡ run (f request) db))
        ⊎ IsRefused (after_check enforce r f request db).0 db (after_check enforce r f request db).1
  after_check_enforce (ok claims) f request db = inl (claims, refl, refl)
  after_check_enforce (err grant_error) f request db = inr (refl, inl refl)
  after_check_enforce (err e) f request db = inr (refl, inr (e, refl))

  -- What the caller sees, and the database.
  abbrev pub after_serve :
      Interceptor Key → Call → Route Request Response → Request → ℕ → Db → Served Response × Db
  after_serve i call route request now db =
      let (seen, j, db') = serve out wire i call route request now db in (seen, db')

  serve_checked :
      (i : Interceptor Key) (call : Call) (f : Request → Action Response) (request : Request)
      (now : ℕ) (db : Db)
      → after_serve i call (checked f) request now db
        ≡ after_check i.mode (check_request out wire i call request now).0 f request db
  unfolding serve
  serve_checked i call f request now db = refl

  serve_denied :
      (i : Interceptor Key) (call : Call) (request : Request) (now : ℕ) (db : Db)
      → IsRefused
          (after_serve i call denied request now db).0
          db
          (after_serve i call denied request now db).1
  unfolding serve
  serve_denied i call request now db = (refl, inl refl)

  -- A request on a route that authenticates.
  checked_enforced :
      (i : Interceptor Key) (call : Call) (f : Request → Action Response) (request : Request)
      (now : ℕ) (db : Db)
      → i.mode ≡ enforce
      → (IsAuthentic out wire i call request now
          × (after_serve i call (checked f) request now db ≡ run (f request) db))
        ⊎ IsRefused
            (after_serve i call (checked f) request now db).0
            db
            (after_serve i call (checked f) request now db).1
  checked_enforced i call f request now db m =
      let r = (check_request out wire i call request now).0 in
      let seen : after_serve i call (checked f) request now db
          ≡ after_check enforce r f request db =
        serve_checked i call f request now db ∙ ap (λ mode. after_check mode r f request db) m in
      elim (after_check_enforce r f request db) [
        | inl (claims, e, same) ↦
            inl (checked-IsAuthentic out wire i call request now e, seen ∙ same)
        | inr refused ↦ inr (subst (λ x. IsRefused x.0 db x.1) (sym seen) refused)
      ]

  -- In the mode "enforce" whatever the interceptor has returned for a call does nothing unless the
  -- call is authentic: the handler has run, and the call had a good grant and a proof of its own;
  -- or the database is as it was, and the caller sees UNAUTHENTICATED or an exception.
  pub serve_enforced :
      (i : Interceptor Key) (call : Call) (handler : Handler Request Response)
      (route : Route Request Response) (request : Request) (now : ℕ) (db : Db)
      → i.mode ≡ enforce
      → intercept_service i.mode (some handler) ≡ some route
      → (IsAuthentic out wire i call request now
          × ((f : Request → Action Response) × (handler.unary_unary ≡ some f)
              × (after_serve i call route request now db ≡ run (f request) db)))
        ⊎ IsRefused
            (after_serve i call route request now db).0
            db
            (after_serve i call route request now db).1
  unfolding intercept_service
  serve_enforced i call handler route request now db m e =
      let routed : route ≡ route_of enforce handler = route-eq i.mode m e in
      elim (Option-cases handler.unary_unary) [
        | inl k ↦
            let here : route ≡ denied = routed ∙ rw k refl in
            inr (
              subst
                (λ x.
                  IsRefused (after_serve i call x request now db).0 db
                    (after_serve i call x request now db).1)
                (sym here) (serve_denied i call request now db))
        | inr (f, k) ↦
            let here : route ≡ checked f = routed ∙ rw k refl in
            subst
              (λ x.
                (IsAuthentic out wire i call request now
                  × ((g : Request → Action Response) × (handler.unary_unary ≡ some g)
                      × (after_serve i call x request now db ≡ run (g request) db)))
                ⊎ IsRefused (after_serve i call x request now db).0 db
                    (after_serve i call x request now db).1)
              (sym here)
              (elim (checked_enforced i call f request now db m) [
                | inl (authentic, same) ↦ inl (authentic, (f, k, same))
                | inr refused ↦ inr refused
              ])
      ]
    where
      route-eq :
          (mode : Mode)
          → mode ≡ enforce
          → intercept_service mode (some handler) ≡ some route
          → route ≡ route_of enforce handler
      route-eq mode k h =
          let same : some route ≡ some (route_of mode handler) = sym h in
          let out_of : route ≡ route_of mode handler = cc (same) in
          out_of ∙ ap (λ x. route_of x handler) k
