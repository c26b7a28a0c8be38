-- ===== src/Auth/Replay.antt =====
-- A proof that was accepted is not accepted again.
use laneq.Common.{
  ℕ, ◌+◌, ◌<◌, ◌≡◌, refl, ap, sym, ◌∙◌, subst, List, [], ◌∷◌, Bool, true, false, ◌&&◌, Result, ok,
  err, arith, Bool-cases, inl, inr, leb,
}
use laneq.Text.{Text, text_eq}
use laneq.Text.Order.{text_eq_refl}
use laneq.Sql.{exists}
use laneq.Sql.Order.{Every}
use laneq.Ints.{ℤ}
use laneq.Auth.{
  Entries, Outside, ReplayCache, has_nonce, prune, check_and_add, proof_claims, with_cache,
  if_fresh, verify_proof,
}

-- The cache has the nonce until a time.
abbrev pub Remembers : Text → ℕ → ReplayCache → Type 0
Remembers nonce until cache = exists (λ e. text_eq e.0 nonce && leb until e.1) cache.seen ≡ true

prune-exists :
    (nonce : Text) (until now : ℕ) (seen : List (Text × ℕ))
    → now < until
    → exists (λ e. text_eq e.0 nonce && leb until e.1) seen ≡ true
    → exists (λ e. text_eq e.0 nonce && leb until e.1) (prune now seen) ≡ true
prune-exists nonce until now [] lt h = cc
prune-exists nonce until now (e ∷ es) lt h = ground (arith, prune-exists nonce until now es lt)

exists-has_nonce :
    (nonce : Text) (until : ℕ) (seen : List (Text × ℕ))
    → exists (λ e. text_eq e.0 nonce && leb until e.1) seen ≡ true
    → has_nonce nonce seen ≡ true
exists-has_nonce nonce until [] h = cc
exists-has_nonce nonce until (e ∷ es) h = ground (arith, exists-has_nonce nonce until es)

exists_later :
    (test : Text × ℕ → Bool) (x : Text × ℕ) (xs : List (Text × ℕ))
    → exists test xs ≡ true
    → exists test (x ∷ xs) ≡ true
exists_later test x xs h = elim (Bool-cases (test x)) [ inl e ↦ rw e refl | inr e ↦ rw e h ]

check_and_add-Remembers :
    (nonce other : Text) (until now : ℕ) (cache : ReplayCache)
    → now < until
    → Remembers nonce until cache
    → Remembers nonce until (check_and_add other now cache).1
unfolding check_and_add
check_and_add-Remembers nonce other until now cache lt h =
    let kept = prune-exists nonce until now cache.seen lt h in
    elim (Bool-cases (has_nonce other (prune now cache.seen))) [
      | inl e ↦ rw e kept
      | inr e ↦
          rw e
            (exists_later (λ x. text_eq x.0 nonce && leb until x.1) _ (prune now cache.seen) kept)
    ]

check_and_add_fresh :
    (nonce : Text) (now : ℕ) (cache : ReplayCache)
    → (check_and_add nonce now cache).0 ≡ true
    → Remembers nonce (now + cache.ttl) (check_and_add nonce now cache).1
unfolding check_and_add
check_and_add_fresh nonce now cache h = elim (Bool-cases (has_nonce nonce (prune now cache.seen))) [
  | inl e ↦ let bad : false ≡ true = rw e at h in cc (bad)
  | inr e ↦ rw (e, text_eq_refl nonce, leb_refl (now + cache.ttl)) refl
]
  where
    leb_refl : (n : ℕ) → leb n n ≡ true
    leb_refl n = ground arith

pub check_and_add_seen :
    (nonce : Text) (until now : ℕ) (cache : ReplayCache)
    → now < until
    → Remembers nonce until cache
    → (check_and_add nonce now cache).0 ≡ false
unfolding check_and_add
check_and_add_seen nonce until now cache lt h =
    rw
      (exists-has_nonce nonce until (prune now cache.seen)
        (prune-exists nonce until now cache.seen lt h))
      refl

module _ {Key : Type 0} (out : Outside Key) where
  -- What `verify_proof` is called with.
  pub record Attempt : Type 0 where
    pub proof : Text
    pub client_key : Key
    pub audience : Text
    pub method : Text
    pub request_sha256 : Text
    pub now : ℕ
    pub skew : ℤ

  abbrev pub attempt : Attempt → ReplayCache → Result Entries × ReplayCache
  attempt a cache =
      verify_proof out a.proof a.client_key a.audience a.method a.request_sha256 a.now a.skew cache

  abbrev pub accepts : Attempt → Result (Entries × Text)
  accepts a =
      proof_claims out a.proof a.client_key a.audience a.method a.request_sha256 a.now a.skew

  -- The cache after some calls.
  abbrev pub after_all : List Attempt → ReplayCache → ReplayCache
  after_all [] cache = cache
  after_all (a ∷ as_) cache = after_all as_ (attempt a cache).1

  with_cache-Remembers :
      (nonce : Text) (until now : ℕ) (r : Result (Entries × Text)) (cache : ReplayCache)
      → now < until
      → Remembers nonce until cache
      → Remembers nonce until (with_cache r now cache).1
  with_cache-Remembers nonce until now (err e) cache lt h = h
  with_cache-Remembers nonce until now (ok (claims, other)) cache lt h =
      subst (λ c. Remembers nonce until c)
        (sym (if_fresh_cache claims (check_and_add other now cache)))
        (check_and_add-Remembers nonce other until now cache lt h)
    where
      if_fresh_cache : (claims : Entries) (r : Bool × ReplayCache) → (if_fresh claims r).1 ≡ r.1
      if_fresh_cache claims (true, c) = refl
      if_fresh_cache claims (false, c) = refl

  pub after_all-Remembers :
      (nonce : Text) (until : ℕ) (calls : List Attempt) (cache : ReplayCache)
      → Every (λ a. a.now < until) calls
      → Remembers nonce until cache
      → Remembers nonce until (after_all calls cache)
  unfolding verify_proof
  after_all-Remembers nonce until [] cache lt h = h
  after_all-Remembers nonce until (a ∷ rest) cache lt h =
      after_all-Remembers nonce until rest (attempt a cache).1 lt.1
        (with_cache-Remembers nonce until a.now (accepts a) cache lt.0 h)

  -- What an acceptance needs and leaves.
  pub attempt-accepts :
      (a : Attempt) {claims : Entries} (cache : ReplayCache)
      → (attempt a cache).0 ≡ ok claims
      → (nonce : Text) × (accepts a ≡ ok (claims, nonce))
        × ((check_and_add nonce a.now cache).0 ≡ true)
        × Remembers nonce (a.now + cache.ttl) (attempt a cache).1
  unfolding verify_proof
  attempt-accepts a {claims = claims} cache h = go (accepts a) refl h
    where
      fresh :
          (claims found : Entries) (r : Bool × ReplayCache)
          → (if_fresh found r).0 ≡ ok claims
          → (r.0 ≡ true) × (found ≡ claims) × ((if_fresh found r).1 ≡ r.1)
      fresh claims found (true, c) k = (refl, cc (k), refl)
      fresh claims found (false, c) k = cc

      go :
          (r : Result (Entries × Text))
          → accepts a ≡ r
          → (with_cache r a.now cache).0 ≡ ok claims
          → (nonce : Text) × (accepts a ≡ ok (claims, nonce))
            × ((check_and_add nonce a.now cache).0 ≡ true)
            × Remembers nonce (a.now + cache.ttl) (with_cache r a.now cache).1
      go (err e) k l = cc
      go (ok (found, nonce)) k l =
          let (new, same, left) = fresh claims found (check_and_add nonce a.now cache) l in
          (
            nonce,
            k ∙ ap (λ c. ok (c, nonce)) same,
            new,
            subst (Remembers nonce (a.now + cache.ttl)) (sym left)
                (check_and_add_fresh nonce a.now cache new),
          )
