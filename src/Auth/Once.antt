-- ===== src/Auth/Once.antt =====
-- A proof that was accepted is not accepted again, but at one moment.
use laneq.Common.{
  ℕ, ◌+◌, ◌*◌, ◌≤◌, ◌≡◌, ◌≢◌, refl, sym, ◌∙◌, subst, List, true, false, ok, arith, Bool-cases, inl,
  inr, dec_lt, ltb,
}
use laneq.Text.{Text, codes}
use laneq.Sql.Order.{Every, Every-map}
use laneq.Ints.{ℤ, pos, negsuc}
use laneq.Auth.{
  Number, finite, nan, infinity, minus_infinity, Entries, get, Outside, ReplayCache, check_and_add,
  distance, outside_window, required_number,
}
use laneq.Auth.Replay.{
  Attempt, attempt, after_all, Remembers, after_all-Remembers, attempt-accepts, check_and_add_seen,
}
use laneq.Auth.Proofs.{IsProof, accepts-IsProof}

window_gap :
    (first second skew : ℕ) (n : ℤ)
    → ltb skew (distance first n) ≡ false
    → ltb skew (distance second n) ≡ false
    → second ≤ first + 2 * skew
window_gap first second skew (pos n) h k = ground arith
window_gap first second skew (negsuc n) h k = ground arith

module _ {Key : Type 0} (out : Outside Key) where
  -- A time that a proof may claim: not NaN, which is in every window.
  finite_window :
      (now skew : ℕ) (iat : Number)
      → iat ≢ nan
      → outside_window out now (pos skew) iat ≡ ok false
      → (n : ℤ) × (iat ≡ finite n) × (ltb skew (distance now n) ≡ false)
  unfolding outside_window
  finite_window now skew (finite n) real h = elim (Bool-cases (out.too_large n)) [
    | inl e ↦ cc (rw e at h)
    | inr e ↦ let inside : ltb skew (distance now n) ≡ false = cc (rw e at h) in (n, refl, inside)
  ]
  finite_window now skew nan real h = absurd (real refl)
  finite_window now skew infinity real h = cc
  finite_window now skew minus_infinity real h = cc

  -- Both attempts have shown the same claims, and so the same nonce and time.
  same_claims :
      (a b : Attempt out) {c d : Entries} {m n : Text}
      → b.proof ≡ a.proof
      → b.client_key ≡ a.client_key
      → IsProof out a c m
      → IsProof out b d n
      → (d ≡ c) × (n ≡ m)
  same_claims a b {c} {d} {m} {n} p k first second =
      let payload : second.payload ≡ first.payload = cc (p, k, first.signed, second.signed) in
      let object : d ≡ c = cc (payload, first.object, second.object) in
      let nonce : n ≡ m = cc (object, first.bound.has_nonce, second.bound.has_nonce) in
      (object, nonce)

  -- While the cache remembers the nonce, no attempt with it is accepted.
  forgotten :
      (b : Attempt out) (calls : List (Attempt out)) (cache : ReplayCache) (nonce : Text)
      (until : ℕ)
      → Every (λ x. x.now ≤ b.now) calls
      → Remembers nonce until cache
      → (check_and_add nonce b.now (after_all out calls cache)).0 ≡ true
      → until ≤ b.now
  forgotten b calls cache nonce until up has new = elim (dec_lt b.now until) [
    | no ge ↦ omega (arith, ge)
    | yes lt ↦
        let kept =
          after_all-Remembers out nonce until calls cache
            (Every-map (λ x le. omega (arith, lt, le)) calls up) has in
        let bad : false ≡ true =
          sym (check_and_add_seen nonce until b.now (after_all out calls cache) lt kept) ∙ new in
        cc (bad)
  ]

  -- Both attempts are in the window of the same time.
  both_inside :
      (a b : Attempt out) (skew : ℕ) {c d : Entries} {m n : Text}
      → a.skew ≡ pos skew
      → b.skew ≡ pos skew
      → d ≡ c
      → ((iat : Number) → required_number (get (codes "iat") c) ≡ ok iat → iat ≢ nan)
      → IsProof out a c m
      → IsProof out b d n
      → b.now ≤ a.now + 2 * skew
  both_inside a b skew {c} {d} sa sb same real pa pb =
      let mine =
        subst (λ s. outside_window out a.now s pa.bound.iat ≡ ok false) sa pa.bound.in_window in
      let (n, is_n, inside) =
        finite_window a.now skew pa.bound.iat (real pa.bound.iat pa.bound.has_iat) mine in
      let again : pb.bound.iat ≡ finite n = cc (same, is_n, pa.bound.has_iat, pb.bound.has_iat) in
      let yours =
        subst (λ s. outside_window out b.now s pb.bound.iat ≡ ok false) sb pb.bound.in_window in
      let (k, is_k, inside_b) = finite_window b.now skew pb.bound.iat (λ e. cc (again, e)) yours in
      let one : k ≡ n = cc (is_k, again) in
      window_gap a.now b.now skew n inside
        (subst (λ x. ltb skew (distance b.now x) ≡ false) one inside_b)

  -- A proof that `verify_proof` has accepted is refused under the same key ever after, whatever
  -- other calls come in between, if the clock does not go back: it could be accepted again at one
  -- moment only, exactly twice the skew later, if the cache remembers a nonce no longer than that.
  -- The skew is not negative, the cache remembers a nonce for at least twice the skew, and the time
  -- that the proof claims is not NaN.
  pub verify_proof_once :
      (a b : Attempt out) (calls : List (Attempt out)) (cache : ReplayCache) (skew : ℕ)
      {c d : Entries}
      → b.proof ≡ a.proof
      → b.client_key ≡ a.client_key
      → a.skew ≡ pos skew
      → b.skew ≡ pos skew
      → 2 * skew ≤ cache.ttl
      → ((iat : Number) → required_number (get (codes "iat") c) ≡ ok iat → iat ≢ nan)
      → Every (λ x. x.now ≤ b.now) calls
      → (attempt out a cache).0 ≡ ok c
      → (attempt out b (after_all out calls (attempt out a cache).1)).0 ≡ ok d
      → (b.now ≡ a.now + 2 * skew) × (cache.ttl ≡ 2 * skew)
  verify_proof_once a b calls cache skew {c} {d} p k sa sb long real up first second =
      let (m, ea, new, has) = attempt-accepts out a cache first in
      let (n, eb, again, rest) =
        attempt-accepts out b (after_all out calls (attempt out a cache).1) second in
      let pa = accepts-IsProof out a ea in
      let pb = accepts-IsProof out b eb in
      let (same, nonce) = same_claims a b p k pa pb in
      let late = forgotten b calls (attempt out a cache).1 m (a.now + cache.ttl) up has (
        subst (λ x. (check_and_add x b.now (after_all out calls (attempt out a cache).1)).0 ≡ true)
          nonce again) in
      let early = both_inside a b skew sa sb same real pa pb in
      (omega (arith, late, early, long), omega (arith, late, early, long))
