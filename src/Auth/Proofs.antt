-- ===== src/Auth/Proofs.antt =====
-- What a proof that `verify_proof` accepts says.
use laneq.Common.{
  ◌≡◌, refl, ap, ◌∙◌, subst, Bool, true, false, not, ◌&&◌, Bool-cases, inl, inr, [], ◌∷◌, Option,
  none, some, ok,
}
use laneq.Text.{Text, codes, text_eq}
use laneq.Text.Order.{eq_of_text_eq}
use laneq.Contract.Bounds.{bind_returns}
use laneq.Auth.{
  Number, Claim, text, Entries, get, Outside, or_refuse, as_object, is_text, null, bool, number,
  list, dict, is_ascii, is_empty, full_text, compare_digest, refuse_if, outside_window,
  required_number, verified_proof_nonce, proof_claims,
}
use laneq.Auth.Replay.{Attempt, accepts}

pub or_refuse-ok : {A : Type 0} (o : Option A) {a : A} → or_refuse o ≡ ok a → o ≡ some a
or_refuse-ok none h = cc
or_refuse-ok (some a) h = cc (h)

pub refused_not : (b : Bool) {u : Unit {0}} → refuse_if b ≡ ok u → b ≡ false
refused_not true h = cc
refused_not false h = refl

pub not-false : (b : Bool) → not b ≡ false → b ≡ true
not-false true h = refl
not-false false h = cc

-- A claim that is a text.
pub is_text-eq : (c : Option Claim) (t : Text) → is_text c t ≡ true → c ≡ some (text t)
is_text-eq none t h = cc
is_text-eq (some null) t h = cc
is_text-eq (some (bool b)) t h = cc
is_text-eq (some (number n)) t h = cc
is_text-eq (some (text s)) t h = ap (λ x. some (text x)) (eq_of_text_eq s t h)
is_text-eq (some (list cs)) t h = cc
is_text-eq (some (dict es)) t h = cc

full_text-eq : (c : Option Claim) {t : Text} → full_text c ≡ ok t → c ≡ some (text t)
full_text-eq none h = cc
full_text-eq (some null) h = cc
full_text-eq (some (bool b)) h = cc
full_text-eq (some (number n)) h = cc
full_text-eq (some (text [])) h = cc
full_text-eq (some (text (x ∷ s))) {t} h =
    let same : x ∷ s ≡ t = cc (h) in ap (λ x. some (text x)) same
full_text-eq (some (list cs)) h = cc
full_text-eq (some (dict es)) h = cc

compare_digest-eq : (a b : Text) {r : Bool} → compare_digest a b ≡ ok r → r ≡ true → a ≡ b
compare_digest-eq a b {r} h e = elim (Bool-cases (is_ascii a && is_ascii b)) [
  | inl k ↦ let same : text_eq a b ≡ r = cc (rw k at h) in eq_of_text_eq a b (same ∙ e)
  | inr k ↦ cc (rw k at h)
]

module _ {Key : Type 0} (out : Outside Key) where
  -- The claims name the audience, the method and the digest of the request, a time within the
  -- window, and a nonce.
  pub record IsBound (a : Attempt out) (claims : Entries) (nonce : Text) : Type 0 where
    pub for_audience : get (codes "aud") claims ≡ some (text a.audience)
    pub for_method : get (codes "method") claims ≡ some (text a.method)
    pub for_request : get (codes "request_sha256") claims ≡ some (text a.request_sha256)
    pub iat : Number
    pub has_iat : required_number (get (codes "iat") claims) ≡ ok iat
    pub in_window : outside_window out a.now a.skew iat ≡ ok false
    pub has_nonce : full_text (get (codes "nonce") claims) ≡ ok nonce

  -- The token is signed by the key, and its payload is an object with such claims.
  pub record IsProof (a : Attempt out) (claims : Entries) (nonce : Text) : Type 0 where
    pub payload : Text
    pub signed : out.decode (a.client_key ∷ []) a.proof ≡ some payload
    pub object : as_object (out.loads payload) ≡ ok claims
    pub bound : IsBound a claims nonce

  verified-IsBound :
      (a : Attempt out) (claims : Entries) {nonce : Text}
      → verified_proof_nonce out claims a.audience a.method a.request_sha256 a.now a.skew ≡ ok nonce
      → IsBound a claims nonce
  unfolding verified_proof_nonce
  verified-IsBound a claims {nonce} h =
      let (u1, aud, h1) =
        bind_returns (refuse_if (not (is_text (get (codes "aud") claims) a.audience))) _ h in
      let (u2, method, h2) =
        bind_returns (refuse_if (not (is_text (get (codes "method") claims) a.method))) _ h1 in
      let (u3, full, h3) = bind_returns (refuse_if (is_empty a.request_sha256)) _ h2 in
      let (digest, found, h4) =
        bind_returns (full_text (get (codes "request_sha256") claims)) _ h3 in
      let (same, compared, h5) = bind_returns (compare_digest digest a.request_sha256) _ h4 in
      let (u4, equal, h6) = bind_returns (refuse_if (not same)) _ h5 in
      let (iat, has_iat, h7) = bind_returns (required_number (get (codes "iat") claims)) _ h6 in
      let (late, window, h8) = bind_returns (outside_window out a.now a.skew iat) _ h7 in
      let (u5, in_time, h9) = bind_returns (refuse_if late) _ h8 in
      record {
        for_audience = is_text-eq _ _ (not-false _ (refused_not _ aud));
        for_method = is_text-eq _ _ (not-false _ (refused_not _ method));
        for_request =
            full_text-eq _ found
            ∙ ap (λ d. some (text d))
                (compare_digest-eq digest a.request_sha256 compared
                  (not-false same (refused_not _ equal)));
        iat = iat;
        has_iat = has_iat;
        in_window = window ∙ ap ok (refused_not late in_time);
        has_nonce = h9;
      }

  pub accepts-IsProof :
      (a : Attempt out) {claims : Entries} {nonce : Text}
      → accepts out a ≡ ok (claims, nonce)
      → IsProof a claims nonce
  unfolding proof_claims
  accepts-IsProof a {claims} {nonce} h =
      let (payload, signed, h1) =
        bind_returns (or_refuse (out.decode (a.client_key ∷ []) a.proof)) _ h in
      let (found, object, h2) = bind_returns (as_object (out.loads payload)) _ h1 in
      let (mine, verified, h3) =
        bind_returns
          (verified_proof_nonce out found a.audience a.method a.request_sha256 a.now a.skew) _ h2 in
      let same : ◌≡◌ {A = Entries × Text} (found, mine) (claims, nonce) = cc (h3) in
      subst (λ p. IsProof a p.0 p.1) same
        (record {
          payload = payload;
          signed = or_refuse-ok _ signed;
          object = object;
          bound = verified-IsBound a found verified;
        })
