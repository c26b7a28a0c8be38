-- ===== src/Auth/Grants.antt =====
-- Which grants `verify_grant` accepts.
use laneq.Common.{
  ◌≡◌, ◌↔◌, ◌⊎◌, inl, inr, refl, subst, ℕ, Bool, true, false, not, List, Option, none, some, Result,
  ok, err, Error, grant_error,
}
use laneq.Text.{Text, codes}
use laneq.Text.Order.{text_eq_refl}
use laneq.Contract.{◌>>=◌}
use laneq.Contract.Bounds.{bind_returns}
use laneq.Auth.{
  Number, Claim, null, bool, number, text, list, dict, Entries, get, Outside, or_refuse, as_object,
  is_text, numeric, numeric_claim, refuse_if, reaches, reaches_claim, is_before_claim, verify_grant,
}
use laneq.Auth.Proofs.{or_refuse-ok, refused_not, not-false, is_text-eq}

required-eq :
    (c : Option Claim) {n : Option Number}
    → numeric c true ≡ ok n
    → (m : Number) × (c ≡ some (number m)) × (n ≡ some m)
unfolding numeric
required-eq none h = cc
required-eq (some null) h = cc
required-eq (some (bool b)) h = cc
required-eq (some (number m)) {n} h = let same : n ≡ some m = cc (h) in (m, refl, same)
required-eq (some (text s)) h = cc
required-eq (some (list cs)) h = cc
required-eq (some (dict es)) h = cc

-- No other exception than GrantError.
abbrev OnlyRefuses : {A : Type 0} → Result A → Type 0
OnlyRefuses r = (e : Error) → r ≡ err e → e ≡ grant_error

OnlyRefuses-bind :
    {A B : Type 0} (m : Result A) (f : A → Result B)
    → OnlyRefuses m
    → ((a : A) → OnlyRefuses (f a))
    → OnlyRefuses (m >>= f)
OnlyRefuses-bind (err x) f h k e = λ same. h e (cc (same))
OnlyRefuses-bind (ok a) f h k e = k a e

OnlyRefuses-or_refuse : {A : Type 0} (o : Option A) → OnlyRefuses (or_refuse o)
OnlyRefuses-or_refuse none e h = cc (h)
OnlyRefuses-or_refuse (some a) e h = cc

OnlyRefuses-refuse_if : (b : Bool) → OnlyRefuses (refuse_if b)
OnlyRefuses-refuse_if true e h = cc (h)
OnlyRefuses-refuse_if false e h = cc

OnlyRefuses-numeric : (c : Option Claim) (required : Bool) → OnlyRefuses (numeric c required)
unfolding numeric
OnlyRefuses-numeric none true e h = cc (h)
OnlyRefuses-numeric none false e h = cc
OnlyRefuses-numeric (some null) true e h = cc (h)
OnlyRefuses-numeric (some null) false e h = cc
OnlyRefuses-numeric (some (bool b)) required e h = cc (h)
OnlyRefuses-numeric (some (number n)) required e h = cc
OnlyRefuses-numeric (some (text s)) required e h = cc (h)
OnlyRefuses-numeric (some (list cs)) required e h = cc (h)
OnlyRefuses-numeric (some (dict es)) required e h = cc (h)

OnlyRefuses-ok : {A : Type 0} (a : A) → OnlyRefuses (ok a)
OnlyRefuses-ok a e h = cc

-- What a block raises, its first step or the rest raises.
bind_raises :
    {A B : Type 0} (P : Error → Type 0) (m : Result A) (f : A → Result B)
    → ((e : Error) → m ≡ err e → P e)
    → ((a : A) → m ≡ ok a → (e : Error) → f a ≡ err e → P e)
    → (e : Error) → (m >>= f) ≡ err e
    → P e
bind_raises P (err x) f h k e same = h e (cc (same))
bind_raises P (ok a) f h k e same = k a refl e same

-- A payload is no object, or `json.loads` has raised what is not caught.
object_raises :
    (r : Result Claim) (e : Error) → as_object r ≡ err e → (e ≡ grant_error) ⊎ (r ≡ err e)
object_raises (err Error.queue_error) e h = inr (cc (h))
object_raises (err Error.not_found) e h = inr (cc (h))
object_raises (err Error.precondition) e h = inr (cc (h))
object_raises (err grant_error) e h = inl (cc (h))
object_raises (err Error.argument_type) e h = inr (cc (h))
object_raises (err Error.key_error) e h = inr (cc (h))
object_raises (err Error.type_error) e h = inl (cc (h))
object_raises (err Error.value_error) e h = inl (cc (h))
object_raises (err Error.overflow_error) e h = inr (cc (h))
object_raises (err Error.recursion_error) e h = inr (cc (h))
object_raises (err Error.os_error) e h = inr (cc (h))
object_raises (err Error.operational_error) e h = inr (cc (h))
object_raises (ok null) e h = inl (cc (h))
object_raises (ok (bool b)) e h = inl (cc (h))
object_raises (ok (number n)) e h = inl (cc (h))
object_raises (ok (text s)) e h = inl (cc (h))
object_raises (ok (list cs)) e h = inl (cc (h))
object_raises (ok (dict es)) e h = cc

ruleset refusals = (
  OnlyRefuses-bind, OnlyRefuses-or_refuse, OnlyRefuses-refuse_if, OnlyRefuses-numeric,
  OnlyRefuses-ok,
)

module _ {Key : Type 0} (out : Outside Key) where
  -- One of the keys has signed the token, its payload is an object with the claims, its `exp` is a
  -- number that the time has not reached, its `nbf` is absent, null or a number that the time is not
  -- before, and its `aud` is the audience.
  pub record IsGrant (token : Text) (keys : List Key) (audience : Text) (now : ℕ) (claims : Entries)
      : Type 0 where
    pub payload : Text
    pub signed : out.decode keys token ≡ some payload
    pub object : as_object (out.loads payload) ≡ ok claims
    pub exp : Number
    pub has_exp : get (codes "exp") claims ≡ some (number exp)
    pub not_expired : reaches now exp ≡ false
    pub nbf : Option Number
    pub has_nbf : numeric_claim claims (codes "nbf") false ≡ ok nbf
    pub valid : is_before_claim now nbf ≡ false
    pub for_audience : get (codes "aud") claims ≡ some (text audience)

  accepted-IsGrant :
      (token : Text) (keys : List Key) (audience : Text) (now : ℕ) {claims : Entries}
      → verify_grant out token keys audience now ≡ ok claims
      → IsGrant token keys audience now claims
  unfolding verify_grant
  accepted-IsGrant token keys audience now {claims} h =
      let (payload, signed, h1) = bind_returns (or_refuse (out.decode keys token)) _ h in
      let (found, object, h2) = bind_returns (as_object (out.loads payload)) _ h1 in
      let (exp, has_exp, h3) = bind_returns (numeric_claim found (codes "exp") true) _ h2 in
      let (u1, fresh, h4) = bind_returns (refuse_if (reaches_claim now exp)) _ h3 in
      let (nbf, has_nbf, h5) = bind_returns (numeric_claim found (codes "nbf") false) _ h4 in
      let (u2, valid, h6) = bind_returns (refuse_if (is_before_claim now nbf)) _ h5 in
      let (u3, aud, h7) =
        bind_returns (refuse_if (not (is_text (get (codes "aud") found) audience))) _ h6 in
      let same : found ≡ claims = cc (h7) in
      let (m, is_number, is_some) = required_claim found has_exp in
      subst (IsGrant token keys audience now) same (record {
        payload = payload;
        signed = or_refuse-ok _ signed;
        object = object;
        exp = m;
        has_exp = is_number;
        not_expired = subst (λ e. reaches_claim now e ≡ false) is_some (refused_not _ fresh);
        nbf = nbf;
        has_nbf = has_nbf;
        valid = refused_not _ valid;
        for_audience = is_text-eq _ _ (not-false _ (refused_not _ aud));
      })
    where
      required_claim :
          (found : Entries) {n : Option Number}
          → numeric_claim found (codes "exp") true ≡ ok n
          → (m : Number) × (get (codes "exp") found ≡ some (number m)) × (n ≡ some m)
      required_claim found k = required-eq (get (codes "exp") found) k

  grant_accepted :
      (token : Text) (keys : List Key) (audience : Text) (now : ℕ) (claims : Entries)
      → IsGrant token keys audience now claims
      → verify_grant out token keys audience now ≡ ok claims
  unfolding verify_grant numeric
  grant_accepted token keys audience now claims g =
      rw
        (
          g.signed,
          g.object,
          g.has_exp,
          g.not_expired,
          g.has_nbf,
          g.valid,
          g.for_audience,
          text_eq_refl audience,
        )
        refl

  -- GrantError, or what `json.loads` has raised for the payload of the token.
  abbrev pub IsRaised : Text → List Key → Error → Type 0
  IsRaised token keys e =
      (e ≡ grant_error)
      ⊎ ((payload : Text) × (out.decode keys token ≡ some payload) × (out.loads payload ≡ err e))

  verify_grant-IsRaised :
      (token : Text) (keys : List Key) (audience : Text) (now : ℕ) (e : Error)
      → verify_grant out token keys audience now ≡ err e
      → IsRaised token keys e
  unfolding verify_grant
  verify_grant-IsRaised token keys audience now =
      bind_raises (IsRaised token keys) (or_refuse (out.decode keys token)) _
        (λ e h. inl (OnlyRefuses-or_refuse _ e h))
        (λ payload signed.
          bind_raises (IsRaised token keys) (as_object (out.loads payload)) _
            (λ e h. elim (object_raises (out.loads payload) e h) [
              | inl same ↦ inl same
              | inr raised ↦ inr (payload, or_refuse-ok _ signed, raised)
            ])
            (λ claims object. only_refuses (search refusals depth 30)))
    where
      only_refuses :
          {r : Result Entries} → OnlyRefuses r → (e : Error) → r ≡ err e → IsRaised token keys e
      only_refuses h e same = inl (h e same)

  -- `verify_grant` accepts a token with these claims if and only if it is such a grant. Where it
  -- does not, it raises GrantError, or what `json.loads` raises for the payload of a signed token,
  -- such as RecursionError.
  pub verify_grant-IsGrant :
      (token : Text) (keys : List Key) (audience : Text) (now : ℕ)
      → ((claims : Entries)
          → (verify_grant out token keys audience now ≡ ok claims)
            ↔ IsGrant token keys audience now claims)
        × ((e : Error) → verify_grant out token keys audience now ≡ err e → IsRaised token keys e)
  verify_grant-IsGrant token keys audience now = (
    λ claims.
        (accepted-IsGrant token keys audience now, grant_accepted token keys audience now claims),
    verify_grant-IsRaised token keys audience now,
  )
