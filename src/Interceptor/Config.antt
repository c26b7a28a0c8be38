-- ===== src/Interceptor/Config.antt =====
-- What `build_interceptor_from_env` builds.
use laneq.Common.{
  ℕ, zero, suc, ◌*◌, ◌≤◌, ◌≡◌, ◌≢◌, ◌⊎◌, refl, sym, subst, Bool, true, false, List, [], ◌∷◌, Option,
  none, some, Result, ok, err, inl, inr, Bool-cases, arith, if◌then◌else◌,
}
use laneq.Text.{Text, codes, text_eq}
use laneq.Contract.Bounds.{bind_returns}
use laneq.Ints.{ℤ, pos, negsuc}
use laneq.Auth.{Outside}
use laneq.Interceptor.{
  Mode, off, log_only, enforce, mode_of, Interceptor, ttl_seconds, new_interceptor, Files,
  split_paths, int_of, or_text, read_keys, required, some_of, build_from,
  build_interceptor_from_env,
}

mul_mono : (k m n : ℕ) → m ≤ n → k * m ≤ k * n
mul_mono zero m n h = omega arith
mul_mono (suc k) m n h = grind (arith, mul_mono k m n h)

-- The cache remembers for a minute at least, and for twice the skew.
ttl_minute : (skew : ℤ) → 60 ≤ ttl_seconds skew
ttl_minute (pos s) = ground arith
ttl_minute (negsuc s) = omega arith

ttl_twice : (second s : ℕ) → 2 * (second * s) ≤ second * ttl_seconds (pos s)
ttl_twice second s = grind (arith, mul_mono second (s * 2) (ttl_seconds (pos s)) (ground arith))

if-eq-ok :
    {A : Type 0} (b : Bool) (x y : Result A) {a : A}
    → (if b then x else y) ≡ ok a
    → ((b ≡ true) × (x ≡ ok a)) ⊎ ((b ≡ false) × (y ≡ ok a))
if-eq-ok true x y h = inl (refl, h)
if-eq-ok false x y h = inr (refl, h)

module _ {Key : Type 0} (out : Outside Key) (files : Files Key) where
  -- A configured interceptor: it trusts a key at least, has an audience, checks in one of the two
  -- modes, has seen no nonce, and remembers one for a minute at least and for twice the skew.
  pub record IsConfigured (i : Interceptor Key) : Type 0 where
    pub has_key : i.public_keys ≢ []
    pub has_audience : i.audience ≢ []
    pub checks : i.mode ≢ off
    pub unseen : i.replay.seen ≡ []
    pub minute : out.second * 60 ≤ i.replay.ttl
    pub twice_skew : (s : ℕ) → i.skew ≡ pos s → 2 * (out.second * s) ≤ i.replay.ttl

  required-eq-ok : {A : Type 0} (xs : List A) {ys : List A} → required xs ≡ ok ys → ys ≢ []
  required-eq-ok [] h = cc
  required-eq-ok (x ∷ xs) {ys} h = λ e. let same : x ∷ xs ≡ ys = cc (h) in cc (same, e)

  mode_of-checks :
      (name : Text) {m : Mode} → text_eq name (codes "off") ≡ false → mode_of name ≡ ok m → m ≢ off
  unfolding mode_of
  mode_of-checks name {m} h k = elim (Bool-cases (text_eq name (codes "log-only"))) [
    | inl e ↦ let same : log_only ≡ m = cc (rw (h, e) at k) in λ x. cc (same, x)
    | inr e ↦ elim (Bool-cases (text_eq name (codes "enforce"))) [
      | inl u ↦ let same : enforce ≡ m = cc (rw (h, e, u) at k) in λ x. cc (same, x)
      | inr u ↦ cc (rw (h, e, u) at k)
    ]
  ]

  new-IsConfigured :
      (keys : List Key) (audience mode : Text) (skew : ℤ) {i : Interceptor Key}
      → keys ≢ []
      → audience ≢ []
      → text_eq mode (codes "off") ≡ false
      → new_interceptor out keys audience mode skew ≡ ok i
      → IsConfigured i
  unfolding new_interceptor
  new-IsConfigured keys audience mode skew {i} a b c h =
      let (m, is_mode, h1) = bind_returns (mode_of mode) _ h in
      let checks = mode_of-checks mode c is_mode in
      let j : Interceptor Key = record {
        public_keys = keys;
        audience = audience;
        mode = m;
        skew = skew;
        replay = record { ttl = out.second * ttl_seconds skew; seen = [] };
      } in
      let same : j ≡ i = cc (h1) in
      subst IsConfigured same (record {
        has_key = a;
        has_audience = b;
        checks = checks;
        unseen = refl;
        minute = mul_mono out.second 60 (ttl_seconds skew) (ttl_minute skew);
        twice_skew = λ s e.
            subst (λ x. 2 * (out.second * s) ≤ out.second * ttl_seconds x) (sym e)
              (ttl_twice out.second s);
      })

  some_of-eq-ok :
      (r : Result (Interceptor Key)) {o : Option (Interceptor Key)}
      → some_of r ≡ ok o
      → (i : Interceptor Key) × (o ≡ some i) × (r ≡ ok i)
  some_of-eq-ok (err e) h = cc
  some_of-eq-ok (ok i) {o} h = let same : some i ≡ o = cc (h) in (i, sym same, refl)

  build_from-IsConfigured :
      (mode : Text) (env : Text → Option Text) {o : Option (Interceptor Key)}
      → text_eq mode (codes "off") ≡ false
      → build_from out files mode env ≡ ok o
      → (i : Interceptor Key) × (o ≡ some i) × IsConfigured i
  unfolding build_from
  build_from-IsConfigured mode env e h =
      let (audience, has_audience, h1) =
        bind_returns (required (or_text (env (codes "LANEQ_AUTH_AUDIENCE")) [])) _ h in
      let (found, read, h2) =
        bind_returns
          (read_keys files (split_paths (or_text (env (codes "LANEQ_AUTH_PUBKEY_PATHS")) []))) _
          h1 in
      let (keys, has_key, h3) = bind_returns (required found) _ h2 in
      let (skew, is_skew, h4) =
        bind_returns (int_of (or_text (env (codes "LANEQ_AUTH_SKEW_SECONDS")) (codes "30"))) _ h3 in
      let (i, is_i, made) = some_of-eq-ok (new_interceptor out keys audience mode skew) h4 in
      (
        i,
        is_i,
        new-IsConfigured keys audience mode skew (required-eq-ok found has_key)
            (required-eq-ok (or_text (env (codes "LANEQ_AUTH_AUDIENCE")) []) has_audience) e made,
      )

  -- Where `build_interceptor_from_env` returns, it has returned None and the mode is "off" or not
  -- set, or it has returned a configured interceptor.
  pub build-IsConfigured :
      (env : Text → Option Text) {o : Option (Interceptor Key)}
      → build_interceptor_from_env out files env ≡ ok o
      → ((o ≡ none)
          × (text_eq (or_text (env (codes "LANEQ_AUTH_MODE")) (codes "off")) (codes "off") ≡ true))
        ⊎ ((i : Interceptor Key) × (o ≡ some i) × IsConfigured i)
  unfolding build_interceptor_from_env
  build-IsConfigured env {o} h =
      let mode = or_text (env (codes "LANEQ_AUTH_MODE")) (codes "off") in
      elim (if-eq-ok (text_eq mode (codes "off")) (ok none) (build_from out files mode env) h) [
        | inl (e, k) ↦ let same : none ≡ o = cc (k) in inl (sym same, e)
        | inr (e, k) ↦ inr (build_from-IsConfigured mode env e k)
      ]
